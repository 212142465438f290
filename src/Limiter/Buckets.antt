-- ===== src/Limiter/Buckets.antt =====
-- The rate buckets: every rate is positive, as the bucket library demands, and no two users share
-- a bucket.
use v2node_pro.Prelude.{
  ℕ, String, ◌≤◌, ◌≡◌, refl, Bool, true, false, none, some, List, [], ◌∷◌, arith, is_some,
  Option-cases, inl, inr, Bool-cases,
}
use v2node_pro.Prelude.Int.{ℤ, pos, ◌<ℤ◌, ltb_ℤ}
use v2node_pro.Prelude.Eq.{==_iff, string_eq, nat_eq, int_eq}
use v2node_pro.Prelude.Dict.{Dict, lookup, erase, lookup-insert, lookup-erase, lookup-nil}
use v2node_pro.Panel.{UserInfo}
use v2node_pro.Prelude.Text.{trim_prefix}
use v2node_pro.Format.{user_tag}
use v2node_pro.Limiter.{
  Limiter, UserLimitInfo, Registry, add_limiter, byte_rate, add_bucket, set_bucket, add_user,
  delete_user, modify_limits, modify_bucket, modify_user, update_user,
}
use v2node_pro.Limiter.Connect.{
  user_rate, claim_ip, count_device, take_bucket, finish, check_known, check_limit,
}
use v2node_pro.Limiter.Online.{get_online_device}
use mathlib.Core.List.{foldl}

pub record IsWellFormed (l : Limiter) : Type 0 where
  pub positive : (a : ℕ) (r : ℤ) → lookup a l.buckets ≡ some r → pos 0 <ℤ r
  pub live :
      (k : String) (a : ℕ) → lookup k l.speed_limiter ≡ some a → is_some (lookup a l.buckets) ≡ true
  pub fresh : (a : ℕ) → l.next_bucket ≤ a → lookup a l.buckets ≡ none
  pub unshared :
      (j k : String) (a : ℕ)
      → lookup j l.speed_limiter ≡ some a
      → lookup k l.speed_limiter ≡ some a
      → j ≡ k

-- The fields that the invariant reads are the same.
pub record SameBuckets (l m : Limiter) : Type 0 where
  pub speed_limiter : m.speed_limiter ≡ l.speed_limiter
  pub buckets : m.buckets ≡ l.buckets
  pub next_bucket : m.next_bucket ≡ l.next_bucket

module _ {l : Limiter} (w : IsWellFormed l) where
  pub same-IsWellFormed : {m : Limiter} → SameBuckets l m → IsWellFormed m
  same-IsWellFormed s = record {
    positive = rw s.buckets w.positive;
    live = rw (s.speed_limiter, s.buckets) w.live;
    fresh = rw (s.buckets, s.next_bucket) w.fresh;
    unshared = rw s.speed_limiter w.unshared;
  }

  add_bucket-IsWellFormed :
      (key : String) (rate : ℤ) → pos 0 <ℤ rate → IsWellFormed (add_bucket l key rate)
  unfolding add_bucket
  add_bucket-IsWellFormed key rate h = record {
    positive = λ a r e. ground (
      arith,
      ==_iff l.next_bucket a,
      lookup-insert l.next_bucket a rate l.buckets,
      w.positive a r,
    );
    live = λ k a e. ground (
      arith,
      lookup-insert key k l.next_bucket l.speed_limiter,
      lookup-insert l.next_bucket a rate l.buckets,
      w.live k a,
      ==_iff l.next_bucket a,
    );
    fresh = λ a e. ground (arith, lookup-insert l.next_bucket a rate l.buckets, w.fresh a);
    unshared = λ j k a e f. ground (
      arith,
      ==_iff key j,
      ==_iff key k,
      lookup-insert key j l.next_bucket l.speed_limiter,
      lookup-insert key k l.next_bucket l.speed_limiter,
      w.unshared j k a,
      w.live j a,
      w.live k a,
      w.fresh l.next_bucket,
    );
  }

  set_bucket-IsWellFormed :
      (key : String) (b : ℕ) (rate : ℤ)
      → lookup key l.speed_limiter ≡ some b
      → pos 0 <ℤ rate
      → IsWellFormed (set_bucket l b rate)
  unfolding set_bucket
  set_bucket-IsWellFormed key b rate held h = record {
    positive = λ a r e. ground (arith, lookup-insert b a rate l.buckets, w.positive a r);
    live = λ k a e. ground (arith, lookup-insert b a rate l.buckets, w.live k a);
    fresh =
        λ a e. ground (arith, lookup-insert b a rate l.buckets, w.fresh a, w.live key b, w.fresh b);
    unshared = w.unshared;
  }

  erase-IsWellFormed :
      (key : String) → IsWellFormed (record l { speed_limiter = erase key l.speed_limiter })
  erase-IsWellFormed key = record {
    positive = w.positive;
    live = λ k a e. ground (arith, lookup-erase key k l.speed_limiter, w.live k a);
    fresh = w.fresh;
    unshared = λ j k a e f. ground (
      arith,
      lookup-erase key j l.speed_limiter,
      lookup-erase key k l.speed_limiter,
      w.unshared j k a,
    );
  }

  take_bucket-IsWellFormed : (key : String) (rate : ℤ) → IsWellFormed (take_bucket l key rate).0
  unfolding take_bucket
  take_bucket-IsWellFormed key rate =
      elim (Bool-cases (ltb_ℤ (pos 0) (byte_rate l.speed_limit rate))) [
        | inl e ↦ elim (Option-cases (lookup key l.speed_limiter)) [
          | inl f ↦ rw (e, f, take_bucket) (add_bucket-IsWellFormed key _ (ground arith))
          | inr (b, f) ↦ rw (e, f, take_bucket) w
        ]
        | inr e ↦ rw (e, take_bucket) w
      ]

  modify_bucket-IsWellFormed : (key : String) (rate : ℤ) → IsWellFormed (modify_bucket key l rate)
  unfolding modify_bucket
  modify_bucket-IsWellFormed key rate = elim (Bool-cases (ltb_ℤ (pos 0) rate)) [
    | inl e ↦ elim (Option-cases (lookup key l.speed_limiter)) [
      | inl f ↦ rw (e, f, modify_bucket) (add_bucket-IsWellFormed key rate (ground arith))
      | inr (b, f) ↦ rw (e, f, modify_bucket) (set_bucket-IsWellFormed key b rate f (ground arith))
    ]
    | inr e ↦ rw e (erase-IsWellFormed key)
  ]

user_rate-SameBuckets :
    (l : Limiter) (key : String) (u : UserLimitInfo) (now : ℤ)
    → SameBuckets l (user_rate l key u now).0
unfolding user_rate
user_rate-SameBuckets l key u now = ground arith

claim_ip-SameBuckets :
    (l : Limiter) (key ip : String) (uid limit : ℤ) → SameBuckets l (claim_ip l key ip uid limit).0
unfolding claim_ip
claim_ip-SameBuckets l key ip uid limit = ground arith

finish-IsWellFormed :
    (key : String) (rate : ℤ) (p : Limiter × Bool)
    → IsWellFormed p.0
    → IsWellFormed (finish key rate p).0
unfolding finish
finish-IsWellFormed key rate (l, true) w = w
finish-IsWellFormed key rate (l, false) w = take_bucket-IsWellFormed w key rate

pub user_rate-IsWellFormed :
    (l : Limiter) (key : String) (u : UserLimitInfo) (now : ℤ)
    → IsWellFormed l
    → IsWellFormed (user_rate l key u now).0
user_rate-IsWellFormed l key u now w = same-IsWellFormed w (user_rate-SameBuckets l key u now)

count_device-SameBuckets :
    (l : Limiter) (key ip : String) (nu : Bool) (u : UserLimitInfo)
    → SameBuckets l (count_device l key ip nu u).0
unfolding count_device
count_device-SameBuckets l key ip nu u =
    ground (arith, claim_ip-SameBuckets l key ip u.uid u.device_limit)

pub count_device-IsWellFormed :
    (l : Limiter) (key ip : String) (nu : Bool) (u : UserLimitInfo)
    → IsWellFormed l
    → IsWellFormed (count_device l key ip nu u).0
count_device-IsWellFormed l key ip nu u w =
    same-IsWellFormed w (count_device-SameBuckets l key ip nu u)

check_known-IsWellFormed :
    (l : Limiter) (key ip : String) (nu : Bool) (now : ℤ) (u : UserLimitInfo)
    → IsWellFormed l
    → IsWellFormed (check_known l key ip nu now u).0
unfolding check_known
check_known-IsWellFormed l key ip nu now u w =
    finish-IsWellFormed key (user_rate l key u now).1
      (count_device (user_rate l key u now).0 key ip nu u)
      (count_device-IsWellFormed (user_rate l key u now).0 key ip nu u
        (user_rate-IsWellFormed l key u now w))

pub check_limit-IsWellFormed :
    (l : Limiter) (key ip : String) (nu : Bool) (now : ℤ)
    → IsWellFormed l
    → IsWellFormed (check_limit l key ip nu now).0
unfolding check_limit
check_limit-IsWellFormed l key ip nu now w = elim (Option-cases (lookup key l.user_limit_info)) [
  | inl e ↦ rw (e, check_limit) w
  | inr (u, e) ↦
      rw (e, check_limit) (check_known-IsWellFormed l key (trim_prefix ip "::ffff:") nu now u w)
]

module _ (tag : String) (l : Limiter) (u : UserInfo) (w : IsWellFormed l) where
  add_user-IsWellFormed : IsWellFormed (add_user tag l u)
  unfolding add_user
  add_user-IsWellFormed =
      same-IsWellFormed w (record { speed_limiter = refl; buckets = refl; next_bucket = refl })

  delete_user-IsWellFormed : IsWellFormed (delete_user tag l u)
  unfolding delete_user
  delete_user-IsWellFormed =
      same-IsWellFormed (erase-IsWellFormed w (user_tag tag u.uuid))
        (record { speed_limiter = refl; buckets = refl; next_bucket = refl })

  modify_limits-SameBuckets : SameBuckets l (modify_limits (user_tag tag u.uuid) l u)
  unfolding modify_limits
  modify_limits-SameBuckets = ground arith

  modify_user-IsWellFormed : IsWellFormed (modify_user tag l u)
  unfolding modify_user
  modify_user-IsWellFormed =
      modify_bucket-IsWellFormed (same-IsWellFormed w modify_limits-SameBuckets)
        (user_tag tag u.uuid) (byte_rate l.speed_limit u.speed_limit)

foldl_induction :
    (P : Limiter → Type 0) (f : Limiter → UserInfo → Limiter)
    → ((l : Limiter) (u : UserInfo) → P l → P (f l u))
    → (us : List UserInfo) (l : Limiter) → P l
    → P (foldl f l us)
foldl_induction P f step [] l h = h
foldl_induction P f step (u ∷ us) l h = foldl_induction P f step us (f l u) (step l u h)

pub update_user-IsWellFormed :
    (l : Limiter) (tag : String) (added deleted modified : List UserInfo)
    → IsWellFormed l
    → IsWellFormed (update_user l tag added deleted modified)
unfolding update_user
update_user-IsWellFormed l tag added deleted modified w =
    foldl_induction IsWellFormed (add_user tag) (add_user-IsWellFormed tag) added _ (
      foldl_induction IsWellFormed (modify_user tag) (modify_user-IsWellFormed tag) modified _
        (foldl_induction IsWellFormed (delete_user tag) (delete_user-IsWellFormed tag) deleted l w))

pub get_online_device-IsWellFormed :
    (l : Limiter) → IsWellFormed l → IsWellFormed (get_online_device l).0
unfolding get_online_device
get_online_device-IsWellFormed l w =
    same-IsWellFormed w (record { speed_limiter = refl; buckets = refl; next_bucket = refl })

pub add_limiter-IsWellFormed :
    (reg : Registry) (nodetype tag : String) (users : List UserInfo) (alive : Dict ℤ ℤ)
    → IsWellFormed (add_limiter reg nodetype tag users alive).1
unfolding add_limiter
add_limiter-IsWellFormed reg nodetype tag users alive =
    foldl_induction IsWellFormed (add_user tag) (add_user-IsWellFormed tag) users _ (record {
      positive = λ a r e. cc (lookup-nil {V = ℤ} a);
      live = λ k a e. cc (lookup-nil {V = ℕ} k);
      fresh = λ a h. lookup-nil a;
      unshared = λ j k a e f. cc (lookup-nil {V = ℕ} j);
    })
