-- ===== src/Limiter/Rates.antt =====
-- Which rate a connection gets, and when it changes.
use v2node_pro.Prelude.{
  ℕ, String, ◌≡◌, Bool, true, false, ◌&&◌, none, some, arith, if◌then◌else◌, Option-cases,
  Bool-cases, inl, inr,
}
use v2node_pro.Prelude.Int.{ℤ, pos, ltb_ℤ, ◌<ℤ◌}
use v2node_pro.Prelude.Eq.{◌==◌, ==_refl, string_eq, int_eq, nat_eq}
use v2node_pro.Prelude.Dict.{lookup, lookup-insert}
use v2node_pro.Prelude.Text.{trim_prefix}
use v2node_pro.Panel.{UserInfo}
use v2node_pro.Format.{user_tag}
use v2node_pro.Limiter.{
  Limiter, byte_rate, add_bucket, set_bucket, modify_limits, modify_bucket, modify_user,
}
use v2node_pro.Limiter.Connect.{
  Check, reject, admit, user_rate, count_device, take_bucket, finish, check_known, check_limit,
}
use v2node_pro.Limiter.Buckets.{IsWellFormed, user_rate-IsWellFormed, count_device-IsWellFormed}

-- The bucket is the user's, and it has a positive rate.
abbrev HasRate : Limiter → String → ℕ → Type 0
HasRate l key b =
    (lookup key l.speed_limiter ≡ some b) × ((r : ℤ) × (lookup b l.buckets ≡ some r) × (pos 0 <ℤ r))

-- What the caller gets from the check.
abbrev pub IsServed : Limiter → String → Check → Type 0
IsServed l key reject = Unit
IsServed l key (admit none) = Unit
IsServed l key (admit (some b)) = HasRate l key b

bucket-HasRate :
    (l : Limiter) (key : String) (b : ℕ)
    → IsWellFormed l
    → lookup key l.speed_limiter ≡ some b
    → HasRate l key b
bucket-HasRate l key b w e = elim (Option-cases (lookup b l.buckets)) [
  | inl f ↦ ground (arith, w.live key b)
  | inr (r, f) ↦ (e, (r, f, w.positive b r f))
]

take_bucket-IsServed :
    (l : Limiter) (key : String) (rate : ℤ)
    → IsWellFormed l
    → IsServed (take_bucket l key rate).0 key (take_bucket l key rate).1
unfolding take_bucket
take_bucket-IsServed l key rate w =
    elim (Bool-cases (ltb_ℤ (pos 0) (byte_rate l.speed_limit rate))) [
      | inl e ↦ elim (Option-cases (lookup key l.speed_limiter)) [
        | inl f ↦
            rw (e, f, take_bucket, add_bucket)
              (
                ground (arith, lookup-insert key key l.next_bucket l.speed_limiter, ==_refl key),
                (
                  byte_rate l.speed_limit rate,
                  ground (
                    arith,
                    lookup-insert l.next_bucket l.next_bucket (byte_rate l.speed_limit rate)
                        l.buckets,
                    ==_refl l.next_bucket,
                  ),
                  ground arith,
                ),
              )
        | inr (b, f) ↦ rw (e, f, take_bucket) (bucket-HasRate l key b w f)
      ]
      | inr e ↦ rw (e, take_bucket) tt
    ]

finish-IsServed :
    (key : String) (rate : ℤ) (p : Limiter × Bool)
    → IsWellFormed p.0
    → IsServed (finish key rate p).0 key (finish key rate p).1
unfolding finish
finish-IsServed key rate (l, true) w = tt
finish-IsServed key rate (l, false) w = take_bucket-IsServed l key rate w

-- In a well-formed limiter, a connection that is let in with a bucket has the bucket that stands
-- for its user, and that bucket has a positive rate.
pub check_limit-IsServed :
    (l : Limiter) (key ip : String) (nu : Bool) (now : ℤ)
    → IsWellFormed l
    → IsServed (check_limit l key ip nu now).0 key (check_limit l key ip nu now).1
unfolding check_limit check_known
check_limit-IsServed l key ip nu now w = elim (Option-cases (lookup key l.user_limit_info)) [
  | inl e ↦ rw (e, check_limit) tt
  | inr (u, e) ↦
      rw (e, check_limit)
        (finish-IsServed key (user_rate l key u now).1
          (count_device (user_rate l key u now).0 key (trim_prefix ip "::ffff:") nu u)
          (count_device-IsWellFormed (user_rate l key u now).0 key (trim_prefix ip "::ffff:") nu u
            (user_rate-IsWellFormed l key u now w)))
]

modify_limits-speed_limiter :
    (key : String) (l : Limiter) (u : UserInfo)
    → ((modify_limits key l u).speed_limiter ≡ l.speed_limiter)
      × ((modify_limits key l u).buckets ≡ l.buckets)
unfolding modify_limits
modify_limits-speed_limiter key l u = ground arith

-- The rate behind each bucket after a user with bucket `b` is modified: a positive new rate goes
-- to the bucket that the user's open connections hold, and a limit that is lifted changes no
-- bucket, so the open connections keep their old rate.
pub modify_user-rate :
    (tag : String) (l : Limiter) (u : UserInfo) (b a : ℕ)
    → lookup (user_tag tag u.uuid) l.speed_limiter ≡ some b
    → lookup a (modify_user tag l u).buckets ≡ (
        if ltb_ℤ (pos 0) (byte_rate l.speed_limit u.speed_limit) && b == a
        then some (byte_rate l.speed_limit u.speed_limit)
        else lookup a l.buckets)
unfolding modify_user modify_bucket set_bucket
modify_user-rate tag l u b a h = ground (
  arith,
  h,
  modify_limits-speed_limiter (user_tag tag u.uuid) l u,
  lookup-insert b a (byte_rate l.speed_limit u.speed_limit) l.buckets,
)
