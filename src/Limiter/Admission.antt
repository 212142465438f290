-- ===== src/Limiter/Admission.antt =====
-- Who is let in by CheckLimit, and what an attempt does to the online addresses.
use v2node_pro.Prelude.{
  String, ◌≡◌, refl, Bool, true, false, not, [], ◌&&◌, ◌||◌, ◌↔◌, ◌≢◌, Option, none, some, arith,
  if◌then◌else◌, Option-cases, inl, inr,
}
use v2node_pro.Prelude.Int.{ℤ, pos, ◌<ℤ◌, ◌≤ℤ◌}
use v2node_pro.Prelude.Eq.{◌==◌, ==_iff, string_eq, int_eq}
use v2node_pro.Prelude.Dict.{Dict, lookup, insert, erase, lookup-insert, lookup-erase, lookup-nil}
use v2node_pro.Prelude.Text.{trim_prefix}
use v2node_pro.Limiter.{Limiter, UserLimitInfo}
use v2node_pro.Limiter.Connect.{
  Check, reject, admit, user_rate, alive_ip, claim_further, claim_first, claim_ip, take_bucket,
  finish, check_known, check_limit, count_device,
}

abbrev ips_at : Option (Dict String ℤ) → String → Option ℤ
ips_at none ip = none
ips_at (some ips) ip = lookup ip ips

-- The uid under which `ip` is online for the user `key`.
abbrev pub online_at : Limiter → String → String → Option ℤ
online_at l key ip = ips_at (lookup key l.user_online_ip) ip

-- The device limit applies to the connection.
abbrev pub is_counted : Limiter → Bool → Bool
is_counted l no_udp_source = no_udp_source || l.nodetype == "hysteria2"

-- The user has as many devices online as it may have, by the panel's count.
abbrev pub IsFull : Limiter → UserLimitInfo → Type 0
IsFull l u = (pos 0 <ℤ u.device_limit) × (u.device_limit ≤ℤ alive_ip l u.uid)

abbrev pub IsRefused : Limiter → String → String → UserLimitInfo → Type 0
IsRefused l key ip u =
    (online_at l key ip ≡ none) × (lookup ip l.old_user_online ≡ none) × IsFull l u

claim_ip-IsRefused :
    (l : Limiter) (key ip : String) (u : UserLimitInfo)
    → ((claim_ip l key ip u.uid u.device_limit).1 ≡ true) ↔ IsRefused l key ip u
unfolding claim_ip
claim_ip-IsRefused l key ip u = ground arith

abbrev kept_or : Option ℤ → ℤ → ℤ
kept_or none uid = uid
kept_or (some v) uid = v

-- What is online at `j`, `i` after the claim of `ip` for `key`.
abbrev after_claim : Limiter → String → String → ℤ → Bool → String → String → Option ℤ
after_claim l key ip uid refused j i =
    if key == j && ip == i && not refused
    then some (kept_or (online_at l key ip) uid)
    else online_at l j i

module _ (l : Limiter) (key ip : String) (uid limit : ℤ) (j i : String) where
  claim_further-online :
      (ips : Dict String ℤ)
      → lookup key l.user_online_ip ≡ some ips
      → online_at (claim_further l key ip uid limit ips).0 j i
        ≡ after_claim l key ip uid (claim_further l key ip uid limit ips).1 j i
  unfolding claim_further
  claim_further-online ips h = ground (
    arith,
    ==_iff key j,
    ==_iff ip i,
    lookup-insert key j (insert ip uid ips) l.user_online_ip,
    lookup-insert key j (erase ip (insert ip uid ips)) l.user_online_ip,
    lookup-insert ip i uid ips,
    lookup-erase ip i (insert ip uid ips),
  )

  claim_first-online :
      lookup key l.user_online_ip ≡ none
      → online_at (claim_first l key ip uid limit).0 j i
        ≡ after_claim l key ip uid (claim_first l key ip uid limit).1 j i
  unfolding claim_first
  claim_first-online h = ground (
    arith,
    ==_iff key j,
    ==_iff ip i,
    lookup-insert key j (insert {V = ℤ} ip uid []) l.user_online_ip,
    lookup-erase key j (insert key (insert {V = ℤ} ip uid []) l.user_online_ip),
    lookup-insert {V = ℤ} ip i uid [],
    lookup-nil {V = ℤ} i,
  )

  claim_ip-online :
      online_at (claim_ip l key ip uid limit).0 j i
      ≡ after_claim l key ip uid (claim_ip l key ip uid limit).1 j i
  unfolding claim_ip
  claim_ip-online = elim (Option-cases (lookup key l.user_online_ip)) [
    | inl e ↦ ground (arith, claim_first-online e)
    | inr (ips, e) ↦ ground (arith, claim_further-online ips e)
  ]

-- The user's rate touches nothing that the claim of an address reads.
record SameOnline (l m : Limiter) : Type 0 where
  online : m.user_online_ip ≡ l.user_online_ip
  old : m.old_user_online ≡ l.old_user_online
  alive : m.alive_list ≡ l.alive_list
  nodetype : m.nodetype ≡ l.nodetype

user_rate-SameOnline :
    (l : Limiter) (key : String) (u : UserLimitInfo) (now : ℤ)
    → SameOnline l (user_rate l key u now).0
unfolding user_rate
user_rate-SameOnline l key u now = ground arith

take_bucket-SameOnline :
    (l : Limiter) (key : String) (rate : ℤ) → SameOnline l (take_bucket l key rate).0
unfolding take_bucket
take_bucket-SameOnline l key rate = ground arith

take_bucket-ne-reject :
    (l : Limiter) (key : String) (rate : ℤ) → (take_bucket l key rate).1 ≢ reject
unfolding take_bucket
take_bucket-ne-reject l key rate = ground arith

finish-reject :
    (key : String) (rate : ℤ) (p : Limiter × Bool) → ((finish key rate p).1 ≡ reject) ↔ (p.1 ≡ true)
unfolding finish
finish-reject key rate (l, true) = ground arith
finish-reject key rate (l, false) = ground (arith, take_bucket-ne-reject l key rate)

finish-online :
    (key : String) (rate : ℤ) (p : Limiter × Bool) (j i : String)
    → online_at (finish key rate p).0 j i ≡ online_at p.0 j i
unfolding finish
finish-online key rate (l, true) j i = refl
finish-online key rate (l, false) j i = rw (take_bucket-SameOnline l key rate).online

abbrev pub is_admit : Check → Bool
is_admit reject = false
is_admit (admit b) = true

finish-admit :
    (key : String) (rate : ℤ) (p : Limiter × Bool) → is_admit (finish key rate p).1 ≡ not p.1
unfolding finish
finish-admit key rate (l, true) = refl
finish-admit key rate (l, false) = ground (arith, take_bucket-ne-reject l key rate)

count_device-IsRefused :
    (l : Limiter) (key ip : String) (nu : Bool) (u : UserLimitInfo)
    → ((count_device l key ip nu u).1 ≡ true) ↔ ((is_counted l nu ≡ true) × IsRefused l key ip u)
unfolding count_device
count_device-IsRefused l key ip nu u = ground (arith, claim_ip-IsRefused l key ip u)

count_device-online :
    (l : Limiter) (key ip : String) (nu : Bool) (u : UserLimitInfo) (j i : String)
    → online_at (count_device l key ip nu u).0 j i ≡ (
        if is_counted l nu
        then after_claim l key ip u.uid (count_device l key ip nu u).1 j i
        else online_at l j i)
unfolding count_device
count_device-online l key ip nu u j i =
    ground (arith, claim_ip-online l key ip u.uid u.device_limit j i)

-- An arrival of a known user at an address, its IPv4 in IPv6 prefix taken off.
module _ (l : Limiter) (key source : String) (no_udp_source : Bool) (now : ℤ) (u : UserLimitInfo)
    (known : lookup key l.user_limit_info ≡ some u) where
  abbrev ip : String
  ip = trim_prefix source "::ffff:"

  -- A known user's connection is turned away exactly if the device limit applies to it, its address
  -- is online neither for the user now nor for anyone in the last period, and the user is full.
  pub check_limit-reject :
      ((check_limit l key source no_udp_source now).1 ≡ reject)
      ↔ ((is_counted l no_udp_source ≡ true) × IsRefused l key ip u)
  unfolding check_limit check_known
  check_limit-reject = ground (
    arith,
    known,
    user_rate-SameOnline l key u now,
    count_device-IsRefused (user_rate l key u now).0 key ip no_udp_source u,
    finish-reject key (user_rate l key u now).1
        (count_device (user_rate l key u now).0 key ip no_udp_source u),
  )

  -- The connection's address is online for the user afterwards, under the uid it had or the
  -- user's, exactly if the connection counts and is let in. Nothing else about who is online
  -- changes; in particular a refused attempt leaves no trace.
  pub check_limit-online :
      (j i : String)
      → online_at (check_limit l key source no_udp_source now).0 j i ≡ (
          if is_counted l no_udp_source
            && key == j
            && ip == i
            && is_admit (check_limit l key source no_udp_source now).1
          then some (kept_or (online_at l key ip) u.uid)
          else online_at l j i)
  unfolding check_limit check_known
  check_limit-online j i = ground (
    arith,
    known,
    user_rate-SameOnline l key u now,
    count_device-online (user_rate l key u now).0 key ip no_udp_source u j i,
    finish-admit key (user_rate l key u now).1
        (count_device (user_rate l key u now).0 key ip no_udp_source u),
    finish-online key (user_rate l key u now).1
        (count_device (user_rate l key u now).0 key ip no_udp_source u) j i,
  )
