-- ===== src/Limiter/Report.antt =====
-- What GetOnlineDevice reports and remembers, and who may come back after a report.
use v2node_pro.Prelude.{
  String, ◌≡◌, ◌≢◌, refl, sym, ◌∙◌, Bool, true, false, ◌||◌, none, some, List, [], ◌∷◌, ◌++◌, arith,
  map, is_some, Option-cases, inl, inr,
}
use v2node_pro.Prelude.Int.{ℤ}
use v2node_pro.Prelude.Eq.{◌==◌, string_eq}
use v2node_pro.Prelude.Dict.{Dict, lookup, insert, lookup-insert, lookup-nil}
use v2node_pro.Prelude.Text.{trim_prefix}
use v2node_pro.Panel.{OnlineUser}
use v2node_pro.Limiter.{Limiter, UserLimitInfo}
use v2node_pro.Limiter.Connect.{reject, check_limit}
use v2node_pro.Limiter.Admission.{online_at, check_limit-reject}
use v2node_pro.Limiter.Online.{visit_ips, visit_users, get_online_device}
use mathlib.Core.List.{append_assoc, append-nil}

abbrev to_online : String × ℤ → OnlineUser
to_online (ip, uid) = record { uid = uid; ip = ip }

-- Every address of every user, in the order of the maps.
abbrev pub all_online : Dict String (Dict String ℤ) → List OnlineUser
all_online [] = []
all_online ((key, ips) ∷ users) = map to_online ips ++ all_online users

abbrev has_ip : String → List OnlineUser → Bool
has_ip ip [] = false
has_ip ip (o ∷ os) = (o.ip == ip) || has_ip ip os

has_ip-append :
    (ip : String) (xs ys : List OnlineUser) → has_ip ip (xs ++ ys) ≡ (has_ip ip xs || has_ip ip ys)
has_ip-append ip [] ys = refl
has_ip-append ip (x ∷ xs) ys = ground (arith, has_ip-append ip xs ys)

visit_ips-out :
    (ips old : Dict String ℤ) (out : List OnlineUser)
    → (visit_ips ips old out).1 ≡ out ++ map to_online ips
unfolding visit_ips
visit_ips-out [] old out = sym (append-nil out)
visit_ips-out ((ip, uid) ∷ ips) old out =
    visit_ips-out ips (insert ip uid old) (out ++ to_online (ip, uid) ∷ [])
    ∙ append_assoc out (to_online (ip, uid) ∷ []) (map to_online ips)

visit_ips-old :
    (ip : String) (ips old : Dict String ℤ) (out : List OnlineUser)
    → is_some (lookup ip (visit_ips ips old out).0)
      ≡ (has_ip ip (map to_online ips) || is_some (lookup ip old))
unfolding visit_ips
visit_ips-old ip [] old out = refl
visit_ips-old ip ((i, uid) ∷ ips) old out = ground (
  arith,
  visit_ips-old ip ips (insert i uid old) (out ++ to_online (i, uid) ∷ []),
  lookup-insert i ip uid old,
)

visit_users-out :
    (users : Dict String (Dict String ℤ)) (old : Dict String ℤ) (out : List OnlineUser)
    → (visit_users users old out).1 ≡ out ++ all_online users
unfolding visit_users
visit_users-out [] old out = sym (append-nil out)
visit_users-out ((key, ips) ∷ users) old out =
    rw
      (
        visit_users-out users (visit_ips ips old out).0 (visit_ips ips old out).1,
        visit_ips-out ips old out,
      )
      (append_assoc out (map to_online ips) (all_online users))

visit_users-old :
    (ip : String) (users : Dict String (Dict String ℤ)) (old : Dict String ℤ)
    (out : List OnlineUser)
    → is_some (lookup ip (visit_users users old out).0)
      ≡ (has_ip ip (all_online users) || is_some (lookup ip old))
unfolding visit_users
visit_users-old ip [] old out = refl
visit_users-old ip ((key, ips) ∷ users) old out = ground (
  arith,
  visit_users-old ip users (visit_ips ips old out).0 (visit_ips ips old out).1,
  visit_ips-old ip ips old out,
  has_ip-append ip (map to_online ips) (all_online users),
)

-- The report lists every online address of every user, each once for each user that has it; an
-- address is remembered exactly if it is in the report; and nobody is online afterwards.
pub get_online_device_lem :
    (l : Limiter) (key ip : String)
    → ((get_online_device l).1 ≡ all_online l.user_online_ip)
      × (is_some (lookup ip (get_online_device l).0.old_user_online)
          ≡ has_ip ip (get_online_device l).1)
      × (online_at (get_online_device l).0 key ip ≡ none)
unfolding get_online_device
get_online_device_lem l key ip = (
  visit_users-out l.user_online_ip [] [],
  ground (
    arith,
    visit_users-out l.user_online_ip [] [],
    visit_users-old ip l.user_online_ip [] [],
    lookup-nil {V = ℤ} ip,
  ),
  ground (arith, lookup-nil {V = Dict String ℤ} key),
)

lookup-has_ip :
    (ip : String) (ips : Dict String ℤ) → has_ip ip (map to_online ips) ≡ is_some (lookup ip ips)
unfolding lookup
lookup-has_ip ip [] = refl
lookup-has_ip ip ((i, uid) ∷ ips) = ground (arith, lookup-has_ip ip ips)

online_at-has_ip :
    (key ip : String) (users : Dict String (Dict String ℤ)) (m : Dict String ℤ)
    → lookup key users ≡ some m
    → is_some (lookup ip m) ≡ true
    → has_ip ip (all_online users) ≡ true
unfolding lookup
online_at-has_ip key ip [] m h s = cc
online_at-has_ip key ip ((k, n) ∷ users) m h s = ground (
  arith,
  online_at-has_ip key ip users m,
  lookup-has_ip ip n,
  has_ip-append ip (map to_online n) (all_online users),
)

info-get_online_device : (l : Limiter) → (get_online_device l).0.user_limit_info ≡ l.user_limit_info
unfolding get_online_device
info-get_online_device l = refl

lookup-get_online_device :
    (l : Limiter) (key : String) (u : UserLimitInfo)
    → lookup key l.user_limit_info ≡ some u
    → lookup key (get_online_device l).0.user_limit_info ≡ some u
lookup-get_online_device l key u h = rw info-get_online_device h

remembered :
    (l : Limiter) (key ip : String)
    → is_some (online_at l key ip) ≡ true
    → is_some (lookup ip (get_online_device l).0.old_user_online) ≡ true
remembered l key ip h = elim (Option-cases (lookup key l.user_online_ip)) [
  | inl e ↦ ground (arith, h, e)
  | inr (m, e) ↦
      ground
        (arith, get_online_device_lem l key ip, online_at-has_ip key ip l.user_online_ip m e, h, e)
]

-- A known user whose address was online when a report was made is let in again from that address
-- after the report, however many devices the panel counts by then.
pub check_limit-get_online_device :
    (l : Limiter) (key source : String) (nu : Bool) (now : ℤ) (u : UserLimitInfo)
    → lookup key l.user_limit_info ≡ some u
    → is_some (online_at l key (trim_prefix source "::ffff:")) ≡ true
    → (check_limit (get_online_device l).0 key source nu now).1 ≢ reject
check_limit-get_online_device l key source nu now u known h e = ground (
  arith,
  e,
  remembered l key (trim_prefix source "::ffff:") h,
  (check_limit-reject (get_online_device l).0 key source nu now u
        (lookup-get_online_device l key u known)).0
      e,
)
