-- ===== src/Limiter/Tests.antt =====
-- Runs of the limiter, and the theorems about it at concrete inputs.
use v2node_pro.Prelude.{◌≡◌, ◌↔◌, is_some, refl, true, false, none, some, [], ◌∷◌}
use v2node_pro.Prelude.Int.{pos}
use v2node_pro.Prelude.Eq.{string_eq, int_eq, nat_eq}
use v2node_pro.Prelude.Dict.{lookup, insert, erase}
use v2node_pro.Prelude.Text.{trim_prefix}
use v2node_pro.Panel.{UserInfo}
use v2node_pro.Format.{user_tag}
use v2node_pro.Limiter.{Limiter, UserLimitInfo, add_limiter, byte_rate, modify_user}
use v2node_pro.Limiter.Connect.{reject, admit, check_limit}
use v2node_pro.Limiter.Online.{get_online_device}
use v2node_pro.Limiter.Admission.{IsRefused, online_at, check_limit-reject, check_limit-online}
use v2node_pro.Limiter.Buckets.{IsWellFormed}
use v2node_pro.Limiter.Rates.{IsServed, check_limit-IsServed, modify_user-rate}
use v2node_pro.Limiter.Report.{all_online, get_online_device_lem}
use v2node_pro.Limiter.History.{
  connects, updates, slows, reports, counts, run, run-add_limiter-IsWellFormed,
}

-- One device at most, and 8 Mbps.
abbrev alice : UserInfo
alice = record { id = pos 7; uuid = "a-1"; speed_limit = pos 8; device_limit = pos 1 }

abbrev bob : UserInfo
bob = record { id = pos 9; uuid = "b-2"; speed_limit = pos 0; device_limit = pos 0 }

abbrev alice_info : UserLimitInfo
alice_info = record {
  uid = pos 7;
  speed_limit = pos 8;
  device_limit = pos 1;
  dynamic_speed_limit = pos 0;
  expire_time = pos 0;
  over_limit = false;
}

-- A node where the panel counts one address of alice online already.
abbrev busy : Limiter
busy = record {
  nodetype = "vless";
  speed_limit = pos 0;
  user_online_ip = ("n|b-2", ("10.0.0.9", pos 9) ∷ []) ∷ [];
  old_user_online = ("10.0.0.8", pos 9) ∷ [];
  uuid_to_uid = [];
  user_limit_info = ("n|a-1", alice_info) ∷ [];
  speed_limiter = [];
  alive_list = (pos 7, pos 1) ∷ [];
  buckets = [];
  next_bucket = 0;
}

busy-IsWellFormed : IsWellFormed busy
unfolding lookup
busy-IsWellFormed = record {
  positive = λ a r e. cc;
  live = λ k a e. cc;
  fresh = λ a h. refl;
  unshared = λ j k a e f. cc;
}

full_is_rejected : (check_limit busy "n|a-1" "::ffff:10.0.0.1" true (pos 100)).1 ≡ reject
unfolding check_limit lookup insert erase trim_prefix
full_is_rejected = refl

-- The address of another user in the last period is let in, though alice is full.
foreign_is_admitted : (check_limit busy "n|a-1" "10.0.0.8" true (pos 100)).1 ≡ admit (some 0)
unfolding check_limit lookup insert erase trim_prefix byte_rate
foreign_is_admitted = refl

check_limit-reject_example :
    ((check_limit busy "n|a-1" "::ffff:10.0.0.1" true (pos 100)).1 ≡ reject)
    ↔ ((true ≡ true) × IsRefused busy "n|a-1" (trim_prefix "::ffff:10.0.0.1" "::ffff:") alice_info)
unfolding lookup
check_limit-reject_example =
    check_limit-reject busy "n|a-1" "::ffff:10.0.0.1" true (pos 100) alice_info refl

check_limit-online_example :
    online_at (check_limit busy "n|a-1" "10.0.0.8" true (pos 100)).0 "n|a-1" "10.0.0.8"
    ≡ some (pos 7)
unfolding check_limit lookup insert erase trim_prefix byte_rate
check_limit-online_example =
    check_limit-online busy "n|a-1" "10.0.0.8" true (pos 100) alice_info refl "n|a-1" "10.0.0.8"

run-add_limiter-IsWellFormed_example : IsWellFormed (
    run "n" (add_limiter [] "vless" "n" (alice ∷ bob ∷ []) []).1 (
      connects "n|a-1" "10.0.0.1" true (pos 5)
      ∷ updates [] (bob ∷ []) (record alice { speed_limit = pos 3 } ∷ [])
      ∷ slows "a-1" (pos 1) (pos 50)
      ∷ counts ((pos 7, pos 2) ∷ [])
      ∷ reports
      ∷ []))
run-add_limiter-IsWellFormed_example =
    run-add_limiter-IsWellFormed [] "vless" "n" (alice ∷ bob ∷ []) [] (
      connects "n|a-1" "10.0.0.1" true (pos 5)
      ∷ updates [] (bob ∷ []) (record alice { speed_limit = pos 3 } ∷ [])
      ∷ slows "a-1" (pos 1) (pos 50)
      ∷ counts ((pos 7, pos 2) ∷ [])
      ∷ reports
      ∷ [])

check_limit-IsServed_example :
    IsServed
      (check_limit busy "n|a-1" "10.0.0.8" true (pos 100)).0
      "n|a-1"
      (check_limit busy "n|a-1" "10.0.0.8" true (pos 100)).1
check_limit-IsServed_example =
    check_limit-IsServed busy "n|a-1" "10.0.0.8" true (pos 100) busy-IsWellFormed

-- 3 Mbps are 375000 bytes a second.
abbrev metered : Limiter
metered = record busy {
  speed_limiter = ("n|a-1", 0) ∷ [];
  buckets = (0, pos 1000000) ∷ [];
  next_bucket = 1;
}

modify_user-rate_example :
    lookup 0 (modify_user "n" metered (record alice { speed_limit = pos 3 })).buckets
    ≡ some (pos 375000)
unfolding modify_user byte_rate lookup insert user_tag
modify_user-rate_example =
    modify_user-rate "n" metered (record alice { speed_limit = pos 3 }) 0 0 refl

-- A user without a limit of its own, with a dynamic limit until second 50.
abbrev slowed_info : UserLimitInfo
slowed_info = record {
  uid = pos 9;
  speed_limit = pos 0;
  device_limit = pos 0;
  dynamic_speed_limit = pos 1;
  expire_time = pos 50;
  over_limit = false;
}

abbrev slowed : Limiter
slowed = record busy { user_limit_info = ("n|b-2", slowed_info) ∷ [] }

get_online_device_lem_example :
    ((get_online_device busy).1 ≡ all_online busy.user_online_ip)
    × (is_some (lookup "10.0.0.9" (get_online_device busy).0.old_user_online) ≡ true)
    × (online_at (get_online_device busy).0 "n|b-2" "10.0.0.9" ≡ none)
unfolding get_online_device insert lookup
get_online_device_lem_example = get_online_device_lem busy "n|b-2" "10.0.0.9"

abbrev at_home : Limiter
at_home = record busy { user_online_ip = ("n|a-1", ("10.0.0.1", pos 7) ∷ []) ∷ [] }
