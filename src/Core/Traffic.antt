-- ===== src/Core/Traffic.antt =====
-- GetUserTrafficSlice of core/user.go: take the traffic that is to be reported.
pub mod Laws
use v2node_pro.Prelude.{String, Bool, true, false, Option, none, some, List, [], ◌∷◌, if◌then◌else◌}
use v2node_pro.Prelude.Int.{ℤ, pos, ltb_ℤ, add64, mul64}
use v2node_pro.Prelude.Eq.{◌==◌, string_eq, int_eq}
use v2node_pro.Prelude.Dict.{Dict, lookup, insert}
use v2node_pro.Panel.{UserTraffic}
use v2node_pro.Counter.{TrafficStorage, TrafficCounter, new_storage}

-- `vc.users.uidMap[email]`
abbrev pub uid_of : Dict String ℤ → String → ℤ
uid_of uid_map email = elim (lookup email uid_map) [ none ↦ pos 0 | some uid ↦ uid ]

-- `up+down > int64(mintraffic*1000)`
unfoldable pub is_due : ℤ → TrafficStorage → Bool
is_due mintraffic t = ltb_ℤ (mul64 mintraffic 1000) (add64 t.up_counter t.down_counter)

-- What connections add to a counter.
unfoldable pub add_late : TrafficStorage → TrafficStorage → TrafficStorage
add_late t late = record {
  up_counter = add64 t.up_counter late.up_counter;
  down_counter = add64 t.down_counter late.down_counter;
}

-- The `Range` over the counters of a node: the counters that are left, and the report. The visit of
-- a counter is not one step: `late` is what connections add to it behind the visit's `Load` and,
-- where there is one, before its `Store(0)`.
unfoldable pub collect :
    Dict String ℤ
    → ℤ
    → (late : String → TrafficStorage) → TrafficCounter
    → TrafficCounter × List UserTraffic
unfolding add_late
collect uid_map mintraffic late [] = ([], [])
collect uid_map mintraffic late ((email, traffic) ∷ rest) =
    let (left, slice) = collect uid_map mintraffic late rest in
    if is_due mintraffic traffic
    then (if uid_of uid_map email == pos 0 then (left, slice) else (
      (email, new_storage) ∷ left,
      record {
        uid = uid_of uid_map email;
        upload = traffic.up_counter;
        download = traffic.down_counter;
      }
          ∷ slice,
    ))
    else ((email, add_late traffic (late email)) ∷ left, slice)

-- `Counter` is the dispatcher's map of counters, by node. An empty report is `nil`.
unfoldable pub get_user_traffic_slice :
    Dict String ℤ
    → Dict String TrafficCounter
    → String
    → ℤ
    → (late : String → TrafficStorage) → Dict String TrafficCounter × List UserTraffic
unfolding collect
get_user_traffic_slice uid_map counter tag mintraffic late = elim (lookup tag counter) [
  | none ↦ (counter, [])
  | some c ↦
      let (left, slice) = collect uid_map mintraffic late c in (insert tag left counter, slice)
]
