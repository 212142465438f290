-- ===== src/Core/Traffic/Laws.antt =====
-- What a report takes from the counters, what it leaves, and what it loses.
use v2node_pro.Prelude.{String, ◌≡◌, ◌≢◌, Bool, Option, none, some, List, [], ◌∷◌, if◌then◌else◌}
use v2node_pro.Prelude.Int.{ℤ, pos, ◌+ℤ◌}
use v2node_pro.Prelude.Eq.{◌==◌, string_eq, int_eq}
use v2node_pro.Prelude.Dict.{Dict, lookup}
use v2node_pro.Panel.{UserTraffic}
use v2node_pro.Counter.{TrafficStorage, TrafficCounter, new_storage}
use v2node_pro.Core.Traffic.{uid_of, is_due, add_late}

-- The bytes of a direction, in the counters and in a report, as exact sums.
abbrev pub counted : (TrafficStorage → ℤ) → TrafficCounter → ℤ
counted f [] = pos 0
counted f ((email, t) ∷ rest) = f t +ℤ counted f rest

abbrev pub reported : (UserTraffic → ℤ) → List UserTraffic → ℤ
reported g [] = pos 0
reported g (t ∷ ts) = g t +ℤ reported g ts

-- Every counter belongs to a user with a uid.
abbrev pub IsMapped : Dict String ℤ → TrafficCounter → Type 0
IsMapped uid_map [] = Unit
IsMapped uid_map ((email, t) ∷ rest) = (uid_of uid_map email ≢ pos 0) × IsMapped uid_map rest

-- The counters that are not above the threshold.
abbrev pub below : ℤ → TrafficCounter → TrafficCounter
below mintraffic [] = []
below mintraffic ((email, t) ∷ rest) =
    if is_due mintraffic t then below mintraffic rest else (email, t) ∷ below mintraffic rest

-- One direction: what it reads of a counter and of a report.
record IsDirection (f : TrafficStorage → ℤ) (g : UserTraffic → ℤ) : Type 0 where
  same :
      (uid : ℤ) (t : TrafficStorage)
      → g (record { uid = uid; upload = t.up_counter; download = t.down_counter }) ≡ f t

-- What is left of a user's counter, with what was added to it during the report.
abbrev pub left_of : ℤ → Bool → (late t : TrafficStorage) → Option TrafficStorage
left_of uid due late t =
    if due then (if uid == pos 0 then none else some new_storage) else some (add_late t late)

abbrev pub left_at :
    Dict String ℤ
    → ℤ
    → (String → TrafficStorage)
    → String
    → Option TrafficStorage
    → Option TrafficStorage
left_at uid_map mintraffic late email none = none
left_at uid_map mintraffic late email (some t) =
    left_of (uid_of uid_map email) (is_due mintraffic t) (late email) t

abbrev pub entry : Option TrafficCounter → String → Option TrafficStorage
entry none email = none
entry (some c) email = lookup email c
