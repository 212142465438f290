-- ===== src/Counter.antt =====
-- common/counter/traffic.go and common/counter/xraytraffic.go: bytes up and down for each user.
-- The pointer that GetCounter returns is the user's entry, and an atomic addition is one step. The
-- writers of a connection add at the entry, as `rx` and `tx` do, until the user is deleted.
pub mod Laws
pub mod Tests
use v2node_pro.Prelude.{ℕ, zero, suc, String, Option, none, some, List, [], ◌∷◌, length}
use v2node_pro.Prelude.Int.{ℤ, pos, add64}
use v2node_pro.Prelude.Eq.{string_eq}
use v2node_pro.Prelude.Dict.{Dict, lookup, insert, erase}

pub record TrafficStorage : Type 0 where
  pub up_counter : ℤ
  pub down_counter : ℤ

abbrev pub TrafficCounter : Type 0
TrafficCounter = Dict String TrafficStorage

abbrev pub new_storage : TrafficStorage
new_storage = record { up_counter = pos 0; down_counter = pos 0 }

abbrev pub new_traffic_counter : TrafficCounter
new_traffic_counter = []

-- The `LoadOrStore` behind a `Load` that found nothing stores, when no other call comes between.
unfoldable pub get_counter : TrafficCounter → String → TrafficCounter × TrafficStorage
get_counter c uuid = elim (lookup uuid c) [
  | some cts ↦ (c, cts)
  | none ↦ (insert uuid new_storage c, new_storage)
]

unfoldable pub get_up_count : TrafficCounter → String → ℤ
get_up_count c uuid = elim (lookup uuid c) [ some cts ↦ cts.up_counter | none ↦ pos 0 ]

unfoldable pub get_down_count : TrafficCounter → String → ℤ
get_down_count c uuid = elim (lookup uuid c) [ some cts ↦ cts.down_counter | none ↦ pos 0 ]

unfoldable pub len : TrafficCounter → ℕ
len c = length c

unfoldable pub reset : TrafficCounter → String → TrafficCounter
reset c uuid = elim (lookup uuid c) [ some cts ↦ insert uuid new_storage c | none ↦ c ]

unfoldable pub delete : TrafficCounter → String → TrafficCounter
delete c uuid = erase uuid c

unfoldable pub rx : TrafficCounter → String → ℤ → TrafficCounter
unfolding get_counter
rx c uuid n =
    let (c', cts) = get_counter c uuid in
    insert uuid (record cts { down_counter = add64 cts.down_counter n }) c'

unfoldable pub tx : TrafficCounter → String → ℤ → TrafficCounter
unfolding get_counter
tx c uuid n =
    let (c', cts) = get_counter c uuid in
    insert uuid (record cts { up_counter = add64 cts.up_counter n }) c'
