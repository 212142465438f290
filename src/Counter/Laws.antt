-- ===== src/Counter/Laws.antt =====
-- The counters read back what was counted, user by user.
use v2node_pro.Prelude.{String, ◌≡◌, arith, if◌then◌else◌, Option-cases, inl, inr}
use v2node_pro.Prelude.Int.{ℤ, pos, add64}
use v2node_pro.Prelude.Eq.{◌==◌, ==_iff, string_eq}
use v2node_pro.Prelude.Dict.{lookup, insert, lookup-insert, lookup-erase}
use v2node_pro.Counter.{
  TrafficCounter, new_storage, get_up_count, get_down_count, reset, delete, rx, tx,
}

-- One event on the counters of a node.
pub data Event : Type 0 where
  received sent : String → ℤ → Event
  cleared removed : String → Event

pub apply : TrafficCounter → Event → TrafficCounter
unfolding rx tx reset delete
apply c (received uuid n) = rx c uuid n
apply c (sent uuid n) = tx c uuid n
apply c (cleared uuid) = reset c uuid
apply c (removed uuid) = delete c uuid

-- Up and down of one user after an event, from what they were.
abbrev pub Counts : Type 0
Counts = ℤ × ℤ

abbrev pub counts_after : Event → String → Counts → Counts
counts_after (received uuid n) k (up, down) = if uuid == k then (up, add64 down n) else (up, down)
counts_after (sent uuid n) k (up, down) = if uuid == k then (add64 up n, down) else (up, down)
counts_after (cleared uuid) k (up, down) = if uuid == k then (pos 0, pos 0) else (up, down)
counts_after (removed uuid) k (up, down) = if uuid == k then (pos 0, pos 0) else (up, down)

abbrev pub counts : TrafficCounter → String → Counts
counts c k = (get_up_count c k, get_down_count c k)

-- Receiving adds to the user's download, sending to the upload; a reset and a deletion read as
-- zero; and no event changes what another user's counters read.
pub apply-counts :
    (c : TrafficCounter) (e : Event) (k : String)
    → counts (apply c e) k ≡ counts_after e k (counts c k)
unfolding apply get_up_count get_down_count
apply-counts c (received uuid n) k = elim (Option-cases (lookup uuid c)) [
  | inl e ↦ ground (
    arith,
    e,
    ==_iff uuid k,
    lookup-insert uuid k (record new_storage { down_counter = add64 (pos 0) n })
        (insert uuid new_storage c),
    lookup-insert uuid k new_storage c,
  )
  | inr (v, e) ↦ ground (
    arith,
    e,
    ==_iff uuid k,
    lookup-insert uuid k (record v { down_counter = add64 v.down_counter n }) c,
  )
]
apply-counts c (sent uuid n) k = elim (Option-cases (lookup uuid c)) [
  | inl e ↦ ground (
    arith,
    e,
    ==_iff uuid k,
    lookup-insert uuid k (record new_storage { up_counter = add64 (pos 0) n })
        (insert uuid new_storage c),
    lookup-insert uuid k new_storage c,
  )
  | inr (v, e) ↦ ground (
    arith,
    e,
    ==_iff uuid k,
    lookup-insert uuid k (record v { up_counter = add64 v.up_counter n }) c,
  )
]
apply-counts c (cleared uuid) k = ground (arith, ==_iff uuid k, lookup-insert uuid k new_storage c)
apply-counts c (removed uuid) k = ground (arith, ==_iff uuid k, lookup-erase uuid k c)
