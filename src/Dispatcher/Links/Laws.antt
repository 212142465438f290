-- ===== src/Dispatcher/Links/Laws.antt =====
-- The link manager releases its lock after each operation on one link, and CloseAll does not.
use v2node_pro.Prelude.{
  ℕ, ◌≡◌, refl, Bool, true, false, Option, none, some, [], ◌∷◌, arith, if◌then◌else◌,
}
use v2node_pro.Prelude.Eq.{◌==◌, nat_eq}
use v2node_pro.Prelude.Dict.{Dict, lookup, insert, erase, lookup-insert, lookup-erase}
use v2node_pro.Prelude.Flow.{Outcome, ok, hang}
use v2node_pro.Dispatcher.Links.{
  LinkManager, Closer, CallsClose, add_link, remove_writer, close_writer, close_links, close_all,
}

-- What an unlocked manager is after an operation that gives a link `reader`, or takes it away.
abbrev pub Holds : Outcome LinkManager → LinkManager → ℕ → Option ℕ → Type 0
Holds r m writer reader =
    (n : LinkManager) × (r ≡ ok n)
    × (n.locked ≡ false)
    × ((w : ℕ) → lookup w n.links ≡ (if writer == w then reader else lookup w m.links))

-- On an unlocked manager, adding a link and removing a writer end, with the lock released, and
-- change the link of that writer only.
pub link_operations :
    (m : LinkManager) (writer reader : ℕ)
    → m.locked ≡ false
    → Holds (add_link m writer reader) m writer (some reader)
      × Holds (remove_writer m writer) m writer none
unfolding add_link remove_writer
link_operations m writer reader h = (
  (
    record m { links = insert writer reader m.links; locked = false },
    ground (arith, h),
    refl,
    λ w. lookup-insert writer w reader m.links,
  ),
  (
    record m { links = erase writer m.links; locked = false },
    ground (arith, h),
    refl,
    λ w. lookup-erase writer w m.links,
  ),
)

abbrev pub is_empty : Dict ℕ ℕ → Bool
is_empty [] = true
is_empty (l ∷ ls) = false

close_all-at :
    (close : Closer) (m : LinkManager) (links : Dict ℕ ℕ)
    → CallsClose close
    → m.locked ≡ false
    → m.links ≡ links
    → close_all close m ≡ (if is_empty links then ok m else hang)
unfolding close_all close_links close_writer
close_all-at close m [] calls h e = ground (arith, h, e)
close_all-at close m ((w, r) ∷ links) calls h e =
    ground (arith, h, e, calls (close_writer close w) (record m { locked = true }))

-- On an unlocked manager, CloseAll ends only if there is no link to close, and then changes
-- nothing; with any link open it waits for its own lock.
pub close_all_lem :
    (close : Closer) (m : LinkManager)
    → CallsClose close
    → m.locked ≡ false
    → close_all close m ≡ (if is_empty m.links then ok m else hang)
close_all_lem close m calls h = close_all-at close m m.links calls h refl
