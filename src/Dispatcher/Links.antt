-- ===== src/Dispatcher/Links.antt =====
-- core/app/dispatcher/linkmanager.go: the open links of one user. A writer and a reader are numbers.
-- Xray's `common.Close(obj)` calls the object's `Close` method, if it has one; it is the parameter
-- `close`, and that it calls the method is the hypothesis `CallsClose`. The mutex is explicit: a Go
-- mutex is not reentrant, so a goroutine that locks it twice hangs.
pub mod Laws
use v2node_pro.Prelude.{ℕ, ◌≡◌, Bool, true, false, List, [], ◌∷◌, if◌then◌else◌}
use v2node_pro.Prelude.Eq.{nat_eq}
use v2node_pro.Prelude.Dict.{Dict, insert, erase}
use v2node_pro.Prelude.Flow.{Outcome, ok, hang, ◌>>=◌}

pub record LinkManager : Type 0 where
  pub links : Dict ℕ ℕ
  pub locked : Bool

abbrev pub new_link_manager : LinkManager
new_link_manager = record { links = []; locked = false }

abbrev pub lock : LinkManager → Outcome LinkManager
lock m = if m.locked then hang else ok (record m { locked = true })

abbrev pub unlock : LinkManager → LinkManager
unlock m = record m { locked = false }

unfoldable pub add_link : LinkManager → ℕ → ℕ → Outcome LinkManager
add_link m writer reader = do
  m ← lock m
  ok (unlock (record m { links = insert writer reader m.links }))

unfoldable pub remove_writer : LinkManager → ℕ → Outcome LinkManager
remove_writer m writer = do m ← lock m; ok (unlock (record m { links = erase writer m.links }))

-- How `common.Close` runs a `Close` method on the state of the manager.
abbrev pub Closer : Type 0
Closer = (LinkManager → Outcome LinkManager) → LinkManager → Outcome LinkManager

abbrev pub CallsClose : Closer → Type 0
CallsClose close = (f : LinkManager → Outcome LinkManager) (m : LinkManager) → close f m ≡ f m

module _ (close : Closer) where
  -- ManagedWriter.Close; the underlying writer does not know the manager
  unfoldable pub close_writer : ℕ → LinkManager → Outcome LinkManager
  unfolding remove_writer
  close_writer writer m = remove_writer m writer

  -- `for w, r := range m.links`; interrupting a reader does not touch the manager
  unfoldable pub close_links : Dict ℕ ℕ → LinkManager → Outcome LinkManager
  close_links [] m = ok m
  close_links ((w, r) ∷ links) m = close (close_writer w) m >>= close_links links

  unfoldable pub close_all : LinkManager → Outcome LinkManager
  close_all m = do m ← lock m; m ← close_links m.links m; ok (unlock m)
