-- ===== src/Dispatcher/Tests.antt =====
-- The dispatcher at concrete states.
use v2node_pro.Prelude.{false, [], ◌∷◌}
use v2node_pro.Prelude.Eq.{nat_eq}
use v2node_pro.Dispatcher.Links.{LinkManager, Closer}

abbrev calling : Closer
calling f m = f m

abbrev one_link : LinkManager
one_link = record { links = (1, 2) ∷ []; locked = false }
