-- ===== src/Node/Fleet/Laws.antt =====
-- Close of all nodes: if it ends well, every controller is stopped and its limiter gone.
use v2node_pro.Prelude.{
  String, Bool, false, ◌≡◌, refl, none, List, [], ◌∷◌, All, ◌||◌, if◌then◌else◌, arith,
}
use v2node_pro.Prelude.Eq.{◌==◌, string_eq}
use v2node_pro.Prelude.Dict.{lookup}
use v2node_pro.Prelude.Flow.{Outcome, ok, err, panic, hang}
use v2node_pro.Core.Users.{Inbounds}
use v2node_pro.Core.Nodes.{Host}
use v2node_pro.Core.Inbound.Types.{Xray}
use v2node_pro.Node.Lifecycle.{Controller}
use v2node_pro.Node.Lifecycle.Start.{Env, World, close_node}
use v2node_pro.Node.Lifecycle.Closing.{IsStopped, close_node-IsStopped}
use v2node_pro.Node.Fleet.{Fleet, with_controller, close_next, close_nodes}

-- Whether one of the controllers has a tag.
unfoldable pub has_tag : String → List Controller → Bool
has_tag tag [] = false
has_tag tag (c ∷ cs) = (c.tag == tag) || has_tag tag cs

module _ (J Files : Type 0) (env : Env J Files) (x : Inbounds) (xray : Xray) (h : Host x xray) where
  -- Closing a list that ends well, seen from the registry it starts with.
  record ClosesAll (cs : List Controller) (w : World J Files env x xray h)
      (r : Fleet J Files env x xray h) : Type 0 where
    stopped : All IsStopped r.2
    registry :
        (tag : String)
        → lookup tag r.0.registry ≡ (if has_tag tag cs then none else lookup tag w.registry)

  next-ClosesAll :
      (c : Controller) (cs : List Controller) (w : World J Files env x xray h)
      (next : World J Files env x xray h → Fleet J Files env x xray h)
      (r : World J Files env x xray h × Outcome (Unit {0}))
      → IsStopped r.0.controller
      → ((tag : String)
          → lookup tag r.0.registry ≡ (if c.tag == tag then none else lookup tag w.registry))
      → ((v : World J Files env x xray h) → (next v).1 ≡ ok tt → ClosesAll cs v (next v))
      → (close_next J Files env x xray h cs next r).1 ≡ ok tt
      → ClosesAll (c ∷ cs) w (close_next J Files env x xray h cs next r)
  unfolding close_next has_tag
  next-ClosesAll c cs w next (v, ok _) s reg rest good =
      let later = rest v good in
      record {
        stopped = (s, later.stopped);
        registry = λ tag. ground (arith, later.registry tag, reg tag);
      }
  next-ClosesAll c cs w next (v, err e) s reg rest good = cc
  next-ClosesAll c cs w next (v, panic) s reg rest good = cc
  next-ClosesAll c cs w next (v, hang) s reg rest good = cc

  closes-ClosesAll :
      (cs : List Controller) (w : World J Files env x xray h)
      → (close_nodes J Files env x xray h cs w).1 ≡ ok tt
      → ClosesAll cs w (close_nodes J Files env x xray h cs w)
  unfolding close_nodes has_tag
  closes-ClosesAll [] w good = record { stopped = tt; registry = λ tag. refl }
  closes-ClosesAll (c ∷ cs) w good =
      let (s, reg) =
        close_node-IsStopped J Files env x xray h (with_controller J Files env x xray h w c) in
      next-ClosesAll c cs w (close_nodes J Files env x xray h cs)
        (close_node J Files env x xray h (with_controller J Files env x xray h w c)) s reg
        (closes-ClosesAll cs) good

  -- If Close of all nodes returns no error, then none of their tasks runs and the registry has the
  -- limiters of other tags only, as they were.
  pub close_nodes-IsStopped :
      (cs : List Controller) (w : World J Files env x xray h)
      → (close_nodes J Files env x xray h cs w).1 ≡ ok tt
      → All IsStopped (close_nodes J Files env x xray h cs w).2
        × ((tag : String)
            → lookup tag (close_nodes J Files env x xray h cs w).0.registry
              ≡ (if has_tag tag cs then none else lookup tag w.registry))
  close_nodes-IsStopped cs w good =
      let all = closes-ClosesAll cs w good in (all.stopped, all.registry)
