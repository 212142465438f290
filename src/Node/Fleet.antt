-- ===== src/Node/Fleet.antt =====
-- node/node.go: New, Start and Close over the controllers of all configured nodes, which share the
-- limiters, the core and the files.
pub mod Laws
pub mod Serving
use Prim.Native.String.{◌++◌ as join}
use v2node_pro.Prelude.{ℕ, String, Option, none, some, List, [], ◌∷◌, ◌++◌}
use v2node_pro.Prelude.Text.{itoa}
use v2node_pro.Prelude.Flow.{Outcome, ok, err, panic, hang}
use v2node_pro.Panel.NodeInfo.{NodeInfo}
use v2node_pro.Panel.Client.{Client, NodeConfig, Codec, Answer, new_client, get_node_info}
use v2node_pro.Core.Users.{Inbounds}
use v2node_pro.Core.Nodes.{Host}
use v2node_pro.Core.Inbound.Types.{Xray}
use v2node_pro.Dispatcher.Links.{Closer}
use v2node_pro.Node.Lifecycle.{Controller, new_controller}
use v2node_pro.Node.Lifecycle.Start.{Env, Answers, World, start, close_node}

-- a controller for a node, before the others
unfoldable pub new_known :
    Client × Outcome (Option NodeInfo) → Outcome (List Controller) → Outcome (List Controller)
unfolding new_controller
new_known (client, ok info) (ok cs) = ok (new_controller client info ∷ cs)
new_known (client, ok info) (err e) = err e
new_known (client, ok info) panic = panic
new_known (client, ok info) hang = hang
new_known (client, err e) rest = err e
new_known (client, panic) rest = panic
new_known (client, hang) rest = hang

-- New: the controllers, with what each asked the panel, or the first error
unfoldable pub new_nodes : Codec → List (NodeConfig × Answer) → Outcome (List Controller)
unfolding new_known new_client get_node_info
new_nodes codec [] = ok []
new_nodes codec ((config, answer) ∷ rest) =
    new_known (get_node_info codec (new_client config) answer) (new_nodes codec rest)

module _ (J Files : Type 0) (env : Env J Files) (x : Inbounds) (xray : Xray) (h : Host x xray) where
  -- a controller with the address of its node and what the panel will answer it
  pub record Planned : Type 0 where
    pub controller : Controller
    pub config : NodeConfig
    pub answers : Answers J

  abbrev start_error : NodeConfig → String → String
  start_error c e =
      join "start node controller ["
        (join c.api_host (join "-" (join (itoa c.node_id) (join "] error: " e))))

  -- The shared state, how the calls end, and the controllers, those behind an error untouched.
  abbrev pub Fleet : Type 0
  Fleet = World J Files env x xray h × Outcome (Unit {0}) × List Controller

  abbrev pub with_controller : World J Files env x xray h → Controller → World J Files env x xray h
  with_controller w c = record w { controller = c }

  abbrev pub ahead : Controller → Fleet → Fleet
  ahead c (w, o, cs) = (w, o, c ∷ cs)

  abbrev pub controllers_of : List Planned → List Controller
  controllers_of [] = []
  controllers_of (p ∷ ps) = p.controller ∷ controllers_of ps

  unfoldable pub start_next :
      Planned
      → List Planned
      → (World J Files env x xray h → Fleet)
      → World J Files env x xray h × Outcome (Unit {0})
      → Fleet
  start_next p ps next (w, ok _) = ahead w.controller (next w)
  start_next p ps next (w, err e) =
      (w, err (start_error p.config e), w.controller ∷ controllers_of ps)
  start_next p ps next (w, panic) = (w, panic, w.controller ∷ controllers_of ps)
  start_next p ps next (w, hang) = (w, hang, w.controller ∷ controllers_of ps)

  -- Start
  unfoldable pub start_nodes : Closer → List Planned → World J Files env x xray h → Fleet
  unfolding start start_next
  start_nodes close [] w = (w, ok tt, [])
  start_nodes close (p ∷ ps) w =
      start_next p ps (start_nodes close ps)
        (start J Files env x xray h close p.answers (with_controller w p.controller))

  unfoldable pub close_next :
      List Controller
      → (World J Files env x xray h → Fleet)
      → World J Files env x xray h × Outcome (Unit {0})
      → Fleet
  close_next cs next (w, ok _) = ahead w.controller (next w)
  close_next cs next (w, err e) = (w, err e, w.controller ∷ cs)
  close_next cs next (w, panic) = (w, panic, w.controller ∷ cs)
  close_next cs next (w, hang) = (w, hang, w.controller ∷ cs)

  -- Close; the list of the controllers, which Go drops, is kept to say how they end
  unfoldable pub close_nodes : List Controller → World J Files env x xray h → Fleet
  unfolding close_node close_next
  close_nodes [] w = (w, ok tt, [])
  close_nodes (c ∷ cs) w =
      close_next cs (close_nodes cs) (close_node J Files env x xray h (with_controller w c))
