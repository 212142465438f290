-- ===== src/Server.antt =====
-- cmd/server.go with New, Start and Close of core/core.go: the running program, its reload and its
-- loop. Reading the configuration file (conf/conf.go) and Xray's instance are parameters; what the
-- panel answers to the new nodes is an argument. The log file is left out.
pub mod Watch
pub mod Laws
pub mod Serving
pub mod Tests
use v2node_pro.Prelude.{
  ℕ, suc, ◌-◌, String, Bool, true, false, ◌||◌, ◌⊎◌, inl, inr, Option, none, some, List, [], ◌∷◌,
  if◌then◌else◌,
}
use v2node_pro.Prelude.Eq.{◌==◌, string_eq}
use v2node_pro.Prelude.Flow.{Outcome, ok, err, panic, hang}
use v2node_pro.Panel.Client.{NodeConfig, Answer}
use v2node_pro.Core.Users.{Inbounds, V2Core}
use v2node_pro.Core.Nodes.{Host}
use v2node_pro.Core.Inbound.Types.{Xray}
use v2node_pro.Dispatcher.Links.{Closer}
use v2node_pro.Node.Monitor.{ReloadCh}
use v2node_pro.Node.Lifecycle.{Controller}
use v2node_pro.Node.Lifecycle.Start.{Env, Answers, World}
use v2node_pro.Node.Fleet.{Fleet, Planned, new_nodes, start_nodes, close_nodes}

-- conf.Conf, without the output files and the port of pprof
pub record Conf : Type 0 where
  pub log_level : String
  pub node_configs : List NodeConfig

-- `switch newConf.LogConfig.Level`: the level that is set; an unknown word changes nothing
unfoldable pub set_level : (word level : String) → String
set_level word level =
    if word == "debug"
    then "debug"
    else if word == "info"
    then "info"
    else if word == "warn" || word == "warning"
    then "warn"
    else if word == "error"
    then "error"
    else level

-- What the panel answers to a node: to New, and then to Start.
pub record NodeAnswers (J : Type 0) : Type 0 where
  pub first : Answer
  pub later : Answers J

-- The configured nodes from a position on, with the panel's first answer to each.
abbrev pub asked :
    {J : Type 0} → ℕ → List NodeConfig → (ℕ → NodeAnswers J) → List (NodeConfig × Answer)
asked k [] answers = []
asked k (c ∷ cs) answers = (c, (answers k).first) ∷ asked (suc k) cs answers

-- A reload: whether Xray's instance closes, what the configuration file holds, what the panel
-- answers to the node at each position of it, and how Xray's new instance starts, which may be a panic.
pub record Reload (J : Type 0) : Type 0 where
  pub close_error : Option String
  pub file : String ⊎ Conf
  pub answers : ℕ → NodeAnswers J
  pub core_start : Outcome (Unit {0})

-- `<-reloadCh`
unfoldable pub received : Option ReloadCh → Option ReloadCh
received (Option.none) = none
received (Option.some ch) = some (record ch { pending = ch.pending - 1 })

module _ (J Files : Type 0) (env : Env J Files) (x : Inbounds) (xray : Xray) (h : Host x xray)
    (close : Closer) (new_ihm : x.State) where
  -- The configured nodes from a position on, with their controllers: New makes one for each.
  abbrev pub planned :
      ℕ
      → List NodeConfig
      → (ℕ → NodeAnswers J)
      → List Controller
      → List (Planned J Files env x xray h)
  planned k [] answers cs = []
  planned k (n ∷ ns) answers [] = []
  planned k (n ∷ ns) answers (c ∷ cs) =
      record { controller = c; config = n; answers = (answers k).later }
      ∷ planned (suc k) ns answers cs

  -- The variables `nodes` and `v2core`; `orphans` are the nodes of a reload that failed.
  pub record Server : Type 0 where
    pub world : World J Files env x xray h
    pub controllers : List Controller
    pub is_core_running : Bool
    pub reload_ch : Option ReloadCh
    pub log_level : String
    pub orphans : List Controller

  -- core.New and Start: a new instance has no users and no links
  abbrev pub new_core : V2Core x
  new_core = record { ihm = new_ihm; uid_map = []; counter = []; link_managers = [] }

  unfoldable pub nodes_started : Server → Fleet J Files env x xray h → Server × Outcome (Unit {0})
  nodes_started s (w, ok _, cs) = (record s { world = w; controllers = cs }, ok tt)
  nodes_started s (w, err e, cs) = (record s { world = w; orphans = cs }, err e)
  nodes_started s (w, panic, cs) = (record s { world = w; orphans = cs }, panic)
  nodes_started s (w, hang, cs) = (record s { world = w; orphans = cs }, hang)

  -- from `newCore.Start` on
  unfoldable pub core_started :
      Server
      → List (Planned J Files env x xray h)
      → Outcome (Unit {0})
      → Server × Outcome (Unit {0})
  unfolding nodes_started start_nodes
  core_started s ps (ok _) =
      nodes_started (record s { is_core_running = true })
        (start_nodes J Files env x xray h close ps (record s.world { core = new_core }))
  core_started s ps (err e) = (s, err e)
  core_started s ps panic = (s, panic)
  core_started s ps hang = (s, hang)

  unfoldable pub nodes_made :
      Server → Conf → Reload J → Outcome (List Controller) → Server × Outcome (Unit {0})
  unfolding core_started
  nodes_made s c q (ok cs) = core_started s (planned 0 c.node_configs q.answers cs) q.core_start
  nodes_made s c q (err e) = (s, err e)
  nodes_made s c q panic = (s, panic)
  nodes_made s c q hang = (s, hang)

  -- from `newConf.LoadFromPath` on
  unfoldable pub load_conf : Server → Reload J → String ⊎ Conf → Server × Outcome (Unit {0})
  unfolding nodes_made new_nodes set_level
  load_conf s q (inl e) = (s, err e)
  load_conf s q (inr c) =
      nodes_made (record s { log_level = set_level c.log_level s.log_level }) c q
        (new_nodes env.codec (asked 0 c.node_configs q.answers))

  -- core.Close, and the rest
  unfoldable pub close_core : Server → Reload J → Option String → Server × Outcome (Unit {0})
  unfolding load_conf
  close_core s q (some e) = (s, err e)
  close_core s q none = load_conf (record s { is_core_running = false }) q q.file

  unfoldable pub nodes_closed :
      Server → Reload J → Fleet J Files env x xray h → Server × Outcome (Unit {0})
  unfolding close_core
  nodes_closed s q (w, ok _, cs) =
      close_core (record s { world = w; controllers = cs }) q q.close_error
  nodes_closed s q (w, err e, cs) = (record s { world = w; controllers = cs }, err e)
  nodes_closed s q (w, panic, cs) = (record s { world = w; controllers = cs }, panic)
  nodes_closed s q (w, hang, cs) = (record s { world = w; controllers = cs }, hang)

  -- reload
  unfoldable pub reload : Server → Reload J → Server × Outcome (Unit {0})
  unfolding nodes_closed close_nodes
  reload s q = nodes_closed s q (close_nodes J Files env x xray h s.controllers s.world)

  -- What the loop of serverHandle receives.
  pub data Event : Type 0 where
    os_signal : Event
    reload_signal : Reload J → Event

  -- How the program is after some events: it runs on, it has exited, or it has ended by a panic.
  pub data Status : Type 0 where
    runs : Server → Status
    exited : Server → Status
    panicked : Server → Status

  unfoldable pub take_signal : Server → Server
  unfolding received
  take_signal s = record s { reload_ch = received s.reload_ch }

  unfoldable pub after_reload : (Server → Status) → Server × Outcome (Unit {0}) → Status
  after_reload next (s, ok _) = next s
  after_reload next (s, err e) = panicked s
  after_reload next (s, panic) = panicked s
  after_reload next (s, hang) = runs s

  -- the loop; any error of a reload is a panic
  unfoldable pub serve_loop : List Event → Server → Status
  unfolding reload after_reload take_signal
  serve_loop [] s = runs s
  serve_loop (os_signal ∷ es) s = exited s
  serve_loop (reload_signal q ∷ es) s = after_reload (serve_loop es) (reload (take_signal s) q)
