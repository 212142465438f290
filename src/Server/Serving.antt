-- ===== src/Server/Serving.antt =====
-- A reload of the program that succeeds: its old nodes are stopped and its new ones serve.
use v2node_pro.Prelude.{
  ℕ, suc, subst, ap, String, true, false, ◌≡◌, refl, ◌∙◌, ◌⊎◌, inl, inr, Option, none, some, List,
  [], ◌∷◌, All, Bool-cases, if◌then◌else◌,
}
use v2node_pro.Prelude.Eq.{string_eq}
use v2node_pro.Prelude.Dict.{lookup}
use v2node_pro.Prelude.Flow.{Outcome, ok, err, panic, hang}
use v2node_pro.Panel.Client.{NodeConfig}
use v2node_pro.Core.Users.{Inbounds}
use v2node_pro.Core.Nodes.{Host}
use v2node_pro.Core.Inbound.Types.{Xray}
use v2node_pro.Dispatcher.Links.{Closer}
use v2node_pro.Node.Lifecycle.{Controller}
use v2node_pro.Node.Lifecycle.Start.{Env}
use v2node_pro.Node.Lifecycle.Closing.{IsStopped}
use v2node_pro.Node.Fleet.{Fleet, Planned, controllers_of, new_nodes, start_nodes, close_nodes}
use v2node_pro.Node.Fleet.Laws.{has_tag, close_nodes-IsStopped}
use v2node_pro.Node.Fleet.Serving.{
  HasNodes, configs, configs_of, new_nodes-HasNodes, HasDistinctTags, SendsDistinct, PlansDistinct,
  IsServing, start_nodes-IsServing,
}
use v2node_pro.Server.{
  set_level, NodeAnswers, Conf, Reload, asked, planned, Server, new_core, nodes_started,
  core_started, nodes_made, load_conf, close_core, nodes_closed, reload,
}
use v2node_pro.Server.Laws.{reload-channel}

module _ (J Files : Type 0) (env : Env J Files) (x : Inbounds) (xray : Xray) (h : Host x xray)
    (close : Closer) (new_ihm : x.State) where
  abbrev S : Type 0
  S = Server J Files env x xray h close new_ihm

  -- The uuids of the users that the panel sends to a new node are distinct.
  abbrev pub SendsLater : NodeAnswers J → Type 0
  SendsLater a = SendsDistinct J Files env x xray h close a.later

  planned-Distinct :
      (k : ℕ) (ns : List NodeConfig) (answers : ℕ → NodeAnswers J) (cs : List Controller)
      → ((i : ℕ) → SendsLater (answers i))
      → All
          (PlansDistinct J Files env x xray h close)
          (planned J Files env x xray h close new_ihm k ns answers cs)
  planned-Distinct k [] answers cs sends = tt
  planned-Distinct k (n ∷ ns) answers [] sends = tt
  planned-Distinct k (n ∷ ns) answers (c ∷ cs) sends =
      (sends k, planned-Distinct (suc k) ns answers cs sends)

  planned-HasNodes :
      (k : ℕ) (ns : List NodeConfig) (answers : ℕ → NodeAnswers J) (cs : List Controller)
      → HasNodes ns cs
      → let ps = planned J Files env x xray h close new_ihm k ns answers cs in
        HasNodes (configs J Files env x xray h close ps) (controllers_of J Files env x xray h ps)
        × (configs J Files env x xray h close ps ≡ ns)
  planned-HasNodes k [] answers [] made = (tt, refl)
  planned-HasNodes k [] answers (c ∷ cs) made = absurd made
  planned-HasNodes k (n ∷ ns) answers [] made = absurd made
  planned-HasNodes k (n ∷ ns) answers (c ∷ cs) (for_node, made) =
      let (later, same) = planned-HasNodes (suc k) ns answers cs made in
      ((for_node, later), ap (λ ns. n ∷ ns) same)

  configs_of-asked :
      (k : ℕ) (ns : List NodeConfig) (answers : ℕ → NodeAnswers J)
      → configs_of (asked k ns answers) ≡ ns
  configs_of-asked k [] answers = refl
  configs_of-asked k (n ∷ ns) answers = ap (λ ns. n ∷ ns) (configs_of-asked (suc k) ns answers)

  -- A part of a reload, from a program `t` on, that ends well with the nodes of a configuration.
  record Serves (ns : List NodeConfig) (t : S) (r : S × Outcome (Unit {0})) : Type 0 where
    nodes : HasNodes ns r.0.controllers
    running : r.0.is_core_running ≡ true
    serving : All (IsServing J Files env x xray h close r.0.world) r.0.controllers
    spares :
        (tag : String)
        → has_tag tag r.0.controllers ≡ false
        → lookup tag r.0.world.registry ≡ lookup tag t.world.registry

  -- A part of a reload serves if it ends well, with controllers of distinct tags.
  abbrev MayServe : List NodeConfig → S → S × Outcome (Unit {0}) → Type 0
  MayServe ns t r = r.1 ≡ ok tt → HasDistinctTags r.0.controllers → Serves ns t r

  nodes_started-MayServe :
      (t : S) (ps : List (Planned J Files env x xray h))
      → t.is_core_running ≡ true
      → All (PlansDistinct J Files env x xray h close) ps
      → HasNodes (configs J Files env x xray h close ps) (controllers_of J Files env x xray h ps)
      → MayServe (configs J Files env x xray h close ps) t (
          nodes_started J Files env x xray h close new_ihm t (
            start_nodes J Files env x xray h close ps
              (record t.world { core = new_core J Files env x xray h close new_ihm })))
  unfolding nodes_started
  nodes_started-MayServe t ps running sends made =
      ended
        (start_nodes J Files env x xray h close ps
          (record t.world { core = new_core J Files env x xray h close new_ihm }))
        (start_nodes-IsServing J Files env x xray h close ps
          (record t.world { core = new_core J Files env x xray h close new_ihm }) sends made)
    where
      ended :
          (f : Fleet J Files env x xray h)
          → (f.1 ≡ ok tt
              → HasDistinctTags f.2
              → HasNodes (configs J Files env x xray h close ps) f.2
                × All (IsServing J Files env x xray h close f.0) f.2
                × ((tag : String)
                    → has_tag tag f.2 ≡ false
                    → lookup tag f.0.registry ≡ lookup tag t.world.registry))
          → MayServe
              (configs J Files env x xray h close ps)
              t
              (nodes_started J Files env x xray h close new_ihm t f)
      ended (w, ok _, cs) all good distinct =
          let (nodes, serving, spares) = all good distinct in
          record { nodes = nodes; running = running; serving = serving; spares = spares }
      ended (w, err e, cs) all good distinct = cc
      ended (w, panic, cs) all good distinct = cc
      ended (w, hang, cs) all good distinct = cc

  core_started-MayServe :
      (t : S) (ps : List (Planned J Files env x xray h)) (o : Outcome (Unit {0}))
      → All (PlansDistinct J Files env x xray h close) ps
      → HasNodes (configs J Files env x xray h close ps) (controllers_of J Files env x xray h ps)
      → MayServe
          (configs J Files env x xray h close ps)
          t
          (core_started J Files env x xray h close new_ihm t ps o)
  unfolding core_started
  core_started-MayServe t ps (ok _) sends made good distinct =
      let s =
        nodes_started-MayServe (record t { is_core_running = true }) ps refl sends made good
          distinct in
      record { nodes = s.nodes; running = s.running; serving = s.serving; spares = s.spares }
  core_started-MayServe t ps (err e) sends made good distinct = cc
  core_started-MayServe t ps panic sends made good distinct = cc
  core_started-MayServe t ps hang sends made good distinct = cc

  nodes_made-MayServe :
      (t : S) (c : Conf) (q : Reload J) (o : Outcome (List Controller))
      → ((cs : List Controller) → o ≡ ok cs → HasNodes c.node_configs cs)
      → ((i : ℕ) → SendsLater (q.answers i))
      → MayServe c.node_configs t (nodes_made J Files env x xray h close new_ihm t c q o)
  unfolding nodes_made
  nodes_made-MayServe t c q (ok cs) made sends good distinct =
      let ps : List (Planned J Files env x xray h) =
        planned J Files env x xray h close new_ihm 0 c.node_configs q.answers cs in
      let (there, same) = planned-HasNodes 0 c.node_configs q.answers cs (made cs refl) in
      subst (λ ns. Serves ns t (core_started J Files env x xray h close new_ihm t ps q.core_start))
        same
        (core_started-MayServe t ps q.core_start
          (planned-Distinct 0 c.node_configs q.answers cs sends) there good distinct)
  nodes_made-MayServe t c q (err e) made sends good distinct = cc
  nodes_made-MayServe t c q panic made sends good distinct = cc
  nodes_made-MayServe t c q hang made sends good distinct = cc

  -- The same of a part that reads the configuration.
  abbrev ReadsAndServes : String ⊎ Conf → S → S × Outcome (Unit {0}) → Type 0
  ReadsAndServes file t r = (c : Conf) × (file ≡ inr c) × Serves c.node_configs t r

  load_conf-Serves :
      (t : S) (q : Reload J) (file : String ⊎ Conf)
      → ((i : ℕ) → SendsLater (q.answers i))
      → (load_conf J Files env x xray h close new_ihm t q file).1 ≡ ok tt
      → HasDistinctTags (load_conf J Files env x xray h close new_ihm t q file).0.controllers
      → ReadsAndServes file t (load_conf J Files env x xray h close new_ihm t q file)
  unfolding load_conf
  load_conf-Serves t q (inl e) sends good distinct = cc
  load_conf-Serves t q (inr c) sends good distinct =
      let s =
        nodes_made-MayServe (record t { log_level = set_level c.log_level t.log_level }) c q
          (new_nodes env.codec (asked 0 c.node_configs q.answers))
          (λ cs e.
            subst (λ ns. HasNodes ns cs) (configs_of-asked 0 c.node_configs q.answers)
              (new_nodes-HasNodes env.codec (asked 0 c.node_configs q.answers) cs e))
          sends good distinct in
      (
        c,
        refl,
        record { nodes = s.nodes; running = s.running; serving = s.serving; spares = s.spares },
      )

  close_core-Serves :
      (t : S) (q : Reload J) (e : Option String)
      → ((i : ℕ) → SendsLater (q.answers i))
      → (close_core J Files env x xray h close new_ihm t q e).1 ≡ ok tt
      → HasDistinctTags (close_core J Files env x xray h close new_ihm t q e).0.controllers
      → ReadsAndServes q.file t (close_core J Files env x xray h close new_ihm t q e)
  unfolding close_core
  close_core-Serves t q (some e) sends good distinct = cc
  close_core-Serves t q none sends good distinct =
      let (c, read, s) =
        load_conf-Serves (record t { is_core_running = false }) q q.file sends good distinct in
      (
        c,
        read,
        record { nodes = s.nodes; running = s.running; serving = s.serving; spares = s.spares },
      )

  nodes_closed-Serves :
      (s : S) (q : Reload J) (f : Fleet J Files env x xray h)
      → ((i : ℕ) → SendsLater (q.answers i))
      → (nodes_closed J Files env x xray h close new_ihm s q f).1 ≡ ok tt
      → HasDistinctTags (nodes_closed J Files env x xray h close new_ihm s q f).0.controllers
      → (f.1 ≡ ok tt)
        × ReadsAndServes q.file
            (record s { world = f.0; controllers = f.2 })
            (nodes_closed J Files env x xray h close new_ihm s q f)
  unfolding nodes_closed
  nodes_closed-Serves s q (w, ok _, cs) sends good distinct = (
    refl,
    close_core-Serves (record s { world = w; controllers = cs }) q q.close_error sends good
        distinct,
  )
  nodes_closed-Serves s q (w, err e, cs) sends good distinct = cc
  nodes_closed-Serves s q (w, panic, cs) sends good distinct = cc
  nodes_closed-Serves s q (w, hang, cs) sends good distinct = cc

  -- The program after a reload: the nodes that it had are stopped; it has one controller for each
  -- node of the configuration that the file holds, in their order; the core runs, and takes reloads
  -- from the same channel; each of its nodes has its limiter in the registry; and of the other tags
  -- the registry has those that no node had.
  pub record IsRenewed (q : Reload J) (before after : S) : Type 0 where
    pub stopped : All IsStopped (close_nodes J Files env x xray h before.controllers before.world).2
    pub conf : Conf
    pub configured : q.file ≡ inr conf
    pub nodes : HasNodes conf.node_configs after.controllers
    pub running : after.is_core_running ≡ true
    pub channel : after.reload_ch ≡ before.reload_ch
    pub serving : All (IsServing J Files env x xray h close after.world) after.controllers
    pub registry :
        (tag : String)
        → (has_tag tag after.controllers ≡ true)
          ⊎ (lookup tag after.world.registry
              ≡ (if has_tag tag before.controllers then none else lookup tag before.world.registry))

  -- If a reload returns no error and no two of the nodes that it has started have the same tag, then
  -- every task of the nodes before it is stopped and their limiters are gone; the configuration file
  -- could be read, and there is one controller for each node of that configuration, in their order,
  -- whose client has the host, the key and the id of that node; the core runs and the reload channel
  -- is the old one; and each new node has a configuration from the panel and, in the registry under
  -- its tag, its own limiter, with the limits of exactly its users. The uuids of each user list that
  -- the panel sends are distinct.
  pub reload-IsRenewed :
      (s : S) (q : Reload J)
      → ((i : ℕ) → SendsLater (q.answers i))
      → (reload J Files env x xray h close new_ihm s q).1 ≡ ok tt
      → HasDistinctTags (reload J Files env x xray h close new_ihm s q).0.controllers
      → IsRenewed q s (reload J Files env x xray h close new_ihm s q).0
  unfolding reload
  reload-IsRenewed s q sends good distinct =
      let f : Fleet J Files env x xray h = close_nodes J Files env x xray h s.controllers s.world in
      let (closed, reads) = nodes_closed-Serves s q f sends good distinct in
      let (c, read, served) = reads in
      let (stopped, gone) =
        close_nodes-IsStopped J Files env x xray h s.controllers s.world closed in
      record {
        stopped = stopped;
        conf = c;
        configured = read;
        nodes = served.nodes;
        running = served.running;
        channel = reload-channel J Files env x xray h close new_ihm s q;
        serving = served.serving;
        registry = λ tag.
            elim (Bool-cases
              (has_tag tag (reload J Files env x xray h close new_ihm s q).0.controllers)) [
                | inl there ↦ inl there
                | inr free ↦ inr (served.spares tag free ∙ gone tag)
              ];
      }
