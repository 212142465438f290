-- ===== src/Server/Laws.antt =====
-- The reload of the program: its channel is kept, and a configuration that cannot be read ends it.
use v2node_pro.Prelude.{
  String, true, false, ◌≡◌, refl, sym, ap, subst, ◌∙◌, ◌⊎◌, inl, inr, Option, none, some, List, ◌∷◌,
  All, if◌then◌else◌,
}
use v2node_pro.Prelude.Eq.{string_eq}
use v2node_pro.Prelude.Dict.{lookup}
use v2node_pro.Prelude.Flow.{Outcome, ok, err, panic, hang}
use v2node_pro.Core.Users.{Inbounds}
use v2node_pro.Core.Nodes.{Host}
use v2node_pro.Core.Inbound.Types.{Xray}
use v2node_pro.Dispatcher.Links.{Closer}
use v2node_pro.Node.Lifecycle.{Controller}
use v2node_pro.Node.Lifecycle.Start.{Env}
use v2node_pro.Node.Lifecycle.Closing.{IsStopped}
use v2node_pro.Node.Fleet.{Fleet, Planned, new_nodes, close_nodes}
use v2node_pro.Node.Fleet.Laws.{has_tag, close_nodes-IsStopped}
use v2node_pro.Server.{
  set_level, Event, Conf, Reload, asked, planned, Server, nodes_started, core_started, nodes_made,
  load_conf, close_core, nodes_closed, reload, reload_signal, panicked, take_signal, after_reload,
  serve_loop,
}

module _ (J Files : Type 0) (env : Env J Files) (x : Inbounds) (xray : Xray) (h : Host x xray)
    (close : Closer) (new_ihm : x.State) where
  abbrev S : Type 0
  S = Server J Files env x xray h close new_ihm

  nodes_started-channel :
      (s : S) (f : Fleet J Files env x xray h)
      → (nodes_started J Files env x xray h close new_ihm s f).0.reload_ch ≡ s.reload_ch
  unfolding nodes_started
  nodes_started-channel s (w, ok _, cs) = refl
  nodes_started-channel s (w, err e, cs) = refl
  nodes_started-channel s (w, panic, cs) = refl
  nodes_started-channel s (w, hang, cs) = refl

  core_started-channel :
      (s : S) (ps : List (Planned J Files env x xray h)) (o : Outcome (Unit {0}))
      → (core_started J Files env x xray h close new_ihm s ps o).0.reload_ch ≡ s.reload_ch
  unfolding core_started
  core_started-channel s ps (ok _) = nodes_started-channel (record s { is_core_running = true }) _
  core_started-channel s ps (err e) = refl
  core_started-channel s ps panic = refl
  core_started-channel s ps hang = refl

  nodes_made-channel :
      (s : S) (c : Conf) (q : Reload J) (o : Outcome (List Controller))
      → (nodes_made J Files env x xray h close new_ihm s c q o).0.reload_ch ≡ s.reload_ch
  unfolding nodes_made
  nodes_made-channel s c q (ok cs) =
      core_started-channel s
        (planned J Files env x xray h close new_ihm 0 c.node_configs q.answers cs) q.core_start
  nodes_made-channel s c q (err e) = refl
  nodes_made-channel s c q panic = refl
  nodes_made-channel s c q hang = refl

  load_conf-channel :
      (s : S) (q : Reload J) (file : String ⊎ Conf)
      → (load_conf J Files env x xray h close new_ihm s q file).0.reload_ch ≡ s.reload_ch
  unfolding load_conf
  load_conf-channel s q (inl e) = refl
  load_conf-channel s q (inr c) =
      nodes_made-channel _ c q (new_nodes env.codec (asked 0 c.node_configs q.answers))

  close_core-channel :
      (s : S) (q : Reload J) (e : Option String)
      → (close_core J Files env x xray h close new_ihm s q e).0.reload_ch ≡ s.reload_ch
  unfolding close_core
  close_core-channel s q (some e) = refl
  close_core-channel s q none = load_conf-channel (record s { is_core_running = false }) q q.file

  nodes_closed-channel :
      (s : S) (q : Reload J) (f : Fleet J Files env x xray h)
      → (nodes_closed J Files env x xray h close new_ihm s q f).0.reload_ch ≡ s.reload_ch
  unfolding nodes_closed
  nodes_closed-channel s q (w, ok _, cs) =
      close_core-channel (record s { world = w; controllers = cs }) q q.close_error
  nodes_closed-channel s q (w, err e, cs) = refl
  nodes_closed-channel s q (w, panic, cs) = refl
  nodes_closed-channel s q (w, hang, cs) = refl

  -- The program's reload channel is the same after a reload, however that ends.
  pub reload-channel :
      (s : S) (q : Reload J)
      → (reload J Files env x xray h close new_ihm s q).0.reload_ch ≡ s.reload_ch
  unfolding reload
  reload-channel s q =
      nodes_closed-channel s q (close_nodes J Files env x xray h s.controllers s.world)

  -- The configuration file cannot be read, or the panel does not answer to one of its nodes.
  abbrev pub CannotLoad : Reload J → Type 0
  CannotLoad q =
      ((e : String) × (q.file ≡ inl e))
      ⊎ ((c : Conf) × (e : String) × (q.file ≡ inr c)
          × (new_nodes env.codec (asked 0 c.node_configs q.answers) ≡ err e))

  -- The nodes and the core that a program had are down.
  pub record IsDown (before after : S) : Type 0 where
    pub stopped : All IsStopped after.controllers
    pub core_is_down : after.is_core_running ≡ false
    pub registry :
        (tag : String)
        → lookup tag after.world.registry
          ≡ (if has_tag tag before.controllers then none else lookup tag before.world.registry)

  -- A result that is an error, with the nodes as they were.
  FailsOn : S → S × Outcome (Unit {0}) → Type 0
  FailsOn t r =
      (u : S) × (e : String) × (r ≡ (u, err e))
      × (u.controllers ≡ t.controllers)
      × (u.world ≡ t.world)
      × (u.is_core_running ≡ t.is_core_running)

  load_failed :
      (t : S) (q : Reload J)
      → CannotLoad q
      → FailsOn t (load_conf J Files env x xray h close new_ihm t q q.file)
  unfolding load_conf nodes_made FailsOn
  load_failed t q (inl (e, at)) =
      (t, e, ap (load_conf J Files env x xray h close new_ihm t q) at, refl, refl, refl)
  load_failed t q (inr (c, e, at, none_made)) =
      let t' : S = record t { log_level = set_level c.log_level t.log_level } in
      (
        t',
        e,
        ap (load_conf J Files env x xray h close new_ihm t q) at
            ∙ ap (nodes_made J Files env x xray h close new_ihm t' c q) none_made,
        refl,
        refl,
        refl,
      )

  closed_then_failed :
      (s : S) (q : Reload J) (f : Fleet J Files env x xray h)
      → f.1 ≡ ok tt
      → q.close_error ≡ none
      → CannotLoad q
      → FailsOn
          (record s { world = f.0; controllers = f.2; is_core_running = false })
          (nodes_closed J Files env x xray h close new_ihm s q f)
  unfolding nodes_closed close_core
  closed_then_failed s q (w, ok _, cs) closed core_closed fails =
      let t : S = record s { world = w; controllers = cs } in
      subst (FailsOn (record t { is_core_running = false }))
        (sym (ap (close_core J Files env x xray h close new_ihm t q) core_closed))
        (load_failed (record t { is_core_running = false }) q fails)
  closed_then_failed s q (w, err e, cs) closed core_closed fails = cc
  closed_then_failed s q (w, panic, cs) closed core_closed fails = cc
  closed_then_failed s q (w, hang, cs) closed core_closed fails = cc

  -- If the running nodes and the core can be closed, but the configuration file cannot be read then,
  -- or the panel does not answer to one of its nodes, then a reload ends the program by a panic, with
  -- all its nodes stopped, the core down and the nodes' limiters gone: the old configuration is not
  -- kept in service.
  pub serve_loop-outage :
      (s : S) (q : Reload J) (es : List (Event J Files env x xray h close new_ihm))
      → (close_nodes J Files env x xray h s.controllers s.world).1 ≡ ok tt
      → q.close_error ≡ none
      → CannotLoad q
      → (after : S) × (serve_loop J Files env x xray h close new_ihm (reload_signal q ∷ es) s
          ≡ panicked after)
        × IsDown s after
  unfolding serve_loop reload after_reload FailsOn take_signal
  serve_loop-outage s q es closed core_closed fails =
      let f : Fleet J Files env x xray h = close_nodes J Files env x xray h s.controllers s.world in
      let (u, e, ended, cs, w, down) =
        closed_then_failed (take_signal J Files env x xray h close new_ihm s) q f closed core_closed
          fails in
      let (stopped, gone) =
        close_nodes-IsStopped J Files env x xray h s.controllers s.world closed in
      (
        u,
        ap
            (after_reload J Files env x xray h close new_ihm
              (serve_loop J Files env x xray h close new_ihm es))
            ended,
        record {
          stopped = subst (All IsStopped) (sym cs) stopped;
          core_is_down = down;
          registry = λ tag. ap (λ v. lookup tag v.registry) w ∙ gone tag;
        },
      )
