-- ===== src/Node/Lifecycle/Rounds.antt =====
-- A controller that has started, and the rounds of its monitor.
use v2node_pro.Prelude.{
  String, ◌≡◌, refl, sym, ap, ◌∙◌, subst, Option, none, some, List, [], ◌∷◌, All,
}
use v2node_pro.Prelude.Int.{ℤ}
use v2node_pro.Prelude.Eq.{string_eq, ==_refl}
use v2node_pro.Prelude.Dict.{Dict, lookup, lookup-insert}
use v2node_pro.Prelude.Flow.{ok}
use v2node_pro.Prelude.Stateful.{M, ◌>>=◌, run-eq-ok}
use v2node_pro.Panel.{UserInfo, find, IsDistinctUsers}
use v2node_pro.Panel.NodeInfo.{NodeInfo}
use v2node_pro.Panel.Client.{Client}
use v2node_pro.Panel.Users.{get_user_list}
use v2node_pro.Limiter.{Limiter, Registry, add_limiter}
use v2node_pro.Limiter.Limits.{add_limiter-limits, limits_at, limits_of_user}
use v2node_pro.Core.Users.{Inbounds}
use v2node_pro.Core.Nodes.{Host}
use v2node_pro.Core.Inbound.Types.{Xray}
use v2node_pro.Dispatcher.Links.{Closer}
use v2node_pro.Node.Sync.{Matches}
use v2node_pro.Node.Monitor
use v2node_pro.Node.Monitor.{ReloadCh, Fetched, node_info_monitor}
use v2node_pro.Node.Monitor.Laws.{IsInStep, IsDistinctAnswer, node_info_monitor-IsInStep}
use v2node_pro.Node.Lifecycle.{account_settings}
use v2node_pro.Node.Lifecycle.Start.{
  Env, Answers, World, fetch_info, fetch_users, fetch_alive, register_limiter, start_node,
  start_known, start,
}
use v2node_pro.Node.Lifecycle.Laws.{Kept, serve-Kept, fetch_alive-Kept, fetched_users-ok}

module _ (J Files : Type 0) (env : Env J Files) (x : Inbounds) (xray : Xray) (h : Host x xray)
    (close : Closer) where
  -- What the monitor of a started controller works on.
  unfoldable pub monitored :
      World J Files env x xray h → Option ReloadCh → Limiter → NodeInfo → Monitor.Controller x close
  monitored w ch l node = record {
    core = w.core;
    limiter = l;
    tag = w.controller.tag;
    info = account_settings node;
    user_list = w.controller.user_list;
    reload_ch = ch;
  }

  -- Rounds of the monitor, one after the other.
  unfoldable pub rounds : Monitor.Controller x close → List Fetched → Monitor.Controller x close
  unfolding node_info_monitor
  rounds c [] = c
  rounds c (f ∷ fs) = rounds (node_info_monitor x close c f).0 fs

  abbrev pub HasDistinctUsers : Fetched → Type 0
  HasDistinctUsers f = IsDistinctAnswer f.user_list

  rounds-IsInStep :
      (c : Monitor.Controller x close) (fs : List Fetched)
      → IsInStep x close c
      → All HasDistinctUsers fs
      → IsInStep x close (rounds c fs)
  unfolding rounds
  rounds-IsInStep c [] s d = s
  rounds-IsInStep c (f ∷ fs) s d =
      rounds-IsInStep (node_info_monitor x close c f).0 fs
        (node_info_monitor-IsInStep x close c f s d.0) d.1

  -- The registry's limiter for a controller that is served.
  pub record IsServed (w : World J Files env x xray h) (l : Limiter) (node : NodeInfo)
      : Type 0 where
    pub own : w.controller.limiter ≡ some l
    pub registered : lookup w.controller.tag w.registry ≡ some l
    pub informed : w.controller.info ≡ some node
    pub matches : Matches l w.controller.tag w.controller.user_list
    pub distinct : IsDistinctUsers w.controller.user_list

  added :
      (reg : Registry) (type tag : String) (users : List UserInfo) (alive : Dict ℤ ℤ)
      → lookup tag (add_limiter reg type tag users alive).0
        ≡ some (add_limiter reg type tag users alive).1
  unfolding add_limiter
  added reg type tag users alive =
      lookup-insert tag tag (add_limiter reg type tag users alive).1 reg ∙ rw (==_refl tag) refl

  registered-IsServed :
      (v w : World J Files env x xray h) (node : NodeInfo)
      → IsDistinctUsers v.controller.user_list
      → v.controller.info ≡ some node
      → Kept J Files env x xray h (register_limiter J Files env x xray h node v) w
      → IsServed w
          (add_limiter v.registry node.type node.tag v.controller.user_list
            v.controller.alive_map).1
          node
  unfolding register_limiter
  registered-IsServed v w node d informed k =
      let users : List UserInfo = v.controller.user_list in
      let made : Registry × Limiter =
        add_limiter v.registry node.type node.tag users v.controller.alive_map in
      record {
        own = k.limiter;
        registered =
            ap (λ t. lookup t w.registry) k.tag
            ∙ ap (lookup node.tag) k.registry
            ∙ added v.registry node.type node.tag users v.controller.alive_map;
        informed = k.info ∙ informed;
        distinct = subst IsDistinctUsers (sym k.user_list) d;
        matches = λ uuid.
            subst (λ t. limits_at made.1 t uuid ≡ limits_of_user (find uuid w.controller.user_list))
              (sym k.tag)
              (add_limiter-limits node.tag uuid v.registry node.type users v.controller.alive_map d
                ∙ ap (λ us. limits_of_user (find uuid us)) (sym k.user_list));
      }

  -- Start up to the limiter.
  start_node-IsServed :
      (a : Answers J) (v w : World J Files env x xray h) (u : Unit {0})
      → IsDistinctUsers v.controller.user_list
      → start_node J Files env x xray h close a v ≡ (w, ok u)
      → (l : Limiter) × (node : NodeInfo) × IsServed w l node
  unfolding start_node
  start_node-IsServed a v w u d e = informed v.controller.info refl e
    where
      informed :
          (info : Option NodeInfo)
          → v.controller.info ≡ info
          → start_known J Files env x xray h close a info v ≡ (w, ok u)
          → (l : Limiter) × (node : NodeInfo) × IsServed w l node
      informed none at e = unfold start_known in cc
      informed (some node) at e = (
        (add_limiter v.registry node.type node.tag v.controller.user_list v.controller.alive_map).1,
        node,
        registered-IsServed v w node d at (
            subst (Kept J Files env x xray h (register_limiter J Files env x xray h node v))
              (ap (λ r. r.0) (unfold start_known in e))
              (serve-Kept J Files env x xray h close a node
                (register_limiter J Files env x xray h node v))),
      )

  pub start-IsServed :
      (a : Answers J) (w w' : World J Files env x xray h)
      → ((c : Client) (us : List UserInfo)
          → (get_user_list J env.decoder c a.users).1 ≡ ok us
          → IsDistinctUsers us)
      → start J Files env x xray h close a w ≡ (w', ok tt)
      → (l : Limiter) × (node : NodeInfo) × IsServed w' l node
  unfolding start fetch_users
  start-IsServed a w w' distinct e =
      let node : M (World J Files env x xray h) (Unit {0}) =
        start_node J Files env x xray h close a in
      let alive : M (World J Files env x xray h) (Unit {0}) = fetch_alive J Files env x xray h a in
      let users : M (World J Files env x xray h) (Unit {0}) = fetch_users J Files env x xray h a in
      let (w₁, u₁, a₁, k₁) =
        run-eq-ok (λ u. users >>= λ u. alive >>= λ u. node) (fetch_info J Files env x xray h a w)
          e in
      let (w₂, u₂, a₂, k₂) = run-eq-ok (λ u. alive >>= λ u. node) (users w₁) k₁ in
      let (w₃, u₃, a₃, k₃) = run-eq-ok (λ u. node) (alive w₂) k₂ in
      let sent =
        fetched_users-ok J Files env x xray h w₁ w₂
          (get_user_list J env.decoder w₁.controller.client a.users) a₂ in
      let kept : Kept J Files env x xray h w₂ w₃ =
        subst (Kept J Files env x xray h w₂) (ap (λ r. r.0) a₃)
          (fetch_alive-Kept J Files env x xray h a w₂) in
      let d : IsDistinctUsers w₃.controller.user_list =
        subst IsDistinctUsers (sym kept.user_list)
          (distinct w₁.controller.client w₂.controller.user_list sent.0) in
      start_node-IsServed a w₃ w' u₃ d k₃

  -- If Start ends well, then the controller has the node and the limiter that the registry has under
  -- its tag; and after that limiter's controller has gone through any rounds of the monitor,
  -- whatever fails in them, the limiter has the limits of exactly the users of the controller's list.
  -- The uuids of each list that the panel sends are distinct.
  pub start-rounds-IsInStep :
      (a : Answers J) (w w' : World J Files env x xray h) (ch : Option ReloadCh) (fs : List Fetched)
      → ((c : Client) (us : List UserInfo)
          → (get_user_list J env.decoder c a.users).1 ≡ ok us
          → IsDistinctUsers us)
      → All HasDistinctUsers fs
      → start J Files env x xray h close a w ≡ (w', ok tt)
      → (l : Limiter) × (node : NodeInfo) × (w'.controller.limiter ≡ some l)
        × (lookup w'.controller.tag w'.registry ≡ some l)
        × (w'.controller.info ≡ some node)
        × IsInStep x close (rounds (monitored w' ch l node) fs)
  unfolding monitored
  start-rounds-IsInStep a w w' ch fs distinct later e =
      let (l, node, served) = start-IsServed a w w' distinct e in
      (
        l,
        node,
        served.own,
        served.registered,
        served.informed,
        rounds-IsInStep (monitored w' ch l node) fs
            (record { matches = served.matches; distinct = served.distinct }) later,
      )
