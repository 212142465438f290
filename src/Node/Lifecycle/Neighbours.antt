-- ===== src/Node/Lifecycle/Neighbours.antt =====
-- What a controller that starts leaves of the limiters of the others.
use v2node_pro.Prelude.{String, false, ◌≡◌, refl, sym, ap, ◌∙◌, subst, Option, none, some}
use v2node_pro.Prelude.Eq.{◌==◌, string_eq}
use v2node_pro.Prelude.Dict.{lookup, lookup-insert}
use v2node_pro.Prelude.Flow.{Outcome, ok}
use v2node_pro.Prelude.Stateful.{M, ◌>>=◌, run-eq-ok, named_error}
use v2node_pro.Panel.NodeInfo.{NodeInfo}
use v2node_pro.Panel.Client.{get_node_info}
use v2node_pro.Panel.Users.{get_user_list}
use v2node_pro.Limiter.{add_limiter}
use v2node_pro.Core.Users.{Inbounds}
use v2node_pro.Core.Nodes.{Host}
use v2node_pro.Core.Inbound.Types.{Xray}
use v2node_pro.Dispatcher.Links.{Closer}
use v2node_pro.Node.Lifecycle.Start.{
  Env, Answers, World, fetched_info, fetch_info, fetch_users, fetch_alive, register_limiter,
  start_node, start_known, start,
}
use v2node_pro.Node.Lifecycle.Laws.{
  Kept, serve-Kept, fetch_alive-Kept, fetched_users-ok, fetched_info-registry, named_error-world,
}

module _ (J Files : Type 0) (env : Env J Files) (x : Inbounds) (xray : Xray) (h : Host x xray)
    (close : Closer) where
  abbrev W : Type 0
  W = World J Files env x xray h

  -- From one state to another only the limiter of the controller's tag may change.
  abbrev pub SparesOthers : W → W → Type 0
  SparesOthers w w' =
      (tag : String)
      → (w'.controller.tag == tag) ≡ false
      → lookup tag w'.registry ≡ lookup tag w.registry

  fetch_info-registry :
      (a : Answers J) (w : W) → (fetch_info J Files env x xray h a w).0.registry ≡ w.registry
  unfolding fetch_info
  fetch_info-registry a w = asked w.controller.info
    where
      asked :
          (info : Option NodeInfo)
          → (elim info as (λ i. W × Outcome (Unit {0})) [
            | some node ↦ (w, ok tt)
            | none ↦ named_error "get node info error: " (
                fetched_info J Files env x xray h w
                  (get_node_info env.codec w.controller.client a.node_info))
          ]).0.registry
            ≡ w.registry
      asked none =
          ap (λ (v : W). v.registry)
            (named_error-world J Files env x xray h "get node info error: " (
              fetched_info J Files env x xray h w
                (get_node_info env.codec w.controller.client a.node_info)))
          ∙ fetched_info-registry J Files env x xray h w
              (get_node_info env.codec w.controller.client a.node_info)
      asked (some node) = refl

  registered-SparesOthers :
      (v w : W) (node : NodeInfo)
      → Kept J Files env x xray h (register_limiter J Files env x xray h node v) w
      → SparesOthers v w
  unfolding register_limiter add_limiter
  registered-SparesOthers v w node k tag other =
      ap (lookup tag) k.registry
      ∙ lookup-insert node.tag tag
          (add_limiter v.registry node.type node.tag v.controller.user_list
            v.controller.alive_map).1
          v.registry
      ∙ rw (ap (λ t. t == tag) (sym k.tag) ∙ other) refl

  start_node-SparesOthers :
      (a : Answers J) (v w : W) (u : Unit {0})
      → start_node J Files env x xray h close a v ≡ (w, ok u)
      → SparesOthers v w
  unfolding start_node
  start_node-SparesOthers a v w u e = known v.controller.info e
    where
      known :
          (info : Option NodeInfo)
          → start_known J Files env x xray h close a info v ≡ (w, ok u)
          → SparesOthers v w
      known none e = unfold start_known in cc
      known (some node) e = registered-SparesOthers v w node (
          subst (Kept J Files env x xray h (register_limiter J Files env x xray h node v))
            (ap (λ r. r.0) (unfold start_known in e))
            (serve-Kept J Files env x xray h close a node
              (register_limiter J Files env x xray h node v)))

  -- A controller that starts well leaves the limiters of all tags but its own.
  pub start-SparesOthers :
      (a : Answers J) (w w' : W)
      → start J Files env x xray h close a w ≡ (w', ok tt)
      → SparesOthers w w'
  unfolding start fetch_users
  start-SparesOthers a w w' e tag other =
      let node : M W (Unit {0}) = start_node J Files env x xray h close a in
      let alive : M W (Unit {0}) = fetch_alive J Files env x xray h a in
      let users : M W (Unit {0}) = fetch_users J Files env x xray h a in
      let (w₁, u₁, a₁, k₁) =
        run-eq-ok (λ u. users >>= λ u. alive >>= λ u. node) (fetch_info J Files env x xray h a w)
          e in
      let (w₂, u₂, a₂, k₂) = run-eq-ok (λ u. alive >>= λ u. node) (users w₁) k₁ in
      let (w₃, u₃, a₃, k₃) = run-eq-ok (λ u. node) (alive w₂) k₂ in
      let same : w₃.registry ≡ w.registry =
        ap (λ (r : W × Outcome (Unit {0})). r.0.registry) (sym a₃)
        ∙ (fetch_alive-Kept J Files env x xray h a w₂).registry
        ∙ (fetched_users-ok J Files env x xray h w₁ w₂
            (get_user_list J env.decoder w₁.controller.client a.users) a₂).1
        ∙ ap (λ (r : W × Outcome (Unit {0})). r.0.registry) (sym a₁)
        ∙ fetch_info-registry a w in
      start_node-SparesOthers a w₃ w' u₃ k₃ tag other ∙ ap (lookup tag) same
