-- ===== src/Node/Lifecycle/Identity.antt =====
-- The client of a controller: its requests and Start change only what it remembers of answers.
use v2node_pro.Prelude.{
  String, ◌≡◌, refl, sym, ap, ◌∙◌, subst, Option, none, some, List, [], ◌∷◌, arith, if◌then◌else◌,
}
use v2node_pro.Prelude.Int.{pos}
use v2node_pro.Prelude.Eq.{◌==◌, int_eq}
use v2node_pro.Prelude.Flow.{Outcome, ok, err, panic, hang}
use v2node_pro.Prelude.Stateful.{M, ◌>>=◌, run-eq-ok, named_error}
use v2node_pro.Panel.{UserInfo}
use v2node_pro.Panel.NodeInfo.{NodeInfo}
use v2node_pro.Panel.Client.{
  Codec, Client, NodeConfig, Response, Answer, new_client, receive, get_node_info,
}
use v2node_pro.Panel.Users.{Decoder, UserResponse, UserAnswer, read_body, keep_etag, get_user_list}
use v2node_pro.Core.Users.{Inbounds}
use v2node_pro.Core.Nodes.{Host}
use v2node_pro.Core.Inbound.Types.{Xray}
use v2node_pro.Dispatcher.Links.{Closer}
use v2node_pro.Node.Lifecycle.Start.{
  Env, Answers, World, fetched_info, fetch_info, fetched_users, fetch_users, fetch_alive,
  register_limiter, start_node, start_known, start,
}
use v2node_pro.Node.Lifecycle.Laws.{serve-Kept, fetch_alive-Kept, named_error-world}

-- A client is for a configured node: it has the node's host, key and id.
abbrev pub IsFor : NodeConfig → Client → Type 0
IsFor n c = (c.api_host ≡ n.api_host) × (c.token ≡ n.key) × (c.node_id ≡ n.node_id)

pub new_client-IsFor : (n : NodeConfig) → IsFor n (new_client n)
unfolding new_client
new_client-IsFor n = (refl, refl, refl)

receive-IsFor :
    (n : NodeConfig) (x : Codec) (c : Client) (r : Response) (e : Option String)
    → IsFor n c
    → IsFor n (receive x c r e).0
unfolding receive
receive-IsFor n x c r e p = ground arith

pub get_node_info-IsFor :
    (n : NodeConfig) (x : Codec) (c : Client) (a : Answer)
    → IsFor n c
    → IsFor n (get_node_info x c a).0
unfolding get_node_info
get_node_info-IsFor n x c a p = got a.response
  where
    got :
        (response : Option Response)
        → IsFor n
            (elim response as (λ r. Client × Outcome (Option NodeInfo)) [
              | none ↦ (c, panic)
              | some r ↦ if r.status == pos 304 then (c, ok none) else receive x c r a.error
            ]).0
    got none = p
    got (some r) = ground (arith, receive-IsFor n x c r a.error p)

module _ (J : Type 0) (d : Decoder J) where
  keep_etag-IsFor :
      (n : NodeConfig) (c : Client) (etag : String) (o : Outcome (List UserInfo))
      → IsFor n c
      → IsFor n (keep_etag J d c etag o).0
  unfolding keep_etag
  keep_etag-IsFor n c etag (ok users) p = p
  keep_etag-IsFor n c etag (err e) p = p
  keep_etag-IsFor n c etag panic p = p
  keep_etag-IsFor n c etag hang p = p

  get_user_list-IsFor :
      (n : NodeConfig) (c : Client) (a : UserAnswer J)
      → IsFor n c
      → IsFor n (get_user_list J d c a).0
  unfolding get_user_list
  get_user_list-IsFor n c a p = got a.response a.error
    where
      got :
          (response : Option (UserResponse J)) (error : Option String)
          → IsFor n
              (elim response as (λ r. Client × Outcome (List UserInfo)) [
                | none ↦ (c, err "received nil response or raw response")
                | some r ↦ if r.status == pos 304 then (c, ok []) else elim error [
                  | some e ↦ (c, err e)
                  | none ↦ keep_etag J d c r.etag (read_body J d r)
                ]
              ]).0
      got none error = p
      got (some r) none = ground (arith, keep_etag-IsFor n c r.etag (read_body J d r) p)
      got (some r) (some e) = ground arith

module _ (J Files : Type 0) (env : Env J Files) (x : Inbounds) (xray : Xray) (h : Host x xray)
    (close : Closer) where
  abbrev W : Type 0
  W = World J Files env x xray h

  fetched_info-IsFor :
      (n : NodeConfig) (w : W) (r : Client × Outcome (Option NodeInfo))
      → IsFor n r.0
      → IsFor n (fetched_info J Files env x xray h w r).0.controller.client
  unfolding fetched_info
  fetched_info-IsFor n w (client, ok info) p = p
  fetched_info-IsFor n w (client, err e) p = p
  fetched_info-IsFor n w (client, panic) p = p
  fetched_info-IsFor n w (client, hang) p = p

  fetch_info-IsFor :
      (n : NodeConfig) (a : Answers J) (w : W)
      → IsFor n w.controller.client
      → IsFor n (fetch_info J Files env x xray h a w).0.controller.client
  unfolding fetch_info
  fetch_info-IsFor n a w p = asked w.controller.info
    where
      asked :
          (info : Option NodeInfo)
          → IsFor n
              (elim info as (λ i. W × Outcome (Unit {0})) [
                | some node ↦ (w, ok tt)
                | none ↦ named_error "get node info error: " (
                    fetched_info J Files env x xray h w
                      (get_node_info env.codec w.controller.client a.node_info))
              ]).0.controller.client
      asked none =
          subst (λ (v : W). IsFor n v.controller.client)
            (sym (
              named_error-world J Files env x xray h "get node info error: " (
                fetched_info J Files env x xray h w
                  (get_node_info env.codec w.controller.client a.node_info))))
            (fetched_info-IsFor n w (get_node_info env.codec w.controller.client a.node_info)
              (get_node_info-IsFor n env.codec w.controller.client a.node_info p))
      asked (some node) = p

  fetched_users-IsFor :
      (n : NodeConfig) (w : W) (r : Client × Outcome (List UserInfo))
      → IsFor n r.0
      → IsFor n (fetched_users J Files env x xray h w r).0.controller.client
  unfolding fetched_users
  fetched_users-IsFor n w (client, ok []) p = p
  fetched_users-IsFor n w (client, ok (u ∷ us)) p = p
  fetched_users-IsFor n w (client, err e) p = p
  fetched_users-IsFor n w (client, panic) p = p
  fetched_users-IsFor n w (client, hang) p = p

  fetch_users-IsFor :
      (n : NodeConfig) (a : Answers J) (w : W)
      → IsFor n w.controller.client
      → IsFor n (fetch_users J Files env x xray h a w).0.controller.client
  unfolding fetch_users
  fetch_users-IsFor n a w p =
      fetched_users-IsFor n w (get_user_list J env.decoder w.controller.client a.users)
        (get_user_list-IsFor J env.decoder n w.controller.client a.users p)

  start_node-client :
      (a : Answers J) (v w : W) (u : Unit {0})
      → start_node J Files env x xray h close a v ≡ (w, ok u)
      → w.controller.client ≡ v.controller.client
  unfolding start_node register_limiter
  start_node-client a v w u e = known v.controller.info e
    where
      known :
          (info : Option NodeInfo)
          → start_known J Files env x xray h close a info v ≡ (w, ok u)
          → w.controller.client ≡ v.controller.client
      known none e = unfold start_known in cc
      known (some node) e =
          ap (λ (r : W × Outcome (Unit {0})). r.0.controller.client) (sym (unfold start_known in e))
          ∙ (serve-Kept J Files env x xray h close a node
              (register_limiter J Files env x xray h node v)).client

  -- A controller that starts well is for the node that it was for before.
  pub start-IsFor :
      (n : NodeConfig) (a : Answers J) (w w' : W)
      → start J Files env x xray h close a w ≡ (w', ok tt)
      → IsFor n w.controller.client
      → IsFor n w'.controller.client
  unfolding start
  start-IsFor n a w w' e p =
      let node : M W (Unit {0}) = start_node J Files env x xray h close a in
      let alive : M W (Unit {0}) = fetch_alive J Files env x xray h a in
      let users : M W (Unit {0}) = fetch_users J Files env x xray h a in
      let IsOk : W × Outcome (Unit {0}) → Type 0 = λ r. IsFor n r.0.controller.client in
      let (w₁, u₁, a₁, k₁) =
        run-eq-ok (λ u. users >>= λ u. alive >>= λ u. node) (fetch_info J Files env x xray h a w)
          e in
      let (w₂, u₂, a₂, k₂) = run-eq-ok (λ u. alive >>= λ u. node) (users w₁) k₁ in
      let (w₃, u₃, a₃, k₃) = run-eq-ok (λ u. node) (alive w₂) k₂ in
      let p₁ : IsFor n w₁.controller.client = subst IsOk a₁ (fetch_info-IsFor n a w p) in
      let p₂ : IsFor n w₂.controller.client = subst IsOk a₂ (fetch_users-IsFor n a w₁ p₁) in
      let same : w'.controller.client ≡ w₂.controller.client =
        start_node-client a w₃ w' u₃ k₃
        ∙ ap (λ (r : W × Outcome (Unit {0})). r.0.controller.client) (sym a₃)
        ∙ (fetch_alive-Kept J Files env x xray h a w₂).client in
      subst (IsFor n) (sym same) p₂
