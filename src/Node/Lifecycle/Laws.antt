-- ===== src/Node/Lifecycle/Laws.antt =====
-- Start of a controller: what it leaves behind, whether it ends well or not.
use v2node_pro.Prelude.{
  ℕ, String, Bool, true, false, ◌≡◌, refl, sym, ap, ◌∙◌, subst, inl, inr, Option, none, some, List,
  [], ◌∷◌, Bool-cases, if◌then◌else◌,
}
use v2node_pro.Prelude.Int.{ℤ}
use v2node_pro.Prelude.Eq.{◌==◌, int_eq}
use v2node_pro.Prelude.Dict.{Dict}
use v2node_pro.Prelude.Flow.{Outcome, ok, err, panic, hang}
use v2node_pro.Prelude.Stateful.{M, run, ◌>>=◌, named_error}
use v2node_pro.Panel.{UserInfo}
use v2node_pro.Panel.NodeInfo.{NodeInfo, CertInfo, tls_security}
use v2node_pro.Panel.Client.{Client}
use v2node_pro.Panel.Users.{get_user_alive}
use v2node_pro.Core.Users.{Inbounds}
use v2node_pro.Core.Nodes.{Host}
use v2node_pro.Core.Inbound.Types.{Xray}
use v2node_pro.Dispatcher.Links.{Closer}
use v2node_pro.Node.Lifecycle.{
  Controller, start_tasks, start_renewal, start_reporting, start_renewal_of,
}
use v2node_pro.Node.Lifecycle.Start.{
  Env, Answers, World, fetched_info, fetched_users, fetched_alive, fetch_alive, request_certificate,
  request_certificate_of, capture, add_inbound_of, add_users_of, begin_tasks, serve,
}

module _ (J Files : Type 0) (env : Env J Files) (x : Inbounds) (xray : Xray) (h : Host x xray) where
  abbrev pub W : Type 0
  W = World J Files env x xray h

  -- The limiter, the tag and the users of a controller are as they were, and so are all limiters.
  pub record Kept (w w' : W) : Type 0 where
    pub registry : w'.registry ≡ w.registry
    pub limiter : w'.controller.limiter ≡ w.controller.limiter
    pub tag : w'.controller.tag ≡ w.controller.tag
    pub user_list : w'.controller.user_list ≡ w.controller.user_list
    pub info : w'.controller.info ≡ w.controller.info
    pub client : w'.controller.client ≡ w.controller.client

  Kept-refl : (w : W) → Kept w w
  Kept-refl w = record {
    registry = refl;
    limiter = refl;
    tag = refl;
    user_list = refl;
    info = refl;
    client = refl;
  }

  Kept-trans : {u v w : W} → Kept u v → Kept v w → Kept u w
  Kept-trans p q = record {
    registry = q.registry ∙ p.registry;
    limiter = q.limiter ∙ p.limiter;
    tag = q.tag ∙ p.tag;
    user_list = q.user_list ∙ p.user_list;
    info = q.info ∙ p.info;
    client = q.client ∙ p.client;
  }

  run-Kept :
      {A B : Type 0} (w : W) (next : A → M W B) (r : W × Outcome A)
      → Kept w r.0
      → ((a : A) (v : W) → Kept v (next a v).0)
      → Kept w (run next r).0
  run-Kept w next (v, ok a) p q = Kept-trans p (q a v)
  run-Kept w next (v, err e) p q = p
  run-Kept w next (v, panic) p q = p
  run-Kept w next (v, hang) p q = p

  pub named_error-world :
      {A : Type 0} (prefix : String) (r : W × Outcome A) → (named_error prefix r).0 ≡ r.0
  named_error-world prefix (w, ok a) = refl
  named_error-world prefix (w, err e) = refl
  named_error-world prefix (w, panic) = refl
  named_error-world prefix (w, hang) = refl

  named_error-Kept :
      {A : Type 0} (w : W) (prefix : String) (r : W × Outcome A)
      → Kept w r.0
      → Kept w (named_error prefix r).0
  named_error-Kept w prefix r p = subst (Kept w) (sym (named_error-world prefix r)) p

  request_certificate_of-Kept :
      (cert : Option CertInfo) (w : W)
      → Kept w (request_certificate_of J Files env x xray h cert w).0
  unfolding request_certificate_of
  request_certificate_of-Kept none w = Kept-refl w
  request_certificate_of-Kept (some cert) w = named_error-Kept w _ _ (record {
    registry = refl;
    limiter = refl;
    tag = refl;
    user_list = refl;
    info = refl;
    client = refl;
  })

  if-Kept :
      {A : Type 0} (w : W) (test : Bool) (r r' : W × Outcome A)
      → Kept w r.0
      → Kept w r'.0
      → Kept w (if test then r else r').0
  if-Kept w true r r' p q = p
  if-Kept w false r r' p q = q

  request_certificate-Kept :
      (node : NodeInfo) (w : W) → Kept w (request_certificate J Files env x xray h node w).0
  unfolding request_certificate
  request_certificate-Kept node w =
      if-Kept w (node.security == tls_security)
        (request_certificate_of J Files env x xray h node.common.cert_info w) (w, ok tt)
        (request_certificate_of-Kept node.common.cert_info w) (Kept-refl w)

  capture-Kept : (node : NodeInfo) (w : W) → Kept w (capture J Files env x xray h node w)
  unfolding capture
  capture-Kept node w = record {
    registry = refl;
    limiter = refl;
    tag = refl;
    user_list = refl;
    info = refl;
    client = refl;
  }

  add_inbound_of-Kept :
      (a : Answers J) (node : NodeInfo) (w : W)
      → Kept w (add_inbound_of J Files env x xray h a node w).0
  unfolding add_inbound_of
  add_inbound_of-Kept a node w = named_error-Kept w _ _ (record {
    registry = refl;
    limiter = refl;
    tag = refl;
    user_list = refl;
    info = refl;
    client = refl;
  })

  add_users_of-Kept :
      (close : Closer) (node : NodeInfo) (w : W)
      → Kept w (add_users_of J Files env x xray h close node w).0
  unfolding add_users_of
  add_users_of-Kept close node w = named_error-Kept w _ _ (record {
    registry = refl;
    limiter = refl;
    tag = refl;
    user_list = refl;
    info = refl;
    client = refl;
  })

  -- What startTasks does not touch.
  TasksOnly : Controller → Controller → Type 0
  TasksOnly c c' =
      (c'.limiter ≡ c.limiter)
      × (c'.tag ≡ c.tag)
      × (c'.user_list ≡ c.user_list)
      × (c'.info ≡ c.info)
      × (c'.client ≡ c.client)

  renewal_only :
      (cert : Option CertInfo) (c c' : Controller)
      → TasksOnly c c'
      → TasksOnly c (start_renewal_of cert c').0
  unfolding TasksOnly start_renewal_of
  renewal_only none c c' p = p
  renewal_only (some cert) c c' p = p

  start_tasks_only : (node : NodeInfo) (c : Controller) → TasksOnly c (start_tasks node c).0
  unfolding start_tasks start_renewal start_reporting
  start_tasks_only node c = elim (Bool-cases (node.security == tls_security)) [
    | inl tls ↦ rw tls (
        renewal_only node.common.cert_info c _ (unfold TasksOnly in (refl, refl, refl, refl, refl)))
    | inr plain ↦ rw plain (unfold TasksOnly in (refl, refl, refl, refl, refl))
  ]

  begin_tasks-Kept : (node : NodeInfo) (w : W) → Kept w (begin_tasks J Files env x xray h node w).0
  unfolding begin_tasks TasksOnly
  begin_tasks-Kept node w =
      let (limiter, tag, user_list, info, client) = start_tasks_only node w.controller in
      record {
        registry = refl;
        limiter = limiter;
        tag = tag;
        user_list = user_list;
        info = info;
        client = client;
      }

  pub serve-Kept :
      (close : Closer) (a : Answers J) (node : NodeInfo) (w : W)
      → Kept w (serve J Files env x xray h close a node w).0
  unfolding serve
  serve-Kept close a node w =
      let begin : ℕ → M W (Unit {0}) = λ added. begin_tasks J Files env x xray h node in
      let users : Unit {0} → M W (Unit {0}) =
        λ u. add_users_of J Files env x xray h close node >>= begin in
      let inbound : M W (Unit {0}) =
        λ v. add_inbound_of J Files env x xray h a node (capture J Files env x xray h node v) in
      run-Kept w (λ u. inbound >>= users) (request_certificate J Files env x xray h node w)
        (request_certificate-Kept node w)
        (λ u v.
          run-Kept v users (inbound v)
            (Kept-trans (capture-Kept node v)
              (add_inbound_of-Kept a node (capture J Files env x xray h node v)))
            (λ u₁ v₁.
              run-Kept v₁ begin (add_users_of J Files env x xray h close node v₁)
                (add_users_of-Kept close node v₁) (λ added v₂. begin_tasks-Kept node v₂)))

  fetched_alive-Kept :
      (w : W) (o : Outcome (Option (Dict ℤ ℤ))) → Kept w (fetched_alive J Files env x xray h w o).0
  unfolding fetched_alive
  fetched_alive-Kept w (ok none) = record {
    registry = refl;
    limiter = refl;
    tag = refl;
    user_list = refl;
    info = refl;
    client = refl;
  }
  fetched_alive-Kept w (ok (some m)) = record {
    registry = refl;
    limiter = refl;
    tag = refl;
    user_list = refl;
    info = refl;
    client = refl;
  }
  fetched_alive-Kept w (err e) = Kept-refl w
  fetched_alive-Kept w panic = Kept-refl w
  fetched_alive-Kept w hang = Kept-refl w

  pub fetch_alive-Kept : (a : Answers J) (w : W) → Kept w (fetch_alive J Files env x xray h a w).0
  unfolding fetch_alive
  fetch_alive-Kept a w = fetched_alive-Kept w (get_user_alive a.alive)

  -- The users that Start goes on with are those that the panel sent.
  pub fetched_users-ok :
      (w v : W) (r : Client × Outcome (List UserInfo)) {u : Unit {0}}
      → fetched_users J Files env x xray h w r ≡ (v, ok u)
      → (r.1 ≡ ok v.controller.user_list) × (v.registry ≡ w.registry)
  unfolding fetched_users
  fetched_users-ok w v (client, ok []) e = cc
  fetched_users-ok w v (client, ok (u ∷ us)) e =
      let same = ap (λ r. r.0) e in
      (ap (λ (w : W). ok w.controller.user_list) same, ap (λ (w : W). w.registry) (sym same))
  fetched_users-ok w v (client, err m) e = cc
  fetched_users-ok w v (client, panic) e = cc
  fetched_users-ok w v (client, hang) e = cc

  pub fetched_info-registry :
      (w : W) (r : Client × Outcome (Option NodeInfo))
      → (fetched_info J Files env x xray h w r).0.registry ≡ w.registry
  unfolding fetched_info
  fetched_info-registry w (client, ok info) = refl
  fetched_info-registry w (client, err e) = refl
  fetched_info-registry w (client, panic) = refl
  fetched_info-registry w (client, hang) = refl
