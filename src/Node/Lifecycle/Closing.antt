-- ===== src/Node/Lifecycle/Closing.antt =====
-- Close of a controller, and reloadTask.
use v2node_pro.Prelude.{
  String, false, ◌≡◌, ◌≢◌, refl, sym, ap, subst, ◌∙◌, Option, none, some, Bool-cases, inl, inr,
  if◌then◌else◌,
}
use v2node_pro.Prelude.Eq.{◌==◌, string_eq, int_eq}
use v2node_pro.Prelude.Dict.{lookup, lookup-erase}
use v2node_pro.Prelude.Int.{pos}
use v2node_pro.Prelude.Flow.{Outcome, ok, err, panic, hang}
use v2node_pro.Prelude.Stateful.{named_error}
use v2node_pro.Panel.NodeInfo.{NodeInfo, CertInfo, tls_security}
use v2node_pro.Panel.Client.{NodeConfig, Codec, Response, new_client, get_node_info, decode}
use v2node_pro.Panel.Client.Laws.{answer, read-receive, receive_new}
use v2node_pro.Limiter.{delete_limiter}
use v2node_pro.Core.Users.{Inbounds}
use v2node_pro.Core.Nodes.{Host, del_node}
use v2node_pro.Core.Inbound.Types.{Xray}
use v2node_pro.Task
use v2node_pro.Node.Lifecycle.{
  Periodic, Controller, close_periodic, close_tasks, reload_task, restart_tasks, start_tasks,
  start_renewal, start_renewal_of, start_reporting,
}
use v2node_pro.Node.Lifecycle.Start.{Env, World, close_node}

-- A task that is nil or that does not run.
abbrev pub IsIdle : Option Periodic → Type 0
IsIdle none = Unit
IsIdle (some p) = p.task.running ≡ false

task-close : (t : Task.Task) → (Task.close t).running ≡ false
unfolding Task.close
task-close t = elim (Bool-cases t.running) [
  | inl running ↦ rw (Task.close, running) refl
  | inr idle ↦ rw (Task.close, idle) refl
]

close-IsIdle : (p : Option Periodic) → IsIdle (close_periodic p)
unfolding close_periodic
close-IsIdle none = tt
close-IsIdle (some p) = task-close p.task

-- None of the tasks runs.
pub record IsStopped (c : Controller) : Type 0 where
  pub reports : IsIdle c.certificate_report
  pub monitor : IsIdle c.node_info_monitor
  pub users : IsIdle c.user_report
  pub renewal : IsIdle c.renew_cert

close_tasks-IsStopped : (c : Controller) → IsStopped (close_tasks c)
unfolding close_tasks
close_tasks-IsStopped c = record {
  reports = close-IsIdle c.certificate_report;
  monitor = close-IsIdle c.node_info_monitor;
  users = close-IsIdle c.user_report;
  renewal = close-IsIdle c.renew_cert;
}

module _ (J Files : Type 0) (env : Env J Files) (x : Inbounds) (xray : Xray) (h : Host x xray) where
  closed_world :
      (w : World J Files env x xray h) (r : x.State × Outcome (Unit {0}))
      → (named_error "del node error: " (
        record w {
          registry = delete_limiter w.registry w.controller.tag;
          core = record w.core { ihm = r.0 };
          controller = close_tasks w.controller;
        },
        r.1,
      )).0
        ≡ record w {
          registry = delete_limiter w.registry w.controller.tag;
          core = record w.core { ihm = r.0 };
          controller = close_tasks w.controller;
        }
  closed_world w (s, ok _) = refl
  closed_world w (s, err e) = refl
  closed_world w (s, panic) = refl
  closed_world w (s, hang) = refl

  -- Close stops every task of the controller that runs and takes exactly its limiter out of the
  -- registry, also when Xray does not remove the inbound and Close returns that error.
  pub close_node-IsStopped :
      (w : World J Files env x xray h)
      → IsStopped (close_node J Files env x xray h w).0.controller
        × ((tag : String)
            → lookup tag (close_node J Files env x xray h w).0.registry
              ≡ (if w.controller.tag == tag then none else lookup tag w.registry))
  unfolding close_node delete_limiter
  close_node-IsStopped w =
      let closed = closed_world w (del_node x xray h w.controller.tag w.core.ihm) in
      (
        subst IsStopped (ap (λ v. v.controller) (sym closed)) (close_tasks-IsStopped w.controller),
        λ tag.
            ap (λ v. lookup tag v.registry) closed ∙ lookup-erase w.controller.tag tag w.registry,
      )

renewal-client :
    (cert : Option CertInfo) (c : Controller) → (start_renewal_of cert c).0.client ≡ c.client
unfolding start_renewal_of
renewal-client none c = refl
renewal-client (some cert) c = refl

start_tasks-client : (node : NodeInfo) (c : Controller) → (start_tasks node c).0.client ≡ c.client
unfolding start_tasks start_renewal start_reporting
start_tasks-client node c = elim (Bool-cases (node.security == tls_security)) [
  | inl tls ↦ rw tls (renewal-client node.common.cert_info _)
  | inr plain ↦ rw plain refl
]

restart-client :
    (info : Option NodeInfo) (c : Controller) → (restart_tasks info c).0.client ≡ c.client
unfolding restart_tasks
restart-client none c = refl
restart-client (some node) c = start_tasks-client node c

reload_task-client :
    (config : NodeConfig) (c : Controller) → (reload_task config c).0.client ≡ new_client config
unfolding reload_task
reload_task-client config c =
    restart-client c.info (record (close_tasks c) { client = new_client config })

-- After reloadTask, which a task calls when an execution takes too long, the panel's next answer
-- with a body whose hash is not empty and that decodes is returned as a new configuration, although
-- it is the one that the node runs on: the monitor then asks for a reload of the whole program.
pub reload_task-news :
    (x : Codec) (config : NodeConfig) (c : Controller) (r : Response) (node : NodeInfo)
    → (r.status == pos 304) ≡ false
    → "" ≢ x.hash r.body
    → decode x (new_client config) r.body ≡ ok (some node)
    → (get_node_info x (reload_task config c).0.client (answer r none)).1 ≡ ok (some node)
reload_task-news x config c r node fresh hashed good =
    ap (λ k. (get_node_info x k (answer r none)).1) (reload_task-client config c)
    ∙ ap (λ o. o.1) (read-receive x (new_client config) r none fresh)
    ∙ receive_new x (new_client config) r (unfold new_client in hashed)
    ∙ good
