-- ===== src/Node/Lifecycle.antt =====
-- node/controller.go and node/task.go: the controller of a node and its tasks, with startTasks and
-- reloadTask.
pub mod Start
pub mod Laws
pub mod Rounds
pub mod Neighbours
pub mod Identity
pub mod Closing
pub mod Tests
use Prim.Native.String.{◌++◌ as join}
use v2node_pro.Prelude.{
  ℕ, ◌*◌, String, Bool, true, false, ◌&&◌, ◌||◌, ◌⊎◌, inl, inr, Option, none, some, List, [], ◌∷◌,
  if◌then◌else◌,
}
use v2node_pro.Prelude.Int.{ℤ, pos}
use v2node_pro.Prelude.Eq.{◌==◌, string_eq, int_eq}
use v2node_pro.Prelude.Dict.{Dict}
use v2node_pro.Prelude.Flow.{Outcome, ok, err, panic, hang}
use v2node_pro.Prelude.Stateful.{M, run, ◌>>=◌, ◌>>◌, return, fail, named_error, wrap, ended}
use v2node_pro.Panel.{UserInfo}
use v2node_pro.Panel.NodeInfo.{NodeInfo, CertInfo, tls_security}
use v2node_pro.Panel.Client.{Client, NodeConfig, Codec, Answer, new_client, get_node_info}
use v2node_pro.Panel.Users.{Decoder, UserAnswer, AliveAnswer, get_user_list, get_user_alive}
use v2node_pro.Limiter.{Limiter, Registry, add_limiter, delete_limiter}
use v2node_pro.Core.Accounts.{AccountSettings}
use v2node_pro.Core.Users.{Inbounds, V2Core, add_users}
use v2node_pro.Core.Nodes.{Host, add_node, del_node}
use v2node_pro.Core.Inbound.Types.{Xray}
use v2node_pro.Dispatcher.Links.{Closer}
use v2node_pro.Task
use v2node_pro.Task.{new_task}
use v2node_pro.Node.Certificates.{Os, Acme}
use v2node_pro.Node.Certificates.Lego.{request_cert}
use v2node_pro.Node.Fingerprints.{
  Fingerprint, X509, certificate_reporting_enabled, capture_certificate,
}

-- a task with its interval
pub record Periodic : Type 0 where
  pub interval : ℤ
  pub task : Task.Task

-- `&task.Task{...}` and Start
unfoldable pub started : ℤ → Bool → Periodic
unfolding Task.start
started interval first = record { interval = interval; task = Task.start first new_task }

-- Close on a task that may be nil
unfoldable pub close_periodic : Option Periodic → Option Periodic
unfolding Task.close
close_periodic (Option.none) = none
close_periodic (Option.some p) = some (record p { task = Task.close p.task })

pub record Controller : Type 0 where
  pub client : Client
  pub info : Option NodeInfo
  pub tag : String
  pub limiter : Option Limiter
  pub user_list : List UserInfo
  pub alive_map : Dict ℤ ℤ
  pub certificate_report : Option Periodic
  pub node_info_monitor : Option Periodic
  pub user_report : Option Periodic
  pub renew_cert : Option Periodic
  pub loaded_certificate : Option Fingerprint

-- NewController
unfoldable pub new_controller : Client → Option NodeInfo → Controller
new_controller client info = record {
  client = client;
  info = info;
  tag = "";
  limiter = none;
  user_list = [];
  alive_map = [];
  certificate_report = none;
  node_info_monitor = none;
  user_report = none;
  renew_cert = none;
  loaded_certificate = none;
}

-- what AddUsers reads of the node
abbrev pub account_settings : NodeInfo → AccountSettings
account_settings node = record {
  type = node.type;
  flow = node.common.flow;
  cipher = node.common.cipher;
  server_key = node.common.server_key;
}

-- a day, in nanoseconds
abbrev pub day : ℤ
day = pos (24 * 3600000000000)

abbrev pub is_renewed_mode : String → Bool
is_renewed_mode mode =
    if mode == "none" || mode == "" || mode == "file" || mode == "self" then false else true

-- the `switch` on the mode of the certificate, which may be a nil pointer
unfoldable pub start_renewal_of : Option CertInfo → Controller → Controller × Outcome (Unit {0})
unfolding started
start_renewal_of (Option.none) c = (c, panic)
start_renewal_of (Option.some cert) c = (
  record c {
    renew_cert = if is_renewed_mode cert.cert_mode then some (started day true) else c.renew_cert;
  },
  ok tt,
)

-- the end of startTasks: the renewal, under TLS
unfoldable pub start_renewal : NodeInfo → Controller → Controller × Outcome (Unit {0})
unfolding start_renewal_of
start_renewal node c =
    if node.security == tls_security then start_renewal_of node.common.cert_info c else (c, ok tt)

unfoldable pub start_reporting : NodeInfo → Controller → Controller
unfolding started certificate_reporting_enabled
start_reporting node c = record c {
  certificate_report =
      if certificate_reporting_enabled node
      then some (started node.push_interval true)
      else c.certificate_report;
}

-- startTasks, on the node that `c.info` is
unfoldable pub start_tasks : NodeInfo → Controller → Controller × Outcome (Unit {0})
unfolding start_reporting start_renewal
start_tasks node c = start_renewal node (record (start_reporting node c) {
  node_info_monitor = some (started node.pull_interval false);
  user_report = some (started node.push_interval false);
})

unfoldable pub close_tasks : Controller → Controller
unfolding close_periodic
close_tasks c = record c {
  certificate_report = close_periodic c.certificate_report;
  node_info_monitor = close_periodic c.node_info_monitor;
  user_report = close_periodic c.user_report;
  renew_cert = close_periodic c.renew_cert;
}

-- `c.startTasks(c.info)`
unfoldable pub restart_tasks : Option NodeInfo → Controller → Controller × Outcome (Unit {0})
unfolding start_tasks
restart_tasks (Option.none) c = (c, panic)
restart_tasks (Option.some node) c = start_tasks node c

-- reloadTask, which a task calls when an execution takes too long: a new client, and new tasks
unfoldable pub reload_task : NodeConfig → Controller → Controller × Outcome (Unit {0})
unfolding new_client close_tasks restart_tasks
reload_task config c = restart_tasks c.info (record (close_tasks c) { client = new_client config })
