-- ===== src/Node/Lifecycle/Start.antt =====
-- node/controller.go: Start and Close of a controller. What the panel answers is an argument of Start.
-- The registry of limiters is global, the core is shared by the nodes, and the limiter that Start
-- makes is the one in the registry.
use Prim.Native.String.{◌++◌ as join}
use v2node_pro.Prelude.{ℕ, Option, none, some, List, [], ◌∷◌, if◌then◌else◌}
use v2node_pro.Prelude.Int.{ℤ}
use v2node_pro.Prelude.Eq.{◌==◌, string_eq, int_eq}
use v2node_pro.Prelude.Dict.{Dict}
use v2node_pro.Prelude.Flow.{Outcome, ok, err, panic, hang}
use v2node_pro.Prelude.Stateful.{M, ◌>>=◌, named_error}
use v2node_pro.Panel.{UserInfo}
use v2node_pro.Panel.NodeInfo.{NodeInfo, CertInfo, tls_security}
use v2node_pro.Panel.Client.{Client, Codec, Answer, get_node_info}
use v2node_pro.Panel.Users.{Decoder, UserAnswer, AliveAnswer, get_user_list, get_user_alive}
use v2node_pro.Limiter.{Registry, add_limiter, delete_limiter}
use v2node_pro.Core.Users.{Inbounds, V2Core, add_users}
use v2node_pro.Core.Nodes.{Host, add_node, del_node}
use v2node_pro.Core.Inbound.Types.{Xray}
use v2node_pro.Dispatcher.Links.{Closer}
use v2node_pro.Node.Certificates.{Os, Acme}
use v2node_pro.Node.Certificates.Lego.{request_cert}
use v2node_pro.Node.Fingerprints.{X509, capture_certificate}
use v2node_pro.Node.Lifecycle.{Controller, account_settings, start_tasks, close_tasks}

-- What the panel answers to Start, and the random bytes of the inbound.
pub record Answers (J : Type 0) : Type 0 where
  pub node_info : Answer
  pub users : UserAnswer J
  pub alive : AliveAnswer
  pub random : Option (List ℕ)

-- The libraries that Start calls.
pub record Env (J Files : Type 0) : Type 0 where
  pub codec : Codec
  pub decoder : Decoder J
  pub os : Os Files
  pub acme : Acme
  pub x509 : X509

module _ (J Files : Type 0) (env : Env J Files) (x : Inbounds) (xray : Xray) (h : Host x xray) where
  -- the limiters, the core and the files, which the controllers share, and one controller
  pub record World : Type 0 where
    pub registry : Registry
    pub core : V2Core x
    pub files : Files
    pub controller : Controller

  -- `c.info, err = c.apiClient.GetNodeInfo()`
  unfoldable pub fetched_info :
      World → Client × Outcome (Option NodeInfo) → World × Outcome (Unit {0})
  fetched_info w (client, ok info) =
      (record w { controller = record w.controller { client = client; info = info } }, ok tt)
  fetched_info w (client, err e) =
      (record w { controller = record w.controller { client = client; info = none } }, err e)
  fetched_info w (client, panic) =
      (record w { controller = record w.controller { client = client } }, panic)
  fetched_info w (client, hang) =
      (record w { controller = record w.controller { client = client } }, hang)

  unfoldable pub fetch_info : Answers J → M World (Unit {0})
  unfolding fetched_info get_node_info
  fetch_info a w = elim w.controller.info [
    | some node ↦ (w, ok tt)
    | none ↦
        named_error "get node info error: "
          (fetched_info w (get_node_info env.codec w.controller.client a.node_info))
  ]

  -- `c.userList, err = c.apiClient.GetUserList()`
  unfoldable pub fetched_users :
      World → Client × Outcome (List UserInfo) → World × Outcome (Unit {0})
  fetched_users w (client, ok []) = (
    record w { controller = record w.controller { client = client; user_list = [] } },
    err "add users error: not have any user",
  )
  fetched_users w (client, ok (u ∷ us)) =
      (record w { controller = record w.controller { client = client; user_list = u ∷ us } }, ok tt)
  fetched_users w (client, err e) = (
    record w { controller = record w.controller { client = client; user_list = [] } },
    err (join "get user list error: " e),
  )
  fetched_users w (client, panic) =
      (record w { controller = record w.controller { client = client } }, panic)
  fetched_users w (client, hang) =
      (record w { controller = record w.controller { client = client } }, hang)

  unfoldable pub fetch_users : Answers J → M World (Unit {0})
  unfolding fetched_users get_user_list
  fetch_users a w = fetched_users w (get_user_list J env.decoder w.controller.client a.users)

  unfoldable pub fetched_alive : World → Outcome (Option (Dict ℤ ℤ)) → World × Outcome (Unit {0})
  fetched_alive w (ok none) =
      (record w { controller = record w.controller { alive_map = [] } }, ok tt)
  fetched_alive w (ok (some alive)) =
      (record w { controller = record w.controller { alive_map = alive } }, ok tt)
  fetched_alive w (err e) = (w, err (join "failed to get user alive list: " e))
  fetched_alive w panic = (w, panic)
  fetched_alive w hang = (w, hang)

  unfoldable pub fetch_alive : Answers J → M World (Unit {0})
  unfolding fetched_alive get_user_alive
  fetch_alive a w = fetched_alive w (get_user_alive a.alive)

  -- `c.tag = node.Tag`, and AddLimiter
  unfoldable pub register_limiter : NodeInfo → World → World
  unfolding add_limiter
  register_limiter node w =
      let c = w.controller in
      let (registry, l) = add_limiter w.registry node.type node.tag c.user_list c.alive_map in
      record w { registry = registry; controller = record c { tag = node.tag; limiter = some l } }

  unfoldable pub request_certificate_of : Option CertInfo → M World (Unit {0})
  unfolding request_cert
  request_certificate_of none w = (w, panic)
  request_certificate_of (some cert) w =
      let (files, o) = request_cert Files env.os env.acme cert w.files in
      named_error "request cert error: " (record w { files = files }, o)

  -- requestCert, under TLS
  unfoldable pub request_certificate : NodeInfo → M World (Unit {0})
  unfolding request_certificate_of
  request_certificate node w =
      if node.security == tls_security
      then request_certificate_of node.common.cert_info w
      else (w, ok tt)

  unfoldable pub capture : NodeInfo → World → World
  unfolding capture_certificate
  capture node w = record w {
    controller = record w.controller {
      loaded_certificate = capture_certificate env.x509 node w.controller.loaded_certificate;
    };
  }

  unfoldable pub add_inbound_of : Answers J → NodeInfo → M World (Unit {0})
  unfolding add_node
  add_inbound_of a node w =
      let (ihm, o) = add_node x xray h a.random w.controller.tag node w.core.ihm in
      named_error "add new node error: " (record w { core = record w.core { ihm = ihm } }, o)

  unfoldable pub add_users_of : Closer → NodeInfo → M World ℕ
  unfolding add_users
  add_users_of close node w =
      let (core, o) =
        add_users x close w.core w.controller.tag w.controller.user_list (account_settings node) in
      named_error "add users error: " (record w { core = core }, o)

  unfoldable pub begin_tasks : NodeInfo → M World (Unit {0})
  unfolding start_tasks
  begin_tasks node w =
      let (c, o) = start_tasks node w.controller in (record w { controller = c }, o)

  -- Start after AddLimiter
  unfoldable pub serve : Closer → Answers J → NodeInfo → M World (Unit {0})
  unfolding request_certificate capture add_inbound_of add_users_of begin_tasks
  serve close a node = request_certificate node >>= λ _.
      (λ w. add_inbound_of a node (capture node w)) >>= λ _.
      add_users_of close node >>= λ added. begin_tasks node

  -- `node.Tag` of a node that may be a nil pointer
  unfoldable pub start_known : Closer → Answers J → Option NodeInfo → M World (Unit {0})
  unfolding register_limiter serve
  start_known close a none w = (w, panic)
  start_known close a (some node) w = serve close a node (register_limiter node w)

  unfoldable pub start_node : Closer → Answers J → M World (Unit {0})
  unfolding start_known
  start_node close a w = start_known close a w.controller.info w

  -- Start
  unfoldable pub start : Closer → Answers J → M World (Unit {0})
  unfolding fetch_info fetch_users fetch_alive start_node
  start close a =
      fetch_info a >>= λ _. fetch_users a >>= λ _. fetch_alive a >>= λ _. start_node close a

  -- Close
  unfoldable pub close_node : M World (Unit {0})
  unfolding delete_limiter close_tasks del_node
  close_node w =
      let (ihm, o) = del_node x xray h w.controller.tag w.core.ihm in
      named_error "del node error: " (
        record w {
          registry = delete_limiter w.registry w.controller.tag;
          core = record w.core { ihm = ihm };
          controller = close_tasks w.controller;
        },
        o,
      )
