-- ===== src/Node/Lifecycle/Tests.antt =====
-- A controller that starts on a plain trojan node, goes through a round of the monitor, and closes.
use v2node_pro.Prelude.{
  ◌+◌, ◌-◌, String, true, false, ◌≡◌, refl, subst, none, some, List, [], ◌∷◌, is_some,
}
use v2node_pro.Prelude.Int.{pos, mul64, wrap64, wrap32}
use v2node_pro.Prelude.Eq.{string_eq, int_eq}
use v2node_pro.Prelude.Dict.{lookup, insert}
use v2node_pro.Prelude.Scan.{atoi}
use v2node_pro.Prelude.Flow.{ok, err}
use v2node_pro.Panel.{UserInfo, IsDistinctUsers, find}
use v2node_pro.Panel.NodeInfo.{NodeInfo, tls_is_terminated_at_proxy}
use v2node_pro.Panel.Client.{Client, NodeConfig, build_node, new_client, decode, interval_to_time}
use v2node_pro.Panel.Client.Tests.{client, config, base_config, codec}
use v2node_pro.Panel.Users.{get_user_list, get_user_alive}
use v2node_pro.Panel.Users.Tests.{decoder, sent, user_of}
use v2node_pro.Limiter.{Limiter, add_limiter}
use v2node_pro.Core.Users.{add_users_loop, add_one}
use v2node_pro.Core.Accounts.{build_users, build_trojan_users}
use v2node_pro.Core.Nodes.{Host}
use v2node_pro.Core.Inbound.Build.{build_inbound, configure}
use v2node_pro.Core.Inbound.Tests.{lenient}
use v2node_pro.Node.Certificates.Tests.{Files, memory, acme}
use v2node_pro.Node.Fingerprints.Tests.{x509}
use v2node_pro.Node.Monitor.Laws.{IsInStep}
use v2node_pro.Node.Monitor.Tests.{kind_inbounds, calling, first_list}
use v2node_pro.Node.Lifecycle.{new_controller}
use v2node_pro.Node.Lifecycle.Start.{Env, Answers, World, start}
use v2node_pro.Node.Lifecycle.Rounds.{monitored, rounds, start-rounds-IsInStep}

abbrev pub host : Host kind_inbounds lenient
host = record {
  Config = String;
  build = λ inbound. some "inbound";
  create_object = λ c. none;
  add_handler = λ s c. (s + 1, none);
  remove_handler = λ s tag. (s - 1, some "not found");
}

abbrev pub env : Env (List String) Files
env = record { codec = codec; decoder = decoder; os = memory; acme = acme; x509 = x509 }

abbrev pub trojan : NodeInfo
trojan =
    build_node client (record (config (some base_config)) { protocol = "trojan" }) (pos 0) (pos 60)
      (pos 60)

abbrev W : Type 0
W = World (List String) Files env kind_inbounds lenient host

abbrev before : W
before = record {
  registry = [];
  core = record { ihm = 0; uid_map = []; counter = []; link_managers = [] };
  files = [];
  controller = new_controller client (some trojan);
}

abbrev pub answers : Answers (List String)
answers = record {
  node_info = record { response = none; error = none };
  users = record { response = some (sent ("users" ∷ "[" ∷ "a" ∷ "b" ∷ "]" ∷ [])); error = none };
  alive = record {
    has_error = true;
    is_nil = false;
    status = pos 0;
    is_raw_nil = true;
    decoded = none;
  };
  random = none;
}

abbrev after : W
after = (start (List String) Files env kind_inbounds lenient host calling answers before).0

starts :
    start (List String) Files env kind_inbounds lenient host calling answers before ≡ (after, ok tt)
unfolding start build_inbound configure get_user_list get_user_alive build_users build_trojan_users
    add_users_loop add_one new_controller build_node lookup insert tls_is_terminated_at_proxy wrap32
starts = refl

pub sent_users :
    (c : Client) (us : List UserInfo)
    → (get_user_list (List String) decoder c answers.users).1 ≡ ok us
    → IsDistinctUsers us
unfolding get_user_list find
sent_users c us e =
    let same : user_of "a" ∷ user_of "b" ∷ [] ≡ us = cc e in
    subst IsDistinctUsers same (refl, (refl, tt))

start-rounds-IsInStep_example :
    (l : Limiter) × (node : NodeInfo) × (after.controller.limiter ≡ some l)
    × (lookup after.controller.tag after.registry ≡ some l)
    × (after.controller.info ≡ some node)
    × IsInStep kind_inbounds calling (
        rounds
          (List String)
          Files
          env
          kind_inbounds
          lenient
          host
          calling
          (monitored (List String) Files env kind_inbounds lenient host calling after none l node)
          (first_list ∷ []))
unfolding find
start-rounds-IsInStep_example =
    start-rounds-IsInStep (List String) Files env kind_inbounds lenient host calling answers before
      after none (first_list ∷ []) sent_users ((refl, (refl, tt)), tt) starts

abbrev pub node_config : NodeConfig
node_config = record { api_host = "http://p"; node_id = pos 7; key = "t"; timeout = pos 0 }

abbrev vless : NodeInfo
vless = build_node client (config (some base_config)) (pos 1) (pos 60000000000) (pos 30000000000)

config_decodes : decode codec (new_client node_config) "v" ≡ ok (some vless)
unfolding decode interval_to_time mul64 atoi wrap64 new_client
config_decodes = refl

abbrev full_host : Host kind_inbounds lenient
full_host = record host { create_object = λ c. some "port in use" }

abbrev in_vain : World (List String) Files env kind_inbounds lenient full_host
in_vain = record {
  registry = [];
  core = record { ihm = 0; uid_map = []; counter = []; link_managers = [] };
  files = [];
  controller = new_controller client (some trojan);
}

-- A start that cannot add its inbound leaves its limiter behind.
limiter_left_behind :
    ((start (List String) Files env kind_inbounds lenient full_host calling answers in_vain).1
      ≡ err "add new node error: add inbound error: port in use")
    × (is_some (
          lookup "[http://p]-trojan:7"
            (start
              (List String)
              Files
              env
              kind_inbounds
              lenient
              full_host
              calling
              answers
              in_vain).0.registry)
        ≡ true)
unfolding start build_inbound configure get_user_list get_user_alive new_controller build_node
    lookup insert tls_is_terminated_at_proxy wrap32 add_limiter
limiter_left_behind = (refl, refl)
