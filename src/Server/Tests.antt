-- ===== src/Server/Tests.antt =====
-- A program with one node that is reloaded, and events of its configuration file.
use v2node_pro.Prelude.{
  ℕ, ◌-◌, ◌*◌, String, true, false, ◌≡◌, refl, none, some, List, [], ◌∷◌, inl, inr,
}
use v2node_pro.Prelude.Dict.{lookup, insert, erase}
use v2node_pro.Prelude.Flow.{ok}
use v2node_pro.Panel.Client.Tests.{client, codec, config, base_config, reply}
use v2node_pro.Panel.Client.Laws.{answer}
use v2node_pro.Panel.Client.{get_node_info, new_client, interval_to_time, build_node}
use v2node_pro.Panel.Users.{get_user_list, get_user_alive}
use v2node_pro.Prelude.Int.{pos, mul64, wrap32, wrap64}
use v2node_pro.Prelude.Scan.{atoi}
use v2node_pro.Core.Inbound.Build.{build_inbound, configure}
use v2node_pro.Core.Accounts.{build_users, build_trojan_users}
use v2node_pro.Core.Users.{add_users_loop, add_one}
use v2node_pro.Panel.NodeInfo.{tls_is_terminated_at_proxy}
use v2node_pro.Core.Inbound.Tests.{lenient}
use v2node_pro.Core.Nodes.{Host}
use v2node_pro.Node.Monitor.Tests.{kind_inbounds, calling}
use v2node_pro.Node.Certificates.Tests.{Files}
use v2node_pro.Node.Lifecycle.{new_controller}
use v2node_pro.Node.Lifecycle.Tests.{env, host, answers, node_config, sent_users}
use v2node_pro.Node.Lifecycle.Start.{Env}
use v2node_pro.Server.Serving.{IsRenewed, reload-IsRenewed}
use v2node_pro.Node.Fleet.Serving.{HasDistinctTags}
use v2node_pro.Node.Fleet.Laws.{has_tag}
use v2node_pro.Node.Fleet.{close_nodes}
use v2node_pro.Server.{Reload, Server, reload_signal, panicked, serve_loop, reload}
use v2node_pro.Server.Laws.{IsDown, serve_loop-outage}
use v2node_pro.Server.Watch.{FileEvent, loads, content_at}

abbrev kind_host : Host kind_inbounds lenient
kind_host = record host { remove_handler = λ s tag. (s - 1, none) }

abbrev serving : Server (List String) Files env kind_inbounds lenient kind_host calling 0
serving = record {
  world = record {
    registry = [];
    core = record { ihm = 1; uid_map = []; counter = []; link_managers = [] };
    files = [];
    controller = new_controller client none;
  };
  controllers = new_controller client none ∷ [];
  is_core_running = true;
  reload_ch = some (record { pending = 1; capacity = 1 });
  log_level = "info";
  orphans = [];
}

abbrev broken_file : Reload (List String)
broken_file = record {
  close_error = none;
  file = inl "read config file error: bad JSON";
  answers = λ k. record { first = answer (reply "t") none; later = answers };
  core_start = ok tt;
}

nodes_close :
    (close_nodes
      (List String)
      Files
      env
      kind_inbounds
      lenient
      kind_host
      serving.controllers
      serving.world).1
    ≡ ok tt
unfolding close_nodes new_controller erase
nodes_close = refl

serve_loop-outage_example :
    (after : Server (List String) Files env kind_inbounds lenient kind_host calling 0) × (serve_loop
        (List String)
        Files
        env
        kind_inbounds
        lenient
        kind_host
        calling
        0
        (reload_signal broken_file ∷ [])
        serving
      ≡ panicked after)
    × IsDown (List String) Files env kind_inbounds lenient kind_host calling 0 serving after
serve_loop-outage_example =
    serve_loop-outage (List String) Files env kind_inbounds lenient kind_host calling 0 serving
      broken_file [] nodes_close refl (inl ("read config file error: bad JSON", refl))

abbrev no_nodes : Reload (List String)
no_nodes = record {
  close_error = none;
  file = inr (record { log_level = "warning"; node_configs = [] });
  answers = λ k. record { first = answer (reply "t") none; later = answers };
  core_start = ok tt;
}

reload_to_nothing :
    (reload
      (List String)
      Files
      env
      kind_inbounds
      lenient
      kind_host
      calling
      0
      serving
      no_nodes).0.log_level
    ≡ "warn"
unfolding reload new_controller erase
reload_to_nothing = refl

-- The panel has a trojan node.
abbrev trojan_env : Env (List String) Files
trojan_env = record env {
  codec = record codec {
    decode_node =
        λ body. inr (record (config (some base_config)) { protocol = "trojan"; tls = pos 0 });
  };
}

abbrev running : Server (List String) Files trojan_env kind_inbounds lenient kind_host calling 0
running = record {
  world = record {
    registry = [];
    core = record { ihm = 1; uid_map = []; counter = []; link_managers = [] };
    files = [];
    controller = new_controller client none;
  };
  controllers = new_controller client none ∷ [];
  is_core_running = true;
  reload_ch = some (record { pending = 0; capacity = 1 });
  log_level = "info";
  orphans = [];
}

abbrev one_node : Reload (List String)
one_node = record {
  close_error = none;
  file = inr (record { log_level = "info"; node_configs = node_config ∷ [] });
  answers = λ k. record { first = answer (reply "t") none; later = answers };
  core_start = ok tt;
}

abbrev renewed : Server (List String) Files trojan_env kind_inbounds lenient kind_host calling 0
renewed =
    (reload (List String) Files trojan_env kind_inbounds lenient kind_host calling 0 running
      one_node).0

renewal_ends :
    ((reload
        (List String)
        Files
        trojan_env
        kind_inbounds
        lenient
        kind_host
        calling
        0
        running
        one_node).1
      ≡ ok tt)
    × HasDistinctTags renewed.controllers
unfolding reload build_inbound configure get_user_list get_user_alive build_users build_trojan_users
    add_users_loop add_one new_controller build_node lookup insert erase tls_is_terminated_at_proxy
    wrap32 wrap64 get_node_info new_client interval_to_time mul64 atoi has_tag
renewal_ends = (refl, (refl, tt))

reload-IsRenewed_example :
    IsRenewed
      (List String)
      Files
      trojan_env
      kind_inbounds
      lenient
      kind_host
      calling
      0
      one_node
      running
      renewed
reload-IsRenewed_example =
    reload-IsRenewed (List String) Files trojan_env kind_inbounds lenient kind_host calling 0
      running one_node (λ i. sent_users) renewal_ends.0 renewal_ends.1

abbrev at_second : ℕ → String → FileEvent
at_second n content = record { is_chmod = false; time = n * 1000000000; content = content }

loads_both : loads "a" (at_second 1 "b" ∷ at_second 11 "c" ∷ []) ≡ "b" ∷ "c" ∷ []
unfolding loads content_at
loads_both = refl

loads_first_only : loads "a" (at_second 1 "b" ∷ at_second 8 "c" ∷ []) ≡ "b" ∷ []
unfolding loads content_at
loads_first_only = refl
