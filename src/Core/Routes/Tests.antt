-- ===== src/Core/Routes/Tests.antt =====
-- A node that blocks a domain and sends two lists of addresses to one outbound.
use v2node_pro.Prelude.{String, ◌≡◌, refl, false, Option, none, some, [], ◌∷◌, List}
use v2node_pro.Prelude.Int.{pos}
use v2node_pro.Panel.NodeInfo.{NodeInfo, Route, missing}
use v2node_pro.Core.Routes.{
  Outbounds, KeepsTag, Rule, dns_rule, has_outbound_with_tag, first_config, get_custom_config,
}
use v2node_pro.Core.Routes.Laws.{Extends, IsDistinctTags}
use v2node_pro.Core.Routes.Rules.{OfNodes, get_custom_config-Extends}

-- An outbound is its tag.
abbrev tags : Outbounds
tags = record {
  Address = String;
  parse_address = λ s. s;
  Detour = String;
  decode = λ s. some s;
  detour_tag = λ d. d;
  Built = String;
  build = λ d. some d;
  built_tag = λ o. o;
}

tags-KeepsTag : KeepsTag tags
tags-KeepsTag d b e = cc e

abbrev route_of : String → Option String → Route
route_of action value = record {
  id = pos 1;
  matches = "a.example" ∷ [];
  action = action;
  action_value = value;
}

abbrev node : NodeInfo
node = record {
  id = pos 1;
  type = "trojan";
  security = pos 0;
  push_interval = pos 0;
  pull_interval = pos 0;
  tag = "n";
  common = record {
    protocol = "trojan";
    listen_ip = "";
    server_port = pos 443;
    routes =
        route_of "block" none
        ∷ route_of "route" (some "far")
        ∷ route_of "route_ip" (some "far")
        ∷ route_of "route" none
        ∷ [];
    base_config = none;
    tls = pos 0;
    tls_settings = record {
      server_name = "";
      dest = "";
      server_port = "";
      short_id = "";
      private_key = "";
      mldsa65_seed = "";
      xver = pos 0;
      cert_mode = "";
      cert_file = "";
      key_file = "";
      provider = "";
      dns_env = "";
      reject_unknown_sni = "";
      terminate_tls_at_proxy = missing;
    };
    cert_info = none;
    network = "";
    network_settings = "";
    encryption = "";
    encryption_settings = record { mode = ""; ticket = ""; server_padding = ""; private_key = "" };
    server_name = "";
    flow = "";
    cipher = "";
    server_key = "";
    congestion_control = "";
    zero_rtt_handshake = false;
    padding_scheme = [];
    up_mbps = pos 0;
    down_mbps = pos 0;
    obfs = "";
    obfs_password = "";
    ignore_client_bandwidth = false;
  };
}

outbounds_run :
    (get_custom_config tags (some "Default") (some "block") (some "dns_out") (node ∷ [])).outbounds
    ≡ some "Default" ∷ some "block" ∷ some "dns_out" ∷ some "far" ∷ []
unfolding get_custom_config
outbounds_run = refl

default_tags : IsDistinctTags tags (some "Default" ∷ some "block" ∷ some "dns_out" ∷ [])
unfolding has_outbound_with_tag
default_tags = (refl, (refl, (refl, tt)))

get_custom_config-Extends_example :
    Extends tags
      (first_config tags (some "Default") (some "block") (some "dns_out"))
      (get_custom_config tags (some "Default") (some "block") (some "dns_out") (node ∷ []))
    × ((more : List Rule) × ((get_custom_config tags
            (some "Default")
            (some "block")
            (some "dns_out")
            (node ∷ [])).rules
          ≡ dns_rule tags ∷ more)
        × OfNodes tags (node ∷ []) more)
get_custom_config-Extends_example =
    get_custom_config-Extends tags (some "Default") (some "block") (some "dns_out") (node ∷ [])
      tags-KeepsTag default_tags
