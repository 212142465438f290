-- ===== src/Core/Inbound/Tests.antt =====
-- core/inbound.go on concrete nodes, with a stand-in for Xray.
use v2node_pro.Prelude.{String, ◌≡◌, refl, true, false, none, some, [], ◌∷◌}
use v2node_pro.Prelude.Int.{ℤ, pos}
use v2node_pro.Prelude.Flow.{is_panic, ok, err, panic}
use v2node_pro.Panel.NodeInfo.{NodeInfo, TlsSettings, text, tls_security}
use v2node_pro.Core.Inbound.Types.{Xray, InboundDetour}
use v2node_pro.Core.Inbound.Build.{configure, stream_of}
use v2node_pro.Core.Inbound.Security.{wanted_tls, wanted_security, is_servable, configure-security}
use v2node_pro.Core.Inbound.Panics.{is_unrated_obfs, configure-panic}

-- Every text decodes, and asks for the PROXY protocol.
abbrev pub lenient : Xray
lenient = record {
  Address = String;
  WsConfig = String;
  GrpcConfig = String;
  HttpUpgradeConfig = String;
  SplitHttpConfig = String;
  parse_address = λ s. s;
  tcp_config = λ s. some none;
  ws_config = λ s. some (some s);
  grpc_config = λ s. some (some s);
  http_upgrade_config = λ s. some (some s);
  split_http_config = λ s. some (some s);
  proxy_protocol = λ s. some true;
  shadowsocks_settings = λ s. none;
  marshal = λ c. some "{}";
  marshal_header = λ h. some "{}";
  marshal_text = λ s. some s;
}

abbrev tls_settings_of : String → TlsSettings
tls_settings_of terminated = record {
  server_name = "a.example";
  dest = "";
  server_port = "443";
  short_id = "";
  private_key = "";
  mldsa65_seed = "";
  xver = pos 0;
  cert_mode = "file";
  cert_file = "";
  key_file = "";
  provider = "";
  dns_env = "";
  reject_unknown_sni = "";
  terminate_tls_at_proxy = text terminated;
}

abbrev node_of : String → String → String → ℤ → NodeInfo
node_of type network terminated down = record {
  id = pos 1;
  type = type;
  security = tls_security;
  push_interval = pos 0;
  pull_interval = pos 0;
  tag = "t";
  common = record {
    protocol = type;
    listen_ip = "0.0.0.0";
    server_port = pos 443;
    routes = [];
    base_config = none;
    tls = pos 1;
    tls_settings = tls_settings_of terminated;
    cert_info = some (record {
      cert_mode = "file";
      cert_file = "c";
      key_file = "k";
      email = "";
      cert_domain = "";
      dns_env = [];
      provider = "";
      reject_unknown_sni = false;
    });
    network = network;
    network_settings = "{}";
    encryption = "";
    encryption_settings = record { mode = ""; ticket = ""; server_padding = ""; private_key = "" };
    server_name = "";
    flow = "";
    cipher = "";
    server_key = "";
    congestion_control = "";
    zero_rtt_handshake = false;
    padding_scheme = [];
    up_mbps = pos 0;
    down_mbps = down;
    obfs = "salamander";
    obfs_password = "secret";
    ignore_client_bandwidth = false;
  };
}

-- a vless node behind a proxy, as buildInbound leaves it
abbrev proxied : InboundDetour lenient
proxied = record {
  protocol = "vless";
  port_list = (443, 443) ∷ [];
  listen_on = some "0.0.0.0";
  settings = some "{}";
  tag = "t";
  stream_setting = some (record {
    network = some "ws";
    security = "";
    tls_settings = none;
    reality_settings = none;
    tcp_settings = none;
    ws_settings = some "{}";
    grpc_settings = none;
    http_upgrade_settings = none;
    split_http_settings = none;
    hysteria_version = none;
    final_mask = none;
    socket_settings = some true;
  });
  sniffing_config = some (record { enabled = true; dest_override = "http" ∷ "tls" ∷ [] });
}

vless_behind_proxy : configure lenient none (node_of "vless" "ws" " ON " (pos 0)) "t" ≡ ok proxied
unfolding configure
vless_behind_proxy = refl

tcp_behind_proxy :
    configure lenient none (node_of "vless" "tcp" "yes" (pos 0)) "t"
    ≡ err "TLS termination at proxy requires websocket transport"
unfolding configure
tcp_behind_proxy = refl

configure-security_example :
    ((stream_of lenient proxied).security ≡ wanted_security (node_of "vless" "ws" " ON " (pos 0)))
    × ((stream_of lenient proxied).tls_settings ≡ wanted_tls (node_of "vless" "ws" " ON " (pos 0)))
    × (is_servable (node_of "vless" "ws" " ON " (pos 0)) ≡ true)
configure-security_example =
    configure-security lenient none (node_of "vless" "ws" " ON " (pos 0)) "t" {inbound = proxied}
      vless_behind_proxy

configure-panic_example :
    is_panic (configure lenient none (node_of "hysteria2" "" "" (pos 0)) "t")
    ≡ is_unrated_obfs (node_of "hysteria2" "" "" (pos 0))
configure-panic_example = configure-panic lenient none (node_of "hysteria2" "" "" (pos 0)) "t"

unrated_hysteria2 : configure lenient none (node_of "hysteria2" "" "" (pos 0)) "t" ≡ panic
unfolding configure
unrated_hysteria2 = refl
