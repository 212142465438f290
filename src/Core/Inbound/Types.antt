-- ===== src/Core/Inbound/Types.antt =====
-- core/inbound.go: the Xray types that an inbound is made of, with the fields that the program sets,
-- and what Xray and the JSON decoder do with them, as parameters.
use v2node_pro.Prelude.{ℕ, String, Bool, Option, List, []}
use v2node_pro.Prelude.Int.{ℤ}

pub record TcpConfig : Type 0 where
  pub accept_proxy_protocol : Bool
  pub header_config : String

pub record ShadowsocksHttpNetworkSettings : Type 0 where
  pub accept_proxy_protocol : Bool
  pub path : String
  pub host : String

-- the map `httpHeader` of buildShadowsocks
pub record HttpHeader : Type 0 where
  pub path : String
  pub host : Option String

pub record TlsConfig : Type 0 where
  pub cert_file : String
  pub key_file : String
  pub ocsp_stapling : ℕ
  pub reject_unknown_sni : Bool
  pub alpn : Option (List String)

pub record RealityConfig : Type 0 where
  pub dest : String
  pub xver : ℤ
  pub show : Bool
  pub server_names : List String
  pub private_key : String
  pub short_ids : List String
  pub mldsa65_seed : String

pub record QuicParams : Type 0 where
  pub congestion : String
  pub brutal_up : String
  pub brutal_down : String

pub record Mask : Type 0 where
  pub type : String
  pub settings : String

pub record FinalMask : Type 0 where
  pub quic_params : Option QuicParams
  pub udp : List Mask

pub record ShadowsocksUser : Type 0 where
  pub cipher : String
  pub password : String

-- the `...ServerConfig` that is marshalled into the settings of an inbound
pub data ServerConfig : Type 0 where
  vless_config : (decryption : String) → ServerConfig
  vmess_config : ServerConfig
  trojan_config : ServerConfig
  shadowsocks_config :
      (cipher password : String) → List ShadowsocksUser → List String → ServerConfig
  hysteria_config : (version : ℕ) → ServerConfig
  tuic_config : (congestion_control : String) → (zero_rtt_handshake : Bool) → ServerConfig
  any_tls_config : (padding_scheme : List String) → ServerConfig

pub record SniffingConfig : Type 0 where
  pub enabled : Bool
  pub dest_override : List String

-- Xray's transports, the address parser, and encoding/json on Xray's types: `none` is an error, and
-- a decoder's `some none` leaves the pointer nil, as on the text `null`.
pub record Xray : Type 1 where
  pub Address : Type 0
  pub WsConfig : Type 0
  pub GrpcConfig : Type 0
  pub HttpUpgradeConfig : Type 0
  pub SplitHttpConfig : Type 0
  pub parse_address : String → Address
  pub tcp_config : String → Option (Option TcpConfig)
  pub ws_config : String → Option (Option WsConfig)
  pub grpc_config : String → Option (Option GrpcConfig)
  pub http_upgrade_config : String → Option (Option HttpUpgradeConfig)
  pub split_http_config : String → Option (Option SplitHttpConfig)
  pub proxy_protocol : String → Option Bool
  pub shadowsocks_settings : String → Option ShadowsocksHttpNetworkSettings
  pub marshal : ServerConfig → Option String
  pub marshal_header : HttpHeader → Option String
  pub marshal_text : String → Option String

pub record StreamConfig (x : Xray) : Type 0 where
  pub network : Option String
  pub security : String
  pub tls_settings : Option TlsConfig
  pub reality_settings : Option RealityConfig
  pub tcp_settings : Option TcpConfig
  pub ws_settings : Option x.WsConfig
  pub grpc_settings : Option x.GrpcConfig
  pub http_upgrade_settings : Option x.HttpUpgradeConfig
  pub split_http_settings : Option x.SplitHttpConfig
  pub hysteria_version : Option ℕ
  pub final_mask : Option FinalMask
  -- SocketSettings, by its AcceptProxyProtocol
  pub socket_settings : Option Bool

pub record InboundDetour (x : Xray) : Type 0 where
  pub protocol : String
  pub port_list : List (ℕ × ℕ)
  pub listen_on : Option x.Address
  pub settings : Option String
  pub tag : String
  pub stream_setting : Option (StreamConfig x)
  pub sniffing_config : Option SniffingConfig

-- `&StreamConfig{}`
abbrev pub empty_stream : {x : Xray} → StreamConfig x
empty_stream = record {
  network = Option.none;
  security = "";
  tls_settings = Option.none;
  reality_settings = Option.none;
  tcp_settings = Option.none;
  ws_settings = Option.none;
  grpc_settings = Option.none;
  http_upgrade_settings = Option.none;
  split_http_settings = Option.none;
  hysteria_version = Option.none;
  final_mask = Option.none;
  socket_settings = Option.none;
}

-- `&InboundDetourConfig{}`
abbrev pub empty_inbound : {x : Xray} → InboundDetour x
empty_inbound = record {
  protocol = "";
  port_list = [];
  listen_on = Option.none;
  settings = Option.none;
  tag = "";
  stream_setting = Option.none;
  sniffing_config = Option.none;
}
