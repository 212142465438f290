-- ===== src/Panel/NodeInfo.antt =====
-- api/v2board/node.go: the configuration of a node, as the panel sends it.
-- The texts of `network_settings` (json.RawMessage) and of a field of type `interface{}` are what
-- encoding/json made of the response.
use v2node_pro.Prelude.{String, Bool, false, ◌&&◌, ◌||◌, not, Option, List}
use v2node_pro.Prelude.Eq.{◌==◌, int_eq}
use v2node_pro.Prelude.Int.{ℤ, pos}
use v2node_pro.Prelude.Text.{trim_space}
use v2node_pro.Prelude.Bytes.{lower_is}
use v2node_pro.Prelude.Dict.{Dict}

-- A finite float64 as the program sees it: the part before the point, and whether one follows it.
pub record Float : Type 0 where
  pub whole : ℤ
  pub has_fraction : Bool

-- What an `interface{}` of the configuration can hold.
pub data Any : Type 0 where
  missing : Any
  bool : Bool → Any
  text : String → Any
  float : Float → Any
  int : ℤ → Any
  int64 : ℤ → Any
  other : Any

pub record TlsSettings : Type 0 where
  pub server_name : String
  pub dest : String
  pub server_port : String
  pub short_id : String
  pub private_key : String
  pub mldsa65_seed : String
  pub xver : ℤ
  pub cert_mode : String
  pub cert_file : String
  pub key_file : String
  pub provider : String
  pub dns_env : String
  pub reject_unknown_sni : String
  pub terminate_tls_at_proxy : Any

pub record CertInfo : Type 0 where
  pub cert_mode : String
  pub cert_file : String
  pub key_file : String
  pub email : String
  pub cert_domain : String
  pub dns_env : Dict String String
  pub provider : String
  pub reject_unknown_sni : Bool

pub record EncSettings : Type 0 where
  pub mode : String
  pub ticket : String
  pub server_padding : String
  pub private_key : String

pub record Route : Type 0 where
  pub id : ℤ
  pub matches : List String
  pub action : String
  pub action_value : Option String

pub record BaseConfig : Type 0 where
  pub certificate_report : Bool
  pub certificate_revision : String
  pub push_interval : Any
  pub pull_interval : Any
  pub device_online_min_traffic : ℤ
  pub node_report_min_traffic : ℤ

pub record CommonNode : Type 0 where
  pub protocol : String
  pub listen_ip : String
  pub server_port : ℤ
  pub routes : List Route
  pub base_config : Option BaseConfig
  pub tls : ℤ
  pub tls_settings : TlsSettings
  pub cert_info : Option CertInfo
  pub network : String
  pub network_settings : String
  pub encryption : String
  pub encryption_settings : EncSettings
  pub server_name : String
  pub flow : String
  pub cipher : String
  pub server_key : String
  pub congestion_control : String
  pub zero_rtt_handshake : Bool
  pub padding_scheme : List String
  pub up_mbps : ℤ
  pub down_mbps : ℤ
  pub obfs : String
  pub obfs_password : String
  pub ignore_client_bandwidth : Bool

pub record NodeInfo : Type 0 where
  pub id : ℤ
  pub type : String
  pub security : ℤ
  pub push_interval : ℤ
  pub pull_interval : ℤ
  pub tag : String
  pub common : CommonNode

-- the constants `None`, `Tls` and `Reality`
abbrev pub tls_security : ℤ
tls_security = pos 1

abbrev pub reality_security : ℤ
reality_security = pos 2

-- TlsSettings.TLSIsTerminatedAtProxy
unfoldable pub tls_is_terminated_at_proxy : TlsSettings → Bool
unfolding trim_space lower_is
tls_is_terminated_at_proxy t = elim t.terminate_tls_at_proxy [
  | missing ↦ false
  | bool value ↦ value
  | text s ↦
      let value = trim_space s in
      lower_is value "1" || lower_is value "true" || lower_is value "yes" || lower_is value "on"
  | float value ↦ value.whole == pos 1 && not value.has_fraction
  | int value ↦ value == pos 1
  | int64 value ↦ value == pos 1
  | other ↦ false
]
