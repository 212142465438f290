-- ===== src/Panel/Client/Tests.antt =====
-- GetNodeInfo on concrete answers of the panel.
use v2node_pro.Prelude.{
  ◌*◌, String, ◌≡◌, ◌↔◌, refl, true, false, inl, inr, Option, none, some, ◌∷◌, [], if◌then◌else◌,
  arith, ◌≤◌,
}
use v2node_pro.Prelude.Int.{pos, negsuc, mul64, wrap64}
use v2node_pro.Prelude.Eq.{◌==◌, string_eq, int_eq}
use v2node_pro.Prelude.Dict.{insert}
use v2node_pro.Prelude.Text.{itoa}
use v2node_pro.Prelude.Scan.{atoi, split, cut}
use v2node_pro.Prelude.Flow.{ok, err}
use v2node_pro.Panel.NodeInfo.{
  missing, int, int64, text, float, CommonNode, NodeInfo, BaseConfig, TlsSettings,
}
use v2node_pro.Panel.Client.{
  Codec, Client, Response, new_client, get_node_info, cert_info_of, build_node, dns_pairs,
  interval_to_time, decode, second,
}
use v2node_pro.Panel.Client.Laws.{answer, ask_all, get_node_info_again, get_node_info_after_failure}
use v2node_pro.Panel.Client.Intervals.{interval_to_time-forms}
use v2node_pro.Panel.Client.Complete.{IsCompleteFor, get_node_info-IsCompleteFor}

abbrev pub settings : TlsSettings
settings = record {
  server_name = "a.example";
  dest = "";
  server_port = "";
  short_id = "";
  private_key = "";
  mldsa65_seed = "";
  xver = pos 0;
  cert_mode = "dns";
  cert_file = "";
  key_file = "/k";
  provider = "p";
  dns_env = "A=1,B,C=x=y,A=2";
  reject_unknown_sni = "1";
  terminate_tls_at_proxy = missing;
}

abbrev pub config : Option BaseConfig → CommonNode
config base = record {
  protocol = "vless";
  listen_ip = "";
  server_port = pos 443;
  routes = [];
  base_config = base;
  tls = pos 1;
  tls_settings = settings;
  cert_info = none;
  network = "tcp";
  network_settings = "";
  encryption = "";
  encryption_settings = record { mode = ""; ticket = ""; server_padding = ""; private_key = "" };
  server_name = "";
  flow = "";
  cipher = "";
  server_key = "";
  congestion_control = "";
  zero_rtt_handshake = false;
  padding_scheme = [];
  up_mbps = pos 0;
  down_mbps = pos 0;
  obfs = "";
  obfs_password = "";
  ignore_client_bandwidth = false;
}

abbrev pub base_config : BaseConfig
base_config = record {
  certificate_report = false;
  certificate_revision = "";
  push_interval = text "60";
  pull_interval = int (pos 30);
  device_online_min_traffic = pos 0;
  node_report_min_traffic = pos 0;
}

-- Bodies "v" and "w" decode; the second has no base configuration.
abbrev pub codec : Codec
codec = record {
  hash = λ body. body;
  decode_node = λ body.
      if body == "v"
      then inr (config (some base_config))
      else if body == "w"
      then inr (config none)
      else inl "bad";
  out_of_range = λ f. negsuc 0;
}

abbrev pub client : Client
client = record {
  api_host = "http://p";
  token = "t";
  node_id = pos 7;
  timeout = pos 0;
  node_etag = "";
  user_etag = "";
  response_body_hash = "";
}

abbrev pub reply : String → Response
reply body = record { status = pos 200; body = body; etag = "e" }

abbrev node : NodeInfo
node = build_node client (config (some base_config)) (pos 1) (pos 60000000000) (pos 30000000000)

read_config : (get_node_info codec client (answer (reply "v") none)).1 ≡ ok (some node)
unfolding get_node_info interval_to_time mul64 atoi wrap64
read_config = refl

dns_env_read :
    ((cert_info_of (config none) (pos 7)).dns_env ≡ ("A", "2") ∷ ("C", "x=y") ∷ [])
    × ((cert_info_of (config none) (pos 7)).cert_file ≡ "/etc/v2node/vless7.cer")
    × (node.tag ≡ "[http://p]-vless:7")
unfolding cert_info_of dns_pairs insert split cut itoa build_node
dns_env_read = (refl, refl, refl)

client_timeouts :
    ((new_client (record { api_host = ""; node_id = pos 1; key = ""; timeout = pos 5 })).timeout
      ≡ pos 5000000000)
    × ((new_client
          (record { api_host = ""; node_id = pos 1; key = ""; timeout = negsuc 4 })).timeout
        ≡ pos 30000000000)
unfolding new_client mul64 wrap64
client_timeouts = (refl, refl)

abbrev not_modified : Response
not_modified = record { status = pos 304; body = ""; etag = "" }

get_node_info_again_example :
    ask_all codec
      (get_node_info codec client (answer (reply "x") none)).0
      ((reply "x", some "timeout") ∷ (not_modified, none) ∷ (reply "x", none) ∷ [])
    ≡ ((get_node_info codec client (answer (reply "x") none)).0, ok none ∷ ok none ∷ ok none ∷ [])
get_node_info_again_example =
    get_node_info_again codec client (reply "x") none
      ((reply "x", some "timeout") ∷ (not_modified, none) ∷ (reply "x", none) ∷ []) refl
      (inl refl, (inr refl, (inl refl, tt)))

abbrev reader : Client
reader = record client { response_body_hash = "v" }

abbrev failed : Response
failed = record { status = pos 0; body = ""; etag = "" }

reader_decodes : decode codec reader "v" ≡ ok (some node)
unfolding decode interval_to_time mul64 atoi wrap64
reader_decodes = refl

get_node_info_after_failure_example :
    ((get_node_info codec reader (answer failed (some "timeout"))).1 ≡ err "timeout")
    × ((get_node_info codec
          (get_node_info codec reader (answer failed (some "timeout"))).0
          (answer (reply "v") none)).1
        ≡ ok (some node))
get_node_info_after_failure_example =
    get_node_info_after_failure codec reader "timeout" (reply "v") node refl (λ h. cc) refl
      reader_decodes

get_node_info-IsCompleteFor_example : IsCompleteFor client node
get_node_info-IsCompleteFor_example =
    get_node_info-IsCompleteFor codec client (answer (reply "v") none) node read_config

interval_to_time-forms_example :
    ((interval_to_time codec (int (pos 60)) ≡ ok (pos (60 * second))) ↔ (60 ≤ 9223372036))
    × (interval_to_time codec (int64 (pos 60)) ≡ interval_to_time codec (int (pos 60)))
    × (interval_to_time codec (text (itoa (pos 60))) ≡ interval_to_time codec (int (pos 60)))
    × (interval_to_time codec (float (record { whole = pos 60; has_fraction = true }))
        ≡ interval_to_time codec (int (pos 60)))
interval_to_time-forms_example = interval_to_time-forms codec 60 true (omega arith)
