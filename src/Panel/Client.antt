-- ===== src/Panel/Client.antt =====
-- api/v2board/panel.go and GetNodeInfo of api/v2board/node.go: the client of the panel, and how it
-- reads the configuration of its node. The requests, SHA-256 and encoding/json are parameters.
pub mod Laws
pub mod Intervals
pub mod Complete
pub mod Panics
pub mod Tests
use Prim.Native.String.{◌++◌ as join}
use v2node_pro.Prelude.{
  ℕ, ◌^◌, ◌*◌, String, Bool, true, false, ◌&&◌, ◌||◌, not, ◌⊎◌, inl, inr, Option, none, some, List,
  [], ◌∷◌, ltb, if◌then◌else◌,
}
use v2node_pro.Prelude.Int.{ℤ, pos, negsuc, mul64, ltb_ℤ}
use v2node_pro.Prelude.Eq.{◌==◌, string_eq, int_eq}
use v2node_pro.Prelude.Dict.{Dict, insert}
use v2node_pro.Prelude.Text.{itoa}
use v2node_pro.Prelude.Scan.{atoi, split, cut}
use v2node_pro.Prelude.Flow.{Outcome, ok, err, panic, hang, ◌>>=◌}
use v2node_pro.Panel.NodeInfo.{
  Any, missing, bool, text, float, int, int64, other, Float, TlsSettings, CertInfo, BaseConfig,
  CommonNode, NodeInfo,
}

-- conf.NodeConfig
pub record NodeConfig : Type 0 where
  pub api_host : String
  pub node_id : ℤ
  pub key : String
  pub timeout : ℤ

-- `client` is the library's; the lists that GetUserList and GetUserAlive keep are their results.
pub record Client : Type 0 where
  pub api_host : String
  pub token : String
  pub node_id : ℤ
  pub timeout : ℤ
  pub node_etag : String
  pub user_etag : String
  pub response_body_hash : String

-- what the libraries compute: the SHA-256 of a body in hexadecimal digits, the decoded body, and the
-- int64 of a float64 that is out of its range, which the language leaves to the machine
pub record Codec : Type 0 where
  pub hash : String → String
  pub decode_node : String → String ⊎ CommonNode
  pub out_of_range : Float → ℤ

-- A response of the panel; without an answer the status is 0, and body and ETag are empty.
pub record Response : Type 0 where
  pub status : ℤ
  pub body : String
  pub etag : String

-- what the library's Get returns: a response, which may be nil, and an error, which may be nil
pub record Answer : Type 0 where
  pub response : Option Response
  pub error : Option String

-- time.Second in nanoseconds
abbrev pub second : ℕ
second = 1000000000

-- The ints of 64 bits.
unfoldable pub fits64 : ℤ → Bool
fits64 (pos n) = ltb n (2 ^ 63)
fits64 (negsuc n) = ltb n (2 ^ 63)

-- New, which never fails
unfoldable pub new_client : NodeConfig → Client
new_client c = record {
  api_host = c.api_host;
  token = c.key;
  node_id = c.node_id;
  timeout = if ltb_ℤ (pos 0) c.timeout then mul64 c.timeout second else mul64 (pos 30) second;
  node_etag = "";
  user_etag = "";
  response_body_hash = "";
}

-- int64(f): towards zero
unfoldable pub float_to_int64 : Codec → Float → ℤ
unfolding fits64
float_to_int64 x f = if fits64 f.whole then f.whole else x.out_of_range f

-- intervalToTime; reflect.TypeOf(nil) is nil, and reflect's Int takes integers only
unfoldable pub interval_to_time : Codec → Any → Outcome ℤ
unfolding mul64 atoi float_to_int64
interval_to_time x missing = panic
interval_to_time x (int i) = ok (mul64 i second)
interval_to_time x (text s) = ok (mul64 (atoi s) second)
interval_to_time x (float f) = ok (mul64 (float_to_int64 x f) second)
interval_to_time x (int64 i) = ok (mul64 i second)
interval_to_time x (bool b) = panic
interval_to_time x other = panic

-- the loop over the parts of `dns_env`
unfoldable pub dns_pairs : List String → Dict String String → Dict String String
unfolding insert cut
dns_pairs [] env = env
dns_pairs (e ∷ es) env =
    dns_pairs es (elim (cut b'=' e) [ none ↦ env | some (k, v) ↦ insert k v env ])

-- filepath.Join("/etc/v2node/", name), for a name of letters, digits and a dot
abbrev pub default_file : String → ℤ → String → String
default_file protocol node_id extension =
    join "/etc/v2node/" (join protocol (join (itoa node_id) extension))

unfoldable pub cert_info_of : CommonNode → ℤ → CertInfo
unfolding itoa dns_pairs split
cert_info_of cm node_id =
    let s = cm.tls_settings in
    record {
      cert_mode = s.cert_mode;
      cert_file =
          if s.cert_file == "" then default_file cm.protocol node_id ".cer" else s.cert_file;
      key_file = if s.key_file == "" then default_file cm.protocol node_id ".key" else s.key_file;
      email = "node@v2board.com";
      cert_domain = s.server_name;
      dns_env =
          if s.cert_mode == "dns" && not (s.dns_env == "")
          then dns_pairs (split b',' s.dns_env) []
          else [];
      provider = s.provider;
      reject_unknown_sni = s.reject_unknown_sni == "1";
    }

abbrev pub is_tls_protocol : String → Bool
is_tls_protocol p =
    p == "vmess"
    || p == "trojan"
    || p == "hysteria2"
    || p == "tuic"
    || p == "anytls"
    || p == "vless"

-- The node with the fields that GetNodeInfo sets.
unfoldable pub build_node : Client → CommonNode → ℤ → ℤ → ℤ → NodeInfo
unfolding cert_info_of
build_node c cm security push pull = record {
  id = c.node_id;
  type = cm.protocol;
  security = security;
  push_interval = push;
  pull_interval = pull;
  tag = join "[" (join c.api_host (join "]-" (join cm.protocol (join ":" (itoa c.node_id)))));
  common = record cm { cert_info = some (cert_info_of cm c.node_id) };
}

-- from `node.Tag = …` on; `cm.BaseConfig` may be a nil pointer
unfoldable pub complete : Codec → Client → CommonNode → ℤ → Outcome NodeInfo
unfolding interval_to_time build_node
complete x c cm security = elim cm.base_config [
  | none ↦ panic
  | some base ↦ interval_to_time x base.push_interval >>= λ push.
      interval_to_time x base.pull_interval >>= λ pull. ok (build_node c cm security push pull)
]

-- `switch cm.Protocol`
unfoldable pub node_of : Codec → Client → CommonNode → Outcome NodeInfo
unfolding complete
node_of x c cm =
    if is_tls_protocol cm.protocol
    then complete x c cm cm.tls
    else if cm.protocol == "shadowsocks"
    then complete x c cm (pos 0)
    else err (join "unsupport protocol: " cm.protocol)

-- from the decoding on
unfoldable pub decode : Codec → Client → String → Outcome (Option NodeInfo)
unfolding node_of
decode x c body = elim (x.decode_node body) [
  | inl e ↦ err (join "decode node params error: " e)
  | inr cm ↦ node_of x c cm >>= λ node. ok (some node)
]

-- The part after the status is known not to be 304.
unfoldable pub receive :
    Codec → Client → Response → Option String → Client × Outcome (Option NodeInfo)
unfolding decode
receive x c r e =
    if c.response_body_hash == x.hash r.body
    then (c, ok none)
    else let c' : Client = record c { response_body_hash = x.hash r.body; node_etag = r.etag } in
      (c', elim e [ some message ↦ err message | none ↦ decode x c' r.body ])

-- GetNodeInfo; a nil node is `none`, and a nil response is read through before it is tested
unfoldable pub get_node_info : Codec → Client → Answer → Client × Outcome (Option NodeInfo)
unfolding receive
get_node_info x c a = elim a.response [
  | none ↦ (c, panic)
  | some r ↦ if r.status == pos 304 then (c, ok none) else receive x c r a.error
]
