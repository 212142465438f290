-- ===== src/Core/Accounts.antt =====
-- The account builders of core/user.go: from a panel user to the Xray user of each protocol.
-- `serial.ToTypedMessage` only wraps the account for transport.
use Prim.Native.String.{◌++◌ as text_append}
pub mod Keys
use v2node_pro.Prelude.{
  ℕ, zero, String, Bool, true, false, ◌||◌, Option, List, [], ◌∷◌, map, if◌then◌else◌,
}
use v2node_pro.Prelude.Eq.{◌==◌, string_eq}
use v2node_pro.Prelude.Bytes.{bytes, slice_to, base64, lower_is}
use v2node_pro.Prelude.Flow.{Outcome, ok, err, panic, hang, ◌>>=◌}
use v2node_pro.Panel.{UserInfo}
use v2node_pro.Format.{user_tag}

pub data CipherType : Type 0 where
  aes_128_gcm aes_256_gcm chacha20_poly1305 none unknown : CipherType

pub data Account : Type 0 where
  vmess : (id security : String) → Account
  vless : (id flow : String) → Account
  trojan : (password : String) → Account
  shadowsocks : (password : String) → CipherType → Account
  shadowsocks_2022 : (key : String) → Account
  hysteria : (auth : String) → Account
  tuic : (uuid password : String) → Account
  any_tls : (password : String) → Account

-- protocol.User
pub record User : Type 0 where
  pub level : ℕ
  pub email : String
  pub account : Account

unfoldable pub build_vmess_user : String → UserInfo → User
build_vmess_user tag u = record {
  level = 0;
  email = user_tag tag u.uuid;
  account = vmess u.uuid "auto";
}

unfoldable pub build_vmess_users : String → List UserInfo → List User
unfolding build_vmess_user
build_vmess_users tag = map (build_vmess_user tag)

unfoldable pub build_vless_user : String → UserInfo → String → User
build_vless_user tag u flow = record {
  level = 0;
  email = user_tag tag u.uuid;
  account = vless u.uuid flow;
}

unfoldable pub build_vless_users : String → List UserInfo → String → List User
unfolding build_vless_user
build_vless_users tag us flow = map (λ u. build_vless_user tag u flow) us

unfoldable pub build_trojan_user : String → UserInfo → User
build_trojan_user tag u = record { level = 0; email = user_tag tag u.uuid; account = trojan u.uuid }

unfoldable pub build_trojan_users : String → List UserInfo → List User
unfolding build_trojan_user
build_trojan_users tag = map (build_trojan_user tag)

unfoldable pub get_cipher_from_string : String → CipherType
get_cipher_from_string c =
    if lower_is c "aes-128-gcm" || lower_is c "aead_aes_128_gcm"
    then aes_128_gcm
    else if lower_is c "aes-256-gcm" || lower_is c "aead_aes_256_gcm"
    then aes_256_gcm
    else if lower_is c "chacha20-poly1305"
        || lower_is c "aead_chacha20_poly1305"
        || lower_is c "chacha20-ietf-poly1305"
    then chacha20_poly1305
    else if lower_is c "none" || lower_is c "plain"
    then CipherType.none
    else unknown

-- The switch on the cipher; the zero value where no case matches.
unfoldable pub key_length : String → ℕ
key_length cypher =
    if cypher == "2022-blake3-aes-128-gcm"
    then 16
    else if cypher == "2022-blake3-aes-256-gcm"
    then 32
    else if cypher == "2022-blake3-chacha20-poly1305"
    then 32
    else 0

-- `userInfo.Uuid[:keyLength]` panics on a uuid that is too short.
unfoldable pub build_ss_user : String → UserInfo → String → String → Outcome User
unfolding key_length get_cipher_from_string
build_ss_user tag u cypher server_key =
    if server_key == ""
    then ok (record {
      level = 0;
      email = user_tag tag u.uuid;
      account = shadowsocks u.uuid (get_cipher_from_string cypher);
    })
    else elim (slice_to (key_length cypher) (bytes u.uuid)) [
      | Option.none ↦ panic
      | Option.some key ↦ ok (record {
        level = 0;
        email = user_tag tag u.uuid;
        account = shadowsocks_2022 (base64 key);
      })
    ]

unfoldable pub build_ss_users : String → List UserInfo → String → String → Outcome (List User)
build_ss_users tag [] cypher server_key = ok []
build_ss_users tag (u ∷ us) cypher server_key = do
  user ← build_ss_user tag u cypher server_key
  users ← build_ss_users tag us cypher server_key
  ok (user ∷ users)

unfoldable pub build_hysteria2_user : String → UserInfo → User
build_hysteria2_user tag u = record {
  level = 0;
  email = user_tag tag u.uuid;
  account = hysteria u.uuid;
}

unfoldable pub build_hysteria2_users : String → List UserInfo → List User
unfolding build_hysteria2_user
build_hysteria2_users tag = map (build_hysteria2_user tag)

unfoldable pub build_tuic_user : String → UserInfo → User
build_tuic_user tag u = record {
  level = 0;
  email = user_tag tag u.uuid;
  account = tuic u.uuid u.uuid;
}

unfoldable pub build_tuic_users : String → List UserInfo → List User
unfolding build_tuic_user
build_tuic_users tag = map (build_tuic_user tag)

unfoldable pub build_any_tls_user : String → UserInfo → User
build_any_tls_user tag u = record {
  level = 0;
  email = user_tag tag u.uuid;
  account = any_tls u.uuid;
}

unfoldable pub build_any_tls_users : String → List UserInfo → List User
unfolding build_any_tls_user
build_any_tls_users tag = map (build_any_tls_user tag)

-- What AddUsers reads of the node.
pub record AccountSettings : Type 0 where
  pub type : String
  pub flow : String
  pub cipher : String
  pub server_key : String

abbrev unsupported : String → String
unsupported type = text_append "unsupported node type: " type

-- The switch of AddUsers on the node's type.
unfoldable pub build_users : AccountSettings → String → List UserInfo → Outcome (List User)
build_users info tag us =
    if info.type == "vmess"
    then ok (build_vmess_users tag us)
    else if info.type == "vless"
    then ok (build_vless_users tag us info.flow)
    else if info.type == "trojan"
    then ok (build_trojan_users tag us)
    else if info.type == "shadowsocks"
    then build_ss_users tag us info.cipher info.server_key
    else if info.type == "hysteria2"
    then ok (build_hysteria2_users tag us)
    else if info.type == "tuic"
    then ok (build_tuic_users tag us)
    else if info.type == "anytls"
    then ok (build_any_tls_users tag us)
    else err (unsupported info.type)
