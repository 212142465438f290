-- ===== src/Core/Inbound/Protocols.antt =====
-- core/inbound.go: the part of an inbound that depends on the protocol, one builder for each.
use Prim.Native.String.{◌++◌ as join}
use Prim.Native.Nat.{◌/◌, ◌%◌}
use v2node_pro.Prelude.{
  ℕ, String, ◌&&◌, ◌||◌, not, Option, none, some, List, [], ◌∷◌, ◌++◌, if◌then◌else◌,
}
use v2node_pro.Prelude.Int.{pos, ltb_ℤ}
use v2node_pro.Prelude.Eq.{◌==◌, string_eq}
use v2node_pro.Prelude.Text.{join_by, itoa}
use v2node_pro.Prelude.Bytes.{bytes, base64, nth_char}
use v2node_pro.Prelude.Flow.{Outcome, ok, err, panic, ◌>>=◌}
use v2node_pro.Panel.NodeInfo.{NodeInfo, CommonNode, EncSettings}
use v2node_pro.Core.Inbound.Types.{
  Xray, StreamConfig, InboundDetour, empty_stream, ShadowsocksHttpNetworkSettings, ShadowsocksUser,
  FinalMask, vless_config, vmess_config, trojan_config, shadowsocks_config, hysteria_config,
  tuic_config, any_tls_config,
}

-- hex.EncodeToString
unfoldable pub hex : List ℕ → String
unfolding nth_char
hex [] = ""
hex (b ∷ bs) =
    join (nth_char "0123456789abcdef" (b / 16))
      (join (nth_char "0123456789abcdef" (b % 16)) (hex bs))

-- the rest of a function, after a call that gave a value or an error
unfoldable pub or_fail {ℓ κ} :
    {A : Type ℓ} {B : Type κ} → Option A → String → (A → Outcome B) → Outcome B
or_fail (Option.none) message next = err message
or_fail (Option.some a) message next = next a

-- strings.Join of the parts of the key that Xray decrypts with
unfoldable pub mlkem_decryption : EncSettings → String
unfolding join_by
mlkem_decryption e =
    let head = "mlkem768x25519plus" ∷ e.mode ∷ e.ticket ∷ [] in
    let parts = if e.server_padding == "" then head else head ++ (e.server_padding ∷ []) in
    join_by "." (parts ++ (e.private_key ∷ []))

unfoldable pub vless_decryption : CommonNode → Outcome String
unfolding mlkem_decryption
vless_decryption v =
    if v.encryption == ""
    then ok "none"
    else if v.encryption == "mlkem768x25519plus"
    then ok (mlkem_decryption v.encryption_settings)
    else err (join "vless decryption method " (join v.encryption " is not support"))

unfoldable pub brutal_mask : CommonNode → Option FinalMask
unfolding itoa
brutal_mask v =
    if not v.ignore_client_bandwidth && (ltb_ℤ (pos 0) v.up_mbps || ltb_ℤ (pos 0) v.down_mbps)
    then some (record {
      quic_params = some (record {
        congestion = "force-brutal";
        brutal_up = join (itoa v.up_mbps) "mbps";
        brutal_down = join (itoa v.down_mbps) "mbps";
      });
      udp = [];
    })
    else none

-- `finalmask.Udp = udp` on a nil `finalmask` panics.
unfoldable pub obfs_mask : CommonNode → Option FinalMask → Outcome (Option FinalMask)
obfs_mask v mask = if v.obfs == "" || v.obfs_password == "" then ok mask else elim mask [
  | none ↦ panic
  | some m ↦ ok (
      some (record m {
        udp =
            record {
              type = v.obfs;
              settings = join "{\"password\":\"" (join v.obfs_password "\"}");
            }
            ∷ [];
      }))
]

-- the user with a random password that keeps the list of users from being empty
unfoldable pub default_shadowsocks_user : CommonNode → List ℕ → ShadowsocksUser
unfolding hex bytes base64
default_shadowsocks_user v p =
    if v.server_key == ""
    then record { cipher = v.cipher; password = hex p }
    else record { cipher = ""; password = base64 (bytes (hex p)) }

module _ (x : Xray) where
  unfoldable pub stream_on : String → StreamConfig x
  stream_on network = record (empty_stream {x = x}) { network = some network }

  -- the `switch v.Network` of buildVLess, buildVMess and buildAnyTLS
  unfoldable pub set_transport : String → String → StreamConfig x → Outcome (StreamConfig x)
  unfolding or_fail
  set_transport network raw s =
      if network == "tcp"
      then or_fail (x.tcp_config raw) "unmarshal tcp settings error"
          (λ c. ok (record s { tcp_settings = c }))
      else if network == "ws"
      then or_fail (x.ws_config raw) "unmarshal ws settings error"
          (λ c. ok (record s { ws_settings = c }))
      else if network == "grpc"
      then or_fail (x.grpc_config raw) "unmarshal grpc settings error"
          (λ c. ok (record s { grpc_settings = c }))
      else if network == "httpupgrade"
      then or_fail (x.http_upgrade_config raw) "unmarshal httpupgrade settings error"
          (λ c. ok (record s { http_upgrade_settings = c }))
      else if network == "splithttp" || network == "xhttp"
      then or_fail (x.split_http_config raw) "unmarshal xhttp settings error"
          (λ c. ok (record s { split_http_settings = c }))
      else err "the network type is not vail"

  -- the end of buildVLess and of buildVMess
  unfoldable pub add_transport : CommonNode → InboundDetour x → Outcome (InboundDetour x)
  unfolding set_transport stream_on
  add_transport v inbound =
      if v.network_settings == ""
      then ok inbound
      else set_transport v.network v.network_settings (stream_on v.network) >>= λ s.
          ok (record inbound { stream_setting = some s })

  unfoldable pub build_vless : NodeInfo → InboundDetour x → Outcome (InboundDetour x)
  unfolding vless_decryption add_transport or_fail
  build_vless node inbound = vless_decryption node.common >>= λ decryption.
      or_fail (x.marshal (vless_config decryption)) "marshal vless config error"
        (λ s. add_transport node.common (record inbound { protocol = "vless"; settings = some s }))

  unfoldable pub build_vmess : NodeInfo → InboundDetour x → Outcome (InboundDetour x)
  unfolding add_transport or_fail
  build_vmess node inbound =
      or_fail (x.marshal vmess_config) "marshal vmess settings error"
        (λ s. add_transport node.common (record inbound { protocol = "vmess"; settings = some s }))

  -- the `switch network` of buildTrojan, which knows three transports
  unfoldable pub set_trojan_transport : String → String → StreamConfig x → Outcome (StreamConfig x)
  unfolding or_fail
  set_trojan_transport network raw s =
      if network == "tcp"
      then or_fail (x.tcp_config raw) "unmarshal tcp settings error"
          (λ c. ok (record s { tcp_settings = c }))
      else if network == "ws"
      then or_fail (x.ws_config raw) "unmarshal ws settings error"
          (λ c. ok (record s { ws_settings = c }))
      else if network == "grpc"
      then or_fail (x.grpc_config raw) "unmarshal grpc settings error"
          (λ c. ok (record s { grpc_settings = c }))
      else err "the network type is not vail"

  unfoldable pub build_trojan : NodeInfo → InboundDetour x → Outcome (InboundDetour x)
  unfolding set_trojan_transport stream_on or_fail
  build_trojan node inbound =
      let v = node.common in
      let network = if v.network == "" then "tcp" else v.network in
      or_fail (x.marshal trojan_config) "marshal trojan settings error" (λ s.
        (if v.network_settings == ""
          then ok (stream_on network)
          else set_trojan_transport network v.network_settings (stream_on network))
        >>= λ stream. ok (record inbound {
          protocol = "trojan";
          settings = some s;
          stream_setting = some stream;
        }))

  -- the header of the HTTP obfuscation; an error leaves it empty
  unfoldable pub http_header : ShadowsocksHttpNetworkSettings → String
  http_header h =
      if h.path == "" && h.host == ""
      then ""
      else elim (x.marshal_header (record {
        path = if h.path == "" then "/" else h.path;
        host = if h.host == "" then none else some h.host;
      })) [ none ↦ "" | some text ↦ text ]

  unfoldable pub shadowsocks_stream : ShadowsocksHttpNetworkSettings → Option (StreamConfig x)
  unfolding http_header stream_on
  shadowsocks_stream h =
      if h.accept_proxy_protocol || not (h.path == "") || not (h.host == "")
      then some (record (stream_on "tcp") {
        tcp_settings = some (record {
          accept_proxy_protocol = h.accept_proxy_protocol;
          header_config = http_header h;
        });
      })
      else none

  -- the network list and the stream that NetworkSettings ask for
  unfoldable pub shadowsocks_network :
      CommonNode → Option (StreamConfig x) → Outcome (List String × Option (StreamConfig x))
  unfolding shadowsocks_stream or_fail
  shadowsocks_network v stream =
      if v.network_settings == ""
      then ok ("tcp" ∷ "udp" ∷ [], stream)
      else or_fail (x.shadowsocks_settings v.network_settings)
          "unmarshal shadowsocks settings error"
          (λ h. ok (
            (if not (h.path == "") || not (h.host == "") then "tcp" ∷ [] else "tcp" ∷ "udp" ∷ []),
            elim (shadowsocks_stream h) [ none ↦ stream | some s ↦ some s ],
          ))

  -- `random` is what rand.Read fills the 32 bytes with.
  unfoldable pub build_shadowsocks :
      Option (List ℕ) → NodeInfo → InboundDetour x → Outcome (InboundDetour x)
  unfolding default_shadowsocks_user shadowsocks_network or_fail
  build_shadowsocks random node inbound = or_fail random "generate random password error" (λ p.
      shadowsocks_network node.common inbound.stream_setting >>= λ network.
      or_fail
        (x.marshal (
          shadowsocks_config node.common.cipher node.common.server_key
            (default_shadowsocks_user node.common p ∷ []) network.0))
        "marshal shadowsocks settings error"
        (λ s. ok (record inbound {
          protocol = "shadowsocks";
          settings = some s;
          stream_setting = network.1;
        })))

  unfoldable pub build_hysteria2 : NodeInfo → InboundDetour x → Outcome (InboundDetour x)
  unfolding brutal_mask obfs_mask stream_on or_fail
  build_hysteria2 node inbound = obfs_mask node.common (brutal_mask node.common) >>= λ mask.
      or_fail (x.marshal (hysteria_config 2)) "marshal hysteria2 settings error" (λ s.
        ok (record inbound {
          protocol = "hysteria";
          settings = some s;
          stream_setting =
              some (record (stream_on "hysteria") { final_mask = mask; hysteria_version = some 2 });
        }))

  unfoldable pub build_tuic : NodeInfo → InboundDetour x → Outcome (InboundDetour x)
  unfolding stream_on or_fail
  build_tuic node inbound =
      or_fail
        (x.marshal (tuic_config node.common.congestion_control node.common.zero_rtt_handshake))
        "marshal tuic settings error"
        (λ s. ok (record inbound {
          protocol = "tuic";
          settings = some s;
          stream_setting = some (stream_on "tuic");
        }))

  unfoldable pub build_any_tls : NodeInfo → InboundDetour x → Outcome (InboundDetour x)
  unfolding set_transport stream_on or_fail
  build_any_tls node inbound =
      let v = node.common in
      (if v.network_settings == ""
        then ok (stream_on v.network)
        else set_transport v.network v.network_settings (stream_on v.network))
      >>= λ stream.
          or_fail (x.marshal (any_tls_config v.padding_scheme)) "marshal anytls settings error"
            (λ s. ok (record inbound {
              protocol = "anytls";
              settings = some s;
              stream_setting = some stream;
            }))
