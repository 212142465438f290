-- ===== src/Core/Inbound/Build.antt =====
-- core/inbound.go: buildInbound, up to the call of Xray's `Build` and with it.
use Prim.Native.String.{◌++◌ as join}
use v2node_pro.Prelude.{
  ℕ, String, Bool, true, false, ◌||◌, not, Option, none, some, List, [], ◌∷◌, if◌then◌else◌,
}
use v2node_pro.Prelude.Int.{wrap32}
use v2node_pro.Prelude.Eq.{◌==◌, string_eq, int_eq}
use v2node_pro.Prelude.Flow.{Outcome, ok, err, ◌>>=◌}
use v2node_pro.Panel.NodeInfo.{
  NodeInfo, CommonNode, CertInfo, TlsSettings, tls_is_terminated_at_proxy, tls_security,
  reality_security,
}
use v2node_pro.Core.Inbound.Types.{
  Xray, StreamConfig, InboundDetour, empty_stream, empty_inbound, TlsConfig, RealityConfig,
}
use v2node_pro.Core.Inbound.Protocols.{
  or_fail, build_vless, build_vmess, build_trojan, build_shadowsocks, build_hysteria2, build_tuic,
  build_any_tls,
}

unfoldable pub should_enable_inbound_tls : NodeInfo → Outcome Bool
unfolding tls_is_terminated_at_proxy
should_enable_inbound_tls node =
    if not (tls_is_terminated_at_proxy node.common.tls_settings)
    then ok true
    else if not (node.common.network == "ws")
    then err "TLS termination at proxy requires websocket transport"
    else ok false

unfoldable pub tls_config : NodeInfo → CertInfo → TlsConfig
tls_config node c = record {
  cert_file = c.cert_file;
  key_file = c.key_file;
  ocsp_stapling = 3600;
  reject_unknown_sni = c.reject_unknown_sni;
  alpn = if node.type == "hysteria2" || node.type == "tuic" then some ("h3" ∷ []) else none;
}

unfoldable pub reality_config : TlsSettings → String → RealityConfig
reality_config t dest = record {
  dest = dest;
  xver = t.xver;
  show = false;
  server_names = t.server_name ∷ [];
  private_key = t.private_key;
  short_ids = t.short_id ∷ [];
  mldsa65_seed = t.mldsa65_seed;
}

module _ (x : Xray) where
  -- `in.StreamSetting`, made if it is nil
  unfoldable pub stream_of : InboundDetour x → StreamConfig x
  stream_of inbound = elim inbound.stream_setting [ none ↦ empty_stream | some s ↦ s ]

  unfoldable pub build_protocol :
      Option (List ℕ) → NodeInfo → InboundDetour x → Outcome (InboundDetour x)
  unfolding build_vless build_vmess build_trojan build_shadowsocks build_hysteria2 build_tuic
      build_any_tls
  build_protocol random node inbound =
      if node.type == "vless"
      then build_vless x node inbound
      else if node.type == "vmess"
      then build_vmess x node inbound
      else if node.type == "trojan"
      then build_trojan x node inbound
      else if node.type == "shadowsocks"
      then build_shadowsocks x random node inbound
      else if node.type == "hysteria2"
      then build_hysteria2 x node inbound
      else if node.type == "tuic"
      then build_tuic x node inbound
      else if node.type == "anytls"
      then build_any_tls x node inbound
      else err (join "unsupported node type: " node.type)

  unfoldable pub accept_proxy_protocol : CommonNode → InboundDetour x → InboundDetour x
  accept_proxy_protocol v inbound = record inbound {
    stream_setting = elim inbound.stream_setting [
      | none ↦
          some (record (empty_stream {x = x}) {
            network = some v.network;
            socket_settings = some true;
          })
      | some s ↦ some (record s { socket_settings = some true })
    ];
  }

  unfoldable pub set_proxy_protocol : CommonNode → InboundDetour x → Outcome (InboundDetour x)
  unfolding accept_proxy_protocol or_fail
  set_proxy_protocol v inbound =
      if v.network_settings == ""
      then ok inbound
      else or_fail (x.proxy_protocol v.network_settings) "unmarshal network settings error"
          (λ accept. ok (if accept then accept_proxy_protocol v inbound else inbound))

  unfoldable pub set_listener : CommonNode → InboundDetour x → InboundDetour x
  unfolding wrap32
  set_listener v inbound = record inbound {
    port_list = (wrap32 v.server_port, wrap32 v.server_port) ∷ [];
    listen_on = some (x.parse_address v.listen_ip);
    sniffing_config = some (record { enabled = true; dest_override = "http" ∷ "tls" ∷ [] });
  }

  -- the `switch` on the mode of the certificate
  unfoldable pub set_certificate : NodeInfo → CertInfo → InboundDetour x → InboundDetour x
  unfolding tls_config stream_of
  set_certificate node c inbound =
      if c.cert_mode == "none" || c.cert_mode == "" then inbound else record inbound {
        stream_setting = some (record (stream_of inbound) {
          security = "tls";
          tls_settings = some (tls_config node c);
        });
      }

  unfoldable pub set_tls : NodeInfo → InboundDetour x → Outcome (InboundDetour x)
  unfolding should_enable_inbound_tls set_certificate
  set_tls node inbound = elim node.common.cert_info [
    | none ↦ err "the CertInfo is not vail"
    | some c ↦ should_enable_inbound_tls node >>= λ enable.
        ok (if not enable then inbound else set_certificate node c inbound)
  ]

  unfoldable pub set_reality : NodeInfo → InboundDetour x → Outcome (InboundDetour x)
  unfolding reality_config stream_of or_fail
  set_reality node inbound =
      let t = node.common.tls_settings in
      let dest = if t.dest == "" then t.server_name else t.dest in
      or_fail (x.marshal_text (join dest (join ":" t.server_port))) "marshal reality dest error"
        (λ d. ok (record inbound {
          stream_setting = some (record (stream_of inbound) {
            security = "reality";
            reality_settings = some (reality_config t d);
          });
        }))

  unfoldable pub set_security : NodeInfo → InboundDetour x → Outcome (InboundDetour x)
  unfolding set_tls set_reality
  set_security node inbound =
      if node.security == tls_security
      then set_tls node inbound
      else if node.security == reality_security
      then set_reality node inbound
      else ok inbound

  -- buildInbound, without its last call
  unfoldable pub configure : Option (List ℕ) → NodeInfo → String → Outcome (InboundDetour x)
  unfolding build_protocol set_proxy_protocol set_listener set_security
  configure random node tag = build_protocol random node empty_inbound >>= λ built.
      set_proxy_protocol node.common built >>= λ proxied.
      set_security node (set_listener node.common proxied) >>= λ secured.
      ok (record secured { tag = tag })

  -- `build` is Xray's InboundDetourConfig.Build.
  unfoldable pub build_inbound {ℓ} :
      {Config : Type ℓ}
      → (InboundDetour x → Option Config)
      → Option (List ℕ)
      → NodeInfo
      → String
      → Outcome Config
  unfolding configure or_fail
  build_inbound build random node tag =
      configure random node tag >>= λ inbound. or_fail (build inbound) "build error" ok
