-- ===== src/Core/Inbound/Security.antt =====
-- core/inbound.go: which inbounds speak TLS or REALITY, and what a client meets.
use v2node_pro.Prelude.{
  ℕ, String, ◌≡◌, Bool, true, ◌&&◌, ◌||◌, not, Option, none, some, List, [], ◌∷◌, if◌then◌else◌,
  is_some, arith,
}
use v2node_pro.Prelude.Int.{wrap32}
use v2node_pro.Prelude.Eq.{◌==◌, string_eq, int_eq}
use v2node_pro.Prelude.Flow.{ok, Gives, >>=-Gives}
use v2node_pro.Panel.NodeInfo.{
  NodeInfo, CommonNode, tls_is_terminated_at_proxy, tls_security, reality_security,
}
use v2node_pro.Core.Inbound.Types.{Xray, InboundDetour, TlsConfig}
use v2node_pro.Core.Inbound.Protocols.{or_fail}
use v2node_pro.Core.Inbound.Build.{
  should_enable_inbound_tls, tls_config, stream_of, accept_proxy_protocol, set_proxy_protocol,
  set_listener, set_certificate, set_tls, set_reality, set_security, configure,
}
use v2node_pro.Core.Inbound.Plain.{IsPlainInbound, build_protocol-Gives}

-- The TLS that a node asks for.
unfoldable pub wanted_tls : NodeInfo → Option TlsConfig
wanted_tls node = elim node.common.cert_info [
  | none ↦ none
  | some c ↦
      if not (node.security == tls_security)
        || tls_is_terminated_at_proxy node.common.tls_settings
        || c.cert_mode == "none"
        || c.cert_mode == ""
      then none
      else some (record {
        cert_file = c.cert_file;
        key_file = c.key_file;
        ocsp_stapling = 3600;
        reject_unknown_sni = c.reject_unknown_sni;
        alpn = if node.type == "hysteria2" || node.type == "tuic" then some ("h3" ∷ []) else none;
      })
]

unfoldable pub wanted_security : NodeInfo → String
unfolding wanted_tls
wanted_security node =
    if node.security == reality_security
    then "reality"
    else if is_some (wanted_tls node)
    then "tls"
    else ""

-- TLS needs a certificate entry, and a proxy in front of the node needs websockets.
unfoldable pub is_servable : NodeInfo → Bool
is_servable node =
    not (node.security == tls_security)
    || (is_some node.common.cert_info
        && (not (tls_is_terminated_at_proxy node.common.tls_settings)
            || node.common.network == "ws"))

module _ (x : Xray) where
  -- The PROXY protocol that the network settings ask for.
  unfoldable pub wanted_socket : CommonNode → Option Bool
  wanted_socket v =
      if v.network_settings == "" then none else elim (x.proxy_protocol v.network_settings) [
        | none ↦ none
        | some accept ↦ if accept then some true else none
      ]

  record IsProxied (v : CommonNode) (inbound : InboundDetour x) : Type 0 where
    no_security : (stream_of x inbound).security ≡ ""
    no_tls : (stream_of x inbound).tls_settings ≡ Option.none
    socket : (stream_of x inbound).socket_settings ≡ wanted_socket v

  record IsSecured (node : NodeInfo) (inbound : InboundDetour x) : Type 0 where
    security : (stream_of x inbound).security ≡ wanted_security node
    tls : (stream_of x inbound).tls_settings ≡ wanted_tls node
    servable : is_servable node ≡ true
    socket : (stream_of x inbound).socket_settings ≡ wanted_socket node.common

  record IsListening (v : CommonNode) (inbound : InboundDetour x) : Type 0 where
    port : inbound.port_list ≡ (wrap32 v.server_port, wrap32 v.server_port) ∷ []
    address : inbound.listen_on ≡ some (x.parse_address v.listen_ip)
    sniffing :
        inbound.sniffing_config
        ≡ some (record { enabled = true; dest_override = "http" ∷ "tls" ∷ [] })

  set_proxy_protocol-Gives :
      (v : CommonNode) (inbound : InboundDetour x)
      → IsPlainInbound x inbound
      → Gives (IsProxied v) (set_proxy_protocol x v inbound)
  unfolding set_proxy_protocol accept_proxy_protocol or_fail stream_of wanted_socket
  set_proxy_protocol-Gives v inbound p = record { given = λ ended. ground arith }

  set_listener-IsProxied :
      (v : CommonNode) (inbound : InboundDetour x)
      → IsProxied v inbound
      → IsProxied v (set_listener x v inbound)
  unfolding set_listener stream_of
  set_listener-IsProxied v inbound p = ground arith

  set_security-Gives :
      (node : NodeInfo) (inbound : InboundDetour x)
      → IsProxied node.common inbound
      → Gives (IsSecured node) (set_security x node inbound)
  unfolding set_security set_tls set_reality set_certificate should_enable_inbound_tls stream_of
      or_fail wanted_tls wanted_security is_servable tls_config
  set_security-Gives node inbound p = record { given = λ ended. ground arith }

  set_security-IsListening :
      (node : NodeInfo) (v : CommonNode) (inbound : InboundDetour x)
      → IsListening v inbound
      → Gives (IsListening v) (set_security x node inbound)
  unfolding set_security set_tls set_reality set_certificate should_enable_inbound_tls or_fail
  set_security-IsListening node v inbound p = record { given = λ ended. ground arith }

  set_listener-IsListening :
      (v : CommonNode) (inbound : InboundDetour x) → IsListening v (set_listener x v inbound)
  unfolding set_listener
  set_listener-IsListening v inbound = ground arith

  tagged-IsSecured :
      (node : NodeInfo) (tag : String) (inbound : InboundDetour x)
      → IsSecured node inbound
      → Gives (IsSecured node) (ok (record inbound { tag = tag }))
  unfolding stream_of
  tagged-IsSecured node tag inbound p = record { given = λ ended. ground arith }

  configure-Gives :
      (random : Option (List ℕ)) (node : NodeInfo) (tag : String)
      → Gives (IsSecured node) (configure x random node tag)
  unfolding configure
  configure-Gives random node tag =
      >>=-Gives (IsPlainInbound x) (build_protocol-Gives x random node) (λ built p.
        >>=-Gives (IsProxied node.common) (set_proxy_protocol-Gives node.common built p)
          (λ proxied q.
            >>=-Gives (IsSecured node)
              (set_security-Gives node (set_listener x node.common proxied)
                (set_listener-IsProxied node.common proxied q))
              (λ secured r. tagged-IsSecured node tag secured r)))

  -- If buildInbound comes as far as Xray's Build, then the inbound speaks TLS exactly if the node
  -- asks for TLS, no proxy in front of it has ended the TLS and the mode of the certificate is
  -- neither "none" nor empty; it then has the node's certificate, and the protocol h3 for hysteria2
  -- and tuic alone. It speaks REALITY exactly if the node asks for that, and nothing else ever. A
  -- node that asks for TLS had a certificate entry, and one behind a proxy uses websockets.
  pub configure-security :
      (random : Option (List ℕ)) (node : NodeInfo) (tag : String) {inbound : InboundDetour x}
      → configure x random node tag ≡ ok inbound
      → ((stream_of x inbound).security ≡ wanted_security node)
        × ((stream_of x inbound).tls_settings ≡ wanted_tls node)
        × (is_servable node ≡ true)
  configure-security random node tag ended =
      let p = (configure-Gives random node tag).given ended in (p.security, p.tls, p.servable)

  -- If buildInbound comes as far as Xray's Build, then the inbound accepts the PROXY protocol
  -- exactly if the network settings ask for it, whatever the protocol, the transport and the
  -- security of the node: a later step never drops the setting.
  pub configure-proxy_protocol :
      (random : Option (List ℕ)) (node : NodeInfo) (tag : String) {inbound : InboundDetour x}
      → configure x random node tag ≡ ok inbound
      → (stream_of x inbound).socket_settings ≡ wanted_socket node.common
  configure-proxy_protocol random node tag ended =
      ((configure-Gives random node tag).given ended).socket
