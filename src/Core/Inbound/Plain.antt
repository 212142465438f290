-- ===== src/Core/Inbound/Plain.antt =====
-- core/inbound.go: what the builders of the protocols leave to buildInbound.
use v2node_pro.Prelude.{
  ℕ, String, ◌≡◌, subst, Bool, true, false, Option, List, if◌then◌else◌, arith,
}
use v2node_pro.Prelude.Eq.{string_eq}
use v2node_pro.Prelude.Flow.{Outcome, ok, err, ◌>>=◌, Gives, >>=-Gives}
use v2node_pro.Panel.NodeInfo.{NodeInfo, CommonNode}
use v2node_pro.Core.Inbound.Types.{Xray, StreamConfig, InboundDetour, empty_inbound}
use v2node_pro.Core.Inbound.Protocols.{
  or_fail, stream_on, set_transport, add_transport, set_trojan_transport, shadowsocks_stream,
  shadowsocks_network, build_vless, build_vmess, build_trojan, build_shadowsocks, build_hysteria2,
  build_tuic, build_any_tls,
}
use v2node_pro.Core.Inbound.Build.{build_protocol}

pub or_fail-Gives {ℓ κ μ} :
    {A : Type ℓ} {B : Type κ} {P : B → Type μ} (o : Option A) (message : String)
    (next : A → Outcome B)
    → ((a : A) → Gives P (next a))
    → Gives P (or_fail o message next)
unfolding or_fail
or_fail-Gives (Option.none) message next p = record { given = λ ended. cc }
or_fail-Gives (Option.some a) message next p = p a

if-Gives {ℓ κ} :
    {A : Type ℓ} {P : A → Type κ} (test : Bool) {taken : Outcome A} {other : Outcome A}
    → Gives P taken
    → Gives P other
    → Gives P (if test then taken else other)
if-Gives true p q = p
if-Gives false p q = q

ok-Gives {ℓ κ} : {A : Type ℓ} {P : A → Type κ} (a : A) → P a → Gives P (ok a)
ok-Gives {P} a p = record { given = λ ended. subst P (cc ended) p }

err-Gives {ℓ κ} : {A : Type ℓ} {P : A → Type κ} (message : String) → Gives P (err message)
err-Gives message = record { given = λ ended. cc }

any->>= {ℓ κ μ} :
    {A : Type ℓ} {B : Type κ} {Q : B → Type μ} (first : Outcome A) (next : A → Outcome B)
    → ((a : A) → Gives Q (next a))
    → Gives Q (first >>= next)
any->>= first next q = >>=-Gives (λ a. Unit {0}) (record { given = λ ended. tt }) (λ a u. q a)

module _ (x : Xray) where
  pub record IsPlain (s : StreamConfig x) : Type 0 where
    pub no_security : s.security ≡ ""
    pub no_tls : s.tls_settings ≡ Option.none
    pub no_reality : s.reality_settings ≡ Option.none
    pub no_socket : s.socket_settings ≡ Option.none

  abbrev pub IsPlainStream : Option (StreamConfig x) → Type 0
  IsPlainStream (Option.none) = Unit
  IsPlainStream (Option.some s) = IsPlain s

  -- A builder sets nothing that buildInbound decides.
  abbrev pub IsPlainInbound : InboundDetour x → Type 0
  IsPlainInbound inbound = IsPlainStream inbound.stream_setting

  plain->>= {ℓ κ} :
      {B : Type ℓ} {Q : B → Type κ} (first : Outcome (StreamConfig x))
      (next : StreamConfig x → Outcome B)
      → Gives IsPlain first
      → ((s : StreamConfig x) → IsPlain s → Gives Q (next s))
      → Gives Q (first >>= next)
  plain->>= first next = >>=-Gives IsPlain

  stream_on-IsPlain : (network : String) → IsPlain (stream_on x network)
  unfolding stream_on
  stream_on-IsPlain network = ground arith

  set_transport-Gives :
      (network raw : String) (s : StreamConfig x)
      → IsPlain s
      → Gives IsPlain (set_transport x network raw s)
  unfolding set_transport or_fail
  set_transport-Gives network raw s p = record { given = λ ended. ground arith }

  set_trojan_transport-Gives :
      (network raw : String) (s : StreamConfig x)
      → IsPlain s
      → Gives IsPlain (set_trojan_transport x network raw s)
  unfolding set_trojan_transport or_fail
  set_trojan_transport-Gives network raw s p = record { given = λ ended. ground arith }

  add_transport-Gives :
      (v : CommonNode) (inbound : InboundDetour x)
      → IsPlainInbound inbound
      → Gives IsPlainInbound (add_transport x v inbound)
  unfolding add_transport
  add_transport-Gives v inbound p =
      search (if-Gives, ok-Gives, plain->>=, set_transport-Gives, stream_on-IsPlain, p)

  build_vless-Gives : (node : NodeInfo) → Gives IsPlainInbound (build_vless x node empty_inbound)
  unfolding build_vless
  build_vless-Gives node = search (any->>=, or_fail-Gives, add_transport-Gives)

  build_vmess-Gives : (node : NodeInfo) → Gives IsPlainInbound (build_vmess x node empty_inbound)
  unfolding build_vmess
  build_vmess-Gives node = search (or_fail-Gives, add_transport-Gives)

  build_trojan-Gives : (node : NodeInfo) → Gives IsPlainInbound (build_trojan x node empty_inbound)
  unfolding build_trojan
  build_trojan-Gives node =
      search (
        or_fail-Gives, if-Gives, ok-Gives, plain->>=, set_trojan_transport-Gives, stream_on-IsPlain,
      )

  build_shadowsocks-Gives :
      (random : Option (List ℕ)) (node : NodeInfo)
      → Gives IsPlainInbound (build_shadowsocks x random node empty_inbound)
  unfolding build_shadowsocks shadowsocks_network shadowsocks_stream stream_on or_fail
  build_shadowsocks-Gives random node = record { given = λ ended. ground arith }

  build_hysteria2-Gives :
      (node : NodeInfo) → Gives IsPlainInbound (build_hysteria2 x node empty_inbound)
  unfolding build_hysteria2 stream_on or_fail
  build_hysteria2-Gives node = record { given = λ ended. ground arith }

  build_tuic-Gives : (node : NodeInfo) → Gives IsPlainInbound (build_tuic x node empty_inbound)
  unfolding build_tuic stream_on or_fail
  build_tuic-Gives node = record { given = λ ended. ground arith }

  build_any_tls-Gives :
      (node : NodeInfo) → Gives IsPlainInbound (build_any_tls x node empty_inbound)
  unfolding build_any_tls
  build_any_tls-Gives node =
      search (or_fail-Gives, if-Gives, ok-Gives, plain->>=, set_transport-Gives, stream_on-IsPlain)

  pub build_protocol-Gives :
      (random : Option (List ℕ)) (node : NodeInfo)
      → Gives IsPlainInbound (build_protocol x random node empty_inbound)
  unfolding build_protocol
  build_protocol-Gives random node =
      search
        (
          if-Gives, err-Gives, build_vless-Gives, build_vmess-Gives, build_trojan-Gives,
          build_shadowsocks-Gives, build_hysteria2-Gives, build_tuic-Gives, build_any_tls-Gives,
        )
        depth 12
