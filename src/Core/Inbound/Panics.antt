-- ===== src/Core/Inbound/Panics.antt =====
-- core/inbound.go: the nodes on which building an inbound panics.
use v2node_pro.Prelude.{
  ℕ, String, ◌≡◌, refl, Bool, true, false, ◌&&◌, ◌||◌, not, Option, List, if◌then◌else◌, arith, ◌∙◌,
  Bool-cases, inl, inr,
}
use v2node_pro.Prelude.Int.{ltb_ℤ, pos}
use v2node_pro.Prelude.Eq.{◌==◌, ==_iff, string_eq, int_eq}
use v2node_pro.Prelude.Flow.{Outcome, ok, err, panic, hang, ◌>>=◌, is_panic}
use v2node_pro.Panel.NodeInfo.{NodeInfo, CommonNode}
use v2node_pro.Core.Inbound.Types.{Xray, StreamConfig, InboundDetour, empty_inbound}
use v2node_pro.Core.Inbound.Protocols.{
  or_fail, brutal_mask, obfs_mask, build_hysteria2, set_transport, set_trojan_transport,
  vless_decryption, build_vless, build_vmess, build_trojan, build_shadowsocks, build_tuic,
  build_any_tls, add_transport, shadowsocks_network,
}
use v2node_pro.Core.Inbound.Build.{
  build_protocol, set_proxy_protocol, set_tls, set_reality, set_security, should_enable_inbound_tls,
  configure,
}

-- An obfuscation with its password, where the server sets no rate of its own.
unfoldable is_unrated : CommonNode → Bool
is_unrated v =
    not (v.obfs == "" || v.obfs_password == "")
    && (v.ignore_client_bandwidth || not (ltb_ℤ (pos 0) v.up_mbps || ltb_ℤ (pos 0) v.down_mbps))

unfoldable pub is_unrated_obfs : NodeInfo → Bool
unfolding is_unrated
is_unrated_obfs node = node.type == "hysteria2" && is_unrated node.common

-- A call that ends without a panic.
record IsCalm {ℓ} {A : Type ℓ} (call : Outcome A) : Type 0 where
  calm : is_panic call ≡ false

ok-IsCalm {ℓ} : {A : Type ℓ} (a : A) → IsCalm (ok a)
ok-IsCalm a = record { calm = refl }

err-IsCalm {ℓ} : {A : Type ℓ} (message : String) → IsCalm {A = A} (err message)
err-IsCalm message = record { calm = refl }

if-IsCalm {ℓ} :
    {A : Type ℓ} (test : Bool) {taken : Outcome A} {other : Outcome A}
    → IsCalm taken
    → IsCalm other
    → IsCalm (if test then taken else other)
if-IsCalm true p q = p
if-IsCalm false p q = q

if_false-IsCalm {ℓ} :
    {A : Type ℓ} (taken : Outcome A) (other : Outcome A)
    → IsCalm other
    → IsCalm (if false then taken else other)
if_false-IsCalm taken other p = p

or_fail-IsCalm {ℓ κ} :
    {A : Type ℓ} {B : Type κ} (o : Option A) (message : String) (next : A → Outcome B)
    → ((a : A) → IsCalm (next a))
    → IsCalm (or_fail o message next)
unfolding or_fail
or_fail-IsCalm (Option.none) message next p = record { calm = refl }
or_fail-IsCalm (Option.some a) message next p = p a

>>=-IsCalm {ℓ κ} :
    {A : Type ℓ} {B : Type κ} (first : Outcome A) (next : A → Outcome B)
    → IsCalm first
    → ((a : A) → IsCalm (next a))
    → IsCalm (first >>= next)
>>=-IsCalm (ok value) next p q = q value
>>=-IsCalm (err message) next p q = record { calm = refl }
>>=-IsCalm panic next p q = ground arith
>>=-IsCalm hang next p q = record { calm = refl }

-- A chain whose later calls are calm panics with its first.
is_panic->>= {ℓ κ} :
    {A : Type ℓ} {B : Type κ} (first : Outcome A) (next : A → Outcome B)
    → ((a : A) → IsCalm (next a))
    → is_panic (first >>= next) ≡ is_panic first
is_panic->>= (ok value) next q = (q value).calm
is_panic->>= (err message) next q = refl
is_panic->>= panic next q = refl
is_panic->>= hang next q = refl

ruleset calm = (ok-IsCalm, err-IsCalm, if-IsCalm, or_fail-IsCalm, >>=-IsCalm)

vless_decryption-IsCalm : (v : CommonNode) → IsCalm (vless_decryption v)
unfolding vless_decryption
vless_decryption-IsCalm v = search calm

obfs_mask-panic : (v : CommonNode) → is_panic (obfs_mask v (brutal_mask v)) ≡ is_unrated v
unfolding obfs_mask brutal_mask is_unrated
obfs_mask-panic v = ground arith

calm_of {ℓ} : {A : Type ℓ} (call : Outcome A) → IsCalm call → is_panic call ≡ false
calm_of call p = p.calm

module _ (x : Xray) where
  set_transport-IsCalm :
      (network raw : String) (s : StreamConfig x) → IsCalm (set_transport x network raw s)
  unfolding set_transport
  set_transport-IsCalm network raw s = search calm depth 12

  set_trojan_transport-IsCalm :
      (network raw : String) (s : StreamConfig x) → IsCalm (set_trojan_transport x network raw s)
  unfolding set_trojan_transport
  set_trojan_transport-IsCalm network raw s = search calm depth 12

  build_vless-IsCalm : (node : NodeInfo) (b : InboundDetour x) → IsCalm (build_vless x node b)
  unfolding build_vless add_transport
  build_vless-IsCalm node b = search (calm, vless_decryption-IsCalm, set_transport-IsCalm) depth 12

  build_vmess-IsCalm : (node : NodeInfo) (b : InboundDetour x) → IsCalm (build_vmess x node b)
  unfolding build_vmess add_transport
  build_vmess-IsCalm node b = search (calm, set_transport-IsCalm) depth 12

  build_trojan-IsCalm : (node : NodeInfo) (b : InboundDetour x) → IsCalm (build_trojan x node b)
  unfolding build_trojan
  build_trojan-IsCalm node b = search (calm, set_trojan_transport-IsCalm) depth 12

  build_shadowsocks-IsCalm :
      (random : Option (List ℕ)) (node : NodeInfo) (b : InboundDetour x)
      → IsCalm (build_shadowsocks x random node b)
  unfolding build_shadowsocks shadowsocks_network
  build_shadowsocks-IsCalm random node b = search calm depth 12

  build_tuic-IsCalm : (node : NodeInfo) (b : InboundDetour x) → IsCalm (build_tuic x node b)
  unfolding build_tuic
  build_tuic-IsCalm node b = search calm depth 12

  build_any_tls-IsCalm : (node : NodeInfo) (b : InboundDetour x) → IsCalm (build_any_tls x node b)
  unfolding build_any_tls
  build_any_tls-IsCalm node b = search (calm, set_transport-IsCalm) depth 12

  build_hysteria2-panic :
      (node : NodeInfo) (b : InboundDetour x)
      → is_panic (build_hysteria2 x node b) ≡ is_unrated node.common
  unfolding build_hysteria2
  build_hysteria2-panic node b =
      is_panic->>= (obfs_mask node.common (brutal_mask node.common)) _
        (λ mask. search calm depth 12)
      ∙ obfs_mask-panic node.common

  build_protocol-panic :
      (random : Option (List ℕ)) (node : NodeInfo) (b : InboundDetour x)
      → is_panic (build_protocol x random node b) ≡ is_unrated_obfs node
  unfolding build_protocol is_unrated_obfs
  build_protocol-panic random node b = elim (Bool-cases (node.type == "hysteria2")) [
    | inl h ↦ rw ((==_iff node.type "hysteria2").0 h) (build_hysteria2-panic node b)
    | inr other ↦ rw other (
        search
          (
            calm, build_vless-IsCalm, build_vmess-IsCalm, build_trojan-IsCalm,
            build_shadowsocks-IsCalm, build_tuic-IsCalm, build_any_tls-IsCalm, if_false-IsCalm,
            calm_of,
          )
          depth 12)
  ]

  set_proxy_protocol-IsCalm :
      (v : CommonNode) (b : InboundDetour x) → IsCalm (set_proxy_protocol x v b)
  unfolding set_proxy_protocol
  set_proxy_protocol-IsCalm v b = search calm depth 12

  set_security-IsCalm : (node : NodeInfo) (b : InboundDetour x) → IsCalm (set_security x node b)
  unfolding set_security set_tls set_reality should_enable_inbound_tls or_fail
  set_security-IsCalm node b = record { calm = ground arith }

  -- buildInbound panics exactly on a hysteria2 node that has an obfuscation and its password, and
  -- that ignores the clients' bandwidth or has neither an upload nor a download rate above 0; what
  -- Xray's decoders answer plays no part. On every other node it returns.
  pub configure-panic :
      (random : Option (List ℕ)) (node : NodeInfo) (tag : String)
      → is_panic (configure x random node tag) ≡ is_unrated_obfs node
  unfolding configure
  configure-panic random node tag =
      is_panic->>= (build_protocol x random node empty_inbound) _
        (λ built. search (calm, set_proxy_protocol-IsCalm, set_security-IsCalm) depth 12)
      ∙ build_protocol-panic random node empty_inbound
