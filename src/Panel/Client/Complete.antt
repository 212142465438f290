-- ===== src/Panel/Client/Complete.antt =====
-- GetNodeInfo: what a configuration that it returns holds.
use Prim.Native.String.{◌++◌ as join}
use package.text.Mathlib.TextLemmas.{append-eq-nil_iff}
use v2node_pro.Prelude.{
  String, ◌≡◌, refl, ap, true, false, ◌||◌, inl, inr, Option, none, some, if◌then◌else◌, is_some,
  Bool-cases,
}
use v2node_pro.Prelude.Int.{ℤ, pos}
use v2node_pro.Prelude.Eq.{◌==◌, string_eq, int_eq, ==_ne}
use v2node_pro.Prelude.Flow.{
  ok, err, panic, ◌>>=◌, Gives, >>=-Gives, Gives-ok, if-Gives, panic-Gives, err-Gives,
}
use v2node_pro.Panel.NodeInfo.{text, CertInfo, BaseConfig, CommonNode, NodeInfo}
use v2node_pro.Panel.Client.{
  Codec, Client, Response, Answer, get_node_info, receive, decode, node_of, complete, build_node,
  interval_to_time, is_tls_protocol, default_file,
}
use v2node_pro.Panel.Client.Laws.{decode_other}

-- The node's certificate has a file for each of its two parts.
abbrev HasFiles : Option CertInfo → Type 0
HasFiles none = ⊥
HasFiles (some i) = ((i.cert_file == "") ≡ false) × ((i.key_file == "") ≡ false)

-- What GetNodeInfo makes of a configuration.
pub record IsCompleteFor (c : Client) (n : NodeInfo) : Type 0 where
  pub own_id : n.id ≡ c.node_id
  pub same_type : n.type ≡ n.common.protocol
  pub known_type : (is_tls_protocol n.type || n.type == "shadowsocks") ≡ true
  pub security_of : n.security ≡ (if is_tls_protocol n.common.protocol then n.common.tls else pos 0)
  pub has_files : HasFiles n.common.cert_info
  pub has_base : is_some n.common.base_config ≡ true

default_file-ne-nil :
    (p : String) (i : ℤ) (extension : String) → (default_file p i extension == "") ≡ false
default_file-ne-nil p i extension =
    ==_ne (default_file p i extension) ""
      (λ e. let parts = (append-eq-nil_iff {p = "/etc/v2node/"}).0 e in cc parts.0)

given_or_default :
    (given p : String) (i : ℤ) (extension : String)
    → ((if given == "" then default_file p i extension else given) == "") ≡ false
given_or_default given p i extension = elim (Bool-cases (given == "")) [
  | inl e ↦ rw e (default_file-ne-nil p i extension)
  | inr e ↦ rw e e
]

build_node-IsCompleteFor :
    (c : Client) (cm : CommonNode) (s push pull : ℤ) (base : BaseConfig)
    → (is_tls_protocol cm.protocol || cm.protocol == "shadowsocks") ≡ true
    → s ≡ (if is_tls_protocol cm.protocol then cm.tls else pos 0)
    → cm.base_config ≡ some base
    → IsCompleteFor c (build_node c cm s push pull)
unfolding build_node
build_node-IsCompleteFor c cm s push pull base known security based = record {
  own_id = refl;
  same_type = refl;
  known_type = known;
  security_of = security;
  has_files = (
    given_or_default cm.tls_settings.cert_file cm.protocol c.node_id ".cer",
    given_or_default cm.tls_settings.key_file cm.protocol c.node_id ".key",
  );
  has_base = ap is_some based;
}

complete-Gives :
    (x : Codec) (c : Client) (cm : CommonNode) (s : ℤ)
    → (is_tls_protocol cm.protocol || cm.protocol == "shadowsocks") ≡ true
    → s ≡ (if is_tls_protocol cm.protocol then cm.tls else pos 0)
    → Gives (IsCompleteFor c) (complete x c cm s)
unfolding complete
complete-Gives x c cm s known security = based cm.base_config refl
  where
    based :
        (b : Option BaseConfig)
        → cm.base_config ≡ b
        → Gives (IsCompleteFor c) (elim b [
          | none ↦ panic
          | some base ↦ interval_to_time x base.push_interval >>= λ push.
              interval_to_time x base.pull_interval >>= λ pull. ok (build_node c cm s push pull)
        ])
    based none e = panic-Gives (IsCompleteFor c)
    based (some base) e =
        >>=-Gives (λ _. Unit {0}) {first = interval_to_time x base.push_interval}
          (record { given = λ ended. tt })
          (λ push _.
            >>=-Gives (λ _. Unit {0}) {first = interval_to_time x base.pull_interval}
              (record { given = λ ended. tt })
              (λ pull _.
                Gives-ok (IsCompleteFor c) {a = build_node c cm s push pull}
                  (build_node-IsCompleteFor c cm s push pull base known security e)))

node_of-Gives :
    (x : Codec) (c : Client) (cm : CommonNode) → Gives (IsCompleteFor c) (node_of x c cm)
unfolding node_of
node_of-Gives x c cm =
    if-Gives (IsCompleteFor c) (is_tls_protocol cm.protocol)
      (λ tls. complete-Gives x c cm cm.tls (rw tls refl) (rw tls refl))
      (λ plain.
        if-Gives (IsCompleteFor c) (cm.protocol == "shadowsocks")
          (λ ss. complete-Gives x c cm (pos 0) (rw (plain, ss) refl) (rw plain refl))
          (λ unknown. err-Gives (IsCompleteFor c) _))

-- The node, if there is one.
abbrev IsCompleteIfSome : Client → Option NodeInfo → Type 0
IsCompleteIfSome c none = Unit
IsCompleteIfSome c (some n) = IsCompleteFor c n

decode-Gives :
    (x : Codec) (c : Client) (body : String) → Gives (IsCompleteIfSome c) (decode x c body)
unfolding decode
decode-Gives x c body =
    elim (x.decode_node body)
      as (λ d. Gives (IsCompleteIfSome c) (elim d [
        | inl e ↦ err (join "decode node params error: " e)
        | inr cm ↦ node_of x c cm >>= λ node. ok (some node)
      ])) [
        | inl e ↦ err-Gives (IsCompleteIfSome c) _
        | inr cm ↦
            >>=-Gives (IsCompleteFor c) (node_of-Gives x c cm)
              (λ node p. Gives-ok (IsCompleteIfSome c) p)
      ]

receive-Gives :
    (x : Codec) (c : Client) (r : Response) (e : Option String)
    → Gives (IsCompleteIfSome c) (receive x c r e).1
unfolding receive
receive-Gives x c r e = elim (Bool-cases (c.response_body_hash == x.hash r.body)) [
  | inl same ↦ rw same (Gives-ok (IsCompleteIfSome c) tt)
  | inr new ↦ rw new (fresh e)
]
  where
    fresh :
        (e : Option String)
        → Gives (IsCompleteIfSome c) (elim e [
          | some m ↦ err m
          | none ↦
              decode x (record c { response_body_hash = x.hash r.body; node_etag = r.etag }) r.body
        ])
    fresh (some m) = err-Gives (IsCompleteIfSome c) m
    fresh none = rw (decode_other x c (x.hash r.body) r.etag r.body) (decode-Gives x c r.body)

get_node_info-Gives :
    (x : Codec) (c : Client) (response : Option Response) (e : Option String)
    → Gives (IsCompleteIfSome c) (get_node_info x c (record { response = response; error = e })).1
unfolding get_node_info
get_node_info-Gives x c none e = panic-Gives (IsCompleteIfSome c)
get_node_info-Gives x c (some r) e = elim (Bool-cases (r.status == pos 304)) [
  | inl kept ↦ rw kept (Gives-ok (IsCompleteIfSome c) tt)
  | inr read ↦ rw read (receive-Gives x c r e)
]

-- A configuration that GetNodeInfo returns has the client's node ID and one of the seven
-- protocols, is secured as the panel says except for shadowsocks, which is plain, and has a base
-- configuration, so that its readers find no nil pointer, and a certificate with two file names.
pub get_node_info-IsCompleteFor :
    (x : Codec) (c : Client) (a : Answer) (n : NodeInfo)
    → (get_node_info x c a).1 ≡ ok (some n)
    → IsCompleteFor c n
get_node_info-IsCompleteFor x c a n ended = (get_node_info-Gives x c a.response a.error).given ended
