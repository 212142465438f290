-- ===== src/Node/Fingerprints.antt =====
-- node/certificate_report.go, api/v2board/certificate.go and common/certificate/certificate.go: the
-- fingerprint of the certificate that a node serves, and its report to the panel. Reading a key pair,
-- parsing a certificate, the hashes and the HTTP request are parameters.
pub mod Laws
pub mod Tests
use Prim.Native.Char.{code}
use Prim.Native.String.{◌++◌ as join}
use v2node_pro.Prelude.{
  ℕ, suc, String, Bool, true, false, ◌&&◌, ◌||◌, not, ◌⊎◌, inl, inr, Option, none, some, List, [],
  ◌∷◌, ltb, nat_beq, if◌then◌else◌,
}
use v2node_pro.Prelude.Int.{ℤ, pos}
use v2node_pro.Prelude.Eq.{◌==◌, string_eq, int_eq}
use v2node_pro.Prelude.Text.{itoa}
use v2node_pro.Prelude.Flow.{Outcome, ok, err, panic, hang, ◌>>=◌}
use v2node_pro.Panel.NodeInfo.{NodeInfo, CommonNode, CertInfo, BaseConfig, tls_security}
use v2node_pro.Node.Monitor.{ReloadCh}

pub record Fingerprint : Type 0 where
  pub sha256 : String
  pub public_key_sha256 : String
  pub not_after : ℤ
  pub issuer : String

-- what x509 says of a leaf certificate
pub record Leaf : Type 0 where
  pub raw_subject_public_key_info : String
  pub not_after : ℤ
  pub issuer : String

-- tls.LoadX509KeyPair, for its leaf, x509.ParseCertificate, and the two encoded hashes
pub record X509 : Type 0 where
  pub load_key_pair : (cert_file key_file : String) → String ⊎ String
  pub parse_certificate : String → String ⊎ Leaf
  pub sha256_hex : String → String
  pub sha256_base64 : String → String

-- Read
unfoldable pub read : X509 → (cert_file key_file : String) → String ⊎ Fingerprint
read x cert_file key_file = elim (x.load_key_pair cert_file key_file) [
  | inl e ↦ inl e
  | inr raw ↦ elim (x.parse_certificate raw) [
    | inl e ↦ inl e
    | inr leaf ↦ inr (record {
      sha256 = x.sha256_hex raw;
      public_key_sha256 = x.sha256_base64 leaf.raw_subject_public_key_info;
      not_after = leaf.not_after;
      issuer = leaf.issuer;
    })
  ]
]

pub record CertificateReport : Type 0 where
  pub revision : String
  pub tls_enabled : Bool
  pub sha256 : String
  pub public_key_sha256 : String
  pub not_after : ℤ
  pub issuer : String

unfoldable pub certificate_reporting_enabled : NodeInfo → Bool
certificate_reporting_enabled node = elim node.common.base_config [
  | none ↦ false
  | some base ↦ base.certificate_report
]

-- The certificate that Xray serves from files: under TLS, with a mode other than "none" and "".
unfoldable pub served_certificate : NodeInfo → Option CertInfo
served_certificate node =
    if node.security == tls_security
    then elim node.common.cert_info [
      | none ↦ none
      | some cert ↦ if cert.cert_mode == "" || cert.cert_mode == "none" then none else some cert
    ]
    else none

-- captureCertificate: the new `loadedCertificate`
unfoldable pub capture_certificate : X509 → NodeInfo → Option Fingerprint → Option Fingerprint
unfolding certificate_reporting_enabled served_certificate read
capture_certificate x node loaded =
    if certificate_reporting_enabled node
    then elim (served_certificate node) [
      | none ↦ loaded
      | some cert ↦ elim (read x cert.cert_file cert.key_file) [ inl e ↦ none | inr f ↦ some f ]
    ]
    else loaded

-- the signal that does not block; a nil channel is passed over
unfoldable pub try_reload : Option ReloadCh → Option ReloadCh
try_reload (Option.none) = none
try_reload (Option.some ch) =
    some (if ltb ch.pending ch.capacity then record ch { pending = suc ch.pending } else ch)

unfoldable pub revision_of : NodeInfo → String
revision_of node = elim node.common.base_config [
  | none ↦ ""
  | some base ↦ base.certificate_revision
]

-- `c.loadedCertificate == nil || current.SHA256 != c.loadedCertificate.SHA256`
unfoldable pub is_outdated : Option Fingerprint → Fingerprint → Bool
is_outdated (Option.none) current = true
is_outdated (Option.some loaded) current = not (current.sha256 == loaded.sha256)

unfoldable pub report_of : String → Fingerprint → CertificateReport
report_of revision f = record {
  revision = revision;
  tls_enabled = true;
  sha256 = f.sha256;
  public_key_sha256 = f.public_key_sha256;
  not_after = f.not_after;
  issuer = f.issuer;
}

unfoldable pub plain_report : String → CertificateReport
plain_report revision = record {
  revision = revision;
  tls_enabled = false;
  sha256 = "";
  public_key_sha256 = "";
  not_after = pos 0;
  issuer = "";
}

-- the part with the files at hand
unfoldable pub report_current :
    NodeInfo
    → Option Fingerprint
    → Option ReloadCh
    → String ⊎ Fingerprint
    → Option ReloadCh × Option CertificateReport
unfolding is_outdated try_reload report_of revision_of
report_current node loaded ch (inl e) = (ch, none)
report_current node loaded ch (inr current) =
    if is_outdated loaded current
    then (try_reload ch, none)
    else (ch, some (report_of (revision_of node) current))

-- reportCertificateTask, which never fails: the channel, and the report that is sent, if one is
unfoldable pub report_certificate_task :
    X509
    → NodeInfo
    → Option Fingerprint
    → Option ReloadCh
    → Option ReloadCh × Option CertificateReport
unfolding certificate_reporting_enabled served_certificate report_current read plain_report
report_certificate_task x node loaded ch =
    if certificate_reporting_enabled node
    then elim (served_certificate node) [
      | none ↦ (ch, some (plain_report (revision_of node)))
      | some cert ↦ report_current node loaded ch (read x cert.cert_file cert.key_file)
    ]
    else (ch, none)

-- `strings.TrimRight(s, "/")`
unfoldable pub trim_right_slashes : String → String
trim_right_slashes String.[] = ""
trim_right_slashes (String.◌∷◌ c s) =
    let rest = trim_right_slashes s in
    if nat_beq (code c) b'/' && rest == "" then "" else String.◌∷◌ c rest

-- net/url, net/http and encoding/json as ReportCertificate uses them: whether the URL parses and the
-- request can be made; the response's status; and `data` of its first 4096 bytes, if they decode.
pub record Transport : Type 0 where
  pub encodes : CertificateReport → Bool
  pub parses : String → Bool
  pub makes_request : String → Bool
  pub response : CertificateReport → Option (ℤ × Option Bool)

-- ReportCertificate: nil, or an error
unfoldable pub report_certificate : Transport → String → CertificateReport → Option String
unfolding trim_right_slashes itoa
report_certificate t api_host report =
    let endpoint = join (trim_right_slashes api_host) "/api/v2/server/certificate" in
    if not (t.encodes report)
    then some "cannot encode certificate report"
    else if not (t.parses endpoint)
    then some "invalid certificate report endpoint"
    else if not (t.makes_request endpoint)
    then some "cannot create certificate report request"
    else elim (t.response report) [
      | none ↦ some "certificate report request failed"
      | some (status, body) ↦
          if not (status == pos 200)
          then some (join "certificate report HTTP " (itoa status))
          else elim body [
            | none ↦ some "certificate report was not accepted"
            | some accepted ↦ if accepted then none else some "certificate report was not accepted"
          ]
    ]
