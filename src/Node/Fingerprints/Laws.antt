-- ===== src/Node/Fingerprints/Laws.antt =====
-- What is reported of a certificate is what the node serves.
use v2node_pro.Prelude.{true, ◌≡◌, refl, ap, ◌∙◌, inr, Option, some}
use v2node_pro.Prelude.Eq.{string_eq, ==_refl}
use v2node_pro.Panel.NodeInfo.{NodeInfo, CertInfo}
use v2node_pro.Node.Monitor.{ReloadCh}
use v2node_pro.Node.Fingerprints.{
  Fingerprint, CertificateReport, X509, read, certificate_reporting_enabled, served_certificate,
  capture_certificate, revision_of, is_outdated, report_of, report_current, report_certificate_task,
}

-- A report of what was captured: the same certificate, and of this node's revision.
pub record Pins (node : NodeInfo) (loaded : Option Fingerprint) (r : CertificateReport)
    : Type 0 where
  pub captured : (f : Fingerprint) × (loaded ≡ some f) × (r.sha256 ≡ f.sha256)
  pub enabled : r.tls_enabled ≡ true
  pub revision : r.revision ≡ revision_of node

current_same :
    (node : NodeInfo) (f : Fingerprint) (ch : Option ReloadCh)
    → report_current node (some f) ch (inr f) ≡ (ch, some (report_of (revision_of node) f))
unfolding report_current is_outdated
current_same node f ch = rw (==_refl f.sha256) refl

captured :
    (x : X509) (node : NodeInfo) (cert : CertInfo) (f : Fingerprint) (loaded : Option Fingerprint)
    → certificate_reporting_enabled node ≡ true
    → served_certificate node ≡ some cert
    → read x cert.cert_file cert.key_file ≡ inr f
    → capture_certificate x node loaded ≡ some f
unfolding capture_certificate
captured x node cert f loaded enabled served now =
    rw (capture_certificate, enabled, served, now) refl

reported :
    (x : X509) (node : NodeInfo) (cert : CertInfo) (f : Fingerprint) (ch : Option ReloadCh)
    → certificate_reporting_enabled node ≡ true
    → served_certificate node ≡ some cert
    → read x cert.cert_file cert.key_file ≡ inr f
    → report_certificate_task x node (some f) ch ≡ (ch, some (report_of (revision_of node) f))
unfolding report_certificate_task
reported x node cert f ch enabled served now =
    rw (report_certificate_task, enabled, served, now) (current_same node f ch)

-- Right after a start that read the certificate, the task reports it as long as the files stay.
pub capture-report :
    (x : X509) (node : NodeInfo) (cert : CertInfo) (f : Fingerprint) (loaded : Option Fingerprint)
    (ch : Option ReloadCh)
    → certificate_reporting_enabled node ≡ true
    → served_certificate node ≡ some cert
    → read x cert.cert_file cert.key_file ≡ inr f
    → report_certificate_task x node (capture_certificate x node loaded) ch
      ≡ (ch, some (report_of (revision_of node) f))
capture-report x node cert f loaded ch enabled served now =
    ap (λ l. report_certificate_task x node l ch) (captured x node cert f loaded enabled served now)
    ∙ reported x node cert f ch enabled served now
