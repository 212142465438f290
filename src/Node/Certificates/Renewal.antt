-- ===== src/Node/Certificates/Renewal.antt =====
-- RenewCert writes when a certificate is due, never else.
use v2node_pro.Prelude.{
  String, Bool, true, false, ◌≡◌, refl, ap, ◌∙◌, not, ◌⊎◌, inl, inr, none, some,
}
use v2node_pro.Prelude.Int.{ℤ, pos, ltb_ℤ, quot}
use v2node_pro.Prelude.Eq.{string_eq}
use v2node_pro.Prelude.Flow.{ok}
use v2node_pro.Prelude.Stateful.{run, wrap, given}
use v2node_pro.Panel.NodeInfo.{CertInfo}
use v2node_pro.Node.Certificates.{Os, Resource, Acme, write_cert}
use v2node_pro.Node.Certificates.Lego.{day, check_cert, renew_cert, renew_checked}

module _ (S : Type 0) (os : Os S) (acme : Acme) where
  -- The certificate has at most 30 days left, in whole days.
  pub IsDue : ℤ → Type 0
  IsDue left = ltb_ℤ (pos 30) (quot left day) ≡ false

  checked-unparsed :
      (file e : String)
      → acme.time_until_expiry file ≡ inl e
      → check_cert acme file ≡ (false, some e)
  unfolding check_cert
  checked-unparsed file e bad = rw (check_cert, bad) refl

  -- A renewed certificate for a certificate that is due; else nothing is written.
  WritesIfDue : CertInfo → String → S → S → Type 0
  WritesIfDue c file s s' =
      (s' ≡ s)
      ⊎ ((left : ℤ) × (r : Resource) × (acme.time_until_expiry file ≡ inr left)
          × IsDue left
          × (acme.renew c.cert_domain file ≡ inr r))

  renewed :
      (c : CertInfo) (file : String) (s : S) (left : ℤ) (r : String ⊎ Resource)
      → acme.time_until_expiry file ≡ inr left
      → IsDue left
      → acme.renew c.cert_domain file ≡ r
      → WritesIfDue c file s
          (run (λ r. wrap "write certificate error: " (write_cert S os c r)) (given r s)).0
  unfolding WritesIfDue
  renewed c file s left (inl e) at due got = inl refl
  renewed c file s left (inr r) at due got = inr (left, r, at, due, got)

  timed :
      (c : CertInfo) (file : String) (s : S) (left : ℤ) (due : Bool)
      → acme.time_until_expiry file ≡ inr left
      → ltb_ℤ (pos 30) (quot left day) ≡ due
      → WritesIfDue c file s (renew_checked S os acme c file (not due, none) s).0
  unfolding WritesIfDue renew_checked IsDue
  timed c file s left true at late = inl refl
  timed c file s left false at late =
      renewed c file s left (acme.renew c.cert_domain file) at late refl

  checked :
      (c : CertInfo) (file : String) (s : S) (t : String ⊎ ℤ)
      → acme.time_until_expiry file ≡ t
      → WritesIfDue c file s (renew_checked S os acme c file (check_cert acme file) s).0
  unfolding check_cert
  checked c file s (inl e) at =
      rw (checked-unparsed file e at) (unfold WritesIfDue renew_checked in inl refl)
  checked c file s (inr left) at =
      rw (check_cert, at) (timed c file s left (ltb_ℤ (pos 30) (quot left day)) at refl)

  on_file :
      (c : CertInfo) (s : S) (file : String)
      → os.read_file s c.cert_file ≡ inr file
      → renew_cert S os acme c s ≡ renew_checked S os acme c file (check_cert acme file) s
  unfolding renew_cert
  on_file c s file at = rw (renew_cert, at) refl

  off_file :
      (c : CertInfo) (s : S) (e : String)
      → os.read_file s c.cert_file ≡ inl e
      → (renew_cert S os acme c s).0 ≡ s
  unfolding renew_cert
  off_file c s e at = rw (renew_cert, at) refl

  -- RenewCert writes only if the certificate file can be read and parsed, the certificate has at
  -- most 30 whole days left and a new one was obtained. A certificate that does not parse is not
  -- renewed, and that is no error either: CheckCert's error is never seen.
  pub renew_cert-IsDue :
      (c : CertInfo) (s : S)
      → (((renew_cert S os acme c s).0 ≡ s)
          ⊎ ((file : String) × (left : ℤ) × (r : Resource) × (os.read_file s c.cert_file ≡ inr file)
              × (acme.time_until_expiry file ≡ inr left)
              × IsDue left
              × (acme.renew c.cert_domain file ≡ inr r)))
        × ((file e : String)
            → os.read_file s c.cert_file ≡ inr file
            → acme.time_until_expiry file ≡ inl e
            → renew_cert S os acme c s ≡ (s, ok tt))
  unfolding WritesIfDue renew_checked
  renew_cert-IsDue c s = (
    files (os.read_file s c.cert_file) refl,
    λ file e at bad.
        on_file c s file at
        ∙ ap (λ t. renew_checked S os acme c file t s) (checked-unparsed file e bad)
        ∙ refl,
  )
    where
      files :
          (read : String ⊎ String)
          → os.read_file s c.cert_file ≡ read
          → ((renew_cert S os acme c s).0 ≡ s)
            ⊎ ((file : String) × (left : ℤ) × (r : Resource) × (os.read_file s c.cert_file
                  ≡ inr file)
                × (acme.time_until_expiry file ≡ inr left)
                × IsDue left
                × (acme.renew c.cert_domain file ≡ inr r))
      files (inl e) at = inl (off_file c s e at)
      files (inr file) at = elim (checked c file s (acme.time_until_expiry file) refl) [
        | inl kept ↦ inl (ap (λ r. r.0) (on_file c s file at) ∙ kept)
        | inr due ↦ inr (file, due.0, due.1, at, due.2, due.3, due.4)
      ]
