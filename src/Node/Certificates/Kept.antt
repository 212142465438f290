-- ===== src/Node/Certificates/Kept.antt =====
-- requestCert of node/cert.go while the pair of files is there.
use v2node_pro.Prelude.{true, ◌≡◌, refl, inl, inr, ◌||◌, Bool-cases}
use v2node_pro.Prelude.Eq.{◌==◌, string_eq}
use v2node_pro.Prelude.Stateful.{M}
use v2node_pro.Panel.NodeInfo.{CertInfo}
use v2node_pro.Node.Certificates.{Os, Acme}
use v2node_pro.Node.Certificates.Lego.{
  request_from_ca, request_self, lacks_paths, has_pair, unless_there, request_cert,
}

module _ (S : Type 0) (os : Os S) (acme : Acme) where
  kept-unless_there :
      (c : CertInfo) (make : M S (Unit {0})) (s : S)
      → has_pair S os acme s c ≡ true
      → (unless_there S os acme c make s).0 ≡ s
  kept-unless_there c make s there = elim (Bool-cases (lacks_paths S os acme c)) [
    | inl lacks ↦ rw lacks refl
    | inr full ↦ rw (full, there) refl
  ]

  -- While both files of the pair are there, requestCert changes nothing on the file system: it
  -- never overwrites a certificate, whatever the mode.
  pub request_cert_kept :
      (c : CertInfo) (s : S) → has_pair S os acme s c ≡ true → (request_cert S os acme c s).0 ≡ s
  unfolding request_cert
  request_cert_kept c s there = elim (Bool-cases (c.cert_mode == "none" || c.cert_mode == "")) [
    | inl plain ↦ rw plain refl
    | inr p ↦ elim (Bool-cases (c.cert_mode == "file")) [
      | inl file ↦ elim (Bool-cases (lacks_paths S os acme c)) [
        | inl lacks ↦ rw (p, file, lacks) refl
        | inr full ↦ rw (p, file, full) refl
      ]
      | inr f ↦ elim (Bool-cases (c.cert_mode == "dns" || c.cert_mode == "http")) [
        | inl ca ↦ rw (p, f, ca) (kept-unless_there c (request_from_ca S os acme c) s there)
        | inr n ↦ elim (Bool-cases (c.cert_mode == "self")) [
          | inl self ↦ rw (p, f, n, self) (kept-unless_there c (request_self S os acme c) s there)
          | inr other ↦ rw (p, f, n, other) refl
        ]
      ]
    ]
  ]
