-- ===== src/Node/Certificates/Laws.antt =====
-- requestCert makes a certificate's files when one is missing, and never overwrites a pair.
use v2node_pro.Prelude.{
  String, Bool, true, false, ◌≡◌, refl, sym, ap, ◌∙◌, subst, ◌||◌, ◌⊎◌, inl, inr, none,
  if◌then◌else◌, Bool-cases,
}
use v2node_pro.Prelude.Eq.{◌==◌, string_eq, ==_iff}
use v2node_pro.Prelude.Flow.{ok}
use v2node_pro.Prelude.Stateful.{M, ◌>>◌, wrap, given, run-eq-ok, named_error-eq-ok, ended-eq-ok}
use v2node_pro.Panel.NodeInfo.{CertInfo}
use v2node_pro.Node.Certificates.{
  Os, Resource, Acme, check_path, parse_params, write_file, overlay_file, write_cert,
  generate_self_ssl_certificate,
}
use v2node_pro.Node.Certificates.Lego.{
  new_lego, create_cert, lacks_paths, has_pair, request_from_ca, request_self, unless_there,
  request_cert,
}

module _ (S : Type 0) (os : Os S) where
  -- No write and no new directory takes a file away, and a write that succeeds makes its file.
  pub record IsLawful : Type 0 where
    pub mkdir_keeps :
        (s : S) (p q : String) → os.is_exist s q ≡ true → os.is_exist (os.mkdir_all s p).0 q ≡ true
    pub write_keeps :
        (s : S) (p text q : String)
        → os.is_exist s q ≡ true
        → os.is_exist (os.write_file s p text).0 q ≡ true
    pub write_makes :
        (s : S) (p text : String)
        → (os.write_file s p text).1 ≡ none
        → os.is_exist (os.write_file s p text).0 p ≡ true
    pub overlay_keeps :
        (s : S) (p text q : String)
        → os.is_exist s q ≡ true
        → os.is_exist (os.overlay_file s p text).0 q ≡ true
    pub overlay_makes :
        (s : S) (p text : String)
        → (os.overlay_file s p text).1 ≡ none
        → os.is_exist (os.overlay_file s p text).0 p ≡ true

  check_path-keeps :
      (p q : String) (s : S) {s' : S} {u : Unit {0}}
      → IsLawful
      → check_path S os p s ≡ (s', ok u)
      → os.is_exist s q ≡ true
      → os.is_exist s' q ≡ true
  unfolding check_path
  check_path-keeps p q s {s'} law h there = elim (Bool-cases (os.is_exist s (os.dir p))) [
    | inl old ↦
        let same : s ≡ s' = ap (λ r. r.0) (rw old at h) in
        subst (λ t. os.is_exist t q ≡ true) same there
    | inr new ↦
        let made = ended-eq-ok (os.mkdir_all s (os.dir p)) (named_error-eq-ok _ _ (rw new at h)) in
        subst (λ t. os.is_exist t q ≡ true) made.0 (law.mkdir_keeps s (os.dir p) q there)
  ]

  write-exists :
      (path text : String) (s : S) {s' : S} {u : Unit {0}}
      → IsLawful
      → write_file S os path text s ≡ (s', ok u)
      → (os.is_exist s' path ≡ true)
        × ((q : String) → os.is_exist s q ≡ true → os.is_exist s' q ≡ true)
  write-exists path text s law h =
      let made = ended-eq-ok (os.write_file s path text) h in
      (
        subst (λ t. os.is_exist t path ≡ true) made.0 (law.write_makes s path text made.1),
        λ q there. subst (λ t. os.is_exist t q ≡ true) made.0 (law.write_keeps s path text q there),
      )

  overlay-exists :
      (path text : String) (s : S) {s' : S} {u : Unit {0}}
      → IsLawful
      → overlay_file S os path text s ≡ (s', ok u)
      → (os.is_exist s' path ≡ true)
        × ((q : String) → os.is_exist s q ≡ true → os.is_exist s' q ≡ true)
  overlay-exists path text s law h =
      let made = ended-eq-ok (os.overlay_file s path text) h in
      (
        subst (λ t. os.is_exist t path ≡ true) made.0 (law.overlay_makes s path text made.1),
        λ q there.
            subst (λ t. os.is_exist t q ≡ true) made.0 (law.overlay_keeps s path text q there),
      )

  -- A pair of files.
  pub BothExist : S → String → String → Type 0
  BothExist s p q = (os.is_exist s p ≡ true) × (os.is_exist s q ≡ true)

  write_cert-exists :
      (c : CertInfo) (r : Resource) (s : S) {s' : S} {u : Unit {0}}
      → IsLawful
      → write_cert S os c r s ≡ (s', ok u)
      → BothExist s' (parse_params c c.cert_file) (parse_params c c.key_file)
  unfolding write_cert BothExist
  write_cert-exists c r s law h =
      let key_step : M S (Unit {0}) = write_file S os (parse_params c c.key_file) r.private_key in
      let key_dir : M S (Unit {0}) = wrap "check path error: " (check_path S os c.key_file) in
      let cert_step : M S (Unit {0}) = write_file S os (parse_params c c.cert_file) r.certificate in
      let cert_dir : M S (Unit {0}) = wrap "check path error: " (check_path S os c.cert_file) in
      let (s₁, u₁, a₁, k₁) = run-eq-ok (λ _. cert_step >> (key_dir >> key_step)) (cert_dir s) h in
      let (s₂, u₂, a₂, k₂) = run-eq-ok (λ _. key_dir >> key_step) (cert_step s₁) k₁ in
      let (s₃, u₃, a₃, k₃) = run-eq-ok (λ _. key_step) (key_dir s₂) k₂ in
      let first = write-exists (parse_params c c.cert_file) r.certificate s₁ law a₂ in
      let last = write-exists (parse_params c c.key_file) r.private_key s₃ law k₃ in
      (
        last.1 (parse_params c c.cert_file) (
            check_path-keeps c.key_file (parse_params c c.cert_file) s₂ law
              (named_error-eq-ok "check path error: " (check_path S os c.key_file s₂) a₃) first.0),
        last.0,
      )

  self-exists :
      (acme : Acme) (domain cert_path key_path : String) (s : S) {s' : S} {u : Unit {0}}
      → IsLawful
      → generate_self_ssl_certificate S os acme domain cert_path key_path s ≡ (s', ok u)
      → BothExist s' cert_path key_path
  unfolding generate_self_ssl_certificate BothExist
  self-exists acme domain cert_path key_path s law h =
      let key_step : Resource → M S (Unit {0}) = λ r. overlay_file S os key_path r.private_key in
      let cert_step : Resource → M S (Unit {0}) = λ r. overlay_file S os cert_path r.certificate in
      let (s₁, r, a₁, k₁) =
        run-eq-ok (λ r. cert_step r >> key_step r) (given (acme.self_sign domain) s) h in
      let (s₂, u₂, a₂, k₂) = run-eq-ok (λ _. key_step r) (cert_step r s₁) k₁ in
      let first = overlay-exists cert_path r.certificate s₁ law a₂ in
      let last = overlay-exists key_path r.private_key s₂ law k₂ in
      (last.1 cert_path first.0, last.0)

  module _ (acme : Acme) where
    request_from_ca-exists :
        (c : CertInfo) (s : S) {s' : S} {u : Unit {0}}
        → IsLawful
        → request_from_ca S os acme c s ≡ (s', ok u)
        → BothExist s' (parse_params c c.cert_file) (parse_params c c.key_file)
    unfolding request_from_ca create_cert
    request_from_ca-exists c s law h =
        let create : M S (Unit {0}) = wrap "create lego cert error: " (create_cert S os acme c) in
        let (s₁, u₁, a₁, k₁) =
          run-eq-ok (λ _. create) (wrap "create lego object error: " (new_lego S os acme c) s) h in
        let created =
          named_error-eq-ok "create lego cert error: " (create_cert S os acme c s₁) k₁ in
        let write : Resource → M S (Unit {0}) =
          λ r. wrap "write certificate error: " (write_cert S os c r) in
        let (s₂, r, a₂, k₂) =
          run-eq-ok write (wrap "obtain certificate error: " (given (acme.obtain c.cert_domain)) s₁)
            created in
        write_cert-exists c r s₂ law
          (named_error-eq-ok "write certificate error: " (write_cert S os c r s₂) k₂)

    -- Where the files of a certificate are put: parseParams is applied for the ACME modes only.
    unfoldable pub stored_at : CertInfo → String → String
    stored_at c path = if c.cert_mode == "self" then path else parse_params c path

    -- The modes in which requestCert makes a certificate.
    abbrev pub makes_certificate : CertInfo → Bool
    makes_certificate c = c.cert_mode == "dns" || c.cert_mode == "http" || c.cert_mode == "self"

    unless-there-ok :
        (c : CertInfo) (make : M S (Unit {0})) (s : S) {s' : S} {u : Unit {0}}
        → unless_there S os acme c make s ≡ (s', ok u)
        → ((s' ≡ s) × (has_pair S os acme s c ≡ true)) ⊎ (make s ≡ (s', ok u))
    unless-there-ok c make s h = elim (Bool-cases (lacks_paths S os acme c)) [
      | inl lacks ↦ cc (rw lacks at h)
      | inr full ↦ elim (Bool-cases (has_pair S os acme s c)) [
        | inl there ↦ inl (ap (λ r. r.0) (sym (rw (full, there) at h)), there)
        | inr missing ↦ inr (rw (full, missing) at h)
      ]
    ]

    self-ok :
        (c : CertInfo) (s : S) {s' : S} {u : Unit {0}}
        → IsLawful
        → request_self S os acme c s ≡ (s', ok u)
        → BothExist s' c.cert_file c.key_file
    unfolding request_self
    self-ok c s law h = self-exists acme c.cert_domain c.cert_file c.key_file s law (
        named_error-eq-ok "generate self cert error: "
          (generate_self_ssl_certificate S os acme c.cert_domain c.cert_file c.key_file s) h)

    on_self :
        (c : CertInfo) (s : S)
        → c.cert_mode ≡ "self"
        → request_cert S os acme c s ≡ unless_there S os acme c (request_self S os acme c) s
    unfolding request_cert
    on_self c s e =
        rw
          (
            ap (λ m. m == "none") e,
            ap (λ m. m == "") e,
            ap (λ m. m == "file") e,
            ap (λ m. m == "dns") e,
            ap (λ m. m == "http") e,
            ap (λ m. m == "self") e,
          )
          refl

    on_ca :
        (c : CertInfo) (s : S) (mode : String)
        → c.cert_mode ≡ mode
        → (mode == "none" || mode == "") ≡ false
        → (mode == "file") ≡ false
        → (mode == "dns" || mode == "http") ≡ true
        → request_cert S os acme c s ≡ unless_there S os acme c (request_from_ca S os acme c) s
    unfolding request_cert
    on_ca c s mode e plain file ca =
        rw
          (
            ap (λ m. m == "none" || m == "") e ∙ plain,
            ap (λ m. m == "file") e ∙ file,
            ap (λ m. m == "dns" || m == "http") e ∙ ca,
          )
          refl

    from_ca :
        (c : CertInfo) (s : S)
        → (c.cert_mode == "dns" || c.cert_mode == "http" || false) ≡ true
        → request_cert S os acme c s ≡ unless_there S os acme c (request_from_ca S os acme c) s
    from_ca c s ca = elim (Bool-cases (c.cert_mode == "dns")) [
      | inl dns ↦ on_ca c s "dns" ((==_iff c.cert_mode "dns").0 dns) refl refl refl
      | inr other ↦ elim (Bool-cases (c.cert_mode == "http")) [
        | inl http ↦ on_ca c s "http" ((==_iff c.cert_mode "http").0 http) refl refl refl
        | inr neither ↦ cc (rw (other, neither) at ca)
      ]
    ]

    -- In the modes "dns", "http" and "self", on a lawful file system: if requestCert ends without an
    -- error, then either both files of the pair were there and nothing was changed, or both files
    -- are there now, where the mode puts them: at the given paths for "self", and for the other two
    -- at the paths with "{domain}" and "{email}" replaced.
    pub request_cert-exists :
        (c : CertInfo) (s s' : S)
        → IsLawful
        → makes_certificate c ≡ true
        → request_cert S os acme c s ≡ (s', ok tt)
        → ((s' ≡ s) × (has_pair S os acme s c ≡ true))
          ⊎ BothExist s' (stored_at c c.cert_file) (stored_at c c.key_file)
    unfolding stored_at
    request_cert-exists c s s' law makes h = elim (Bool-cases (c.cert_mode == "self")) [
      | inl self ↦
          rw self
            (elim (unless-there-ok c (request_self S os acme c) s
              (sym (on_self c s ((==_iff c.cert_mode "self").0 self)) ∙ h)) [
                | inl kept ↦ inl kept
                | inr made ↦ inr (self-ok c s law made)
              ])
      | inr ca ↦
          rw ca
            (elim (unless-there-ok c (request_from_ca S os acme c) s
              (sym (from_ca c s (rw ca at makes)) ∙ h)) [
                | inl kept ↦ inl kept
                | inr made ↦ inr (request_from_ca-exists c s law made)
              ])
    ]
