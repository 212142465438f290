-- ===== src/Node/Certificates/Lego.antt =====
-- node/lego.go and node/cert.go: the user of the ACME server, and the certificate's requests.
use Prim.Native.String.{◌++◌ as join}
use v2node_pro.Prelude.{
  ℕ, ◌*◌, String, Bool, true, false, ◌&&◌, ◌||◌, not, ◌⊎◌, inl, inr, Option, none, some,
  if◌then◌else◌,
}
use v2node_pro.Prelude.Int.{pos, ltb_ℤ, quot}
use v2node_pro.Prelude.Eq.{◌==◌, string_eq}
use v2node_pro.Prelude.Flow.{Outcome, ok, err, panic, hang}
use v2node_pro.Prelude.Stateful.{M, run, ◌>>=◌, ◌>>◌, return, wrap, ended, given}
use v2node_pro.Panel.NodeInfo.{CertInfo}
use v2node_pro.Node.Certificates.{
  Os, User, Acme, check_path, write_file, write_cert, generate_self_ssl_certificate,
}

-- lego.NewClient; the client is known by its user
abbrev client_of : {S : Type 0} → Acme → User → M S (Unit {0})
client_of acme user s = ended (s, acme.new_client user)

-- path.Join(dir, "user", name), for a clean dir
unfoldable pub user_file : (dir email : String) → String
user_file dir email =
    let name = join "user-" (join email ".json") in
    if dir == "/"
    then join "/user/" name
    else if dir == "."
    then join "user/" name
    else join dir (join "/user/" name)

-- an hour and a day in nanoseconds
abbrev pub hour : ℕ
hour = 3600000000000

abbrev pub day : ℕ
day = 24 * hour

-- CheckCert: whether the certificate is to be renewed, and the error
unfoldable pub check_cert : Acme → String → Bool × Option String
unfolding quot
check_cert acme file = elim (acme.time_until_expiry file) [
  | inl e ↦ (false, some e)
  | inr left ↦ (not (ltb_ℤ (pos 30) (quot left day)), none)
]

-- An error that is only logged.
unfoldable pub log_error : {S : Type 0} → S × Outcome (Unit {0}) → S × Outcome (Unit {0})
log_error (s, ok _) = (s, ok tt)
log_error (s, err e) = (s, ok tt)
log_error (s, panic) = (s, panic)
log_error (s, hang) = (s, hang)

module _ (S : Type 0) (os : Os S) (acme : Acme) where
  -- User.Save, which empties the file before it encodes; the key's encoding is part of the user's
  unfoldable pub save : User → String → M S (Unit {0})
  save user path = do
    wrap "check path error: " (check_path S os path)
    write_file S os path ""
    wrap "marshal json error: " (given (acme.encode_user user) >>= write_file S os path)

  -- `u.key, err = u.DecodePrivate(u.KeyEncoded)`
  unfoldable pub decode_private : User → Option (String ⊎ String) → M S User
  decode_private user none s = (s, panic)
  decode_private user (some (inl e)) s = (s, err (join "decode private key error: " e))
  decode_private user (some (inr key)) s = (s, ok (record user { key = some key }))

  -- User.Load
  unfoldable pub load : String → M S User
  unfolding decode_private
  load path s = elim (os.read_file s path) [
    | inl e ↦ (s, err (join "open file error: " e))
    | inr text ↦ elim (acme.decode_user text) [
      | inl e ↦ (s, err (join "unmarshal json error: " e))
      | inr (user, key) ↦ decode_private user key s
    ]
  ]

  unfoldable pub register_user : User → String → M S User
  unfolding save
  register_user user path = wrap "generate key error: " (given acme.generate_key) >>= λ key.
      wrap "create lego client error: " (client_of acme (record user { key = some key })) >>= λ _.
      given (acme.register (record user { key = some key })) >>= λ reg.
      wrap "save user error: " (save (record user { key = some key; registration = some reg }) path)
      >>= λ _. return (record user { key = some key; registration = some reg })

  -- NewLegoUser
  unfoldable pub new_lego_user : String → String → M S User
  unfolding load register_user
  new_lego_user path email s =
      if os.is_exist s path
      then run
          (λ user.
            if user.email == email
            then return user
            else register_user (record user { email = email; registration = none }) path)
          (load path s)
      else register_user (record { email = email; registration = none; key = none }) path s

  -- SetProvider
  unfoldable pub set_provider : CertInfo → M S (Unit {0})
  set_provider c s =
      if c.cert_mode == "http"
      then ended (s, acme.http_provider)
      else if c.cert_mode == "dns"
      then elim (acme.dns_provider c.provider c.dns_env) [
        | inl e ↦ (s, err (join "create dns challenge provider error: " e))
        | inr p ↦ wrap "set dns provider error: " (λ s. ended (s, acme.set_dns_provider p)) s
      ]
      else (s, ok tt)

  -- NewLego
  unfoldable pub new_lego : CertInfo → M S (Unit {0})
  unfolding new_lego_user user_file set_provider
  new_lego c =
      wrap "create user error: " (new_lego_user (user_file (os.dir c.cert_file) c.email) c.email)
      >>= λ user. client_of acme user >>= λ _. wrap "set provider error: " (set_provider c)

  -- CreateCert
  unfoldable pub create_cert : CertInfo → M S (Unit {0})
  unfolding write_cert
  create_cert c = wrap "obtain certificate error: " (given (acme.obtain c.cert_domain)) >>= λ r.
      wrap "write certificate error: " (write_cert S os c r)

  -- RenewCert after CheckCert
  unfoldable pub renew_checked : CertInfo → String → Bool × Option String → M S (Unit {0})
  unfolding write_cert
  renew_checked c file (false, e) s = (s, ok tt)
  renew_checked c file (true, some e) s = (s, err (join "check cert error: " e))
  renew_checked c file (true, none) s =
      run (λ r. wrap "write certificate error: " (write_cert S os c r))
        (given (acme.renew c.cert_domain file) s)

  -- RenewCert
  unfoldable pub renew_cert : CertInfo → M S (Unit {0})
  unfolding check_cert renew_checked
  renew_cert c s = elim (os.read_file s c.cert_file) [
    | inl e ↦ (s, err (join "read cert file error: " e))
    | inr file ↦ renew_checked c file (check_cert acme file) s
  ]

  -- renewCertTask
  unfoldable pub renew_cert_task : CertInfo → M S (Unit {0})
  unfolding new_lego renew_cert log_error
  renew_cert_task c s = log_error ((new_lego c >> renew_cert c) s)

  -- `cert.CertFile == "" || cert.KeyFile == ""`
  abbrev pub lacks_paths : CertInfo → Bool
  lacks_paths c = c.cert_file == "" || c.key_file == ""

  abbrev pub has_pair : S → CertInfo → Bool
  has_pair s c = os.is_exist s c.cert_file && os.is_exist s c.key_file

  -- the cases "dns" and "http"
  unfoldable pub request_from_ca : CertInfo → M S (Unit {0})
  unfolding new_lego create_cert
  request_from_ca c =
      wrap "create lego object error: " (new_lego c)
      >> wrap "create lego cert error: " (create_cert c)

  -- the case "self"
  unfoldable pub request_self : CertInfo → M S (Unit {0})
  unfolding generate_self_ssl_certificate
  request_self c =
      wrap "generate self cert error: "
        (generate_self_ssl_certificate S os acme c.cert_domain c.cert_file c.key_file)

  -- The cases that make a certificate only if a file of the pair is missing.
  abbrev pub unless_there : CertInfo → M S (Unit {0}) → M S (Unit {0})
  unless_there c make s =
      if lacks_paths c
      then (s, err "cert file path or key file path not exist")
      else if has_pair s c
      then (s, ok tt)
      else make s

  -- requestCert
  unfoldable pub request_cert : CertInfo → M S (Unit {0})
  unfolding request_from_ca request_self
  request_cert c s =
      if c.cert_mode == "none" || c.cert_mode == ""
      then (s, ok tt)
      else if c.cert_mode == "file"
      then (if lacks_paths c
          then (s, err "cert file path or key file path not exist")
          else (s, ok tt))
      else if c.cert_mode == "dns" || c.cert_mode == "http"
      then unless_there c (request_from_ca c) s
      else if c.cert_mode == "self"
      then unless_there c (request_self c) s
      else (s, err (join "unsupported certmode: " c.cert_mode))
