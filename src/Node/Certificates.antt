-- ===== src/Node/Certificates.antt =====
-- node/cert.go and node/lego.go: asking for a node's certificate and renewing it. The file system is
-- the interface `Os` over a state, and the ACME library lego, the keys and the encodings of
-- certificates and users are the parameter `Acme`. Environment variables are passed to the provider.
pub mod Lego
pub mod Laws
pub mod Kept
pub mod Account
pub mod Renewal
pub mod Tests
use Prim.Native.String.{◌++◌ as join}
use v2node_pro.Prelude.{
  ℕ, zero, suc, String, Bool, true, false, ◌&&◌, ◌||◌, not, ◌⊎◌, inl, inr, Option, none, some,
  if◌then◌else◌,
}
use v2node_pro.Prelude.Int.{ℤ}
use v2node_pro.Prelude.Eq.{◌==◌, string_eq}
use v2node_pro.Prelude.Dict.{Dict}
use v2node_pro.Prelude.Text.{strip_prefix}
use v2node_pro.Prelude.Flow.{Outcome, ok, err, panic, hang}
use v2node_pro.Prelude.Stateful.{M, run, ◌>>=◌, ◌>>◌, return, fail, named_error, wrap, ended, given}
use v2node_pro.Panel.NodeInfo.{CertInfo}

-- file.IsExist, path.Dir, os.MkdirAll, os.ReadFile, os.WriteFile, which truncates, and os.OpenFile
-- without O_TRUNC followed by a write, which overlays what the file held
pub record Os (S : Type 0) : Type 0 where
  pub is_exist : S → String → Bool
  pub dir : String → String
  pub mkdir_all : S → String → S × Option String
  pub read_file : S → String → String ⊎ String
  pub write_file : S → String → String → S × Option String
  pub overlay_file : S → String → String → S × Option String

-- a certificate and its key, in PEM
pub record Resource : Type 0 where
  pub certificate : String
  pub private_key : String

-- A user of the ACME server; the key is nil before it is made or read.
pub record User : Type 0 where
  pub email : String
  pub registration : Option String
  pub key : Option String

-- What the libraries do: keys are made; clients and providers are set up; users are registered,
-- encoded and decoded, where `none` is a key that is no PEM block; certificates are obtained,
-- renewed and parsed, for the time in nanoseconds until they expire; and a pair is signed by itself.
pub record Acme : Type 0 where
  pub generate_key : String ⊎ String
  pub new_client : User → Option String
  pub register : User → String ⊎ String
  pub encode_user : User → String ⊎ String
  pub decode_user : String → String ⊎ User × Option (String ⊎ String)
  pub http_provider : Option String
  pub dns_provider : String → Dict String String → String ⊎ String
  pub set_dns_provider : String → Option String
  pub obtain : String → String ⊎ Resource
  pub renew : (domain certificate : String) → String ⊎ Resource
  pub time_until_expiry : String → String ⊎ ℤ
  pub self_sign : String → String ⊎ Resource

-- strings.NewReplacer("{domain}", domain, "{email}", email).Replace, where the first `skip`
-- characters belong to a word that was replaced
unfoldable pub replace : (domain email : String) → ℕ → String → String
unfolding strip_prefix
replace domain email skip String.[] = ""
replace domain email (suc skip) (String.◌∷◌ c s) = replace domain email skip s
replace domain email zero (String.◌∷◌ c s) = elim (strip_prefix "{domain}" (String.◌∷◌ c s)) [
  | some rest ↦ join domain (replace domain email 7 s)
  | none ↦ elim (strip_prefix "{email}" (String.◌∷◌ c s)) [
    | some rest ↦ join email (replace domain email 6 s)
    | none ↦ String.◌∷◌ c (replace domain email 0 s)
  ]
]

-- parseParams
unfoldable pub parse_params : CertInfo → String → String
unfolding replace
parse_params c path = replace c.cert_domain c.email 0 path

module _ (S : Type 0) (os : Os S) where
  unfoldable pub check_path : String → M S (Unit {0})
  check_path p s =
      if os.is_exist s (os.dir p)
      then (s, ok tt)
      else named_error "create dir error: " (ended (os.mkdir_all s (os.dir p)))

  abbrev pub write_file : String → String → M S (Unit {0})
  write_file path text s = ended (os.write_file s path text)

  abbrev pub overlay_file : String → String → M S (Unit {0})
  overlay_file path text s = ended (os.overlay_file s path text)

  -- writeCert
  unfoldable pub write_cert : CertInfo → Resource → M S (Unit {0})
  unfolding check_path parse_params
  write_cert c r = do
    wrap "check path error: " (check_path c.cert_file)
    write_file (parse_params c c.cert_file) r.certificate
    wrap "check path error: " (check_path c.key_file)
    write_file (parse_params c c.key_file) r.private_key

  -- generateSelfSslCertificate
  unfoldable pub generate_self_ssl_certificate :
      Acme → (domain cert_path key_path : String) → M S (Unit {0})
  generate_self_ssl_certificate acme domain cert_path key_path = do
    r ← given (acme.self_sign domain)
    overlay_file cert_path r.certificate
    overlay_file key_path r.private_key
