-- ===== src/Node/Certificates/Tests.antt =====
-- Certificates on a file system in memory, whose calls all succeed.
use Prim.Native.String.{◌++◌ as join}
use v2node_pro.Prelude.{
  ◌*◌, String, true, false, ◌≡◌, refl, sym, ap, ◌∙◌, ◌⊎◌, inl, inr, Option, none, some, [], ◌∷◌,
  is_some, Bool-cases, ◌&&◌, if◌then◌else◌, arith,
}
use v2node_pro.Prelude.Int.{ℤ, pos, quot}
use v2node_pro.Prelude.Eq.{◌==◌, string_eq, ==_refl, ==_iff}
use v2node_pro.Prelude.Dict.{Dict, lookup, insert, lookup-insert}
use v2node_pro.Prelude.Flow.{Outcome, ok}
use v2node_pro.Panel.NodeInfo.{CertInfo}
use v2node_pro.Node.Certificates.{Os, User, Acme, check_path, Resource}
use v2node_pro.Node.Certificates.Lego.{
  request_cert, renew_cert, has_pair, day, new_lego_user, check_cert,
}
use v2node_pro.Node.Certificates.Account.{KeepsUsers, new_lego_user_again}
use v2node_pro.Node.Certificates.Laws.{IsLawful, BothExist, stored_at, request_cert-exists}
use v2node_pro.Node.Certificates.Renewal.{IsDue, renew_cert-IsDue}

abbrev pub Files : Type 0
Files = Dict String String

abbrev pub found : Option String → String ⊎ String
found (Option.none) = inl "no such file"
found (Option.some text) = inr text

abbrev pub memory : Os Files
memory = record {
  is_exist = λ s p. is_some (lookup p s);
  dir = λ p. "/d";
  mkdir_all = λ s p. (s, none);
  read_file = λ s p. found (lookup p s);
  write_file = λ s p text. (insert p text s, none);
  overlay_file = λ s p text. (insert p text s, none);
}

insert_keeps :
    (s : Files) (p text q : String)
    → is_some (lookup q s) ≡ true
    → is_some (lookup q (insert p text s)) ≡ true
insert_keeps s p text q there = ground (arith, lookup-insert p q text s)

insert_makes : (s : Files) (p text : String) → is_some (lookup p (insert p text s)) ≡ true
insert_makes s p text = ground (arith, lookup-insert p p text s, ==_refl p)

memory-IsLawful : IsLawful Files memory
memory-IsLawful = record {
  mkdir_keeps = λ s p q there. there;
  write_keeps = insert_keeps;
  write_makes = λ s p text h. insert_makes s p text;
  overlay_keeps = insert_keeps;
  overlay_makes = λ s p text h. insert_makes s p text;
}

-- A certificate "old" has ten days left, any other does not parse.
abbrev pub acme : Acme
acme = record {
  generate_key = inr "key";
  new_client = λ u. none;
  register = λ u. inr "registered";
  encode_user = λ u. inr u.email;
  decode_user = λ text. inr (record { email = text; registration = none; key = none }, none);
  http_provider = none;
  dns_provider = λ p env. inr p;
  set_dns_provider = λ p. none;
  obtain = λ d. inr (record { certificate = d; private_key = "k" });
  renew = λ d old. inr (record { certificate = join d old; private_key = "k" });
  time_until_expiry = λ text. if text == "old" then inr (pos (10 * day)) else inl "no PEM";
  self_sign = λ d. inr (record { certificate = d; private_key = "k" });
}

abbrev cert_of : (mode file : String) → CertInfo
cert_of mode file = record {
  cert_mode = mode;
  cert_file = file;
  key_file = "/d/key";
  email = "m";
  cert_domain = "a.b";
  dns_env = [];
  provider = "";
  reject_unknown_sni = false;
}

-- A path with "{domain}": the certificate is written elsewhere, so that it is requested each time.
path_with_domain :
    ((request_cert Files memory acme (cert_of "http" "/d/{domain}.cer") []).0
      ≡ ("/d/user/user-m.json", "m") ∷ ("/d/a.b.cer", "a.b") ∷ ("/d/key", "k") ∷ [])
    × (has_pair Files memory acme
          (request_cert Files memory acme (cert_of "http" "/d/{domain}.cer") []).0
          (cert_of "http" "/d/{domain}.cer")
        ≡ false)
unfolding request_cert insert lookup
path_with_domain = (refl, refl)

-- A saved user whose key is no PEM block.
user_without_key :
    new_lego_user Files memory acme "/u" "m" (("/u", "m") ∷ []) ≡ (("/u", "m") ∷ [], Outcome.panic)
unfolding new_lego_user lookup
user_without_key = refl

abbrev signed : Files
signed = ("/d/c", "a.b") ∷ ("/d/key", "k") ∷ []

self_signed : request_cert Files memory acme (cert_of "self" "/d/c") [] ≡ (signed, ok tt)
unfolding request_cert insert lookup
self_signed = refl

request_cert-exists_example :
    ((signed ≡ []) × (has_pair Files memory acme [] (cert_of "self" "/d/c") ≡ true))
    ⊎ BothExist Files memory signed
        (stored_at Files memory acme (cert_of "self" "/d/c") "/d/c")
        (stored_at Files memory acme (cert_of "self" "/d/c") "/d/key")
request_cert-exists_example =
    request_cert-exists Files memory acme (cert_of "self" "/d/c") [] signed memory-IsLawful refl
      self_signed

abbrev both : Files
both = ("/d/c", "old") ∷ ("/d/key", "k") ∷ []

both_are_there : has_pair Files memory acme both (cert_of "self" "/d/c") ≡ true
unfolding lookup
both_are_there = refl

renew_cert-IsDue_example :
    (((renew_cert Files memory acme (cert_of "http" "/d/c") both).0 ≡ both)
      ⊎ ((file : String) × (left : ℤ) × (r : Resource) × (memory.read_file both "/d/c" ≡ inr file)
          × (acme.time_until_expiry file ≡ inr left)
          × IsDue Files memory acme left
          × (acme.renew "a.b" file ≡ inr r)))
    × ((file e : String)
        → memory.read_file both "/d/c" ≡ inr file
        → acme.time_until_expiry file ≡ inl e
        → renew_cert Files memory acme (cert_of "http" "/d/c") both ≡ (both, ok tt))
renew_cert-IsDue_example = renew_cert-IsDue Files memory acme (cert_of "http" "/d/c") both

ten_days_left :
    (renew_cert Files memory acme (cert_of "http" "/d/c") both).0
    ≡ ("/d/c", "a.bold") ∷ ("/d/key", "k") ∷ []
unfolding renew_cert check_cert insert lookup quot
ten_days_left = refl

-- The file of the one user that the panel's email has, and nothing else, is encoded.
abbrev encoded : (email key registration : String) → String ⊎ String
encoded email key registration =
    if email == "m" && (key == "key" && registration == "registered") then inr "m" else inl "other"

abbrev encode_user : Option String → Option String → String → String ⊎ String
encode_user (Option.none) registration email = inl "no key"
encode_user (Option.some key) (Option.none) email = inl "not registered"
encode_user (Option.some key) (Option.some registration) email = encoded email key registration

abbrev one_user : Acme
one_user = record acme {
  encode_user = λ u. encode_user u.key u.registration u.email;
  decode_user = λ text.
      inr (record { email = text; registration = some "registered"; key = none }, some (inr "key"));
}

encoded-inv :
    (email key registration text : String)
    → encoded email key registration ≡ inr text
    → (email ≡ "m") × (key ≡ "key") × (registration ≡ "registered") × ("m" ≡ text)
encoded-inv email key registration text e =
    elim (Bool-cases (email == "m" && (key == "key" && registration == "registered"))) [
      | inl all ↦ (
        (==_iff email "m").0 (ground (arith, all)),
        (==_iff key "key").0 (ground (arith, all)),
        (==_iff registration "registered").0 (ground (arith, all)),
        cc (rw all at e),
      )
      | inr not_all ↦ cc (rw not_all at e)
    ]

one_user-decodes :
    (u : User) (key text : String)
    → u.key ≡ some key
    → encode_user u.key u.registration u.email ≡ inr text
    → one_user.decode_user text ≡ inr (record u { key = none }, some (inr key))
one_user-decodes u key text keyed e = fields u.email u.registration u.key keyed e
  where
    fields :
        (email : String) (registration own : Option String)
        → own ≡ some key
        → encode_user own registration email ≡ inr text
        → one_user.decode_user text
          ≡ inr (record { email = email; registration = registration; key = none }, some (inr key))
    fields email registration none keyed e = cc
    fields email none (some k) keyed e = cc
    fields email (some r) (some k) keyed e =
        let (is_m, is_key, is_registered, same) = encoded-inv email k r text e in
        let own : key ≡ "key" = cc in rw (sym same, is_m, is_registered, own) refl

insert_reads : (s : Files) (p text : String) → lookup p (insert p text s) ≡ some text
insert_reads s p text = lookup-insert p p text s ∙ rw (==_refl p) refl

memory-KeepsUsers : KeepsUsers Files memory one_user
memory-KeepsUsers = record {
  reads = λ s p text h. ap found (insert_reads s p text);
  decodes = one_user-decodes;
}

abbrev registered : User
registered = record { email = "m"; registration = some "registered"; key = some "key" }

registers : new_lego_user Files memory one_user "/u" "m" [] ≡ (("/u", "m") ∷ [], ok registered)
unfolding new_lego_user insert lookup check_path
registers = refl

abbrev unreachable : Acme
unreachable = record one_user {
  generate_key = inl "no entropy";
  new_client = λ u. some "no server";
  register = λ u. inl "rate limited";
}

new_lego_user_again_example :
    new_lego_user Files memory unreachable "/u" "m" (("/u", "m") ∷ [])
    ≡ (("/u", "m") ∷ [], ok registered)
new_lego_user_again_example =
    new_lego_user_again Files memory one_user "/u" "m" [] (("/u", "m") ∷ []) registered
      memory-IsLawful memory-KeepsUsers registers (inl "no entropy") (λ u. some "no server")
      (λ u. inl "rate limited")
