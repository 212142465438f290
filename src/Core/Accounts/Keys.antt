-- ===== src/Core/Accounts/Keys.antt =====
-- Every protocol registers the panel's users under the keys that the limiter and the counters use.
use v2node_pro.Prelude.{
  ℕ, zero, suc, ◌<◌, String, ◌≡◌, ◌≢◌, refl, ap, ◌∙◌, List, [], ◌∷◌, map, arith, length, none, ◌↔◌,
  ◌⊎◌, inl, inr,
}
use v2node_pro.Prelude.Eq.{==_iff, string_eq}
use v2node_pro.Prelude.Bytes.{bytes, slice_to}
use v2node_pro.Prelude.Flow.{Outcome, ok, err, panic, hang, >>=-eq-ok}
use v2node_pro.Panel.{UserInfo}
use v2node_pro.Format.{user_tag}
use v2node_pro.Core.Accounts.{
  User, AccountSettings, build_vmess_users, build_vless_users, build_trojan_users, build_ss_user,
  build_ss_users, build_hysteria2_users, build_tuic_users, build_any_tls_users, build_users,
  key_length,
}

abbrev pub keys_of : String → List UserInfo → List String
keys_of tag us = map (λ u. user_tag tag u.uuid) us

abbrev pub emails : List User → List String
emails = map (λ u. u.email)

module _ (tag : String) where
  emails-map :
      (f : UserInfo → User)
      → ((u : UserInfo) → (f u).email ≡ user_tag tag u.uuid)
      → (us : List UserInfo) → emails (map f us) ≡ keys_of tag us
  emails-map f h [] = refl
  emails-map f h (u ∷ us) = ground (arith, h u, emails-map f h us)

  email-build_ss_user :
      (u : UserInfo) (cypher server_key : String) (r : User)
      → build_ss_user tag u cypher server_key ≡ ok r
      → r.email ≡ user_tag tag u.uuid
  unfolding build_ss_user
  email-build_ss_user u cypher server_key r h = ground arith

  emails-build_ss_users :
      (us : List UserInfo) (cypher server_key : String) (rs : List User)
      → build_ss_users tag us cypher server_key ≡ ok rs
      → emails rs ≡ keys_of tag us
  unfolding build_ss_users
  emails-build_ss_users [] cypher server_key rs h = ground arith
  emails-build_ss_users (u ∷ us) cypher server_key rs h =
      let (r, e, g) = >>=-eq-ok (build_ss_user tag u cypher server_key) _ h in
      let (rest, e', g') = >>=-eq-ok (build_ss_users tag us cypher server_key) _ g in
      ground (
        arith,
        g',
        email-build_ss_user u cypher server_key r e,
        emails-build_ss_users us cypher server_key rest e',
      )

  emails-build_vmess_users :
      (us : List UserInfo) → emails (build_vmess_users tag us) ≡ keys_of tag us
  unfolding build_vmess_users
  emails-build_vmess_users = emails-map _ (λ u. refl)

  emails-build_vless_users :
      (us : List UserInfo) (flow : String) → emails (build_vless_users tag us flow) ≡ keys_of tag us
  unfolding build_vless_users
  emails-build_vless_users us flow = emails-map _ (λ u. refl) us

  emails-build_trojan_users :
      (us : List UserInfo) → emails (build_trojan_users tag us) ≡ keys_of tag us
  unfolding build_trojan_users
  emails-build_trojan_users = emails-map _ (λ u. refl)

  emails-build_hysteria2_users :
      (us : List UserInfo) → emails (build_hysteria2_users tag us) ≡ keys_of tag us
  unfolding build_hysteria2_users
  emails-build_hysteria2_users = emails-map _ (λ u. refl)

  emails-build_tuic_users : (us : List UserInfo) → emails (build_tuic_users tag us) ≡ keys_of tag us
  unfolding build_tuic_users
  emails-build_tuic_users = emails-map _ (λ u. refl)

  emails-build_any_tls_users :
      (us : List UserInfo) → emails (build_any_tls_users tag us) ≡ keys_of tag us
  unfolding build_any_tls_users
  emails-build_any_tls_users = emails-map _ (λ u. refl)

-- Whatever the protocol, the users that are built stand for the panel's users one for one, under
-- the keys of the node.
pub emails-build_users :
    (info : AccountSettings) (tag : String) (us : List UserInfo) (rs : List User)
    → build_users info tag us ≡ ok rs
    → emails rs ≡ keys_of tag us
unfolding build_users
emails-build_users info tag us rs h = ground (
  arith,
  h,
  emails-build_vmess_users tag us,
  emails-build_vless_users tag us info.flow,
  emails-build_trojan_users tag us,
  emails-build_ss_users tag us info.cipher info.server_key rs,
  emails-build_hysteria2_users tag us,
  emails-build_tuic_users tag us,
  emails-build_any_tls_users tag us,
)

-- A uuid is too short for the key of the cipher.
-- The uuid has fewer bytes than the key of a cipher of Shadowsocks 2022.
abbrev pub IsShort : String → UserInfo → Type 0
IsShort cypher u =
    ((cypher ≡ "2022-blake3-aes-128-gcm") × (length (bytes u.uuid) < 16))
    ⊎ ((cypher ≡ "2022-blake3-aes-256-gcm") × (length (bytes u.uuid) < 32))
    ⊎ ((cypher ≡ "2022-blake3-chacha20-poly1305") × (length (bytes u.uuid) < 32))

key_length-at : (cypher a : String) (n : ℕ) → key_length a ≡ n → cypher ≡ a → key_length cypher ≡ n
key_length-at cypher a n at same = ap key_length same ∙ at

IsShort-key_length :
    (cypher : String) (u : UserInfo)
    → (length (bytes u.uuid) < key_length cypher) ↔ IsShort cypher u
unfolding key_length
IsShort-key_length cypher u = (
  ground (
    arith,
    ==_iff cypher "2022-blake3-aes-128-gcm",
    ==_iff cypher "2022-blake3-aes-256-gcm",
    ==_iff cypher "2022-blake3-chacha20-poly1305",
  ),
  λ short. ground (
    arith,
    short,
    key_length-at cypher "2022-blake3-aes-128-gcm" 16 refl,
    key_length-at cypher "2022-blake3-aes-256-gcm" 32 refl,
    key_length-at cypher "2022-blake3-chacha20-poly1305" 32 refl,
  ),
)

slice_to-none : (n : ℕ) (bs : List ℕ) → (slice_to n bs ≡ none) ↔ (length bs < n)
unfolding slice_to
slice_to-none zero bs = ground arith
slice_to-none (suc n) [] = ground arith
slice_to-none (suc n) (b ∷ bs) = ground (arith, slice_to-none n bs)

-- Building a Shadowsocks user panics exactly if the node has a server key and the user's uuid has
-- fewer bytes than the cipher's key: 16 for "2022-blake3-aes-128-gcm", 32 for
-- "2022-blake3-aes-256-gcm" and "2022-blake3-chacha20-poly1305"; with any other cipher it never
-- does. Where it does not panic it returns a user.
pub build_ss_user-panic :
    (tag : String) (u : UserInfo) (cypher server_key : String)
    → ((build_ss_user tag u cypher server_key ≡ panic) ↔ ((server_key ≢ "") × IsShort cypher u))
      × ((build_ss_user tag u cypher server_key ≡ panic)
          ⊎ ((user : User) × (build_ss_user tag u cypher server_key ≡ ok user)))
unfolding build_ss_user
build_ss_user-panic tag u cypher server_key = (
  ground (
    arith,
    ==_iff server_key "",
    slice_to-none (key_length cypher) (bytes u.uuid),
    IsShort-key_length cypher u,
  ),
  returns (build_ss_user tag u cypher server_key) (λ e. ground arith) (ground arith),
)
  where
    returns :
        (o : Outcome User)
        → ((e : String) → o ≢ err e)
        → o ≢ hang
        → (o ≡ panic) ⊎ ((user : User) × (o ≡ ok user))
    returns (ok user) no_error no_hang = inr (user, refl)
    returns (err e) no_error no_hang = absurd (no_error e refl)
    returns panic no_error no_hang = inl refl
    returns hang no_error no_hang = absurd (no_hang refl)
