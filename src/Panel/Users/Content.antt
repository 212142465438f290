-- ===== src/Panel/Users/Content.antt =====
-- GetUserList returns the users of a JSON body: all of them, in their order.
use v2node_pro.Prelude.{
  ℕ, zero, suc, ◌<◌, String, true, false, ◌≡◌, refl, ap, ◌∙◌, inr, none, some, List, [], ◌∷◌, ◌++◌,
  arith, append_assoc, append_nil,
}
use v2node_pro.Prelude.Int.{pos}
use v2node_pro.Prelude.Eq.{◌==◌, int_eq}
use v2node_pro.Prelude.Flow.{ok}
use v2node_pro.Panel.{UserInfo}
use v2node_pro.Panel.Client.{Client}
use v2node_pro.Panel.Users.{
  Token, open_array, Decoder, UserResponse, is_users, skip_to_users, open_list, read_user,
  read_users, read_json, read_body, keep_etag, get_user_list,
}
use v2node_pro.Panel.Users.Laws.{MovesForward}

module _ (J : Type 0) (d : Decoder J) where
  -- From j on, the first text "users" ends at k.
  pub data Finds : J → J → Type 0 where
    found : {j k : J} (t : Token) → d.read_token j ≡ inr (t, k) → is_users t ≡ true → Finds j k
    skip :
        {j i k : J} (t : Token)
        → d.read_token j ≡ inr (t, i)
        → is_users t ≡ false
        → Finds i k
        → Finds j k

  -- From j on stand the values of these users, and then a ']'.
  pub data Holds : J → List UserInfo → Type 0 where
    closed : {j : J} → d.is_close_next j ≡ true → Holds j []
    user :
        {j k : J} {us : List UserInfo} (value : String) (u : UserInfo)
        → d.is_close_next j ≡ false
        → d.read_value j ≡ inr (value, k)
        → d.unmarshal_user value ≡ inr u
        → Holds k us
        → Holds j (u ∷ us)

  skip_to_users-Finds :
      (fuel : ℕ) {j k : J}
      → MovesForward J d
      → Finds j k
      → d.left j < fuel
      → skip_to_users J d fuel j ≡ ok k
  unfolding skip_to_users
  skip_to_users-Finds zero m f h = absurd (omega arith)
  skip_to_users-Finds (suc fuel) m (Finds.found t at users) h = rw (skip_to_users, at, users) refl
  skip_to_users-Finds (suc fuel) m (Finds.skip {j} {i} {k} t at differs f) h =
      let moved = m.token_moves j i t at in
      rw (skip_to_users, at, differs) (skip_to_users-Finds fuel m f (omega arith))

  read_users-Holds :
      (fuel : ℕ) {j : J} {us : List UserInfo} (before : List UserInfo)
      → MovesForward J d
      → Holds j us
      → d.left j < fuel
      → read_users J d fuel j before ≡ ok (before ++ us)
  unfolding read_users
  read_users-Holds zero before m p h = absurd (omega arith)
  read_users-Holds (suc fuel) before m (Holds.closed end) h = rw (read_users, end, append_nil) refl
  read_users-Holds (suc fuel) before m (Holds.user {j} {k} {us} value u more at decoded p) h =
      let moved = m.value_moves j k value at in
      rw (read_users, more, read_user, at, decoded)
        (read_users-Holds fuel (before ++ (u ∷ [])) m p (omega arith)
          ∙ ap ok (append_assoc before (u ∷ []) us))

  read_json-Holds :
      (j : J) {first list : J} {us : List UserInfo}
      → MovesForward J d
      → Finds j first
      → d.read_token first ≡ inr (open_array, list)
      → Holds list us
      → read_json J d j ≡ ok us
  unfolding read_json
  read_json-Holds j {first} {list} m f at p =
      rw (skip_to_users-Finds (suc (d.left j)) m f (omega arith), open_list, at)
        (read_users-Holds (suc (d.left list)) [] m p (omega arith))

  -- If the body of a JSON response has the text "users" as a token, behind it an array, and in that
  -- the values of some users up to its ']', then GetUserList returns those users, all and in their
  -- order, and keeps the ETag. Each read moves the decoder forward.
  pub get_user_list-Holds :
      (c : Client) (r : UserResponse J) {first list : J} {us : List UserInfo}
      → MovesForward J d
      → (r.status == pos 304) ≡ false
      → r.is_msgpack ≡ false
      → Finds r.body first
      → d.read_token first ≡ inr (open_array, list)
      → Holds list us
      → get_user_list J d c (record { response = some r; error = none })
        ≡ (record c { user_etag = r.etag }, ok us)
  unfolding get_user_list keep_etag
  get_user_list-Holds c r {first} {list} {us} m fresh json f at p =
      rw (fresh, ap (keep_etag J d c r.etag) body) refl
    where
      body : read_body J d r ≡ ok us
      body = rw (read_body, json) (read_json-Holds r.body m f at p)
