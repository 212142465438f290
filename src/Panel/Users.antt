-- ===== src/Panel/Users.antt =====
-- api/v2board/user.go: GetUserList and GetUserAlive. The requests, msgpack and encoding/json/jsontext
-- are parameters: a decoder is a state J that its reads move forward.
pub mod Laws
pub mod Content
pub mod Tests
use Prim.Native.String.{◌++◌ as join}
use v2node_pro.Prelude.{
  ℕ, zero, suc, ◌<◌, String, Bool, true, false, ◌≡◌, ◌⊎◌, inl, inr, Option, none, some, List, [],
  ◌∷◌, ◌++◌, leb, if◌then◌else◌,
}
use v2node_pro.Prelude.Int.{ℤ, pos, ltb_ℤ}
use v2node_pro.Prelude.Eq.{◌==◌, string_eq, int_eq}
use v2node_pro.Prelude.Dict.{Dict}
use v2node_pro.Prelude.Flow.{Outcome, ok, err, panic, hang, ◌>>=◌}
use v2node_pro.Panel.{UserInfo}
use v2node_pro.Panel.Client.{Client}

-- The tokens that GetUserList tells apart.
pub data Token : Type 0 where
  quoted : String → Token
  open_array : Token
  another : Token

-- What the libraries read: a whole list in msgpack; in JSON the next token, whether a ']' is next,
-- the next value, and a user of a value. `left` is the number of bytes that are left.
pub record Decoder (J : Type 0) : Type 0 where
  pub decode_msgpack : J → String ⊎ List UserInfo
  pub read_token : J → String ⊎ Token × J
  pub is_close_next : J → Bool
  pub read_value : J → String ⊎ String × J
  pub unmarshal_user : String → String ⊎ UserInfo
  pub left : J → ℕ

-- A response with its body not yet read.
pub record UserResponse (J : Type 0) : Type 0 where
  pub status : ℤ
  pub etag : String
  pub is_msgpack : Bool
  pub body : J

-- What Get returns; no response is a nil one or a nil RawResponse.
pub record UserAnswer (J : Type 0) : Type 0 where
  pub response : Option (UserResponse J)
  pub error : Option String

abbrev pub decode_error : String → String
decode_error e = join "decode user list error: " e

abbrev pub is_users : Token → Bool
is_users (quoted s) = s == "users"
is_users open_array = false
is_users another = false

abbrev pub is_open : Token → Bool
is_open (quoted s) = false
is_open open_array = true
is_open another = false

module _ (J : Type 0) (d : Decoder J) where
  -- the loop that looks for the text "users"
  unfoldable pub skip_to_users : ℕ → J → Outcome J
  skip_to_users zero j = hang
  skip_to_users (suc fuel) j = elim (d.read_token j) [
    | inl e ↦ err (decode_error e)
    | inr (token, j') ↦ elim (is_users token) [ true ↦ ok j' | false ↦ skip_to_users fuel j' ]
  ]

  unfoldable pub open_list : J → Outcome J
  open_list j = elim (d.read_token j) [
    | inl e ↦ err (decode_error e)
    | inr (token, j') ↦
        if is_open token then ok j' else err (decode_error "expected \"users\" array")
  ]

  -- one round of the second loop
  unfoldable pub read_user : J → Outcome (UserInfo × J)
  read_user j = elim (d.read_value j) [
    | inl e ↦ err (decode_error (join "read user object: " e))
    | inr (value, j') ↦ elim (d.unmarshal_user value) [
      | inl e ↦ err (decode_error (join "unmarshal user error: " e))
      | inr u ↦ ok (u, j')
    ]
  ]

  unfoldable pub read_users : ℕ → J → List UserInfo → Outcome (List UserInfo)
  unfolding read_user
  read_users zero j users = hang
  read_users (suc fuel) j users = elim (d.is_close_next j) [
    | true ↦ ok users
    | false ↦ read_user j >>= λ r. read_users fuel r.1 (users ++ (r.0 ∷ []))
  ]

  unfoldable pub read_json : J → Outcome (List UserInfo)
  unfolding skip_to_users open_list read_users
  read_json j = skip_to_users (suc (d.left j)) j >>= λ inside.
      open_list inside >>= λ first. read_users (suc (d.left first)) first []

  unfoldable pub read_body : UserResponse J → Outcome (List UserInfo)
  unfolding read_json
  read_body r =
      if r.is_msgpack
      then elim (d.decode_msgpack r.body) [ inl e ↦ err (decode_error e) | inr users ↦ ok users ]
      else read_json r.body

  -- The ETag is kept once the list is read.
  unfoldable pub keep_etag :
      Client → String → Outcome (List UserInfo) → Client × Outcome (List UserInfo)
  keep_etag c etag (ok users) = (record c { user_etag = etag }, ok users)
  keep_etag c etag (err e) = (c, err e)
  keep_etag c etag panic = (c, panic)
  keep_etag c etag hang = (c, hang)

  -- GetUserList; a nil list is an empty one
  unfoldable pub get_user_list : Client → UserAnswer J → Client × Outcome (List UserInfo)
  unfolding read_body keep_etag
  get_user_list c a = elim a.response [
    | none ↦ (c, err "received nil response or raw response")
    | some r ↦
        if r.status == pos 304
        then (c, ok [])
        else elim a.error [ some e ↦ (c, err e) | none ↦ keep_etag c r.etag (read_body r) ]
  ]

-- What Get returns to GetUserAlive: whether there is an error, a nil response, a nil RawResponse, and
-- the map that encoding/json reads, or none if it fails; the map is nil if the body has no "alive".
pub record AliveAnswer : Type 0 where
  pub has_error : Bool
  pub is_nil : Bool
  pub status : ℤ
  pub is_raw_nil : Bool
  pub decoded : Option (Option (Dict ℤ ℤ))

-- GetUserAlive: the map, which is nil only if the panel sends none, and never an error
unfoldable pub get_user_alive : AliveAnswer → Outcome (Option (Dict ℤ ℤ))
get_user_alive a =
    if a.has_error
    then ok (some [])
    else if a.is_nil
    then panic
    else if ltb_ℤ (pos 398) a.status
    then ok (some [])
    else if a.is_raw_nil
    then ok (some [])
    else elim a.decoded [ none ↦ ok (some []) | some alive ↦ ok alive ]
