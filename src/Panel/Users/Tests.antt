-- ===== src/Panel/Users/Tests.antt =====
-- GetUserList on a decoder of concrete tokens, GetUserAlive on concrete answers.
use v2node_pro.Prelude.{
  ◌<◌, String, Bool, false, ◌≡◌, refl, ◌⊎◌, inl, inr, none, some, List, [], ◌∷◌, if◌then◌else◌,
  arith, length,
}
use v2node_pro.Prelude.Int.{pos}
use v2node_pro.Prelude.Eq.{◌==◌, string_eq}
use v2node_pro.Prelude.Flow.{ok, err}
use v2node_pro.Panel.{UserInfo}
use v2node_pro.Panel.Client.{Client}
use v2node_pro.Panel.Users.{
  Token, quoted, open_array, another, Decoder, UserResponse, get_user_list, get_user_alive,
}
use v2node_pro.Panel.Users.Laws.{MovesForward, Settles, get_user_list-Settles}
use v2node_pro.Panel.Users.Content.{Finds, Holds, get_user_list-Holds}

abbrev pub token_of : String → Token
token_of s = if s == "[" then open_array else if s == "{" then another else quoted s

abbrev pub user_of : String → UserInfo
user_of s = record { id = pos 1; uuid = s; speed_limit = pos 0; device_limit = pos 0 }

abbrev pub next : List String → String ⊎ String × List String
next [] = inl "EOF"
next (s ∷ j) = inr (s, j)

abbrev pub next_token : List String → String ⊎ Token × List String
next_token [] = inl "EOF"
next_token (s ∷ j) = inr (token_of s, j)

abbrev pub closes : List String → Bool
closes [] = false
closes (s ∷ j) = s == "]"

abbrev pub decoder : Decoder (List String)
decoder = record {
  decode_msgpack = λ j. inl "msgpack";
  read_token = next_token;
  is_close_next = closes;
  read_value = next;
  unmarshal_user = λ s. if s == "?" then inl "no user" else inr (user_of s);
  left = length;
}

next_token_moves :
    (j j' : List String) (t : Token) → next_token j ≡ inr (t, j') → length j' < length j
next_token_moves [] j' t h = cc
next_token_moves (s ∷ j) j' t h = ground arith

next_moves : (j j' : List String) (s : String) → next j ≡ inr (s, j') → length j' < length j
next_moves [] j' s h = cc
next_moves (s ∷ j) j' v h = ground arith

decoder-MovesForward : MovesForward (List String) decoder
decoder-MovesForward = record { token_moves = next_token_moves; value_moves = next_moves }

abbrev client : Client
client = record {
  api_host = "";
  token = "";
  node_id = pos 7;
  timeout = pos 0;
  node_etag = "";
  user_etag = "old";
  response_body_hash = "";
}

abbrev pub sent : List String → UserResponse (List String)
sent body = record { status = pos 200; etag = "new"; is_msgpack = false; body = body }

abbrev two : UserResponse (List String)
two = sent ("{" ∷ "users" ∷ "[" ∷ "a" ∷ "b" ∷ "]" ∷ [])

get_user_list-Settles_example :
    Settles
      (List String)
      decoder
      client
      (record { response = some two; error = none })
      (get_user_list (List String) decoder client (record { response = some two; error = none }))
get_user_list-Settles_example =
    get_user_list-Settles (List String) decoder client
      (record { response = some two; error = none }) decoder-MovesForward

get_user_list-Holds_example :
    get_user_list (List String) decoder client (record { response = some two; error = none })
    ≡ (record client { user_etag = "new" }, ok (user_of "a" ∷ user_of "b" ∷ []))
get_user_list-Holds_example =
    get_user_list-Holds (List String) decoder client two decoder-MovesForward refl refl
      (Finds.skip another refl refl (Finds.found (quoted "users") refl refl)) refl
      (Holds.user "a" (user_of "a") refl refl refl
        (Holds.user "b" (user_of "b") refl refl refl (Holds.closed refl)))

list_cut_off :
    get_user_list
      (List String)
      decoder
      client
      (record { response = some (sent ("users" ∷ "[" ∷ "a" ∷ [])); error = none })
    ≡ (client, err "decode user list error: read user object: EOF")
unfolding get_user_list
list_cut_off = refl

alive_answers :
    (get_user_alive (record {
      has_error = false;
      is_nil = false;
      status = pos 399;
      is_raw_nil = false;
      decoded = some none;
    })
      ≡ ok (some []))
    × (get_user_alive (record {
      has_error = false;
      is_nil = false;
      status = pos 200;
      is_raw_nil = false;
      decoded = some none;
    })
        ≡ ok none)
unfolding get_user_alive
alive_answers = (refl, refl)
