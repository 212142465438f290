-- ===== src/Panel/Users/Laws.antt =====
-- GetUserList: it ends on every response, reads the whole list, and keeps the ETag of a list that
-- it has read only.
use Prim.Native.String.{◌++◌ as join}
use v2node_pro.Prelude.{
  ℕ, zero, suc, ◌<◌, String, Bool, true, false, ◌≡◌, refl, ◌⊎◌, inl, inr, Option, none, some, List,
  [], ◌∷◌, ◌++◌, if◌then◌else◌, arith, Bool-cases,
}
use v2node_pro.Prelude.Int.{pos}
use v2node_pro.Prelude.Eq.{◌==◌, string_eq, int_eq}
use v2node_pro.Prelude.Flow.{Outcome, ok, err, panic, hang, ◌>>=◌}
use v2node_pro.Panel.{UserInfo}
use v2node_pro.Panel.Client.{Client}
use v2node_pro.Panel.Users.{
  Token, Decoder, UserResponse, UserAnswer, is_users, is_open, decode_error, skip_to_users,
  open_list, read_user, read_users, read_json, read_body, keep_etag, get_user_list,
}

module _ (J : Type 0) (d : Decoder J) where
  -- Every read that succeeds moves the decoder forward.
  pub record MovesForward : Type 0 where
    pub token_moves : (j j' : J) (t : Token) → d.read_token j ≡ inr (t, j') → d.left j' < d.left j
    pub value_moves :
        (j j' : J) (value : String) → d.read_value j ≡ inr (value, j') → d.left j' < d.left j

  -- What is left after a result, if it is one, stays under a bound; and there is a result or an error.
  EndsBelow : ℕ → Outcome J → Type 0
  EndsBelow n (ok j) = d.left j < n
  EndsBelow n (err e) = Unit
  EndsBelow n panic = ⊥
  EndsBelow n hang = ⊥

  IsEnded : {A : Type 0} → Outcome A → Type 0
  IsEnded (ok a) = Unit
  IsEnded (err e) = Unit
  IsEnded panic = ⊥
  IsEnded hang = ⊥

  weaken : (m n : ℕ) (o : Outcome J) → m < n → EndsBelow m o → EndsBelow n o
  unfolding EndsBelow
  weaken m n (ok j) less b = omega arith
  weaken m n (err e) less b = tt
  weaken m n panic less b = b
  weaken m n hang less b = b

  skip_step :
      (fuel : ℕ) (j : J)
      → MovesForward
      → ((j' : J) → d.left j' < fuel → EndsBelow (d.left j') (skip_to_users J d fuel j'))
      → d.left j < suc fuel
      → EndsBelow (d.left j) (skip_to_users J d (suc fuel) j)
  unfolding skip_to_users EndsBelow
  skip_step fuel j m rest h = read (d.read_token j) refl
    where
      found :
          (j' : J) (b : Bool)
          → d.left j' < d.left j
          → EndsBelow (d.left j) (elim b [ true ↦ ok j' | false ↦ skip_to_users J d fuel j' ])
      found j' true less = less
      found j' false less =
          weaken (d.left j') (d.left j) (skip_to_users J d fuel j') less (rest j' (omega arith))

      read :
          (r : String ⊎ Token × J)
          → d.read_token j ≡ r
          → EndsBelow (d.left j) (elim r [
            | inl e ↦ err (decode_error e)
            | inr (token, j') ↦ elim (is_users token) [
              | true ↦ ok j'
              | false ↦ skip_to_users J d fuel j'
            ]
          ])
      read (inl e) at = tt
      read (inr (t, j')) at = found j' (is_users t) (m.token_moves j j' t at)

  skip_to_users-EndsBelow :
      (fuel : ℕ) (j : J)
      → MovesForward
      → d.left j < fuel
      → EndsBelow (d.left j) (skip_to_users J d fuel j)
  skip_to_users-EndsBelow zero j m h = absurd (omega arith)
  skip_to_users-EndsBelow (suc fuel) j m h =
      skip_step fuel j m (λ j'. skip_to_users-EndsBelow fuel j' m) h

  open_list-IsEnded : (j : J) → IsEnded (open_list J d j)
  unfolding open_list IsEnded
  open_list-IsEnded j =
      elim (d.read_token j)
        as (λ r. IsEnded (elim r [
          | inl e ↦ err (decode_error e)
          | inr (token, j') ↦
              if is_open token then ok j' else err (decode_error "expected \"users\" array")
        ])) [
          | inl e ↦ tt
          | inr (t, j') ↦
              elim (is_open t)
                as (λ b.
                  IsEnded (if b then ok j' else err (decode_error "expected \"users\" array"))) [
                    | true ↦ tt
                    | false ↦ tt
                  ]
        ]

  -- A user that was read leaves less.
  UserEnds : ℕ → Outcome (UserInfo × J) → Type 0
  UserEnds n (ok r) = d.left r.1 < n
  UserEnds n (err e) = Unit
  UserEnds n panic = ⊥
  UserEnds n hang = ⊥

  read_user-UserEnds : (j : J) → MovesForward → UserEnds (d.left j) (read_user J d j)
  unfolding read_user UserEnds
  read_user-UserEnds j m = read (d.read_value j) refl
    where
      decoded :
          (j' : J) (u : String ⊎ UserInfo)
          → d.left j' < d.left j
          → UserEnds (d.left j) (elim u [
            | inl e ↦ err (decode_error (join "unmarshal user error: " e))
            | inr u ↦ ok (u, j')
          ])
      decoded j' (inl e) less = tt
      decoded j' (inr u) less = less

      read :
          (r : String ⊎ String × J)
          → d.read_value j ≡ r
          → UserEnds (d.left j) (elim r [
            | inl e ↦ err (decode_error (join "read user object: " e))
            | inr (value, j') ↦ elim (d.unmarshal_user value) [
              | inl e ↦ err (decode_error (join "unmarshal user error: " e))
              | inr u ↦ ok (u, j')
            ]
          ])
      read (inl e) at = tt
      read (inr (v, j')) at = decoded j' (d.unmarshal_user v) (m.value_moves j j' v at)

  users_step :
      (fuel : ℕ) (j : J) (users : List UserInfo) (b : Bool)
      → ((j' : J) (us : List UserInfo) → d.left j' < fuel → IsEnded (read_users J d fuel j' us))
      → (o : Outcome (UserInfo × J)) → UserEnds (d.left j) o
      → d.left j < suc fuel
      → IsEnded (elim b [
        | true ↦ ok users
        | false ↦ o >>= λ r. read_users J d fuel r.1 (users ++ (r.0 ∷ []))
      ])
  unfolding IsEnded UserEnds
  users_step fuel j users true rest o p h = tt
  users_step fuel j users false rest (ok r) p h = rest r.1 _ (omega arith)
  users_step fuel j users false rest (err e) p h = tt
  users_step fuel j users false rest panic p h = p
  users_step fuel j users false rest hang p h = p

  read_users-IsEnded :
      (fuel : ℕ) (j : J) (users : List UserInfo)
      → MovesForward
      → d.left j < fuel
      → IsEnded (read_users J d fuel j users)
  unfolding read_users
  read_users-IsEnded zero j users m h = absurd (omega arith)
  read_users-IsEnded (suc fuel) j users m h =
      users_step fuel j users (d.is_close_next j) (λ j' us. read_users-IsEnded fuel j' us m)
        (read_user J d j) (read_user-UserEnds j m) h

  then_ends :
      {A B : Type 0} (o : Outcome A) (next : A → Outcome B)
      → IsEnded o
      → ((a : A) → o ≡ ok a → IsEnded (next a))
      → IsEnded (o >>= next)
  unfolding IsEnded
  then_ends (ok a) next p q = q a refl
  then_ends (err e) next p q = tt
  then_ends panic next p q = p
  then_ends hang next p q = p

  below-IsEnded : (n : ℕ) (o : Outcome J) → EndsBelow n o → IsEnded o
  unfolding IsEnded EndsBelow
  below-IsEnded n (ok j) p = tt
  below-IsEnded n (err e) p = tt
  below-IsEnded n panic p = p
  below-IsEnded n hang p = p

  read_json-IsEnded : (j : J) → MovesForward → IsEnded (read_json J d j)
  unfolding read_json
  read_json-IsEnded j m =
      then_ends (skip_to_users J d (suc (d.left j)) j) _
        (below-IsEnded (d.left j) (skip_to_users J d (suc (d.left j)) j)
          (skip_to_users-EndsBelow (suc (d.left j)) j m (omega arith)))
        (λ inside _.
          then_ends (open_list J d inside) _ (open_list-IsEnded inside)
            (λ first _. read_users-IsEnded (suc (d.left first)) first [] m (omega arith)))

  read_body-IsEnded : (r : UserResponse J) → MovesForward → IsEnded (read_body J d r)
  unfolding read_body
  read_body-IsEnded r m =
      elim r.is_msgpack
        as (λ b. IsEnded (
          if b
          then elim (d.decode_msgpack r.body) [
            | inl e ↦ err (decode_error e)
            | inr users ↦ ok users
          ]
          else read_json J d r.body)) [
            | true ↦
                elim (d.decode_msgpack r.body)
                  as (λ l.
                    IsEnded (elim l [ inl e ↦ err (decode_error e) | inr users ↦ ok users ])) [
                      | inl e ↦ unfold IsEnded in tt
                      | inr users ↦ unfold IsEnded in tt
                    ]
            | false ↦ read_json-IsEnded r.body m
          ]

  -- How GetUserList may end: with an error and the client as it was; with no users and the client as
  -- it was, on a status 304; or with the users of the response and its ETag kept.
  pub Settles : Client → UserAnswer J → Client × Outcome (List UserInfo) → Type 0
  Settles c a (c', ok users) =
      ((c' ≡ c) × (users ≡ []))
      ⊎ ((r : UserResponse J) × (a.response ≡ some r)
          × (read_body J d r ≡ ok users)
          × (c' ≡ record c { user_etag = r.etag }))
  Settles c a (c', err e) = c' ≡ c
  Settles c a (c', panic) = ⊥
  Settles c a (c', hang) = ⊥

  kept-Settles :
      (c : Client) (a : UserAnswer J) (r : UserResponse J) (o : Outcome (List UserInfo))
      → a.response ≡ some r
      → read_body J d r ≡ o
      → IsEnded o
      → Settles c a (keep_etag J d c r.etag o)
  unfolding Settles keep_etag IsEnded
  kept-Settles c a r (ok users) got body p = inr (r, got, body, refl)
  kept-Settles c a r (err e) got body p = refl
  kept-Settles c a r panic got body p = p
  kept-Settles c a r hang got body p = p

  answer-Settles :
      (c : Client) (a : UserAnswer J) (response : Option (UserResponse J)) (error : Option String)
      → MovesForward
      → a.response ≡ response
      → Settles c a (get_user_list J d c (record { response = response; error = error }))
  unfolding get_user_list Settles
  answer-Settles c a none error m got = refl
  answer-Settles c a (some r) error m got = elim (Bool-cases (r.status == pos 304)) [
    | inl kept ↦ rw kept (inl (refl, refl))
    | inr fresh ↦ rw fresh (sent error)
  ]
    where
      sent :
          (error : Option String)
          → Settles c a
              (elim error [ some e ↦ (c, err e) | none ↦ keep_etag J d c r.etag (read_body J d r) ])
      sent (some e) = refl
      sent none = kept-Settles c a r (read_body J d r) got refl (read_body-IsEnded r m)

  -- Where each read moves the decoder forward, GetUserList ends on every answer, without a panic. An
  -- error leaves the client as it was, so that the same list is asked for again; a list that is
  -- returned is empty, with the client as it was, or is the one that was read to its end from the
  -- response, whose ETag is kept.
  pub get_user_list-Settles :
      (c : Client) (a : UserAnswer J) → MovesForward → Settles c a (get_user_list J d c a)
  get_user_list-Settles c a m = answer-Settles c a a.response a.error m refl
