-- ===== src/Node/Certificates/Account.antt =====
-- node/lego.go: the user of the ACME server as its file keeps it.
use Prim.Native.String.{◌++◌ as join}
use v2node_pro.Prelude.{
  String, true, ◌≡◌, refl, sym, ap, subst, ◌∙◌, ◌⊎◌, inl, inr, Option, none, some, Bool-cases,
  if◌then◌else◌,
}
use v2node_pro.Prelude.Eq.{◌==◌, string_eq, ==_refl}
use v2node_pro.Prelude.Flow.{Outcome, ok, err}
use v2node_pro.Prelude.Stateful.{
  M, ◌>>=◌, ◌>>◌, return, wrap, ended, given, run-eq-ok, named_error-eq-ok,
}
use v2node_pro.Node.Certificates.{Os, User, Acme, check_path, write_file}
use v2node_pro.Node.Certificates.Lego.{save, load, decode_private, register_user, new_lego_user}
use v2node_pro.Node.Certificates.Laws.{IsLawful}

module _ (S : Type 0) (os : Os S) (acme : Acme) where
  -- A file that was written is read back, and a user that was encoded is decoded, its key apart.
  pub record KeepsUsers : Type 0 where
    pub reads :
        (s : S) (p text : String)
        → (os.write_file s p text).1 ≡ none
        → os.read_file (os.write_file s p text).0 p ≡ inr text
    pub decodes :
        (u : User) (key text : String)
        → u.key ≡ some key
        → acme.encode_user u ≡ inr text
        → acme.decode_user text ≡ inr (record u { key = none }, some (inr key))

  ended-ok :
      (r : S × Option String) {s : S} {u : Unit {0}}
      → ended r ≡ (s, ok u)
      → (r.1 ≡ none) × (r.0 ≡ s)
  ended-ok (v, none) e = (refl, ap (λ (o : S × Outcome (Unit {0})). o.0) e)
  ended-ok (v, some m) e = cc

  given-ok :
      {A : Type 0} (g : String ⊎ A) {s s' : S} {a : A}
      → given g s ≡ (s', ok a)
      → (g ≡ inr a) × (s ≡ s')
  given-ok (inl m) e = cc
  given-ok (inr b) e = (cc, cc)

  -- What a file holds that a user was saved in.
  IsSaved : User → String → S → Type 0
  IsSaved u path s =
      (text : String) × (acme.encode_user u ≡ inr text)
      × (os.is_exist s path ≡ true)
      × (os.read_file s path ≡ inr text)

  written-IsSaved :
      (u : User) (path : String) (s s' : S) (v : Unit {0})
      → IsLawful S os
      → KeepsUsers
      → (given (acme.encode_user u) >>= write_file S os path) s ≡ (s', ok v)
      → IsSaved u path s'
  unfolding IsSaved
  written-IsSaved u path s s' v law keeps e =
      let (s₁, text, a₁, k₁) = run-eq-ok (write_file S os path) (given (acme.encode_user u) s) e in
      let (encoded, same) = given-ok (acme.encode_user u) a₁ in
      let (fine, at) = ended-ok (os.write_file s₁ path text) k₁ in
      (
        text,
        encoded,
        ap (λ t. os.is_exist t path) (sym at) ∙ law.write_makes s₁ path text fine,
        ap (λ t. os.read_file t path) (sym at) ∙ keeps.reads s₁ path text fine,
      )

  save-IsSaved :
      (u : User) (path : String) (s s' : S) (v : Unit {0})
      → IsLawful S os
      → KeepsUsers
      → save S os acme u path s ≡ (s', ok v)
      → IsSaved u path s'
  unfolding save
  save-IsSaved u path s s' v law keeps e =
      let encode : M S (Unit {0}) =
        wrap "marshal json error: " (given (acme.encode_user u) >>= write_file S os path) in
      let (s₁, u₁, a₁, k₁) =
        run-eq-ok (λ _. write_file S os path "" >> encode)
          (wrap "check path error: " (check_path S os path) s) e in
      let (s₂, u₂, a₂, k₂) = run-eq-ok (λ _. encode) (write_file S os path "" s₁) k₁ in
      written-IsSaved u path s₂ s' v law keeps (
        named_error-eq-ok "marshal json error: "
          ((given (acme.encode_user u) >>= write_file S os path) s₂) k₂)

  saved-load :
      (u : User) (key path : String) (s : S)
      → KeepsUsers
      → u.key ≡ some key
      → IsSaved u path s
      → load S os acme path s ≡ (s, ok u)
  unfolding load decode_private IsSaved
  saved-load u key path s keeps keyed (text, encoded, there, read) =
      rw (load, read, keeps.decodes u key text keyed encoded)
        (ap (λ (k : Option String). (s, Outcome.ok (record u { key = k }))) (sym keyed))

  -- A user that registerUser returns has the email, is in the file and is loaded from it.
  register_user-load :
      (user u : User) (path : String) (s s' : S)
      → IsLawful S os
      → KeepsUsers
      → register_user S os acme user path s ≡ (s', ok u)
      → (u.email ≡ user.email)
        × (os.is_exist s' path ≡ true)
        × (load S os acme path s' ≡ (s', ok u))
  unfolding register_user IsSaved
  register_user-load user u path s s' law keeps e =
      let keyed : String → User = λ key. record user { key = some key } in
      let made : String → String → User =
        λ key reg. record user { key = some key; registration = some reg } in
      let ending : String → String → M S User = λ key reg.
        wrap "save user error: " (save S os acme (made key reg) path) >>= λ _.
        return (made key reg) in
      let register : String → M S User = λ key. given (acme.register (keyed key)) >>= ending key in
      let enter : String → M S User = λ key.
        wrap "create lego client error: " (λ s. ended (s, acme.new_client (keyed key))) >>= λ _.
        register key in
      let (s₁, key, a₁, k₁) =
        run-eq-ok enter (wrap "generate key error: " (given acme.generate_key) s) e in
      let (s₂, u₂, a₂, k₂) =
        run-eq-ok (λ _. register key)
          (wrap "create lego client error: " (λ s. ended (s, acme.new_client (keyed key))) s₁) k₁ in
      let (s₃, reg, a₃, k₃) = run-eq-ok (ending key) (given (acme.register (keyed key)) s₂) k₂ in
      let (s₄, u₄, a₄, k₄) =
        run-eq-ok (λ _. return (made key reg))
          (wrap "save user error: " (save S os acme (made key reg) path) s₃) k₃ in
      let saved : IsSaved (made key reg) path s₄ =
        save-IsSaved (made key reg) path s₃ s₄ u₄ law keeps
          (named_error-eq-ok "save user error: " (save S os acme (made key reg) path s₃) a₄) in
      returned (made key reg) key s₄ refl refl saved k₄
    where
      returned :
          (v : User) (key : String) (t : S)
          → v.key ≡ some key
          → v.email ≡ user.email
          → IsSaved v path t
          → ◌≡◌ {A = S × Outcome User} (t, ok v) (s', ok u)
          → (u.email ≡ user.email)
            × (os.is_exist s' path ≡ true)
            × (load S os acme path s' ≡ (s', ok u))
      returned v key t keyed same saved k =
          let state : t ≡ s' = ap (λ (o : S × Outcome User). o.0) k in
          let user_same : v ≡ u = cc k in
          let there : os.is_exist t path ≡ true = saved.2 in
          let read : load S os acme path t ≡ (t, ok v) =
            saved-load v key path t keeps keyed saved in
          (
            ap (λ (w : User). w.email) (sym user_same) ∙ same,
            ap (λ t. os.is_exist t path) (sym state) ∙ there,
            ap (load S os acme path) (sym state) ∙ read ∙ k,
          )

  read_user-same :
      (s t : S) (v : User) (d : String ⊎ User × Option (String ⊎ String))
      → (elim d as (λ d. S × Outcome User) [
        | inl e ↦ (s, err (join "unmarshal json error: " e))
        | inr (user, key) ↦ decode_private S os acme user key s
      ])
        ≡ (t, ok v)
      → s ≡ t
  unfolding decode_private
  read_user-same s t v (inl m) e = cc
  read_user-same s t v (inr (user, none)) e = cc
  read_user-same s t v (inr (user, some (inl m))) e = cc
  read_user-same s t v (inr (user, some (inr key))) e = ap (λ (o : S × Outcome User). o.0) e

  load-same : (path : String) (s t : S) (v : User) → load S os acme path s ≡ (t, ok v) → s ≡ t
  unfolding load
  load-same path s t v e = held (os.read_file s path) e
    where
      held :
          (f : String ⊎ String)
          → (elim f as (λ f. S × Outcome User) [
            | inl e ↦ (s, err (join "open file error: " e))
            | inr text ↦ elim (acme.decode_user text) as (λ d. S × Outcome User) [
              | inl e ↦ (s, err (join "unmarshal json error: " e))
              | inr (user, key) ↦ decode_private S os acme user key s
            ]
          ])
            ≡ (t, ok v)
          → s ≡ t
      held (inl m) e = cc
      held (inr text) e = read_user-same s t v (acme.decode_user text) e

  -- The same library with another generator of keys and another ACME server.
  abbrev pub elsewhere : String ⊎ String → (User → Option String) → (User → String ⊎ String) → Acme
  elsewhere g client register = record acme {
    generate_key = g;
    new_client = client;
    register = register;
  }

  load-elsewhere :
      (g : String ⊎ String) (client : User → Option String) (register : User → String ⊎ String)
      (path : String) (s : S)
      → load S os (elsewhere g client register) path s ≡ load S os acme path s
  unfolding load
  load-elsewhere g client register path s = refl

  registered_again :
      (g : String ⊎ String) (client : User → Option String) (register : User → String ⊎ String)
      (user u : User) (path : String) (s s' : S)
      → IsLawful S os
      → KeepsUsers
      → register_user S os acme user path s ≡ (s', ok u)
      → new_lego_user S os (elsewhere g client register) path user.email s' ≡ (s', ok u)
  unfolding new_lego_user
  registered_again g client register user u path s s' law keeps e =
      let (same, there, loaded) = register_user-load user u path s s' law keeps e in
      rw (there, load-elsewhere g client register path s', loaded, same, ==_refl user.email) refl

  -- Where the file system keeps what is written and the encoding of users can be undone: after
  -- NewLegoUser has returned a user, be it loaded or registered, it returns that user again for the
  -- same file and email, and leaves the file system as it is, whatever key would be generated then
  -- and whatever the ACME server would answer: neither is asked a second time.
  pub new_lego_user_again :
      (path email : String) (s s' : S) (u : User)
      → IsLawful S os
      → KeepsUsers
      → new_lego_user S os acme path email s ≡ (s', ok u)
      → (g : String ⊎ String) (client : User → Option String) (register : User → String ⊎ String)
      → new_lego_user S os (elsewhere g client register) path email s' ≡ (s', ok u)
  unfolding new_lego_user
  new_lego_user_again path email s s' u law keeps e g client register =
      elim (Bool-cases (os.is_exist s path)) [
        | inr absent ↦
            registered_again g client register
              (record { email = email; registration = none; key = none }) u path s s' law keeps
              (rw absent at e)
        | inl there ↦
            let next : User → M S User = λ user.
              if user.email == email
              then return user
              else register_user S os acme (record user { email = email; registration = none })
                  path in
            let (t, v, a, k) = run-eq-ok next (load S os acme path s) (rw there at e) in
            elim (Bool-cases (v.email == email)) [
              | inl same ↦
                  subst
                    (λ t.
                      new_lego_user S os (elsewhere g client register) path email t
                      ≡ (s', Outcome.ok u))
                    (load-same path s t v a ∙ ap (λ (o : S × Outcome User). o.0) (rw same at k))
                    (rw (there, load-elsewhere g client register path s, a, same) (rw same at k))
              | inr other ↦
                  registered_again g client register
                    (record v { email = email; registration = none }) u path t s' law keeps
                    (rw other at k)
            ]
      ]
