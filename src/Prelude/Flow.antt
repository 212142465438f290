-- ===== src/Prelude/Flow.antt =====
-- How a Go function ends: with a value, with an error, by a panic, or not at all, when it waits for a
-- lock that it holds itself.
use Prim.Native.String.{String}
use mathlib.Core.Path.{◌≡◌, refl, ap, subst}
use mathlib.Core.Bool.{Bool, true, false}
use v2node_pro.Prelude.Tests.{if◌then◌else◌}

pub data Outcome {ℓ} (A : Type ℓ) : Type ℓ where
  ok : A → Outcome A
  err : String → Outcome A
  panic : Outcome A
  hang : Outcome A

infixl 5 ◌>>=◌ ◌>>◌
-- Go's `if err != nil { return err }` between two calls.
abbrev pub ◌>>=◌ {ℓ κ} : {A : Type ℓ} {B : Type κ} → Outcome A → (A → Outcome B) → Outcome B
hang >>= next = hang
panic >>= next = panic
err message >>= next = err message
ok value >>= next = next value

abbrev pub ◌>>◌ {ℓ} : {B : Type ℓ} → Outcome (Unit {0}) → Outcome B → Outcome B
hang >> rest = hang
panic >> rest = panic
err message >> rest = err message
ok done >> rest = rest

abbrev pub is_panic {ℓ} : {A : Type ℓ} → Outcome A → Bool
is_panic (ok value) = false
is_panic (err message) = false
is_panic panic = true
is_panic hang = false

-- A chain that ends with a value ran its first call to a value.
pub >>=-eq-ok {ℓ κ} :
    {A : Type ℓ} {B : Type κ} {b : B} (first : Outcome A) (next : A → Outcome B)
    → (first >>= next) ≡ ok b
    → (a : A) × (first ≡ ok a) × (next a ≡ ok b)
>>=-eq-ok hang next ended = cc
>>=-eq-ok panic next ended = cc
>>=-eq-ok (err message) next ended = cc
>>=-eq-ok (ok value) next ended = (value, refl, ended)

-- The value that a call gives, if it gives one, has a property.
pub record Gives {ℓ κ} {A : Type ℓ} (P : A → Type κ) (call : Outcome A) : Type (ℓ ⊔ κ) where
  pub given : {a : A} → call ≡ ok a → P a

pub >>=-Gives {ℓ κ μ ν} :
    {A : Type ℓ} {B : Type κ} (P : A → Type μ) {Q : B → Type ν} {first : Outcome A}
    {next : A → Outcome B}
    → Gives P first
    → ((a : A) → P a → Gives Q (next a))
    → Gives Q (first >>= next)
>>=-Gives P {first} {next} p q = record {
  given = λ ended. let (a, e, g) = >>=-eq-ok first next ended in (q a (p.given e)).given g;
}

-- The value of an outcome, if it has one.
value_of {ℓ} : {A : Type ℓ} → A → Outcome A → A
value_of default (ok a) = a
value_of default (err e) = default
value_of default panic = default
value_of default hang = default

pub Gives-ok {ℓ κ} : {A : Type ℓ} (P : A → Type κ) {a : A} → P a → Gives P (ok a)
unfolding value_of
Gives-ok P {a} p = record { given = λ ended. subst P (ap (value_of a) ended) p }

pub if-Gives {ℓ κ} :
    {A : Type ℓ} (P : A → Type κ) (test : Bool) {first second : Outcome A}
    → (test ≡ true → Gives P first)
    → (test ≡ false → Gives P second)
    → Gives P (if test then first else second)
if-Gives P true p q = p refl
if-Gives P false p q = q refl

-- A call that ends otherwise gives no value.
pub err-Gives {ℓ κ} : {A : Type ℓ} (P : A → Type κ) (e : String) → Gives P (err e)
err-Gives P e = record { given = λ ended. cc }

pub panic-Gives {ℓ κ} : {A : Type ℓ} (P : A → Type κ) → Gives P panic
panic-Gives P = record { given = λ ended. cc }
