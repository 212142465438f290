-- ===== src/Prelude/Stateful.antt =====
-- Calls that change a state and may fail, with Go's ways to chain them and to wrap their errors.
use Prim.Native.String.{String, ◌++◌ as join}
use mathlib.Core.Path.{◌≡◌, refl}
use mathlib.Core.Logic.{◌⊎◌, inl, inr}
use mathlib.Core.Option.{Option, none, some}
use v2node_pro.Prelude.Flow.{Outcome, ok, err, panic, hang}

-- A call on a state: the new state, and how the call ends.
abbrev pub M : Type 0 → Type 0 → Type 0
M S A = S → S × Outcome A

abbrev pub run {ℓ} :
    {S A : Type 0} {B : Type ℓ} → (A → S → S × Outcome B) → S × Outcome A → S × Outcome B
run next (s, ok a) = next a s
run next (s, err e) = (s, err e)
run next (s, panic) = (s, panic)
run next (s, hang) = (s, hang)

infixl 5 ◌>>=◌ ◌>>◌
abbrev pub ◌>>=◌ : {S A B : Type 0} → M S A → (A → M S B) → M S B
◌>>=◌ m next s = run next (m s)

abbrev pub ◌>>◌ : {S B : Type 0} → M S (Unit {0}) → M S B → M S B
m >> next = m >>= λ _. next

abbrev pub return : {S A : Type 0} → A → M S A
return a s = (s, ok a)

abbrev pub fail : {S A : Type 0} → String → M S A
fail e s = (s, err e)

-- `fmt.Errorf(prefix + "%s", err)`
abbrev pub named_error : {S A : Type 0} → String → S × Outcome A → S × Outcome A
named_error prefix (s, ok a) = (s, ok a)
named_error prefix (s, err e) = (s, err (join prefix e))
named_error prefix (s, panic) = (s, panic)
named_error prefix (s, hang) = (s, hang)

abbrev pub wrap : {S A : Type 0} → String → M S A → M S A
wrap prefix m s = named_error prefix (m s)

-- a call with an error or none
abbrev pub ended : {S : Type 0} → S × Option String → S × Outcome (Unit {0})
ended (s, none) = (s, ok tt)
ended (s, some e) = (s, err e)

-- a value that a library gives, or its error
abbrev pub given : {S A : Type 0} → String ⊎ A → M S A
given (inl e) s = (s, err e)
given (inr a) s = (s, ok a)

-- A chain that ends with a value ran its first call to a value.
pub run-eq-ok :
    {S A B : Type 0} (next : A → M S B) (r : S × Outcome A) {s' : S} {b : B}
    → run next r ≡ (s', ok b)
    → (s : S) × (a : A) × (r ≡ (s, ok a)) × (next a s ≡ (s', ok b))
run-eq-ok next (s, ok a) h = (s, a, refl, h)
run-eq-ok next (s, err e) h = cc
run-eq-ok next (s, panic) h = cc
run-eq-ok next (s, hang) h = cc

pub named_error-eq-ok :
    {S A : Type 0} (prefix : String) (r : S × Outcome A) {s' : S} {a : A}
    → named_error prefix r ≡ (s', ok a)
    → r ≡ (s', ok a)
named_error-eq-ok prefix (s, ok a) h = h
named_error-eq-ok prefix (s, err e) h = cc
named_error-eq-ok prefix (s, panic) h = cc
named_error-eq-ok prefix (s, hang) h = cc

pub ended-eq-ok :
    {S : Type 0} (r : S × Option String) {s' : S} {u : Unit {0}}
    → ended r ≡ (s', ok u)
    → (r.0 ≡ s') × (r.1 ≡ none)
ended-eq-ok (s, none) h = (cc h, refl)
ended-eq-ok (s, some e) h = cc

pub given-eq-ok :
    {S A : Type 0} (v : String ⊎ A) (s : S) {s' : S} {a : A} → given v s ≡ (s', ok a) → (s ≡ s')
given-eq-ok (inl e) s h = cc
given-eq-ok (inr a) s h = cc h
