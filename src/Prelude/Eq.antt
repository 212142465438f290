-- ===== src/Prelude/Eq.antt =====
-- Equality tests as instances: one `==` for texts and integers.
use Prim.Native.String.{String}
use text.Mathlib.Text.{◌==◌ as str_eq}
use text.Mathlib.TextEquality.{eq_iff}
use Prim.Native.Nat.{ℕ}
use mathlib.Core.Path.{◌≡◌, refl}
use mathlib.Core.Logic.{◌↔◌, ◌≢◌}
use mathlib.Core.Bool.{Bool, true, false}
use native.Mathlib.Omega.{arith}
use v2node_pro.Prelude.Tests.{nat_beq, nat_beq_iff}
use v2node_pro.Prelude.Int.{ℤ, beq_ℤ, beq_ℤ_iff}

-- A type with a Boolean test that decides its equality.
pub record Eq {ℓ} (K : Type ℓ) : Type ℓ where
  pub is_same : K → K → Bool
  pub is_same_iff : (x y : K) → (is_same x y ≡ true) ↔ (x ≡ y)

instance abbrev pub int_eq : Eq ℤ
int_eq = record { is_same_iff = beq_ℤ_iff; is_same = beq_ℤ }

instance abbrev pub string_eq : Eq String
string_eq = record { is_same_iff = eq_iff; is_same = str_eq }

instance abbrev pub nat_eq : Eq ℕ
nat_eq = record { is_same_iff = nat_beq_iff; is_same = nat_beq }

abbrev pub ◌==◌ {ℓ} : {K : Type ℓ} ⦃same : Eq K⦄ → K → K → Bool
◌==◌ ⦃same⦄ = same.is_same

infix 50 ◌==◌
module _ {ℓ} {K : Type ℓ} ⦃same : Eq K⦄ where
  pub ==_iff : (x y : K) → ((x == y) ≡ true) ↔ (x ≡ y)
  ==_iff = same.is_same_iff

  pub ==_refl : (x : K) → (x == x) ≡ true
  ==_refl x = (same.is_same_iff x x).1 refl

  pub ==_ne : (x y : K) → x ≢ y → (x == y) ≡ false
  ==_ne x y differ = ground (arith, same.is_same_iff x y)
