-- ===== src/Prelude/Dict.antt =====
-- Go's maps and sync.Map as association lists. The order of the entries stands for the order in
-- which a `range` or `Range` happens to visit them.
use mathlib.Core.Path.{◌≡◌, refl}
use mathlib.Core.Bool.{false}
use mathlib.Core.Option.{Option, none, some}
use mathlib.Core.List.{List, [], ◌∷◌}
use native.Mathlib.Omega.{arith}
use v2node_pro.Prelude.Tests.{if◌then◌else◌, is_some}
use v2node_pro.Prelude.Eq.{Eq, ◌==◌}

abbrev pub Dict {ℓ κ} : Type ℓ → Type κ → Type (ℓ ⊔ κ)
Dict K V = List (K × V)

module _ {ℓ κ} {K : Type ℓ} ⦃same : Eq K⦄ {V : Type κ} where
  -- `v, ok := m[k]`, `m.Load(k)`
  unfoldable pub lookup : K → Dict K V → Option V
  lookup key [] = none
  lookup key ((at, value) ∷ rest) = if at == key then some value else lookup key rest

  -- `delete(m, k)`, `m.Delete(k)`
  unfoldable pub erase : K → Dict K V → Dict K V
  erase key [] = []
  erase key ((at, value) ∷ rest) =
      let others = erase key rest in if at == key then others else (at, value) ∷ others

  -- `m[k] = v`, `m.Store(k, v)`
  unfoldable pub insert : K → V → Dict K V → Dict K V
  insert key value [] = (key, value) ∷ []
  insert key value ((at, old) ∷ rest) =
      if at == key then (key, value) ∷ rest else (at, old) ∷ insert key value rest

  pub lookup-nil : (key : K) → lookup key [] ≡ none
  unfolding lookup
  lookup-nil key = refl

  pub lookup-erase :
      (key other : K) (d : Dict K V)
      → lookup other (erase key d) ≡ (if key == other then none else lookup other d)
  unfolding lookup erase
  lookup-erase key other [] = ground arith
  lookup-erase key other ((at, value) ∷ rest) = ground (
    arith,
    same.is_same_iff at key,
    same.is_same_iff at other,
    same.is_same_iff key other,
    lookup-erase key other rest,
  )

  pub lookup-insert :
      (key other : K) (value : V) (d : Dict K V)
      → lookup other (insert key value d) ≡ (if key == other then some value else lookup other d)
  unfolding lookup insert
  lookup-insert key other value [] = refl
  lookup-insert key other value ((at, old) ∷ rest) = ground (
    arith,
    same.is_same_iff at key,
    same.is_same_iff at other,
    same.is_same_iff key other,
    lookup-insert key other value rest,
  )

  -- A map holds a key once.
  abbrev pub IsDistinct : Dict K V → Type 0
  IsDistinct [] = Unit
  IsDistinct ((k, v) ∷ m) = (is_some (lookup k m) ≡ false) × IsDistinct m

  pub insert-IsDistinct : (k : K) (v : V) (m : Dict K V) → IsDistinct m → IsDistinct (insert k v m)
  unfolding lookup insert
  insert-IsDistinct k v [] d = (refl, tt)
  insert-IsDistinct k v ((j, w) ∷ m) d = ground (
    arith,
    same.is_same_iff j k,
    same.is_same_iff k j,
    lookup-insert k j v m,
    insert-IsDistinct k v m,
  )

  pub erase-IsDistinct : (k : K) (m : Dict K V) → IsDistinct m → IsDistinct (erase k m)
  unfolding erase
  erase-IsDistinct k [] d = tt
  erase-IsDistinct k ((j, w) ∷ m) d = ground (arith, lookup-erase k j m, erase-IsDistinct k m)

pub ruleset dict_laws = (lookup-nil, lookup-insert, lookup-erase)
