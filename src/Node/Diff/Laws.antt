-- ===== src/Node/Diff/Laws.antt =====
-- The three lists of compareUserList, key by key.
use v2node_pro.Prelude.{
  String, ◌≡◌, refl, Option, none, some, List, [], ◌∷◌, ◌++◌, map, arith, if◌then◌else◌, is_some,
  Option-cases, inl, inr,
}
use v2node_pro.Prelude.Eq.{==_iff, string_eq, int_eq}
use v2node_pro.Prelude.Dict.{Dict, lookup, insert, erase, lookup-insert, lookup-erase, lookup-nil}
use v2node_pro.Panel.{UserInfo, find, IsDistinctUsers}
use v2node_pro.Node.Diff.{Diff, index_user, differs, compare_loop, compare_user_list}
use mathlib.Core.List.{foldl, append-nil, append_assoc}

abbrev or_else : Option UserInfo → Option UserInfo → Option UserInfo
or_else none o = o
or_else (some u) o = some u

lookup-index :
    (k : String) (us : List UserInfo) (m : Dict String UserInfo)
    → IsDistinctUsers us
    → lookup k (foldl index_user m us) ≡ or_else (find k us) (lookup k m)
unfolding index_user find
lookup-index k [] m d = refl
lookup-index k (u ∷ us) m d =
    ground
      (arith, lookup-index k us (insert u.uuid u m), lookup-insert u.uuid k u m, ==_iff u.uuid k)

-- The loop with its accumulators taken out.
added_of : List UserInfo → Dict String UserInfo → List UserInfo
added_of [] m = []
added_of (u ∷ us) m = elim (lookup u.uuid m) [
  | none ↦ u ∷ added_of us m
  | some o ↦ added_of us (erase u.uuid m)
]

modified_of : List UserInfo → Dict String UserInfo → List UserInfo
modified_of [] m = []
modified_of (u ∷ us) m = elim (lookup u.uuid m) [
  | none ↦ modified_of us m
  | some o ↦ (if differs o u then u ∷ [] else []) ++ modified_of us (erase u.uuid m)
]

left_of : List UserInfo → Dict String UserInfo → Dict String UserInfo
left_of [] m = m
left_of (u ∷ us) m = elim (lookup u.uuid m) [
  | none ↦ left_of us m
  | some o ↦ left_of us (erase u.uuid m)
]

abbrev loop_result : List UserInfo → Dict String UserInfo → List UserInfo → List UserInfo → Diff
loop_result us m added modified = record {
  deleted = map (λ e. e.1) (left_of us m);
  added = added ++ added_of us m;
  modified = modified ++ modified_of us m;
}

compare_loop_lem :
    (us : List UserInfo) (m : Dict String UserInfo) (added modified : List UserInfo)
    → compare_loop us m added modified ≡ loop_result us m added modified
unfolding compare_loop added_of modified_of left_of
compare_loop_lem [] m added modified = ground (arith, append-nil added, append-nil modified)
compare_loop_lem (u ∷ us) m added modified = elim (Option-cases (lookup u.uuid m)) [
  | inl e ↦ ground (
    arith,
    compare_loop_lem us m (added ++ u ∷ []) modified,
    append_assoc added (u ∷ []) (added_of us m),
  )
  | inr (o, e) ↦ ground (
    arith,
    compare_loop_lem us (erase u.uuid m) added
        (if differs o u then modified ++ u ∷ [] else modified),
    append_assoc modified (u ∷ []) (modified_of us (erase u.uuid m)),
  )
]

-- The user whose limits have changed.
abbrev pub changed : Option UserInfo → Option UserInfo → Option UserInfo
changed none u = none
changed (some o) none = none
changed (some o) (some u) = if differs o u then some u else none

module _ (k : String) where
  find-added_of :
      (us : List UserInfo) (m : Dict String UserInfo)
      → IsDistinctUsers us
      → find k (added_of us m) ≡ (if is_some (lookup k m) then none else find k us)
  unfolding find added_of
  find-added_of [] m d = ground arith
  find-added_of (u ∷ us) m d = ground (
    arith,
    ==_iff u.uuid k,
    find-added_of us m d.1,
    find-added_of us (erase u.uuid m) d.1,
    lookup-erase u.uuid k m,
  )

  find-modified_of :
      (us : List UserInfo) (m : Dict String UserInfo)
      → IsDistinctUsers us
      → find k (modified_of us m) ≡ changed (lookup k m) (find k us)
  unfolding find modified_of
  find-modified_of [] m d = ground arith
  find-modified_of (u ∷ us) m d = ground (
    arith,
    ==_iff u.uuid k,
    find-modified_of us m d.1,
    find-modified_of us (erase u.uuid m) d.1,
    lookup-erase u.uuid k m,
  )

  lookup-left_of :
      (us : List UserInfo) (m : Dict String UserInfo)
      → lookup k (left_of us m) ≡ (if is_some (find k us) then none else lookup k m)
  unfolding find left_of
  lookup-left_of [] m = refl
  lookup-left_of (u ∷ us) m = ground (
    arith,
    ==_iff u.uuid k,
    lookup-left_of us m,
    lookup-left_of us (erase u.uuid m),
    lookup-erase u.uuid k m,
  )

-- Every user of the map stands under its own uuid.
abbrev IsKeyed : Dict String UserInfo → Type 0
IsKeyed [] = Unit
IsKeyed ((k, u) ∷ m) = (u.uuid ≡ k) × IsKeyed m

insert-IsKeyed : (u : UserInfo) (m : Dict String UserInfo) → IsKeyed m → IsKeyed (insert u.uuid u m)
unfolding insert
insert-IsKeyed u [] h = (refl, tt)
insert-IsKeyed u ((k, v) ∷ m) h = ground (arith, insert-IsKeyed u m, ==_iff k u.uuid)

erase-IsKeyed : (k : String) (m : Dict String UserInfo) → IsKeyed m → IsKeyed (erase k m)
unfolding erase
erase-IsKeyed k [] h = tt
erase-IsKeyed k ((j, v) ∷ m) h = ground (arith, erase-IsKeyed k m)

index-IsKeyed :
    (us : List UserInfo) (m : Dict String UserInfo) → IsKeyed m → IsKeyed (foldl index_user m us)
unfolding index_user
index-IsKeyed [] m h = h
index-IsKeyed (u ∷ us) m h = index-IsKeyed us (insert u.uuid u m) (insert-IsKeyed u m h)

left_of-IsKeyed :
    (us : List UserInfo) (m : Dict String UserInfo) → IsKeyed m → IsKeyed (left_of us m)
unfolding left_of
left_of-IsKeyed [] m h = h
left_of-IsKeyed (u ∷ us) m h =
    ground
      (arith, left_of-IsKeyed us m, left_of-IsKeyed us (erase u.uuid m), erase-IsKeyed u.uuid m)

find-values :
    (k : String) (m : Dict String UserInfo) → IsKeyed m → find k (map (λ e. e.1) m) ≡ lookup k m
unfolding find lookup
find-values k [] h = refl
find-values k ((j, v) ∷ m) h = ground (arith, find-values k m, ==_iff v.uuid k, ==_iff j k)

added_of-IsDistinct :
    (us : List UserInfo) (m : Dict String UserInfo)
    → IsDistinctUsers us
    → IsDistinctUsers (added_of us m)
unfolding added_of
added_of-IsDistinct [] m d = tt
added_of-IsDistinct (u ∷ us) m d = ground (
  arith,
  added_of-IsDistinct us m d.1,
  added_of-IsDistinct us (erase u.uuid m) d.1,
  find-added_of u.uuid us m d.1,
)

modified_of-IsDistinct :
    (us : List UserInfo) (m : Dict String UserInfo)
    → IsDistinctUsers us
    → IsDistinctUsers (modified_of us m)
unfolding modified_of
modified_of-IsDistinct [] m d = tt
modified_of-IsDistinct (u ∷ us) m d = ground (
  arith,
  modified_of-IsDistinct us m d.1,
  modified_of-IsDistinct us (erase u.uuid m) d.1,
  find-modified_of u.uuid us (erase u.uuid m) d.1,
)

module _ (old new : List UserInfo) (dold : IsDistinctUsers old) (dnew : IsDistinctUsers new) where
  index_old : Dict String UserInfo
  index_old = foldl index_user [] old

  lookup-index_old : (k : String) → lookup k index_old ≡ find k old
  unfolding index_old
  lookup-index_old k = ground (arith, lookup-index k old [] dold, lookup-nil {V = UserInfo} k)

  -- For lists in which no uuid stands twice: a user is deleted if its uuid was in the old list and
  -- is not in the new one, added if the other way round, and modified if it is in both and one of
  -- its two limits has changed. Added and modified users are those of the new list.
  pub find-compare_user_list :
      (k : String)
      → let d = compare_user_list old new in
        (find k d.deleted ≡ (if is_some (find k new) then none else find k old))
        × (find k d.added ≡ (if is_some (find k old) then none else find k new))
        × (find k d.modified ≡ changed (find k old) (find k new))
  unfolding compare_user_list index_old
  find-compare_user_list k = rw (compare_loop_lem new index_old [] []) (
      rw
        (
          find-values k (left_of new index_old)
              (left_of-IsKeyed new index_old (index-IsKeyed old [] tt)),
          lookup-left_of k new index_old,
          find-added_of k new index_old dnew,
          find-modified_of k new index_old dnew,
          lookup-index_old k,
        )
        (refl, refl, refl))

  pub added-IsDistinct : IsDistinctUsers (compare_user_list old new).added
  unfolding compare_user_list index_old
  added-IsDistinct =
      rw (compare_loop_lem new index_old [] []) (added_of-IsDistinct new index_old dnew)

  pub modified-IsDistinct : IsDistinctUsers (compare_user_list old new).modified
  unfolding compare_user_list index_old
  modified-IsDistinct =
      rw (compare_loop_lem new index_old [] []) (modified_of-IsDistinct new index_old dnew)
