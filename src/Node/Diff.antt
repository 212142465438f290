-- ===== src/Node/Diff.antt =====
-- compareUserList of node/user.go: what has changed between two user lists.
pub mod Laws
use v2node_pro.Prelude.{
  String, Bool, true, false, ◌||◌, not, Option, none, some, List, [], ◌∷◌, ◌++◌, map, if◌then◌else◌,
}
use v2node_pro.Prelude.Eq.{◌==◌, string_eq, int_eq}
use v2node_pro.Prelude.Dict.{Dict, lookup, insert, erase}
use v2node_pro.Panel.{UserInfo}
use mathlib.Core.List.{foldl}

pub record Diff : Type 0 where
  pub deleted : List UserInfo
  pub added : List UserInfo
  pub modified : List UserInfo

-- the loop that fills `oldMap`
unfoldable pub index_user : Dict String UserInfo → UserInfo → Dict String UserInfo
unfolding insert
index_user m u = insert u.uuid u m

abbrev pub differs : UserInfo → UserInfo → Bool
differs o u = not (o.speed_limit == u.speed_limit) || not (o.device_limit == u.device_limit)

-- the loop over the new users
unfoldable pub compare_loop :
    List UserInfo → Dict String UserInfo → List UserInfo → List UserInfo → Diff
unfolding lookup erase
compare_loop [] old_map added modified = record {
  deleted = map (λ e. e.1) old_map;
  added = added;
  modified = modified;
}
compare_loop (u ∷ us) old_map added modified = elim (lookup u.uuid old_map) [
  | none ↦ compare_loop us old_map (added ++ u ∷ []) modified
  | some o ↦
      compare_loop us (erase u.uuid old_map) added
        (if differs o u then modified ++ u ∷ [] else modified)
]

unfoldable pub compare_user_list : List UserInfo → List UserInfo → Diff
unfolding index_user compare_loop
compare_user_list old new = compare_loop new (foldl index_user [] old) [] []
