-- ===== src/Node/Tests.antt =====
-- The difference of two user lists at concrete lists.
use v2node_pro.Prelude.{String, ◌≡◌, refl, false, none, some, List, [], ◌∷◌, arith}
use v2node_pro.Prelude.Int.{ℤ, pos}
use v2node_pro.Prelude.Eq.{string_eq, int_eq, ==_iff}
use v2node_pro.Prelude.Dict.{lookup, insert, erase}
use v2node_pro.Panel.{UserInfo, find}
use v2node_pro.Format.{user_tag, user_tag-==}
use v2node_pro.Limiter.{Limiter, UserLimitInfo}
use v2node_pro.Node.Diff.{compare_user_list}
use v2node_pro.Node.Diff.Laws.{find-compare_user_list}
use v2node_pro.Node.Sync.{Matches, apply_diff, apply_diff-Matches}

abbrev user : ℤ → String → ℤ → UserInfo
user id uuid speed = record { id = id; uuid = uuid; speed_limit = speed; device_limit = pos 0 }

abbrev old_list : List UserInfo
old_list = user (pos 1) "a" (pos 8) ∷ user (pos 2) "b" (pos 0) ∷ user (pos 3) "c" (pos 0) ∷ []

abbrev new_list : List UserInfo
new_list = user (pos 1) "a" (pos 9) ∷ user (pos 2) "b" (pos 0) ∷ user (pos 4) "d" (pos 0) ∷ []

compare_run : compare_user_list old_list new_list ≡ record {
  deleted = user (pos 3) "c" (pos 0) ∷ [];
  added = user (pos 4) "d" (pos 0) ∷ [];
  modified = user (pos 1) "a" (pos 9) ∷ [];
}
unfolding compare_user_list insert lookup erase
compare_run = refl

find-compare_user_list_example :
    (find "c" (compare_user_list old_list new_list).deleted ≡ some (user (pos 3) "c" (pos 0)))
    × (find "c" (compare_user_list old_list new_list).added ≡ none)
    × (find "c" (compare_user_list old_list new_list).modified ≡ none)
unfolding find
find-compare_user_list_example =
    find-compare_user_list old_list new_list (refl, (refl, (refl, tt))) (refl, (refl, (refl, tt)))
      "c"

abbrev info : ℤ → ℤ → UserLimitInfo
info uid speed = record {
  uid = uid;
  speed_limit = speed;
  device_limit = pos 0;
  dynamic_speed_limit = pos 0;
  expire_time = pos 0;
  over_limit = false;
}

abbrev one_user : Limiter
one_user = record {
  nodetype = "vless";
  speed_limit = pos 0;
  user_online_ip = [];
  old_user_online = [];
  uuid_to_uid = [];
  user_limit_info = ("n|a", info (pos 1) (pos 8)) ∷ [];
  speed_limiter = [];
  alive_list = [];
  buckets = [];
  next_bucket = 0;
}

tag_a : user_tag "n" "a" ≡ "n|a"
unfolding user_tag
tag_a = refl

one_user-Matches : Matches one_user "n" (user (pos 1) "a" (pos 8) ∷ [])
unfolding find lookup
one_user-Matches uuid =
    ground
      (arith, ==_iff "a" uuid, ==_iff "n|a" (user_tag "n" uuid), user_tag-== "n" "a" uuid, tag_a)

apply_diff-Matches_example :
    Matches
      (apply_diff one_user "n" (compare_user_list (user (pos 1) "a" (pos 8) ∷ []) new_list))
      "n"
      new_list
unfolding find
apply_diff-Matches_example =
    apply_diff-Matches one_user "n" (user (pos 1) "a" (pos 8) ∷ []) new_list (refl, tt)
      (refl, (refl, (refl, tt))) one_user-Matches
