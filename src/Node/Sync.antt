-- ===== src/Node/Sync.antt =====
-- The monitor's update of the limiter, with compareUserList and UpdateUser together.
use v2node_pro.Prelude.{String, ◌≡◌, List, arith}
use v2node_pro.Prelude.Eq.{==_iff, int_eq, string_eq}
use v2node_pro.Panel.{UserInfo, find, IsDistinctUsers}
use v2node_pro.Limiter.{Limiter, update_user}
use v2node_pro.Limiter.Limits.{limits_at, limits_of_user, update_user-limits}
use v2node_pro.Node.Diff.{Diff, compare_user_list}
use v2node_pro.Node.Diff.Laws.{find-compare_user_list, added-IsDistinct, modified-IsDistinct}

-- The limiter holds the limits of exactly the users of a list.
abbrev pub Matches : Limiter → String → List UserInfo → Type 0
Matches l tag users = (uuid : String) → limits_at l tag uuid ≡ limits_of_user (find uuid users)

abbrev pub apply_diff : Limiter → String → Diff → Limiter
apply_diff l tag d = update_user l tag d.added d.deleted d.modified

-- If the limiter matches the old user list, then updating it by the difference to a new list makes
-- it match the new list. No uuid stands twice in either list.
pub apply_diff-Matches :
    (l : Limiter) (tag : String) (old new : List UserInfo)
    → IsDistinctUsers old
    → IsDistinctUsers new
    → Matches l tag old
    → Matches (apply_diff l tag (compare_user_list old new)) tag new
apply_diff-Matches l tag old new dold dnew h uuid =
    rw
      (update_user-limits tag uuid l d.added d.deleted d.modified
        (added-IsDistinct old new dold dnew) (modified-IsDistinct old new dold dnew))
      (ground (
        arith,
        h uuid,
        find-compare_user_list old new dold dnew uuid,
        λ (o u : UserInfo). ==_iff o.speed_limit u.speed_limit,
      ))
  where
    d : Diff
    d = compare_user_list old new
