-- ===== src/Format.antt =====
-- common/format/user.go: the key of a user on a node.
use Prim.Native.String.{◌++◌}
use text.Mathlib.TextLemmas.{append_cancel_left}
use v2node_pro.Prelude.{String, ◌≡◌, arith}
use v2node_pro.Prelude.Eq.{◌==◌, ==_iff, string_eq}

unfoldable pub user_tag : String → String → String
user_tag tag uuid = tag ++ ("|" ++ uuid)

-- On one node, distinct uuids have distinct keys.
pub user_tag_injective : (tag u v : String) → user_tag tag u ≡ user_tag tag v → u ≡ v
unfolding user_tag
user_tag_injective tag u v e = append_cancel_left "|" u v (append_cancel_left tag _ _ e)

-- So a test on the keys is a test on the uuids.
pub user_tag-== : (tag u v : String) → (user_tag tag u == user_tag tag v) ≡ (u == v)
user_tag-== tag u v =
    ground (arith, ==_iff u v, ==_iff (user_tag tag u) (user_tag tag v), user_tag_injective tag u v)
