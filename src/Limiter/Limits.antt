-- ===== src/Limiter/Limits.antt =====
-- UpdateUser seen key by key: the limits that the limiter holds for each uuid.
use v2node_pro.Prelude.{
  String, ◌≡◌, refl, Option, none, some, List, [], ◌∷◌, arith, if◌then◌else◌, is_some, ap, ◌∙◌,
  Option-cases, inl, inr,
}
use v2node_pro.Prelude.Int.{ℤ, pos}
use v2node_pro.Prelude.Eq.{◌==◌, ==_iff, string_eq, int_eq}
use v2node_pro.Prelude.Dict.{Dict, lookup, lookup-insert, lookup-erase}
use v2node_pro.Panel.{UserInfo, find, IsDistinctUsers}
use v2node_pro.Format.{user_tag, user_tag-==}
use v2node_pro.Limiter.{
  Limiter, UserLimitInfo, new_limit_info, add_user, delete_user, modify_limits, modify_bucket,
  modify_user, byte_rate, update_user, Registry, add_limiter, new_limiter,
}
use mathlib.Core.List.{foldl}

-- Speed and device limit.
abbrev pub Limits : Type 0
Limits = ℤ × ℤ

abbrev pub limits_of_info : Option UserLimitInfo → Option Limits
limits_of_info none = none
limits_of_info (some v) = some (v.speed_limit, v.device_limit)

abbrev pub limits_of_user : Option UserInfo → Option Limits
limits_of_user none = none
limits_of_user (some u) = some (u.speed_limit, u.device_limit)

abbrev pub limits_at : Limiter → String → String → Option Limits
limits_at l tag uuid = limits_of_info (lookup (user_tag tag uuid) l.user_limit_info)

-- The limits that a user list sets, where it names the uuid.
abbrev pub overwrite : Option UserInfo → Option Limits → Option Limits
overwrite none old = old
overwrite (some u) old = some (u.speed_limit, u.device_limit)

-- The same for a user that is known already.
abbrev pub refresh : Option UserInfo → Option Limits → Option Limits
refresh u none = none
refresh none (some old) = some old
refresh (some u) (some old) = some (u.speed_limit, u.device_limit)

module _ (tag k : String) where
  add_user-limits :
      (l : Limiter) (u : UserInfo)
      → limits_at (add_user tag l u) tag k
        ≡ (if u.uuid == k then some (u.speed_limit, u.device_limit) else limits_at l tag k)
  unfolding add_user new_limit_info
  add_user-limits l u = ground (
    arith,
    user_tag-== tag u.uuid k,
    lookup-insert (user_tag tag u.uuid) (user_tag tag k) (new_limit_info u) l.user_limit_info,
    ==_iff u.speed_limit (pos 0),
    ==_iff u.device_limit (pos 0),
  )

  delete_user-limits :
      (l : Limiter) (u : UserInfo)
      → limits_at (delete_user tag l u) tag k ≡ (if u.uuid == k then none else limits_at l tag k)
  unfolding delete_user
  delete_user-limits l u = ground (
    arith,
    user_tag-== tag u.uuid k,
    lookup-erase (user_tag tag u.uuid) (user_tag tag k) l.user_limit_info,
  )

  modify_bucket-info :
      (l : Limiter) (key : String) (rate : ℤ)
      → (modify_bucket key l rate).user_limit_info ≡ l.user_limit_info
  unfolding modify_bucket
  modify_bucket-info l key rate = ground arith

  modify_user-limits :
      (l : Limiter) (u : UserInfo)
      → limits_at (modify_user tag l u) tag k
        ≡ (if u.uuid == k then refresh (some u) (limits_at l tag k) else limits_at l tag k)
  unfolding modify_user modify_limits
  modify_user-limits l u =
      rw
        (modify_bucket-info (modify_limits (user_tag tag u.uuid) l u) (user_tag tag u.uuid)
          (byte_rate l.speed_limit u.speed_limit))
        (elim (Option-cases (lookup (user_tag tag u.uuid) l.user_limit_info)) [
          | inl e ↦ ground (arith, user_tag-== tag u.uuid k, ==_iff u.uuid k)
          | inr (v, e) ↦ ground (
            arith,
            user_tag-== tag u.uuid k,
            ==_iff u.uuid k,
            lookup-insert (user_tag tag u.uuid) (user_tag tag k)
                (record v { speed_limit = u.speed_limit; device_limit = u.device_limit })
                l.user_limit_info,
          )
        ])

  foldl-delete_user-limits :
      (us : List UserInfo) (l : Limiter)
      → limits_at (foldl (delete_user tag) l us) tag k
        ≡ (if is_some (find k us) then none else limits_at l tag k)
  unfolding find
  foldl-delete_user-limits [] l = refl
  foldl-delete_user-limits (u ∷ us) l =
      rw (foldl-delete_user-limits us (delete_user tag l u), delete_user-limits l u) (ground arith)

  foldl-modify_user-limits :
      (us : List UserInfo) (l : Limiter)
      → IsDistinctUsers us
      → limits_at (foldl (modify_user tag) l us) tag k ≡ refresh (find k us) (limits_at l tag k)
  unfolding find
  foldl-modify_user-limits [] l d = ground arith
  foldl-modify_user-limits (u ∷ us) l d =
      rw (foldl-modify_user-limits us (modify_user tag l u) d.1, modify_user-limits l u)
        (ground (arith, ==_iff u.uuid k))

  foldl-add_user-limits :
      (us : List UserInfo) (l : Limiter)
      → IsDistinctUsers us
      → limits_at (foldl (add_user tag) l us) tag k ≡ overwrite (find k us) (limits_at l tag k)
  unfolding find
  foldl-add_user-limits [] l d = refl
  foldl-add_user-limits (u ∷ us) l d =
      rw (foldl-add_user-limits us (add_user tag l u) d.1, add_user-limits l u)
        (ground (arith, ==_iff u.uuid k))

  -- A user that is deleted and not added again has no limits afterwards; one that is added has the
  -- limits it is added with; one that is known and modified has the new limits; and every other
  -- user keeps those it had. The modified and the added list name each uuid once.
  pub update_user-limits :
      (l : Limiter) (added deleted modified : List UserInfo)
      → IsDistinctUsers added
      → IsDistinctUsers modified
      → limits_at (update_user l tag added deleted modified) tag k
        ≡ overwrite (find k added) (
            refresh
              (find k modified)
              (if is_some (find k deleted) then none else limits_at l tag k))
  unfolding update_user
  update_user-limits l added deleted modified da dm =
      foldl-add_user-limits added _ da
      ∙ ap (overwrite (find k added)) (
          foldl-modify_user-limits modified _ dm
          ∙ ap (refresh (find k modified)) (foldl-delete_user-limits deleted l))

  overwrite-none : (u : Option UserInfo) → overwrite u none ≡ limits_of_user u
  overwrite-none none = refl
  overwrite-none (some u) = refl

  -- A new limiter has the limits of its users.
  pub add_limiter-limits :
      (reg : Registry) (nodetype : String) (users : List UserInfo) (alive : Dict ℤ ℤ)
      → IsDistinctUsers users
      → limits_at (add_limiter reg nodetype tag users alive).1 tag k ≡ limits_of_user (find k users)
  unfolding add_limiter lookup
  add_limiter-limits reg nodetype users alive d =
      foldl-add_user-limits users (new_limiter nodetype alive) d ∙ overwrite-none (find k users)
