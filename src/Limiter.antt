-- ===== src/Limiter.antt =====
-- limiter/limiter.go, limiter/dynamic.go and the bucket of common/rate/writer.go.
-- A `*DynamicBucket` is the address of its rate in `buckets`, since a connection keeps the pointer
-- while `Update` changes the rate behind it. Entries of `UserLimitInfo` are only reached through
-- their map, so a write through a loaded pointer is a write at its key. The clock is an argument.
pub mod Connect
pub mod Online
pub mod Admission
pub mod Buckets
pub mod Limits
pub mod Rates
pub mod Report
pub mod History
pub mod SpeedLimit
pub mod Tests
use v2node_pro.Prelude.{
  ℕ, suc, String, Bool, true, false, ◌&&◌, ◌||◌, not, Option, none, some, List, [], ◌∷◌, ◌++◌,
  if◌then◌else◌,
}
use v2node_pro.Prelude.Int.{ℤ, pos, ltb_ℤ, mul64, quot}
use v2node_pro.Prelude.Eq.{◌==◌, string_eq, int_eq, nat_eq}
use v2node_pro.Prelude.Dict.{Dict, lookup, insert, erase}
use v2node_pro.Prelude.Text.{trim_prefix}
use v2node_pro.Prelude.Flow.{Outcome, ok, err}
use v2node_pro.Panel.{UserInfo, OnlineUser}
use v2node_pro.Format.{user_tag}
use mathlib.Core.List.{foldl}

pub record UserLimitInfo : Type 0 where
  pub uid : ℤ
  pub speed_limit : ℤ
  pub device_limit : ℤ
  pub dynamic_speed_limit : ℤ
  pub expire_time : ℤ
  pub over_limit : Bool

pub record Limiter : Type 0 where
  pub nodetype : String
  pub speed_limit : ℤ
  pub user_online_ip : Dict String (Dict String ℤ)
  pub old_user_online : Dict String ℤ
  pub uuid_to_uid : Dict String ℤ
  pub user_limit_info : Dict String UserLimitInfo
  pub speed_limiter : Dict String ℕ
  pub alive_list : Dict ℤ ℤ
  pub buckets : Dict ℕ ℤ
  pub next_bucket : ℕ

-- The package's `limiter` map.
abbrev pub Registry : Type 0
Registry = Dict String Limiter

unfoldable pub determine_speed_limit : ℤ → ℤ → ℤ
determine_speed_limit limit1 limit2 =
    if limit1 == pos 0 || limit2 == pos 0
    then (if ltb_ℤ limit2 limit1 then limit1 else if ltb_ℤ limit1 limit2 then limit2 else pos 0)
    else (if ltb_ℤ limit2 limit1 then limit2 else if ltb_ℤ limit1 limit2 then limit1 else limit1)

-- `int64(determineSpeedLimit(node, user)) * 1000000 / 8`
unfoldable pub byte_rate : ℤ → ℤ → ℤ
unfolding determine_speed_limit mul64 quot
byte_rate node user = quot (mul64 (determine_speed_limit node user) 1000000) 8

-- NewDynamicBucket, and the store of the bucket under its user
unfoldable pub add_bucket : Limiter → String → ℤ → Limiter
unfolding insert
add_bucket l key rate = record l {
  speed_limiter = insert key l.next_bucket l.speed_limiter;
  buckets = insert l.next_bucket rate l.buckets;
  next_bucket = suc l.next_bucket;
}

-- DynamicBucket.Update
unfoldable pub set_bucket : Limiter → ℕ → ℤ → Limiter
unfolding insert
set_bucket l address rate = record l { buckets = insert address rate l.buckets }

unfoldable pub new_limit_info : UserInfo → UserLimitInfo
new_limit_info u = record {
  uid = u.id;
  speed_limit = if u.speed_limit == pos 0 then pos 0 else u.speed_limit;
  device_limit = if u.device_limit == pos 0 then pos 0 else u.device_limit;
  dynamic_speed_limit = pos 0;
  expire_time = pos 0;
  over_limit = false;
}

-- one round of the `added` loop of UpdateUser, and of the loop of AddLimiter
unfoldable pub add_user : String → Limiter → UserInfo → Limiter
unfolding insert new_limit_info user_tag
add_user tag l u = record l {
  user_limit_info = insert (user_tag tag u.uuid) (new_limit_info u) l.user_limit_info;
  uuid_to_uid = insert u.uuid u.id l.uuid_to_uid;
}

-- one round of the `deleted` loop
unfoldable pub delete_user : String → Limiter → UserInfo → Limiter
unfolding erase user_tag
delete_user tag l u = record l {
  user_limit_info = erase (user_tag tag u.uuid) l.user_limit_info;
  user_online_ip = erase (user_tag tag u.uuid) l.user_online_ip;
  speed_limiter = erase (user_tag tag u.uuid) l.speed_limiter;
  uuid_to_uid = erase u.uuid l.uuid_to_uid;
  alive_list = erase u.id l.alive_list;
}

-- the limits of a modified user, and then its bucket
unfoldable pub modify_limits : String → Limiter → UserInfo → Limiter
unfolding lookup insert
modify_limits key l u = elim (lookup key l.user_limit_info) [
  | none ↦ l
  | some v ↦ record l {
    user_limit_info =
        insert key (record v { speed_limit = u.speed_limit; device_limit = u.device_limit })
          l.user_limit_info;
  }
]

unfoldable pub modify_bucket : String → Limiter → ℤ → Limiter
unfolding lookup erase add_bucket set_bucket
modify_bucket key l limit =
    if ltb_ℤ (pos 0) limit
    then elim (lookup key l.speed_limiter) [
      | some address ↦ set_bucket l address limit
      | none ↦ add_bucket l key limit
    ]
    else record l { speed_limiter = erase key l.speed_limiter }

-- one round of the `modified` loop
unfoldable pub modify_user : String → Limiter → UserInfo → Limiter
unfolding modify_limits modify_bucket byte_rate user_tag
modify_user tag l u =
    modify_bucket (user_tag tag u.uuid) (modify_limits (user_tag tag u.uuid) l u)
      (byte_rate l.speed_limit u.speed_limit)

unfoldable pub update_user :
    Limiter → String → List UserInfo → List UserInfo → List UserInfo → Limiter
unfolding add_user delete_user modify_user
update_user l tag added deleted modified =
    foldl (add_user tag) (foldl (modify_user tag) (foldl (delete_user tag) l deleted) modified)
      added

-- the limiter of AddLimiter, before the users
abbrev pub new_limiter : String → Dict ℤ ℤ → Limiter
new_limiter nodetype alive_list = record {
  nodetype = nodetype;
  speed_limit = pos 0;
  user_online_ip = [];
  old_user_online = [];
  uuid_to_uid = [];
  user_limit_info = [];
  speed_limiter = [];
  alive_list = alive_list;
  buckets = [];
  next_bucket = 0;
}

unfoldable pub add_limiter :
    Registry → String → String → List UserInfo → Dict ℤ ℤ → Registry × Limiter
unfolding add_user insert
add_limiter reg nodetype tag users alive_list =
    let l = foldl (add_user tag) (new_limiter nodetype alive_list) users in (insert tag l reg, l)

unfoldable pub get_limiter : Registry → String → Outcome Limiter
unfolding lookup
get_limiter reg tag = elim (lookup tag reg) [ none ↦ err "not found" | some l ↦ ok l ]

unfoldable pub delete_limiter : Registry → String → Registry
unfolding erase
delete_limiter reg tag = erase tag reg

unfoldable pub update_dynamic_speed_limit : Limiter → String → String → ℤ → ℤ → Outcome Limiter
unfolding lookup insert user_tag
update_dynamic_speed_limit l tag uuid limit expire =
    elim (lookup (user_tag tag uuid) l.user_limit_info) [
      | none ↦ err "not found"
      | some info ↦ ok (record l {
        user_limit_info =
            insert (user_tag tag uuid)
              (record info { dynamic_speed_limit = limit; expire_time = expire }) l.user_limit_info;
      })
    ]
