-- ===== src/Limiter/Connect.antt =====
-- CheckLimit of limiter/limiter.go: what happens when a user's connection arrives.
use v2node_pro.Prelude.{
  ℕ, String, Bool, true, false, ◌&&◌, ◌||◌, not, Option, none, some, [], if◌then◌else◌,
}
use v2node_pro.Prelude.Int.{ℤ, pos, ltb_ℤ}
use v2node_pro.Prelude.Eq.{◌==◌, string_eq, int_eq}
use v2node_pro.Prelude.Dict.{Dict, lookup, insert, erase}
use v2node_pro.Prelude.Text.{trim_prefix}
use v2node_pro.Limiter.{Limiter, UserLimitInfo, determine_speed_limit, byte_rate, add_bucket}

-- `nil, true`, or a bucket or nil with `false`
pub data Check : Type 0 where
  reject : Check
  admit : Option ℕ → Check

-- The user's own rate, after a dynamic limit that has run out is dropped.
unfoldable pub user_rate : Limiter → String → UserLimitInfo → ℤ → Limiter × ℤ
unfolding insert erase determine_speed_limit
user_rate l taguuid u now =
    if ltb_ℤ u.expire_time now && not (u.expire_time == pos 0)
    then (if not (u.speed_limit == pos 0)
        then (
          record l {
            user_limit_info =
                insert taguuid (record u { dynamic_speed_limit = pos 0; expire_time = pos 0 })
                  l.user_limit_info;
          },
          u.speed_limit,
        )
        else (record l { user_limit_info = erase taguuid l.user_limit_info }, pos 0))
    else (l, determine_speed_limit u.speed_limit u.dynamic_speed_limit)

-- `l.AliveList[uid]`, zero for a missing key
abbrev pub alive_ip : Limiter → ℤ → ℤ
alive_ip l uid = elim (lookup uid l.alive_list) [ none ↦ pos 0 | some n ↦ n ]

-- `deviceLimit > 0` and then `deviceLimit <= aliveIp`
abbrev pub over_limit : ℤ → ℤ → Bool
over_limit device_limit alive = ltb_ℤ (pos 0) device_limit && not (ltb_ℤ alive device_limit)

-- The user has online addresses already. `true` rejects.
unfoldable pub claim_further : Limiter → String → String → ℤ → ℤ → Dict String ℤ → Limiter × Bool
unfolding lookup insert erase
claim_further l taguuid ip uid device_limit old_ip_map =
    let new_ip_map = insert ip uid old_ip_map in
    let stored = record l { user_online_ip = insert taguuid new_ip_map l.user_online_ip } in
    elim (lookup ip old_ip_map) [
      | some _ ↦ (l, false)
      | none ↦ elim (lookup ip l.old_user_online) [
        | some v ↦
            if v == uid
            then (record stored { old_user_online = erase ip l.old_user_online }, false)
            else (stored, false)
        | none ↦
            if over_limit device_limit (alive_ip l uid)
            then (
              record l { user_online_ip = insert taguuid (erase ip new_ip_map) l.user_online_ip },
              true,
            )
            else (stored, false)
      ]
    ]

-- The user has none.
unfoldable pub claim_first : Limiter → String → String → ℤ → ℤ → Limiter × Bool
unfolding lookup insert erase
claim_first l taguuid ip uid device_limit =
    let new_online = insert taguuid (insert {V = ℤ} ip uid []) l.user_online_ip in
    let stored = record l { user_online_ip = new_online } in
    elim (lookup ip l.old_user_online) [
      | some v ↦
          if v == uid
          then (record stored { old_user_online = erase ip l.old_user_online }, false)
          else (stored, false)
      | none ↦
          if over_limit device_limit (alive_ip l uid)
          then (record l { user_online_ip = erase taguuid new_online }, true)
          else (stored, false)
    ]

-- Store the address of an online user, for the device limit.
unfoldable pub claim_ip : Limiter → String → String → ℤ → ℤ → Limiter × Bool
unfolding lookup claim_first claim_further
claim_ip l taguuid ip uid device_limit = elim (lookup taguuid l.user_online_ip) [
  | some old_ip_map ↦ claim_further l taguuid ip uid device_limit old_ip_map
  | none ↦ claim_first l taguuid ip uid device_limit
]

-- The bucket of the connection, made on first use.
unfoldable pub take_bucket : Limiter → String → ℤ → Limiter × Check
unfolding lookup add_bucket byte_rate
take_bucket l taguuid user_limit =
    if ltb_ℤ (pos 0) (byte_rate l.speed_limit user_limit)
    then elim (lookup taguuid l.speed_limiter) [
      | some bucket ↦ (l, admit (some bucket))
      | none ↦
          (add_bucket l taguuid (byte_rate l.speed_limit user_limit), admit (some l.next_bucket))
    ]
    else (l, admit none)

unfoldable pub finish : String → ℤ → Limiter × Bool → Limiter × Check
unfolding take_bucket
finish taguuid user_limit (l, true) = (l, reject)
finish taguuid user_limit (l, false) = take_bucket l taguuid user_limit

-- `if noUDPsource || l.Nodetype == "hysteria2"`
unfoldable pub count_device : Limiter → String → String → Bool → UserLimitInfo → Limiter × Bool
unfolding claim_ip
count_device l taguuid ip no_udp_source u =
    if no_udp_source || l.nodetype == "hysteria2"
    then claim_ip l taguuid ip u.uid u.device_limit
    else (l, false)

unfoldable pub check_known : Limiter → String → String → Bool → ℤ → UserLimitInfo → Limiter × Check
unfolding user_rate count_device finish
check_known l taguuid ip no_udp_source now u =
    let (l₁, user_limit) = user_rate l taguuid u now in
    finish taguuid user_limit (count_device l₁ taguuid ip no_udp_source u)

unfoldable pub check_limit : Limiter → String → String → Bool → ℤ → Limiter × Check
unfolding lookup trim_prefix check_known
check_limit l taguuid ip no_udp_source now = elim (lookup taguuid l.user_limit_info) [
  | none ↦ (l, reject)
  | some u ↦ check_known l taguuid (trim_prefix ip "::ffff:") no_udp_source now u
]
