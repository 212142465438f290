-- ===== src/Limiter/History.antt =====
-- A limiter under any sequence of the calls that the node and the dispatcher make.
use v2node_pro.Prelude.{String, Bool, List, [], ◌∷◌, refl, Option-cases, inl, inr}
use v2node_pro.Prelude.Int.{ℤ}
use v2node_pro.Prelude.Eq.{string_eq}
use v2node_pro.Prelude.Dict.{Dict, lookup}
use v2node_pro.Prelude.Flow.{Outcome, ok, err, panic, hang}
use v2node_pro.Format.{user_tag}
use v2node_pro.Panel.{UserInfo}
use v2node_pro.Limiter.{Limiter, Registry, update_user, update_dynamic_speed_limit, add_limiter}
use v2node_pro.Limiter.Connect.{check_limit}
use v2node_pro.Limiter.Online.{get_online_device}
use v2node_pro.Limiter.Buckets.{
  IsWellFormed, check_limit-IsWellFormed, update_user-IsWellFormed, get_online_device-IsWellFormed,
  add_limiter-IsWellFormed, same-IsWellFormed,
}

pub data Call : Type 0 where
  connects : String → String → Bool → ℤ → Call
  updates : List UserInfo → List UserInfo → List UserInfo → Call
  slows : String → ℤ → ℤ → Call
  reports : Call
  counts : Dict ℤ ℤ → Call

abbrev or_same : Limiter → Outcome Limiter → Limiter
or_same l (ok m) = m
or_same l (err e) = l
or_same l panic = l
or_same l hang = l

-- `counts` is the monitor's `c.limiter.AliveList = newA`.
pub step : String → Limiter → Call → Limiter
step tag l (connects taguuid ip nu now) = (check_limit l taguuid ip nu now).0
step tag l (updates added deleted modified) = update_user l tag added deleted modified
step tag l (slows uuid limit expire) =
    or_same l (update_dynamic_speed_limit l tag uuid limit expire)
step tag l reports = (get_online_device l).0
step tag l (counts alive) = record l { alive_list = alive }

pub run : String → Limiter → List Call → Limiter
run tag l [] = l
run tag l (c ∷ cs) = run tag (step tag l c) cs

slows-IsWellFormed :
    (l : Limiter) (tag uuid : String) (limit expire : ℤ)
    → IsWellFormed l
    → IsWellFormed (or_same l (update_dynamic_speed_limit l tag uuid limit expire))
unfolding update_dynamic_speed_limit
slows-IsWellFormed l tag uuid limit expire w =
    elim (Option-cases (lookup (user_tag tag uuid) l.user_limit_info)) [
      | inl e ↦ rw (e, update_dynamic_speed_limit) w
      | inr (v, e) ↦
          rw (e, update_dynamic_speed_limit)
            (same-IsWellFormed w
              (record { speed_limiter = refl; buckets = refl; next_bucket = refl }))
    ]

step-IsWellFormed :
    (tag : String) (l : Limiter) (c : Call) → IsWellFormed l → IsWellFormed (step tag l c)
unfolding step
step-IsWellFormed tag l (connects taguuid ip nu now) w =
    check_limit-IsWellFormed l taguuid ip nu now w
step-IsWellFormed tag l (updates added deleted modified) w =
    update_user-IsWellFormed l tag added deleted modified w
step-IsWellFormed tag l (slows uuid limit expire) w = slows-IsWellFormed l tag uuid limit expire w
step-IsWellFormed tag l reports w = get_online_device-IsWellFormed l w
step-IsWellFormed tag l (counts alive) w =
    same-IsWellFormed w (record { speed_limiter = refl; buckets = refl; next_bucket = refl })

run-IsWellFormed :
    (tag : String) (l : Limiter) (cs : List Call) → IsWellFormed l → IsWellFormed (run tag l cs)
unfolding run
run-IsWellFormed tag l [] w = w
run-IsWellFormed tag l (c ∷ cs) w =
    run-IsWellFormed tag (step tag l c) cs (step-IsWellFormed tag l c w)

-- From the start of a node, after any calls of its limiter in any order: every bucket has a
-- positive rate, every user's bucket exists, and no two users share one.
pub run-add_limiter-IsWellFormed :
    (reg : Registry) (nodetype tag : String) (users : List UserInfo) (alive : Dict ℤ ℤ)
    (calls : List Call)
    → IsWellFormed (run tag (add_limiter reg nodetype tag users alive).1 calls)
run-add_limiter-IsWellFormed reg nodetype tag users alive calls =
    run-IsWellFormed tag (add_limiter reg nodetype tag users alive).1 calls
      (add_limiter-IsWellFormed reg nodetype tag users alive)
