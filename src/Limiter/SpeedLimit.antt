-- ===== src/Limiter/SpeedLimit.antt =====
-- determineSpeedLimit of limiter/dynamic.go.
use v2node_pro.Prelude.{ℕ, ◌≤◌, ◌≡◌, ◌≢◌, ◌⊎◌, arith}
use v2node_pro.Prelude.Int.{pos, pos_part}
use v2node_pro.Prelude.Eq.{int_eq}
use v2node_pro.Limiter.{determine_speed_limit}

-- `r` is the least of the limits that are set, where 0 means that a limit is not set.
pub record IsLeastLimit (a b r : ℕ) : Type 0 where
  pub chosen : (r ≡ a) ⊎ (r ≡ b)
  pub unset : r ≡ 0 → (a ≡ 0) × (b ≡ 0)
  pub below_first : a ≢ 0 → r ≤ a
  pub below_second : b ≢ 0 → r ≤ b

-- Of two limits that are not negative, the result is the least that is set.
pub determine_speed_limit-IsLeastLimit :
    (a b : ℕ)
    → (determine_speed_limit (pos a) (pos b)
        ≡ pos (pos_part (determine_speed_limit (pos a) (pos b))))
      × IsLeastLimit a b (pos_part (determine_speed_limit (pos a) (pos b)))
unfolding determine_speed_limit
determine_speed_limit-IsLeastLimit a b = ground arith
