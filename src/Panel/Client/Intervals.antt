-- ===== src/Panel/Client/Intervals.antt =====
-- intervalToTime: which numbers of seconds it can hold, in each form that the panel may send.
use Prim.Native.Nat.{◌<◌}
use v2node_pro.Prelude.{ℕ, ◌^◌, ◌*◌, ◌≤◌, ◌≡◌, ◌↔◌, refl, Bool, ap, arith}
use v2node_pro.Prelude.Int.{pos, mul64, wrap64, ℤ}
use v2node_pro.Prelude.Text.{itoa}
use v2node_pro.Prelude.Scan.Laws.{atoi-itoa}
use v2node_pro.Prelude.Flow.{ok}
use v2node_pro.Panel.NodeInfo.{int, int64, text, float}
use v2node_pro.Panel.Client.{Codec, interval_to_time, float_to_int64, fits64, second}

mul64-second : (n : ℕ) → (mul64 (pos n) second ≡ pos (n * second)) ↔ (n ≤ 9223372036)
unfolding mul64 wrap64
mul64-second n = ground arith

-- A number of seconds that an int64 holds gives the same interval as an int, as an int64, as a text
-- and as a float whose fraction is dropped; and that interval is the number of nanoseconds, not
-- wrapped around, exactly if there are at most 9223372036 seconds.
pub interval_to_time-forms :
    (x : Codec) (n : ℕ) (fraction : Bool)
    → n < 2 ^ 63
    → ((interval_to_time x (int (pos n)) ≡ ok (pos (n * second))) ↔ (n ≤ 9223372036))
      × (interval_to_time x (int64 (pos n)) ≡ interval_to_time x (int (pos n)))
      × (interval_to_time x (text (itoa (pos n))) ≡ interval_to_time x (int (pos n)))
      × (interval_to_time x (float (record { whole = pos n; has_fraction = fraction }))
          ≡ interval_to_time x (int (pos n)))
unfolding interval_to_time float_to_int64 fits64
interval_to_time-forms x n fraction h = (
  ground (arith, mul64-second n),
  refl,
  ap (λ (z : ℤ). ok (mul64 z second)) (atoi-itoa (pos n) h),
  ground arith,
)
