-- ===== src/Counter/Tests.antt =====
-- The counters at concrete events.
use v2node_pro.Prelude.{◌≡◌, refl, [], ◌∷◌}
use v2node_pro.Prelude.Int.{pos, negsuc, add64}
use v2node_pro.Prelude.Eq.{string_eq}
use v2node_pro.Prelude.Dict.{lookup, insert}
use v2node_pro.Counter.{TrafficCounter, get_down_count, rx}

abbrev some_traffic : TrafficCounter
some_traffic = ("n|a", record { up_counter = pos 10; down_counter = pos 20 }) ∷ []

-- An int64 counter wraps around.
rx_wraps :
    get_down_count (rx (rx [] "n|a" (pos 9223372036854775807)) "n|a" (pos 1)) "n|a"
    ≡ negsuc 9223372036854775807
unfolding get_down_count rx lookup insert add64
rx_wraps = refl
