-- ===== src/Prelude/Text.antt =====
-- The functions of Go's `strings` that the program calls, over texts.
use Prim.Native.Char.{code}
use Prim.Native.Nat.{ℕ, zero, suc, ◌/◌, ◌%◌}
use Prim.Native.String.{String, ◌++◌ as join}
use mathlib.Core.Path.{◌≡◌, refl}
use mathlib.Core.Bool.{Bool, true, false, ◌&&◌, ◌||◌}
use mathlib.Core.Option.{Option, none, some}
use mathlib.Core.List.{List, [], ◌∷◌}
use v2node_pro.Prelude.Tests.{ltb, leb, nat_beq, if◌then◌else◌}
use v2node_pro.Prelude.Int.{ℤ, pos, negsuc}
use v2node_pro.Prelude.Bytes.{nth_char}

-- The text behind a prefix, if `s` has it.
unfoldable pub strip_prefix : String → String → Option String
strip_prefix String.[] s = some s
strip_prefix (String.◌∷◌ c p) String.[] = none
strip_prefix (String.◌∷◌ c p) (String.◌∷◌ d s) =
    if nat_beq (code c) (code d) then strip_prefix p s else none

-- strings.TrimPrefix
unfoldable pub trim_prefix : String → String → String
unfolding strip_prefix
trim_prefix s p = elim (strip_prefix p s) [ none ↦ s | some rest ↦ rest ]

trim_prefix_mapped : trim_prefix "::ffff:10.0.0.1" "::ffff:" ≡ "10.0.0.1"
unfolding trim_prefix
trim_prefix_mapped = refl

is_empty : String → Bool
is_empty String.[] = true
is_empty (String.◌∷◌ c s) = false

-- unicode.IsSpace
is_space : ℕ → Bool
is_space c =
    (leb 9 c && leb c 13)
    || nat_beq c 32
    || nat_beq c 0x85
    || nat_beq c 0xa0
    || nat_beq c 0x1680
    || (leb 0x2000 c && leb c 0x200a)
    || nat_beq c 0x2028
    || nat_beq c 0x2029
    || nat_beq c 0x202f
    || nat_beq c 0x205f
    || nat_beq c 0x3000

trim_left : String → String
unfolding is_space
trim_left String.[] = ""
trim_left (String.◌∷◌ c s) =
    let rest = trim_left s in if is_space (code c) then rest else String.◌∷◌ c s

trim_right : String → String
unfolding is_space is_empty
trim_right String.[] = ""
trim_right (String.◌∷◌ c s) =
    let rest = trim_right s in if is_space (code c) && is_empty rest then "" else String.◌∷◌ c rest

-- strings.TrimSpace
unfoldable pub trim_space : String → String
unfolding trim_left trim_right
trim_space s = trim_right (trim_left s)

-- strings.Join
unfoldable pub join_by : String → List String → String
join_by separator [] = ""
join_by separator (s ∷ []) = s
join_by separator (s ∷ t ∷ rest) = join s (join separator (join_by separator (t ∷ rest)))

-- The last `fuel` digits of `n`, without leading zeros.
unfoldable pub digits : ℕ → ℕ → String
unfolding nth_char
digits zero n = ""
digits (suc fuel) n =
    let front = digits fuel (n / 10) in
    let digit = nth_char "0123456789" (n % 10) in if ltb n 10 then digit else join front digit

-- strconv.Itoa, on an int of 64 bits: it has at most 19 digits.
unfoldable pub itoa : ℤ → String
unfolding digits
itoa (pos n) = digits 20 n
itoa (negsuc n) = join "-" (digits 20 (suc n))

text_vectors :
    (trim_space " \tOn\n" ≡ "On")
    × (join_by "." ("a" ∷ "b" ∷ "c" ∷ []) ≡ "a.b.c")
    × (itoa (pos 0) ≡ "0")
    × (itoa (pos 9223372036854775807) ≡ "9223372036854775807")
    × (itoa (negsuc 99) ≡ "-100")
unfolding trim_space join_by itoa
text_vectors = (refl, refl, refl, refl, refl)
