-- ===== src/Prelude/Scan.antt =====
-- strconv.Atoi on an int of 64 bits, strings.Split and strings.SplitN at one ASCII character.
pub mod Laws
use Prim.Native.Char.{code}
use Prim.Native.Nat.{ℕ, zero, suc, ◌+◌, ◌-◌, ◌*◌, ◌/◌, ◌%◌, ◌^◌, ◌≤◌, ◌<◌}
use Prim.Native.String.{String, ◌++◌ as join}
use mathlib.Core.Path.{◌≡◌, refl, ap, sym, ◌∙◌}
use mathlib.Core.Logic.{inl, inr}
use mathlib.Core.Bool.{Bool, true, false, ◌&&◌}
use mathlib.Core.Option.{Option, none, some}
use mathlib.Core.List.{List, [], ◌∷◌}
use native.Mathlib.Omega.{arith}
use v2node_pro.Prelude.Tests.{ltb, leb, nat_beq, if◌then◌else◌, Bool-cases}
use v2node_pro.Prelude.Int.{ℤ, pos, negsuc, sub_ℕ}
use v2node_pro.Prelude.Bytes.{nth_char}
use v2node_pro.Prelude.Text.{itoa}

-- strconv.ParseUint's loop in base 10: no value for a character that is no digit, and the largest
-- uint64 as soon as the number is too large, whatever follows.
unfoldable pub parse_digits : ℕ → String → Option ℕ
parse_digits n String.[] = some n
parse_digits n (String.◌∷◌ c s) =
    let rest = parse_digits (n * 10 + (code c - b'0')) s in
    if leb b'0' (code c) && leb (code c) b'9'
    then (if ltb (n * 10 + (code c - b'0')) (2 ^ 64) then rest else some (2 ^ 64 - 1))
    else none

unfoldable parse_uint : String → Option ℕ
unfolding parse_digits
parse_uint String.[] = none
parse_uint (String.◌∷◌ c s) = parse_digits 0 (String.◌∷◌ c s)

-- The int nearest to n or -n; 0 where there was no number.
unfoldable signed_of : Bool → Option ℕ → ℤ
signed_of negative none = pos 0
signed_of false (some n) = if ltb n (2 ^ 63) then pos n else pos (2 ^ 63 - 1)
signed_of true (some n) = if leb n (2 ^ 63) then sub_ℕ 0 n else negsuc (2 ^ 63 - 1)

-- `i, _ := strconv.Atoi(s)`: what stands in i, whether or not there is an error.
unfoldable pub atoi : String → ℤ
unfolding parse_uint signed_of
atoi String.[] = pos 0
atoi (String.◌∷◌ c s) =
    if nat_beq (code c) b'-'
    then signed_of true (parse_uint s)
    else if nat_beq (code c) b'+'
    then signed_of false (parse_uint s)
    else signed_of false (parse_uint (String.◌∷◌ c s))

cons_part : String → List String → List String
cons_part c [] = c ∷ []
cons_part c (part ∷ parts) = join c part ∷ parts

-- `strings.Split(s, sep)` for the character `sep`
unfoldable pub split : ℕ → String → List String
unfolding cons_part
split sep String.[] = "" ∷ []
split sep (String.◌∷◌ c s) =
    let parts = split sep s in
    if nat_beq (code c) sep then "" ∷ parts else cons_part (String.◌∷◌ c String.[]) parts

-- `strings.SplitN(s, sep, 2)`: the two parts, if `sep` stands in the text
unfoldable pub cut : ℕ → String → Option (String × String)
cut sep String.[] = none
cut sep (String.◌∷◌ c s) =
    let rest = cut sep s in
    if nat_beq (code c) sep
    then some ("", s)
    else elim rest [ none ↦ none | some (key, value) ↦ some (String.◌∷◌ c key, value) ]

scan_vectors :
    (atoi "60" ≡ pos 60)
    × (atoi "-7" ≡ negsuc 6)
    × (atoi "1 minute" ≡ pos 0)
    × (atoi "" ≡ pos 0)
    × (atoi "99999999999999999999x" ≡ pos (2 ^ 63 - 1))
    × (split b',' "a=1,,b" ≡ "a=1" ∷ "" ∷ "b" ∷ [])
    × (cut b'=' "a=1=2" ≡ some ("a", "1=2"))
    × (cut b'=' "a" ≡ none)
unfolding atoi split cut
scan_vectors = (refl, refl, refl, refl, refl, refl, refl, refl)
