-- ===== src/Prelude/Bytes.antt =====
-- The bytes of a text, as `[]byte(s)` gives them, and encoding/base64's StdEncoding.
use Prim.Native.Nat.{ℕ, zero, suc, ◌+◌, ◌*◌, ◌/◌, ◌%◌}
use Prim.Native.Char.{code}
use Prim.Native.String.{String, ◌++◌ as join}
use mathlib.Core.Path.{◌≡◌, refl}
use mathlib.Core.Bool.{Bool, true, false, ◌&&◌}
use mathlib.Core.Option.{Option, none, some}
use mathlib.Core.List.{List, [], ◌∷◌, ◌++◌}
use v2node_pro.Prelude.Tests.{ltb, leb, nat_beq, if◌then◌else◌}

unfoldable pub utf8 : ℕ → List ℕ
utf8 c =
    if ltb c 0x80
    then c ∷ []
    else if ltb c 0x800
    then (0xc0 + c / 0x40) ∷ (0x80 + c % 0x40) ∷ []
    else if ltb c 0x10000
    then (0xe0 + c / 0x1000) ∷ (0x80 + c / 0x40 % 0x40) ∷ (0x80 + c % 0x40) ∷ []
    else (0xf0 + c / 0x40000)
      ∷ (0x80 + c / 0x1000 % 0x40)
      ∷ (0x80 + c / 0x40 % 0x40)
      ∷ (0x80 + c % 0x40)
      ∷ []

unfoldable pub bytes : String → List ℕ
unfolding utf8
bytes String.[] = []
bytes (String.◌∷◌ c s) = utf8 (code c) ++ bytes s

-- `b[:n]`, which panics past the end
unfoldable pub slice_to : ℕ → List ℕ → Option (List ℕ)
slice_to zero bs = some []
slice_to (suc n) [] = none
slice_to (suc n) (b ∷ bs) = elim (slice_to n bs) [ none ↦ none | some r ↦ some (b ∷ r) ]

unfoldable pub nth_char : String → ℕ → String
nth_char String.[] n = ""
nth_char (String.◌∷◌ c s) zero = String.◌∷◌ c String.[]
nth_char (String.◌∷◌ c s) (suc n) = nth_char s n

unfoldable digit64 : ℕ → String
unfolding nth_char
digit64 n = nth_char "ABCDEFGHIJKLMNOPQRSTUVWXYZabcdefghijklmnopqrstuvwxyz0123456789+/" n

-- base64.StdEncoding.EncodeToString
unfoldable pub base64 : List ℕ → String
unfolding digit64
base64 [] = ""
base64 (a ∷ []) = join (digit64 (a / 4)) (join (digit64 (a % 4 * 16)) "==")
base64 (a ∷ b ∷ []) =
    join (digit64 (a / 4)) (join (digit64 (a % 4 * 16 + b / 16)) (join (digit64 (b % 16 * 4)) "="))
base64 (a ∷ b ∷ c ∷ rest) = join (digit64 (a / 4)) (
    join (digit64 (a % 4 * 16 + b / 16))
      (join (digit64 (b % 16 * 4 + c / 64)) (join (digit64 (c % 64)) (base64 rest))))

-- A rune under strings.ToLower, exact for what becomes ASCII; any other rune stays outside ASCII.
lower : ℕ → ℕ
lower c =
    if leb b'A' c && leb c b'Z'
    then c + 32
    else if nat_beq c 0x130
    then b'i'
    else if nat_beq c 0x212a
    then b'k'
    else c

-- `strings.ToLower(s) == t`, for an ASCII text `t`
unfoldable pub lower_is : String → String → Bool
unfolding lower
lower_is String.[] String.[] = true
lower_is String.[] (String.◌∷◌ d t) = false
lower_is (String.◌∷◌ c s) String.[] = false
lower_is (String.◌∷◌ c s) (String.◌∷◌ d t) = nat_beq (lower (code c)) (code d) && lower_is s t

base64_vectors :
    (base64 (bytes "f") ≡ "Zg==")
    × (base64 (bytes "fo") ≡ "Zm8=")
    × (base64 (bytes "foobar") ≡ "Zm9vYmFy")
unfolding base64 bytes
base64_vectors = (refl, refl, refl)

lower_is_mixed : lower_is "AES-128-gcm" "aes-128-gcm" ≡ true
unfolding lower_is
lower_is_mixed = refl
