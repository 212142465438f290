-- ===== src/Prelude/Scan/Laws.antt =====
-- strconv.Atoi reads back what strconv.Itoa writes.
use Prim.Native.Char.{Char}
use Prim.Native.Nat.{ℕ, zero, suc, ◌+◌, ◌*◌, ◌/◌, ◌%◌, ◌^◌, ◌<◌}
use Prim.Native.String.{String, ◌++◌ as join}
use mathlib.Core.Path.{◌≡◌, ap, sym, ◌∙◌}
use mathlib.Core.Logic.{inl, inr}
use mathlib.Core.Option.{some}
use text.Mathlib.TextLemmas.{append-nil, append_assoc, nil-append, cons-append}
use native.Mathlib.Omega.{arith}
use v2node_pro.Prelude.Tests.{ltb, Bool-cases}
use v2node_pro.Prelude.Int.{ℤ, pos, negsuc}
use v2node_pro.Prelude.Bytes.{nth_char}
use v2node_pro.Prelude.Text.{itoa, digits}
use v2node_pro.Prelude.Scan.{parse_digits, atoi}

-- 10 ^ f, which computes by one step.
abbrev ten_to : ℕ → ℕ
ten_to zero = 1
ten_to (suc f) = 10 * ten_to f

join_one : (c : Char) (s : String) → join (String.◌∷◌ c String.[]) s ≡ String.◌∷◌ c s
join_one c s = rw (cons-append, nil-append)

parse-digit :
    (m d : ℕ) (rest : String)
    → d < 10
    → m * 10 + d < 2 ^ 64
    → parse_digits m (join (nth_char "0123456789" d) rest) ≡ parse_digits (m * 10 + d) rest
unfolding parse_digits nth_char
parse-digit m zero rest small fits = rw join_one (ground arith)
parse-digit m (suc zero) rest small fits = rw join_one (ground arith)
parse-digit m (suc (suc zero)) rest small fits = rw join_one (ground arith)
parse-digit m (suc (suc (suc zero))) rest small fits = rw join_one (ground arith)
parse-digit m (suc (suc (suc (suc zero)))) rest small fits = rw join_one (ground arith)
parse-digit m (suc (suc (suc (suc (suc zero))))) rest small fits = rw join_one (ground arith)
parse-digit m (suc (suc (suc (suc (suc (suc zero)))))) rest small fits = rw join_one (ground arith)
parse-digit m (suc (suc (suc (suc (suc (suc (suc zero))))))) rest small fits =
    rw join_one (ground arith)
parse-digit m (suc (suc (suc (suc (suc (suc (suc (suc zero)))))))) rest small fits =
    rw join_one (ground arith)
parse-digit m (suc (suc (suc (suc (suc (suc (suc (suc (suc zero))))))))) rest small fits =
    rw join_one (ground arith)
parse-digit m (suc (suc (suc (suc (suc (suc (suc (suc (suc (suc d)))))))))) rest small fits =
    absurd (omega arith)

parse-digits :
    (fuel n : ℕ) (rest : String)
    → n < ten_to fuel
    → n < 2 ^ 64
    → parse_digits 0 (join (digits fuel n) rest) ≡ parse_digits n rest
unfolding digits
parse-digits zero n rest h fits = let z : n ≡ 0 = omega arith in rw (z, nil-append)
parse-digits (suc fuel) n rest h fits = elim (Bool-cases (ltb n 10)) [
  | inl last ↦
      let same : n % 10 ≡ n = ground arith in
      rw (last, same)
        (parse-digit 0 n rest (ground arith) (omega arith)
          ∙ ap (λ (k : ℕ). parse_digits k rest) (omega arith))
  | inr more ↦
      rw (more, append_assoc)
        (parse-digits fuel (n / 10) (join (nth_char "0123456789" (n % 10)) rest) (omega arith)
            (omega arith)
          ∙ parse-digit (n / 10) (n % 10) rest (omega arith) (omega arith)
          ∙ ap (λ (k : ℕ). parse_digits k rest) (omega arith))
]

digits_read : (n : ℕ) → n < 2 ^ 64 → parse_digits 0 (digits 20 n) ≡ some n
unfolding parse_digits
digits_read n h =
    ap (parse_digits 0) (sym (append-nil (digits 20 n))) ∙ parse-digits 20 n "" (omega arith) h

atoi_unsigned : (s : String) (n : ℕ) → parse_digits 0 s ≡ some n → n < 2 ^ 63 → atoi s ≡ pos n
unfolding atoi parse_digits
atoi_unsigned String.[] n h fits = ground arith
atoi_unsigned (String.◌∷◌ c s) n h fits = ground arith

atoi_negative :
    (s : String) (n : ℕ)
    → parse_digits 0 s ≡ some (suc n)
    → n < 2 ^ 63
    → atoi (join "-" s) ≡ negsuc n
unfolding atoi parse_digits
atoi_negative String.[] n h fits = cc
atoi_negative (String.◌∷◌ c s) n h fits = rw join_one (ground arith)

-- The ints of 64 bits.
abbrev pub IsInt64 : ℤ → Type 0
IsInt64 (pos n) = n < 2 ^ 63
IsInt64 (negsuc n) = n < 2 ^ 63

pub atoi-itoa : (z : ℤ) → IsInt64 z → atoi (itoa z) ≡ z
unfolding itoa
atoi-itoa (pos n) h = atoi_unsigned (digits 20 n) n (digits_read n (omega arith)) h
atoi-itoa (negsuc n) h = atoi_negative (digits 20 (suc n)) n (digits_read (suc n) (omega arith)) h
