-- ===== src/Base/Decimal/Laws.antt =====
-- `int(str(n))` is `n`.
use Prim.Native.Nat.{ℕ, zero, suc, ◌+◌, ◌*◌, ◌/◌, ◌%◌, ◌<◌}
use Prim.Native.Char.{code}
use Prim.Native.String.{String, [], ◌∷◌}
use mathlib.Core.Path.{◌≡◌, refl, ap, ◌∙◌}
use mathlib.Core.Logic.{inl, inr}
use mathlib.Core.Bool.{Bool, true, false}
use mathlib.Core.Option
use mathlib.Core.Option.{Option, none, some}
use native.Mathlib.Omega.{arith}
use kyrgstudio.Base.Tests.{ltb, Bool-cases}
use kyrgstudio.Base.Int.{pos}
use kyrgstudio.Base.Text.{
  strip, strip_left, strip_right, keep_unless_blank, is_space, parse_digits, parse_int,
}
use kyrgstudio.Base.Decimal.{digit, decimal_from, decimal, all_digits}

pub code-digit : (n : ℕ) → n < 10 → code (digit n) ≡ 48 + n
unfolding digit
code-digit zero h = refl
code-digit (suc zero) h = refl
code-digit (suc (suc zero)) h = refl
code-digit (suc (suc (suc zero))) h = refl
code-digit (suc (suc (suc (suc zero)))) h = refl
code-digit (suc (suc (suc (suc (suc zero))))) h = refl
code-digit (suc (suc (suc (suc (suc (suc zero)))))) h = refl
code-digit (suc (suc (suc (suc (suc (suc (suc zero))))))) h = refl
code-digit (suc (suc (suc (suc (suc (suc (suc (suc zero)))))))) h = refl
code-digit (suc (suc (suc (suc (suc (suc (suc (suc (suc zero))))))))) h = refl
code-digit (suc (suc (suc (suc (suc (suc (suc (suc (suc (suc n)))))))))) h =
    absurd (omega (arith, h))

all_digits-decimal_from :
    (fuel n : ℕ) (rest : String)
    → n < fuel
    → all_digits rest ≡ true
    → all_digits (decimal_from fuel n rest) ≡ true
unfolding decimal_from all_digits
all_digits-decimal_from zero n rest h digits = absurd (omega (arith, h))
all_digits-decimal_from (suc fuel) n rest h digits = elim (Bool-cases (ltb n 10)) [
  | inl small ↦ ground (arith, code-digit n)
  | inr large ↦
      ground
        (arith, code-digit (n % 10), all_digits-decimal_from fuel (n / 10) (digit (n % 10) ∷ rest))
]

parse_digits-digit :
    (acc n : ℕ) (after : Bool) (s : String)
    → n < 10
    → parse_digits acc after (digit n ∷ s) ≡ parse_digits (acc * 10 + n) true s
unfolding parse_digits
parse_digits-digit acc n after s h = ground (arith, code-digit n h)

parse_digits-decimal_from :
    (fuel n : ℕ) (rest : String)
    → n < fuel
    → parse_digits 0 false (decimal_from fuel n rest) ≡ parse_digits n true rest
unfolding decimal_from
parse_digits-decimal_from zero n rest h = absurd (omega (arith, h))
parse_digits-decimal_from (suc fuel) n rest h = elim (Bool-cases (ltb n 10)) [
  | inl small ↦ rw small (
      parse_digits-digit 0 n false rest (ground arith)
      ∙ ap (λ (k : ℕ). parse_digits k true rest) (omega arith))
  | inr large ↦ rw large (
      parse_digits-decimal_from fuel (n / 10) (digit (n % 10) ∷ rest) (ground arith)
      ∙ parse_digits-digit (n / 10) (n % 10) true rest (omega arith)
      ∙ ap (λ (k : ℕ). parse_digits k true rest) (omega arith))
]

strip_right-digits : (s : String) → all_digits s ≡ true → strip_right s ≡ s
unfolding strip_right all_digits is_space
strip_right-digits [] h = refl
strip_right-digits (c ∷ []) h = ground arith
strip_right-digits (c ∷ (d ∷ s)) h =
    ap (keep_unless_blank c) (strip_right-digits (d ∷ s) (ground arith))

pub strip-digits : (s : String) → all_digits s ≡ true → strip s ≡ s
unfolding strip strip_left all_digits is_space
strip-digits [] h = refl
strip-digits (c ∷ s) h = ground (arith, strip_right-digits (c ∷ s) h)

parse_int-digits :
    (s : String) → all_digits s ≡ true → parse_int s ≡ Option.map pos (parse_digits 0 false s)
unfolding parse_int all_digits
parse_int-digits [] h = refl
parse_int-digits (c ∷ s) h = rw (strip-digits (c ∷ s) h) (ground arith)

pub all_digits-decimal : (n : ℕ) → all_digits (decimal n) ≡ true
unfolding decimal all_digits
all_digits-decimal n = all_digits-decimal_from (n + 1) n [] (omega arith) refl

-- A number is read back from its digits.
pub parse_int-decimal : (n : ℕ) → parse_int (decimal n) ≡ some (pos n)
unfolding decimal parse_digits
parse_int-decimal n =
    parse_int-digits (decimal n) (all_digits-decimal n)
    ∙ ap (Option.map pos) (parse_digits-decimal_from (n + 1) n [] (omega arith))
