-- ===== src/Base/Decimal.antt =====
-- Python's `str(n)` of a number, and the digits of a text.
pub mod Laws
use Prim.Native.Nat.{ℕ, zero, suc, ◌+◌, ◌/◌, ◌%◌}
use Prim.Native.Char.{Char, code}
use Prim.Native.String.{String, [], ◌∷◌, char_at}
use mathlib.Core.Bool.{Bool, true, false, ◌&&◌}
use kyrgstudio.Base.Tests.{ltb, leb, if◌then◌else◌}

unfoldable pub digit : ℕ → Char
digit n = char_at "0123456789" n

-- `str(n)`, with a round of fuel for each digit; `n + 1` rounds are enough, as `n / 10 < n`
unfoldable pub decimal_from : ℕ → ℕ → String → String
unfolding digit
decimal_from zero n rest = rest
decimal_from (suc fuel) n rest =
    let more = decimal_from fuel (n / 10) (digit (n % 10) ∷ rest) in
    if ltb n 10 then digit n ∷ rest else more

unfoldable pub decimal : ℕ → String
unfolding decimal_from
decimal n = decimal_from (n + 1) n []

-- The text has only digits of ASCII.
unfoldable pub all_digits : String → Bool
all_digits [] = true
all_digits (c ∷ s) = leb 48 (code c) && leb (code c) 57 && all_digits s
