-- ===== src/Base/Text.antt =====
-- Python's `str` methods that the program calls, over the native strings.
pub mod Strip
use Prim.Native.Nat.{zero, suc, ◌+◌, ◌*◌, ℕ, ◌-◌}
use Prim.Native.Char.{Char, code}
use Prim.Native.String.{String, [], ◌∷◌, char_at}
use mathlib.Core.Path.{◌≡◌, refl}
use mathlib.Core.Bool.{Bool, false, ◌&&◌, ◌||◌}
use mathlib.Core.List.{List}
use mathlib.Core.Option
use kyrgstudio.Base.Int.{ℤ, pos, negsuc}
use mathlib.Core.Option.{Option, none, some}
use kyrgstudio.Base.Tests.{◌==◌, leb, str_eq, if◌then◌else◌}

-- `ch.isspace()`: the white space of Unicode that Python's `strip` removes.
unfoldable pub is_space : ℕ → Bool
is_space c =
    (leb 9 c && leb c 13)
    || (leb 28 c && leb c 32)
    || c == 133
    || c == 160
    || c == 5760
    || (leb 8192 c && leb c 8202)
    || c == 8232
    || c == 8233
    || c == 8239
    || c == 8287
    || c == 12288

-- `s.lstrip()`
unfoldable pub strip_left : String → String
unfolding is_space
strip_left [] = []
strip_left (c ∷ s) = if is_space (code c) then strip_left s else c ∷ s

abbrev pub keep_unless_blank : Char → String → String
keep_unless_blank c [] = if is_space (code c) then [] else c ∷ []
keep_unless_blank c (d ∷ s) = c ∷ d ∷ s

-- `s.rstrip()`
unfoldable pub strip_right : String → String
unfolding is_space
strip_right [] = []
strip_right (c ∷ s) = keep_unless_blank c (strip_right s)

-- `s.strip()`
unfoldable pub strip : String → String
unfolding strip_left strip_right
strip s = strip_right (strip_left s)

-- `str(value).strip() == ""`
abbrev pub is_blank : String → Bool
is_blank s = str_eq (strip s) ""

-- `s.strip() or None`
abbrev pub or_none : String → Option String
or_none s = if str_eq s "" then none else some s

-- `value in (a, b, …)` for strings
abbrev pub is_one_of : String → List String → Bool
is_one_of s List.[] = false
is_one_of s (List.◌∷◌ t ts) = str_eq s t || is_one_of s ts

-- One capital letter of ASCII in lower case; other characters stay.
abbrev lower_char : Char → Char
lower_char c =
    if leb 65 (code c) && leb (code c) 90
    then char_at "abcdefghijklmnopqrstuvwxyz" (code c - 65)
    else c

-- `s.lower()`, on the letters of ASCII
unfoldable pub lower : String → String
lower [] = []
lower (c ∷ s) = lower_char c ∷ lower s

-- `needle in s` for a needle of one character
unfoldable pub has_char : ℕ → String → Bool
has_char n [] = false
has_char n (c ∷ s) = code c == n || has_char n s

-- The digits of an `int` literal from the accumulator on, single underscores between them; the flag
-- tells whether a digit came just before.
unfoldable pub parse_digits : ℕ → Bool → String → Option ℕ
parse_digits acc after [] = if after then some acc else none
parse_digits acc after (c ∷ s) =
    let here = leb 48 (code c) && leb (code c) 57 in
    let rest = parse_digits (if here then acc * 10 + (code c - 48) else acc) here s in
    if here || (after && code c == 95) then rest else none

abbrev negated : ℕ → ℤ
negated zero = pos 0
negated (suc n) = negsuc n

abbrev signed : String → Option ℤ
signed [] = none
signed (c ∷ s) =
    if code c == 45
    then Option.map negated (parse_digits 0 false s)
    else Option.map pos (parse_digits 0 false (if code c == 43 then s else c ∷ s))

-- `int(s)` in base ten on the digits of ASCII; `none` is its `ValueError`
unfoldable pub parse_int : String → Option ℤ
unfolding strip parse_digits
parse_int s = signed (strip s)

parse_int_test : parse_int " -1_2\n" ≡ some (negsuc 11)
unfolding parse_int
parse_int_test = refl

strip-lower_test : lower (strip " \n COPY_Analysis ") ≡ "copy_analysis"
unfolding lower strip
strip-lower_test = refl

-- `s.partition(c)[0]` for a separator of one character
unfoldable pub before_char : ℕ → String → String
before_char n [] = []
before_char n (c ∷ s) = if code c == n then [] else c ∷ before_char n s
