-- ===== src/Base/Text/Strip.antt =====
-- Stripping a text twice is stripping it once.
use Prim.Native.Char.{Char, code}
use Prim.Native.String.{String, [], ◌∷◌}
use mathlib.Core.Path.{◌≡◌, refl}
use mathlib.Core.Bool.{false}
use mathlib.Core.Option.{some}
use mathlib.Core.Logic.{inl, inr}
use native.Mathlib.Omega.{arith}
use kyrgstudio.Base.Tests.{Bool-cases}
use kyrgstudio.Base.Text.{is_space, strip_left, strip_right, keep_unless_blank, strip, or_none}

strip_right-keep :
    (c : Char) (s : String)
    → strip_right s ≡ s
    → strip_right (keep_unless_blank c s) ≡ keep_unless_blank c s
unfolding strip_right
strip_right-keep c [] h = elim (Bool-cases (is_space (code c))) [
  | inl blank ↦ rw blank
  | inr kept ↦ rw kept (rw kept)
]
strip_right-keep c (d ∷ s) h = rw h

strip_right-strip_right : (s : String) → strip_right (strip_right s) ≡ strip_right s
unfolding strip_right
strip_right-strip_right [] = refl
strip_right-strip_right (c ∷ s) = strip_right-keep c (strip_right s) (strip_right-strip_right s)

strip_left-keep :
    (c : Char) (s : String)
    → is_space (code c) ≡ false
    → strip_left (keep_unless_blank c s) ≡ keep_unless_blank c s
unfolding strip_left
strip_left-keep c [] h = rw h (rw h)
strip_left-keep c (d ∷ s) h = rw h

-- What starts with no white space still does when its end is stripped.
strip_left-strip_right :
    (s : String) → strip_left (strip_right (strip_left s)) ≡ strip_right (strip_left s)
unfolding strip_left
strip_left-strip_right [] = unfold strip_right in refl
strip_left-strip_right (c ∷ s) = elim (Bool-cases (is_space (code c))) [
  | inl blank ↦ rw blank (strip_left-strip_right s)
  | inr kept ↦ rw kept (unfold strip_right in strip_left-keep c (strip_right s) kept)
]

-- `strip` of a stripped text is that text.
pub strip-strip : (s : String) → strip (strip s) ≡ strip s
unfolding strip
strip-strip s = rw strip_left-strip_right (strip_right-strip_right (strip_left s))

-- So is `strip(…) or None`.
pub or_none-strip : (s t : String) → or_none (strip s) ≡ some t → or_none (strip t) ≡ some t
or_none-strip s t h = ground (arith, strip-strip s)
