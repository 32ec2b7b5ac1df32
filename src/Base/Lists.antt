-- ===== src/Base/Lists.antt =====
-- Lists measured by native numbers, and the row operations of a table.
use Prim.Native.Nat.{ℕ, zero, suc, ◌-◌, min}
use mathlib.Core.Path.{◌≡◌, refl}
use mathlib.Core.Logic.{◌⊎◌}
use mathlib.Core.Bool.{Bool, true, false, ◌||◌}
use mathlib.Core.Option
use mathlib.Core.Option.{Option, none, some}
use mathlib.Core.List.{List, [], ◌∷◌, ◌++◌}
use native.Mathlib.Omega.{arith}
use kyrgstudio.Base.Tests.{if◌then◌else◌}

module _ {ℓ} {A : Type ℓ} where
  abbrev pub length : List A → ℕ
  length [] = 0
  length (x ∷ xs) = suc (length xs)

  abbrev pub take : ℕ → List A → List A
  take zero xs = []
  take (suc n) [] = []
  take (suc n) (x ∷ xs) = x ∷ take n xs

  abbrev pub drop : ℕ → List A → List A
  drop zero xs = xs
  drop (suc n) [] = []
  drop (suc n) (x ∷ xs) = drop n xs

  pub length-take : (n : ℕ) (xs : List A) → length (take n xs) ≡ min n (length xs)
  length-take zero xs = omega arith
  length-take (suc n) [] = omega arith
  length-take (suc n) (x ∷ xs) = omega (arith, length-take n xs)

  pub length-drop : (n : ℕ) (xs : List A) → length (drop n xs) ≡ length xs - n
  length-drop zero xs = omega arith
  length-drop (suc n) [] = omega arith
  length-drop (suc n) (x ∷ xs) = omega (arith, length-drop n xs)

  -- A predicate by recursion, which the tactics read and build.
  abbrev pub All {κ} : (A → Type κ) → List A → Type κ
  All P [] = Unit
  All P (x ∷ xs) = P x × All P xs

-- The rows that a `WHERE` clause selects, and those of a list.
module _ {A : Type 0} where
  unfoldable pub find : (A → Bool) → List A → Option A
  find p [] = none
  find p (x ∷ xs) = if p x then some x else find p xs

  unfoldable pub select : (A → Bool) → List A → List A
  select p [] = []
  select p (x ∷ xs) = if p x then x ∷ select p xs else select p xs

  -- The item is one of the list.
  abbrev pub Among : A → List A → Type 0
  Among x [] = ⊥
  Among x (y ∷ ys) = (x ≡ y) ⊎ Among x ys

  unfoldable pub any : (A → Bool) → List A → Bool
  any p [] = false
  any p (x ∷ xs) = p x || any p xs

  -- `UPDATE … SET … WHERE …`
  unfoldable pub update_where : (A → Bool) → (A → A) → List A → List A
  update_where p f [] = []
  update_where p f (x ∷ xs) = (if p x then f x else x) ∷ update_where p f xs

module _ {A : Type 0} where
  -- The row as `UPDATE … WHERE` leaves it.
  abbrev pub updated_by : (A → Bool) → (A → A) → A → A
  updated_by p f x = if p x then f x else x

  -- An update that keeps what a query looks for is seen by the query in the row that it finds.
  pub find-update_where :
      (q p : A → Bool) (f : A → A) (xs : List A)
      → ((x : A) → q (f x) ≡ q x)
      → find q (update_where p f xs) ≡ Option.map (updated_by p f) (find q xs)
  unfolding find update_where
  find-update_where q p f [] same = refl
  find-update_where q p f (x ∷ xs) same = ground (arith, same x, find-update_where q p f xs same)

  pub find-append :
      (q : A → Bool) (xs ys : List A)
      → find q (xs ++ ys) ≡ elim (find q xs) [ none ↦ find q ys | some x ↦ some x ]
  unfolding find
  find-append q [] ys = refl
  find-append q (x ∷ xs) ys = ground (arith, find-append q xs ys)

  -- What a query finds meets its condition.
  pub find-holds : (q : A → Bool) (xs : List A) (x : A) → find q xs ≡ some x → q x ≡ true
  unfolding find
  find-holds q [] x h = cc
  find-holds q (y ∷ xs) x h = ground (arith, find-holds q xs x)

  pub any-eq-is_some :
      (q : A → Bool) (xs : List A) → any q xs ≡ elim (find q xs) [ none ↦ false | some x ↦ true ]
  unfolding find any
  any-eq-is_some q [] = refl
  any-eq-is_some q (x ∷ xs) = ground (arith, any-eq-is_some q xs)
