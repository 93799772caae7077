-- ===== src/Prelude/Tally.antt =====
-- How many entries of a list pass a test. Two lists with equal tallies for every test hold the same
-- entries, as often, and `omega` reads a tally as a number.
use Prim.Native.Nat.{ℕ, ◌+◌, ◌≤◌}
use mathlib.Core.Path.{◌≡◌, refl}
use mathlib.Core.Bool.{Bool}
use mathlib.Core.List.{List, [], ◌∷◌, ◌++◌, reverse, reverse-cons, append-nil}
use native.Mathlib.Omega.{arith}
use clumsy.Prelude.Tests.{if◌then◌else◌}
use clumsy.Prelude.Lists.{length, length-append, reject, select}

module _ {ℓ} {A : Type ℓ} where
  abbrev pub tally : (A → Bool) → List A → ℕ
  tally p [] = 0
  tally p (x ∷ xs) = (if p x then 1 else 0) + tally p xs

  pub tally-append : (p : A → Bool) (xs ys : List A) → tally p (xs ++ ys) ≡ tally p xs + tally p ys
  tally-append p [] ys = omega arith
  tally-append p (x ∷ xs) ys = omega (arith, tally-append p xs ys)

  pub tally-reverse : (p : A → Bool) (xs : List A) → tally p (reverse xs) ≡ tally p xs
  tally-reverse p [] = refl
  tally-reverse p (x ∷ xs) =
      rw (reverse-cons x xs)
        (omega (arith, tally-append p (reverse xs) (x ∷ []), tally-reverse p xs))

  pub length-reverse : (xs : List A) → length (reverse xs) ≡ length xs
  length-reverse [] = refl
  length-reverse (x ∷ xs) =
      rw (reverse-cons x xs) (omega (arith, length-append (reverse xs) (x ∷ []), length-reverse xs))

  -- To drop entries and to turn a list round commute.
  pub reject-append :
      (p : A → Bool) (xs ys : List A) → reject p (xs ++ ys) ≡ reject p xs ++ reject p ys
  reject-append p [] ys = refl
  reject-append p (x ∷ xs) ys = ground (arith, reject-append p xs ys)

  reject-snoc :
      (p : A → Bool) (xs : List A) (x : A)
      → reject p (xs ++ x ∷ []) ≡ (if p x then reject p xs else reject p xs ++ x ∷ [])
  reject-snoc p xs x = ground (arith, reject-append p xs (x ∷ []), append-nil (reject p xs))

  pub reject-reverse : (p : A → Bool) (xs : List A) → reject p (reverse xs) ≡ reverse (reject p xs)
  reject-reverse p [] = refl
  reject-reverse p (x ∷ xs) = rw (reverse-cons x xs) (
      ground
        (arith, reject-snoc p (reverse xs) x, reject-reverse p xs, reverse-cons x (reject p xs)))

  pub length-select-le : (p : A → Bool) (xs : List A) → length (select p xs) ≤ length xs
  length-select-le p [] = omega arith
  length-select-le p (x ∷ xs) = ground (arith, length-select-le p xs)
