-- ===== src/Common/Lists.antt =====
-- Lists measured and indexed by native numbers, under the library's names, and predicates on lists.
use Prim.Native.Nat.{ℕ, zero, suc, ◌+◌}
use mathlib.Core.Path.{◌≡◌, refl}
use mathlib.Core.Bool.{Bool, true, false, ◌&&◌}
use mathlib.Core.List.{List, [], ◌∷◌, ◌++◌}
use mathlib.Core.Option.{Option, none, some}
use native.Mathlib.Omega.{arith}
use mathlib.Core.Logic.{inl, inr}
use yunhou_users.Common.Tests.{◌==◌, if◌then◌else◌, Bool-cases}

module _ {ℓ} {A : Type ℓ} where
  abbrev pub length : List A → ℕ
  length [] = 0
  length (x ∷ xs) = suc (length xs)

  abbrev pub get_elem? : List A → ℕ → Option A
  get_elem? [] i = none
  get_elem? (x ∷ xs) zero = some x
  get_elem? (x ∷ xs) (suc i) = get_elem? xs i

  abbrev pub take : ℕ → List A → List A
  take zero xs = []
  take (suc n) [] = []
  take (suc n) (x ∷ xs) = x ∷ take n xs

  abbrev pub drop : ℕ → List A → List A
  drop zero xs = xs
  drop (suc n) [] = []
  drop (suc n) (x ∷ xs) = drop n xs

  -- The elements that pass a Boolean test, in order.
  abbrev pub keep : (A → Bool) → List A → List A
  keep p [] = []
  keep p (x ∷ xs) = let rest = keep p xs in if p x then x ∷ rest else rest

  pub length-append : (xs ys : List A) → length (xs ++ ys) ≡ length xs + length ys
  length-append [] ys = omega arith
  length-append (x ∷ xs) ys = omega (arith, length-append xs ys)

-- Equality of texts, as lists of code points.
unfoldable pub eqb : List ℕ → List ℕ → Bool
eqb [] [] = true
eqb (x ∷ xs) (y ∷ ys) = x == y && eqb xs ys
eqb _ _ = false

pub eqb→eq : (xs ys : List ℕ) → eqb xs ys ≡ true → xs ≡ ys
unfolding eqb
eqb→eq [] [] h = refl
eqb→eq [] (y ∷ ys) h = cc
eqb→eq (x ∷ xs) [] h = cc
eqb→eq (x ∷ xs) (y ∷ ys) h = ground (arith, eqb→eq xs ys)

pub eqb_refl : (xs : List ℕ) → eqb xs xs ≡ true
unfolding eqb
eqb_refl [] = refl
eqb_refl (x ∷ xs) = ground (arith, eqb_refl xs)

-- A test that every element passes.
abbrev pub all {ℓ} : {A : Type ℓ} → (A → Bool) → List A → Bool
all p [] = true
all p (x ∷ xs) = p x && all p xs

-- A predicate that holds of every element.
abbrev pub All {ℓ κ} : {A : Type ℓ} → (A → Type κ) → List A → Type κ
All P [] = Unit
All P (x ∷ xs) = P x × All P xs

module _ {ℓ κ} {A : Type ℓ} where
  pub All_mono : {P Q : A → Type κ} (f : (a : A) → P a → Q a) (xs : List A) → All P xs → All Q xs
  All_mono f [] h = tt
  All_mono f (x ∷ xs) (h, hs) = (f x h, All_mono f xs hs)

  pub All_zip :
      {P Q R : A → Type κ} (f : (a : A) → P a → Q a → R a) (xs : List A)
      → All P xs
      → All Q xs
      → All R xs
  All_zip f [] h g = tt
  All_zip f (x ∷ xs) (h, hs) (g, gs) = (f x h g, All_zip f xs hs gs)

  pub keep-All : (P : A → Type κ) (p : A → Bool) (xs : List A) → All P xs → All P (keep p xs)
  keep-All P p [] h = tt
  keep-All P p (x ∷ xs) (h, hs) = elim (Bool-cases (p x)) [
    | inl e ↦ rw e (h, keep-All P p xs hs)
    | inr e ↦ rw e (keep-All P p xs hs)
  ]
