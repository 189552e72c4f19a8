-- ===== src/Base/Ranges.antt =====
-- Parts of slices: the items that pass a test, and the first items.
use Prim.Native.Nat.{ℕ, zero, suc, ◌+◌, ◌≤◌}
use mathlib.Core.Path.{◌≡◌, refl, ap}
use mathlib.Core.Bool.{Bool, true, false}
use mathlib.Core.Logic.{inl, inr}
use mathlib.Core.List.{List, [], ◌∷◌, ◌++◌}
use native.Mathlib.Omega.{arith}
use iracelog_service_manager.Base.Tests.{if◌then◌else◌, Bool-cases}
use iracelog_service_manager.Base.Lists.{length, All}

module _ {ℓ} {A : Type ℓ} where
  abbrev pub filter : (A → Bool) → List A → List A
  filter p [] = []
  filter p (x ∷ xs) = let rest = filter p xs in if p x then x ∷ rest else rest

  abbrev pub take : ℕ → List A → List A
  take zero xs = []
  take (suc n) [] = []
  take (suc n) (x ∷ xs) = x ∷ take n xs

  abbrev pub drop : ℕ → List A → List A
  drop zero xs = xs
  drop (suc n) [] = []
  drop (suc n) (x ∷ xs) = drop n xs

  pub take-append-drop : (n : ℕ) (xs : List A) → take n xs ++ drop n xs ≡ xs
  take-append-drop zero xs = refl
  take-append-drop (suc n) [] = refl
  take-append-drop (suc n) (x ∷ xs) = ap {B = List A} (λ r. x ∷ r) (take-append-drop n xs)

  pub length-take-le : (n : ℕ) (xs : List A) → length (take n xs) ≤ n
  length-take-le zero xs = omega arith
  length-take-le (suc n) [] = omega arith
  length-take-le (suc n) (x ∷ xs) = omega (arith, length-take-le n xs)

  pub length-take-append_drop :
      (n : ℕ) (xs : List A) → length (take n xs) + length (drop n xs) ≡ length xs
  length-take-append_drop zero xs = omega arith
  length-take-append_drop (suc n) [] = omega arith
  length-take-append_drop (suc n) (x ∷ xs) = omega (arith, length-take-append_drop n xs)

  pub filter-append :
      (p : A → Bool) (xs ys : List A) → filter p (xs ++ ys) ≡ filter p xs ++ filter p ys
  filter-append p [] ys = refl
  filter-append p (x ∷ xs) ys = elim (Bool-cases (p x)) [
    | inl e ↦ rw (e, filter-append p xs ys) refl
    | inr e ↦ rw (e, filter-append p xs ys) refl
  ]

  pub filter-All : (p : A → Bool) (xs : List A) → All (λ x. p x ≡ true) xs → filter p xs ≡ xs
  filter-All p [] h = refl
  filter-All p (x ∷ xs) (e, h) = rw (e, filter-All p xs h) refl

  pub filter_none : (p : A → Bool) (xs : List A) → All (λ x. p x ≡ false) xs → filter p xs ≡ []
  filter_none p [] h = refl
  filter_none p (x ∷ xs) (e, h) = rw (e, filter_none p xs h) refl

  pub filter_cong :
      (p q : A → Bool) (xs : List A) → All (λ x. p x ≡ q x) xs → filter p xs ≡ filter q xs
  filter_cong p q [] h = refl
  filter_cong p q (x ∷ xs) (e, h) = elim (Bool-cases (q x)) [
    | inl f ↦ rw (e, f, filter_cong p q xs h) refl
    | inr f ↦ rw (e, f, filter_cong p q xs h) refl
  ]

  pub All-filter {κ} :
      (P : A → Type κ) (p : A → Bool) (xs : List A) → All P xs → All P (filter p xs)
  All-filter P p [] h = tt
  All-filter P p (x ∷ xs) (h, k) = elim (Bool-cases (p x)) [
    | inl e ↦ rw e (h, All-filter P p xs k)
    | inr e ↦ rw e (All-filter P p xs k)
  ]

  -- A test of a test.
  pub filter-filter :
      (p q : A → Bool) (xs : List A)
      → ((x : A) → q x ≡ true → p x ≡ true)
      → filter q (filter p xs) ≡ filter q xs
  filter-filter p q [] h = refl
  filter-filter p q (x ∷ xs) h = elim (Bool-cases (q x)) [
    | inl e ↦ rw (h x e, e, filter-filter p q xs h) refl
    | inr e ↦ elim (Bool-cases (p x)) [
      | inl f ↦ rw (f, e, filter-filter p q xs h) refl
      | inr f ↦ rw (f, e, filter-filter p q xs h) refl
    ]
  ]
