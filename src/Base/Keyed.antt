-- ===== src/Base/Keyed.antt =====
-- A slice of items with a number for a key, in which an item replaces the one with its key and is
-- appended where there is none: it represents a finite map.
use Prim.Native.Nat.{ℕ, zero, suc}
use mathlib.Core.Path.{◌≡◌, refl, subst}
use mathlib.Core.Bool.{false}
use mathlib.Core.List.{List, [], ◌∷◌, ◌++◌}
use mathlib.Core.Option.{Option, none, some}
use native.Mathlib.Omega.{arith}
use iracelog_service_manager.Base.Tests.{nat_key, ◌==◌, if◌then◌else◌}
use iracelog_service_manager.Base.Lists.{index_func, set}

module _ {ℓ} {A : Type ℓ} (key : A → ℕ) where
  unfoldable pub find_by : ℕ → List A → Option A
  find_by k [] = none
  find_by k (x ∷ xs) = if key x == k then some x else find_by k xs

  -- No item has the key `k`.
  abbrev pub Fresh : ℕ → List A → Type 0
  Fresh k [] = Unit
  Fresh k (x ∷ xs) = ((key x == k) ≡ false) × Fresh k xs

  -- No two items have the same key.
  abbrev pub Distinct : List A → Type 0
  Distinct [] = Unit
  Distinct (x ∷ xs) = Fresh (key x) xs × Distinct xs

  pub index_func-Fresh : (k : ℕ) (xs : List A) → index_func (λ x. key x == k) xs ≡ none → Fresh k xs
  unfolding index_func
  index_func-Fresh k [] h = tt
  index_func-Fresh k (x ∷ xs) h = ground (arith, index_func-Fresh k xs)

  Fresh-snoc :
      (k : ℕ) (xs : List A) (v : A) → Fresh k xs → (key v == k) ≡ false → Fresh k (xs ++ v ∷ [])
  Fresh-snoc k [] v h e = (e, tt)
  Fresh-snoc k (x ∷ xs) v h e = (h.0, Fresh-snoc k xs v h.1 e)

  Fresh-set :
      (k : ℕ) (xs : List A) (i : ℕ) (v : A)
      → Fresh k xs
      → (key v == k) ≡ false
      → Fresh k (set xs i v)
  Fresh-set k [] i v h e = h
  Fresh-set k (x ∷ xs) zero v h e = (e, h.1)
  Fresh-set k (x ∷ xs) (suc i) v h e = (h.0, Fresh-set k xs i v h.1 e)

  -- Replacing the item that was found keeps the keys distinct.
  pub Distinct-set :
      (xs : List A) (i : ℕ) (v : A)
      → index_func (λ x. key x == key v) xs ≡ some i
      → Distinct xs
      → Distinct (set xs i v)
  unfolding index_func
  Distinct-set [] i v e h = absurd (cc)
  Distinct-set (x ∷ xs) zero v e h =
      let same : key x ≡ key v = ground arith in (subst (λ k. Fresh k xs) same h.0, h.1)
  Distinct-set (x ∷ xs) (suc i) v e h =
      let other : (key v == key x) ≡ false = ground arith in
      let later : index_func (λ y. key y == key v) xs ≡ some i = ground arith in
      (Fresh-set (key x) xs i v h.0 other, Distinct-set xs i v later h.1)

  pub Distinct-snoc :
      (xs : List A) (v : A) → Fresh (key v) xs → Distinct xs → Distinct (xs ++ v ∷ [])
  Distinct-snoc [] v f h = (tt, tt)
  Distinct-snoc (x ∷ xs) v f h =
      (Fresh-snoc (key x) xs v h.0 (ground (arith, f.0)), Distinct-snoc xs v f.1 h.1)

  pub find_by-snoc :
      (j : ℕ) (xs : List A) (v : A)
      → Fresh (key v) xs
      → find_by j (xs ++ v ∷ []) ≡ (if key v == j then some v else find_by j xs)
  unfolding find_by
  find_by-snoc j [] v f = refl
  find_by-snoc j (x ∷ xs) v f = ground (arith, find_by-snoc j xs v f.1)

  pub find_by-set :
      (j : ℕ) (xs : List A) (i : ℕ) (v : A)
      → index_func (λ x. key x == key v) xs ≡ some i
      → find_by j (set xs i v) ≡ (if key v == j then some v else find_by j xs)
  unfolding find_by index_func
  find_by-set j [] i v e = absurd (cc)
  find_by-set j (x ∷ xs) zero v e = ground arith
  find_by-set j (x ∷ xs) (suc i) v e = ground (arith, find_by-set j xs i v)
