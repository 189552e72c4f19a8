-- ===== src/Base/Lists.antt =====
-- Slices: lists measured and indexed by native numbers.
use Prim.Native.Nat.{ℕ, zero, suc, ◌+◌, ◌<◌}
use mathlib.Core.Path.{◌≡◌, refl, ap, subst}
use mathlib.Core.Bool.{Bool}
use mathlib.Core.Logic.{◌⊎◌, inl, inr}
use mathlib.Core.List.{List, [], ◌∷◌, ◌++◌}
use mathlib.Core.Option.{Option, none, some, some-injective}
use native.Mathlib.Omega.{arith}
use iracelog_service_manager.Base.Tests.{if◌then◌else◌}

module _ {ℓ} {A : Type ℓ} where
  abbrev pub length : List A → ℕ
  length [] = 0
  length (x ∷ xs) = suc (length xs)

  abbrev pub get_elem? : List A → ℕ → Option A
  get_elem? [] i = none
  get_elem? (x ∷ xs) zero = some x
  get_elem? (x ∷ xs) (suc i) = get_elem? xs i

  -- A write out of bounds changes nothing.
  abbrev pub set : List A → ℕ → A → List A
  set [] i v = []
  set (x ∷ xs) zero v = v ∷ xs
  set (x ∷ xs) (suc i) v = x ∷ set xs i v

  pub length-append : (xs ys : List A) → length (xs ++ ys) ≡ length xs + length ys
  length-append [] ys = omega arith
  length-append (x ∷ xs) ys = omega (arith, length-append xs ys)

  pub length-set : (xs : List A) (i : ℕ) (v : A) → length (set xs i v) ≡ length xs
  length-set [] i v = refl
  length-set (x ∷ xs) zero v = refl
  length-set (x ∷ xs) (suc i) v = ap suc (length-set xs i v)

-- `slices.IndexFunc`: the index of the first item that passes; `none` is the source's -1.
abbrev shift : Option ℕ → Option ℕ
shift none = none
shift (some i) = some (suc i)

module _ {ℓ} {A : Type ℓ} where
  unfoldable pub index_func : (A → Bool) → List A → Option ℕ
  index_func f [] = none
  index_func f (x ∷ xs) = if f x then some 0 else shift (index_func f xs)

-- Every item of a slice satisfies `P`.
abbrev pub All {ℓ κ} : {A : Type ℓ} → (A → Type κ) → List A → Type κ
All P [] = Unit
All P (x ∷ xs) = P x × All P xs

pub All-mono {ℓ κ μ} :
    {A : Type ℓ} (P : A → Type κ) (Q : A → Type μ) (xs : List A)
    → All P xs
    → ((x : A) → P x → Q x)
    → All Q xs
All-mono P Q [] h k = tt
All-mono P Q (x ∷ xs) h k = (k x h.0, All-mono P Q xs h.1 k)

module _ {ℓ κ} {A : Type ℓ} (P : A → Type κ) where
  pub All-append : (xs ys : List A) → All P xs → All P ys → All P (xs ++ ys)
  All-append [] ys h k = k
  All-append (x ∷ xs) ys h k = (h.0, All-append xs ys h.1 k)

  pub All-front : (xs ys : List A) → All P (xs ++ ys) → All P xs
  All-front [] ys h = tt
  All-front (x ∷ xs) ys h = (h.0, All-front xs ys h.1)

  pub All-back : (xs ys : List A) → All P (xs ++ ys) → All P ys
  All-back [] ys h = h
  All-back (x ∷ xs) ys h = All-back xs ys h.1

  pub All-set : (xs : List A) (i : ℕ) (v : A) → All P xs → P v → All P (set xs i v)
  All-set [] i v h k = h
  All-set (x ∷ xs) zero v h k = (k, h.1)
  All-set (x ∷ xs) (suc i) v h k = (h.0, All-set xs i v h.1 k)

  pub All-get : (xs : List A) (i : ℕ) {v : A} → All P xs → get_elem? xs i ≡ some v → P v
  All-get [] i h e = absurd (cc)
  All-get (x ∷ xs) zero {v} h e = subst P (some-injective x v e) h.0
  All-get (x ∷ xs) (suc i) h e = All-get xs i h.1 e

  -- What `index_func` finds is an index of the slice.
  pub All-index_func :
      (f : A → Bool) (xs : List A) (i : ℕ)
      → All P xs
      → index_func f xs ≡ some i
      → (x : A) × (get_elem? xs i ≡ some x) × P x
  unfolding index_func
  All-index_func f [] i h e = absurd (cc)
  All-index_func f (x ∷ xs) zero h e = (x, refl, h.0)
  All-index_func f (x ∷ xs) (suc i) h e = All-index_func f xs i h.1 (ground arith)

module _ {ℓ} {A : Type ℓ} where
  pub List-cases : (xs : List A) → (xs ≡ []) ⊎ ((y : A) × (ys : List A) × (xs ≡ y ∷ ys))
  List-cases [] = inl refl
  List-cases (x ∷ xs) = inr (x, xs, refl)

  pub get_elem?-of_lt : (xs : List A) (i : ℕ) → i < length xs → (x : A) × (get_elem? xs i ≡ some x)
  get_elem?-of_lt [] i h = elim h [ ]
  get_elem?-of_lt (x ∷ xs) zero h = (x, refl)
  get_elem?-of_lt (x ∷ xs) (suc i) h = get_elem?-of_lt xs i (omega arith)

  pub lt_of-get_elem? : (xs : List A) (i : ℕ) {x : A} → get_elem? xs i ≡ some x → i < length xs
  lt_of-get_elem? [] i h = absurd (cc)
  lt_of-get_elem? (y ∷ xs) zero h = omega arith
  lt_of-get_elem? (y ∷ xs) (suc i) h = omega (arith, lt_of-get_elem? xs i h)

  pub index_func-lt :
      (f : A → Bool) (xs : List A) (i : ℕ) → index_func f xs ≡ some i → i < length xs
  unfolding index_func
  index_func-lt f [] i h = absurd (cc)
  index_func-lt f (x ∷ xs) zero h = omega arith
  index_func-lt f (x ∷ xs) (suc i) h =
      let later : index_func f xs ≡ some i = ground arith in
      omega (arith, index_func-lt f xs i later)
