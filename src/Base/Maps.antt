-- ===== src/Base/Maps.antt =====
-- Go's `map[K]V`, as an association list with one entry for each key that was inserted.
-- An assignment to a key that is there replaces its value in place; another appends the pair.
use mathlib.Core.Path.{◌≡◌, refl, sym, ◌∙◌}
use mathlib.Core.Logic.{◌⊎◌, inl, inr}
use mathlib.Core.Bool.{false}
use mathlib.Core.List.{List, [], ◌∷◌}
use mathlib.Core.Option.{Option, none, some, some-injective}
use native.Mathlib.Omega.{arith}
use iracelog_service_manager.Base.Tests.{Key, ◌==◌, if◌then◌else◌, key_refl, key-cases, Bool-cases}

abbrev pub GoMap {ℓ κ} : Type ℓ → Type κ → Type (ℓ ⊔ κ)
GoMap K V = List (K × V)

module _ {ℓ κ} {K : Type ℓ} {V : Type κ} ⦃e : Key K⦄ where
  -- `v, ok := m[k]`
  unfoldable pub lookup : K → GoMap K V → Option V
  lookup k [] = none
  lookup k ((j, v) ∷ m) = if j == k then some v else lookup k m

  -- `m[k] = v`
  unfoldable pub insert : K → V → GoMap K V → GoMap K V
  insert key new [] = (key, new) ∷ []
  insert key new ((at, old) ∷ rest) =
      if at == key then (key, new) ∷ rest else (at, old) ∷ insert key new rest

  -- `delete(m, k)`
  unfoldable pub delete : K → GoMap K V → GoMap K V
  delete k [] = []
  delete k ((j, v) ∷ m) = let rest = delete k m in if j == k then rest else (j, v) ∷ rest

  pub lookup-insert :
      (key at : K) (new : V) (entries : GoMap K V)
      → lookup at (insert key new entries) ≡ (if key == at then some new else lookup at entries)
  unfolding lookup insert
  lookup-insert key at new [] = refl
  lookup-insert key at new ((i, old) ∷ rest) = ground (
    arith,
    e.match_keys_iff i at,
    e.match_keys_iff i key,
    e.match_keys_iff key at,
    lookup-insert key at new rest,
  )

  pub lookup-insert_self : (k : K) (v : V) (m : GoMap K V) → lookup k (insert k v m) ≡ some v
  lookup-insert_self k v m = rw (lookup-insert k k v m, key_refl k)

  pub lookup-insert_ne :
      (k j : K) (v : V) (m : GoMap K V) → (k == j) ≡ false → lookup j (insert k v m) ≡ lookup j m
  lookup-insert_ne k j v m h = rw (lookup-insert k j v m, h)

  pub lookup-delete :
      (k j : K) (m : GoMap K V) → lookup j (delete k m) ≡ (if k == j then none else lookup j m)
  unfolding lookup delete
  lookup-delete k j [] = elim (Bool-cases (k == j)) [ inl p ↦ rw p refl | inr p ↦ rw p refl ]
  lookup-delete k j ((i, v) ∷ m) =
      ground (
        arith,
        e.match_keys_iff i j,
        e.match_keys_iff i k,
        e.match_keys_iff k j,
        lookup-delete k j m,
      )

  -- Where a value under `j` comes from after an assignment to `k`.
  pub lookup-insert_inv :
      (k j : K) {v w : V} (m : GoMap K V)
      → lookup j (insert k v m) ≡ some w
      → ((k ≡ j) × (v ≡ w)) ⊎ (((k == j) ≡ false) × (lookup j m ≡ some w))
  lookup-insert_inv k j {v} {w} m h = elim (key-cases k j) [
    | inl p ↦ inl (p, some-injective v w (sym (lookup-insert_self k v m) ∙ rw (← p) at h))
    | inr p ↦ inr (p, sym (lookup-insert_ne k j v m p) ∙ h)
  ]

  -- A key that has a value has one after an assignment.
  pub insert_keeps :
      (k j : K) (v : V) (m : GoMap K V)
      → (w : V) × (lookup j m ≡ some w)
      → (w : V) × (lookup j (insert k v m) ≡ some w)
  insert_keeps k j v m (w, h) = elim (key-cases k j) [
    | inl p ↦ (v, rw (← p) (lookup-insert_self k v m))
    | inr p ↦ (w, lookup-insert_ne k j v m p ∙ h)
  ]
