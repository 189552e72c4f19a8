-- ===== src/Race/Sorting.antt =====
-- The gaps of a lap entry are sorted by position, and none is lost or made up.
use mathlib.Core.List.{Perm}
use mathlib.Core.List.Perm
use iracelog_service_manager.Base.{
  ℕ, ◌<◌, ◌≤◌, true, false, List, [], ◌∷◌, ◌≡◌, arith, All, Bool-cases, inl, inr, sign_bit,
}
use iracelog_service_manager.Race.Types.{GapInfo}
use iracelog_service_manager.Race.Graph.{before, insert_gap, sort_gaps}

module _ {T : Type 0} where
  -- Positions are not negative, as `int32` numbers.
  abbrev pub HasPosition : GapInfo T → Type 0
  HasPosition g = g.pos < sign_bit

  -- Each item stands at or before the positions of all that follow.
  abbrev pub IsSorted : List (GapInfo T) → Type 0
  IsSorted [] = Unit
  IsSorted (x ∷ xs) = All (λ y. x.pos ≤ y.pos) xs × IsSorted xs

  before-lt : (a b : GapInfo T) → HasPosition a → HasPosition b → before a b ≡ true → a.pos < b.pos
  unfolding before
  before-lt a b h k e = ground arith

  before-ge : (a b : GapInfo T) → HasPosition a → HasPosition b → before a b ≡ false → b.pos ≤ a.pos
  unfolding before
  before-ge a b h k e = ground arith

  All-insert_gap {ℓ} :
      (P : GapInfo T → Type ℓ) (x : GapInfo T) (ys : List (GapInfo T))
      → P x
      → All P ys
      → All P (insert_gap x ys)
  unfolding insert_gap
  All-insert_gap P x [] p h = (p, tt)
  All-insert_gap P x (y ∷ ys) p h = elim (Bool-cases (before y x)) [
    | inl e ↦ rw e (h.0, All-insert_gap P x ys p h.1)
    | inr e ↦ rw e (p, h)
  ]

  All-sort_gaps {ℓ} :
      (P : GapInfo T → Type ℓ) (xs : List (GapInfo T)) → All P xs → All P (sort_gaps xs)
  unfolding sort_gaps
  All-sort_gaps P [] h = tt
  All-sort_gaps P (x ∷ xs) h = All-insert_gap P x (sort_gaps xs) h.0 (All-sort_gaps P xs h.1)

  All-weaken :
      (m n : ℕ) (xs : List (GapInfo T)) → m ≤ n → All (λ y. n ≤ y.pos) xs → All (λ y. m ≤ y.pos) xs
  All-weaken m n [] l h = tt
  All-weaken m n (x ∷ xs) l h = (omega arith, All-weaken m n xs l h.1)

  insert_gap-IsSorted :
      (x : GapInfo T) (ys : List (GapInfo T))
      → HasPosition x
      → All HasPosition ys
      → IsSorted ys
      → IsSorted (insert_gap x ys)
  unfolding insert_gap
  insert_gap-IsSorted x [] p h s = (tt, tt)
  insert_gap-IsSorted x (y ∷ ys) p h s = elim (Bool-cases (before y x)) [
    | inl e ↦ rw e (
      All-insert_gap (λ z. y.pos ≤ z.pos) x ys (omega (arith, before-lt y x h.0 p e)) s.0,
      insert_gap-IsSorted x ys p h.1 s.1,
    )
    | inr e ↦ let l = before-ge y x h.0 p e in rw e ((l, All-weaken x.pos y.pos ys l s.0), s)
  ]

  insert_gap-perm : (x : GapInfo T) (ys : List (GapInfo T)) → Perm (insert_gap x ys) (x ∷ ys)
  unfolding insert_gap
  insert_gap-perm x [] = Perm.refl (x ∷ [])
  insert_gap-perm x (y ∷ ys) = elim (Bool-cases (before y x)) [
    | inl e ↦ rw e (Perm.trans (Perm.cons y (insert_gap-perm x ys)) (Perm.swap x y ys))
    | inr e ↦ rw e (Perm.refl (x ∷ y ∷ ys))
  ]

  sort_gaps-perm : (xs : List (GapInfo T)) → Perm (sort_gaps xs) xs
  unfolding sort_gaps
  sort_gaps-perm [] = Perm.refl []
  sort_gaps-perm (x ∷ xs) =
      Perm.trans (insert_gap-perm x (sort_gaps xs)) (Perm.cons x (sort_gaps-perm xs))

  sort_gaps-IsSorted : (xs : List (GapInfo T)) → All HasPosition xs → IsSorted (sort_gaps xs)
  unfolding sort_gaps
  sort_gaps-IsSorted [] h = tt
  sort_gaps-IsSorted (x ∷ xs) h =
      insert_gap-IsSorted x (sort_gaps xs) h.0 (All-sort_gaps HasPosition xs h.1)
        (sort_gaps-IsSorted xs h.1)

  -- Where positions are not negative, the sort orders them from the first to the last, and its result
  -- is a permutation of its input.
  pub sort_gaps_sorts :
      (xs : List (GapInfo T))
      → All HasPosition xs
      → IsSorted (sort_gaps xs) × Perm (sort_gaps xs) xs
  sort_gaps_sorts xs h = (sort_gaps-IsSorted xs h, sort_gaps-perm xs)
