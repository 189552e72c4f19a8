-- ===== src/States/Parts.antt =====
-- The pages of a stream as parts of the rows that it sends.
use iracelog_service_manager.Base.{
  ℕ, suc, ◌+◌, ◌-◌, ◌<◌, ◌≤◌, true, List, [], ◌∷◌, ◌++◌, ◌≡◌, refl, sym, ap, arith, Bool-cases, inl,
  inr, lt32, sub64, All, filter, take, drop, take-append-drop, length-take-le, length, sign_bit,
}
use iracelog_service_manager.Base.Results.{Result, done}
use iracelog_service_manager.States.Types.{RangeContainer, Store, Event}
use iracelog_service_manager.States.Pages.{Container, to_fetch_entries}
use iracelog_service_manager.States.Streams.{Pager}
use iracelog_service_manager.States.Rows.{
  Stored, id_of, IsSorted, IsRowId, last_id, is_after, filter-is_after, messages, Decodes,
}
use iracelog_service_manager.States.Paging.{allowed, take_nil, take_of}

-- The container of an event with `remain` messages left, after the row `i`.
abbrev pub at : Event → ℕ → ℕ → Container
at e remain i = record { e = e; remain = remain; last_rs_info_id = i }

pub All-append_back :
    {A : Type 0} (P' : A → Type 0) (xs ys : List A) → All P' (xs ++ ys) → All P' ys
All-append_back P' [] ys h = h
All-append_back P' (x ∷ xs) ys (_, h) = All-append_back P' xs ys h

module _ {F D P : Type 0} where
  pub last_id-append :
      (i j : ℕ) (front : List (Stored F D P)) (r : Stored F D P) (rs : List (Stored F D P))
      → last_id i (front ++ r ∷ rs) ≡ last_id j (r ∷ rs)
  last_id-append i j [] r rs = refl
  last_id-append i j (f ∷ front) r rs = last_id-append (id_of f) j front r rs

  pub last_id_small :
      (i : ℕ) (front back : List (Stored F D P))
      → i + 1 < sign_bit
      → All IsRowId (front ++ back)
      → last_id i front + 1 < sign_bit
  last_id_small i [] back h ids = h
  last_id_small i (r ∷ rs) back h ((_, k), ids) = last_id_small (id_of r) rs back k ids

  pub positive_ids : (rs : List (Stored F D P)) → All IsRowId rs → All (λ s. 0 < id_of s) rs
  positive_ids [] h = tt
  positive_ids (r ∷ rs) ((k, _), h) = (k, positive_ids rs h)

  -- The rows after those of a first part.
  pub rows_after :
      (front back : List (Stored F D P))
      → IsSorted (front ++ back)
      → All IsRowId (front ++ back)
      → filter (is_after (last_id 0 front)) (front ++ back) ≡ back
  rows_after front back sorted ids =
      filter-is_after 0 front back sorted (positive_ids (front ++ back) ids)

  pub allowed_nil : (num remain : ℕ) → allowed {A = Stored F D P} num remain [] ≡ []
  allowed_nil num remain = elim (Bool-cases (lt32 0 num)) [
    | inl e ↦ rw e (take_nil remain)
    | inr e ↦ rw e refl
  ]

  -- What is left of the number of messages once a page was sent.
  pub allowed_split :
      (num remain k : ℕ) (rs : List (Stored F D P))
      → (lt32 0 num ≡ true → k ≤ remain)
      → (lt32 0 num ≡ true → remain < sign_bit)
      → allowed num remain rs
        ≡ take k rs ++ allowed num (sub64 remain (length (take k rs))) (drop k rs)
  allowed_split num remain k rs h small = elim (Bool-cases (lt32 0 num)) [
    | inl e ↦
        let bound = h e in
        let few = small e in
        let taken = length-take-le k rs in
        let left : sub64 remain (length (take k rs)) ≡ remain - length (take k rs) = omega arith in
        rw (e, left) (take_of k remain rs bound)
    | inr e ↦ rw e (sym (take-append-drop k rs))
  ]

module _ {F D P E : Type 0} (store : Store F D P E) where
  pub length-messages :
      (rs : List (Stored F D P)) → All (Decodes store) rs → length (messages store rs) ≡ length rs
  length-messages [] h = refl
  length-messages (r ∷ rs) ((m, e), h) = rw (e, messages) (ap suc (length-messages rs h))

  -- The answer is the page of the rows `back`, of a container with `remain` messages left.
  abbrev pub IsNext :
      Event → ℕ → ℕ → ℕ → ℕ → List (Stored F D P) → Container × Result (RangeContainer F E) → Type 0
  IsNext e page num remain i back answer =
      let rs = take (to_fetch_entries page num (at e remain i)) back in
      (ret : RangeContainer F E) × (answer
        ≡ (at e (sub64 remain (length ret.items)) ret.last_rs_info_id, done ret))
      × (ret.items ≡ messages store rs)
      × (ret.last_rs_info_id ≡ last_id 0 rs)

  -- Pages of the rows `all`: `next` gives those after the last row that was sent.
  abbrev pub AsksAfter : (Pager F E) → Event → ℕ → ℕ → List (Stored F D P) → Type 0
  AsksAfter next e page num all =
      (remain i : ℕ)
      → i + 1 < sign_bit
      → (lt32 0 num ≡ true → remain < sign_bit)
      → IsNext e page num remain i (filter (is_after i) all) (next (at e remain i))
