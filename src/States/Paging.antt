-- ===== src/States/Paging.antt =====
-- The loop of a stream sends the rows after the last one that was sent, page by page.
use mathlib.Core.List.{append_assoc, append-nil}
use iracelog_service_manager.Base.{
  ℕ, zero, suc, ◌-◌, ◌<◌, ◌≤◌, ◌⊎◌, Bool, true, false, none, some, List, [], ◌∷◌, ◌++◌, ◌≡◌, refl,
  sym, ◌∙◌, ap, arith, if◌then◌else◌, Bool-cases, inl, inr, lt32, min64, word, take, drop, length,
  sign_bit, long_sign,
}
use iracelog_service_manager.Base.Results.{done, send_error}
use iracelog_service_manager.States.Types.{RangeContainer}
use iracelog_service_manager.States.Pages.{Container, to_fetch_entries}
use iracelog_service_manager.States.Streams.{Pager, send_all, stream_loop}

-- The rows that a request for `num` messages may still send when `remain` of them are left: a
-- request that is not positive has no bound.
abbrev pub allowed : {A : Type 0} → ℕ → ℕ → List A → List A
allowed num remain rs = if lt32 0 num then take remain rs else rs

pub take_nil : {A : Type 0} (n : ℕ) → take {A = A} n [] ≡ []
take_nil zero = refl
take_nil (suc n) = refl

pub take_of :
    {A : Type 0} (k n : ℕ) (rs : List A)
    → k ≤ n
    → take n rs ≡ take k rs ++ take (n - length (take k rs)) (drop k rs)
take_of zero n rs h = ap (λ i. take i rs) (omega arith)
take_of (suc k) zero rs h = absurd (omega arith)
take_of (suc k) (suc n) [] h = sym (take_nil (suc n - 0))
take_of {A} (suc k) (suc n) (r ∷ rs) h =
    ap {B = List A} (λ l. r ∷ l)
      (take_of k n rs (omega arith) ∙ ap (λ i. take k rs ++ take i (drop k rs)) (omega arith))

min64-positive :
    (page num r : ℕ)
    → 0 < page
    → page < sign_bit
    → num < word
    → r < sign_bit
    → lt32 0 num ≡ true
    → (0 < min64 (min64 page num) r) ⊎ (r ≡ 0)
min64-positive page num zero p q n h e = inr refl
min64-positive page num (suc r) p q n h e = inl (ground arith)

pub to_fetch_entries_bounds :
    (page num : ℕ) (s : Container)
    → 0 < page
    → page < sign_bit
    → num < word
    → (lt32 0 num ≡ true → s.remain < sign_bit)
    → (to_fetch_entries page num s < long_sign)
      × (lt32 0 num ≡ true → to_fetch_entries page num s ≤ s.remain)
      × ((0 < to_fetch_entries page num s) ⊎ ((lt32 0 num ≡ true) × (s.remain ≡ 0)))
unfolding to_fetch_entries
to_fetch_entries_bounds page num s p q n h = elim (Bool-cases (lt32 0 num)) [
  | inl e ↦
      let r = h e in
      (
        ground arith,
        (λ _. ground arith),
        elim (min64-positive page num s.remain p q n r e) [
          | inl k ↦ inl (ground arith)
          | inr z ↦ inr (e, z)
        ],
      )
  | inr e ↦ (ground arith, (λ t. ground arith), inl (ground arith))
]

module _ {E : Type 0} (accepts : ℕ → Bool) (fine : (n : ℕ) → accepts n ≡ true) where
  send_all-accepted : (sent xs : List E) → send_all accepts sent xs ≡ (sent ++ xs, true)
  unfolding send_all
  send_all-accepted sent [] = rw (append-nil sent) refl
  send_all-accepted sent (x ∷ xs) =
      rw (fine (length sent), send_all-accepted (sent ++ x ∷ []) xs, append_assoc sent (x ∷ []) xs)
        refl

  module _ {F : Type 0} (next : Pager F E) (fuel : ℕ) (sent : List E) (s : Container)
      (ret : RangeContainer F E) where
    pub page_done :
        ret.items ≡ []
        → stream_loop accepts next (suc fuel) sent (s, done ret)
          ≡ some (record { sent = sent; failure = none })
    unfolding stream_loop
    page_done e = rw e refl

    pub page_more :
        (m : E) (ms : List E)
        → ret.items ≡ m ∷ ms
        → stream_loop accepts next (suc fuel) sent (s, done ret)
          ≡ stream_loop accepts next fuel (sent ++ m ∷ ms) (next s)
    unfolding stream_loop
    page_more m ms e = rw e (
        ap
          (λ p. elim p.1 [
            | true ↦ stream_loop accepts next fuel p.0 (next s)
            | false ↦ some (record { sent = p.0; failure = some send_error })
          ])
          (send_all-accepted sent (m ∷ ms)))
