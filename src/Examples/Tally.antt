-- ===== src/Examples/Tally.antt =====
-- A way to write tenant ids for the tests: as many marks as the id, and one more.
use Prim.Native.Nat.{ℕ, zero, suc}
use Prim.Native.String.{String, [], ◌∷◌}
use mathlib.Core.Path.{◌≡◌, refl, ap}
use mathlib.Core.Bool.{false}
use mathlib.Core.Logic.{inl, inr}
use native.Mathlib.Omega.{arith}
use iracelog_service_manager.Base.{◌==◌, string_key, key-cases}
use iracelog_service_manager.Auth.Rights.{IsShow}

abbrev pub tally : ℕ → String
tally zero = "1" ∷ []
tally (suc n) = "1" ∷ tally n

abbrev marks : String → ℕ
marks [] = 0
marks (c ∷ s) = suc (marks s)

marks-tally : (n : ℕ) → marks (tally n) ≡ suc n
marks-tally zero = refl
marks-tally (suc n) = ap suc (marks-tally n)

tally-injective : (m n : ℕ) → tally m ≡ tally n → m ≡ n
tally-injective m n h = omega (arith, marks-tally m, marks-tally n, ap marks h)

tally_not_empty : (n : ℕ) → (tally n == "") ≡ false
tally_not_empty n = elim (key-cases (tally n) "") [
  | inl empty ↦ absurd (omega (arith, marks-tally n, ap marks empty))
  | inr other ↦ other
]

pub tally-IsShow : IsShow tally
tally-IsShow = record { not_empty = tally_not_empty; injective = tally-injective }
