-- ===== src/Examples/Cached.antt =====
-- A test of the loader cache.
use iracelog_service_manager.Base.{
  ℕ, ◌+◌, none, some, [], ◌≡◌, refl, ap, arith, true, Option, GoMap, lookup, insert, ◌==◌, nat_key,
  if◌then◌else◌, Bool-cases, inl, inr,
}
use iracelog_service_manager.Base.Results.{Result, done}
use iracelog_service_manager.Cache.Loader.{Item, get, invalidate}
use iracelog_service_manager.Cache.Answers.{Holds, loading, after_load, without, get-answers}

-- A loader whose values change all the time.
abbrev aged : ℕ → ℕ → Result ℕ
aged t n = done (t + n)

-- The item was loaded at the time 20 and expires at 50.
abbrev held : GoMap ℕ (Item ℕ)
held = insert 3 (record { content = 23; expires = some 50 }) []

abbrev loaded_at : ℕ → Option ℕ
loaded_at n = if 3 == n then some 20 else none

key_at : (n : ℕ) → (3 == n) ≡ true → 20 + n ≡ 23
key_at n h = ground arith

held-Holds : Holds 30 aged loaded_at held
unfolding lookup insert
held-Holds n = elim (Bool-cases (3 == n)) [
  | inl p ↦ rw p (ap done (key_at n p), refl)
  | inr p ↦ rw p tt
]

get-answers_example :
    ((get (loading 30 aged 40) 40 3 held).0 ≡ done 23)
    × Holds 30 aged (after_load 30 aged loaded_at 20 3) (get (loading 30 aged 40) 40 3 held).1
    × Holds 30 aged (without 30 aged loaded_at 3) (invalidate 3 held)
get-answers_example = get-answers 30 aged loaded_at 40 3 held held-Holds
