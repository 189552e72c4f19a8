-- ===== src/Base/Tests.antt =====
-- Boolean tests on the native numbers, the conditional, and the interface of comparable keys.
use Prim.Native.Nat.{ℕ, ◌≤◌, ◌<◌, compare, Ordering}
use Prim.Native.String.{String}
use text.Mathlib.Text.{◌==◌ as str_eq}
use text.Mathlib.TextEquality.{eq_iff}
use mathlib.Core.Path.{◌≡◌, refl}
use mathlib.Core.Logic.{◌↔◌, ◌⊎◌, inl, inr}
use mathlib.Core.Bool.{Bool, true, false}
use mathlib.Core.Option.{Option, none, some}
use native.Mathlib.Omega.{arith}

abbrev pub ltb : ℕ → ℕ → Bool
ltb a b = elim (compare a b) [ Ordering.lt ↦ true | _ ↦ false ]

abbrev pub leb : ℕ → ℕ → Bool
leb a b = elim (compare a b) [ Ordering.gt ↦ false | _ ↦ true ]

abbrev pub nat_beq : ℕ → ℕ → Bool
nat_beq a b = elim (compare a b) [ Ordering.eq ↦ true | _ ↦ false ]

infix 1 if◌then◌else◌
abbrev pub if◌then◌else◌ {ℓ} : {A : Type ℓ} → Bool → A → A → A
if true then x else y = x
if false then x else y = y

pub ltb→lt : (a b : ℕ) → ltb a b ≡ true → a < b
ltb→lt a b h = ground arith

pub lt→ltb : (a b : ℕ) → a < b → ltb a b ≡ true
lt→ltb a b h = ground arith

pub leb→le : (a b : ℕ) → leb a b ≡ true → a ≤ b
leb→le a b h = ground arith

pub nat_beq_iff : (a b : ℕ) → (nat_beq a b ≡ true) ↔ (a ≡ b)
nat_beq_iff a b = ground arith

pub ruleset tests = (arith, ltb→lt, lt→ltb, leb→le)

-- Keys of a Go map: a comparable type.
pub record Key {ℓ} (A : Type ℓ) : Type ℓ where
  pub match_keys : A → A → Bool
  pub match_keys_iff : (a b : A) → (match_keys a b ≡ true) ↔ (a ≡ b)

instance abbrev pub string_key : Key String
string_key = record { match_keys = str_eq; match_keys_iff = eq_iff }

infix 50 ◌==◌
abbrev pub ◌==◌ {ℓ} : {K : Type ℓ} ⦃key : Key K⦄ → K → K → Bool
◌==◌ ⦃key⦄ = key.match_keys

instance abbrev pub nat_key : Key ℕ
nat_key = record { match_keys = nat_beq; match_keys_iff = nat_beq_iff }

pub Bool-cases : (b : Bool) → (b ≡ true) ⊎ (b ≡ false)
Bool-cases true = inl refl
Bool-cases false = inr refl

pub Option-cases {ℓ} : {A : Type ℓ} (o : Option A) → (o ≡ none) ⊎ ((a : A) × (o ≡ some a))
Option-cases none = inl refl
Option-cases (some a) = inr (a, refl)

-- Two keys are equal, or their test fails.
pub key-cases {ℓ} : {A : Type ℓ} ⦃e : Key A⦄ (a b : A) → (a ≡ b) ⊎ ((a == b) ≡ false)
key-cases ⦃e⦄ a b = elim (Bool-cases (a == b)) [
  | inl h ↦ inl ((e.match_keys_iff a b).0 h)
  | inr h ↦ inr h
]

pub key_refl {ℓ} : {A : Type ℓ} ⦃e : Key A⦄ (a : A) → (a == a) ≡ true
key_refl ⦃e⦄ a = (e.match_keys_iff a a).1 refl
