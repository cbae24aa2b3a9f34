-- ===== src/Base/Tests.antt =====
-- Boolean tests on the native numbers, and the conditional.
use Prim.Native.Nat.{ℕ, zero, suc, ◌+◌, ◌≤◌, ◌<◌, compare, Ordering}
use mathlib.Core.Path.{◌≡◌, refl}
use mathlib.Core.Logic.{◌↔◌, ◌⊎◌, inl, inr}
use mathlib.Core.Bool.{Bool, true, false}
use mathlib.Core.Option.{Option, none, some}
use native.Mathlib.Decide.{dec_lt}
use native.Mathlib.Omega.{arith}

abbrev pub ltb : ℕ → ℕ → Bool
ltb a b = elim (compare a b) [ Ordering.lt ↦ true | _ ↦ false ]

abbrev pub leb : ℕ → ℕ → Bool
leb a b = elim (compare a b) [ Ordering.gt ↦ false | _ ↦ true ]

infix 50 ◌==◌
abbrev pub ◌==◌ : ℕ → ℕ → Bool
a == b = elim (compare a b) [ Ordering.eq ↦ true | _ ↦ false ]

infix 1 if◌then◌else◌
abbrev pub if◌then◌else◌ {ℓ} : {A : Type ℓ} → Bool → A → A → A
if true then x else y = x
if false then x else y = y

pub ltb→lt : (a b : ℕ) → ltb a b ≡ true → a < b
ltb→lt a b h = ground arith

pub lt→ltb : (a b : ℕ) → a < b → ltb a b ≡ true
lt→ltb a b h = ground arith

pub le→ltb : (a b : ℕ) → b ≤ a → ltb a b ≡ false
le→ltb a b h = ground arith

pub ==_iff : (a b : ℕ) → ((a == b) ≡ true) ↔ (a ≡ b)
==_iff a b = ground arith

pub ==-false : (a b : ℕ) → ¬ (a ≡ b) → (a == b) ≡ false
==-false a b h = ground arith

pub Bool-cases : (b : Bool) → (b ≡ true) ⊎ (b ≡ false)
Bool-cases true = inl refl
Bool-cases false = inr refl

pub Option-cases {ℓ} : {A : Type ℓ} (o : Option A) → (o ≡ none) ⊎ ((a : A) × (o ≡ some a))
Option-cases none = inl refl
Option-cases (some a) = inr (a, refl)

-- A test of so many numbers from one on, by evaluation.
abbrev pub every : (count from : ℕ) → (ℕ → Bool) → Bool
every zero from test = true
every (suc count) from test = if test from then every count (from + 1) test else false

every_sound :
    (count from : ℕ) (test : ℕ → Bool) (x : ℕ)
    → every count from test ≡ true
    → from ≤ x
    → x < from + count
    → test x ≡ true
every_sound zero from test x h low high = absurd (omega arith)
every_sound (suc count) from test x h low high = elim (Bool-cases (test from)) [
  | inr fails ↦ absurd (let never = rw fails at h in cc)
  | inl holds ↦ elim (dec_lt from x) [
    | yes later ↦ every_sound count (from + 1) test x (rw holds at h) (omega arith) (omega arith)
    | no here ↦ let same : x ≡ from = omega arith in rw same holds
  ]
]

-- All numbers below a bound.
unfoldable pub all_below : ℕ → (ℕ → Bool) → Bool
all_below bound test = every bound 0 test

pub all_below_sound :
    (bound : ℕ) (test : ℕ → Bool) (x : ℕ) → all_below bound test ≡ true → x < bound → test x ≡ true
unfolding all_below
all_below_sound bound test x h lt = every_sound bound 0 test x h (omega arith) (omega arith)
