-- ===== src/Base/Bits.antt =====
-- `|` and `^` at variables: the law of the lowest digit, and what follows by halving.
use Prim.Native.Nat.{digits, bitwise, bit_or-bitwise, bit_xor-bitwise, differ}
use Prim.Native.Nat.{ℕ, zero, suc, ◌+◌, ◌*◌, ◌/◌, ◌%◌, ◌^◌, ◌≤◌, ◌<◌, max, bit_or, bit_xor}
use native.Mathlib.Decide.{dec_lt}
use mathlib.Core.Path.{◌≡◌, refl, ap, ◌∙◌}
use native.Mathlib.Nat.{le_refl, pow-suc}
use native.Mathlib.Omega.{arith}

-- The digit recursion of the native operations, with more fuel than its first argument.
module _ (last : ℕ → ℕ) (digit : ℕ → ℕ → ℕ) where
  spare_fuel :
      (a fuel b : ℕ) → a ≤ fuel → digits last digit (suc fuel) a b ≡ digits last digit fuel a b
  spare_fuel zero zero b h = refl
  spare_fuel zero (suc fuel) b h = refl
  spare_fuel (suc a) zero b h = absurd (omega arith)
  spare_fuel (suc a) (suc fuel) b h =
      ap (λ (t : ℕ). t * 2 + digit (suc a % 2) (b % 2))
        (spare_fuel (suc a / 2) fuel (b / 2) (omega arith))

  least_fuel : (fuel a b : ℕ) → a ≤ fuel → digits last digit fuel a b ≡ digits last digit a a b
  least_fuel zero a b h = let none_left : a ≡ 0 = omega arith in rw none_left refl
  least_fuel (suc fuel) a b h = elim (dec_lt fuel a) [
    | yes all ↦ let same : a ≡ suc fuel = omega arith in rw same refl
    | no fewer ↦ spare_fuel a fuel b (omega arith) ∙ least_fuel fuel a b (omega arith)
  ]

  halving :
      (a b : ℕ)
      → bitwise last digit (suc a) b
        ≡ bitwise last digit (suc a / 2) (b / 2) * 2 + digit (suc a % 2) (b % 2)
  halving a b =
      ap (λ (t : ℕ). t * 2 + digit (suc a % 2) (b % 2))
        (least_fuel a (suc a / 2) (b / 2) (omega arith))

pub bit_or_halve : (a b : ℕ) → bit_or a b ≡ bit_or (a / 2) (b / 2) * 2 + max (a % 2) (b % 2)
bit_or_halve zero b = simp bit_or-bitwise (omega arith)
bit_or_halve (suc a) b = simp bit_or-bitwise (halving (λ y. y) max a b)

differ_digits : (x y : ℕ) → x < 2 → y < 2 → differ x y ≡ (x + y) % 2
differ_digits zero y p q = omega arith
differ_digits (suc zero) zero p q = refl
differ_digits (suc zero) (suc zero) p q = refl
differ_digits (suc zero) (suc (suc y)) p q = absurd (omega arith)
differ_digits (suc (suc x)) y p q = absurd (omega arith)

pub bit_xor_halve : (a b : ℕ) → bit_xor a b ≡ bit_xor (a / 2) (b / 2) * 2 + (a % 2 + b % 2) % 2
bit_xor_halve zero b = simp bit_xor-bitwise (omega arith)
bit_xor_halve (suc a) b = simp bit_xor-bitwise (
    omega (
      arith,
      halving (λ y. y) differ a b,
      differ_digits (suc a % 2) (b % 2) (omega arith) (omega arith),
    ))

bit_or-zero_fuel : (n a : ℕ) → a ≤ n → bit_or a 0 ≡ a
bit_or-zero_fuel n zero h = refl
bit_or-zero_fuel zero (suc a) h = absurd (omega arith)
bit_or-zero_fuel (suc n) (suc a) h =
    omega (arith, bit_or_halve (suc a) 0, bit_or-zero_fuel n (suc a / 2) (omega arith))

pub bit_or-zero : (a : ℕ) → bit_or a 0 ≡ a
bit_or-zero a = bit_or-zero_fuel a a (omega arith)

zero-bit_or : (b : ℕ) → bit_or 0 b ≡ b
zero-bit_or b = simp bit_or-bitwise

-- Each power is twice the one before, with any factor.
pub mul-two_pow : (q k : ℕ) → q * 2 ^ suc k ≡ 2 * (q * 2 ^ k)
mul-two_pow q k = omega (arith, ap (λ (t : ℕ). q * t) (pow-suc 2 k))

-- `low | (high << k)` is a sum when `low` has `k` bits.
pub bit_or_shifted : (k low high : ℕ) → low < 2 ^ k → bit_or low (high * 2 ^ k) ≡ low + high * 2 ^ k
bit_or_shifted zero low high h =
    let e : low ≡ 0 = omega arith in rw (e, zero-bit_or (high * 1)) (omega arith)
bit_or_shifted (suc k) low high h =
    let e : (high * 2 ^ suc k) / 2 ≡ high * 2 ^ k = omega (arith, mul-two_pow high k) in
    let e' : (high * 2 ^ suc k) % 2 ≡ 0 = omega (arith, mul-two_pow high k) in
    let sum = rw (e, e') at (bit_or_halve low (high * 2 ^ suc k)) in
    omega
      (arith, sum, mul-two_pow high k, bit_or_shifted k (low / 2) high (omega (arith, pow-suc 2 k)))

bit_or-comm_fuel : (n a b : ℕ) → a ≤ n → bit_or a b ≡ bit_or b a
bit_or-comm_fuel n zero b h = omega (arith, zero-bit_or b, bit_or-zero b)
bit_or-comm_fuel zero (suc a) b h = absurd (omega arith)
bit_or-comm_fuel (suc n) (suc a) b h = omega (
  arith,
  bit_or_halve (suc a) b,
  bit_or_halve b (suc a),
  bit_or-comm_fuel n (suc a / 2) (b / 2) (omega arith),
)

pub bit_or_comm : (a b : ℕ) → bit_or a b ≡ bit_or b a
bit_or_comm a b = bit_or-comm_fuel a a b (le_refl _)

-- `(a << 1) | b` for a bit `b`.
pub bit_or_append : (a b : ℕ) → b < 2 → bit_or (a * 2) b ≡ a * 2 + b
bit_or_append a b h =
    let e : b / 2 ≡ 0 = omega arith in
    let e' : a * 2 / 2 ≡ a = omega arith in
    omega (arith, rw (e, e') at (bit_or_halve (a * 2) b), bit_or-zero a)

bit_xor-zero_fuel : (n a : ℕ) → a ≤ n → bit_xor a 0 ≡ a
bit_xor-zero_fuel n zero h = refl
bit_xor-zero_fuel zero (suc a) h = absurd (omega arith)
bit_xor-zero_fuel (suc n) (suc a) h =
    omega (arith, bit_xor_halve (suc a) 0, bit_xor-zero_fuel n (suc a / 2) (omega arith))

pub bit_xor-zero : (a : ℕ) → bit_xor a 0 ≡ a
bit_xor-zero a = bit_xor-zero_fuel a a (omega arith)

pub zero-bit_xor : (b : ℕ) → bit_xor 0 b ≡ b
zero-bit_xor b = simp bit_xor-bitwise

bit_xor-comm_fuel : (n a b : ℕ) → a ≤ n → bit_xor a b ≡ bit_xor b a
bit_xor-comm_fuel n zero b h = omega (arith, zero-bit_xor b, bit_xor-zero b)
bit_xor-comm_fuel zero (suc a) b h = absurd (omega arith)
bit_xor-comm_fuel (suc n) (suc a) b h = omega (
  arith,
  bit_xor_halve (suc a) b,
  bit_xor_halve b (suc a),
  bit_xor-comm_fuel n (suc a / 2) (b / 2) (omega arith),
)

pub bit_xor_comm : (a b : ℕ) → bit_xor a b ≡ bit_xor b a
bit_xor_comm a b = bit_xor-comm_fuel a a b (le_refl _)

-- The two digits of a sum without carry.
pub bit_xor_digits :
    (a b : ℕ) → (bit_xor a b / 2 ≡ bit_xor (a / 2) (b / 2)) × (bit_xor a b % 2 ≡ (a + b) % 2)
bit_xor_digits a b = (omega (arith, bit_xor_halve a b), omega (arith, bit_xor_halve a b))

bit_xor-assoc_fuel :
    (n a b c : ℕ) → a + b + c ≤ n → bit_xor (bit_xor a b) c ≡ bit_xor a (bit_xor b c)
bit_xor-assoc_fuel n zero b c h = rw (zero-bit_xor b, zero-bit_xor (bit_xor b c))
bit_xor-assoc_fuel zero (suc a) b c h = absurd (omega arith)
bit_xor-assoc_fuel (suc n) (suc a) b c h =
    let (l, r) = bit_xor_digits (suc a) b in
    let (l', r') = bit_xor_digits b c in
    let left = rw l at (bit_xor_halve (bit_xor (suc a) b) c) in
    let right = rw l' at (bit_xor_halve (suc a) (bit_xor b c)) in
    omega
      (arith, left, right, r, r', bit_xor-assoc_fuel n (suc a / 2) (b / 2) (c / 2) (omega arith))

pub bit_xor_assoc : (a b c : ℕ) → bit_xor (bit_xor a b) c ≡ bit_xor a (bit_xor b c)
bit_xor_assoc a b c = bit_xor-assoc_fuel (a + b + c) a b c (le_refl _)

-- `(high << k) ^ low` is a sum when `low` has `k` bits.
pub bit_xor_shifted :
    (k low high : ℕ) → low < 2 ^ k → bit_xor (high * 2 ^ k) low ≡ high * 2 ^ k + low
bit_xor_shifted zero low high h =
    let e : low ≡ 0 = omega arith in rw (e, bit_xor-zero (high * 1)) (omega arith)
bit_xor_shifted (suc k) low high h =
    let e : (high * 2 ^ suc k) / 2 ≡ high * 2 ^ k = omega (arith, mul-two_pow high k) in
    let e' : (high * 2 ^ suc k) % 2 ≡ 0 = omega (arith, mul-two_pow high k) in
    let sum = rw (e, e') at (bit_xor_halve (high * 2 ^ suc k) low) in
    omega (
      arith,
      sum,
      mul-two_pow high k,
      bit_xor_shifted k (low / 2) high (omega (arith, pow-suc 2 k)),
    )

pub bit_xor-lt : (k a b : ℕ) → a < 2 ^ k → b < 2 ^ k → bit_xor a b < 2 ^ k
bit_xor-lt zero a b p q =
    let e : a ≡ 0 = omega arith in let e' : b ≡ 0 = omega arith in rw (e, e') (omega arith)
bit_xor-lt (suc k) a b p q = omega (
  arith,
  bit_xor_halve a b,
  pow-suc 2 k,
  bit_xor-lt k (a / 2) (b / 2) (omega (arith, pow-suc 2 k)) (omega (arith, pow-suc 2 k)),
)
