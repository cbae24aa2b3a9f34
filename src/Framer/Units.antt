-- ===== src/Framer/Units.antt =====
-- The buffer of 256 units of 32 bits as one list of bits.
use native.Mathlib.Nat.{pow-suc, div-div-eq-div-mul}
use modemstuff.Base.{
  ℕ, zero, suc, ◌+◌, ◌*◌, ◌/◌, ◌%◌, ◌^◌, max, ◌<◌, ◌≡◌, refl, sym, ap, ◌∙◌, bit_or, bit_or_halve,
  bit_or-zero, mul-two_pow, List, [], ◌∷◌, ◌++◌, some, arith, length, get_elem?, replicate,
  replicate-add,
}
use modemstuff.Framer.{update_at, unit_at}

-- The lowest `n` bits of a number, lowest first.
abbrev pub low_bits : ℕ → ℕ → List ℕ
low_bits zero x = []
low_bits (suc n) x = x % 2 ∷ low_bits n (x / 2)

-- The bits of a unit.
pub unit_bits : ℕ → List ℕ
unit_bits x = low_bits 32 x

-- All bits of an array of units.
abbrev pub flat : List ℕ → List ℕ
flat [] = []
flat (x ∷ xs) = unit_bits x ++ flat xs

-- `|= b << k` raises bit `k` to `b`, and leaves the others.
low_bits-bit_or :
    (n k x b : ℕ)
    → k < n
    → b < 2
    → low_bits n (bit_or x (b * 2 ^ k)) ≡ update_at (low_bits n x) k (λ y. max y b)
low_bits-bit_or zero k x b h l = absurd (omega arith)
low_bits-bit_or (suc n) zero x b h l =
    let shift : b * 2 ^ 0 ≡ b = omega arith in
    let none_left : b / 2 ≡ 0 = omega arith in
    let or = rw none_left at (bit_or_halve x b) in
    let half : bit_or x b / 2 ≡ x / 2 = omega (arith, or, bit_or-zero (x / 2)) in
    let low : bit_or x b % 2 ≡ max (x % 2) b = omega (arith, or) in rw (shift, half, low)
low_bits-bit_or (suc n) (suc k) x b h l =
    let e : b * 2 ^ suc k / 2 ≡ b * 2 ^ k = omega (arith, mul-two_pow b k) in
    let e' : b * 2 ^ suc k % 2 ≡ 0 = omega (arith, mul-two_pow b k) in
    let or = rw (e, e') at (bit_or_halve x (b * 2 ^ suc k)) in
    let half : bit_or x (b * 2 ^ suc k) / 2 ≡ bit_or (x / 2) (b * 2 ^ k) = omega (arith, or) in
    let low : bit_or x (b * 2 ^ suc k) % 2 ≡ x % 2 = omega (arith, or) in
    rw (half, low) (ap (λ t. x % 2 ∷ t) (low_bits-bit_or n k (x / 2) b (omega arith) l))

pub length-unit_bits : (x : ℕ) → length (unit_bits x) ≡ 32
unfolding unit_bits
length-unit_bits x = refl

unit_bits-bit_or :
    (x k b : ℕ)
    → k < 32
    → b < 2
    → unit_bits (bit_or x (b * 2 ^ k)) ≡ update_at (unit_bits x) k (λ y. max y b)
unfolding unit_bits
unit_bits-bit_or x k b h l = low_bits-bit_or 32 k x b h l

update_at-append :
    (xs ys : List ℕ) (k : ℕ) (f : ℕ → ℕ)
    → k < length xs
    → update_at (xs ++ ys) k f ≡ update_at xs k f ++ ys
update_at-append [] ys k f h = absurd (omega arith)
update_at-append (x ∷ xs) ys zero f h = refl
update_at-append (x ∷ xs) ys (suc k) f h =
    ap (λ t. x ∷ t) (update_at-append xs ys k f (omega arith))

update_at-skip :
    (xs ys : List ℕ) (i k : ℕ) (f : ℕ → ℕ)
    → i ≡ length xs + k
    → update_at (xs ++ ys) i f ≡ xs ++ update_at ys k f
update_at-skip [] ys i k f e = ap (λ (j : ℕ). update_at ys j f) (omega arith)
update_at-skip (x ∷ xs) ys zero k f e = absurd (omega arith)
update_at-skip (x ∷ xs) ys (suc i) k f e =
    ap (λ t. x ∷ t) (update_at-skip xs ys i k f (omega arith))

-- Writing a bit to a unit writes it to the list of bits.
pub flat-update :
    (units : List ℕ) (u k i b : ℕ)
    → u < length units
    → k < 32
    → b < 2
    → i ≡ u * 32 + k
    → flat (update_at units u (λ x. bit_or x (b * 2 ^ k))) ≡ update_at (flat units) i (λ y. max y b)
flat-update [] u k i b h l m e = absurd (omega arith)
flat-update (x ∷ xs) zero k i b h l m e =
    let e' : i ≡ k = omega arith in
    rw (
      e',
      unit_bits-bit_or x k b l m,
      update_at-append (unit_bits x) (flat xs) k (λ y. max y b) (omega (arith, length-unit_bits x)),
    )
flat-update (x ∷ xs) (suc u) k i b h l m e =
    rw
      (update_at-skip (unit_bits x) (flat xs) i (u * 32 + k) (λ y. max y b)
        (omega (arith, length-unit_bits x)))
      (ap (λ t. unit_bits x ++ t) (flat-update xs u k (u * 32 + k) b (omega arith) l m refl))

pub get_elem?-append_left :
    (xs ys : List ℕ) (k : ℕ) → k < length xs → get_elem? (xs ++ ys) k ≡ get_elem? xs k
get_elem?-append_left [] ys k h = absurd (omega arith)
get_elem?-append_left (x ∷ xs) ys zero h = refl
get_elem?-append_left (x ∷ xs) ys (suc k) h = get_elem?-append_left xs ys k (omega arith)

get_elem?-append_skip :
    (xs ys : List ℕ) (i k : ℕ) → i ≡ length xs + k → get_elem? (xs ++ ys) i ≡ get_elem? ys k
get_elem?-append_skip [] ys i k e = ap (λ (j : ℕ). get_elem? ys j) (omega arith)
get_elem?-append_skip (x ∷ xs) ys zero k e = absurd (omega arith)
get_elem?-append_skip (x ∷ xs) ys (suc i) k e = get_elem?-append_skip xs ys i k (omega arith)

get_elem?-low_bits : (n k x : ℕ) → k < n → get_elem? (low_bits n x) k ≡ some (x / 2 ^ k % 2)
get_elem?-low_bits zero k x h = absurd (omega arith)
get_elem?-low_bits (suc n) zero x h = ap some (omega arith)
get_elem?-low_bits (suc n) (suc k) x h =
    let two : 2 * 2 ^ k ≡ 2 ^ suc k = omega (arith, pow-suc 2 k) in
    get_elem?-low_bits n k (x / 2) (omega arith) ∙ rw (div-div-eq-div-mul x 2 (2 ^ k), two)

get_elem?-unit_bits : (x k : ℕ) → k < 32 → get_elem? (unit_bits x) k ≡ some (x / 2 ^ k % 2)
unfolding unit_bits
get_elem?-unit_bits x k h = get_elem?-low_bits 32 k x h

-- The bit that is read from a unit is that of the list.
pub get_elem?-flat :
    (units : List ℕ) (u k i : ℕ)
    → u < length units
    → k < 32
    → i ≡ u * 32 + k
    → get_elem? (flat units) i ≡ some (unit_at units u / 2 ^ k % 2)
unfolding unit_at
get_elem?-flat [] u k i h l e = absurd (omega arith)
get_elem?-flat (x ∷ xs) zero k i h l e =
    let e' : i ≡ k = omega arith in
    rw e' (
      get_elem?-append_left (unit_bits x) (flat xs) k (omega (arith, length-unit_bits x))
      ∙ get_elem?-unit_bits x k l)
get_elem?-flat (x ∷ xs) (suc u) k i h l e =
    get_elem?-append_skip (unit_bits x) (flat xs) i (u * 32 + k) (omega (arith, length-unit_bits x))
    ∙ get_elem?-flat xs u k (u * 32 + k) (omega arith) l refl

zero_unit : replicate 32 0 ≡ unit_bits 0
unfolding unit_bits
zero_unit = refl

pub flat-replicate : (n m : ℕ) → m ≡ n * 32 → flat (replicate n 0) ≡ replicate m 0
flat-replicate zero m e = let e' : m ≡ 0 = omega arith in rw e'
flat-replicate (suc n) m e = rw (flat-replicate n (n * 32) refl) (
    ap (λ t. t ++ replicate (n * 32) 0) (sym zero_unit)
    ∙ sym (replicate-add 32 (n * 32) m 0 (omega arith)))
