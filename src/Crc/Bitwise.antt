-- ===== src/Crc/Bitwise.antt =====
-- The table of the code against the shift register that defines this CRC: one step per bit,
-- lowest bit first, with the reversed polynomial 0x8408.
use modemstuff.Base.{
  ℕ, zero, suc, ◌*◌, ◌/◌, ◌%◌, ◌^◌, ◌<◌, ◌≡◌, refl, sym, ap, ◌∙◌, bit_xor, bit_xor_digits,
  bit_xor_assoc, bit_xor_comm, bit_xor-zero, bit_xor_shifted, mul-two_pow, ◌⊎◌, bit_xor-lt, true,
  List, [], ◌∷◌, inl, inr, ◌==◌, ==_iff, all_below, all_below_sound, ltb, ltb→lt, if◌then◌else◌,
  arith,
}
use modemstuff.Crc.{table_entry, crc_init, crc_update, crc_loop, fcs}

-- One shift of the register.
unfoldable pub shift : ℕ → ℕ
shift x = if x % 2 == 1 then bit_xor (x / 2) 0x8408 else x / 2

unfoldable pub shifts : ℕ → ℕ → ℕ
unfolding shift
shifts zero x = x
shifts (suc n) x = shifts n (shift x)

-- A byte enters at the low end of the register, and eight shifts follow.
unfoldable pub bitwise_update : ℕ → ℕ → ℕ
unfolding shifts
bitwise_update byte crc = shifts 8 (bit_xor crc byte)

entries_checked : all_below 256 (λ i. table_entry i == shifts 8 i) ≡ true
unfolding all_below table_entry shifts
entries_checked = refl

entries_bounded : all_below 256 (λ i. ltb (table_entry i) (2 ^ 16)) ≡ true
unfolding all_below table_entry
entries_bounded = refl

-- The register is linear.
bit_xor_swap :
    (a b c d : ℕ) → bit_xor (bit_xor a b) (bit_xor c d) ≡ bit_xor (bit_xor a c) (bit_xor b d)
bit_xor_swap a b c d = cc (
  bit_xor_assoc a b (bit_xor c d),
  bit_xor_assoc b c d,
  bit_xor_comm b c,
  bit_xor_assoc c b d,
  bit_xor_assoc a c (bit_xor b d),
)

abbrev poly : ℕ
poly = 0x8408

shift_odd : (x : ℕ) → x % 2 ≡ 1 → shift x ≡ bit_xor (x / 2) poly
unfolding shift
shift_odd x h = rw h

shift_even : (x : ℕ) → x % 2 ≡ 0 → shift x ≡ x / 2
unfolding shift
shift_even x h = rw h

parity : (x : ℕ) → (x % 2 ≡ 0) ⊎ (x % 2 ≡ 1)
parity x = omega arith

shift_linear : (a b : ℕ) → shift (bit_xor a b) ≡ bit_xor (shift a) (shift b)
shift_linear a b =
    let (half, low) = bit_xor_digits a b in
    elim (parity a) [
      | inl p ↦ elim (parity b) [
        | inl q ↦
            rw (shift_even (bit_xor a b) (omega (arith, low)), shift_even a p, shift_even b q) half
        | inr q ↦
            rw (shift_odd (bit_xor a b) (omega (arith, low)), shift_even a p, shift_odd b q, half)
              (bit_xor_assoc (a / 2) (b / 2) poly)
      ]
      | inr p ↦ elim (parity b) [
        | inl q ↦
            rw (shift_odd (bit_xor a b) (omega (arith, low)), shift_odd a p, shift_even b q, half)
              (cc (
                bit_xor_assoc (a / 2) (b / 2) poly,
                bit_xor_assoc (a / 2) poly (b / 2),
                bit_xor_comm (b / 2) poly,
              ))
        | inr q ↦
            rw (shift_even (bit_xor a b) (omega (arith, low)), shift_odd a p, shift_odd b q, half)
              (sym
                (bit_xor_swap (a / 2) poly (b / 2) poly ∙ bit_xor-zero (bit_xor (a / 2) (b / 2))))
      ]
    ]

shifts_linear : (n a b : ℕ) → shifts n (bit_xor a b) ≡ bit_xor (shifts n a) (shifts n b)
unfolding shifts
shifts_linear zero a b = refl
shifts_linear (suc n) a b = rw shift_linear (shifts_linear n (shift a) (shift b))

-- A register with clear low bits only moves.
shifts_clear : (n h : ℕ) → shifts n (h * 2 ^ n) ≡ h
unfolding shifts
shifts_clear zero h = omega arith
shifts_clear (suc n) h =
    let e : h * 2 ^ suc n % 2 ≡ 0 = omega (arith, mul-two_pow h n) in
    let e' : h * 2 ^ suc n / 2 ≡ h * 2 ^ n = omega (arith, mul-two_pow h n) in
    rw (shift_even (h * 2 ^ suc n) e, e') (shifts_clear n h)

shifts-byte : (x : ℕ) → x < 256 → shifts 8 x ≡ table_entry x
shifts-byte x h = sym ((==_iff _ _).0 (all_below_sound 256 _ x entries_checked h))

-- Eight shifts of any register: the high part moves down, the low byte selects the entry.
shifts_table : (x : ℕ) → shifts 8 x ≡ bit_xor (x / 2 ^ 8) (table_entry (x % 2 ^ 8))
shifts_table x =
    let low = x % 2 ^ 8 in
    let high = x / 2 ^ 8 in
    let parts : x ≡ bit_xor (high * 2 ^ 8) low =
      omega (arith, bit_xor_shifted 8 low high (omega arith)) in
    ap (shifts 8) parts
    ∙ shifts_linear 8 (high * 2 ^ 8) low
    ∙ rw (shifts_clear 8 high, shifts-byte low (omega arith))

abbrev halves : ℕ → ℕ → ℕ
halves zero x = x
halves (suc k) x = halves k (x / 2)

halves-bit_xor : (k a b : ℕ) → halves k (bit_xor a b) ≡ bit_xor (halves k a) (halves k b)
halves-bit_xor zero a b = refl
halves-bit_xor (suc k) a b = rw (bit_xor_digits a b).0 (halves-bit_xor k (a / 2) (b / 2))

halves_eight : (x : ℕ) → halves 8 x ≡ x / 2 ^ 8
halves_eight x = omega arith

-- The high byte of the register is not touched when a byte enters.
high_part : (byte crc : ℕ) → byte < 256 → bit_xor crc byte / 2 ^ 8 ≡ crc / 2 ^ 8
high_part byte crc h =
    let e : halves 8 byte ≡ 0 = omega arith in
    sym (halves_eight (bit_xor crc byte))
    ∙ halves-bit_xor 8 crc byte
    ∙ rw e (bit_xor-zero (halves 8 crc) ∙ halves_eight crc)

-- For every byte and every register, one update by the table is eight shifts of the register that
-- defines the CRC.
pub crc_update-bitwise : (byte crc : ℕ) → byte < 256 → crc_update byte crc ≡ bitwise_update byte crc
unfolding crc_update bitwise_update
crc_update-bitwise byte crc h = rw (shifts_table (bit_xor crc byte), high_part byte crc h)

-- The registers stay 16 bits wide.
pub crc_update-lt : (byte crc : ℕ) → crc < 2 ^ 16 → crc_update byte crc < 2 ^ 16
unfolding crc_update
crc_update-lt byte crc h =
    let i = bit_xor crc byte % 2 ^ 8 in
    bit_xor-lt 16 (crc / 2 ^ 8) (table_entry i) (omega arith)
      (ltb→lt _ _ (all_below_sound 256 _ i entries_bounded (omega arith)))

pub crc_loop-lt : (bytes : List ℕ) (crc : ℕ) → crc < 2 ^ 16 → crc_loop bytes crc < 2 ^ 16
unfolding crc_loop
crc_loop-lt [] crc h = h
crc_loop-lt (b ∷ bs) crc h = crc_loop-lt bs (crc_update b crc) (crc_update-lt b crc h)

pub fcs-lt : (bytes : List ℕ) → fcs bytes < 2 ^ 16
unfolding fcs
fcs-lt bytes =
    bit_xor-lt 16 (crc_loop bytes crc_init) 0xffff (crc_loop-lt bytes crc_init (omega arith))
      (omega arith)
