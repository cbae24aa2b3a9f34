-- ===== src/Deframer/Bits.antt =====
-- Bits through the deframer, as the loop of apps/ax25tnc/demodulator.c feeds them, and what the
-- stuffed bits of a byte and a flag do to a deframer that has seen a flag.
use modemstuff.Base.{
  IsBit, ℕ, zero, suc, ◌+◌, ◌*◌, ◌/◌, ◌%◌, ◌^◌, ◌<◌, ◌≡◌, ◌≢◌, ◌∙◌, bit_or, bit_or_append,
  bit_or_shifted, List, [], ◌∷◌, ◌++◌, Option, Option-cases, Bool-cases, some, arith, set, IsByte,
  ◌==◌, ==-false, if◌then◌else◌, inl, inr, ◌>>=◌, ◌⊎◌,
}
use modemstuff.Packet.{Packet}
use modemstuff.Framer.Stuffing.{stuffed_bit, ones_after}
use modemstuff.Deframer.{Deframer, unstuff, store_byte, process}

abbrev pub deliver : ℕ → Packet → List Packet → List Packet
deliver ret packet packets = if ret == 0 then packets else packet ∷ packets

-- The deframer and the packet storage after the bits, and the packets that were ready, in order.
unfoldable pub run : Deframer → Packet → List ℕ → Option (Deframer × Packet × List Packet)
run d packet [] = some (d, packet, [])
run d packet (bit ∷ bits) = do
  (d', packet', ret) ← process d packet bit
  (d'', packet'', packets) ← run d' packet' bits
  some (d'', packet'', deliver ret packet' packets)

-- A bit that completes no packet.
pub run_silent :
    (d d' : Deframer) (p : Packet) (bit : ℕ) (bits : List ℕ)
    → process d p bit ≡ some (d', p, 0)
    → run d p (bit ∷ bits) ≡ run d' p bits
unfolding run
run_silent d d' p bit bits e =
    rw e (elim (Option-cases (run d' p bits)) [ inl f ↦ rw f | inr (r, f) ↦ rw f ])

abbrev pub state : List ℕ → ℕ → ℕ → ℕ → ℕ → ℕ → Deframer
state buf pos raw u m ones = record {
  buffer = buf;
  buffer_pos = pos;
  raw_bits = raw;
  unstuffed_bits = u;
  unstuffed_bit_count = m;
  ones_count = ones;
}

-- The last bits of `raw` are a zero and that many ones.
abbrev pub EndsInOnes : ℕ → ℕ → Type 0
EndsInOnes zero raw = raw % 2 ≡ 0
EndsInOnes (suc zero) raw = raw % 4 ≡ 1
EndsInOnes (suc (suc zero)) raw = raw % 8 ≡ 3
EndsInOnes (suc (suc (suc zero))) raw = raw % 16 ≡ 7
EndsInOnes (suc (suc (suc (suc zero)))) raw = raw % 32 ≡ 15
EndsInOnes _ raw = ⊥

-- Shifting a bit in at the low or the high end, without the wrap.
pub raw_shift : (raw b : ℕ) → IsBit b → bit_or (raw * 2) b % 2 ^ 8 ≡ (raw * 2 + b) % 256
raw_shift raw b l = rw (bit_or_append raw b l)

pub byte_shift :
    (u b : ℕ) → IsByte u → IsBit b → bit_or (u / 2) (b * 2 ^ 7) % 2 ^ 8 ≡ u / 2 + b * 128
byte_shift u b h l = omega (arith, bit_or_shifted 7 (u / 2) b (omega arith))

-- After a bit has entered the byte: the eighth bit completes it.
abbrev pub pushed : List ℕ → ℕ → ℕ → ℕ → ℕ → ℕ → Deframer
pushed buf pos raw u m ones =
    if m == 7
    then state (set buf pos u) (pos + 1) raw u 0 ones
    else state buf pos raw u (m + 1) ones

module _ (buf : List ℕ) (pos raw u m : ℕ) (p : Packet) (byte : IsByte u) (count : m < 8)
    (room : (pos < 255) ⊎ (m < 7)) where
  pub process_one :
      (ones : ℕ)
      → ones < 255
      → process (state buf pos raw u m ones) p 1
        ≡ some (pushed buf pos ((raw * 2 + 1) % 256) (u / 2 + 128) m (ones + 1), p, 0)
  unfolding process unstuff store_byte
  process_one ones o =
      rw
        (
          raw_shift raw 1 (omega arith),
          ==-false ((raw * 2 + 1) % 256) 0x7e (omega arith),
          byte_shift u 1 byte (omega arith),
        )
        (ground arith)

  pub process_zero :
      (ones : ℕ)
      → ones < 5
      → raw % 128 ≢ 63
      → process (state buf pos raw u m ones) p 0
        ≡ some (pushed buf pos (raw * 2 % 256) (u / 2) m 0, p, 0)
  unfolding process unstuff store_byte
  process_zero ones o n =
      let shift : bit_or (raw * 2) 0 % 2 ^ 8 ≡ raw * 2 % 256 =
        omega (arith, raw_shift raw 0 (omega arith)) in
      let half : bit_or (u / 2) (0 * 2 ^ 7) % 2 ^ 8 ≡ u / 2 =
        omega (arith, byte_shift u 0 byte (omega arith)) in
      rw (shift, ==-false (raw * 2 % 256) 0x7e (omega arith), half) (ground arith)

process_stuffed :
    (buf : List ℕ) (pos raw u m : ℕ) (p : Packet)
    → m < 8
    → raw % 128 ≢ 63
    → process (state buf pos raw u m 5) p 0 ≡ some (state buf pos (raw * 2 % 256) u m 0, p, 0)
unfolding process unstuff store_byte
process_stuffed buf pos raw u m p h n =
    let shift : bit_or (raw * 2) 0 % 2 ^ 8 ≡ raw * 2 % 256 =
      omega (arith, raw_shift raw 0 (omega arith)) in
    rw (shift, ==-false (raw * 2 % 256) 0x7e (omega arith)) (ground arith)

process_stuffed_pushed :
    (buf : List ℕ) (pos raw u m : ℕ) (p : Packet)
    → m < 8
    → raw % 128 ≢ 63
    → process (pushed buf pos raw u m 5) p 0 ≡ some (pushed buf pos (raw * 2 % 256) u m 0, p, 0)
process_stuffed_pushed buf pos raw u m p h n = elim (Bool-cases (m == 7)) [
  | inl full ↦ rw full (process_stuffed (set buf pos u) (pos + 1) raw u 0 p (omega arith) n)
  | inr more ↦ rw more (process_stuffed buf pos raw u (m + 1) p (ground arith) n)
]

pub no_flag : (ones raw : ℕ) → EndsInOnes ones raw → raw % 128 ≢ 63
no_flag zero raw h = omega arith
no_flag (suc zero) raw h = omega arith
no_flag (suc (suc zero)) raw h = omega arith
no_flag (suc (suc (suc zero))) raw h = omega arith
no_flag (suc (suc (suc (suc zero)))) raw h = omega arith
no_flag (suc (suc (suc (suc (suc n))))) raw h = absurd h

pub ones_small : (ones raw : ℕ) → EndsInOnes ones raw → ones < 5
ones_small zero raw h = omega arith
ones_small (suc zero) raw h = omega arith
ones_small (suc (suc zero)) raw h = omega arith
ones_small (suc (suc (suc zero))) raw h = omega arith
ones_small (suc (suc (suc (suc zero)))) raw h = omega arith
ones_small (suc (suc (suc (suc (suc n))))) raw h = absurd h

-- One data bit, with the zero behind a fifth one: the bit enters the byte, and nothing else does.
pub stuffed_step :
    (buf : List ℕ) (pos raw u m ones b : ℕ) (p : Packet)
    → IsByte u
    → m < 8
    → (pos < 255) ⊎ (m < 7)
    → EndsInOnes ones raw
    → IsBit b
    → (raw' : ℕ) × EndsInOnes (ones_after ones b) raw'
      × ((rest : List ℕ)
          → run (state buf pos raw u m ones) p (stuffed_bit ones b ++ rest)
            ≡ run (pushed buf pos raw' (u / 2 + b * 128) m (ones_after ones b)) p rest)
stuffed_step buf pos raw u m ones zero p h c r e l =
    let half : u / 2 + 0 ≡ u / 2 = omega arith in
    (
      raw * 2 % 256,
      omega arith,
      λ rest. rw half (
          run_silent _ _ p 0 rest (
            process_zero buf pos raw u m p h c r ones (ones_small ones raw e)
              (no_flag ones raw e))),
    )
stuffed_step buf pos raw u m ones (suc (suc b)) p h c r e l = absurd (omega arith)
stuffed_step buf pos raw u m zero (suc zero) p h c r e l = (
  (raw * 2 + 1) % 256,
  omega arith,
  λ rest. run_silent _ _ p 1 rest (process_one buf pos raw u m p h c r 0 (omega arith)),
)
stuffed_step buf pos raw u m (suc zero) (suc zero) p h c r e l = (
  (raw * 2 + 1) % 256,
  omega arith,
  λ rest. run_silent _ _ p 1 rest (process_one buf pos raw u m p h c r 1 (omega arith)),
)
stuffed_step buf pos raw u m (suc (suc zero)) (suc zero) p h c r e l = (
  (raw * 2 + 1) % 256,
  omega arith,
  λ rest. run_silent _ _ p 1 rest (process_one buf pos raw u m p h c r 2 (omega arith)),
)
stuffed_step buf pos raw u m (suc (suc (suc zero))) (suc zero) p h c r e l = (
  (raw * 2 + 1) % 256,
  omega arith,
  λ rest. run_silent _ _ p 1 rest (process_one buf pos raw u m p h c r 3 (omega arith)),
)
stuffed_step buf pos raw u m (suc (suc (suc (suc zero)))) (suc zero) p h c r e l =
    let raw₁ = (raw * 2 + 1) % 256 in
    (
      raw₁ * 2 % 256,
      omega arith,
      λ rest.
          run_silent _ _ p 1 (0 ∷ rest) (process_one buf pos raw u m p h c r 4 (omega arith))
          ∙ run_silent _ _ p 0 rest
              (process_stuffed_pushed buf pos raw₁ (u / 2 + 128) m p c (omega arith)),
    )
stuffed_step buf pos raw u m (suc (suc (suc (suc (suc n))))) (suc zero) p h c r e l = absurd e
