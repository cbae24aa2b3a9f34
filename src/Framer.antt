-- ===== src/Framer.antt =====
-- The framer of src/hamstuff/ax25_framer.c and include/hamstuff/ax25_framer.h: flags, bit stuffing
-- and a buffer of bits in units of 32, read back one by one.
-- `none` as the result of `framer_process` is a fault of the packing; as a bit it is -1.
pub mod Units
pub mod Content
pub mod Stuffing
pub mod Room
pub mod Frame
pub mod Reading
pub mod Capacity
pub mod Overflow
mod Examples
use modemstuff.Base.{
  ℕ, zero, suc, ◌+◌, ◌*◌, ◌/◌, ◌%◌, ◌^◌, bit_or, List, [], ◌∷◌, Option, none, some, get_elem?, leb,
  ◌==◌, if◌then◌else◌, ◌>>=◌,
}
use modemstuff.Packet.{Packet, packet_pack}

abbrev pub ax25_flag : ℕ
ax25_flag = 0x7e

abbrev pub bit_buffer_size : ℕ
bit_buffer_size = 256

-- `sizeof(unsigned int) * 8`
abbrev pub bit_buffer_unit_bits : ℕ
bit_buffer_unit_bits = 32

abbrev pub min_head_flags : ℕ
min_head_flags = 4

abbrev pub min_tail_flags : ℕ
min_tail_flags = 2

-- `bit_buffer` is the whole array of 256 units.
pub record Framer : Type 0 where
  pub head_flags : ℕ
  pub tail_flags : ℕ
  pub bit_buffer : List ℕ
  pub bit_buffer_unit : ℕ
  pub bit_buffer_bit : ℕ
  pub total_bits : ℕ
  pub reading_bit : ℕ

-- `xs[i] = f(xs[i])`; out of bounds it changes nothing.
abbrev pub update_at : List ℕ → ℕ → (ℕ → ℕ) → List ℕ
update_at [] i f = []
update_at (x ∷ xs) zero f = f x ∷ xs
update_at (x ∷ xs) (suc i) f = x ∷ update_at xs i f

-- The bit is 0 or 1 and the shift is at most 31, so the shifted bit fits the unit.
unfoldable pub insert_bit : Framer → ℕ → Framer
insert_bit fr bit =
    if leb bit_buffer_size fr.bit_buffer_unit
    then fr
    else let fr' = record fr {
      bit_buffer =
          update_at fr.bit_buffer fr.bit_buffer_unit
            (λ unit. bit_or unit (bit * 2 ^ fr.bit_buffer_bit));
      bit_buffer_bit = fr.bit_buffer_bit + 1;
      total_bits = fr.total_bits + 1;
    } in
      if leb bit_buffer_unit_bits fr'.bit_buffer_bit
      then record fr' { bit_buffer_unit = fr'.bit_buffer_unit + 1; bit_buffer_bit = 0 }
      else fr'

-- `(byte & (1 << i)) ? 1 : 0`
abbrev pub bit_of : ℕ → ℕ → ℕ
bit_of byte i = byte / 2 ^ i % 2

-- The bits of a byte as both loops take them, from i = 0 on.
unfoldable pub byte_bits : ℕ → List ℕ
byte_bits byte =
    bit_of byte 0
    ∷ bit_of byte 1
    ∷ bit_of byte 2
    ∷ bit_of byte 3
    ∷ bit_of byte 4
    ∷ bit_of byte 5
    ∷ bit_of byte 6
    ∷ bit_of byte 7
    ∷ []

pub insert_bits : Framer → List ℕ → Framer
insert_bits fr [] = fr
insert_bits fr (bit ∷ bits) = insert_bits (insert_bit fr bit) bits

unfoldable pub insert_byte : Framer → ℕ → Framer
unfolding insert_bits insert_bit byte_bits
insert_byte fr byte = insert_bits fr (byte_bits byte)

unfoldable pub framer_init : Framer → Framer
framer_init fr = record fr {
  head_flags = min_head_flags;
  tail_flags = min_tail_flags;
  bit_buffer_unit = 0;
  bit_buffer_bit = 0;
  total_bits = 0;
  reading_bit = 0;
}

-- Flags without stuffing.
pub insert_flags : ℕ → Framer → Framer
insert_flags zero fr = fr
insert_flags (suc n) fr = insert_flags n (insert_byte fr ax25_flag)

-- One data bit, and a zero behind the fifth one in a row; with the framer goes `ones_count`.
pub stuff_bit : Framer → ℕ → ℕ → Framer × ℕ
stuff_bit fr ones_count bit =
    let fr' = insert_bit fr bit in
    let ones : ℕ = if bit == 0 then 0 else ones_count + 1 in
    if ones == 5 then (insert_bit fr' 0, 0) else (fr', ones)

pub stuff_bits : Framer → ℕ → List ℕ → Framer × ℕ
stuff_bits fr ones [] = (fr, ones)
stuff_bits fr ones (bit ∷ bits) =
    let (fr', ones') = stuff_bit fr ones bit in stuff_bits fr' ones' bits

pub stuff_bytes : Framer → ℕ → List ℕ → Framer × ℕ
stuff_bytes fr ones [] = (fr, ones)
stuff_bytes fr ones (byte ∷ bytes) =
    let (fr', ones') = stuff_bits fr ones (byte_bits byte) in stuff_bytes fr' ones' bytes

-- The framer with the frame in its buffer, and the number of bits.
unfoldable pub framer_process : Framer → Packet → Option (Framer × ℕ)
framer_process fr packet =
    let fr₀ = record fr { bit_buffer_unit = 0; bit_buffer_bit = 0; total_bits = 0 } in
    let fr₁ = insert_flags fr.head_flags fr₀ in
    do
      bytes ← packet_pack packet
      let fr₂ = (stuff_bytes fr₁ 0 bytes).0
      let fr₃ = record (insert_flags fr.tail_flags fr₂) { reading_bit = 0 }
      some (fr₃, fr₃.total_bits)

-- A bit that is read lies below `total_bits`, inside the buffer; the default is never read.
pub unit_at : List ℕ → ℕ → ℕ
unit_at units i = elim (get_elem? units i) [ none ↦ 0 | some unit ↦ unit ]

unfoldable pub next_bit : Framer → Framer × Option ℕ
next_bit fr = if leb fr.total_bits fr.reading_bit then (fr, none) else (
  record fr { reading_bit = fr.reading_bit + 1 },
  some (
      unit_at fr.bit_buffer (fr.reading_bit / bit_buffer_unit_bits)
      / 2 ^ (fr.reading_bit % bit_buffer_unit_bits)
      % 2),
)
