-- ===== src/Framer/Capacity.antt =====
-- What does not fit the bit buffer of src/hamstuff/ax25_framer.c is dropped, bit by bit.
use native.Mathlib.Decide.{dec_lt}
use modemstuff.Base.{
  ℕ, zero, suc, ◌+◌, ◌-◌, ◌*◌, ◌/◌, ◌%◌, ◌^◌, ◌≤◌, ◌<◌, ◌≡◌, refl, min, List, [], ◌∷◌, some, arith,
  length, leb, false,
}
use modemstuff.Packet.{Packet, packet_pack}
use modemstuff.Framer.{
  Framer, bit_buffer_unit_bits, unit_at, insert_bit, insert_bits, insert_byte, byte_bits,
  insert_flags, stuff_bit, stuff_bits, stuff_bytes, framer_process, next_bit, ax25_flag,
}
use modemstuff.Framer.Content.{capacity}
use modemstuff.Framer.Reading.{drain, drain-cons, next_bit_done}

-- The counters agree, and are those of a buffer of 8192 bits.
pub record IsCounted (fr : Framer) : Type 0 where
  pub cursor : fr.total_bits ≡ fr.bit_buffer_unit * 32 + fr.bit_buffer_bit
  pub in_unit : fr.bit_buffer_bit < 32
  pub room : fr.total_bits ≤ capacity

pub insert_bit-IsCounted :
    (fr : Framer) (bit : ℕ)
    → IsCounted fr
    → IsCounted (insert_bit fr bit)
      × ((insert_bit fr bit).total_bits ≡ min (fr.total_bits + 1) capacity)
unfolding insert_bit
insert_bit-IsCounted fr bit c = ground arith

insert_bits-IsCounted :
    (bits : List ℕ) (fr : Framer)
    → IsCounted fr
    → IsCounted (insert_bits fr bits)
      × ((insert_bits fr bits).total_bits ≡ min (fr.total_bits + length bits) capacity)
unfolding insert_bits
insert_bits-IsCounted [] fr c = (c, omega (arith, c.room))
insert_bits-IsCounted (bit ∷ bits) fr c =
    let (c', one) = insert_bit-IsCounted fr bit c in
    let (c'', more) = insert_bits-IsCounted bits (insert_bit fr bit) c' in (c'', omega arith)

pub insert_flags-IsCounted :
    (n : ℕ) (fr : Framer)
    → IsCounted fr
    → IsCounted (insert_flags n fr)
      × ((insert_flags n fr).total_bits ≡ min (fr.total_bits + 8 * n) capacity)
unfolding insert_flags insert_byte
insert_flags-IsCounted zero fr c = (c, omega (arith, c.room))
insert_flags-IsCounted (suc n) fr c =
    let (c', eight) = insert_bits-IsCounted (byte_bits ax25_flag) fr c in
    let (c'', more) = insert_flags-IsCounted n (insert_byte fr ax25_flag) c' in (c'', omega arith)

-- A bit is not stuffed, or followed by a zero.
stuff_bit-IsCounted :
    (fr : Framer) (ones bit : ℕ) → IsCounted fr → IsCounted (stuff_bit fr ones bit).0
unfolding stuff_bit
stuff_bit-IsCounted fr ones bit c =
    let (c', one) = insert_bit-IsCounted fr bit c in
    let (c'', two) = insert_bit-IsCounted (insert_bit fr bit) 0 c' in ground arith

stuff_bits-IsCounted :
    (bits : List ℕ) (fr : Framer) (ones : ℕ) → IsCounted fr → IsCounted (stuff_bits fr ones bits).0
unfolding stuff_bits
stuff_bits-IsCounted [] fr ones c = c
stuff_bits-IsCounted (bit ∷ bits) fr ones c =
    stuff_bits-IsCounted bits _ _ (stuff_bit-IsCounted fr ones bit c)

stuff_bytes-IsCounted :
    (bytes : List ℕ) (fr : Framer) (ones : ℕ)
    → IsCounted fr
    → IsCounted (stuff_bytes fr ones bytes).0
unfolding stuff_bytes
stuff_bytes-IsCounted [] fr ones c = c
stuff_bytes-IsCounted (byte ∷ bytes) fr ones c =
    stuff_bytes-IsCounted bytes _ _ (stuff_bits-IsCounted (byte_bits byte) fr ones c)

-- The framer before its first flag.
abbrev pub rewound : Framer → Framer
rewound fr = record fr { bit_buffer_unit = 0; bit_buffer_bit = 0; total_bits = 0 }

pub rewound-IsCounted : (fr : Framer) → IsCounted (rewound fr)
rewound-IsCounted fr = record { cursor = refl; in_unit = omega arith; room = omega arith }

-- Whatever the framer held, a packet that packs leaves at most 8192 bits.
pub framer_process_total :
    (fr : Framer) (packet : Packet) (bytes : List ℕ)
    → packet_pack packet ≡ some bytes
    → (fr' : Framer) × (total : ℕ) × (framer_process fr packet ≡ some (fr', total))
      × (fr'.total_bits ≡ total)
      × (total ≤ capacity)
unfolding framer_process
framer_process_total fr packet bytes e =
    let (c, headed) = insert_flags-IsCounted fr.head_flags (rewound fr) (rewound-IsCounted fr) in
    let c' = stuff_bytes-IsCounted bytes (insert_flags fr.head_flags (rewound fr)) 0 c in
    let (c'', tailed) = insert_flags-IsCounted fr.tail_flags _ c' in
    (
      record (insert_flags fr.tail_flags
          (stuff_bytes (insert_flags fr.head_flags (rewound fr)) 0 bytes).0) { reading_bit = 0 },
      _,
      rw e refl,
      refl,
      c''.room,
    )

next_bit_more :
    (fr : Framer)
    → fr.reading_bit < fr.total_bits
    → (b : ℕ) × (next_bit fr ≡ (record fr { reading_bit = fr.reading_bit + 1 }, some b))
unfolding next_bit
next_bit_more fr h =
    let more : leb fr.total_bits fr.reading_bit ≡ false = ground arith in
    (
      unit_at fr.bit_buffer (fr.reading_bit / bit_buffer_unit_bits)
          / 2 ^ (fr.reading_bit % bit_buffer_unit_bits)
          % 2,
      rw more refl,
    )

-- Reading stops at the last bit.
pub length-drain :
    (fuel : ℕ) (fr : Framer) → length (drain fuel fr) ≤ fr.total_bits - fr.reading_bit
unfolding drain
length-drain zero fr = omega arith
length-drain (suc fuel) fr = elim (dec_lt fr.reading_bit fr.total_bits) [
  | yes left ↦
      let (b, e) = next_bit_more fr left in
      let later = length-drain fuel (record fr { reading_bit = fr.reading_bit + 1 }) in
      rw (drain-cons fuel fr _ b e) (omega arith)
  | no done ↦ rw (next_bit_done fr (omega arith), drain) (omega arith)
]
