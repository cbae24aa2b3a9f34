-- ===== src/Framer/Overflow.antt =====
-- Flags that fill the bit buffer of src/hamstuff/ax25_framer.c, and leave the packet no bit.
use modemstuff.Base.{ℕ, ◌≤◌, ◌≡◌, refl, ◌∙◌, List, [], ◌∷◌, some, arith}
use modemstuff.Packet.{Packet, packet_pack}
use modemstuff.Framer.{
  Framer, bit_buffer_size, insert_bit, byte_bits, insert_flags, stuff_bit, stuff_bits, stuff_bytes,
  framer_process,
}
use modemstuff.Framer.Capacity.{rewound, rewound-IsCounted, insert_flags-IsCounted}

-- The buffer takes no bit any more.
abbrev IsFull : Framer → Type 0
IsFull fr = bit_buffer_size ≤ fr.bit_buffer_unit

insert_bit_full : (fr : Framer) (bit : ℕ) → IsFull fr → insert_bit fr bit ≡ fr
unfolding insert_bit
insert_bit_full fr bit h = ground arith

stuff_bit_full : (fr : Framer) (ones bit : ℕ) → IsFull fr → (stuff_bit fr ones bit).0 ≡ fr
unfolding stuff_bit
stuff_bit_full fr ones bit h = ground (arith, insert_bit_full fr bit h, insert_bit_full fr 0 h)

stuff_bits_full :
    (bits : List ℕ) (fr : Framer) (ones : ℕ) → IsFull fr → (stuff_bits fr ones bits).0 ≡ fr
unfolding stuff_bits
stuff_bits_full [] fr ones h = refl
stuff_bits_full (bit ∷ bits) fr ones h =
    let same = stuff_bit_full fr ones bit h in stuff_bits_full bits _ _ (rw same h) ∙ same

stuff_bytes_full :
    (bytes : List ℕ) (fr : Framer) (ones : ℕ) → IsFull fr → (stuff_bytes fr ones bytes).0 ≡ fr
unfolding stuff_bytes
stuff_bytes_full [] fr ones h = refl
stuff_bytes_full (byte ∷ bytes) fr ones h =
    let same = stuff_bits_full (byte_bits byte) fr ones h in
    stuff_bytes_full bytes _ _ (rw same h) ∙ same

-- With 1024 flags in front, two packets that pack leave the framer the same.
pub framer_process_full :
    (fr : Framer) (p q : Packet) (ps qs : List ℕ)
    → packet_pack p ≡ some ps
    → packet_pack q ≡ some qs
    → 1024 ≤ fr.head_flags
    → framer_process fr p ≡ framer_process fr q
unfolding framer_process
framer_process_full fr p q ps qs e f h =
    let (c, total) = insert_flags-IsCounted fr.head_flags (rewound fr) (rewound-IsCounted fr) in
    let full : IsFull (insert_flags fr.head_flags (rewound fr)) =
      omega (arith, c.cursor, c.in_unit, total) in
    let headed = insert_flags fr.head_flags (rewound fr) in
    rw (e, f, stuff_bytes_full ps headed 0 full, stuff_bytes_full qs headed 0 full) refl
