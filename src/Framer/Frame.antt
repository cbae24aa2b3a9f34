-- ===== src/Framer/Frame.antt =====
-- What `hs_ax25_framer_process` leaves in the bit buffer, and reading it back.
use modemstuff.Base.{
  ℕ, ◌+◌, ◌*◌, ◌∷◌, take, length-append, ◌≤◌, ◌≡◌, refl, List, [], some, arith, length,
  length-replicate, replicate,
}
use modemstuff.Packet.{Packet, packet_pack}
use modemstuff.Framer.{Framer, bit_buffer_size, insert_bits, framer_process}
use modemstuff.Framer.Units.{flat, unit_bits, length-unit_bits, flat-replicate}
use modemstuff.Framer.Content.{
  capacity, over, Holds, Overlays, Overlays-reading, Overlays-Holds, Overlays-Contains,
  insert_bits-Overlays,
}
use modemstuff.Framer.Reading.{drain, drain-Contains}
use modemstuff.Framer.Stuffing.{frame, frame-IsBit, insert_frame}

-- A framer at the start of a frame, its buffer clear.
abbrev pub IsClear : Framer → Type 0
IsClear fr = fr.bit_buffer ≡ replicate bit_buffer_size 0

abbrev pub started : Framer → Framer
started fr = record fr { bit_buffer_unit = 0; bit_buffer_bit = 0; total_bits = 0 }

length-flat : (units : List ℕ) → length (flat units) ≡ 32 * length units
length-flat [] = omega arith
length-flat (x ∷ units) =
    omega (arith, length-append (unit_bits x) (flat units), length-unit_bits x, length-flat units)

pub started-Overlays :
    (fr : Framer)
    → length fr.bit_buffer ≡ bit_buffer_size
    → Overlays (started fr) (flat fr.bit_buffer) []
started-Overlays fr h = record {
  array = h;
  cursor = omega arith;
  in_unit = omega arith;
  count = refl;
  room = omega arith;
  whole = omega (arith, length-flat fr.bit_buffer);
  content = refl;
}

-- Where the frame stands when the framer is done, over the bits that the buffer held.
framer_process-Overlays :
    (fr : Framer) (packet : Packet) (bytes : List ℕ)
    → length fr.bit_buffer ≡ bit_buffer_size
    → packet_pack packet ≡ some bytes
    → length (frame fr.head_flags bytes fr.tail_flags) ≤ capacity
    → (fr' : Framer) × (framer_process fr packet
        ≡ some (fr', length (frame fr.head_flags bytes fr.tail_flags)))
      × Overlays fr' (flat fr.bit_buffer) (frame fr.head_flags bytes fr.tail_flags)
      × (fr'.reading_bit ≡ 0)
unfolding framer_process
framer_process-Overlays fr packet bytes h e room =
    let bits = frame fr.head_flags bytes fr.tail_flags in
    let same = insert_frame fr.head_flags fr.tail_flags bytes (started fr) in
    let laid =
      insert_bits-Overlays bits [] (flat fr.bit_buffer) (started fr)
        (frame-IsBit fr.head_flags fr.tail_flags bytes) (started-Overlays fr h) (omega arith) in
    (
      record (insert_bits (started fr) bits) { reading_bit = 0 },
      rw (e, same, laid.count),
      Overlays-reading 0 laid,
      refl,
    )

-- A framer whose buffer is clear leaves exactly the frame in it: its head flags, the stuffed bits of
-- the packed packet and its tail flags, if they fit the 8192 bits; it returns their number, and
-- reading begins at the first.
pub framer_process-frame :
    (fr : Framer) (packet : Packet) (bytes : List ℕ)
    → IsClear fr
    → packet_pack packet ≡ some bytes
    → length (frame fr.head_flags bytes fr.tail_flags) ≤ capacity
    → (fr' : Framer) × (framer_process fr packet
        ≡ some (fr', length (frame fr.head_flags bytes fr.tail_flags)))
      × Holds fr' (frame fr.head_flags bytes fr.tail_flags)
      × (fr'.reading_bit ≡ 0)
framer_process-frame fr packet bytes h e room =
    let array : length fr.bit_buffer ≡ bit_buffer_size =
      rw h (length-replicate {A = ℕ} bit_buffer_size 0) in
    let (fr', f, laid, at_start) = framer_process-Overlays fr packet bytes array e room in
    let zeros : flat fr.bit_buffer ≡ replicate capacity 0 =
      rw h (flat-replicate 256 8192 (omega arith)) in
    (fr', f, Overlays-Holds (rw zeros at laid), at_start)

-- Whatever the bit buffer held, a packet whose frame fits it is framed without a fault, and reading
-- until the end gives every bit of the frame, in order, raised to one where the buffer held a one.
pub drain-framer_process :
    (fr : Framer) (packet : Packet) (bytes : List ℕ)
    → length fr.bit_buffer ≡ bit_buffer_size
    → packet_pack packet ≡ some bytes
    → length (frame fr.head_flags bytes fr.tail_flags) ≤ capacity
    → let bits = frame fr.head_flags bytes fr.tail_flags in
      (fr' : Framer) × (framer_process fr packet ≡ some (fr', length bits))
      × (drain (length bits + 1) fr' ≡ over bits (take (length bits) (flat fr.bit_buffer)))
drain-framer_process fr packet bytes h e room =
    let bits = frame fr.head_flags bytes fr.tail_flags in
    let (fr', f, laid, at_start) = framer_process-Overlays fr packet bytes h e room in
    let held = Overlays-Contains laid in
    let all = drain-Contains (length bits + 1) fr' _ held (omega (arith, laid.count, held.count)) in
    (fr', f, rw at_start at all)
