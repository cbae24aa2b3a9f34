-- ===== src/Deframer/Frame.antt =====
-- A whole frame through the deframer.
use modemstuff.Base.{
  ℕ, zero, suc, ◌+◌, ◌-◌, ◌*◌, ◌/◌, ◌%◌, ◌^◌, ◌≤◌, ◌≡◌, refl, sym, ap, ◌∙◌, bit_or, bit_or_shifted,
  ==_iff, List, [], ◌∷◌, ◌++◌, append_assoc, append-nil, some, arith, take, drop, take-append-drop,
  take_at, get_elem?, get_elem?_at, read_n, read_n-take, fill, length-fill, take-fill, length,
  length-append, All-append, IsByte,
}
use modemstuff.Crc.{fcs}
use modemstuff.Crc.Bitwise.{fcs-lt}
use modemstuff.Packet.{Packet, packet_pack, packet_unpack}
use modemstuff.Packet.Shape.{trailer, IsShaped, IsValid, SamePacket}
use modemstuff.Packet.RoundTrip.{IsFramed, packet_unpack-packet_pack}
use modemstuff.Framer.{byte_bits, ax25_flag}
use modemstuff.Framer.Stuffing.{flags, frame, ones_behind, all_bits}
use modemstuff.Deframer.{Deframer, max_packet_len, check_fcs, look_for_frame}
use modemstuff.Deframer.Bits.{run}
use modemstuff.Deframer.Bytes.{bytes_run}
use modemstuff.Deframer.Flags.{cleared, flag_run}

-- A frame whose check sequence is right is unpacked.
check_fcs-trailer :
    (body rest : List ℕ) (p back : Packet)
    → packet_unpack p ((body ++ trailer body) ++ rest) (length body + 2) ≡ some back
    → check_fcs ((body ++ trailer body) ++ rest) (length body + 2) p ≡ some (back, 1)
unfolding check_fcs
check_fcs-trailer body rest p back unpacked =
    let crc = fcs body in
    let lo = crc % 2 ^ 8 in
    let hi = crc / 2 ^ 8 % 2 ^ 8 in
    let buf = (body ++ trailer body) ++ rest in
    let low : get_elem? buf (length body + 2 - 2) ≡ some lo =
      rw (append_assoc body (trailer body) rest)
        (get_elem?_at body (hi ∷ rest) lo _ (omega arith)) in
    let high : get_elem? buf (length body + 2 - 1) ≡ some hi =
      let shown : buf ≡ (body ++ (lo ∷ [])) ++ (hi ∷ rest) = simp append_assoc in
      rw shown (
        get_elem?_at (body ++ (lo ∷ [])) rest hi _ (omega (arith, length-append body (lo ∷ [])))) in
    let whole : read_n (length body + 2 - 2) buf ≡ some body =
      let e : length body + 2 - 2 ≡ length body = omega arith in
      rw (e, append_assoc body (trailer body) rest)
        (read_n-take (length body) (body ++ (trailer body ++ rest))
            (omega (arith, length-append body (trailer body ++ rest)))
          ∙ ap some (take_at (length body) body (trailer body ++ rest) refl)) in
    let sum : bit_or lo (hi * 2 ^ 8) ≡ crc =
      bit_or_shifted 8 lo hi (omega arith) ∙ omega (arith, fcs-lt body) in
    rw (low, high, whole, sum, (==_iff crc crc).1 refl, unpacked)

pub look_too_early : (buf : List ℕ) (p : Packet) → look_for_frame buf 0 p ≡ some (p, 0)
unfolding look_for_frame
look_too_early buf p = refl

look_long_enough :
    (buf : List ℕ) (n : ℕ) (p : Packet) → 18 ≤ n → look_for_frame buf n p ≡ check_fcs buf n p
unfolding look_for_frame
look_long_enough buf n p h = ground arith

run_nothing : (d : Deframer) (p : Packet) → run d p [] ≡ some (d, p, [])
unfolding run
run_nothing d p = refl

-- Flags with nothing between them deliver nothing.
run-flags :
    (n : ℕ) (buf : List ℕ) (p : Packet) (rest : List ℕ) {last : Deframer} {q : Packet}
    {ps : List Packet}
    → run (cleared buf) p rest ≡ some (last, q, ps)
    → run (cleared buf) p (flags n ++ rest) ≡ some (last, q, ps)
run-flags zero buf p rest later = later
run-flags (suc n) buf p rest later = rw (append_assoc (byte_bits ax25_flag) (flags n) rest) (
    flag_run buf 0 0 0 0 0 p p (flags n ++ rest) (omega arith) refl (look_too_early buf p)
      (run-flags n buf p rest later))

flags_only :
    (n : ℕ) (buf : List ℕ) (p : Packet) → run (cleared buf) p (flags n) ≡ some (cleared buf, p, [])
flags_only n buf p =
    rw (append-nil (flags n)) at (run-flags n buf p [] (run_nothing (cleared buf) p))

-- The bits of a frame, between at least one flag behind and any number in front, reach a deframer
-- that was cleared by a flag and is cleared by one again; the packet is the only one delivered.
run-frame :
    (head tail : ℕ) (buf body : List ℕ) (pkt old back : Packet)
    → length buf ≡ max_packet_len
    → IsFramed pkt old body back
    → length body ≤ 253
    → (buf' : List ℕ) × (length buf' ≡ max_packet_len)
      × (run (cleared buf) old (frame head (body ++ trailer body) (suc tail))
          ≡ some (cleared buf', back, back ∷ []))
run-frame head tail buf body pkt old back h f room =
    let bytes = body ++ trailer body in
    let n = length body + 2 in
    let len : length bytes ≡ n = length-append body (trailer body) in
    let held : take n (fill buf 0 bytes) ≡ bytes =
      take-fill buf 0 n bytes (omega arith) (omega arith) in
    let buf' = fill buf 0 bytes in
    let split : bytes ++ drop n buf' ≡ buf' =
      ap (λ t. t ++ drop n buf') (sym held) ∙ take-append-drop n buf' in
    let look : look_for_frame buf' n old ≡ some (back, 1) =
      look_long_enough buf' n old (omega (arith, f.body_len))
      ∙ rw split at (check_fcs-trailer body (drop n buf') old back (f.read (drop n buf'))) in
    let (raw, u, u_byte, i, ran) =
      bytes_run bytes buf 0 n 0 0 0 old
        (All-append IsByte body (trailer body) f.body_bytes (omega arith)) (omega arith)
        (omega arith) (omega arith) refl in
    (
      buf',
      length-fill buf 0 bytes ∙ h,
      run-flags head buf old _ (
          ran (flags (suc tail))
          ∙ flag_run buf' n raw u (ones_behind 0 (all_bits bytes)) 1 old back (flags tail) u_byte i
              look (flags_only tail buf' back)),
    )

-- The frame of a valid packet whose parts take at most 253 bytes, with any number of flags in front
-- and at least one behind, goes through a deframer that a flag has just cleared without a fault: one
-- packet is delivered, the one that was sent, and the deframer is cleared again.
pub run_packet :
    (head tail : ℕ) (buf : List ℕ) (pkt old : Packet)
    → length buf ≡ max_packet_len
    → IsValid pkt
    → IsShaped old
    → 16 + 7 * pkt.repeater_count + pkt.info_len ≤ 253
    → (bytes : List ℕ) × (packet_pack pkt ≡ some bytes)
      × ((back : Packet) × SamePacket pkt back
          × ((buf' : List ℕ) × (length buf' ≡ max_packet_len)
              × (run (cleared buf) old (frame head bytes (suc tail))
                  ≡ some (cleared buf', back, back ∷ []))))
run_packet head tail buf pkt old h v o room =
    let (body, (back, f)) = packet_unpack-packet_pack pkt old v o in
    let (buf', len, ran) =
      run-frame head tail buf body pkt old back h f (omega (arith, f.body_len)) in
    (body ++ trailer body, f.packed, (back, f.same, (buf', len, ran)))
