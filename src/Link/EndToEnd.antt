-- ===== src/Link/EndToEnd.antt =====
-- From `ax25tnc_modulator_process` of apps/ax25tnc/modulator.c to the callback of
-- apps/ax25tnc/demodulator.c, over a channel that keeps the sign of every sample.
use modemstuff.Base.{
  ℕ, suc, ◌+◌, ◌*◌, ◌/◌, ◌-◌, ◌≤◌, ◌≡◌, ap, ◌∙◌, max, IsBit, All, List, [], ◌∷◌, ◌++◌, append_assoc,
  Option, none, some, arith, length, length-append,
}
use modemstuff.Packet.{Packet, packet_pack}
use modemstuff.Packet.Shape.{IsValid, IsShaped, SamePacket, trailer}
use modemstuff.Packet.RoundTrip.{packet_unpack-packet_pack}
use modemstuff.Framer.{Framer, framer_init, byte_bits, ax25_flag}
use modemstuff.Framer.Content.{capacity, Holds-Contains}
use modemstuff.Framer.Stuffing.{frame, frame-IsBit, stuffed, all_bits, flags}
use modemstuff.Framer.Frame.{IsClear, framer_process-frame}
use modemstuff.Framer.Room.{length-frame}
use modemstuff.Framer.Reading.{drain, drain-Contains}
use modemstuff.Deframer.{Deframer, deframer_init, max_packet_len}
use modemstuff.Deframer.Bits.{run}
use modemstuff.Deframer.Flags.{cleared, first_flag}
use modemstuff.Deframer.Frame.{run_packet, look_too_early}
use modemstuff.Linecode.{nrzi_encoder_init, nrzi_decoder_init}
use modemstuff.Linecode.Inverse.{
  encode_all, encode_all-cons, encode-IsBit, decode_all, decode_all-encode_all,
}
use modemstuff.BitDetector.{bit_detector_init}
use modemstuff.BitDetector.Recovery.{held, detect-held}
use modemstuff.Link.{
  Modulator, modulator_framer, modulator_process, Demodulator, demodulator_init,
  demodulator_process,
}
use modemstuff.Link.Loop.{bit_signal, detected-bit_signal, demodulator_process-run, deframed}
use modemstuff.Link.Runs.{InTime-frame}

encode_all-IsBit :
    (bits : List ℕ) (level : ℕ)
    → IsBit level
    → All IsBit bits
    → All IsBit (encode_all (record { nrzi_bit = level }) bits)
encode_all-IsBit [] level i l = unfold encode_all in tt
encode_all-IsBit (b ∷ bits) level i l =
    let here = encode-IsBit level b i l.0 in
    rw (encode_all-cons level b bits) (here, encode_all-IsBit bits _ here l.1)

-- The modulator keys the levels of the whole frame.
modulator_process-frame :
    (mod' : Modulator) (storage : Framer) (pkt : Packet) (bytes : List ℕ)
    → IsClear storage
    → packet_pack pkt ≡ some bytes
    → let fr = modulator_framer mod' storage in
      length (frame fr.head_flags bytes fr.tail_flags) ≤ capacity
      → modulator_process mod' storage pkt
        ≡ some (encode_all nrzi_encoder_init (frame fr.head_flags bytes fr.tail_flags))
unfolding modulator_process modulator_framer framer_init
modulator_process-frame mod' storage pkt bytes clear packed room =
    let fr = modulator_framer mod' storage in
    let (fr', ran, held_bits, at_start) = framer_process-frame fr pkt bytes clear packed room in
    let bits = frame fr.head_flags bytes fr.tail_flags in
    let read : drain (length bits + 1) fr' ≡ bits = rw at_start at (
      drain-Contains (length bits + 1) fr' bits (Holds-Contains held_bits)
        (omega (arith, held_bits.count))) in
    rw (ran, read)

-- The bits of the frame come back from the held levels.
decoded-frame :
    (period head tail : ℕ) (bytes : List ℕ)
    → 15 ≤ period
    → let bits = frame (suc head) bytes tail in
      decode_all nrzi_decoder_init
        (bit_signal (bit_detector_init period) (held period (encode_all nrzi_encoder_init bits)))
      ≡ bits
unfolding nrzi_decoder_init nrzi_encoder_init
decoded-frame period head tail bytes p =
    let bits = frame (suc head) bytes tail in
    let l = frame-IsBit (suc head) tail bytes in
    let levels = encode_all (record { nrzi_bit = 0 }) bits in
    decode_all-encode_all (bit_signal (bit_detector_init period) (held period levels)) bits 0
      (omega arith) l
      (detected-bit_signal (held period levels) (bit_detector_init period)
        ∙ detect-held period levels (encode_all-IsBit bits 0 (omega arith) l)
            (InTime-frame period head tail bytes p))

-- A deframer from its initialisation is cleared by the first flag.
run-first_flag :
    (head tail : ℕ) (bytes : List ℕ) (storage last : Deframer) (old q : Packet) (ps : List Packet)
    → run (cleared storage.buffer) old (frame head bytes tail) ≡ some (last, q, ps)
    → run (deframer_init storage) old (frame (suc head) bytes tail) ≡ some (last, q, ps)
unfolding deframer_init
run-first_flag head tail bytes storage last old q ps later =
    let rest = stuffed 0 (all_bits bytes) ++ flags tail in
    rw (append_assoc (byte_bits ax25_flag) (flags head) rest) (
      first_flag storage.buffer storage.ones_count old (frame head bytes tail)
        (look_too_early storage.buffer old) later)

deframed-some :
    (m : Option (Demodulator × Packet × List Packet)) (f : Deframer) (p : Packet) (ps : List Packet)
    → deframed m ≡ some (f, p, ps)
    → (end : Demodulator) × (m ≡ some (end, p, ps))
deframed-some none f p ps h = cc
deframed-some (some (d, q, qs)) f p ps h = (d, cc)

pub length-packet_pack :
    (pkt old : Packet) (bytes : List ℕ)
    → IsValid pkt
    → IsShaped old
    → packet_pack pkt ≡ some bytes
    → length bytes ≡ 18 + 7 * pkt.repeater_count + pkt.info_len
length-packet_pack pkt old bytes v o packed =
    let (body, (back, f)) = packet_unpack-packet_pack pkt old v o in
    let both = f.packed in
    let same : bytes ≡ body ++ trailer body = cc in
    rw same (omega (arith, length-append body (trailer body), f.body_len))

modulator_framer-flags :
    (mod' : Modulator) (framer : Framer)
    → (head tail : ℕ) × ((modulator_framer mod' framer).head_flags ≡ suc head)
      × ((modulator_framer mod' framer).tail_flags ≡ suc tail)
unfolding modulator_framer
modulator_framer-flags mod' framer = (
  max (mod'.tx_delay * mod'.baud_rate / 8000) 4 - 1,
  max (mod'.tx_tail * mod'.baud_rate / 8000) 2 - 1,
  omega arith,
  omega arith,
)

-- Receiving a frame with at least one flag on each side.
received-frame :
    (head tail period : ℕ) (storage : Deframer) (pkt old : Packet)
    → 15 ≤ period
    → length storage.buffer ≡ max_packet_len
    → IsValid pkt
    → IsShaped old
    → 16 + 7 * pkt.repeater_count + pkt.info_len ≤ 253
    → (bytes : List ℕ) × (packet_pack pkt ≡ some bytes)
      × ((back : Packet) × SamePacket pkt back
          × ((end : Demodulator) × (demodulator_process
                  (demodulator_init period storage)
                  old
                  (held period (encode_all nrzi_encoder_init (frame (suc head) bytes (suc tail))))
                ≡ some (end, back, back ∷ []))))
unfolding demodulator_init
received-frame head tail period storage pkt old p array v o room =
    let (bytes, packed, (back, same, (buf', len, ran))) =
      run_packet head tail storage.buffer pkt old array v o room in
    let symbols = held period (encode_all nrzi_encoder_init (frame (suc head) bytes (suc tail))) in
    let started = run-first_flag head (suc tail) bytes storage _ old back (back ∷ []) ran in
    let whole =
      demodulator_process-run symbols (bit_detector_init period) nrzi_decoder_init
        (deframer_init storage) old in
    let decoded = decoded-frame period head (suc tail) bytes p in
    (
      bytes,
      packed,
      (
        back,
        same,
        deframed-some _ (cleared buf') back (back ∷ [])
            (whole ∙ ap (run (deframer_init storage) old) decoded ∙ started),
      ),
    )

-- A valid packet whose parts take at most 253 bytes, keyed by the modulator with at most 718 flags
-- out of a clear bit buffer, is keyed without a fault. If every level is held for one bit period of
-- at least 15 samples, a demodulator from its initialisation gets through them without a fault, and
-- its callback gets one packet, the one that was sent.
pub demodulator_process-modulator_process :
    (mod' : Modulator) (framer : Framer) (period : ℕ) (deframer : Deframer) (pkt old : Packet)
    → IsClear framer
    → (modulator_framer mod' framer).head_flags + (modulator_framer mod' framer).tail_flags ≤ 718
    → 15 ≤ period
    → length deframer.buffer ≡ max_packet_len
    → IsValid pkt
    → IsShaped old
    → 16 + 7 * pkt.repeater_count + pkt.info_len ≤ 253
    → (levels : List ℕ) × (modulator_process mod' framer pkt ≡ some levels)
      × ((back : Packet) × SamePacket pkt back
          × ((end : Demodulator) × (demodulator_process
                  (demodulator_init period deframer)
                  old
                  (held period levels)
                ≡ some (end, back, back ∷ []))))
demodulator_process-modulator_process mod' framer period deframer pkt old clear few p array v o
      room =
    let fr = modulator_framer mod' framer in
    let (head, tail, h, t) = modulator_framer-flags mod' framer in
    let (bytes, packed, (back, same, (end, ran))) =
      received-frame head tail period deframer pkt old p array v o room in
    let fits : length (frame fr.head_flags bytes fr.tail_flags) ≤ capacity = omega (
      arith,
      length-frame fr.head_flags fr.tail_flags bytes,
      length-packet_pack pkt old bytes v o packed,
    ) in
    (
      encode_all nrzi_encoder_init (frame (suc head) bytes (suc tail)),
      rw (h, t) at (modulator_process-frame mod' framer pkt bytes clear packed fits),
      (back, same, (end, ran)),
    )
