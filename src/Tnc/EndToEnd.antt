-- ===== src/Tnc/EndToEnd.antt =====
-- From a host of one station to the hosts of another: `incoming_kiss_message_callback` and
-- `demodulated_packet_callback` of apps/ax25tnc/ax25tnc.c, with the modulator, a channel that keeps
-- the sign of every sample, and the demodulator between them.
use modemstuff.Base.{ℕ, ◌+◌, ◌*◌, ◌≤◌, ◌≡◌, refl, ◌∙◌, List, [], ◌∷◌, some, arith, length}
use modemstuff.Kiss.{Decoder, encode}
use modemstuff.Kiss.Stream.{run}
use modemstuff.Kiss.RoundTrip.{IsReady}
use modemstuff.Packet.{Packet, packet_pack}
use modemstuff.Packet.Shape.{IsValid, IsValid-IsTerminated, IsShaped, SamePacket}
use modemstuff.Packet.Same.{SamePacket-IsValid, packet_pack-SamePacket}
use modemstuff.Packet.Tnc2.{packet_pack_tnc2-length}
use modemstuff.Framer.{Framer}
use modemstuff.Framer.Frame.{IsClear}
use modemstuff.Deframer.{Deframer, max_packet_len}
use modemstuff.Deframer.Safety.{deframer_init-IsValid}
use modemstuff.BitDetector.Recovery.{held}
use modemstuff.Link.{
  Modulator, modulator_framer, Demodulator, demodulator_init, demodulator_process,
}
use modemstuff.Link.EndToEnd.{demodulator_process-modulator_process, length-packet_pack}
use modemstuff.Link.Safety.{demodulator_process-IsShaped}
use modemstuff.Tnc.{kiss_message, incoming_kiss_message, demodulated_packet}
use modemstuff.Tnc.Transmit.{incoming_kiss_message-packet_pack}
use modemstuff.Tnc.Relay.{run-kiss_message}

-- A packet that says the same as a valid one goes to the hosts as the same bytes.
demodulated_packet-SamePacket :
    (pkt back : Packet) (bytes : List ℕ)
    → IsValid pkt
    → IsShaped back
    → SamePacket pkt back
    → packet_pack pkt ≡ some bytes
    → demodulated_packet back ≡ encode (kiss_message bytes)
unfolding demodulated_packet
demodulated_packet-SamePacket pkt back bytes v o s packed =
    let w = SamePacket-IsValid pkt back v o s in
    let (line, tnc2, short) = packet_pack_tnc2-length back (IsValid-IsTerminated w) in
    let both : packet_pack back ≡ some bytes =
      rw (← packet_pack-SamePacket pkt back v o s) packed in
    rw (tnc2, both) refl

received-IsShaped :
    (period : ℕ) (deframer : Deframer) (old : Packet) (levels : List ℕ) (end : Demodulator)
    (back : Packet) (packets : List Packet)
    → length deframer.buffer ≡ max_packet_len
    → IsShaped old
    → demodulator_process (demodulator_init period deframer) old (held period levels)
      ≡ some (end, back, packets)
    → IsShaped back
unfolding demodulator_init
received-IsShaped period deframer old levels end back packets array o ran =
    demodulator_process-IsShaped (held period levels) (demodulator_init period deframer) old
      (deframer_init-IsValid deframer array) o ran

-- The bytes of a valid packet whose parts take at most 253 bytes, sent by a host as the data of a
-- frame to a station whose decoder for it stands between two frames, reach the handler there
-- without a fault, which keys them with at most 718 flags out of a clear bit buffer and changes
-- nothing in its modulator. If every level is held for one bit period of at least 15 samples, the
-- demodulator of another station, from its initialisation, hands over one packet, which says the
-- same, and for which that station sends to its hosts exactly the bytes that the host sent.
pub demodulated_packet-incoming_kiss_message :
    (d : Decoder) (mod' : Modulator) (framer : Framer) (period : ℕ) (deframer : Deframer)
    (pkt storage old : Packet)
    → IsReady d
    → IsClear framer
    → (modulator_framer mod' framer).head_flags + (modulator_framer mod' framer).tail_flags ≤ 718
    → 15 ≤ period
    → length deframer.buffer ≡ max_packet_len
    → IsValid pkt
    → IsShaped storage
    → IsShaped old
    → 16 + 7 * pkt.repeater_count + pkt.info_len ≤ 253
    → (bytes : List ℕ) × (packet_pack pkt ≡ some bytes)
      × ((sent : List ℕ) × (encode (kiss_message bytes) ≡ some sent)
          × ((last : Decoder) × (run d sent ≡ some (last, kiss_message bytes ∷ [])) × IsReady last)
          × ((levels : List ℕ) × (incoming_kiss_message mod' framer storage (kiss_message bytes)
                ≡ some (mod', levels))
              × ((back : Packet) × SamePacket pkt back
                  × ((end : Demodulator) × (demodulator_process
                          (demodulator_init period deframer)
                          old
                          (held period levels)
                        ≡ some (end, back, back ∷ [])))
                  × (demodulated_packet back ≡ some sent))))
demodulated_packet-incoming_kiss_message d mod' framer period deframer pkt storage old r clear few p
      array v s o room =
    let (bytes, packed, handled) = incoming_kiss_message-packet_pack mod' framer pkt storage v s in
    let (sent, encoded, (last, ran, ready)) =
      run-kiss_message bytes d (omega (arith, length-packet_pack pkt old bytes v o packed)) r in
    let (levels, keyed, (back, same, (end, got))) =
      demodulator_process-modulator_process mod' framer period deframer pkt old clear few p array v
        o room in
    let shaped = received-IsShaped period deframer old levels end back (back ∷ []) array o got in
    (
      bytes,
      packed,
      (
        sent,
        encoded,
        (last, ran, ready),
        (
          levels,
          rw keyed at handled,
          (
            back,
            same,
            (end, got),
            demodulated_packet-SamePacket pkt back bytes v shaped same packed ∙ encoded,
          ),
        ),
      ),
    )
