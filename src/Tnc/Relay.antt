-- ===== src/Tnc/Relay.antt =====
-- A received packet on its way to a host.
use modemstuff.Base.{
  ℕ, ◌<◌, ◌≡◌, ◌∙◌, length, List, [], ◌∷◌, ◌++◌, append-nil, Option-cases, inl, inr, some, arith,
  length-append, take_all,
}
use modemstuff.Kiss.{Decoder, Message, encode, decoder_buffer_size}
use modemstuff.Kiss.Stream.{run}
use modemstuff.Kiss.RoundTrip.{IsSendable, IsReady, encode_all, run-encode_all}
use modemstuff.Packet.{Packet, packet_unpack}
use modemstuff.Packet.Shape.{IsValid, IsValid-IsTerminated, IsShaped, SamePacket, trailer}
use modemstuff.Packet.RoundTrip.{packet_unpack-packet_pack}
use modemstuff.Packet.Tnc2.{packet_pack_tnc2-length}
use modemstuff.Tnc.{kiss_message, demodulated_packet}

-- One message is a stream of messages.
encode_all-one :
    (m : Message) (bytes : List ℕ) → encode_all (m ∷ []) ≡ some bytes → encode m ≡ some bytes
unfolding encode_all
encode_all-one m bytes h = elim (Option-cases (encode m)) [
  | inl e ↦ absurd (let k = rw e at h in cc)
  | inr (bs, e) ↦ let k = rw (e, append-nil bs) at h in e ∙ k
]

-- Bytes that fit a decoder's buffer, as the data of a frame.
pub run-kiss_message :
    (packed : List ℕ) (d : Decoder)
    → length packed < decoder_buffer_size
    → IsReady d
    → (bytes : List ℕ) × (encode (kiss_message packed) ≡ some bytes)
      × ((last : Decoder) × (run d bytes ≡ some (last, kiss_message packed ∷ [])) × IsReady last)
run-kiss_message packed d fits r =
    let sendable : IsSendable (kiss_message packed) = record {
      port_nibble = omega arith;
      command_nibble = omega arith;
      not_end = omega arith;
      not_esc = omega arith;
      not_return = omega arith;
      written = omega arith;
      fits = fits;
    } in
    let (bytes, e, (last, ran, ready)) =
      run-encode_all (kiss_message packed ∷ []) d (sendable, tt) r in
    (
      bytes,
      encode_all-one (kiss_message packed) bytes e,
      (last, rw (take_all packed) at ran, ready),
    )

-- A valid packet that was received goes out without a fault. A host's decoder between two frames
-- makes one message of the bytes, whose data unpack, into whatever storage, without a fault to the
-- packet that was received; and the decoder is between two frames again.
pub run-demodulated_packet :
    (pkt old : Packet) (d : Decoder)
    → IsValid pkt
    → IsShaped old
    → IsReady d
    → (bytes : List ℕ) × (demodulated_packet pkt ≡ some bytes)
      × ((last : Decoder) × ((message : Message) × (run d bytes ≡ some (last, message ∷ []))
            × IsReady last
            × ((back : Packet) × (packet_unpack old message.payload message.data_length ≡ some back)
                × SamePacket pkt back)))
unfolding demodulated_packet
run-demodulated_packet pkt old d v o r =
    let (line, tnc2, short) = packet_pack_tnc2-length pkt (IsValid-IsTerminated v) in
    let (body, (back, f)) = packet_unpack-packet_pack pkt old v o in
    let packed = body ++ trailer body in
    let len = length-append body (trailer body) in
    let few = f.body_len in
    let (bytes, e, (last, ran, ready)) =
      run-kiss_message packed d (omega (arith, len, few, v.repeaters_fit, v.info_fits)) r in
    (
      bytes,
      rw (tnc2, f.packed) e,
      (
        last,
        (
          kiss_message packed,
          ran,
          ready,
          (back, rw len (rw (append-nil packed) at (f.read [])), f.same),
        ),
      ),
    )
