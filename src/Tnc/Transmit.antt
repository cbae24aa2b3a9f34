-- ===== src/Tnc/Transmit.antt =====
-- A packet of a host on its way to the modulator.
use modemstuff.Base.{
  ℕ, ◌≡◌, refl, sym, List, [], ◌++◌, append-nil, some, length, length-append, ◌>>=◌,
}
use modemstuff.Packet.{Packet, packet_pack, packet_unpack}
use modemstuff.Packet.Shape.{IsValid, IsValid-IsTerminated, IsShaped, trailer}
use modemstuff.Packet.RoundTrip.{packet_unpack-packet_pack}
use modemstuff.Packet.Tnc2.{packet_pack_tnc2-length}
use modemstuff.Packet.Same.{SamePacket-IsValid, packet_pack-SamePacket}
use modemstuff.Framer.{Framer, framer_process}
use modemstuff.Link.{Modulator, modulator_process}
use modemstuff.Tnc.{kiss_message, incoming_kiss_message}

-- The modulator looks at a packet's bytes only.
modulator_process-packet_pack :
    (mod' : Modulator) (framer : Framer) (p q : Packet)
    → packet_pack p ≡ packet_pack q
    → modulator_process mod' framer p ≡ modulator_process mod' framer q
unfolding modulator_process framer_process
modulator_process-packet_pack mod' framer p q e = rw e refl

-- A data frame whose data are the bytes of a valid packet keys, whatever the memory of the local
-- variables held, what the modulator keys for that packet, and changes nothing in the modulator.
pub incoming_kiss_message-packet_pack :
    (mod' : Modulator) (framer : Framer) (pkt old : Packet)
    → IsValid pkt
    → IsShaped old
    → (bytes : List ℕ) × (packet_pack pkt ≡ some bytes)
      × (incoming_kiss_message mod' framer old (kiss_message bytes)
          ≡ (modulator_process mod' framer pkt >>= λ levels. some (mod', levels)))
unfolding incoming_kiss_message
incoming_kiss_message-packet_pack mod' framer pkt old v o =
    let (body, (back, f)) = packet_unpack-packet_pack pkt old v o in
    let bytes = body ++ trailer body in
    let w = SamePacket-IsValid pkt back v f.shaped f.same in
    let (line, tnc2, short) = packet_pack_tnc2-length back (IsValid-IsTerminated w) in
    let len = length-append body (trailer body) in
    let read : packet_unpack old bytes (length bytes) ≡ some back =
      rw len (rw (append-nil bytes) at (f.read [])) in
    let same =
      modulator_process-packet_pack mod' framer back pkt
        (sym (packet_pack-SamePacket pkt back v f.shaped f.same)) in
    (bytes, f.packed, rw (read, tnc2, same) refl)
