-- ===== src/Tnc/Received.antt =====
-- Whatever is received on its way to the hosts, through the two arrays of 512 in
-- `demodulated_packet_callback` of apps/ax25tnc/ax25tnc.c.
use modemstuff.Base.{
  ℕ, ◌*◌, ◌-◌, ◌≤◌, ◌<◌, ◌≡◌, refl, List, [], ◌∷◌, ◌++◌, some, arith, length, length-append,
  length-replicate, replicate, All, ◌≡◌,
}
use modemstuff.Call.{Call, max_callsign_len, metadata}
use modemstuff.Call.Field
use modemstuff.Call.Field.{text, field, shifted, length-shifted, metadata_lem}
use modemstuff.Packet.{Packet, last_mark, packet_pack, packet_pack_tnc2}
use modemstuff.Packet.Packing.{body_of, rest_of, packet_pack-body_of}
use modemstuff.Packet.Repeaters.{last_mark-lt}
use modemstuff.Packet.Shape.{trailer, IsShaped}
use modemstuff.Packet.Tnc2.{packet_pack_tnc2-length}
use modemstuff.Kiss.{escape}
use modemstuff.Kiss.Room.{escape-append, length-escape, escape-plain, length-encode}
use modemstuff.Deframer.Safety
use modemstuff.Deframer.Safety.{IsReceived}
use modemstuff.BitDetector.{Symbol}
use modemstuff.Link.{Demodulator, demodulator_process}
use modemstuff.Link.Safety.{demodulator_process_total}
use modemstuff.Tnc.{kiss_message, demodulated_packet}

-- The last byte of an address needs no escape.
escape-field :
    (call : Call) (is_last : ℕ)
    → Field.IsTerminated call
    → is_last < 2
    → length (escape (field call is_last)) ≤ 13
escape-field call is_last v l =
    let meta = metadata call.is_repeated call.ssid is_last in
    let bits = metadata_lem call.is_repeated call.ssid is_last v.repeated_bit v.ssid_nibble l in
    let t = shifted (text call.base) in
    let pad = replicate (max_callsign_len - length (text call.base)) (b' ' * 2) in
    rw (escape-append t (pad ++ (meta ∷ [])), escape-append pad (meta ∷ []))
      (omega (
        arith,
        length-append (escape t) (escape pad ++ escape (meta ∷ [])),
        length-append (escape pad) (escape (meta ∷ [])),
        escape-plain meta (omega (arith, bits, v.ssid_nibble, v.repeated_bit))
            (omega (arith, bits, v.ssid_nibble, v.repeated_bit)),
        length-escape t,
        length-escape pad,
        length-shifted (text call.base),
        length-replicate (max_callsign_len - length (text call.base)) (b' ' * 2),
        v.short,
      ))

-- What the handler does with a packet: its line and its bytes, and how many they are.
pub record IsRelayed (packet : Packet) : Type 0 where
  pub line : List ℕ
  pub packed : List ℕ
  pub bytes : List ℕ
  pub printed : packet_pack_tnc2 packet ≡ some line
  pub line_fits : length line ≤ 512
  pub packs : packet_pack packet ≡ some packed
  pub packed_fits : length packed ≤ 512
  pub relayed : demodulated_packet packet ≡ some bytes
  pub bytes_fit : length bytes ≤ 512

pub IsReceived-IsRelayed : (packet : Packet) → IsReceived packet → IsRelayed packet
unfolding demodulated_packet
IsReceived-IsRelayed packet r =
    let v = r.terminated in
    let (line, tnc2, short) = packet_pack_tnc2-length packet v in
    let (packs, len, whole) = packet_pack-body_of packet v in
    let body = body_of packet in
    let last = last_mark packet.repeater_count in
    let dest = field packet.dest 0 in
    let src = field packet.src last in
    let packed = body ++ trailer body in
    let (bytes, e, count) = length-encode (kiss_message packed) refl in
    let parts : escape packed
        ≡ (escape dest ++ (escape src ++ escape (rest_of packet))) ++ escape (trailer body) =
      rw (
        escape-append body (trailer body),
        escape-append dest (src ++ rest_of packet),
        escape-append src (rest_of packet),
      ) in
    let few : length (escape packed) ≤ 508 = rw parts (
      omega (
        arith,
        r.bounded,
        len,
        length-append (escape dest ++ (escape src ++ escape (rest_of packet)))
            (escape (trailer body)),
        length-append (escape dest) (escape src ++ escape (rest_of packet)),
        length-append (escape src) (escape (rest_of packet)),
        escape-field packet.dest 0 v.terminated_dest (omega arith),
        escape-field packet.src last v.terminated_src (last_mark-lt packet.repeater_count),
        length-escape (rest_of packet),
        length-escape (trailer body),
      )) in
    record {
      line = line ++ (0 ∷ []);
      packed = packed;
      bytes = bytes;
      printed = tnc2;
      line_fits = omega arith;
      packs = packs;
      packed_fits = omega (arith, whole, r.bounded);
      relayed = rw (tnc2, packs) e;
      bytes_fit = omega arith;
    }

All-IsRelayed : (packets : List Packet) → All IsReceived packets → All IsRelayed packets
All-IsRelayed [] r = tt
All-IsRelayed (p ∷ packets) r = (IsReceived-IsRelayed p r.0, All-IsRelayed packets r.1)

-- Whatever soft symbols the detector gives, a demodulator with a deframer and storage for a packet
-- whose arrays have the right sizes takes them without a fault. Every packet that it hands over is
-- printed, packed and encoded for the hosts without a fault, and none of the three takes more than
-- the 512 bytes of its array.
pub demodulator_process-IsRelayed :
    (d : Demodulator) (p : Packet) (symbols : List Symbol)
    → Safety.IsValid d.deframer
    → IsShaped p
    → (r : Demodulator × Packet × List Packet) × (demodulator_process d p symbols ≡ some r)
      × All IsRelayed r.2
demodulator_process-IsRelayed d p symbols v o =
    let (r, e, valid, received) = demodulator_process_total symbols d p v o in
    (r, e, All-IsRelayed r.2 received)
