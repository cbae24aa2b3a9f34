-- ===== src/Packet.antt =====
-- Packets: src/hamstuff/ax25_packet.c and include/hamstuff/ax25_packet.h.
-- `none` as a result is a read or write outside an array. What `hs_ax25_packet_pack` writes to
-- `out[i++]` is a list in that order, and the `i` that it returns is its length.
pub mod Shape
pub mod Repeaters
pub mod RoundTrip
pub mod Same
pub mod Packing
pub mod Tnc2
pub mod Safety
pub mod Samples
mod Examples
use modemstuff.Base.{
  ℕ, zero, suc, ◌+◌, ◌-◌, ◌*◌, ◌/◌, ◌%◌, ◌^◌, min, List, [], ◌∷◌, ◌++◌, Option, none, some,
  get_elem?, drop, length, read_n, ◌==◌, if◌then◌else◌, ◌>>=◌,
}
use modemstuff.Call.{Call, call_init, call_pack, call_unpack, call_to_str}
use modemstuff.Crc.{fcs}

abbrev pub max_repeater_count : ℕ
max_repeater_count = 8

abbrev pub max_info_len : ℕ
max_info_len = 255

-- `repeaters` and `info` are whole arrays, of 8 and 255 elements.
pub record Packet : Type 0 where
  pub dest : Call
  pub src : Call
  pub repeaters : List Call
  pub repeater_count : ℕ
  pub control : ℕ
  pub protocol : ℕ
  pub info : List ℕ
  pub info_len : ℕ

unfoldable pub packet_init : Packet → Packet
packet_init pkt = record pkt {
  dest = call_init pkt.dest;
  src = call_init pkt.src;
  repeater_count = 0;
  control = 0;
  protocol = 0;
  info_len = 0;
}

-- The mark of the last address, from the number of repeaters behind it.
abbrev pub last_mark : ℕ → ℕ
last_mark behind = if behind == 0 then 1 else 0

-- The array from `repeaters[j]` on, and the number of repeaters left to pack.
pub pack_repeaters : List Call → ℕ → Option (List ℕ)
pack_repeaters rs zero = some []
pack_repeaters [] (suc n) = none
pack_repeaters (r ∷ rs) (suc n) = do
  bytes ← call_pack r (last_mark n)
  rest ← pack_repeaters rs n
  some (bytes ++ rest)

unfoldable pub packet_pack : Packet → Option (List ℕ)
unfolding pack_repeaters
packet_pack pkt = do
  dest ← call_pack pkt.dest 0
  src ← call_pack pkt.src (last_mark pkt.repeater_count)
  repeaters ← pack_repeaters pkt.repeaters pkt.repeater_count
  info ← read_n pkt.info_len pkt.info
  let body = dest ++ (src ++ (repeaters ++ (pkt.control ∷ pkt.protocol ∷ info)))
  let crc = fcs body
  some (body ++ (crc % 2 ^ 8 ∷ crc / 2 ^ 8 % 2 ^ 8 ∷ []))

-- The loop over the repeaters: rounds left, `is_last`, the array from the next repeater on and the
-- input from `inp[i]` on; it gives the array, the number of repeaters read and the input left.
pub unpack_repeaters : ℕ → ℕ → List Call → List ℕ → Option (List Call × ℕ × List ℕ)
unpack_repeaters zero is_last rs inp = some (rs, 0, inp)
unpack_repeaters (suc n) is_last [] inp = if is_last == 0 then none else some ([], 0, inp)
unpack_repeaters (suc n) is_last (r ∷ rs) inp =
    if is_last == 0
    then (do
      (r', last) ← call_unpack r inp
      (rs', count, rest) ← unpack_repeaters n last rs (drop 7 inp)
      some (r' ∷ rs', suc count, rest))
    else some (r ∷ rs, 0, inp)

-- `info[j] = inp[i]`, for the rounds that the loop makes.
unpack_info : ℕ → List ℕ → List ℕ → Option (List ℕ)
unpack_info zero info inp = some info
unpack_info (suc n) (_ ∷ info) (x ∷ inp) = do rest ← unpack_info n info inp; some (x ∷ rest)
unpack_info (suc n) _ _ = none

unfoldable pub packet_unpack : Packet → List ℕ → ℕ → Option Packet
unfolding unpack_repeaters unpack_info
packet_unpack pkt inp inp_len = do
  (dest, _) ← call_unpack pkt.dest inp
  (src, is_last) ← call_unpack pkt.src (drop 7 inp)
  (repeaters, count, rest) ← unpack_repeaters max_repeater_count is_last pkt.repeaters (drop 14 inp)
  control ← get_elem? rest 0
  protocol ← get_elem? rest 1
  let j = min (inp_len - 2 - (16 + 7 * count)) max_info_len
  info ← unpack_info j pkt.info (drop 2 rest)
  some (record {
    dest = dest;
    src = src;
    repeaters = repeaters;
    repeater_count = count;
    control = control;
    protocol = protocol;
    info = info;
    info_len = j;
  })

-- The repeaters of the line, each behind a comma.
tnc2_repeaters : List Call → ℕ → Option (List ℕ)
tnc2_repeaters rs zero = some []
tnc2_repeaters [] (suc n) = none
tnc2_repeaters (r ∷ rs) (suc n) = do
  str ← call_to_str r
  rest ← tnc2_repeaters rs n
  some (b',' ∷ (str ++ rest))

-- The line with its terminator, whose length is the result of the code.
unfoldable pub packet_pack_tnc2 : Packet → Option (List ℕ)
unfolding tnc2_repeaters
packet_pack_tnc2 pkt = do
  src ← call_to_str pkt.src
  dest ← call_to_str pkt.dest
  repeaters ← tnc2_repeaters pkt.repeaters pkt.repeater_count
  info ← read_n pkt.info_len pkt.info
  some (src ++ (b'>' ∷ (dest ++ (repeaters ++ (b':' ∷ (info ++ (0 ∷ [])))))))
