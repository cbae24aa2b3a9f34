-- ===== src/Deframer.antt =====
-- The deframer of src/hamstuff/ax25_deframer.c and include/hamstuff/ax25_deframer.h.
-- `none` as a result is a read or write outside an array. Bytes are numbers below 256, and what is
-- stored to one wraps.
pub mod Bits
pub mod Bytes
pub mod Flags
pub mod Frame
pub mod Safety
mod Examples
use modemstuff.Base.{
  ℕ, ◌+◌, ◌-◌, ◌*◌, ◌/◌, ◌%◌, ◌^◌, bit_or, List, Option, none, some, get_elem?, set, read_n, ltb,
  leb, ◌==◌, if◌then◌else◌, ◌>>=◌,
}
use modemstuff.Crc.{fcs}
use modemstuff.Framer.{ax25_flag}
use modemstuff.Packet.{Packet, packet_unpack}

abbrev pub min_packet_len : ℕ
min_packet_len = 18

-- 7 + 7 + 7 * 8 + 2 + 255 + 2
abbrev pub max_packet_len : ℕ
max_packet_len = 329

-- `buffer` is the whole array of 329 bytes.
pub record Deframer : Type 0 where
  pub buffer : List ℕ
  pub buffer_pos : ℕ
  pub raw_bits : ℕ
  pub unstuffed_bits : ℕ
  pub unstuffed_bit_count : ℕ
  pub ones_count : ℕ

-- `ones_count` keeps what it held.
unfoldable pub deframer_init : Deframer → Deframer
deframer_init d = record d {
  buffer_pos = 0;
  raw_bits = 0;
  unstuffed_bits = 0;
  unstuffed_bit_count = 0;
}

-- Validate the check sequence of the buffer's first `pos` bytes; a valid frame is unpacked.
unfoldable pub check_fcs : List ℕ → ℕ → Packet → Option (Packet × ℕ)
check_fcs buffer pos packet = do
  low ← get_elem? buffer (pos - 2)
  high ← get_elem? buffer (pos - 1)
  body ← read_n (pos - 2) buffer
  let received = bit_or low (high * 2 ^ 8)
  if fcs body == received
      then (do unpacked ← packet_unpack packet buffer pos; some (unpacked, 1))
      else some (packet, 0)

-- Look at the buffer to see if there is a valid frame.
unfoldable pub look_for_frame : List ℕ → ℕ → Packet → Option (Packet × ℕ)
look_for_frame buffer pos packet =
    if leb min_packet_len pos then check_fcs buffer pos packet else some (packet, 0)

-- Reset the buffer.
abbrev pub reset : Deframer → Deframer
reset d = record d {
  buffer_pos = 0;
  raw_bits = 0;
  unstuffed_bits = 0;
  unstuffed_bit_count = 0;
  ones_count = 0;
}

-- A bit that was not stuffed enters the byte being read.
abbrev pub shift_in : Deframer → ℕ → Deframer
shift_in d bit = record d {
  unstuffed_bits = bit_or (d.unstuffed_bits / 2) (bit * 2 ^ 7) % 2 ^ 8;
  unstuffed_bit_count = (d.unstuffed_bit_count + 1) % 2 ^ 8;
}

unfoldable pub unstuff : Deframer → ℕ → Deframer
unstuff d bit =
    if bit == 0
    then record (if ltb d.ones_count 5 then shift_in d bit else d) { ones_count = 0 }
    else record (shift_in d bit) { ones_count = (d.ones_count + 1) % 2 ^ 8 }

-- A full byte goes to the buffer, from its start again once 255 are held.
unfoldable pub store_byte : Deframer → Deframer
store_byte d =
    if d.unstuffed_bit_count == 8
    then (let pos : ℕ = if leb 255 d.buffer_pos then 0 else d.buffer_pos in
        record d {
          buffer = set d.buffer pos d.unstuffed_bits;
          buffer_pos = pos + 1;
          unstuffed_bit_count = 0;
        })
    else d

-- One bit; the last part of the result is 1 if the packet is ready.
unfoldable pub process : Deframer → Packet → ℕ → Option (Deframer × Packet × ℕ)
process d packet bit =
    let raw = bit_or (d.raw_bits * 2) bit % 2 ^ 8 in
    let d' = record d { raw_bits = raw } in
    if raw == ax25_flag
    then (do
      (packet', ret) ← look_for_frame d.buffer d.buffer_pos packet
      some (reset d', packet', ret))
    else some (store_byte (unstuff d' bit), packet, 0)
