-- ===== src/Packet/Shape.antt =====
-- Packets that the sender may hand over, storage that the receiver may unpack into, and when two
-- packets say the same.
use modemstuff.Base.{ℕ, ◌≤◌, ◌≡◌, ◌/◌, ◌%◌, ◌^◌, List, [], ◌∷◌, All, IsByte, length, take}
use modemstuff.Call.{Call}
use modemstuff.Call.Field
use modemstuff.Call.Packed
use modemstuff.Call.Packed.{Same}
use modemstuff.Crc.{fcs}
use modemstuff.Packet.{Packet, max_repeater_count, max_info_len}

abbrev pub HasArray : Call → Type 0
HasArray call = length call.base ≡ 7

-- The arrays of a packet have the sizes of the struct, whatever they hold.
pub record IsShaped (pkt : Packet) : Type 0 where
  pub dest_array : HasArray pkt.dest
  pub src_array : HasArray pkt.src
  pub repeater_arrays : All HasArray pkt.repeaters
  pub repeater_array : length pkt.repeaters ≡ max_repeater_count
  pub info_array : length pkt.info ≡ max_info_len

-- Valid addresses, counts within the arrays, and bytes.
pub record IsValid (pkt : Packet) : Type 0 where
  pub valid_dest : Packed.IsValid pkt.dest
  pub valid_src : Packed.IsValid pkt.src
  pub repeaters_fit : pkt.repeater_count ≤ max_repeater_count
  pub repeater_array : length pkt.repeaters ≡ max_repeater_count
  pub valid_repeaters : All Packed.IsValid (take pkt.repeater_count pkt.repeaters)
  pub control_byte : IsByte pkt.control
  pub protocol_byte : IsByte pkt.protocol
  pub info_array : length pkt.info ≡ max_info_len
  pub info_fits : pkt.info_len ≤ max_info_len
  pub info_bytes : All IsByte (take pkt.info_len pkt.info)

-- Addresses with a terminator and counts within the arrays, as unpacking leaves them.
pub record IsTerminated (pkt : Packet) : Type 0 where
  pub terminated_dest : Field.IsTerminated pkt.dest
  pub terminated_src : Field.IsTerminated pkt.src
  pub repeaters_fit : pkt.repeater_count ≤ max_repeater_count
  pub repeater_array : length pkt.repeaters ≡ max_repeater_count
  pub terminated_repeaters : All Field.IsTerminated (take pkt.repeater_count pkt.repeaters)
  pub info_array : length pkt.info ≡ max_info_len
  pub info_fits : pkt.info_len ≤ max_info_len

All-IsTerminated : (rs : List Call) → All Packed.IsValid rs → All Field.IsTerminated rs
All-IsTerminated [] v = tt
All-IsTerminated (r ∷ rs) v = (Packed.IsValid-IsTerminated v.0, All-IsTerminated rs v.1)

pub IsValid-IsTerminated : {pkt : Packet} → IsValid pkt → IsTerminated pkt
IsValid-IsTerminated v = record {
  terminated_dest = Packed.IsValid-IsTerminated v.valid_dest;
  terminated_src = Packed.IsValid-IsTerminated v.valid_src;
  repeaters_fit = v.repeaters_fit;
  repeater_array = v.repeater_array;
  terminated_repeaters = All-IsTerminated _ v.valid_repeaters;
  info_array = v.info_array;
  info_fits = v.info_fits;
}

abbrev pub AllSame : List Call → List Call → Type 0
AllSame [] [] = Unit
AllSame (x ∷ xs) (y ∷ ys) = Same x y × AllSame xs ys
AllSame _ _ = ⊥

-- The used parts agree; what lies behind them in the arrays does not count.
pub record SamePacket (a b : Packet) : Type 0 where
  pub same_dest : Same a.dest b.dest
  pub same_src : Same a.src b.src
  pub same_count : a.repeater_count ≡ b.repeater_count
  pub same_repeaters :
      AllSame (take a.repeater_count a.repeaters) (take b.repeater_count b.repeaters)
  pub same_control : a.control ≡ b.control
  pub same_protocol : a.protocol ≡ b.protocol
  pub same_len : a.info_len ≡ b.info_len
  pub same_info : take a.info_len a.info ≡ take b.info_len b.info

-- The two bytes that follow a frame's body: its check sequence, low byte first.
abbrev pub trailer : List ℕ → List ℕ
trailer body = fcs body % 2 ^ 8 ∷ fcs body / 2 ^ 8 % 2 ^ 8 ∷ []
