-- ===== src/Packet/Samples.antt =====
-- A packet of APRS, and storage to unpack it into.
use modemstuff.Base.{ℕ, ◌≡◌, refl, some, List, [], ◌∷◌, ◌++◌, All-replicate, replicate, arith}
use modemstuff.Call.{Call, call_pack}
use modemstuff.Crc.{fcs}
use modemstuff.Call.Packed
use modemstuff.Packet.{Packet, packet_pack}
use modemstuff.Packet.Shape.{IsValid, IsShaped, IsTerminated, HasArray}

-- "APRS" without an SSID.
abbrev pub aprs : Call
aprs = record { base = 65 ∷ 80 ∷ 82 ∷ 83 ∷ 0 ∷ 0 ∷ 0 ∷ []; ssid = 0; is_repeated = 0 }

-- "N0CALL-7", with no room left in its array.
abbrev pub n0call : Call
n0call = record { base = 78 ∷ 48 ∷ 67 ∷ 65 ∷ 76 ∷ 76 ∷ 0 ∷ []; ssid = 7; is_repeated = 0 }

-- "WIDE1-1", already repeated.
abbrev pub wide : Call
wide = record { base = 87 ∷ 73 ∷ 68 ∷ 69 ∷ 49 ∷ 0 ∷ 9 ∷ []; ssid = 1; is_repeated = 1 }

abbrev pub empty : Call
empty = record { base = replicate 7 0; ssid = 0; is_repeated = 0 }

-- One repeater, and "~~A" as information.
abbrev pub report : Packet
report = record {
  dest = aprs;
  src = n0call;
  repeaters = wide ∷ replicate 7 empty;
  repeater_count = 1;
  control = 0x03;
  protocol = 0xf0;
  info = 126 ∷ 126 ∷ 65 ∷ replicate 252 0;
  info_len = 3;
}

-- Arrays that hold something else.
abbrev pub storage : Packet
storage = record {
  dest = wide;
  src = wide;
  repeaters = replicate 8 n0call;
  repeater_count = 5;
  control = 1;
  protocol = 2;
  info = replicate 255 170;
  info_len = 200;
}

-- Its body.
abbrev pub report_body : List ℕ
report_body =
    130 ∷ 160 ∷ 164 ∷ 166 ∷ 64 ∷ 64 ∷ 96 ∷ 156 ∷ 96 ∷ 134 ∷ 130 ∷ 152 ∷ 152 ∷ 110 ∷ 174 ∷ 146 ∷ 136
    ∷ 138 ∷ 98 ∷ 64 ∷ 227 ∷ 3 ∷ 240 ∷ 126 ∷ 126 ∷ 65 ∷ []

-- The body and its check sequence.
abbrev pub report_bytes : List ℕ
report_bytes = report_body ++ (60 ∷ 182 ∷ [])

pub pack_report : packet_pack report ≡ some report_bytes
unfolding packet_pack call_pack fcs
pack_report = refl

pub aprs-IsValid : Packed.IsValid aprs
aprs-IsValid = ground arith

pub n0call-IsValid : Packed.IsValid n0call
n0call-IsValid = ground arith

wide-IsValid : Packed.IsValid wide
wide-IsValid = ground arith

pub report-IsValid : IsValid report
report-IsValid = record {
  valid_dest = aprs-IsValid;
  valid_src = n0call-IsValid;
  repeaters_fit = omega arith;
  repeater_array = refl;
  valid_repeaters = (wide-IsValid, tt);
  control_byte = omega arith;
  protocol_byte = omega arith;
  info_array = refl;
  info_fits = omega arith;
  info_bytes = ground arith;
}

pub storage-IsShaped : IsShaped storage
storage-IsShaped = record {
  dest_array = refl;
  src_array = refl;
  repeater_arrays = All-replicate HasArray 8 n0call refl;
  repeater_array = refl;
  info_array = refl;
}

-- Another packet, without a repeater and without information.
abbrev pub other_report : Packet
other_report = record report { src = aprs; repeater_count = 0; info_len = 0 }

pub other_report-IsTerminated : IsTerminated other_report
other_report-IsTerminated = record {
  terminated_dest = Packed.IsValid-IsTerminated aprs-IsValid;
  terminated_src = Packed.IsValid-IsTerminated aprs-IsValid;
  repeaters_fit = omega arith;
  repeater_array = refl;
  terminated_repeaters = tt;
  info_array = refl;
  info_fits = omega arith;
}
