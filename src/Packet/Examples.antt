-- ===== src/Packet/Examples.antt =====
-- The round trip on a packet with a repeater, and runs of the operations.
use modemstuff.Base.{refl, All-replicate, ◌∷◌, replicate, ℕ, List}
use modemstuff.Packet.{Packet}
use modemstuff.Packet.Shape.{IsShaped, HasArray, SamePacket}
use modemstuff.Packet.RoundTrip.{IsFramed, packet_unpack-packet_pack}
use modemstuff.Packet.Samples.{empty, report, storage, report-IsValid, storage-IsShaped}

packet_unpack-packet_pack_example :
    (body : List ℕ) × ((back : Packet) × IsFramed report storage body back)
packet_unpack-packet_pack_example =
    packet_unpack-packet_pack report storage report-IsValid storage-IsShaped

-- The same packet, with other bytes behind its information.
abbrev report_again : Packet
report_again = record report { info = 126 ∷ 126 ∷ 65 ∷ replicate 252 1 }

report_again-IsShaped : IsShaped report_again
report_again-IsShaped = record {
  dest_array = refl;
  src_array = refl;
  repeater_arrays = (refl, All-replicate HasArray 7 empty refl);
  repeater_array = refl;
  info_array = refl;
}

report_again-SamePacket : SamePacket report report_again
report_again-SamePacket = record {
  same_dest = record { same_text = refl; same_ssid = refl; same_repeated = refl };
  same_src = record { same_text = refl; same_ssid = refl; same_repeated = refl };
  same_count = refl;
  same_repeaters = (record { same_text = refl; same_ssid = refl; same_repeated = refl }, tt);
  same_control = refl;
  same_protocol = refl;
  same_len = refl;
  same_info = refl;
}
