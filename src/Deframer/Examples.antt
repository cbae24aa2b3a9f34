-- ===== src/Deframer/Examples.antt =====
-- A frame between three flags in front and two behind.
use modemstuff.Base.{ℕ, ◌≡◌, List, [], ◌∷◌, some, arith, length, length-replicate, replicate}
use modemstuff.Packet.{Packet, packet_pack}
use modemstuff.Packet.Shape.{SamePacket}
use modemstuff.Packet.Samples.{report, storage, report-IsValid, storage-IsShaped}
use modemstuff.Framer.Stuffing.{frame}
use modemstuff.Deframer.{max_packet_len}
use modemstuff.Deframer.Bits.{run}
use modemstuff.Deframer.Flags.{cleared}
use modemstuff.Deframer.Frame.{run_packet}

abbrev buffer : List ℕ
buffer = replicate max_packet_len 85

run_packet_example :
    (bytes : List ℕ) × (packet_pack report ≡ some bytes)
    × ((back : Packet) × SamePacket report back
        × ((buf' : List ℕ) × (length buf' ≡ max_packet_len)
            × (run (cleared buffer) storage (frame 3 bytes 2)
                ≡ some (cleared buf', back, back ∷ []))))
run_packet_example =
    run_packet 3 1 buffer report storage (length-replicate {A = ℕ} max_packet_len 85) report-IsValid
      storage-IsShaped (omega arith)
