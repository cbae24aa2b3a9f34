-- ===== src/Link/Examples.antt =====
-- A packet from end to end, at 1200 baud and sixteen samples for each bit.
use modemstuff.Base.{
  ℕ, ◌+◌, ◌≤◌, ◌≡◌, refl, List, [], ◌∷◌, some, arith, length-replicate, replicate,
}
use modemstuff.Packet.{Packet}
use modemstuff.Packet.Shape.{SamePacket}
use modemstuff.Packet.Samples.{report, storage, report-IsValid, storage-IsShaped}
use modemstuff.Framer.{Framer, bit_buffer_size}
use modemstuff.Deframer.{Deframer, max_packet_len}
use modemstuff.BitDetector.Recovery.{held}
use modemstuff.Link.{
  modulator_init, modulator_framer, modulator_process, Demodulator, demodulator_init,
  demodulator_process,
}
use modemstuff.Link.EndToEnd.{demodulator_process-modulator_process}

abbrev framer : Framer
framer = record {
  head_flags = 99;
  tail_flags = 99;
  bit_buffer = replicate bit_buffer_size 0;
  bit_buffer_unit = 99;
  bit_buffer_bit = 99;
  total_bits = 99;
  reading_bit = 99;
}

-- Memory that holds something else.
abbrev deframer : Deframer
deframer = record {
  buffer = replicate max_packet_len 85;
  buffer_pos = 17;
  raw_bits = 63;
  unstuffed_bits = 5;
  unstuffed_bit_count = 6;
  ones_count = 250;
}

few_flags :
    (modulator_framer (modulator_init 1200) framer).head_flags
      + (modulator_framer (modulator_init 1200) framer).tail_flags
    ≤ 718
unfolding modulator_framer modulator_init
few_flags = omega arith

demodulator_process-modulator_process_example :
    (levels : List ℕ) × (modulator_process (modulator_init 1200) framer report ≡ some levels)
    × ((back : Packet) × SamePacket report back
        × ((end : Demodulator) × (demodulator_process
                (demodulator_init 16 deframer)
                storage
                (held 16 levels)
              ≡ some (end, back, back ∷ []))))
demodulator_process-modulator_process_example =
    demodulator_process-modulator_process (modulator_init 1200) framer 16 deframer report storage
      refl few_flags (omega arith) (length-replicate {A = ℕ} max_packet_len 85) report-IsValid
      storage-IsShaped (omega arith)
