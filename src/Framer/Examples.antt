-- ===== src/Framer/Examples.antt =====
-- The frame of a packet whose information needs stuffing.
use modemstuff.Base.{
  take, length-replicate, ◌+◌, ℕ, ◌≤◌, ◌≡◌, List, [], ◌∷◌, some, arith, length, replicate, drop,
}
use modemstuff.Packet.Samples.{report, report_bytes, pack_report}
use modemstuff.Framer.{Framer, byte_bits, bit_buffer_size, framer_process, insert_bits}
use modemstuff.Framer.Content.{
  capacity, over, Contains, Holds-Contains, Overlays-Holds, insert_bits-Overlays, reading_from,
}
use modemstuff.Framer.Frame.{drain-framer_process, started, started-Overlays}
use modemstuff.Framer.Units.{flat, flat-replicate}
use modemstuff.Framer.Stuffing.{frame}
use modemstuff.Framer.Reading.{drain, drain-Contains}

abbrev clear : Framer
clear = record {
  head_flags = 4;
  tail_flags = 2;
  bit_buffer = replicate bit_buffer_size 0;
  bit_buffer_unit = 0;
  bit_buffer_bit = 0;
  total_bits = 0;
  reading_bit = 3;
}

report_fits : length (frame 4 report_bytes 2) ≤ capacity
unfolding byte_bits
report_fits = omega arith

abbrev scribbled : Framer
scribbled = record clear { bit_buffer = replicate bit_buffer_size 5 }

drain-framer_process_example :
    let bits = frame 4 report_bytes 2 in
    (fr' : Framer) × (framer_process scribbled report ≡ some (fr', length bits))
    × (drain (length bits + 1) fr'
        ≡ over bits (take (length bits) (flat (replicate bit_buffer_size 5))))
drain-framer_process_example =
    drain-framer_process scribbled report report_bytes (length-replicate {A = ℕ} bit_buffer_size 5)
      pack_report report_fits

abbrev some_bits : List ℕ
some_bits = 1 ∷ 0 ∷ 1 ∷ 1 ∷ 0 ∷ []

abbrev holding : Framer
holding = record (insert_bits (started clear) some_bits) { reading_bit = 1 }

holding-Contains : Contains holding some_bits
holding-Contains =
    let zeros : flat clear.bit_buffer ≡ replicate capacity 0 =
      flat-replicate bit_buffer_size capacity (omega arith) in
    let laid =
      insert_bits-Overlays some_bits [] (flat clear.bit_buffer) (started clear) (omega arith)
        (started-Overlays clear (length-replicate {A = ℕ} bit_buffer_size 0)) (omega arith) in
    reading_from 1 (Holds-Contains (Overlays-Holds (rw zeros at laid)))

drain-Contains_example : drain 9 holding ≡ drop 1 some_bits
drain-Contains_example = drain-Contains 9 holding some_bits holding-Contains (omega arith)
