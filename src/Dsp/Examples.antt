-- ===== src/Dsp/Examples.antt =====
-- Arithmetic on whole numbers, with the identity for every function: a bit has two samples.
use modemstuff.Base.{
  ℕ, ◌+◌, ◌<◌, ◌≤◌, ◌≡◌, ◌↔◌, refl, List, [], ◌∷◌, ◌++◌, none, some, length, length-replicate, drop,
  replicate, arith,
}
use modemstuff.Window.{contents}
use modemstuff.Packet.Samples.{report, storage, report-IsValid, storage-IsShaped}
use modemstuff.Framer.{Framer, bit_buffer_size}
use modemstuff.Deframer.{max_packet_len}
use modemstuff.Link.{modulator_init, modulator_framer, modulator_process}
use modemstuff.Link.EndToEnd.{demodulator_process-modulator_process}
use modemstuff.Dsp.Fsk.{
  Generator, generator_init, samples_count, Detector, detector_init, window_size, silence,
  first_sample,
}
use modemstuff.Dsp.Keying.{
  key_all, key_all-none, max_samples, modulator_samples, IsKeyed, modulator_samples-sweep,
}
use modemstuff.Dsp.Samples.{whole, floats, clear_deframer}
use modemstuff.Dsp.Detection.{detect_all, pre_filtered, detect_all-contents}

abbrev generator : Generator ℕ
generator = generator_init 0 1200 2200 1200 2400

two_samples : samples_count generator ≤ max_samples
unfolding samples_count
two_samples = omega arith

-- Memory for the framer, cleared.
abbrev clear_framer : Framer
clear_framer = record {
  head_flags = 0;
  tail_flags = 0;
  bit_buffer = replicate bit_buffer_size 0;
  bit_buffer_unit = 0;
  bit_buffer_bit = 0;
  total_bits = 0;
  reading_bit = 0;
}

few_flags :
    (modulator_framer (modulator_init 1200) clear_framer).head_flags
      + (modulator_framer (modulator_init 1200) clear_framer).tail_flags
    ≤ 718
unfolding modulator_framer modulator_init
few_flags = omega arith

report_levels :
    (levels : List ℕ) × (modulator_process (modulator_init 1200) clear_framer report ≡ some levels)
report_levels =
    let (levels, e, rest) =
      demodulator_process-modulator_process (modulator_init 1200) clear_framer 16 clear_deframer
        report storage refl few_flags (omega arith) (length-replicate {A = ℕ} max_packet_len 0)
        report-IsValid storage-IsShaped (omega arith) in
    (levels, e)

modulator_samples-sweep_example :
    (gen' : Generator ℕ) × (blocks : List (List ℕ)) × (modulator_samples floats generator
        (modulator_init 1200)
        clear_framer
        (replicate max_samples 7)
        report
      ≡ some (gen', blocks))
    × IsKeyed floats generator report_levels.0 blocks
modulator_samples-sweep_example =
    modulator_samples-sweep floats generator (modulator_init 1200) clear_framer
      (replicate max_samples 7) report report_levels.0 (length-replicate {A = ℕ} max_samples 7)
      two_samples report_levels.1

key_all-none_example :
    (key_all floats generator (9 ∷ []) (1 ∷ 0 ∷ []) ≡ none) ↔ (1 < samples_count generator)
key_all-none_example = key_all-none floats generator (9 ∷ []) 1 (0 ∷ [])

two_sized : 1 ≤ window_size {F = ℕ} 2400 1200
unfolding window_size
two_sized = omega arith

detect_all-contents_example :
    (start det : Detector ℕ) × (symbols : List ℕ) × (detector_init floats
        (λ n. replicate n 9)
        (8 ∷ [])
        1
        1
        1200
        2200
        1200
        2400
      ≡ some start)
    × (detect_all floats (8 ∷ []) start (5 ∷ 6 ∷ []) ≡ some (det, symbols))
    × (length symbols ≡ 2)
    × (contents det.sample_window
        ≡ drop 3 (
            replicate (window_size {F = ℕ} 2400 1200) (silence floats)
            ++ pre_filtered floats 1 1 1200 2200 1200 2400 (first_sample floats ∷ 5 ∷ 6 ∷ [])))
detect_all-contents_example =
    detect_all-contents floats 1 1 1200 2200 1200 2400 (λ n. replicate n 9) 8 [] (5 ∷ 6 ∷ [])
      (λ n. length-replicate n 9) two_sized
