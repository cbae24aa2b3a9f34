-- ===== src/TestDemod/Examples.antt =====
-- A configuration of "RATE 8", "BAUD 2" and frequencies, and a file of two chunks.
use modemstuff.Base.{
  ℕ, ◌≡◌, ◌≤◌, refl, List, [], ◌∷◌, map, some, true, arith, length-replicate, replicate, All,
}
use modemstuff.Config.{ConfigEntry}
use modemstuff.Config.Samples.{old, config, entry, entry-IsEntry}
use modemstuff.Config.RoundTrip.{IsEntry, line_of}
use modemstuff.Tnc.Settings.{sample_rate_key, mark_freq_key, space_freq_key, baud_rate_key}
use modemstuff.Packet.Samples.{storage, storage-IsShaped}
use modemstuff.Deframer.{max_packet_len}
use modemstuff.Dsp.Fsk.{window_size}
use modemstuff.Dsp.Samples.{whole, floats, clear_deframer}
use modemstuff.TestDemod.{Printed, Memory, TestDemodConfig, file_key, main, args_expected}
use modemstuff.TestDemod.Settings.{test_demod_config_read-supplied}
use modemstuff.TestDemod.Chunks.{IsHeard, main-IsHeard}

abbrev entries : List ConfigEntry
entries =
    map entry (file_key ∷ sample_rate_key ∷ mark_freq_key ∷ space_freq_key ∷ baud_rate_key ∷ [])

entries-IsEntry : All IsEntry entries
entries-IsEntry = (
  entry-IsEntry file_key (omega arith) (λ h. cc, λ h. cc) (omega arith),
  (
    entry-IsEntry sample_rate_key (omega arith) (λ h. cc, λ h. cc) (omega arith),
    (
      entry-IsEntry mark_freq_key (omega arith) (λ h. cc, λ h. cc) (omega arith),
      (
        entry-IsEntry space_freq_key (omega arith) (λ h. cc, λ h. cc) (omega arith),
        (entry-IsEntry baud_rate_key (omega arith) (λ h. cc, λ h. cc) (omega arith), tt),
      ),
    ),
  ),
)

abbrev memory : Memory ℕ
memory = record {
  malloc = λ n. replicate n 9;
  behind = 8 ∷ [];
  mark_peak = 1;
  space_peak = 1;
  deframer = clear_deframer;
  packet = λ k. storage;
}

abbrev chunks : List (List ℕ)
chunks = (5 ∷ 6 ∷ []) ∷ (7 ∷ []) ∷ [] ∷ []

-- Eight samples a second, at two bits a second.
abbrev number : List ℕ → ℕ
number text = 8

one_sized : 1 ≤ window_size {F = ℕ} 8 8
unfolding window_size
one_sized = omega arith

abbrev bench : TestDemodConfig ℕ
bench = record { file = 56 ∷ []; sample_rate = 8; mark_freq = 8; space_freq = 8; baud_rate = 8 }

main-IsHeard_example :
    (printed : Printed) × (main floats memory number number
        (λ file. some chunks)
        args_expected
        config
        (some (map line_of entries))
      ≡ some (true, printed))
    × IsHeard floats memory bench chunks printed
main-IsHeard_example =
    main-IsHeard floats memory number number (λ file. some chunks) config
      (some (map line_of entries)) bench chunks 8 [] (λ n. length-replicate n 9) refl
      (length-replicate {A = ℕ} max_packet_len 0) (λ k. storage-IsShaped)
      (test_demod_config_read-supplied floats number number config entries (56 ∷ []) (56 ∷ [])
        (56 ∷ []) (56 ∷ []) (56 ∷ []) entries-IsEntry (length-replicate {A = ConfigEntry} 32 old)
        (omega arith) refl refl refl refl refl)
      one_sized refl
