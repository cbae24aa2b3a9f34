-- ===== src/Tnc/Running/Examples.antt =====
-- A start with a configuration of seven lines, then two symbols and a frame of one byte.
use modemstuff.Base.{
  ℕ, ◌≡◌, ◌≤◌, refl, List, [], ◌∷◌, map, some, true, arith, length-replicate, replicate, All,
}
use modemstuff.Config.{ConfigEntry}
use modemstuff.Config.RoundTrip.{IsEntry, line_of}
use modemstuff.Config.Samples.{old, config, entry, entry-IsEntry}
use modemstuff.Kiss.{undefined}
use modemstuff.Packet.Samples.{storage, storage-IsShaped}
use modemstuff.Framer.{Framer}
use modemstuff.Deframer.{max_packet_len}
use modemstuff.NetServer.{Setup, cleared, server_init, server_start, set_callbacks}
use modemstuff.BitDetector.{positive, not_positive}
use modemstuff.Dsp.Fsk.{window_size}
use modemstuff.Dsp.Keying.{max_samples}
use modemstuff.Dsp.Samples.{whole, floats, clear_deframer}
use modemstuff.Tnc.Settings.{
  Settings, tnc_config_read-supplied, host_key, port_key, kiss_port_key, sample_rate_key,
  mark_freq_key, space_freq_key, baud_rate_key,
}
use modemstuff.Tnc.Start.{Memory, Tnc, main, args_expected}
use modemstuff.Tnc.Running.{IsSafe, connects, connected_client, main-IsSafe}

abbrev entries : List ConfigEntry
entries = map entry (
    host_key ∷ port_key ∷ kiss_port_key ∷ sample_rate_key ∷ mark_freq_key ∷ space_freq_key
    ∷ baud_rate_key ∷ [])

entries-IsEntry : All IsEntry entries
entries-IsEntry = (
  entry-IsEntry host_key (omega arith) (λ h. cc, λ h. cc) (omega arith),
  (
    entry-IsEntry port_key (omega arith) (λ h. cc, λ h. cc) (omega arith),
    (
      entry-IsEntry kiss_port_key (omega arith) (λ h. cc, λ h. cc) (omega arith),
      (
        entry-IsEntry sample_rate_key (omega arith) (λ h. cc, λ h. cc) (omega arith),
        (
          entry-IsEntry mark_freq_key (omega arith) (λ h. cc, λ h. cc) (omega arith),
          (
            entry-IsEntry space_freq_key (omega arith) (λ h. cc, λ h. cc) (omega arith),
            (entry-IsEntry baud_rate_key (omega arith) (λ h. cc, λ h. cc) (omega arith), tt),
          ),
        ),
      ),
    ),
  ),
)

-- Every number is 8.
abbrev number : List ℕ → ℕ
number text = 8

abbrev settings : Settings ℕ ℕ
settings = record {
  host = 56 ∷ [];
  port = 8;
  kiss_port = 8;
  sample_rate = 8;
  mark_freq = 8;
  space_freq = 8;
  baud_rate = 8;
}

abbrev memory : Memory ℕ
memory = record {
  malloc = λ n. replicate n 9;
  behind = [];
  mark_peak = 1;
  space_peak = 1;
  phase = 0;
  deframer = clear_deframer;
  decoder = record {
    state = undefined;
    buffer = replicate 512 0;
    buffer_pos = 0;
    has_callback = true;
  };
}

abbrev one_setup : ℕ → Setup
one_setup port = record { socket = some 3; setsockopt_ok = true; bind_ok = true; listen_ok = true }

abbrev framer : Framer
framer = record {
  head_flags = 9;
  tail_flags = 9;
  bit_buffer = replicate 256 0;
  bit_buffer_unit = 9;
  bit_buffer_bit = 9;
  total_bits = 9;
  reading_bit = 9;
}

one_sized : 1 ≤ window_size {F = ℕ} 8 8
unfolding window_size
one_sized = omega arith

few_samples : window_size {F = ℕ} 8 8 ≤ max_samples
unfolding window_size
few_samples = omega arith

abbrev frame : List ℕ
frame = 0xc0 ∷ 0x00 ∷ 0x41 ∷ 0xc0 ∷ []

main-IsSafe_example :
    (tnc : Tnc ℕ) × (main floats number number memory one_setup
        (λ host port. connects 4)
        args_expected
        config
        (some (map line_of entries))
      ≡ some (some tnc))
    × (tnc.kiss_server ≡ server_start (set_callbacks (cleared 3) true true true))
    × (tnc.audio_client ≡ connected_client 4)
    × IsSafe floats tnc storage storage framer
        (replicate 512 7)
        (replicate 512 5)
        (positive ∷ not_positive ∷ [])
        frame
unfolding server_init
main-IsSafe_example =
    main-IsSafe floats number number memory one_setup (λ host port. connects 4) config
      (some (map line_of entries)) settings (cleared 3) 4 storage storage framer (replicate 512 7)
      (replicate 512 5) (positive ∷ not_positive ∷ []) frame (λ n. length-replicate n 9)
      (length-replicate {A = ℕ} max_packet_len 0) (length-replicate {A = ℕ} 512 0)
      (omega (arith, length-replicate {A = ℕ} 512 7)) (length-replicate {A = ℕ} 512 5)
      storage-IsShaped storage-IsShaped
      (tnc_config_read-supplied number number config entries (56 ∷ []) (56 ∷ []) (56 ∷ []) (56 ∷ [])
        (56 ∷ []) (56 ∷ []) (56 ∷ []) entries-IsEntry (length-replicate {A = ConfigEntry} 32 old)
        (omega arith) refl refl refl refl refl refl refl)
      one_sized few_samples refl refl
