-- ===== src/TestDemod.antt =====
-- The bench of apps/test_demod: test_demod.c, config.c and demodulator.c, which is that of apps/ax25tnc
-- with other names. The file is the chunks of samples that `fread` gives, and what goes to the log
-- for a packet is its number and its line. `none` as a result is an access outside an array.
pub mod Settings
pub mod Printing
pub mod Chunks
mod Examples
use modemstuff.Base.{
  ℕ, ◌+◌, List, [], ◌∷◌, ◌++◌, Option, none, some, Bool, true, false, not, length, ◌==◌,
  if◌then◌else◌, ◌>>=◌,
}
use modemstuff.Config.{Config, config_read, config_get_str, config_get_as}
use modemstuff.Tnc.Settings.{
  Outcome, not_read, not_supplied, supplied, require, sample_rate_key, mark_freq_key,
  space_freq_key, baud_rate_key,
}
use modemstuff.Packet.{Packet, packet_pack_tnc2}
use modemstuff.Deframer.{Deframer}
use modemstuff.Link.{Demodulator, demodulator_init}
use modemstuff.Dsp.{Arithmetic, Floats, ◌⊘◌}
use modemstuff.Dsp.Fsk.{Detector, detector_init}
use modemstuff.Dsp.Reception.{demodulator_samples}

abbrev pub args_expected : ℕ
args_expected = 1 + 1

abbrev pub file_key : List ℕ
file_key = b'F' ∷ b'I' ∷ b'L' ∷ b'E' ∷ []

pub record TestDemodConfig (F : Type 0) : Type 0 where
  pub file : List ℕ
  pub sample_rate : ℕ
  pub mark_freq : F
  pub space_freq : F
  pub baud_rate : F

-- The number of a packet and its line.
abbrev pub Printed : Type 0
Printed = List (ℕ × List ℕ)

-- The callback for each packet, behind so many received ones.
pub print_packets : ℕ → List Packet → Option Printed
print_packets received [] = some []
print_packets received (packet ∷ packets) = do
  line ← packet_pack_tnc2 packet
  rest ← print_packets (received + 1) packets
  some ((received + 1, line) ∷ rest)

-- What the memory of the program holds before it is written: new blocks, what stands behind the
-- window's buffer, the two peaks, the deframer, and the packet of each call.
pub record Memory (F : Type 0) : Type 0 where
  pub malloc : ℕ → List F
  pub behind : List F
  pub mark_peak : F
  pub space_peak : F
  pub deframer : Deframer
  pub packet : ℕ → Packet

module _ {F D : Type 0} ⦃S : Arithmetic F⦄ ⦃W : Arithmetic D⦄ (L : Floats F D) where
  unfoldable pub test_demod_config_read :
      (List ℕ → ℕ)
      → (List ℕ → F)
      → Config
      → Option (List (List ℕ))
      → Option (Outcome (TestDemodConfig F))
  unfolding require
  test_demod_config_read atoi atof config lines = do
    (config', ok) ← config_read config lines
    if not ok
        then some not_read
        else require file_key (config_get_str config' file_key) (λ file.
          require sample_rate_key (config_get_as atoi config' sample_rate_key) (λ sample_rate.
            require mark_freq_key (config_get_as atof config' mark_freq_key) (λ mark_freq.
              require space_freq_key (config_get_as atof config' space_freq_key) (λ space_freq.
                require baud_rate_key (config_get_as atof config' baud_rate_key) (λ baud_rate.
                  some (
                    supplied record {
                      file = file;
                      sample_rate = sample_rate;
                      mark_freq = mark_freq;
                      space_freq = space_freq;
                      baud_rate = baud_rate;
                    }))))))

  -- The bit detector's period is a whole number.
  unfoldable pub test_demod_demodulator_init :
      Memory F → TestDemodConfig F → Option (Detector F × Demodulator)
  test_demod_demodulator_init memory config = do
    detector ←
        detector_init L memory.malloc memory.behind memory.mark_peak memory.space_peak
          config.mark_freq config.space_freq config.baud_rate (S.of_int config.sample_rate)
    some (
      detector,
      demodulator_init (S.truncate (S.of_int config.sample_rate ⊘ config.baud_rate))
          memory.deframer,
    )

  -- The loop over the samples of a chunk, which is that of apps/ax25tnc.
  abbrev pub test_demod_demodulator_process :
      List F
      → Detector F
      → Demodulator
      → Packet
      → List F
      → Option (Detector F × Demodulator × Packet × List Packet)
  test_demod_demodulator_process = demodulator_samples L

  -- The loop over the chunks, behind so many calls and received packets; it ends at an empty one.
  pub read_samples : Memory F → ℕ → ℕ → Detector F → Demodulator → List (List F) → Option Printed
  unfolding print_packets
  read_samples memory calls received det d [] = some []
  read_samples memory calls received det d ([] ∷ chunks) = some []
  read_samples memory calls received det d ((x ∷ xs) ∷ chunks) = do
    (det', d', _, packets) ←
        test_demod_demodulator_process memory.behind det d (memory.packet calls) (x ∷ xs)
    lines ← print_packets received packets
    rest ← read_samples memory (calls + 1) (received + length packets) det' d' chunks
    some (lines ++ rest)

  -- Whether it ends with EXIT_SUCCESS, and what it prints. `fopen` gives the file's chunks, or NULL.
  unfoldable pub main :
      Memory F
      → (List ℕ → ℕ)
      → (List ℕ → F)
      → (List ℕ → Option (List (List F)))
      → ℕ
      → Config
      → Option (List (List ℕ))
      → Option (Bool × Printed)
  unfolding read_samples
  main memory atoi atof fopen argc storage lines =
      if not (argc == args_expected) then some (false, []) else (do
        outcome ← test_demod_config_read atoi atof storage lines
        elim outcome [
          | not_read ↦ some (false, [])
          | not_supplied key ↦ some (false, [])
          | supplied config ↦ do
            (det, d) ← test_demod_demodulator_init memory config
            elim (fopen config.file) [
              | none ↦ some (false, [])
              | some chunks ↦ do
                printed ← read_samples memory 0 0 det d chunks
                some (true, printed)
            ]
        ])
