-- ===== src/TestDemod/Chunks.antt =====
-- The `main` of apps/test_demod/test_demod.c on a file of any chunks.
use modemstuff.Base.{
  ℕ, ◌+◌, ◌≤◌, ◌≡◌, refl, sym, ap, ◌∙◌, concat, List, [], ◌∷◌, ◌++◌, map, Option, some, true,
  length,
}
use modemstuff.Config.{Config}
use modemstuff.Tnc.Settings.{supplied}
use modemstuff.Packet.{Packet}
use modemstuff.Packet.Shape.{IsShaped}
use modemstuff.Deframer.{max_packet_len}
use modemstuff.Deframer.Safety.{IsValid, deframer_init-IsValid}
use modemstuff.BitDetector.{Symbol}
use modemstuff.Link.{Demodulator, demodulator_init, demodulator_process}
use modemstuff.Link.Safety.{demodulator_process_total}
use modemstuff.Dsp.{Arithmetic, Floats, ◌⊘◌}
use modemstuff.Dsp.Fsk.{Detector, detector_init, window_size}
use modemstuff.Dsp.Detection.{detect_all, detect_all-contents}
use modemstuff.Dsp.Reception.{sign, demodulator_samples, demodulator_samples-process}
use modemstuff.Dsp.Pieces.{detect_all-append, detect_all-none}
use modemstuff.TestDemod.Printing.{IsPrinted, IsPrinted-append, print_packets_total}
use modemstuff.TestDemod.{
  Printed, Memory, TestDemodConfig, test_demod_config_read, test_demod_demodulator_init,
  read_samples, main, args_expected,
}

-- The packets that a demodulator hands over from groups of symbols, one call after another, each with
-- its own storage.
pub data Heard (packet : ℕ → Packet)
    : ℕ → Demodulator → List (List Symbol) → List Packet → Type 0 where
  no_more : {calls : ℕ} {d : Demodulator} → Heard packet calls d [] []
  one_more :
      {calls : ℕ} {d d' : Demodulator} {p : Packet} {symbols : List Symbol}
      {groups : List (List Symbol)} {packets rest : List Packet}
      → demodulator_process d (packet calls) symbols ≡ some (d', p, packets)
      → Heard packet (calls + 1) d' groups rest
      → Heard packet calls d (symbols ∷ groups) (packets ++ rest)

module _ {F D : Type 0} ⦃S : Arithmetic F⦄ ⦃W : Arithmetic D⦄ (L : Floats F D) where
  -- The chunks up to the end of the file.
  abbrev pub chunks_of : List (List F) → List (List F)
  chunks_of [] = []
  chunks_of ([] ∷ chunks) = []
  chunks_of ((x ∷ xs) ∷ chunks) = (x ∷ xs) ∷ chunks_of chunks

  read_samples_total :
      (memory : Memory F) (chunks : List (List F)) (calls received : ℕ) (det last : Detector F)
      (symbols : List F) (d : Demodulator)
      → ((k : ℕ) → IsShaped (memory.packet k))
      → detect_all L memory.behind det (concat (chunks_of chunks)) ≡ some (last, symbols)
      → IsValid d.deframer
      → (groups : List (List F)) × (packets : List Packet) × (printed : Printed) × (read_samples L
            memory calls received det d chunks
          ≡ some printed)
        × (concat groups ≡ symbols)
        × (map length groups ≡ map length (chunks_of chunks))
        × Heard memory.packet calls d (map (map (sign L)) groups) packets
        × IsPrinted received packets printed
  unfolding read_samples
  read_samples_total memory [] calls received det last symbols d o e v =
      ([], [], [], refl, detect_all-none L memory.behind det last symbols e, refl, no_more, tt)
  read_samples_total memory ([] ∷ chunks) calls received det last symbols d o e v =
      ([], [], [], refl, detect_all-none L memory.behind det last symbols e, refl, no_more, tt)
  read_samples_total memory ((x ∷ xs) ∷ chunks) calls received det last symbols d o e v =
      let (det', first, second, p, q, parts, len) =
        detect_all-append L memory.behind (x ∷ xs) (concat (chunks_of chunks)) det last symbols e in
      let (r, f, valid, all) =
        demodulator_process_total (map (sign L) first) d (memory.packet calls) v (o calls) in
      let demodulated : demodulator_samples L memory.behind det d (memory.packet calls) (x ∷ xs)
          ≡ some (det', r.0, r.1, r.2) =
        demodulator_samples-process L memory.behind (x ∷ xs) det det' first d (memory.packet calls)
          p
        ∙ rw f refl in
      let (lines, g, printed) = print_packets_total received r.2 all in
      let (groups, packets, rest, h, whole, lens, heard, printed') =
        read_samples_total memory chunks (calls + 1) (received + length r.2) det' last second r.0 o
          q valid in
      (
        first ∷ groups,
        r.2 ++ packets,
        lines ++ rest,
        rw (demodulated, g, h) refl,
        ap (λ t. first ++ t) whole ∙ sym parts,
        rw (len, lens) refl,
        one_more f heard,
        IsPrinted-append received (received + length r.2) r.2 packets lines rest refl printed
            printed',
      )

  -- What the bench prints for some chunks: the detector gets all their samples, from its initialisation
  -- on, and gives a group of symbols for each chunk, of its length; the demodulator gets all groups,
  -- from its initialisation on; and what is printed are the packets that it hands over.
  pub record IsHeard (memory : Memory F) (config : TestDemodConfig F) (chunks : List (List F))
      (printed : Printed) : Type 0 where
    pub start : Detector F
    pub last : Detector F
    pub groups : List (List F)
    pub packets : List Packet
    pub started :
        detector_init L memory.malloc memory.behind memory.mark_peak memory.space_peak
          config.mark_freq config.space_freq config.baud_rate
          (S.of_int config.sample_rate)
        ≡ some start
    pub detected :
        detect_all L memory.behind start (concat (chunks_of chunks)) ≡ some (last, concat groups)
    pub lengths : map length groups ≡ map length (chunks_of chunks)
    pub heard :
        Heard memory.packet 0
          (demodulator_init
            (S.truncate (S.of_int config.sample_rate ⊘ config.baud_rate))
            memory.deframer)
          (map (map (sign L)) groups)
          packets
    pub is_printed : IsPrinted 0 packets printed

  -- With a configuration that is read, at least one sample a bit and a file that opens, and if the
  -- memory behind the window's buffer, of which ms_window_push reads a sample, can be read, then whatever
  -- the memory of the program and the chunks hold, the bench ends with success. The detector has got
  -- the samples of all chunks up to the end of the file, without a fault, as one signal, and the
  -- demodulator the symbols of each chunk, one after another; the packets that it handed over, and no
  -- others, are printed, numbered from 1 on, each in at most 512 characters.
  pub main-IsHeard :
      (memory : Memory F) (atoi : List ℕ → ℕ) (atof : List ℕ → F)
      (fopen : List ℕ → Option (List (List F))) (storage : Config) (lines : Option (List (List ℕ)))
      (config : TestDemodConfig F) (chunks : List (List F)) (b : F) (behind : List F)
      → ((n : ℕ) → length (memory.malloc n) ≡ n)
      → memory.behind ≡ b ∷ behind
      → length memory.deframer.buffer ≡ max_packet_len
      → ((k : ℕ) → IsShaped (memory.packet k))
      → test_demod_config_read L atoi atof storage lines ≡ some (supplied config)
      → 1 ≤ window_size (S.of_int config.sample_rate) config.baud_rate
      → fopen config.file ≡ some chunks
      → (printed : Printed) × (main L memory atoi atof fopen args_expected storage lines
          ≡ some (true, printed))
        × IsHeard memory config chunks printed
  unfolding main test_demod_demodulator_init demodulator_init
  main-IsHeard memory atoi atof fopen storage lines config chunks b behind m e a o read h opens =
      let rate = S.of_int config.sample_rate in
      let (start, det, symbols, i, all, count, holds) =
        detect_all-contents L memory.mark_peak memory.space_peak config.mark_freq config.space_freq
          config.baud_rate rate memory.malloc b behind (concat (chunks_of chunks)) m h in
      let d = demodulator_init (S.truncate (rate ⊘ config.baud_rate)) memory.deframer in
      let (groups, packets, printed, f, whole, lens, heard, is_printed) =
        read_samples_total memory chunks 0 0 start det symbols d o (rw e all)
          (deframer_init-IsValid memory.deframer a) in
      (
        printed,
        rw (read, e, i, opens) (rw f refl),
        record {
          start = start;
          last = det;
          groups = groups;
          packets = packets;
          started = rw e i;
          detected = rw (e, whole) all;
          lengths = lens;
          heard = heard;
          is_printed = is_printed;
        },
      )
