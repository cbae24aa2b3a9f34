-- ===== src/Dsp/Fsk.antt =====
-- The generator and the detector of src/modemstuff/fsk.c and include/modemstuff/fsk.h, which selects
-- the Goertzel detector: what is compiled for the other one is left out.
use modemstuff.Base.{
  ℕ, zero, suc, ◌+◌, ◌==◌, List, [], ◌∷◌, Option, none, some, if◌then◌else◌, ◌>>=◌,
}
use modemstuff.Window.{Window, window_init, window_push, contents}
use modemstuff.Dsp.{Arithmetic, Floats, ◌⊕◌, ◌⊖◌, ◌⊗◌, ◌⊘◌, Dds, dds_init, dds_get_sample, goertzel}
use modemstuff.Dsp.Filters.{Section1, Section2, lpf_init, lpf_process, bpf_init, bpf_process}

pub record Generator (F : Type 0) : Type 0 where
  pub mark_freq : F
  pub space_freq : F
  pub baud_rate : F
  pub sample_rate : F
  pub fsk_dds : Dds F

abbrev pub generator_init : {F : Type 0} → F → F → F → F → F → Generator F
generator_init zero_phase mark_freq space_freq baud_rate sample_rate = record {
  mark_freq = mark_freq;
  space_freq = space_freq;
  baud_rate = baud_rate;
  sample_rate = sample_rate;
  fsk_dds = dds_init sample_rate mark_freq zero_phase;
}

pub record Detector (F : Type 0) : Type 0 where
  pub sample_rate : F
  pub center_freq : F
  pub pre_filter : List (Section2 F)
  pub post_filter : List (Section1 F)
  pub mark_freq : F
  pub space_freq : F
  pub mark_peak : F
  pub space_peak : F
  pub sample_window : Window F

-- A write to an array.
unfoldable pub put_at : {F : Type 0} → ℕ → F → List F → Option (List F)
put_at i x [] = none
put_at zero x (y ∷ ys) = some (x ∷ ys)
put_at (suc i) x (y ∷ ys) = do ys' ← put_at i x ys; some (y ∷ ys')

module _ {F : Type 0} ⦃S : Arithmetic F⦄ where
  unfoldable pub tone : Generator F → ℕ → F
  tone gen bit = if bit == 1 then gen.mark_freq else gen.space_freq

  unfoldable pub samples_count : Generator F → ℕ
  samples_count gen = S.truncate (gen.sample_rate ⊘ gen.baud_rate)

  unfoldable pub window_size : F → F → ℕ
  window_size sample_rate baud_rate = S.truncate (sample_rate ⊘ baud_rate)

module _ {F D : Type 0} ⦃S : Arithmetic F⦄ ⦃W : Arithmetic D⦄ (L : Floats F D) where
  -- The loop over `i`, with so many samples to go.
  unfoldable pub write_samples : ℕ → ℕ → Dds F → List F → Option (Dds F × List F)
  write_samples zero i dds out_samples = some (dds, out_samples)
  write_samples (suc n) i dds out_samples =
      let (dds', sample) = dds_get_sample L dds in
      do out_samples' ← put_at i sample out_samples; write_samples n (i + 1) dds' out_samples'

  -- With the array and the number of samples. `none` is a write behind the array, whose size, the last
  -- argument of the code, is not asked for.
  unfoldable pub generator_process : Generator F → ℕ → List F → Option (Generator F × List F × ℕ)
  generator_process gen bit out_samples = do
    (dds, written) ←
        write_samples (samples_count gen) 0 (record gen.fsk_dds { frequency = tone gen bit })
          out_samples
    some (record gen { fsk_dds = dds }, written, samples_count gen)

  unfoldable pub peak : F → F → F
  peak power old =
      let mix = λ (k : D). L.narrow (L.wide power ⊗ k ⊕ L.wide old ⊗ (L.decimal 1 0 ⊖ k)) in
      if S.at_least power old then mix (L.decimal 25 2) else mix (L.decimal 7 4)

  unfoldable pub clip : F → F
  clip symbol =
      if W.greater (L.wide symbol) (L.decimal 5 1)
      then L.narrow (L.decimal 5 1)
      else (if W.greater (W.neg (L.decimal 5 1)) (L.wide symbol)
          then L.narrow (W.neg (L.decimal 5 1))
          else symbol)

  -- From the strengths of the two tones on.
  unfoldable pub compare_tones : Detector F → F → F → Detector F × F
  compare_tones det mark_power space_power =
      let mark_peak = peak mark_power det.mark_peak in
      let space_peak = peak space_power det.space_peak in
      let symbol = clip ((mark_power ⊘ mark_peak) ⊖ (space_power ⊘ space_peak)) in
      let (post_filter, out) = lpf_process L det.post_filter symbol in
      (
        record det { post_filter = post_filter; mark_peak = mark_peak; space_peak = space_peak },
        out,
      )

  -- `behind` is what stands in memory behind the window's buffer.
  unfoldable pub detector_process : List F → Detector F → F → Option (Detector F × F)
  detector_process behind det sample =
      let (pre_filter, filtered) = bpf_process L det.pre_filter sample in
      do
        window ← window_push behind det.sample_window filtered
        mark_power ← goertzel L (contents window) det.sample_rate det.mark_freq none
        space_power ← goertzel L (contents window) det.sample_rate det.space_freq none
        some (
            compare_tones (record det { pre_filter = pre_filter; sample_window = window })
              mark_power space_power)

  -- The detector before its first sample.
  unfoldable pub detector_start : Window F → F → F → F → F → F → F → Detector F
  detector_start window mark_peak space_peak mark_freq space_freq baud_rate sample_rate =
      let center_freq = L.narrow (L.wide (mark_freq ⊕ space_freq) ⊘ L.decimal 2 0) in
      let width = L.narrow (L.wide (L.abs (mark_freq ⊖ space_freq)) ⊗ L.decimal 75 2) in
      record {
        sample_rate = sample_rate;
        center_freq = center_freq;
        pre_filter = bpf_init L 8 (center_freq ⊖ width) (center_freq ⊕ width) sample_rate;
        post_filter = lpf_init L 4 (L.narrow (L.wide baud_rate ⊗ L.decimal 9 1)) sample_rate;
        mark_freq = mark_freq;
        space_freq = space_freq;
        mark_peak = mark_peak;
        space_peak = space_peak;
        sample_window = window;
      }

  abbrev pub silence : F
  silence = L.narrow (L.decimal 0 0)

  abbrev pub first_sample : F
  first_sample = L.narrow (L.decimal 1 3)

  -- The peaks are those that the memory of the detector holds.
  unfoldable pub detector_init : (ℕ → List F) → List F → F → F → F → F → F → F → Option (Detector F)
  detector_init malloc behind mark_peak space_peak mark_freq space_freq baud_rate sample_rate = do
    window ← window_init silence malloc (window_size sample_rate baud_rate) 10
    done ←
        detector_process behind
          (detector_start window mark_peak space_peak mark_freq space_freq baud_rate sample_rate)
          first_sample
    some done.0
