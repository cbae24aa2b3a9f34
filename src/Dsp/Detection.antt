-- ===== src/Dsp/Detection.antt =====
-- The detector on a whole signal.
use modemstuff.Base.{
  ℕ, suc, ◌≤◌, ◌≡◌, refl, ap, ◌∙◌, List, [], ◌∷◌, ◌++◌, Option, none, some, length, drop, replicate,
  ◌>>=◌, >>=-eq-some, arith,
}
use modemstuff.Window.{Window, window_init, window_push, contents}
use modemstuff.Window.Slide.{push_all, push_all-contents}
use modemstuff.Window.First.{window_push-first}
use modemstuff.Dsp.{
  Arithmetic, Floats, ◌⊕◌, ◌⊖◌, ◌⊗◌, ◌⊘◌, goertzel, goertzel_coeff, goertzel_power, goertzel_loop,
}
use modemstuff.Dsp.Filters.{bpf_init, bpf_process}
use modemstuff.Dsp.Fsk.{
  Detector, compare_tones, detector_process, window_size, detector_start, silence, first_sample,
  detector_init,
}
use modemstuff.Dsp.Cascade.{run, run-length}

module _ {F D : Type 0} ⦃S : Arithmetic F⦄ ⦃W : Arithmetic D⦄ (L : Floats F D) where
  -- The detector's results for some samples.
  unfoldable pub detect_all : List F → Detector F → List F → Option (Detector F × List F)
  detect_all behind det [] = some (det, [])
  detect_all behind det (x ∷ xs) = do
    (det', symbol) ← detector_process L behind det x
    (last, symbols) ← detect_all behind det' xs
    some (last, symbol ∷ symbols)

  goertzel_total :
      (samples : List F) (sample_rate frequency : F)
      → (power : F) × (goertzel L samples sample_rate frequency none ≡ some power)
  unfolding goertzel
  goertzel_total samples sample_rate frequency =
      let n = length samples in
      let coeff = goertzel_coeff L n sample_rate frequency in
      (goertzel_power L coeff (goertzel_loop L coeff (S.of_int 0, S.of_int 0) samples) n, refl)

  detector_process_lem :
      (behind : List F) (det : Detector F) (x : F) (w : Window F)
      → window_push behind det.sample_window (bpf_process L det.pre_filter x).1 ≡ some w
      → (det' : Detector F) × (symbol : F) × (detector_process L behind det x ≡ some (det', symbol))
        × (det'.sample_window ≡ w)
        × (det'.pre_filter ≡ (bpf_process L det.pre_filter x).0)
  unfolding detector_process compare_tones
  detector_process_lem behind det x w e =
      let pre = (bpf_process L det.pre_filter x).0 in
      let (mark, p) = goertzel_total (contents w) det.sample_rate det.mark_freq in
      let (space, q) = goertzel_total (contents w) det.sample_rate det.space_freq in
      let (det', symbol) =
        compare_tones L (record det { pre_filter = pre; sample_window = w }) mark space in
      (det', symbol, rw (e, p, q) refl, refl, refl)

  detect_all_lem :
      (behind : List F) (xs : List F) (det : Detector F) (w : Window F)
      → push_all behind det.sample_window (run (bpf_process L) det.pre_filter xs).1 ≡ some w
      → (det' : Detector F) × (symbols : List F) × (detect_all behind det xs ≡ some (det', symbols))
        × (det'.sample_window ≡ w)
        × (length symbols ≡ length xs)
  unfolding push_all detect_all
  detect_all_lem behind [] det w e = (det, [], refl, cc, refl)
  detect_all_lem behind (x ∷ xs) det w e =
      let (pre, filtered) = bpf_process L det.pre_filter x in
      let (w₁, p, rest) =
        >>=-eq-some (window_push behind det.sample_window filtered)
          (λ w'. push_all behind w' (run (bpf_process L) pre xs).1) e in
      let (det', symbol, f, same, pre_same) = detector_process_lem behind det x w₁ p in
      let rest' : push_all behind det'.sample_window (run (bpf_process L) det'.pre_filter xs).1
          ≡ some w =
        rw (same, pre_same) rest in
      let (last, symbols, g, same', count) = detect_all_lem behind xs det' w rest' in
      (last, symbol ∷ symbols, rw (f, g) refl, same', ap suc count)

module _ {F D : Type 0} ⦃S : Arithmetic F⦄ ⦃W : Arithmetic D⦄ (L : Floats F D)
    (mark_peak space_peak mark_freq space_freq baud_rate sample_rate : F) where
  -- The signal behind the filter in front of the detector.
  abbrev pub pre_filtered : List F → List F
  pre_filtered xs =
      let width = L.narrow (L.wide (L.abs (mark_freq ⊖ space_freq)) ⊗ L.decimal 75 2) in
      let center = L.narrow (L.wide (mark_freq ⊕ space_freq) ⊘ L.decimal 2 0) in
      (run (bpf_process L) (bpf_init L 8 (center ⊖ width) (center ⊕ width) sample_rate) xs).1

  -- The initialisation reads nothing behind the window's buffer.
  pub detector_init_total :
      (malloc : ℕ → List F) (behind : List F)
      → ((n : ℕ) → length (malloc n) ≡ n)
      → 1 ≤ window_size sample_rate baud_rate
      → (start : Detector F) × (detector_init L malloc behind mark_peak space_peak mark_freq
            space_freq baud_rate sample_rate
          ≡ some start)
  unfolding detector_init detector_start
  detector_init_total malloc behind m h =
      let size = window_size sample_rate baud_rate in
      let before = λ (w : Window F).
        detector_start L w mark_peak space_peak mark_freq space_freq baud_rate sample_rate in
      let width = L.narrow (L.wide (L.abs (mark_freq ⊖ space_freq)) ⊗ L.decimal 75 2) in
      let center = L.narrow (L.wide (mark_freq ⊕ space_freq) ⊘ L.decimal 2 0) in
      let filter = bpf_init L 8 (center ⊖ width) (center ⊕ width) sample_rate in
      let filtered = (bpf_process L filter (first_sample L)).1 in
      let (w₀, w₁, i, p) =
        window_push-first (silence L) malloc size 10 behind filtered m h (omega arith) in
      let (start, symbol, f, same, pre_same) =
        detector_process_lem L behind (before w₀) (first_sample L) w₁ p in
      (start, rw (i, f) refl)

  -- A detector for at least one sample a bit, whatever its memory and that around its window's buffer
  -- held, is initialised, and if the sample behind that buffer can be read, it takes any samples without
  -- a fault, and gives a symbol for each. Its window then holds the last of the silence it began with,
  -- the sample of the initialisation and these, behind the first filter.
  pub detect_all-contents :
      (malloc : ℕ → List F) (b : F) (behind : List F) (xs : List F)
      → ((n : ℕ) → length (malloc n) ≡ n)
      → 1 ≤ window_size sample_rate baud_rate
      → (start det : Detector F) × (symbols : List F) × (detector_init L malloc
            (b ∷ behind)
            mark_peak
            space_peak
            mark_freq
            space_freq
            baud_rate
            sample_rate
          ≡ some start)
        × (detect_all L (b ∷ behind) start xs ≡ some (det, symbols))
        × (length symbols ≡ length xs)
        × (contents det.sample_window
            ≡ drop (suc (length xs)) (
                replicate (window_size sample_rate baud_rate) (silence L)
                ++ pre_filtered (first_sample L ∷ xs)))
  unfolding detector_init detector_start push_all
  detect_all-contents malloc b behind xs m h =
      let size = window_size sample_rate baud_rate in
      let memory = b ∷ behind in
      let ys = pre_filtered (first_sample L ∷ xs) in
      let (w, e, c) = push_all-contents (silence L) b behind malloc size 10 ys m h (omega arith) in
      let (w₀, i, pushed) =
        >>=-eq-some (window_init (silence L) malloc size 10) (λ w₀. push_all memory w₀ ys) e in
      let begin =
        detector_start L w₀ mark_peak space_peak mark_freq space_freq baud_rate sample_rate in
      let (pre, filtered) = bpf_process L begin.pre_filter (first_sample L) in
      let (w₁, p, rest) =
        >>=-eq-some (window_push memory w₀ filtered)
          (λ w'. push_all memory w' (run (bpf_process L) pre xs).1) pushed in
      let (start, symbol, f, same, pre_same) =
        detector_process_lem L memory begin (first_sample L) w₁ p in
      let rest' : push_all memory start.sample_window (run (bpf_process L) start.pre_filter xs).1
          ≡ some w =
        rw (same, pre_same) rest in
      let (det, symbols, g, same', count) = detect_all_lem L memory xs start w rest' in
      let len : length ys ≡ suc (length xs) = ap suc (run-length (bpf_process L) pre xs) in
      (
        start,
        det,
        symbols,
        rw (i, f) refl,
        g,
        count,
        rw same' (c ∙ ap (λ (k : ℕ). drop k (replicate size (silence L) ++ ys)) len),
      )
