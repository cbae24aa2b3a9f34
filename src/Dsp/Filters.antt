-- ===== src/Dsp/Filters.antt =====
-- The Butterworth filters of src/modemstuff/butterworth.c. The arrays of `n` elements of a filter
-- are one list of `n` sections, `A` is `gain`, and `w0` is the number that a section computes.
use modemstuff.Base.{ℕ, zero, suc, ◌+◌, ◌/◌, List, [], ◌∷◌}
use modemstuff.Dsp.{Arithmetic, Floats, ◌⊕◌, ◌⊖◌, ◌⊗◌, ◌⊘◌}

pub record Section1 (F : Type 0) : Type 0 where
  pub gain : F
  pub d1 : F
  pub d2 : F
  pub w0 : F
  pub w1 : F
  pub w2 : F

pub record Section2 (F : Type 0) : Type 0 where
  pub gain : F
  pub d1 : F
  pub d2 : F
  pub d3 : F
  pub d4 : F
  pub w0 : F
  pub w1 : F
  pub w2 : F
  pub w3 : F
  pub w4 : F

-- The numbers `r` and `s` of a band-stop filter stand beside its sections.
pub record Bsf (F : Type 0) : Type 0 where
  pub sections : List (Section2 F)
  pub r : F
  pub s : F

-- A sample on its way through the sections.
abbrev pub cascade : {S F : Type 0} → (S → F → S × F) → List S → F → List S × F
cascade section [] sample = ([], sample)
cascade section (s ∷ ss) sample =
    let (s', out) = section s sample in let (ss', last) = cascade section ss out in (s' ∷ ss', last)

-- `n` sections from the `i`th on.
abbrev pub build : {S : Type 0} → (ℕ → S) → ℕ → ℕ → List S
build section zero i = []
build section (suc n) i = section i ∷ build section n (i + 1)

module _ {F D : Type 0} ⦃S : Arithmetic F⦄ ⦃W : Arithmetic D⦄ (L : Floats F D) where
  unfoldable pub radius : ℕ → ℕ → F
  radius n i = L.sin (
      L.narrow (L.pi ⊗ (L.decimal 2 0 ⊗ W.of_int i ⊕ L.decimal 1 0) ⊘ (L.decimal 4 0 ⊗ W.of_int n)))

  unfoldable pub cutoff_tan : F → F → F
  cutoff_tan cutoff_freq sample_rate =
      L.tan (L.narrow (L.pi ⊗ L.wide cutoff_freq ⊘ L.wide sample_rate))

  unfoldable pub lpf_or_hpf_s : F → F → F
  lpf_or_hpf_s a r =
      let a2 = a ⊗ a in L.narrow (L.wide a2 ⊕ L.decimal 2 0 ⊗ L.wide r ⊗ L.wide a ⊕ L.decimal 1 0)

  -- All but the gain is the same in a low-pass and a high-pass filter.
  unfoldable pub lpf_or_hpf_section : F → F → F → F → Section1 F
  lpf_or_hpf_section gain a r s =
      let a2 = a ⊗ a in
      record {
        gain = gain;
        d1 = L.narrow (L.decimal 2 0 ⊗ (L.decimal 1 0 ⊖ L.wide a2) ⊘ L.wide s);
        d2 =
            L.narrow
              (W.neg (L.wide a2 ⊖ L.decimal 2 0 ⊗ L.wide r ⊗ L.wide a ⊕ L.decimal 1 0) ⊘ L.wide s);
        w0 = S.of_int 0;
        w1 = S.of_int 0;
        w2 = S.of_int 0;
      }

  unfoldable pub lpf_init : ℕ → F → F → List (Section1 F)
  lpf_init order cutoff_freq sample_rate =
      let n = order / 2 in
      let a = cutoff_tan cutoff_freq sample_rate in
      build
        (λ i.
          let r = radius n i in let s = lpf_or_hpf_s a r in lpf_or_hpf_section (a ⊗ a ⊘ s) a r s)
        n 0

  unfoldable pub hpf_init : ℕ → F → F → List (Section1 F)
  hpf_init order cutoff_freq sample_rate =
      let n = order / 2 in
      let a = cutoff_tan cutoff_freq sample_rate in
      build
        (λ i.
          let r = radius n i in
          let s = lpf_or_hpf_s a r in
          lpf_or_hpf_section (L.narrow (L.decimal 1 0 ⊘ L.wide s)) a r s)
        n 0

  unfoldable pub shift1 : Section1 F → F → Section1 F
  shift1 f w0 = record f { w0 = w0; w1 = w0; w2 = f.w1 }

  unfoldable pub lpf_section : Section1 F → F → Section1 F × F
  lpf_section f sample =
      let w0 = f.d1 ⊗ f.w1 ⊕ f.d2 ⊗ f.w2 ⊕ sample in
      (
        shift1 f w0,
        L.narrow (L.wide f.gain ⊗ (L.wide w0 ⊕ L.decimal 2 0 ⊗ L.wide f.w1 ⊕ L.wide f.w2)),
      )

  unfoldable pub lpf_process : List (Section1 F) → F → List (Section1 F) × F
  lpf_process = cascade lpf_section

  unfoldable pub hpf_section : Section1 F → F → Section1 F × F
  hpf_section f sample =
      let w0 = f.d1 ⊗ f.w1 ⊕ f.d2 ⊗ f.w2 ⊕ sample in
      (
        shift1 f w0,
        L.narrow (L.wide f.gain ⊗ (L.wide w0 ⊖ L.decimal 2 0 ⊗ L.wide f.w1 ⊕ L.wide f.w2)),
      )

  unfoldable pub hpf_process : List (Section1 F) → F → List (Section1 F) × F
  hpf_process = cascade hpf_section

  -- The numbers `a` and `b` of a band's limits.
  unfoldable pub band_a : F → F → F → F
  band_a fl fu s =
      L.cos (L.narrow (L.pi ⊗ L.wide (fu ⊕ fl) ⊘ L.wide s))
      ⊘ L.cos (L.narrow (L.pi ⊗ L.wide (fu ⊖ fl) ⊘ L.wide s))

  unfoldable pub band_b : F → F → F → F
  band_b fl fu s = L.tan (L.narrow (L.pi ⊗ L.wide (fu ⊖ fl) ⊘ L.wide s))

  -- A section without its gain; `x` and `y` are the factors of `2.0`.
  unfoldable pub band_s : F → F → F → F
  band_s b x y =
      let b2 = b ⊗ b in L.narrow (L.wide b2 ⊕ L.decimal 2 0 ⊗ L.wide x ⊗ L.wide y ⊕ L.decimal 1 0)

  unfoldable pub band_section : F → F → F → F → F → F → F → Section2 F
  band_section gain a b r s x y =
      let a2 = a ⊗ a in
      let b2 = b ⊗ b in
      record {
        gain = gain;
        d1 = L.narrow (L.decimal 4 0 ⊗ L.wide a ⊗ (L.decimal 1 0 ⊕ L.wide (b ⊗ r)) ⊘ L.wide s);
        d2 =
            L.narrow
              (L.decimal 2 0 ⊗ (L.wide b2 ⊖ L.decimal 2 0 ⊗ L.wide a2 ⊖ L.decimal 1 0) ⊘ L.wide s);
        d3 = L.narrow (L.decimal 4 0 ⊗ L.wide a ⊗ (L.decimal 1 0 ⊖ L.wide (b ⊗ r)) ⊘ L.wide s);
        d4 =
            L.narrow
              (W.neg (L.wide b2 ⊖ L.decimal 2 0 ⊗ L.wide x ⊗ L.wide y ⊕ L.decimal 1 0) ⊘ L.wide s);
        w0 = S.of_int 0;
        w1 = S.of_int 0;
        w2 = S.of_int 0;
        w3 = S.of_int 0;
        w4 = S.of_int 0;
      }

  unfoldable pub bpf_init : ℕ → F → F → F → List (Section2 F)
  bpf_init order low_cutoff_freq high_cutoff_freq sample_rate =
      let n = order / 4 in
      let a = band_a low_cutoff_freq high_cutoff_freq sample_rate in
      let b = band_b low_cutoff_freq high_cutoff_freq sample_rate in
      build
        (λ i. let r = radius n i in let s = band_s b r b in band_section (b ⊗ b ⊘ s) a b r s r b) n
        0

  unfoldable pub bsf_init : ℕ → F → F → F → Bsf F
  bsf_init order low_cutoff_freq high_cutoff_freq sample_rate =
      let n = order / 4 in
      let a = band_a low_cutoff_freq high_cutoff_freq sample_rate in
      let b = band_b low_cutoff_freq high_cutoff_freq sample_rate in
      record {
        sections =
            build
              (λ i.
                let r = radius n i in
                let s = band_s b b r in
                band_section (L.narrow (L.decimal 1 0 ⊘ L.wide s)) a b r s b r)
              n 0;
        r = L.narrow (L.decimal 4 0 ⊗ L.wide a);
        s = L.narrow (L.decimal 4 0 ⊗ L.wide (a ⊗ a) ⊕ L.decimal 2 0);
      }

  unfoldable pub band_w0 : Section2 F → F → F
  band_w0 f sample = f.d1 ⊗ f.w1 ⊕ f.d2 ⊗ f.w2 ⊕ f.d3 ⊗ f.w3 ⊕ f.d4 ⊗ f.w4 ⊕ sample

  unfoldable pub shift2 : Section2 F → F → Section2 F
  shift2 f w0 = record f { w0 = w0; w1 = w0; w2 = f.w1; w3 = f.w2; w4 = f.w3 }

  unfoldable pub bpf_section : Section2 F → F → Section2 F × F
  bpf_section f sample =
      let w0 = band_w0 f sample in
      (
        shift2 f w0,
        L.narrow (L.wide f.gain ⊗ (L.wide w0 ⊖ L.decimal 2 0 ⊗ L.wide f.w2 ⊕ L.wide f.w4)),
      )

  unfoldable pub bpf_process : List (Section2 F) → F → List (Section2 F) × F
  bpf_process = cascade bpf_section

  unfoldable pub bsf_section : F → F → Section2 F → F → Section2 F × F
  bsf_section r s f sample =
      let w0 = band_w0 f sample in
      (shift2 f w0, f.gain ⊗ (w0 ⊖ r ⊗ f.w1 ⊕ s ⊗ f.w2 ⊖ r ⊗ f.w3 ⊕ f.w4))

  unfoldable pub bsf_process : Bsf F → F → Bsf F × F
  bsf_process bsf sample =
      let (sections, out) = cascade (bsf_section bsf.r bsf.s) bsf.sections sample in
      (record bsf { sections = sections }, out)
