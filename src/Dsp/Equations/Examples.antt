-- ===== src/Dsp/Equations/Examples.antt =====
-- Filters over whole numbers, each section with numbers from before.
use modemstuff.Base.{ℕ, ◌≡◌, refl, [], ◌∷◌}
use modemstuff.Dsp.Filters.{
  Section1, Section2, Bsf, shift1, lpf_section, lpf_process, hpf_process, bpf_process, bsf_process,
}
use modemstuff.Dsp.Samples.{whole, floats}
use modemstuff.Dsp.Cascade.{run}
use modemstuff.Dsp.Equations.{
  through, equation1, equation2, low_out, high_out, band_out, stop_out, process-equations,
}

abbrev section1 : Section1 ℕ
section1 = record { gain = 1; d1 = 1; d2 = 0; w0 = 0; w1 = 0; w2 = 0 }

abbrev section2 : Section2 ℕ
section2 = record {
  gain = 1;
  d1 = 1;
  d2 = 0;
  d3 = 0;
  d4 = 1;
  w0 = 0;
  w1 = 0;
  w2 = 0;
  w3 = 0;
  w4 = 0;
}

abbrev band_stop : Bsf ℕ
band_stop = record { sections = section2 ∷ []; r = 1; s = 2 }

-- Two sections in a row, each with its own memory.
two_sections : (run (lpf_process floats) (section1 ∷ section1 ∷ []) (1 ∷ 2 ∷ [])).1 ≡ 1 ∷ 8 ∷ []
unfolding lpf_process lpf_section shift1
two_sections = refl

process-equations_example :
    ((run (lpf_process floats) (section1 ∷ section1 ∷ []) (1 ∷ 2 ∷ [])).1
      ≡ through (equation1 floats (low_out floats)) (section1 ∷ section1 ∷ []) (1 ∷ 2 ∷ []))
    × ((run (hpf_process floats) (section1 ∷ []) (1 ∷ 2 ∷ [])).1
        ≡ through (equation1 floats (high_out floats)) (section1 ∷ []) (1 ∷ 2 ∷ []))
    × ((run (bpf_process floats) (section2 ∷ section2 ∷ []) (1 ∷ 2 ∷ [])).1
        ≡ through (equation2 floats (band_out floats)) (section2 ∷ section2 ∷ []) (1 ∷ 2 ∷ []))
    × ((run (bsf_process floats) band_stop (1 ∷ 2 ∷ [])).1
        ≡ through (equation2 floats (stop_out floats 1 2)) (section2 ∷ []) (1 ∷ 2 ∷ []))
process-equations_example =
    process-equations floats (section1 ∷ section1 ∷ []) (section1 ∷ []) (section2 ∷ section2 ∷ [])
      band_stop (1 ∷ 2 ∷ [])
