-- ===== src/Dsp/Cascade.antt =====
-- Filters on whole signals. The code takes every sample through all sections; that is the signal
-- taken through one section after the other.
use modemstuff.Base.{suc, ◌≡◌, refl, ap, ◌∙◌, List, [], ◌∷◌, length}
use modemstuff.Dsp.{Arithmetic, Floats}
use modemstuff.Dsp.Filters.{
  Section1, Section2, Bsf, cascade, lpf_section, lpf_process, hpf_section, hpf_process, bpf_section,
  bpf_process, bsf_section, bsf_process,
}

-- A signal, sample by sample.
abbrev pub run : {S F : Type 0} → (S → F → S × F) → S → List F → S × List F
run process s [] = (s, [])
run process s (x ∷ xs) =
    let (s', out) = process s x in let (last, outs) = run process s' xs in (last, out ∷ outs)

pub run-length :
    {S F : Type 0} (process : S → F → S × F) (s : S) (xs : List F)
    → length (run process s xs).1 ≡ length xs
run-length process s [] = refl
run-length process s (x ∷ xs) = ap suc (run-length process (process s x).0 xs)

-- The whole signal through the first section, then through the next.
abbrev pub in_turn : {S F : Type 0} → (S → F → S × F) → List S → List F → List S × List F
in_turn section [] xs = ([], xs)
in_turn section (s ∷ ss) xs =
    let (s', ys) = run section s xs in let (ss', zs) = in_turn section ss ys in (s' ∷ ss', zs)

module _ {S F : Type 0} (section : S → F → S × F) where
  run-no_sections : (xs : List F) → run (cascade section) [] xs ≡ ([], xs)
  run-no_sections [] = refl
  run-no_sections (x ∷ xs) = rw (run-no_sections xs) refl

  -- The first section may run ahead of the others.
  run-first :
      (s : S) (ss : List S) (xs : List F)
      → run (cascade section) (s ∷ ss) xs ≡ (
        (run section s xs).0 ∷ (run (cascade section) ss (run section s xs).1).0,
        (run (cascade section) ss (run section s xs).1).1,
      )
  run-first s ss [] = refl
  run-first s ss (x ∷ xs) =
      let (s', out) = section s x in rw (run-first s' (cascade section ss out).0 xs) refl

  pub run-cascade :
      (ss : List S) (xs : List F) → run (cascade section) ss xs ≡ in_turn section ss xs
  run-cascade [] xs = run-no_sections xs
  run-cascade (s ∷ ss) xs = run-first s ss xs ∙ rw (run-cascade ss (run section s xs).1) refl

module _ {F D : Type 0} ⦃S : Arithmetic F⦄ ⦃W : Arithmetic D⦄ (L : Floats F D) where
  run-bsf_process :
      (bsf : Bsf F) (xs : List F)
      → run (bsf_process L) bsf xs ≡ (
        record bsf { sections = (run (cascade (bsf_section L bsf.r bsf.s)) bsf.sections xs).0 },
        (run (cascade (bsf_section L bsf.r bsf.s)) bsf.sections xs).1,
      )
  unfolding bsf_process
  run-bsf_process bsf [] = refl
  run-bsf_process bsf (x ∷ xs) =
      let (sections, out) = cascade (bsf_section L bsf.r bsf.s) bsf.sections x in
      rw (run-bsf_process (record bsf { sections = sections }) xs) refl

  -- A low-pass, a high-pass, a band-pass and a band-stop filter of any sections, on any signal: taking
  -- every sample through all sections gives the sections and the signal that come of taking the whole
  -- signal through one section after the other.
  pub process-in_turn :
      (lpf hpf : List (Section1 F)) (bpf : List (Section2 F)) (bsf : Bsf F) (xs : List F)
      → (run (lpf_process L) lpf xs ≡ in_turn (lpf_section L) lpf xs)
        × (run (hpf_process L) hpf xs ≡ in_turn (hpf_section L) hpf xs)
        × (run (bpf_process L) bpf xs ≡ in_turn (bpf_section L) bpf xs)
        × (run (bsf_process L) bsf xs ≡ (
          record bsf { sections = (in_turn (bsf_section L bsf.r bsf.s) bsf.sections xs).0 },
          (in_turn (bsf_section L bsf.r bsf.s) bsf.sections xs).1,
        ))
  unfolding lpf_process hpf_process bpf_process
  process-in_turn lpf hpf bpf bsf xs = (
    run-cascade (lpf_section L) lpf xs,
    run-cascade (hpf_section L) hpf xs,
    run-cascade (bpf_section L) bpf xs,
    run-bsf_process bsf xs ∙ rw (run-cascade (bsf_section L bsf.r bsf.s) bsf.sections xs) refl,
  )
