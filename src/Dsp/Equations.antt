-- ===== src/Dsp/Equations.antt =====
-- The filters of src/modemstuff/butterworth.c as difference equations over all that was computed before.
mod Examples
use modemstuff.Base.{ℕ, zero, suc, ◌≡◌, refl, ap, ◌∙◌, List, [], ◌∷◌}
use modemstuff.Dsp.{Arithmetic, Floats, ◌⊕◌, ◌⊖◌, ◌⊗◌}
use modemstuff.Dsp.Filters.{
  Section1, Section2, Bsf, shift1, shift2, band_w0, lpf_section, lpf_process, hpf_section,
  hpf_process, bpf_section, bpf_process, bsf_section, bsf_process,
}
use modemstuff.Dsp.Cascade.{run, in_turn, process-in_turn}

-- A signal taken through one equation after the other.
abbrev pub through : {S F : Type 0} → (S → List F → List F) → List S → List F → List F
through equation [] xs = xs
through equation (s ∷ ss) xs = through equation ss (equation s xs)

in_turn-through :
    {S F : Type 0} (section : S → F → S × F) (equation : S → List F → List F)
    → ((s : S) (xs : List F) → (run section s xs).1 ≡ equation s xs)
    → (ss : List S) (xs : List F) → (in_turn section ss xs).1 ≡ through equation ss xs
in_turn-through section equation h [] xs = refl
in_turn-through section equation h (s ∷ ss) xs =
    in_turn-through section equation h ss (run section s xs).1 ∙ ap (through equation ss) (h s xs)

module _ {F D : Type 0} ⦃S : Arithmetic F⦄ ⦃W : Arithmetic D⦄ (L : Floats F D) where
  -- The number from so many steps ago.
  abbrev pub ago : ℕ → List F → F
  ago k [] = S.of_int 0
  ago zero (v ∷ vs) = v
  ago (suc k) (v ∷ vs) = ago k vs

  -- `past` is all numbers so far, the last one first: `next` makes a new one of them and a sample, and
  -- `out` a sample of them.
  abbrev pub solve : (List F → F → F) → (List F → F) → List F → List F → List F
  solve next out past [] = []
  solve next out past (x ∷ xs) =
      let v = next past x in out (v ∷ past) ∷ solve next out (v ∷ past) xs

  -- w[n] = d1 w[n-1] + d2 w[n-2] + x[n]
  abbrev pub next1 : F → F → List F → F → F
  next1 d1 d2 past x = d1 ⊗ ago 0 past ⊕ d2 ⊗ ago 1 past ⊕ x

  -- w[n] = d1 w[n-1] + d2 w[n-2] + d3 w[n-3] + d4 w[n-4] + x[n]
  abbrev pub next2 : F → F → F → F → List F → F → F
  next2 d1 d2 d3 d4 past x =
      d1 ⊗ ago 0 past ⊕ d2 ⊗ ago 1 past ⊕ d3 ⊗ ago 2 past ⊕ d4 ⊗ ago 3 past ⊕ x

  -- y[n] = A (w[n] + 2 w[n-1] + w[n-2])
  abbrev pub low_out : F → List F → F
  low_out gain w =
      L.narrow
        (L.wide gain ⊗ (L.wide (ago 0 w) ⊕ L.decimal 2 0 ⊗ L.wide (ago 1 w) ⊕ L.wide (ago 2 w)))

  -- y[n] = A (w[n] - 2 w[n-1] + w[n-2])
  abbrev pub high_out : F → List F → F
  high_out gain w =
      L.narrow
        (L.wide gain ⊗ (L.wide (ago 0 w) ⊖ L.decimal 2 0 ⊗ L.wide (ago 1 w) ⊕ L.wide (ago 2 w)))

  -- y[n] = A (w[n] - 2 w[n-2] + w[n-4])
  abbrev pub band_out : F → List F → F
  band_out gain w =
      L.narrow
        (L.wide gain ⊗ (L.wide (ago 0 w) ⊖ L.decimal 2 0 ⊗ L.wide (ago 2 w) ⊕ L.wide (ago 4 w)))

  -- y[n] = A (w[n] - r w[n-1] + s w[n-2] - r w[n-3] + w[n-4])
  abbrev pub stop_out : F → F → F → List F → F
  stop_out r s gain w = gain ⊗ (ago 0 w ⊖ r ⊗ ago 1 w ⊕ s ⊗ ago 2 w ⊖ r ⊗ ago 3 w ⊕ ago 4 w)

  -- A section's equation, from the numbers on that it holds.
  abbrev pub equation1 : (F → List F → F) → Section1 F → List F → List F
  equation1 out f = solve (next1 f.d1 f.d2) (out f.gain) (f.w1 ∷ f.w2 ∷ [])

  abbrev pub equation2 : (F → List F → F) → Section2 F → List F → List F
  equation2 out f = solve (next2 f.d1 f.d2 f.d3 f.d4) (out f.gain) (f.w1 ∷ f.w2 ∷ f.w3 ∷ f.w4 ∷ [])

  lpf_section-solve :
      (f : Section1 F) (older xs : List F)
      → (run (lpf_section L) f xs).1
        ≡ solve (next1 f.d1 f.d2) (low_out f.gain) (f.w1 ∷ f.w2 ∷ older) xs
  unfolding lpf_section shift1
  lpf_section-solve f older [] = refl
  lpf_section-solve f older (x ∷ xs) =
      let (f', out) = lpf_section L f x in
      ap (λ t. out ∷ t) (lpf_section-solve f' (f.w2 ∷ older) xs)

  hpf_section-solve :
      (f : Section1 F) (older xs : List F)
      → (run (hpf_section L) f xs).1
        ≡ solve (next1 f.d1 f.d2) (high_out f.gain) (f.w1 ∷ f.w2 ∷ older) xs
  unfolding hpf_section shift1
  hpf_section-solve f older [] = refl
  hpf_section-solve f older (x ∷ xs) =
      let (f', out) = hpf_section L f x in
      ap (λ t. out ∷ t) (hpf_section-solve f' (f.w2 ∷ older) xs)

  bpf_section-solve :
      (f : Section2 F) (older xs : List F)
      → (run (bpf_section L) f xs).1
        ≡ solve (next2 f.d1 f.d2 f.d3 f.d4) (band_out f.gain) (f.w1 ∷ f.w2 ∷ f.w3 ∷ f.w4 ∷ older) xs
  unfolding bpf_section shift2 band_w0
  bpf_section-solve f older [] = refl
  bpf_section-solve f older (x ∷ xs) =
      let (f', out) = bpf_section L f x in
      ap (λ t. out ∷ t) (bpf_section-solve f' (f.w4 ∷ older) xs)

  bsf_section-solve :
      (r s : F) (f : Section2 F) (older xs : List F)
      → (run (bsf_section L r s) f xs).1
        ≡ solve
            (next2 f.d1 f.d2 f.d3 f.d4)
            (stop_out r s f.gain)
            (f.w1 ∷ f.w2 ∷ f.w3 ∷ f.w4 ∷ older)
            xs
  unfolding bsf_section shift2 band_w0
  bsf_section-solve r s f older [] = refl
  bsf_section-solve r s f older (x ∷ xs) =
      let (f', out) = bsf_section L r s f x in
      ap (λ t. out ∷ t) (bsf_section-solve r s f' (f.w4 ∷ older) xs)

  -- A low-pass, a high-pass, a band-pass and a band-stop filter of any sections, on any signal: the
  -- samples that come out one by one are the signal taken through the difference equation of one section
  -- after the other, each with the coefficients and the past numbers of its section, where the past is
  -- the whole list of numbers computed so far and not the two or four that a section keeps.
  pub process-equations :
      (lpf hpf : List (Section1 F)) (bpf : List (Section2 F)) (bsf : Bsf F) (xs : List F)
      → ((run (lpf_process L) lpf xs).1 ≡ through (equation1 low_out) lpf xs)
        × ((run (hpf_process L) hpf xs).1 ≡ through (equation1 high_out) hpf xs)
        × ((run (bpf_process L) bpf xs).1 ≡ through (equation2 band_out) bpf xs)
        × ((run (bsf_process L) bsf xs).1
            ≡ through (equation2 (stop_out bsf.r bsf.s)) bsf.sections xs)
  process-equations lpf hpf bpf bsf xs =
      let (low, high, band, stop) = process-in_turn L lpf hpf bpf bsf xs in
      (
        ap (λ t. t.1) low
            ∙ in_turn-through (lpf_section L) (equation1 low_out) (λ f. lpf_section-solve f []) lpf
                xs,
        ap (λ t. t.1) high
            ∙ in_turn-through (hpf_section L) (equation1 high_out) (λ f. hpf_section-solve f []) hpf
                xs,
        ap (λ t. t.1) band
            ∙ in_turn-through (bpf_section L) (equation2 band_out) (λ f. bpf_section-solve f []) bpf
                xs,
        ap (λ t. t.1) stop
            ∙ in_turn-through (bsf_section L bsf.r bsf.s) (equation2 (stop_out bsf.r bsf.s))
                (λ f. bsf_section-solve bsf.r bsf.s f []) bsf.sections xs,
      )
