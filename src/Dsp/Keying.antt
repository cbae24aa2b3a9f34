-- ===== src/Dsp/Keying.antt =====
-- The tones of a run of bits.
use modemstuff.Base.{
  ◌==◌, if◌then◌else◌, concat, ℕ, zero, suc, ◌+◌, ◌<◌, ◌≤◌, ◌≡◌, refl, sym, ap, ◌∙◌, take,
  append_assoc, append-nil, List, [], ◌∷◌, ◌++◌, Option, none, some, ◌↔◌, All, length, replicate,
  ◌>>=◌, arith,
}
use native.Mathlib.Decide.{dec_lt}
use modemstuff.Packet.{Packet}
use modemstuff.Framer.{Framer}
use modemstuff.Link.{Modulator, modulator_process}
use modemstuff.Dsp.{Arithmetic, Floats, Dds, dds_get_sample}
use modemstuff.Dsp.Fsk.{Generator, put_at, tone, samples_count, write_samples, generator_process}

-- The array of the modulator.
abbrev pub max_samples : ℕ
max_samples = 512

put_at_lem :
    {F : Type 0} (i : ℕ) (x : F) (xs : List F)
    → i < length xs
    → (ys : List F) × (put_at i x xs ≡ some ys)
      × (length ys ≡ length xs)
      × (take (i + 1) ys ≡ take i xs ++ (x ∷ []))
unfolding put_at
put_at_lem i x [] h = absurd (omega arith)
put_at_lem zero x (y ∷ ys) h = (x ∷ ys, refl, refl, refl)
put_at_lem (suc i) x (y ∷ ys) h =
    let (zs, e, len, held) = put_at_lem i x ys (omega arith) in
    let more : suc i + 1 ≡ suc (i + 1) = omega arith in
    (y ∷ zs, rw e refl, ap suc len, ap (λ (k : ℕ). take k (y ∷ zs)) more ∙ ap (λ t. y ∷ t) held)

put_at-none : {F : Type 0} (i : ℕ) (x : F) (xs : List F) → length xs ≤ i → put_at i x xs ≡ none
unfolding put_at
put_at-none i x [] h = refl
put_at-none zero x (y ∷ ys) h = absurd (omega arith)
put_at-none (suc i) x (y ∷ ys) h = rw (put_at-none i x ys (omega arith)) refl

module _ {F D : Type 0} ⦃S : Arithmetic F⦄ ⦃W : Arithmetic D⦄ (L : Floats F D) where
  -- So many samples of an oscillator.
  unfoldable pub dds_samples : ℕ → Dds F → Dds F × List F
  dds_samples zero dds = (dds, [])
  dds_samples (suc n) dds =
      let (dds', sample) = dds_get_sample L dds in
      let (last, samples) = dds_samples n dds' in (last, sample ∷ samples)

  -- What the callback gets for each of the bits, through the array `out_samples`.
  unfoldable pub key_all : Generator F → List F → List ℕ → Option (Generator F × List (List F))
  key_all gen out_samples [] = some (gen, [])
  key_all gen out_samples (bit ∷ bits) = do
    (gen', written, count) ← generator_process L gen bit out_samples
    (last, blocks) ← key_all gen' written bits
    some (last, take count written ∷ blocks)

  -- The blocks of samples that the callback gets for a packet. `samples` is what the memory of the
  -- array held.
  unfoldable pub modulator_samples :
      Generator F → Modulator → Framer → List F → Packet → Option (Generator F × List (List F))
  modulator_samples gen mod' storage samples packet = do
    levels ← modulator_process mod' storage packet
    key_all gen samples levels

  -- One oscillator that gives a sample for every one of some frequencies.
  abbrev pub sweep : Dds F → List F → Dds F × List F
  sweep dds [] = (dds, [])
  sweep dds (f ∷ fs) =
      let (dds', sample) = dds_get_sample L (record dds { frequency = f }) in
      let (last, samples) = sweep dds' fs in (last, sample ∷ samples)

  -- The frequency of every sample.
  abbrev pub frequencies : Generator F → List ℕ → List F
  frequencies gen [] = []
  frequencies gen (bit ∷ bits) =
      replicate (samples_count gen) (if bit == 1 then gen.mark_freq else gen.space_freq)
      ++ frequencies gen bits

  -- Only the next frequency counts.
  sweep-frequency :
      (dds : Dds F) (f : F) (fs : List F)
      → (sweep (record dds { frequency = f }) fs).1 ≡ (sweep dds fs).1
  sweep-frequency dds f [] = refl
  sweep-frequency dds f (g ∷ fs) = refl

  dds_samples-sweep :
      (n : ℕ) (f : F) (dds : Dds F) (fs : List F)
      → (dds_samples n (record dds { frequency = f })).1
          ++ (sweep (dds_samples n (record dds { frequency = f })).0 fs).1
        ≡ (sweep dds (replicate n f ++ fs)).1
  unfolding dds_samples dds_get_sample
  dds_samples-sweep zero f dds fs = sweep-frequency dds f fs
  dds_samples-sweep (suc n) f dds fs =
      let (dds', sample) = dds_get_sample L (record dds { frequency = f }) in
      ap (λ t. sample ∷ t) (dds_samples-sweep n f dds' fs)

  dds_samples-length : (n : ℕ) (dds : Dds F) → length (dds_samples n dds).1 ≡ n
  unfolding dds_samples
  dds_samples-length zero dds = refl
  dds_samples-length (suc n) dds = ap suc (dds_samples-length n (dds_get_sample L dds).0)

  -- Blocks for some bits, of so many samples each, that are one oscillator's.
  pub record IsKeyed (gen : Generator F) (bits : List ℕ) (blocks : List (List F)) : Type 0 where
    pub count : length blocks ≡ length bits
    pub lengths : All (λ block. length block ≡ samples_count gen) blocks
    pub samples : concat blocks ≡ (sweep gen.fsk_dds (frequencies gen bits)).1

  -- The loop over the array fills the part in front of `i + n`.
  write_samples_lem :
      (n i : ℕ) (dds : Dds F) (out : List F)
      → i + n ≤ length out
      → (out' : List F) × (write_samples L n i dds out ≡ some ((dds_samples n dds).0, out'))
        × (length out' ≡ length out)
        × (take (i + n) out' ≡ take i out ++ (dds_samples n dds).1)
  unfolding write_samples dds_samples
  write_samples_lem zero i dds out h =
      (out, refl, refl, ap (λ (k : ℕ). take k out) (omega arith) ∙ sym (append-nil (take i out)))
  write_samples_lem (suc n) i dds out h =
      let (dds', sample) = dds_get_sample L dds in
      let (one, put, len, held) = put_at_lem i sample out (omega arith) in
      let (out', e, len', held') = write_samples_lem n (i + 1) dds' one (omega arith) in
      let same : i + suc n ≡ i + 1 + n = omega arith in
      (
        out',
        rw put e,
        len' ∙ len,
        ap (λ (k : ℕ). take k out') same
            ∙ held'
            ∙ ap (λ t. t ++ (dds_samples n dds').1) held
            ∙ append_assoc (take i out) (sample ∷ []) (dds_samples n dds').1,
      )

  write_samples-none :
      (n i : ℕ) (dds : Dds F) (out : List F)
      → i ≤ length out
      → length out < i + n
      → write_samples L n i dds out ≡ none
  unfolding write_samples
  write_samples-none zero i dds out h more = absurd (omega arith)
  write_samples-none (suc n) i dds out h more =
      let (dds', sample) = dds_get_sample L dds in
      elim (dec_lt i (length out)) [
        | yes inside ↦
            let (one, put, len, held) = put_at_lem i sample out inside in
            rw put (write_samples-none n (i + 1) dds' one (omega arith) (omega arith))
        | no outside ↦ rw (put_at-none i sample out (omega arith)) refl
      ]

  pub key_all-sweep :
      (gen : Generator F) (out : List F) (bits : List ℕ)
      → samples_count gen ≤ length out
      → (gen' : Generator F) × (blocks : List (List F)) × (key_all gen out bits
          ≡ some (gen', blocks))
        × IsKeyed gen bits blocks
  unfolding key_all generator_process tone samples_count
  key_all-sweep gen out [] h =
      (gen, [], refl, record { count = refl; lengths = tt; samples = refl })
  key_all-sweep gen out (bit ∷ bits) h =
      let n = samples_count gen in
      let dds = record gen.fsk_dds { frequency = tone gen bit } in
      let one = dds_samples n dds in
      let (written, put, len, held) = write_samples_lem n 0 dds out (omega arith) in
      let block : take n written ≡ one.1 = ap (λ (k : ℕ). take k written) (omega arith) ∙ held in
      let (last, blocks, e, keyed) =
        key_all-sweep (record gen { fsk_dds = one.0 }) written bits (omega arith) in
      (
        last,
        one.1 ∷ blocks,
        rw (put, e, block) refl,
        record {
          count = ap suc keyed.count;
          lengths = (dds_samples-length n dds, keyed.lengths);
          samples =
              ap (λ t. one.1 ++ t) keyed.samples
              ∙ dds_samples-sweep n (tone gen bit) gen.fsk_dds (frequencies gen bits);
        },
      )

  -- Keying some bits writes outside of the array just when a bit has more samples than it.
  pub key_all-none :
      (gen : Generator F) (out : List F) (bit : ℕ) (bits : List ℕ)
      → (key_all gen out (bit ∷ bits) ≡ none) ↔ (length out < samples_count gen)
  unfolding key_all generator_process tone samples_count
  key_all-none gen out bit bits = elim (dec_lt (length out) (samples_count gen)) [
    | yes more ↦
        let dds = record gen.fsk_dds { frequency = tone gen bit } in
        let fault = write_samples-none (samples_count gen) 0 dds out (omega arith) (omega arith) in
        (λ e. more, λ h. rw fault refl)
    | no enough ↦
        let (last, blocks, e, keyed) = key_all-sweep gen out (bit ∷ bits) (omega arith) in
        (λ e'. absurd (let wrong = e' ∙ refl in cc), λ h. absurd (enough h))
  ]

  -- If a bit's samples fit the array, a packet that is framed and line coded without a fault is keyed
  -- without one: the callback gets as many blocks as there are levels, each of a bit's length, and they
  -- are the samples of one oscillator, which keeps its phase from bit to bit and has the mark's
  -- frequency for ones and the space's for others.
  pub modulator_samples-sweep :
      (gen : Generator F) (mod' : Modulator) (storage : Framer) (samples : List F) (packet : Packet)
      (levels : List ℕ)
      → length samples ≡ max_samples
      → samples_count gen ≤ max_samples
      → modulator_process mod' storage packet ≡ some levels
      → (gen' : Generator F) × (blocks : List (List F)) × (modulator_samples gen mod' storage
            samples packet
          ≡ some (gen', blocks))
        × IsKeyed gen levels blocks
  unfolding modulator_samples
  modulator_samples-sweep gen mod' storage samples packet levels array h e =
      let (gen', blocks, f, keyed) = key_all-sweep gen samples levels (omega arith) in
      (gen', blocks, rw e f, keyed)
