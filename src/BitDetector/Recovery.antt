-- ===== src/BitDetector/Recovery.antt =====
-- A signal that holds each bit for one period is sampled once per bit.
use modemstuff.Base.{
  ℕ, zero, suc, ◌+◌, ◌-◌, ◌/◌, ◌≤◌, ◌≡◌, refl, ap, ◌∙◌, IsBit, true, false, List, [], ◌∷◌, ◌++◌,
  Option, none, some, arith, All, replicate, replicate-add, append_assoc, if◌then◌else◌, Bool-cases,
  inl, inr,
}
use modemstuff.BitDetector.{
  Symbol, positive, not_positive, BitDetector, bit_of_symbol, is_last, bit_detector_init,
  bit_detector_process,
}

-- The bits that are returned over a signal, without the samples that carry none.
unfoldable pub detect : BitDetector → List Symbol → List ℕ
detect d [] = []
detect d (s ∷ ss) =
    let (d', out) = bit_detector_process d s in
    let rest = detect d' ss in elim out [ none ↦ rest | some bit ↦ bit ∷ rest ]

abbrev pub symbol_of : ℕ → Symbol
symbol_of zero = not_positive
symbol_of (suc n) = positive

-- Each bit, held for that many samples.
abbrev pub held : ℕ → List ℕ → List Symbol
held period [] = []
held period (b ∷ bs) = replicate period (symbol_of b) ++ held period bs

abbrev at : ℕ → ℕ → ℕ → BitDetector
at period samples last = record {
  bit_period = period;
  samples_to_return = samples;
  last_bit = some last;
}

same_symbol : (b : ℕ) → IsBit b → bit_of_symbol (symbol_of b) ≡ b
same_symbol zero h = refl
same_symbol (suc zero) h = refl
same_symbol (suc (suc b)) h = absurd (omega arith)

detect-none :
    (d d' : BitDetector) (x : Symbol) (rest : List Symbol)
    → bit_detector_process d x ≡ (d', none)
    → detect d (x ∷ rest) ≡ detect d' rest
unfolding detect
detect-none d d' x rest e = rw (e, detect) (rw e)

detect-some :
    (d d' : BitDetector) (x : Symbol) (bit : ℕ) (rest : List Symbol)
    → bit_detector_process d x ≡ (d', some bit)
    → detect d (x ∷ rest) ≡ bit ∷ detect d' rest
unfolding detect
detect-some d d' x bit rest e = rw (e, detect) (rw e)

module _ (period b : ℕ) (bit : IsBit b) where
  process_count :
      (n : ℕ) → bit_detector_process (at period (suc n) b) (symbol_of b) ≡ (at period n b, none)
  unfolding bit_detector_process
  process_count n = ground (arith, same_symbol b bit)

  process_return : bit_detector_process (at period 0 b) (symbol_of b) ≡ (at period period b, some b)
  unfolding bit_detector_process
  process_return = ground (arith, same_symbol b bit)

  process_change :
      (samples : ℕ) (last : Option ℕ)
      → is_last last b ≡ false
      → bit_detector_process
          (record { bit_period = period; samples_to_return = samples; last_bit = last })
          (symbol_of b)
        ≡ (at period (period / 2) b, none)
  unfolding bit_detector_process
  process_change samples last n = rw (same_symbol b bit, n)

  -- While the level stays, the counter runs down.
  detect_wait :
      (n m k : ℕ) (rest : List Symbol)
      → k ≡ n + m
      → detect (at period k b) (replicate n (symbol_of b) ++ rest) ≡ detect (at period m b) rest
  detect_wait zero m k rest e = let same : k ≡ m = omega arith in rw same
  detect_wait (suc n) m zero rest e = absurd (omega arith)
  detect_wait (suc n) m (suc k) rest e =
      detect-none _ _ _ _ (process_count k) ∙ detect_wait n m k rest (omega arith)

  -- A stretch that reaches the end of the count and goes on for `more` samples gives one bit.
  detect_stretch :
      (n more k left : ℕ) (rest : List Symbol)
      → n ≡ k + 1 + more
      → period ≡ more + left
      → detect (at period k b) (replicate n (symbol_of b) ++ rest)
        ≡ b ∷ detect (at period left b) rest
  detect_stretch n more k left rest e f =
      let stretch = symbol_of b in
      let split : replicate n stretch ≡ replicate k stretch ++ (stretch ∷ replicate more stretch) =
        replicate-add k (suc more) n stretch (omega arith) in
      rw (split, append_assoc (replicate k stretch) (stretch ∷ replicate more stretch) rest)
        (detect_wait k 0 k (stretch ∷ (replicate more stretch ++ rest)) (omega arith)
          ∙ detect-some _ _ _ b _ process_return
          ∙ ap (λ t. b ∷ t) (detect_wait more left period rest f))

-- The place of each bit in its run of equal bits leaves time to sample it: one sample more passes
-- between two returns than a bit lasts.
abbrev pub InTime : ℕ → Option ℕ → ℕ → List ℕ → Type 0
InTime period last place [] = Unit
InTime period last place (b ∷ bs) =
    let place' : ℕ = if is_last last b then place + 1 else 1 in
    (place' + 1 + period / 2 ≤ period) × InTime period (some b) place' bs

is_last-some : (last : Option ℕ) (b : ℕ) → is_last last b ≡ true → last ≡ some b
is_last-some none b h = cc
is_last-some (some l) b h = ap some (ground arith)

-- A bit of a run that has begun: one bit is returned for it.
held_step :
    (period b : ℕ) (bs : List ℕ) (last : Option ℕ) (place samples place' : ℕ)
    → IsBit b
    → place' ≡ (if is_last last b then place + 1 else 1)
    → (is_last last b ≡ true → samples ≡ period / 2 + 1 + place)
    → place' + 1 + period / 2 ≤ period
    → detect
        (record { bit_period = period; samples_to_return = samples; last_bit = last })
        (held period (b ∷ bs))
      ≡ b ∷ detect (at period (period / 2 + 1 + place') b) (held period bs)
held_step period b bs last place samples place' bit e count fits =
    elim (Bool-cases (is_last last b)) [
      | inl again ↦
          let k = period / 2 + 1 + place in
          let grown : place' ≡ place + 1 = rw again at e in
          let known = count again in
          rw (is_last-some last b again, known)
            (detect_stretch period b bit period (period - k - 1) k (period / 2 + 1 + place')
              (held period bs) (omega arith) (omega arith))
      | inr fresh ↦
          let first : place' ≡ 1 = rw fresh at e in
          let split = replicate-add 1 (period - 1) period (symbol_of b) (omega arith) in
          rw split (
            detect-none _ _ _ _ (process_change period b bit samples last fresh)
            ∙ detect_stretch period b bit (period - 1) (period - 1 - period / 2 - 1) (period / 2)
                (period / 2 + 1 + place') (held period bs) (omega arith) (omega arith))
    ]

held_lem :
    (period : ℕ) (bits : List ℕ) (last : Option ℕ) (place samples : ℕ)
    → All IsBit bits
    → InTime period last place bits
    → ((b : ℕ) → is_last last b ≡ true → samples ≡ period / 2 + 1 + place)
    → detect
        (record { bit_period = period; samples_to_return = samples; last_bit = last })
        (held period bits)
      ≡ bits
held_lem period [] last place samples h t count = unfold detect in refl
held_lem period (b ∷ bs) last place samples h t count =
    let place' : ℕ = if is_last last b then place + 1 else 1 in
    held_step period b bs last place samples place' h.0 refl (count b) t.0
    ∙ ap (λ u. b ∷ u)
        (held_lem period bs (some b) place' (period / 2 + 1 + place') h.1 t.1 (λ _ _. refl))

-- If every bit is held for one period, and no run of equal bits is longer than its place allows,
-- the detector returns exactly the bits, in order, from its initial state on.
pub detect-held :
    (period : ℕ) (bits : List ℕ)
    → All IsBit bits
    → InTime period none 0 bits
    → detect (bit_detector_init period) (held period bits) ≡ bits
unfolding bit_detector_init
detect-held period bits h t = held_lem period bits none 0 0 h t (λ b e. absurd (cc))
