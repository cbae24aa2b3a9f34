-- ===== src/Dsp/Reception.antt =====
-- The demodulator of apps/ax25tnc/demodulator.c from samples on.
use modemstuff.Base.{
  ℕ, All, ◌≤◌, ◌≡◌, refl, ◌∙◌, List, [], ◌∷◌, map, Option, Option-cases, none, some, inl, inr,
  length, ◌==◌, if◌then◌else◌, ◌>>=◌, >>=-eq-some,
}
use modemstuff.Packet.{Packet}
use modemstuff.Packet.Shape.{IsShaped}
use modemstuff.Deframer.Safety.{IsValid, IsReceived}
use modemstuff.BitDetector.{Symbol, positive, not_positive}
use modemstuff.Link.{Demodulator, demodulate_symbol, demodulator_process}
use modemstuff.Link.Safety.{demodulator_process_total}
use modemstuff.Dsp.{Arithmetic, Floats}
use modemstuff.Dsp.Fsk.{Detector, detector_process, detector_init, window_size}
use modemstuff.Dsp.Detection.{detect_all, detect_all-contents}

module _ {F D : Type 0} ⦃S : Arithmetic F⦄ ⦃W : Arithmetic D⦄ (L : Floats F D) where
  -- What the bit detector asks of a symbol.
  unfoldable pub sign : F → Symbol
  sign symbol = if W.greater (L.wide symbol) (L.decimal 0 0) then positive else not_positive

  -- The loop; the packets that went to the callback are collected in order.
  unfoldable pub demodulator_samples :
      List F
      → Detector F
      → Demodulator
      → Packet
      → List F
      → Option (Detector F × Demodulator × Packet × List Packet)
  demodulator_samples behind det d packet [] = some (det, d, packet, [])
  demodulator_samples behind det d packet (x ∷ xs) = do
    (det', symbol) ← detector_process L behind det x
    (d', packet', ret) ← demodulate_symbol d packet (sign symbol)
    (det'', d'', packet'', packets) ← demodulator_samples behind det' d' packet' xs
    some (det'', d'', packet'', if ret == 0 then packets else packet' ∷ packets)

  abbrev pub Result : Type 0
  Result = Detector F × Demodulator × Packet × List Packet

  -- A demodulator's result with the detector's.
  abbrev pub beside : Detector F → Demodulator × Packet × List Packet → Result
  beside det (d, packet, packets) = (det, d, packet, packets)

  abbrev add_packet : Packet → ℕ → Result → Option Result
  add_packet p ret (det, d, packet, packets) =
      some (det, d, packet, if ret == 0 then packets else p ∷ packets)

  regroup :
      (m : Option (Demodulator × Packet × List Packet)) (det : Detector F) (p : Packet) (ret : ℕ)
      → ((m >>= λ r. some (beside det r)) >>= add_packet p ret) ≡ (
          (m >>= λ r. some (r.0, r.1, if ret == 0 then r.2 else p ∷ r.2)) >>= λ r.
          some (beside det r))
  regroup none det p ret = refl
  regroup (some r) det p ret = refl

  -- The detector may run ahead of the rest.
  pub demodulator_samples-process :
      (behind : List F) (xs : List F) (det det' : Detector F) (symbols : List F) (d : Demodulator)
      (p : Packet)
      → detect_all L behind det xs ≡ some (det', symbols)
      → demodulator_samples behind det d p xs
        ≡ (demodulator_process d p (map sign symbols) >>= λ r. some (beside det' r))
  unfolding demodulator_samples detect_all demodulator_process
  demodulator_samples-process behind [] det det' symbols d p e =
      let same : det ≡ det' = cc in let nothing : [] ≡ symbols = cc in rw (← same, ← nothing) refl
  demodulator_samples-process behind (x ∷ xs) det det' symbols d p e =
      let ((det₁, symbol), f, rest) =
        >>=-eq-some (detector_process L behind det x)
          (λ r. detect_all L behind r.0 xs >>= λ q. some (q.0, r.1 ∷ q.1)) e in
      let ((last, others), g, h) =
        >>=-eq-some (detect_all L behind det₁ xs) (λ q. some (q.0, symbol ∷ q.1)) rest in
      let same : det' ≡ last = cc in
      let all : symbols ≡ symbol ∷ others = cc in
      elim (Option-cases (demodulate_symbol d p (sign symbol))) [
        | inl fault ↦ rw (f, all, fault) refl
        | inr ((d', p', ret), k) ↦
            rw (f, all, k, demodulator_samples-process behind xs det₁ last others d' p' g, same)
              (regroup (demodulator_process d' p' (map sign others)) last p' ret)
      ]

  -- A demodulator for at least one sample a bit, whatever the memory of its detector and that around
  -- the window's buffer held, with a deframer and storage for a packet whose arrays have the right
  -- sizes, is initialised, and if the sample behind that buffer can be read, it takes any samples without
  -- a fault. The packets that it hands over have addresses with a terminator and counts within their
  -- arrays, and take at most 255 bytes.
  pub demodulator_samples_total :
      (malloc : ℕ → List F) (b : F) (behind : List F)
      (mark_peak space_peak mark_freq space_freq baud_rate sample_rate : F) (d : Demodulator)
      (p : Packet) (xs : List F)
      → ((n : ℕ) → length (malloc n) ≡ n)
      → 1 ≤ window_size sample_rate baud_rate
      → IsValid d.deframer
      → IsShaped p
      → (start : Detector F) × (r : Result) × (detector_init L malloc
            (b ∷ behind)
            mark_peak
            space_peak
            mark_freq
            space_freq
            baud_rate
            sample_rate
          ≡ some start)
        × (demodulator_samples (b ∷ behind) start d p xs ≡ some r)
        × All IsReceived r.3
  demodulator_samples_total malloc b behind mark_peak space_peak mark_freq space_freq baud_rate
        sample_rate d p xs m h v o =
      let (start, det, symbols, i, all, count, holds) =
        detect_all-contents L mark_peak space_peak mark_freq space_freq baud_rate sample_rate malloc
          b behind xs m h in
      let (q, f, valid, received) = demodulator_process_total (map sign symbols) d p v o in
      (
        start,
        beside det q,
        i,
        demodulator_samples-process (b ∷ behind) xs start det symbols d p all ∙ rw f refl,
        received,
      )
