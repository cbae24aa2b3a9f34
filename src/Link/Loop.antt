-- ===== src/Link/Loop.antt =====
-- The loop of `ax25tnc_demodulator_process` is the deframer over the bits that the line decoder makes
-- of what the bit detector returns.
use modemstuff.Base.{
  ℕ, ◌≡◌, refl, ap, List, [], ◌∷◌, Option, Option-cases, none, some, inl, inr, ◌>>=◌, ◌==◌,
  if◌then◌else◌,
}
use modemstuff.Packet.{Packet}
use modemstuff.Deframer
use modemstuff.Deframer.{Deframer}
use modemstuff.Deframer.Bits.{run, deliver}
use modemstuff.Linecode.{NrziDecoder, nrzi_decode}
use modemstuff.Linecode.Inverse.{decode_all, decode_none, decode_some, detected}
use modemstuff.BitDetector.{Symbol, BitDetector, bit_detector_process}
use modemstuff.BitDetector.Recovery.{detect}
use modemstuff.Link.{Demodulator, deframe, demodulate_symbol, demodulator_process}

-- What the bit detector returns, sample by sample.
unfoldable pub bit_signal : BitDetector → List Symbol → List (Option ℕ)
bit_signal d [] = []
bit_signal d (s ∷ ss) = let (d', out) = bit_detector_process d s in out ∷ bit_signal d' ss

pub detected-bit_signal :
    (ss : List Symbol) (d : BitDetector) → detected (bit_signal d ss) ≡ detect d ss
unfolding bit_signal detect
detected-bit_signal [] d = refl
detected-bit_signal (s ∷ ss) d =
    let (d', out) = bit_detector_process d s in
    let rest = detected-bit_signal ss d' in
    elim (Option-cases out) [
      | inl e ↦ rw (e, detect) rest
      | inr (b, e) ↦ rw (e, detect) (ap (λ t. b ∷ t) rest)
    ]

-- What of a demodulator's result is the deframer's.
abbrev pub deframed :
    Option (Demodulator × Packet × List Packet) → Option (Deframer × Packet × List Packet)
deframed none = none
deframed (some (d, packet, packets)) = some (d.deframer, packet, packets)

abbrev around : BitDetector → NrziDecoder → Deframer → Demodulator
around detector decoder deframer = record {
  bit_detector = detector;
  nrzi_decoder = decoder;
  deframer = deframer;
}

deframed-deliver :
    (m : Option (Demodulator × Packet × List Packet)) (packet : Packet) (ret : ℕ)
    → deframed (m >>= λ r. some (r.0, r.1, if ret == 0 then r.2 else packet ∷ r.2))
      ≡ (deframed m >>= λ r. some (r.0, r.1, deliver ret packet r.2))
deframed-deliver none packet ret = refl
deframed-deliver (some r) packet ret = refl

kept : (m : Option (Deframer × Packet × List Packet)) → (m >>= λ r. some (r.0, r.1, r.2)) ≡ m
kept none = refl
kept (some r) = refl

symbol_none :
    (s : Symbol) (detector detector' : BitDetector) (decoder : NrziDecoder) (deframer : Deframer)
    (p : Packet)
    → bit_detector_process detector s ≡ (detector', none)
    → demodulate_symbol (around detector decoder deframer) p s
      ≡ some (around detector' decoder deframer, p, 0)
unfolding demodulate_symbol nrzi_decode
symbol_none s detector detector' decoder deframer p e = rw e

symbol_some :
    (s : Symbol) (detector detector' : BitDetector) (decoder : NrziDecoder) (deframer : Deframer)
    (p : Packet) (level : ℕ)
    → bit_detector_process detector s ≡ (detector', some level)
    → let (decoder', bit) = nrzi_decode decoder (some level) in
      demodulate_symbol (around detector decoder deframer) p s
      ≡ deframe (around detector' decoder' deframer) p bit
unfolding demodulate_symbol nrzi_decode
symbol_some s detector detector' decoder deframer p level e = rw e

deframe_step :
    (detector : BitDetector) (decoder : NrziDecoder) (deframer : Deframer) (p : Packet) (bit : ℕ)
    (ss : List Symbol) (bits : List ℕ)
    → ((deframer' : Deframer) (p' : Packet)
        → deframed (demodulator_process (around detector decoder deframer') p' ss)
          ≡ run deframer' p' bits)
    → deframed (
        deframe (around detector decoder deframer) p (some bit)
        >>= λ (x : Demodulator × Packet × ℕ).
            demodulator_process x.0 x.1 ss >>= λ (y : Demodulator × Packet × List Packet).
            some (y.0, y.1, if x.2 == 0 then y.2 else x.1 ∷ y.2))
      ≡ run deframer p (bit ∷ bits)
unfolding deframe run
deframe_step detector decoder deframer p bit ss bits later =
    elim (Option-cases (Deframer.process deframer p bit)) [
      | inl e ↦ rw e refl
      | inr ((deframer', p', ret), e) ↦
          rw
            (
              e,
              deframed-deliver (demodulator_process (around detector decoder deframer') p' ss) p'
                  ret,
              later deframer' p',
            )
            refl
    ]

nrzi_decode-some :
    (decoder : NrziDecoder) (level : ℕ)
    → (bit : ℕ) × (nrzi_decode decoder (some level) ≡ (record { last_bit = level }, some bit))
unfolding nrzi_decode
nrzi_decode-some decoder level = (_, refl)

-- The loop, faults included, is the deframer's run over the bits that the line decoder gives for
-- what the bit detector returns.
pub demodulator_process-run :
    (ss : List Symbol) (detector : BitDetector) (decoder : NrziDecoder) (deframer : Deframer)
    (p : Packet)
    → deframed (demodulator_process (around detector decoder deframer) p ss)
      ≡ run deframer p (decode_all decoder (bit_signal detector ss))
unfolding demodulator_process bit_signal
demodulator_process-run [] detector decoder deframer p = unfold decode_all run in refl
demodulator_process-run (s ∷ ss) detector decoder deframer p =
    let (detector', out) = bit_detector_process detector s in
    elim (Option-cases out) [
      | inl e ↦
          rw
            (
              symbol_none s detector detector' decoder deframer p (ap (λ o. (detector', o)) e),
              e,
              deframed-deliver (demodulator_process (around detector' decoder deframer) p ss) p 0,
              kept (deframed (demodulator_process (around detector' decoder deframer) p ss)),
              decode_none decoder (bit_signal detector' ss),
            )
            (demodulator_process-run ss detector' decoder deframer p)
      | inr (level, e) ↦
          let (bit, f) = nrzi_decode-some decoder level in
          let decoder' = (nrzi_decode decoder (some level)).0 in
          rw
            (
              symbol_some s detector detector' decoder deframer p level
                  (ap (λ o. (detector', o)) e),
              e,
              f,
              decode_some decoder _ level bit (bit_signal detector' ss) f,
            )
            (deframe_step detector' (record { last_bit = level }) deframer p bit ss _
              (λ deframer' p'.
                demodulator_process-run ss detector' (record { last_bit = level }) deframer' p'))
    ]
