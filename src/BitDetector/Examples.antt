-- ===== src/BitDetector/Examples.antt =====
-- Bits held for sixteen samples.
use modemstuff.Base.{◌≡◌, [], ◌∷◌, arith}
use modemstuff.BitDetector.{bit_detector_init}
use modemstuff.BitDetector.Recovery.{detect, held, detect-held}

detect-held_example :
    detect (bit_detector_init 16) (held 16 (1 ∷ 1 ∷ 0 ∷ 0 ∷ 0 ∷ 1 ∷ []))
    ≡ 1 ∷ 1 ∷ 0 ∷ 0 ∷ 0 ∷ 1 ∷ []
detect-held_example = detect-held 16 (1 ∷ 1 ∷ 0 ∷ 0 ∷ 0 ∷ 1 ∷ []) (omega arith) (omega arith)
