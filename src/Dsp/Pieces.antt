-- ===== src/Dsp/Pieces.antt =====
-- The detector on a signal that arrives in pieces.
use modemstuff.Base.{suc, ◌≡◌, refl, ap, ◌∙◌, List, [], ◌∷◌, ◌++◌, some, length, ◌>>=◌, >>=-eq-some}
use modemstuff.Dsp.{Arithmetic, Floats}
use modemstuff.Dsp.Fsk.{Detector, detector_process}
use modemstuff.Dsp.Detection.{detect_all}

module _ {F D : Type 0} ⦃S : Arithmetic F⦄ ⦃W : Arithmetic D⦄ (L : Floats F D) where
  detect_all-cons :
      (behind xs : List F) (x : F) (det det₁ det' : Detector F) (symbol : F) (symbols : List F)
      → detector_process L behind det x ≡ some (det₁, symbol)
      → detect_all L behind det₁ xs ≡ some (det', symbols)
      → detect_all L behind det (x ∷ xs) ≡ some (det', symbol ∷ symbols)
  unfolding detect_all
  detect_all-cons behind xs x det det₁ det' symbol symbols e f = rw (e, f) refl

  -- The symbols of a signal in two parts.
  pub detect_all-append :
      (behind xs ys : List F) (det last : Detector F) (symbols : List F)
      → detect_all L behind det (xs ++ ys) ≡ some (last, symbols)
      → (det' : Detector F) × (first second : List F) × (detect_all L behind det xs
          ≡ some (det', first))
        × (detect_all L behind det' ys ≡ some (last, second))
        × (symbols ≡ first ++ second)
        × (length first ≡ length xs)
  unfolding detect_all
  detect_all-append behind [] ys det last symbols e = (det, [], symbols, refl, e, refl, refl)
  detect_all-append behind (x ∷ xs) ys det last symbols e =
      let ((det₁, symbol), f, rest) =
        >>=-eq-some (detector_process L behind det x)
          (λ r. detect_all L behind r.0 (xs ++ ys) >>= λ q. some (q.0, r.1 ∷ q.1)) e in
      let ((last', others), g, h) =
        >>=-eq-some (detect_all L behind det₁ (xs ++ ys)) (λ q. some (q.0, symbol ∷ q.1)) rest in
      let same : last' ≡ last = cc in
      let all : symbols ≡ symbol ∷ others = cc in
      let (det', first, second, p, q, parts, len) =
        detect_all-append behind xs ys det₁ last' others g in
      (
        det',
        symbol ∷ first,
        second,
        detect_all-cons behind xs x det det₁ det' symbol first f p,
        q ∙ ap (λ d. some (d, second)) same,
        all ∙ ap (λ t. symbol ∷ t) parts,
        ap suc len,
      )

  pub detect_all-none :
      (behind : List F) (det last : Detector F) (symbols : List F)
      → detect_all L behind det [] ≡ some (last, symbols)
      → [] ≡ symbols
  unfolding detect_all
  detect_all-none behind det last symbols e = cc
