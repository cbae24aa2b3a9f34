-- ===== src/Dsp.antt =====
-- The signal processing of src/modemstuff over any two types of floating-point numbers, the
-- `ms_float` of include/modemstuff/modemstuff.h and `double`, in which the code computes where a
-- literal or M_PI takes part. Oscillator, Goertzel filter and window functions: src/modemstuff/dds.c,
-- goertzel.c and window.c.
pub mod Filters
pub mod Fsk
pub mod Cascade
pub mod Equations
pub mod Keying
pub mod Detection
pub mod Pieces
pub mod Reception
pub mod Samples
mod Examples
use modemstuff.Base.{
  ℕ, zero, suc, ◌+◌, ◌-◌, List, [], ◌∷◌, Option, none, some, Bool, length, if◌then◌else◌, ◌>>=◌,
}

-- The operations of one type. `truncate` is the conversion to `int`, of a number that is not negative.
pub record Arithmetic (A : Type 0) : Type 0 where
  pub add : A → A → A
  pub sub : A → A → A
  pub mul : A → A → A
  pub div : A → A → A
  pub neg : A → A
  pub greater : A → A → Bool
  pub at_least : A → A → Bool
  pub of_int : ℕ → A
  pub truncate : A → ℕ

infixl 60 ◌⊕◌
abbrev pub ◌⊕◌ : {A : Type 0} ⦃a : Arithmetic A⦄ → A → A → A
◌⊕◌ ⦃a⦄ x y = a.add x y

infixl 60 ◌⊖◌
abbrev pub ◌⊖◌ : {A : Type 0} ⦃a : Arithmetic A⦄ → A → A → A
◌⊖◌ ⦃a⦄ x y = a.sub x y

infixl 70 ◌⊗◌
abbrev pub ◌⊗◌ : {A : Type 0} ⦃a : Arithmetic A⦄ → A → A → A
◌⊗◌ ⦃a⦄ x y = a.mul x y

infixl 70 ◌⊘◌
abbrev pub ◌⊘◌ : {A : Type 0} ⦃a : Arithmetic A⦄ → A → A → A
◌⊘◌ ⦃a⦄ x y = a.div x y

-- Single precision, double precision, and the library's functions. `decimal n k` is the literal for
-- `n` with `k` digits behind the point.
pub record Floats (F D : Type 0) : Type 0 where
  pub wide : F → D
  pub narrow : D → F
  pub decimal : ℕ → ℕ → D
  pub pi : D
  pub sin : F → F
  pub cos : F → F
  pub tan : F → F
  pub abs : F → F

pub record Dds (F : Type 0) : Type 0 where
  pub sample_rate : F
  pub frequency : F
  pub phase : F

abbrev pub dds_init : {F : Type 0} → F → F → F → Dds F
dds_init sample_rate frequency phase = record {
  sample_rate = sample_rate;
  frequency = frequency;
  phase = phase;
}

module _ {F D : Type 0} ⦃S : Arithmetic F⦄ ⦃W : Arithmetic D⦄ (L : Floats F D) where
  unfoldable pub dds_get_sample : Dds F → Dds F × F
  dds_get_sample dds =
      let turn = L.decimal 2 0 ⊗ L.pi in
      let omega' = L.narrow (turn ⊗ L.wide dds.frequency ⊘ L.wide dds.sample_rate) in
      let phase = dds.phase ⊕ omega' in
      (
        record dds {
          phase = if W.greater (L.wide phase) turn then L.narrow (L.wide phase ⊖ turn) else phase;
        },
        L.sin (omega' ⊕ dds.phase),
      )

  -- The state of the loop is `q1` and `q2`.
  goertzel_step : F → F × F → F → F × F
  goertzel_step coeff (q1, q2) x = (coeff ⊗ q1 ⊖ q2 ⊕ x, q1)

  unfoldable pub goertzel_loop : F → F × F → List F → F × F
  unfolding goertzel_step
  goertzel_loop coeff q [] = q
  goertzel_loop coeff q (x ∷ xs) = goertzel_loop coeff (goertzel_step coeff q x) xs

  -- The samples times the window's numbers; `none` is a window that is too short.
  unfoldable pub windowed : List F → List F → Option (List F)
  windowed [] window = some []
  windowed (x ∷ xs) [] = none
  windowed (x ∷ xs) (w ∷ ws) = do rest ← windowed xs ws; some ((x ⊗ w) ∷ rest)

  unfoldable pub goertzel_power : F → F × F → ℕ → F
  goertzel_power coeff (q1, q2) num_samples =
      let power = q1 ⊗ q1 ⊕ q2 ⊗ q2 ⊖ q1 ⊗ q2 ⊗ coeff in
      L.narrow (L.wide (power ⊘ S.of_int num_samples) ⊘ L.decimal 2 0)

  unfoldable pub goertzel_coeff : ℕ → F → F → F
  goertzel_coeff num_samples sample_rate frequency =
      let n = S.of_int num_samples in
      let k = W.truncate (L.decimal 5 1 ⊕ L.wide (n ⊗ frequency ⊘ sample_rate)) in
      L.narrow
        (L.decimal 2 0 ⊗ L.wide (L.cos (L.narrow (L.decimal 2 0 ⊗ L.pi ⊗ W.of_int k ⊘ L.wide n))))

  -- `none` for the window is NULL.
  unfoldable pub goertzel : List F → F → F → Option (List F) → Option F
  goertzel samples sample_rate frequency window =
      let n = length samples in
      let coeff = goertzel_coeff n sample_rate frequency in
      let start : F × F = (S.of_int 0, S.of_int 0) in
      do
        xs ← elim window [ none ↦ some samples | some ws ↦ windowed samples ws ]
        some (goertzel_power coeff (goertzel_loop coeff start xs) n)

  unfoldable pub blackman_harris_at : ℕ → ℕ → F
  blackman_harris_at size n =
      let angle = λ (k : ℕ). L.narrow (L.decimal k 0 ⊗ L.pi ⊗ W.of_int n ⊘ W.of_int (size - 1)) in
      let term = λ (a k : ℕ). L.narrow (L.decimal a 5) ⊗ L.cos (angle k) in
      L.narrow (L.decimal 35875 5) ⊖ term 48829 2 ⊕ term 14128 4 ⊖ term 1168 6

  unfoldable pub hann_at : ℕ → ℕ → F
  hann_at size n =
      let angle = L.narrow (L.decimal 2 0 ⊗ L.pi ⊗ W.of_int n ⊘ W.of_int (size - 1)) in
      L.narrow (L.decimal 5 1 ⊗ (L.decimal 1 0 ⊖ L.wide (L.cos angle)))

  -- `count` elements of a window of `size` ones, from `n` on.
  unfoldable pub fill_window : (ℕ → ℕ → F) → ℕ → ℕ → ℕ → List F
  fill_window at size zero n = []
  fill_window at size (suc count) n = at size n ∷ fill_window at size count (n + 1)

  unfoldable pub window_blackman_harris : ℕ → List F
  window_blackman_harris size = fill_window blackman_harris_at size size 0

  unfoldable pub window_hann : ℕ → List F
  window_hann size = fill_window hann_at size size 0
