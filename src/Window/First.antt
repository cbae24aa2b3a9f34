-- ===== src/Window/First.antt =====
-- The first push into a window of src/modemstuff/window.c.
use modemstuff.Base.{
  ℕ, ◌+◌, ◌*◌, ◌≤◌, ◌<◌, ◌≡◌, refl, true, false, List, ◌++◌, some, arith, length, length-append,
  length-drop, length-replicate, drop, replicate, set, ltb, ◌==◌,
}
use native.Mathlib.Nat.{mul-le-mul_left}
use modemstuff.Window.{Window, window_init, put_sample, window_push}

module _ {ℓ} {A : Type ℓ} where
  -- The first push goes behind the window, which stands at the beginning of the buffer.
  pub window_push-first :
      (silence : A) (malloc : ℕ → List A) (size oversizing : ℕ) (behind : List A) (x : A)
      → ((n : ℕ) → length (malloc n) ≡ n)
      → 1 ≤ size
      → 2 ≤ oversizing
      → (w w' : Window A) × (window_init silence malloc size oversizing ≡ some w)
        × (window_push behind w x ≡ some w')
  unfolding window_init window_push put_sample
  window_push-first silence malloc size oversizing behind x m s o =
      let n = size * oversizing + 1 in
      let buf = replicate size silence ++ drop size (malloc n) in
      let twice : 2 * size ≤ size * oversizing = omega (arith, mul-le-mul_left size o) in
      let fits : ltb n size ≡ false = ground arith in
      let more : (0 + size == n) ≡ false = ground arith in
      let room : size < length buf = omega (
        arith,
        length-append (replicate size silence) (drop size (malloc n)),
        length-replicate size silence,
        length-drop size (malloc n),
        m n,
      ) in
      let test : ltb size (length buf) ≡ true = ground arith in
      (
        record { buf = buf; buf_size = n; size = size; head = 0; tail = size },
        record { buf = set buf size x; buf_size = n; size = size; head = 0 + 1; tail = size + 1 },
        rw fits refl,
        rw (more, test) refl,
      )
