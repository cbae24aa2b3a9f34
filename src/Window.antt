-- ===== src/Window.antt =====
-- The sliding window of src/modemstuff/window.c and include/modemstuff/window.h, over any samples.
-- `none` as a result is an access outside an array, or a `memcpy` of parts that overlap, which is
-- undefined. `behind` is what stands in memory behind the buffer, of which the code reads the first.
-- Sizes are those of an `int` that does not overflow.
pub mod Slide
pub mod First
pub mod Overread
mod Examples
use modemstuff.Base.{
  ℕ, zero, suc, ◌+◌, ◌*◌, List, [], ◌∷◌, ◌++◌, Option, none, some, length, take, drop, replicate,
  read_n, set, leb, ltb, ◌==◌, if◌then◌else◌, ◌>>=◌,
}

-- `buf` is the whole allocation.
pub record Window {ℓ} (A : Type ℓ) : Type ℓ where
  pub buf : List A
  pub buf_size : ℕ
  pub size : ℕ
  pub head : ℕ
  pub tail : ℕ

-- The `tail` of a moved window, which is -1 for one without samples.
unfoldable pub moved_tail : ℕ → Option ℕ
moved_tail zero = none
moved_tail (suc n) = some n

module _ {ℓ} {A : Type ℓ} where
  -- `malloc` gives memory for so many samples, whatever they are.
  unfoldable pub window_init : A → (ℕ → List A) → ℕ → ℕ → Option (Window A)
  window_init silence malloc size buf_oversizing =
      let buf_size = size * buf_oversizing + 1 in
      if ltb buf_size size
      then none
      else some (record {
        buf = replicate size silence ++ drop size (malloc buf_size);
        buf_size = buf_size;
        size = size;
        head = 0;
        tail = size;
      })

  -- `memcpy(buf, buf + from, n)`
  copy_down : List A → List A → ℕ → ℕ → Option (List A)
  copy_down buf behind from n =
      if ltb from n
      then none
      else (do copied ← read_n n (drop from (buf ++ behind)); some (copied ++ drop n buf))

  -- `head` is the one after `window->head++`, which follows -1 when the window was moved.
  put_sample : Window A → List A → ℕ → ℕ → A → Option (Window A)
  put_sample w buf head tail sample =
      if ltb tail (length buf)
      then some (record w { buf = set buf tail sample; head = head; tail = tail + 1 })
      else none

  unfoldable pub window_push : List A → Window A → A → Option (Window A)
  unfolding copy_down put_sample
  window_push behind w sample =
      if w.head + w.size == w.buf_size
      then (do
        buf ← copy_down w.buf behind (w.head + 1) w.size
        tail ← moved_tail w.size
        put_sample w buf 0 tail sample)
      else put_sample w w.buf (w.head + 1) w.tail sample

  -- The samples that the detector is given: `size` of them from `buf + head` on.
  abbrev pub contents : Window A → List A
  contents w = take w.size (drop w.head w.buf)
