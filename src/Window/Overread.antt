-- ===== src/Window/Overread.antt =====
-- The `memcpy` of ms_window_push reads `size` samples from the one behind the head on.
use modemstuff.Base.{
  ℕ, zero, suc, ◌+◌, ◌<◌, ◌≡◌, ◌↔◌, Bool-cases, inl, inr, refl, true, false, List, [], ◌∷◌, ◌++◌,
  append-nil, none, arith, length, length-drop, drop, read_n, ltb, ◌==◌,
}
use modemstuff.Window.{Window, copy_down, put_sample, window_push}
use modemstuff.Window.Slide.{IsValid}

module _ {ℓ} {A : Type ℓ} where
  read_n_short : (n : ℕ) (xs : List A) → length xs < n → read_n n xs ≡ none
  read_n_short zero xs h = absurd (omega arith)
  read_n_short (suc n) [] h = refl
  read_n_short (suc n) (x ∷ xs) h = rw (read_n_short n xs (omega arith))

  -- A push into a well-formed window accesses memory outside of the buffer just when the window stands
  -- at the end of the buffer.
  pub window_push-outside :
      (w : Window A) (x : A)
      → IsValid w
      → (window_push [] w x ≡ none) ↔ (w.head + w.size ≡ w.buf_size)
  unfolding window_push put_sample copy_down
  window_push-outside w x v = elim (Bool-cases (w.head + w.size == w.buf_size)) [
    | inl full ↦
        let at_end : w.head + w.size ≡ w.buf_size = ground arith in
        let from = w.head + 1 in
        let apart : ltb from w.size ≡ false = ground (arith, v.room) in
        let short : length (drop from (w.buf ++ [])) < w.size =
          rw (append-nil w.buf)
            (omega (arith, length-drop from w.buf, v.array, v.some_size, v.inside, v.span)) in
        (
          λ e. at_end,
          λ e. rw (full, apart, read_n_short w.size (drop from (w.buf ++ [])) short) refl,
        )
    | inr more ↦
        let before : ¬ (w.head + w.size ≡ w.buf_size) = ground arith in
        let inside : ltb w.tail (length w.buf) ≡ true = ground (arith, v.array, v.span, v.inside) in
        (λ e. absurd (let wrong = rw (more, inside) at e in cc), λ e. absurd (before e))
  ]
