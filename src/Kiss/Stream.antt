-- ===== src/Kiss/Stream.antt =====
-- A stream of bytes through the decoder, as `kiss_data_callback` of apps/ax25tnc/ax25tnc.c feeds
-- it, and what one byte does to a decoder that is reading a frame.
use modemstuff.Base.{
  ℕ, ◌+◌, ◌≤◌, ◌<◌, ◌≡◌, refl, ◌∙◌, inl, inr, true, List, [], ◌∷◌, ◌++◌, Option, Option-cases,
  false, none, some, ◌>>=◌, arith, fill, length, set, ◌==◌, Bool-cases,
}
use modemstuff.Kiss.{
  Decoder, Message, reading, decoder_buffer_size, kiss_end, kiss_esc, kiss_esc_end, kiss_esc_esc,
  reading_escaped, process, escape,
}

abbrev pub emit : Option Message → List Message → List Message
emit none ms = ms
emit (some m) ms = m ∷ ms

-- The decoder after the bytes, and the messages that went to the callback, in order.
unfoldable pub run : Decoder → List ℕ → Option (Decoder × List Message)
run d [] = some (d, [])
run d (byte ∷ bytes) = do (d', m) ← process d byte; (d'', ms) ← run d' bytes; some (d'', emit m ms)

-- A decoder in the middle of a frame.
abbrev pub in_frame : List ℕ → ℕ → Decoder
in_frame buf pos = record { state = reading; buffer = buf; buffer_pos = pos; has_callback = true }

-- A byte that completes no frame.
pub run_silent :
    (d d' : Decoder) (byte : ℕ) (bytes : List ℕ)
    → process d byte ≡ some (d', none)
    → run d (byte ∷ bytes) ≡ run d' bytes
unfolding run
run_silent d d' byte bytes e =
    rw e (elim (Option-cases (run d' bytes)) [ inl f ↦ rw f | inr (r, f) ↦ rw f ])

-- A byte that completes a frame.
pub run_message :
    (d d' : Decoder) (byte : ℕ) (bytes : List ℕ) (m : Message) {last : Decoder} {ms : List Message}
    → process d byte ≡ some (d', some m)
    → run d' bytes ≡ some (last, ms)
    → run d (byte ∷ bytes) ≡ some (last, m ∷ ms)
unfolding run
run_message d d' byte bytes m e f = rw (e, f)

abbrev after_escape : List ℕ → ℕ → Decoder
after_escape buf pos = record (in_frame buf pos) { state = reading_escaped }

module _ (buf : List ℕ) (pos : ℕ) (room : pos < decoder_buffer_size) where
  pub process_plain :
      (x : ℕ)
      → (x == kiss_end) ≡ false
      → (x == kiss_esc) ≡ false
      → process (in_frame buf pos) x ≡ some (in_frame (set buf pos x) (pos + 1), none)
  unfolding process
  process_plain x n m = ground arith

  process_escape : process (in_frame buf pos) kiss_esc ≡ some (after_escape buf pos, none)
  unfolding process
  process_escape = refl

  process_escaped_end :
      (x : ℕ)
      → (x == kiss_end) ≡ true
      → process (after_escape buf pos) kiss_esc_end
        ≡ some (in_frame (set buf pos x) (pos + 1), none)
  unfolding process
  process_escaped_end x h = ground arith

  process_escaped_esc :
      (x : ℕ)
      → (x == kiss_esc) ≡ true
      → process (after_escape buf pos) kiss_esc_esc
        ≡ some (in_frame (set buf pos x) (pos + 1), none)
  unfolding process
  process_escaped_esc x h = ground arith

-- The escaped data bytes are stored as they were, one after another.
pub run-escape :
    (xs : List ℕ) (buf : List ℕ) (pos end : ℕ) (rest : List ℕ)
    → pos + length xs ≡ end
    → end ≤ decoder_buffer_size
    → run (in_frame buf pos) (escape xs ++ rest) ≡ run (in_frame (fill buf pos xs) end) rest
unfolding escape
run-escape [] buf pos end rest e h = let e' : end ≡ pos = omega arith in rw e'
run-escape (x ∷ xs) buf pos end rest e h =
    let room : pos < decoder_buffer_size = omega arith in
    let later = run-escape xs (set buf pos x) (pos + 1) end rest (omega arith) h in
    elim (Bool-cases (x == kiss_end)) [
      | inl a ↦ rw a (
          run_silent _ _ _ _ (process_escape buf pos room)
          ∙ run_silent _ _ _ _ (process_escaped_end buf pos room x a)
          ∙ later)
      | inr n ↦ elim (Bool-cases (x == kiss_esc)) [
        | inl a ↦
            rw (n, a)
              (run_silent _ _ _ _ (process_escape buf pos room)
                ∙ run_silent _ _ _ _ (process_escaped_esc buf pos room x a)
                ∙ later)
        | inr m ↦ rw (n, m) (run_silent _ _ _ _ (process_plain buf pos room x n m) ∙ later)
      ]
    ]
