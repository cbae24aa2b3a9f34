-- ===== src/Kiss/RoundTrip.antt =====
-- What `hs_kiss_encode` writes and what `hs_kiss_decoder_process` makes of it.
use native.Mathlib.Nat.{le_refl}
use modemstuff.Base.{
  take_all, ℕ, suc, ◌+◌, ◌-◌, ◌*◌, ◌^◌, ◌≤◌, ◌<◌, ◌≡◌, ◌≢◌, refl, ap, ◌∙◌, ◌⊎◌, inl, inr, true,
  false, bit_or_comm, bit_or_shifted, List, [], ◌∷◌, ◌++◌, map, append_assoc, Option, none, some,
  ◌>>=◌, arith, length, take, drop, get_elem?, read_n, fill, length-fill, take-fill, read_n-take,
  length-take, All, ◌==◌, ==-false, Bool-cases, if◌then◌else◌,
}
use modemstuff.Kiss.{
  Decoder, Message, undefined, reading, decoder_buffer_size, kiss_end, kiss_esc, header, interpret,
  process, process_frame, escape, encode,
}
use modemstuff.Kiss.Safety.{IsValid, process_frame_total}
use modemstuff.Kiss.Stream.{run, in_frame, run_silent, run_message, run-escape, process_plain}

-- A message that fits the decoder's buffer, with a first byte that is no special one.
pub record IsSendable (m : Message) : Type 0 where
  pub port_nibble : m.port < 16
  pub command_nibble : m.command < 16
  pub not_end : m.port * 16 + m.command ≢ 0xc0
  pub not_esc : m.port * 16 + m.command ≢ 0xdb
  pub not_return : m.port * 16 + m.command ≢ 0xff
  pub written : m.data_length ≤ length m.payload
  pub fits : m.data_length < decoder_buffer_size

-- Between two frames.
pub record IsReady (d : Decoder) : Type 0 where
  pub valid : IsValid d
  pub callback : d.has_callback ≡ true
  pub fresh : (d.state ≡ undefined) ⊎ ((d.state ≡ reading) × (d.buffer_pos ≡ 0))

-- The message as it arrives: only the used part of the data array is sent.
abbrev pub received : Message → Message
received m = record m { payload = take m.data_length m.payload }

pub header_eq : (m : Message) → m.port < 16 → m.command < 16 → header m ≡ m.port * 16 + m.command
header_eq m p c =
    omega (arith, bit_or_comm (m.port * 2 ^ 4) m.command, bit_or_shifted 4 m.command m.port c)

process_begin : (d : Decoder) → IsReady d → process d kiss_end ≡ some (in_frame d.buffer 0, none)
unfolding process
process_begin d r = ground arith

-- The parts of an array whose used part is known.
first_and_rest :
    (buf : List ℕ) (n x : ℕ) (xs : List ℕ)
    → take (suc n) buf ≡ x ∷ xs
    → (get_elem? buf 0 ≡ some x) × (take n (drop 1 buf) ≡ xs)
first_and_rest [] n x xs e = absurd (cc)
first_and_rest (y ∷ ys) n x xs e = (cc, cc)

-- The data of the message that a frame `x ∷ xs` gives.
abbrev pub frame_message : ℕ → List ℕ → Message
frame_message x xs = interpret x (suc (length xs)) (if x == 0xff then [] else xs)

interpret_payload :
    (x n : ℕ) (rest xs : List ℕ)
    → take n rest ≡ xs
    → interpret x (suc n) (take (interpret x (suc n) []).data_length rest)
      ≡ interpret x (suc n) (if x == 0xff then [] else xs)
interpret_payload x n rest xs h =
    let e : suc n - 1 ≡ n = omega arith in
    elim (Bool-cases (x == 0xff)) [ inl a ↦ rw a | inr m ↦ rw (m, e, h) ]

module _ (buf : List ℕ) (x : ℕ) (xs : List ℕ) (array : length buf ≡ decoder_buffer_size)
    (room : suc (length xs) ≤ decoder_buffer_size) where
  abbrev filled : List ℕ
  filled = fill buf 0 (x ∷ xs)

  filled_parts : (get_elem? filled 0 ≡ some x) × (take (length xs) (drop 1 filled) ≡ xs)
  filled_parts =
      first_and_rest filled (length xs) x xs
        (take-fill buf 0 (suc (length xs)) (x ∷ xs) (omega arith) (omega arith))

  process_frame-filled :
      process_frame (in_frame filled (suc (length xs))) ≡ some (frame_message x xs)
  process_frame-filled =
      let d = in_frame filled (suc (length xs)) in
      let v : IsValid d = record { array = length-fill buf 0 (x ∷ xs) ∙ array; bounded = room } in
      let (first, e, f) = process_frame_total d v (omega arith) in
      let (e', tail) = filled_parts in
      let same : first ≡ x = cc in
      f ∙ rw same (ap some (interpret_payload x (length xs) (drop 1 filled) xs tail))

  process_end :
      process (in_frame filled (suc (length xs))) kiss_end
      ≡ some (in_frame filled 0, some (frame_message x xs))
  unfolding process
  process_end = ground (arith, process_frame-filled)

-- A frame whose first byte `x` is no special one.
run-frame :
    (d : Decoder) (x : ℕ) (xs rest : List ℕ) {last : Decoder} {ms : List Message}
    → IsReady d
    → (x == kiss_end) ≡ false
    → (x == kiss_esc) ≡ false
    → suc (length xs) ≤ decoder_buffer_size
    → run (in_frame (fill d.buffer 0 (x ∷ xs)) 0) rest ≡ some (last, ms)
    → run d (kiss_end ∷ x ∷ (escape xs ++ (kiss_end ∷ rest))) ≡ some (last, frame_message x xs ∷ ms)
run-frame d x xs rest r n m room later =
    run_silent _ _ _ _ (process_begin d r)
    ∙ run_silent _ _ _ _ (process_plain d.buffer 0 (omega arith) x n m)
    ∙ run-escape xs _ 1 (suc (length xs)) (kiss_end ∷ rest) (omega arith) room
    ∙ run_message _ _ _ _ _ (process_end d.buffer x xs r.valid.array room) later

filled-IsReady : (d : Decoder) (xs : List ℕ) → IsReady d → IsReady (in_frame (fill d.buffer 0 xs) 0)
filled-IsReady d xs r = record {
  valid = record { array = length-fill d.buffer 0 xs ∙ r.valid.array; bounded = omega arith };
  callback = refl;
  fresh = inr (refl, refl);
}

encode_lem :
    (m : Message)
    → IsSendable m
    → encode m ≡ some (kiss_end ∷ header m ∷ (escape (received m).payload ++ (kiss_end ∷ [])))
unfolding encode
encode_lem m s = rw (read_n-take m.data_length m.payload s.written)

frame_message-header :
    (m : Message) → IsSendable m → frame_message (header m) (received m).payload ≡ received m
frame_message-header m s =
    rw (header_eq m s.port_nibble s.command_nibble, ==-false _ _ s.not_return)
      (ground (arith, length-take m.data_length m.payload))

-- The frames of the messages in order, as a sender writes them with `hs_kiss_encode`.
unfoldable pub encode_all : List Message → Option (List ℕ)
encode_all [] = some []
encode_all (m ∷ ms) = do bytes ← encode m; others ← encode_all ms; some (bytes ++ others)

-- Messages that fit the buffer and whose first byte is no special one, encoded one after another
-- and fed to a decoder between two frames, all encode, and reach the callback in order, each with
-- its port, command, length and data; and the decoder is between two frames again.
pub run-encode_all :
    (ms : List Message) (d : Decoder)
    → All IsSendable ms
    → IsReady d
    → (bytes : List ℕ) × (encode_all ms ≡ some bytes)
      × ((last : Decoder) × (run d bytes ≡ some (last, map received ms)) × IsReady last)
unfolding encode_all
run-encode_all [] d s r = ([], refl, (d, unfold run in refl, r))
run-encode_all (m ∷ ms) d s r =
    let xs = (received m).payload in
    let h = header m in
    let d' = in_frame (fill d.buffer 0 (h ∷ xs)) 0 in
    let (bytes, e, (last, ran, ready)) = run-encode_all ms d' s.1 (filled-IsReady d (h ∷ xs) r) in
    let e_head = header_eq m s.0.port_nibble s.0.command_nibble in
    let room : suc (length xs) ≤ decoder_buffer_size =
      omega (arith, s.0.fits, length-take m.data_length m.payload s.0.written) in
    (
      kiss_end ∷ h ∷ (escape xs ++ (kiss_end ∷ bytes)),
      rw (encode_lem m s.0, e)
          (ap (λ t. some (kiss_end ∷ h ∷ t)) (append_assoc (escape xs) (kiss_end ∷ []) bytes)),
      (
        last,
        run-frame d h xs bytes r (rw e_head (==-false _ _ s.0.not_end))
              (rw e_head (==-false _ _ s.0.not_esc)) room ran
            ∙ ap (λ t. some (last, t ∷ map received ms)) (frame_message-header m s.0),
        ready,
      ),
    )

-- A data frame on port 12 does not arrive: its first byte is written without an escape and reads as
-- the end of a frame. For data of at least one byte that fits the buffer, the callback gets one
-- other message, whose port and command are read from the first byte of the data.
pub run-encode_port_twelve :
    (m : Message) (d : Decoder) (x : ℕ) (xs : List ℕ)
    → m.port ≡ 12
    → m.command ≡ 0
    → m.payload ≡ x ∷ xs
    → m.data_length ≡ suc (length xs)
    → suc (length xs) ≤ decoder_buffer_size
    → IsReady d
    → (bytes : List ℕ) × (encode m ≡ some bytes)
      × ((last : Decoder) × (run d bytes ≡ some (last, frame_message x xs ∷ [])))
run-encode_port_twelve m d x xs p c e n room r =
    let ys = x ∷ xs in
    let b = fill d.buffer 0 ys in
    let h : header m ≡ kiss_end = header_eq m (omega arith) (omega arith) ∙ omega arith in
    let whole : read_n m.data_length m.payload ≡ some ys =
      rw (e, n) (rw (read_n-take (suc (length xs)) ys (le_refl _)) (ap some (take_all ys))) in
    (
      kiss_end ∷ kiss_end ∷ (escape ys ++ (kiss_end ∷ [])),
      unfold encode in rw (whole, h),
      (
        in_frame b 0,
        run_silent _ _ _ _ (process_begin d r)
            ∙ run_silent _ _ _ _ (process_begin (in_frame d.buffer 0) (filled-IsReady d [] r))
            ∙ run-escape ys d.buffer 0 (suc (length xs)) (kiss_end ∷ []) (omega arith) room
            ∙ run_message _ _ _ _ _ (process_end d.buffer x xs r.valid.array room)
                (unfold run in refl),
      ),
    )
