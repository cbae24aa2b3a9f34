-- ===== src/Kiss/Safety.antt =====
-- What `hs_kiss_decoder_process` keeps, whatever bytes arrive.
use modemstuff.Base.{
  ℕ, ◌-◌, ◌≤◌, ◌≡◌, refl, Bool, List, [], ◌∷◌, Option, none, some, arith, length, length-set, drop,
  ◌<◌, length-take, take, read_n-take, get_elem?, get_elem?_total,
}
use modemstuff.Kiss.{
  Decoder, Message, State, undefined, reading, reading_escaped, decoder_buffer_size, kiss_end, init,
  process_frame, process, interpret, deliver, dispatch, process_undefined, process_reading,
  end_of_frame, unescape, process_escaped, kiss_esc,
}

pub record IsValid (d : Decoder) : Type 0 where
  pub array : length d.buffer ≡ decoder_buffer_size
  pub bounded : d.buffer_pos ≤ decoder_buffer_size

pub init-IsValid :
    (d : Decoder) (callback : Bool)
    → length d.buffer ≡ decoder_buffer_size
    → IsValid (init d callback)
unfolding init
init-IsValid d callback h = ground arith

length-drop_one : (xs : List ℕ) → length (drop 1 xs) ≡ length xs - 1
length-drop_one [] = refl
length-drop_one (x ∷ xs) = omega arith

-- The message of a frame of at least one byte; every read is inside the array.
pub process_frame_total :
    (d : Decoder)
    → IsValid d
    → 1 ≤ d.buffer_pos
    → (first : ℕ) × (get_elem? d.buffer 0 ≡ some first)
      × (process_frame d
          ≡ some (
              interpret first d.buffer_pos
                (take (interpret first d.buffer_pos []).data_length (drop 1 d.buffer))))
unfolding process_frame
process_frame_total d v h =
    let (first, e) = get_elem?_total d.buffer 0 (omega arith) in
    let n = (interpret first d.buffer_pos []).data_length in
    (first, e, rw (e, read_n-take n (drop 1 d.buffer) (ground (arith, length-drop_one d.buffer))))

-- The payload of a message is its data, and fits the array.
pub record IsBounded (m : Message) : Type 0 where
  pub payload_len : length m.payload ≡ m.data_length
  pub fits : m.data_length < decoder_buffer_size

abbrev Fits : Option Message → Type 0
Fits none = Unit
Fits (some m) = IsBounded m

-- The outcome is a valid decoder, and a message that fits.
abbrev pub Safe : Option (Decoder × Option Message) → Type 0
Safe none = ⊥
Safe (some (d, m)) = IsValid d × Fits m

deliver-Safe : (d : Decoder) → IsValid d → 1 ≤ d.buffer_pos → Safe (deliver d)
unfolding deliver
deliver-Safe d v h =
    let (first, e, f) = process_frame_total d v h in
    let n = (interpret first d.buffer_pos []).data_length in
    let few : n ≤ d.buffer_pos - 1 = ground arith in
    let taken =
      length-take n (drop 1 d.buffer)
        (omega (arith, length-drop_one d.buffer, v.array, v.bounded)) in
    rw f (ground (arith, taken, v.array, v.bounded))

dispatch-Safe : (s : State) (d : Decoder) (byte : ℕ) → IsValid d → Safe (dispatch s d byte)
unfolding process_undefined process_reading end_of_frame unescape process_escaped dispatch
dispatch-Safe undefined d byte v = ground arith
dispatch-Safe reading d byte v =
    ground (arith, deliver-Safe d v, length-set d.buffer d.buffer_pos byte)
dispatch-Safe reading_escaped d byte v =
    ground
      (arith, length-set d.buffer d.buffer_pos kiss_end, length-set d.buffer d.buffer_pos kiss_esc)

-- Whatever byte arrives, a valid decoder gives a result, so no read or write leaves an array, and
-- the decoder of the result is valid: its write position is at most the buffer's size. The payload of
-- a message has as many bytes as it says, fewer than the size of the array.
pub process-Safe : (d : Decoder) (byte : ℕ) → IsValid d → Safe (process d byte)
unfolding process
process-Safe d byte v = dispatch-Safe d.state d byte v
