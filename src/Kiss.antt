-- ===== src/Kiss.antt =====
-- The KISS framing of src/hamstuff/kiss.c and include/hamstuff/kiss.h.
-- `none` as a result is a read outside an array. A message handed to the callback is returned
-- beside the decoder. The bytes that `hs_kiss_encode` writes one after another to `buffer[pos++]`
-- are a list, whose length is the `pos` that it returns.
pub mod Command
pub mod Safety
pub mod Stream
pub mod Room
pub mod RoundTrip
mod Examples
use Command.{kiss_return}
use modemstuff.Base.{
  ℕ, ◌+◌, ◌-◌, ◌*◌, ◌/◌, ◌%◌, ◌^◌, bit_or, Bool, ◌&&◌, List, [], ◌∷◌, ◌++◌, Option, none, some,
  get_elem?, set, drop, read_n, ltb, leb, ◌==◌, if◌then◌else◌, ◌>>=◌,
}

abbrev pub kiss_end : ℕ
kiss_end = 0xc0

abbrev pub kiss_esc : ℕ
kiss_esc = 0xdb

abbrev pub kiss_esc_end : ℕ
kiss_esc_end = 0xdc

abbrev pub kiss_esc_esc : ℕ
kiss_esc_esc = 0xdd

abbrev pub min_frame_size : ℕ
min_frame_size = 1

abbrev pub decoder_buffer_size : ℕ
decoder_buffer_size = 512

pub data State : Type 0 where
  undefined reading reading_escaped : State

-- `payload` is the part of the array `data` that has been written.
pub record Message : Type 0 where
  pub port : ℕ
  pub command : ℕ
  pub payload : List ℕ
  pub data_length : ℕ

-- `has_callback` is `frame_callback != NULL`.
pub record Decoder : Type 0 where
  pub state : State
  pub buffer : List ℕ
  pub buffer_pos : ℕ
  pub has_callback : Bool

unfoldable pub init : Decoder → Bool → Decoder
init d callback = record d { state = undefined; buffer_pos = 0; has_callback = callback }

-- Port, command and data length from the first byte of a frame.
abbrev pub interpret : ℕ → ℕ → List ℕ → Message
interpret first pos bytes =
    if first == 0xff
    then record { port = 0; command = kiss_return; payload = bytes; data_length = 0 }
    else record {
      port = first / 2 ^ 4 % 16;
      command = first % 16;
      payload = bytes;
      data_length = pos - 1;
    }

unfoldable pub process_frame : Decoder → Option Message
process_frame d = do
  first ← get_elem? d.buffer 0
  bytes ← read_n (interpret first d.buffer_pos []).data_length (drop 1 d.buffer)
  some (interpret first d.buffer_pos bytes)

-- `buffer[buffer_pos++] = byte`
abbrev pub store : Decoder → ℕ → Decoder
store d byte = record d { buffer = set d.buffer d.buffer_pos byte; buffer_pos = d.buffer_pos + 1 }

-- The reset of a buffer that would overflow.
abbrev pub reset : Decoder → Decoder
reset d = record d { state = undefined; buffer_pos = 0 }

-- Begin reading the next frame.
abbrev pub begin : Decoder → Decoder
begin d = record d { state = reading; buffer_pos = 0 }

process_undefined : Decoder → ℕ → Option (Decoder × Option Message)
process_undefined d byte = if byte == kiss_end then some (begin d, none) else some (d, none)

-- The frame goes to the callback.
deliver : Decoder → Option (Decoder × Option Message)
deliver d = do message ← process_frame d; some (begin d, some message)

-- The apparent end of a frame.
end_of_frame : Decoder → Option (Decoder × Option Message)
end_of_frame d =
    if d.has_callback && leb min_frame_size d.buffer_pos then deliver d else some (begin d, none)

process_reading : Decoder → ℕ → Option (Decoder × Option Message)
process_reading d byte =
    if byte == kiss_esc
    then some (record d { state = reading_escaped }, none)
    else if byte == kiss_end
    then end_of_frame d
    else if ltb d.buffer_pos decoder_buffer_size
    then some (store d byte, none)
    else some (reset d, none)

-- Any other byte after the escape is dropped.
unescape : Decoder → ℕ → Decoder
unescape d byte =
    if byte == kiss_esc_end
    then store d kiss_end
    else if byte == kiss_esc_esc
    then store d kiss_esc
    else d

process_escaped : Decoder → ℕ → Option (Decoder × Option Message)
process_escaped d byte =
    if ltb d.buffer_pos decoder_buffer_size
    then some (record (unescape d byte) { state = reading }, none)
    else some (reset d, none)

dispatch : State → Decoder → ℕ → Option (Decoder × Option Message)
dispatch undefined = process_undefined
dispatch reading = process_reading
dispatch reading_escaped = process_escaped

-- One received byte.
unfoldable pub process : Decoder → ℕ → Option (Decoder × Option Message)
unfolding process_undefined deliver end_of_frame process_reading unescape process_escaped dispatch
process d byte = dispatch d.state d byte

-- The bytes of the data field.
unfoldable pub escape : List ℕ → List ℕ
escape [] = []
escape (x ∷ xs) =
    if x == kiss_end
    then kiss_esc ∷ kiss_esc_end ∷ escape xs
    else if x == kiss_esc
    then kiss_esc ∷ kiss_esc_esc ∷ escape xs
    else x ∷ escape xs

-- `(port << 4) | command`, stored to a byte.
abbrev pub header : Message → ℕ
header m = bit_or (m.port * 2 ^ 4) m.command % 2 ^ 8

unfoldable pub encode : Message → Option (List ℕ)
encode m = do
  bytes ← read_n m.data_length m.payload
  some (kiss_end ∷ header m ∷ (escape bytes ++ (kiss_end ∷ [])))
