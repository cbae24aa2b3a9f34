-- ===== src/NetServer/Receiving.antt =====
-- What the callbacks are told of the data of a client.
use modemstuff.Base.{
  ℕ, ◌+◌, ◌*◌, ◌^◌, ◌<◌, ◌≡◌, refl, ap, ◌∙◌, List, [], ◌∷◌, ◌++◌, append_assoc, append-nil, map,
  Bool, true, false, arith, length, ◌==◌, All,
}
use modemstuff.NetServer.{Server, Event, data_start, data_chunk, data_end}
use modemstuff.NetServer.Thread.{
  int_of, is_positive, Recv, received, announce, conclude, receive, Reception, data_buf_size,
}

abbrev pub IsFull : List ℕ → Type 0
IsFull bytes = length bytes ≡ data_buf_size

abbrev pub told : ℕ → List Event → Bool → Reception
told socket events finished = record { socket = socket; events = events; finished = finished }

module _ (server : Server) (starts : server.client_data_start_callback ≡ true)
    (ends : server.client_data_end_callback ≡ true) where
  int_of-small : (n : ℕ) → n < 2 ^ 32 → int_of n ≡ n
  int_of-small n h = omega arith

  -- A chunk that does not fill the buffer ends the loop.
  last_lem :
      (socket total : ℕ) (bytes : List ℕ) (results : List Recv)
      → 0 < length bytes
      → length bytes < data_buf_size
      → total + length bytes < 2 ^ 31
      → receive server socket total (received bytes ∷ results) ≡ record {
        socket = socket;
        events = announce server total ++ (data_chunk bytes ∷ data_end ∷ []);
        finished = true;
      }
  unfolding receive conclude
  last_lem socket total [] results h l few = absurd (omega arith)
  last_lem socket total (byte ∷ bytes) results h l few =
      let sum = total + length (byte ∷ bytes) in
      let part : (length (byte ∷ bytes) == data_buf_size) ≡ false = ground arith in
      let same : int_of sum ≡ sum = int_of-small sum (omega arith) in
      let some_data : is_positive sum ≡ true = ground arith in
      simp (part, same, some_data, ends)
        (ap (λ es. told socket es true)
          (append_assoc (announce server total) (data_chunk (byte ∷ bytes) ∷ []) (data_end ∷ [])))

  later : (total : ℕ) → 0 < total → announce server total ≡ []
  unfolding announce
  later total h = let more : (total == 0) ≡ false = ground arith in simp more refl

  first : announce server 0 ≡ data_start ∷ []
  unfolding announce
  first = simp starts refl

  -- Chunks that fill the buffer are handed on one by one.
  full_lem :
      (socket total : ℕ) (chunk : List ℕ) (results : List Recv)
      → IsFull chunk
      → total + data_buf_size < 2 ^ 32
      → receive server socket total (received chunk ∷ results)
        ≡ record (receive server socket (total + data_buf_size) results) {
          events =
              announce server total
              ++ (data_chunk chunk
                  ∷ (receive server socket (total + data_buf_size) results).events);
        }
  unfolding receive
  full_lem socket total [] results f few = absurd (omega arith)
  full_lem socket total (byte ∷ bytes) results f few =
      let rest = receive server socket (total + data_buf_size) results in
      let same = int_of-small (total + data_buf_size) few in
      rw (f, same)
        (ap (λ es. record rest { events = es })
          (append_assoc (announce server total) (data_chunk (byte ∷ bytes) ∷ []) rest.events))

  chunks_lem :
      (socket total : ℕ) (chunks : List (List ℕ)) (results : List Recv)
      → 0 < total
      → All IsFull chunks
      → total + data_buf_size * length chunks < 2 ^ 32
      → (total' : ℕ) × (total' ≡ total + data_buf_size * length chunks)
        × (receive server socket total (map received chunks ++ results)
            ≡ record (receive server socket total' results) {
              events = map data_chunk chunks ++ (receive server socket total' results).events;
            })
  chunks_lem socket total [] results h f few = (total, omega arith, refl)
  chunks_lem socket total (chunk ∷ chunks) results h f few =
      let (total', h', e) =
        chunks_lem socket (total + data_buf_size) chunks results (omega arith) f.1 (omega arith) in
      let now = full_lem socket total chunk (map received chunks ++ results) f.0 (omega arith) in
      (total', omega arith, now ∙ rw (e, later total h) refl)

  -- With the callbacks for start and end set, data of less than 2^31 bytes, in chunks that fill the
  -- buffer and a last one that does not, from a client between two receptions: the callbacks are told
  -- of a start, of each chunk in order, and of the end, and the client stays connected, whatever
  -- `recv` would return then.
  pub receive-whole :
      (socket : ℕ) (chunks : List (List ℕ)) (last : List ℕ) (results : List Recv)
      → All IsFull chunks
      → 0 < length last
      → length last < data_buf_size
      → data_buf_size * length chunks + length last < 2 ^ 31
      → receive server socket 0 (map received chunks ++ (received last ∷ results))
        ≡ told socket
            (data_start ∷ (map data_chunk chunks ++ (data_chunk last ∷ data_end ∷ [])))
            true
  receive-whole socket [] last results f h l few =
      last_lem socket 0 last results h l (omega arith) ∙ rw first refl
  receive-whole socket (chunk ∷ chunks) last results f h l few =
      let (total', h', e) =
        chunks_lem socket data_buf_size chunks (received last ∷ results) (omega arith) f.1
          (omega arith) in
      full_lem socket 0 chunk (map received chunks ++ (received last ∷ results)) f.0 (omega arith)
      ∙ rw
          (
            e,
            last_lem socket total' last results h l (omega arith),
            later total' (omega arith),
            first,
          )
          refl

  -- With the callbacks for start and end set, if the data of a client fill the buffer each time, the
  -- thread waits in `recv` for more of them, and the end has not been told of. Less than 2^32 bytes
  -- are told of with one start; then the `int` of the total is zero again.
  pub receive-full :
      (socket : ℕ) (chunk : List ℕ) (chunks : List (List ℕ))
      → IsFull chunk
      → All IsFull chunks
      → data_buf_size * length (chunk ∷ chunks) < 2 ^ 32
      → receive server socket 0 (map received (chunk ∷ chunks))
        ≡ told socket (data_start ∷ map data_chunk (chunk ∷ chunks)) false
  unfolding receive
  receive-full socket chunk chunks f g few =
      let (total', h', e) =
        chunks_lem socket data_buf_size chunks [] (omega arith) g (omega arith) in
      let all = append-nil (map received chunks) in
      full_lem socket 0 chunk (map received chunks) f (omega arith)
      ∙ rw (rw all at e, first)
          (ap (λ es. told socket (data_start ∷ data_chunk chunk ∷ es) false)
            (append-nil (map data_chunk chunks)))
