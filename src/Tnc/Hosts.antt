-- ===== src/Tnc/Hosts.antt =====
-- The callbacks that apps/ax25tnc/ax25tnc.c gives its server: the bytes of hosts go to the decoder.
mod Examples
use modemstuff.Base.{
  ℕ, ◌<◌, ◌≡◌, refl, ap, ◌∙◌, sym, List, [], ◌∷◌, ◌++◌, append_assoc, append-nil, map, concat,
  Option, none, some, true, false, length, All, Bool-cases, inl, inr, ◌&&◌, ◌==◌, ◌+◌, arith, ◌>>=◌,
  >>=-eq-some,
}
use modemstuff.Kiss.{Decoder, Message, process}
use modemstuff.Kiss.Stream.{run, emit}
use modemstuff.Kiss.RoundTrip.{IsSendable, IsReady, encode_all, received, run-encode_all}
use modemstuff.NetServer.Thread
use modemstuff.NetServer.{
  Server, Event, data_start, data_chunk, data_end, opened, closed, sent, lock, unlock,
}
use modemstuff.NetServer.Thread.{int_of, is_positive, announce, conclude, receive, data_buf_size}
use modemstuff.NetServer.Receiving.{IsFull}

-- The decoder and its messages. The mutex that the start takes and the end gives back is the order
-- of the events.
unfoldable pub kiss_data_callbacks : Decoder → List Event → Option (Decoder × List Message)
kiss_data_callbacks d [] = some (d, [])
kiss_data_callbacks d (data_chunk bytes ∷ events) = do
  (d', ms) ← run d bytes
  (d'', others) ← kiss_data_callbacks d' events
  some (d'', ms ++ others)
kiss_data_callbacks d (data_start ∷ events) = kiss_data_callbacks d events
kiss_data_callbacks d (data_end ∷ events) = kiss_data_callbacks d events
kiss_data_callbacks d (lock ∷ events) = kiss_data_callbacks d events
kiss_data_callbacks d (unlock ∷ events) = kiss_data_callbacks d events
kiss_data_callbacks d (opened socket ∷ events) = kiss_data_callbacks d events
kiss_data_callbacks d (closed socket ∷ events) = kiss_data_callbacks d events
kiss_data_callbacks d (sent socket bytes ∷ events) = kiss_data_callbacks d events

emit-append : (m : Option Message) (ms ms' : List Message) → emit m (ms ++ ms') ≡ emit m ms ++ ms'
emit-append none ms ms' = refl
emit-append (some m) ms ms' = refl

run_step :
    (x : ℕ) (xs : List ℕ) (d d₁ d' : Decoder) (m : Option Message) (ms : List Message)
    → process d x ≡ some (d₁, m)
    → run d₁ xs ≡ some (d', ms)
    → run d (x ∷ xs) ≡ some (d', emit m ms)
unfolding run
run_step x xs d d₁ d' m ms e f = rw (e, f) refl

-- A run over two parts is a run over one and then the other.
run-append :
    (xs ys : List ℕ) (d last : Decoder) (ms : List Message)
    → run d (xs ++ ys) ≡ some (last, ms)
    → (d' : Decoder) × (first second : List Message) × (run d xs ≡ some (d', first))
      × (run d' ys ≡ some (last, second))
      × (ms ≡ first ++ second)
unfolding run
run-append [] ys d last ms e = (d, [], ms, refl, e, refl)
run-append (x ∷ xs) ys d last ms e =
    let ((d₁, m), f, rest) =
      >>=-eq-some (process d x) (λ r. run r.0 (xs ++ ys) >>= λ q. some (q.0, emit r.1 q.1)) e in
    let ((d₂, others), g, h) = >>=-eq-some (run d₁ (xs ++ ys)) (λ q. some (q.0, emit m q.1)) rest in
    let same : last ≡ d₂ = cc in
    let all : ms ≡ emit m others = cc in
    let (d', first, second, p, q, r) = run-append xs ys d₁ d₂ others g in
    (
      d',
      emit m first,
      second,
      run_step x xs d d₁ d' m first f p,
      q ∙ ap (λ l. some (l, second)) (sym same),
      all ∙ ap (emit m) r ∙ emit-append m first second,
    )

-- The decoder is told of neither the start nor the end.
announce_lem :
    (server : Server) (total : ℕ) (d : Decoder) (events : List Event)
    → kiss_data_callbacks d (announce server total ++ events) ≡ kiss_data_callbacks d events
unfolding announce kiss_data_callbacks
announce_lem server total d events =
    elim (Bool-cases (total == 0 && server.client_data_start_callback)) [
      | inl first ↦ rw first refl
      | inr later ↦ rw later refl
    ]

conclude_lem :
    (server : Server) (total : ℕ) (d : Decoder)
    → kiss_data_callbacks d (conclude server total) ≡ some (d, [])
unfolding conclude kiss_data_callbacks
conclude_lem server total d =
    elim (Bool-cases (is_positive total && server.client_data_end_callback)) [
      | inl some_data ↦ rw some_data refl
      | inr nothing ↦ rw nothing refl
    ]

chunk_lem :
    (d d₁ last : Decoder) (bytes : List ℕ) (first second : List Message) (events : List Event)
    → run d bytes ≡ some (d₁, first)
    → kiss_data_callbacks d₁ events ≡ some (last, second)
    → kiss_data_callbacks d (data_chunk bytes ∷ events) ≡ some (last, first ++ second)
unfolding kiss_data_callbacks
chunk_lem d d₁ last bytes first second events e f = rw (e, f) refl

receive_lem :
    (server : Server) (socket total : ℕ) (chunks : List (List ℕ)) (last_chunk : List ℕ)
    (d last : Decoder) (ms : List Message)
    → All IsFull chunks
    → 0 < length last_chunk
    → length last_chunk < data_buf_size
    → run d (concat chunks ++ last_chunk) ≡ some (last, ms)
    → kiss_data_callbacks d
        (receive server socket total
          (map Thread.received chunks ++ (Thread.received last_chunk ∷ []))).events
      ≡ some (last, ms)
unfolding receive
receive_lem server socket total [] [] d last ms full h l e = absurd (omega arith)
receive_lem server socket total [] (byte ∷ bytes) d last ms full h l e =
    let len = length (byte ∷ bytes) in
    let part : (len == data_buf_size) ≡ false = ground arith in
    let end = conclude server (int_of (total + len)) in
    let told =
      chunk_lem d last last (byte ∷ bytes) ms [] end e
        (conclude_lem server (int_of (total + len)) last) in
    rw
      (
        part,
        append_assoc (announce server total) (data_chunk (byte ∷ bytes) ∷ []) end,
        announce_lem server total d (data_chunk (byte ∷ bytes) ∷ end),
        told,
        append-nil ms,
      )
      refl
receive_lem server socket total ([] ∷ chunks) last_chunk d last ms full h l e =
    absurd (omega (arith, full.0))
receive_lem server socket total ((byte ∷ bytes) ∷ chunks) last_chunk d last ms full h l e =
    let chunk = byte ∷ bytes in
    let all : (length chunk == data_buf_size) ≡ true = ground (arith, full.0) in
    let (d₁, first, second, p, q, r) =
      run-append chunk (concat chunks ++ last_chunk) d last ms
        (rw (append_assoc chunk (concat chunks) last_chunk) at e) in
    let sum = int_of (total + length chunk) in
    let rest =
      receive server socket sum (map Thread.received chunks ++ (Thread.received last_chunk ∷ [])) in
    let later = receive_lem server socket sum chunks last_chunk d₁ last second full.1 h l q in
    rw
      (
        all,
        append_assoc (announce server total) (data_chunk chunk ∷ []) rest.events,
        announce_lem server total d (data_chunk chunk ∷ rest.events),
        chunk_lem d d₁ last chunk first second rest.events p later,
        r,
      )
      refl

pub kiss_data_callbacks-encode_all :
    (server : Server) (socket : ℕ) (ms : List Message) (d : Decoder) (chunks : List (List ℕ))
    (last_chunk : List ℕ)
    → server.client_data_start_callback ≡ true
    → server.client_data_end_callback ≡ true
    → All IsSendable ms
    → IsReady d
    → encode_all ms ≡ some (concat chunks ++ last_chunk)
    → All IsFull chunks
    → 0 < length last_chunk
    → length last_chunk < data_buf_size
    → (last : Decoder) × (kiss_data_callbacks d
          (receive server socket 0
            (map Thread.received chunks ++ (Thread.received last_chunk ∷ []))).events
        ≡ some (last, map received ms))
      × IsReady last
unfolding kiss_data_callbacks
kiss_data_callbacks-encode_all server socket ms d chunks last_chunk starts ends s r e full h l =
    let (bytes, f, (last, ran, ready)) = run-encode_all ms d s r in
    let same : bytes ≡ concat chunks ++ last_chunk = cc in
    (
      last,
      receive_lem server socket 0 chunks last_chunk d last (map received ms) full h l
          (rw same at ran),
      ready,
    )
