-- ===== src/Netaud/Playing.antt =====
-- What a client sends is played, in order, and followed by silence.
use modemstuff.Base.{
  ℕ, ◌+◌, ◌-◌, ◌*◌, ◌/◌, ◌%◌, ◌^◌, ◌<◌, ◌≡◌, refl, sym, ap, ◌∙◌, List, [], ◌∷◌, ◌++◌, append_assoc,
  map, concat, some, true, length, length-append, length-take, take, take_all, min, take-take,
  take_past, drop, replicate, All, arith,
}
use native.Mathlib.Decide.{dec_lt}
use modemstuff.LinkedBuffer.{Node, LinkedBuffer}
use modemstuff.LinkedBuffer.Contents.{contents, IsMemory, IsValid}
use modemstuff.LinkedBuffer.Push.{linked_buffer_push-contents}
use modemstuff.LinkedBuffer.Pop.{linked_buffer_pop-contents}
use modemstuff.NetServer.{Server, data_chunk, data_end, SendResult, broadcast}
use modemstuff.NetServer.Thread.{received, receive, data_buf_size}
use modemstuff.NetServer.Receiving.{IsFull, receive-whole}
use modemstuff.Netaud.{
  Netaud, started_at, fill_silence, stream_callback, client_data_callbacks, sizeof_float,
}

callbacks_lem :
    (malloc : ℕ → Node) (chunks : List (List ℕ)) (last : List ℕ) (b : LinkedBuffer)
    → IsMemory malloc
    → IsValid b
    → length b.chain + length (concat chunks ++ last) < 2 ^ 32
    → (b' : LinkedBuffer) × (client_data_callbacks malloc b
          (map data_chunk chunks ++ (data_chunk last ∷ data_end ∷ []))
        ≡ some b')
      × IsValid b'
      × (contents b'.chain ≡ contents b.chain ++ (concat chunks ++ last))
unfolding client_data_callbacks
callbacks_lem malloc [] last b m v few =
    let (b', e, v', c, nodes) =
      linked_buffer_push-contents malloc b last (length last) m v (omega arith) few in
    (b', rw e refl, v', c ∙ ap (λ t. contents b.chain ++ t) (take_all last))
callbacks_lem malloc (chunk ∷ chunks) last b m v few =
    let len = length-append chunk (concat chunks ++ last) in
    let all = append_assoc chunk (concat chunks) last in
    let few' : length b.chain + (length chunk + length (concat chunks ++ last)) < 2 ^ 32 =
      omega (arith, len, ap length all) in
    let (b₁, e, v₁, c, nodes) =
      linked_buffer_push-contents malloc b chunk (length chunk) m v (omega arith) (omega arith) in
    let (b', f, v', d) = callbacks_lem malloc chunks last b₁ m v₁ (omega arith) in
    (
      b',
      rw e f,
      v',
      d
          ∙ ap (λ t. t ++ (concat chunks ++ last))
              (c ∙ ap (λ t. contents b.chain ++ t) (take_all chunk))
          ∙ append_assoc (contents b.chain) chunk (concat chunks ++ last)
          ∙ ap (λ t. contents b.chain ++ t) (sym all),
    )

-- So many whole samples of some bytes, and silence.
abbrev pub samples_then_silence : List ℕ → ℕ → List ℕ
samples_then_silence bytes frames =
    let n = min frames (length bytes / 4) in take (n * 4) bytes ++ replicate ((frames - n) * 4) 0

fill_silence_lem :
    (bytes : List ℕ) (frames : ℕ)
    → fill_silence (take (frames * 4) bytes) frames ≡ samples_then_silence bytes frames
unfolding fill_silence
fill_silence_lem bytes frames =
    let popped = take (frames * 4) bytes in
    let n = min frames (length bytes / 4) in
    let count : length popped / 4 ≡ n = elim (dec_lt (length bytes) (frames * 4)) [
      | yes few ↦ rw (take_past (frames * 4) bytes (omega arith)) (omega arith)
      | no many ↦ rw (length-take (frames * 4) bytes (omega arith)) (omega arith)
    ] in
    ap (λ (k : ℕ). take (k * 4) popped ++ replicate {A = ℕ} ((frames - k) * 4) 0) count
    ∙ ap (λ t. t ++ replicate {A = ℕ} ((frames - n) * 4) 0)
        (take-take (n * 4) (frames * 4) bytes (omega arith))

-- A client sends fewer than 2^31 bytes, in chunks that fill the buffer of `recv` and a last one that
-- does not, to a server with its callbacks set, and then the audio stream asks for frames of fewer than
-- 2^31 bytes. No call takes a fault, if the buffer stays below 2^32 nodes. The output is as many whole samples of what the buffer
-- held and then these bytes as there are and are asked for, and silence up to the frames asked for; the
-- buffer keeps what is behind the bytes asked for; and the input is broadcast.
pub stream_callback-client_data_callbacks {ℓ} :
    {T : Type ℓ} (malloc : ℕ → Node) (server : Server) (socket : ℕ) (netaud : Netaud T)
    (chunks : List (List ℕ)) (last : List ℕ) (result : ℕ → SendResult) (now : T) (input : List ℕ)
    (frames : ℕ)
    → server.client_data_start_callback ≡ true
    → server.client_data_end_callback ≡ true
    → IsMemory malloc
    → IsValid netaud.client_data_buffer
    → length netaud.client_data_buffer.chain + length (concat chunks ++ last) < 2 ^ 32
    → All IsFull chunks
    → 0 < length last
    → length last < data_buf_size
    → data_buf_size * length chunks + length last < 2 ^ 31
    → frames * sizeof_float < 2 ^ 31
    → let bytes = contents netaud.client_data_buffer.chain ++ (concat chunks ++ last) in
      (buffer : LinkedBuffer) × (netaud' : Netaud T) × (client_data_callbacks malloc
          netaud.client_data_buffer
          (receive server socket 0 (map received chunks ++ (received last ∷ []))).events
        ≡ some buffer)
      × (stream_callback malloc result now input frames
            (record netaud { client_data_buffer = buffer })
          ≡ some (
            netaud',
            (broadcast result netaud.server (some input) (frames * sizeof_float)).1.0,
            samples_then_silence bytes frames,
          ))
      × IsValid netaud'.client_data_buffer
      × (contents netaud'.client_data_buffer.chain ≡ drop (frames * sizeof_float) bytes)
unfolding stream_callback
stream_callback-client_data_callbacks malloc server socket netaud chunks last result now input
      frames starts ends m v few full h l short asked =
    let (buffer, e, v', c) = callbacks_lem malloc chunks last netaud.client_data_buffer m v few in
    let size = frames * sizeof_float in
    let (left, f, v'', d, nodes) = linked_buffer_pop-contents malloc buffer size m v' in
    let size_lem : size % 2 ^ 32 ≡ size = omega arith in
    let sent' = broadcast result netaud.server (some input) size in
    (
      buffer,
      record {
        start_time = some (started_at netaud.start_time now);
        client_data_buffer = left;
        server = sent'.0;
      },
      rw (receive-whole server starts ends socket chunks last [] full h l short)
          (unfold client_data_callbacks in e),
      rw
          (
            size_lem,
            f,
            c,
            fill_silence_lem (contents netaud.client_data_buffer.chain ++ (concat chunks ++ last))
                frames,
          )
          refl,
      v'',
      rw (← c) d,
    )
