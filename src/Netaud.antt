-- ===== src/Netaud.antt =====
-- The audio server of apps/netaud/netaud.c: the callback of the audio stream and those of the server.
-- An audio buffer is the list of its bytes, four for a sample, and a sample of 0.0f is four zeros.
-- Times are of any type, and `none` is one below zero.
pub mod Playing
pub mod Audio
pub mod Start
pub mod Devices
pub mod Ending
mod Examples
use modemstuff.Base.{
  ℕ, ◌+◌, ◌-◌, ◌*◌, ◌/◌, ◌%◌, ◌^◌, List, [], ◌∷◌, ◌++◌, Option, none, some, length, take, replicate,
  ◌>>=◌,
}
use modemstuff.LinkedBuffer.{Node, LinkedBuffer, linked_buffer_push, linked_buffer_pop}
use modemstuff.NetServer.{Server, Event, data_chunk, SendResult, broadcast}

abbrev pub sizeof_float : ℕ
sizeof_float = 4

pub record Netaud {ℓ} (T : Type ℓ) : Type ℓ where
  pub start_time : Option T
  pub client_data_buffer : LinkedBuffer
  pub server : Server

-- The output buffer from fewer than 2^31 bytes, which an `int` counts, that were popped into it on.
unfoldable pub fill_silence : List ℕ → ℕ → List ℕ
fill_silence popped frames =
    let frames_read = length popped / sizeof_float in
    take (frames_read * sizeof_float) popped ++ replicate ((frames - frames_read) * sizeof_float) 0

module _ {ℓ} {T : Type ℓ} where
  abbrev pub started_at : Option T → T → T
  started_at none now = now
  started_at (some before) now = before

  -- The events of the broadcast, and the output. Sizes in bytes are passed in 32 bits. `malloc` is the memory that allocations give.
  unfoldable pub stream_callback :
      (ℕ → Node)
      → (ℕ → SendResult)
      → T
      → List ℕ
      → ℕ
      → Netaud T
      → Option (Netaud T × List Event × List ℕ)
  unfolding fill_silence
  stream_callback malloc result current_time input frames netaud =
      let size = frames * sizeof_float % 2 ^ 32 in
      let (server, (events, ok)) = broadcast result netaud.server (some input) size in
      do
        (buffer, popped) ← linked_buffer_pop malloc netaud.client_data_buffer size
        some (
          record {
            start_time = some (started_at netaud.start_time current_time);
            client_data_buffer = buffer;
            server = server;
          },
          events,
          fill_silence popped frames,
        )

-- The callbacks of the server. The mutex that the start takes and the end gives back is the order of
-- the events.
unfoldable pub client_data_callbacks : (ℕ → Node) → LinkedBuffer → List Event → Option LinkedBuffer
client_data_callbacks malloc buffer [] = some buffer
client_data_callbacks malloc buffer (data_chunk bytes ∷ events) = do
  buffer' ← linked_buffer_push malloc buffer bytes (length bytes)
  client_data_callbacks malloc buffer' events
client_data_callbacks malloc buffer (_ ∷ events) = client_data_callbacks malloc buffer events
