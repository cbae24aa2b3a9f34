-- ===== src/NetClient.antt =====
-- The client of src/netstuff/netclient.c and include/netstuff/netclient.h, with the events and the
-- results of `recv` of the server's model. What the calls of the system return is an argument.
pub mod Stream
mod Examples
use modemstuff.Base.{ℕ, ◌==◌, List, [], ◌∷◌, Option, none, some, Bool, true, false, if◌then◌else◌}
use modemstuff.NetServer.{Event, opened, closed, sent, data_chunk}
use modemstuff.NetServer.Thread.{Recv, failed, received}

-- A socket of `none` is a negative number. The callback is known by whether it is set.
pub record Client : Type 0 where
  pub socket : Option ℕ
  pub run : Bool
  pub data_callback : Bool

unfoldable pub client_init : Client
client_init = record { socket = some 0; run = false; data_callback = false }

unfoldable pub client_set_callbacks : Client → Bool → Client
client_set_callbacks client data_callback = record client { data_callback = data_callback }

-- Whether the host is found, the new socket if there is one, and whether the calls with it succeed.
pub record Dial : Type 0 where
  pub host_found : Bool
  pub socket : Option ℕ
  pub connect_ok : Bool
  pub pthread_create_ok : Bool

-- A result of `false` is -1.
unfoldable pub client_connect : Dial → Client → Client × (List Event × Bool)
client_connect dial client =
    if dial.host_found
    then elim dial.socket [
      | none ↦ (record client { socket = none }, ([], false))
      | some socket ↦
          let client' = record client { socket = some socket } in
          if dial.connect_ok
          then (if dial.pthread_create_ok
              then (record client' { run = true }, (opened socket ∷ [], true))
              else (record client' { run = true }, (opened socket ∷ closed socket ∷ [], false)))
          else (client', (opened socket ∷ closed socket ∷ [], false))
    ]
    else (client, ([], false))

-- `bytes` are those at `data`, and `none` is NULL; `result` is what `send` returns, `none` for an
-- error. A result of `false` is -1.
unfoldable pub client_send : Option ℕ → Client → Option (List ℕ) → ℕ → List Event × Bool
client_send result client bytes size = if size == 0 then ([], true) else elim bytes [
  | none ↦ ([], false)
  | some data' ↦ elim client.socket [
    | none ↦ ([], false)
    | some socket ↦ elim result [
      | none ↦ (sent socket data' ∷ [], false)
      | some n ↦ (sent socket data' ∷ [], true)
    ]
  ]
]

-- The thread is joined when its `recv` has returned and its loop has ended.
unfoldable pub client_destroy : Client → Client × List Event
client_destroy client = (
  record client { run = false },
  elim client.socket [ none ↦ [] | some socket ↦ closed socket ∷ [] ],
)

-- The loop over what `recv` returns; it is not finished when `recv` keeps waiting.
unfoldable pub client_loop : Client → List Recv → List Event × Bool
client_loop client [] = ([], false)
client_loop client (failed ∷ results) = ([], true)
client_loop client (received [] ∷ results) = ([], true)
client_loop client (received (byte ∷ bytes) ∷ results) =
    let (events, finished) = client_loop client results in
    (if client.data_callback then data_chunk (byte ∷ bytes) ∷ events else events, finished)

-- The thread, which looks at `run` before its first `recv`.
unfoldable pub client_thread : Client → List Recv → List Event × Bool
client_thread client results = if client.run then client_loop client results else ([], true)
