-- ===== src/NetServer.antt =====
-- The server of src/netstuff/netserver.c and include/netstuff/netserver.h. What the calls of the
-- system return is an argument, and what they and the callbacks are given is a list of events.
pub mod Thread
pub mod Ledger
pub mod Sockets
pub mod Callbacks
pub mod Broadcast
pub mod Accepting
pub mod Receiving
pub mod Quiet
pub mod Runs
pub mod Interleaving
mod Examples
use modemstuff.Base.{
  ℕ, zero, suc, ◌+◌, max, List, [], ◌∷◌, ◌++◌, Option, none, some, Bool, true, false, ◌&&◌, length,
  replicate, ltb, ◌==◌, if◌then◌else◌,
}

abbrev pub max_clients : ℕ
max_clients = 32

-- A client socket of 0 is an empty slot. A callback is known by whether it is set.
pub record Server : Type 0 where
  pub server_socket : ℕ
  pub client_sockets : List ℕ
  pub run : Bool
  pub client_data_start_callback : Bool
  pub client_data_chunk_callback : Bool
  pub client_data_end_callback : Bool

pub data Event : Type 0 where
  lock : Event
  unlock : Event
  opened : ℕ → Event
  closed : ℕ → Event
  sent : ℕ → List ℕ → Event
  data_start : Event
  data_chunk : List ℕ → Event
  data_end : Event

-- The new socket, if there is one, and whether the calls with it succeed.
pub record Setup : Type 0 where
  pub socket : Option ℕ
  pub setsockopt_ok : Bool
  pub bind_ok : Bool
  pub listen_ok : Bool

-- The structure after `memset`, with a socket.
abbrev pub cleared : ℕ → Server
cleared socket = record {
  server_socket = socket;
  client_sockets = replicate max_clients 0;
  run = false;
  client_data_start_callback = false;
  client_data_chunk_callback = false;
  client_data_end_callback = false;
}

-- `none` is the result -1.
unfoldable pub server_init : Setup → Option Server × List Event
server_init setup = elim setup.socket [
  | none ↦ (none, [])
  | some socket ↦
      if setup.setsockopt_ok && (setup.bind_ok && setup.listen_ok)
      then (some (cleared socket), opened socket ∷ [])
      else (none, opened socket ∷ closed socket ∷ [])
]

unfoldable pub set_callbacks : Server → Bool → Bool → Bool → Server
set_callbacks server start chunk end = record server {
  client_data_start_callback = start;
  client_data_chunk_callback = chunk;
  client_data_end_callback = end;
}

unfoldable pub server_start : Server → Server
server_start server = record server { run = true }

-- How `select` and `send` end for a client.
pub data SendResult : Type 0 where
  select_failed : SendResult
  send_failed : SendResult
  sent_bytes : ℕ → SendResult

pub record Slots : Type 0 where
  pub client_sockets : List ℕ
  pub events : List Event

unfoldable pub disconnect : ℕ → List Event
disconnect socket = lock ∷ closed socket ∷ unlock ∷ []

-- One client: its slot's new value and the events.
unfoldable pub send_to : SendResult → List ℕ → ℕ → ℕ → ℕ × List Event
send_to select_failed bytes size socket = (0, disconnect socket)
send_to send_failed bytes size socket = (0, sent socket bytes ∷ disconnect socket)
send_to (sent_bytes n) bytes size socket =
    if n == size
    then (socket, sent socket bytes ∷ [])
    else (0, sent socket bytes ∷ disconnect socket)

unfoldable pub send_all : (ℕ → SendResult) → List ℕ → ℕ → ℕ → List ℕ → Slots
send_all result bytes size i [] = record { client_sockets = []; events = [] }
send_all result bytes size i (socket ∷ sockets) =
    let rest = send_all result bytes size (i + 1) sockets in
    let one = if ltb 0 socket then send_to (result i) bytes size socket else (socket, []) in
    record { client_sockets = one.0 ∷ rest.client_sockets; events = one.1 ++ rest.events }

-- `bytes` are those at `data`, and `none` is NULL. A result of `false` is -1.
unfoldable pub broadcast :
    (ℕ → SendResult) → Server → Option (List ℕ) → ℕ → Server × (List Event × Bool)
broadcast result server none size = (server, ([], false))
broadcast result server (some bytes) size =
    let slots = send_all result bytes size 0 server.client_sockets in
    if size == 0
    then (server, ([], false))
    else (record server { client_sockets = slots.client_sockets }, (slots.events, true))

unfoldable pub close_all : List ℕ → List Event
close_all [] = []
close_all (zero ∷ sockets) = close_all sockets
close_all (suc n ∷ sockets) = closed (suc n) ∷ close_all sockets

unfoldable pub server_destroy : Server → List Event
server_destroy server = closed server.server_socket ∷ close_all server.client_sockets
