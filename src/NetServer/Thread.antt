-- ===== src/NetServer/Thread.antt =====
-- The thread of the server, server_thread_function of src/netstuff/netserver.c.
use modemstuff.Base.{
  ℕ, zero, suc, ◌+◌, ◌%◌, ◌^◌, max, List, [], ◌∷◌, ◌++◌, Option, none, some, Bool, true, false,
  ◌&&◌, length, ltb, ◌==◌, if◌then◌else◌,
}
use modemstuff.NetServer.{
  Server, Event, lock, unlock, opened, closed, data_start, data_chunk, data_end,
}

abbrev pub data_buf_size : ℕ
data_buf_size = 1024

-- A result of `recv`: an error, or the bytes, of which there are none when the client is gone.
pub data Recv : Type 0 where
  failed : Recv
  received : List ℕ → Recv

pub record Reception : Type 0 where
  pub socket : ℕ
  pub events : List Event
  pub finished : Bool

-- The bits of an `int` of 32, and whether it is positive.
abbrev pub int_of : ℕ → ℕ
int_of n = n % 2 ^ 32

abbrev pub is_positive : ℕ → Bool
is_positive n = ltb 0 n && ltb n (2 ^ 31)

unfoldable pub announce : Server → ℕ → List Event
announce server total =
    if total == 0 && server.client_data_start_callback then data_start ∷ [] else []

unfoldable pub conclude : Server → ℕ → List Event
conclude server total =
    if is_positive total && server.client_data_end_callback then data_end ∷ [] else []

unfoldable pub hang_up : Server → ℕ → ℕ → Reception
hang_up server socket total = record {
  socket = 0;
  events = closed socket ∷ conclude server total;
  finished = true;
}

-- The loop over what `recv` returns for a socket; it is not finished when `recv` keeps waiting. The
-- total is an `int`, whose overflow wraps around.
unfoldable pub receive : Server → ℕ → ℕ → List Recv → Reception
receive server socket total [] = record { socket = socket; events = []; finished = false }
receive server socket total (failed ∷ results) = hang_up server socket total
receive server socket total (received [] ∷ results) = hang_up server socket total
receive server socket total (received (byte ∷ bytes) ∷ results) =
    let len = length (byte ∷ bytes) in
    let now = announce server total ++ (data_chunk (byte ∷ bytes) ∷ []) in
    let rest = receive server socket (int_of (total + len)) results in
    if len == data_buf_size then record rest { events = now ++ rest.events } else record {
      socket = socket;
      events = now ++ conclude server (int_of (total + len));
      finished = true;
    }

pub record Pass : Type 0 where
  pub client_sockets : List ℕ
  pub events : List Event
  pub finished : Bool

-- `results` gives what `recv` returns for a slot.
unfoldable pub receive_all : Server → (ℕ → Bool) → (ℕ → List Recv) → ℕ → List ℕ → Pass
receive_all server is_set results i [] = record {
  client_sockets = [];
  events = [];
  finished = true;
}
receive_all server is_set results i (socket ∷ sockets) =
    let rest = receive_all server is_set results (i + 1) sockets in
    let one = receive server socket 0 (results i) in
    if ltb 0 socket && is_set socket
    then (if one.finished
        then record rest {
          client_sockets = one.socket ∷ rest.client_sockets;
          events = one.events ++ rest.events;
        }
        else record { client_sockets = socket ∷ sockets; events = one.events; finished = false })
    else record rest { client_sockets = socket ∷ rest.client_sockets }

-- `accept`: an error, or the socket and the client's address.
pub data Accept : Type 0 where
  not_accepted : Accept
  accepted : ℕ → ℕ → Accept

-- Where the body of the thread's loop goes on.
pub data Flow : Type 0 where
  proceed : Flow
  again : Flow
  stop : Flow
  blocked : Flow

pub record Turn : Type 0 where
  pub client_sockets : List ℕ
  pub events : List Event
  pub flow : Flow

unfoldable pub assign : ℕ → List ℕ → Option (List ℕ)
assign client [] = none
assign client (zero ∷ sockets) = some (client ∷ sockets)
assign client (suc n ∷ sockets) = elim (assign client sockets) [
  | none ↦ none
  | some rest ↦ some (suc n ∷ rest)
]

unfoldable pub accept_client : Accept → List ℕ → Turn
accept_client not_accepted sockets = record { client_sockets = sockets; events = []; flow = stop }
accept_client (accepted client address) sockets =
    if address == 0
    then record {
      client_sockets = sockets;
      events = opened client ∷ closed client ∷ [];
      flow = again;
    }
    else elim (assign client sockets) [
      | none ↦ record {
        client_sockets = sockets;
        events = opened client ∷ closed client ∷ [];
        flow = proceed;
      }
      | some assigned ↦ record {
        client_sockets = assigned;
        events = opened client ∷ [];
        flow = proceed;
      }
    ]

-- The sockets to read from, the server's first.
unfoldable pub connected : List ℕ → List ℕ
connected [] = []
connected (zero ∷ sockets) = connected sockets
connected (suc n ∷ sockets) = suc n ∷ connected sockets

unfoldable pub sockets_to_read : Server → List ℕ
sockets_to_read server =
    server.server_socket
    ∷ (if server.client_data_chunk_callback then connected server.client_sockets else [])

unfoldable pub max_socket : List ℕ → ℕ
max_socket [] = 0
max_socket (socket ∷ sockets) = max socket (max_socket sockets)

unfoldable pub in_set : ℕ → List ℕ → Bool
in_set fd [] = false
in_set fd (socket ∷ sockets) = if fd == socket then true else in_set fd sockets

unfoldable pub poll_events : Server → List Event
poll_events server = if server.client_data_chunk_callback then lock ∷ unlock ∷ [] else []

-- What `pselect` returns; of the sockets that it was given, some are ready.
pub data Poll : Type 0 where
  poll_failed : Poll
  timeout : Poll
  ready : (ℕ → Bool) → Poll

pub record Round : Type 0 where
  pub poll : Poll
  pub accept : Accept
  pub results : ℕ → List Recv

unfoldable pub accept_turn : Bool → Accept → List ℕ → Turn
accept_turn true accept sockets = accept_client accept sockets
accept_turn false accept sockets = record { client_sockets = sockets; events = []; flow = proceed }

unfoldable pub receive_turn : Server → (ℕ → Bool) → (ℕ → List Recv) → List ℕ → Turn
receive_turn server is_set results sockets =
    let pass = receive_all server is_set results 0 sockets in
    if server.client_data_chunk_callback
    then record {
      client_sockets = pass.client_sockets;
      events = pass.events;
      flow = if pass.finished then again else blocked;
    }
    else record { client_sockets = sockets; events = []; flow = again }

-- What follows a part of the loop's body, unless that leaves it.
unfoldable pub and_then : Turn → (List ℕ → Turn) → Turn
and_then turn next = elim turn.flow [
  | proceed ↦
      let rest = next turn.client_sockets in record rest { events = turn.events ++ rest.events }
  | again ↦ turn
  | stop ↦ turn
  | blocked ↦ turn
]

unfoldable pub after_poll : Poll → Round → Server → Turn
after_poll poll_failed round server = record {
  client_sockets = server.client_sockets;
  events = [];
  flow = stop;
}
after_poll timeout round server = record {
  client_sockets = server.client_sockets;
  events = [];
  flow = again;
}
after_poll (ready is_ready) round server =
    let is_set = λ (fd : ℕ). in_set fd (sockets_to_read server) && is_ready fd in
    and_then (accept_turn (is_set server.server_socket) round.accept server.client_sockets)
      (receive_turn server is_set round.results)

-- The body of the loop of server_thread_function.
unfoldable pub server_round : Round → Server → Turn
server_round round server =
    let turn = after_poll round.poll round server in
    record turn { events = poll_events server ++ turn.events }
