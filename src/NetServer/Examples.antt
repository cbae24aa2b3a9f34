-- ===== src/NetServer/Examples.antt =====
-- A server on socket 3 with clients on sockets 5 and 7 in the first two of its slots.
use modemstuff.Base.{
  ℕ, zero, suc, ◌+◌, ◌<◌, ◌≡◌, ◌≢◌, refl, [], ◌∷◌, ◌++◌, map, some, true, false, arith, get_elem?,
  replicate, if◌then◌else◌,
}
use modemstuff.NetServer.{
  Server, opened, data_start, data_chunk, data_end, Setup, server_init, set_callbacks, server_start,
  SendResult, sent_bytes, send_failed, select_failed, broadcast, server_destroy, cleared,
}
use modemstuff.NetServer.Thread.{
  received, receive, accepted, again, sockets_to_read, max_socket, in_set, ready, Round,
  server_round,
}
use modemstuff.NetServer.Ledger.{opens, closes}
use modemstuff.NetServer.Callbacks.{outside, walk, IsInOrder, is_done, reception_len}
use modemstuff.NetServer.Callbacks.Turns.{IsShort}
use modemstuff.NetServer.Broadcast.{is_whole, broadcast-slot}
use modemstuff.NetServer.Accepting.{sockets_to_read_lem}
use modemstuff.NetServer.Receiving.{told, receive-whole, receive-full}
use modemstuff.NetServer.Runs.{
  System, Trace, here, next, in_thread, after_round, server_destroy-closes, Trace-IsInOrder,
}

abbrev two_clients : Server
two_clients = record {
  server_socket = 3;
  client_sockets = 5 ∷ 7 ∷ replicate 30 0;
  run = true;
  client_data_start_callback = true;
  client_data_chunk_callback = true;
  client_data_end_callback = true;
}

-- The second client takes less than there is.
abbrev partly : ℕ → SendResult
partly zero = sent_bytes 2
partly (suc zero) = sent_bytes 1
partly _ = send_failed

partly_lem : (k : ℕ) → partly k ≢ select_failed
partly_lem zero e = cc
partly_lem (suc zero) e = cc
partly_lem (suc (suc k)) e = cc

abbrev good_setup : Setup
good_setup = record { socket = some 3; setsockopt_ok = true; bind_ok = true; listen_ok = true }

-- A round in which a client comes, on socket 5.
abbrev arrival : Round
arrival = record {
  poll = ready (λ fd. true);
  accept = accepted 5 1;
  results = λ i. received (1 ∷ []) ∷ [];
}

-- Then the client sends a byte.
abbrev byte_round : Round
byte_round = record {
  poll = ready (λ fd. true);
  accept = accepted 6 0;
  results = λ i. received (1 ∷ []) ∷ [];
}

abbrev started : Server
started = server_start (set_callbacks (cleared 3) true true true)

good : server_init good_setup ≡ (some (cleared 3), opened 3 ∷ [])
unfolding server_init
good = refl

running : started.run ≡ true
unfolding server_start set_callbacks
running = refl

abbrev first_round : System
first_round = after_round arrival started

abbrev trace :
    Trace
      (record { server = started; flow = again })
      ([] ++ (server_round arrival started).events)
      (after_round arrival started)
trace = next here (in_thread started arrival running)

server_destroy-closes_example :
    opens 5 (
      (opened 3 ∷ [])
      ++ (([] ++ (server_round arrival started).events) ++ server_destroy first_round.server))
    ≡ closes 5 (
        (opened 3 ∷ [])
        ++ (([] ++ (server_round arrival started).events) ++ server_destroy first_round.server))
server_destroy-closes_example =
    server_destroy-closes good_setup true true true good trace 5 (omega arith)

arrival-IsShort : IsShort arrival
unfolding reception_len
arrival-IsShort k = omega arith

Trace-IsInOrder_example :
    IsInOrder
      (is_done (server_round arrival two_clients).flow)
      (walk outside ([] ++ (server_round arrival two_clients).events))
Trace-IsInOrder_example =
    Trace-IsInOrder (next here (in_thread two_clients arrival refl)) (tt, arrival-IsShort) refl refl

broadcast-slot_example :
    ((broadcast partly two_clients (some (1 ∷ 2 ∷ [])) 2).1.1 ≡ true)
    × (get_elem? (broadcast partly two_clients (some (1 ∷ 2 ∷ [])) 2).0.client_sockets 1
        ≡ some (if is_whole (partly 1) 2 then 7 else 0))
broadcast-slot_example = broadcast-slot partly two_clients (1 ∷ 2 ∷ []) 2 1 7 (omega arith) refl

sockets_to_read_example :
    (in_set 3 (sockets_to_read two_clients) ≡ true)
    × (in_set 7 (sockets_to_read two_clients) ≡ true)
    × (7 < max_socket (sockets_to_read two_clients) + 1)
    × (3 < max_socket (sockets_to_read two_clients) + 1)
sockets_to_read_example = sockets_to_read_lem two_clients 1 7 refl (omega arith) refl

receive-whole_example :
    receive two_clients 7 0 (map received (replicate 1024 1 ∷ []) ++ (received (2 ∷ []) ∷ []))
    ≡ told 7
        (data_start
          ∷ (map data_chunk (replicate 1024 1 ∷ []) ++ (data_chunk (2 ∷ []) ∷ data_end ∷ [])))
        true
receive-whole_example =
    receive-whole two_clients refl refl 7 (replicate 1024 1 ∷ []) (2 ∷ []) [] (refl, tt)
      (omega arith) (omega arith) (omega arith)

receive-full_example :
    receive two_clients 7 0 (map received (replicate 1024 1 ∷ []))
    ≡ told 7 (data_start ∷ map data_chunk (replicate 1024 1 ∷ [])) false
receive-full_example =
    receive-full two_clients refl refl 7 (replicate 1024 1) [] refl tt (omega arith)
