-- ===== src/NetServer/Sockets.antt =====
-- No operation of the server loses a socket or closes one twice.
pub mod Turns
use modemstuff.Base.{
  ℕ, zero, suc, ◌+◌, ◌<◌, ◌≡◌, refl, Bool-cases, inl, inr, List, [], ◌∷◌, ◌++◌, Option,
  Option-cases, none, some, Bool, true, false, ◌&&◌, arith, length, ltb, ◌==◌,
}
use modemstuff.NetServer.{
  Server, Event, lock, unlock, opened, closed, data_chunk, SendResult, select_failed, send_failed,
  sent_bytes, disconnect, send_to, send_all, broadcast,
}
use modemstuff.NetServer.Thread.{
  int_of, is_positive, Recv, failed, received, announce, conclude, hang_up, receive, receive_all,
  Accept, not_accepted, accepted, Flow, proceed, again, stop, blocked, Turn, assign, accept_client,
  Poll, poll_failed, timeout, ready, Round, accept_turn, receive_turn, and_then, after_poll,
  poll_events, server_round, data_buf_size,
}
use modemstuff.NetServer.Ledger.{
  hit, opens, closes, Accounts, opens-append, closes-append, unchanged, join, front, hit_zero,
}

send_to_lem :
    (result : SendResult) (bytes : List ℕ) (size socket fd : ℕ)
    → 0 < fd
    → hit fd socket + opens fd (send_to result bytes size socket).1
      ≡ hit fd (send_to result bytes size socket).0 + closes fd (send_to result bytes size socket).1
unfolding send_to disconnect
send_to_lem select_failed bytes size socket fd h = omega (arith, hit_zero fd h)
send_to_lem send_failed bytes size socket fd h = omega (arith, hit_zero fd h)
send_to_lem (sent_bytes n) bytes size socket fd h = elim (Bool-cases (n == size)) [
  | inl whole ↦ rw whole (omega arith)
  | inr part ↦ rw part (omega (arith, hit_zero fd h))
]

send_all_lem :
    (result : ℕ → SendResult) (bytes : List ℕ) (size i : ℕ) (sockets : List ℕ)
    → Accounts sockets
        (send_all result bytes size i sockets).events
        (send_all result bytes size i sockets).client_sockets
unfolding send_all
send_all_lem result bytes size i [] = unchanged []
send_all_lem result bytes size i (socket ∷ sockets) =
    let rest = send_all_lem result bytes size (i + 1) sockets in
    elim (Bool-cases (ltb 0 socket)) [
      | inl some_client ↦
          rw some_client (front socket _ _ _ (send_to_lem (result i) bytes size socket) rest)
      | inr empty ↦ rw empty (front socket socket [] _ (λ fd h. refl) rest)
    ]

pub broadcast-Accounts :
    (result : ℕ → SendResult) (server : Server) (bytes : Option (List ℕ)) (size : ℕ)
    → Accounts server.client_sockets
        (broadcast result server bytes size).1.0
        (broadcast result server bytes size).0.client_sockets
unfolding broadcast
broadcast-Accounts result server none size = unchanged server.client_sockets
broadcast-Accounts result server (some bytes) size = elim (Bool-cases (size == 0)) [
  | inl empty ↦ rw empty (unchanged server.client_sockets)
  | inr more ↦ rw more (send_all_lem result bytes size 0 server.client_sockets)
]

-- Events that neither open nor close a socket.
IsSilent : List Event → Type 0
IsSilent events = (fd : ℕ) → (opens fd events ≡ 0) × (closes fd events ≡ 0)

announce-IsSilent : (server : Server) (total : ℕ) → IsSilent (announce server total)
unfolding announce IsSilent
announce-IsSilent server total fd =
    elim (Bool-cases (total == 0 && server.client_data_start_callback)) [
      | inl first ↦ rw first (refl, refl)
      | inr later ↦ rw later (refl, refl)
    ]

conclude-IsSilent : (server : Server) (total : ℕ) → IsSilent (conclude server total)
unfolding conclude IsSilent
conclude-IsSilent server total fd =
    elim (Bool-cases (is_positive total && server.client_data_end_callback)) [
      | inl some_data ↦ rw some_data (refl, refl)
      | inr none_yet ↦ rw none_yet (refl, refl)
    ]

hang_up_lem :
    (server : Server) (socket total fd : ℕ)
    → 0 < fd
    → hit fd socket + opens fd (hang_up server socket total).events
      ≡ hit fd (hang_up server socket total).socket + closes fd (hang_up server socket total).events
unfolding hang_up IsSilent
hang_up_lem server socket total fd h =
    let (o, c) = conclude-IsSilent server total fd in omega (arith, hit_zero fd h, o, c)

receive_lem :
    (server : Server) (socket total : ℕ) (results : List Recv) (fd : ℕ)
    → 0 < fd
    → hit fd socket + opens fd (receive server socket total results).events
      ≡ hit fd (receive server socket total results).socket
        + closes fd (receive server socket total results).events
unfolding receive IsSilent
receive_lem server socket total [] fd h = refl
receive_lem server socket total (failed ∷ results) fd h = hang_up_lem server socket total fd h
receive_lem server socket total (received [] ∷ results) fd h = hang_up_lem server socket total fd h
receive_lem server socket total (received (byte ∷ bytes) ∷ results) fd h =
    let len = length (byte ∷ bytes) in
    let chunk = data_chunk (byte ∷ bytes) ∷ [] in
    let before = announce server total in
    let now = before ++ chunk in
    let rest = receive server socket (int_of (total + len)) results in
    let after = conclude server (int_of (total + len)) in
    let (o, c) = announce-IsSilent server total fd in
    let (o', c') = conclude-IsSilent server (int_of (total + len)) fd in
    elim (Bool-cases (len == data_buf_size)) [
      | inl full ↦ rw full (
          omega (
            arith,
            opens-append fd before chunk,
            closes-append fd before chunk,
            opens-append fd now rest.events,
            closes-append fd now rest.events,
            o,
            c,
            receive_lem server socket (int_of (total + len)) results fd h,
          ))
      | inr part ↦ rw part (
          omega (
            arith,
            opens-append fd before chunk,
            closes-append fd before chunk,
            opens-append fd now after,
            closes-append fd now after,
            o,
            c,
            o',
            c',
          ))
    ]

-- A reception that waits leaves the slot as it is.
waiting_lem :
    (server : Server) (socket total : ℕ) (results : List Recv)
    → (receive server socket total results).finished ≡ false
    → (receive server socket total results).socket ≡ socket
unfolding receive hang_up
waiting_lem server socket total [] h = refl
waiting_lem server socket total (failed ∷ results) h = cc
waiting_lem server socket total (received [] ∷ results) h = cc
waiting_lem server socket total (received (byte ∷ bytes) ∷ results) h =
    let len = length (byte ∷ bytes) in
    elim (Bool-cases (len == data_buf_size)) [
      | inl full ↦ rw full (waiting_lem server socket (int_of (total + len)) results (rw full at h))
      | inr part ↦ rw part refl
    ]

receive_all_lem :
    (server : Server) (is_set : ℕ → Bool) (results : ℕ → List Recv) (i : ℕ) (sockets : List ℕ)
    → Accounts sockets
        (receive_all server is_set results i sockets).events
        (receive_all server is_set results i sockets).client_sockets
unfolding receive_all
receive_all_lem server is_set results i [] = unchanged []
receive_all_lem server is_set results i (socket ∷ sockets) =
    let rest = receive_all_lem server is_set results (i + 1) sockets in
    let one = receive_lem server socket 0 (results i) in
    let slot = receive server socket 0 (results i) in
    elim (Bool-cases (ltb 0 socket && is_set socket)) [
      | inr idle ↦ rw idle (front socket socket [] _ (λ fd h. refl) rest)
      | inl active ↦ elim (Bool-cases slot.finished) [
        | inl whole ↦ rw (active, whole) (front socket slot.socket slot.events _ one rest)
        | inr waits ↦
            rw (active, waits)
              (record {
                slots = refl;
                sockets = λ fd h.
                    omega (arith, rw (waiting_lem server socket 0 (results i) waits) at (one fd h));
              })
      ]
    ]
