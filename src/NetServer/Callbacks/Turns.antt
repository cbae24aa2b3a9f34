-- ===== src/NetServer/Callbacks/Turns.antt =====
-- The turns of a round of the thread, and the whole round.
use modemstuff.Base.{
  ℕ, ◌^◌, ◌<◌, Option-cases, ◌≡◌, refl, Bool-cases, inl, inr, List, Bool, true, false, ◌==◌,
}
use modemstuff.NetServer.{Server}
use modemstuff.NetServer.Thread.{
  Recv, receive_all, Accept, not_accepted, accepted, Flow, proceed, again, stop, blocked, Turn,
  assign, accept_client, Poll, poll_failed, timeout, ready, Round, accept_turn, receive_turn,
  and_then, after_poll, poll_events, server_round,
}
use modemstuff.NetServer.Callbacks.{
  outside, walk, walk-append, IsInOrder, is_done, reception_len, receive_all_lem,
}

-- Every reception of the round gets less than 2^31 bytes.
abbrev pub IsShort : Round → Type 0
IsShort round = (k : ℕ) → reception_len (round.results k) < 2 ^ 31

abbrev pub Keeps : Turn → Type 0
Keeps turn = IsInOrder (is_done turn.flow) (walk outside turn.events)

accept_client_lem :
    (accept : Accept) (sockets : List ℕ)
    → (walk outside (accept_client accept sockets).events ≡ outside)
      × (is_done (accept_client accept sockets).flow ≡ true)
unfolding accept_client
accept_client_lem not_accepted sockets = (refl, refl)
accept_client_lem (accepted socket address) sockets = elim (Bool-cases (address == 0)) [
  | inl nowhere ↦ rw nowhere (refl, refl)
  | inr somewhere ↦ rw somewhere (elim (Option-cases (assign socket sockets)) [
    | inl full ↦ rw full (refl, refl)
    | inr (assigned, e) ↦ rw e (refl, refl)
  ])
]

accept_turn_lem :
    (active : Bool) (accept : Accept) (sockets : List ℕ)
    → (walk outside (accept_turn active accept sockets).events ≡ outside)
      × (is_done (accept_turn active accept sockets).flow ≡ true)
unfolding accept_turn
accept_turn_lem true accept sockets = accept_client_lem accept sockets
accept_turn_lem false accept sockets = (refl, refl)

and_then_lem :
    (turn : Turn) (next : List ℕ → Turn)
    → walk outside turn.events ≡ outside
    → is_done turn.flow ≡ true
    → ((sockets : List ℕ) → Keeps (next sockets))
    → Keeps (and_then turn next)
unfolding and_then
and_then_lem turn next p d q = go turn.flow refl
  where
    go : (flow : Flow) → turn.flow ≡ flow → Keeps (and_then turn next)
    go proceed e =
        rw (e, walk-append outside turn.events (next turn.client_sockets).events, p)
          (q turn.client_sockets)
    go again e = rw (e, p) refl
    go stop e = rw (e, p) refl
    go blocked e = absurd cc

module _ (server : Server) (starts : server.client_data_start_callback ≡ true)
    (ends : server.client_data_end_callback ≡ true) where
  receive_turn_lem :
      (is_set : ℕ → Bool) (results : ℕ → List Recv) (sockets : List ℕ)
      → ((k : ℕ) → reception_len (results k) < 2 ^ 31)
      → Keeps (receive_turn server is_set results sockets)
  unfolding receive_turn
  receive_turn_lem is_set results sockets few =
      let pass = receive_all server is_set results 0 sockets in
      let order = receive_all_lem server starts ends is_set results 0 sockets few in
      elim (Bool-cases server.client_data_chunk_callback) [
        | inr unwanted ↦ simp unwanted refl
        | inl wanted ↦ elim (Bool-cases pass.finished) [
          | inl whole ↦ simp (wanted, whole) (rw whole at order)
          | inr waits ↦ simp (wanted, waits) (rw waits at order)
        ]
      ]

  after_poll_lem :
      (poll : Poll) (round : Round) → IsShort round → Keeps (after_poll poll round server)
  unfolding after_poll
  after_poll_lem poll_failed round few = refl
  after_poll_lem timeout round few = refl
  after_poll_lem (ready is_ready) round few =
      let (p, d) = accept_turn_lem _ round.accept server.client_sockets in
      and_then_lem _ _ p d (λ sockets. receive_turn_lem _ round.results sockets few)

  pub server_round-IsInOrder :
      (round : Round)
      → IsShort round
      → IsInOrder
          (is_done (server_round round server).flow)
          (walk outside (server_round round server).events)
  unfolding server_round poll_events
  server_round-IsInOrder round few = elim (Bool-cases server.client_data_chunk_callback) [
    | inl wanted ↦ simp wanted (after_poll_lem round.poll round few)
    | inr unwanted ↦ simp unwanted (after_poll_lem round.poll round few)
  ]
