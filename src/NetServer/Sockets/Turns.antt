-- ===== src/NetServer/Sockets/Turns.antt =====
-- The turns of a round of the thread, and the whole round.
use modemstuff.Base.{
  ℕ, zero, suc, ◌≡◌, refl, Bool-cases, inl, inr, List, [], ◌∷◌, Option-cases, some, Bool, true,
  false, arith, ◌==◌,
}
use modemstuff.NetServer.{Server, lock, unlock, opened, closed}
use modemstuff.NetServer.Thread.{
  Recv, Accept, not_accepted, accepted, Flow, proceed, again, stop, blocked, Turn, assign,
  accept_client, Poll, poll_failed, timeout, ready, Round, accept_turn, receive_turn, and_then,
  after_poll, poll_events, server_round,
}
use modemstuff.NetServer.Ledger.{Accounts, unchanged, join, front, hit_zero}
use modemstuff.NetServer.Sockets.{receive_all_lem}

assign_lem :
    (client : ℕ) (sockets assigned : List ℕ)
    → assign client sockets ≡ some assigned
    → Accounts sockets (opened client ∷ []) assigned
unfolding assign
assign_lem client [] assigned e = cc
assign_lem client (zero ∷ sockets) assigned e =
    let same : client ∷ sockets ≡ assigned = cc in
    rw (← same) (record { slots = refl; sockets = λ fd h. omega (arith, hit_zero fd h) })
assign_lem client (suc n ∷ sockets) assigned e = elim (Option-cases (assign client sockets)) [
  | inl full ↦ absurd cc
  | inr (rest, f) ↦
      let kept = rw f at e in
      let same : suc n ∷ rest ≡ assigned = cc in
      rw (← same) (
        front (suc n) (suc n) [] (opened client ∷ []) (λ fd h. refl)
          (assign_lem client sockets rest f))
]

closed_again :
    (client : ℕ) (sockets : List ℕ) → Accounts sockets (opened client ∷ closed client ∷ []) sockets
closed_again client sockets = record { slots = refl; sockets = λ fd h. omega arith }

accept_client_lem :
    (accept : Accept) (sockets : List ℕ)
    → Accounts sockets
        (accept_client accept sockets).events
        (accept_client accept sockets).client_sockets
unfolding accept_client
accept_client_lem not_accepted sockets = unchanged sockets
accept_client_lem (accepted client address) sockets = elim (Bool-cases (address == 0)) [
  | inl nowhere ↦ rw nowhere (closed_again client sockets)
  | inr somewhere ↦ rw somewhere (elim (Option-cases (assign client sockets)) [
    | inl full ↦ rw full (closed_again client sockets)
    | inr (assigned, e) ↦ rw e (assign_lem client sockets assigned e)
  ])
]

and_then_lem :
    (before : List ℕ) (turn : Turn) (next : List ℕ → Turn)
    → Accounts before turn.events turn.client_sockets
    → ((sockets : List ℕ) → Accounts sockets (next sockets).events (next sockets).client_sockets)
    → Accounts before (and_then turn next).events (and_then turn next).client_sockets
unfolding and_then
and_then_lem before turn next p q = go turn.flow refl
  where
    go :
        (flow : Flow)
        → turn.flow ≡ flow
        → Accounts before (and_then turn next).events (and_then turn next).client_sockets
    go proceed e = rw e (join turn.events _ p (q turn.client_sockets))
    go again e = rw e p
    go stop e = rw e p
    go blocked e = rw e p

accept_turn_lem :
    (active : Bool) (accept : Accept) (sockets : List ℕ)
    → Accounts sockets
        (accept_turn active accept sockets).events
        (accept_turn active accept sockets).client_sockets
unfolding accept_turn
accept_turn_lem true accept sockets = accept_client_lem accept sockets
accept_turn_lem false accept sockets = unchanged sockets

receive_turn_lem :
    (server : Server) (is_set : ℕ → Bool) (results : ℕ → List Recv) (sockets : List ℕ)
    → Accounts sockets
        (receive_turn server is_set results sockets).events
        (receive_turn server is_set results sockets).client_sockets
unfolding receive_turn
receive_turn_lem server is_set results sockets =
    elim (Bool-cases server.client_data_chunk_callback) [
      | inl wanted ↦ simp wanted (receive_all_lem server is_set results 0 sockets)
      | inr unwanted ↦ simp unwanted (unchanged sockets)
    ]

after_poll_lem :
    (poll : Poll) (round : Round) (server : Server)
    → Accounts server.client_sockets
        (after_poll poll round server).events
        (after_poll poll round server).client_sockets
unfolding after_poll
after_poll_lem poll_failed round server = unchanged server.client_sockets
after_poll_lem timeout round server = unchanged server.client_sockets
after_poll_lem (ready is_ready) round server =
    and_then_lem server.client_sockets _ _ (accept_turn_lem _ round.accept server.client_sockets)
      (receive_turn_lem server _ round.results)

pub server_round-Accounts :
    (round : Round) (server : Server)
    → Accounts server.client_sockets
        (server_round round server).events
        (server_round round server).client_sockets
unfolding server_round poll_events
server_round-Accounts round server =
    let turn = after_poll_lem round.poll round server in
    elim (Bool-cases server.client_data_chunk_callback) [
      | inl wanted ↦
          simp wanted
            (join (lock ∷ unlock ∷ []) _ (record { slots = refl; sockets = λ fd h. refl }) turn)
      | inr unwanted ↦ simp unwanted turn
    ]
