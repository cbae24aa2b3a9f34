-- ===== src/NetServer/Accepting.antt =====
-- New clients, and the sockets that the thread waits for.
use modemstuff.Base.{
  ℕ, zero, suc, ◌+◌, ◌≤◌, ◌<◌, ◌≡◌, ◌≢◌, refl, ap, ◌⊎◌, inl, inr, List, [], ◌∷◌, Option-cases,
  Bool-cases, none, some, true, false, arith, get_elem?, set, ◌==◌,
}
use modemstuff.NetServer.{Server, opened, closed}
use modemstuff.NetServer.Thread.{
  accepted, proceed, Turn, assign, accept_client, sockets_to_read, max_socket, connected, in_set,
}

-- The client takes the slot, the first one that is empty.
pub record Takes (client : ℕ) (sockets : List ℕ) (assigned : List ℕ) : Type 0 where
  pub slot : ℕ
  pub empty : get_elem? sockets slot ≡ some 0
  pub first : (i : ℕ) → i < slot → get_elem? sockets i ≢ some 0
  pub stored : assigned ≡ set sockets slot client

assign-Takes :
    (client : ℕ) (sockets assigned : List ℕ)
    → assign client sockets ≡ some assigned
    → Takes client sockets assigned
unfolding assign
assign-Takes client [] assigned e = cc
assign-Takes client (zero ∷ sockets) assigned e = record {
  slot = 0;
  empty = refl;
  first = λ i h. absurd (omega arith);
  stored = cc;
}
assign-Takes client (suc n ∷ sockets) assigned e = elim (Option-cases (assign client sockets)) [
  | inl full ↦ absurd cc
  | inr (rest, f) ↦
      let deeper = assign-Takes client sockets rest f in
      let kept = rw f at e in
      let same : suc n ∷ rest ≡ assigned = cc in
      record {
        slot = suc deeper.slot;
        empty = deeper.empty;
        first = λ i h e'. earlier n sockets deeper.slot deeper.first i h e';
        stored = rw (← same) (ap (λ t. suc n ∷ t) deeper.stored);
      }
]
  where
    earlier :
        (n : ℕ) (sockets : List ℕ) (slot : ℕ)
        → ((i : ℕ) → i < slot → get_elem? sockets i ≢ some 0)
        → (i : ℕ) → i < suc slot
        → get_elem? (suc n ∷ sockets) i ≢ some 0
    earlier n sockets slot h zero l e = cc
    earlier n sockets slot h (suc i) l e = h i (omega arith) e

assign-full :
    (client : ℕ) (sockets : List ℕ)
    → assign client sockets ≡ none
    → (i : ℕ) → get_elem? sockets i ≢ some 0
unfolding assign
assign-full client [] e i f = cc
assign-full client (zero ∷ sockets) e i f = cc
assign-full client (suc n ∷ sockets) e zero f = cc
assign-full client (suc n ∷ sockets) e (suc i) f = elim (Option-cases (assign client sockets)) [
  | inl full ↦ assign-full client sockets full i f
  | inr (rest, g) ↦ absurd cc
]

-- A client with an address takes the first empty slot, the other slots stay as they are, and its
-- socket stays open; if no slot is empty, all stay and the socket is closed.
accept_client-slot :
    (client address : ℕ) (sockets : List ℕ)
    → 0 < address
    → ((turn : Turn) × (accept_client (accepted client address) sockets ≡ turn)
        × Takes client sockets turn.client_sockets
        × (turn.events ≡ opened client ∷ []))
      ⊎ (((i : ℕ) → get_elem? sockets i ≢ some 0)
          × (accept_client (accepted client address) sockets ≡ record {
            client_sockets = sockets;
            events = opened client ∷ closed client ∷ [];
            flow = proceed;
          }))
unfolding accept_client
accept_client-slot client address sockets h =
    let somewhere : (address == 0) ≡ false = ground arith in
    elim (Option-cases (assign client sockets)) [
      | inl full ↦ inr (assign-full client sockets full, rw (somewhere, full) refl)
      | inr (assigned, e) ↦ inl (
        record { client_sockets = assigned; events = opened client ∷ []; flow = proceed },
        rw (somewhere, e) refl,
        assign-Takes client sockets assigned e,
        refl,
      )
    ]

connected_lem :
    (sockets : List ℕ) (k n : ℕ)
    → get_elem? sockets k ≡ some (suc n)
    → (in_set (suc n) (connected sockets) ≡ true) × (suc n ≤ max_socket (connected sockets))
unfolding connected in_set max_socket
connected_lem [] k n e = cc
connected_lem (zero ∷ sockets) zero n e = cc
connected_lem (suc m ∷ sockets) zero n e =
    let same : suc m ≡ suc n = cc in
    let found : (suc n == suc n) ≡ true = ground arith in rw (same, found) (refl, omega arith)
connected_lem (zero ∷ sockets) (suc k) n e = connected_lem sockets k n e
connected_lem (suc m ∷ sockets) (suc k) n e =
    let (found, bound) = connected_lem sockets k n e in
    (
      elim (Bool-cases (suc n == suc m)) [
        | inl here ↦ rw here refl
        | inr there ↦ rw (there, found) refl
      ],
      omega arith,
    )

-- If the callback for chunks is set, the thread waits for every client, and for the server's socket:
-- they are in the set given to `pselect` and below its first argument.
pub sockets_to_read_lem :
    (server : Server) (k socket : ℕ)
    → server.client_data_chunk_callback ≡ true
    → 0 < socket
    → get_elem? server.client_sockets k ≡ some socket
    → (in_set server.server_socket (sockets_to_read server) ≡ true)
      × (in_set socket (sockets_to_read server) ≡ true)
      × (socket < max_socket (sockets_to_read server) + 1)
      × (server.server_socket < max_socket (sockets_to_read server) + 1)
unfolding sockets_to_read in_set max_socket
sockets_to_read_lem server k zero c h e = absurd (omega arith)
sockets_to_read_lem server k (suc n) c h e =
    let (found, bound) = connected_lem server.client_sockets k n e in
    let own : (server.server_socket == server.server_socket) ≡ true = ground arith in
    simp (c, own, found)
      (
        refl,
        elim (Bool-cases (suc n == server.server_socket)) [
          | inl here ↦ simp here refl
          | inr there ↦ simp there refl
        ],
        omega arith,
        omega arith,
      )
