-- ===== src/NetServer/Broadcast.antt =====
-- What a broadcast sends, and which clients stay.
use modemstuff.Base.{
  ℕ, zero, suc, ◌+◌, ◌<◌, ◌≡◌, ◌≢◌, refl, ap, Bool-cases, inl, inr, List, [], ◌∷◌, ◌++◌, map, some,
  Bool, true, false, arith, get_elem?, ltb, ◌==◌, if◌then◌else◌,
}
use modemstuff.NetServer.{
  Server, Event, lock, unlock, opened, closed, sent, data_start, data_chunk, data_end, SendResult,
  select_failed, send_failed, sent_bytes, disconnect, send_to, send_all, broadcast,
}
use modemstuff.NetServer.Thread.{connected}

-- What was sent, and to which socket, in order.
abbrev sendings : List Event → List (ℕ × List ℕ)
sendings [] = []
sendings (sent socket bytes ∷ events) = (socket, bytes) ∷ sendings events
sendings (_ ∷ events) = sendings events

sendings-append : (xs ys : List Event) → sendings (xs ++ ys) ≡ sendings xs ++ sendings ys
sendings-append [] ys = refl
sendings-append (sent socket bytes ∷ xs) ys = ap (λ t. (socket, bytes) ∷ t) (sendings-append xs ys)
sendings-append (lock ∷ xs) ys = sendings-append xs ys
sendings-append (unlock ∷ xs) ys = sendings-append xs ys
sendings-append (opened n ∷ xs) ys = sendings-append xs ys
sendings-append (closed n ∷ xs) ys = sendings-append xs ys
sendings-append (data_start ∷ xs) ys = sendings-append xs ys
sendings-append (data_chunk bytes ∷ xs) ys = sendings-append xs ys
sendings-append (data_end ∷ xs) ys = sendings-append xs ys

send_to-sendings :
    (result : SendResult) (bytes : List ℕ) (size socket : ℕ)
    → result ≢ select_failed
    → sendings (send_to result bytes size socket).1 ≡ (socket, bytes) ∷ []
unfolding send_to disconnect
send_to-sendings select_failed bytes size socket h = absurd (h refl)
send_to-sendings send_failed bytes size socket h = refl
send_to-sendings (sent_bytes n) bytes size socket h = elim (Bool-cases (n == size)) [
  | inl whole ↦ rw whole refl
  | inr part ↦ rw part refl
]

send_all-sendings :
    (result : ℕ → SendResult) (bytes : List ℕ) (size i : ℕ) (sockets : List ℕ)
    → ((k : ℕ) → result k ≢ select_failed)
    → sendings (send_all result bytes size i sockets).events
      ≡ map (λ socket. (socket, bytes)) (connected sockets)
unfolding send_all connected
send_all-sendings result bytes size i [] h = refl
send_all-sendings result bytes size i (zero ∷ sockets) h =
    send_all-sendings result bytes size (i + 1) sockets h
send_all-sendings result bytes size i (suc n ∷ sockets) h =
    let client : ltb 0 (suc n) ≡ true = ground arith in
    rw
      (
        client,
        sendings-append (send_to (result i) bytes size (suc n)).1
            (send_all result bytes size (i + 1) sockets).events,
        send_to-sendings (result i) bytes size (suc n) (h i),
        send_all-sendings result bytes size (i + 1) sockets h,
      )
      refl

-- If no `select` fails, a broadcast of some bytes sends all of them once to every client, in the
-- order of the slots, whatever becomes of the sends to others.
broadcast-sendings :
    (result : ℕ → SendResult) (server : Server) (bytes : List ℕ) (size : ℕ)
    → 0 < size
    → ((k : ℕ) → result k ≢ select_failed)
    → sendings (broadcast result server (some bytes) size).1.0
      ≡ map (λ socket. (socket, bytes)) (connected server.client_sockets)
unfolding broadcast
broadcast-sendings result server bytes size h k =
    let more : (size == 0) ≡ false = ground arith in
    rw more (send_all-sendings result bytes size 0 server.client_sockets k)

-- The call took the whole data.
abbrev pub is_whole : SendResult → ℕ → Bool
is_whole select_failed size = false
is_whole send_failed size = false
is_whole (sent_bytes n) size = n == size

send_to-slot :
    (result : SendResult) (bytes : List ℕ) (size socket : ℕ)
    → (send_to result bytes size socket).0 ≡ (if is_whole result size then socket else 0)
unfolding send_to
send_to-slot select_failed bytes size socket = refl
send_to-slot send_failed bytes size socket = refl
send_to-slot (sent_bytes n) bytes size socket = elim (Bool-cases (n == size)) [
  | inl whole ↦ rw whole refl
  | inr part ↦ rw part refl
]

send_all-slot :
    (result : ℕ → SendResult) (bytes : List ℕ) (size i : ℕ) (sockets : List ℕ) (k j socket : ℕ)
    → get_elem? sockets k ≡ some socket
    → j ≡ i + k
    → get_elem? (send_all result bytes size i sockets).client_sockets k
      ≡ some (if is_whole (result j) size then socket else 0)
unfolding send_all
send_all-slot result bytes size i [] k j socket e f = cc
send_all-slot result bytes size i (s ∷ sockets) zero j socket e f =
    let same : s ≡ socket = cc in
    let here : j ≡ i = omega arith in
    rw (same, here)
      (elim (Bool-cases (ltb 0 socket)) [
        | inl client ↦ rw client (ap some (send_to-slot (result i) bytes size socket))
        | inr empty ↦
            let nobody : socket ≡ 0 = ground arith in
            rw (empty, nobody)
              (elim (Bool-cases (is_whole (result i) size)) [
                | inl whole ↦ rw whole refl
                | inr part ↦ rw part refl
              ])
      ])
send_all-slot result bytes size i (s ∷ sockets) (suc k) j socket e f =
    send_all-slot result bytes size (i + 1) sockets k j socket e (omega arith)

-- A broadcast of some bytes succeeds, and whatever becomes of the others, a client stays in its slot
-- just when its call took as many bytes as there are; else the slot is empty.
pub broadcast-slot :
    (result : ℕ → SendResult) (server : Server) (bytes : List ℕ) (size k socket : ℕ)
    → 0 < size
    → get_elem? server.client_sockets k ≡ some socket
    → ((broadcast result server (some bytes) size).1.1 ≡ true)
      × (get_elem? (broadcast result server (some bytes) size).0.client_sockets k
          ≡ some (if is_whole (result k) size then socket else 0))
unfolding broadcast
broadcast-slot result server bytes size k socket h e =
    let more : (size == 0) ≡ false = ground arith in
    rw more
      (refl, send_all-slot result bytes size 0 server.client_sockets k k socket e (omega arith))
