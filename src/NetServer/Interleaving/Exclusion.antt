-- ===== src/NetServer/Interleaving/Exclusion.antt =====
-- What the mutex of src/netstuff/netserver.c keeps apart.
use modemstuff.Base.{
  ℕ, zero, suc, ◌+◌, ◌≤◌, ◌<◌, ◌≡◌, refl, ap, ◌∙◌, sym, List, [], ◌∷◌, ◌++◌, append_assoc,
  append-nil, Bool, true, false, arith, length, take, take_all, ltb, ◌⊎◌, Bool-cases, inl, inr,
}
use modemstuff.NetServer.Thread.{connected}
use modemstuff.NetServer.Interleaving.{
  ThreadPc, at_lock, filling, at_poll, at_accept, refusing, searching, assigning, scanning, at_recv,
  at_close, at_clear, stopped, BroadcastPc, closing, clearing, unlocking, Holder, nobody, by_thread,
  by_broadcast, System, Action, unlocks, slot_at, add_slot, ThreadMove, fills, poll_fails,
  poll_ends, poll_finds, accept_fails, accepts_nowhere, refuses, accepts, used, unused, assigns,
  rejects, passes, finds, ends, receives_full, receives_last, receives_none, closes_client, clears,
  BroadcastMove, begins, skips, chooses, returns, sends, send_fails, closes_slot, clears_slot, Step,
  thread_locks, thread_unlocks, thread_moves, broadcast_locks, broadcast_unlocks, broadcast_moves,
  Reach, here, next, started,
}

abbrev is_thread : Holder → Bool
is_thread by_thread = true
is_thread _ = false

abbrev is_broadcast : Holder → Bool
is_broadcast by_broadcast = true
is_broadcast _ = false

-- Between the thread's lock and its unlock.
abbrev thread_holds : ThreadPc → Bool
thread_holds (filling i fds) = true
thread_holds _ = false

abbrev pub broadcast_holds : BroadcastPc → Bool
broadcast_holds (closing i) = true
broadcast_holds (clearing i) = true
broadcast_holds (unlocking i) = true
broadcast_holds _ = false

-- The set so far has the sockets of the slots so far.
abbrev IsFilled : ThreadPc → List ℕ → Type 0
IsFilled (filling i fds) s = (fds ≡ connected (take i s)) × (i ≤ length s)
IsFilled _ s = Unit

record IsConsistent (s : System) : Type 0 where
  thread_side : is_thread s.mutex ≡ thread_holds s.thread
  broadcast_side : is_broadcast s.mutex ≡ broadcast_holds s.broadcaster
  filled : IsFilled s.thread s.client_sockets

connected-front :
    (x : ℕ) (sockets : List ℕ) → connected (x ∷ sockets) ≡ add_slot [] x ++ connected sockets
unfolding connected
connected-front zero sockets = refl
connected-front (suc n) sockets =
    let some_socket : ltb 0 (suc n) ≡ true = ground arith in rw some_socket refl

add_slot-append : (xs ys : List ℕ) (x : ℕ) → add_slot (xs ++ ys) x ≡ xs ++ add_slot ys x
add_slot-append xs ys x = elim (Bool-cases (ltb 0 x)) [
  | inl some_socket ↦ rw some_socket (append_assoc xs ys (x ∷ []))
  | inr empty ↦ rw empty refl
]

connected-take :
    (s : List ℕ) (i : ℕ)
    → i < length s
    → connected (take (suc i) s) ≡ add_slot (connected (take i s)) (slot_at s i)
unfolding connected
connected-take [] i h = absurd (omega arith)
connected-take (x ∷ s) zero h = connected-front x [] ∙ append-nil (add_slot [] x)
connected-take (x ∷ s) (suc i) h =
    connected-front x (take (suc i) s)
    ∙ ap (λ t. add_slot [] x ++ t) (connected-take s i (omega arith))
    ∙ sym (add_slot-append (add_slot [] x) (connected (take i s)) (slot_at s i))
    ∙ ap (λ t. add_slot t (slot_at s i)) (sym (connected-front x (take i s)))

not_filling : (t : ThreadPc) (s : List ℕ) → thread_holds t ≡ false → IsFilled t s
not_filling at_lock s h = tt
not_filling (filling i fds) s h = cc
not_filling (at_poll fds) s h = tt
not_filling (at_accept fds) s h = tt
not_filling (refusing client) s h = tt
not_filling (searching client i fds) s h = tt
not_filling (assigning client i fds) s h = tt
not_filling (scanning i fds) s h = tt
not_filling (at_recv i fds) s h = tt
not_filling (at_close i fds) s h = tt
not_filling (at_clear i fds) s h = tt
not_filling stopped s h = tt

ThreadMove-holds :
    {s s' : List ℕ} {t t' : ThreadPc} {a : Action}
    → ThreadMove s t a s' t'
    → IsFilled t s
    → (thread_holds t' ≡ thread_holds t) × IsFilled t' s'
ThreadMove-holds (fills s i fds h) f =
    let one_more : i + 1 ≡ suc i = omega arith in
    let set : add_slot fds (slot_at s i) ≡ connected (take (i + 1) s) =
      rw (one_more, connected-take s i h, f.0) refl in
    (refl, (set, omega arith))
ThreadMove-holds (poll_fails s fds) f = (refl, tt)
ThreadMove-holds (poll_ends s fds) f = (refl, tt)
ThreadMove-holds (poll_finds s fds is_ready true) f = (refl, tt)
ThreadMove-holds (poll_finds s fds is_ready false) f = (refl, tt)
ThreadMove-holds (accept_fails s ready) f = (refl, tt)
ThreadMove-holds (accepts_nowhere s ready client) f = (refl, tt)
ThreadMove-holds (refuses s client) f = (refl, tt)
ThreadMove-holds (accepts s ready client) f = (refl, tt)
ThreadMove-holds (used s client i ready h k) f = (refl, tt)
ThreadMove-holds (unused s client i ready h k) f = (refl, tt)
ThreadMove-holds (assigns s client i ready) f = (refl, tt)
ThreadMove-holds (rejects s client i ready h) f = (refl, tt)
ThreadMove-holds (passes s i ready h k) f = (refl, tt)
ThreadMove-holds (finds s i ready h k) f = (refl, tt)
ThreadMove-holds (ends s i ready h) f = (refl, tt)
ThreadMove-holds (receives_full s i ready) f = (refl, tt)
ThreadMove-holds (receives_last s i ready) f = (refl, tt)
ThreadMove-holds (receives_none s i ready) f = (refl, tt)
ThreadMove-holds (closes_client s i ready) f = (refl, tt)
ThreadMove-holds (clears s i ready) f = (refl, tt)

-- A broadcast changes a slot only while it holds the mutex.
BroadcastMove-holds :
    {s s' : List ℕ} {b b' : BroadcastPc} {a : Action}
    → BroadcastMove s b a s' b'
    → (broadcast_holds b' ≡ broadcast_holds b) × ((broadcast_holds b ≡ true) ⊎ (s' ≡ s))
BroadcastMove-holds (begins s) = (refl, inr refl)
BroadcastMove-holds (skips s i h k) = (refl, inr refl)
BroadcastMove-holds (chooses s i h k) = (refl, inr refl)
BroadcastMove-holds (returns s i h) = (refl, inr refl)
BroadcastMove-holds (sends s i) = (refl, inr refl)
BroadcastMove-holds (send_fails s i) = (refl, inr refl)
BroadcastMove-holds (closes_slot s i) = (refl, inr refl)
BroadcastMove-holds (clears_slot s i) = (refl, inl refl)

-- Not both of them hold the mutex.
one_holder : (h : Holder) → is_broadcast h ≡ true → is_thread h ≡ false
one_holder nobody e = refl
one_holder by_thread e = cc
one_holder by_broadcast e = refl

other_holder : (h : Holder) → is_thread h ≡ true → is_broadcast h ≡ false
other_holder nobody e = refl
other_holder by_thread e = refl
other_holder by_broadcast e = cc

Step-IsConsistent : {s t : System} {a : Action} → Step s a t → IsConsistent s → IsConsistent t
unfolding connected
Step-IsConsistent (thread_locks s b) c = record {
  thread_side = refl;
  broadcast_side = c.broadcast_side;
  filled = (refl, omega arith);
}
Step-IsConsistent (thread_unlocks s h i fds b e) c = record {
  thread_side = refl;
  broadcast_side = sym (other_holder h c.thread_side) ∙ c.broadcast_side;
  filled = tt;
}
Step-IsConsistent (thread_moves s s' h t t' a b move) c =
    let (same, f) = ThreadMove-holds move c.filled in
    record { thread_side = c.thread_side ∙ sym same; broadcast_side = c.broadcast_side; filled = f }
Step-IsConsistent (broadcast_locks s t i) c = record {
  thread_side = c.thread_side;
  broadcast_side = refl;
  filled = c.filled;
}
Step-IsConsistent (broadcast_unlocks s h t i) c = record {
  thread_side = sym (one_holder h c.broadcast_side) ∙ c.thread_side;
  broadcast_side = refl;
  filled = c.filled;
}
Step-IsConsistent (broadcast_moves s s' h t b b' a move) c =
    let (same, change) = BroadcastMove-holds move in
    record {
      thread_side = c.thread_side;
      broadcast_side = c.broadcast_side ∙ sym same;
      filled = elim change [
        | inr unchanged ↦ rw unchanged c.filled
        | inl holds ↦ not_filling t s' (sym c.thread_side ∙ one_holder h (c.broadcast_side ∙ holds))
      ];
    }

Reach-IsConsistent : (clients : List ℕ) {s : System} → Reach (started clients) s → IsConsistent s
Reach-IsConsistent clients here = record { thread_side = refl; broadcast_side = refl; filled = tt }
Reach-IsConsistent clients (next reach step) =
    Step-IsConsistent step (Reach-IsConsistent clients reach)

no_thread_unlock :
    {s s' : List ℕ} {t t' : ThreadPc} {fds : List ℕ} → ThreadMove s t (unlocks fds) s' t' → ⊥
no_thread_unlock move = elim move [ ]

no_broadcast_unlock :
    {s s' : List ℕ} {b b' : BroadcastPc} {fds : List ℕ} → BroadcastMove s b (unlocks fds) s' b' → ⊥
no_broadcast_unlock move = elim move [ ]

unlocked :
    {s t : System} {fds : List ℕ}
    → IsConsistent s
    → Step s (unlocks fds) t
    → (fds ≡ connected s.client_sockets) × (broadcast_holds s.broadcaster ≡ false)
unlocked c (thread_unlocks s h i fds b e) =
    let all : take i s ≡ s = ap (λ (k : ℕ). take k s) e ∙ take_all s in
    (c.filled.0 ∙ ap connected all, sym c.broadcast_side ∙ other_holder h c.thread_side)
unlocked c (thread_moves s s' h t t' a b move) = absurd (no_thread_unlock move)
unlocked c (broadcast_moves s s' h t b b' a move) = absurd (no_broadcast_unlock move)

-- Whatever steps the thread and a broadcast take, from the head of the loop on: when the thread unlocks
-- the mutex, its set has the sockets of the slots as they are at that moment, and no broadcast stands
-- between closing a socket and clearing its slot.
pub unlocks-connected :
    (clients : List ℕ) (s t : System) (fds : List ℕ)
    → Reach (started clients) s
    → Step s (unlocks fds) t
    → (fds ≡ connected s.client_sockets) × (broadcast_holds s.broadcaster ≡ false)
unlocks-connected clients s t fds reach step = unlocked (Reach-IsConsistent clients reach) step
