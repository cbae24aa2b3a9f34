-- ===== src/NetServer/Interleaving/Races.antt =====
-- What the mutex of src/netstuff/netserver.c does not keep apart.
use modemstuff.Base.{ℕ, zero, suc, ◌+◌, ◌<◌, ◌≡◌, refl, List, [], ◌∷◌, arith, length, set}
use modemstuff.NetServer.Interleaving.{
  ThreadPc, at_poll, at_recv, at_close, at_clear, at_slot, at_send, closing, clearing, nobody,
  by_broadcast, System, system, polls, receives_from, closes, slot_at, poll_ends, receives_none,
  closes_client, send_fails, closes_slot, clears_slot, Step, thread_moves, broadcast_locks,
  broadcast_unlocks, broadcast_moves, Reach, next, started,
}

slot_at-set : (s : List ℕ) (i : ℕ) → i < length s → slot_at (set s i 0) i ≡ 0
slot_at-set [] i h = absurd (omega arith)
slot_at-set (x ∷ s) zero h = refl
slot_at-set (x ∷ s) (suc i) h = slot_at-set s i (omega arith)

-- A broadcast whose send fails, wherever the thread stands outside of its lock: the states before and
-- behind the close, and with the slot cleared.
record IsTaken (start : System) (s : List ℕ) (t : ThreadPc) (i : ℕ) : Type 0 where
  before : Reach start (system s by_broadcast t (closing i))
  close :
      Step
        (system s by_broadcast t (closing i))
        (closes (slot_at s i))
        (system s by_broadcast t (clearing i))
  behind : Reach start (system s by_broadcast t (clearing i))
  cleared : Reach start (system (set s i 0) nobody t (at_slot (i + 1)))

send_fails-IsTaken :
    {start : System} (s : List ℕ) (t : ThreadPc) (i : ℕ)
    → Reach start (system s nobody t (at_send i))
    → IsTaken start s t i
send_fails-IsTaken s t i reach =
    let locks = next reach (broadcast_moves _ _ _ _ _ _ _ (send_fails s i)) in
    let before = next locks (broadcast_locks s t i) in
    let close = broadcast_moves s s by_broadcast t (closing i) (clearing i) _ (closes_slot s i) in
    let behind = next before close in
    let clears = next behind (broadcast_moves _ _ _ _ _ _ _ (clears_slot s i)) in
    record {
      before = before;
      close = close;
      behind = behind;
      cleared = next clears (broadcast_unlocks _ _ t i);
    }

-- If the thread has found the socket of a slot ready, and is about to receive from it while a broadcast
-- is about to send to it, then the broadcast may take the socket away first: the thread receives from
-- descriptor 0, and if nothing comes it closes descriptor 0.
pub receives_from-zero :
    (clients s ready : List ℕ) (i : ℕ)
    → i < length s
    → Reach (started clients) (system s nobody (at_recv i ready) (at_send i))
    → (u v w : System) × Reach (started clients) u
      × Step u (receives_from 0) v
      × Step v (closes 0) w
receives_from-zero clients s ready i h reach =
    let taken = send_fails-IsTaken s (at_recv i ready) i reach in
    let empty = slot_at-set s i h in
    let s' = set s i 0 in
    let b = at_slot (i + 1) in
    (
      system s' nobody (at_recv i ready) b,
      system s' nobody (at_close i ready) b,
      system s' nobody (at_clear i ready) b,
      taken.cleared,
      rw empty at (thread_moves s' s' nobody _ _ _ b (receives_none s' i ready)),
      rw empty at (thread_moves s' s' nobody _ _ _ b (closes_client s' i ready)),
    )

-- If the thread is about to poll a set while a broadcast is about to send to a client, then the
-- broadcast may close the socket of that client first, and the thread polls the same set.
polls-closed :
    (clients s fds : List ℕ) (i : ℕ)
    → Reach (started clients) (system s nobody (at_poll fds) (at_send i))
    → (u v w : System) × Reach (started clients) u
      × Step u (closes (slot_at s i)) v
      × Step v (polls fds) w
polls-closed clients s fds i reach =
    let taken = send_fails-IsTaken s (at_poll fds) i reach in
    (
      _,
      _,
      _,
      taken.before,
      taken.close,
      thread_moves s s by_broadcast _ _ _ (clearing i) (poll_ends s fds),
    )
