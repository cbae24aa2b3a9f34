-- ===== src/NetServer/Interleaving.antt =====
-- The thread of src/netstuff/netserver.c and a broadcast in another thread, step by step: each step is
-- one access to a slot, one use of the mutex or one call of the system. The callback for chunks is
-- set. Callbacks and the content of the data are left out; what the calls return is free.
pub mod Exclusion
pub mod Races
mod Examples
use modemstuff.Base.{
  ℕ, zero, suc, ◌+◌, ◌<◌, ◌≡◌, List, [], ◌∷◌, ◌++◌, Option, none, some, Bool, true, false, not,
  ◌&&◌, length, get_elem?, set, ltb, if◌then◌else◌,
}
use modemstuff.NetServer.Thread.{in_set}

-- The socket of a new client, the next slot of a loop, and the set of sockets that are to be read or
-- that are ready.
pub data ThreadPc : Type 0 where
  at_lock : ThreadPc
  filling : ℕ → List ℕ → ThreadPc
  at_poll : List ℕ → ThreadPc
  at_accept : List ℕ → ThreadPc
  refusing : ℕ → ThreadPc
  searching : ℕ → ℕ → List ℕ → ThreadPc
  assigning : ℕ → ℕ → List ℕ → ThreadPc
  scanning : ℕ → List ℕ → ThreadPc
  at_recv : ℕ → List ℕ → ThreadPc
  at_close : ℕ → List ℕ → ThreadPc
  at_clear : ℕ → List ℕ → ThreadPc
  stopped : ThreadPc

pub data BroadcastPc : Type 0 where
  idle : BroadcastPc
  at_slot : ℕ → BroadcastPc
  at_send : ℕ → BroadcastPc
  locking : ℕ → BroadcastPc
  closing : ℕ → BroadcastPc
  clearing : ℕ → BroadcastPc
  unlocking : ℕ → BroadcastPc

-- Who holds `client_sockets_mutex`.
pub data Holder : Type 0 where
  nobody by_thread by_broadcast : Holder

pub record System : Type 0 where
  pub client_sockets : List ℕ
  pub mutex : Holder
  pub thread : ThreadPc
  pub broadcaster : BroadcastPc

-- A call of the system, with what it is given; `silent` is none.
pub data Action : Type 0 where
  silent : Action
  unlocks : List ℕ → Action
  polls : List ℕ → Action
  receives_from : ℕ → Action
  sends_to : ℕ → Action
  closes : ℕ → Action

-- Inside the array, where all loops stay, this is its element.
abbrev pub slot_at : List ℕ → ℕ → ℕ
slot_at sockets i = elim (get_elem? sockets i) [ none ↦ 0 | some socket ↦ socket ]

-- A socket enters the set, an empty slot does not.
abbrev pub add_slot : List ℕ → ℕ → List ℕ
add_slot sockets socket = if ltb 0 socket then sockets ++ (socket ∷ []) else sockets

-- What `pselect` leaves of a set.
abbrev pub still_ready : (ℕ → Bool) → List ℕ → List ℕ
still_ready is_ready [] = []
still_ready is_ready (socket ∷ sockets) =
    if is_ready socket then socket ∷ still_ready is_ready sockets else still_ready is_ready sockets

abbrev pub is_active : List ℕ → List ℕ → ℕ → Bool
is_active sockets ready i = ltb 0 (slot_at sockets i) && in_set (slot_at sockets i) ready

-- The steps of the thread that do not use the mutex. `recv` gives a full chunk, the last one, or none.
pub data ThreadMove : List ℕ → ThreadPc → Action → List ℕ → ThreadPc → Type 0 where
  fills :
      (s : List ℕ) (i : ℕ) (fds : List ℕ)
      → i < length s
      → ThreadMove s (filling i fds) silent s (filling (i + 1) (add_slot fds (slot_at s i)))
  poll_fails : (s fds : List ℕ) → ThreadMove s (at_poll fds) (polls fds) s stopped
  poll_ends : (s fds : List ℕ) → ThreadMove s (at_poll fds) (polls fds) s at_lock
  poll_finds :
      (s fds : List ℕ) (is_ready : ℕ → Bool) (server_ready : Bool)
      → ThreadMove s (at_poll fds) (polls fds) s (
          if server_ready
          then at_accept (still_ready is_ready fds)
          else scanning 0 (still_ready is_ready fds))
  accept_fails : (s ready : List ℕ) → ThreadMove s (at_accept ready) silent s stopped
  accepts_nowhere :
      (s ready : List ℕ) (client : ℕ) → ThreadMove s (at_accept ready) silent s (refusing client)
  refuses : (s : List ℕ) (client : ℕ) → ThreadMove s (refusing client) (closes client) s at_lock
  accepts :
      (s ready : List ℕ) (client : ℕ)
      → ThreadMove s (at_accept ready) silent s (searching client 0 ready)
  used :
      (s : List ℕ) (client i : ℕ) (ready : List ℕ)
      → i < length s
      → 0 < slot_at s i
      → ThreadMove s (searching client i ready) silent s (searching client (i + 1) ready)
  unused :
      (s : List ℕ) (client i : ℕ) (ready : List ℕ)
      → i < length s
      → slot_at s i ≡ 0
      → ThreadMove s (searching client i ready) silent s (assigning client i ready)
  assigns :
      (s : List ℕ) (client i : ℕ) (ready : List ℕ)
      → ThreadMove s (assigning client i ready) silent (set s i client) (scanning 0 ready)
  rejects :
      (s : List ℕ) (client i : ℕ) (ready : List ℕ)
      → i ≡ length s
      → ThreadMove s (searching client i ready) (closes client) s (scanning 0 ready)
  passes :
      (s : List ℕ) (i : ℕ) (ready : List ℕ)
      → i < length s
      → is_active s ready i ≡ false
      → ThreadMove s (scanning i ready) silent s (scanning (i + 1) ready)
  finds :
      (s : List ℕ) (i : ℕ) (ready : List ℕ)
      → i < length s
      → is_active s ready i ≡ true
      → ThreadMove s (scanning i ready) silent s (at_recv i ready)
  ends :
      (s : List ℕ) (i : ℕ) (ready : List ℕ)
      → i ≡ length s
      → ThreadMove s (scanning i ready) silent s at_lock
  receives_full :
      (s : List ℕ) (i : ℕ) (ready : List ℕ)
      → ThreadMove s (at_recv i ready) (receives_from (slot_at s i)) s (at_recv i ready)
  receives_last :
      (s : List ℕ) (i : ℕ) (ready : List ℕ)
      → ThreadMove s (at_recv i ready) (receives_from (slot_at s i)) s (scanning (i + 1) ready)
  receives_none :
      (s : List ℕ) (i : ℕ) (ready : List ℕ)
      → ThreadMove s (at_recv i ready) (receives_from (slot_at s i)) s (at_close i ready)
  closes_client :
      (s : List ℕ) (i : ℕ) (ready : List ℕ)
      → ThreadMove s (at_close i ready) (closes (slot_at s i)) s (at_clear i ready)
  clears :
      (s : List ℕ) (i : ℕ) (ready : List ℕ)
      → ThreadMove s (at_clear i ready) silent (set s i 0) (scanning (i + 1) ready)

-- The steps of a broadcast that do not use the mutex. A failed `select` is one with a failed `send`
-- here, and so is one that sends less.
pub data BroadcastMove : List ℕ → BroadcastPc → Action → List ℕ → BroadcastPc → Type 0 where
  begins : (s : List ℕ) → BroadcastMove s idle silent s (at_slot 0)
  skips :
      (s : List ℕ) (i : ℕ)
      → i < length s
      → ltb 0 (slot_at s i) ≡ false
      → BroadcastMove s (at_slot i) silent s (at_slot (i + 1))
  chooses :
      (s : List ℕ) (i : ℕ)
      → i < length s
      → ltb 0 (slot_at s i) ≡ true
      → BroadcastMove s (at_slot i) silent s (at_send i)
  returns : (s : List ℕ) (i : ℕ) → i ≡ length s → BroadcastMove s (at_slot i) silent s idle
  sends :
      (s : List ℕ) (i : ℕ)
      → BroadcastMove s (at_send i) (sends_to (slot_at s i)) s (at_slot (i + 1))
  send_fails :
      (s : List ℕ) (i : ℕ) → BroadcastMove s (at_send i) (sends_to (slot_at s i)) s (locking i)
  closes_slot :
      (s : List ℕ) (i : ℕ) → BroadcastMove s (closing i) (closes (slot_at s i)) s (clearing i)
  clears_slot : (s : List ℕ) (i : ℕ) → BroadcastMove s (clearing i) silent (set s i 0) (unlocking i)

-- The system with these four parts.
abbrev pub system : List ℕ → Holder → ThreadPc → BroadcastPc → System
system s h t b = record { client_sockets = s; mutex = h; thread = t; broadcaster = b }

pub data Step : System → Action → System → Type 0 where
  thread_locks :
      (s : List ℕ) (b : BroadcastPc)
      → Step (system s nobody at_lock b) silent (system s by_thread (filling 0 []) b)
  thread_unlocks :
      (s : List ℕ) (h : Holder) (i : ℕ) (fds : List ℕ) (b : BroadcastPc)
      → i ≡ length s
      → Step (system s h (filling i fds) b) (unlocks fds) (system s nobody (at_poll fds) b)
  thread_moves :
      (s s' : List ℕ) (h : Holder) (t t' : ThreadPc) (a : Action) (b : BroadcastPc)
      → ThreadMove s t a s' t'
      → Step (system s h t b) a (system s' h t' b)
  broadcast_locks :
      (s : List ℕ) (t : ThreadPc) (i : ℕ)
      → Step (system s nobody t (locking i)) silent (system s by_broadcast t (closing i))
  broadcast_unlocks :
      (s : List ℕ) (h : Holder) (t : ThreadPc) (i : ℕ)
      → Step (system s h t (unlocking i)) silent (system s nobody t (at_slot (i + 1)))
  broadcast_moves :
      (s s' : List ℕ) (h : Holder) (t : ThreadPc) (b b' : BroadcastPc) (a : Action)
      → BroadcastMove s b a s' b'
      → Step (system s h t b) a (system s' h t b')

pub data Reach (start : System) : System → Type 0 where
  here : Reach start start
  next : {s t : System} {a : Action} → Reach start s → Step s a t → Reach start t

-- Some clients, no broadcast, and the thread at the head of its loop.
abbrev pub started : List ℕ → System
started s = system s nobody at_lock idle
