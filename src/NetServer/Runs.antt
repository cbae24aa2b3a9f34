-- ===== src/NetServer/Runs.antt =====
-- The server's life: rounds of its thread and broadcasts, in any order, and its end. A broadcast
-- stands between two rounds here.
use modemstuff.Base.{
  ℕ, zero, suc, ◌<◌, ◌≡◌, refl, ap, ◌∙◌, Bool-cases, inl, inr, List, [], ◌∷◌, ◌++◌, Option,
  Option-cases, none, some, Bool, true, ◌&&◌, arith, replicate, ◌==◌,
}
use modemstuff.NetServer.{
  max_clients, cleared, Server, Event, opened, Setup, server_init, set_callbacks, server_start,
  SendResult, broadcast, close_all, server_destroy,
}
use modemstuff.NetServer.Thread.{Flow, again, Round, server_round}
use modemstuff.NetServer.Ledger.{
  hit, held, opens, closes, Accounts, opens-append, closes-append, unchanged, join,
}
use modemstuff.NetServer.Sockets.{broadcast-Accounts}
use modemstuff.NetServer.Sockets.Turns.{server_round-Accounts}
use modemstuff.NetServer.Callbacks.{outside, walk, walk-append, IsInOrder, is_done}
use modemstuff.NetServer.Callbacks.Turns.{IsShort, server_round-IsInOrder}
use modemstuff.NetServer.Quiet.{walk-broadcast}

-- The server, and where its thread is.
pub record System : Type 0 where
  pub server : Server
  pub flow : Flow

abbrev pub after_round : Round → Server → System
after_round round server = record {
  server = record server { client_sockets = (server_round round server).client_sockets };
  flow = (server_round round server).flow;
}

abbrev pub after_broadcast : (ℕ → SendResult) → Option (List ℕ) → ℕ → System → System
after_broadcast result bytes size system = record system {
  server = (broadcast result system.server bytes size).0;
}

pub data Step : System → List Event → System → Type 0 where
  in_thread :
      (server : Server) (round : Round)
      → server.run ≡ true
      → Step
          (record { server = server; flow = again })
          (server_round round server).events
          (after_round round server)
  in_broadcast :
      (system : System) (result : ℕ → SendResult) (bytes : Option (List ℕ)) (size : ℕ)
      → Step system
          (broadcast result system.server bytes size).1.0
          (after_broadcast result bytes size system)

pub data Trace (s : System) : List Event → System → Type 0 where
  here : Trace s [] s
  next : {t u : System} {xs ys : List Event} → Trace s xs t → Step t ys u → Trace s (xs ++ ys) u

-- What no step changes.
pub record Same (a b : Server) : Type 0 where
  pub socket : b.server_socket ≡ a.server_socket
  pub starts : b.client_data_start_callback ≡ a.client_data_start_callback
  pub ends : b.client_data_end_callback ≡ a.client_data_end_callback

broadcast-Same :
    (result : ℕ → SendResult) (server : Server) (bytes : Option (List ℕ)) (size : ℕ)
    → Same server (broadcast result server bytes size).0
unfolding broadcast
broadcast-Same result server none size = record { socket = refl; starts = refl; ends = refl }
broadcast-Same result server (some bytes) size = elim (Bool-cases (size == 0)) [
  | inl empty ↦ rw empty (record { socket = refl; starts = refl; ends = refl })
  | inr more ↦ rw more (record { socket = refl; starts = refl; ends = refl })
]

Step-Same : {s t : System} {xs : List Event} → Step s xs t → Same s.server t.server
Step-Same (in_thread server round r) = record { socket = refl; starts = refl; ends = refl }
Step-Same (in_broadcast system result bytes size) = broadcast-Same result system.server bytes size

Trace-Same : {s t : System} {xs : List Event} → Trace s xs t → Same s.server t.server
Trace-Same here = record { socket = refl; starts = refl; ends = refl }
Trace-Same (next trace step) =
    let p = Trace-Same trace in
    let q = Step-Same step in
    record { socket = q.socket ∙ p.socket; starts = q.starts ∙ p.starts; ends = q.ends ∙ p.ends }

Step-Accounts :
    {s t : System} {xs : List Event}
    → Step s xs t
    → Accounts s.server.client_sockets xs t.server.client_sockets
Step-Accounts (in_thread server round r) = server_round-Accounts round server
Step-Accounts (in_broadcast system result bytes size) =
    broadcast-Accounts result system.server bytes size

-- After any rounds and broadcasts there are as many slots as before, and for every socket number, as
-- many slots had it or connections were opened with it as slots have it or were closed.
pub Trace-Accounts :
    {s t : System} {xs : List Event}
    → Trace s xs t
    → Accounts s.server.client_sockets xs t.server.client_sockets
Trace-Accounts {s} here = unchanged s.server.client_sockets
Trace-Accounts (next trace step) = join _ _ (Trace-Accounts trace) (Step-Accounts step)

close_all-opens : (fd : ℕ) (sockets : List ℕ) → opens fd (close_all sockets) ≡ 0
unfolding close_all
close_all-opens fd [] = refl
close_all-opens fd (zero ∷ sockets) = close_all-opens fd sockets
close_all-opens fd (suc n ∷ sockets) = omega (arith, close_all-opens fd sockets)

close_all-closes :
    (fd : ℕ) (sockets : List ℕ) → 0 < fd → closes fd (close_all sockets) ≡ held fd sockets
unfolding close_all
close_all-closes fd [] h = refl
close_all-closes fd (zero ∷ sockets) h =
    let other : hit fd 0 ≡ 0 = ground arith in omega (arith, close_all-closes fd sockets h)
close_all-closes fd (suc n ∷ sockets) h = omega (arith, close_all-closes fd sockets h)

held_none : (fd n : ℕ) → 0 < fd → held fd (replicate n 0) ≡ 0
held_none fd zero h = refl
held_none fd (suc n) h = let other : hit fd 0 ≡ 0 = ground arith in omega (arith, held_none fd n h)

server_init_lem :
    (setup : Setup) (server : Server) (events : List Event)
    → server_init setup ≡ (some server, events)
    → (events ≡ opened server.server_socket ∷ [])
      × (server.client_sockets ≡ replicate max_clients 0)
unfolding server_init
server_init_lem setup server events e = elim (Option-cases setup.socket) [
  | inl absent ↦ absurd cc
  | inr (socket, f) ↦
      elim (Bool-cases (setup.setsockopt_ok && (setup.bind_ok && setup.listen_ok))) [
        | inl good ↦
            let made = rw (f, good) at e in
            let same : cleared socket ≡ server = cc in
            let same' : opened socket ∷ [] ≡ events = cc in rw (← same, ← same') (refl, refl)
        | inr bad ↦ let made = rw (f, bad) at e in absurd cc
      ]
]

-- A server that was initialised, got its callbacks and was started, after any rounds of its thread
-- and broadcasts, and destroyed: every socket but descriptor 0 was closed as often as it was
-- opened, the server's too.
pub server_destroy-closes :
    (setup : Setup) (starts chunks ends : Bool) {server : Server} {xs events : List Event}
    {t : System}
    → server_init setup ≡ (some server, events)
    → Trace
        (record { server = server_start (set_callbacks server starts chunks ends); flow = again })
        xs
        t
    → (fd : ℕ) → 0 < fd
    → opens fd (events ++ (xs ++ server_destroy t.server))
      ≡ closes fd (events ++ (xs ++ server_destroy t.server))
unfolding server_destroy server_start set_callbacks
server_destroy-closes setup starts chunks ends {server} {xs} {events} {t} e trace fd h =
    let (made, empty) = server_init_lem setup server events e in
    let account = (Trace-Accounts trace).sockets fd h in
    let end = server_destroy t.server in
    let same = (Trace-Same trace).socket in
    let none_yet = held_none fd max_clients h in
    let begun : opens fd events ≡ hit fd server.server_socket = rw made (omega arith) in
    let begun' : closes fd events ≡ 0 = rw made (omega arith) in
    omega (
      arith,
      opens-append fd events (xs ++ end),
      closes-append fd events (xs ++ end),
      opens-append fd xs end,
      closes-append fd xs end,
      begun,
      begun',
      rw (empty, none_yet) at account,
      ap (hit fd) same,
      close_all-opens fd t.server.client_sockets,
      close_all-closes fd t.server.client_sockets h,
    )

-- Every reception of every round gets less than 2^31 bytes.
abbrev pub AllShort : {s t : System} {xs : List Event} → Trace s xs t → Type 0
AllShort here = Unit
AllShort (next trace (in_thread server round r)) = AllShort trace × IsShort round
AllShort (next trace (in_broadcast system result bytes size)) = AllShort trace

-- From a server whose thread is at the head of its loop and whose callbacks for start and end are
-- set, after any rounds and broadcasts, if every reception gets less than 2^31 bytes: the callbacks
-- were called in the order of start, chunks and end, again and again, and unless the thread waits
-- for a client, the last start had its end.
pub Trace-IsInOrder :
    {server : Server} {t : System} {xs : List Event}
    (trace : Trace (record { server = server; flow = again }) xs t)
    → AllShort trace
    → server.client_data_start_callback ≡ true
    → server.client_data_end_callback ≡ true
    → IsInOrder (is_done t.flow) (walk outside xs)
Trace-IsInOrder here few starts ends = refl
Trace-IsInOrder (next {xs} trace (in_thread server round r)) few starts ends =
    let same = Trace-Same trace in
    rw
      (
        walk-append outside xs (server_round round server).events,
        Trace-IsInOrder trace few.0 starts ends,
      )
      (server_round-IsInOrder server (same.starts ∙ starts) (same.ends ∙ ends) round few.1)
Trace-IsInOrder (next {xs} trace (in_broadcast system result bytes size)) few starts ends =
    rw
      (
        walk-append outside xs (broadcast result system.server bytes size).1.0,
        walk-broadcast (walk outside xs) result system.server bytes size,
      )
      (Trace-IsInOrder trace few starts ends)
