-- ===== src/NetServer/Callbacks.antt =====
-- The callbacks of the server's thread: every reception is a start, its chunks and an end.
pub mod Turns
use modemstuff.Base.{
  ℕ, Option-cases, zero, suc, ◌+◌, ◌^◌, ◌<◌, ◌≡◌, ◌≢◌, refl, Bool-cases, inl, inr, List, [], ◌∷◌,
  ◌++◌, Bool, true, false, ◌&&◌, arith, length, ltb, ◌==◌, if◌then◌else◌,
}
use modemstuff.NetServer.{Server, Event, data_start, data_chunk, data_end}
use modemstuff.NetServer.Thread.{
  int_of, is_positive, Recv, failed, received, announce, conclude, hang_up, receive, receive_all,
  Accept, not_accepted, accepted, Flow, proceed, again, stop, blocked, Turn, assign, accept_client,
  Poll, poll_failed, timeout, ready, Round, accept_turn, receive_turn, and_then, after_poll,
  poll_events, server_round, data_buf_size,
}

-- Where a client of the callbacks is: between receptions, in one, or called out of order.
pub data Phase : Type 0 where
  outside : Phase
  inside : Phase
  broken : Phase

abbrev pub advance : Phase → Event → Phase
advance outside data_start = inside
advance inside data_start = broken
advance broken data_start = broken
advance outside (data_chunk bytes) = broken
advance inside (data_chunk bytes) = inside
advance broken (data_chunk bytes) = broken
advance outside data_end = broken
advance inside data_end = outside
advance broken data_end = broken
advance phase _ = phase

abbrev pub walk : Phase → List Event → Phase
walk phase [] = phase
walk phase (event ∷ events) = walk (advance phase event) events

pub walk-append :
    (phase : Phase) (xs ys : List Event) → walk phase (xs ++ ys) ≡ walk (walk phase xs) ys
walk-append phase [] ys = refl
walk-append phase (x ∷ xs) ys = walk-append (advance phase x) xs ys

-- Between receptions, or, when the thread waits, at least in order.
abbrev pub IsInOrder : Bool → Phase → Type 0
IsInOrder true phase = phase ≡ outside
IsInOrder false phase = phase ≢ broken

abbrev phase_of : ℕ → Phase
phase_of zero = outside
phase_of (suc n) = inside

phase_of_some : (n : ℕ) → 0 < n → phase_of n ≡ inside
phase_of_some zero h = absurd (omega arith)
phase_of_some (suc n) h = refl

-- How many bytes one reception gets: up to an error, the end or a chunk that does not fill the buffer.
unfoldable pub reception_len : List Recv → ℕ
reception_len [] = 0
reception_len (failed ∷ results) = 0
reception_len (received bytes ∷ results) =
    let rest = reception_len results in
    length bytes + (if length bytes == data_buf_size then rest else 0)

module _ (server : Server) (starts : server.client_data_start_callback ≡ true)
    (ends : server.client_data_end_callback ≡ true) where
  announce_lem :
      (total : ℕ) (bytes : List ℕ)
      → walk (phase_of total) (announce server total ++ (data_chunk bytes ∷ [])) ≡ inside
  unfolding announce
  announce_lem zero bytes = simp starts refl
  announce_lem (suc total) bytes =
      let later : (suc total == 0) ≡ false = ground arith in simp later refl

  conclude_lem :
      (total : ℕ) → total < 2 ^ 31 → walk (phase_of total) (conclude server total) ≡ outside
  unfolding conclude
  conclude_lem zero h = refl
  conclude_lem (suc total) h =
      let some_data : is_positive (suc total) ≡ true = ground arith in simp (some_data, ends) refl

  hang_up_lem :
      (socket total : ℕ)
      → total < 2 ^ 31
      → walk (phase_of total) (hang_up server socket total).events ≡ outside
  unfolding hang_up
  hang_up_lem socket zero h = conclude_lem zero h
  hang_up_lem socket (suc total) h = conclude_lem (suc total) h

  receive_lem :
      (socket total : ℕ) (results : List Recv)
      → total + reception_len results < 2 ^ 31
      → IsInOrder
          (receive server socket total results).finished
          (walk (phase_of total) (receive server socket total results).events)
  unfolding receive hang_up reception_len
  receive_lem socket zero [] few = λ e. cc
  receive_lem socket (suc total) [] few = λ e. cc
  receive_lem socket total (failed ∷ results) few = hang_up_lem socket total (omega arith)
  receive_lem socket total (received [] ∷ results) few = hang_up_lem socket total (omega arith)
  receive_lem socket total (received (byte ∷ bytes) ∷ results) few =
      let len = length (byte ∷ bytes) in
      let now = announce server total ++ (data_chunk (byte ∷ bytes) ∷ []) in
      let rest = receive server socket (total + len) results in
      let on = phase_of_some (total + len) (omega arith) in
      elim (Bool-cases (len == data_buf_size)) [
        | inl full ↦
            let few' : total + (len + reception_len results) < 2 ^ 31 = rw full at few in
            let same : int_of (total + len) ≡ total + len = omega arith in
            rw
              (
                full,
                same,
                walk-append (phase_of total) now rest.events,
                announce_lem total (byte ∷ bytes),
                ← on,
              )
              (receive_lem socket (total + len) results (omega arith))
        | inr part ↦
            let few' : total + (len + 0) < 2 ^ 31 = rw part at few in
            let same : int_of (total + len) ≡ total + len = omega arith in
            rw
              (
                part,
                same,
                walk-append (phase_of total) now (conclude server (total + len)),
                announce_lem total (byte ∷ bytes),
                ← on,
              )
              (conclude_lem (total + len) (omega arith))
      ]

  receive_all_lem :
      (is_set : ℕ → Bool) (results : ℕ → List Recv) (i : ℕ) (sockets : List ℕ)
      → ((k : ℕ) → reception_len (results k) < 2 ^ 31)
      → IsInOrder
          (receive_all server is_set results i sockets).finished
          (walk outside (receive_all server is_set results i sockets).events)
  unfolding receive_all
  receive_all_lem is_set results i [] few = refl
  receive_all_lem is_set results i (socket ∷ sockets) few =
      let rest = receive_all_lem is_set results (i + 1) sockets few in
      let one = receive server socket 0 (results i) in
      let order = receive_lem socket 0 (results i) (omega (arith, few i)) in
      elim (Bool-cases (ltb 0 socket && is_set socket)) [
        | inr idle ↦ rw idle rest
        | inl active ↦ elim (Bool-cases one.finished) [
          | inl whole ↦
              let back : walk outside one.events ≡ outside = rw whole at order in
              rw
                (
                  active,
                  whole,
                  walk-append outside one.events
                      (receive_all server is_set results (i + 1) sockets).events,
                  back,
                )
                rest
          | inr waits ↦ rw (active, waits) (rw waits at order)
        ]
      ]

-- Whether the thread goes on to another round or ends, and is not waiting for a client.
abbrev pub is_done : Flow → Bool
is_done proceed = true
is_done again = true
is_done stop = true
is_done blocked = false
