-- ===== src/NetServer/Interleaving/Examples.antt =====
-- One client, whose socket is ready while a broadcast finds its slot.
use modemstuff.Base.{ℕ, ◌≡◌, refl, List, [], ◌∷◌, false, true, arith}
use modemstuff.NetServer.Thread.{connected, in_set}
use modemstuff.NetServer.Interleaving.{
  filling, at_poll, scanning, at_recv, idle, at_slot, at_send, nobody, by_thread, System, system,
  silent, unlocks, polls, receives_from, closes, fills, poll_finds, finds, begins, chooses, Step,
  thread_locks, thread_unlocks, thread_moves, broadcast_moves, Reach, here, next, started,
}
use modemstuff.NetServer.Interleaving.Exclusion.{unlocks-connected, broadcast_holds}
use modemstuff.NetServer.Interleaving.Races.{receives_from-zero}

abbrev one : List ℕ
one = 5 ∷ []

filled : Reach (started one) (system one by_thread (filling 1 one) idle)
filled = next (next here (thread_locks one idle)) (
    thread_moves one one by_thread (filling 0 []) (filling 1 one) silent idle
      (fills one 0 [] (omega arith)))

unlock :
    Step
      (system one by_thread (filling 1 one) idle)
      (unlocks one)
      (system one nobody (at_poll one) idle)
unlock = thread_unlocks one by_thread 1 one idle refl

found : Reach (started one) (system one nobody (at_recv 0 one) idle)
unfolding in_set
found =
    next
      (next (next filled unlock) (
        thread_moves one one nobody (at_poll one) (scanning 0 one) (polls one) idle
          (poll_finds one one (λ socket. true) false)))
      (thread_moves one one nobody (scanning 0 one) (at_recv 0 one) silent idle
        (finds one 0 one (omega arith) refl))

meeting : Reach (started one) (system one nobody (at_recv 0 one) (at_send 0))
meeting =
    next
      (next found
        (broadcast_moves one one nobody (at_recv 0 one) idle (at_slot 0) silent (begins one)))
      (broadcast_moves one one nobody (at_recv 0 one) (at_slot 0) (at_send 0) silent
        (chooses one 0 (omega arith) refl))

unlocks-connected_example : (one ≡ connected one) × (broadcast_holds idle ≡ false)
unlocks-connected_example =
    unlocks-connected one (system one by_thread (filling 1 one) idle)
      (system one nobody (at_poll one) idle) one filled unlock

receives_from-zero_example :
    (u v w : System) × Reach (started one) u × Step u (receives_from 0) v × Step v (closes 0) w
receives_from-zero_example = receives_from-zero one one one 0 (omega arith) meeting
