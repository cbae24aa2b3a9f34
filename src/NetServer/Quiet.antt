-- ===== src/NetServer/Quiet.antt =====
-- Broadcasts tell the callbacks nothing.
use modemstuff.Base.{
  ℕ, ◌+◌, ◌≡◌, refl, ◌∙◌, Bool-cases, inl, inr, List, [], ◌∷◌, Option, none, some, ltb, ◌==◌,
}
use modemstuff.NetServer.{
  Server, Event, sent, SendResult, select_failed, send_failed, sent_bytes, disconnect, send_to,
  send_all, broadcast,
}
use modemstuff.NetServer.Callbacks.{Phase, outside, inside, broken, walk, walk-append}

walk-disconnect : (phase : Phase) (socket : ℕ) → walk phase (disconnect socket) ≡ phase
unfolding disconnect
walk-disconnect outside socket = refl
walk-disconnect inside socket = refl
walk-disconnect broken socket = refl

walk-sent :
    (phase : Phase) (socket : ℕ) (bytes : List ℕ) (events : List Event)
    → walk phase (sent socket bytes ∷ events) ≡ walk phase events
walk-sent outside socket bytes events = refl
walk-sent inside socket bytes events = refl
walk-sent broken socket bytes events = refl

walk-send_to :
    (phase : Phase) (result : SendResult) (bytes : List ℕ) (size socket : ℕ)
    → walk phase (send_to result bytes size socket).1 ≡ phase
unfolding send_to
walk-send_to phase select_failed bytes size socket = walk-disconnect phase socket
walk-send_to phase send_failed bytes size socket =
    walk-sent phase socket bytes (disconnect socket) ∙ walk-disconnect phase socket
walk-send_to phase (sent_bytes n) bytes size socket = elim (Bool-cases (n == size)) [
  | inl whole ↦ rw whole (walk-sent phase socket bytes [])
  | inr part ↦
      rw part (walk-sent phase socket bytes (disconnect socket) ∙ walk-disconnect phase socket)
]

walk-send_all :
    (phase : Phase) (result : ℕ → SendResult) (bytes : List ℕ) (size i : ℕ) (sockets : List ℕ)
    → walk phase (send_all result bytes size i sockets).events ≡ phase
unfolding send_all
walk-send_all phase result bytes size i [] = refl
walk-send_all phase result bytes size i (socket ∷ sockets) =
    let rest = send_all result bytes size (i + 1) sockets in
    let quiet = walk-send_all phase result bytes size (i + 1) sockets in
    elim (Bool-cases (ltb 0 socket)) [
      | inr empty ↦ rw empty quiet
      | inl client ↦
          rw
            (
              client,
              walk-append phase (send_to (result i) bytes size socket).1 rest.events,
              walk-send_to phase (result i) bytes size socket,
            )
            quiet
    ]

pub walk-broadcast :
    (phase : Phase) (result : ℕ → SendResult) (server : Server) (bytes : Option (List ℕ)) (size : ℕ)
    → walk phase (broadcast result server bytes size).1.0 ≡ phase
unfolding broadcast
walk-broadcast phase result server none size = refl
walk-broadcast phase result server (some bytes) size = elim (Bool-cases (size == 0)) [
  | inl empty ↦ rw empty refl
  | inr more ↦ rw more (walk-send_all phase result bytes size 0 server.client_sockets)
]
