-- ===== src/NetServer/Ledger.antt =====
-- Which sockets are open: those that were opened and not closed are the ones in the slots.
use modemstuff.Base.{
  ℕ, ◌+◌, ◌<◌, ◌≡◌, refl, List, [], ◌∷◌, ◌++◌, arith, length, ◌==◌, if◌then◌else◌,
}
use modemstuff.NetServer.{Event, opened, closed}

abbrev pub hit : ℕ → ℕ → ℕ
hit fd socket = if socket == fd then 1 else 0

-- How many slots have the socket.
abbrev pub held : ℕ → List ℕ → ℕ
held fd [] = 0
held fd (socket ∷ sockets) = hit fd socket + held fd sockets

abbrev pub opening : ℕ → Event → ℕ
opening fd (opened socket) = hit fd socket
opening fd _ = 0

abbrev pub closing : ℕ → Event → ℕ
closing fd (closed socket) = hit fd socket
closing fd _ = 0

-- How often the socket was opened, and closed.
abbrev pub opens : ℕ → List Event → ℕ
opens fd [] = 0
opens fd (event ∷ events) = opening fd event + opens fd events

abbrev pub closes : ℕ → List Event → ℕ
closes fd [] = 0
closes fd (event ∷ events) = closing fd event + closes fd events

-- There are as many slots as before, and what was in them or was opened is in them or was closed.
pub record Accounts (before : List ℕ) (events : List Event) (after : List ℕ) : Type 0 where
  pub slots : length after ≡ length before
  pub sockets :
      (fd : ℕ) → 0 < fd → held fd before + opens fd events ≡ held fd after + closes fd events

pub opens-append : (fd : ℕ) (xs ys : List Event) → opens fd (xs ++ ys) ≡ opens fd xs + opens fd ys
opens-append fd [] ys = omega arith
opens-append fd (x ∷ xs) ys = omega (arith, opens-append fd xs ys)

pub closes-append :
    (fd : ℕ) (xs ys : List Event) → closes fd (xs ++ ys) ≡ closes fd xs + closes fd ys
closes-append fd [] ys = omega arith
closes-append fd (x ∷ xs) ys = omega (arith, closes-append fd xs ys)

pub unchanged : (sockets : List ℕ) → Accounts sockets [] sockets
unchanged sockets = record { slots = refl; sockets = λ fd h. refl }

pub join :
    {a b c : List ℕ} (xs ys : List Event)
    → Accounts a xs b
    → Accounts b ys c
    → Accounts a (xs ++ ys) c
join xs ys p q = record {
  slots = omega (arith, p.slots, q.slots);
  sockets = λ fd h.
      omega (arith, p.sockets fd h, q.sockets fd h, opens-append fd xs ys, closes-append fd xs ys);
}

-- One slot in front of the others.
pub front :
    (socket socket' : ℕ) (xs ys : List Event) {a b : List ℕ}
    → ((fd : ℕ) → 0 < fd → hit fd socket + opens fd xs ≡ hit fd socket' + closes fd xs)
    → Accounts a ys b
    → Accounts (socket ∷ a) (xs ++ ys) (socket' ∷ b)
front socket socket' xs ys p q = record {
  slots = omega (arith, q.slots);
  sockets =
      λ fd h. omega (arith, p fd h, q.sockets fd h, opens-append fd xs ys, closes-append fd xs ys);
}

pub hit_zero : (fd : ℕ) → 0 < fd → hit fd 0 ≡ 0
hit_zero fd h = ground arith
