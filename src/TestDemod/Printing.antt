-- ===== src/TestDemod/Printing.antt =====
-- What `demodulated_packet_callback` of apps/test_demod/test_demod.c prints.
use modemstuff.Base.{ℕ, ◌+◌, ◌≤◌, ◌≡◌, refl, List, [], ◌∷◌, ◌++◌, All, some, arith, length}
use modemstuff.Packet.{Packet, packet_pack_tnc2}
use modemstuff.Packet.Tnc2.{packet_pack_tnc2-length}
use modemstuff.Deframer.Safety.{IsReceived}
use modemstuff.TestDemod.{Printed, print_packets}

-- The packets' lines, numbered one after another; each fits the buffer.
abbrev pub IsPrinted : ℕ → List Packet → Printed → Type 0
IsPrinted received [] [] = Unit
IsPrinted received [] (_ ∷ rest) = ⊥
IsPrinted received (packet ∷ packets) [] = ⊥
IsPrinted received (packet ∷ packets) ((number, line) ∷ rest) =
    (number ≡ received + 1)
    × (packet_pack_tnc2 packet ≡ some line)
    × (length line ≤ 512)
    × IsPrinted (received + 1) packets rest

pub IsPrinted-append :
    (received n : ℕ) (ps qs : List Packet) (xs ys : Printed)
    → n ≡ received + length ps
    → IsPrinted received ps xs
    → IsPrinted n qs ys
    → IsPrinted received (ps ++ qs) (xs ++ ys)
IsPrinted-append received n [] qs [] ys e h k =
    let same : n ≡ received = omega arith in rw same at k
IsPrinted-append received n [] qs (x ∷ xs) ys e h k = absurd h
IsPrinted-append received n (p ∷ ps) qs [] ys e h k = absurd h
IsPrinted-append received n (p ∷ ps) qs ((number, line) ∷ xs) ys e h k =
    (h.0, h.1, h.2, IsPrinted-append (received + 1) n ps qs xs ys (omega arith) h.3 k)

pub print_packets_total :
    (received : ℕ) (packets : List Packet)
    → All IsReceived packets
    → (lines : Printed) × (print_packets received packets ≡ some lines)
      × IsPrinted received packets lines
unfolding print_packets
print_packets_total received [] r = ([], refl, tt)
print_packets_total received (p ∷ packets) r =
    let (line, e, short) = packet_pack_tnc2-length p r.0.terminated in
    let (lines, f, printed) = print_packets_total (received + 1) packets r.1 in
    ((received + 1, line ++ (0 ∷ [])) ∷ lines, rw (e, f) refl, (refl, e, omega arith, printed))
