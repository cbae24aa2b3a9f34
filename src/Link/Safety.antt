-- ===== src/Link/Safety.antt =====
-- The demodulator on whatever symbols: it stays inside its arrays.
use modemstuff.Base.{◌≡◌, refl, ◌∙◌, List, All, Option, none, some}
use modemstuff.Packet.{Packet}
use modemstuff.Packet.Shape.{IsShaped}
use modemstuff.Deframer.{Deframer}
use modemstuff.Deframer.Safety.{IsValid, IsReceived, run_total}
use modemstuff.Linecode.Inverse.{decode_all}
use modemstuff.BitDetector.{Symbol}
use modemstuff.Link.{Demodulator, demodulator_process}
use modemstuff.Link.Loop.{bit_signal, deframed, demodulator_process-run}

deframed_total :
    (m : Option (Demodulator × Packet × List Packet)) {r : Deframer × Packet × List Packet}
    → deframed m ≡ some r
    → (q : Demodulator × Packet × List Packet) × (m ≡ some q) × (q.0.deframer ≡ r.0) × (q.2 ≡ r.2)
deframed_total none e = cc
deframed_total (some q) e = (q, refl, cc, cc)

pub demodulator_process_total :
    (symbols : List Symbol) (d : Demodulator) (p : Packet)
    → IsValid d.deframer
    → IsShaped p
    → (q : Demodulator × Packet × List Packet) × (demodulator_process d p symbols ≡ some q)
      × IsValid q.0.deframer
      × All IsReceived q.2
demodulator_process_total symbols d p v o =
    let (d', (p', (packets, e, v', o', received))) =
      run_total (decode_all d.nrzi_decoder (bit_signal d.bit_detector symbols)) d.deframer p v o in
    let (q, f, same, all) =
      deframed_total (demodulator_process d p symbols)
        (demodulator_process-run symbols d.bit_detector d.nrzi_decoder d.deframer p ∙ e) in
    (q, f, rw (← same) at v', rw (← all) at received)

-- The storage for packets keeps the sizes of its arrays.
pub demodulator_process-IsShaped :
    (symbols : List Symbol) (d : Demodulator) (p : Packet) {q : Demodulator × Packet × List Packet}
    → IsValid d.deframer
    → IsShaped p
    → demodulator_process d p symbols ≡ some q
    → IsShaped q.1
demodulator_process-IsShaped symbols d p {q = q} v o h =
    let bits = decode_all d.nrzi_decoder (bit_signal d.bit_detector symbols) in
    let (d', (p', (packets, e, v', o', received))) = run_total bits d.deframer p v o in
    let whole = demodulator_process-run symbols d.bit_detector d.nrzi_decoder d.deframer p in
    let both : deframed (some q) ≡ some (d', p', packets) = (rw h at whole) ∙ e in
    let same : q.1 ≡ p' = cc in rw same o'
