-- ===== src/Link.antt =====
-- The bits of the modem of apps/ax25tnc: modulator.c from a packet to the levels that it keys,
-- demodulator.c from soft symbols to packets. The tones between them are in Dsp; here a level
-- keyed for one bit is a symbol of the same sign for each of the samples of that bit.
-- `none` as a result is a read or write outside an array. The rates are whole numbers, and the
-- callback of the demodulator is set.
pub mod Loop
pub mod Safety
pub mod Runs
pub mod EndToEnd
mod Examples
use modemstuff.Base.{
  ℕ, ◌+◌, ◌*◌, ◌/◌, max, List, [], ◌∷◌, Option, none, some, ◌==◌, if◌then◌else◌, ◌>>=◌,
}
use modemstuff.Packet.{Packet}
use modemstuff.Framer.{Framer, framer_init, framer_process, min_head_flags, min_tail_flags}
use modemstuff.Framer.Reading.{drain}
use modemstuff.Deframer
use modemstuff.Deframer.{Deframer, deframer_init}
use modemstuff.Linecode.{NrziDecoder, nrzi_encoder_init, nrzi_decoder_init, nrzi_decode}
use modemstuff.Linecode.Inverse.{encode_all}
use modemstuff.BitDetector.{Symbol, BitDetector, bit_detector_init, bit_detector_process}

pub record Modulator : Type 0 where
  pub baud_rate : ℕ
  pub tx_delay : ℕ
  pub tx_tail : ℕ

unfoldable pub modulator_init : ℕ → Modulator
modulator_init baud_rate = record { baud_rate = baud_rate; tx_delay = 320; tx_tail = 80 }

-- The framer as the modulator sets it up in `storage`, the memory of its local variable.
unfoldable pub modulator_framer : Modulator → Framer → Framer
modulator_framer mod' storage = record (framer_init storage) {
  head_flags = max (mod'.tx_delay * mod'.baud_rate / 8000) min_head_flags;
  tail_flags = max (mod'.tx_tail * mod'.baud_rate / 8000) min_tail_flags;
}

-- The levels that are keyed, bit after bit.
unfoldable pub modulator_process : Modulator → Framer → Packet → Option (List ℕ)
modulator_process mod' storage packet = do
  (framer, total) ← framer_process (modulator_framer mod' storage) packet
  some (encode_all nrzi_encoder_init (drain (total + 1) framer))

pub record Demodulator : Type 0 where
  pub bit_detector : BitDetector
  pub nrzi_decoder : NrziDecoder
  pub deframer : Deframer

-- `ax25_deframer` is initialised in the memory that it stands in.
unfoldable pub demodulator_init : ℕ → Deframer → Demodulator
demodulator_init bit_period storage = record {
  bit_detector = bit_detector_init bit_period;
  nrzi_decoder = nrzi_decoder_init;
  deframer = deframer_init storage;
}

-- A decoded bit goes to the deframer; MS_BIT_NONE does not.
deframe : Demodulator → Packet → Option ℕ → Option (Demodulator × Packet × ℕ)
deframe d packet none = some (d, packet, 0)
deframe d packet (some bit) = do
  (deframer, packet', ret) ← Deframer.process d.deframer packet bit
  some (record d { deframer = deframer }, packet', ret)

-- The body of the loop over the samples.
unfoldable pub demodulate_symbol : Demodulator → Packet → Symbol → Option (Demodulator × Packet × ℕ)
unfolding deframe
demodulate_symbol d packet symbol =
    let (detector, bit) = bit_detector_process d.bit_detector symbol in
    let (decoder, bit') = nrzi_decode d.nrzi_decoder bit in
    deframe (record d { bit_detector = detector; nrzi_decoder = decoder }) packet bit'

-- The loop; the packets that went to the callback are collected in order.
unfoldable pub demodulator_process :
    Demodulator → Packet → List Symbol → Option (Demodulator × Packet × List Packet)
demodulator_process d packet [] = some (d, packet, [])
demodulator_process d packet (symbol ∷ symbols) = do
  (d', packet', ret) ← demodulate_symbol d packet symbol
  (d'', packet'', packets) ← demodulator_process d' packet' symbols
  some (d'', packet'', if ret == 0 then packets else packet' ∷ packets)
