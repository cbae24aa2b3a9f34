-- ===== src/Tnc/Examples.antt =====
-- A received packet to a host, and the commands that set the modulator up.
use modemstuff.Base.{
  ℕ, ◌+◌, All, ◌≤◌, ◌≡◌, refl, inl, true, List, [], ◌∷◌, none, some, arith, length-replicate,
  replicate,
}
use modemstuff.Kiss.{Decoder, Message, encode, undefined, decoder_buffer_size}
use modemstuff.Kiss.Stream.{run}
use modemstuff.Kiss.RoundTrip.{IsReady}
use modemstuff.Packet.{Packet, packet_pack, packet_unpack}
use modemstuff.Packet.Shape.{SamePacket, IsValid-IsTerminated}
use modemstuff.Packet.Samples.{
  report, other_report, other_report-IsTerminated, storage, report-IsValid, storage-IsShaped,
}
use modemstuff.Framer.{Framer}
use modemstuff.Deframer.{Deframer, max_packet_len}
use modemstuff.BitDetector.Recovery.{held}
use modemstuff.Link.{
  Modulator, modulator_init, modulator_framer, modulator_process, Demodulator, demodulator_init,
  demodulator_process,
}
use modemstuff.Dsp.Fsk.{Generator, generator_init, samples_count}
use modemstuff.Dsp.Keying.{max_samples}
use modemstuff.Dsp.Samples.{whole, floats, clear_deframer}
use modemstuff.Tnc.Received.{IsRelayed, demodulator_process-IsRelayed}
use modemstuff.Deframer.Safety.{IsValid}
use modemstuff.Deframer.{deframer_init}
use modemstuff.BitDetector.{positive, not_positive}
use modemstuff.Tnc.Commands.{IsHandled, run-incoming_all, modulator_process_flags}
use modemstuff.Tnc.EndToEnd.{demodulated_packet-incoming_kiss_message}
use modemstuff.Tnc.{kiss_message, demodulated_packet, incoming_kiss_message}
use modemstuff.Tnc.Relay.{run-demodulated_packet}

abbrev idle : Decoder
idle = record {
  state = undefined;
  buffer = replicate decoder_buffer_size 7;
  buffer_pos = 0;
  has_callback = true;
}

idle-IsReady : IsReady idle
idle-IsReady = record {
  valid = record { array = length-replicate {A = ℕ} 512 7; bounded = omega arith };
  callback = refl;
  fresh = inl refl;
}

-- A delay in units of 10 ms.
set_delay :
    (framer : Framer)
    → incoming_kiss_message
        (modulator_init 1200)
        framer
        storage
        (record { port = 0; command = 1; payload = 50 ∷ []; data_length = 1 })
      ≡ some (record { baud_rate = 1200; tx_delay = 500; tx_tail = 80 }, [])
unfolding incoming_kiss_message modulator_init
set_delay framer = refl

-- A command without its value reads what was not written.
set_nothing :
    (framer : Framer)
    → incoming_kiss_message
        (modulator_init 1200)
        framer
        storage
        (record { port = 0; command = 1; payload = []; data_length = 0 })
      ≡ none
unfolding incoming_kiss_message
set_nothing framer = refl

run-demodulated_packet_example :
    (bytes : List ℕ) × (demodulated_packet report ≡ some bytes)
    × ((last : Decoder) × ((message : Message) × (run idle bytes ≡ some (last, message ∷ []))
          × IsReady last
          × ((back : Packet) × (packet_unpack storage message.payload message.data_length
                ≡ some back)
              × SamePacket report back)))
run-demodulated_packet_example =
    run-demodulated_packet report storage idle report-IsValid storage-IsShaped idle-IsReady

abbrev framer : Framer
framer = record {
  head_flags = 99;
  tail_flags = 99;
  bit_buffer = replicate 256 0;
  bit_buffer_unit = 99;
  bit_buffer_bit = 99;
  total_bits = 99;
  reading_bit = 99;
}

-- A deframer's memory that holds something else.
abbrev deframer : Deframer
deframer = record {
  buffer = replicate max_packet_len 90;
  buffer_pos = 21;
  raw_bits = 99;
  unstuffed_bits = 3;
  unstuffed_bit_count = 2;
  ones_count = 6;
}

few_flags :
    (modulator_framer (modulator_init 1200) framer).head_flags
      + (modulator_framer (modulator_init 1200) framer).tail_flags
    ≤ 718
unfolding modulator_framer modulator_init
few_flags = omega arith

demodulated_packet-incoming_kiss_message_example :
    (bytes : List ℕ) × (packet_pack report ≡ some bytes)
    × ((sent : List ℕ) × (encode (kiss_message bytes) ≡ some sent)
        × ((last : Decoder) × (run idle sent ≡ some (last, kiss_message bytes ∷ [])) × IsReady last)
        × ((levels : List ℕ) × (incoming_kiss_message
                (modulator_init 1200)
                framer
                storage
                (kiss_message bytes)
              ≡ some (modulator_init 1200, levels))
            × ((back : Packet) × SamePacket report back
                × ((end : Demodulator) × (demodulator_process
                        (demodulator_init 40 deframer)
                        storage
                        (held 40 levels)
                      ≡ some (end, back, back ∷ [])))
                × (demodulated_packet back ≡ some sent))))
demodulated_packet-incoming_kiss_message_example =
    demodulated_packet-incoming_kiss_message idle (modulator_init 1200) framer 40 deframer report
      storage storage idle-IsReady refl few_flags (omega arith)
      (length-replicate {A = ℕ} max_packet_len 90) report-IsValid storage-IsShaped storage-IsShaped
      (omega arith)

-- A data frame of one byte, and a delay.
abbrev short_frames : List ℕ
short_frames = 0xc0 ∷ 0x00 ∷ 0x41 ∷ 0xc0 ∷ 0x01 ∷ 0xff ∷ 0xc0 ∷ []

abbrev generator : Generator ℕ
generator = generator_init 0 1200 2200 1200 2400

few_samples : samples_count generator ≤ max_samples
unfolding samples_count
few_samples = omega arith

run-incoming_all_example :
    IsHandled floats generator
      (replicate 512 5)
      (modulator_init 1200)
      framer
      storage
      (replicate 512 9)
      idle
      short_frames
run-incoming_all_example =
    run-incoming_all floats generator (replicate 512 5) short_frames idle (modulator_init 1200)
      framer storage (replicate 512 9) (length-replicate {A = ℕ} 512 5) few_samples
      idle-IsReady.valid storage-IsShaped (omega (arith, length-replicate {A = ℕ} 512 9))

-- The longest delay, at 9600 baud.
abbrev slow : Modulator
slow = record { baud_rate = 9600; tx_delay = 2550; tx_tail = 80 }

modulator_process_flags_example :
    modulator_process slow framer report ≡ modulator_process slow framer other_report
modulator_process_flags_example =
    modulator_process_flags slow framer report other_report (IsValid-IsTerminated report-IsValid)
      other_report-IsTerminated (omega arith)

cleared-IsValid : IsValid (demodulator_init 2 clear_deframer).deframer
unfolding demodulator_init deframer_init
cleared-IsValid = record {
  array = length-replicate {A = ℕ} max_packet_len 0;
  bounded = omega arith;
}

demodulator_process-IsRelayed_example :
    (r : Demodulator × Packet × List Packet) × (demodulator_process
        (demodulator_init 2 clear_deframer)
        storage
        (positive ∷ not_positive ∷ [])
      ≡ some r)
    × All IsRelayed r.2
demodulator_process-IsRelayed_example =
    demodulator_process-IsRelayed (demodulator_init 2 clear_deframer) storage
      (positive ∷ not_positive ∷ []) cleared-IsValid storage-IsShaped
