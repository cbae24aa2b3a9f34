-- ===== src/Tnc/Running.antt =====
-- The node controller of apps/ax25tnc/ax25tnc.c from its start on, whatever it receives.
mod Examples
use modemstuff.Base.{ℕ, ◌≤◌, ◌≡◌, refl, ap, List, [], ◌∷◌, Option, some, true, length, All, ◌>>=◌}
use modemstuff.Config.{Config}
use modemstuff.Kiss.{init, decoder_buffer_size}
use modemstuff.Kiss.Safety.{init-IsValid}
use modemstuff.Packet.{Packet}
use modemstuff.Packet.Shape.{IsShaped}
use modemstuff.Framer.{Framer}
use modemstuff.Deframer.{max_packet_len}
use modemstuff.Deframer.Safety.{deframer_init-IsValid}
use modemstuff.BitDetector.{Symbol}
use modemstuff.Link.{modulator_init, Demodulator, demodulator_init, demodulator_process}
use modemstuff.NetServer.{opened, Server, Setup, server_init, set_callbacks, server_start}
use modemstuff.NetClient.{Client, Dial, client_init, client_set_callbacks, client_connect}
use modemstuff.Dsp.{Arithmetic, Floats, ◌⊘◌}
use modemstuff.Dsp.Fsk.{generator_init, samples_count, window_size}
use modemstuff.Dsp.Keying.{max_samples}
use modemstuff.Dsp.Detection.{detector_init_total}
use modemstuff.Tnc.Settings.{Settings, supplied, tnc_config_read}
use modemstuff.Tnc.Received.{IsRelayed, demodulator_process-IsRelayed}
use modemstuff.Tnc.Commands.{IsHandled, run-incoming_all}
use modemstuff.Tnc.Start.{Memory, Tnc, main, start_all, args_expected}

-- The calls with the new socket succeed.
abbrev pub connects : ℕ → Dial
connects socket = record {
  host_found = true;
  socket = some socket;
  connect_ok = true;
  pthread_create_ok = true;
}

abbrev pub connected_client : ℕ → Client
connected_client socket = record { socket = some socket; run = true; data_callback = true }

client_connect-connects :
    (dial : Dial) (socket : ℕ)
    → dial ≡ connects socket
    → client_connect dial (client_set_callbacks client_init true)
      ≡ (connected_client socket, (opened socket ∷ [], true))
unfolding client_connect client_init client_set_callbacks
client_connect-connects dial socket e =
    ap (λ d. client_connect d (client_set_callbacks client_init true)) e

module _ {F D : Type 0} ⦃S : Arithmetic F⦄ ⦃W : Arithmetic D⦄ (L : Floats F D) where
  -- The symbols go through the demodulator and the relay, and the bytes through the decoder, the
  -- handler of its messages and the oscillator, all without a fault.
  pub record IsSafe (tnc : Tnc F) (p storage : Packet) (framer : Framer) (memory : List ℕ)
      (keyed : List F) (symbols : List Symbol) (bytes : List ℕ) : Type 0 where
    pub result : Demodulator × Packet × List Packet
    pub demodulated : demodulator_process tnc.demodulator p symbols ≡ some result
    pub relayed : All IsRelayed result.2
    pub handled :
        IsHandled L tnc.fsk_generator keyed tnc.modulator framer storage memory tnc.kiss_decoder
          bytes

  pub main-IsSafe :
      (atoi : List ℕ → ℕ) (atof : List ℕ → F) (memory : Memory F) (setup : ℕ → Setup)
      (dial : List ℕ → ℕ → Dial) (config : Config) (lines : Option (List (List ℕ)))
      (settings : Settings ℕ F) (server : Server) (socket : ℕ) (p storage : Packet)
      (framer : Framer) (array : List ℕ) (keyed : List F) (symbols : List Symbol) (bytes : List ℕ)
      → ((n : ℕ) → length (memory.malloc n) ≡ n)
      → length memory.deframer.buffer ≡ max_packet_len
      → length memory.decoder.buffer ≡ decoder_buffer_size
      → decoder_buffer_size ≤ length array
      → length keyed ≡ max_samples
      → IsShaped p
      → IsShaped storage
      → tnc_config_read atoi atof config lines ≡ some (supplied settings)
      → 1 ≤ window_size (S.of_int settings.sample_rate) settings.baud_rate
      → window_size (S.of_int settings.sample_rate) settings.baud_rate ≤ max_samples
      → (server_init (setup settings.kiss_port)).0 ≡ some server
      → dial settings.host settings.port ≡ connects socket
      → (tnc : Tnc F) × (main L atoi atof memory setup dial args_expected config lines
          ≡ some (some tnc))
        × (tnc.kiss_server ≡ server_start (set_callbacks server true true true))
        × (tnc.audio_client ≡ connected_client socket)
        × IsSafe tnc p storage framer array keyed symbols bytes
  unfolding main start_all demodulator_init samples_count window_size
  main-IsSafe atoi atof memory setup dial config lines settings server socket p storage framer array
        keyed symbols bytes m a k l full o o' read h few ok dialled =
      let rate = S.of_int settings.sample_rate in
      let d = demodulator_init (S.truncate (rate ⊘ settings.baud_rate)) memory.deframer in
      let (result, demodulated, relayed) =
        demodulator_process-IsRelayed d p symbols (deframer_init-IsValid memory.deframer a) o in
      let gen =
        generator_init memory.phase settings.mark_freq settings.space_freq settings.baud_rate
          rate in
      let handled =
        run-incoming_all L gen keyed bytes (init memory.decoder true)
          (modulator_init (S.truncate settings.baud_rate)) framer storage array full few
          (init-IsValid memory.decoder true k) o' l in
      let (start, detected) =
        detector_init_total L memory.mark_peak memory.space_peak settings.mark_freq
          settings.space_freq settings.baud_rate rate memory.malloc memory.behind m h in
      let connection = client_connect-connects (dial settings.host settings.port) socket dialled in
      let tnc : Tnc F = record {
        fsk_detector = start;
        demodulator = d;
        fsk_generator = gen;
        modulator = modulator_init (S.truncate settings.baud_rate);
        kiss_decoder = init memory.decoder true;
        kiss_server = server_start (set_callbacks server true true true);
        audio_client = connected_client socket;
      } in
      (
        tnc,
        rw (read, detected, ok, connection) refl,
        refl,
        refl,
        record { result = result; demodulated = demodulated; relayed = relayed; handled = handled },
      )
