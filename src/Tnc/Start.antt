-- ===== src/Tnc/Start.antt =====
-- The start of apps/ax25tnc/ax25tnc.c: what `main` initialises before it waits for the server. The
-- rates are whole numbers where Link has them so. `none` as a result is an access outside an array.
use modemstuff.Base.{ℕ, ◌+◌, List, Option, none, some, true, not, ◌==◌, if◌then◌else◌, ◌>>=◌}
use modemstuff.Config.{Config}
use modemstuff.Kiss.{Decoder, init}
use modemstuff.Deframer.{Deframer}
use modemstuff.Link.{Demodulator, demodulator_init, Modulator, modulator_init}
use modemstuff.NetServer.{Server, Setup, server_init, set_callbacks, server_start}
use modemstuff.NetClient.{Client, Dial, client_init, client_set_callbacks, client_connect}
use modemstuff.Dsp.{Arithmetic, Floats, ◌⊘◌}
use modemstuff.Dsp.Fsk.{Generator, generator_init, Detector, detector_init}
use modemstuff.Tnc.Settings.{Settings, not_read, not_supplied, supplied, tnc_config_read}

abbrev pub args_expected : ℕ
args_expected = 1 + 1

-- What the memory holds before it is written: new blocks, what stands behind the window's buffer, the
-- detector's peaks, the generator's phase, the deframer and the decoder.
pub record Memory (F : Type 0) : Type 0 where
  pub malloc : ℕ → List F
  pub behind : List F
  pub mark_peak : F
  pub space_peak : F
  pub phase : F
  pub deframer : Deframer
  pub decoder : Decoder

-- The global variables while `main` waits for the server.
pub record Tnc (F : Type 0) : Type 0 where
  pub fsk_detector : Detector F
  pub demodulator : Demodulator
  pub fsk_generator : Generator F
  pub modulator : Modulator
  pub kiss_decoder : Decoder
  pub kiss_server : Server
  pub audio_client : Client

module _ {F D : Type 0} ⦃S : Arithmetic F⦄ ⦃W : Arithmetic D⦄ (L : Floats F D) where
  -- The demodulator first, then the modulator and the decoder, the server and the client.
  unfoldable pub start_all :
      Memory F → (ℕ → Setup) → (List ℕ → ℕ → Dial) → Settings ℕ F → Option (Option (Tnc F))
  start_all memory setup dial config =
      let sample_rate = S.of_int config.sample_rate in
      do
        detector ←
            detector_init L memory.malloc memory.behind memory.mark_peak memory.space_peak
              config.mark_freq config.space_freq config.baud_rate sample_rate
        elim (server_init (setup config.kiss_port)).0 [
          | none ↦ some none
          | some server ↦
              let (client, (events, connected)) =
                client_connect (dial config.host config.port)
                  (client_set_callbacks client_init true) in
              if not connected
              then some none
              else some (
                  some record {
                    fsk_detector = detector;
                    demodulator =
                        demodulator_init (S.truncate (sample_rate ⊘ config.baud_rate))
                          memory.deframer;
                    fsk_generator =
                        generator_init memory.phase config.mark_freq config.space_freq
                          config.baud_rate sample_rate;
                    modulator = modulator_init (S.truncate config.baud_rate);
                    kiss_decoder = init memory.decoder true;
                    kiss_server = server_start (set_callbacks server true true true);
                    audio_client = client;
                  })
        ]

  -- `some none` is EXIT_FAILURE.
  unfoldable pub main :
      (List ℕ → ℕ)
      → (List ℕ → F)
      → Memory F
      → (ℕ → Setup)
      → (List ℕ → ℕ → Dial)
      → ℕ
      → Config
      → Option (List (List ℕ))
      → Option (Option (Tnc F))
  unfolding start_all
  main atoi atof memory setup dial argc config lines =
      if not (argc == args_expected) then some none else (do
        outcome ← tnc_config_read atoi atof config lines
        elim outcome [
          | not_read ↦ some none
          | not_supplied key ↦ some none
          | supplied settings ↦ start_all memory setup dial settings
        ])
