-- ===== src/Netaud/Ending.antt =====
-- The run of `main` of apps/netaud/netaud.c.
use modemstuff.Base.{
  ℕ, zero, suc, ◌+◌, ◌≤◌, ◌<◌, ◌≡◌, refl, ap, List, [], ◌∷◌, ◌++◌, map, some, Bool, true, false,
  arith, length, length-set, ltb, take, get_elem?, get_elem?_total, set, ◌==◌,
}
use modemstuff.NetServer.{Server, Setup, server_init, set_callbacks, server_start}
use modemstuff.Netaud.Audio.{
  AudioDevice, PortAudio, open_stream, start_stream, stop_stream, close_stream, terminate,
  audio_device_max_name_len, max_audio_devices, audio_init, audio_open, audio_close, audio_destroy,
}
use modemstuff.Netaud.Start.{
  ℤ, MainCall, audio, init_buffer, serve, args_expected, parse_args, select_device, main,
  run_device, finish,
}
use modemstuff.Netaud.Devices.{
  described, described_at, read_devices-described, get_elem?-described, select_device-first,
  not_null, streams_of, streams_of-described, streams_of-set, close_streams-not_null, set-set,
}

-- PortAudio has so many devices of these names, and no call of it fails.
pub record IsWorking (pa : PortAudio) (num : ℕ) (names : ℕ → List ℕ) : Type 0 where
  pub initializes : pa.initialize_ok ≡ true
  pub counted : pa.device_count ≡ some num
  pub few : num ≤ max_audio_devices
  pub named : (k : ℕ) → k < num → pa.device_name k ≡ some (names k)
  pub starts : (stream : ℕ) → pa.start_ok stream ≡ true
  pub stops : (stream : ℕ) → pa.stop_ok stream ≡ true
  pub closes : (stream : ℕ) → pa.close_ok stream ≡ true
  pub terminates : pa.terminate_ok ≡ true

audio_init-described :
    (pa : PortAudio) (num : ℕ) (names : ℕ → List ℕ) (memory : List AudioDevice)
    → IsWorking pa num names
    → length memory ≡ max_audio_devices
    → audio_init pa memory ≡ some (described names num 0 memory, some num)
unfolding audio_init
audio_init-described pa num names memory w h =
    let fits : ltb max_audio_devices num ≡ false = ground (arith, w.few) in
    rw
      (
        w.initializes,
        w.counted,
        fits,
        read_devices-described pa names num 0 memory (omega (arith, w.few))
            (λ k low high. w.named k (omega arith)),
      )
      refl

audio_destroy-not_null :
    (pa : PortAudio) (num : ℕ) (names : ℕ → List ℕ) (devices : List AudioDevice)
    → IsWorking pa num names
    → num ≤ length devices
    → (devices' : List AudioDevice) × (audio_destroy pa devices num
        ≡ some (
          devices',
          map close_stream (not_null (take num (streams_of devices))) ++ (terminate ∷ []),
          true,
        ))
unfolding audio_destroy
audio_destroy-not_null pa num names devices w h =
    let (devices', e) = close_streams-not_null pa num devices h w.closes in
    (devices', rw (e, w.terminates) refl)

length-described :
    (names : ℕ → List ℕ) (n i : ℕ) (devices : List AudioDevice)
    → length (described names n i devices) ≡ length devices
length-described names zero i devices = refl
length-described names (suc n) i [] = refl
length-described names (suc n) i (d ∷ devices) = ap suc (length-described names n (i + 1) devices)

get_elem?-set :
    (devices : List AudioDevice) (i : ℕ) (d : AudioDevice)
    → i < length devices
    → get_elem? (set devices i d) i ≡ some d
get_elem?-set [] i d h = absurd (omega arith)
get_elem?-set (x ∷ devices) zero d h = refl
get_elem?-set (x ∷ devices) (suc i) d h = get_elem?-set devices i d (omega arith)

-- What holds of the names holds of the devices.
named_before :
    (strcasestr : List ℕ → List ℕ → Bool) (names : ℕ → List ℕ) (num : ℕ) (name : List ℕ)
    (memory : List AudioDevice) (i : ℕ)
    → ((k : ℕ) → k < i → strcasestr (take audio_device_max_name_len (names k)) name ≡ false)
    → i < num
    → num ≤ length memory
    → (k : ℕ) (e : AudioDevice) → k < i
    → get_elem? (described names num 0 memory) k ≡ some e
    → strcasestr e.name name ≡ false
named_before strcasestr names num name memory i before lt le k e h at_k =
    let (m, held) = get_elem?_total memory k (omega arith) in
    let here : 0 + k ≡ k = omega arith in
    let found = rw here at (get_elem?-described names num 0 k memory m (omega arith) held) in
    let same : e ≡ described_at names k m = cc in rw same (before k h)

-- The calls of a run that plays on a device, over the pointers that the memory of the array held.
abbrev pub calls_of : ℕ → ℕ → ℕ → ℕ → Server → List ℕ → List MainCall
calls_of num i rate stream server pointers =
    init_buffer
    ∷ audio (open_stream i rate)
    ∷ audio (start_stream stream)
    ∷ serve (server_start (set_callbacks server true true true))
    ∷ audio (stop_stream stream)
    ∷ map audio (map close_stream (not_null (take num (set pointers i stream))) ++ (terminate ∷ []))

module _ (atoi : List ℕ → ℤ) (strcasestr : List ℕ → List ℕ → Bool) (pa : PortAudio)
    (setup : ℕ → Setup) where
  run_device-calls_of :
      (num stream : ℕ) (names : ℕ → List ℕ) (server : Server) (d : AudioDevice)
      (devices : List AudioDevice)
      → IsWorking pa num names
      → d.index < num
      → num ≤ length devices
      → (server_init (setup d.port)).0 ≡ some server
      → pa.new_stream d.index d.sample_rate ≡ some stream
      → run_device atoi strcasestr pa setup d d.index devices num
        ≡ some (record {
          calls = calls_of num d.index d.sample_rate stream server (streams_of devices);
          success = true;
        })
  unfolding run_device finish audio_open audio_close
  run_device-calls_of num stream names server d devices w lt le ok new =
      let opened = record d { stream = stream } in
      let (devices', e) =
        audio_destroy-not_null pa num names (set devices d.index opened) w
          (omega (arith, length-set devices d.index opened)) in
      rw
        (
          run_device,
          ok,
          w.named d.index lt,
          new,
          w.starts stream,
          w.stops stream,
          e,
          streams_of-set devices d.index opened,
        )
        refl

  parse_args-select_device :
      (num rate port : ℕ) (program name rate_arg port_arg : List ℕ) (devices : List AudioDevice)
      → atoi rate_arg ≡ ℤ.pos (suc rate)
      → atoi port_arg ≡ ℤ.pos (suc port)
      → parse_args atoi strcasestr args_expected
          (program ∷ name ∷ rate_arg ∷ port_arg ∷ [])
          devices
          num
        ≡ select_device atoi strcasestr num 0 (suc rate) (suc port) name devices
  unfolding parse_args
  parse_args-select_device num rate port program name rate_arg port_arg devices r p =
      let some_rate : (suc rate == 0) ≡ false = ground arith in
      let some_port : (suc port == 0) ≡ false = ground arith in
      rw (r, some_rate) (rw (p, some_port) refl)

  -- If no call of PortAudio fails, the arguments are positive numbers and the server starts: `main` plays
  -- on the first device whose name holds the one that is asked for. It sets up the buffer, opens and
  -- starts a stream of that device with the rate that is asked for, serves, stops the stream and ends
  -- with success, having closed every pointer of the devices that is not NULL, in order, and PortAudio.
  -- Those are the new stream and, for every other device, what the memory of the array held.
  pub main-calls_of :
      (num i rate port stream : ℕ) (names : ℕ → List ℕ) (server : Server)
      (program name rate_arg port_arg : List ℕ) (memory : List AudioDevice)
      → IsWorking pa num names
      → length memory ≡ max_audio_devices
      → i < num
      → atoi rate_arg ≡ ℤ.pos (suc rate)
      → atoi port_arg ≡ ℤ.pos (suc port)
      → strcasestr (take audio_device_max_name_len (names i)) name ≡ true
      → ((k : ℕ) → k < i → strcasestr (take audio_device_max_name_len (names k)) name ≡ false)
      → (server_init (setup (suc port))).0 ≡ some server
      → pa.new_stream i (suc rate) ≡ some stream
      → main atoi strcasestr pa setup args_expected
          (program ∷ name ∷ rate_arg ∷ port_arg ∷ [])
          memory
        ≡ some (record {
          calls = calls_of num i (suc rate) stream server (streams_of memory);
          success = true;
        })
  unfolding main
  main-calls_of num i rate port stream names server program name rate_arg port_arg memory w l lt r p
        found before ok new =
      let devices = described names num 0 memory in
      let (m, held) = get_elem?_total memory i (omega (arith, w.few)) in
      let d = described_at names i m in
      let chosen : AudioDevice = record d { sample_rate = suc rate; port = suc port } in
      let len = length-described names num 0 memory in
      let here : 0 + i ≡ i = omega arith in
      let at_i : get_elem? devices i ≡ some d =
        rw here at (get_elem?-described names num 0 i memory m lt held) in
      let selected = rw here at (
        select_device-first atoi strcasestr num 0 (suc rate) (suc port) i name devices d
          (omega (arith, w.few, len)) lt at_i found
          (named_before strcasestr names num name memory i before lt (omega (arith, w.few)))) in
      let some_device : (num == 0) ≡ false = ground arith in
      let runs =
        run_device-calls_of num stream names server chosen (set devices i chosen) w lt
          (omega (arith, len, length-set devices i chosen, w.few)) ok new in
      rw
        (
          audio_init-described pa num names memory w l,
          some_device,
          parse_args-select_device num rate port program name rate_arg port_arg devices r p,
          selected,
          get_elem?-set devices i chosen (omega (arith, len, w.few)),
          runs,
        )
        (rw
          (
            streams_of-set devices i chosen,
            streams_of-described names num 0 memory,
            set-set (streams_of memory) i m.stream stream,
          )
          refl)
