-- ===== src/Netaud/Examples.antt =====
-- Three samples from a client, of which one is asked for.
use modemstuff.Base.{
  ℕ, Bool, ◌==◌, ◌+◌, false, ◌≡◌, refl, inl, List, [], ◌∷◌, ◌++◌, map, some, true, arith,
  length-replicate, replicate, drop, concat,
}
use modemstuff.LinkedBuffer.{Node, LinkedBuffer}
use modemstuff.LinkedBuffer.Contents.{contents, IsMemory, IsValid}
use modemstuff.NetServer.{Server, cleared, server_init, SendResult, sent_bytes, broadcast}
use modemstuff.NetServer.Thread.{received, receive}
use modemstuff.Netaud.{Netaud, stream_callback, client_data_callbacks}
use modemstuff.NetServer.{Setup}
use modemstuff.Netaud.Audio.{AudioDevice, PortAudio}
use modemstuff.Netaud.Start.{ℤ, args_expected, main}
use modemstuff.Netaud.Devices.{streams_of}
use modemstuff.Netaud.Ending.{IsWorking, calls_of, main-calls_of}
use modemstuff.Netaud.Playing.{samples_then_silence, stream_callback-client_data_callbacks}

abbrev memory : ℕ → Node
memory i = record { bytes = replicate 1024 7; size = 3; offset = 60000 }

memory-IsMemory : IsMemory memory
memory-IsMemory i = length-replicate {A = ℕ} 1024 7

abbrev server : Server
server = record (cleared 3) {
  client_sockets = 5 ∷ [];
  client_data_start_callback = true;
  client_data_chunk_callback = true;
  client_data_end_callback = true;
}

abbrev playing : Netaud ℕ
playing = record {
  start_time = some 1;
  client_data_buffer = record {
    nodes = 1;
    chain = record { bytes = replicate 1024 9; size = 0; offset = 3 } ∷ [];
  };
  server = server;
}

playing-IsValid : IsValid playing.client_data_buffer
playing-IsValid = record {
  count = refl;
  some_node = omega arith;
  few_nodes = omega arith;
  fit = ((length-replicate {A = ℕ} 1024 9, inl refl), tt);
}

abbrev samples : List ℕ
samples = 1 ∷ 0 ∷ 0 ∷ 0 ∷ 2 ∷ 0 ∷ 0 ∷ 0 ∷ 3 ∷ 0 ∷ 0 ∷ 0 ∷ []

abbrev microphone : List ℕ
microphone = 4 ∷ 4 ∷ 4 ∷ 4 ∷ []

abbrev all_sent : ℕ → SendResult
all_sent i = sent_bytes 4

stream_callback-client_data_callbacks_example :
    let bytes = contents playing.client_data_buffer.chain ++ (concat [] ++ samples) in
    (buffer : LinkedBuffer) × (netaud' : Netaud ℕ) × (client_data_callbacks memory
        playing.client_data_buffer
        (receive server 5 0 (map received [] ++ (received samples ∷ []))).events
      ≡ some buffer)
    × (stream_callback memory all_sent 8 microphone 1
          (record playing { client_data_buffer = buffer })
        ≡ some (
          netaud',
          (broadcast all_sent server (some microphone) 4).1.0,
          samples_then_silence bytes 1,
        ))
    × IsValid netaud'.client_data_buffer
    × (contents netaud'.client_data_buffer.chain ≡ drop 4 bytes)
stream_callback-client_data_callbacks_example =
    stream_callback-client_data_callbacks memory server 5 playing [] samples all_sent 8 microphone 1
      refl refl memory-IsMemory playing-IsValid (omega arith) tt (omega arith) (omega arith)
      (omega arith) (omega arith)

-- Two devices, "A" and "B".
abbrev letters : ℕ → List ℕ
letters k = (65 + k) ∷ []

abbrev two_devices : PortAudio
two_devices = record {
  initialize_ok = true;
  device_count = some 2;
  device_name = λ k. some (letters k);
  new_stream = λ device rate. some 77;
  start_ok = λ stream. true;
  stop_ok = λ stream. true;
  close_ok = λ stream. true;
  terminate_ok = true;
}

two_devices-IsWorking : IsWorking two_devices 2 letters
two_devices-IsWorking = record {
  initializes = refl;
  counted = refl;
  few = omega arith;
  named = λ k h. refl;
  starts = λ stream. refl;
  stops = λ stream. refl;
  closes = λ stream. refl;
  terminates = refl;
}

-- A pointer that was left behind in every device.
abbrev left_behind : AudioDevice
left_behind = record { index = 9; name = []; sample_rate = 1; port = 2; stream = 555 }

abbrev same_letter : List ℕ → List ℕ → Bool
same_letter (x ∷ xs) (y ∷ ys) = x == y
same_letter _ _ = false

abbrev one_setup : ℕ → Setup
one_setup port = record { socket = some 3; setsockopt_ok = true; bind_ok = true; listen_ok = true }

main-calls_of_example :
    main
      (λ arg. ℤ.pos 8000)
      same_letter
      two_devices
      one_setup
      args_expected
      ([] ∷ (66 ∷ []) ∷ [] ∷ [] ∷ [])
      (replicate 32 left_behind)
    ≡ some (record {
      calls = calls_of 2 1 8000 77 (cleared 3) (streams_of (replicate 32 left_behind));
      success = true;
    })
unfolding server_init
main-calls_of_example =
    main-calls_of (λ arg. ℤ.pos 8000) same_letter two_devices one_setup 2 1 7999 7999 77 letters
      (cleared 3) [] (66 ∷ []) [] [] (replicate 32 left_behind) two_devices-IsWorking
      (length-replicate 32 left_behind) (omega arith) refl refl refl
      (λ k h. let first : k ≡ 0 = omega arith in rw first refl) refl refl
