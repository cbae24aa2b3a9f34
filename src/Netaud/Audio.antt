-- ===== src/Netaud/Audio.antt =====
-- The devices of apps/netaud/audio.c and audio.h. What PortAudio answers is an argument, and the calls
-- that change something there are events. `none` as a result is an access outside an array or through
-- a null pointer.
use modemstuff.Base.{
  ℕ, zero, suc, ◌+◌, List, [], ◌∷◌, ◌++◌, Option, none, some, Bool, true, false, not, take, ltb,
  ◌==◌, if◌then◌else◌, ◌>>=◌,
}

abbrev pub max_audio_devices : ℕ
max_audio_devices = 32

abbrev pub audio_device_max_name_len : ℕ
audio_device_max_name_len = 256

-- `name` is the string in its array, and `stream` the pointer, NULL being 0.
pub record AudioDevice : Type 0 where
  pub index : ℕ
  pub name : List ℕ
  pub sample_rate : ℕ
  pub port : ℕ
  pub stream : ℕ

-- The answers of PortAudio: whether a call succeeds, and what it gives if it does.
pub record PortAudio : Type 0 where
  pub initialize_ok : Bool
  pub device_count : Option ℕ
  pub device_name : ℕ → Option (List ℕ)
  pub new_stream : ℕ → ℕ → Option ℕ
  pub start_ok : ℕ → Bool
  pub stop_ok : ℕ → Bool
  pub close_ok : ℕ → Bool
  pub terminate_ok : Bool

-- The calls: `open_stream` with the device and the rate, the others with the stream.
pub data AudioCall : Type 0 where
  open_stream : ℕ → ℕ → AudioCall
  start_stream : ℕ → AudioCall
  stop_stream : ℕ → AudioCall
  close_stream : ℕ → AudioCall
  terminate : AudioCall

module _ (pa : PortAudio) where
  -- The loop over so many devices, from `audio_devices[i]` on; `false` is a device without an answer.
  unfoldable pub read_devices : ℕ → ℕ → List AudioDevice → Option (List AudioDevice × Bool)
  read_devices zero i devices = some (devices, true)
  read_devices (suc n) i [] = none
  read_devices (suc n) i (d ∷ devices) = elim (pa.device_name i) [
    | none ↦ some (d ∷ devices, false)
    | some name ↦ do
      (rest, ok) ← read_devices n (i + 1) devices
      some (record d { index = i; name = take audio_device_max_name_len name } ∷ rest, ok)
  ]

  -- The number of devices; `none` is the result -1.
  unfoldable pub audio_init : List AudioDevice → Option (List AudioDevice × Option ℕ)
  unfolding read_devices
  audio_init devices = if not pa.initialize_ok then some (devices, none) else elim pa.device_count [
    | none ↦ some (devices, none)
    | some num ↦ if ltb max_audio_devices num then some (devices, none) else (do
      (devices', ok) ← read_devices num 0 devices
      some (devices', if ok then some num else none))
  ]

  -- The information of the device is read through its pointer.
  unfoldable pub audio_open : AudioDevice → Option (AudioDevice × List AudioCall × Bool)
  audio_open d = do
    info ← pa.device_name d.index
    let opens = open_stream d.index d.sample_rate
    elim (pa.new_stream d.index d.sample_rate) [
      | none ↦ some (d, opens ∷ [], false)
      | some stream ↦
          some (record d { stream = stream }, opens ∷ start_stream stream ∷ [], pa.start_ok stream)
    ]

  unfoldable pub audio_close : AudioDevice → List AudioCall × Bool
  audio_close d = (stop_stream d.stream ∷ [], pa.stop_ok d.stream)

  -- The loop over the devices, which `memset` clears.
  unfoldable pub close_streams :
      ℕ → List AudioDevice → Option (List AudioDevice × List AudioCall × Bool)
  close_streams zero devices = some (devices, [], true)
  close_streams (suc n) [] = none
  close_streams (suc n) (d ∷ devices) =
      let rest = close_streams n devices in
      if d.stream == 0
      then (do (devices', calls, ok) ← rest; some (d ∷ devices', calls, ok))
      else if pa.close_ok d.stream
      then (do
        (devices', calls, ok) ← rest
        some (
          record { index = 0; name = []; sample_rate = 0; port = 0; stream = 0 } ∷ devices',
          close_stream d.stream ∷ calls,
          ok,
        ))
      else some (d ∷ devices, close_stream d.stream ∷ [], false)

  unfoldable pub audio_destroy :
      List AudioDevice → ℕ → Option (List AudioDevice × List AudioCall × Bool)
  unfolding close_streams
  audio_destroy devices num = do
    (devices', calls, ok) ← close_streams num devices
    some (
      devices',
      if ok then calls ++ (terminate ∷ []) else calls,
      if ok then pa.terminate_ok else false,
    )
