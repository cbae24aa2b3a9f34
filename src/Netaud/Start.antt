-- ===== src/Netaud/Start.antt =====
-- The start and the end of apps/netaud/netaud.c. `atoi` of the C library and `util_strcasestr`, which
-- utils.h takes from another project, are arguments. The life of the server between its start and the
-- end of `ns_server_wait` is one event here.
use modemstuff.Base.{
  ℕ, zero, suc, ◌+◌, ◌%◌, ◌^◌, List, [], ◌∷◌, ◌++◌, map, Option, none, some, Bool, true, false, not,
  get_elem?, set, ◌==◌, if◌then◌else◌, ◌>>=◌,
}
use modemstuff.NetServer.{Server, Setup, server_init, set_callbacks, server_start}
use modemstuff.Netaud.Audio.{
  AudioDevice, PortAudio, AudioCall, audio_init, audio_open, audio_close, audio_destroy,
}

-- An `int`.
pub data ℤ : Type 0 where
  pos negsuc : ℕ → ℤ

abbrev pub args_expected : ℕ
args_expected = 1 + 3

pub data MainCall : Type 0 where
  init_buffer : MainCall
  audio : AudioCall → MainCall
  serve : Server → MainCall

-- The calls of `main`, `init_buffer` being that of `ds_linked_buffer_init`, and whether it ends with EXIT_SUCCESS.
pub record Ended : Type 0 where
  pub calls : List MainCall
  pub success : Bool

-- A number that must be positive_number; what follows gets it.
abbrev pub positive_number : ℤ → Option ℕ
positive_number (pos n) = if n == 0 then none else some n
positive_number (negsuc n) = none

module _ (atoi : List ℕ → ℤ) (strcasestr : List ℕ → List ℕ → Bool) where
  -- The loop over so many devices, from `audio_devices[j]` on; it gives the array and the index of the
  -- device, or `none` for NULL.
  unfoldable pub select_device :
      ℕ → ℕ → ℕ → ℕ → List ℕ → List AudioDevice → Option (List AudioDevice × Option ℕ)
  select_device zero j sample_rate tcp_port name devices = some (devices, none)
  select_device (suc n) j sample_rate tcp_port name [] = none
  select_device (suc n) j sample_rate tcp_port name (d ∷ devices) =
      let rest = select_device n (j + 1) sample_rate tcp_port name devices in
      if strcasestr d.name name
      then some (record d { sample_rate = sample_rate; port = tcp_port } ∷ devices, some j)
      else (do (devices', selected) ← rest; some (d ∷ devices', selected))

  -- The device with the arguments in it, by its index.
  unfoldable pub parse_args :
      ℕ → List (List ℕ) → List AudioDevice → ℕ → Option (List AudioDevice × Option ℕ)
  unfolding select_device
  parse_args argc argv devices num =
      if not (argc == args_expected) then some (devices, none) else (do
        rate ← get_elem? argv 2
        tcp ← get_elem? argv 3
        name ← get_elem? argv 1
        elim (positive_number (atoi rate)) [
          | none ↦ some (devices, none)
          | some sample_rate ↦ elim (positive_number (atoi tcp)) [
            | none ↦ some (devices, none)
            | some tcp_port ↦ select_device num 0 sample_rate tcp_port name devices
          ]
        ])

  abbrev pub exit : List MainCall → Bool → Option Ended
  exit calls success = some (record { calls = calls; success = success })

  module _ (pa : PortAudio) (setup : ℕ → Setup) where
    -- From the end of the server on.
    unfoldable pub finish : List MainCall → AudioDevice → List AudioDevice → ℕ → Option Ended
    finish calls device devices num =
        let (stops, stopped) = audio_close pa device in
        let calls' = calls ++ map audio stops in
        if not stopped then exit calls' false else (do
          (_, closes, destroyed) ← audio_destroy pa devices num
          exit (calls' ++ map audio closes) destroyed)

    -- From the selection of the device on.
    unfoldable pub run_device : AudioDevice → ℕ → List AudioDevice → ℕ → Option Ended
    unfolding finish
    run_device device i devices num = elim (server_init (setup device.port)).0 [
      | none ↦ exit (init_buffer ∷ []) false
      | some server ↦ do
        (device', opens, opened) ← audio_open pa device
        if not opened
            then exit (init_buffer ∷ map audio opens) false
            else (let started = server_start (set_callbacks server true true true) in
                finish (init_buffer ∷ map audio opens ++ (serve started ∷ [])) device'
                  (set devices i device') num)
    ]

    -- `argc` is a `char`, which keeps the low byte of what the system passes, and the devices are what the memory of the array held.
    unfoldable pub main : ℕ → List (List ℕ) → List AudioDevice → Option Ended
    unfolding run_device
    main argc argv memory = do
      (devices, found) ← audio_init pa memory
      elim found [
        | none ↦ exit [] false
        | some num ↦ if num == 0 then exit [] false else (do
          (devices', selected) ← parse_args (argc % 2 ^ 8) argv devices num
          elim selected [
            | none ↦ exit [] false
            | some i ↦ do device ← get_elem? devices' i; run_device device i devices' num
          ])
      ]
