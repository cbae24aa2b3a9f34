-- ===== src/Netaud/Devices.antt =====
-- What the loops of apps/netaud/audio.c and `parse_args` of apps/netaud/netaud.c make of the devices.
use modemstuff.Base.{
  ℕ, zero, suc, ◌+◌, ◌≤◌, ◌<◌, ◌≡◌, refl, ap, List, [], ◌∷◌, map, some, Bool, true, false, arith,
  length, take, get_elem?, set, ◌==◌, ==_iff, Bool-cases, inl, inr,
}
use modemstuff.Netaud.Audio.{
  AudioDevice, PortAudio, close_stream, audio_device_max_name_len, read_devices, close_streams,
}
use modemstuff.Netaud.Start.{ℤ, select_device}

-- A device of the array with the name of the device at an index.
abbrev pub described_at : (ℕ → List ℕ) → ℕ → AudioDevice → AudioDevice
described_at names i d = record d { index = i; name = take audio_device_max_name_len (names i) }

abbrev pub described : (ℕ → List ℕ) → ℕ → ℕ → List AudioDevice → List AudioDevice
described names zero i devices = devices
described names (suc n) i [] = []
described names (suc n) i (d ∷ devices) = described_at names i d ∷ described names n (i + 1) devices

pub read_devices-described :
    (pa : PortAudio) (names : ℕ → List ℕ) (n i : ℕ) (devices : List AudioDevice)
    → n ≤ length devices
    → ((k : ℕ) → i ≤ k → k < i + n → pa.device_name k ≡ some (names k))
    → read_devices pa n i devices ≡ some (described names n i devices, true)
unfolding read_devices
read_devices-described pa names zero i devices h e = refl
read_devices-described pa names (suc n) i [] h e = absurd (omega arith)
read_devices-described pa names (suc n) i (d ∷ devices) h e =
    rw
      (
        read_devices,
        e i (omega arith) (omega arith),
        read_devices-described pa names n (i + 1) devices (omega arith)
            (λ k low high. e k (omega arith) (omega arith)),
      )
      refl

pub get_elem?-described :
    (names : ℕ → List ℕ) (n i k : ℕ) (devices : List AudioDevice) (d : AudioDevice)
    → k < n
    → get_elem? devices k ≡ some d
    → get_elem? (described names n i devices) k ≡ some (described_at names (i + k) d)
get_elem?-described names zero i k devices d h e = absurd (omega arith)
get_elem?-described names (suc n) i k [] d h e = cc
get_elem?-described names (suc n) i zero (x ∷ devices) d h e =
    let same : x ≡ d = cc in let here : i + 0 ≡ i = omega arith in rw (same, here) refl
get_elem?-described names (suc n) i (suc k) (x ∷ devices) d h e =
    let next : i + suc k ≡ i + 1 + k = omega arith in
    rw next (get_elem?-described names n (i + 1) k devices d (omega arith) e)

-- The first device with a name that is looked for is selected, with its rate and port.
pub select_device-first :
    (atoi : List ℕ → ℤ) (strcasestr : List ℕ → List ℕ → Bool) (n j rate tcp_port i : ℕ)
    (name : List ℕ) (devices : List AudioDevice) (d : AudioDevice)
    → n ≤ length devices
    → i < n
    → get_elem? devices i ≡ some d
    → strcasestr d.name name ≡ true
    → ((k : ℕ) (e : AudioDevice)
        → k < i
        → get_elem? devices k ≡ some e
        → strcasestr e.name name ≡ false)
    → select_device atoi strcasestr n j rate tcp_port name devices
      ≡ some (set devices i (record d { sample_rate = rate; port = tcp_port }), some (j + i))
unfolding select_device
select_device-first atoi strcasestr zero j rate tcp_port i name devices d l h e f g =
    absurd (omega arith)
select_device-first atoi strcasestr (suc n) j rate tcp_port i name [] d l h e f g = cc
select_device-first atoi strcasestr (suc n) j rate tcp_port zero name (x ∷ devices) d l h e f g =
    let same : x ≡ d = cc in let here : j + 0 ≡ j = omega arith in rw (same, f, here) refl
select_device-first atoi strcasestr (suc n) j rate tcp_port (suc i) name (x ∷ devices) d l h e f g =
    let later : j + suc i ≡ j + 1 + i = omega arith in
    rw
      (
        g 0 x (omega arith) refl,
        later,
        select_device-first atoi strcasestr n (j + 1) rate tcp_port i name devices d (omega arith)
            (omega arith) e f (λ k y lower at. g (suc k) y (omega arith) at),
      )
      refl

-- The streams that are not NULL.
abbrev pub not_null : List ℕ → List ℕ
not_null [] = []
not_null (zero ∷ streams) = not_null streams
not_null (suc s ∷ streams) = suc s ∷ not_null streams

not_null_front :
    (s : ℕ) (streams : List ℕ) → (s == 0) ≡ false → not_null (s ∷ streams) ≡ s ∷ not_null streams
not_null_front zero streams h = cc
not_null_front (suc s) streams h = refl

abbrev pub streams_of : List AudioDevice → List ℕ
streams_of = map (λ d. d.stream)

-- Every stream of the first devices that is not NULL is closed, once and in order.
pub close_streams-not_null :
    (pa : PortAudio) (n : ℕ) (devices : List AudioDevice)
    → n ≤ length devices
    → ((stream : ℕ) → pa.close_ok stream ≡ true)
    → (devices' : List AudioDevice) × (close_streams pa n devices
        ≡ some (devices', map close_stream (not_null (take n (streams_of devices))), true))
unfolding close_streams
close_streams-not_null pa zero devices h c = (devices, refl)
close_streams-not_null pa (suc n) [] h c = absurd (omega arith)
close_streams-not_null pa (suc n) (d ∷ devices) h c =
    let (devices', e) = close_streams-not_null pa n devices (omega arith) c in
    elim (Bool-cases (d.stream == 0)) [
      | inl null ↦
          let zeroed : d.stream ≡ 0 = (==_iff d.stream 0).0 null in
          (d ∷ devices', rw (null, e, zeroed) refl)
      | inr live ↦ (
        record { index = 0; name = []; sample_rate = 0; port = 0; stream = 0 } ∷ devices',
        rw (live, c d.stream, e)
            (let more = not_null_front d.stream (take n (streams_of devices)) live in rw more refl),
      )
    ]

pub streams_of-described :
    (names : ℕ → List ℕ) (n i : ℕ) (devices : List AudioDevice)
    → streams_of (described names n i devices) ≡ streams_of devices
streams_of-described names zero i devices = refl
streams_of-described names (suc n) i [] = refl
streams_of-described names (suc n) i (d ∷ devices) =
    ap (λ t. d.stream ∷ t) (streams_of-described names n (i + 1) devices)

pub streams_of-set :
    (devices : List AudioDevice) (i : ℕ) (d : AudioDevice)
    → streams_of (set devices i d) ≡ set (streams_of devices) i d.stream
streams_of-set [] i d = refl
streams_of-set (x ∷ devices) zero d = refl
streams_of-set (x ∷ devices) (suc i) d = ap (λ t. x.stream ∷ t) (streams_of-set devices i d)

pub set-set : (xs : List ℕ) (i u v : ℕ) → set (set xs i u) i v ≡ set xs i v
set-set [] i u v = refl
set-set (x ∷ xs) zero u v = refl
set-set (x ∷ xs) (suc i) u v = ap (λ t. x ∷ t) (set-set xs i u v)
