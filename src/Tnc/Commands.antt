-- ===== src/Tnc/Commands.antt =====
-- Whatever bytes the hosts send: `kiss_data_callback` and `incoming_kiss_message_callback` of
-- apps/ax25tnc/ax25tnc.c.
use modemstuff.Base.{
  ℕ, ◌+◌, ◌*◌, ◌≤◌, ◌≡◌, refl, List, [], ◌∷◌, ◌++◌, Option, none, some, arith, length,
  length-append, length-drop, drop, get_elem?_total, concat, All, ◌==◌, Bool-cases, inl, inr, ◌>>=◌,
}
use modemstuff.Kiss.{Decoder, Message, process, decoder_buffer_size}
use modemstuff.Kiss.Command.{kiss_data_frame, kiss_tx_delay, kiss_tx_tail}
use modemstuff.Kiss.Safety
use modemstuff.Kiss.Safety.{IsBounded, Safe, process-Safe}
use modemstuff.Kiss.Stream.{run, emit}
use modemstuff.Packet.{Packet, packet_pack}
use modemstuff.Packet.Shape.{IsShaped, IsTerminated}
use modemstuff.Packet.Safety.{packet_unpack_total}
use modemstuff.Packet.Tnc2.{packet_pack_tnc2-length}
use modemstuff.Packet.Packing.{packet_pack-body_of}
use modemstuff.Framer.{Framer}
use modemstuff.Framer.Content.{capacity}
use modemstuff.Framer.Capacity.{framer_process_total, length-drain}
use modemstuff.Framer.Overflow.{framer_process_full}
use modemstuff.Framer.Reading.{drain}
use modemstuff.Linecode.{NrziEncoder, nrzi_encoder_init, nrzi_encode}
use modemstuff.Linecode.Inverse.{encode_all}
use modemstuff.Link.{Modulator, modulator_process, modulator_framer}
use modemstuff.Dsp.{Arithmetic, Floats}
use modemstuff.Dsp.Fsk.{Generator, samples_count}
use modemstuff.Dsp.Keying.{max_samples, key_all, IsKeyed, key_all-sweep}
use modemstuff.Tnc.{incoming_kiss_message}

-- The message with its whole array: behind what was written stands what its memory held.
abbrev pub in_memory : List ℕ → Message → Message
in_memory memory message = record message {
  payload = message.payload ++ drop (length message.payload) memory;
}

-- The messages of a stream of bytes, one after another, and the levels that each keys.
unfoldable pub incoming_all :
    Modulator → Framer → Packet → List ℕ → List Message → Option (Modulator × List (List ℕ))
incoming_all mod' framer storage memory [] = some (mod', [])
incoming_all mod' framer storage memory (message ∷ messages) = do
  (mod'', levels) ← incoming_kiss_message mod' framer storage (in_memory memory message)
  (last, rest) ← incoming_all mod'' framer storage memory messages
  some (last, levels ∷ rest)

length-encode_all : (e : NrziEncoder) (bits : List ℕ) → length (encode_all e bits) ≡ length bits
unfolding encode_all
length-encode_all e [] = refl
length-encode_all e (bit ∷ bits) = omega (arith, length-encode_all (nrzi_encode e bit).0 bits)

modulator_process_total :
    (mod' : Modulator) (framer : Framer) (packet : Packet) (bytes : List ℕ)
    → packet_pack packet ≡ some bytes
    → (levels : List ℕ) × (modulator_process mod' framer packet ≡ some levels)
      × (length levels ≤ capacity)
unfolding modulator_process
modulator_process_total mod' framer packet bytes e =
    let (fr, total, f, same, few) =
      framer_process_total (modulator_framer mod' framer) packet bytes e in
    (
      encode_all nrzi_encoder_init (drain (total + 1) fr),
      rw f refl,
      omega (
        arith,
        length-encode_all nrzi_encoder_init (drain (total + 1) fr),
        length-drain (total + 1) fr,
      ),
    )

incoming_kiss_message_total :
    (mod' : Modulator) (framer : Framer) (storage : Packet) (m : Message)
    → IsShaped storage
    → 72 ≤ length m.payload
    → m.data_length ≤ length m.payload
    → (mod'' : Modulator) × (levels : List ℕ) × (incoming_kiss_message mod' framer storage m
        ≡ some (mod'', levels))
      × (length levels ≤ capacity)
unfolding incoming_kiss_message
incoming_kiss_message_total mod' framer storage m o long h =
    let (packet, unpacked, shaped, ended, few) =
      packet_unpack_total storage m.payload m.data_length o long h in
    let (line, printed, short) = packet_pack_tnc2-length packet ended in
    let (levels, keyed, bounded) =
      modulator_process_total mod' framer packet _ (packet_pack-body_of packet ended).0 in
    let (value, read) = get_elem?_total m.payload 0 (omega arith) in
    elim (Bool-cases (m.command == kiss_data_frame)) [
      | inl frame ↦ (mod', levels, rw (frame, unpacked, printed, keyed) refl, bounded)
      | inr n ↦ elim (Bool-cases (m.command == kiss_tx_delay)) [
        | inl delay ↦
            (record mod' { tx_delay = value * 10 }, [], rw (n, delay, read) refl, omega arith)
        | inr k ↦ elim (Bool-cases (m.command == kiss_tx_tail)) [
          | inl tail ↦
              (record mod' { tx_tail = value * 10 }, [], rw (n, k, tail, read) refl, omega arith)
          | inr other ↦ (mod', [], rw (n, k, other) refl, omega arith)
        ]
      ]
    ]

-- Any messages that fit their arrays, in order.
incoming_all_total :
    (ms : List Message) (mod' : Modulator) (framer : Framer) (storage : Packet) (memory : List ℕ)
    → IsShaped storage
    → decoder_buffer_size ≤ length memory
    → All IsBounded ms
    → (last : Modulator) × (levels : List (List ℕ)) × (incoming_all mod' framer storage memory ms
        ≡ some (last, levels))
      × All (λ keyed. length keyed ≤ capacity) levels
unfolding incoming_all
incoming_all_total [] mod' framer storage memory o h b = (mod', [], refl, tt)
incoming_all_total (m ∷ ms) mod' framer storage memory o h b =
    let whole : decoder_buffer_size ≤ length (in_memory memory m).payload = omega (
      arith,
      length-append m.payload (drop (length m.payload) memory),
      length-drop (length m.payload) memory,
    ) in
    let (mod'', levels, e, few) =
      incoming_kiss_message_total mod' framer storage (in_memory memory m) o (omega arith) (
        omega (arith, b.0.payload_len, length-append m.payload (drop (length m.payload) memory))) in
    let (last, rest, f, all) = incoming_all_total ms mod'' framer storage memory o h b.1 in
    (last, levels ∷ rest, rw (e, f) refl, (few, all))

Safe-some :
    (o : Option (Decoder × Option Message))
    → Safe o
    → (d : Decoder) × (m : Option Message) × (o ≡ some (d, m)) × Safe (some (d, m))
Safe-some none s = elim s [ ]
Safe-some (some (d, m)) s = (d, m, refl, s)

emit-IsBounded :
    (d : Decoder) (m : Option Message) (ms : List Message)
    → Safe (some (d, m))
    → All IsBounded ms
    → All IsBounded (emit m ms)
emit-IsBounded d none ms s b = b
emit-IsBounded d (some m) ms s b = (s.1, b)

run-IsBounded :
    (bytes : List ℕ) (d : Decoder)
    → Safety.IsValid d
    → (d' : Decoder) × (ms : List Message) × (run d bytes ≡ some (d', ms))
      × Safety.IsValid d'
      × All IsBounded ms
unfolding run
run-IsBounded [] d v = (d, [], refl, v, tt)
run-IsBounded (byte ∷ bytes) d v =
    let (d', m, e, s) = Safe-some (process d byte) (process-Safe d byte v) in
    let (d'', ms, f, w, b) = run-IsBounded bytes d' s.0 in
    (d'', emit m ms, rw (e, f) refl, w, emit-IsBounded d' m ms s b)

-- What the messages of some bytes key, and its samples.
pub record IsHandled {F D : Type 0} ⦃S : Arithmetic F⦄ ⦃W : Arithmetic D⦄ (L : Floats F D)
    (gen : Generator F) (samples : List F) (mod' : Modulator) (framer : Framer) (storage : Packet)
    (memory : List ℕ) (d : Decoder) (bytes : List ℕ) : Type 0 where
  pub decoder : Decoder
  pub messages : List Message
  pub decoded : run d bytes ≡ some (decoder, messages)
  pub valid : Safety.IsValid decoder
  pub modulator : Modulator
  pub levels : List (List ℕ)
  pub handled : incoming_all mod' framer storage memory messages ≡ some (modulator, levels)
  pub bounded : All (λ keyed. length keyed ≤ capacity) levels
  pub generator : Generator F
  pub blocks : List (List F)
  pub keyed : key_all L gen samples (concat levels) ≡ some (generator, blocks)
  pub is_keyed : IsKeyed L gen (concat levels) blocks

pub run-incoming_all :
    {F D : Type 0} ⦃S : Arithmetic F⦄ ⦃W : Arithmetic D⦄ (L : Floats F D) (gen : Generator F)
    (samples : List F) (bytes : List ℕ) (d : Decoder) (mod' : Modulator) (framer : Framer)
    (storage : Packet) (memory : List ℕ)
    → length samples ≡ max_samples
    → samples_count gen ≤ max_samples
    → Safety.IsValid d
    → IsShaped storage
    → decoder_buffer_size ≤ length memory
    → IsHandled L gen samples mod' framer storage memory d bytes
run-incoming_all L gen samples bytes d mod' framer storage memory array fit v o h =
    let (d', ms, e, w, b) = run-IsBounded bytes d v in
    let (last, levels, f, few) = incoming_all_total ms mod' framer storage memory o h b in
    let (gen', blocks, g, is_keyed) = key_all-sweep L gen samples (concat levels) (omega arith) in
    record {
      decoder = d';
      messages = ms;
      decoded = e;
      valid = w;
      modulator = last;
      levels = levels;
      handled = f;
      bounded = few;
      generator = gen';
      blocks = blocks;
      keyed = g;
      is_keyed = is_keyed;
    }

-- With a delay that makes 1024 flags, a data frame keys the same levels as any other whose addresses
-- have a terminator and whose counts lie within the arrays: the packets are not sent.
pub modulator_process_flags :
    (mod' : Modulator) (framer : Framer) (p q : Packet)
    → IsTerminated p
    → IsTerminated q
    → 8192000 ≤ mod'.tx_delay * mod'.baud_rate
    → modulator_process mod' framer p ≡ modulator_process mod' framer q
unfolding modulator_process modulator_framer
modulator_process_flags mod' framer p q v w h =
    let flags : 1024 ≤ (modulator_framer mod' framer).head_flags = ground arith in
    rw
      (framer_process_full (modulator_framer mod' framer) p q _ _ (packet_pack-body_of p v).0
        (packet_pack-body_of q w).0 flags)
      refl
