-- ===== src/Deframer/Safety.antt =====
-- The deframer on whatever bits: it stays inside its arrays.
use modemstuff.Base.{
  ℕ, ◌+◌, ◌⊎◌, All, ◌*◌, ◌-◌, ◌%◌, ◌^◌, ◌≤◌, ◌≡◌, refl, List, [], ◌∷◌, some, arith, length,
  length-set, get_elem?_total, read_n-take, take, ◌==◌, leb, Bool-cases, inl, inr, bit_or,
}
use modemstuff.Crc.{fcs}
use modemstuff.Packet.{Packet}
use modemstuff.Packet.Shape.{IsShaped, IsTerminated}
use modemstuff.Packet.Safety.{packet_unpack_total}
use modemstuff.Framer.{ax25_flag}
use modemstuff.Deframer.{
  Deframer, deframer_init, max_packet_len, check_fcs, look_for_frame, unstuff, store_byte, process,
  reset,
}
use modemstuff.Deframer.Bits.{run, deliver}

-- The array has the size of the struct, and at most 255 bytes of it are used.
pub record IsValid (d : Deframer) : Type 0 where
  pub array : length d.buffer ≡ max_packet_len
  pub bounded : d.buffer_pos ≤ 255

-- A packet from an input of at most 255 bytes.
pub record IsReceived (p : Packet) : Type 0 where
  pub terminated : IsTerminated p
  pub bounded : 18 + 7 * p.repeater_count + p.info_len ≤ 255

-- What is handed over with the result `ret`.
abbrev HandsOver : ℕ → Packet → Type 0
HandsOver ret p = (ret ≡ 0) ⊎ IsReceived p

pub deframer_init-IsValid :
    (d : Deframer) → length d.buffer ≡ max_packet_len → IsValid (deframer_init d)
unfolding deframer_init
deframer_init-IsValid d h = record { array = h; bounded = omega arith }

check_fcs_total :
    (buffer : List ℕ) (pos : ℕ) (p : Packet)
    → length buffer ≡ max_packet_len
    → pos ≤ 255
    → IsShaped p
    → (p' : Packet) × ((ret : ℕ) × (check_fcs buffer pos p ≡ some (p', ret))
        × IsShaped p'
        × HandsOver ret p')
unfolding check_fcs
check_fcs_total buffer pos p h l o =
    let (low, e) = get_elem?_total buffer (pos - 2) (omega arith) in
    let (high, f) = get_elem?_total buffer (pos - 1) (omega arith) in
    let body = take (pos - 2) buffer in
    let whole = read_n-take (pos - 2) buffer (omega arith) in
    let (back, g, shaped, ended, short) =
      packet_unpack_total p buffer pos o (omega arith) (omega arith) in
    elim (Bool-cases (fcs body == bit_or low (high * 2 ^ 8))) [
      | inl right ↦ (
        back,
        (
          1,
          rw (e, f, whole, right, g),
          shaped,
          inr (record { terminated = ended; bounded = omega arith }),
        ),
      )
      | inr wrong ↦ (p, (0, rw (e, f, whole, wrong), o, inl refl))
    ]

look_for_frame_total :
    (buffer : List ℕ) (pos : ℕ) (p : Packet)
    → length buffer ≡ max_packet_len
    → pos ≤ 255
    → IsShaped p
    → (p' : Packet) × ((ret : ℕ) × (look_for_frame buffer pos p ≡ some (p', ret))
        × IsShaped p'
        × HandsOver ret p')
unfolding look_for_frame
look_for_frame_total buffer pos p h l o = elim (Bool-cases (leb 18 pos)) [
  | inl long ↦ rw long (check_fcs_total buffer pos p h l o)
  | inr short ↦ (p, (0, rw short, o, inl refl))
]

unstuff-IsValid : (d : Deframer) (bit : ℕ) → IsValid d → IsValid (unstuff d bit)
unfolding unstuff
unstuff-IsValid d bit v = ground arith

store_byte-IsValid : (d : Deframer) → IsValid d → IsValid (store_byte d)
unfolding store_byte
store_byte-IsValid d v = ground (
  arith,
  length-set d.buffer d.buffer_pos d.unstuffed_bits,
  length-set d.buffer 0 d.unstuffed_bits,
)

process_total :
    (d : Deframer) (p : Packet) (bit : ℕ)
    → IsValid d
    → IsShaped p
    → (d' : Deframer) × ((p' : Packet) × ((ret : ℕ) × (process d p bit ≡ some (d', p', ret))
          × IsValid d'
          × IsShaped p'
          × HandsOver ret p'))
unfolding process
process_total d p bit v o =
    let raw = bit_or (d.raw_bits * 2) bit % 2 ^ 8 in
    let (p', (ret, e, shaped, over)) =
      look_for_frame_total d.buffer d.buffer_pos p v.array v.bounded o in
    elim (Bool-cases (raw == ax25_flag)) [
      | inl flag ↦ (
        reset (record d { raw_bits = raw }),
        (p', (ret, rw (flag, e), record { array = v.array; bounded = omega arith }, shaped, over)),
      )
      | inr plain ↦ (
        store_byte (unstuff (record d { raw_bits = raw }) bit),
        (
          p,
          (
            0,
            rw plain,
            store_byte-IsValid _
                (unstuff-IsValid _ bit (record { array = v.array; bounded = v.bounded })),
            o,
            inl refl,
          ),
        ),
      )
    ]

deliver-IsReceived :
    (ret : ℕ) (p : Packet) (ps : List Packet)
    → HandsOver ret p
    → All IsReceived ps
    → All IsReceived (deliver ret p ps)
deliver-IsReceived ret p ps h r = elim (Bool-cases (ret == 0)) [
  | inl z ↦ rw z r
  | inr n ↦ rw n (elim h [ inl z ↦ absurd (let k = rw z at n in cc) | inr whole ↦ (whole, r) ])
]

-- Whatever bits arrive, a deframer with an array of the right size gets through them without a read
-- or write outside an array, its own, the one of the packet or the ones of callsigns, and at most
-- 255 bytes of its buffer are ever used. The packets that it hands over have addresses with a
-- terminator and counts within their arrays, and take at most 255 bytes.
pub run_total :
    (bits : List ℕ) (d : Deframer) (p : Packet)
    → IsValid d
    → IsShaped p
    → (d' : Deframer) × ((p' : Packet) × ((packets : List Packet) × (run d p bits
            ≡ some (d', p', packets))
          × IsValid d'
          × IsShaped p'
          × All IsReceived packets))
unfolding run
run_total [] d p v o = (d, (p, ([], refl, v, o, tt)))
run_total (bit ∷ bits) d p v o =
    let (d', (p', (ret, e, v', o', over))) = process_total d p bit v o in
    let (d'', (p'', (packets, f, v'', o'', received))) = run_total bits d' p' v' o' in
    (
      d'',
      (
        p'',
        (
          deliver ret p' packets,
          rw (e, f),
          v'',
          o'',
          deliver-IsReceived ret p' packets over received,
        ),
      ),
    )
