-- ===== src/Deframer/Flags.antt =====
-- A flag through the deframer.
use modemstuff.Base.{
  ℕ, ◌+◌, ◌*◌, ◌/◌, ◌%◌, ◌^◌, ◌<◌, ◌≡◌, refl, ◌∙◌, bit_or, List, [], ◌∷◌, ◌++◌, some, arith, IsByte,
  ==-false, Bool-cases, ltb, inl, inr,
}
use modemstuff.Packet.{Packet}
use modemstuff.Framer.{byte_bits, ax25_flag}
use modemstuff.Deframer.{Deframer, look_for_frame, process, unstuff, store_byte}
use modemstuff.Deframer.Bits.{
  run, run_silent, deliver, state, EndsInOnes, raw_shift, process_one, process_zero, no_flag,
  ones_small,
}

-- After a flag.
abbrev pub cleared : List ℕ → Deframer
cleared buf = state buf 0 0 0 0 0

flag_bits : byte_bits ax25_flag ≡ 0 ∷ 1 ∷ 1 ∷ 1 ∷ 1 ∷ 1 ∷ 1 ∷ 0 ∷ []
unfolding byte_bits
flag_bits = refl

-- The last bit of a flag.
process_flag :
    (buf : List ℕ) (pos raw u m ones ret : ℕ) (p p' : Packet)
    → raw % 128 ≡ 63
    → look_for_frame buf pos p ≡ some (p', ret)
    → process (state buf pos raw u m ones) p 0 ≡ some (cleared buf, p', ret)
unfolding process
process_flag buf pos raw u m ones ret p p' h e =
    let shift : bit_or (raw * 2) 0 % 2 ^ 8 ≡ 126 = omega (arith, raw_shift raw 0 (omega arith)) in
    rw (shift, e)

run_ready :
    (d d' : Deframer) (p p' : Packet) (bit ret : ℕ) (bits : List ℕ) {last : Deframer} {q : Packet}
    {ps : List Packet}
    → process d p bit ≡ some (d', p', ret)
    → run d' p' bits ≡ some (last, q, ps)
    → run d p (bit ∷ bits) ≡ some (last, q, deliver ret p' ps)
unfolding run
run_ready d d' p p' bit ret bits e f = rw (e, f)

one_more :
    (buf : List ℕ) (pos r v m ones : ℕ) (p : Packet) (more : List ℕ)
    → IsByte v
    → m < 7
    → ones < 255
    → run (state buf pos r v m ones) p (1 ∷ more)
      ≡ run (state buf pos ((r * 2 + 1) % 256) (v / 2 + 128) (m + 1) (ones + 1)) p more
one_more buf pos r v m ones p more b l o =
    let not_full = ==-false m 7 (omega arith) in
    rw not_full at (
      run_silent (state buf pos r v m ones) _ p 1 more
        (process_one buf pos r v m p b (omega arith) (inr l) ones o))

-- The six ones of a flag.
flag_ones :
    (buf : List ℕ) (pos raw u m : ℕ) (p : Packet) (rest : List ℕ)
    → IsByte u
    → m < 2
    → raw % 2 ≡ 0
    → (raw' u' m' ones' : ℕ) × (raw' % 128 ≡ 63)
      × (run (state buf pos raw u m 0) p (1 ∷ 1 ∷ 1 ∷ 1 ∷ 1 ∷ 1 ∷ rest)
          ≡ run (state buf pos raw' u' m' ones') p rest)
flag_ones buf pos raw u m p rest h l e =
    let next = λ (r : ℕ). (r * 2 + 1) % 256 in
    let put = λ (v : ℕ). v / 2 + 128 in
    (
      next (next (next (next (next (next raw))))),
      _,
      _,
      _,
      omega arith,
      one_more buf pos raw u m 0 p _ h (omega arith) (omega arith)
          ∙ one_more buf pos _ (put u) (m + 1) _ p _ (omega arith) (omega arith) (omega arith)
          ∙ one_more buf pos _ (put (put u)) (m + 1 + 1) _ p _ (omega arith) (omega arith)
              (omega arith)
          ∙ one_more buf pos _ (put (put (put u))) (m + 1 + 1 + 1) _ p _ (omega arith) (omega arith)
              (omega arith)
          ∙ one_more buf pos _ (put (put (put (put u)))) (m + 1 + 1 + 1 + 1) _ p _ (omega arith)
              (omega arith) (omega arith)
          ∙ one_more buf pos _ (put (put (put (put (put u))))) (m + 1 + 1 + 1 + 1 + 1) _ p rest
              (omega arith) (omega arith) (omega arith),
    )

-- A flag behind whole bytes: the frame in the buffer is looked at, and the deframer is cleared.
pub flag_run :
    (buf : List ℕ) (pos raw u ones ret : ℕ) (p p' : Packet) (rest : List ℕ) {last : Deframer}
    {q : Packet} {ps : List Packet}
    → IsByte u
    → EndsInOnes ones raw
    → look_for_frame buf pos p ≡ some (p', ret)
    → run (cleared buf) p' rest ≡ some (last, q, ps)
    → run (state buf pos raw u 0 ones) p (byte_bits ax25_flag ++ rest)
      ≡ some (last, q, deliver ret p' ps)
flag_run buf pos raw u ones ret p p' rest h i look later =
    let (raw', u', m', ones', tail, ran) =
      flag_ones buf pos (raw * 2 % 256) (u / 2) 1 p (0 ∷ rest) (omega arith) (omega arith)
        (omega arith) in
    rw flag_bits (
      run_silent (state buf pos raw u 0 ones) _ p 0 _ (
        process_zero buf pos raw u 0 p h (omega arith) (inr (omega arith)) ones
          (ones_small ones raw i) (no_flag ones raw i))
      ∙ ran
      ∙ run_ready _ (cleared buf) p p' 0 ret rest
          (process_flag buf pos raw' u' m' ones' ret p p' tail look) later)

-- The first bit of a flag that reaches a deframer from its initialisation.
first_zero :
    (buf : List ℕ) (ones : ℕ) (p : Packet)
    → (m : ℕ) × (m < 2) × (process (state buf 0 0 0 0 ones) p 0 ≡ some (state buf 0 0 0 m 0, p, 0))
unfolding process unstuff store_byte
first_zero buf ones p = elim (Bool-cases (ltb ones 5)) [
  | inl few ↦ (1, omega arith, rw few)
  | inr many ↦ (0, omega arith, rw many)
]

-- The first flag clears it, whatever the count of ones was left at.
pub first_flag :
    (buf : List ℕ) (ones : ℕ) (p : Packet) (rest : List ℕ) {last : Deframer} {q : Packet}
    {ps : List Packet}
    → look_for_frame buf 0 p ≡ some (p, 0)
    → run (cleared buf) p rest ≡ some (last, q, ps)
    → run (state buf 0 0 0 0 ones) p (byte_bits ax25_flag ++ rest) ≡ some (last, q, ps)
first_flag buf ones p rest look later =
    let (m, l, first) = first_zero buf ones p in
    let (raw', u', m', ones', tail, ran) =
      flag_ones buf 0 0 0 m p (0 ∷ rest) (omega arith) l (omega arith) in
    rw flag_bits (
      run_silent _ _ p 0 _ first
      ∙ ran
      ∙ run_ready _ (cleared buf) p p 0 0 rest (process_flag buf 0 raw' u' m' ones' 0 p p tail look)
          later)
