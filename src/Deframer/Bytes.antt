-- ===== src/Deframer/Bytes.antt =====
-- Stuffed bytes through the deframer.
use modemstuff.Base.{
  IsBit, ℕ, ◌+◌, ◌*◌, ◌/◌, ◌≤◌, ◌<◌, ◌≡◌, refl, ap, ◌∙◌, List, [], ◌∷◌, ◌++◌, append_assoc,
  append-nil, arith, set, fill, length, All, IsByte, inl, inr,
}
use modemstuff.Packet.{Packet}
use modemstuff.Framer.{byte_bits, bit_of}
use modemstuff.Framer.Stuffing.{
  stuffed_bit, ones_after, stuffed, ones_behind, all_bits, stuffed-append, ones_behind-append,
}
use modemstuff.Deframer.Bits.{run, state, pushed, EndsInOnes, stuffed_step}

-- The byte being read after some bits have entered it.
abbrev pushes : ℕ → List ℕ → ℕ
pushes u [] = u
pushes u (b ∷ bs) = pushes (u / 2 + b * 128) bs

pushed_more :
    (buf : List ℕ) (pos raw u m ones : ℕ)
    → m < 7
    → pushed buf pos raw u m ones ≡ state buf pos raw u (m + 1) ones
pushed_more buf pos raw u m ones h = ground arith

-- Fewer bits than complete a byte.
run-stuffed :
    (bs : List ℕ) (buf : List ℕ) (pos raw u m end ones : ℕ) (p : Packet)
    → IsByte u
    → m + length bs ≡ end
    → end < 8
    → EndsInOnes ones raw
    → All IsBit bs
    → (raw' : ℕ) × EndsInOnes (ones_behind ones bs) raw'
      × ((rest : List ℕ)
          → run (state buf pos raw u m ones) p (stuffed ones bs ++ rest)
            ≡ run (state buf pos raw' (pushes u bs) end (ones_behind ones bs)) p rest)
run-stuffed [] buf pos raw u m end ones p h e c i l =
    let same : m ≡ end = omega arith in (raw, i, λ rest. rw same)
run-stuffed (b ∷ bs) buf pos raw u m end ones p h e c i l =
    let (raw₁, i₁, step) =
      stuffed_step buf pos raw u m ones b p h (omega arith) (inr (omega arith)) i l.0 in
    let (raw₂, i₂, later) =
      run-stuffed bs buf pos raw₁ (u / 2 + b * 128) (m + 1) end (ones_after ones b) p
        (omega (arith, l.0)) (omega arith) c i₁ l.1 in
    (
      raw₂,
      i₂,
      λ rest. rw (append_assoc (stuffed_bit ones b) (stuffed (ones_after ones b) bs) rest) (
          step (stuffed (ones_after ones b) bs ++ rest)
          ∙ rw (pushed_more buf pos raw₁ (u / 2 + b * 128) m (ones_after ones b) (omega arith))
              (later rest)),
    )

abbrev first_seven : ℕ → List ℕ
first_seven x =
    bit_of x 0 ∷ bit_of x 1 ∷ bit_of x 2 ∷ bit_of x 3 ∷ bit_of x 4 ∷ bit_of x 5 ∷ bit_of x 6 ∷ []

byte_bits_parts : (x : ℕ) → byte_bits x ≡ first_seven x ++ (bit_of x 7 ∷ [])
unfolding byte_bits
byte_bits_parts x = refl

pushes_byte : (u x : ℕ) → IsByte u → IsByte x → pushes u (first_seven x) / 2 + bit_of x 7 * 128 ≡ x
pushes_byte u x h k = omega arith

pushes-IsByte : (bs : List ℕ) (u : ℕ) → IsByte u → All IsBit bs → IsByte (pushes u bs)
pushes-IsByte [] u h l = h
pushes-IsByte (b ∷ bs) u h l = pushes-IsByte bs (u / 2 + b * 128) (omega (arith, l.0)) l.1

-- Eight data bits with their stuffing store their byte.
byte_run :
    (x : ℕ) (buf : List ℕ) (pos raw u ones : ℕ) (p : Packet)
    → IsByte u
    → IsByte x
    → pos < 255
    → EndsInOnes ones raw
    → (raw' : ℕ) × EndsInOnes (ones_behind ones (byte_bits x)) raw'
      × ((rest : List ℕ)
          → run (state buf pos raw u 0 ones) p (stuffed ones (byte_bits x) ++ rest)
            ≡ run
                (state (set buf pos x) (pos + 1) raw' x 0 (ones_behind ones (byte_bits x)))
                p
                rest)
byte_run x buf pos raw u ones p h k room i =
    let seven = first_seven x in
    let b = bit_of x 7 in
    let u₁ = pushes u seven in
    let (raw₁, i₁, run₁) =
      run-stuffed seven buf pos raw u 0 7 ones p h (omega arith) (omega arith) i (omega arith) in
    let k₁ = ones_behind ones seven in
    let (raw₂, i₂, run₂) =
      stuffed_step buf pos raw₁ u₁ 7 k₁ b p (pushes-IsByte seven u h (omega arith)) (omega arith)
        (inl room) i₁ (omega arith) in
    let parts : stuffed ones (byte_bits x) ≡ stuffed ones seven ++ (stuffed_bit k₁ b ++ []) =
      ap (stuffed ones) (byte_bits_parts x) ∙ stuffed-append seven (b ∷ []) ones in
    let behind : ones_behind ones (byte_bits x) ≡ ones_after k₁ b =
      ap (ones_behind ones) (byte_bits_parts x) ∙ ones_behind-append seven (b ∷ []) ones in
    (
      raw₂,
      rw behind i₂,
      λ rest.
          rw
            (
              parts,
              behind,
              append-nil (stuffed_bit k₁ b),
              append_assoc (stuffed ones seven) (stuffed_bit k₁ b) rest,
            )
            (run₁ (stuffed_bit k₁ b ++ rest) ∙ rw (pushes_byte u x h k) at (run₂ rest)),
    )

pub bytes_run :
    (xs : List ℕ) (buf : List ℕ) (pos end raw u ones : ℕ) (p : Packet)
    → All IsByte xs
    → IsByte u
    → pos + length xs ≡ end
    → end ≤ 255
    → EndsInOnes ones raw
    → (raw' u' : ℕ) × IsByte u'
      × EndsInOnes (ones_behind ones (all_bits xs)) raw'
      × ((rest : List ℕ)
          → run (state buf pos raw u 0 ones) p (stuffed ones (all_bits xs) ++ rest)
            ≡ run (state (fill buf pos xs) end raw' u' 0 (ones_behind ones (all_bits xs))) p rest)
bytes_run [] buf pos end raw u ones p a h e c i =
    let same : pos ≡ end = omega arith in (raw, u, h, i, λ rest. rw same)
bytes_run (x ∷ xs) buf pos end raw u ones p a h e c i =
    let bs = byte_bits x in
    let k₁ = ones_behind ones bs in
    let (raw₁, i₁, run₁) = byte_run x buf pos raw u ones p h a.0 (omega arith) i in
    let (raw₂, u₂, h₂, i₂, run₂) =
      bytes_run xs (set buf pos x) (pos + 1) end raw₁ x k₁ p a.1 a.0 (omega arith) c i₁ in
    let behind = ones_behind-append bs (all_bits xs) ones in
    (
      raw₂,
      u₂,
      h₂,
      rw behind i₂,
      λ rest.
          rw
            (
              stuffed-append bs (all_bits xs) ones,
              behind,
              append_assoc (stuffed ones bs) (stuffed k₁ (all_bits xs)) rest,
            )
            (run₁ (stuffed k₁ (all_bits xs) ++ rest) ∙ run₂ rest),
    )
