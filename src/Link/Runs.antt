-- ===== src/Link/Runs.antt =====
-- Runs of equal levels in a keyed frame are short enough for the bit detector.
use modemstuff.Base.{
  ℕ, zero, suc, ◌+◌, ◌≤◌, ◌<◌, IsBit, List, [], ◌∷◌, ◌++◌, none, some, arith, All, append_assoc,
  append-nil, Bool-cases, inl, inr, ◌==◌,
}
use modemstuff.Framer.{byte_bits, ax25_flag}
use modemstuff.Framer.Stuffing.{
  stuffed_bit, ones_after, stuffed, ones_behind, all_bits, flags, frame, all_bits-IsBit,
  frame-IsBit,
}
use modemstuff.Linecode.{nrzi_encode, nrzi_encoder_init}
use modemstuff.Linecode.Inverse.{encode_all}
use modemstuff.BitDetector.Recovery.{InTime}

-- Behind `ones` ones, never more than six in a row.
abbrev FewOnes : ℕ → List ℕ → Type 0
FewOnes ones [] = Unit
FewOnes ones (zero ∷ bits) = FewOnes 0 bits
FewOnes ones (suc b ∷ bits) = (ones < 6) × FewOnes (ones + 1) bits

flag-FewOnes :
    (ones : ℕ) (rest : List ℕ) → FewOnes 0 rest → FewOnes ones (byte_bits ax25_flag ++ rest)
unfolding byte_bits
flag-FewOnes ones rest h =
    (omega arith, (omega arith, (omega arith, (omega arith, (omega arith, (omega arith, h))))))

flags-FewOnes :
    (n ones : ℕ) (rest : List ℕ)
    → FewOnes 0 rest
    → FewOnes ones rest
    → FewOnes ones (flags n ++ rest)
flags-FewOnes zero ones rest h k = k
flags-FewOnes (suc n) ones rest h k =
    rw (append_assoc (byte_bits ax25_flag) (flags n) rest)
      (flag-FewOnes ones (flags n ++ rest) (flags-FewOnes n 0 rest h h))

stuffed_bit-FewOnes :
    (b ones : ℕ) (rest : List ℕ)
    → IsBit b
    → ones < 5
    → FewOnes (ones_after ones b) rest
    → FewOnes ones (stuffed_bit ones b ++ rest)
stuffed_bit-FewOnes zero ones rest l o h = h
stuffed_bit-FewOnes (suc zero) ones rest l o h = elim (Bool-cases (ones == 4)) [
  | inl e ↦ let k = rw e at h in rw e (omega arith, k)
  | inr e ↦ let k = rw e at h in rw e (omega arith, k)
]
stuffed_bit-FewOnes (suc (suc b)) ones rest l o h = absurd (omega arith)

stuffed-FewOnes :
    (bs : List ℕ) (ones : ℕ) (rest : List ℕ)
    → All IsBit bs
    → ones < 5
    → FewOnes (ones_behind ones bs) rest
    → FewOnes ones (stuffed ones bs ++ rest)
stuffed-FewOnes [] ones rest l o h = h
stuffed-FewOnes (b ∷ bs) ones rest l o h =
    rw (append_assoc (stuffed_bit ones b) (stuffed (ones_after ones b) bs) rest) (
      stuffed_bit-FewOnes b ones _ l.0 o
        (stuffed-FewOnes bs (ones_after ones b) rest l.1 (ground arith) h))

frame-FewOnes : (head tail : ℕ) (bytes : List ℕ) → FewOnes 0 (frame head bytes tail)
frame-FewOnes head tail bytes =
    let bits = all_bits bytes in
    let behind : (ones : ℕ) → FewOnes ones (flags tail) =
      λ ones. rw (append-nil (flags tail)) at (flags-FewOnes tail ones [] tt tt) in
    let inner =
      stuffed-FewOnes bits 0 (flags tail) (all_bits-IsBit bytes) (omega arith) (behind _) in
    flags-FewOnes head 0 _ inner inner

-- Runs of the levels are one longer than runs of ones.
InTime-encode_all :
    (period : ℕ) (bits : List ℕ) (ones level : ℕ)
    → 15 ≤ period
    → All IsBit bits
    → IsBit level
    → FewOnes ones bits
    → InTime period (some level) (ones + 1) (encode_all (record { nrzi_bit = level }) bits)
unfolding encode_all nrzi_encode
InTime-encode_all period [] ones level p l i h = tt
InTime-encode_all period (zero ∷ bits) ones zero p l i h =
    (omega arith, InTime-encode_all period bits 0 1 p l.1 (omega arith) h)
InTime-encode_all period (zero ∷ bits) ones (suc zero) p l i h =
    (omega arith, InTime-encode_all period bits 0 0 p l.1 (omega arith) h)
InTime-encode_all period (suc zero ∷ bits) ones zero p l i h =
    (omega arith, InTime-encode_all period bits (ones + 1) 0 p l.1 (omega arith) h.1)
InTime-encode_all period (suc zero ∷ bits) ones (suc zero) p l i h =
    (omega arith, InTime-encode_all period bits (ones + 1) 1 p l.1 (omega arith) h.1)
InTime-encode_all period (suc (suc b) ∷ bits) ones zero p l i h = absurd (omega arith)
InTime-encode_all period (suc (suc b) ∷ bits) ones (suc zero) p l i h = absurd (omega arith)
InTime-encode_all period (b ∷ bits) ones (suc (suc level)) p l i h = absurd (omega arith)

InTime-first :
    (period : ℕ) (bits : List ℕ)
    → 15 ≤ period
    → All IsBit bits
    → FewOnes 0 bits
    → InTime period none 0 (encode_all nrzi_encoder_init (0 ∷ bits))
unfolding encode_all nrzi_encode nrzi_encoder_init
InTime-first period bits p l h =
    (omega arith, InTime-encode_all period bits 0 1 p l (omega arith) h)

-- The levels of a frame with at least one flag in front.
pub InTime-frame :
    (period head tail : ℕ) (bytes : List ℕ)
    → 15 ≤ period
    → InTime period none 0 (encode_all nrzi_encoder_init (frame (suc head) bytes tail))
unfolding byte_bits
InTime-frame period head tail bytes p =
    let rest = flags head ++ (stuffed 0 (all_bits bytes) ++ flags tail) in
    let l = frame-IsBit (suc head) tail bytes in
    let h = frame-FewOnes (suc head) tail bytes in
    InTime-first period (1 ∷ 1 ∷ 1 ∷ 1 ∷ 1 ∷ 1 ∷ 0 ∷ rest) p l.1 h
