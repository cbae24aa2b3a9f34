-- ===== src/Framer/Room.antt =====
-- How long a frame is.
use modemstuff.Base.{
  ℕ, zero, suc, ◌+◌, ◌*◌, ◌≤◌, ◌≡◌, refl, List, [], ◌∷◌, ◌++◌, arith, length, length-append,
}
use modemstuff.Framer.{byte_bits}
use modemstuff.Framer.Stuffing.{
  ones_after, stuffed_bit, stuffed, ones_behind, all_bits, flags, frame,
}

length-all_bits : (bytes : List ℕ) → length (all_bits bytes) ≡ 8 * length bytes
unfolding byte_bits
length-all_bits [] = refl
length-all_bits (b ∷ bytes) = omega (arith, length-all_bits bytes)

length-flags : (n : ℕ) → length (flags n) ≡ 8 * n
unfolding byte_bits
length-flags zero = refl
length-flags (suc n) = omega (arith, length-flags n)

-- Every stuffed zero is paid for by the five ones in front of it.
length-stuffed :
    (bits : List ℕ) (ones : ℕ)
    → 5 * length (stuffed ones bits) + ones_behind ones bits ≤ 6 * length bits + ones
length-stuffed [] ones = omega arith
length-stuffed (b ∷ bits) ones =
    let later = length-stuffed bits (ones_after ones b) in
    let here : 5 * length (stuffed_bit ones b) + ones_after ones b ≤ 6 + ones = ground arith in
    omega
      (arith, length-append (stuffed_bit ones b) (stuffed (ones_after ones b) bits), here, later)

-- A frame takes eight bits for each flag and at most six fifths of the bits of its bytes.
pub length-frame :
    (head tail : ℕ) (bytes : List ℕ)
    → 5 * length (frame head bytes tail) ≤ 40 * (head + tail) + 48 * length bytes
length-frame head tail bytes =
    let bits = all_bits bytes in
    omega (
      arith,
      length-append (flags head) (stuffed 0 bits ++ flags tail),
      length-append (stuffed 0 bits) (flags tail),
      length-flags head,
      length-flags tail,
      length-all_bits bytes,
      length-stuffed bits 0,
    )
