-- ===== src/Framer/Reading.antt =====
-- Reading the buffer back with `hs_ax25_framer_next_bit`, as `ax25tnc_modulator_process` of
-- apps/ax25tnc/modulator.c does until it gives -1.
use native.Mathlib.Decide.{dec_lt}
use modemstuff.Base.{
  drop_past, ℕ, zero, suc, ◌+◌, ◌/◌, ◌%◌, ◌^◌, ◌≤◌, ◌<◌, ◌≡◌, sym, ap, ◌∙◌, List, [], ◌∷◌, none,
  some, arith, length, drop, get_elem?, get_elem?_total, leb, false,
}
use modemstuff.Framer.{Framer, next_bit, unit_at}
use modemstuff.Framer.Units.{get_elem?-flat, get_elem?-append_left}
use modemstuff.Framer.Content.{Contains, reading_from}

-- At most `fuel` calls; a frame of `total_bits` bits needs one more than that.
unfoldable pub drain : ℕ → Framer → List ℕ
drain zero fr = []
drain (suc fuel) fr =
    let (fr', bit) = next_bit fr in elim bit [ none ↦ [] | some b ↦ b ∷ drain fuel fr' ]

drop-cons : (xs : List ℕ) (i x : ℕ) → get_elem? xs i ≡ some x → drop i xs ≡ x ∷ drop (i + 1) xs
drop-cons [] i x e = cc
drop-cons (y ∷ xs) zero x e = cc
drop-cons (y ∷ xs) (suc i) x e =
    let next : suc i + 1 ≡ suc (i + 1) = omega arith in rw next (drop-cons xs i x e)

pub drain-cons :
    (fuel : ℕ) (fr fr' : Framer) (b : ℕ)
    → next_bit fr ≡ (fr', some b)
    → drain (suc fuel) fr ≡ b ∷ drain fuel fr'
unfolding drain
drain-cons fuel fr fr' b e = rw (e, drain) (rw e)

-- The next bit in the buffer, until the last.
next_bit-Contains :
    (fr : Framer) (bits : List ℕ) (b : ℕ)
    → Contains fr bits
    → get_elem? bits fr.reading_bit ≡ some b
    → fr.reading_bit < length bits
    → next_bit fr ≡ (record fr { reading_bit = fr.reading_bit + 1 }, some b)
unfolding next_bit
next_bit-Contains fr bits b h e l =
    let i = fr.reading_bit in
    let u = i / 32 in
    let k = i % 32 in
    let read =
      get_elem?-flat fr.bit_buffer u k i (omega (arith, h.array, h.room)) (omega arith)
        (omega arith) in
    let here = ap (λ t. get_elem? t i) h.content ∙ get_elem?-append_left bits _ i l ∙ e in
    let both = sym read ∙ here in
    let same : unit_at fr.bit_buffer u / 2 ^ k % 2 ≡ b = cc in
    let inside : leb fr.total_bits i ≡ false = ground (arith, h.count) in rw (inside, same)

pub next_bit_done : (fr : Framer) → fr.total_bits ≤ fr.reading_bit → next_bit fr ≡ (fr, none)
unfolding next_bit
next_bit_done fr h = ground arith

-- With fuel for the bits that are left and one call more, reading a buffer that begins with the counted
-- bits gives those from the reading position on, each once and in order, and then ends.
pub drain-Contains :
    (fuel : ℕ) (fr : Framer) (bits : List ℕ)
    → Contains fr bits
    → length bits < fuel + fr.reading_bit
    → drain fuel fr ≡ drop fr.reading_bit bits
unfolding drain
drain-Contains zero fr bits h l = sym (drop_past fr.reading_bit bits (omega arith))
drain-Contains (suc fuel) fr bits h l = elim (dec_lt fr.reading_bit (length bits)) [
  | yes more ↦
      let (b, e) = get_elem?_total bits fr.reading_bit more in
      drain-cons fuel fr _ b (next_bit-Contains fr bits b h e more)
      ∙ rw (drop-cons bits fr.reading_bit b e) (
          ap (λ t. b ∷ t)
            (drain-Contains fuel (record fr { reading_bit = fr.reading_bit + 1 }) bits
              (reading_from (fr.reading_bit + 1) h) (omega arith)))
  | no done ↦ rw (
    next_bit_done fr (omega (arith, h.count)),
    drain,
    drop_past fr.reading_bit bits (omega arith),
  )
]
