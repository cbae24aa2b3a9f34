-- ===== src/Framer/Stuffing.antt =====
-- The two loops of the framer as functions on lists of bits.
use modemstuff.Base.{
  IsBit, ℕ, zero, suc, ◌+◌, ◌≡◌, refl, sym, List, [], ◌∷◌, ◌++◌, append_assoc, arith, All,
  All-append, ◌==◌, if◌then◌else◌, Bool, ◌&&◌, not,
}
use modemstuff.Framer.{
  Framer, ax25_flag, byte_bits, insert_bit, insert_bits, insert_byte, insert_flags, stuff_bit,
  stuff_bits, stuff_bytes,
}

-- Whether a zero follows this bit, and the count of ones behind it.
abbrev pub is_fifth : ℕ → ℕ → Bool
is_fifth ones bit = not (bit == 0) && ones == 4

abbrev pub ones_after : ℕ → ℕ → ℕ
ones_after ones bit = if bit == 0 then 0 else if ones == 4 then 0 else ones + 1

abbrev pub stuffed_bit : ℕ → ℕ → List ℕ
stuffed_bit ones bit = if is_fifth ones bit then bit ∷ 0 ∷ [] else bit ∷ []

abbrev pub stuffed : ℕ → List ℕ → List ℕ
stuffed ones [] = []
stuffed ones (bit ∷ bits) = stuffed_bit ones bit ++ stuffed (ones_after ones bit) bits

abbrev pub ones_behind : ℕ → List ℕ → ℕ
ones_behind ones [] = ones
ones_behind ones (bit ∷ bits) = ones_behind (ones_after ones bit) bits

abbrev pub all_bits : List ℕ → List ℕ
all_bits [] = []
all_bits (byte ∷ bytes) = byte_bits byte ++ all_bits bytes

abbrev pub flags : ℕ → List ℕ
flags zero = []
flags (suc n) = byte_bits ax25_flag ++ flags n

pub byte_bits-IsBit : (byte : ℕ) → All IsBit (byte_bits byte)
unfolding byte_bits
byte_bits-IsBit byte = omega arith

pub all_bits-IsBit : (bytes : List ℕ) → All IsBit (all_bits bytes)
all_bits-IsBit [] = tt
all_bits-IsBit (b ∷ bs) =
    All-append IsBit (byte_bits b) (all_bits bs) (byte_bits-IsBit b) (all_bits-IsBit bs)

stuffed_bit-IsBit : (b ones : ℕ) → IsBit b → All IsBit (stuffed_bit ones b)
stuffed_bit-IsBit b ones h = ground arith

pub stuffed-append :
    (xs ys : List ℕ) (ones : ℕ)
    → stuffed ones (xs ++ ys) ≡ stuffed ones xs ++ stuffed (ones_behind ones xs) ys
stuffed-append [] ys ones = refl
stuffed-append (x ∷ xs) ys ones =
    rw (stuffed-append xs ys (ones_after ones x))
      (sym (append_assoc (stuffed_bit ones x) (stuffed (ones_after ones x) xs) _))

pub ones_behind-append :
    (xs ys : List ℕ) (ones : ℕ) → ones_behind ones (xs ++ ys) ≡ ones_behind (ones_behind ones xs) ys
ones_behind-append [] ys ones = refl
ones_behind-append (x ∷ xs) ys ones = ones_behind-append xs ys (ones_after ones x)

insert_bits-append :
    (xs ys : List ℕ) (fr : Framer) → insert_bits fr (xs ++ ys) ≡ insert_bits (insert_bits fr xs) ys
unfolding insert_bits
insert_bits-append [] ys fr = refl
insert_bits-append (x ∷ xs) ys fr = insert_bits-append xs ys (insert_bit fr x)

insert_flags_lem : (n : ℕ) (fr : Framer) → insert_flags n fr ≡ insert_bits fr (flags n)
unfolding insert_flags insert_byte
insert_flags_lem zero fr = refl
insert_flags_lem (suc n) fr = insert_flags_lem n (insert_byte fr ax25_flag)

stuff_bit_lem :
    (fr : Framer) (ones b : ℕ)
    → stuff_bit fr ones b ≡ (insert_bits fr (stuffed_bit ones b), ones_after ones b)
unfolding stuff_bit insert_bits
stuff_bit_lem fr ones b = ground arith

stuff_bits_lem :
    (bs : List ℕ) (fr : Framer) (ones : ℕ)
    → stuff_bits fr ones bs ≡ (insert_bits fr (stuffed ones bs), ones_behind ones bs)
unfolding stuff_bits
stuff_bits_lem [] fr ones = unfold insert_bits in refl
stuff_bits_lem (b ∷ bs) fr ones =
    rw
      (
        stuff_bit_lem fr ones b,
        insert_bits-append (stuffed_bit ones b) (stuffed (ones_after ones b) bs) fr,
      )
      (stuff_bits_lem bs (insert_bits fr (stuffed_bit ones b)) (ones_after ones b))

-- The stuffing loop inserts the stuffed bits of the bytes.
pub stuff_bytes_lem :
    (bytes : List ℕ) (fr : Framer) (ones : ℕ)
    → stuff_bytes fr ones bytes
      ≡ (insert_bits fr (stuffed ones (all_bits bytes)), ones_behind ones (all_bits bytes))
unfolding stuff_bytes
stuff_bytes_lem [] fr ones = unfold insert_bits in refl
stuff_bytes_lem (b ∷ bytes) fr ones =
    let bs = byte_bits b in
    rw
      (
        stuff_bits_lem bs fr ones,
        stuffed-append bs (all_bits bytes) ones,
        ones_behind-append bs (all_bits bytes) ones,
        insert_bits-append (stuffed ones bs) (stuffed (ones_behind ones bs) (all_bits bytes)) fr,
      )
      (stuff_bytes_lem bytes (insert_bits fr (stuffed ones bs)) (ones_behind ones bs))

stuffed-IsBit : (bs : List ℕ) (ones : ℕ) → All IsBit bs → All IsBit (stuffed ones bs)
stuffed-IsBit [] ones h = tt
stuffed-IsBit (b ∷ bs) ones h =
    All-append IsBit (stuffed_bit ones b) _ (stuffed_bit-IsBit b ones h.0)
      (stuffed-IsBit bs (ones_after ones b) h.1)

flags-IsBit : (n : ℕ) → All IsBit (flags n)
flags-IsBit zero = tt
flags-IsBit (suc n) =
    All-append IsBit (byte_bits ax25_flag) _ (byte_bits-IsBit ax25_flag) (flags-IsBit n)

-- The bits of a frame: head flags, the stuffed bits of the packet, tail flags.
abbrev pub frame : ℕ → List ℕ → ℕ → List ℕ
frame head bytes tail = flags head ++ (stuffed 0 (all_bits bytes) ++ flags tail)

pub frame-IsBit : (head tail : ℕ) (bytes : List ℕ) → All IsBit (frame head bytes tail)
frame-IsBit head tail bytes = All-append IsBit (flags head) _ (flags-IsBit head) (
    All-append IsBit (stuffed 0 (all_bits bytes)) _
      (stuffed-IsBit (all_bits bytes) 0 (all_bits-IsBit bytes)) (flags-IsBit tail))

-- All that the framer inserts, in order.
pub insert_frame :
    (head tail : ℕ) (bytes : List ℕ) (fr : Framer)
    → insert_flags tail (stuff_bytes (insert_flags head fr) 0 bytes).0
      ≡ insert_bits fr (frame head bytes tail)
insert_frame head tail bytes fr = rw (
  insert_flags_lem head fr,
  stuff_bytes_lem bytes (insert_bits fr (flags head)) 0,
  insert_flags_lem tail (insert_bits (insert_bits fr (flags head)) (stuffed 0 (all_bits bytes))),
  insert_bits-append (flags head) (stuffed 0 (all_bits bytes) ++ flags tail) fr,
  insert_bits-append (stuffed 0 (all_bits bytes)) (flags tail) (insert_bits fr (flags head)),
)
