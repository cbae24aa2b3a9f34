-- ===== src/Framer/Content.antt =====
-- What the bit buffer holds: the bits inserted so far, in order, over those that it held before.
use modemstuff.Base.{
  ℕ, zero, suc, ◌+◌, ◌-◌, ◌*◌, ◌≤◌, ◌<◌, ◌≡◌, refl, ap, ◌∙◌, max, bit_or, List, [], ◌∷◌, ◌++◌,
  append_assoc, arith, take, drop, sym, length-take, length, length-append, replicate, All, IsBit,
  leb, Bool-cases, inl, inr, false, ◌^◌, append-nil,
}
use modemstuff.Framer.{Framer, update_at, bit_buffer_size, insert_bit, insert_bits}
use modemstuff.Framer.Units.{flat, flat-update}

abbrev pub capacity : ℕ
capacity = 8192

-- What raising bits of a list from its beginning on makes of it.
abbrev pub over : List ℕ → List ℕ → List ℕ
over [] old = old
over (b ∷ bits) [] = []
over (b ∷ bits) (o ∷ old) = max o b ∷ over bits old

pub length-over : (bits old : List ℕ) → length (over bits old) ≡ length old
length-over [] old = refl
length-over (b ∷ bits) [] = refl
length-over (b ∷ bits) (o ∷ old) = ap suc (length-over bits old)

update_at-over :
    (bits old : List ℕ) (i b : ℕ)
    → i ≡ length bits
    → length bits < length old
    → update_at (over bits old) i (λ y. max y b) ≡ over (bits ++ (b ∷ [])) old
update_at-over [] [] i b e h = absurd (omega arith)
update_at-over [] (o ∷ old) zero b e h = refl
update_at-over [] (o ∷ old) (suc i) b e h = absurd (omega arith)
update_at-over (x ∷ bits) [] i b e h = absurd (omega arith)
update_at-over (x ∷ bits) (o ∷ old) zero b e h = absurd (omega arith)
update_at-over (x ∷ bits) (o ∷ old) (suc i) b e h =
    ap (λ t. max o x ∷ t) (update_at-over bits old i b (omega arith) (omega arith))

-- Over zeros there are the bits alone.
over-replicate :
    (bits : List ℕ) (n : ℕ)
    → length bits ≤ n
    → over bits (replicate n 0) ≡ bits ++ replicate (n - length bits) 0
over-replicate [] n h = ap (λ (k : ℕ). replicate k 0) (omega arith)
over-replicate (b ∷ bits) zero h = absurd (omega arith)
over-replicate (b ∷ bits) (suc n) h =
    let same : suc n - suc (length bits) ≡ n - length bits = omega arith in
    let alone : max 0 b ≡ b = omega arith in
    rw (same, alone) (ap (λ t. b ∷ t) (over-replicate bits n (omega arith)))

-- The cursor stands behind `bits`, and nothing is set behind it.
pub record Holds (fr : Framer) (bits : List ℕ) : Type 0 where
  pub array : length fr.bit_buffer ≡ bit_buffer_size
  pub cursor : fr.total_bits ≡ fr.bit_buffer_unit * 32 + fr.bit_buffer_bit
  pub in_unit : fr.bit_buffer_bit < 32
  pub count : fr.total_bits ≡ length bits
  pub room : length bits ≤ capacity
  pub content : flat fr.bit_buffer ≡ bits ++ replicate (capacity - length bits) 0

-- The cursor stands behind `bits`, which are set over the bits that the buffer held.
pub record Overlays (fr : Framer) (old bits : List ℕ) : Type 0 where
  pub array : length fr.bit_buffer ≡ bit_buffer_size
  pub cursor : fr.total_bits ≡ fr.bit_buffer_unit * 32 + fr.bit_buffer_bit
  pub in_unit : fr.bit_buffer_bit < 32
  pub count : fr.total_bits ≡ length bits
  pub room : length bits ≤ capacity
  pub whole : length old ≡ capacity
  pub content : flat fr.bit_buffer ≡ over bits old

-- The buffer begins with `bits`, which are those that were counted.
pub record Contains (fr : Framer) (bits : List ℕ) : Type 0 where
  pub array : length fr.bit_buffer ≡ bit_buffer_size
  pub count : fr.total_bits ≡ length bits
  pub room : length bits ≤ capacity
  pub rest : List ℕ
  pub content : flat fr.bit_buffer ≡ bits ++ rest

pub Holds-Contains : {fr : Framer} {bits : List ℕ} → Holds fr bits → Contains fr bits
Holds-Contains {bits = bits} h = record {
  array = h.array;
  count = h.count;
  room = h.room;
  rest = replicate (capacity - length bits) 0;
  content = h.content;
}

over-take :
    (bits old : List ℕ)
    → length bits ≤ length old
    → over bits old ≡ over bits (take (length bits) old) ++ drop (length bits) old
over-take [] old h = refl
over-take (b ∷ bits) [] h = absurd (omega arith)
over-take (b ∷ bits) (o ∷ old) h = ap (λ t. max o b ∷ t) (over-take bits old (omega arith))

pub Overlays-Contains :
    {fr : Framer} {old bits : List ℕ}
    → Overlays fr old bits
    → Contains fr (over bits (take (length bits) old))
Overlays-Contains {old = old} {bits = bits} h =
    let fits : length bits ≤ length old = omega (arith, h.whole, h.room) in
    let len = length-over bits (take (length bits) old) ∙ length-take (length bits) old fits in
    record {
      array = h.array;
      count = h.count ∙ sym len;
      room = omega (arith, len, h.room);
      rest = drop (length bits) old;
      content = h.content ∙ over-take bits old fits;
    }

pub Overlays-reading :
    {fr : Framer} {old bits : List ℕ} (i : ℕ)
    → Overlays fr old bits
    → Overlays (record fr { reading_bit = i }) old bits
Overlays-reading i h = record {
  array = h.array;
  cursor = h.cursor;
  in_unit = h.in_unit;
  count = h.count;
  room = h.room;
  whole = h.whole;
  content = h.content;
}

-- Where the reading stands does not matter.
pub reading_from :
    {fr : Framer} {bits : List ℕ} (i : ℕ)
    → Contains fr bits
    → Contains (record fr { reading_bit = i }) bits
reading_from i h = record {
  array = h.array;
  count = h.count;
  room = h.room;
  rest = h.rest;
  content = h.content;
}

length-update_at : (xs : List ℕ) (i : ℕ) (f : ℕ → ℕ) → length (update_at xs i f) ≡ length xs
length-update_at [] i f = refl
length-update_at (x ∷ xs) zero f = refl
length-update_at (x ∷ xs) (suc i) f = ap suc (length-update_at xs i f)

abbrev written : Framer → ℕ → List ℕ
written fr b =
    update_at fr.bit_buffer fr.bit_buffer_unit (λ unit. bit_or unit (b * 2 ^ fr.bit_buffer_bit))

written-content :
    (fr : Framer) (old bits : List ℕ) (b : ℕ)
    → IsBit b
    → Overlays fr old bits
    → length bits < capacity
    → flat (written fr b) ≡ over (bits ++ (b ∷ [])) old
written-content fr old bits b l h room =
    flat-update fr.bit_buffer fr.bit_buffer_unit fr.bit_buffer_bit fr.total_bits b
      (omega (arith, h.array, h.cursor, h.count)) h.in_unit l h.cursor
    ∙ rw h.content (update_at-over bits old fr.total_bits b h.count (omega (arith, h.whole)))

-- A bit goes to the end.
insert_bit-Overlays :
    (fr : Framer) (old bits : List ℕ) (b : ℕ)
    → IsBit b
    → Overlays fr old bits
    → length bits < capacity
    → Overlays (insert_bit fr b) old (bits ++ (b ∷ []))
unfolding insert_bit
insert_bit-Overlays fr old bits b l h room =
    let same_length =
      length-update_at fr.bit_buffer fr.bit_buffer_unit
        (λ unit. bit_or unit (b * 2 ^ fr.bit_buffer_bit)) in
    let longer = length-append bits (b ∷ []) in
    let inside : leb bit_buffer_size fr.bit_buffer_unit ≡ false =
      ground (arith, h.cursor, h.count) in
    elim (Bool-cases (leb 32 (fr.bit_buffer_bit + 1))) [
      | inl full ↦
          rw (inside, full)
            (record {
              array = same_length ∙ h.array;
              cursor = ground arith;
              in_unit = omega arith;
              count = omega (arith, longer, h.count);
              room = omega (arith, longer);
              whole = h.whole;
              content = written-content fr old bits b l h room;
            })
      | inr more ↦
          rw (inside, more)
            (record {
              array = same_length ∙ h.array;
              cursor = omega (arith, h.cursor);
              in_unit = ground arith;
              count = omega (arith, longer, h.count);
              room = omega (arith, longer);
              whole = h.whole;
              content = written-content fr old bits b l h room;
            })
    ]

pub insert_bits-Overlays :
    (bs bits old : List ℕ) (fr : Framer)
    → All IsBit bs
    → Overlays fr old bits
    → length bits + length bs ≤ capacity
    → Overlays (insert_bits fr bs) old (bits ++ bs)
unfolding insert_bits
insert_bits-Overlays [] bits old fr l h room = rw (append-nil bits) h
insert_bits-Overlays (b ∷ bs) bits old fr l h room = rw (append_assoc bits (b ∷ []) bs) at (
    insert_bits-Overlays bs (bits ++ (b ∷ [])) old (insert_bit fr b) l.1
      (insert_bit-Overlays fr old bits b l.0 h (omega arith))
      (omega (arith, length-append bits (b ∷ []))))

-- A buffer that was clear holds the bits alone.
pub Overlays-Holds :
    {fr : Framer} {bits : List ℕ} → Overlays fr (replicate capacity 0) bits → Holds fr bits
Overlays-Holds {bits = bits} h = record {
  array = h.array;
  cursor = h.cursor;
  in_unit = h.in_unit;
  count = h.count;
  room = h.room;
  content = h.content ∙ over-replicate bits capacity h.room;
}
