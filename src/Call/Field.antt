-- ===== src/Call/Field.antt =====
-- What `hs_ax25_call_pack` writes, for any callsign with a terminator in its array.
use modemstuff.Base.{
  ℕ, suc, ◌+◌, ◌-◌, ◌*◌, ◌%◌, ◌^◌, ◌≤◌, ◌<◌, ◌≡◌, refl, ap, List, [], ◌∷◌, ◌++◌, map, some, arith,
  length, length-append, length-replicate, replicate, All, All-append, All-replicate, IsByte,
  all_below, all_below_sound, ◌==◌, ==_iff, Bool-cases, inl, inr, true, if◌then◌else◌,
}
use modemstuff.Call.{Call, max_callsign_len, copy_base, metadata, call_pack}

-- The characters before the terminator.
abbrev pub text : List ℕ → List ℕ
text [] = []
text (c ∷ cs) = if c == 0 then [] else c ∷ text cs

-- A terminator in the array of seven characters, four bits of SSID and a repeated bit.
pub record IsTerminated (call : Call) : Type 0 where
  pub array : length call.base ≡ 7
  pub short : length (text call.base) ≤ max_callsign_len
  pub ssid_nibble : call.ssid < 16
  pub repeated_bit : call.is_repeated < 2

abbrev pub shifted : List ℕ → List ℕ
shifted = map (λ c. c * 2 % 2 ^ 8)

-- The seven bytes of an address field.
abbrev pub field : Call → ℕ → List ℕ
field call is_last =
    shifted (text call.base)
    ++ (replicate (max_callsign_len - length (text call.base)) (b' ' * 2)
        ++ (metadata call.is_repeated call.ssid is_last ∷ []))

copy_base-text :
    (base : List ℕ) → length (text base) < length base → copy_base base ≡ some (shifted (text base))
unfolding copy_base
copy_base-text [] h = absurd (omega arith)
copy_base-text (c ∷ cs) h = elim (Bool-cases (c == 0)) [
  | inl z ↦ rw z
  | inr n ↦ let h' = rw n at h in rw (n, copy_base-text cs (omega arith))
]

pub length-shifted : (t : List ℕ) → length (shifted t) ≡ length t
length-shifted [] = refl
length-shifted (c ∷ cs) = ap suc (length-shifted cs)

pub call_pack-field :
    (call : Call) (is_last : ℕ)
    → IsTerminated call
    → call_pack call is_last ≡ some (field call is_last)
unfolding call_pack
call_pack-field call is_last v =
    rw (copy_base-text call.base (omega (arith, v.array, v.short)), length-shifted (text call.base))

pub length-field : (call : Call) (is_last : ℕ) → IsTerminated call → length (field call is_last) ≡ 7
length-field call is_last v =
    let t = text call.base in
    let pad = replicate (max_callsign_len - length t) (b' ' * 2) in
    let meta = metadata call.is_repeated call.ssid is_last ∷ [] in
    omega (
      arith,
      v.short,
      length-append (shifted t) (pad ++ meta),
      length-append pad meta,
      length-shifted t,
      length-replicate (max_callsign_len - length t) (b' ' * 2),
    )

metadata_table :
    all_below 2
      (λ r. all_below 16 (λ s. all_below 2 (λ l. metadata r s l == 0x60 + r * 128 + s * 2 + l)))
    ≡ true
unfolding all_below metadata
metadata_table = refl

pub metadata_lem :
    (r s l : ℕ) → r < 2 → s < 16 → l < 2 → metadata r s l ≡ 0x60 + r * 128 + s * 2 + l
metadata_lem r s l p q h =
    (==_iff _ _).0
      (all_below_sound 2 _ l (all_below_sound 16 _ s (all_below_sound 2 _ r metadata_table p) q) h)

shifted-bytes : (t : List ℕ) → All IsByte (shifted t)
shifted-bytes [] = tt
shifted-bytes (c ∷ cs) = (omega arith, shifted-bytes cs)

pub field-bytes :
    (call : Call) (is_last : ℕ) → IsTerminated call → is_last < 2 → All IsByte (field call is_last)
field-bytes call is_last v l =
    let t = text call.base in
    let bits = metadata_lem call.is_repeated call.ssid is_last v.repeated_bit v.ssid_nibble l in
    All-append IsByte (shifted t) _ (shifted-bytes t) (
      All-append IsByte (replicate (max_callsign_len - length t) (b' ' * 2)) _
        (All-replicate IsByte (max_callsign_len - length t) (b' ' * 2) (omega arith))
        (omega (arith, bits, v.ssid_nibble, v.repeated_bit), tt))
