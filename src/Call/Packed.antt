-- ===== src/Call/Packed.antt =====
-- `hs_ax25_call_pack` and `hs_ax25_call_unpack` as inverses.
use modemstuff.Base.{
  ℕ, zero, suc, ◌-◌, ◌*◌, ◌/◌, ◌%◌, ◌^◌, ◌≤◌, ◌<◌, ◌≡◌, ◌≢◌, refl, sym, List, [], ◌∷◌, ◌++◌,
  append_assoc, some, arith, length, length-append, length-replicate, replicate, drop, length-drop,
  get_elem?, get_elem?_at, All, IsByte, ==-false,
}
use modemstuff.Call.{Call, max_callsign_len, metadata, call_pack, unpack_base, call_unpack}
use modemstuff.Call.Field.{
  text, IsTerminated, shifted, field, length-shifted, call_pack-field, length-field, metadata_lem,
  field-bytes,
}

-- A seven-bit character that is neither the terminator nor the padding.
pub record IsLetter (c : ℕ) : Type 0 where
  pub not_zero : c ≢ 0
  pub not_space : c ≢ 32
  pub seven_bits : c < 128

-- At most six letters and a terminator in the array of seven.
pub record IsValid (call : Call) : Type 0 where
  pub array : length call.base ≡ 7
  pub short : length (text call.base) ≤ max_callsign_len
  pub letters : All IsLetter (text call.base)
  pub ssid_nibble : call.ssid < 16
  pub repeated_bit : call.is_repeated < 2

pub IsValid-IsTerminated : {call : Call} → IsValid call → IsTerminated call
IsValid-IsTerminated v = record {
  array = v.array;
  short = v.short;
  ssid_nibble = v.ssid_nibble;
  repeated_bit = v.repeated_bit;
}

-- The same callsign, whatever stands behind the terminator.
pub record Same (a b : Call) : Type 0 where
  pub same_text : text a.base ≡ text b.base
  pub same_ssid : a.ssid ≡ b.ssid
  pub same_repeated : a.is_repeated ≡ b.is_repeated

unpack_base-shifted :
    (t : List ℕ) (rounds : ℕ) (old rest : List ℕ)
    → All IsLetter t
    → length t ≤ rounds
    → rounds < length old
    → unpack_base rounds old (shifted t ++ (replicate (rounds - length t) (b' ' * 2) ++ rest))
      ≡ some (t ++ (0 ∷ drop (suc (length t)) old))
unfolding unpack_base
unpack_base-shifted t rounds [] rest l h k = absurd (omega arith)
unpack_base-shifted [] zero (b ∷ bs) rest l h k = refl
unpack_base-shifted [] (suc r) (b ∷ bs) rest l h k =
    let e : suc r - 0 ≡ suc r = omega arith in rw e refl
unpack_base-shifted (c ∷ cs) zero (b ∷ bs) rest l h k = absurd (omega arith)
unpack_base-shifted (c ∷ cs) (suc r) (b ∷ bs) rest l h k =
    let e : suc r - suc (length cs) ≡ r - length cs = omega arith in
    let back : c * 2 % 2 ^ 8 / 2 % 2 ^ 7 ≡ c = omega (arith, l.0.seven_bits) in
    rw (e, back, ==-false c 32 l.0.not_space)
      (rw (unpack_base-shifted cs r bs rest l.1 (omega arith) (omega arith)))

pub text-append : (t junk : List ℕ) → All IsLetter t → text (t ++ (0 ∷ junk)) ≡ t
text-append [] junk h = refl
text-append (c ∷ cs) junk h = rw (==-false c 0 h.0.not_zero, text-append cs junk h.1)

pub Same-IsValid : {a b : Call} → Same a b → length b.base ≡ 7 → IsValid a → IsValid b
Same-IsValid s h v = record {
  array = h;
  short = rw s.same_text at v.short;
  letters = rw s.same_text at v.letters;
  ssid_nibble = rw s.same_ssid at v.ssid_nibble;
  repeated_bit = rw s.same_repeated at v.repeated_bit;
}

field-append :
    (call : Call) (is_last : ℕ) (rest : List ℕ)
    → field call is_last ++ rest
      ≡ shifted (text call.base)
        ++ (replicate (max_callsign_len - length (text call.base)) (b' ' * 2)
            ++ (metadata call.is_repeated call.ssid is_last ∷ rest))
field-append call is_last rest = simp append_assoc

get_elem?-seventh :
    (t rest : List ℕ) (m : ℕ)
    → length t ≤ max_callsign_len
    → get_elem?
        (shifted t ++ (replicate (max_callsign_len - length t) (b' ' * 2) ++ (m ∷ rest)))
        max_callsign_len
      ≡ some m
get_elem?-seventh t rest m h =
    let pad = replicate (max_callsign_len - length t) (b' ' * 2) in
    let six : max_callsign_len ≡ length (shifted t ++ pad) = omega (
      arith,
      length-append (shifted t) pad,
      length-shifted t,
      length-replicate (max_callsign_len - length t) (b' ' * 2),
    ) in
    rw (← append_assoc (shifted t) pad (m ∷ rest))
      (get_elem?_at (shifted t ++ pad) rest m max_callsign_len six)

unpacked : Call → Call → Call
unpacked call old = record call {
  base = text call.base ++ (0 ∷ drop (suc (length (text call.base))) old.base);
}

call_unpack-field :
    (call old : Call) (is_last : ℕ) (rest : List ℕ)
    → IsValid call
    → length old.base ≡ 7
    → is_last < 2
    → call_unpack old (field call is_last ++ rest) ≡ some (unpacked call old, is_last)
unfolding call_unpack unpacked
call_unpack-field call old is_last rest v h l =
    let t = text call.base in
    let m = metadata call.is_repeated call.ssid is_last in
    let bits = metadata_lem call.is_repeated call.ssid is_last v.repeated_bit v.ssid_nibble l in
    let ssid : m / 2 % 2 ^ 4 ≡ call.ssid = omega (arith, bits, v.ssid_nibble) in
    let repeated : m / 2 ^ 7 % 2 ≡ call.is_repeated =
      omega (arith, bits, v.ssid_nibble, v.repeated_bit) in
    let last : m % 2 ≡ is_last = omega (arith, bits) in
    rw
      (
        field-append call is_last rest,
        unpack_base-shifted t max_callsign_len old.base (m ∷ rest) v.letters v.short (omega arith),
        get_elem?-seventh t rest m v.short,
      )
      (rw (ssid, repeated, last))

-- A valid callsign packs without a fault into seven bytes, and unpacking them, whatever follows and
-- whatever the destination held, gives the same letters, SSID and repeated bit, and the mark of
-- the last address.
pub call_unpack-call_pack :
    (call old : Call) (is_last : ℕ)
    → IsValid call
    → length old.base ≡ 7
    → is_last < 2
    → (bytes : List ℕ) × (call_pack call is_last ≡ some bytes)
      × (length bytes ≡ 7)
      × All IsByte bytes
      × ((back : Call) × ((rest : List ℕ) → call_unpack old (bytes ++ rest) ≡ some (back, is_last))
          × Same call back
          × (length back.base ≡ 7))
unfolding unpacked
call_unpack-call_pack call old is_last v h l = (
  field call is_last,
  call_pack-field call is_last (IsValid-IsTerminated v),
  length-field call is_last (IsValid-IsTerminated v),
  field-bytes call is_last (IsValid-IsTerminated v) l,
  (
    unpacked call old,
    λ rest. call_unpack-field call old is_last rest v h l,
    record {
      same_text = sym (text-append (text call.base) _ v.letters);
      same_ssid = refl;
      same_repeated = refl;
    },
    omega (
      arith,
      v.short,
      length-append (text call.base) (0 ∷ drop (suc (length (text call.base))) old.base),
      length-drop (suc (length (text call.base))) old.base,
    ),
  ),
)
