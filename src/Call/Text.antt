-- ===== src/Call/Text.antt =====
-- `hs_ax25_call_to_str` and `hs_ax25_call_from_str` as inverses.
use modemstuff.Base.{
  ℕ, suc, ◌≤◌, ◌<◌, ◌≡◌, ◌≢◌, refl, sym, ap, ◌∙◌, ◌⊎◌, inl, inr, List, [], ◌∷◌, ◌++◌, append_assoc,
  some, arith, length, length-append, drop, All, All-append, ◌==◌, Bool-cases, if◌then◌else◌,
}
use modemstuff.Call.{Call, max_callsign_len, ssid_chars, marker, call_to_str, call_from_str}
use modemstuff.Call.Field.{text}
use modemstuff.Call.Packed.{IsLetter, IsValid, IsValid-IsTerminated, Same, text-append}
use modemstuff.Call.Chars.{
  IsNotDash, base_from-append, ssid_from-digits, from_str_plain, from_str_ssid, call_to_str-text,
}

-- The mark or the terminator, and what follows.
abbrev mark_char : ℕ → ℕ
mark_char r = if r == 0 then 0 else b'*'

abbrev mark_rest : ℕ → List ℕ → List ℕ
mark_rest r rest = if r == 0 then rest else 0 ∷ rest

mark_split : (r : ℕ) (rest : List ℕ) → marker r ++ (0 ∷ rest) ≡ mark_char r ∷ mark_rest r rest
mark_split r rest = elim (Bool-cases (r == 0)) [ inl z ↦ rw z refl | inr m ↦ rw m refl ]

mark_back : (r : ℕ) → r < 2 → (if mark_char r == b'*' then 1 else 0) ≡ r
mark_back r h = ground arith

-- A repeated mark is told from a letter only behind an SSID or a sixth letter.
abbrev pub IsMarked : Call → Type 0
IsMarked call =
    ((call.is_repeated ≡ 0) ⊎ (call.ssid ≢ 0)) ⊎ (length (text call.base) ≡ max_callsign_len)

-- The string of a valid callsign without a separator in its letters reads back, whatever follows its
-- terminator and whatever the destination held, as the same letters, SSID and repeated bit, if it is
-- not repeated, or has an SSID, or has six letters.
pub call_from_str-call_to_str :
    (call old : Call) (rest : List ℕ)
    → IsValid call
    → All IsNotDash (text call.base)
    → IsMarked call
    → length old.base ≡ 7
    → (str : List ℕ) × (call_to_str call ≡ some str)
      × ((back : Call) × (call_from_str old (str ++ (0 ∷ rest)) ≡ some back) × Same call back)
call_from_str-call_to_str call old rest v j marked h =
    let t = text call.base in
    let r = call.is_repeated in
    let c = mark_char r in
    let cs = mark_rest r rest in
    let str = t ++ (ssid_chars call.ssid ++ marker r) in
    let whole : str ++ (0 ∷ rest) ≡ t ++ (ssid_chars call.ssid ++ (c ∷ cs)) =
      append_assoc t (ssid_chars call.ssid ++ marker r) (0 ∷ rest)
      ∙ ap (λ (u : List ℕ). t ++ u)
          (append_assoc (ssid_chars call.ssid) (marker r) (0 ∷ rest)
            ∙ ap (λ (u : List ℕ). ssid_chars call.ssid ++ u) (mark_split r rest)) in
    let back : Call = record {
      base = t ++ (0 ∷ drop (suc (length t)) old.base);
      ssid = call.ssid;
      is_repeated = if c == b'*' then 1 else 0;
    } in
    let same : Same call back = record {
      same_text = sym (text-append t (drop (suc (length t)) old.base) v.letters);
      same_ssid = refl;
      same_repeated = sym (mark_back r v.repeated_bit);
    } in
    (
      str,
      call_to_str-text call (IsValid-IsTerminated v),
      (
        back,
        rw whole (elim (Bool-cases (call.ssid == 0)) [
          | inl z ↦
              let none_there : call.ssid ≡ 0 = ground arith in
              let stops : ((c ≡ 0) ⊎ (c ≡ b'-')) ⊎ (length t ≡ 6) = elim marked [
                | inl (inl clear) ↦ inl (inl (rw clear refl))
                | inl (inr some_there) ↦ absurd (some_there none_there)
                | inr full ↦ inr full
              ] in
              rw none_there (
                from_str_plain old (t ++ (c ∷ cs)) _ cs (length t) c
                  (base_from-append 6 t old.base c cs v.letters j v.short (omega arith) stops)
                  v.short (ground arith))
          | inr m ↦
              let there : call.ssid ≢ 0 = ground arith in
              let xs = drop 1 (ssid_chars call.ssid) ++ (c ∷ cs) in
              let (k, short, read) =
                ssid_from-digits call.ssid c cs there v.ssid_nibble (ground arith) in
              let split : ssid_chars call.ssid ++ (c ∷ cs) ≡ b'-' ∷ xs = rw m refl in
              rw split (
                from_str_ssid old (t ++ (b'-' ∷ xs)) _ xs cs (length t) k call.ssid c
                  (base_from-append 6 t old.base b'-' xs v.letters j v.short (omega arith)
                    (inl (inr refl)))
                  v.short read short)
        ]),
        same,
      ),
    )

-- A repeated callsign with fewer than six letters and no SSID does not read back: its mark becomes
-- a letter of the callsign, and the repeated bit is lost.
pub call_from_str-mark :
    (call old : Call) (rest : List ℕ)
    → IsValid call
    → All IsNotDash (text call.base)
    → call.ssid ≡ 0
    → call.is_repeated ≡ 1
    → length (text call.base) < max_callsign_len
    → length old.base ≡ 7
    → (str : List ℕ) × (call_to_str call ≡ some str)
      × ((back : Call) × (call_from_str old (str ++ (0 ∷ rest)) ≡ some back)
          × (text back.base ≡ text call.base ++ (b'*' ∷ []))
          × (back.is_repeated ≡ 0))
call_from_str-mark call old rest v j none_there repeated short h =
    let t = text call.base ++ (b'*' ∷ []) in
    let len : length t ≤ 6 = omega (arith, length-append (text call.base) (b'*' ∷ [])) in
    let star : IsLetter b'*' = record {
      not_zero = omega arith;
      not_space = omega arith;
      seven_bits = omega arith;
    } in
    let letters = All-append IsLetter (text call.base) (b'*' ∷ []) v.letters (star, tt) in
    let plain = All-append IsNotDash (text call.base) (b'*' ∷ []) j (omega arith, tt) in
    (
      t,
      call_to_str-text call (IsValid-IsTerminated v) ∙ rw (none_there, repeated) refl,
      (
        record { base = t ++ (0 ∷ drop (suc (length t)) old.base); ssid = 0; is_repeated = 0 },
        from_str_plain old (t ++ (0 ∷ rest)) _ rest (length t) 0
            (base_from-append 6 t old.base 0 rest letters plain len (omega arith) (inl (inl refl)))
            len (omega arith),
        text-append t (drop (suc (length t)) old.base) letters,
        refl,
      ),
    )
