-- ===== src/Call/Examples.antt =====
-- The round trip on a callsign of six letters, and runs of the operations.
use modemstuff.Base.{
  inl, inr, ℕ, ◌≡◌, refl, List, [], ◌∷◌, ◌++◌, some, none, All, IsByte, length, arith,
}
use modemstuff.Call.{Call, call_pack, call_unpack, call_to_str, call_from_str}
use modemstuff.Call.Text.{call_from_str-call_to_str, call_from_str-mark}
use modemstuff.Call.Field.{text}
use modemstuff.Call.Packed.{Same, call_unpack-call_pack, IsValid}

abbrev n0call : Call
n0call = record { base = 78 ∷ 48 ∷ 67 ∷ 65 ∷ 76 ∷ 76 ∷ 0 ∷ []; ssid = 7; is_repeated = 0 }

abbrev storage : Call
storage = record { base = 1 ∷ 2 ∷ 3 ∷ 4 ∷ 5 ∷ 6 ∷ 7 ∷ []; ssid = 9; is_repeated = 1 }

n0call-IsValid : IsValid n0call
n0call-IsValid = ground arith

pack_n0call : call_pack n0call 1 ≡ some (156 ∷ 96 ∷ 134 ∷ 130 ∷ 152 ∷ 152 ∷ 111 ∷ [])
unfolding call_pack
pack_n0call = refl

-- No terminator in the array.
pack_unterminated : call_pack storage 1 ≡ none
unfolding call_pack
pack_unterminated = refl

call_unpack-call_pack_example :
    (bytes : List ℕ) × (call_pack n0call 1 ≡ some bytes)
    × (length bytes ≡ 7)
    × All IsByte bytes
    × ((back : Call) × ((rest : List ℕ) → call_unpack storage (bytes ++ rest) ≡ some (back, 1))
        × Same n0call back
        × (length back.base ≡ 7))
call_unpack-call_pack_example =
    call_unpack-call_pack n0call storage 1 n0call-IsValid refl (omega arith)

-- "WIDE", already repeated.
abbrev wide : Call
wide = record { base = 87 ∷ 73 ∷ 68 ∷ 69 ∷ 0 ∷ 3 ∷ 3 ∷ []; ssid = 0; is_repeated = 1 }

-- "WIDE2-12", already repeated.
abbrev wide_two : Call
wide_two = record { base = 87 ∷ 73 ∷ 68 ∷ 69 ∷ 50 ∷ 0 ∷ 3 ∷ []; ssid = 12; is_repeated = 1 }

wide-IsValid : IsValid wide
wide-IsValid = ground arith

wide_two-IsValid : IsValid wide_two
wide_two-IsValid = ground arith

call_from_str-call_to_str_example :
    (str : List ℕ) × (call_to_str wide_two ≡ some str)
    × ((back : Call) × (call_from_str storage (str ++ (0 ∷ 9 ∷ [])) ≡ some back)
        × Same wide_two back)
call_from_str-call_to_str_example =
    call_from_str-call_to_str wide_two storage (9 ∷ []) wide_two-IsValid (omega arith)
      (inl (inr (omega arith))) refl

call_from_str-mark_example :
    (str : List ℕ) × (call_to_str wide ≡ some str)
    × ((back : Call) × (call_from_str storage (str ++ (0 ∷ 9 ∷ [])) ≡ some back)
        × (text back.base ≡ text wide.base ++ (42 ∷ []))
        × (back.is_repeated ≡ 0))
call_from_str-mark_example =
    call_from_str-mark wide storage (9 ∷ []) wide-IsValid (omega arith) refl refl (omega arith) refl
