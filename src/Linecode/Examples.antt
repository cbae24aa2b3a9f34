-- ===== src/Linecode/Examples.antt =====
-- Bits among samples that carry none.
use modemstuff.Base.{ℕ, ◌≡◌, refl, List, [], ◌∷◌, Option, none, some, arith}
use modemstuff.Linecode.{nrzi_encode}
use modemstuff.Linecode.Inverse.{encode_all, decode_all, decode_all-encode_all}

abbrev signal : List (Option ℕ)
signal = none ∷ some 1 ∷ none ∷ some 0 ∷ some 0 ∷ none ∷ some 1 ∷ []

levels : encode_all (record { nrzi_bit = 1 }) (1 ∷ 0 ∷ 1 ∷ 0 ∷ []) ≡ 1 ∷ 0 ∷ 0 ∷ 1 ∷ []
unfolding encode_all nrzi_encode
levels = refl

decode_all-encode_all_example : decode_all (record { last_bit = 1 }) signal ≡ 1 ∷ 0 ∷ 1 ∷ 0 ∷ []
decode_all-encode_all_example =
    decode_all-encode_all signal (1 ∷ 0 ∷ 1 ∷ 0 ∷ []) 1 (omega arith) (omega arith)
      (unfold encode_all nrzi_encode in refl)
