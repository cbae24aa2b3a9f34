-- ===== src/Linecode/Inverse.antt =====
-- The decoder undoes the encoder, also when samples without a bit lie between the bits.
use modemstuff.Base.{
  IsBit, ℕ, zero, suc, ◌≡◌, refl, ap, ◌∙◌, List, [], ◌∷◌, Option, none, some, arith, All,
}
use modemstuff.Linecode.{NrziDecoder, NrziEncoder, nrzi_decode, nrzi_encode}

-- The levels that the encoder gives for some bits, one after another.
unfoldable pub encode_all : NrziEncoder → List ℕ → List ℕ
encode_all e [] = []
encode_all e (bit ∷ bits) = let (e', level) = nrzi_encode e bit in level ∷ encode_all e' bits

-- The bits that the decoder gives for what the bit detector returns, sample by sample.
unfoldable pub decode_all : NrziDecoder → List (Option ℕ) → List ℕ
decode_all d [] = []
decode_all d (x ∷ xs) =
    let (d', out) = nrzi_decode d x in
    let rest = decode_all d' xs in elim out [ none ↦ rest | some bit ↦ bit ∷ rest ]

-- The samples that carry a bit.
abbrev pub detected : List (Option ℕ) → List ℕ
detected [] = []
detected (none ∷ xs) = detected xs
detected (some b ∷ xs) = b ∷ detected xs

pub encode-IsBit :
    (level bit : ℕ)
    → IsBit level
    → IsBit bit
    → IsBit (nrzi_encode (record { nrzi_bit = level }) bit).1
unfolding nrzi_encode
encode-IsBit zero zero l b = omega arith
encode-IsBit zero (suc bit) l b = ground arith
encode-IsBit (suc zero) zero l b = omega arith
encode-IsBit (suc zero) (suc bit) l b = ground arith
encode-IsBit (suc (suc level)) bit l b = absurd (omega arith)

-- One bit there and back.
decode-encode :
    (level bit : ℕ)
    → IsBit level
    → IsBit bit
    → nrzi_decode
        (record { last_bit = level })
        (some (nrzi_encode (record { nrzi_bit = level }) bit).1)
      ≡ (record { last_bit = (nrzi_encode (record { nrzi_bit = level }) bit).1 }, some bit)
unfolding nrzi_encode nrzi_decode
decode-encode zero zero l b = refl
decode-encode zero (suc zero) l b = refl
decode-encode (suc zero) zero l b = refl
decode-encode (suc zero) (suc zero) l b = refl
decode-encode zero (suc (suc bit)) l b = absurd (omega arith)
decode-encode (suc zero) (suc (suc bit)) l b = absurd (omega arith)
decode-encode (suc (suc level)) bit l b = absurd (omega arith)

pub encode_all-cons :
    (level bit : ℕ) (bits : List ℕ)
    → let level' = (nrzi_encode (record { nrzi_bit = level }) bit).1 in
      encode_all (record { nrzi_bit = level }) (bit ∷ bits)
      ≡ level' ∷ encode_all (record { nrzi_bit = level' }) bits
unfolding encode_all nrzi_encode
encode_all-cons level bit bits = refl

pub decode_none :
    (d : NrziDecoder) (xs : List (Option ℕ)) → decode_all d (none ∷ xs) ≡ decode_all d xs
unfolding decode_all nrzi_decode
decode_none d xs = refl

pub decode_some :
    (d d' : NrziDecoder) (x bit : ℕ) (xs : List (Option ℕ))
    → nrzi_decode d (some x) ≡ (d', some bit)
    → decode_all d (some x ∷ xs) ≡ bit ∷ decode_all d' xs
unfolding decode_all
decode_some d d' x bit xs e = rw (e, decode_all) (rw e)

-- Bits, encoded and carried by the samples of a signal among any number of samples that carry
-- none, come out of a decoder that starts at the encoder's level as they went in.
pub decode_all-encode_all :
    (signal : List (Option ℕ)) (bits : List ℕ) (level : ℕ)
    → IsBit level
    → All IsBit bits
    → detected signal ≡ encode_all (record { nrzi_bit = level }) bits
    → decode_all (record { last_bit = level }) signal ≡ bits
unfolding encode_all
decode_all-encode_all [] [] level l b e = unfold decode_all in refl
decode_all-encode_all [] (bit ∷ bits) level l b e = cc
decode_all-encode_all (none ∷ xs) bits level l b e =
    decode_none _ xs ∙ decode_all-encode_all xs bits level l b e
decode_all-encode_all (some x ∷ xs) [] level l b e = cc
decode_all-encode_all (some x ∷ xs) (bit ∷ bits) level l b e =
    let level' = (nrzi_encode (record { nrzi_bit = level }) bit).1 in
    let both = e ∙ encode_all-cons level bit bits in
    let here : x ≡ level' = cc in
    let later : detected xs ≡ encode_all (record { nrzi_bit = level' }) bits = cc in
    rw here (
      decode_some _ _ level' bit xs (decode-encode level bit l b.0)
      ∙ ap (λ t. bit ∷ t)
          (decode_all-encode_all xs bits level' (encode-IsBit level bit l b.0) b.1 later))
