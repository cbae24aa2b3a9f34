-- ===== src/Linecode.antt =====
-- The NRZI line code of src/modemstuff/linecode.c and include/modemstuff/linecode.h.
-- A `ms_bit` is an `Option ℕ`: `none` is MS_BIT_NONE. The states hold bits, 0 or 1, for good: the
-- decoder returns before it would store MS_BIT_NONE.
pub mod Inverse
mod Examples
use modemstuff.Base.{ℕ, bit_xor, List, [], ◌∷◌, Option, none, some, ◌==◌, if◌then◌else◌}

pub record NrziDecoder : Type 0 where
  pub last_bit : ℕ

pub record NrziEncoder : Type 0 where
  pub nrzi_bit : ℕ

unfoldable pub nrzi_decoder_init : NrziDecoder
nrzi_decoder_init = record { last_bit = 0 }

unfoldable pub nrzi_decode : NrziDecoder → Option ℕ → NrziDecoder × Option ℕ
nrzi_decode d none = (d, none)
nrzi_decode d (some bit) = (record { last_bit = bit }, some (if bit == d.last_bit then 1 else 0))

unfoldable pub nrzi_encoder_init : NrziEncoder
nrzi_encoder_init = record { nrzi_bit = 0 }

unfoldable pub nrzi_encode : NrziEncoder → ℕ → NrziEncoder × ℕ
nrzi_encode e bit =
    let level : ℕ = if bit == 0 then bit_xor e.nrzi_bit 1 else e.nrzi_bit in
    (record { nrzi_bit = level }, level)
