-- ===== src/Crc/Examples.antt =====
-- The update at one byte, and the check value of the CRC.
use modemstuff.Base.{◌≡◌, refl, ◌∷◌, [], arith}
use modemstuff.Crc.{crc_update, fcs}
use modemstuff.Crc.Bitwise.{bitwise_update, crc_update-bitwise}

-- Of the text "123456789", as the catalogue of CRCs gives it.
check_value : fcs (49 ∷ 50 ∷ 51 ∷ 52 ∷ 53 ∷ 54 ∷ 55 ∷ 56 ∷ 57 ∷ []) ≡ 0x906e
unfolding fcs
check_value = refl

crc_update-bitwise_example : crc_update 0x9c 0xffff ≡ bitwise_update 0x9c 0xffff
crc_update-bitwise_example = crc_update-bitwise 0x9c 0xffff (omega arith)
