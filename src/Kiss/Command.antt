-- ===== src/Kiss/Command.antt =====
-- The members of `hs_kiss_command_t` that the code names. A received command is any nibble.
use modemstuff.Base.{ℕ}

abbrev pub kiss_data_frame : ℕ
kiss_data_frame = 0x00

abbrev pub kiss_tx_delay : ℕ
kiss_tx_delay = 0x01

abbrev pub kiss_tx_tail : ℕ
kiss_tx_tail = 0x04

abbrev pub kiss_return : ℕ
kiss_return = 0xff
