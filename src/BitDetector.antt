-- ===== src/BitDetector.antt =====
-- The bit detector of src/modemstuff/bitdet.c and include/modemstuff/bitdet.h.
-- A soft symbol is what the code asks of it, whether it is above 0.0 (a NaN, at which neither test
-- holds, is left out). A `ms_bit` is an `Option ℕ` with `none` for MS_BIT_NONE. `bit_period`, the
-- quotient of two rates cut to an `int`, is an argument.
pub mod Recovery
mod Examples
use modemstuff.Base.{
  ℕ, ◌-◌, ◌/◌, Bool, true, false, List, [], ◌∷◌, Option, none, some, ◌==◌, if◌then◌else◌,
}

pub data Symbol : Type 0 where
  positive not_positive : Symbol

pub record BitDetector : Type 0 where
  pub bit_period : ℕ
  pub samples_to_return : ℕ
  pub last_bit : Option ℕ

unfoldable pub bit_detector_init : ℕ → BitDetector
bit_detector_init bit_period = record {
  bit_period = bit_period;
  samples_to_return = 0;
  last_bit = none;
}

-- MS_BIT_ONE above 0.0, else MS_BIT_ZERO.
abbrev pub bit_of_symbol : Symbol → ℕ
bit_of_symbol positive = 1
bit_of_symbol not_positive = 0

-- `bit == bitdec->last_bit`
abbrev pub is_last : Option ℕ → ℕ → Bool
is_last none bit = false
is_last (some last) bit = bit == last

unfoldable pub bit_detector_process : BitDetector → Symbol → BitDetector × Option ℕ
bit_detector_process d symbol =
    let bit = bit_of_symbol symbol in
    if is_last d.last_bit bit
    then (if d.samples_to_return == 0
        then (record d { samples_to_return = d.bit_period }, some bit)
        else (record d { samples_to_return = d.samples_to_return - 1 }, none))
    else (record d { last_bit = some bit; samples_to_return = d.bit_period / 2 }, none)
