-- ===== src/Dsp/Samples.antt =====
-- Whole numbers in place of the floating-point ones, and memory for a deframer.
use modemstuff.Base.{ℕ, ◌+◌, ◌-◌, ◌*◌, ◌/◌, ltb, leb, replicate}
use modemstuff.Deframer.{Deframer, max_packet_len}
use modemstuff.Dsp.{Arithmetic, Floats}

instance abbrev pub whole : Arithmetic ℕ
whole = record {
  add = ◌+◌;
  sub = ◌-◌;
  mul = ◌*◌;
  div = ◌/◌;
  neg = λ x. x;
  greater = λ x y. ltb y x;
  at_least = λ x y. leb y x;
  of_int = λ n. n;
  truncate = λ n. n;
}

abbrev pub floats : Floats ℕ ℕ
floats = record {
  wide = λ x. x;
  narrow = λ x. x;
  decimal = λ n k. n;
  pi = 3;
  sin = λ x. x;
  cos = λ x. x;
  tan = λ x. x;
  abs = λ x. x;
}

abbrev pub clear_deframer : Deframer
clear_deframer = record {
  buffer = replicate max_packet_len 0;
  buffer_pos = 0;
  raw_bits = 0;
  unstuffed_bits = 0;
  unstuffed_bit_count = 0;
  ones_count = 0;
}
