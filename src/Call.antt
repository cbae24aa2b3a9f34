-- ===== src/Call.antt =====
-- Callsigns: src/hamstuff/ax25_call.c and include/hamstuff/ax25_call.h.
-- A `char` is the number of its byte. `none` as a result is a read or write outside an array. What
-- a function writes to an output pointer one byte after another is a list, in that order.
pub mod Field
pub mod Packed
pub mod Chars
pub mod Text
pub mod Safety
mod Examples
use modemstuff.Base.{
  Bool, false, ◌&&◌, leb, ltb, ℕ, zero, suc, ◌+◌, ◌-◌, ◌*◌, ◌/◌, ◌%◌, ◌^◌, bit_or, List, [], ◌∷◌,
  ◌++◌, Option, none, some, get_elem?, set, length, drop, replicate, ◌==◌, if◌then◌else◌, ◌>>=◌,
}

abbrev pub max_callsign_len : ℕ
max_callsign_len = 6

abbrev pub max_ssid_string_len : ℕ
max_ssid_string_len = 2

abbrev pub max_callsign_string_len : ℕ
max_callsign_string_len = 10

-- `base` is the whole array of seven characters.
pub record Call : Type 0 where
  pub base : List ℕ
  pub ssid : ℕ
  pub is_repeated : ℕ

unfoldable pub call_init : Call → Call
call_init call = record { base = set call.base 0 0; ssid = 0; is_repeated = 0 }

-- Copy the shifted characters up to the terminator.
copy_base : List ℕ → Option (List ℕ)
copy_base [] = none
copy_base (c ∷ cs) =
    if c == 0 then some [] else (do rest ← copy_base cs; some (c * 2 % 2 ^ 8 ∷ rest))

-- Reserved bits, repeated bit, SSID and the mark of the last address, in this order.
unfoldable pub metadata : ℕ → ℕ → ℕ → ℕ
metadata is_repeated ssid is_last =
    let reserved : ℕ = 0x60 in
    let with_repeated = bit_or reserved (is_repeated * 2 ^ 7) % 2 ^ 8 in
    let with_ssid = bit_or with_repeated (ssid * 2) % 2 ^ 8 in bit_or with_ssid is_last

-- The bytes written from `out` on.
unfoldable pub call_pack : Call → ℕ → Option (List ℕ)
unfolding copy_base metadata
call_pack call is_last = do
  copied ← copy_base call.base
  let padding = replicate (max_callsign_len - length copied) (b' ' * 2)
  some (copied ++ (padding ++ (metadata call.is_repeated call.ssid is_last ∷ [])))

-- The loop over the base, with the characters that remain: the array from `base[i]` on, after it.
unpack_base : ℕ → List ℕ → List ℕ → Option (List ℕ)
unpack_base rounds [] inp = none
unpack_base zero (b ∷ bs) inp = some (0 ∷ bs)
unpack_base (suc rounds) (b ∷ bs) [] = none
unpack_base (suc rounds) (b ∷ bs) (x ∷ xs) =
    let c = x / 2 % 2 ^ 7 in
    if c == b' ' then some (0 ∷ bs) else (do rest ← unpack_base rounds bs xs; some (c ∷ rest))

-- The call after unpacking from `inp`, and `is_last`.
unfoldable pub call_unpack : Call → List ℕ → Option (Call × ℕ)
unfolding unpack_base
call_unpack call inp = do
  base ← unpack_base max_callsign_len call.base inp
  meta ← get_elem? inp max_callsign_len
  some (record { base = base; ssid = meta / 2 % 2 ^ 4; is_repeated = meta / 2 ^ 7 % 2 }, meta % 2)

-- The characters of the base, at most so many.
pub base_chars : ℕ → List ℕ → Option (List ℕ)
base_chars zero bs = some []
base_chars (suc n) [] = none
base_chars (suc n) (c ∷ cs) =
    if c == 0 then some [] else (do rest ← base_chars n cs; some (c ∷ rest))

abbrev pub ssid_chars : ℕ → List ℕ
ssid_chars ssid =
    if ssid == 0
    then []
    else b'-'
      ∷ (if leb 10 ssid then (b'0' + ssid / 10) ∷ (b'0' + ssid % 10) ∷ [] else (b'0' + ssid) ∷ [])

abbrev pub marker : ℕ → List ℕ
marker is_repeated = if is_repeated == 0 then [] else b'*' ∷ []

-- The string before its terminator, whose length is the result of the code.
unfoldable pub call_to_str : Call → Option (List ℕ)
unfolding base_chars
call_to_str call = do
  base ← base_chars max_callsign_len call.base
  some (base ++ (ssid_chars call.ssid ++ marker call.is_repeated))

-- The loop over the string, with the characters that remain: the array from `base[i]` on after it,
-- the characters taken and the string left.
pub base_from : ℕ → List ℕ → List ℕ → Option (List ℕ × ℕ × List ℕ)
base_from rounds [] str = none
base_from zero (b ∷ bs) str = some (0 ∷ bs, 0, str)
base_from (suc rounds) (b ∷ bs) [] = none
base_from (suc rounds) (b ∷ bs) (c ∷ cs) =
    if c == 0
    then some (0 ∷ bs, 0, c ∷ cs)
    else if c == b'-'
    then some (0 ∷ bs, 0, c ∷ cs)
    else (do (base, i, rest) ← base_from rounds bs cs; some (c ∷ base, i + 1, rest))

abbrev pub is_digit : ℕ → Bool
is_digit c = leb b'0' c && leb c b'9'

-- The digits of the SSID, at most so many, behind the value so far.
pub ssid_from : ℕ → ℕ → List ℕ → Option (ℕ × ℕ × List ℕ)
ssid_from rounds ssid [] = none
ssid_from zero ssid (c ∷ cs) = some (ssid, 0, c ∷ cs)
ssid_from (suc rounds) ssid (c ∷ cs) =
    if is_digit c
    then (do
      (ssid', i, rest) ← ssid_from rounds ((ssid * 10 + (c - b'0')) % 2 ^ 8) cs
      some (ssid', i + 1, rest))
    else some (ssid, 0, c ∷ cs)

-- `(i < HS_AX25_MAX_CALLSIGN_STRING_LEN) && (str[i] == c)`
pub char_at : ℕ → List ℕ → ℕ → Option Bool
char_at i rest c =
    if ltb i max_callsign_string_len then (do x ← get_elem? rest 0; some (x == c)) else some false

unfoldable pub call_from_str : Call → List ℕ → Option Call
unfolding base_from ssid_from char_at
call_from_str call str = do
  (base, i, rest) ← base_from max_callsign_len call.base str
  separated ← char_at i rest b'-'
  (ssid, i', rest') ←
      if separated
      then (do (s, k, r) ← ssid_from max_ssid_string_len 0 (drop 1 rest); some (s, i + 1 + k, r))
      else some (0, i, rest)
  repeated ← char_at i' rest' b'*'
  some (record { base = base; ssid = ssid; is_repeated = if repeated then 1 else 0 })
