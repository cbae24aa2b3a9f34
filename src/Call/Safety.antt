-- ===== src/Call/Safety.antt =====
-- `hs_ax25_call_unpack` on whatever bytes: it stays inside its arrays.
use modemstuff.Base.{
  ℕ, zero, suc, ◌/◌, ◌%◌, ◌^◌, ◌≤◌, ◌<◌, ◌≡◌, refl, List, [], ◌∷◌, some, arith, length,
  get_elem?_total, ◌==◌, Bool-cases, inl, inr,
}
use modemstuff.Call.Field.{text, IsTerminated}
use modemstuff.Call.{Call, call_unpack, unpack_base, max_callsign_len}

unpack_base_total :
    (rounds : ℕ) (base inp : List ℕ)
    → rounds < length base
    → rounds ≤ length inp
    → (back : List ℕ) × (unpack_base rounds base inp ≡ some back)
      × (length back ≡ length base)
      × (length (text back) ≤ rounds)
unfolding unpack_base
unpack_base_total zero [] inp h l = absurd (omega arith)
unpack_base_total zero (b ∷ bs) inp h l = (0 ∷ bs, refl, refl, omega arith)
unpack_base_total (suc rounds) [] inp h l = absurd (omega arith)
unpack_base_total (suc rounds) (b ∷ bs) [] h l = absurd (omega arith)
unpack_base_total (suc rounds) (b ∷ bs) (x ∷ xs) h l =
    let c = x / 2 % 2 ^ 7 in
    let (rest, e, len, short) = unpack_base_total rounds bs xs (omega arith) (omega arith) in
    elim (Bool-cases (c == b' ')) [
      | inl space ↦ (0 ∷ bs, rw space, refl, omega arith)
      | inr letter ↦ (c ∷ rest, rw (letter, e), omega arith, ground arith)
    ]

pub call_unpack_total :
    (call : Call) (inp : List ℕ)
    → length call.base ≡ 7
    → 7 ≤ length inp
    → (back : Call) × ((is_last : ℕ) × (call_unpack call inp ≡ some (back, is_last))
        × IsTerminated back)
unfolding call_unpack
call_unpack_total call inp h l =
    let (base, e, len, short) =
      unpack_base_total max_callsign_len call.base inp (omega arith) (omega arith) in
    let (meta, f) = get_elem?_total inp max_callsign_len (omega arith) in
    let back : Call = record {
      base = base;
      ssid = meta / 2 % 2 ^ 4;
      is_repeated = meta / 2 ^ 7 % 2;
    } in
    let terminated : IsTerminated back = record {
      array = omega arith;
      short = short;
      ssid_nibble = omega arith;
      repeated_bit = omega arith;
    } in
    (back, (meta % 2, rw (e, f), terminated))
