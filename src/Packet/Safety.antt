-- ===== src/Packet/Safety.antt =====
-- `hs_ax25_packet_unpack` on whatever bytes: it stays inside its arrays.
use modemstuff.Base.{
  ℕ, zero, suc, ◌+◌, ◌*◌, ◌-◌, ◌≤◌, ◌≡◌, refl, min, max, take, List, [], ◌∷◌, some, arith, length,
  length-drop, drop, get_elem?_total, All, ◌==◌, Bool-cases, inl, inr,
}
use modemstuff.Call.{Call}
use modemstuff.Call.Field
use modemstuff.Call.Safety.{call_unpack_total}
use modemstuff.Packet.{
  Packet, max_repeater_count, max_info_len, packet_unpack, unpack_repeaters, unpack_info,
}
use modemstuff.Packet.Shape.{HasArray, IsShaped, IsTerminated}

unpack_repeaters_total :
    (n is_last : ℕ) (rs : List Call) (inp : List ℕ)
    → n ≤ length rs
    → All HasArray rs
    → 7 * n ≤ length inp
    → (rs' : List Call) × ((count : ℕ) × ((rest : List ℕ) × (unpack_repeaters n is_last rs inp
            ≡ some (rs', count, rest))
          × All HasArray rs'
          × (length rs' ≡ length rs)
          × All Field.IsTerminated (take count rs')
          × (count ≤ n)
          × (length rest + 7 * count ≡ length inp)))
unfolding unpack_repeaters
unpack_repeaters_total zero is_last rs inp n h l =
    (rs, (0, (inp, refl, h, refl, tt, omega arith, omega arith)))
unpack_repeaters_total (suc n) is_last [] inp le h l = absurd (omega arith)
unpack_repeaters_total (suc n) is_last (r ∷ rs) inp le h l = elim (Bool-cases (is_last == 0)) [
  | inr done ↦ (r ∷ rs, (0, (inp, rw done, h, refl, tt, omega arith, omega arith)))
  | inl more ↦
      let (r', (last, e, ended)) = call_unpack_total r inp h.0 (omega arith) in
      let (rs', (count, (rest, f, arrays, len, all_ended, few, left))) =
        unpack_repeaters_total n last rs (drop 7 inp) (omega arith) h.1
          (omega (arith, length-drop 7 inp)) in
      (
        r' ∷ rs',
        (
          suc count,
          (
            rest,
            rw (more, e, f),
            (ended.array, arrays),
            omega arith,
            (ended, all_ended),
            omega arith,
            omega (arith, length-drop 7 inp),
          ),
        ),
      )
]

unpack_info_total :
    (n : ℕ) (info inp : List ℕ)
    → n ≤ length info
    → n ≤ length inp
    → (back : List ℕ) × (unpack_info n info inp ≡ some back) × (length back ≡ length info)
unfolding unpack_info
unpack_info_total zero info inp h l = (info, refl, refl)
unpack_info_total (suc n) [] inp h l = absurd (omega arith)
unpack_info_total (suc n) (i ∷ info) [] h l = absurd (omega arith)
unpack_info_total (suc n) (i ∷ info) (x ∷ inp) h l =
    let (back, e, len) = unpack_info_total n info inp (omega arith) (omega arith) in
    (x ∷ back, rw e, omega arith)

-- Whatever an input of at least 72 bytes holds, unpacking any number of them that it has, into
-- arrays of the right sizes, gives a packet whose arrays have the right sizes, whose addresses have
-- a terminator and whose counts lie within the arrays: packed, it takes at most as many bytes, or 74.
pub packet_unpack_total :
    (pkt : Packet) (inp : List ℕ) (inp_len : ℕ)
    → IsShaped pkt
    → 72 ≤ length inp
    → inp_len ≤ length inp
    → (back : Packet) × (packet_unpack pkt inp inp_len ≡ some back)
      × IsShaped back
      × IsTerminated back
      × (18 + 7 * back.repeater_count + back.info_len ≤ max inp_len 74)
unfolding packet_unpack
packet_unpack_total pkt inp inp_len o long l =
    let (dest, (first, e, dest_ended)) =
      call_unpack_total pkt.dest inp o.dest_array (omega arith) in
    let (src, (last, f, src_ended)) =
      call_unpack_total pkt.src (drop 7 inp) o.src_array (omega (arith, length-drop 7 inp)) in
    let (rs, (count, (rest, g, arrays, len, ended, few, left))) =
      unpack_repeaters_total max_repeater_count last pkt.repeaters (drop 14 inp)
        (omega (arith, o.repeater_array)) o.repeater_arrays (omega (arith, length-drop 14 inp)) in
    let (control, h) = get_elem?_total rest 0 (omega (arith, length-drop 14 inp)) in
    let (protocol, k) = get_elem?_total rest 1 (omega (arith, length-drop 14 inp)) in
    let j = min (inp_len - 2 - (16 + 7 * count)) max_info_len in
    let (info, m, info_len) =
      unpack_info_total j pkt.info (drop 2 rest) (omega (arith, o.info_array))
        (omega (arith, length-drop 2 rest, length-drop 14 inp)) in
    let back : Packet = record {
      dest = dest;
      src = src;
      repeaters = rs;
      repeater_count = count;
      control = control;
      protocol = protocol;
      info = info;
      info_len = j;
    } in
    (
      back,
      rw (e, f, g, h, k, m),
      record {
        dest_array = dest_ended.array;
        src_array = src_ended.array;
        repeater_arrays = arrays;
        repeater_array = omega (arith, o.repeater_array);
        info_array = omega (arith, o.info_array);
      },
      record {
        terminated_dest = dest_ended;
        terminated_src = src_ended;
        repeaters_fit = few;
        repeater_array = omega (arith, o.repeater_array);
        terminated_repeaters = ended;
        info_array = omega (arith, o.info_array);
        info_fits = omega arith;
      },
      omega arith,
    )
