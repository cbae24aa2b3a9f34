-- ===== src/Packet/Tnc2.antt =====
-- `hs_ax25_packet_pack_tnc2` stays inside the buffers of 512 characters that its callers give it.
use modemstuff.Base.{
  ℕ, zero, suc, ◌*◌, ◌≤◌, ◌≡◌, refl, List, [], ◌∷◌, ◌++◌, some, arith, length, length-append,
  length-take, read_n-take, take, append_assoc, All,
}
use modemstuff.Call.{Call}
use modemstuff.Call.Field
use modemstuff.Call.Chars.{call_to_str-length}
use modemstuff.Packet.{Packet, tnc2_repeaters, packet_pack_tnc2}
use modemstuff.Packet.Shape.{IsTerminated}

tnc2_repeaters-length :
    (rs : List Call) (n : ℕ)
    → n ≤ length rs
    → All Field.IsTerminated (take n rs)
    → (str : List ℕ) × (tnc2_repeaters rs n ≡ some str) × (length str ≤ 11 * n)
unfolding tnc2_repeaters
tnc2_repeaters-length rs zero h v = ([], refl, omega arith)
tnc2_repeaters-length [] (suc n) h v = absurd (omega arith)
tnc2_repeaters-length (r ∷ rs) (suc n) h v =
    let (str, e, l) = call_to_str-length r v.0 in
    let (rest, f, m) = tnc2_repeaters-length rs n (omega arith) v.1 in
    (b',' ∷ (str ++ rest), rw (e, f), omega (arith, length-append str rest))

-- A packet whose addresses have a terminator and whose counts lie within the arrays gives its line without a fault, at most 366 characters, the last of which is the
-- terminator.
pub packet_pack_tnc2-length :
    (pkt : Packet)
    → IsTerminated pkt
    → (line : List ℕ) × (packet_pack_tnc2 pkt ≡ some (line ++ (0 ∷ [])))
      × (length (line ++ (0 ∷ [])) ≤ 366)
unfolding packet_pack_tnc2
packet_pack_tnc2-length pkt v =
    let (src, e, l) = call_to_str-length pkt.src v.terminated_src in
    let (dest, f, m) = call_to_str-length pkt.dest v.terminated_dest in
    let (reps, g, n) =
      tnc2_repeaters-length pkt.repeaters pkt.repeater_count
        (omega (arith, v.repeaters_fit, v.repeater_array)) v.terminated_repeaters in
    let info = take pkt.info_len pkt.info in
    let fits : pkt.info_len ≤ length pkt.info = omega (arith, v.info_fits, v.info_array) in
    let h = read_n-take pkt.info_len pkt.info fits in
    let line = src ++ (b'>' ∷ (dest ++ (reps ++ (b':' ∷ info)))) in
    (
      line,
      rw (e, f, g, h) (simp append_assoc),
      omega (
        arith,
        length-append line (0 ∷ []),
        length-append src (b'>' ∷ (dest ++ (reps ++ (b':' ∷ info)))),
        length-append dest (reps ++ (b':' ∷ info)),
        length-append reps (b':' ∷ info),
        length-take pkt.info_len pkt.info fits,
        v.repeaters_fit,
        v.info_fits,
      ),
    )
