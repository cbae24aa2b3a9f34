-- ===== src/Packet/Packing.antt =====
-- `hs_ax25_packet_pack` on any packet whose addresses have a terminator: the parts that it writes.
use modemstuff.Base.{
  ℕ, zero, suc, ◌+◌, ◌*◌, ◌≤◌, ◌≡◌, refl, List, [], ◌∷◌, ◌++◌, some, arith, length, length-append,
  length-take, read_n-take, take, All,
}
use modemstuff.Call.{Call}
use modemstuff.Call.Field
use modemstuff.Call.Field.{field, call_pack-field, length-field}
use modemstuff.Packet.{Packet, last_mark, pack_repeaters, packet_pack}
use modemstuff.Packet.Shape.{IsTerminated, trailer}

-- The addresses of so many repeaters.
abbrev pub fields : List Call → ℕ → List ℕ
fields rs zero = []
fields [] (suc n) = []
fields (r ∷ rs) (suc n) = field r (last_mark n) ++ fields rs n

pack_repeaters-fields :
    (rs : List Call) (n : ℕ)
    → n ≤ length rs
    → All Field.IsTerminated (take n rs)
    → (pack_repeaters rs n ≡ some (fields rs n)) × (length (fields rs n) ≡ 7 * n)
unfolding pack_repeaters
pack_repeaters-fields rs zero h v = (refl, refl)
pack_repeaters-fields [] (suc n) h v = absurd (omega arith)
pack_repeaters-fields (r ∷ rs) (suc n) h v =
    let (e, l) = pack_repeaters-fields rs n (omega arith) v.1 in
    (
      rw (call_pack-field r (last_mark n) v.0, e),
      omega (
        arith,
        length-append (field r (last_mark n)) (fields rs n),
        length-field r (last_mark n) v.0,
      ),
    )

abbrev pub rest_of : Packet → List ℕ
rest_of pkt =
    fields pkt.repeaters pkt.repeater_count
    ++ (pkt.control ∷ pkt.protocol ∷ take pkt.info_len pkt.info)

abbrev pub body_of : Packet → List ℕ
body_of pkt = field pkt.dest 0 ++ (field pkt.src (last_mark pkt.repeater_count) ++ rest_of pkt)

length-rest_of :
    (pkt : Packet)
    → IsTerminated pkt
    → length (rest_of pkt) ≡ 7 * pkt.repeater_count + 2 + pkt.info_len
length-rest_of pkt v =
    let fits : pkt.info_len ≤ length pkt.info = omega (arith, v.info_fits, v.info_array) in
    let (reps, len) =
      pack_repeaters-fields pkt.repeaters pkt.repeater_count
        (omega (arith, v.repeaters_fit, v.repeater_array)) v.terminated_repeaters in
    omega (
      arith,
      length-append (fields pkt.repeaters pkt.repeater_count)
          (pkt.control ∷ pkt.protocol ∷ take pkt.info_len pkt.info),
      len,
      length-take pkt.info_len pkt.info fits,
    )

-- The packed packet, and the lengths of the part behind two addresses and of the whole.
pub packet_pack-body_of :
    (pkt : Packet)
    → IsTerminated pkt
    → (packet_pack pkt ≡ some (body_of pkt ++ trailer (body_of pkt)))
      × (length (rest_of pkt) ≡ 7 * pkt.repeater_count + 2 + pkt.info_len)
      × (length (body_of pkt ++ trailer (body_of pkt)) ≡ 18 + 7 * pkt.repeater_count + pkt.info_len)
unfolding packet_pack
packet_pack-body_of pkt v =
    let fits : pkt.info_len ≤ length pkt.info = omega (arith, v.info_fits, v.info_array) in
    let info = read_n-take pkt.info_len pkt.info fits in
    let (reps, len) =
      pack_repeaters-fields pkt.repeaters pkt.repeater_count
        (omega (arith, v.repeaters_fit, v.repeater_array)) v.terminated_repeaters in
    let src = field pkt.src (last_mark pkt.repeater_count) in
    (
      rw (
        call_pack-field pkt.dest 0 v.terminated_dest,
        call_pack-field pkt.src (last_mark pkt.repeater_count) v.terminated_src,
        reps,
        info,
      ),
      length-rest_of pkt v,
      omega (
        arith,
        length-append (body_of pkt) (trailer (body_of pkt)),
        length-append (field pkt.dest 0) (src ++ rest_of pkt),
        length-append src (rest_of pkt),
        length-field pkt.dest 0 v.terminated_dest,
        length-field pkt.src (last_mark pkt.repeater_count) v.terminated_src,
        length-rest_of pkt v,
      ),
    )
