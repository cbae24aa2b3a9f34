-- ===== src/Packet/Same.antt =====
-- Packets that say the same pack to the same bytes.
use modemstuff.Base.{
  ℕ, zero, suc, ◌≤◌, ◌≡◌, refl, sym, ap, ◌∙◌, List, [], ◌∷◌, some, arith, All, length, take, read_n,
  read_n-take,
}
use modemstuff.Call.{Call, call_pack}
use modemstuff.Call.Packed
use modemstuff.Call.Field.{call_pack-field}
use modemstuff.Call.Packed.{Same, Same-IsValid, IsValid-IsTerminated}
use modemstuff.Packet.{Packet, last_mark, packet_pack, pack_repeaters}
use modemstuff.Packet.Shape.{IsValid, IsShaped, HasArray, AllSame, SamePacket}

call_pack-Same :
    (a b : Call) (is_last : ℕ)
    → Packed.IsValid a
    → Packed.IsValid b
    → Same a b
    → call_pack a is_last ≡ call_pack b is_last
call_pack-Same a b is_last v w s =
    call_pack-field a is_last (IsValid-IsTerminated v)
    ∙ rw (s.same_text, s.same_ssid, s.same_repeated) refl
    ∙ sym (call_pack-field b is_last (IsValid-IsTerminated w))

AllSame-IsValid :
    (xs ys : List Call)
    → AllSame xs ys
    → All Packed.IsValid xs
    → All HasArray ys
    → All Packed.IsValid ys
AllSame-IsValid [] [] s v h = tt
AllSame-IsValid [] (y ∷ ys) s v h = absurd s
AllSame-IsValid (x ∷ xs) [] s v h = absurd s
AllSame-IsValid (x ∷ xs) (y ∷ ys) s v h =
    (Same-IsValid s.0 h.0 v.0, AllSame-IsValid xs ys s.1 v.1 h.1)

All-take : (P : Call → Type 0) (n : ℕ) (xs : List Call) → All P xs → All P (take n xs)
All-take P zero xs h = tt
All-take P (suc n) [] h = tt
All-take P (suc n) (x ∷ xs) h = (h.0, All-take P n xs h.1)

pack_repeaters-AllSame :
    (n : ℕ) (xs ys : List Call)
    → n ≤ length xs
    → n ≤ length ys
    → AllSame (take n xs) (take n ys)
    → All Packed.IsValid (take n xs)
    → All Packed.IsValid (take n ys)
    → pack_repeaters xs n ≡ pack_repeaters ys n
unfolding pack_repeaters
pack_repeaters-AllSame zero xs ys h k s v w = refl
pack_repeaters-AllSame (suc n) [] ys h k s v w = absurd (omega arith)
pack_repeaters-AllSame (suc n) (x ∷ xs) [] h k s v w = absurd (omega arith)
pack_repeaters-AllSame (suc n) (x ∷ xs) (y ∷ ys) h k s v w =
    rw
      (
        call_pack-Same x y (last_mark n) v.0 w.0 s.0,
        pack_repeaters-AllSame n xs ys (omega arith) (omega arith) s.1 v.1 w.1,
      )
      refl

pub SamePacket-IsValid : (a b : Packet) → IsValid a → IsShaped b → SamePacket a b → IsValid b
SamePacket-IsValid a b v o s = record {
  valid_dest = Same-IsValid s.same_dest o.dest_array v.valid_dest;
  valid_src = Same-IsValid s.same_src o.src_array v.valid_src;
  repeaters_fit = omega (arith, v.repeaters_fit, s.same_count);
  repeater_array = o.repeater_array;
  valid_repeaters =
      AllSame-IsValid _ _ s.same_repeaters v.valid_repeaters
        (All-take HasArray b.repeater_count b.repeaters o.repeater_arrays);
  control_byte = omega (arith, v.control_byte, s.same_control);
  protocol_byte = omega (arith, v.protocol_byte, s.same_protocol);
  info_array = o.info_array;
  info_fits = omega (arith, v.info_fits, s.same_len);
  info_bytes = rw s.same_info at v.info_bytes;
}

-- A valid packet, and one in arrays of the right sizes that says the same, pack to the same bytes.
pub packet_pack-SamePacket :
    (a b : Packet) → IsValid a → IsShaped b → SamePacket a b → packet_pack a ≡ packet_pack b
unfolding packet_pack
packet_pack-SamePacket a b v o s =
    let w = SamePacket-IsValid a b v o s in
    let n = b.repeater_count in
    let repeaters : pack_repeaters a.repeaters n ≡ pack_repeaters b.repeaters n =
      pack_repeaters-AllSame n a.repeaters b.repeaters
        (omega (arith, v.repeaters_fit, v.repeater_array, s.same_count))
        (omega (arith, w.repeaters_fit, w.repeater_array)) (rw s.same_count at s.same_repeaters)
        (rw s.same_count at v.valid_repeaters) w.valid_repeaters in
    let info : read_n a.info_len a.info ≡ read_n b.info_len b.info =
      read_n-take a.info_len a.info (omega (arith, v.info_fits, v.info_array))
      ∙ ap some s.same_info
      ∙ sym (read_n-take b.info_len b.info (omega (arith, w.info_fits, w.info_array))) in
    rw
      (
        s.same_count,
        call_pack-Same a.dest b.dest 0 v.valid_dest w.valid_dest s.same_dest,
        call_pack-Same a.src b.src (last_mark n) v.valid_src w.valid_src s.same_src,
        repeaters,
        info,
        s.same_control,
        s.same_protocol,
      )
      refl
