-- ===== src/Packet/RoundTrip.antt =====
-- `hs_ax25_packet_pack` and `hs_ax25_packet_unpack` as inverses.
use modemstuff.Base.{
  ℕ, ◌+◌, ◌-◌, ◌*◌, ◌≤◌, ◌≡◌, refl, sym, ◌∙◌, min, List, [], ◌∷◌, ◌++◌, append_assoc, some, arith,
  length, length-append, length-take, length-drop, take, take_at, drop, drop_at, read_n-take, All,
  All-append, IsByte,
}
use modemstuff.Call.{Call, call_pack, call_unpack}
use modemstuff.Call.Packed.{call_unpack-call_pack, Same}
use modemstuff.Packet.{
  Packet, last_mark, max_repeater_count, max_info_len, packet_pack, packet_unpack, unpack_info,
}
use modemstuff.Packet.Repeaters.{IsRead, repeaters_lem, last_mark-lt}
use modemstuff.Packet.Shape.{IsValid, IsShaped, HasArray, SamePacket, trailer}

unpack_info-append :
    (xs old rest : List ℕ)
    → length xs ≤ length old
    → unpack_info (length xs) old (xs ++ rest) ≡ some (xs ++ drop (length xs) old)
unfolding unpack_info
unpack_info-append [] old rest h = refl
unpack_info-append (x ∷ xs) [] rest h = absurd (omega arith)
unpack_info-append (x ∷ xs) (o ∷ os) rest h = rw (unpack_info-append xs os rest (omega arith))

-- The parts of the frame of `pkt`, with what reading each back into `old` gives.
record Parts (pkt old : Packet) : Type 0 where
  dest_bytes : List ℕ
  src_bytes : List ℕ
  rep_bytes : List ℕ
  dest : Call
  src : Call
  reps : List Call
  dest_packed : call_pack pkt.dest 0 ≡ some dest_bytes
  dest_len : length dest_bytes ≡ 7
  dest_all : All IsByte dest_bytes
  dest_read : (more : List ℕ) → call_unpack old.dest (dest_bytes ++ more) ≡ some (dest, 0)
  dest_same : Same pkt.dest dest
  dest_array : HasArray dest
  src_packed : call_pack pkt.src (last_mark pkt.repeater_count) ≡ some src_bytes
  src_len : length src_bytes ≡ 7
  src_all : All IsByte src_bytes
  src_read :
      (more : List ℕ)
      → call_unpack old.src (src_bytes ++ more) ≡ some (src, last_mark pkt.repeater_count)
  src_same : Same pkt.src src
  src_array : HasArray src
  reps_read :
      IsRead max_repeater_count pkt.repeater_count pkt.repeaters old.repeaters rep_bytes reps
  info_len : length (take pkt.info_len pkt.info) ≡ pkt.info_len
  info_room : pkt.info_len ≤ length old.info

parts : (pkt old : Packet) → IsValid pkt → IsShaped old → Parts pkt old
parts pkt old v o =
    let n = pkt.repeater_count in
    let (db, d_packed, d_len, d_bytes, (d, d_read, d_same, d_array)) =
      call_unpack-call_pack pkt.dest old.dest 0 v.valid_dest o.dest_array (omega arith) in
    let (sb, s_packed, s_len, s_bytes, (s, s_read, s_same, s_array)) =
      call_unpack-call_pack pkt.src old.src (last_mark n) v.valid_src o.src_array
        (last_mark-lt n) in
    let (rb, (rs, r)) =
      repeaters_lem max_repeater_count n pkt.repeaters old.repeaters v.repeaters_fit
        (omega (arith, o.repeater_array)) (omega (arith, v.repeaters_fit, v.repeater_array))
        v.valid_repeaters o.repeater_arrays in
    record {
      dest_bytes = db;
      src_bytes = sb;
      rep_bytes = rb;
      dest = d;
      src = s;
      reps = rs;
      dest_packed = d_packed;
      dest_len = d_len;
      dest_all = d_bytes;
      dest_read = d_read;
      dest_same = d_same;
      dest_array = d_array;
      src_packed = s_packed;
      src_len = s_len;
      src_all = s_bytes;
      src_read = s_read;
      src_same = s_same;
      src_array = s_array;
      reps_read = r;
      info_len = length-take pkt.info_len pkt.info (omega (arith, v.info_fits, v.info_array));
      info_room = omega (arith, v.info_fits, o.info_array);
    }

module _ (pkt old : Packet) (v : IsValid pkt) (o : IsShaped old) (ps : Parts pkt old) where
  abbrev info : List ℕ
  info = take pkt.info_len pkt.info

  abbrev body : List ℕ
  body = ps.dest_bytes ++ (ps.src_bytes ++ (ps.rep_bytes ++ (pkt.control ∷ pkt.protocol ∷ info)))

  abbrev assembled : Packet
  assembled = record {
    dest = ps.dest;
    src = ps.src;
    repeaters = ps.reps;
    repeater_count = pkt.repeater_count;
    control = pkt.control;
    protocol = pkt.protocol;
    info = info ++ drop (length info) old.info;
    info_len = pkt.info_len;
  }

  packet_pack-body : packet_pack pkt ≡ some (body ++ trailer body)
  unfolding packet_pack
  packet_pack-body = rw (
    ps.dest_packed,
    ps.src_packed,
    ps.reps_read.packed,
    read_n-take pkt.info_len pkt.info (omega (arith, v.info_fits, v.info_array)),
  )

  length-body : length body ≡ 16 + 7 * pkt.repeater_count + pkt.info_len
  length-body =
      let tail = pkt.control ∷ pkt.protocol ∷ info in
      omega (
        arith,
        length-append ps.dest_bytes (ps.src_bytes ++ (ps.rep_bytes ++ tail)),
        length-append ps.src_bytes (ps.rep_bytes ++ tail),
        length-append ps.rep_bytes tail,
        ps.dest_len,
        ps.src_len,
        ps.reps_read.packed_len,
        ps.info_len,
      )

  body-bytes : All IsByte body
  body-bytes = All-append IsByte ps.dest_bytes _ ps.dest_all (
      All-append IsByte ps.src_bytes _ ps.src_all (
        All-append IsByte ps.rep_bytes _ ps.reps_read.packed_bytes
          (v.control_byte, (v.protocol_byte, v.info_bytes))))

  packet_unpack-body :
      (rest : List ℕ)
      → packet_unpack old ((body ++ trailer body) ++ rest) (length body + 2) ≡ some assembled
  unfolding packet_unpack
  packet_unpack-body rest =
      let last = trailer body ++ rest in
      let tail = pkt.control ∷ pkt.protocol ∷ (info ++ last) in
      let flat : (body ++ trailer body) ++ rest
          ≡ ps.dest_bytes ++ (ps.src_bytes ++ (ps.rep_bytes ++ tail)) =
        simp append_assoc in
      let heads : drop 14 (ps.dest_bytes ++ (ps.src_bytes ++ (ps.rep_bytes ++ tail)))
          ≡ ps.rep_bytes ++ tail =
        rw (← append_assoc ps.dest_bytes ps.src_bytes (ps.rep_bytes ++ tail)) (
          drop_at 14 (ps.dest_bytes ++ ps.src_bytes) _
            (omega (arith, ps.dest_len, ps.src_len, length-append ps.dest_bytes ps.src_bytes))) in
      let left : min (length body + 2 - 2 - (16 + 7 * pkt.repeater_count)) max_info_len
          ≡ length info =
        omega (arith, length-body, v.info_fits, ps.info_len) in
      rw (
        flat,
        ps.dest_read (ps.src_bytes ++ (ps.rep_bytes ++ tail)),
        drop_at 7 ps.dest_bytes (ps.src_bytes ++ (ps.rep_bytes ++ tail)) ps.dest_len,
        ps.src_read (ps.rep_bytes ++ tail),
        heads,
        ps.reps_read.read tail,
        left,
        unpack_info-append info old.info last (omega (arith, ps.info_len, ps.info_room)),
        ps.info_len,
      )

  assembled-SamePacket : SamePacket pkt assembled
  assembled-SamePacket = record {
    same_dest = ps.dest_same;
    same_src = ps.src_same;
    same_count = refl;
    same_repeaters = ps.reps_read.same;
    same_control = refl;
    same_protocol = refl;
    same_len = refl;
    same_info = sym (take_at pkt.info_len info (drop (length info) old.info) ps.info_len);
  }

  assembled-IsShaped : IsShaped assembled
  assembled-IsShaped = record {
    dest_array = ps.dest_array;
    src_array = ps.src_array;
    repeater_arrays = ps.reps_read.arrays;
    repeater_array = ps.reps_read.array ∙ o.repeater_array;
    info_array = omega (
      arith,
      length-append info (drop (length info) old.info),
      length-drop (length info) old.info,
      ps.info_len,
      ps.info_room,
      o.info_array,
    );
  }

-- A frame of `pkt`, and what reading it back into `old` gives.
pub record IsFramed (pkt old : Packet) (body : List ℕ) (back : Packet) : Type 0 where
  pub packed : packet_pack pkt ≡ some (body ++ trailer body)
  pub body_len : length body ≡ 16 + 7 * pkt.repeater_count + pkt.info_len
  pub body_bytes : All IsByte body
  pub read :
      (rest : List ℕ)
      → packet_unpack old ((body ++ trailer body) ++ rest) (length body + 2) ≡ some back
  pub same : SamePacket pkt back
  pub shaped : IsShaped back

-- A valid packet packs without a fault, into a body of bytes of the length of its parts and the
-- check sequence of that body, low byte first. Unpacking that, whatever follows it and whatever the
-- destination's arrays held, gives a packet with the same addresses, repeaters, control, protocol
-- and info.
pub packet_unpack-packet_pack :
    (pkt old : Packet)
    → IsValid pkt
    → IsShaped old
    → (body : List ℕ) × ((back : Packet) × IsFramed pkt old body back)
packet_unpack-packet_pack pkt old v o =
    let ps = parts pkt old v o in
    (
      body pkt old v o ps,
      (
        assembled pkt old v o ps,
        record {
          packed = packet_pack-body pkt old v o ps;
          body_len = length-body pkt old v o ps;
          body_bytes = body-bytes pkt old v o ps;
          read = packet_unpack-body pkt old v o ps;
          same = assembled-SamePacket pkt old v o ps;
          shaped = assembled-IsShaped pkt old v o ps;
        },
      ),
    )
