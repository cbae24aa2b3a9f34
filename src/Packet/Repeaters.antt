-- ===== src/Packet/Repeaters.antt =====
-- The repeater loops of `hs_ax25_packet_pack` and `hs_ax25_packet_unpack` as inverses.
use modemstuff.Base.{
  ℕ, zero, suc, ◌*◌, ◌≤◌, ◌<◌, ◌≡◌, refl, ap, List, [], ◌∷◌, ◌++◌, append_assoc, some, arith,
  length, length-append, take, drop_at, All, All-append, IsByte,
}
use modemstuff.Call.{Call}
use modemstuff.Call.Packed
use modemstuff.Call.Packed.{call_unpack-call_pack, Same}
use modemstuff.Packet.{last_mark, pack_repeaters, unpack_repeaters}
use modemstuff.Packet.Shape.{HasArray, AllSame}

pub last_mark-lt : (n : ℕ) → last_mark n < 2
last_mark-lt n = ground arith

last_mark-suc : (n : ℕ) → last_mark (suc n) ≡ 0
last_mark-suc n = ground arith

-- What packing some repeaters and reading them back gives.
pub record IsRead (rounds count : ℕ) (reps olds : List Call) (bytes : List ℕ) (back : List Call)
    : Type 0 where
  pub packed : pack_repeaters reps count ≡ some bytes
  pub packed_len : length bytes ≡ 7 * count
  pub packed_bytes : All IsByte bytes
  pub read :
      (rest : List ℕ)
      → unpack_repeaters rounds (last_mark count) olds (bytes ++ rest) ≡ some (back, count, rest)
  pub same : AllSame (take count reps) (take count back)
  pub arrays : All HasArray back
  pub array : length back ≡ length olds

pub repeaters_lem :
    (rounds count : ℕ) (reps olds : List Call)
    → count ≤ rounds
    → rounds ≤ length olds
    → count ≤ length reps
    → All Packed.IsValid (take count reps)
    → All HasArray olds
    → (bytes : List ℕ) × ((back : List Call) × IsRead rounds count reps olds bytes back)
unfolding pack_repeaters unpack_repeaters
repeaters_lem zero zero reps olds a b c v h = (
  [],
  (
    olds,
    record {
      packed = refl;
      packed_len = refl;
      packed_bytes = tt;
      read = λ rest. refl;
      same = tt;
      arrays = h;
      array = refl;
    },
  ),
)
repeaters_lem (suc k) zero reps [] a b c v h = absurd (omega arith)
repeaters_lem (suc k) zero reps (o ∷ os) a b c v h = (
  [],
  (
    o ∷ os,
    record {
      packed = refl;
      packed_len = refl;
      packed_bytes = tt;
      read = λ rest. refl;
      same = tt;
      arrays = h;
      array = refl;
    },
  ),
)
repeaters_lem zero (suc n) reps olds a b c v h = absurd (omega arith)
repeaters_lem (suc k) (suc n) [] olds a b c v h = absurd (omega arith)
repeaters_lem (suc k) (suc n) (r ∷ rs) [] a b c v h = absurd (omega arith)
repeaters_lem (suc k) (suc n) (r ∷ rs) (o ∷ os) a b c v h =
    let (later, (backs, ih)) =
      repeaters_lem k n rs os (omega arith) (omega arith) (omega arith) v.1 h.1 in
    let (bytes, packed, len, field_bytes, (back, read, same, array)) =
      call_unpack-call_pack r o (last_mark n) v.0 h.0 (last_mark-lt n) in
    (
      bytes ++ later,
      (
        back ∷ backs,
        record {
          packed = rw (packed, ih.packed);
          packed_len = omega (arith, length-append bytes later, len, ih.packed_len);
          packed_bytes = All-append IsByte bytes later field_bytes ih.packed_bytes;
          read = λ rest. rw (last_mark-suc n) (
              rw (
                append_assoc bytes later rest,
                read (later ++ rest),
                drop_at 7 bytes (later ++ rest) len,
                ih.read rest,
              ));
          same = (same, ih.same);
          arrays = (array, ih.arrays);
          array = ap suc ih.array;
        },
      ),
    )
