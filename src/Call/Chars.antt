-- ===== src/Call/Chars.antt =====
-- The characters of a callsign: what each part of the string reads back as, and their number.
use modemstuff.Base.{
  ℕ, zero, suc, ◌+◌, ◌/◌, ◌%◌, ◌≤◌, ◌<◌, ◌≡◌, ◌≢◌, refl, ap, ◌⊎◌, inl, inr, true, false, List, [],
  ◌∷◌, ◌++◌, some, arith, length, length-append, drop, All, leb, ◌==◌, ==-false, Bool-cases,
  if◌then◌else◌,
}
use modemstuff.Call.{
  Call, base_chars, ssid_chars, marker, call_to_str, base_from, is_digit, ssid_from, char_at,
  call_from_str,
}
use modemstuff.Call.Field.{text, IsTerminated}
use modemstuff.Call.Packed.{IsLetter}

-- A letter that is not the separator.
abbrev pub IsNotDash : ℕ → Type 0
IsNotDash c = c ≢ b'-'

base_chars-text :
    (n : ℕ) (base : List ℕ)
    → length (text base) ≤ n
    → length (text base) < length base
    → base_chars n base ≡ some (text base)
unfolding base_chars
base_chars-text n [] h l = absurd (omega arith)
base_chars-text zero (c ∷ cs) h l = elim (Bool-cases (c == 0)) [
  | inl z ↦ rw z refl
  | inr m ↦ absurd (let k = rw m at h in omega arith)
]
base_chars-text (suc n) (c ∷ cs) h l = elim (Bool-cases (c == 0)) [
  | inl z ↦ rw z refl
  | inr m ↦
      let k = rw m at h in
      let j = rw m at l in rw (m, base_chars-text n cs (omega arith) (omega arith))
]

-- Letters up to one that ends them, or as many as fit.
pub base_from-append :
    (n : ℕ) (t base : List ℕ) (c : ℕ) (cs : List ℕ)
    → All IsLetter t
    → All IsNotDash t
    → length t ≤ n
    → n < length base
    → ((c ≡ 0) ⊎ (c ≡ b'-')) ⊎ (length t ≡ n)
    → base_from n base (t ++ (c ∷ cs))
      ≡ some (t ++ (0 ∷ drop (suc (length t)) base), length t, c ∷ cs)
unfolding base_from
base_from-append n t [] c cs i j h l e = absurd (omega arith)
base_from-append zero [] (b ∷ bs) c cs i j h l e = refl
base_from-append zero (x ∷ t) (b ∷ bs) c cs i j h l e = absurd (omega arith)
base_from-append (suc n) [] (b ∷ bs) c cs i j h l (inl (inl z)) = rw z
base_from-append (suc n) [] (b ∷ bs) c cs i j h l (inl (inr d)) = rw d
base_from-append (suc n) [] (b ∷ bs) c cs i j h l (inr e) = absurd (omega arith)
base_from-append (suc n) (x ∷ t) (b ∷ bs) c cs i j h l e =
    let e' : ((c ≡ 0) ⊎ (c ≡ b'-')) ⊎ (length t ≡ n) = elim e [
      | inl stop ↦ inl stop
      | inr full ↦ inr (omega arith)
    ] in
    rw
      (
        ==-false x 0 i.0.not_zero,
        ==-false x b'-' j.0,
        base_from-append n t bs c cs i.1 j.1 (omega arith) (omega arith) e',
      )
      (ap (λ (k : ℕ). some (x ∷ (t ++ (0 ∷ drop (suc (length t)) bs)), k, c ∷ cs)) (omega arith))

-- The digits of an SSID.
pub ssid_from-digits :
    (ssid c : ℕ) (cs : List ℕ)
    → ssid ≢ 0
    → ssid < 16
    → is_digit c ≡ false
    → (k : ℕ) × (k ≤ 2)
      × (ssid_from 2 0 (drop 1 (ssid_chars ssid) ++ (c ∷ cs)) ≡ some (ssid, k, c ∷ cs))
unfolding ssid_from
ssid_from-digits ssid c cs n l d = elim (Bool-cases (leb 10 ssid)) [
  | inl two ↦
      let first : is_digit (b'0' + ssid / 10) ≡ true = ground arith in
      let second : is_digit (b'0' + ssid % 10) ≡ true = ground arith in
      (
        2,
        omega arith,
        rw (==-false ssid 0 n, two, first, second)
            (ap (λ (v : ℕ). some (v, 2, c ∷ cs)) (omega arith)),
      )
  | inr one ↦
      let first : is_digit (b'0' + ssid) ≡ true = ground arith in
      (
        1,
        omega arith,
        rw (==-false ssid 0 n, one, first, d) (ap (λ (v : ℕ). some (v, 1, c ∷ cs)) (omega arith)),
      )
]

char_at-lt : (i c x : ℕ) (cs : List ℕ) → i < 10 → char_at i (c ∷ cs) x ≡ some (c == x)
unfolding char_at
char_at-lt i c x cs h = ground arith

-- Without an SSID.
pub from_str_plain :
    (old : Call) (str base cs : List ℕ) (i c : ℕ)
    → base_from 6 old.base str ≡ some (base, i, c ∷ cs)
    → i ≤ 6
    → c ≢ b'-'
    → call_from_str old str
      ≡ some (record { base = base; ssid = 0; is_repeated = if c == b'*' then 1 else 0 })
unfolding call_from_str
from_str_plain old str base cs i c e h n = rw (
  e,
  char_at-lt i c b'-' cs (omega arith),
  ==-false c b'-' n,
  char_at-lt i c b'*' cs (omega arith),
)

-- With one.
pub from_str_ssid :
    (old : Call) (str base xs cs : List ℕ) (i k ssid c : ℕ)
    → base_from 6 old.base str ≡ some (base, i, b'-' ∷ xs)
    → i ≤ 6
    → ssid_from 2 0 xs ≡ some (ssid, k, c ∷ cs)
    → k ≤ 2
    → call_from_str old str
      ≡ some (record { base = base; ssid = ssid; is_repeated = if c == b'*' then 1 else 0 })
unfolding call_from_str
from_str_ssid old str base xs cs i k ssid c e h f l =
    rw (
      e,
      char_at-lt i b'-' b'-' xs (omega arith),
      f,
      char_at-lt (i + 1 + k) c b'*' cs (omega arith),
    )

pub call_to_str-text :
    (call : Call)
    → IsTerminated call
    → call_to_str call ≡ some (text call.base ++ (ssid_chars call.ssid ++ marker call.is_repeated))
unfolding call_to_str
call_to_str-text call v =
    rw (base_chars-text 6 call.base (omega (arith, v.short)) (omega (arith, v.short, v.array)))

-- At most ten characters.
pub call_to_str-length :
    (call : Call)
    → IsTerminated call
    → (str : List ℕ) × (call_to_str call ≡ some str) × (length str ≤ 10)
call_to_str-length call v =
    let t = text call.base in
    let digits = ssid_chars call.ssid in
    let few : length digits ≤ 3 = ground arith in
    let one : length (marker call.is_repeated) ≤ 1 = ground arith in
    (
      _,
      call_to_str-text call v,
      omega (
        arith,
        length-append t (digits ++ marker call.is_repeated),
        length-append digits (marker call.is_repeated),
        v.short,
      ),
    )
