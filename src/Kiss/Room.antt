-- ===== src/Kiss/Room.antt =====
-- How many bytes the escapes of `hs_kiss_encode` take.
use modemstuff.Base.{
  ℕ, ◌+◌, ◌*◌, ◌≤◌, ◌≡◌, ◌≢◌, refl, List, [], ◌∷◌, ◌++◌, arith, length, length-append, some,
  take_all, read_n-take, ◌==◌, ==-false, Bool-cases, inl, inr,
}
use modemstuff.Kiss.{Message, kiss_end, kiss_esc, header, escape, encode}

pub escape-append : (xs ys : List ℕ) → escape (xs ++ ys) ≡ escape xs ++ escape ys
unfolding escape
escape-append [] ys = refl
escape-append (x ∷ xs) ys =
    let later = escape-append xs ys in
    elim (Bool-cases (x == kiss_end)) [
      | inl a ↦ rw (a, later) refl
      | inr n ↦ elim (Bool-cases (x == kiss_esc)) [
        | inl b ↦ rw (n, b, later) refl
        | inr m ↦ rw (n, m, later) refl
      ]
    ]

-- Every byte may need an escape.
pub length-escape : (xs : List ℕ) → length (escape xs) ≤ 2 * length xs
unfolding escape
length-escape [] = omega arith
length-escape (x ∷ xs) = ground (arith, length-escape xs)

-- A byte that needs none.
pub escape-plain : (x : ℕ) → x ≢ kiss_end → x ≢ kiss_esc → length (escape (x ∷ [])) ≡ 1
unfolding escape
escape-plain x n m = rw (==-false x kiss_end n, ==-false x kiss_esc m) refl

-- The frame of a message that uses its whole payload.
pub length-encode :
    (m : Message)
    → m.data_length ≡ length m.payload
    → (bytes : List ℕ) × (encode m ≡ some bytes) × (length bytes ≡ length (escape m.payload) + 3)
unfolding encode
length-encode m e =
    let whole = read_n-take (length m.payload) m.payload (omega arith) in
    (
      kiss_end ∷ header m ∷ (escape m.payload ++ (kiss_end ∷ [])),
      rw (e, whole, take_all m.payload) refl,
      omega (arith, length-append (escape m.payload) (kiss_end ∷ [])),
    )
