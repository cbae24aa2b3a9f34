-- ===== src/LinkedBuffer/Copy.antt =====
-- Copies within an array.
use modemstuff.Base.{
  ℕ, zero, suc, ◌+◌, ◌≤◌, ◌≡◌, refl, ap, List, [], ◌∷◌, ◌++◌, some, arith, length, take,
}
use modemstuff.LinkedBuffer.{store_at}

pub store_at_lem :
    (data' : List ℕ) (i : ℕ) (xs : List ℕ) (k : ℕ)
    → k ≡ i + length xs
    → k ≤ length data'
    → (stored : List ℕ) × (store_at data' i xs ≡ some stored)
      × (length stored ≡ length data')
      × (take k stored ≡ take i data' ++ xs)
unfolding store_at
store_at_lem ds zero [] k e h = (ds, refl, refl, let z : k ≡ 0 = omega arith in rw z refl)
store_at_lem [] zero (x ∷ xs) k e h = absurd (omega arith)
store_at_lem (d ∷ ds) zero (x ∷ xs) zero e h = absurd (omega arith)
store_at_lem (d ∷ ds) zero (x ∷ xs) (suc k) e h =
    let (stored, f, len, t) = store_at_lem ds zero xs k (omega arith) (omega arith) in
    (x ∷ stored, rw f, omega arith, ap (λ u. x ∷ u) t)
store_at_lem [] (suc i) xs k e h = absurd (omega arith)
store_at_lem (d ∷ ds) (suc i) xs zero e h = absurd (omega arith)
store_at_lem (d ∷ ds) (suc i) xs (suc k) e h =
    let (stored, f, len, t) = store_at_lem ds i xs k (omega arith) (omega arith) in
    (d ∷ stored, rw f, omega arith, ap (λ u. d ∷ u) t)
