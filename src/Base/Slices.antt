-- ===== src/Base/Slices.antt =====
-- Parts of lists that are cut and put together.
use Prim.Native.Nat.{ℕ, zero, suc, ◌+◌, ◌-◌, ◌≤◌}
use mathlib.Core.Path.{◌≡◌, refl, ap, ◌∙◌}
use mathlib.Core.List.{List, [], ◌∷◌, ◌++◌, append-nil}
use native.Mathlib.Omega.{arith}
use modemstuff.Base.Lists.{length, take, drop}

module _ {ℓ} {A : Type ℓ} where
  pub take-drop : (o s k : ℕ) (xs : List A) → k ≡ o + s → take s (drop o xs) ≡ drop o (take k xs)
  take-drop zero s k xs e = let same : s ≡ k = omega arith in rw same refl
  take-drop (suc o) s zero xs e = absurd (omega arith)
  take-drop (suc o) zero (suc k) [] e = refl
  take-drop (suc o) (suc s) (suc k) [] e = refl
  take-drop (suc o) s (suc k) (x ∷ xs) e = take-drop o s k xs (omega arith)

  pub drop-drop : (o s k : ℕ) (xs : List A) → k ≡ o + s → drop s (drop o xs) ≡ drop k xs
  drop-drop zero s k xs e = let same : s ≡ k = omega arith in rw same refl
  drop-drop (suc o) s zero xs e = absurd (omega arith)
  drop-drop (suc o) zero (suc k) [] e = refl
  drop-drop (suc o) (suc s) (suc k) [] e = refl
  drop-drop (suc o) s (suc k) (x ∷ xs) e = drop-drop o s k xs (omega arith)

  pub take_nothing : (n : ℕ) → take {A = A} n [] ≡ []
  take_nothing zero = refl
  take_nothing (suc n) = refl

  drop_nothing : (n : ℕ) (ys : List A) → drop n ys ≡ drop {A = A} n [] ++ drop n ys
  drop_nothing zero ys = refl
  drop_nothing (suc n) ys = refl

  pub take-append :
      (n : ℕ) (xs ys : List A) → take n (xs ++ ys) ≡ take n xs ++ take (n - length xs) ys
  take-append n [] ys = let same : n - 0 ≡ n = omega arith in rw (same, take_nothing n) refl
  take-append zero (x ∷ xs) ys = let same : 0 - length (x ∷ xs) ≡ 0 = omega arith in rw same refl
  take-append (suc n) (x ∷ xs) ys =
      let same : suc n - length (x ∷ xs) ≡ n - length xs = omega arith in
      rw same (ap (λ u. x ∷ u) (take-append n xs ys))

  pub drop-append :
      (n : ℕ) (xs ys : List A) → drop n (xs ++ ys) ≡ drop n xs ++ drop (n - length xs) ys
  drop-append n [] ys = let same : n - 0 ≡ n = omega arith in rw same (drop_nothing n ys)
  drop-append zero (x ∷ xs) ys = let same : 0 - length (x ∷ xs) ≡ 0 = omega arith in rw same refl
  drop-append (suc n) (x ∷ xs) ys =
      let same : suc n - length (x ∷ xs) ≡ n - length xs = omega arith in
      rw same (drop-append n xs ys)

  pub take-take : (n m : ℕ) (xs : List A) → n ≤ m → take n (take m xs) ≡ take n xs
  take-take zero m xs h = refl
  take-take (suc n) zero xs h = absurd (omega arith)
  take-take (suc n) (suc m) [] h = refl
  take-take (suc n) (suc m) (x ∷ xs) h = ap (λ u. x ∷ u) (take-take n m xs (omega arith))

  -- A part of the first list, and more than it.
  pub take_within : (n : ℕ) (xs ys : List A) → n ≤ length xs → take n (xs ++ ys) ≡ take n xs
  take_within n xs ys h =
      let none_left : n - length xs ≡ 0 = omega arith in
      take-append n xs ys ∙ rw none_left (append-nil (take n xs))

  pub drop_within : (n : ℕ) (xs ys : List A) → n ≤ length xs → drop n (xs ++ ys) ≡ drop n xs ++ ys
  drop_within n xs ys h =
      let none_left : n - length xs ≡ 0 = omega arith in drop-append n xs ys ∙ rw none_left refl

  pub take_past : (n : ℕ) (xs : List A) → length xs ≤ n → take n xs ≡ xs
  take_past n [] h = take_nothing n
  take_past zero (x ∷ xs) h = absurd (omega arith)
  take_past (suc n) (x ∷ xs) h = ap (λ u. x ∷ u) (take_past n xs (omega arith))

  pub drop_past : (n : ℕ) (xs : List A) → length xs ≤ n → drop n xs ≡ []
  drop_past zero [] h = refl
  drop_past (suc n) [] h = refl
  drop_past zero (x ∷ xs) h = absurd (omega arith)
  drop_past (suc n) (x ∷ xs) h = drop_past n xs (omega arith)

  pub take_beyond :
      (n : ℕ) (xs ys : List A) → length xs ≤ n → take n (xs ++ ys) ≡ xs ++ take (n - length xs) ys
  take_beyond n xs ys h =
      take-append n xs ys ∙ ap (λ u. u ++ take (n - length xs) ys) (take_past n xs h)

  pub drop_beyond :
      (n : ℕ) (xs ys : List A) → length xs ≤ n → drop n (xs ++ ys) ≡ drop (n - length xs) ys
  drop_beyond n xs ys h =
      drop-append n xs ys ∙ ap (λ u. u ++ drop (n - length xs) ys) (drop_past n xs h)

abbrev pub concat {ℓ} : {A : Type ℓ} → List (List A) → List A
concat [] = []
concat (xs ∷ xss) = xs ++ concat xss
