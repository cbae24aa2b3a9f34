-- ===== src/Base/Lists.antt =====
-- C arrays as lists measured and indexed by native numbers.
use Prim.Native.Nat.{ℕ, zero, suc, ◌+◌, ◌-◌, ◌≤◌, ◌<◌}
use mathlib.Core.Path.{◌≡◌, refl, ap, ◌∙◌}
use mathlib.Core.List.{List, [], ◌∷◌, ◌++◌, append-nil, append_assoc}
use mathlib.Core.Option.{Option, none, some}
use native.Mathlib.Numerals.{add-one}
use native.Mathlib.Omega.{arith}

module _ {ℓ} {A : Type ℓ} where
  abbrev pub length : List A → ℕ
  length [] = 0
  length (x ∷ xs) = suc (length xs)

  -- A read; `none` is a read out of bounds.
  abbrev pub get_elem? : List A → ℕ → Option A
  get_elem? [] i = none
  get_elem? (x ∷ xs) zero = some x
  get_elem? (x ∷ xs) (suc i) = get_elem? xs i

  -- A write; out of bounds it changes nothing.
  abbrev pub set : List A → ℕ → A → List A
  set [] i v = []
  set (x ∷ xs) zero v = v ∷ xs
  set (x ∷ xs) (suc i) v = x ∷ set xs i v

  abbrev pub take : ℕ → List A → List A
  take zero xs = []
  take (suc n) [] = []
  take (suc n) (x ∷ xs) = x ∷ take n xs

  -- The array from a pointer `&xs[n]` on.
  abbrev pub drop : ℕ → List A → List A
  drop zero xs = xs
  drop (suc n) [] = []
  drop (suc n) (x ∷ xs) = drop n xs

  abbrev pub replicate : ℕ → A → List A
  replicate zero a = []
  replicate (suc n) a = a ∷ replicate n a

  -- `n` reads in order; `none` as soon as one is out of bounds.
  abbrev pub read_n : ℕ → List A → Option (List A)
  read_n zero xs = some []
  read_n (suc n) [] = none
  read_n (suc n) (x ∷ xs) = elim (read_n n xs) [ none ↦ none | some ys ↦ some (x ∷ ys) ]

  pub length-append : (xs ys : List A) → length (xs ++ ys) ≡ length xs + length ys
  length-append [] ys = omega arith
  length-append (x ∷ xs) ys = omega (arith, length-append xs ys)

  pub length-set : (xs : List A) (i : ℕ) (v : A) → length (set xs i v) ≡ length xs
  length-set [] i v = refl
  length-set (x ∷ xs) zero v = refl
  length-set (x ∷ xs) (suc i) v = ap suc (length-set xs i v)

  pub length-take : (n : ℕ) (xs : List A) → n ≤ length xs → length (take n xs) ≡ n
  length-take zero xs h = refl
  length-take (suc n) [] h = absurd (omega arith)
  length-take (suc n) (x ∷ xs) h = ap suc (length-take n xs (omega arith))

  pub length-drop : (n : ℕ) (xs : List A) → length (drop n xs) ≡ length xs - n
  length-drop zero xs = omega arith
  length-drop (suc n) [] = omega arith
  length-drop (suc n) (x ∷ xs) = omega (arith, length-drop n xs)

  pub length-replicate : (n : ℕ) (a : A) → length (replicate n a) ≡ n
  length-replicate zero a = refl
  length-replicate (suc n) a = ap suc (length-replicate n a)

  pub replicate-add :
      (n m k : ℕ) (a : A) → k ≡ n + m → replicate k a ≡ replicate n a ++ replicate m a
  replicate-add zero m k a e = ap (λ (j : ℕ). replicate j a) (omega arith)
  replicate-add (suc n) m zero a e = absurd (omega arith)
  replicate-add (suc n) m (suc k) a e = ap (λ t. a ∷ t) (replicate-add n m k a (omega arith))

  pub take_all : (xs : List A) → take (length xs) xs ≡ xs
  take_all [] = refl
  take_all (x ∷ xs) = ap (λ t. x ∷ t) (take_all xs)

  pub take-append-drop : (n : ℕ) (xs : List A) → take n xs ++ drop n xs ≡ xs
  take-append-drop zero xs = refl
  take-append-drop (suc n) [] = refl
  take-append-drop (suc n) (x ∷ xs) = ap (λ t. x ∷ t) (take-append-drop n xs)

  pub take-length-append : (xs ys : List A) → take (length xs) (xs ++ ys) ≡ xs
  take-length-append [] ys = refl
  take-length-append (x ∷ xs) ys = ap (λ t. x ∷ t) (take-length-append xs ys)

  pub drop-length-append : (xs ys : List A) → drop (length xs) (xs ++ ys) ≡ ys
  drop-length-append [] ys = refl
  drop-length-append (x ∷ xs) ys = drop-length-append xs ys

  pub drop_at : (n : ℕ) (xs ys : List A) → length xs ≡ n → drop n (xs ++ ys) ≡ ys
  drop_at n xs ys e = rw (← e) (drop-length-append xs ys)

  pub take_at : (n : ℕ) (xs ys : List A) → length xs ≡ n → take n (xs ++ ys) ≡ xs
  take_at n xs ys e = rw (← e) (take-length-append xs ys)

  -- Storing at the end of the used part of an array extends it.
  pub take-set_end :
      (xs : List A) (n : ℕ) (v : A)
      → n < length xs
      → take (suc n) (set xs n v) ≡ take n xs ++ (v ∷ [])
  take-set_end [] n v h = absurd (omega arith)
  take-set_end (x ∷ xs) zero v h = refl
  take-set_end (x ∷ xs) (suc n) v h = ap (λ t. x ∷ t) (take-set_end xs n v (omega arith))

  pub read_n-take : (n : ℕ) (xs : List A) → n ≤ length xs → read_n n xs ≡ some (take n xs)
  read_n-take zero xs h = refl
  read_n-take (suc n) [] h = absurd (omega arith)
  read_n-take (suc n) (x ∷ xs) h = ground (arith, read_n-take n xs)

  pub get_elem?-append : (xs ys : List A) (v : A) → get_elem? (xs ++ (v ∷ ys)) (length xs) ≡ some v
  get_elem?-append [] ys v = refl
  get_elem?-append (x ∷ xs) ys v = get_elem?-append xs ys v

  pub get_elem?_at :
      (xs ys : List A) (v : A) (n : ℕ) → n ≡ length xs → get_elem? (xs ++ (v ∷ ys)) n ≡ some v
  get_elem?_at xs ys v n e =
      ap (λ (k : ℕ). get_elem? (xs ++ (v ∷ ys)) k) e ∙ get_elem?-append xs ys v

  pub set-append : (xs ys : List A) (u v : A) → set (xs ++ (u ∷ ys)) (length xs) v ≡ xs ++ (v ∷ ys)
  set-append [] ys u v = refl
  set-append (x ∷ xs) ys u v = ap (λ t. x ∷ t) (set-append xs ys u v)

  pub get_elem?_total : (xs : List A) (i : ℕ) → i < length xs → (v : A) × (get_elem? xs i ≡ some v)
  get_elem?_total [] i h = absurd (omega arith)
  get_elem?_total (x ∷ xs) zero h = (x, refl)
  get_elem?_total (x ∷ xs) (suc i) h = get_elem?_total xs i (omega arith)

module _ {ℓ} {A : Type ℓ} where
  -- What a run of stores makes of the array.
  abbrev pub fill : List A → ℕ → List A → List A
  fill buf pos [] = buf
  fill buf pos (x ∷ xs) = fill (set buf pos x) (pos + 1) xs

  pub length-fill : (buf : List A) (pos : ℕ) (xs : List A) → length (fill buf pos xs) ≡ length buf
  length-fill buf pos [] = refl
  length-fill buf pos (x ∷ xs) = length-fill (set buf pos x) (pos + 1) xs ∙ length-set buf pos x

  pub take-fill :
      (buf : List A) (pos end : ℕ) (xs : List A)
      → pos + length xs ≡ end
      → end ≤ length buf
      → take end (fill buf pos xs) ≡ take pos buf ++ xs
  take-fill buf pos end [] e h =
      let e' : end ≡ pos = omega arith in rw (e', append-nil (take pos buf))
  take-fill buf pos end (x ∷ xs) e h =
      take-fill (set buf pos x) (pos + 1) end xs (omega arith) (omega (arith, length-set buf pos x))
      ∙ rw (add-one, take-set_end buf pos x (omega arith), append_assoc)

-- A predicate of every element; it computes to a tuple.
abbrev pub All {ℓ κ} : {A : Type ℓ} → (A → Type κ) → List A → Type κ
All P [] = Unit
All P (x ∷ xs) = P x × All P xs

pub All-append {ℓ κ} :
    {A : Type ℓ} (P : A → Type κ) (xs ys : List A) → All P xs → All P ys → All P (xs ++ ys)
All-append P [] ys h k = k
All-append P (x ∷ xs) ys h k = (h.0, All-append P xs ys h.1 k)

abbrev pub IsBit : ℕ → Type 0
IsBit b = b < 2

abbrev pub IsByte : ℕ → Type 0
IsByte x = x < 256

pub All-replicate {ℓ κ} :
    {A : Type ℓ} (P : A → Type κ) (n : ℕ) (a : A) → P a → All P (replicate n a)
All-replicate P zero a h = tt
All-replicate P (suc n) a h = (h, All-replicate P n a h)
