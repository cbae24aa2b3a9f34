-- ===== src/Config/Words.antt =====
-- The words of a line, and the white space around them.
use modemstuff.Base.{
  ℕ, suc, ◌≤◌, ◌<◌, ◌≡◌, refl, sym, ap, ◌∙◌, false, append_assoc, get_elem?, get_elem?_at,
  length-append, List, [], ◌∷◌, ◌++◌, some, arith, All, length, ==-false,
}
use modemstuff.Config.{is_space, trim_back, token, token_of, strtok, strcpy}

-- A printable character that is no space.
abbrev pub IsPrint : ℕ → Type 0
IsPrint c = (32 < c) × (c ≤ 126)

-- A word of such characters.
abbrev pub IsWord : List ℕ → Type 0
IsWord [] = ⊥
IsWord (c ∷ cs) = IsPrint c × All IsPrint cs

pub not_space : (c : ℕ) → IsPrint c → is_space c ≡ false
not_space c h = ground arith

-- The last character of a word.
pub last_of :
    (v : ℕ) (vs : List ℕ)
    → All IsPrint (v ∷ vs)
    → (front : List ℕ) × (c : ℕ) × (v ∷ vs ≡ front ++ (c ∷ [])) × IsPrint c
last_of v [] h = ([], v, refl, h.0)
last_of v (w ∷ ws) h =
    let (front, c, e, p) = last_of w ws h.1 in (v ∷ front, c, ap (λ t. v ∷ t) e, p)

-- The end of the line is the only white space behind the last character.
pub trim_back-last :
    (front : List ℕ) (c n : ℕ)
    → IsPrint c
    → n ≡ suc (suc (length front))
    → trim_back (front ++ (c ∷ 10 ∷ [])) n ≡ some (suc (length front))
unfolding trim_back
trim_back-last front c n p e =
    let line = front ++ (c ∷ 10 ∷ []) in
    let end : get_elem? line (suc (length front)) ≡ some 10 =
      ap (λ t. get_elem? t (suc (length front))) (sym (append_assoc front (c ∷ []) (10 ∷ [])))
      ∙ get_elem?_at (front ++ (c ∷ [])) [] 10 (suc (length front))
          (omega (arith, length-append front (c ∷ []))) in
    let last = get_elem?_at front (10 ∷ []) c (length front) refl in
    rw (e, end, last, not_space c p) refl

token-append :
    (word rest : List ℕ) → All IsPrint word → token (word ++ (b' ' ∷ rest)) ≡ (word, rest)
token-append [] rest h = refl
token-append (c ∷ cs) rest h =
    rw (==-false c b' ' (omega (arith, h.0)), token-append cs rest h.1) refl

token_whole : (word : List ℕ) → All IsPrint word → token word ≡ (word, [])
token_whole [] h = refl
token_whole (c ∷ cs) h = rw (==-false c b' ' (omega (arith, h.0)), token_whole cs h.1) refl

pub strtok-append :
    (word rest : List ℕ) → IsWord word → strtok (word ++ (b' ' ∷ rest)) ≡ some (word, rest)
unfolding strtok token_of
strtok-append [] rest h = absurd h
strtok-append (c ∷ cs) rest h =
    rw (==-false c b' ' (omega (arith, h.0))) (ap some (token-append (c ∷ cs) rest h))

pub strtok_whole : (word : List ℕ) → IsWord word → strtok word ≡ some (word, [])
unfolding strtok token_of
strtok_whole [] h = absurd h
strtok_whole (c ∷ cs) h =
    rw (==-false c b' ' (omega (arith, h.0))) (ap some (token_whole (c ∷ cs) h))

pub strcpy-fits : (size : ℕ) (text : List ℕ) → length text < size → strcpy size text ≡ some text
unfolding strcpy
strcpy-fits size text h = ground arith
