-- ===== src/Config/RoundTrip.antt =====
-- A configuration file of keys and values reads back, and its keys are found.
use modemstuff.Base.{
  ℕ, zero, suc, ◌+◌, ◌≤◌, ◌<◌, ◌≡◌, ◌≢◌, refl, sym, ap, ◌∙◌, inl, inr, true, false, Bool-cases,
  List, [], ◌∷◌, ◌++◌, append_assoc, append-nil, Option, none, some, arith, All, length, length-set,
  get_elem?, get_elem?_total, map, set, take, take-set_end, ==-false, ltb, if◌then◌else◌, take_at,
  length-append,
}
use modemstuff.Config.{
  Config, ConfigEntry, config_max_entries, is_space, trim_back, put_entry, store_line, store_key,
  store_value, read_trimmed, read_line, read_lines, config_read, same_text, search, config_get_str,
}
use modemstuff.Config.Words.{
  IsPrint, IsWord, not_space, last_of, trim_back-last, strtok-append, strtok_whole, strcpy-fits,
}

-- A key that begins no comment, and both short enough for their arrays.
pub record IsEntry (e : ConfigEntry) : Type 0 where
  pub key_word : IsWord e.key
  pub no_comment : (get_elem? e.key 0 ≢ some b'#') × (get_elem? e.key 0 ≢ some b';')
  pub value_word : IsWord e.value
  pub key_fits : length e.key < 32
  pub value_fits : length e.value < 128

-- The line of an entry.
abbrev pub line_of : ConfigEntry → List ℕ
line_of e = e.key ++ (b' ' ∷ (e.value ++ (10 ∷ [])))

store_line-entry :
    (config : Config) (e : ConfigEntry)
    → IsEntry e
    → config.entries_count < length config.entries
    → store_line config (e.key ++ (b' ' ∷ e.value))
      ≡ some (record {
        entries = set config.entries config.entries_count e;
        entries_count = config.entries_count + 1;
      })
unfolding store_line store_key store_value put_entry
store_line-entry config e i h =
    let (old, f) = get_elem?_total config.entries config.entries_count h in
    rw
      (
        strtok-append e.key e.value i.key_word,
        f,
        strcpy-fits 32 e.key i.key_fits,
        strtok_whole e.value i.value_word,
        strcpy-fits 128 e.value i.value_fits,
      )
      refl

-- A line that begins with a character that is no comment's.
read_trimmed-word :
    (config : Config) (c : ℕ) (cs : List ℕ)
    → IsPrint c
    → c ≢ b'#'
    → c ≢ b';'
    → read_trimmed config (c ∷ cs) ≡ store_line config (c ∷ cs)
unfolding read_trimmed
read_trimmed-word config c cs p n m =
    let low : ltb c 32 ≡ false = ground arith in
    let high : ltb 126 c ≡ false = ground arith in
    rw (==-false c b'#' n, ==-false c b';' m, low, high) refl

-- A line that begins with no white space and has only its end behind the last character.
read_line-last :
    (config : Config) (k : ℕ) (front : List ℕ) (c : ℕ)
    → IsPrint k
    → IsPrint c
    → read_line config ((k ∷ front) ++ (c ∷ 10 ∷ []))
      ≡ read_trimmed config ((k ∷ front) ++ (c ∷ []))
unfolding read_line
read_line-last config k front c p q =
    let line = (k ∷ front) ++ (c ∷ 10 ∷ []) in
    let end =
      trim_back-last (k ∷ front) c (length line) q
        (omega (arith, length-append (k ∷ front) (c ∷ 10 ∷ []))) in
    let cut : take (suc (length (k ∷ front))) line ≡ (k ∷ front) ++ (c ∷ []) =
      ap (take (suc (length (k ∷ front)))) (sym (append_assoc (k ∷ front) (c ∷ []) (10 ∷ [])))
      ∙ take_at (suc (length (k ∷ front))) ((k ∷ front) ++ (c ∷ [])) (10 ∷ [])
          (omega (arith, length-append (k ∷ front) (c ∷ []))) in
    rw (end, cut, not_space k p) refl

read_line-key :
    (config : Config) (key value : List ℕ)
    → IsEntry (record { key = key; value = value })
    → read_line config (line_of (record { key = key; value = value }))
      ≡ store_line config (key ++ (b' ' ∷ value))
read_line-key config [] value i = absurd i.key_word
read_line-key config (k ∷ ks) [] i = absurd i.value_word
read_line-key config (k ∷ ks) (v ∷ vs) i =
    let (front, c, e, q) = last_of v vs i.value_word in
    let all : line_of (record { key = k ∷ ks; value = v ∷ vs })
        ≡ (k ∷ (ks ++ (b' ' ∷ front))) ++ (c ∷ 10 ∷ []) =
      ap (λ t. (k ∷ ks) ++ (b' ' ∷ (t ++ (10 ∷ [])))) e
      ∙ ap (λ t. (k ∷ ks) ++ (b' ' ∷ t)) (append_assoc front (c ∷ []) (10 ∷ []))
      ∙ sym (append_assoc (k ∷ ks) (b' ' ∷ front) (c ∷ 10 ∷ [])) in
    let trimmed : (k ∷ (ks ++ (b' ' ∷ front))) ++ (c ∷ []) ≡ (k ∷ ks) ++ (b' ' ∷ (v ∷ vs)) =
      append_assoc (k ∷ ks) (b' ' ∷ front) (c ∷ []) ∙ ap (λ t. (k ∷ ks) ++ (b' ' ∷ t)) (sym e) in
    ap (read_line config) all
    ∙ read_line-last config k (ks ++ (b' ' ∷ front)) c i.key_word.0 q
    ∙ ap (read_trimmed config) trimmed
    ∙ read_trimmed-word config k (ks ++ (b' ' ∷ (v ∷ vs))) i.key_word.0
        (λ h. i.no_comment.0 (ap some h)) (λ h. i.no_comment.1 (ap some h))

-- One entry's line.
read_line-line_of :
    (config : Config) (e : ConfigEntry)
    → IsEntry e
    → config.entries_count < length config.entries
    → read_line config (line_of e)
      ≡ some (record {
        entries = set config.entries config.entries_count e;
        entries_count = config.entries_count + 1;
      })
read_line-line_of config e i h =
    read_line-key config e.key e.value i ∙ store_line-entry config e i h

read_lines_lem :
    (es : List ConfigEntry) (config : Config) (k : ℕ)
    → All IsEntry es
    → length config.entries ≡ 32
    → k ≡ config.entries_count + length es
    → k ≤ 32
    → (last : Config) × (read_lines config (map line_of es) ≡ some last)
      × (last.entries_count ≡ k)
      × (length last.entries ≡ 32)
      × (take k last.entries ≡ take config.entries_count config.entries ++ es)
unfolding read_lines
read_lines_lem [] config k i h e l =
    let same : k ≡ config.entries_count = omega arith in
    (
      config,
      refl,
      omega arith,
      h,
      rw same (sym (append-nil (take config.entries_count config.entries))),
    )
read_lines_lem (x ∷ es) config k i h e l =
    let config' : Config = record {
      entries = set config.entries config.entries_count x;
      entries_count = config.entries_count + 1;
    } in
    let len = length-set config.entries config.entries_count x in
    let more : ltb config.entries_count 32 ≡ true = ground arith in
    let read = read_line-line_of config x i.0 (omega arith) in
    let (last, f, count, array, held) = read_lines_lem es config' k i.1 (len ∙ h) (omega arith) l in
    let one_more : config.entries_count + 1 ≡ suc config.entries_count = omega arith in
    (
      last,
      rw (more, read) f,
      count,
      array,
      held
          ∙ ap (λ (j : ℕ). take j config'.entries ++ es) one_more
          ∙ ap (λ u. u ++ es) (take-set_end config.entries config.entries_count x (omega arith))
          ∙ append_assoc (take config.entries_count config.entries) (x ∷ []) es,
    )

-- The value of the first entry with a key.
abbrev pub lookup : List ConfigEntry → List ℕ → Option (List ℕ)
lookup [] key = none
lookup (e ∷ es) key = if same_text e.key key then some e.value else lookup es key

search-take :
    (n : ℕ) (entries es : List ConfigEntry) (key : List ℕ)
    → take n entries ≡ es
    → n ≡ length es
    → search n entries key ≡ some (lookup es key)
unfolding search
search-take zero entries [] key e h = refl
search-take zero entries (x ∷ es) key e h = absurd (omega arith)
search-take (suc n) [] [] key e h = absurd (omega arith)
search-take (suc n) [] (x ∷ es) key e h = absurd (let k : [] ≡ x ∷ es = e in cc)
search-take (suc n) (y ∷ entries) [] key e h = absurd (omega arith)
search-take (suc n) (y ∷ entries) (x ∷ es) key e h =
    let same : y ≡ x = cc in
    let rest : take n entries ≡ es = cc in
    rw (same, search-take n entries es key rest (omega arith))
      (elim (Bool-cases (same_text x.key key)) [
        | inl found ↦ rw found refl
        | inr not_here ↦ rw not_here refl
      ])

-- A file of at most 32 entries, whose keys and values are words that fit and begin no comment, reads
-- without a fault into as many entries, and looking up any key in them gives the value of the first
-- entry with that key, or tells that there is none.
pub config_get_str-config_read :
    (config : Config) (es : List ConfigEntry) (key : List ℕ)
    → All IsEntry es
    → length config.entries ≡ config_max_entries
    → length es ≤ config_max_entries
    → (last : Config) × (config_read config (some (map line_of es)) ≡ some (last, true))
      × (last.entries_count ≡ length es)
      × (config_get_str last key ≡ some (lookup es key))
unfolding config_read config_get_str
config_get_str-config_read config es key i h l =
    let (last, e, count, array, held) =
      read_lines_lem es (record config { entries_count = 0 }) (length es) i h (omega arith) l in
    (last, rw e refl, count, rw count (search-take (length es) last.entries es key held refl))

All-get_elem? :
    (P : ℕ → Type 0) (xs : List ℕ) (i : ℕ)
    → All P xs
    → i < length xs
    → (x : ℕ) × (get_elem? xs i ≡ some x) × P x
All-get_elem? P [] i h l = absurd (omega arith)
All-get_elem? P (x ∷ xs) zero h l = (x, refl, h.0)
All-get_elem? P (x ∷ xs) (suc i) h l = All-get_elem? P xs i h.1 (omega arith)

-- The loop goes on to the beginning of the buffer and over it.
trim_back-blank :
    (line : List ℕ) (back : ℕ)
    → All (λ c. is_space c ≡ true) line
    → back ≤ length line
    → trim_back line back ≡ none
unfolding trim_back
trim_back-blank line zero h l = refl
trim_back-blank line (suc back) h l =
    let (c, e, space) = All-get_elem? (λ c. is_space c ≡ true) line back h (omega arith) in
    rw (e, space) (trim_back-blank line back h (omega arith))

-- Reading a line of white space only takes a fault: the loop that goes back over the white space at
-- its end does not stop at the beginning of the buffer, and reads in front of it.
pub read_line-blank :
    (config : Config) (line : List ℕ)
    → All (λ c. is_space c ≡ true) line
    → read_line config line ≡ none
unfolding read_line
read_line-blank config line h = rw (trim_back-blank line (length line) h (omega arith)) refl
