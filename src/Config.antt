-- ===== src/Config.antt =====
-- Configuration files: src/configstuff/config.c and include/configstuff/config.h.
-- A text is the list of its characters before the terminator. The file is the list of the texts that
-- fgets gives, each of at least one character. `none` as a result is an access outside an array.
pub mod Words
pub mod RoundTrip
pub mod Samples
mod Examples
use modemstuff.Base.{
  ℕ, zero, suc, ◌+◌, ◌≤◌, ◌<◌, Bool, true, false, ◌&&◌, ◌||◌, not, List, [], ◌∷◌, Option, none,
  some, length, get_elem?, set, take, drop, leb, ltb, ◌==◌, if◌then◌else◌, ◌>>=◌,
}

abbrev pub config_max_entries : ℕ
config_max_entries = 32

abbrev pub config_max_key_length : ℕ
config_max_key_length = 32

abbrev pub config_max_value_length : ℕ
config_max_value_length = 128

pub record ConfigEntry : Type 0 where
  pub key : List ℕ
  pub value : List ℕ

-- `entries` is the whole array.
pub record Config : Type 0 where
  pub entries : List ConfigEntry
  pub entries_count : ℕ

-- `isspace` of the C locale.
abbrev pub is_space : ℕ → Bool
is_space c = c == b' ' || (leb 9 c && leb c 13)

abbrev pub skip : (ℕ → Bool) → List ℕ → List ℕ
skip test [] = []
skip test (c ∷ cs) = if test c then skip test cs else c ∷ cs

-- The loop over the white space at the beginning: how far `line` moves.
abbrev pub leading : List ℕ → ℕ
leading [] = 0
leading (c ∷ cs) = if is_space c then suc (leading cs) else 0

-- The loop over the white space at the end, which goes back from `back` on; the index at which the line
-- is cut off.
unfoldable pub trim_back : List ℕ → ℕ → Option ℕ
trim_back line_buf zero = none
trim_back line_buf (suc back) =
    let before = trim_back line_buf back in
    do c ← get_elem? line_buf back; if is_space c then before else some (suc back)

-- The characters before the next space, and those behind it.
abbrev pub token : List ℕ → List ℕ × List ℕ
token [] = ([], [])
token (c ∷ cs) = let (front, rest) = token cs in if c == b' ' then ([], cs) else (c ∷ front, rest)

token_of : List ℕ → Option (List ℕ × List ℕ)
token_of [] = none
token_of (c ∷ cs) = some (token (c ∷ cs))

-- `strtok` with a space as the delimiter: the token, and where the next call begins.
pub strtok : List ℕ → Option (List ℕ × List ℕ)
strtok str = token_of (skip (λ c. c == b' ') str)

-- `strcpy` to an array of that size.
pub strcpy : ℕ → List ℕ → Option (List ℕ)
strcpy size text = if ltb (length text) size then some text else none

put_entry : Config → ConfigEntry → Config
put_entry config entry = record config { entries = set config.entries config.entries_count entry }

-- The second word, if there is one, is the value, and the entry counts.
store_value : Config → ConfigEntry → List ℕ → Option (List ℕ × List ℕ) → Option Config
store_value config entry key none = some (put_entry config (record entry { key = key }))
store_value config entry key (some (word, _)) = do
  value ← strcpy config_max_value_length word
  let config' = put_entry config (record { key = key; value = value })
  some (record config' { entries_count = config.entries_count + 1 })

-- The first word is the key of the next entry.
store_key : Config → Option (List ℕ × List ℕ) → Option Config
store_key config none = some config
store_key config (some (word, rest)) = do
  entry ← get_elem? config.entries config.entries_count
  key ← strcpy config_max_key_length word
  store_value config entry key (strtok rest)

store_line : Config → List ℕ → Option Config
store_line config line = store_key config (strtok line)

-- The trimmed line; an empty one is passed over.
read_trimmed : Config → List ℕ → Option Config
read_trimmed config [] = some config
read_trimmed config (c ∷ cs) =
    if c == b'#' || c == b';'
    then some config
    else if ltb c 32 || ltb 126 c
    then some config
    else store_line config (c ∷ cs)

unfoldable pub read_line : Config → List ℕ → Option Config
unfolding token_of strtok strcpy put_entry store_value store_key store_line read_trimmed
read_line config line = do
  end ← trim_back line (length line)
  read_trimmed config (drop (leading line) (take end line))

-- The loop over the lines, which ends when the entries are full.
unfoldable pub read_lines : Config → List (List ℕ) → Option Config
read_lines config [] = some config
read_lines config (line ∷ lines) =
    if ltb config.entries_count config_max_entries
    then (do config' ← read_line config line; read_lines config' lines)
    else some config

-- -1 for a file that does not open.
unfoldable pub config_read : Config → Option (List (List ℕ)) → Option (Config × Bool)
config_read config none = some (record config { entries_count = 0 }, false)
config_read config (some lines) = do
  config' ← read_lines (record config { entries_count = 0 }) lines
  some (config', true)

-- `strcmp(a, b) == 0`
abbrev pub same_text : List ℕ → List ℕ → Bool
same_text [] [] = true
same_text [] (y ∷ ys) = false
same_text (x ∷ xs) [] = false
same_text (x ∷ xs) (y ∷ ys) = x == y && same_text xs ys

-- The entries from `i` on, `count` of them; the value found, or nothing.
search : ℕ → List ConfigEntry → List ℕ → Option (Option (List ℕ))
search zero entries key = some none
search (suc count) [] key = none
search (suc count) (entry ∷ entries) key =
    if same_text entry.key key then some (some entry.value) else search count entries key

unfoldable pub config_get_str : Config → List ℕ → Option (Option (List ℕ))
unfolding search
config_get_str config key = search config.entries_count config.entries key

-- `cs_config_get_int` and `cs_config_get_float`, with `atoi` or `atof` as the conversion.
unfoldable pub config_get_as {ℓ} : {A : Type ℓ} → (List ℕ → A) → Config → List ℕ → Option (Option A)
config_get_as convert config key = do
  found ← config_get_str config key
  some (elim found [ none ↦ none | some value ↦ some (convert value) ])
