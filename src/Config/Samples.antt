-- ===== src/Config/Samples.antt =====
-- A structure that held something, and entries with a value of one character.
use modemstuff.Base.{ℕ, ◌≢◌, ◌<◌, List, [], ◌∷◌, some, get_elem?, length, replicate, arith}
use modemstuff.Config.{Config, ConfigEntry}
use modemstuff.Config.Words.{IsWord}
use modemstuff.Config.RoundTrip.{IsEntry}

abbrev pub old : ConfigEntry
old = record { key = 88 ∷ []; value = 89 ∷ [] }

abbrev pub config : Config
config = record { entries = replicate 32 old; entries_count = 9 }

-- A value of one character.
abbrev pub entry : List ℕ → ConfigEntry
entry key = record { key = key; value = 56 ∷ [] }

pub entry-IsEntry :
    (key : List ℕ)
    → IsWord key
    → (get_elem? key 0 ≢ some b'#') × (get_elem? key 0 ≢ some b';')
    → length key < 32
    → IsEntry (entry key)
entry-IsEntry key w n h = record {
  key_word = w;
  no_comment = n;
  value_word = omega arith;
  key_fits = h;
  value_fits = omega arith;
}
