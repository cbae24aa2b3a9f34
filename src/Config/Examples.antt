-- ===== src/Config/Examples.antt =====
-- A file of two entries, and a blank line.
use modemstuff.Base.{◌≡◌, refl, true, map, [], ◌∷◌, none, some, arith, length-replicate}
use modemstuff.Config.{Config, ConfigEntry, config_read, config_get_str, read_line}
use modemstuff.Config.Samples.{old, config}
use modemstuff.Config.RoundTrip.{IsEntry, line_of, config_get_str-config_read, read_line-blank}

-- "port 80"
abbrev port : ConfigEntry
port = record { key = 112 ∷ 111 ∷ 114 ∷ 116 ∷ []; value = 56 ∷ 48 ∷ [] }

-- "x #"
abbrev mark : ConfigEntry
mark = record { key = 120 ∷ []; value = 35 ∷ [] }

port-IsEntry : IsEntry port
port-IsEntry = record {
  key_word = omega arith;
  no_comment = (λ h. cc, λ h. cc);
  value_word = omega arith;
  key_fits = omega arith;
  value_fits = omega arith;
}

mark-IsEntry : IsEntry mark
mark-IsEntry = record {
  key_word = omega arith;
  no_comment = (λ h. cc, λ h. cc);
  value_word = omega arith;
  key_fits = omega arith;
  value_fits = omega arith;
}

config_get_str-config_read_example :
    (last : Config) × (config_read config (some (map line_of (port ∷ mark ∷ [])))
      ≡ some (last, true))
    × (last.entries_count ≡ 2)
    × (config_get_str last (120 ∷ []) ≡ some (some (35 ∷ [])))
config_get_str-config_read_example =
    config_get_str-config_read config (port ∷ mark ∷ []) (120 ∷ [])
      (port-IsEntry, (mark-IsEntry, tt)) (length-replicate {A = ConfigEntry} 32 old) (omega arith)

read_line-blank_example : read_line config (32 ∷ 9 ∷ 10 ∷ []) ≡ none
read_line-blank_example = read_line-blank config (32 ∷ 9 ∷ 10 ∷ []) (refl, (refl, (refl, tt)))
