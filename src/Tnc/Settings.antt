-- ===== src/Tnc/Settings.antt =====
-- Reading the settings, ax25tnc_config_read of apps/ax25tnc/config.c. The structure of a read that
-- fails is not used, and not modelled.
use modemstuff.Base.{
  ℕ, ◌≤◌, ◌≡◌, refl, ap, ◌∙◌, List, [], ◌∷◌, map, Option, none, some, true, length, All, ◌>>=◌,
  if◌then◌else◌,
}
use modemstuff.Config.{
  Config, ConfigEntry, config_max_entries, config_read, config_get_str, config_get_as,
}
use modemstuff.Config.RoundTrip.{IsEntry, line_of, lookup, config_get_str-config_read}

pub record Settings (N F : Type 0) : Type 0 where
  pub host : List ℕ
  pub port : N
  pub kiss_port : N
  pub sample_rate : N
  pub mark_freq : F
  pub space_freq : F
  pub baud_rate : F

-- The results 1, 2 with the key that is missing, and 0.
pub data Outcome (S : Type 0) : Type 0 where
  not_read : Outcome S
  not_supplied : List ℕ → Outcome S
  supplied : S → Outcome S

abbrev pub host_key : List ℕ
host_key = b'H' ∷ b'O' ∷ b'S' ∷ b'T' ∷ []

abbrev pub port_key : List ℕ
port_key = b'P' ∷ b'O' ∷ b'R' ∷ b'T' ∷ []

abbrev pub kiss_port_key : List ℕ
kiss_port_key = b'K' ∷ b'I' ∷ b'S' ∷ b'S' ∷ port_key

abbrev pub sample_rate_key : List ℕ
sample_rate_key = b'R' ∷ b'A' ∷ b'T' ∷ b'E' ∷ []

abbrev pub mark_freq_key : List ℕ
mark_freq_key = b'M' ∷ b'A' ∷ b'R' ∷ b'K' ∷ []

abbrev pub space_freq_key : List ℕ
space_freq_key = b'S' ∷ b'P' ∷ b'A' ∷ b'C' ∷ b'E' ∷ []

abbrev pub baud_rate_key : List ℕ
baud_rate_key = b'B' ∷ b'A' ∷ b'U' ∷ b'D' ∷ []

-- A value that must be there.
unfoldable pub require :
    {S A : Type 0} → List ℕ → Option (Option A) → (A → Option (Outcome S)) → Option (Outcome S)
require key found next = do
  value ← found
  elim value [ none ↦ some (not_supplied key) | some a ↦ next a ]

-- All lookups are in the configuration that was read.
pub lookup_in :
    (config : Config) (es : List ConfigEntry) (last : Config) (key value : List ℕ)
    → All IsEntry es
    → length config.entries ≡ config_max_entries
    → length es ≤ config_max_entries
    → config_read config (some (map line_of es)) ≡ some (last, true)
    → lookup es key ≡ some value
    → config_get_str last key ≡ some (some value)
lookup_in config es last key value i h l e v =
    let (last', e', count, found) = config_get_str-config_read config es key i h l in
    let same : last' ≡ last = cc in rw (← same) (found ∙ ap some v)

module _ {N F : Type 0} (atoi : List ℕ → N) (atof : List ℕ → F) where
  settings_from : Config → Option (Outcome (Settings N F))
  unfolding require
  settings_from config = require host_key (config_get_str config host_key) (λ host.
      require port_key (config_get_as atoi config port_key) (λ port.
        require kiss_port_key (config_get_as atoi config kiss_port_key) (λ kiss_port.
          require sample_rate_key (config_get_as atoi config sample_rate_key) (λ sample_rate.
            require mark_freq_key (config_get_as atof config mark_freq_key) (λ mark_freq.
              require space_freq_key (config_get_as atof config space_freq_key) (λ space_freq.
                require baud_rate_key (config_get_as atof config baud_rate_key) (λ baud_rate. some (
                  supplied record {
                    host = host;
                    port = port;
                    kiss_port = kiss_port;
                    sample_rate = sample_rate;
                    mark_freq = mark_freq;
                    space_freq = space_freq;
                    baud_rate = baud_rate;
                  }))))))))

  unfoldable pub tnc_config_read : Config → Option (List (List ℕ)) → Option (Outcome (Settings N F))
  unfolding settings_from
  tnc_config_read config file = do
    (config', ok) ← config_read config file
    if ok then settings_from config' else some not_read

  -- A file of at most 32 entries, whose keys and values are words that fit and begin no comment, in
  -- which every key of the settings has a value: reading it takes no fault and gives the settings, each
  -- from the first entry with its key.
  pub tnc_config_read-supplied :
      (config : Config) (es : List ConfigEntry)
      (host port kiss_port sample_rate mark_freq space_freq baud_rate : List ℕ)
      → All IsEntry es
      → length config.entries ≡ config_max_entries
      → length es ≤ config_max_entries
      → lookup es host_key ≡ some host
      → lookup es port_key ≡ some port
      → lookup es kiss_port_key ≡ some kiss_port
      → lookup es sample_rate_key ≡ some sample_rate
      → lookup es mark_freq_key ≡ some mark_freq
      → lookup es space_freq_key ≡ some space_freq
      → lookup es baud_rate_key ≡ some baud_rate
      → tnc_config_read config (some (map line_of es))
        ≡ some (
            supplied record {
              host = host;
              port = atoi port;
              kiss_port = atoi kiss_port;
              sample_rate = atoi sample_rate;
              mark_freq = atof mark_freq;
              space_freq = atof space_freq;
              baud_rate = atof baud_rate;
            })
  unfolding tnc_config_read settings_from require config_get_as
  tnc_config_read-supplied config es host port kiss_port sample_rate mark_freq space_freq baud_rate
        i h l a b c d m s r =
      let (last, e, count, found) = config_get_str-config_read config es host_key i h l in
      rw
        (
          e,
          lookup_in config es last host_key host i h l e a,
          lookup_in config es last port_key port i h l e b,
          lookup_in config es last kiss_port_key kiss_port i h l e c,
          lookup_in config es last sample_rate_key sample_rate i h l e d,
          lookup_in config es last mark_freq_key mark_freq i h l e m,
          lookup_in config es last space_freq_key space_freq i h l e s,
          lookup_in config es last baud_rate_key baud_rate i h l e r,
        )
        refl
