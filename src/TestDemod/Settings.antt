-- ===== src/TestDemod/Settings.antt =====
-- test_demod_config_read of apps/test_demod/config.c on a file that has every key.
use modemstuff.Base.{ℕ, ◌≤◌, ◌≡◌, refl, List, map, some, length, All}
use modemstuff.Config.{Config, ConfigEntry, config_max_entries, config_get_as}
use modemstuff.Config.RoundTrip.{IsEntry, line_of, lookup, config_get_str-config_read}
use modemstuff.Tnc.Settings.{
  supplied, require, lookup_in, sample_rate_key, mark_freq_key, space_freq_key, baud_rate_key,
}
use modemstuff.Dsp.{Arithmetic, Floats}
use modemstuff.TestDemod.{file_key, test_demod_config_read}

module _ {F D : Type 0} ⦃S : Arithmetic F⦄ ⦃W : Arithmetic D⦄ (L : Floats F D) (atoi : List ℕ → ℕ)
    (atof : List ℕ → F) where
  -- A file of at most 32 entries, whose keys and values are words that fit and begin no comment, in
  -- which every key of the settings has a value.
  pub test_demod_config_read-supplied :
      (config : Config) (es : List ConfigEntry)
      (file sample_rate mark_freq space_freq baud_rate : List ℕ)
      → All IsEntry es
      → length config.entries ≡ config_max_entries
      → length es ≤ config_max_entries
      → lookup es file_key ≡ some file
      → lookup es sample_rate_key ≡ some sample_rate
      → lookup es mark_freq_key ≡ some mark_freq
      → lookup es space_freq_key ≡ some space_freq
      → lookup es baud_rate_key ≡ some baud_rate
      → test_demod_config_read L atoi atof config (some (map line_of es))
        ≡ some (
            supplied record {
              file = file;
              sample_rate = atoi sample_rate;
              mark_freq = atof mark_freq;
              space_freq = atof space_freq;
              baud_rate = atof baud_rate;
            })
  unfolding test_demod_config_read require config_get_as
  test_demod_config_read-supplied config es file sample_rate mark_freq space_freq baud_rate i h l a
        b m s r =
      let (last, e, count, found) = config_get_str-config_read config es file_key i h l in
      rw
        (
          e,
          lookup_in config es last file_key file i h l e a,
          lookup_in config es last sample_rate_key sample_rate i h l e b,
          lookup_in config es last mark_freq_key mark_freq i h l e m,
          lookup_in config es last space_freq_key space_freq i h l e s,
          lookup_in config es last baud_rate_key baud_rate i h l e r,
        )
        refl
