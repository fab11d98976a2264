-- ===== src/Tests/Runs.antt =====
-- Runs of parseShellConfig and updateShellConfig on small inputs.
use incus_unraid.Prelude.{
  codes, true, [], ◌∷◌, ◌≡◌, refl, eq_text, trim, starts_with, ends_with, index_of, substring, join,
  insert, lookup,
}
use incus_unraid.Config.{enabled, ts_auth_key, bool, text, get, eq_key}
use incus_unraid.ConfigSync.Shell.{parse_shell_config, update_shell_config}

parse_test :
    parse_shell_config (codes "# c\nSERVICE=\"enabled\" # on\nX='a#b' # c\r\n =1\nY=\"")
    ≡ (codes "SERVICE", codes "enabled") ∷ (codes "X", codes "a#b") ∷ (codes "Y", codes "\"") ∷ []
unfolding parse_shell_config trim eq_text starts_with ends_with index_of substring insert
parse_test = refl

update_test :
    update_shell_config
      (codes "# c\nSERVICE=\"disabled\" # on\nJAIL_CPU=2")
      ((enabled, bool true) ∷ (ts_auth_key, text (codes "k'y")) ∷ [])
    ≡ codes "# c\nSERVICE='enabled' # on\nJAIL_CPU=2\nTS_AUTHKEY='k'\\''y'"
unfolding update_shell_config trim eq_text starts_with ends_with index_of substring insert lookup
    join get eq_key
update_test = refl
