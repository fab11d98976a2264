-- ===== src/Entity.antt =====
-- unraid-api-plugin-incus/src/config.entity.ts: the syntax checks on the paths that the settings
-- form sends. A regular expression is the test that it stands for, character by character. `Inputs` has the other
-- validators of the form over the expressions of `Regex`; `Resolve`, `Inert` and `Clean` are proofs.
pub mod Resolve
pub mod Regex
pub mod Inputs
pub mod Inert
pub mod Clean
use incus_unraid.Prelude.{
  ℕ, Bool, true, false, ◌&&◌, ◌||◌, not, List, [], ◌∷◌, leb, nat_beq, if◌then◌else◌, every, Text,
  codes, eq_text, starts_with, split_on,
}

-- [A-Za-z0-9_./-]
unfoldable pub is_path_char : ℕ → Bool
is_path_char c =
    (leb 65 c && leb c 90) || (leb 97 c && leb c 122) || (leb 45 c && leb c 57) || nat_beq c 95

-- SAFE_PATH
unfoldable pub safe_path : Text → Bool
safe_path [] = false
safe_path (c ∷ []) = false
safe_path (c ∷ d ∷ s) = nat_beq c 47 && every is_path_char (d ∷ s)

-- [...].includes("..")
unfoldable pub has_parent : List Text → Bool
unfolding eq_text
has_parent [] = false
has_parent (l ∷ ls) = eq_text l (codes "..") || has_parent ls

unfoldable pub has_parent_segment : Text → Bool
has_parent_segment value = has_parent (split_on 47 value)

unfoldable pub under_array : Text → Bool
under_array value = starts_with value (codes "/srv/") || starts_with value (codes "/mnt/")

unfoldable pub is_safe_workspace_root_syntax : Text → Bool
is_safe_workspace_root_syntax value =
    safe_path value && not (has_parent_segment value) && under_array value

-- The checks on one bind mount, its mode already defaulted.
unfoldable pub is_safe_bind_mount : Text → Text → Text → Bool
is_safe_bind_mount source target mode =
    if not (safe_path source)
      || not (safe_path target)
      || has_parent_segment source
      || has_parent_segment target
    then false
    else if not (eq_text mode (codes "ro")) && not (eq_text mode (codes "rw"))
    then false
    else if starts_with source (codes "/boot/config/plugins/incus/bind-mounts/")
    then eq_text mode (codes "ro")
    else under_array source

-- explicitMode || "ro"
unfoldable pub mode_of : Text → Text
mode_of [] = codes "ro"
mode_of (c ∷ s) = c ∷ s

unfoldable pub is_safe_parts : List Text → Bool
is_safe_parts (source ∷ target ∷ []) = is_safe_bind_mount source target (codes "ro")
is_safe_parts (source ∷ target ∷ mode ∷ []) = is_safe_bind_mount source target (mode_of mode)
is_safe_parts _ = false

unfoldable pub is_safe_item : Text → Bool
is_safe_item item = is_safe_parts (split_on 58 item)

unfoldable pub is_safe_bind_mounts_syntax : Text → Bool
is_safe_bind_mounts_syntax [] = true
is_safe_bind_mounts_syntax (c ∷ value) = every is_safe_item (split_on 44 (c ∷ value))
