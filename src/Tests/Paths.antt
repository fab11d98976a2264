-- ===== src/Tests/Paths.antt =====
-- The theorems on config.entity.ts at concrete inputs.
use incus_unraid.Prelude.{codes, refl, All, split_on, starts_with, eq_text, Text}
use incus_unraid.Entity.{
  is_safe_workspace_root_syntax, is_safe_bind_mounts_syntax, safe_path, is_path_char, has_parent,
  has_parent_segment, under_array, is_safe_bind_mount, mode_of, is_safe_parts, is_safe_item,
}
use incus_unraid.Entity.Resolve.{IsArrayPath, IsConfined, root-stays, mounts-stay}

root-stays_example : IsArrayPath (codes "/srv/./agent//jails")
unfolding is_safe_workspace_root_syntax safe_path is_path_char has_parent has_parent_segment
    under_array starts_with eq_text split_on
root-stays_example = root-stays (codes "/srv/./agent//jails") refl

abbrev mounts : Text
mounts = codes "/mnt/user/data:/data:rw,/boot/config/plugins/incus/bind-mounts/x:/x"

mounts-stay_example : All IsConfined (split_on 44 mounts)
unfolding is_safe_bind_mounts_syntax safe_path is_path_char has_parent has_parent_segment
    under_array starts_with eq_text split_on is_safe_bind_mount mode_of is_safe_parts is_safe_item
mounts-stay_example = mounts-stay mounts refl (λ h. absurd (cc))
