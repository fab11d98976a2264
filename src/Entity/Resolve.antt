-- ===== src/Entity/Resolve.antt =====
-- unraid-api-plugin-incus/src/config.entity.ts: where the paths that the checks accept lead.
use mathlib.Core.Path.{ap₂, subst}
use mathlib.Core.List.{append_assoc, append-nil}
use incus_unraid.Prelude.{
  length, drop, eq_text_iff, sym, ◌∙◌, ◌≢◌, true, false, ◌||◌, ◌≡◌, refl, ◌⊎◌, inl, inr, List, [],
  ◌∷◌, ◌++◌, All, if◌then◌else◌, every, Text, codes, eq_text, starts_with, split_on, Bool-cases,
  arith,
}
use incus_unraid.Entity.{
  has_parent, has_parent_segment, under_array, is_safe_workspace_root_syntax, is_safe_bind_mount,
  mode_of, is_safe_parts, is_safe_item, is_safe_bind_mounts_syntax,
}

-- What a path means to the kernel, symbolic links left out: the names from the root down, where
-- `.` and an empty name stay and `..` goes up.
unfoldable pub parent : List Text → List Text
parent [] = []
parent (l ∷ []) = []
parent (l ∷ m ∷ ls) = l ∷ parent (m ∷ ls)

unfoldable pub enter : List Text → Text → List Text
unfolding eq_text
enter at l =
    if eq_text l [] || eq_text l (codes ".")
    then at
    else if eq_text l (codes "..")
    then parent at
    else at ++ l ∷ []

unfoldable pub walk : List Text → List Text → List Text
walk at [] = at
walk at (l ∷ ls) = walk (enter at l) ls

abbrev pub resolve : Text → List Text
resolve path = walk [] (split_on 47 path)

-- The names among the segments of a path: `.` and an empty one name nothing.
unfoldable pub names : List Text → List Text
names [] = []
names (l ∷ ls) =
    let rest = names ls in if eq_text l [] || eq_text l (codes ".") then rest else l ∷ rest

-- A path that is written with the prefix and leads to `dir`, and from there down by the names that follow the prefix: to
-- `dir` itself where none does
abbrev pub IsUnder : Text → List Text → Text → Type 0
IsUnder prefix dir path =
    (rest : Text) × (path ≡ prefix ++ rest) × (resolve path ≡ dir ++ names (split_on 47 rest))

walk-names : (at ls : List Text) → has_parent ls ≡ false → walk at ls ≡ at ++ names ls
unfolding walk enter names has_parent
walk-names at [] p = sym (append-nil at)
walk-names at (l ∷ ls) p =
    let up : eq_text l (codes "..") ≡ false = ground arith in
    let rest : has_parent ls ≡ false = ground arith in
    elim (Bool-cases (eq_text l [] || eq_text l (codes "."))) [
      | inl e ↦ rw e (walk-names at ls rest)
      | inr e ↦
          rw e (rw up (walk-names (at ++ l ∷ []) ls rest ∙ append_assoc at (l ∷ []) (names ls)))
    ]

-- What a prefix test tells.
starts_with-append : (s p : Text) → starts_with s p ≡ true → s ≡ p ++ drop (length p) s
unfolding starts_with
starts_with-append s [] h = refl
starts_with-append [] (c ∷ p) h = absurd (cc)
starts_with-append (d ∷ s) (c ∷ p) h =
    let rest : starts_with s p ≡ true = ground arith in
    let same : d ≡ c = ground arith in ap₂ (λ x y. x ∷ y) same (starts_with-append s p rest)

-- A path that begins with a directory and has no `..` leads under that directory.
srv-IsUnder :
    (s : Text)
    → has_parent_segment (codes "/srv/" ++ s) ≡ false
    → IsUnder (codes "/srv/") (codes "srv" ∷ []) (codes "/srv/" ++ s)
unfolding has_parent_segment has_parent split_on walk enter eq_text
srv-IsUnder s h = (s, refl, walk-names (codes "srv" ∷ []) (split_on 47 s) h)

mnt-IsUnder :
    (s : Text)
    → has_parent_segment (codes "/mnt/" ++ s) ≡ false
    → IsUnder (codes "/mnt/") (codes "mnt" ∷ []) (codes "/mnt/" ++ s)
unfolding has_parent_segment has_parent split_on walk enter eq_text
mnt-IsUnder s h = (s, refl, walk-names (codes "mnt" ∷ []) (split_on 47 s) h)

abbrev pub boot_dir : List Text
boot_dir =
    codes "boot" ∷ codes "config" ∷ codes "plugins" ∷ codes "incus" ∷ codes "bind-mounts" ∷ []

abbrev pub boot_prefix : Text
boot_prefix = codes "/boot/config/plugins/incus/bind-mounts/"

boot-IsUnder :
    (s : Text)
    → has_parent_segment (boot_prefix ++ s) ≡ false
    → IsUnder boot_prefix boot_dir (boot_prefix ++ s)
unfolding has_parent_segment has_parent split_on walk enter parent eq_text
boot-IsUnder s h = (s, refl, walk-names boot_dir (split_on 47 s) h)

-- On the array: under /srv or /mnt.
abbrev pub IsArrayPath : Text → Type 0
IsArrayPath path =
    IsUnder (codes "/srv/") (codes "srv" ∷ []) path
    ⊎ IsUnder (codes "/mnt/") (codes "mnt" ∷ []) path

under_array-IsArrayPath :
    (v : Text) → has_parent_segment v ≡ false → under_array v ≡ true → IsArrayPath v
unfolding under_array
under_array-IsArrayPath v p a = elim (Bool-cases (starts_with v (codes "/srv/"))) [
  | inl e ↦
      let cut = starts_with-append v (codes "/srv/") e in
      inl (
        subst (IsUnder (codes "/srv/") (codes "srv" ∷ [])) (sym cut)
          (srv-IsUnder (drop 5 v) (subst (λ s. has_parent_segment s ≡ false) cut p)))
  | inr e ↦
      let cut = starts_with-append v (codes "/mnt/") (ground arith) in
      inr (
        subst (IsUnder (codes "/mnt/") (codes "mnt" ∷ [])) (sym cut)
          (mnt-IsUnder (drop 5 v) (subst (λ s. has_parent_segment s ≡ false) cut p)))
]

-- A workspace root that the form's check accepts leads, symbolic links left out, to /srv or /mnt and from there down by the
-- names that stand behind the prefix, with nothing skipped but `.` and empty names. It is /srv or /mnt itself where no name
-- stands there, as in "/srv/" and "/mnt/.", which the check accepts.
pub root-stays : (value : Text) → is_safe_workspace_root_syntax value ≡ true → IsArrayPath value
unfolding is_safe_workspace_root_syntax
root-stays v h = under_array-IsArrayPath v (ground arith) (ground arith)

-- The parts of one bind mount, with the mode that the API assumes where none is given.
abbrev pub Parts : Text → Text → Text → Text → Type 0
Parts item source target mode =
    ((split_on 58 item ≡ source ∷ target ∷ []) × (mode ≡ codes "ro"))
    ⊎ ((m : Text) × (split_on 58 item ≡ source ∷ target ∷ m ∷ []) × (mode ≡ mode_of m))

-- Read-only from the plugin's own directory on the flash drive, or from the array.
abbrev pub IsConfined : Text → Type 0
IsConfined item =
    (source : Text) × (target : Text) × (mode : Text) × Parts item source target mode
    × ((mode ≡ codes "ro") ⊎ (mode ≡ codes "rw"))
    × (IsArrayPath source ⊎ (IsUnder boot_prefix boot_dir source × (mode ≡ codes "ro")))

mount-IsConfined :
    (source target mode : Text)
    → is_safe_bind_mount source target mode ≡ true
    → ((mode ≡ codes "ro") ⊎ (mode ≡ codes "rw"))
      × (IsArrayPath source ⊎ (IsUnder boot_prefix boot_dir source × (mode ≡ codes "ro")))
unfolding is_safe_bind_mount
mount-IsConfined s t m h =
    let free : has_parent_segment s ≡ false = ground arith in
    let known : (eq_text m (codes "ro") || eq_text m (codes "rw")) ≡ true = ground arith in
    let modes : (m ≡ codes "ro") ⊎ (m ≡ codes "rw") = elim (Bool-cases (eq_text m (codes "ro"))) [
      | inl e ↦ inl ((eq_text_iff m (codes "ro")).0 e)
      | inr e ↦ inr ((eq_text_iff m (codes "rw")).0 (ground arith))
    ] in
    elim (Bool-cases (starts_with s (codes "/boot/config/plugins/incus/bind-mounts/"))) [
      | inl e ↦
          let cut = starts_with-append s (codes "/boot/config/plugins/incus/bind-mounts/") e in
          let ro : eq_text m (codes "ro") ≡ true = ground arith in
          let below =
            boot-IsUnder (drop 39 s) (subst (λ x. has_parent_segment x ≡ false) cut free) in
          (
            modes,
            inr (
              subst (IsUnder boot_prefix boot_dir) (sym cut) below,
              (eq_text_iff m (codes "ro")).0 ro,
            ),
          )
      | inr e ↦ (modes, inl (under_array-IsArrayPath s free (ground arith)))
    ]

item-IsConfined : (item : Text) → is_safe_item item ≡ true → IsConfined item
unfolding is_safe_item is_safe_parts
item-IsConfined item h = of (split_on 58 item) refl h
  where
    of :
        (parts : List Text)
        → split_on 58 item ≡ parts
        → is_safe_parts parts ≡ true
        → IsConfined item
    of (s ∷ t ∷ []) e h =
        let (known, below) = mount-IsConfined s t (codes "ro") h in
        (s, t, codes "ro", inl (e, refl), known, below)
    of (s ∷ t ∷ m ∷ []) e h =
        let (known, below) = mount-IsConfined s t (mode_of m) h in
        (s, t, mode_of m, inr (m, e, refl), known, below)
    of _ e h = absurd (cc)

every-IsConfined : (items : List Text) → every is_safe_item items ≡ true → All IsConfined items
every-IsConfined [] h = tt
every-IsConfined (l ∷ ls) h = (item-IsConfined l (ground arith), every-IsConfined ls (ground arith))

-- In a list of bind mounts that the form's check accepts and that is not empty, every item has a
-- source, a target and the mode ro or rw; its source leads, symbolic links left out, to /srv or /mnt or, read-only, to the
-- plugin's bind-mounts directory, and from there down by the names that stand behind that prefix. It is the directory itself
-- where no name stands there.
pub mounts-stay :
    (value : Text)
    → is_safe_bind_mounts_syntax value ≡ true
    → value ≢ []
    → All IsConfined (split_on 44 value)
unfolding is_safe_bind_mounts_syntax
mounts-stay [] h n = absurd (n refl)
mounts-stay (c ∷ v) h n = every-IsConfined (split_on 44 (c ∷ v)) h
