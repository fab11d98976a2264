-- ===== src/Images/Registry.antt =====
-- unraid-api-plugin-incus/src/json-store.ts, and the registries kept with it: the images of
-- incus-image-builder.service.ts, the presets of incus-builder-presets.service.ts.
use incus_unraid.Prelude.{
  Bool, true, false, ◌||◌, Option, none, some, List, [], ◌∷◌, if◌then◌else◌, Text, eq_text,
}

-- The registry's file: missing, not what `validate` accepts or not readable, or its items.
pub data File (T : Type 0) : Type 0 where
  missing invalid : File T
  holds : List T → File T

pub data Result (R : Type 0) : Type 0 where
  ok : R → Result R
  throws : Result R

-- JsonArrayStore.read
unfoldable pub read : {T : Type 0} → File T → Result (List T)
read missing = ok []
read invalid = throws
read (holds items) = ok items

-- JsonArrayStore.update: `writes` says whether the write succeeds. The file is replaced by a rename,
-- so it keeps its content where anything throws.
unfoldable pub update :
    {T R : Type 0} → (List T → Result (R × List T)) → Bool → File T → Result R × File T
update mutator writes file = elim (read file) [
  | throws ↦ (throws, file)
  | ok items ↦ elim (mutator items) [
    | throws ↦ (throws, file)
    | ok (result, items') ↦ if writes then (ok result, holds items') else (throws, file)
  ]
]

pub record BuilderPreset : Type 0 where
  pub name : Text
  pub distro : Text
  pub release : Text
  pub packages : List Text

pub record ImageRecord : Type 0 where
  pub alias : Text
  pub distro : Text
  pub release : Text
  pub packages : List Text
  pub is_master : Bool
  pub based_on : Option Text
  pub created_at : Text

module _ {T : Type 0} (key : T → Text) where
  -- findIndex, then `items[idx] = item` or `push`
  unfoldable pub put : T → List T → List T
  put item [] = item ∷ []
  put item (x ∷ items) = if eq_text (key x) (key item) then item ∷ items else x ∷ put item items

  -- findIndex, then `splice(idx, 1)`
  unfoldable pub remove : Text → List T → List T
  remove k [] = []
  remove k (x ∷ items) = if eq_text (key x) k then items else x ∷ remove k items

  unfoldable pub has_key : Text → List T → Bool
  has_key k [] = false
  has_key k (x ∷ items) = eq_text (key x) k || has_key k items

  unfoldable pub find : Text → List T → Option T
  find k [] = none
  find k (x ∷ items) = if eq_text (key x) k then some x else find k items

abbrev pub alias_of : ImageRecord → Text
alias_of i = i.alias

abbrev pub name_of : BuilderPreset → Text
name_of p = p.name

-- save and remove of the presets
unfoldable pub save_preset :
    BuilderPreset → List BuilderPreset → Result (BuilderPreset × List BuilderPreset)
save_preset preset presets = ok (preset, put name_of preset presets)

unfoldable pub remove_preset : Text → List BuilderPreset → Result (Bool × List BuilderPreset)
remove_preset name presets =
    if has_key name_of name presets
    then ok (true, remove name_of name presets)
    else ok (false, presets)

-- image.isMaster = image.alias === alias, for every image
unfoldable pub choose : Text → List ImageRecord → List ImageRecord
choose alias [] = []
choose alias (i ∷ images) = record i { is_master = eq_text i.alias alias } ∷ choose alias images

-- record.isMaster = false, for the image found
unfoldable pub clear : Text → List ImageRecord → List ImageRecord
clear alias [] = []
clear alias (i ∷ images) =
    if eq_text i.alias alias
    then record i { is_master = false } ∷ images
    else i ∷ clear alias images

-- setMasterImage
unfoldable pub set_master_image :
    Text → Bool → List ImageRecord → Result (ImageRecord × List ImageRecord)
set_master_image alias is_master images = elim (find alias_of alias images) [
  | none ↦ throws
  | some image ↦ ok (
    record image { is_master = is_master },
    if is_master then choose alias images else clear alias images,
  )
]

-- untrackImage
unfoldable pub untrack_image : Text → List ImageRecord → Result (Bool × List ImageRecord)
untrack_image alias images =
    if has_key alias_of alias images
    then ok (true, remove alias_of alias images)
    else ok (false, images)

-- recordImageBuilt
unfoldable pub record_image_built :
    Text → Text → Text → List Text → Option Text → Text → List ImageRecord → List ImageRecord
record_image_built alias distro release packages based_on created_at images =
    put alias_of
      (record {
        alias = alias;
        distro = distro;
        release = release;
        packages = packages;
        is_master = false;
        based_on = based_on;
        created_at = created_at;
      })
      images
