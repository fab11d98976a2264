-- ===== src/Images/Master.antt =====
-- unraid-api-plugin-incus/src/incus-image-builder.service.ts: the registry of images never has two
-- images of one alias, nor two masters.
use incus_unraid.Prelude.{
  ℕ, ◌+◌, ◌≤◌, Bool, true, false, ◌||◌, ◌≡◌, refl, ap, ◌∙◌, ◌⊎◌, inl, inr, Option, none, some, List,
  [], ◌∷◌, if◌then◌else◌, Bool-cases, Text, eq_text, eq_text_iff, arith,
}
use incus_unraid.Images.Registry.{
  ok, throws, ImageRecord, alias_of, put, remove, has_key, find, choose, clear, set_master_image,
  untrack_image, record_image_built,
}
use incus_unraid.Images.Unique.{
  IsUnique, has_key-put, has_key-remove-same, put-IsUnique, remove-IsUnique,
}

unfoldable pub masters : List ImageRecord → ℕ
masters [] = 0
masters (i ∷ images) = (if i.is_master then 1 else 0) + masters images

-- One image to an alias, one master at most.
pub record IsRegistry (images : List ImageRecord) : Type 0 where
  pub unique : IsUnique alias_of images
  pub one_master : masters images ≤ 1

masters-put :
    (item : ImageRecord) (images : List ImageRecord)
    → item.is_master ≡ false
    → masters (put alias_of item images) ≤ masters images
unfolding masters put
masters-put item [] h = rw h (omega arith)
masters-put item (i ∷ images) h = elim (Bool-cases (eq_text i.alias item.alias)) [
  | inl e ↦ rw e (rw h (omega arith))
  | inr e ↦ rw e (omega (arith, masters-put item images h))
]

masters-remove :
    (k : Text) (images : List ImageRecord) → masters (remove alias_of k images) ≤ masters images
unfolding masters remove
masters-remove k [] = omega arith
masters-remove k (i ∷ images) = elim (Bool-cases (eq_text i.alias k)) [
  | inl e ↦ rw e (omega arith)
  | inr e ↦ rw e (omega (arith, masters-remove k images))
]

masters-clear : (k : Text) (images : List ImageRecord) → masters (clear k images) ≤ masters images
unfolding masters clear
masters-clear k [] = omega arith
masters-clear k (i ∷ images) = elim (Bool-cases (eq_text i.alias k)) [
  | inl e ↦ rw e (omega arith)
  | inr e ↦ rw e (omega (arith, masters-clear k images))
]

has_key-clear :
    (k j : Text) (images : List ImageRecord)
    → has_key alias_of j (clear k images) ≡ has_key alias_of j images
unfolding has_key clear
has_key-clear k j [] = refl
has_key-clear k j (i ∷ images) = elim (Bool-cases (eq_text i.alias k)) [
  | inl e ↦ rw e refl
  | inr e ↦ rw e (rw (has_key-clear k j images) refl)
]

clear-IsUnique :
    (k : Text) (images : List ImageRecord)
    → IsUnique alias_of images
    → IsUnique alias_of (clear k images)
unfolding clear
clear-IsUnique k [] u = tt
clear-IsUnique k (i ∷ images) u = elim (Bool-cases (eq_text i.alias k)) [
  | inl e ↦ rw e u
  | inr e ↦ rw e (has_key-clear k i.alias images ∙ u.0, clear-IsUnique k images u.1)
]

has_key-choose :
    (k j : Text) (images : List ImageRecord)
    → has_key alias_of j (choose k images) ≡ has_key alias_of j images
unfolding has_key choose
has_key-choose k j [] = refl
has_key-choose k j (i ∷ images) = ap (λ b. eq_text i.alias j || b) (has_key-choose k j images)

choose-IsUnique :
    (k : Text) (images : List ImageRecord)
    → IsUnique alias_of images
    → IsUnique alias_of (choose k images)
unfolding choose
choose-IsUnique k [] u = tt
choose-IsUnique k (i ∷ images) u =
    (has_key-choose k i.alias images ∙ u.0, choose-IsUnique k images u.1)

-- The chosen image is the only master, where the alias is there.
masters-choose :
    (k : Text) (images : List ImageRecord)
    → IsUnique alias_of images
    → masters (choose k images) ≡ (if has_key alias_of k images then 1 else 0)
unfolding masters choose has_key
masters-choose k [] u = refl
masters-choose k (i ∷ images) u = elim (Bool-cases (eq_text i.alias k)) [
  | inl e ↦
      let none_else : has_key alias_of k images ≡ false = rw ((eq_text_iff i.alias k).0 e) at u.0 in
      let rest = masters-choose k images u.1 in
      let no_more = rw none_else at rest in rw e (omega arith)
  | inr e ↦ let rest = masters-choose k images u.1 in rw e (omega arith)
]

find-cases :
    (k : Text) (images : List ImageRecord)
    → ((find alias_of k images ≡ none) × (has_key alias_of k images ≡ false))
      ⊎ ((i : ImageRecord) × (find alias_of k images ≡ some i) × (has_key alias_of k images ≡ true))
unfolding find has_key
find-cases k [] = inl (refl, refl)
find-cases k (i ∷ images) = elim (Bool-cases (eq_text i.alias k)) [
  | inl e ↦ inr (i, rw e refl, rw e refl)
  | inr e ↦ rw e (find-cases k images)
]

module _ (k : Text) (images : List ImageRecord) (h : IsRegistry images) where
  -- In a registry of one image to an alias and at most one master, setting the flag of an unknown alias throws;
  -- setting that of a known one returns, keeps the registry such, and where it is set to true leaves exactly one
  -- master.
  pub set_master_image_lem :
      (is_master : Bool)
      → ((has_key alias_of k images ≡ false) × (set_master_image k is_master images ≡ throws))
        ⊎ ((has_key alias_of k images ≡ true)
            × ((images' : List ImageRecord) × (image : ImageRecord) × (set_master_image k is_master
                    images
                  ≡ ok (image, images'))
                × IsRegistry images'
                × (is_master ≡ true → masters images' ≡ 1)))
  unfolding set_master_image
  set_master_image_lem b = elim (find-cases k images) [
    | inl (f, there) ↦ inl (there, rw (f, set_master_image) refl)
    | inr (i, f, there) ↦ inr (
      there,
      elim (Bool-cases b) [
        | inl e ↦
            let one : masters (choose k images) ≡ 1 =
              masters-choose k images h.unique ∙ rw there refl in
            let kept : IsRegistry (choose k images) = record {
              unique = choose-IsUnique k images h.unique;
              one_master = omega arith;
            } in
            (
              choose k images,
              record i { is_master = b },
              rw (f, set_master_image) (rw e refl),
              kept,
              λ _. one,
            )
        | inr e ↦
            let fewer = masters-clear k images in
            let before = h.one_master in
            let kept : IsRegistry (clear k images) = record {
              unique = clear-IsUnique k images h.unique;
              one_master = omega arith;
            } in
            (
              clear k images,
              record i { is_master = b },
              rw (f, set_master_image) (rw e refl),
              kept,
              λ x. absurd (cc),
            )
      ],
    )
  ]

  -- Recording a build in a registry of one image to an alias and at most one master keeps it one, and the build's
  -- alias is then there.
  pub record_image_built-IsRegistry :
      (distro release : Text) (packages : List Text) (based_on : Option Text) (created_at : Text)
      → IsRegistry (record_image_built k distro release packages based_on created_at images)
        × (has_key alias_of k
              (record_image_built k distro release packages based_on created_at images)
            ≡ true)
  unfolding record_image_built
  record_image_built-IsRegistry d r p b c =
      let item : ImageRecord = record {
        alias = k;
        distro = d;
        release = r;
        packages = p;
        is_master = false;
        based_on = b;
        created_at = c;
      } in
      let fewer = masters-put item images refl in
      let before = h.one_master in
      let same : eq_text k k ≡ true = (eq_text_iff k k).1 refl in
      (
        record { unique = put-IsUnique alias_of item images h.unique; one_master = omega arith },
        has_key-put alias_of k item images ∙ rw same refl,
      )

  -- Untracking an image in a registry of one image to an alias and at most one master returns whether the alias was
  -- there, keeps the registry one, and leaves no image of that alias.
  pub untrack_image_lem :
      (images' : List ImageRecord) × (untrack_image k images
        ≡ ok (has_key alias_of k images, images'))
      × IsRegistry images'
      × (has_key alias_of k images' ≡ false)
  unfolding untrack_image
  untrack_image_lem = elim (Bool-cases (has_key alias_of k images)) [
    | inl e ↦
        let fewer = masters-remove k images in
        let before = h.one_master in
        let kept : IsRegistry (remove alias_of k images) = record {
          unique = remove-IsUnique alias_of k images h.unique;
          one_master = omega arith;
        } in
        (remove alias_of k images, rw e refl, kept, has_key-remove-same alias_of k images h.unique)
    | inr e ↦ (images, rw e refl, h, e)
  ]
