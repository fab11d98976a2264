-- ===== src/Images/Unique.antt =====
-- unraid-api-plugin-incus/src/json-store.ts: a registry never has two items of one key.
use incus_unraid.Prelude.{
  false, ◌||◌, ◌≡◌, refl, ◌∙◌, inl, inr, List, [], ◌∷◌, Bool-cases, Text, eq_text, eq_text_iff,
  arith,
}
use incus_unraid.Images.Registry.{put, remove, has_key}

module _ {T : Type 0} (key : T → Text) where
  -- No two items have one key.
  abbrev pub IsUnique : List T → Type 0
  IsUnique [] = Unit
  IsUnique (x ∷ items) = (has_key key (key x) items ≡ false) × IsUnique items

  pub has_key-put :
      (k : Text) (item : T) (items : List T)
      → has_key key k (put key item items) ≡ (eq_text (key item) k || has_key key k items)
  unfolding put has_key
  has_key-put k item [] = refl
  has_key-put k item (x ∷ items) = ground (
    arith,
    eq_text_iff (key x) (key item),
    eq_text_iff (key x) k,
    eq_text_iff (key item) k,
    has_key-put k item items,
  )

  has_key-remove :
      (k j : Text) (items : List T)
      → has_key key j items ≡ false
      → has_key key j (remove key k items) ≡ false
  unfolding remove has_key
  has_key-remove k j [] h = refl
  has_key-remove k j (x ∷ items) h = ground (arith, has_key-remove k j items)

  pub put-IsUnique : (item : T) (items : List T) → IsUnique items → IsUnique (put key item items)
  unfolding put has_key
  put-IsUnique item [] u = (refl, tt)
  put-IsUnique item (x ∷ items) u = elim (Bool-cases (eq_text (key x) (key item))) [
    | inl e ↦ rw e (rw ((eq_text_iff (key x) (key item)).0 e) at u.0, u.1)
    | inr e ↦
        let other : eq_text (key item) (key x) ≡ false =
          ground (arith, eq_text_iff (key x) (key item), eq_text_iff (key item) (key x)) in
        rw e (has_key-put (key x) item items ∙ rw other u.0, put-IsUnique item items u.1)
  ]

  pub remove-IsUnique : (k : Text) (items : List T) → IsUnique items → IsUnique (remove key k items)
  unfolding remove
  remove-IsUnique k [] u = tt
  remove-IsUnique k (x ∷ items) u = elim (Bool-cases (eq_text (key x) k)) [
    | inl e ↦ rw e u.1
    | inr e ↦ rw e (has_key-remove k (key x) items u.0, remove-IsUnique k items u.1)
  ]

  -- A removed key is gone, where no two items have one key.
  pub has_key-remove-same :
      (k : Text) (items : List T) → IsUnique items → has_key key k (remove key k items) ≡ false
  unfolding remove has_key
  has_key-remove-same k [] u = refl
  has_key-remove-same k (x ∷ items) u = elim (Bool-cases (eq_text (key x) k)) [
    | inl e ↦ rw e (rw ((eq_text_iff (key x) k).0 e) at u.0)
    | inr e ↦ rw e (rw (e, has_key) (has_key-remove-same k items u.1))
  ]
