-- ===== src/Entity/Inert.antt =====
-- unraid-api-plugin-incus/src/config.entity.ts: the characters that the checks on paths leave out.
use mathlib.Core.Path.{subst}
use incus_unraid.Prelude.{
  sym, ℕ, Bool, true, false, ◌≡◌, refl, inl, inr, List, [], ◌∷◌, All, every, nat_beq, nat_beq_iff,
  Text, codes, eq_text, eq_text_iff, has_char, split_on, push_first, Bool-cases, arith,
}
use incus_unraid.Entity.{
  is_path_char, safe_path, is_safe_workspace_root_syntax, is_safe_bind_mount, mode_of,
  is_safe_parts, is_safe_item, is_safe_bind_mounts_syntax,
}

slash_char : is_path_char 47 ≡ true
unfolding is_path_char
slash_char = refl

module _ (c : ℕ) where
  abbrev Lacks : Text → Type 0
  Lacks s = has_char c s ≡ false

  every-Lacks : (p : ℕ → Bool) (s : Text) → p c ≡ false → every p s ≡ true → has_char c s ≡ false
  unfolding has_char
  every-Lacks p [] n h = refl
  every-Lacks p (d ∷ s) n h = elim (Bool-cases (nat_beq d c)) [
    | inl e ↦
        let same : d ≡ c = (nat_beq_iff d c).0 e in
        let here : p d ≡ true = ground arith in absurd (cc)
    | inr e ↦ rw e (every-Lacks p s n (ground arith))
  ]

  push_first-Lacks :
      (d : ℕ) (ls : List Text) → All Lacks (push_first d ls) → (nat_beq d c ≡ false) × All Lacks ls
  unfolding has_char
  push_first-Lacks d [] (h, _) = (ground arith, tt)
  push_first-Lacks d (l ∷ ls) (h, hs) = (ground arith, (ground arith, hs))

  split_on-Lacks :
      (sep : ℕ) (s : Text) → nat_beq sep c ≡ false → All Lacks (split_on sep s) → Lacks s
  unfolding has_char split_on
  split_on-Lacks sep [] n h = refl
  split_on-Lacks sep (d ∷ s) n h = elim (Bool-cases (nat_beq d sep)) [
    | inl e ↦
        let same : d ≡ sep = (nat_beq_iff d sep).0 e in
        let there : Lacks s = split_on-Lacks sep s n ((rw e at h).1) in rw (same, n) there
    | inr e ↦
        let (here, rest) = push_first-Lacks d (split_on sep s) (rw e at h) in
        rw here (split_on-Lacks sep s n rest)
  ]

  module _ (outside : is_path_char c ≡ false) (comma : nat_beq 44 c ≡ false)
      (colon : nat_beq 58 c ≡ false) (ro : has_char c (codes "ro") ≡ false)
      (rw_mode : has_char c (codes "rw") ≡ false) where
    safe_path-Lacks : (s : Text) → safe_path s ≡ true → Lacks s
    unfolding safe_path has_char
    safe_path-Lacks [] h = refl
    safe_path-Lacks (d ∷ []) h = absurd (cc)
    safe_path-Lacks (d ∷ e ∷ s) h =
        let slash : d ≡ 47 = (nat_beq_iff d 47).0 (ground arith) in
        let rest : every is_path_char (e ∷ s) ≡ true = ground arith in
        let path : every is_path_char (d ∷ e ∷ s) ≡ true = rw (slash, slash_char) rest in
        every-Lacks is_path_char (d ∷ e ∷ s) outside path

    pub root-Lacks : (s : Text) → is_safe_workspace_root_syntax s ≡ true → has_char c s ≡ false
    unfolding is_safe_workspace_root_syntax
    root-Lacks s h = safe_path-Lacks s (ground arith)

    mount-Lacks :
        (source target mode : Text)
        → is_safe_bind_mount source target mode ≡ true
        → Lacks source × Lacks target × Lacks mode
    unfolding is_safe_bind_mount
    mount-Lacks source target mode h =
        let from : safe_path source ≡ true = ground arith in
        let to : safe_path target ≡ true = ground arith in
        (
          safe_path-Lacks source from,
          safe_path-Lacks target to,
          elim (Bool-cases (eq_text mode (codes "ro"))) [
            | inl e ↦ subst (λ m. Lacks m) (sym ((eq_text_iff mode (codes "ro")).0 e)) ro
            | inr e ↦
                let writes : eq_text mode (codes "rw") ≡ true = ground arith in
                subst (λ m. Lacks m) (sym ((eq_text_iff mode (codes "rw")).0 writes)) rw_mode
          ],
        )

    mode_of-Lacks : (m : Text) → Lacks (mode_of m) → Lacks m
    unfolding mode_of has_char
    mode_of-Lacks [] h = refl
    mode_of-Lacks (d ∷ m) h = h

    parts-Lacks : (ps : List Text) → is_safe_parts ps ≡ true → All Lacks ps
    unfolding is_safe_parts
    parts-Lacks (s ∷ t ∷ []) h = let (a, b, _) = mount-Lacks s t (codes "ro") h in (a, (b, tt))
    parts-Lacks (s ∷ t ∷ m ∷ []) h =
        let (a, b, e) = mount-Lacks s t (mode_of m) h in (a, (b, (mode_of-Lacks m e, tt)))
    parts-Lacks _ h = absurd (cc)

    item-Lacks : (item : Text) → is_safe_item item ≡ true → Lacks item
    unfolding is_safe_item
    item-Lacks item h = split_on-Lacks 58 item colon (parts-Lacks (split_on 58 item) h)

    items-Lacks : (items : List Text) → every is_safe_item items ≡ true → All Lacks items
    items-Lacks [] h = tt
    items-Lacks (l ∷ ls) h = (item-Lacks l (ground arith), items-Lacks ls (ground arith))

    pub mounts-Lacks : (s : Text) → is_safe_bind_mounts_syntax s ≡ true → has_char c s ≡ false
    unfolding is_safe_bind_mounts_syntax has_char
    mounts-Lacks [] h = refl
    mounts-Lacks (d ∷ s) h = split_on-Lacks 44 (d ∷ s) comma (items-Lacks (split_on 44 (d ∷ s)) h)
