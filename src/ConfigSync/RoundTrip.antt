-- ===== src/ConfigSync/RoundTrip.antt =====
-- The shell file after an update: the keys that the update sets read the new values, and every
-- other key reads what it read before.
use mathlib.Core.Path.{subst}
use mathlib.Core.List.{append-nil}
use incus_unraid.Prelude.{
  ◌≢◌, Text, Bool, true, false, not, ◌&&◌, ◌||◌, ◌≡◌, refl, sym, ap, ◌∙◌, some, none, Option,
  Option-cases, Bool-cases, inl, inr, List, [], ◌∷◌, arith, eq_text, eq_text_iff, if◌then◌else◌,
  lookup, text_eq,
}
use incus_unraid.Config.{ConfigKey, key_eq, eq_key, Object, get, eq_key_iff}
use incus_unraid.ConfigSync.Mapping.{key_map, format_shell_value}
use incus_unraid.ConfigSync.Shell.{
  assignment, shell_key, target, written, is_defined, new_lines, seen, appended_line, appended,
}
use incus_unraid.ConfigSync.Quoting.{bare, parse_value-quoted}
use incus_unraid.ConfigSync.Written.{assignment-written, find_key-shell_key, shell_key-find_key}
use incus_unraid.ConfigSync.Update.{
  value_at, last_value, last_value-append, IsInertUpdate, IsInert-get, Targets-target,
  target-Targets, value-untargeted, value-targeted,
}

-- k in o
abbrev pub has_key : ConfigKey → Object → Bool
has_key k [] = false
has_key k ((j, v) ∷ o) = eq_key j k || has_key k o

pub has_key-defined :
    (k : ConfigKey) (o : Object) → is_defined (get k o) ≡ true → has_key k o ≡ true
unfolding get lookup
has_key-defined k [] h = absurd (cc)
has_key-defined k ((j, v) ∷ o) h = elim (Bool-cases (eq_key j k)) [
  | inl e ↦ rw e
  | inr e ↦ rw e (has_key-defined k o (rw e at h))
]

module _ (u : Object) (i : IsInertUpdate u) where
  -- the value that a whole written line gives to its own key
  value-written :
      (n name : Text) (j : ConfigKey) (o : Option Text)
      → shell_key j key_map ≡ some name
      → is_defined (get j u) ≡ true
      → value_at n (assignment (written name j (get j u))) o
        ≡ (if eq_text name n then some (format_shell_value j (get j u)) else o)
  value-written n name j o e d =
      let inert = IsInert-get u j i d in
      let val = format_shell_value j (get j u) in
      let read = assignment-written name j (get j u) (find_key-shell_key j e).1 inert bare in
      rw (ap assignment (sym (append-nil (written name j (get j u)))) ∙ read)
        (ap (λ t. if eq_text name n then some t else o) (parse_value-quoted val inert.0 bare))

  module _ (n : Text) where
    pub new_lines-untargeted :
        (lines : List Text) (o : Option Text)
        → target u n ≡ none
        → last_value n (new_lines u lines) o ≡ last_value n lines o
    unfolding last_value new_lines
    new_lines-untargeted [] o h = refl
    new_lines-untargeted (l ∷ ls) o h =
        ap (last_value n (new_lines u ls)) (value-untargeted u n i l o h)
        ∙ new_lines-untargeted ls (value_at n (assignment l) o) h

    -- a line appended for a key that `n` does not lead to
    appended_line-other :
        (lines : List Text) (j : ConfigKey) (o : Option Text)
        → target u n ≢ some j
        → last_value n (appended_line u lines j) o ≡ o
    unfolding last_value appended_line
    appended_line-other lines j o h =
        elim (Bool-cases (not (is_defined (get j u)) || seen u lines j)) [
          | inl e ↦ rw (e, appended_line)
          | inr e ↦ elim (Option-cases (shell_key j key_map)) [
            | inl f ↦ rw (e, appended_line) (rw f)
            | inr (name, f) ↦
                let defined : is_defined (get j u) ≡ true = ground arith in
                let hit = Targets-target u name ((find_key-shell_key j f).0, defined) in
                rw (e, appended_line)
                  (rw f (
                    value-written n name j o f defined ∙ elim (Bool-cases (eq_text name n)) [
                      | inl g ↦
                          absurd
                            (h (subst (λ m. target u m ≡ some j) ((eq_text_iff name n).0 g) hit))
                      | inr g ↦ rw g
                    ]))
          ]
        ]

    pub appended-untargeted :
        (lines : List Text) (rest : Object) (o : Option Text)
        → target u n ≡ none
        → last_value n (appended u lines rest) o ≡ o
    unfolding appended last_value
    appended-untargeted lines [] o h = refl
    appended-untargeted lines ((j, v) ∷ rest) o h =
        last_value-append n (appended_line u lines j) (appended u lines rest) o
        ∙ appended-untargeted lines rest _ h
        ∙ appended_line-other lines j o (λ e. absurd (cc))

    module _ (k : ConfigKey) (h : target u n ≡ some k) where
      abbrev pub fresh : Text
      fresh = format_shell_value k (get k u)

      pub new_lines-targeted :
          (lines : List Text) (o : Option Text)
          → last_value n (new_lines u lines) o ≡ (if seen u lines k then some fresh else o)
      unfolding last_value new_lines seen
      new_lines-targeted [] o = refl
      new_lines-targeted (l ∷ ls) o =
          ap (last_value n (new_lines u ls)) (value-targeted u n i k h l o)
          ∙ new_lines-targeted ls _
          ∙ ground arith

      appended_line_self :
          (lines : List Text) (o : Option Text)
          → last_value n (appended_line u lines k) o
            ≡ (if not (seen u lines k) then some fresh else o)
      unfolding last_value appended_line
      appended_line_self lines o =
          let (found, defined) = target-Targets u n h in
          let name = shell_key-find_key n found in
          elim (Bool-cases (seen u lines k)) [
            | inl e ↦ rw (e, appended_line) (rw defined)
            | inr e ↦
                rw (e, appended_line)
                  (rw defined
                    (rw name (value-written n n k o name defined ∙ rw ((eq_text_iff n n).1 refl))))
          ]

      appended_line-targeted :
          (lines : List Text) (j : ConfigKey) (o : Option Text)
          → last_value n (appended_line u lines j) o
            ≡ (if eq_key j k && not (seen u lines k) then some fresh else o)
      appended_line-targeted lines j o = elim (Bool-cases (eq_key j k)) [
        | inl e ↦ rw e (
            subst
              (λ m.
                last_value n (appended_line u lines m) o
                ≡ (if not (seen u lines k) then some fresh else o))
              (sym ((eq_key_iff j k).0 e)) (appended_line_self lines o))
        | inr e ↦ rw e (
            appended_line-other lines j o
              (λ f. (let same : j ≡ k = cc in absurd (let g = (eq_key_iff j k).1 same in cc))))
      ]

      pub appended-targeted :
          (lines : List Text) (rest : Object) (o : Option Text)
          → last_value n (appended u lines rest) o
            ≡ (if has_key k rest && not (seen u lines k) then some fresh else o)
      unfolding appended last_value
      appended-targeted lines [] o = refl
      appended-targeted lines ((j, v) ∷ rest) o =
          last_value-append n (appended_line u lines j) (appended u lines rest) o
          ∙ appended-targeted lines rest _
          ∙ ground (arith, appended_line-targeted lines j o)
