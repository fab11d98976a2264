-- ===== src/ConfigSync/Reads.antt =====
-- The whole of updateShellConfig read back by parseShellConfig.
use incus_unraid.Prelude.{
  Text, true, not, ◌||◌, ◌≡◌, refl, sym, ap, ◌∙◌, some, none, Option, Option-cases, Bool-cases, inl,
  inr, List, [], ◌∷◌, ◌++◌, arith, has_char, All, length, lookup, text_eq,
}
use incus_unraid.Prelude.TextLaws.{has_char-append, has_char-substring}
use incus_unraid.Config.{ConfigKey, Object, get}
use incus_unraid.ConfigSync.Mapping.{key_map, format_shell_value}
use incus_unraid.ConfigSync.Shell.{
  assignment, shell_key, target, written, kept_comment, is_defined, rewrite_line, split_lines,
  find_unquoted_hash, rewrite_for, new_lines, seen, appended_line, appended, parse_shell_config,
  update_shell_config,
}
use incus_unraid.ConfigSync.Quoting.{quoted, shell_single_quote-inert}
use incus_unraid.ConfigSync.Names.{IsName, is_name_char, has_char-every, assignment-IsPart}
use incus_unraid.ConfigSync.Lines.{OneLine, split_lines-OneLine, parse_lines-join}
use incus_unraid.ConfigSync.Written.{find_key-shell_key, shell_key-find_key}
use incus_unraid.ConfigSync.Update.{
  last_value, lookup-parse_lines, last_value-append, IsInertUpdate, IsInert-get, target-Targets,
}
use incus_unraid.ConfigSync.RoundTrip.{
  has_key-defined, new_lines-untargeted, appended-untargeted, new_lines-targeted, appended-targeted,
}

-- Every line of the new file is one line.
quoted-OneLine : (s : Text) → OneLine s → OneLine (quoted s)
quoted-OneLine s h = rw (has_char-append b'\n' (b'\'' ∷ s) (b'\'' ∷ [])) (unfold has_char in rw h)

IsName-OneLine : (name : Text) → IsName name → OneLine name
IsName-OneLine [] n = absurd n
IsName-OneLine (c ∷ s) n = has_char-every b'\n' (c ∷ s) (unfold is_name_char in refl) n

written-OneLine :
    (u : Object) (name : Text) (k : ConfigKey)
    → IsInertUpdate u
    → shell_key k key_map ≡ some name
    → is_defined (get k u) ≡ true
    → OneLine (written name k (get k u))
unfolding written
written-OneLine u name k i e d =
    let val = format_shell_value k (get k u) in
    let inert = IsInert-get u k i d in
    rw (shell_single_quote-inert val inert.0) (
      has_char-append b'\n' name (b'=' ∷ quoted val)
      ∙ rw (IsName-OneLine name (find_key-shell_key k e).1)
          (unfold has_char in quoted-OneLine val inert.1))

kept_comment-OneLine : (val : Text) → OneLine val → OneLine (kept_comment val)
unfolding kept_comment
kept_comment-OneLine val h = elim (Option-cases (find_unquoted_hash val)) [
  | inl e ↦ rw (e, kept_comment) (unfold has_char in refl)
  | inr (i, e) ↦
      rw (e, kept_comment) (unfold has_char in has_char-substring b'\n' i (length val) val h)
]

rewrite_line-OneLine :
    (u : Object) (line : Text) → IsInertUpdate u → OneLine line → OneLine (rewrite_line u line).0
unfolding rewrite_line
rewrite_line-OneLine u line i h = elim (Option-cases (assignment line)) [
  | inl e ↦ rw (e, rewrite_for) h
  | inr ((key, val), e) ↦ elim (Option-cases (target u key)) [
    | inl t ↦ rw (e, rewrite_for) (rw t h)
    | inr (k, t) ↦
        let (found, defined) = target-Targets u key t in
        let whole = written-OneLine u key k i (shell_key-find_key key found) defined in
        let kept = kept_comment-OneLine val ((assignment-IsPart b'\n' line e).1 h) in
        rw (e, rewrite_for)
          (rw t
            (has_char-append b'\n' (written key k (get k u)) (kept_comment val) ∙ rw whole kept))
  ]
]

new_lines-OneLine :
    (u : Object) (lines : List Text)
    → IsInertUpdate u
    → All OneLine lines
    → All OneLine (new_lines u lines)
unfolding new_lines
new_lines-OneLine u [] i h = tt
new_lines-OneLine u (l ∷ ls) i h = (rewrite_line-OneLine u l i h.0, new_lines-OneLine u ls i h.1)

All-append : (P : Text → Type 0) (ls ms : List Text) → All P ls → All P ms → All P (ls ++ ms)
All-append P [] ms h g = g
All-append P (l ∷ ls) ms h g = (h.0, All-append P ls ms h.1 g)

appended_line-OneLine :
    (u : Object) (lines : List Text) (k : ConfigKey)
    → IsInertUpdate u
    → All OneLine (appended_line u lines k)
unfolding appended_line
appended_line-OneLine u lines k i =
    elim (Bool-cases (not (is_defined (get k u)) || seen u lines k)) [
      | inl e ↦ rw (e, appended_line) tt
      | inr e ↦ elim (Option-cases (shell_key k key_map)) [
        | inl f ↦ rw (e, appended_line) (rw f tt)
        | inr (name, f) ↦
            rw (e, appended_line) (rw f (written-OneLine u name k i f (ground arith), tt))
      ]
    ]

appended-OneLine :
    (u : Object) (lines : List Text) (rest : Object)
    → IsInertUpdate u
    → All OneLine (appended u lines rest)
unfolding appended
appended-OneLine u lines [] i = tt
appended-OneLine u lines ((k, v) ∷ rest) i =
    All-append OneLine (appended_line u lines k) (appended u lines rest)
      (appended_line-OneLine u lines k i) (appended-OneLine u lines rest i)

-- what a key reads in the new file: its new value, or else what it read
abbrev pub after_update : Object → Option ConfigKey → Option Text → Option Text
after_update u none old = old
after_update u (some k) old = some (format_shell_value k (get k u))

update_lines-reads :
    (u : Object) (n : Text) (lines : List Text)
    → IsInertUpdate u
    → last_value n (new_lines u lines ++ appended u lines u) none
      ≡ after_update u (target u n) (last_value n lines none)
update_lines-reads u n lines i = elim (Option-cases (target u n)) [
  | inl t ↦
      last_value-append n (new_lines u lines) (appended u lines u) none
      ∙ appended-untargeted u i n lines u _ t
      ∙ new_lines-untargeted u i n lines none t
      ∙ rw t
  | inr (k, t) ↦
      last_value-append n (new_lines u lines) (appended u lines u) none
      ∙ appended-targeted u i n k t lines u _
      ∙ ground (
        arith,
        has_key-defined k u (target-Targets u n t).1,
        new_lines-targeted u i n k t lines none,
      )
]

-- After an update whose values hold no single quote and no line break, every shell key reads what
-- the update sets for it, and every other key reads what it read before.
pub update-reads :
    (content : Text) (u : Object) (n : Text)
    → IsInertUpdate u
    → lookup n (parse_shell_config (update_shell_config content u))
      ≡ after_update u (target u n) (lookup n (parse_shell_config content))
unfolding parse_shell_config update_shell_config lookup
update-reads content u n i =
    let lines = split_lines content in
    let new = new_lines u lines ++ appended u lines u in
    let whole =
      All-append OneLine (new_lines u lines) (appended u lines u)
        (new_lines-OneLine u lines i (split_lines-OneLine content))
        (appended-OneLine u lines u i) in
    ap (lookup n) (parse_lines-join new [] whole)
    ∙ lookup-parse_lines n new []
    ∙ update_lines-reads u n lines i
    ∙ ap (after_update u (target u n)) (sym (lookup-parse_lines n lines []))
