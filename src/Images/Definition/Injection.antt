-- ===== src/Images/Definition/Injection.antt =====
-- unraid-api-plugin-incus/src/incus-image-builder.service.ts: the lines of the definition that is
-- written from an accepted input.
use incus_unraid.Prelude.{
  true, false, ◌≡◌, refl, none, some, List, [], ◌∷◌, ◌++◌, All, every, Text, codes, has_char,
  split_on, eq_text, if◌then◌else◌, Bool-cases, inl, inr, Option, Option-cases, Bool, arith,
}
use mathlib.Core.Path.{subst}
use incus_unraid.Prelude.Splits.{OneLine, split_on-join, append-OneLine, All-append-OneLine}
use mathlib.Core.Option.{some-injective}
use incus_unraid.Images.Definition.{
  is_token, is_token_char, validate_build_input, distro_definition, downloader_of, manager_of,
  architecture_of, source_extra, prefixed, head_lines, image_lines, package_lines, is_inherited,
  target_lines, action_lines, definition_lines, render_definition, Distro, debian, ubuntu,
  alpinelinux, rockylinux, almalinux, fedora,
}

every-OneLine : (s : Text) → every is_token_char s ≡ true → OneLine s
unfolding has_char
every-OneLine [] h = refl
every-OneLine (c ∷ s) h = ground (arith, every-OneLine s)

token-OneLine : (s : Text) → is_token s ≡ true → OneLine s
unfolding is_token has_char
token-OneLine [] h = refl
token-OneLine (c ∷ s) h = ground (arith, every-OneLine s)

prefixed-OneLine :
    (p : Text) (ls : List Text) → OneLine p → All OneLine ls → All OneLine (prefixed p ls)
unfolding prefixed
prefixed-OneLine p [] h k = tt
prefixed-OneLine p (l ∷ ls) h k = (append-OneLine p l h k.0, prefixed-OneLine p ls h k.1)

tokens-OneLine : (ls : List Text) → every is_token ls ≡ true → All OneLine ls
tokens-OneLine [] h = tt
tokens-OneLine (l ∷ ls) h = (token-OneLine l (ground arith), tokens-OneLine ls (ground arith))

-- The fields of an entry of the table that end up in lines.
record Flat (d : Distro) : Type 0 where
  downloader : OneLine d.downloader
  manager : OneLine d.manager
  architecture : OneLine d.architecture
  url : OneLine d.url

abbrev AllFlat : Option Distro → Type 0
AllFlat o = (d : Distro) → o ≡ some d → Flat d

choose-Flat :
    (b : Bool) (d : Distro) (o : Option Distro)
    → Flat d
    → AllFlat o
    → AllFlat (if b then some d else o)
choose-Flat false d o f rest x h = rest x h
choose-Flat true d o f rest x h = subst Flat (some-injective d x h) f

none-Flat : AllFlat none
none-Flat x h = absurd (cc)

distro_definition-Flat : (distro : Text) → AllFlat (distro_definition distro)
unfolding distro_definition has_char
distro_definition-Flat distro =
    choose-Flat (eq_text distro (codes "debian")) debian _
      (record { downloader = refl; manager = refl; architecture = refl; url = refl })
      (choose-Flat (eq_text distro (codes "ubuntu")) ubuntu _
        (record { downloader = refl; manager = refl; architecture = refl; url = refl })
        (choose-Flat (eq_text distro (codes "alpinelinux")) alpinelinux _
          (record { downloader = refl; manager = refl; architecture = refl; url = refl })
          (choose-Flat (eq_text distro (codes "rockylinux")) rockylinux _
            (record { downloader = refl; manager = refl; architecture = refl; url = refl })
            (choose-Flat (eq_text distro (codes "almalinux")) almalinux _
              (record { downloader = refl; manager = refl; architecture = refl; url = refl })
              (choose-Flat (eq_text distro (codes "fedora")) fedora _
                (record { downloader = refl; manager = refl; architecture = refl; url = refl })
                (none-Flat))))))

module _ (distro release : Text) (known : OneLine distro) (flat : OneLine release) where
  architecture-OneLine : OneLine (architecture_of distro)
  unfolding architecture_of has_char
  architecture-OneLine = elim (Option-cases (distro_definition distro)) [
    | inl e ↦ rw (e, architecture_of) refl
    | inr (d, e) ↦ rw (e, architecture_of) (distro_definition-Flat distro d e).architecture
  ]

  downloader-OneLine : OneLine (downloader_of distro)
  unfolding downloader_of has_char
  downloader-OneLine = elim (Option-cases (distro_definition distro)) [
    | inl e ↦ rw (e, downloader_of) (ground arith)
    | inr (d, e) ↦ rw (e, downloader_of) (distro_definition-Flat distro d e).downloader
  ]

  manager-OneLine : OneLine (manager_of distro)
  unfolding manager_of has_char
  manager-OneLine = elim (Option-cases (distro_definition distro)) [
    | inl e ↦ rw (e, manager_of) refl
    | inr (d, e) ↦ rw (e, manager_of) (distro_definition-Flat distro d e).manager
  ]

  source_extra-OneLine : All OneLine (source_extra distro release)
  unfolding source_extra has_char
  source_extra-OneLine = elim (Option-cases (distro_definition distro)) [
    | inl e ↦ elim (Bool-cases (is_inherited distro)) [
      | inl i ↦ rw (e, source_extra) (rw i tt)
      | inr i ↦ rw (e, source_extra) (rw i (flat, tt))
    ]
    | inr (d, e) ↦ rw (e, source_extra) ((distro_definition-Flat distro d e).url, tt)
  ]

  image-OneLine : All OneLine (image_lines distro release)
  unfolding has_char
  image-OneLine =
      let tail : OneLine (release ++ codes " agent jail image (built via unraid incus plugin)\"") =
        append-OneLine release _ flat refl in
      let named : OneLine (distro ++ codes "\"") = append-OneLine distro _ known refl in
      let released : OneLine (release ++ codes "\"") = append-OneLine release _ flat refl in
      (
        refl,
        (
          named,
          (
            released,
            (
              architecture-OneLine,
              (append-OneLine distro _ known tail, (refl, (refl, (downloader-OneLine, tt)))),
            ),
          ),
        ),
      )

  package-OneLine : All OneLine (package_lines distro)
  unfolding has_char
  package-OneLine = (refl, (refl, (manager-OneLine, (refl, (refl, (refl, (refl, (refl, tt))))))))

  head-OneLine : All OneLine (head_lines distro release)
  head-OneLine =
      All-append-OneLine (image_lines distro release) _ image-OneLine
        (All-append-OneLine (source_extra distro release) _ source_extra-OneLine package-OneLine)

  actions-OneLine :
      (commands : List Text) → All OneLine commands → All OneLine (action_lines commands)
  unfolding action_lines has_char
  actions-OneLine [] h = tt
  actions-OneLine (c ∷ commands) h = (
    refl,
    (
      refl,
      (
        refl,
        (
          refl,
          (
            refl,
            All-append-OneLine (prefixed (codes "    ") (c ∷ commands)) ([] ∷ [])
                (prefixed-OneLine (codes "    ") (c ∷ commands) refl h) (refl, tt),
          ),
        ),
      ),
    ),
  )

  lines-OneLine :
      (packages commands : List Text)
      → All OneLine packages
      → All OneLine commands
      → All OneLine (definition_lines distro release packages commands)
  unfolding definition_lines has_char
  lines-OneLine packages commands h k =
      All-append-OneLine (head_lines distro release) _ head-OneLine (
        All-append-OneLine (prefixed (codes "    - ") packages) _
          (prefixed-OneLine (codes "    - ") packages refl h)
          (All-append-OneLine target_lines (action_lines commands)
            (refl, (refl, (refl, (refl, tt)))) (actions-OneLine commands k)))

-- Where the input is accepted and no command has a line break, the lines of the YAML text are those the
-- definition is put together from: no name, release or package of the input adds a line.
pub render_definition-lines :
    (distro release : Text) (packages : List Text) (alias : Text) (commands : List Text)
    → validate_build_input distro release packages alias commands ≡ none
    → All OneLine commands
    → split_on 10 (render_definition distro release packages commands)
      ≡ definition_lines distro release packages commands
unfolding validate_build_input render_definition definition_lines
render_definition-lines distro release packages alias commands v h =
    let d : is_token distro ≡ true = ground arith in
    let r : is_token release ≡ true = ground arith in
    let p : every is_token packages ≡ true = ground arith in
    let whole =
      lines-OneLine distro release (token-OneLine distro d) (token-OneLine release r) packages
        commands (tokens-OneLine packages p) h in
    split_on-join (codes "image:") _ whole.0 whole.1
