-- ===== src/Tests/Images.antt =====
-- The theorems on incus-image-builder.service.ts at concrete inputs.
use incus_unraid.Prelude.{
  ◌≡◌, ◌≢◌, Option, lookup, text_eq, map, nat_beq, if◌then◌else◌, refl, ◌⊎◌, true, false, none,
  some, List, [], ◌∷◌, Text, codes, eq_text, arith,
}
use incus_unraid.Images.Registry.{
  ok, throws, ImageRecord, alias_of, has_key, set_master_image, record_image_built,
}
use incus_unraid.Images.Master.{
  IsRegistry, masters, set_master_image_lem, record_image_built-IsRegistry,
}
use incus_unraid.Prelude.{All, split_on, has_char}
use incus_unraid.Images.Definition.{
  validate_build_input, render_definition, definition_lines, is_token, good_command,
}
use incus_unraid.Images.Definition.Injection.{render_definition-lines}
use incus_unraid.Prelude.Splits.{OneLine}
use incus_unraid.Images.Build.{
  started, run, chunk, timeout_fires, kill_fires, hard_fires, child_closes, recorded,
}
use incus_unraid.Images.Standing.{Stands}
use incus_unraid.Images.Built.{run-Stands}
use incus_unraid.Images.Ended.{run-ends}
use incus_unraid.Images.Environment.{
  allowlist, distrobuilder_environment, fixed, is_passed, is_proxy,
}
use incus_unraid.Images.Secrets.{Among, distrobuilder_environment_lem}
use incus_unraid.Images.Queue.{
  Builds, enqueue, finish, Fair, nothing, enqueued, finished, no_builds, Run-Fair,
}

abbrev image_a : ImageRecord
image_a = record {
  alias = codes "a";
  distro = codes "debian";
  release = codes "trixie";
  packages = [];
  is_master = true;
  based_on = none;
  created_at = codes "2026-01-01";
}

abbrev images : List ImageRecord
images = image_a ∷ record image_a { alias = codes "b"; is_master = false } ∷ []

images-IsRegistry : IsRegistry images
unfolding masters has_key eq_text
images-IsRegistry = record { unique = (refl, (refl, tt)); one_master = omega arith }

set_master_image_lem_example :
    ((has_key alias_of (codes "b") images ≡ false)
      × (set_master_image (codes "b") true images ≡ throws))
    ⊎ ((has_key alias_of (codes "b") images ≡ true)
        × ((images' : List ImageRecord) × (image : ImageRecord) × (set_master_image
                (codes "b")
                true
                images
              ≡ ok (image, images'))
            × IsRegistry images'
            × (true ≡ true → masters images' ≡ 1)))
set_master_image_lem_example = set_master_image_lem (codes "b") images images-IsRegistry true

record_image_built-IsRegistry_example :
    IsRegistry (
      record_image_built
        (codes "c")
        (codes "debian")
        (codes "sid")
        []
        none
        (codes "2026-02-02")
        images)
    × (has_key alias_of (codes "c") (
          record_image_built
            (codes "c")
            (codes "debian")
            (codes "sid")
            []
            none
            (codes "2026-02-02")
            images)
        ≡ true)
record_image_built-IsRegistry_example =
    record_image_built-IsRegistry (codes "c") images images-IsRegistry (codes "debian")
      (codes "sid") [] none (codes "2026-02-02")

abbrev builds : Builds
builds = finish (enqueue 3 (enqueue 2 (enqueue 1 no_builds)))

Run-Fair_example : Fair (1 ∷ 2 ∷ 3 ∷ []) builds
unfolding enqueue
Run-Fair_example = Run-Fair (1 ∷ 2 ∷ 3 ∷ []) builds (
    finished (1 ∷ 2 ∷ 3 ∷ []) (enqueue 3 (enqueue 2 (enqueue 1 no_builds))) (omega arith) (
      enqueued 3 (1 ∷ 2 ∷ []) (enqueue 2 (enqueue 1 no_builds))
        (enqueued 2 (1 ∷ []) (enqueue 1 no_builds) (enqueued 1 [] no_builds nothing))))

abbrev commands : List Text
commands = codes "echo ok" ∷ []

commands-OneLine : All OneLine commands
unfolding has_char
commands-OneLine = (refl, tt)

render_definition-lines_example :
    split_on 10 (render_definition (codes "debian") (codes "trixie") (codes "git" ∷ []) commands)
    ≡ definition_lines (codes "debian") (codes "trixie") (codes "git" ∷ []) commands
unfolding validate_build_input is_token good_command has_char
render_definition-lines_example =
    render_definition-lines (codes "debian") (codes "trixie") (codes "git" ∷ []) (codes "agent")
      commands refl commands-OneLine

abbrev chunks : List Text
chunks = codes "one\ntw" ∷ codes "o\n" ∷ codes "end" ∷ []

abbrev star : Text → Text
star text = map (λ c. if nat_beq c 111 then 42 else c) text

run-Stands_example : Stands true (
    run star
      (λ s. s)
      (λ s. s)
      (chunk (codes "ok\n") ∷ child_closes 9 (some 0) ∷ timeout_fires ∷ recorded 10 none ∷ [])
      started)
run-Stands_example =
    run-Stands star (λ s. s) (λ s. s)
      (chunk (codes "ok\n") ∷ child_closes 9 (some 0) ∷ timeout_fires ∷ recorded 10 none ∷ [])

run-ends_example :
    let b =
      run star
        (λ s. s)
        (λ s. s)
        (timeout_fires ∷ chunk (codes "late") ∷ kill_fires ∷ hard_fires 7 ∷ recorded 8 none ∷ [])
        started in
    (b.settled ≡ true) × (b.resolved ≡ 1)
run-ends_example = run-ends star (λ s. s) (λ s. s) [] (chunk (codes "late") ∷ []) [] [] [] 7 8 none

-- An environment with two variables, of which one is passed on; no proxy has credentials.
abbrev parent : Text → Option Text
parent key =
    if eq_text key (codes "LANG")
    then some (codes "C")
    else if eq_text key (codes "AWS_SECRET")
    then some (codes "x")
    else none

abbrev plain : Text → Option (Text × Text)
plain url = some ([], [])

distrobuilder_environment_lem_example :
    (lookup (codes "LANG") (distrobuilder_environment plain parent (codes "s")) ≡ some (codes "C")
      → (lookup (codes "LANG") (fixed parent (codes "s")) ≡ some (codes "C"))
        ⊎ (Among (codes "LANG") allowlist
            × (parent (codes "LANG") ≡ some (codes "C"))
            × (codes "C" ≢ [])
            × (is_proxy (codes "LANG") ≡ true → plain (codes "C") ≡ some ([], []))))
    × (Among (codes "LANG") allowlist
        → parent (codes "LANG") ≡ some (codes "C")
        → is_passed plain (codes "LANG") (codes "C") ≡ true
        → lookup (codes "LANG") (distrobuilder_environment plain parent (codes "s"))
          ≡ some (codes "C"))
distrobuilder_environment_lem_example =
    distrobuilder_environment_lem plain parent (codes "s") (codes "LANG") (codes "C")
