-- ===== src/Images/Definition.antt =====
-- unraid-api-plugin-incus/src/incus-image-builder.service.ts: the checks on a build's input and the
-- YAML definition that is written from it.
pub mod Injection
use incus_unraid.Prelude.{
  is_alnum, ℕ, zero, suc, Bool, true, false, ◌&&◌, ◌||◌, not, Option, none, some, List, [], ◌∷◌,
  ◌++◌, map, every, length, leb, ltb, nat_beq, if◌then◌else◌, Text, codes, eq_text, has_char, join,
}

-- [A-Za-z0-9._+@/-]
abbrev pub is_token_char : ℕ → Bool
is_token_char c =
    is_alnum c
    || nat_beq c 46
    || nat_beq c 95
    || nat_beq c 43
    || nat_beq c 64
    || nat_beq c 47
    || nat_beq c 45

-- /^[A-Za-z0-9][A-Za-z0-9._+@/-]{0,127}$/
unfoldable pub is_token : Text → Bool
is_token [] = false
is_token (c ∷ cs) = is_alnum c && every is_token_char cs && leb (length cs) 127

unfoldable pub good_command : Text → Bool
good_command command = leb (length command) 4096 && not (has_char 0 command)

pub data Refusal : Type 0 where
  invalid_name too_long invalid_package invalid_command : Refusal

-- validateBuildInput: `none` where it returns
unfoldable pub validate_build_input : Text → Text → List Text → Text → List Text → Option Refusal
validate_build_input distro release packages alias commands =
    if not (is_token distro) || not (is_token release) || not (is_token alias)
    then some invalid_name
    else if ltb 200 (length packages) || ltb 50 (length commands)
    then some too_long
    else if not (every is_token packages)
    then some invalid_package
    else if not (every good_command commands)
    then some invalid_command
    else none

-- An entry of DISTRO_DEFINITIONS; the only field of its `sourceExtra` is `url`.
pub record Distro : Type 0 where
  pub downloader : Text
  pub manager : Text
  pub architecture : Text
  pub url : Text

abbrev pub debian : Distro
debian = record {
  downloader = codes "debootstrap";
  manager = codes "apt";
  architecture = codes "amd64";
  url = codes "https://deb.debian.org/debian/";
}

abbrev pub ubuntu : Distro
ubuntu = record {
  downloader = codes "debootstrap";
  manager = codes "apt";
  architecture = codes "amd64";
  url = codes "http://archive.ubuntu.com/ubuntu/";
}

abbrev pub alpinelinux : Distro
alpinelinux = record {
  downloader = codes "alpinelinux-http";
  manager = codes "apk";
  architecture = codes "x86_64";
  url = codes "https://mirror.csclub.uwaterloo.ca/alpine/";
}

abbrev pub rockylinux : Distro
rockylinux = record {
  downloader = codes "rockylinux-http";
  manager = codes "yum";
  architecture = codes "x86_64";
  url = codes "https://download.rockylinux.org/pub/rocky/";
}

abbrev pub almalinux : Distro
almalinux = record {
  downloader = codes "almalinux-http";
  manager = codes "yum";
  architecture = codes "x86_64";
  url = codes "https://almalinux.savoirfairelinux.net";
}

abbrev pub fedora : Distro
fedora = record {
  downloader = codes "fedora-http";
  manager = codes "dnf";
  architecture = codes "x86_64";
  url = codes "https://kojipkgs.fedoraproject.org";
}

-- DISTRO_DEFINITIONS[distro]
unfoldable pub distro_definition : Text → Option Distro
distro_definition distro =
    if eq_text distro (codes "debian")
    then some debian
    else if eq_text distro (codes "ubuntu")
    then some ubuntu
    else if eq_text distro (codes "alpinelinux")
    then some alpinelinux
    else if eq_text distro (codes "rockylinux")
    then some rockylinux
    else if eq_text distro (codes "almalinux")
    then some almalinux
    else if eq_text distro (codes "fedora")
    then some fedora
    else none

-- What depends on the table: downloader, manager, architecture, and the extra lines of the source.
unfoldable pub downloader_of : Text → Text
downloader_of distro = elim (distro_definition distro) [
  | some d ↦ d.downloader
  | none ↦
      if eq_text distro (codes "ubuntu") || eq_text distro (codes "debian")
      then codes "debootstrap"
      else codes "distro"
]

unfoldable pub manager_of : Text → Text
manager_of distro = elim (distro_definition distro) [ some d ↦ d.manager | none ↦ codes "apt" ]

unfoldable pub architecture_of : Text → Text
architecture_of distro = elim (distro_definition distro) [
  | some d ↦ d.architecture
  | none ↦ codes "amd64"
]

-- The names that every object inherits from Object.prototype: looking one up in the table finds what has
-- none of the table's fields.
unfoldable pub is_inherited : Text → Bool
unfolding eq_text
is_inherited name =
    eq_text name (codes "constructor")
    || eq_text name (codes "hasOwnProperty")
    || eq_text name (codes "isPrototypeOf")
    || eq_text name (codes "propertyIsEnumerable")
    || eq_text name (codes "toLocaleString")
    || eq_text name (codes "toString")
    || eq_text name (codes "valueOf")
    || eq_text name (codes "__proto__")
    || eq_text name (codes "__defineGetter__")
    || eq_text name (codes "__defineSetter__")
    || eq_text name (codes "__lookupGetter__")
    || eq_text name (codes "__lookupSetter__")

unfoldable pub source_extra : Text → Text → List Text
source_extra distro release = elim (distro_definition distro) [
  | some d ↦ (codes "  url: " ++ d.url) ∷ []
  | none ↦ if is_inherited distro then [] else (codes "  same_as: " ++ release) ∷ []
]

-- `prefix` before every item
unfoldable pub prefixed : Text → List Text → List Text
prefixed prefix [] = []
prefixed prefix (item ∷ items) = (prefix ++ item) ∷ prefixed prefix items

abbrev pub image_lines : Text → Text → List Text
image_lines distro release =
    codes "image:"
    ∷ (codes "  distribution: \"" ++ (distro ++ codes "\""))
    ∷ (codes "  release: \"" ++ (release ++ codes "\""))
    ∷ (codes "  architecture: " ++ architecture_of distro)
    ∷ (codes "  description: \""
        ++ (distro
            ++ (codes " "
                ++ (release ++ codes " agent jail image (built via unraid incus plugin)\""))))
    ∷ []
    ∷ codes "source:"
    ∷ (codes "  downloader: " ++ downloader_of distro)
    ∷ []

abbrev pub package_lines : Text → List Text
package_lines distro =
    []
    ∷ codes "packages:"
    ∷ (codes "  manager: " ++ manager_of distro)
    ∷ codes "  update: true"
    ∷ codes "  cleanup: true"
    ∷ codes "  sets:"
    ∷ codes "  - action: install"
    ∷ codes "    packages:"
    ∷ []

abbrev pub head_lines : Text → Text → List Text
head_lines distro release =
    image_lines distro release ++ (source_extra distro release ++ package_lines distro)

abbrev pub target_lines : List Text
target_lines = [] ∷ codes "targets:" ∷ codes "  incus: {}" ∷ [] ∷ []

unfoldable pub action_lines : List Text → List Text
action_lines [] = []
action_lines (c ∷ commands) =
    codes "actions:"
    ∷ codes "- trigger: post-packages"
    ∷ codes "  action: |"
    ∷ codes "    #!/bin/sh"
    ∷ codes "    set -e"
    ∷ (prefixed (codes "    ") (c ∷ commands) ++ [] ∷ [])

unfoldable pub definition_lines : Text → Text → List Text → List Text → List Text
definition_lines distro release packages commands =
    head_lines distro release
    ++ (prefixed (codes "    - ") packages ++ (target_lines ++ action_lines commands))

-- renderDefinition
unfoldable pub render_definition : Text → Text → List Text → List Text → Text
render_definition distro release packages commands =
    join (codes "\n") (definition_lines distro release packages commands)
