-- ===== src/Images/Environment.antt =====
-- unraid-api-plugin-incus/src/incus-image-builder.service.ts: distrobuilderEnvironment, the variables that a build gets. `parse_url` is
-- `new URL` by the user name and the password, `none` where it throws.
use incus_unraid.Prelude.{
  ◌+◌, Bool, true, false, not, ◌&&◌, Option, none, some, List, [], ◌∷◌, ◌++◌, map, if◌then◌else◌,
  leb, Text, codes, eq_text, text_eq, ends_with_text, Assoc, insert,
}

abbrev pub incus_prefix : Text
incus_prefix = codes "/usr/local/incus"

abbrev pub allowlist : List Text
allowlist =
    codes "HTTP_PROXY"
    ∷ codes "HTTPS_PROXY"
    ∷ codes "NO_PROXY"
    ∷ codes "http_proxy"
    ∷ codes "https_proxy"
    ∷ codes "no_proxy"
    ∷ codes "LANG"
    ∷ codes "LC_ALL"
    ∷ codes "SSL_CERT_DIR"
    ∷ codes "SSL_CERT_FILE"
    ∷ codes "TMPDIR"
    ∷ []

-- key.toLowerCase(), for the keys of the list
abbrev lower : Text → Text
lower key = map (λ c. if leb 65 c && leb c 90 then c + 32 else c) key

unfoldable pub is_proxy : Text → Bool
unfolding ends_with_text
is_proxy key =
    ends_with_text (lower key) (codes "proxy") && not (eq_text (lower key) (codes "no_proxy"))

abbrev path_of : Option Text → Text
path_of none = codes "/usr/bin:/bin"
path_of (some path) = path

abbrev libraries_of : Option Text → Text
libraries_of none = []
libraries_of (some []) = []
libraries_of (some (c ∷ path)) = codes ":" ++ c ∷ path

-- The variables that are always set
abbrev pub fixed : (Text → Option Text) → Text → Assoc Text Text
fixed parent socket =
    (codes "HOME", codes "/root")
    ∷ (codes "INCUS_SOCKET", socket)
    ∷ (codes "PATH", incus_prefix ++ codes "/bin:" ++ path_of (parent (codes "PATH")))
    ∷ (
      codes "LD_LIBRARY_PATH",
      incus_prefix ++ codes "/lib" ++ libraries_of (parent (codes "LD_LIBRARY_PATH")),
    )
    ∷ (codes "DEBOOTSTRAP_DIR", incus_prefix ++ codes "/share/debootstrap")
    ∷ []

module _ (parse_url : Text → Option (Text × Text)) where
  -- Whether a value is passed on: a proxy only where it is an address without a user name and a password
  unfoldable pub is_passed : Text → Text → Bool
  unfolding is_proxy
  is_passed key [] = false
  is_passed key (c ∷ value) =
      if is_proxy key
      then (elim (parse_url (c ∷ value)) [
        | none ↦ false
        | some (username, password) ↦ eq_text username [] && eq_text password []
      ])
      else true

  -- The round of the loop for one key
  unfoldable pub pass : (Text → Option Text) → Text → Assoc Text Text → Assoc Text Text
  unfolding is_passed
  pass parent key env = elim (parent key) [
    | none ↦ env
    | some value ↦ if is_passed key value then insert key value env else env
  ]

  unfoldable pub pass_all : (Text → Option Text) → List Text → Assoc Text Text → Assoc Text Text
  unfolding pass
  pass_all parent [] env = env
  pass_all parent (key ∷ keys) env = pass_all parent keys (pass parent key env)

  unfoldable pub distrobuilder_environment : (Text → Option Text) → Text → Assoc Text Text
  unfolding pass_all
  distrobuilder_environment parent socket = pass_all parent allowlist (fixed parent socket)
