-- ===== src/Jails/Operations.antt =====
-- unraid-api-plugin-incus/src/incus.service.ts: launching, starting, stopping and deleting containers, and
-- deleting images.
use incus_unraid.Prelude.{
  ℕ, zero, suc, Bool, true, false, ◌&&◌, ◌||◌, Option, none, some, List, [], ◌∷◌, ◌++◌, length, leb,
  nat_beq, if◌then◌else◌, every, is_alnum, Text, codes, eq_text, index_of, substring,
}
use incus_unraid.UnixClient.Exchange.{Outcome, value, throws, hangs}
use incus_unraid.Jails.Calls.{
  Host, Service, Calls, next, ◌>>=◌, ◌>>◌, return, fail, pure_outcome, call, call_and_wait,
  list_jails, no_body, change_state, create, Source, simplestreams, local_alias, IncusDevice,
  JailSummary,
}

-- [A-Za-z0-9-]
abbrev pub is_name_char : ℕ → Bool
is_name_char c = is_alnum c || nat_beq c 45

-- /^[A-Za-z0-9][A-Za-z0-9-]{0,62}$/
unfoldable pub is_jail_name : Text → Bool
is_jail_name [] = false
is_jail_name (c ∷ cs) = is_alnum c && every is_name_char cs && leb (length cs) 62

unfoldable pub assert_jail_name : {W : Type 0} → Text → Calls W (Unit {0})
assert_jail_name name =
    if is_jail_name name then return tt else fail (codes "Invalid container name")

-- KNOWN_REMOTES[remote], for a remote that is no name of Object.prototype
unfoldable pub known_remote : Text → Option Text
unfolding eq_text
known_remote remote =
    if eq_text remote (codes "images")
    then some (codes "images.linuxcontainers.org")
    else if eq_text remote (codes "ubuntu")
    then some (codes "cloud-images.ubuntu.com/releases")
    else if eq_text remote (codes "ubuntu-daily")
    then some (codes "cloud-images.ubuntu.com/daily")
    else if eq_text remote (codes "ubuntu-minimal")
    then some (codes "cloud-images.ubuntu.com/minimal/releases")
    else none

unfoldable pub remote_source : Text → Text → Option Source
unfolding known_remote
remote_source remote alias = elim (known_remote remote) [
  | none ↦ none
  | some server ↦ some (simplestreams (codes "https://" ++ server) alias)
]

-- The source of an image, `none` where the remote is unknown. The colon counts behind the first character.
unfoldable pub image_source : Text → Option Source
unfolding remote_source
image_source image = elim (index_of image 58) [
  | none ↦ some (local_alias image)
  | some zero ↦ some (local_alias image)
  | some (suc i) ↦
      remote_source (substring image 0 (suc i)) (substring image (suc (suc i)) (length image))
]

unfoldable pub resolve_source : {W : Type 0} → Text → Calls W Source
resolve_source image = elim (image_source image) [
  | none ↦ fail (codes "Unknown image remote")
  | some source ↦ return source
]

abbrev pub workspace_device : Text → IncusDevice
workspace_device source =
    (codes "type", codes "disk")
    ∷ (codes "source", source)
    ∷ (codes "path", codes "/workspace")
    ∷ (codes "shift", codes "true")
    ∷ []

module _ {W : Type 0} (h : Host W) where
  abbrev pub instance_path : Text → Text
  instance_path name = codes "/1.0/instances/" ++ h.encode_uri_component name

  abbrev pub state_path : Text → Text
  state_path name = instance_path name ++ codes "/state"

  -- launchJail behind the check of the name, with the directory that ensureInstanceWorkspaceDir returns
  unfoldable pub launch_in : Text → Source → Text → Text → Calls W (Unit {0})
  launch_in name source profile workspace = do
    created ← call_and_wait h (codes "POST") (codes "/1.0/instances") (
        create name (codes "default" ∷ profile ∷ []) source
          ((codes "workspace", workspace_device workspace) ∷ []))
    started ← call_and_wait h (codes "PUT") (state_path name) (change_state (codes "start") 30 none)
    return tt

  unfoldable pub set_state : Text → Text → Calls W (Unit {0})
  set_state name action = do
    resp ← call_and_wait h (codes "PUT") (state_path name) (
        change_state action (if eq_text action (codes "stop") then 30 else 15)
          (some (eq_text action (codes "stop"))))
    return tt

  -- try { … } catch { }
  unfoldable pub best_effort : {A : Type 0} → Outcome A × Service W → Outcome (Unit {0}) × Service W
  best_effort (value a, s) = (value tt, s)
  best_effort (throws e, s) = (value tt, s)
  best_effort (hangs, s) = (hangs, s)

  unfoldable pub stop_first : Text → Calls W (Unit {0})
  unfolding best_effort
  stop_first name s = best_effort (
      call_and_wait h (codes "PUT") (state_path name) (change_state (codes "stop") 15 (some true))
        s)

  unfoldable pub delete_jail : Text → Calls W (Unit {0})
  delete_jail name = do
    stop_first name
    deleted ← call_and_wait h (codes "DELETE") (instance_path name) no_body
    return tt

  unfoldable pub is_stopped : JailSummary → Bool
  is_stopped j = eq_text (h.to_lower_case j.status) (codes "stopped")

  -- filter(…), the names
  unfoldable pub stopped_names : List JailSummary → List Text
  unfolding is_stopped
  stopped_names [] = []
  stopped_names (j ∷ jails) =
      let rest = stopped_names jails in if is_stopped j then j.name ∷ rest else rest

  -- Whether a call returned; a throw is caught.
  unfoldable pub attempted : {A : Type 0} → Outcome A × Service W → Outcome Bool × Service W
  attempted (value a, s) = (value true, s)
  attempted (throws e, s) = (value false, s)
  attempted (hangs, s) = (hangs, s)

  unfoldable pub delete_one : Text → Calls W Bool
  unfolding attempted
  delete_one name s = attempted (call_and_wait h (codes "DELETE") (instance_path name) no_body s)

  unfoldable pub delete_each : List Text → Calls W (List Text)
  delete_each [] s = (value [], s)
  delete_each (name ∷ names) s = next (delete_one name s) (λ gone s'.
      next (delete_each names s') (λ rest s''. (value (if gone then name ∷ rest else rest), s'')))

  unfoldable pub delete_stopped_jails : Calls W (List Text)
  delete_stopped_jails = do jails ← list_jails h; delete_each (stopped_names jails)

  unfoldable pub image_exists : Text → Calls W Bool
  unfolding attempted
  image_exists alias s = attempted (
      call h (codes "GET") (codes "/1.0/images/aliases/" ++ h.encode_uri_component alias) no_body s)

  unfoldable pub delete_image : Text → Calls W (Unit {0})
  delete_image alias = do
    resp ←
        call h (codes "GET") (codes "/1.0/images/aliases/" ++ h.encode_uri_component alias) no_body
    target ← pure_outcome (h.target_of resp)
    deleted ←
        call_and_wait h (codes "DELETE") (codes "/1.0/images/" ++ h.encode_uri_component target)
          no_body
    return tt
