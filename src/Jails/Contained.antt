-- ===== src/Jails/Contained.antt =====
-- unraid-api-plugin-incus/src/incus.service.ts: the changes to a container's devices and configuration that reach
-- the daemon.
use mathlib.Core.List.{append_assoc}
use incus_unraid.UnixClient.Requests.{Request, IncusResponse, request}
use incus_unraid.Prelude.{
  ◌≡◌, refl, sym, ap, ◌∙◌, Option, none, some, List, ◌++◌, Text, codes, eq_text, text_eq, Assoc,
  insert, lookup, lookup-insert, if◌then◌else◌,
}
use incus_unraid.UnixClient.Exchange.{value}
use incus_unraid.Jails.Calls.{
  Host, Service, next, call, call_and_wait, Body, no_body, set_devices, set_config, Sent,
  IncusInstance,
}
use incus_unraid.Jails.Operations.{instance_path, workspace_device}
use incus_unraid.Jails.Workspace.{or_empty, get_instance, set_jail_limits, set_if_defined}
use incus_unraid.Jails.Sent.{next-value, one, call_and_wait-sent, call-sent}
use incus_unraid.Jails.Launched.{Gives}

module _ {W : Type 0} (h : Host W) where
  -- The two requests of a change: the container is read, and the change is sent.
  abbrev pub change_requests : Text → Body → List Sent
  change_requests name body =
      one h (codes "GET") (instance_path h name) no_body
      ++ one h (codes "PATCH") (instance_path h name) body

  get_instance-sent :
      (name : Text) (s s' : Service W) {inst : IncusInstance}
      → get_instance h name s ≡ (value inst, s')
      → s'.sent ≡ s.sent ++ one h (codes "GET") (instance_path h name) no_body
  unfolding get_instance
  get_instance-sent name s s' e =
      let (r, s1, e1, f1) =
        next-value (call h (codes "GET") (instance_path h name) no_body s) _ e in
      ap (λ x. x.1.sent) (sym f1)
      ∙ ap (λ x. x.1.sent) (sym e1)
      ∙ call-sent h (codes "GET") (instance_path h name) no_body s

  abbrev pub get_request : Text → Request
  get_request name = record {
    method = codes "GET";
    path = instance_path h name;
    body = h.json_of no_body;
    timeout_ms = 30000;
  }

  -- The container that the daemon's reply to the request for it tells
  abbrev pub Read : Text → IncusInstance → Type 0
  Read name inst =
      (resp : IncusResponse) × Gives (request h.socket (get_request name)) resp
      × (h.instance_of resp ≡ value inst)

  -- What sends one request and then returns.
  patched :
      (name : Text) (body : Body) (s1 s' : Service W) {u : Unit {0}}
      → next (call_and_wait h (codes "PATCH") (instance_path h name) body s1) (λ _ s. (value tt, s))
        ≡ (value u, s')
      → s'.sent ≡ s1.sent ++ one h (codes "PATCH") (instance_path h name) body
  patched name body s1 s' e =
      let (r, s2, e2, f2) =
        next-value (call_and_wait h (codes "PATCH") (instance_path h name) body s1)
          (λ _ s. (value tt, s)) e in
      ap (λ x. x.1.sent) (sym f2)
      ∙ ap (λ x. x.1.sent) (sym e2)
      ∙ call_and_wait-sent h (codes "PATCH") (instance_path h name) body s1

  abbrev pub workspace_body : IncusInstance → Text → Body
  workspace_body inst source =
      set_devices (insert (codes "workspace") (workspace_device source) (or_empty inst.devices))

  -- The configuration that setJailLimits sends.
  abbrev pub limited : Option Text → Option Text → IncusInstance → Assoc Text Text
  limited cpu memory inst =
      set_if_defined (codes "limits.memory") memory
        (set_if_defined (codes "limits.cpu") cpu (or_empty inst.config))

  -- What a key holds once another, or the same, is set if there is a value for it.
  abbrev pub set_or : Text → Text → Option Text → Option Text → Option Text
  set_or key name none old = old
  set_or key name (some v) old = if eq_text name key then some v else old

  lookup-set_if_defined :
      (key name : Text) (v : Option Text) (m : Assoc Text Text)
      → lookup key (set_if_defined name v m) ≡ set_or key name v (lookup key m)
  unfolding set_if_defined
  lookup-set_if_defined key name none m = refl
  lookup-set_if_defined key name (some v) m = lookup-insert name key v m

  -- A change of the limits that returns sent two requests and no other: one that reads the container, and one that sets
  -- its configuration; there each limit that is given is set, an empty one too, and every other key holds what was read.
  pub set_jail_limits-sent :
      (name : Text) (cpu memory : Option Text) (key : Text) (s s' : Service W) {u : Unit {0}}
      → set_jail_limits h name cpu memory s ≡ (value u, s')
      → (inst : IncusInstance) × (s'.sent
          ≡ s.sent ++ change_requests name (set_config (limited cpu memory inst)))
        × (lookup key (limited cpu memory inst)
            ≡ set_or key
                (codes "limits.memory")
                memory
                (set_or key (codes "limits.cpu") cpu (lookup key (or_empty inst.config))))
  unfolding set_jail_limits
  set_jail_limits-sent name cpu memory key s s' e =
      let (inst, s1, e1, f1) = next-value (get_instance h name s) _ e in
      let last =
        one h (codes "PATCH") (instance_path h name) (set_config (limited cpu memory inst)) in
      (
        inst,
        patched name (set_config (limited cpu memory inst)) s1 s' f1
            ∙ ap (λ x. x ++ last) (get_instance-sent name s s1 e1)
            ∙ append_assoc s.sent (one h (codes "GET") (instance_path h name) no_body) last,
        lookup-set_if_defined key (codes "limits.memory") memory
              (set_if_defined (codes "limits.cpu") cpu (or_empty inst.config))
            ∙ ap (set_or key (codes "limits.memory") memory)
                (lookup-set_if_defined key (codes "limits.cpu") cpu (or_empty inst.config)),
      )
