-- ===== src/Jails/Launched.antt =====
-- unraid-api-plugin-incus/src/incus.service.ts, launchJail: what is checked before anything is sent.
use incus_unraid.Prelude.{
  Bool, true, false, ◌≡◌, refl, sym, ap, ◌∙◌, ◌⊎◌, inl, inr, Option, none, List, [], ◌∷◌, ◌++◌,
  Text, codes, Bool-cases,
}
use incus_unraid.UnixClient.Exchange.{Error, Outcome, value, throws, said}
use incus_unraid.Jails.Calls.{Host, Service, outside, change_state, create, Source, Sent}
use incus_unraid.Jails.Operations.{
  is_jail_name, assert_jail_name, image_source, resolve_source, state_path, workspace_device,
}
use incus_unraid.Jails.Workspace.{
  ensure, or_else, is_contained, canonical_workspace_root, launch_jail,
}
use incus_unraid.Jails.Sent.{next-value, one}

module _ {W : Type 0} where
  pub outside-sent :
      {A : Type 0} (f : W → Outcome A × W) (s s' : Service W) {a : A}
      → outside f s ≡ (value a, s')
      → s'.sent ≡ s.sent
  unfolding outside
  outside-sent f s s' e = ap (λ x. x.1.sent) (sym e)

  -- What a call outside the service gives, in some state of the world
  abbrev pub Gives : {A : Type 0} → (W → Outcome A × W) → A → Type 0
  Gives f a = (w : W) × ((f w).0 ≡ value a)

  pub outside-Gives :
      {A : Type 0} (f : W → Outcome A × W) (s s' : Service W) {a : A}
      → outside f s ≡ (value a, s')
      → Gives f a
  unfolding outside
  outside-Gives f s s' e = (s.world, ap (λ x. x.0) e)

  pub ensure-value :
      (b : Bool) (message : Text) (s s' : Service W) {u : Unit {0}}
      → ensure b message s ≡ (value u, s')
      → (b ≡ true) × (s' ≡ s)
  unfolding ensure
  ensure-value true message s s' e = (refl, ap (λ x. x.1) (sym e))
  ensure-value false message s s' e = absurd (cc)

module _ {W : Type 0} (h : Host W) where
  abbrev pub configured_root : Text
  configured_root =
      h.resolve (h.setting (codes "incus.jailWorkspaceRoot") (codes "/srv/agent-jails"))

  -- The workspace root is what realpath gives for the configured one, and nothing is sent.
  pub canonical_workspace_root-value :
      (s s' : Service W) {root : Text}
      → canonical_workspace_root h s ≡ (value root, s')
      → (s'.sent ≡ s.sent) × Gives (h.realpath configured_root) root
  unfolding canonical_workspace_root
  canonical_workspace_root-value s s' e =
      let configured = configured_root in
      let (_, s1, e1, f1) =
        next-value (outside (h.mkdir configured) s) (λ _. outside (h.realpath configured)) e in
      (
        outside-sent (h.realpath configured) s1 s' f1 ∙ outside-sent (h.mkdir configured) s s1 e1,
        outside-Gives (h.realpath configured) s1 s' f1,
      )

  -- The directory of a container: the one of its name in the workspace root, which isContained tells to lie there, as
  -- realpath gives it
  abbrev pub OwnWorkspace : Text → Text → Type 0
  OwnWorkspace name workspace =
      (root : Text) × Gives (h.realpath configured_root) root
      × (is_contained h root (h.resolve (h.join root name)) ≡ true)
      × Gives (h.realpath (h.resolve (h.join root name))) workspace

  -- The two requests of a launch.
  abbrev pub launch_requests : Text → Source → Text → Text → List Sent
  launch_requests name source profile workspace =
      one h (codes "POST") (codes "/1.0/instances") (
        create name (codes "default" ∷ profile ∷ []) source
          ((codes "workspace", workspace_device workspace) ∷ []))
      ++ one h (codes "PUT") (state_path h name) (change_state (codes "start") 30 none)

  module _ (name : Text) (image profile : Option Text) where
    abbrev pub chosen_image : Text
    chosen_image =
        or_else image (h.setting (codes "incus.jailImage") (codes "images:debian/trixie/cloud"))

    abbrev pub chosen_profile : Text
    chosen_profile = or_else profile (h.setting (codes "incus.jailProfile") (codes "agent-jail"))

    -- With a name that is not accepted, or an image whose remote is unknown, a launch throws and changes nothing: nothing
    -- is sent and no directory is made.
    pub launch_jail-refused :
        (s : Service W)
        → (is_jail_name name ≡ false) ⊎ (image_source chosen_image ≡ none)
        → (x : Error) × (launch_jail h name image profile s ≡ (throws x, s))
    unfolding launch_jail assert_jail_name resolve_source
    launch_jail-refused s (inl f) = (said (codes "Invalid container name"), rw f refl)
    launch_jail-refused s (inr n) = elim (Bool-cases (is_jail_name name)) [
      | inr f ↦ (said (codes "Invalid container name"), rw f refl)
      | inl t ↦ (said (codes "Unknown image remote"), rw t (rw (n, resolve_source) refl))
    ]
