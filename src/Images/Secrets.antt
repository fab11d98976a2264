-- ===== src/Images/Secrets.antt =====
-- unraid-api-plugin-incus/src/incus-image-builder.service.ts: which variables of the service a build can see.
use incus_unraid.Prelude.{
  Bool, true, false, ◌&&◌, ◌≡◌, ◌≢◌, refl, sym, ◌∙◌, ap, ◌⊎◌, inl, inr, Option, some, List, [], ◌∷◌,
  if◌then◌else◌, Text, eq_text, eq_text_iff, text_eq, Assoc, lookup, insert, lookup-insert,
  Bool-cases, Option-cases, arith,
}
use incus_unraid.Images.Environment.{
  allowlist, is_proxy, is_passed, pass, pass_all, fixed, distrobuilder_environment,
}

-- A key of a list
abbrev pub Among : Text → List Text → Type 0
Among key [] = ⊥
Among key (k ∷ keys) = (k ≡ key) ⊎ Among key keys

module _ (parse_url : Text → Option (Text × Text)) where
  if-passed :
      (b : Bool) (key k value : Text) (env : Assoc Text Text)
      → lookup key (if b then insert k value env else env)
        ≡ (if b then (if eq_text k key then some value else lookup key env) else lookup key env)
  if-passed true key k value env = lookup-insert k key value env
  if-passed false key k value env = refl

  pass-lookup :
      (parent : Text → Option Text) (k key value : Text) (env : Assoc Text Text)
      → lookup key (pass parse_url parent k env) ≡ some value
      → (lookup key env ≡ some value)
        ⊎ ((k ≡ key) × (parent key ≡ some value) × (is_passed parse_url key value ≡ true))
  unfolding pass
  pass-lookup parent k key value env h = elim (Option-cases (parent k)) [
    | inl e ↦ inl (rw (e, pass) at h)
    | inr (v, e) ↦
        let here = rw (e, pass) at h in
        let cases = sym (if-passed (is_passed parse_url k v) key k v env) ∙ here in
        elim (Bool-cases (is_passed parse_url k v)) [
          | inl p ↦ elim (Bool-cases (eq_text k key)) [
            | inl q ↦
                let same : k ≡ key = (eq_text_iff k key).0 q in
                let got : some v ≡ some value = rw q at (rw p at cases) in
                let val : v ≡ value = cc in inr (same, ap parent (sym same) ∙ e ∙ got, cc)
            | inr q ↦ inl (rw q at (rw p at cases))
          ]
          | inr p ↦ inl (rw p at cases)
        ]
  ]

  pass_all-lookup :
      (parent : Text → Option Text) (keys : List Text) (key value : Text) (env : Assoc Text Text)
      → lookup key (pass_all parse_url parent keys env) ≡ some value
      → (lookup key env ≡ some value)
        ⊎ (Among key keys × (parent key ≡ some value) × (is_passed parse_url key value ≡ true))
  unfolding pass_all
  pass_all-lookup parent [] key value env h = inl h
  pass_all-lookup parent (k ∷ keys) key value env h =
      elim (pass_all-lookup parent keys key value (pass parse_url parent k env) h) [
        | inl before ↦ elim (pass-lookup parent k key value env before) [
          | inl old ↦ inl old
          | inr (same, is, ok) ↦ inr (inl same, is, ok)
        ]
        | inr (among, is, ok) ↦ inr (inr among, is, ok)
      ]

  -- The value of a listed key is kept by the rounds of other keys, and written by its own.
  pass-keeps :
      (parent : Text → Option Text) (k key value : Text) (env : Assoc Text Text)
      → parent key ≡ some value
      → (lookup key env ≡ some value) ⊎ ((k ≡ key) × (is_passed parse_url key value ≡ true))
      → lookup key (pass parse_url parent k env) ≡ some value
  unfolding pass
  pass-keeps parent k key value env is (inl h) = elim (Option-cases (parent k)) [
    | inl e ↦ rw (e, pass) h
    | inr (v, e) ↦
        rw (e, pass)
          (if-passed (is_passed parse_url k v) key k v env
            ∙ elim (Bool-cases (is_passed parse_url k v)) [
              | inl p ↦ elim (Bool-cases (eq_text k key)) [
                | inl q ↦
                    (let same : k ≡ key = (eq_text_iff k key).0 q in
                      rw p (rw q (sym e ∙ ap parent same ∙ is)))
                | inr q ↦ rw p (rw q h)
              ]
              | inr p ↦ rw p h
            ])
  ]
  pass-keeps parent k key value env is (inr (same, ok)) =
      let e : parent k ≡ some value = ap parent same ∙ is in
      let p : is_passed parse_url k value ≡ true = cc in
      rw (e, pass)
        (if-passed (is_passed parse_url k value) key k value env
          ∙ rw p (rw ((eq_text_iff k key).1 same) refl))

  pass_all-keeps :
      (parent : Text → Option Text) (keys : List Text) (key value : Text) (env : Assoc Text Text)
      → parent key ≡ some value
      → (lookup key env ≡ some value) ⊎ (Among key keys × (is_passed parse_url key value ≡ true))
      → lookup key (pass_all parse_url parent keys env) ≡ some value
  unfolding pass_all
  pass_all-keeps parent [] key value env is (inl h) = h
  pass_all-keeps parent [] key value env is (inr (none_, ok)) = absurd none_
  pass_all-keeps parent (k ∷ keys) key value env is (inl h) =
      pass_all-keeps parent keys key value (pass parse_url parent k env) is
        (inl (pass-keeps parent k key value env is (inl h)))
  pass_all-keeps parent (k ∷ keys) key value env is (inr (inl same, ok)) =
      pass_all-keeps parent keys key value (pass parse_url parent k env) is
        (inl (pass-keeps parent k key value env is (inr (same, ok))))
  pass_all-keeps parent (k ∷ keys) key value env is (inr (inr among, ok)) =
      pass_all-keeps parent keys key value (pass parse_url parent k env) is (inr (among, ok))

  no_credentials :
      (username password : Text)
      → (eq_text username [] && eq_text password []) ≡ true
      → ◌≡◌ {A = Option (Text × Text)} (some (username, password)) (some ([], []))
  no_credentials username password h =
      ground (arith, eq_text_iff username [], eq_text_iff password [])

  is_passed-safe :
      (key value : Text)
      → is_passed parse_url key value ≡ true
      → (value ≢ []) × (is_proxy key ≡ true → parse_url value ≡ some ([], []))
  unfolding is_passed
  is_passed-safe key [] h = absurd (cc)
  is_passed-safe key (c ∷ value) h = (
    λ e. absurd (cc),
    λ proxy. elim (Option-cases (parse_url (c ∷ value))) [
      | inl e ↦ absurd (let no = rw (e, is_passed) at (rw proxy at h) in cc)
      | inr ((username, password), e) ↦
          e ∙ no_credentials username password (rw (e, is_passed) at (rw proxy at h))
    ],
  )

  -- A variable that a build sees is one of the five that are always set, or one of the list, as the service has it, not empty,
  -- and for a proxy an address without a user name and a password; and every such variable of the list is seen.
  pub distrobuilder_environment_lem :
      (parent : Text → Option Text) (socket key value : Text)
      → let env = distrobuilder_environment parse_url parent socket in
        (lookup key env ≡ some value
          → (lookup key (fixed parent socket) ≡ some value)
            ⊎ (Among key allowlist
                × (parent key ≡ some value)
                × (value ≢ [])
                × (is_proxy key ≡ true → parse_url value ≡ some ([], []))))
        × (Among key allowlist
            → parent key ≡ some value
            → is_passed parse_url key value ≡ true
            → lookup key env ≡ some value)
  unfolding distrobuilder_environment
  distrobuilder_environment_lem parent socket key value = (
    λ h. elim (pass_all-lookup parent allowlist key value (fixed parent socket) h) [
      | inl set ↦ inl set
      | inr (among, is, ok) ↦
          (let (some_, clean) = is_passed-safe key value ok in inr (among, is, some_, clean))
    ],
    λ among is ok.
        pass_all-keeps parent allowlist key value (fixed parent socket) is (inr (among, ok)),
  )
