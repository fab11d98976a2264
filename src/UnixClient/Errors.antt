-- ===== src/UnixClient/Errors.antt =====
-- Which replies a call turns into errors.
use incus_unraid.Prelude.{
  ℕ, ◌<◌, ◌≤◌, true, false, ◌≡◌, ◌≢◌, refl, ap, ◌∙◌, Option, none, some, List, [], ◌∷◌,
  Option-cases, leb, Bool-cases, ◌⊎◌, inl, inr, sym, arith,
}
use incus_unraid.Json.{Json, null, boolean, number, string, array, object, empty}
use incus_unraid.UnixClient.Exchange.{Error, Outcome, value, throws, hangs, RawResponse}
use incus_unraid.UnixClient.Requests.{
  IncusResponse, Socket, response_of, is_error, check, read_json, read_response,
}

pub outcome-cases {ℓ} :
    {A : Type ℓ} (o : Outcome A)
    → (o ≡ hangs) ⊎ ((r : A) × (o ≡ value r)) ⊎ ((e : Error) × (o ≡ throws e))
outcome-cases hangs = inl refl
outcome-cases (value r) = inr (inl (r, refl))
outcome-cases (throws e) = inr (inr (e, refl))

module _ {W : Type 0} (s : Socket W) where
  check-accepts :
      (status : ℕ) (json : Json) (r : IncusResponse)
      → check s status json ≡ value r
      → (status < 400) × (is_error s r ≡ false) × (r ≡ response_of s json)
  unfolding check
  check-accepts status json r h = elim (Bool-cases (is_error s (response_of s json))) [
    | inl e ↦ absurd (ground arith)
    | inr e ↦ elim (Bool-cases (leb 400 status)) [
      | inl f ↦ absurd (ground arith)
      | inr f ↦
          let same : response_of s json ≡ r = ground arith in (ground arith, rw same at e, sym same)
    ]
  ]

  check-ends : (status : ℕ) (json : Json) → check s status json ≡ hangs → ⊥
  unfolding check
  check-ends status json h = ground arith

  read_json-ends : (status : ℕ) (text : List ℕ) → read_json s status text ≡ hangs → ⊥
  unfolding read_json
  read_json-ends status [] h = cc
  read_json-ends status (c ∷ text) h = ends_of (s.json_parse (c ∷ text)) refl
    where
      ends_of : (o : Option Json) → s.json_parse (c ∷ text) ≡ o → ⊥
      ends_of none e = elim (Bool-cases (leb 400 status)) [
        | inl f ↦ (let no = rw f at (rw (e, read_json) at h) in cc)
        | inr f ↦ (let no = rw f at (rw (e, read_json) at h) in cc)
      ]
      ends_of (some null) e = let no = rw (e, read_json) at h in cc
      ends_of (some (boolean b)) e = let no = rw (e, read_json) at h in cc
      ends_of (some (number b)) e = let no = rw (e, read_json) at h in cc
      ends_of (some (string b)) e = let no = rw (e, read_json) at h in cc
      ends_of (some (array b)) e = let no = rw (e, read_json) at h in cc
      ends_of (some (object b)) e = let no = rw (e, read_json) at h in cc

  -- What the text of a reply says: an empty one is the empty object, any other is JSON that is not null.
  abbrev pub Says : List ℕ → Json → Type 0
  Says text json =
      ((text ≡ []) × (json ≡ object empty))
      ⊎ ((text ≢ []) × (s.json_parse text ≡ some json) × (json ≢ null))

  parsed :
      (status : ℕ) (c : ℕ) (text : List ℕ) (json got : Json)
      → s.json_parse (c ∷ text) ≡ some got
      → read_json s status (c ∷ text) ≡ value json
      → (got ≡ json) × (json ≢ null)
  unfolding read_json
  parsed status c text json null e h = absurd (let no = rw (e, read_json) at h in cc)
  parsed status c text json (boolean b) e h = (
    let same = rw (e, read_json) at h in cc,
    λ n. absurd (let same = rw (e, read_json) at h in cc),
  )
  parsed status c text json (number b) e h = (
    let same = rw (e, read_json) at h in cc,
    λ n. absurd (let same = rw (e, read_json) at h in cc),
  )
  parsed status c text json (string b) e h = (
    let same = rw (e, read_json) at h in cc,
    λ n. absurd (let same = rw (e, read_json) at h in cc),
  )
  parsed status c text json (array b) e h = (
    let same = rw (e, read_json) at h in cc,
    λ n. absurd (let same = rw (e, read_json) at h in cc),
  )
  parsed status c text json (object b) e h = (
    let same = rw (e, read_json) at h in cc,
    λ n. absurd (let same = rw (e, read_json) at h in cc),
  )

  read_json-Says :
      (status : ℕ) (text : List ℕ) (json : Json)
      → read_json s status text ≡ value json
      → Says text json
  unfolding read_json
  read_json-Says status [] json h = inl (refl, cc)
  read_json-Says status (c ∷ text) json h = elim (Option-cases (s.json_parse (c ∷ text))) [
    | inl e ↦ elim (Bool-cases (leb 400 status)) [
      | inl f ↦ absurd (let no = rw f at (rw (e, read_json) at h) in cc)
      | inr f ↦ absurd (let no = rw f at (rw (e, read_json) at h) in cc)
    ]
    | inr (got, e) ↦
        (let (same, there) = parsed status c text json got e h in
          inr (λ n. absurd (cc), e ∙ ap some same, there))
  ]

  -- The text of a reply is neither empty nor JSON other than null.
  abbrev pub IsUnreadable : List ℕ → Type 0
  IsUnreadable text = (text ≢ []) × ((s.json_parse text ≡ none) ⊎ (s.json_parse text ≡ some null))

  unreadable :
      (status : ℕ) (c : ℕ) (text : List ℕ) (got : Json) (e : Error)
      → s.json_parse (c ∷ text) ≡ some got
      → read_json s status (c ∷ text) ≡ throws e
      → got ≡ null
  unfolding read_json
  unreadable status c text null e p h = refl
  unreadable status c text (boolean b) e p h = absurd (let no = rw (p, read_json) at h in cc)
  unreadable status c text (number b) e p h = absurd (let no = rw (p, read_json) at h in cc)
  unreadable status c text (string b) e p h = absurd (let no = rw (p, read_json) at h in cc)
  unreadable status c text (array b) e p h = absurd (let no = rw (p, read_json) at h in cc)
  unreadable status c text (object b) e p h = absurd (let no = rw (p, read_json) at h in cc)

  read_json-throws :
      (status : ℕ) (text : List ℕ) (e : Error)
      → read_json s status text ≡ throws e
      → IsUnreadable text
  unfolding read_json
  read_json-throws status [] e h = absurd (cc)
  read_json-throws status (c ∷ text) e h = elim (Option-cases (s.json_parse (c ∷ text))) [
    | inl p ↦ (λ n. absurd (cc), inl p)
    | inr (got, p) ↦ (λ n. absurd (cc), inr (p ∙ ap some (unreadable status c text got e p h)))
  ]

  check-throws :
      (status : ℕ) (json : Json) (e : Error)
      → check s status json ≡ throws e
      → (400 ≤ status) ⊎ (is_error s (response_of s json) ≡ true)
  unfolding check
  check-throws status json e h = elim (Bool-cases (is_error s (response_of s json))) [
    | inl f ↦ inr f
    | inr f ↦ elim (Bool-cases (leb 400 status)) [
      | inl g ↦ inl (ground arith)
      | inr g ↦ absurd (ground arith)
    ]
  ]

  -- Why a reply is refused: its status, a text that cannot be read, or what that text says.
  abbrev pub IsRefused : RawResponse → Type 0
  IsRefused raw =
      (400 ≤ raw.status_code)
      ⊎ IsUnreadable raw.text
      ⊎ ((json : Json) × Says raw.text json × (is_error s (response_of s json) ≡ true))

  refused :
      (raw : RawResponse) (json : Json) (x : Error)
      → read_json s raw.status_code raw.text ≡ value json
      → check s raw.status_code json ≡ throws x
      → IsRefused raw
  refused raw json x e f = elim (check-throws raw.status_code json x f) [
    | inl over ↦ inl over
    | inr bad ↦ inr (inr (json, read_json-Says raw.status_code raw.text json e, bad))
  ]

  -- A reply is taken as a result where its HTTP status is below 400, its text is empty or JSON other than null, and its type
  -- is not "error"; the result is then what that text says, an empty text the empty object. Else it throws: its status is 400
  -- or more, its text is neither empty nor JSON other than null, or the type of what it says is "error".
  pub read_response-accepts :
      (raw : RawResponse)
      → ((r : IncusResponse) × (json : Json) × (read_response s raw ≡ value r)
          × (raw.status_code < 400)
          × (is_error s r ≡ false)
          × (r ≡ response_of s json)
          × Says raw.text json)
        ⊎ ((e : Error) × (read_response s raw ≡ throws e) × IsRefused raw)
  unfolding read_response
  read_response-accepts raw = elim (outcome-cases (read_json s raw.status_code raw.text)) [
    | inl e ↦ absurd (read_json-ends raw.status_code raw.text e)
    | inr (inr (x, e)) ↦
        inr
          (x, rw (e, read_response) refl, inr (inl (read_json-throws raw.status_code raw.text x e)))
    | inr (inl (json, e)) ↦ elim (outcome-cases (check s raw.status_code json)) [
      | inl f ↦ absurd (check-ends raw.status_code json f)
      | inr (inr (x, f)) ↦ inr (x, rw (e, read_response) f, refused raw json x e f)
      | inr (inl (r, f)) ↦
          (let (a, b, c) = check-accepts raw.status_code json r f in
            inl (
              r,
              json,
              rw (e, read_response) f,
              a,
              b,
              c,
              read_json-Says raw.status_code raw.text json e,
            ))
    ]
  ]
