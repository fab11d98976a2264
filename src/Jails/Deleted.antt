-- ===== src/Jails/Deleted.antt =====
-- unraid-api-plugin-incus/src/incus.service.ts, deleteStoppedJails: what it deletes.
use mathlib.Core.Path.{subst}
use mathlib.Core.List.{append_assoc, append-nil}
use incus_unraid.Prelude.{
  Bool, true, false, ◌≡◌, ◌≢◌, sym, ap, ◌∙◌, List, [], ◌∷◌, ◌++◌, map, if◌then◌else◌, Text, codes,
}
use incus_unraid.UnixClient.Exchange.{Error, Outcome, value, throws, hangs}
use incus_unraid.Jails.Calls.{
  Host, Service, Calls, next, no_body, Sent, call_and_wait, list_jails, JailSummary,
}
use incus_unraid.Jails.Operations.{
  instance_path, attempted, delete_one, delete_each, delete_stopped_jails, stopped_names,
}
use incus_unraid.Jails.Sent.{next-value, value_or, one, call_and_wait-sent}

-- The first list is the second with some of its elements left out.
pub data Sublist : List Text → List Text → Type 0 where
  nothing : Sublist [] []
  taken : (x : Text) (xs ys : List Text) → Sublist xs ys → Sublist (x ∷ xs) (x ∷ ys)
  left_out : (x : Text) (xs ys : List Text) → Sublist xs ys → Sublist xs (x ∷ ys)

abbrev error_or : {A : Type 0} → Error → Outcome A → Error
error_or d (throws x) = x
error_or d _ = d

module _ {W : Type 0} (h : Host W) where
  -- The requests that delete these containers.
  abbrev pub deletions : List Text → List Sent
  deletions =
      map (λ name. record { method = codes "DELETE"; path = instance_path h name; body = no_body })

  attempted-sent :
      {A : Type 0} (m : Outcome A × Service W) {b : Bool} {s' : Service W}
      → attempted h m ≡ (value b, s')
      → s'.sent ≡ m.1.sent
  unfolding attempted
  attempted-sent (value a, s) e = ap (λ x. x.1.sent) (sym e)
  attempted-sent (throws x, s) e = ap (λ x. x.1.sent) (sym e)
  attempted-sent (hangs, s) e = absurd (cc)

  attempted-throws :
      {A : Type 0} (m : Outcome A × Service W) (x : Error) → (attempted h m).0 ≢ throws x
  unfolding attempted
  attempted-throws (value a, s) x e = absurd (cc)
  attempted-throws (throws y, s) x e = absurd (cc)
  attempted-throws (hangs, s) x e = absurd (cc)

  add-Sublist :
      (gone : Bool) (name : Text) (rest names : List Text)
      → Sublist rest names
      → Sublist (if gone then name ∷ rest else rest) (name ∷ names)
  add-Sublist true name rest names l = taken name rest names l
  add-Sublist false name rest names l = left_out name rest names l

  delete_each_lem :
      (names : List Text) (s s' : Service W) {deleted : List Text}
      → delete_each h names s ≡ (value deleted, s')
      → (s'.sent ≡ s.sent ++ deletions names) × Sublist deleted names
  unfolding delete_each delete_one
  delete_each_lem [] s s' e = (
    ap (λ x. x.1.sent) (sym e) ∙ sym (append-nil s.sent),
    subst (λ l. Sublist l []) (ap (λ x. value_or [] x.0) e) nothing,
  )
  delete_each_lem (name ∷ names) s s' e =
      let (gone, s1, e1, f1) = next-value (delete_one h name s) _ e in
      let (rest, s2, e2, f2) = next-value (delete_each h names s1) _ f1 in
      let (grown, sub) = delete_each_lem names s1 s2 e2 in
      let first =
        attempted-sent (call_and_wait h (codes "DELETE") (instance_path h name) no_body s) e1
        ∙ call_and_wait-sent h (codes "DELETE") (instance_path h name) no_body s in
      (
        ap (λ x. x.1.sent) (sym f2)
            ∙ grown
            ∙ ap (λ l. l ++ deletions names) first
            ∙ append_assoc s.sent (one h (codes "DELETE") (instance_path h name) no_body)
                (deletions names),
        subst (λ l. Sublist l (name ∷ names)) (ap (λ x. value_or [] x.0) f2)
            (add-Sublist gone name rest names sub),
      )

  next-throws :
      {A B : Type 0} (m : Outcome A × Service W) (f : A → Calls W B) (x : Error)
      → m.0 ≢ throws x
      → ((a : A) (s : Service W) → (f a s).0 ≢ throws x)
      → (next m f).0 ≢ throws x
  next-throws (value a, s) f x n k e = k a s e
  next-throws (throws y, s) f x n k e = n (ap throws (ap (error_or x) e))
  next-throws (hangs, s) f x n k e = absurd (cc)

  delete_each-throws :
      (names : List Text) (s : Service W) (x : Error) → (delete_each h names s).0 ≢ throws x
  unfolding delete_each delete_one
  delete_each-throws [] s x = λ e. absurd (cc)
  delete_each-throws (name ∷ names) s x =
      next-throws (delete_one h name s)
        (λ gone s'.
          next (delete_each h names s')
            (λ rest s''. (value (if gone then name ∷ rest else rest), s'')))
        x (attempted-throws (call_and_wait h (codes "DELETE") (instance_path h name) no_body s) x)
        (λ gone s'.
          next-throws (delete_each h names s')
            (λ rest s''. (value (if gone then name ∷ rest else rest), s'')) x
            (delete_each-throws names s' x) (λ rest s'' e. absurd (cc)))

  -- Where the deletion of the stopped containers returns, the list of containers was had, one DELETE was sent for
  -- each container that the list calls stopped, in the list's order, and for no other, and the names returned are some of
  -- theirs.
  pub delete_stopped_jails_lem :
      (s s' : Service W) {deleted : List Text}
      → delete_stopped_jails h s ≡ (value deleted, s')
      → (jails : List JailSummary) × (s1 : Service W) × (list_jails h s ≡ (value jails, s1))
        × (s'.sent ≡ s1.sent ++ deletions (stopped_names h jails))
        × Sublist deleted (stopped_names h jails)
  unfolding delete_stopped_jails
  delete_stopped_jails_lem s s' e =
      let (jails, s1, e1, f1) =
        next-value (list_jails h s) (λ jails. delete_each h (stopped_names h jails)) e in
      let (grown, sub) = delete_each_lem (stopped_names h jails) s1 s' f1 in
      (jails, s1, e1, grown, sub)

  -- Once the list of containers is had, the deletion of the stopped ones throws nothing: no failure of one stops the
  -- others.
  pub delete_stopped_jails-throws :
      (s s1 : Service W) {jails : List JailSummary} (x : Error)
      → list_jails h s ≡ (value jails, s1)
      → (delete_stopped_jails h s).0 ≢ throws x
  unfolding delete_stopped_jails
  delete_stopped_jails-throws s s1 {jails} x e =
      rw e (delete_each-throws (stopped_names h jails) s1 x)
