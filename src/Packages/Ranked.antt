-- ===== src/Packages/Ranked.antt =====
-- unraid-api-plugin-incus/src/incus-package-search.service.ts: what a search of an index finds.
use incus_unraid.Prelude.{
  ℕ, zero, suc, Bool, ◌≡◌, refl, ap, inl, inr, List, [], ◌∷◌, take, if◌then◌else◌, Bool-cases,
}
use incus_unraid.Packages.Search.{collect}

-- The elements that pass a test.
abbrev pub matching {ℓ} : {A : Type ℓ} → (A → Bool) → List A → List A
matching p [] = []
matching p (x ∷ xs) = let rest = matching p xs in if p x then x ∷ rest else rest

-- The search of an index gives the first `room` of the elements that match, in their order.
pub collect-take :
    {A : Type 0} (matches : A → Bool) (room : ℕ) (items : List A)
    → collect matches room items ≡ take room (matching matches items)
unfolding collect
collect-take matches zero items = refl
collect-take matches (suc room) [] = refl
collect-take matches (suc room) (item ∷ items) = elim (Bool-cases (matches item)) [
  | inl e ↦ rw e (ap (λ l. item ∷ l) (collect-take matches room items))
  | inr e ↦ rw e (collect-take matches (suc room) items)
]
