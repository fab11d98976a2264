-- ===== src/Prelude/Maps.antt =====
-- Insertion-ordered maps: a JavaScript `Map`, or an object whose keys are not array indices.
use Prim.Native.Nat.{◌≤◌, ◌+◌}
use mathlib.Core.Path.{◌≡◌, refl}
use mathlib.Core.Option.{Option, none, some}
use mathlib.Core.List.{List, [], ◌∷◌}
use native.Mathlib.Omega.{arith}
use incus_unraid.Prelude.Tests.{if◌then◌else◌, Eq, ◌==◌}
use incus_unraid.Prelude.Lists.{length}

abbrev pub Assoc {ℓ κ} : Type ℓ → Type κ → Type (ℓ ⊔ κ)
Assoc K V = List (K × V)

module _ {ℓ κ} {K : Type ℓ} {V : Type κ} ⦃e : Eq K⦄ where
  -- m.get(k)
  unfoldable pub lookup : K → Assoc K V → Option V
  lookup k [] = none
  lookup k ((i, w) ∷ rest) = if i == k then some w else lookup k rest

  -- m.set(k, v): an old key keeps its place
  unfoldable pub insert : K → V → Assoc K V → Assoc K V
  insert k v [] = (k, v) ∷ []
  insert k v ((i, w) ∷ rest) = if i == k then (i, v) ∷ rest else (i, w) ∷ insert k v rest

  -- m.delete(k)
  unfoldable pub delete : K → Assoc K V → Assoc K V
  delete k [] = []
  delete k ((j, w) ∷ m) = let rest = delete k m in if j == k then rest else (j, w) ∷ rest

  pub lookup-insert :
      (at key : K) (v : V) (m : Assoc K V)
      → lookup key (insert at v m) ≡ (if at == key then some v else lookup key m)
  unfolding lookup insert
  lookup-insert at key v [] = refl
  lookup-insert at key v ((i, w) ∷ rest) =
      ground (arith, e.beq_iff at key, e.beq_iff i at, e.beq_iff i key, lookup-insert at key v rest)

  pub lookup-delete :
      (k j : K) (m : Assoc K V) → lookup j (delete k m) ≡ (if k == j then none else lookup j m)
  unfolding lookup delete
  lookup-delete k j [] = ground arith
  lookup-delete k j ((i, w) ∷ m) =
      ground (arith, e.beq_iff k j, e.beq_iff i k, e.beq_iff i j, lookup-delete k j m)

  pub length-insert : (k : K) (v : V) (m : Assoc K V) → length (insert k v m) ≤ length m + 1
  unfolding insert
  length-insert k v [] = omega arith
  length-insert k v ((j, w) ∷ m) = ground (arith, length-insert k v m)

  pub length-delete : (k : K) (m : Assoc K V) → length (delete k m) ≤ length m
  unfolding delete
  length-delete k [] = omega arith
  length-delete k ((j, w) ∷ m) = ground (arith, length-delete k m)
