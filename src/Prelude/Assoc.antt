-- ===== src/Prelude/Assoc.antt =====
-- Go's maps as association lists: a lookup finds the first entry of a key, a delete removes them all.
use ttrpc.Prelude.Tests.{Comparable, ◌==◌, if◌then◌else◌}
use mathlib.Core.Path.{◌≡◌, refl}
use mathlib.Core.Bool.{true}
use mathlib.Core.Option.{Option, none, some}
use mathlib.Core.List.{List, [], ◌∷◌}
use native.Mathlib.Omega.{arith}

abbrev pub Assoc {ℓ κ} : Type ℓ → Type κ → Type (ℓ ⊔ κ)
Assoc K V = List (K × V)

beq_self {ℓ} : {K : Type ℓ} ⦃e : Comparable K⦄ (k : K) → (k == k) ≡ true
beq_self ⦃e⦄ k = (e.agrees k k).1 refl

module _ {ℓ κ} {K : Type ℓ} {V : Type κ} ⦃e : Comparable K⦄ where
  unfoldable pub lookup : K → Assoc K V → Option V
  lookup k [] = none
  lookup k ((j, x) ∷ entries) = if j == k then some x else lookup k entries

  unfoldable pub delete : K → Assoc K V → Assoc K V
  delete k [] = []
  delete k ((j, x) ∷ entries) =
      let rest = delete k entries in if j == k then rest else (j, x) ∷ rest

  unfoldable pub insert : K → V → Assoc K V → Assoc K V
  insert k x [] = (k, x) ∷ []
  insert k x ((j, old) ∷ entries) =
      if j == k then (k, x) ∷ entries else (j, old) ∷ insert k x entries

  pub lookup-insert :
      (k j : K) (x : V) (entries : Assoc K V)
      → lookup j (insert k x entries) ≡ (if k == j then some x else lookup j entries)
  unfolding lookup insert
  lookup-insert k j x [] = refl
  lookup-insert k j x ((i, old) ∷ entries) =
      ground (arith, e.agrees k j, e.agrees i k, e.agrees i j, lookup-insert k j x entries)

  pub lookup-delete :
      (k j : K) (entries : Assoc K V)
      → lookup j (delete k entries) ≡ (if k == j then none else lookup j entries)
  unfolding lookup delete
  lookup-delete k j [] = ground arith
  lookup-delete k j ((i, old) ∷ entries) =
      ground (arith, e.agrees k j, e.agrees i k, e.agrees i j, lookup-delete k j entries)

  pub lookup-insert_self :
      (k : K) (x : V) (entries : Assoc K V) → lookup k (insert k x entries) ≡ some x
  lookup-insert_self k x entries = ground (arith, lookup-insert k k x entries, beq_self k)

  pub lookup-delete_self : (k : K) (entries : Assoc K V) → lookup k (delete k entries) ≡ none
  lookup-delete_self k entries = ground (arith, lookup-delete k k entries, beq_self k)
