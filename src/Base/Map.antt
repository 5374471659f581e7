-- ===== src/Base/Map.antt =====
-- Go maps as association lists; `lookup` gives `none` for a missing key. The order of the entries
-- stands for the order in which a `range` visits them, which Go leaves open.
use Prim.Native.Nat.{◌≤◌, ◌<◌}
use mathlib.Core.Path.{◌≡◌, refl}
use mathlib.Core.Logic.{◌≢◌, inl, inr}
use mathlib.Core.Bool.{Bool, true, false}
use mathlib.Core.Option.{Option, none, some}
use mathlib.Core.List.{List, [], ◌∷◌}
use native.Mathlib.Omega.{arith}
use libvegas.Base.Tests.{Eq, ◌==◌, if◌then◌else◌, Bool-cases}
use libvegas.Base.Lists.{length}

abbrev pub Map {ℓ κ} : Type ℓ → Type κ → Type (ℓ ⊔ κ)
Map K V = List (K × V)

module _ {ℓ} {K : Type ℓ} ⦃e : Eq K⦄ where
  pub beq_refl : (k : K) → (k == k) ≡ true
  beq_refl k = (e.beq_iff k k).1 refl

  pub beq_eq : (k j : K) → (k == j) ≡ true → k ≡ j
  beq_eq k j = (e.beq_iff k j).0

  pub beq_ne : (k j : K) → (k == j) ≡ false → k ≢ j
  beq_ne k j h p = cc (h, (e.beq_iff k j).1 p)

  pub ne_beq : (k j : K) → k ≢ j → (k == j) ≡ false
  ne_beq k j h = elim (Bool-cases (k == j)) [ inl p ↦ absurd (h (beq_eq k j p)) | inr p ↦ p ]

module _ {ℓ κ} {K : Type ℓ} {V : Type κ} ⦃e : Eq K⦄ where
  unfoldable pub lookup : K → Map K V → Option V
  lookup k [] = none
  lookup k ((j, v) ∷ m) = if j == k then some v else lookup k m

  -- `m[k] = v`
  unfoldable pub insert : K → V → Map K V → Map K V
  insert k v [] = (k, v) ∷ []
  insert k v ((j, w) ∷ m) = if j == k then (k, v) ∷ m else (j, w) ∷ insert k v m

  -- `delete(m, k)`
  unfoldable pub remove : K → Map K V → Map K V
  remove k [] = []
  remove k ((j, w) ∷ m) = let rest = remove k m in if j == k then rest else (j, w) ∷ rest

  -- `m[k]` at a type whose zero value is `d`.
  abbrev pub lookup_or : V → K → Map K V → V
  lookup_or d k m = elim (lookup k m) [ none ↦ d | some v ↦ v ]

  -- `m[k] != nil`
  abbrev pub has : K → Map K V → Bool
  has k m = elim (lookup k m) [ none ↦ false | some v ↦ true ]

  pub lookup-insert :
      (written k : K) (v : V) (m : Map K V)
      → lookup k (insert written v m) ≡ (if written == k then some v else lookup k m)
  unfolding insert lookup
  lookup-insert written k v [] = refl
  lookup-insert written k v ((i, w) ∷ rest) = ground (
    lookup-insert written k v rest,
    e.beq_iff i k,
    e.beq_iff i written,
    e.beq_iff written k,
    arith,
  )

  pub lookup-insert_self : (k : K) (v : V) (m : Map K V) → lookup k (insert k v m) ≡ some v
  lookup-insert_self k v m = simp (lookup-insert, beq_refl)

  pub lookup-remove :
      (k j : K) (m : Map K V) → lookup j (remove k m) ≡ (if k == j then none else lookup j m)
  unfolding lookup remove
  lookup-remove k j [] = ground arith
  lookup-remove k j ((i, w) ∷ m) =
      ground (arith, e.beq_iff k j, e.beq_iff i k, e.beq_iff i j, lookup-remove k j m)

  pub remove-some :
      (k j : K) (v : V) (m : Map K V)
      → lookup j (remove k m) ≡ some v
      → ((k == j) ≡ false) × (lookup j m ≡ some v)
  remove-some k j v m h = elim (Bool-cases (k == j)) [
    | inl same ↦ absurd (cc (h, lookup-remove k j m, same))
    | inr differ ↦ (differ, cc (h, lookup-remove k j m, differ))
  ]

  -- Taking out a key that is there makes the map shorter.
  length-remove-le : (k : K) (m : Map K V) → length (remove k m) ≤ length m
  unfolding remove
  length-remove-le k [] = omega arith
  length-remove-le k ((j, w) ∷ m) = ground (arith, length-remove-le k m)

  pub length-remove-lt :
      (k : K) (v : V) (m : Map K V) → lookup k m ≡ some v → length (remove k m) < length m
  unfolding remove lookup
  length-remove-lt k v [] h = cc
  length-remove-lt k v ((j, w) ∷ m) h = ground (arith, length-remove-le k m, length-remove-lt k v m)
