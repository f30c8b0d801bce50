-- ===== src/Common/Assoc.antt =====
-- `std::map` with string keys, as an association list; the order of the keys is not modelled.
use mathlib.Core.Path.{◌≡◌, subst}
use mathlib.Core.Option.{Option, none, some}
use mathlib.Core.List.{List, [], ◌∷◌}
use mathlib.Core.Logic.{inl, inr}
use native.Mathlib.Omega.{arith}
use steamos_containerized.Common.Tests.{if◌then◌else◌, Bool-cases}
use steamos_containerized.Common.Strings.{Text, ◌=?◌, =?_iff}

module _ {ℓ} {V : Type ℓ} where
  unfoldable pub lookup : Text → List (Text × V) → Option V
  lookup k [] = none
  lookup k ((j, v) ∷ m) = if j =? k then some v else lookup k m

  -- `m.erase(k)`
  unfoldable pub erase : Text → List (Text × V) → List (Text × V)
  erase k [] = []
  erase k ((j, v) ∷ m) = let rest = erase k m in if j =? k then rest else (j, v) ∷ rest

  -- `m[k] = v`
  unfoldable pub insert : Text → V → List (Text × V) → List (Text × V)
  insert k v m = (k, v) ∷ erase k m

  pub lookup-erase :
      (k j : Text) (m : List (Text × V))
      → lookup j (erase k m) ≡ (if k =? j then none else lookup j m)
  unfolding lookup erase
  lookup-erase k j [] = ground arith
  lookup-erase k j ((i, v) ∷ m) =
      ground (arith, lookup-erase k j m, =?_iff i k, =?_iff i j, =?_iff k j)

  pub lookup-insert :
      (k j : Text) (v : V) (m : List (Text × V))
      → lookup j (insert k v m) ≡ (if k =? j then some v else lookup j m)
  unfolding lookup insert
  lookup-insert k j v m = ground (arith, lookup-erase k j m)

pub ruleset map_laws = (lookup-erase, lookup-insert)

-- What every value of a map has, every value has after an erase or an insert.
module _ {ℓ} {V : Type ℓ} (P : V → Type 0) where
  abbrev pub Values : List (Text × V) → Type ℓ
  Values m = (k : Text) (v : V) → lookup k m ≡ some v → P v

  pub Values-erase : (key : Text) (m : List (Text × V)) → Values m → Values (erase key m)
  Values-erase key m h k v e = elim (Bool-cases (key =? k)) [
    | inl t ↦ absurd (ground (arith, lookup-erase key k m))
    | inr n ↦ h k v (ground (arith, lookup-erase key k m))
  ]

  pub Values-insert :
      (key : Text) (a : V) (m : List (Text × V)) → P a → Values m → Values (insert key a m)
  Values-insert key a m p h k v e = elim (Bool-cases (key =? k)) [
    | inl t ↦ subst P (ground (arith, lookup-insert key k a m)) p
    | inr n ↦ h k v (ground (arith, lookup-insert key k a m))
  ]
