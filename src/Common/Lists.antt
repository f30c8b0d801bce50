-- ===== src/Common/Lists.antt =====
-- Lists measured by native numbers, searched and filtered by Boolean tests.
use Prim.Native.Nat.{ℕ, zero, suc, ◌+◌, ◌-◌, min}
use mathlib.Core.Path.{◌≡◌, refl, ap, subst}
use mathlib.Core.Bool.{Bool, true, false}
use mathlib.Core.Logic.{◌⊎◌, ◌↔◌, inl, inr}
use mathlib.Core.List.{List, [], ◌∷◌, ◌++◌}
use mathlib.Core.Option.{Option, none, some}
use native.Mathlib.Omega.{arith}
use steamos_containerized.Common.Tests.{if◌then◌else◌, Bool-cases}

module _ {ℓ} {A : Type ℓ} where
  abbrev pub length : List A → ℕ
  length [] = 0
  length (x ∷ xs) = suc (length xs)

  abbrev pub take : ℕ → List A → List A
  take zero xs = []
  take (suc n) [] = []
  take (suc n) (x ∷ xs) = x ∷ take n xs

  abbrev pub drop : ℕ → List A → List A
  drop zero xs = xs
  drop (suc n) [] = []
  drop (suc n) (x ∷ xs) = drop n xs

  abbrev pub replicate : ℕ → A → List A
  replicate zero a = []
  replicate (suc n) a = a ∷ replicate n a

  abbrev pub get_elem? : List A → ℕ → Option A
  get_elem? [] i = none
  get_elem? (x ∷ xs) zero = some x
  get_elem? (x ∷ xs) (suc i) = get_elem? xs i

  -- A write out of bounds changes nothing.
  abbrev pub set : List A → ℕ → A → List A
  set [] i v = []
  set (x ∷ xs) zero v = v ∷ xs
  set (x ∷ xs) (suc i) v = x ∷ set xs i v

  -- The first element that passes the test.
  abbrev pub find_if : (A → Bool) → List A → Option A
  find_if p [] = none
  find_if p (x ∷ xs) = if p x then some x else find_if p xs

  -- `std::remove_if` and `erase`: what passes the test is dropped.
  abbrev pub remove_if : (A → Bool) → List A → List A
  remove_if p [] = []
  remove_if p (x ∷ xs) = let rest = remove_if p xs in if p x then rest else x ∷ rest

  abbrev pub All {κ} : (A → Type κ) → List A → Type κ
  All P [] = Unit
  All P (x ∷ xs) = P x × All P xs

  pub length-append : (xs ys : List A) → length (xs ++ ys) ≡ length xs + length ys
  length-append [] ys = omega arith
  length-append (x ∷ xs) ys = omega (arith, length-append xs ys)

  pub length-take : (n : ℕ) (xs : List A) → length (take n xs) ≡ min n (length xs)
  length-take zero xs = omega arith
  length-take (suc n) [] = omega arith
  length-take (suc n) (x ∷ xs) = omega (arith, length-take n xs)

  pub length-drop : (n : ℕ) (xs : List A) → length (drop n xs) ≡ length xs - n
  length-drop zero xs = omega arith
  length-drop (suc n) [] = omega arith
  length-drop (suc n) (x ∷ xs) = omega (arith, length-drop n xs)

  pub length-replicate : (n : ℕ) (a : A) → length (replicate n a) ≡ n
  length-replicate zero a = refl
  length-replicate (suc n) a = ap suc (length-replicate n a)

  pub take-append-drop : (n : ℕ) (xs : List A) → take n xs ++ drop n xs ≡ xs
  take-append-drop zero xs = refl
  take-append-drop (suc n) [] = refl
  take-append-drop (suc n) (x ∷ xs) = ap (◌∷◌ x) (take-append-drop n xs)

  pub find_if-eq-some : (p : A → Bool) (xs : List A) (a : A) → find_if p xs ≡ some a → p a ≡ true
  find_if-eq-some p [] a h = cc
  find_if-eq-some p (x ∷ xs) a h = ground (arith, find_if-eq-some p xs a)

  pub find_if-none : (p : A → Bool) (xs : List A) → find_if p xs ≡ none → All (λ a. p a ≡ false) xs
  find_if-none p [] h = tt
  find_if-none p (x ∷ xs) h = ground (arith, find_if-none p xs)

  pub find_if-All : (p : A → Bool) (xs : List A) → All (λ a. p a ≡ false) xs → find_if p xs ≡ none
  find_if-All p [] f = refl
  find_if-All p (x ∷ xs) f = rw (f.0, find_if-All p xs f.1)

  pub All-find_if {κ} :
      (P : A → Type κ) (p : A → Bool) (xs : List A) {a : A} → All P xs → find_if p xs ≡ some a → P a
  All-find_if P p [] f h = cc
  All-find_if P p (x ∷ xs) f h = elim (Bool-cases (p x)) [
    | inl t ↦ subst P (ground arith) f.0
    | inr e ↦ All-find_if P p xs f.1 (ground arith)
  ]

  pub All-remove_if {κ} :
      (P : A → Type κ) (p : A → Bool) (xs : List A) → All P xs → All P (remove_if p xs)
  All-remove_if P p [] f = tt
  All-remove_if P p (x ∷ xs) f = elim (Bool-cases (p x)) [
    | inl t ↦ rw t (All-remove_if P p xs f.1)
    | inr e ↦ rw e (f.0, All-remove_if P p xs f.1)
  ]

  pub All-append {κ} : (P : A → Type κ) (xs ys : List A) → All P xs → All P ys → All P (xs ++ ys)
  All-append P [] ys f g = g
  All-append P (x ∷ xs) ys f g = (f.0, All-append P xs ys f.1 g)

  pub All-map {κ μ} :
      (P : A → Type κ) (Q : A → Type μ) (xs : List A) → ((a : A) → P a → Q a) → All P xs → All Q xs
  All-map P Q [] g f = tt
  All-map P Q (x ∷ xs) g f = (g x f.0, All-map P Q xs g f.1)

-- Membership as a predicate by recursion.
abbrev pub In : {A : Type 0} → A → List A → Type 0
In a [] = ⊥
In a (x ∷ xs) = (a ≡ x) ⊎ In a xs

-- `o` is the first element of the list that has `P`, or none if no element has it.
pub data FirstMatch {A : Type 0} (P : A → Type 0) : List A → Option A → Type 0 where
  no_match : {xs : List A} → All (λ a. ¬ P a) xs → FirstMatch P xs none
  match_after :
      {xs : List A} {a : A} (before after : List A)
      → xs ≡ before ++ a ∷ after
      → All (λ b. ¬ P b) before
      → P a
      → FirstMatch P xs (some a)

FirstMatch-cons :
    {A : Type 0} (P : A → Type 0) (x : A) {xs : List A} {o : Option A}
    → ¬ P x
    → FirstMatch P xs o
    → FirstMatch P (x ∷ xs) o
FirstMatch-cons P x n (no_match f) = no_match (n, f)
FirstMatch-cons P x n (match_after before after e f m) =
    match_after (x ∷ before) after (ap (◌∷◌ x) e) (n, f) m

-- A search by a test that decides `P` finds the first element that has `P`.
pub find_if-FirstMatch :
    {A : Type 0} (P : A → Type 0) (p : A → Bool) (decides : (a : A) → (p a ≡ true) ↔ P a)
    (xs : List A)
    → FirstMatch P xs (find_if p xs)
find_if-FirstMatch P p decides [] = no_match tt
find_if-FirstMatch P p decides (x ∷ xs) = elim (Bool-cases (p x)) [
  | inl t ↦ rw t (match_after [] xs refl tt ((decides x).0 t))
  | inr e ↦
      rw e (FirstMatch-cons P x (λ m. cc (e, (decides x).1 m)) (find_if-FirstMatch P p decides xs))
]
