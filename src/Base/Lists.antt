-- ===== src/Base/Lists.antt =====
-- Loops over sequences: Python's `in`, `any`, `all`, comprehensions and `len`, with their laws.
use mathlib.Core.List.{List, [], ◌∷◌, ◌++◌}
use mathlib.Core.Path.{◌≡◌, refl, subst}
use mathlib.Core.Logic.{◌↔◌, ◌⊎◌, inl, inr}
use mathlib.Core.Bool.{Bool, true, false, ◌&&◌, ◌||◌}
use mathlib.Core.Option.{Option, none, some}
use Prim.Native.Nat.{ℕ, suc, ◌+◌}
use native.Mathlib.Omega.{arith}
use odoo_forge.Base.Tests.{if◌then◌else◌, Bool-cases}
use odoo_forge.Base.Equality.{Eq, ◌==◌}

module _ {ℓ} {A : Type ℓ} where
  abbrev pub length : List A → ℕ
  length [] = 0
  length (x ∷ xs) = suc (length xs)

  pub length-append : (xs ys : List A) → length (xs ++ ys) ≡ length xs + length ys
  length-append [] ys = omega arith
  length-append (x ∷ xs) ys = omega (arith, length-append xs ys)

  abbrev pub is_empty : List A → Bool
  is_empty [] = true
  is_empty (x ∷ xs) = false

  -- any(test(x) for x in xs)
  unfoldable pub any : (A → Bool) → List A → Bool
  any test [] = false
  any test (x ∷ xs) = test x || any test xs

  -- all(test(x) for x in xs)
  unfoldable pub all : (A → Bool) → List A → Bool
  all test [] = true
  all test (x ∷ xs) = test x && all test xs

  -- [x for x in xs if test(x)]
  unfoldable pub select : (A → Bool) → List A → List A
  select test [] = []
  select test (x ∷ xs) = let rest = select test xs in if test x then x ∷ rest else rest

  -- next((x for x in xs if test(x)), None)
  unfoldable pub find : (A → Bool) → List A → Option A
  find test [] = none
  find test (x ∷ xs) = let rest = find test xs in if test x then some x else rest

  -- Every entry, by recursion: the tactics read and build it.
  abbrev pub All {κ} : (A → Type κ) → List A → Type κ
  All P [] = Unit
  All P (x ∷ xs) = P x × All P xs

  pub All-append {κ} : (P : A → Type κ) (xs ys : List A) → All P xs → All P ys → All P (xs ++ ys)
  All-append P [] ys h k = k
  All-append P (x ∷ xs) ys h k = (h.0, All-append P xs ys h.1 k)

  pub all-All : (test : A → Bool) (xs : List A) → (all test xs ≡ true) ↔ All (λ x. test x ≡ true) xs
  unfolding all
  all-All test [] = (λ _. tt, λ _. refl)
  all-All test (x ∷ xs) = ground (arith, all-All test xs)

module _ {A : Type 0} where
  -- Some entry, by recursion.
  abbrev pub Any : (A → Type 0) → List A → Type 0
  Any P [] = ⊥
  Any P (x ∷ xs) = P x ⊎ Any P xs

  abbrev pub IsIn : A → List A → Type 0
  IsIn a = Any (λ x. x ≡ a)

  pub All-at : (P : A → Type 0) {a : A} (xs : List A) → All P xs → IsIn a xs → P a
  All-at P [] h m = absurd m
  All-at P (x ∷ xs) h (inl e) = subst P e h.0
  All-at P (x ∷ xs) h (inr m) = All-at P xs h.1 m

  pub any-Any : (test : A → Bool) (xs : List A) → (any test xs ≡ true) ↔ Any (λ x. test x ≡ true) xs
  unfolding any
  any-Any test [] = (λ h. absurd (cc h), λ h. absurd h)
  any-Any test (x ∷ xs) = ground (arith, any-Any test xs)

  pub IsIn-append_right : (a : A) (xs ys : List A) → IsIn a ys → IsIn a (xs ++ ys)
  IsIn-append_right a [] ys m = m
  IsIn-append_right a (x ∷ xs) ys m = inr (IsIn-append_right a xs ys m)

  pub IsIn-append_left : (a : A) (xs ys : List A) → IsIn a xs → IsIn a (xs ++ ys)
  IsIn-append_left a [] ys m = absurd m
  IsIn-append_left a (x ∷ xs) ys (inl e) = inl e
  IsIn-append_left a (x ∷ xs) ys (inr m) = inr (IsIn-append_left a xs ys m)

  pub IsIn-select :
      (a : A) (test : A → Bool) (xs : List A)
      → IsIn a (select test xs)
      → IsIn a xs × (test a ≡ true)
  unfolding select
  IsIn-select a test [] m = absurd m
  IsIn-select a test (x ∷ xs) m = ground (arith, IsIn-select a test xs)

  pub Any-map : {P Q : A → Type 0} → ((x : A) → P x → Q x) → (xs : List A) → Any P xs → Any Q xs
  Any-map f [] m = absurd m
  Any-map f (x ∷ xs) (inl p) = inl (f x p)
  Any-map f (x ∷ xs) (inr m) = inr (Any-map f xs m)

  later :
      (test : A → Bool) (x : A) (xs : List A)
      → Any (λ y. test y ≡ true) (x ∷ xs)
      → test x ≡ false
      → Any (λ y. test y ≡ true) xs
  later test x xs (inl p) h = absurd (cc (p, h))
  later test x xs (inr m) h = m

  pub find-some :
      (test : A → Bool) (xs : List A)
      → Any (λ x. test x ≡ true) xs
      → (x : A) × (find test xs ≡ some x)
  unfolding find
  find-some test [] m = absurd m
  find-some test (x ∷ xs) m = elim (Bool-cases (test x)) [
    | inl h ↦ (x, rw h)
    | inr h ↦ let (y, e) = find-some test xs (later test x xs m h) in (y, rw h e)
  ]

  -- What fails a test everywhere is skipped by the search for it.
  pub any-none :
      (test : A → Bool) (xs : List A) → any test xs ≡ false → All (λ x. test x ≡ false) xs
  unfolding any
  any-none test [] h = tt
  any-none test (x ∷ xs) h = ground (arith, any-none test xs)

-- a in xs
unfoldable pub contains {ℓ} : {A : Type ℓ} ⦃e : Eq A⦄ → List A → A → Bool
contains [] a = false
contains ⦃e⦄ (x ∷ xs) a = x == a || contains xs a

pub contains_iff :
    {A : Type 0} ⦃e : Eq A⦄ (xs : List A) (a : A) → (contains xs a ≡ true) ↔ IsIn a xs
unfolding contains
contains_iff [] a = (λ h. absurd (cc h), λ h. absurd h)
contains_iff ⦃e⦄ (x ∷ xs) a = ground (arith, contains_iff xs a)
