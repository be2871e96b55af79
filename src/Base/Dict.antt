-- ===== src/Base/Dict.antt =====
-- Python's `dict`: entries in the order of their first insertion.
use mathlib.Core.Path.{◌≡◌, sym, subst}
use mathlib.Core.List.{List, [], ◌∷◌, map}
use mathlib.Core.Option.{Option, none, some}
use native.Mathlib.Omega.{arith}
use mathlib.Core.Logic.{inl, inr}
use odoo_forge.Base.Lists.{All}
use odoo_forge.Base.Tests.{if◌then◌else◌, Bool-cases}
use odoo_forge.Base.Equality.{Eq, ◌==◌, ==_iff}

abbrev pub Dict {ℓ κ} : Type ℓ → Type κ → Type (ℓ ⊔ κ)
Dict K V = List (K × V)

module _ {ℓ κ} {K : Type ℓ} {V : Type κ} ⦃e : Eq K⦄ where
  -- d.get(k)
  unfoldable pub lookup : K → Dict K V → Option V
  lookup k [] = none
  lookup k ((j, v) ∷ d) = let rest = lookup k d in if j == k then some v else rest

  -- d[k] = v
  unfoldable pub put : K → V → Dict K V → Dict K V
  put k v [] = (k, v) ∷ []
  put k v ((j, w) ∷ d) = let rest = put k v d in if j == k then (j, v) ∷ d else (j, w) ∷ rest

  pub lookup-put :
      (k j : K) (v : V) (d : Dict K V)
      → lookup j (put k v d) ≡ (if k == j then some v else lookup j d)
  unfolding lookup put
  lookup-put k j v [] = ground arith
  lookup-put k j v ((i, w) ∷ d) = ground (arith, lookup-put k j v d)

abbrev pub values {ℓ κ} : {K : Type ℓ} {V : Type κ} → Dict K V → List V
values = map (λ e. e.1)

-- Conditions on every entry.
module _ {K V : Type 0} ⦃e : Eq K⦄ (P : K × V → Type 0) where
  pub put-All : (k : K) (v : V) (d : Dict K V) → P (k, v) → All P d → All P (put k v d)
  unfolding put
  put-All k v [] p all = (p, tt)
  put-All k v ((j, w) ∷ d) p all = elim (Bool-cases (j == k)) [
    | inl same ↦ rw same (subst (λ j. P (j, v)) (sym ((==_iff j k).0 same)) p, all.1)
    | inr other ↦ rw other (all.0, put-All k v d p all.1)
  ]

  pub lookup-All : (k : K) (v : V) (d : Dict K V) → All P d → lookup k d ≡ some v → P (k, v)
  unfolding lookup
  lookup-All k v [] all h = absurd (cc h)
  lookup-All k v ((j, w) ∷ d) all h = elim (Bool-cases (j == k)) [
    | inl same ↦ subst P (ground (arith, h, same, (==_iff j k).0 same)) all.0
    | inr other ↦ lookup-All k v d all.1 (ground (arith, h, other))
  ]
