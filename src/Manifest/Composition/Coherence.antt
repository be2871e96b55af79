-- ===== src/Manifest/Composition/Coherence.antt =====
-- Which manifests compose (odoo_forge/manifest/composition.py).
use odoo_forge.Base.{
  ◌≡◌, ◌≢◌, ◌↔◌, refl, sym, subst, arith, false, List, [], ◌∷◌, map, Option, none, some, ok, ◌⊎◌,
  inl, string_eq,
}
use odoo_forge.Base.Lists.{All, IsIn, any, contains_iff}
use odoo_forge.Manifest.{
  Edition, community, enterprise, Layer, GitLayer, published, git, Override, Manifest,
}
use odoo_forge.Manifest.Composition.{
  layer_name, Target, target, target_eq, check_reserved_layer_names, check_community, check_edition,
  layer_named, check_target, check_override, check_overrides, checks, chain, compose,
}

abbrev pub IsForCommunity : Layer → Type 0
IsForCommunity (published l) = l.requires_enterprise ≡ false
IsForCommunity (git l) = Unit

-- An override whose layer is a git layer, other than `core`, with the repository that it replaces.
abbrev pub IsOverride : List Layer → Override → Type 0
IsOverride layers o =
    (o.layer ≢ "core")
    × ((l : GitLayer) × (layer_named o.layer layers ≡ some (git l))
        × IsIn o.repo (map (λ r. r.url) l.repos))

-- No override has the target of an earlier one.
abbrev pub IsDistinct : List Override → Type 0
IsDistinct [] = Unit
IsDistinct (o ∷ os) = All (λ p. target o ≢ target p) os × IsDistinct os

reserved-ok :
    (layers : List Layer)
    → (check_reserved_layer_names layers ≡ ok tt) ↔ All (λ l. layer_name l ≢ "core") layers
unfolding check_reserved_layer_names any
reserved-ok [] = (λ h. tt, λ h. refl)
reserved-ok (l ∷ layers) = ground (arith, reserved-ok layers)

community-ok : (layers : List Layer) → (check_community layers ≡ ok tt) ↔ All IsForCommunity layers
unfolding check_community
community-ok [] = (λ h. tt, λ h. refl)
community-ok (git l ∷ layers) = ground (arith, community-ok layers)
community-ok (published l ∷ layers) = ground (arith, community-ok layers)

edition-ok :
    (e : Edition) (layers : List Layer)
    → (check_edition e layers ≡ ok tt) ↔ ((e ≡ enterprise) ⊎ All IsForCommunity layers)
unfolding check_edition
edition-ok enterprise layers = (λ h. inl refl, λ h. refl)
edition-ok community layers = ground (arith, community-ok layers)

target-ok :
    (o : Override) (found : Option Layer)
    → (check_target o found ≡ ok tt)
      ↔ ((l : GitLayer) × (found ≡ some (git l)) × IsIn o.repo (map (λ r. r.url) l.repos))
unfolding check_target
target-ok o none = ground arith
target-ok o (some (published l)) = ground arith
target-ok o (some (git l)) =
    let has = contains_iff (map (λ r. r.url) l.repos) o.repo in
    (
      λ h. (l, refl, has.0 (ground arith)),
      λ h.
          let here : h.0 ≡ l = sym (cc h.1) in
          rw (has.1 (subst (λ (x : GitLayer). IsIn o.repo (map (λ r. r.url) x.repos)) here h.2))
            refl,
    )

override-ok :
    (layers : List Layer) (seen : List Target) (o : Override)
    → (check_override layers seen o ≡ ok tt) ↔ ((¬ (IsIn (target o) seen)) × IsOverride layers o)
unfolding check_override
override-ok layers seen o =
    ground (arith, target-ok o (layer_named o.layer layers), contains_iff seen (target o))

fresh-cons :
    (t : Target) (seen : List Target) (os : List Override)
    → All (λ o. ¬ (IsIn (target o) (t ∷ seen))) os
      ↔ (All (λ o. t ≢ target o) os × All (λ o. ¬ (IsIn (target o) seen)) os)
fresh-cons t seen [] = (λ h. (tt, tt), λ h. tt)
fresh-cons t seen (o ∷ os) = ground (arith, fresh-cons t seen os)

fresh-nil : (os : List Override) → All (λ o. ¬ (IsIn (target o) [])) os
fresh-nil [] = tt
fresh-nil (o ∷ os) = (λ m. absurd m, fresh-nil os)

overrides-ok :
    (layers : List Layer) (seen : List Target) (os : List Override)
    → (check_overrides layers seen os ≡ ok tt)
      ↔ (All (λ o. ¬ (IsIn (target o) seen)) os × IsDistinct os × All (IsOverride layers) os)
unfolding check_overrides
overrides-ok layers seen [] = (λ h. (tt, tt, tt), λ h. refl)
overrides-ok layers seen (o ∷ os) = ground (
  arith,
  override-ok layers seen o,
  overrides-ok layers (target o ∷ seen) os,
  fresh-cons (target o) seen os,
)

-- A manifest composes exactly if no layer takes the reserved name, a community manifest has no
-- published layer that requires the enterprise edition, and its overrides have distinct targets,
-- each a repository of a git layer; it then composes to its chain.
pub compose-ok_iff :
    (m : Manifest)
    → (compose m ≡ ok (chain m)) ↔ (
        All (λ l. layer_name l ≢ "core") m.layers
        × ((m.edition ≡ enterprise) ⊎ All IsForCommunity m.layers)
        × IsDistinct m.overrides
        × All (IsOverride m.layers) m.overrides)
unfolding compose checks
compose-ok_iff m = ground (
  arith,
  reserved-ok m.layers,
  edition-ok m.edition m.layers,
  overrides-ok m.layers [] m.overrides,
  fresh-nil m.overrides,
)
