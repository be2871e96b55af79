-- ===== src/Manifest/Composition.antt =====
-- odoo_forge/manifest/composition.py: the ordered chain of a manifest, after its checks.
pub mod Coherence
use odoo_forge.Base.{
  String, Bool, true, false, not, ◌&&◌, List, [], ◌∷◌, ◌++◌, map, Option, none, some, Result, ok,
  err, if◌then◌else◌, ◌==◌, Eq, string_eq,
}
use odoo_forge.Base.Equality.{string_dec}
use odoo_forge.Base.Effects.{Exec}
use odoo_forge.Base.Lists.{any, contains}
use odoo_forge.Manifest.{
  Edition, community, enterprise, GitRepo, SourceLayer, Layer, PublishedLayer, GitLayer, published,
  git, Client, Override, Manifest,
}

pub data CompositionError : Type 0 where
  reserved_core override_core : CompositionError
  enterprise_required : (layer : String) → CompositionError
  duplicate_override unknown_repo no_repos : (layer repo : String) → CompositionError
  unknown_layer : (layer : String) → CompositionError

-- One entry of the chain.
pub data ChainEntry : Type 0 where
  core_source enterprise_source : SourceLayer → ChainEntry
  layer : Layer → ChainEntry
  client : Client → ChainEntry

unfoldable pub edition_dec : Discrete Edition
edition_dec = hlevel

instance abbrev pub edition_eq : Eq Edition
edition_eq = record { dec = edition_dec }

abbrev pub layer_name : Layer → String
layer_name (published l) = l.name
layer_name (git l) = l.name

-- What an override targets: a layer and a repository.
pub record Target : Type 0 where
  pub layer_of : String
  pub repo_of : String

unfoldable pub target_dec : Discrete Target
target_dec = hlevel string_dec

instance abbrev pub target_eq : Eq Target
target_eq = record { dec = target_dec }

abbrev pub target : Override → Target
target o = record { layer_of = o.layer; repo_of = o.repo }

-- _check_reserved_layer_names
unfoldable pub check_reserved_layer_names : List Layer → Result CompositionError (Unit {0})
unfolding any
check_reserved_layer_names layers =
    if any (λ l. layer_name l == "core") layers then err reserved_core else ok tt

-- the loop of _check_published_layer_edition_coherence
unfoldable pub check_community : List Layer → Result CompositionError (Unit {0})
check_community [] = ok tt
check_community (git l ∷ layers) = check_community layers
check_community (published l ∷ layers) =
    let rest = check_community layers in
    if l.requires_enterprise then err (enterprise_required l.name) else rest

unfoldable pub check_edition : Edition → List Layer → Result CompositionError (Unit {0})
unfolding check_community
check_edition enterprise layers = ok tt
check_edition community layers = check_community layers

or_first : Option Layer → Bool → Layer → Option Layer
or_first (some l) test first = some l
or_first none true first = some first
or_first none false first = none

-- {layer.name: layer for layer in manifest.layers}.get(name): the last of a name
unfoldable pub layer_named : String → List Layer → Option Layer
unfolding or_first
layer_named name [] = none
layer_named name (l ∷ layers) = or_first (layer_named name layers) (layer_name l == name) l

unfoldable pub check_target : Override → Option Layer → Result CompositionError (Unit {0})
unfolding contains
check_target o none = err (unknown_layer o.layer)
check_target o (some (published l)) = err (no_repos o.layer o.repo)
check_target o (some (git l)) =
    if contains (map (λ r. r.url) l.repos) o.repo then ok tt else err (unknown_repo o.layer o.repo)

abbrev pub and_next :
    Result CompositionError (Unit {0})
    → Result CompositionError (Unit {0})
    → Result CompositionError (Unit {0})
and_next (ok _) next = next
and_next (err e) next = err e

-- one turn of the loop of `_check_overrides`, the targets seen before it given
unfoldable pub check_override :
    List Layer → List Target → Override → Result CompositionError (Unit {0})
unfolding check_target layer_named contains
check_override layers seen o =
    if o.layer == "core"
    then err override_core
    else if contains seen (target o)
    then err (duplicate_override o.layer o.repo)
    else check_target o (layer_named o.layer layers)

unfoldable pub check_overrides :
    List Layer → List Target → List Override → Result CompositionError (Unit {0})
unfolding check_override
check_overrides layers seen [] = ok tt
check_overrides layers seen (o ∷ overrides) =
    and_next (check_override layers seen o) (check_overrides layers (target o ∷ seen) overrides)

unfoldable pub chain : Manifest → List ChainEntry
chain m =
    core_source m.core ∷ elim m.enterprise_source [ none ↦ [] | some e ↦ enterprise_source e ∷ [] ]
    ++ map layer m.layers
    ++ client m.client ∷ []

unfoldable pub checks : Manifest → Result CompositionError (Unit {0})
checks m =
    and_next (check_reserved_layer_names m.layers)
      (and_next (check_edition m.edition m.layers) (check_overrides m.layers [] m.overrides))

unfoldable pub compose : Manifest → Result CompositionError (List ChainEntry)
unfolding checks chain
compose m = elim (checks m) [ ok _ ↦ ok (chain m) | err e ↦ err e ]
