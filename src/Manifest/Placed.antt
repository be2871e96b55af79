-- ===== src/Manifest/Placed.antt =====
-- The plan of odoo_forge/manifest/projection.py for a lock that passes its structural validation.
use odoo_forge.Base.{
  ◌≡◌, refl, ap, sym, ◌∙◌, subst, String, Bool, true, false, not, ◌||◌, List, [], ◌∷◌, ◌++◌, map,
  Option, none, some, Result, ok, err, if◌then◌else◌, ◌==◌, ==_iff, string_eq, arith, inl, inr,
  Bool-cases,
}
use mathlib.Core.List.{map-append}
use odoo_forge.Base.Equality.{list_eq, string_dec}
use odoo_forge.Base.Dict.{Dict, lookup, put, lookup-put}
use odoo_forge.Base.FilePath.{FilePath, ◌//◌}
use odoo_forge.Base.Lists.{IsIn, All, All-append, contains, contains_iff}
use odoo_forge.Base.Sorting.{sort, insert, text_le}
use odoo_forge.Manifest.{
  SourceLayer, Layer, published, git, Override, Manifest, ResolvedRepo, ResolvedGitLayer, Lockfile,
}
use odoo_forge.Manifest.Composition.{CompositionError, ChainEntry, compose}
use odoo_forge.Manifest.Structure
use odoo_forge.Manifest.Structure.{
  GitShape, git_shape, git_shape_eq, published_shape, published_shape_eq, expected_layers,
  expected_source, expected_enterprise, expected_git, expected_published, validate_lock_structure,
}
use odoo_forge.Manifest.Projection
use odoo_forge.Manifest.Projection.{
  ProjectionError, WorkspacePlanEntry, AnyLayer, core, enterprise, declared, Roots, category_of,
  custom_root_key, distinct, put_categories, build_mount_roots, default_container_roots,
  classify_root, put_layers, with_enterprise, layers_by_name, root_at, layer_steps, placed, place,
  plan_projection,
}

module _ {V : Type 0} where
  -- The key is in the table.
  record IsPresent (k : String) (d : Dict String V) : Type 0 where
    value : V
    found : lookup k d ≡ some value

  put-IsPresent_self : (k : String) (v : V) (d : Dict String V) → IsPresent k (put k v d)
  put-IsPresent_self k v d = record {
    value = v;
    found = rw (lookup-put k k v d, (==_iff k k).1 refl);
  }

  put-IsPresent :
      (j k : String) (v : V) (d : Dict String V) → IsPresent j d → IsPresent j (put k v d)
  put-IsPresent j k v d p = elim (Bool-cases (k == j)) [
    | inl same ↦ record { value = v; found = rw (lookup-put k j v d, same) }
    | inr other ↦ record { value = p.value; found = rw (lookup-put k j v d, other) p.found }
  ]

  -- Every value of the table.
  abbrev Values : (V → Type 0) → Dict String V → Type 0
  Values P d = (k : String) (v : V) → lookup k d ≡ some v → P v

  put-Values :
      (P : V → Type 0) (k : String) (v : V) (d : Dict String V)
      → P v
      → Values P d
      → Values P (put k v d)
  put-Values P k v d p all j w e = elim (Bool-cases (k == j)) [
    | inl same ↦ subst P (cc (e, lookup-put k j v d, self same)) p
    | inr other ↦ all j w (sym (kept other) ∙ e)
  ]
    where
      self : k == j ≡ true → (if k == j then some v else lookup j d) ≡ some v
      self same = rw same

      kept : k == j ≡ false → lookup j (put k v d) ≡ lookup j d
      kept other = rw (lookup-put k j v d, other)

moved :
    {A : Type 0} {a x y : A} (xs ys : List A)
    → (IsIn a (x ∷ xs) → IsIn a ys)
    → IsIn a (x ∷ y ∷ xs)
    → IsIn a (y ∷ ys)
moved xs ys further (inl e) = inr (further (inl e))
moved xs ys further (inr (inl e)) = inl e
moved xs ys further (inr (inr m)) = inr (further (inr m))

IsIn-insert :
    {A : Type 0} (le : A → A → Bool) (a x : A) (xs : List A)
    → IsIn a (x ∷ xs)
    → IsIn a (insert le x xs)
unfolding insert
IsIn-insert le a x [] m = m
IsIn-insert le a x (y ∷ xs) m = elim (Bool-cases (le x y)) [
  | inl before ↦ rw before m
  | inr after ↦ rw after (moved xs _ (IsIn-insert le a x xs) m)
]

kept :
    {A : Type 0} {a x : A} (xs ys : List A)
    → (IsIn a xs → IsIn a ys)
    → IsIn a (x ∷ xs)
    → IsIn a (x ∷ ys)
kept xs ys further (inl e) = inl e
kept xs ys further (inr m) = inr (further m)

IsIn-sort : {A : Type 0} (le : A → A → Bool) (a : A) (xs : List A) → IsIn a xs → IsIn a (sort le xs)
unfolding sort
IsIn-sort le a [] m = absurd m
IsIn-sort le a (x ∷ xs) m = IsIn-insert le a x (sort le xs) (kept xs _ (IsIn-sort le a xs) m)

again_in : (a x : String) (xs : List String) → contains xs x ≡ true → IsIn a (x ∷ xs) → IsIn a xs
again_in a x xs again (inl e) = subst (λ y. IsIn y xs) e ((contains_iff xs x).0 again)
again_in a x xs again (inr m) = m

IsIn-distinct : (a : String) (xs : List String) → IsIn a xs → IsIn a (distinct xs)
unfolding distinct
IsIn-distinct a [] m = absurd m
IsIn-distinct a (x ∷ xs) m = elim (Bool-cases (contains xs x)) [
  | inl again ↦ rw again (IsIn-distinct a xs (again_in a x xs again m))
  | inr first ↦ rw first (kept xs _ (IsIn-distinct a xs) m)
]

put_categories-IsPresent :
    (base : FilePath) (k : String) (cs : List String) (roots : Roots)
    → IsPresent k roots
    → IsPresent k (put_categories base cs roots)
unfolding put_categories
put_categories-IsPresent base k [] roots p = p
put_categories-IsPresent base k (c ∷ cs) roots p =
    put_categories-IsPresent base k cs _ (put-IsPresent k _ _ roots p)

category-IsPresent :
    (base : FilePath) (c : String) (cs : List String) (roots : Roots)
    → IsIn c cs
    → IsPresent (custom_root_key c) (put_categories base cs roots)
unfolding put_categories
category-IsPresent base c [] roots m = absurd m
category-IsPresent base c (d ∷ cs) roots (inl e) =
    subst (λ d. IsPresent (custom_root_key c) (put_categories base (d ∷ cs) roots)) (sym e)
      (put_categories-IsPresent base _ cs _ (put-IsPresent_self _ _ roots))
category-IsPresent base c (d ∷ cs) roots (inr m) = category-IsPresent base c cs _ m

IsIn-map : {A B : Type 0} (f : A → B) (a : A) (xs : List A) → IsIn a xs → IsIn (f a) (map f xs)
IsIn-map f a [] m = absurd m
IsIn-map f a (x ∷ xs) (inl e) = inl (ap f e)
IsIn-map f a (x ∷ xs) (inr m) = inr (IsIn-map f a xs m)

-- The layers that a name can stand for.
data IsOf (m : Manifest) : AnyLayer → Type 0 where
  of_core : IsOf m (core m.core)
  of_enterprise : {l : SourceLayer} → m.enterprise_source ≡ some l → IsOf m (enterprise l)
  of_layer : {l : Layer} → IsIn l m.layers → IsOf m (declared l)

abbrev categories : Manifest → List String
categories m = sort text_le (distinct (map category_of m.layers))

abbrev systems : Roots
systems = Projection.system_roots Projection.container_mount_base

-- Each of them has a root among the default ones.
IsOf-root :
    (m : Manifest) (l : AnyLayer)
    → IsOf m l
    → IsPresent (classify_root l) (default_container_roots m)
unfolding default_container_roots build_mount_roots classify_root Projection.system_roots lookup
IsOf-root m _ of_core =
    put_categories-IsPresent Projection.container_mount_base "community" (categories m) systems
      (record { value = Projection.container_mount_base // "community"; found = refl })
IsOf-root m _ (of_enterprise _) =
    put_categories-IsPresent Projection.container_mount_base "enterprise" (categories m) systems
      (record { value = Projection.container_mount_base // "enterprise"; found = refl })
IsOf-root m _ (of_layer {l} i) =
    category-IsPresent Projection.container_mount_base (category_of l) (categories m) systems (
      IsIn-sort text_le (category_of l) _
        (IsIn-distinct (category_of l) _ (IsIn-map category_of l m.layers i)))

-- Every name that the table knows stands for a layer of the manifest.
put_layers-IsOf :
    (m : Manifest) (layers : List Layer) (d : Dict String AnyLayer)
    → ((l : Layer) → IsIn l layers → IsIn l m.layers)
    → Values (IsOf m) d
    → Values (IsOf m) (put_layers layers d)
unfolding put_layers
put_layers-IsOf m [] d among all = all
put_layers-IsOf m (l ∷ layers) d among all =
    put_layers-IsOf m layers _ (λ k i. among k (inr i))
      (put-Values (IsOf m) _ (declared l) d (of_layer (among l (inl refl))) all)

first_value :
    (m : Manifest) (k : String) (v : AnyLayer)
    → lookup k (("core", core m.core) ∷ []) ≡ some v
    → IsOf m v
unfolding lookup
first_value m k v e = elim (Bool-cases ("core" == k)) [
  | inl same ↦ subst (IsOf m) (ground (arith, e, same)) of_core
  | inr other ↦ absurd (ground (arith, e, other))
]

with_enterprise-IsOf :
    (m : Manifest) (e : Option SourceLayer) (d : Dict String AnyLayer)
    → m.enterprise_source ≡ e
    → Values (IsOf m) d
    → Values (IsOf m) (with_enterprise e d)
unfolding with_enterprise
with_enterprise-IsOf m none d h all = all
with_enterprise-IsOf m (some l) d h all =
    put-Values (IsOf m) "enterprise" (enterprise l) d (of_enterprise h) all

layers_by_name-IsOf : (m : Manifest) → Values (IsOf m) (layers_by_name m)
unfolding layers_by_name
layers_by_name-IsOf m =
    put_layers-IsOf m m.layers _ (λ l i. i)
      (with_enterprise-IsOf m m.enterprise_source _ refl (first_value m))

put_layers-IsPresent :
    (k : String) (layers : List Layer) (d : Dict String AnyLayer)
    → IsPresent k d
    → IsPresent k (put_layers layers d)
unfolding put_layers
put_layers-IsPresent k [] d p = p
put_layers-IsPresent k (l ∷ layers) d p =
    put_layers-IsPresent k layers _ (put-IsPresent k _ (declared l) d p)

git-IsPresent :
    (overrides : List Override) (layers : List Layer) (d : Dict String AnyLayer)
    → All (λ s. IsPresent s.name (put_layers layers d)) (expected_git overrides layers)
unfolding put_layers expected_git Projection.name_of
git-IsPresent overrides [] d = tt
git-IsPresent overrides (published l ∷ layers) d = git-IsPresent overrides layers _
git-IsPresent overrides (git l ∷ layers) d = (
  put_layers-IsPresent l.name layers _ (put-IsPresent_self l.name (declared (git l)) d),
  git-IsPresent overrides layers _,
)

with_enterprise-IsPresent :
    (k : String) (e : Option SourceLayer) (d : Dict String AnyLayer)
    → IsPresent k d
    → IsPresent k (with_enterprise e d)
unfolding with_enterprise
with_enterprise-IsPresent k none d p = p
with_enterprise-IsPresent k (some l) d p = put-IsPresent k "enterprise" (enterprise l) d p

enterprise-IsPresent :
    (version : String) (e : Option SourceLayer) (layers : List Layer) (d : Dict String AnyLayer)
    → All
        (λ s. IsPresent s.name (put_layers layers (with_enterprise e d)))
        (expected_enterprise version e)
unfolding expected_enterprise with_enterprise expected_source
enterprise-IsPresent version none layers d = tt
enterprise-IsPresent version (some l) layers d = (
  put_layers-IsPresent "enterprise" layers _ (put-IsPresent_self "enterprise" (enterprise l) d),
  tt,
)

-- Every layer that a lock should have is a name of the manifest.
expected-IsPresent :
    (m : Manifest) → All (λ s. IsPresent s.name (layers_by_name m)) (expected_layers m)
unfolding layers_by_name expected_layers expected_source lookup string_dec
expected-IsPresent m = (
  put_layers-IsPresent "core" m.layers _ (
      with_enterprise-IsPresent "core" m.enterprise_source (("core", core m.core) ∷ [])
        (record { value = core m.core; found = refl })),
  All-append (λ s. IsPresent s.name (layers_by_name m))
      (expected_enterprise m.odoo_version m.enterprise_source) (expected_git m.overrides m.layers)
      (enterprise-IsPresent m.odoo_version m.enterprise_source m.layers
        (("core", core m.core) ∷ []))
      (git-IsPresent m.overrides m.layers _),
)

All-map :
    {A B : Type 0} (P : B → Type 0) (f : A → B) (xs : List A)
    → All P (map f xs)
    → All (λ x. P (f x)) xs
All-map P f [] h = tt
All-map P f (x ∷ xs) h = (h.0, All-map P f xs h.1)

-- What a step says of its repository.
abbrev pub facts : WorkspacePlanEntry → String × String × String
facts step = (step.layer, step.url, step.commit)

-- The repositories of a lock's layers, in order.
abbrev pub locked_repos : List ResolvedGitLayer → List (String × String × String)
locked_repos [] = []
locked_repos (l ∷ layers) = map (λ r. (l.name, r.url, r.commit)) l.repos ++ locked_repos layers

module _ (repo_name : String → String) where
  layer_steps-facts :
      (root layer : String) (base : FilePath) (repos : List ResolvedRepo)
      → map facts (layer_steps repo_name root layer base repos)
        ≡ map (λ r. (layer, r.url, r.commit)) repos
  unfolding layer_steps
  layer_steps-facts root layer base [] = refl
  layer_steps-facts root layer base (r ∷ repos) =
      ap (λ rest. (layer, r.url, r.commit) ∷ rest) (layer_steps-facts root layer base repos)

  -- A plan was made, of these repositories.
  record IsPlanned (result : Result ProjectionError (List WorkspacePlanEntry))
      (repos : List (String × String × String)) : Type 0 where
    steps : List WorkspacePlanEntry
    made : result ≡ ok steps
    of_repos : map facts steps ≡ repos

  root_found :
      (roots : Roots) (root : String) (p : IsPresent root roots) → root_at roots root ≡ ok p.value
  unfolding root_at Projection.or_missing
  root_found roots root p = rw p.found

  placed_repos-IsPlanned :
      (roots : Roots) (root layer : String) (repos : List ResolvedRepo)
      → IsPresent root roots
      → IsPlanned
          (Projection.placed_repos repo_name roots root layer repos)
          (map (λ r. (layer, r.url, r.commit)) repos)
  unfolding Projection.placed_repos Projection.steps_at
  placed_repos-IsPlanned roots root layer [] p = record { steps = []; made = refl; of_repos = refl }
  placed_repos-IsPlanned roots root layer (r ∷ repos) p = record {
    steps = layer_steps repo_name root layer p.value (r ∷ repos);
    made = ap (Projection.steps_at repo_name root layer (r ∷ repos)) (root_found roots root p);
    of_repos = layer_steps-facts root layer p.value (r ∷ repos);
  }

  and_then-IsPlanned :
      (first rest : Result ProjectionError (List WorkspacePlanEntry))
      (here others : List (String × String × String))
      → IsPlanned first here
      → IsPlanned rest others
      → IsPlanned (Projection.and_then_steps repo_name first rest) (here ++ others)
  unfolding Projection.and_then_steps
  and_then-IsPlanned first rest here others p q = record {
    steps = p.steps ++ q.steps;
    made = rw (p.made, q.made);
    of_repos = map-append facts p.steps q.steps ∙ both p.of_repos q.of_repos;
  }
    where
      both :
          {xs ys us vs : List (String × String × String)} → xs ≡ us → ys ≡ vs → xs ++ ys ≡ us ++ vs
      both e f = cc (e, f)

  -- A layer of the manifest stands behind the name, and its root is in the table.
  layer-IsPlanned :
      (m : Manifest) (l : ResolvedGitLayer) (p : IsPresent l.name (layers_by_name m))
      → IsPlanned
          (placed repo_name (default_container_roots m) l (some p.value))
          (map (λ r. (l.name, r.url, r.commit)) l.repos)
  unfolding placed
  layer-IsPlanned m l p =
      placed_repos-IsPlanned (default_container_roots m) (classify_root p.value) l.name l.repos
        (IsOf-root m p.value (layers_by_name-IsOf m l.name p.value p.found))

  place-IsPlanned :
      (m : Manifest) (layers : List ResolvedGitLayer)
      → All (λ l. IsPresent l.name (layers_by_name m)) layers
      → IsPlanned
          (place repo_name (layers_by_name m) (default_container_roots m) layers)
          (locked_repos layers)
  unfolding place
  place-IsPlanned m [] h = record { steps = []; made = refl; of_repos = refl }
  place-IsPlanned m (l ∷ layers) h =
      and_then-IsPlanned _ _ _ _
        (subst
          (λ v.
            IsPlanned (placed repo_name (default_container_roots m) l v)
              (map (λ r. (l.name, r.url, r.commit)) l.repos))
          (sym h.0.found) (layer-IsPlanned m l h.0))
        (place-IsPlanned m layers h.1)

compared_shapes :
    (m : Manifest) (lock : Lockfile)
    → Structure.compared m lock ≡ ok tt
    → expected_layers m ≡ map git_shape lock.git_layers
unfolding Structure.compared
compared_shapes m lock h = (==_iff (expected_layers m) (map git_shape lock.git_layers)).0 (
    first_test (expected_layers m == map git_shape lock.git_layers)
      (expected_published m.layers == map published_shape lock.published_layers) h)
  where
    first_test :
        (a b : Bool)
        → (if not a || not b then err Structure.structural_mismatch else ok tt) ≡ ok tt
        → a ≡ true
    first_test a b h = ground arith

valid_shapes :
    (m : Manifest) (lock : Lockfile) (r : Result CompositionError (List ChainEntry))
    → Structure.after_composition m lock r ≡ ok tt
    → expected_layers m ≡ map git_shape lock.git_layers
unfolding Structure.after_composition
valid_shapes m lock (ok _) h = compared_shapes m lock h
valid_shapes m lock (err e) h = absurd (cc h)

-- A lock that passes its structural validation against a manifest has a plan on the default roots: no
-- locked layer is orphaned and no root is missing. The steps are its repositories, each with its layer
-- and its locked commit, in the order of the lock.
pub plan_projection_complete :
    (repo_name : String → String) (m : Manifest) (lock : Lockfile)
    → validate_lock_structure m lock ≡ ok tt
    → (steps : List WorkspacePlanEntry) × (plan_projection repo_name m lock
          (default_container_roots m)
        ≡ ok steps)
      × (map facts steps ≡ locked_repos lock.git_layers)
unfolding validate_lock_structure plan_projection
plan_projection_complete repo_name m lock h =
    let present =
      subst (All (λ s. IsPresent s.name (layers_by_name m))) (valid_shapes m lock (compose m) h)
        (expected-IsPresent m) in
    let plan =
      place-IsPlanned repo_name m lock.git_layers
        (All-map (λ s. IsPresent s.name (layers_by_name m)) git_shape lock.git_layers present) in
    (plan.steps, plan.made, plan.of_repos)
