-- ===== src/Manifest/Backed.antt =====
-- The mounts of `build_mount_planning_view` (odoo_forge/manifest/projection.py) come from scanned
-- checkouts of what the lock pins.
use odoo_forge.Base.{
  ◌≡◌, refl, ap, sym, ◌∙◌, subst, String, Bool, true, false, List, [], ◌∷◌, map, Option, none, some,
  Result, ok, err, if◌then◌else◌, ◌==◌, ==_iff, string_eq, arith, inl, inr, is_empty, length,
  Bool-cases, Option-cases,
}
use odoo_forge.Base.Text.{nat_eq}
use odoo_forge.Base.Dict.{Dict, lookup, put, put-All, lookup-All}
use odoo_forge.Base.FilePath.{◌//◌}
use odoo_forge.Base.Lists.{IsIn, All}
use odoo_forge.Base.Sorting.{sort, insert}
use odoo_forge.Base.Results.{then-ok, ensure, ensured}
use odoo_forge.Manifest.{Manifest, Lockfile}
use odoo_forge.Manifest.Drift.{manifest_lock_drift}
use odoo_forge.Manifest.Structure.{StructureError, validate_lock_structure}
use odoo_forge.Manifest.Projection.{
  ProjectionError, WorkspacePlanEntry, Roots, default_container_roots, plan_projection, root_at,
}
use odoo_forge.Manifest.Placed.{facts, locked_repos, plan_projection_complete}
use odoo_forge.Manifest.Mounts.{
  ScannedRepo, MountEvidence, Identity, identity_eq, identity_le, identity_of, path_eq, MountError,
  Sources, authoritative, or_none, is_none, expected_of, are_distinct, projected, structured,
  or_fail, container_paths, container_path, match_root_and_layer, put_source, admit, admit_all,
  check_commits, mount, mount_all, unmatched_path, unexpected, incoherent_path, duplicate_evidence,
  commit_drift, missing_evidence, manifest_drift, duplicate_identities, conflicting_paths,
}
use odoo_forge.Manifest.View.{
  Scan, or_default, build_mount_planning_view, expected_steps, planned_mounts,
  validate_materialized_state,
}

insert-All :
    {A : Type 0} (P : A → Type 0) (le : A → A → Bool) (a : A) (xs : List A)
    → P a
    → All P xs
    → All P (insert le a xs)
unfolding insert
insert-All P le a [] p all = (p, tt)
insert-All P le a (x ∷ xs) p all = elim (Bool-cases (le a x)) [
  | inl before ↦ rw before (p, all)
  | inr after ↦ rw after (all.0, insert-All P le a xs p all.1)
]

sort-All :
    {A : Type 0} (P : A → Type 0) (le : A → A → Bool) (xs : List A) → All P xs → All P (sort le xs)
unfolding sort
sort-All P le [] all = tt
sort-All P le (x ∷ xs) all = insert-All P le x (sort le xs) all.0 (sort-All P le xs all.1)

module _ {E A : Type 0} where
  ok_inj : {a b : A} → (a' : Result E A) → a' ≡ ok a → a' ≡ ok b → a ≡ b
  ok_inj a' h k = cc (sym h ∙ k)

some_inj : {A : Type 0} {a b : A} → some a ≡ some b → a ≡ b
some_inj h = cc h

given : {A : Type 0} (e : MountError) (o : Option A) {a : A} → or_fail e o ≡ ok a → o ≡ some a
given e (some a) h = cc h
given e none h = absurd (cc h)

-- Every checkout that is kept for a repository was scanned, at its address.
record IsSeen (scanned : List ScannedRepo) (entry : Identity × Sources) : Type 0 where
  worktree_seen :
      (r : ScannedRepo) → entry.1.worktree ≡ some r → IsIn r scanned × (r.url ≡ entry.0.1)
  read_only_seen :
      (r : ScannedRepo) → entry.1.read_only ≡ some r → IsIn r scanned × (r.url ≡ entry.0.1)

authoritative-IsSeen :
    (scanned : List ScannedRepo) (id : Identity) (found : Sources) (r : ScannedRepo)
    → IsSeen scanned (id, found)
    → authoritative found ≡ some r
    → IsIn r scanned × (r.url ≡ id.1)
unfolding authoritative
authoritative-IsSeen scanned id found r seen h = elim (Option-cases found.worktree) [
  | inl absent ↦ seen.read_only_seen r (ground (arith, h, absent))
  | inr (w, here) ↦ seen.worktree_seen r (ground (arith, h, here))
]

found-IsSeen :
    (scanned : List ScannedRepo) (id : Identity) (sources : Dict Identity Sources)
    (o : Option Sources)
    → lookup id sources ≡ o
    → All (IsSeen scanned) sources
    → IsSeen scanned (id, or_none o)
unfolding or_none
found-IsSeen scanned id sources none h all = record {
  worktree_seen = λ r e. absurd (cc e);
  read_only_seen = λ r e. absurd (cc e);
}
found-IsSeen scanned id sources (some found) h all =
    lookup-All (IsSeen scanned) id found sources all h

module _ (repo_name : String → String) (scanned : List ScannedRepo) where
  kept-IsSeen :
      (id : Identity) (repo : ScannedRepo) (found : Sources) (is_worktree : Bool)
      → IsIn repo scanned
      → repo.url ≡ id.1
      → IsSeen scanned (id, found)
      → IsSeen scanned (
        id,
        if is_worktree
            then record found { worktree = some repo }
            else record found { read_only = some repo },
      )
  kept-IsSeen id repo found true i url seen = record {
    worktree_seen = λ r e. subst (λ r. IsIn r scanned × (r.url ≡ id.1)) (cc e) (i, url);
    read_only_seen = seen.read_only_seen;
  }
  kept-IsSeen id repo found false i url seen = record {
    worktree_seen = seen.worktree_seen;
    read_only_seen = λ r e. subst (λ r. IsIn r scanned × (r.url ≡ id.1)) (cc e) (i, url);
  }

  put_source-IsSeen :
      (is_worktree : Bool) (id : Identity) (repo : ScannedRepo)
      (sources next : Dict Identity Sources)
      → IsIn repo scanned
      → repo.url ≡ id.1
      → All (IsSeen scanned) sources
      → put_source repo_name is_worktree id repo sources ≡ ok next
      → All (IsSeen scanned) next
  unfolding put_source
  put_source-IsSeen true id repo sources next i url all h =
      let (_, _, e) =
        then-ok (ensure (is_none (or_none (lookup id sources)).worktree) (duplicate_evidence id)) _
          h in
      subst (All (IsSeen scanned)) (ok_inj _ refl e) (
        put-All (IsSeen scanned) id _ sources
          (kept-IsSeen id repo (or_none (lookup id sources)) true i url
            (found-IsSeen scanned id sources (lookup id sources) refl all))
          all)
  put_source-IsSeen false id repo sources next i url all h =
      let (_, _, e) =
        then-ok (ensure (is_none (or_none (lookup id sources)).read_only) (duplicate_evidence id)) _
          h in
      subst (All (IsSeen scanned)) (ok_inj _ refl e) (
        put-All (IsSeen scanned) id _ sources
          (kept-IsSeen id repo (or_none (lookup id sources)) false i url
            (found-IsSeen scanned id sources (lookup id sources) refl all))
          all)

  module _ (expected : Dict Identity WorkspacePlanEntry) (roots : Roots) where
    admit-IsSeen :
        (sources next : Dict Identity Sources) (repo : ScannedRepo)
        → IsIn repo scanned
        → All (IsSeen scanned) sources
        → admit repo_name expected roots sources repo ≡ ok next
        → All (IsSeen scanned) next
    unfolding admit
    admit-IsSeen sources next repo i all h =
        let (found, _, h1) =
          then-ok (or_fail (unmatched_path repo.path) (match_root_and_layer repo.path roots)) _ h in
        let (step, _, h2) =
          then-ok (or_fail (unexpected (found.1, repo.url)) (lookup (found.1, repo.url) expected)) _
            h1 in
        let kind : String = if found.0 == "worktrees" then "worktrees" else step.mount_root in
        let (base, _, h3) = then-ok (projected (root_at roots kind)) _ h2 in
        let (_, _, h4) =
          then-ok
            (ensure (repo.path == base // found.1 // repo_name repo.url)
              (incoherent_path (found.1, repo.url)))
            _ h3 in
        put_source-IsSeen (found.0 == "worktrees") (found.1, repo.url) repo sources next i refl all
          h4

    admit_all-IsSeen :
        (sources next : Dict Identity Sources) (repos : List ScannedRepo)
        → ((r : ScannedRepo) → IsIn r repos → IsIn r scanned)
        → All (IsSeen scanned) sources
        → admit_all repo_name expected roots sources repos ≡ ok next
        → All (IsSeen scanned) next
    unfolding admit_all
    admit_all-IsSeen sources next [] within all h = subst (All (IsSeen scanned)) (cc h) all
    admit_all-IsSeen sources next (repo ∷ repos) within all h =
        let (mid, h0, h1) = then-ok (admit repo_name expected roots sources repo) _ h in
        admit_all-IsSeen mid next repos (λ r m. within r (inr m))
          (admit-IsSeen sources mid repo (within repo (inl refl)) all h0) h1

-- The checkout that is selected for a repository is at the commit of its step.
IsChecked : Dict Identity WorkspacePlanEntry → Identity × Sources → Type 0
IsChecked expected entry =
    (r : ScannedRepo)
    → authoritative entry.1 ≡ some r
    → (step : WorkspacePlanEntry) × (lookup entry.0 expected ≡ some step) × (r.commit ≡ step.commit)

check_commits-IsChecked :
    (repo_name : String → String) (expected : Dict Identity WorkspacePlanEntry)
    (sources : Dict Identity Sources)
    → check_commits repo_name expected sources ≡ ok tt
    → All (IsChecked expected) sources
unfolding check_commits IsChecked
check_commits-IsChecked repo_name expected [] h = tt
check_commits-IsChecked repo_name expected ((id, found) ∷ sources) h =
    let (selected, h0, h1) = then-ok (or_fail (missing_evidence id) (authoritative found)) _ h in
    let (step, k0, h2) = then-ok (or_fail (unexpected id) (lookup id expected)) _ h1 in
    let (_, test, h3) = then-ok (ensure (selected.commit == step.commit) (commit_drift id)) _ h2 in
    (
      λ r kept. (
        step,
        given (unexpected id) _ k0,
        ap (λ (x : ScannedRepo). x.commit) (some_inj (sym kept ∙ given (missing_evidence id) _ h0))
            ∙ (==_iff selected.commit step.commit).0 (ensured _ _ test),
      ),
      check_commits-IsChecked repo_name expected sources h3,
    )

-- Every expected step stands under its own identity and is one of the plan.
IsOwn : List WorkspacePlanEntry → Identity × WorkspacePlanEntry → Type 0
IsOwn steps entry = (identity_of entry.1 ≡ entry.0) × IsIn entry.1 steps

expected_of-IsOwn :
    (plan steps : List WorkspacePlanEntry) (d : Dict Identity WorkspacePlanEntry)
    → ((s : WorkspacePlanEntry) → IsIn s steps → IsIn s plan)
    → All (IsOwn plan) d
    → All (IsOwn plan) (expected_of steps d)
unfolding expected_of IsOwn
expected_of-IsOwn plan [] d within all = all
expected_of-IsOwn plan (step ∷ steps) d within all =
    expected_of-IsOwn plan steps (put (identity_of step) step d) (λ s m. within s (inr m))
      (put-All (IsOwn plan) (identity_of step) step d (refl, within step (inl refl)) all)

found-IsChecked :
    (expected : Dict Identity WorkspacePlanEntry) (id : Identity) (sources : Dict Identity Sources)
    (o : Option Sources)
    → lookup id sources ≡ o
    → All (IsChecked expected) sources
    → IsChecked expected (id, or_none o)
unfolding or_none IsChecked authoritative
found-IsChecked expected id sources none h all = λ r e. absurd (cc e)
found-IsChecked expected id sources (some found) h all =
    lookup-All (IsChecked expected) id found sources all h

-- A mount is backed by a scanned checkout of the repository it names, at a commit that is pinned.
pub record IsBacked (scanned : List ScannedRepo) (pinned : List (String × String × String))
    (m : MountEvidence) : Type 0 where
  pub checkout : ScannedRepo
  pub is_scanned : IsIn checkout scanned
  pub at_path : checkout.path ≡ m.source_path
  pub at_url : checkout.url ≡ m.url
  pub is_pinned : IsIn (m.layer, m.url, checkout.commit) pinned

-- What the loops have established of what they gathered.
record IsGathered (scanned : List ScannedRepo) (plan : List WorkspacePlanEntry)
    (expected : Dict Identity WorkspacePlanEntry) (sources : Dict Identity Sources) : Type 0 where
  seen : All (IsSeen scanned) sources
  checked : All (IsChecked expected) sources
  owned : All (IsOwn plan) expected

IsIn-map : {A B : Type 0} (f : A → B) (a : A) (xs : List A) → IsIn a xs → IsIn (f a) (map f xs)
IsIn-map f a [] m = absurd m
IsIn-map f a (x ∷ xs) (inl e) = inl (ap f e)
IsIn-map f a (x ∷ xs) (inr m) = inr (IsIn-map f a xs m)

module _ (repo_name : String → String) (scanned : List ScannedRepo) (plan : List WorkspacePlanEntry)
    (container_roots : Roots) (expected : Dict Identity WorkspacePlanEntry)
    (sources : Dict Identity Sources) (all : IsGathered scanned plan expected sources) where
  mount-IsBacked :
      (id : Identity) (step : WorkspacePlanEntry) (made : MountEvidence)
      → IsOwn plan (id, step)
      → mount repo_name container_roots sources id step ≡ ok made
      → IsBacked scanned (map facts plan) made
  unfolding mount IsChecked IsOwn
  mount-IsBacked id step made own h =
      let found : Sources = or_none (lookup id sources) in
      let (r, h0, h1) = then-ok (or_fail (missing_evidence id) (authoritative found)) _ h in
      let (target, _, h2) = then-ok (container_path repo_name container_roots step) _ h1 in
      let kept : authoritative found ≡ some r = given (missing_evidence id) _ h0 in
      let (_, url) =
        authoritative-IsSeen scanned id found r
          (found-IsSeen scanned id sources (lookup id sources) refl all.seen) kept in
      let (i, _) =
        authoritative-IsSeen scanned id found r
          (found-IsSeen scanned id sources (lookup id sources) refl all.seen) kept in
      let (s, known, same) =
        found-IsChecked expected id sources (lookup id sources) refl all.checked r kept in
      let (own_s, in_plan) = lookup-All (IsOwn plan) id s expected all.owned known in
      subst (IsBacked scanned (map facts plan)) (ok_inj _ refl h2) (record {
        checkout = r;
        is_scanned = i;
        at_path = refl;
        at_url = url ∙ sym (ap (λ x. x.1) own.0);
        is_pinned =
            subst (λ f. IsIn f (map facts plan))
              (ap (λ (i : Identity). (i.0, i.1, s.commit)) (own_s ∙ sym own.0)
                ∙ ap (λ c. (step.layer, step.url, c)) (sym same))
              (IsIn-map facts s plan in_plan);
      })

  mount_all-IsBacked :
      (steps : Dict Identity WorkspacePlanEntry) (mounts : List MountEvidence)
      → All (IsOwn plan) steps
      → mount_all repo_name container_roots sources steps ≡ ok mounts
      → All (IsBacked scanned (map facts plan)) mounts
  unfolding mount_all
  mount_all-IsBacked [] mounts own h =
      subst (All (IsBacked scanned (map facts plan))) (ok_inj _ refl h) tt
  mount_all-IsBacked ((id, step) ∷ steps) mounts own h =
      let (first, h0, h1) = then-ok (mount repo_name container_roots sources id step) _ h in
      let (rest, h2, h3) = then-ok (mount_all repo_name container_roots sources steps) _ h1 in
      subst (All (IsBacked scanned (map facts plan))) (ok_inj _ refl h3)
        (mount-IsBacked id step first own.0 h0, mount_all-IsBacked steps rest own.1 h2)

planned_mounts-IsBacked :
    (hash : Manifest → String) (repo_name : String → String) (scan : Scan) (container_roots : Roots)
    (plan : List WorkspacePlanEntry) (expected : Dict Identity WorkspacePlanEntry)
    (mounts : List MountEvidence)
    → All (IsOwn plan) expected
    → planned_mounts hash repo_name scan container_roots expected ≡ ok mounts
    → All (IsBacked scan.scanned (map facts plan)) mounts
unfolding planned_mounts
planned_mounts-IsBacked hash repo_name scan container_roots plan expected mounts own h =
    let (sources, h0, h1) = then-ok (admit_all repo_name expected scan.roots [] scan.scanned) _ h in
    let (_, k0, h2) = then-ok (check_commits repo_name expected sources) _ h1 in
    let sorted : Dict Identity WorkspacePlanEntry = sort (λ a b. identity_le a.0 b.0) expected in
    let (made, h3, h4) = then-ok (mount_all repo_name container_roots sources sorted) _ h2 in
    let (_, _, h5) = then-ok (validate_materialized_state scan.state expected) _ h4 in
    subst (All (IsBacked scan.scanned (map facts plan))) (ok_inj _ refl h5) (
      mount_all-IsBacked repo_name scan.scanned plan container_roots expected sources
        (record {
          seen =
              admit_all-IsSeen repo_name scan.scanned expected scan.roots [] sources scan.scanned
                (λ r m. m) tt h0;
          checked = check_commits-IsChecked repo_name expected sources k0;
          owned = own;
        })
        sorted made (sort-All (IsOwn plan) (λ a b. identity_le a.0 b.0) expected own) h3)

projected-ok : {A : Type 0} (r : Result ProjectionError A) (a : A) → projected r ≡ ok a → r ≡ ok a
projected-ok (ok b) a h = ap ok (ok_inj _ refl h)
projected-ok (err e) a h = absurd (cc h)

structured-ok :
    (r : Result StructureError (Unit {0})) {u : Unit {0}} → structured r ≡ ok u → r ≡ ok tt
structured-ok (ok tt) h = refl
structured-ok (err e) h = absurd (cc h)

module _ (hash : Manifest → String) (repo_name : String → String) (m : Manifest)
    (lock : Lockfile) where
  expected_steps-IsOwn :
      (container_roots : Roots) (expected : Dict Identity WorkspacePlanEntry)
      → expected_steps hash repo_name m lock container_roots ≡ ok expected
      → (plan : List WorkspacePlanEntry) × All (IsOwn plan) expected
        × (map facts plan ≡ locked_repos lock.git_layers)
  unfolding expected_steps
  expected_steps-IsOwn container_roots expected h =
      let (_, _, h1) =
        then-ok (ensure (is_empty (manifest_lock_drift hash m (some lock))) manifest_drift) _ h in
      let (_, valid, h2) = then-ok (structured (validate_lock_structure m lock)) _ h1 in
      let (steps, planned, h3) =
        then-ok (projected (plan_projection repo_name m lock (default_container_roots m))) _ h2 in
      let (_, _, h4) =
        then-ok (ensure (length (expected_of steps []) == length steps) duplicate_identities) _
          h3 in
      let (paths, _, h5) = then-ok (container_paths repo_name container_roots steps) _ h4 in
      let (_, _, h6) = then-ok (ensure (are_distinct paths) conflicting_paths) _ h5 in
      let (made, plan, of_lock) =
        plan_projection_complete repo_name m lock (structured-ok _ valid) in
      let same : made ≡ steps = ok_inj _ plan (projected-ok _ steps planned) in
      (
        steps,
        subst (All (IsOwn steps)) (ok_inj _ refl h6)
            (expected_of-IsOwn steps steps [] (λ s m. m) tt),
        ap (map facts) (sym same) ∙ of_lock,
      )

  -- Every mount of a planning view is backed: a scanned checkout has the path and the address of the
  -- mount, and its layer, address and commit are those of a repository that the lock pins.
  pub build_mount_planning_view-IsBacked :
      (scan : Scan) (mounts : List MountEvidence)
      → build_mount_planning_view hash repo_name m (some lock) scan ≡ ok mounts
      → All (IsBacked scan.scanned (locked_repos lock.git_layers)) mounts
  unfolding build_mount_planning_view
  build_mount_planning_view-IsBacked scan mounts h =
      let roots : Roots = or_default m scan.container_roots in
      let (expected, h0, h1) = then-ok (expected_steps hash repo_name m lock roots) _ h in
      let (plan, own, of_lock) = expected_steps-IsOwn roots expected h0 in
      subst (λ pinned. All (IsBacked scan.scanned pinned) mounts) of_lock
        (planned_mounts-IsBacked hash repo_name scan roots plan expected mounts own h1)
