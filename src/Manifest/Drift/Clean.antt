-- ===== src/Manifest/Drift/Clean.antt =====
-- When a drift report is clean (odoo_forge/manifest/drift.py).
use odoo_forge.Base.{
  ◌≡◌, ◌↔◌, refl, sym, subst, arith, true, String, List, [], ◌∷◌, ◌++◌, Option, Option-cases, none,
  some, ◌⊎◌, inl, inr, is_empty, string_eq,
}
use odoo_forge.Base.Lists.{All}
use odoo_forge.Manifest.{
  Manifest, Lockfile, ResolvedRepo, ResolvedGitLayer, MaterializedRepo, MaterializedLayer,
  MaterializedState,
}
use odoo_forge.Manifest.Drift.{
  DriftEntry, layer_named, repo_at, repo_drift, repos_drift, layer_drift, layers_drift,
  lock_state_drift, manifest_lock_drift, detect_drift, is_clean,
}

-- A locked repository, and a locked layer, that are materialized as locked.
abbrev pub IsThere : List MaterializedRepo → ResolvedRepo → Type 0
IsThere found repo =
    (r : MaterializedRepo) × (repo_at repo.url found ≡ some r) × (r.commit ≡ repo.commit)

abbrev pub IsMaterialized : List MaterializedLayer → ResolvedGitLayer → Type 0
IsMaterialized found locked =
    (l : MaterializedLayer) × (layer_named locked.name found ≡ some l)
    × All (IsThere l.repos) locked.repos

append-none : (xs ys : List DriftEntry) → (xs ++ ys ≡ []) ↔ ((xs ≡ []) × (ys ≡ []))
append-none [] ys = (λ h. (refl, h), λ h. h.1)
append-none (x ∷ xs) ys = (λ h. absurd (cc h), λ h. absurd (cc (h.0)))

repo_drift-none :
    (layer : String) (found : List MaterializedRepo) (repo : ResolvedRepo)
    → (repo_drift layer repo (repo_at repo.url found) ≡ []) ↔ IsThere found repo
unfolding repo_drift
repo_drift-none layer found repo = elim (Option-cases (repo_at repo.url found)) [
  | inl absent ↦ (λ h. absurd (ground arith), λ h. absurd (ground arith))
  | inr (r, at) ↦ (λ h. (r, at, ground arith), λ h. ground arith)
]

repos_drift-none :
    (layer : String) (found : List MaterializedRepo) (repos : List ResolvedRepo)
    → (repos_drift layer found repos ≡ []) ↔ All (IsThere found) repos
unfolding repos_drift
repos_drift-none layer found [] = (λ h. tt, λ h. refl)
repos_drift-none layer found (repo ∷ repos) =
    let first = repo_drift-none layer found repo in
    let rest = repos_drift-none layer found repos in
    let both =
      append-none (repo_drift layer repo (repo_at repo.url found))
        (repos_drift layer found repos) in
    (λ h. (first.0 (both.0 h).0, rest.0 (both.0 h).1), λ h. both.1 (first.1 h.0, rest.1 h.1))

layer_drift-found :
    (locked : ResolvedGitLayer) (o : Option MaterializedLayer)
    → (layer_drift locked o ≡ [])
      ↔ ((l : MaterializedLayer) × (o ≡ some l) × All (IsThere l.repos) locked.repos)
unfolding layer_drift
layer_drift-found locked none = (λ h. absurd (cc h), λ h. absurd (cc h.1))
layer_drift-found locked (some l) =
    let same = repos_drift-none locked.name l.repos locked.repos in
    (
      λ h. (l, refl, same.0 h),
      λ h.
          let here : h.0 ≡ l = sym (cc h.1) in
          same.1 (subst (λ (x : MaterializedLayer). All (IsThere x.repos) locked.repos) here h.2),
    )

layer_drift-none :
    (found : List MaterializedLayer) (locked : ResolvedGitLayer)
    → (layer_drift locked (layer_named locked.name found) ≡ []) ↔ IsMaterialized found locked
unfolding layer_drift
layer_drift-none found locked = layer_drift-found locked (layer_named locked.name found)

layers_drift-none :
    (found : List MaterializedLayer) (layers : List ResolvedGitLayer)
    → (layers_drift found layers ≡ []) ↔ All (IsMaterialized found) layers
unfolding layers_drift
layers_drift-none found [] = (λ h. tt, λ h. refl)
layers_drift-none found (locked ∷ layers) =
    let first = layer_drift-none found locked in
    let rest = layers_drift-none found layers in
    let both =
      append-none (layer_drift locked (layer_named locked.name found))
        (layers_drift found layers) in
    (λ h. (first.0 (both.0 h).0, rest.0 (both.0 h).1), λ h. both.1 (first.1 h.0, rest.1 h.1))

empty_iff : (xs : List DriftEntry) → (is_empty xs ≡ true) ↔ (xs ≡ [])
empty_iff [] = (λ h. refl, λ h. refl)
empty_iff (x ∷ xs) = (λ h. absurd (cc h), λ h. absurd (cc h))

-- What a clean report says about the workspace, if its state is known.
abbrev pub IsInPlace : Lockfile → Option MaterializedState → Type 0
IsInPlace l state =
    (state ≡ none)
    ⊎ ((w : MaterializedState) × (state ≡ some w) × All (IsMaterialized w.layers) l.git_layers)

lock_state_drift-none :
    (l : Lockfile) (state : Option MaterializedState)
    → (is_empty (lock_state_drift (some l) state) ≡ true) ↔ IsInPlace l state
unfolding lock_state_drift
lock_state_drift-none l none = (λ h. inl refl, λ h. refl)
lock_state_drift-none l (some w) =
    let all_there = layers_drift-none w.layers l.git_layers in
    let no_entry = empty_iff (layers_drift w.layers l.git_layers) in
    (
      λ h. inr (w, refl, all_there.0 (no_entry.0 h)),
      λ h. elim h [
        | inl e ↦ absurd (cc e)
        | inr (w', e, there) ↦
            let here : w' ≡ w = sym (cc e) in
            no_entry.1 (
              all_there.1 (
                subst (λ (x : MaterializedState). All (IsMaterialized x.layers) l.git_layers) here
                  there))
      ],
    )

-- A report is clean exactly if there is a lock that was generated from the manifest as it is, and
-- where the state of the workspace is known, every locked layer is materialized with each of its
-- repositories at the locked commit.
pub detect_drift-clean_iff :
    (compute_manifest_hash : Manifest → String) (m : Manifest) (lock : Option Lockfile)
    (state : Option MaterializedState)
    → (is_clean (detect_drift compute_manifest_hash m lock state) ≡ true) ↔ (
        (l : Lockfile) × (lock ≡ some l)
        × (l.generated_from ≡ compute_manifest_hash m)
        × IsInPlace l state)
unfolding is_clean detect_drift manifest_lock_drift
detect_drift-clean_iff hash m none state = (λ h. absurd (cc h), λ h. absurd (cc h.1))
detect_drift-clean_iff hash m (some l) state =
    let placed = lock_state_drift-none l state in
    (
      λ h. (l, refl, ground arith, placed.0 (ground arith)),
      λ h.
          let same : h.0 ≡ l = sym (cc h.1) in
          let there : IsInPlace l state = subst (λ x. IsInPlace x state) same h.3 in
          let hashed : l.generated_from ≡ hash m =
            subst (λ (x : Lockfile). x.generated_from ≡ hash m) same h.2 in
          ground (arith, placed.1 there),
    )
