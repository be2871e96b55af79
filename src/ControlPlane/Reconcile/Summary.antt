-- ===== src/ControlPlane/Reconcile/Summary.antt =====
-- What the reconciler reports of the records that it reads (odoo_forge/control_plane/reconcile.py).
use mathlib.Core.List.{Perm}
use odoo_forge.Base.{
  ◌≡◌, ◌≢◌, refl, subst, sym, ◌∙◌, arith, true, false, not, String, List, [], ◌∷◌, map, Option,
  none, some, Result, ok, err, ◌⊎◌, inl, inr, Bool-cases, ◌==◌,
}
use odoo_forge.Base.Effects.{Exec}
use odoo_forge.Base.Lists.{All, Any, any}
use odoo_forge.Base.Sorting.{sort, sort-perm}
use odoo_forge.Values.{InstanceRecord}
use odoo_forge.Registry.Port.{InstanceRegistry}
use odoo_forge.Backend.{InstanceRef, InstanceStatus}
use odoo_forge.ControlPlane.Reconcile.{
  ReconciliationOutcome, fresh, drifted, stale_unverified, partial_failure, outcome_dec, outcome_eq,
  ReconciliationRow, status_outcome, mark_partial, summarize, by_instance, instance_ref,
  observed_row, row_at, reconcile_row, reconcile_rows, reconcile,
}

mark_partial-stored :
    (rows : List ReconciliationRow)
    → map (λ row. row.stored) (map mark_partial rows) ≡ map (λ row. row.stored) rows
unfolding mark_partial outcome_dec
mark_partial-stored [] = refl
mark_partial-stored (row ∷ rows) = ground (arith, mark_partial-stored rows)

summarize-stored :
    (rows : List ReconciliationRow)
    → map (λ row. row.stored) (summarize rows).rows ≡ map (λ row. row.stored) rows
unfolding summarize outcome_dec
summarize-stored rows = ground (arith, mark_partial-stored rows)

-- The outcomes of a row before the summary.
abbrev pub IsRowOutcome : ReconciliationOutcome → Type 0
IsRowOutcome fresh = Unit
IsRowOutcome drifted = Unit
IsRowOutcome stale_unverified = Unit
IsRowOutcome _ = ⊥

-- What a summary may say of its rows.
pub data Summary (rows : List ReconciliationRow) : ReconciliationOutcome → Type 0 where
  all_fresh : All (λ row. row.outcome ≡ fresh) rows → Summary rows fresh
  some_drifted :
      All (λ row. row.outcome ≢ stale_unverified) rows
      → Any (λ row. row.outcome ≡ drifted) rows
      → Summary rows drifted
  all_stale : All (λ row. row.outcome ≡ stale_unverified) rows → Summary rows stale_unverified
  some_stale :
      Any (λ row. row.outcome ≡ stale_unverified) rows
      → Any (λ row. row.outcome ≢ stale_unverified) rows
      → Summary rows partial_failure

Any-outcome :
    (o : ReconciliationOutcome) (rows : List ReconciliationRow)
    → any (λ row. row.outcome == o) rows ≡ true
    → Any (λ row. row.outcome ≡ o) rows
unfolding any
Any-outcome o [] h = absurd (cc h)
Any-outcome o (row ∷ rows) h = ground (arith, Any-outcome o rows)

Any-usable :
    (rows : List ReconciliationRow)
    → any (λ row. not (row.outcome == stale_unverified)) rows ≡ true
    → Any (λ row. row.outcome ≢ stale_unverified) rows
unfolding any outcome_dec
Any-usable [] h = absurd (cc h)
Any-usable (row ∷ rows) h = ground (arith, Any-usable rows)

All-other :
    (o : ReconciliationOutcome) (rows : List ReconciliationRow)
    → any (λ row. row.outcome == o) rows ≡ false
    → All (λ row. row.outcome ≢ o) rows
unfolding any
All-other o [] h = tt
All-other o (row ∷ rows) h = ground (arith, All-other o rows)

All-stale :
    (rows : List ReconciliationRow)
    → any (λ row. not (row.outcome == stale_unverified)) rows ≡ false
    → All (λ row. row.outcome ≡ stale_unverified) rows
unfolding any outcome_dec
All-stale [] h = tt
All-stale (row ∷ rows) h = ground (arith, All-stale rows)

stale-drifted :
    (rows : List ReconciliationRow)
    → All (λ row. row.outcome ≡ stale_unverified) rows
    → Any (λ row. row.outcome ≡ drifted) rows
    → ⊥
stale-drifted [] h d = absurd d
stale-drifted (row ∷ rows) h d = ground (arith, stale-drifted rows)

All-fresh :
    (rows : List ReconciliationRow)
    → All (λ row. IsRowOutcome row.outcome) rows
    → All (λ row. row.outcome ≢ stale_unverified) rows
    → All (λ row. row.outcome ≢ drifted) rows
    → All (λ row. row.outcome ≡ fresh) rows
All-fresh [] h k l = tt
All-fresh (row ∷ rows) h k l = ground (arith, All-fresh rows)

summarize-Summary :
    (rows : List ReconciliationRow)
    → All (λ row. IsRowOutcome row.outcome) rows
    → Summary rows (summarize rows).outcome
unfolding summarize outcome_dec
summarize-Summary rows h = elim (Bool-cases (any (λ row. row.outcome == stale_unverified) rows)) [
  | inl stale ↦ elim (Bool-cases (any (λ row. not (row.outcome == stale_unverified)) rows)) [
    | inl usable ↦
        rw (stale, usable)
          (some_stale (Any-outcome stale_unverified rows stale) (Any-usable rows usable))
    | inr none_usable ↦ elim (Bool-cases (any (λ row. row.outcome == drifted) rows)) [
      | inl d ↦
          absurd (stale-drifted rows (All-stale rows none_usable) (Any-outcome drifted rows d))
      | inr nd ↦ rw (stale, none_usable, nd) (all_stale (All-stale rows none_usable))
    ]
  ]
  | inr none_stale ↦ elim (Bool-cases (any (λ row. row.outcome == drifted) rows)) [
    | inl d ↦
        rw (none_stale, d)
          (some_drifted (All-other stale_unverified rows none_stale) (Any-outcome drifted rows d))
    | inr nd ↦
        rw (none_stale, nd)
          (all_fresh (
            All-fresh rows h (All-other stale_unverified rows none_stale)
              (All-other drifted rows nd)))
  ]
]

-- A row that is stale, or shows a live status and what follows from it.
abbrev pub IsObserved : ReconciliationRow → Type 0
IsObserved row =
    (row.outcome ≡ stale_unverified)
    ⊎ ((live : InstanceStatus) × (row.live ≡ some live)
        × ((row.outcome ≡ drifted)
            ⊎ ((row.outcome ≡ fresh)
                × (live.odoo.running ≡ true)
                × (live.odoo.ready ≡ true)
                × (live.postgres.running ≡ true)
                × (live.postgres.ready ≡ true))))

module _ {R B E : Type 0} (registry : InstanceRegistry R)
    (status : InstanceRef → Exec B E InstanceStatus) (lower digest : String → String) where
  row_at-stored :
      (r : InstanceRecord) (ref : Option InstanceRef) (b : B)
      → (row_at registry status lower digest r ref b).0.stored ≡ r
  unfolding row_at observed_row
  row_at-stored r none b = refl
  row_at-stored r (some ref) b = ground arith

  reconcile_row-stored :
      (r : InstanceRecord) (b : B) → (reconcile_row registry status lower digest r b).0.stored ≡ r
  unfolding reconcile_row
  reconcile_row-stored r b = row_at-stored r (instance_ref registry status lower digest r) b

  reconcile_rows-stored :
      (records : List InstanceRecord) (b : B)
      → map (λ row. row.stored) (reconcile_rows registry status lower digest records b).0 ≡ records
  unfolding reconcile_rows
  reconcile_rows-stored [] b = refl
  reconcile_rows-stored (r ∷ rs) b =
      let after = (reconcile_row registry status lower digest r b).1 in
      rw (reconcile_row-stored r b, reconcile_rows-stored rs after) refl

  reconcile-sorted :
      (records : List InstanceRecord) (b : B)
      → map (λ row. row.stored) (reconcile registry status lower digest records b).0.rows
        ≡ sort by_instance records
  unfolding reconcile sort
  reconcile-sorted [] b = refl
  reconcile-sorted (r ∷ rs) b =
      let rows = (reconcile_rows registry status lower digest (sort by_instance (r ∷ rs)) b).0 in
      summarize-stored rows ∙ reconcile_rows-stored (sort by_instance (r ∷ rs)) b

  row_at-live :
      (r : InstanceRecord) (ref : Option InstanceRef) (b : B)
      → IsObserved (row_at registry status lower digest r ref b).0
  unfolding row_at observed_row status_outcome
  row_at-live r none b = inl refl
  row_at-live r (some ref) b = go (status ref b).0 refl
    where
      go :
          (answer : Result E InstanceStatus)
          → (status ref b).0 ≡ answer
          → IsObserved (row_at registry status lower digest r (some ref) b).0
      go (err e) h = rw h (inl refl)
      go (ok live) h = rw h (inr (live, refl, ground arith))

  -- A reconciliation has one row for each record, in the order of the instances' names, and loses or
  -- repeats none.
  pub reconcile-stored :
      (records : List InstanceRecord) (b : B)
      → (map (λ row. row.stored) (reconcile registry status lower digest records b).0.rows
          ≡ sort by_instance records)
        × Perm
            (map (λ row. row.stored) (reconcile registry status lower digest records b).0.rows)
            records
  reconcile-stored records b =
      let sorted = reconcile-sorted records b in (sorted, rw sorted (sort-perm by_instance records))

  -- A row that says fresh or drifted shows a live status; a fresh one has both roles running and
  -- ready.
  pub reconcile_row-live :
      (r : InstanceRecord) (b : B) → IsObserved (reconcile_row registry status lower digest r b).0
  unfolding reconcile_row
  reconcile_row-live r b = row_at-live r (instance_ref registry status lower digest r) b

  IsObserved-IsRowOutcome : (row : ReconciliationRow) → IsObserved row → IsRowOutcome row.outcome
  IsObserved-IsRowOutcome row (inl h) = subst IsRowOutcome (sym h) tt
  IsObserved-IsRowOutcome row (inr (live, _, inl h)) = subst IsRowOutcome (sym h) tt
  IsObserved-IsRowOutcome row (inr (live, _, inr (h, _, _, _, _))) = subst IsRowOutcome (sym h) tt

  reconcile_rows-IsRowOutcome :
      (records : List InstanceRecord) (b : B)
      → All
          (λ row. IsRowOutcome row.outcome)
          (reconcile_rows registry status lower digest records b).0
  unfolding reconcile_rows
  reconcile_rows-IsRowOutcome [] b = tt
  reconcile_rows-IsRowOutcome (r ∷ rs) b =
      let (row, after) = reconcile_row registry status lower digest r b in
      (IsObserved-IsRowOutcome row (reconcile_row-live r b), reconcile_rows-IsRowOutcome rs after)

  -- The outcome of a reconciliation of some records, against the rows observed: it is fresh only if
  -- every row is; drifted if some row is and none is stale; stale if every row is; and a partial
  -- failure if some row is stale and some is not.
  pub reconcile-Summary :
      (r : InstanceRecord) (rs : List InstanceRecord) (b : B)
      → Summary
          (reconcile_rows registry status lower digest (sort by_instance (r ∷ rs)) b).0
          (reconcile registry status lower digest (r ∷ rs) b).0.outcome
  unfolding reconcile
  reconcile-Summary r rs b =
      let sorted = sort by_instance (r ∷ rs) in
      summarize-Summary (reconcile_rows registry status lower digest sorted b).0
        (reconcile_rows-IsRowOutcome sorted b)
