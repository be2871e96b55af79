-- ===== src/Durable/Transitions.antt =====
-- Which lifecycle steps `advance_lifecycle` of odoo_forge/durable_operations/service.py lets through,
-- and what no sequence of them can do.
use odoo_forge.Base.{ℕ, suc, ◌+◌, ◌≤◌, ◌≡◌, refl, ◌↔◌, ◌∙◌, true, false, arith, ok}
use odoo_forge.Durable.{
  LifecycleState, accepted, in_progress, reconciliation_required, terminal_pending, succeeded,
  failed, cleanup_required, closed, state_dec, lifecycle_order, is_terminal_outcome, is_post_commit,
  advance_lifecycle,
}

-- The intended order of the lifecycle: work moves forward or stays, an outcome is kept until its
-- cleanup or its close, and nothing crosses into the states after a commit.
pub data Allowed : LifecycleState → LifecycleState → Type 0 where
  work :
      (current target : LifecycleState)
      → is_post_commit target ≡ false
      → lifecycle_order current ≤ lifecycle_order target
      → Allowed current target
  keep : (current : LifecycleState) → Allowed current current
  clean :
      (outcome : LifecycleState)
      → is_terminal_outcome outcome ≡ true
      → Allowed outcome cleanup_required
  close : (current : LifecycleState) → is_post_commit current ≡ true → Allowed current closed

Allowed-ok :
    {current target : LifecycleState} (revision : ℕ)
    → Allowed current target
    → advance_lifecycle current revision target ≡ ok (target, revision + 1)
unfolding advance_lifecycle state_dec
Allowed-ok revision (work current target early forward) = ground arith
Allowed-ok revision (keep current) = ground arith
Allowed-ok revision (clean succeeded h) = refl
Allowed-ok revision (clean failed h) = refl
Allowed-ok revision (clean _ h) = cc
Allowed-ok revision (close current h) = ground arith

advance-Allowed :
    (current target : LifecycleState) (revision : ℕ) {next : LifecycleState × ℕ}
    → advance_lifecycle current revision target ≡ ok next
    → Allowed current target
unfolding advance_lifecycle state_dec
advance-Allowed succeeded succeeded revision h = keep succeeded
advance-Allowed succeeded cleanup_required revision h = clean succeeded refl
advance-Allowed failed failed revision h = keep failed
advance-Allowed failed cleanup_required revision h = clean failed refl
advance-Allowed cleanup_required cleanup_required revision h = keep cleanup_required
advance-Allowed succeeded closed revision h = close succeeded refl
advance-Allowed failed closed revision h = close failed refl
advance-Allowed cleanup_required closed revision h = close cleanup_required refl
advance-Allowed closed closed revision h = keep closed
advance-Allowed current accepted revision h = work current accepted refl (ground arith)
advance-Allowed current in_progress revision h = work current in_progress refl (ground arith)
advance-Allowed current reconciliation_required revision h =
    work current reconciliation_required refl (ground arith)
advance-Allowed current terminal_pending revision h =
    work current terminal_pending refl (ground arith)
advance-Allowed _ _ revision h = absurd (ground arith)

-- A step is let through exactly if the order of the lifecycle allows it; the step then reaches its
-- target, with the next revision.
pub advance-iff-Allowed :
    (current target : LifecycleState) (revision : ℕ)
    → (advance_lifecycle current revision target ≡ ok (target, revision + 1))
      ↔ Allowed current target
advance-iff-Allowed current target revision =
    (advance-Allowed current target revision, Allowed-ok revision)

-- Any number of accepted steps from a state and its revision.
pub data Run (start : LifecycleState) (first : ℕ) : ℕ → LifecycleState → ℕ → Type 0 where
  here : Run start first 0 start first
  step :
      {n : ℕ} {current next : LifecycleState} {revision later : ℕ} (target : LifecycleState)
      → Run start first n current revision
      → advance_lifecycle current revision target ≡ ok (next, later)
      → Run start first (suc n) next later

advance-next :
    (current target next : LifecycleState) (revision later : ℕ)
    → advance_lifecycle current revision target ≡ ok (next, later)
    → (lifecycle_order current ≤ lifecycle_order next)
      × (later ≡ revision + 1)
      × (is_post_commit current ≡ false → is_post_commit next ≡ false)
      × (is_terminal_outcome current ≡ true → is_terminal_outcome next ≡ true → current ≡ next)
unfolding advance_lifecycle state_dec
advance-next current target next revision later h = ground arith

-- Along any run the lifecycle never goes back, and the revision counts the steps.
pub Run_monotone :
    {start : LifecycleState} {first n : ℕ} {end : LifecycleState} {last : ℕ}
    → Run start first n end last
    → (lifecycle_order start ≤ lifecycle_order end) × (last ≡ first + n)
Run_monotone here = omega arith
Run_monotone (step {current = c} {next = s} {revision = r} {later = l} t run h) =
    omega (arith, Run_monotone run, advance-next c t s r l h)

-- No run of `advance_lifecycle` from an operation that has not committed reaches an outcome, a
-- cleanup or the close: these need the terminal commit.
pub Run-uncommitted :
    {start : LifecycleState} {first n : ℕ} {end : LifecycleState} {last : ℕ}
    → Run start first n end last
    → is_post_commit start ≡ false
    → is_post_commit end ≡ false
Run-uncommitted here h = h
Run-uncommitted (step {current = c} {next = s} {revision = r} {later = l} t run e) h =
    (advance-next c t s r l e).2 (Run-uncommitted run h)

outcome-order : (s : LifecycleState) → (is_terminal_outcome s ≡ true) ↔ (lifecycle_order s ≡ 4)
unfolding is_terminal_outcome lifecycle_order
outcome-order s = (λ h. ground arith, λ h. ground arith)

-- A run that starts at an outcome and ends at an outcome ends at the one that it started at.
pub Run-outcome :
    {start : LifecycleState} {first n : ℕ} {end : LifecycleState} {last : ℕ}
    → Run start first n end last
    → is_terminal_outcome start ≡ true
    → is_terminal_outcome end ≡ true
    → start ≡ end
Run-outcome here h k = refl
Run-outcome {start} (step {current = c} {next = s} {revision = r} {later = l} t run e) h k =
    let outcome : is_terminal_outcome c ≡ true = (outcome-order c).1 (
      omega (
        arith,
        (outcome-order start).0 h,
        (outcome-order s).0 k,
        Run_monotone run,
        advance-next c t s r l e,
      )) in
    Run-outcome run h outcome ∙ (advance-next c t s r l e).3 outcome k
