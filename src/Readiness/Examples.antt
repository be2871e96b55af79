-- ===== src/Readiness/Examples.antt =====
-- Concrete evidence for a gate (odoo_forge/database/readiness.py).
use odoo_forge.Base.{◌≡◌, refl, ◌↔◌, String, true, [], ◌∷◌, Option, none, some}
use odoo_forge.Base.Int.{pos}
use odoo_forge.Readiness.{
  DeliverySliceEvidence, GateReadinessEvidence, runtime_ownership, evaluate_gate_readiness,
}
use odoo_forge.Readiness.Complete.{IsComplete, evaluate_gate_readiness-IsComplete}

abbrev first_slice : DeliverySliceEvidence
first_slice = record {
  slice_id = "one";
  parent_slice_id = none;
  line_count = pos 400;
  verification_command = "pytest";
  rollback_boundary = "revert";
}

abbrev second_slice : Option String → DeliverySliceEvidence
second_slice parent = record {
  slice_id = "two";
  parent_slice_id = parent;
  line_count = pos 100;
  verification_command = "pytest";
  rollback_boundary = "revert";
}

abbrev evidence : Option String → GateReadinessEvidence
evidence parent = record {
  wf_data_copy_closure_id = some "#4406";
  wf_data_copy_acceptance_id = some "#4396";
  wf_data_copy_verification_id = some "#4398";
  control_plane_archive_id = some "#4469";
  control_plane_verification_id = some "#4463";
  approved_decision_id = some "#4500";
  current_evidence_ids = "#4406" ∷ "#4396" ∷ "#4398" ∷ "#4469" ∷ "#4463" ∷ "#4500" ∷ [];
  runtime_ownership_evidence = some runtime_ownership;
  delivery_line_count = some (pos 500);
  delivery_strategy = some "auto-chain";
  chain_strategy = some "stacked-to-main";
  delivery_slices = first_slice ∷ second_slice parent ∷ [];
}

is_ready : (evaluate_gate_readiness (evidence (some "one"))).is_ready ≡ true
unfolding evaluate_gate_readiness
is_ready = refl

names_linkage :
    (evaluate_gate_readiness (evidence (some "zero"))).missing_identifiers
    ≡ "auto_chain_linkage" ∷ []
unfolding evaluate_gate_readiness
names_linkage = refl

is_complete : IsComplete (evidence (some "one"))
is_complete = (evaluate_gate_readiness-IsComplete (evidence (some "one"))).0 is_ready

evaluate_gate_readiness-IsComplete_example :
    ((evaluate_gate_readiness (evidence (some "one"))).is_ready ≡ true)
    ↔ IsComplete (evidence (some "one"))
evaluate_gate_readiness-IsComplete_example =
    evaluate_gate_readiness-IsComplete (evidence (some "one"))
