-- ===== src/Readiness.antt =====
-- odoo_forge/database/readiness.py: whether the evidence of a gate is complete.
use odoo_forge.Base.{
  ℕ, String, Bool, true, false, not, ◌&&◌, List, [], ◌∷◌, ◌++◌, map, Option, none, some,
  if◌then◌else◌, ◌==◌, Eq, string_eq, is_empty,
}
use odoo_forge.Base.Equality.{string_dec, option_dec}
use Prim.Native.String.{◌++◌ as text_append}
use odoo_forge.Base.Lists.{contains, all}
use odoo_forge.Base.Int.{ℤ, pos, ◌+ℤ◌, leb_ℤ, ltb_ℤ}
pub mod Complete
pub mod Examples

abbrev max_review_lines : ℤ
max_review_lines = pos 400

-- The opaque proof that only a provider makes.
pub data RuntimeOwnershipEvidence : Type 0 where
  runtime_ownership : RuntimeOwnershipEvidence

pub record DeliverySliceEvidence : Type 0 where
  pub slice_id : String
  pub parent_slice_id : Option String
  pub line_count : ℤ
  pub verification_command : String
  pub rollback_boundary : String

pub record GateReadinessEvidence : Type 0 where
  pub wf_data_copy_closure_id : Option String
  pub wf_data_copy_acceptance_id : Option String
  pub wf_data_copy_verification_id : Option String
  pub control_plane_archive_id : Option String
  pub control_plane_verification_id : Option String
  pub approved_decision_id : Option String
  pub current_evidence_ids : List String
  pub runtime_ownership_evidence : Option RuntimeOwnershipEvidence
  pub delivery_line_count : Option ℤ
  pub delivery_strategy : Option String
  pub chain_strategy : Option String
  pub delivery_slices : List DeliverySliceEvidence

pub record GateReadiness : Type 0 where
  pub is_ready : Bool
  pub missing_identifiers : List String

-- _REQUIRED_ARCHIVED_EVIDENCE: the fields by name, their values and the identifiers that are required.
unfoldable pub required_archived_evidence :
    GateReadinessEvidence → List (String × Option String × String)
required_archived_evidence e =
    ("wf_data_copy_closure_id", e.wf_data_copy_closure_id, "#4406")
    ∷ ("wf_data_copy_acceptance_id", e.wf_data_copy_acceptance_id, "#4396")
    ∷ ("wf_data_copy_verification_id", e.wf_data_copy_verification_id, "#4398")
    ∷ ("control_plane_archive_id", e.control_plane_archive_id, "#4469")
    ∷ ("control_plane_verification_id", e.control_plane_verification_id, "#4463")
    ∷ ("approved_decision_id", e.approved_decision_id, "#4500")
    ∷ []

-- `if not test: missing.append(name)`
unfoldable pub unless : Bool → String → List String
unless true name = []
unless false name = name ∷ []

unfoldable pub is_given : Option String → String → Bool
unfolding string_dec
is_given none expected = false
is_given (some id) expected = id == expected

unfoldable pub archived_missing : List (String × Option String × String) → List String
unfolding unless is_given
archived_missing [] = []
archived_missing ((name, value, expected) ∷ rest) =
    unless (is_given value expected) name ++ archived_missing rest

unfoldable pub current_missing : List String → List (String × Option String × String) → List String
unfolding unless contains string_dec
current_missing current [] = []
current_missing current ((name, _, expected) ∷ rest) =
    unless (contains current expected) (text_append name "_current") ++ current_missing current rest

unfoldable pub is_present : {A : Type 0} → Option A → Bool
is_present none = false
is_present (some _) = true

unfoldable pub total : List DeliverySliceEvidence → ℤ
unfolding ◌+ℤ◌
total [] = pos 0
total (s ∷ slices) = s.line_count +ℤ total slices

abbrev pub eq_ℤ : ℤ → ℤ → Bool
eq_ℤ a b = leb_ℤ a b && leb_ℤ b a

abbrev pub is_reviewable : DeliverySliceEvidence → Bool
is_reviewable s = ltb_ℤ (pos 0) s.line_count && leb_ℤ s.line_count max_review_lines

unfoldable pub valid_counts : ℤ → List DeliverySliceEvidence → Bool
unfolding total all
valid_counts n slices = not (is_empty slices) && (eq_ℤ (total slices) n && all is_reviewable slices)

unfoldable pub is_bounded : DeliverySliceEvidence → Bool
unfolding string_dec
is_bounded s =
    not (s.slice_id == "")
    && (not (s.verification_command == "") && not (s.rollback_boundary == ""))

unfoldable pub are_distinct_ids : List String → Bool
unfolding contains string_dec
are_distinct_ids [] = true
are_distinct_ids (i ∷ ids) = not (contains ids i) && are_distinct_ids ids

-- every slice names the one before it as its parent
unfoldable pub follow : String → List DeliverySliceEvidence → Bool
unfolding is_given
follow before [] = true
follow before (s ∷ slices) = is_given s.parent_slice_id before && follow s.slice_id slices

unfoldable pub linked : List DeliverySliceEvidence → Bool
unfolding are_distinct_ids is_present follow
linked [] = false
linked (s ∷ slices) =
    are_distinct_ids (map (λ s. s.slice_id) (s ∷ slices))
    && (not (is_present s.parent_slice_id) && follow s.slice_id slices)

unfoldable pub is_chained : GateReadinessEvidence → Bool
unfolding is_given
is_chained e =
    is_given e.delivery_strategy "auto-chain" && is_given e.chain_strategy "stacked-to-main"

unfoldable pub delivery_missing : GateReadinessEvidence → Option ℤ → List String
unfolding unless valid_counts is_bounded all is_chained linked
delivery_missing e none = []
delivery_missing e (some n) =
    let oversized = ltb_ℤ max_review_lines n in
    unless (valid_counts n e.delivery_slices)
      (if oversized then "oversized_delivery" else "delivery_slices")
    ++ ((if all is_bounded e.delivery_slices
          then []
          else "slice_verification_boundary" ∷ "slice_rollback_boundary" ∷ [])
        ++ (if oversized
            then unless (is_chained e) "autonomous_auto_chain"
              ++ unless (linked e.delivery_slices) "auto_chain_linkage"
            else []))

unfoldable pub missing : GateReadinessEvidence → List String
unfolding archived_missing current_missing required_archived_evidence is_present delivery_missing
    unless
missing e =
    archived_missing (required_archived_evidence e)
    ++ (current_missing e.current_evidence_ids (required_archived_evidence e)
        ++ (unless (is_present e.runtime_ownership_evidence) "runtime_ownership_evidence"
            ++ delivery_missing e e.delivery_line_count))

unfoldable pub evaluate_gate_readiness : GateReadinessEvidence → GateReadiness
unfolding missing
evaluate_gate_readiness e = record {
  is_ready = is_empty (missing e);
  missing_identifiers = missing e;
}
