-- ===== src/Readiness/Complete.antt =====
-- `evaluate_gate_readiness` (odoo_forge/database/readiness.py) against a description of complete
-- evidence.
use odoo_forge.Base.{
  ◌≡◌, ◌≢◌, ◌↔◌, refl, String, Bool, true, false, not, ◌&&◌, List, [], ◌∷◌, ◌++◌, map, Option, none,
  some, if◌then◌else◌, ==_iff, string_eq, arith, is_empty,
}
use odoo_forge.Base.Lists.{contains, contains_iff, all, All, all-All, IsIn}
use odoo_forge.Base.Int.{ℤ, pos, negsuc, ◌≤ℤ◌, ltb_ℤ}
use odoo_forge.Readiness.{
  DeliverySliceEvidence, GateReadinessEvidence, required_archived_evidence, unless, is_given,
  archived_missing, current_missing, is_present, total, eq_ℤ, is_reviewable, valid_counts,
  is_bounded, are_distinct_ids, follow, linked, is_chained, delivery_missing, missing,
  evaluate_gate_readiness,
}

append_empty :
    (xs ys : List String)
    → (is_empty (xs ++ ys) ≡ true) ↔ ((is_empty xs ≡ true) × (is_empty ys ≡ true))
append_empty [] ys = ground arith
append_empty (x ∷ xs) ys = ground arith

unless_empty : (b : Bool) (name : String) → (is_empty (unless b name) ≡ true) ↔ (b ≡ true)
unfolding unless
unless_empty true name = ground arith
unless_empty false name = ground arith

is_given_iff :
    (value : Option String) (expected : String)
    → (is_given value expected ≡ true) ↔ (value ≡ some expected)
unfolding is_given
is_given_iff none expected = ((λ h. absurd (cc h)), (λ h. absurd (cc h)))
is_given_iff (some id) expected = ground (arith, ==_iff id expected)

archived_iff :
    (fields : List (String × Option String × String))
    → (is_empty (archived_missing fields) ≡ true) ↔ All (λ f. f.1 ≡ some f.2) fields
unfolding archived_missing
archived_iff [] = ground arith
archived_iff ((name, value, expected) ∷ rest) = ground (
  arith,
  archived_iff rest,
  append_empty (unless (is_given value expected) name) (archived_missing rest),
  unless_empty (is_given value expected) name,
  is_given_iff value expected,
)

current_iff :
    (current : List String) (fields : List (String × Option String × String))
    → (is_empty (current_missing current fields) ≡ true) ↔ All (λ f. IsIn f.2 current) fields
unfolding current_missing
current_iff current [] = ground arith
current_iff current ((name, value, expected) ∷ rest) = ground (
  arith,
  current_iff current rest,
  append_empty _ (current_missing current rest),
  unless_empty (contains current expected),
  contains_iff current expected,
)

eq_ℤ_iff : (a b : ℤ) → (eq_ℤ a b ≡ true) ↔ (a ≡ b)
eq_ℤ_iff (pos a) (pos b) = ground arith
eq_ℤ_iff (pos a) (negsuc b) = ground arith
eq_ℤ_iff (negsuc a) (pos b) = ground arith
eq_ℤ_iff (negsuc a) (negsuc b) = ground arith

-- The identifiers are distinct.
pub IsDistinct : List String → Type 0
IsDistinct [] = Unit
IsDistinct (i ∷ ids) = (¬ IsIn i ids) × IsDistinct ids

IsDistinct-iff : (ids : List String) → (are_distinct_ids ids ≡ true) ↔ IsDistinct ids
unfolding are_distinct_ids IsDistinct
IsDistinct-iff [] = ground arith
IsDistinct-iff (i ∷ ids) = ground (arith, IsDistinct-iff ids, contains_iff ids i)

-- Each slice names the one before it as its parent.
pub Follows : String → List DeliverySliceEvidence → Type 0
Follows before [] = Unit
Follows before (s ∷ slices) = (s.parent_slice_id ≡ some before) × Follows s.slice_id slices

follow_iff :
    (before : String) (slices : List DeliverySliceEvidence)
    → (follow before slices ≡ true) ↔ Follows before slices
unfolding follow Follows
follow_iff before [] = ground arith
follow_iff before (s ∷ slices) =
    ground (arith, follow_iff s.slice_id slices, is_given_iff s.parent_slice_id before)

-- The slices are one chain: the first has no parent, each other one has the one before it.
pub IsLinked : List DeliverySliceEvidence → Type 0
IsLinked [] = ⊥
IsLinked (s ∷ slices) =
    IsDistinct (map (λ s. s.slice_id) (s ∷ slices))
    × (s.parent_slice_id ≡ none)
    × Follows s.slice_id slices

absent_iff : {A : Type 0} (o : Option A) → (not (is_present o) ≡ true) ↔ (o ≡ none)
unfolding is_present
absent_iff none = ground arith
absent_iff (some a) = ((λ h. absurd (cc h)), (λ h. absurd (cc h)))

linked_iff : (slices : List DeliverySliceEvidence) → (linked slices ≡ true) ↔ IsLinked slices
unfolding linked IsLinked
linked_iff [] = ground arith
linked_iff (s ∷ slices) = ground (
  arith,
  IsDistinct-iff (map (λ s. s.slice_id) (s ∷ slices)),
  absent_iff s.parent_slice_id,
  follow_iff s.slice_id slices,
)

abbrev pub IsReviewable : DeliverySliceEvidence → Type 0
IsReviewable s = (pos 1 ≤ℤ s.line_count) × (s.line_count ≤ℤ pos 400)

IsReviewable-iff : (s : DeliverySliceEvidence) → (is_reviewable s ≡ true) ↔ IsReviewable s
IsReviewable-iff s = ground arith

pub IsBounded : DeliverySliceEvidence → Type 0
IsBounded s = (s.slice_id ≢ "") × (s.verification_command ≢ "") × (s.rollback_boundary ≢ "")

IsBounded-iff : (s : DeliverySliceEvidence) → (is_bounded s ≡ true) ↔ IsBounded s
unfolding is_bounded IsBounded
IsBounded-iff s =
    ground
      (arith, ==_iff s.slice_id "", ==_iff s.verification_command "", ==_iff s.rollback_boundary "")

All-iff :
    {A : Type 0} {P Q : A → Type 0} → ((x : A) → P x ↔ Q x) → (xs : List A) → All P xs ↔ All Q xs
All-iff both [] = (λ _. tt, λ _. tt)
All-iff both (x ∷ xs) = ground (arith, both x, All-iff both xs)

counts_iff :
    (n : ℤ) (slices : List DeliverySliceEvidence)
    → (valid_counts n slices ≡ true)
      ↔ ((slices ≢ []) × (total slices ≡ n) × All IsReviewable slices)
unfolding valid_counts
counts_iff n [] = ((λ h. absurd (cc h)), (λ h. absurd (h.0 refl)))
counts_iff n (s ∷ slices) =
    let reviewed = all-All is_reviewable (s ∷ slices) in
    let each = All-iff IsReviewable-iff (s ∷ slices) in
    let same = eq_ℤ_iff (total (s ∷ slices)) n in
    (
      λ h.
          let (sum, rest) = both_true (eq_ℤ (total (s ∷ slices)) n) _ h in
          ((λ e. cc e), same.0 sum, each.0 (reviewed.0 rest)),
      λ h. ground (arith, same.1 h.1, reviewed.1 (each.1 h.2)),
    )
  where
    both_true : (a b : Bool) → (a && b) ≡ true → (a ≡ true) × (b ≡ true)
    both_true a b h = ground arith

abbrev boundaries : List String
boundaries = "slice_verification_boundary" ∷ "slice_rollback_boundary" ∷ []

-- A delivery is evidenced: nonempty slices of 1 to 400 lines that add up to the delivery, each with
-- an identifier, a verification command and a rollback boundary; over 400 lines, under the chained
-- strategies and as one chain.
pub IsDelivered : GateReadinessEvidence → Option ℤ → Type 0
IsDelivered e none = Unit
IsDelivered e (some n) =
    (e.delivery_slices ≢ [])
    × (total e.delivery_slices ≡ n)
    × All IsReviewable e.delivery_slices
    × All IsBounded e.delivery_slices
    × (pos 401 ≤ℤ n
        → (e.delivery_strategy ≡ some "auto-chain")
          × (e.chain_strategy ≡ some "stacked-to-main")
          × IsLinked e.delivery_slices)

-- What complete evidence is.
pub record IsComplete (e : GateReadinessEvidence) : Type 0 where
  pub archived : All (λ f. f.1 ≡ some f.2) (required_archived_evidence e)
  pub is_current : All (λ f. IsIn f.2 e.current_evidence_ids) (required_archived_evidence e)
  pub owned : e.runtime_ownership_evidence ≢ none
  pub delivered : IsDelivered e e.delivery_line_count

chained_iff :
    (e : GateReadinessEvidence)
    → (is_chained e ≡ true)
      ↔ ((e.delivery_strategy ≡ some "auto-chain") × (e.chain_strategy ≡ some "stacked-to-main"))
unfolding is_chained
chained_iff e = ground (
  arith,
  is_given_iff e.delivery_strategy "auto-chain",
  is_given_iff e.chain_strategy "stacked-to-main",
)

boundaries_empty : (b : Bool) → (is_empty (if b then [] else boundaries) ≡ true) ↔ (b ≡ true)
boundaries_empty true = ground arith
boundaries_empty false = ground arith

chain_empty :
    (oversized chained links : Bool)
    → (is_empty (
          if oversized
          then unless chained "autonomous_auto_chain" ++ unless links "auto_chain_linkage"
          else [])
        ≡ true)
      ↔ (oversized ≡ true → (chained ≡ true) × (links ≡ true))
unfolding unless
chain_empty true true true = ground arith
chain_empty true true false = ground arith
chain_empty true false links = ground arith
chain_empty false chained links = ground arith

oversized_iff : (n : ℤ) → (ltb_ℤ (pos 400) n ≡ true) ↔ (pos 401 ≤ℤ n)
oversized_iff n = ground arith

delivery_iff :
    (e : GateReadinessEvidence) (count : Option ℤ)
    → (is_empty (delivery_missing e count) ≡ true) ↔ IsDelivered e count
unfolding delivery_missing IsDelivered
delivery_iff e none = ground arith
delivery_iff e (some n) =
    let slices = e.delivery_slices in
    let big = oversized_iff n in
    let named : String = if ltb_ℤ (pos 400) n then "oversized_delivery" else "delivery_slices" in
    let counts = counts_iff n slices in
    let head = unless_empty (valid_counts n slices) named in
    let bounded = boundaries_empty (all is_bounded slices) in
    let every = all-All is_bounded slices in
    let each = All-iff IsBounded-iff slices in
    let tail = chain_empty (ltb_ℤ (pos 400) n) (is_chained e) (linked slices) in
    let first = append_empty (unless (valid_counts n slices) named) _ in
    let second = append_empty (if all is_bounded slices then [] else boundaries) _ in
    let chained = chained_iff e in
    let links = linked_iff slices in
    (
      λ h.
          let (a, rest) = first.0 h in
          let (b, c) = second.0 rest in
          let (some_slices, sum, reviewable) = counts.0 (head.0 a) in
          (
            some_slices,
            sum,
            reviewable,
            each.0 (every.0 (bounded.0 b)),
            λ over.
                let (k, l) = tail.0 c (big.1 over) in ((chained.0 k).0, (chained.0 k).1, links.0 l),
          ),
      λ h. first.1 (
        head.1 (counts.1 (h.0, h.1, h.2)),
        second.1 (
          bounded.1 (every.1 (each.1 h.3)),
          tail.1 (λ over. let (k, l, m) = h.4 (big.0 over) in (chained.1 (k, l), links.1 m)),
        ),
      ),
    )

present_iff : {A : Type 0} (o : Option A) → (is_present o ≡ true) ↔ (o ≢ none)
unfolding is_present
present_iff none = ((λ h. absurd (cc h)), (λ h. absurd (h refl)))
present_iff (some a) = ((λ _ e. cc e), (λ _. refl))

-- A gate is ready exactly if its evidence is complete: every archived identifier is the required one
-- and current, the ownership is proved, and a delivery is evidenced by its slices.
pub evaluate_gate_readiness-IsComplete :
    (e : GateReadinessEvidence) → ((evaluate_gate_readiness e).is_ready ≡ true) ↔ IsComplete e
unfolding evaluate_gate_readiness missing
evaluate_gate_readiness-IsComplete e =
    let fields = required_archived_evidence e in
    let archived = archived_iff fields in
    let current = current_iff e.current_evidence_ids fields in
    let present = present_iff e.runtime_ownership_evidence in
    let name : String = "runtime_ownership_evidence" in
    let owned = unless_empty (is_present e.runtime_ownership_evidence) name in
    let delivered = delivery_iff e e.delivery_line_count in
    let first = append_empty (archived_missing fields) _ in
    let second = append_empty (current_missing e.current_evidence_ids fields) _ in
    let third =
      append_empty (unless (is_present e.runtime_ownership_evidence) name)
        (delivery_missing e e.delivery_line_count) in
    (
      λ h.
          let (a, rest) = first.0 h in
          let (b, rest) = second.0 rest in
          let (c, d) = third.0 rest in
          record {
            archived = archived.0 a;
            is_current = current.0 b;
            owned = present.0 (owned.0 c);
            delivered = delivered.0 d;
          },
      λ h. first.1 (
        archived.1 h.archived,
        second.1 (
          current.1 h.is_current,
          third.1 (owned.1 (present.1 h.owned), delivered.1 h.delivered),
        ),
      ),
    )
