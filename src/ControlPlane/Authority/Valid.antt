-- ===== src/ControlPlane/Authority/Valid.antt =====
-- Which registrations are valid (odoo_forge/control_plane/authority.py, odoo_forge/ports/
-- resource_custody.py), and that `validated` tells them apart.
use odoo_forge.Base.{
  ◌≡◌, ◌≢◌, refl, sym, ◌∙◌, arith, List, Result, ok, err, ◌⊎◌, inl, inr, ℕ, ==_iff, string_eq,
}
use odoo_forge.Values.{created, ownership_eq}
use odoo_forge.ControlPlane.Custody.{
  CustodyInvalid, Digest, custody_request, meaning_of, expected_digest, custody_operation_parts,
}
use odoo_forge.ControlPlane.Authority.{
  RegistrationRequest, request_of, registration_validation, validated,
}

-- What a registration must satisfy.
pub record IsValid (digest : Digest) (request : RegistrationRequest) : Type 0 where
  pub named : request.resource_name ≢ ""
  pub identified : request.resource_id ≢ ""
  pub parts : List ℕ × List ℕ
  pub qualified : custody_operation_parts request.operation.operation_id ≡ ok parts
  pub same_name : request.resource_name ≡ request.resource.identifier
  pub same_digest : request.operation.request_digest ≡ expected_digest digest (request_of request)
  pub is_container : request.resource.resource_kind ≡ "container"
  pub is_created : request.resource.ownership ≡ created

module _ (digest : Digest) (request : RegistrationRequest) where
  qualified_parts :
      validated digest request ≡ ok (request_of request)
      → (o : Result CustodyInvalid (List ℕ × List ℕ))
      → custody_operation_parts request.operation.operation_id ≡ o
      → (parts : List ℕ × List ℕ) × (custody_operation_parts request.operation.operation_id
          ≡ ok parts)
  unfolding validated custody_request
  qualified_parts h (ok parts) e = (parts, e)
  qualified_parts h (err _) e = absurd (ground arith)

  validated-IsValid : validated digest request ≡ ok (request_of request) → IsValid digest request
  unfolding validated custody_request meaning_of
  validated-IsValid h = record {
    named = ground (arith, ==_iff request.resource_name "");
    identified = ground (arith, ==_iff request.resource_id "");
    parts = (qualified_parts h _ refl).0;
    qualified = (qualified_parts h _ refl).1;
    same_name = ground (arith, ==_iff request.resource_name request.resource.identifier);
    same_digest = ground (
      arith,
      ==_iff request.operation.request_digest (expected_digest digest (request_of request)),
    );
    is_container = ground (arith, ==_iff request.resource.resource_kind "container");
    is_created = ground (arith, ==_iff request.resource.ownership created);
  }

  IsValid-validated : IsValid digest request → validated digest request ≡ ok (request_of request)
  unfolding validated custody_request meaning_of
  IsValid-validated h = ground (
    arith,
    h.named,
    h.identified,
    h.qualified,
    h.same_name,
    h.same_digest,
    h.is_container,
    h.is_created,
    ==_iff request.resource_name "",
    ==_iff request.resource_id "",
    ==_iff request.resource_name request.resource.identifier,
    ==_iff request.operation.request_digest (expected_digest digest (request_of request)),
    ==_iff request.resource.resource_kind "container",
    ==_iff request.resource.ownership created,
  )

  validated_result :
      (validated digest request ≡ ok (request_of request))
      ⊎ (validated digest request ≡ err registration_validation)
  unfolding validated custody_request meaning_of
  validated_result = ground arith

  pub validated-cases :
      (IsValid digest request × (validated digest request ≡ ok (request_of request)))
      ⊎ ((¬ IsValid digest request) × (validated digest request ≡ err registration_validation))
  validated-cases = elim validated_result [
    | inl passed ↦ inl (validated-IsValid passed, passed)
    | inr failed ↦ inr (λ h. absurd (cc (sym failed ∙ IsValid-validated h)), failed)
  ]
