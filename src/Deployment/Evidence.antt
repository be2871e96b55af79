-- ===== src/Deployment/Evidence.antt =====
-- Terminal evidence (odoo_forge/remote_deployment.py), and the requests and results of an exposure
-- (odoo_forge/exposure/types.py).
use odoo_forge.Base.{◌≡◌, arith, true, false, some}
use odoo_forge.Base.Lists.{any}
use odoo_forge.Values.{DurableOperationIdentity}
use odoo_forge.Backend.{InstanceRef}
use odoo_forge.Deployment.Exposure.{
  ExposureResult, ready, verified, exposure_request, exposure_result, exposure_outcome_dec,
  check_dec,
}
use odoo_forge.Deployment.{RemoteDeploymentRequest, Ports, exposure_request_of, is_requested}

-- A result that is valid is ready only with the outcome ready, with routing and DNS verified, and
-- without TLS.
pub exposure_result-ready :
    (r valid : ExposureResult)
    → exposure_result r ≡ some valid
    → r.is_ready ≡ true
    → (r.outcome ≡ ready)
      × (r.routing_status ≡ verified)
      × (r.dns_status ≡ verified)
      × (r.tls_ready ≡ false)
unfolding exposure_result exposure_outcome_dec check_dec
exposure_result-ready r valid h is_ready = ground arith

module _ {W Credentials Plan : Type 0} (ports : Ports W Credentials Plan)
    (request : RemoteDeploymentRequest Credentials Plan) where
  -- The request that a deployment makes of the exposure provider is valid for every runtime that it
  -- has checked to be the requested one.
  pub exposure_request-valid :
      (runtime_ref : InstanceRef) (operation : DurableOperationIdentity)
      → is_requested ports request runtime_ref ≡ true
      → exposure_request (exposure_request_of ports request runtime_ref operation)
        ≡ some (exposure_request_of ports request runtime_ref operation)
  unfolding exposure_request is_requested exposure_request_of any
  exposure_request-valid runtime_ref operation h = ground arith
