-- ===== src/Api/Dispatcher/Outcomes.antt =====
-- What a response of the dispatcher tells of the request.
use gldaassurance.Base.{Option-cases, inr, ℕ, List, inl, refl, String, Option, ◌≡◌, some}
use gldaassurance.Audit.{AuditEntry}
use gldaassurance.Api.Requests.{
  validate_request, ok, thrown, Handler, missing_resource, responded, Dispatched, authorisation,
  Services, bucket_for, Checked, invalid_request, rate_limited, ApiRequest,
}
use gldaassurance.Api.Dispatcher.{dispatch, after_limit, after_authorise, after_check}
use gldaassurance.Api.RateLimit.{RateCheck, allowed, exceeded, Limiter, check}
use gldaassurance.Api.Validation.{PageRequest}
use gldaassurance.Api.Contract.{RouteDefinition, find_route}
use gldaassurance.Authorization.Enforcement.{
  Outcome, policy_failed, authorise, audit_failed, authorization_denied, AuthorisedRequest,
  authorised, RequestContext,
}
use gldaassurance.Authorization.Enforcement.Trail.{authorise-authorised}
use gldaassurance.Authorization.Enforcement.Granting.{PassesChecks}

module _ {V : Type 0} (digest : ℕ → AuditEntry → String) (placeholder : V)
    (handlers : String → Option (Handler V)) where
  -- The response is a 200 with these rows, page and total.
  abbrev Succeeds :
      Services × Dispatched V → List (List (String × V)) → PageRequest → Option ℕ → Type 0
  Succeeds d rows page total = d.1 ≡ responded (ok rows page total)

  missing-ne :
      {rows : List (List (String × V))} {page : PageRequest} {total : Option ℕ}
      → responded missing_resource ≡ responded (ok rows page total)
      → ⊥
  missing-ne h = cc

  invalid-ne :
      {rows : List (List (String × V))} {page : PageRequest} {total : Option ℕ}
      → responded invalid_request ≡ responded (ok rows page total)
      → ⊥
  invalid-ne h = cc

  limited-ne :
      {rows : List (List (String × V))} {page : PageRequest} {total : Option ℕ} {n : ℕ}
      → responded (rate_limited n) ≡ responded (ok rows page total)
      → ⊥
  limited-ne h = cc

  thrown-ne :
      {rows : List (List (String × V))} {page : PageRequest} {total : Option ℕ}
      → thrown ≡ responded (ok rows page total)
      → ⊥
  thrown-ne h = cc

  after_authorise-ok :
      (ctx : RequestContext) (route : RouteDefinition) (checked : Checked V) (services : Services)
      (outcome : Outcome) (rows : List (List (String × V))) (page : PageRequest) (total : Option ℕ)
      → Succeeds
          (after_authorise digest placeholder handlers ctx route checked services outcome)
          rows
          page
          total
      → (proof : AuthorisedRequest) × (outcome ≡ authorised proof)
  after_authorise-ok ctx route checked services (authorised proof) rows page total h = (proof, refl)
  after_authorise-ok ctx route checked services (authorization_denied r) rows page total h =
      absurd (missing-ne h)
  after_authorise-ok ctx route checked services (audit_failed f) rows page total h =
      absurd (thrown-ne h)
  after_authorise-ok ctx route checked services policy_failed rows page total h =
      absurd (thrown-ne h)

  -- The request was valid for the route, and authorised.
  abbrev pub IsAdmitted : RequestContext → ApiRequest V → RouteDefinition → Services → Type 0
  IsAdmitted ctx request route services =
      (checked : Checked V) × (validate_request route request ≡ some checked)
      × PassesChecks ctx (authorisation route checked.checked_id) services.backing.store

  after_limit-ok :
      (ctx : RequestContext) (request : ApiRequest V) (route : RouteDefinition)
      (services : Services) (rows : List (List (String × V))) (page : PageRequest)
      (total : Option ℕ)
      → Succeeds
          (after_limit digest placeholder handlers ctx request route services)
          rows
          page
          total
      → IsAdmitted ctx request route services
  after_limit-ok ctx request route services rows page total h =
      elim (Option-cases (validate_request route request)) [
        | inl bad ↦ absurd (invalid-ne (rw (after_limit, bad) at h))
        | inr (checked, fine) ↦
            let call =
              authorise digest ctx (authorisation route checked.checked_id) services.backing in
            let (proof, e) =
              after_authorise-ok ctx route checked (record services { backing = call.0 }) call.1
                rows page total (rw (after_limit, fine) at h) in
            (
              checked,
              fine,
              (authorise-authorised digest ctx (authorisation route checked.checked_id)
                  services.backing proof e).0,
            )
      ]

  after_check-ok :
      (ctx : RequestContext) (request : ApiRequest V) (services : Services)
      (route : RouteDefinition) (answer : Limiter × RateCheck) (rows : List (List (String × V)))
      (page : PageRequest) (total : Option ℕ)
      → Succeeds
          (after_check digest placeholder handlers ctx request services route answer)
          rows
          page
          total
      → (answer.1 ≡ allowed) × IsAdmitted ctx request route services
  after_check-ok ctx request services route (limiter', exceeded wait) rows page total h =
      absurd (limited-ne h)
  after_check-ok ctx request services route (limiter', allowed) rows page total h = (
    refl,
    after_limit-ok ctx request route (record services { limiter = limiter' }) rows page total h,
  )

  -- A 200 is a response to a request that has a route, is within the rate limit, is valid for the
  -- route, and passes every check of the authorisation that the route declares.
  pub dispatch-ok :
      (ctx : RequestContext) (request : ApiRequest V) (services : Services)
      (rows : List (List (String × V))) (page : PageRequest) (total : Option ℕ)
      → (dispatch digest placeholder handlers ctx request services).1
        ≡ responded (ok rows page total)
      → (route : RouteDefinition) × (find_route request.request_method request.request_path
          ≡ some route)
        × ((check services.limiter ctx.auth.actor_id (bucket_for route) ctx.clock_now).1 ≡ allowed)
        × IsAdmitted ctx request route services
  unfolding dispatch
  dispatch-ok ctx request services rows page total h =
      elim (Option-cases (find_route request.request_method request.request_path)) [
        | inl unmapped ↦ absurd (missing-ne (rw (dispatch, unmapped) at h))
        | inr (route, found) ↦
            let (passed, admitted) =
              after_check-ok ctx request services route
                (check services.limiter ctx.auth.actor_id (bucket_for route) ctx.clock_now) rows
                page total (rw (dispatch, found) at h) in
            (route, found, passed, admitted)
      ]
