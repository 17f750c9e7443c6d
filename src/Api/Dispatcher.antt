-- ===== src/Api/Dispatcher.antt =====
-- src/app/api/dispatcher.ts: the pipeline of a request. The handlers, the digest of the audit log,
-- the placeholder of a redacted value and the type of values are parameters.
pub mod Outcomes
use gldaassurance.Base.{
  ◌==◌, List, ℕ, [], none, filter, if◌then◌else◌, true, Option, String, false, ◌∷◌, some, string_eq,
  append_text, ◌++◌, ◌/◌, map, ◌+◌, length, sort, distinct,
}
use gldaassurance.Audit.{
  AuditAction, read_action, AuditLog, records_returned, write_failed, AuditEntry, granted, recorded,
  Recorded, record_entry,
}
use gldaassurance.Api.RateLimit.{
  read_bucket, RateLimitBucket, check, Limiter, write_bucket, allowed, exceeded, RateCheck,
}
use gldaassurance.Api.Validation.{
  reject_unknown_fields, page_request, Input, PageRequest, identifier,
}
use gldaassurance.Api.Contract.{path_param, RouteDefinition, default_page_size, find_route}
use gldaassurance.Access.Types.{capability_name, AuthorizationContext}
use gldaassurance.Authorization.Enforcement.{
  AuthorisedRequest, AuthoriseRequest, RequestContext, Backing, WriteArgs, audit_failed, Outcome,
  authorised, policy_failed, authorise, authorization_denied, record_write,
}
use gldaassurance.Authorization.FieldPolicy.{FieldClassificationMap, ShapeResult, shaped, shape}
use gldaassurance.Access.Policy.{text_before, answer}
use gldaassurance.Api.Requests.{
  HandlerWrite, validate_request, ok, thrown, Handler, missing_resource, responded, Dispatched,
  authorisation, Services, bucket_for, Checked, invalid_request, HandlerResult, rate_limited,
  ApiRequest, other_error, validation_error, denial_error, HandlerOutcome, limit_error,
  retry_seconds, returned,
}

-- `shaped.flatMap(names)`
abbrev pub flat_names :
    {V : Type 0} → (ShapeResult V → List String) → List (ShapeResult V) → List String
flat_names names [] = []
flat_names names (s ∷ shapes) = names s ++ flat_names names shapes

-- The entry of `#recordFieldLevelRead`.
abbrev pub read_entry :
    RequestContext → RouteDefinition → Option String → ℕ → List String → List String → AuditEntry
read_entry ctx route id row_count names telemetry = record {
  occurred_at = ctx.clock_now;
  actor_id = ctx.auth.actor_id;
  actor_role = ctx.auth.role;
  impersonator_id = ctx.auth.impersonator_id;
  action = read_action;
  entity_type = route.entity_type;
  entity_id = elim id [ none ↦ "*" | some i ↦ i ];
  fields = names;
  decision = granted;
  reason = some (records_returned row_count telemetry);
  correlation_id = ctx.auth.correlation_id;
  rule_version = none;
  source_ip = ctx.request_ip;
  user_agent = ctx.request_agent;
}

module _ {V : Type 0} (digest : ℕ → AuditEntry → String) (placeholder : V)
    (handlers : String → Option (Handler V)) where
  -- `result.rows.map(shape)`; `none` where one of them throws.
  unfoldable pub shape_rows :
      HandlerResult V
      → AuthorizationContext
      → List (List (String × V))
      → Option (List (ShapeResult V))
  shape_rows result auth [] = some []
  shape_rows result auth (row ∷ rest) =
      let shapes = shape_rows result auth rest in
      elim (shape placeholder result.resource_name row result.row_classifications auth) [
        | shaped s ↦ elim shapes [ none ↦ none | some l ↦ some (s ∷ l) ]
        | _ ↦ none
      ]

  -- `#recordFieldLevelRead`
  unfoldable pub record_field_level_read :
      RequestContext → RouteDefinition → Option String → List (ShapeResult V) → AuditLog → Recorded
  record_field_level_read ctx route id shapes log =
      elim (sort text_before (distinct (flat_names (λ s. s.sensitive_fields_read) shapes))) [
        | [] ↦ recorded log
        | ◌∷◌ name names ↦ record_entry digest log (
            read_entry ctx route id (length shapes) (name ∷ names)
              (sort text_before (distinct (flat_names (λ s. s.security_telemetry_read) shapes))))
      ]

  abbrev write_args : RouteDefinition → HandlerWrite → WriteArgs
  write_args route w = record {
    written_type = route.entity_type;
    written_id = w.write_id;
    written_action = w.write_action_name;
    why = w.write_why;
    changed_fields = w.write_fields;
    before_hash = w.hash_before;
    after_hash = w.hash_after;
  }

  -- Step 7.
  abbrev pub audit_result :
      RequestContext
      → RouteDefinition
      → Option String
      → HandlerResult V
      → List (ShapeResult V)
      → AuditLog
      → Recorded
  audit_result ctx route id result shapes log = elim result.write [
    | some w ↦ record_write digest ctx (write_args route w) log
    | none ↦
        if route.audit_reads then record_field_level_read ctx route id shapes log else recorded log
  ]

  abbrev with_log : Services → AuditLog → Services
  with_log services log' = record services { backing = record services.backing { log = log' } }

  -- Steps 6 and 7, on what the handler returned.
  abbrev pub deliver :
      RequestContext
      → RouteDefinition
      → Checked V
      → Services
      → HandlerResult V
      → Services × Dispatched V
  deliver ctx route checked services result = elim (shape_rows result ctx.auth result.rows) [
    | none ↦ (services, thrown)
    | some shapes ↦
        elim (audit_result ctx route checked.checked_id result shapes services.backing.log) [
          | write_failed _ ↦ (services, thrown)
          | recorded log' ↦ (
            with_log services log',
            responded (ok (map (λ s. s.payload) shapes) checked.checked_page result.total),
          )
        ]
  ]

  -- What follows the end of the handler.
  abbrev pub after_handler :
      RequestContext
      → RouteDefinition
      → Checked V
      → Services × HandlerOutcome V
      → Services × Dispatched V
  after_handler ctx route checked (services, returned result) =
      deliver ctx route checked services result
  after_handler ctx route checked (services, limit_error wait) =
      (services, responded (rate_limited (retry_seconds wait)))
  after_handler ctx route checked (services, validation_error) =
      (services, responded invalid_request)
  after_handler ctx route checked (services, denial_error) = (services, responded missing_resource)
  after_handler ctx route checked (services, other_error) = (services, thrown)

  -- Step 5.
  abbrev pub handle :
      RequestContext
      → RouteDefinition
      → Checked V
      → Services
      → AuthorisedRequest
      → Services × Dispatched V
  handle ctx route checked services proof =
      elim (handlers (append_text (append_text route.method " ") route.path)) [
        | none ↦ (services, responded missing_resource)
        | some handler ↦ after_handler ctx route checked (
            handler
              (record {
                proof = proof;
                handled_entity = checked.checked_id;
                page = checked.checked_page;
                body = checked.checked_body;
              })
              ctx services)
      ]

  -- What follows the end of `authorise`.
  abbrev pub after_authorise :
      RequestContext → RouteDefinition → Checked V → Services → Outcome → Services × Dispatched V
  after_authorise ctx route checked services (authorised proof) =
      handle ctx route checked services proof
  after_authorise ctx route checked services (authorization_denied _) =
      (services, responded missing_resource)
  after_authorise ctx route checked services (audit_failed _) = (services, thrown)
  after_authorise ctx route checked services policy_failed = (services, thrown)

  -- Steps 3 and 4.
  abbrev pub after_limit :
      RequestContext → ApiRequest V → RouteDefinition → Services → Services × Dispatched V
  after_limit ctx request route services = elim (validate_request route request) [
    | none ↦ (services, responded invalid_request)
    | some checked ↦
        let (backing', outcome) =
          authorise digest ctx (authorisation route checked.checked_id) services.backing in
        after_authorise ctx route checked (record services { backing = backing' }) outcome
  ]

  -- What follows the limiter's answer.
  abbrev pub after_check :
      RequestContext
      → ApiRequest V
      → Services
      → RouteDefinition
      → Limiter × RateCheck
      → Services × Dispatched V
  after_check ctx request services route (limiter', exceeded wait) =
      (record services { limiter = limiter' }, responded (rate_limited (retry_seconds wait)))
  after_check ctx request services route (limiter', allowed) =
      after_limit ctx request route (record services { limiter = limiter' })

  -- Step 2.
  abbrev pub after_lookup :
      RequestContext → ApiRequest V → Services → RouteDefinition → Services × Dispatched V
  after_lookup ctx request services route =
      after_check ctx request services route
        (check services.limiter ctx.auth.actor_id (bucket_for route) ctx.clock_now)

  -- `Dispatcher.dispatch`
  unfoldable pub dispatch : RequestContext → ApiRequest V → Services → Services × Dispatched V
  dispatch ctx request services = elim (find_route request.request_method request.request_path) [
    | none ↦ (services, responded missing_resource)
    | some route ↦ after_lookup ctx request services route
  ]
