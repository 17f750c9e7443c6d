-- ===== src/Api/Requests.antt =====
-- src/app/api/dispatcher.ts: the requests and responses of the pipeline, and what the dispatcher reads
-- from a route. The constant headers are left out; `Retry-After` stands in the response.
use gldaassurance.Base.{
  ◌==◌, List, ℕ, [], none, if◌then◌else◌, Option, String, ◌∷◌, some, string_eq, ◌/◌, ◌+◌,
}
use gldaassurance.Audit.{AuditAction}
use gldaassurance.Api.RateLimit.{read_bucket, RateLimitBucket, check, Limiter, write_bucket}
use gldaassurance.Api.Validation.{
  reject_unknown_fields, page_request, Input, PageRequest, identifier,
}
use gldaassurance.Api.Contract.{path_param, RouteDefinition, default_page_size}
use gldaassurance.Access.Types.{capability_name}
use gldaassurance.Authorization.Enforcement.{
  AuthorisedRequest, AuthoriseRequest, RequestContext, Backing,
}
use gldaassurance.Authorization.FieldPolicy.{FieldClassificationMap}

pub record ApiRequest (V : Type 0) : Type 0 where
  pub request_method : String
  pub request_path : String
  pub request_query : List (String × Input V)
  pub request_body : Option (Input V)

-- `ApiResponse`, by its body: 200, 400, 404 and 429; a 429 carries the seconds of `Retry-After`.
pub data ApiResponse (V : Type 0) : Type 0 where
  ok : List (List (String × V)) → PageRequest → Option ℕ → ApiResponse V
  invalid_request missing_resource : ApiResponse V
  rate_limited : ℕ → ApiResponse V

pub record HandlerInput (V : Type 0) : Type 0 where
  pub proof : AuthorisedRequest
  pub handled_entity : Option String
  pub page : PageRequest
  pub body : Option (List (String × V))

-- The `write` of a result, less the entity type, which the dispatcher adds.
pub record HandlerWrite : Type 0 where
  pub write_id : String
  pub write_action_name : AuditAction
  pub write_why : String
  pub write_fields : List String
  pub hash_before : Option String
  pub hash_after : String

pub record HandlerResult (V : Type 0) : Type 0 where
  pub rows : List (List (String × V))
  pub row_classifications : FieldClassificationMap
  pub resource_name : String
  pub total : Option ℕ
  pub write : Option HandlerWrite

-- What the dispatcher holds and reaches: the limiter, the session store and the audit log.
pub record Services : Type 0 where
  pub limiter : Limiter
  pub backing : Backing

-- A response, or an error that `dispatch` throws on.
pub data Dispatched (V : Type 0) : Type 0 where
  responded : ApiResponse V → Dispatched V
  thrown : Dispatched V

-- How a handler ends: with a result, or with an error that it throws, of the three classes that the
-- dispatcher catches or of another.
pub data HandlerOutcome (V : Type 0) : Type 0 where
  returned : HandlerResult V → HandlerOutcome V
  limit_error : (retry_after_ms : ℕ) → HandlerOutcome V
  validation_error denial_error other_error : HandlerOutcome V

-- A handler may use the services.
abbrev pub Handler : Type 0 → Type 0
Handler V = HandlerInput V → RequestContext → Services → Services × HandlerOutcome V

-- `Math.ceil(retryAfterMs / 1000)`
abbrev pub retry_seconds : ℕ → ℕ
retry_seconds ms = (ms + 999) / 1000

-- `allowedBodyFields`
abbrev pub allowed_body_fields : RouteDefinition → List String
allowed_body_fields route =
    if route.path == "/v1/projects/:id/rag-override"
    then "rag" ∷ "reason" ∷ "expiresAt" ∷ []
    else if route.path == "/v1/projects/:id/etc"
    then "amount" ∷ "currency" ∷ "basisOfEstimate" ∷ []
    else []

-- `bucketFor`
abbrev pub bucket_for : RouteDefinition → RateLimitBucket
bucket_for route = if route.is_write then write_bucket else read_bucket

-- Step 3: the id, the page and the body, where all are valid.
pub record Checked (V : Type 0) : Type 0 where
  pub checked_id : Option String
  pub checked_page : PageRequest
  pub checked_body : Option (List (String × V))

abbrev pub all_checked :
    {V : Type 0}
    → Option (Option String)
    → Option PageRequest
    → Option (Option (List (String × V)))
    → Option (Checked V)
all_checked (some id) (some p) (some b) =
    some (record { checked_id = id; checked_page = p; checked_body = b })
all_checked none _ _ = none
all_checked (some _) none _ = none
all_checked (some _) (some _) none = none

-- `value === undefined ? undefined : check(value)`
abbrev pub if_given {ℓ κ} :
    {A : Type ℓ} → {B : Type κ} → (A → Option B) → Option A → Option (Option B)
if_given check none = some none
if_given check (some a) = elim (check a) [ none ↦ none | some b ↦ some (some b) ]

unfoldable pub validate_request : {V : Type 0} → RouteDefinition → ApiRequest V → Option (Checked V)
unfolding page_request
validate_request route request =
    all_checked (if_given identifier (path_param route.path request.request_path "id"))
      (page_request request.request_query
        (elim route.max_page_size [ none ↦ default_page_size | some n ↦ n ]) default_page_size)
      (if_given (λ b. reject_unknown_fields b (allowed_body_fields route)) request.request_body)

-- The argument of `authorise`.
abbrev pub authorisation : RouteDefinition → Option String → AuthoriseRequest
authorisation route id = record {
  declaration = record {
    capability = capability_name route.capability;
    reads_classifications = route.reads_classifications;
    audit_reads = route.audit_reads;
    is_write = route.is_write;
  };
  wanted_entity = id;
  wanted_type = route.entity_type;
}
