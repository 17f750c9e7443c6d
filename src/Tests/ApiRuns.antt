-- ===== src/Tests/ApiRuns.antt =====
-- The pipeline of a request on a concrete caller and route.
use gldaassurance.Base.{
  if◌then◌else◌, refl, String, some, Option, none, false, [], ◌≡◌, ℕ, get, List, ◌==◌, ◌∷◌,
  string_eq,
}
use gldaassurance.Api.Requests.{
  validate_request, ok, Handler, bucket_for, ApiRequest, responded, Services, returned,
}
use gldaassurance.Api.Dispatcher.{shape_rows, dispatch}
use gldaassurance.Api.RateLimit.{allowed, check}
use gldaassurance.Api.Validation.{
  all_chars, Input, page_request, digits_value, text, parse_bounded_count, text_length,
  bounded_integer,
}
use gldaassurance.Api.Contract.{
  split_slash, find_route, path_param, RouteDefinition, param_at, segments_match, matches, routes,
}
use gldaassurance.Api.Dispatcher.Outcomes.{IsAdmitted, dispatch-ok}
use gldaassurance.Tests.Data.{
  empty_log, two_projects, minute_later, name_digest, manager, one_session,
}
use gldaassurance.Identity.Sessions.{validate}
use gldaassurance.Access.Policy.{property, may, resolve_scope, capability_matrix}
use gldaassurance.Access.Types.{delivery_sensitive, project_view, public_internal}
use gldaassurance.Authorization.Enforcement.{authorise, RequestContext}

abbrev list_route : RouteDefinition
list_route = record {
  method = "GET";
  path = "/v1/projects";
  capability = project_view;
  entity_type = "project";
  reads_classifications = public_internal ∷ delivery_sensitive ∷ [];
  audit_reads = false;
  is_write = false;
  max_page_size = some 100;
}

abbrev asked : List (String × Input ℕ)
asked = ("limit", text "500") ∷ []

page_run : page_request asked 100 25 ≡ some (record { limit = 100; offset = 0 })
unfolding page_request bounded_integer parse_bounded_count all_chars text_length digits_value get
page_run = refl

abbrev api_context : RequestContext
api_context = record {
  auth = manager;
  clock_now = minute_later;
  placements = two_projects;
  request_ip = "10.0.0.1";
  request_agent = "test";
}

abbrev list_request : ApiRequest ℕ
list_request = record {
  request_method = "GET";
  request_path = "/v1/projects";
  request_query = [];
  request_body = none;
}

abbrev services : Services
services = record { limiter = []; backing = record { store = one_session; log = empty_log } }

-- A handler that returns no rows.
abbrev no_rows : Handler ℕ
no_rows input ctx held = (
  held,
  returned (record {
    rows = [];
    row_classifications = [];
    resource_name = "project";
    total = some 0;
    write = none;
  }),
)

abbrev handlers : String → Option (Handler ℕ)
handlers key = if key == "GET /v1/projects" then some no_rows else none

dispatch_run :
    (dispatch name_digest 0 handlers api_context list_request services).1
    ≡ responded (ok [] (record { limit = 25; offset = 0 }) (some 0))
unfolding dispatch find_route routes matches split_slash segments_match check get validate_request
    path_param param_at page_request authorise validate may property capability_matrix resolve_scope
    shape_rows
dispatch_run = refl

dispatch-ok_example :
    (route : RouteDefinition) × (find_route "GET" "/v1/projects" ≡ some route)
    × ((check [] "mia" (bucket_for route) minute_later).1 ≡ allowed)
    × IsAdmitted name_digest 0 handlers api_context list_request route services
dispatch-ok_example =
    dispatch-ok name_digest 0 handlers api_context list_request services []
      (record { limit = 25; offset = 0 }) (some 0) dispatch_run
