-- ===== src/Tests/EnforcementRuns.antt =====
-- The enforcement point and the shaping of a payload, for a concrete caller and project.
use gldaassurance.Base.{
  ◌≡◌, ℕ, sort, refl, ◌∷◌, ◌↔◌, Memᴰ, true, List, get, some, [], false, String,
}
use gldaassurance.Audit.{outside_set, record_entry}
use gldaassurance.Tests.Data.{
  manager, name_digest, minute_later, one_session, empty_log, two_projects,
}
use gldaassurance.Identity.Sessions.{validate}
use gldaassurance.Access.Policy.{resolve_scope, capability_matrix, property, may}
use gldaassurance.Authorization.Enforcement.{
  authorise, RequestContext, Backing, authorised, issue_request, AuthoriseRequest,
  authorization_denied, AuthorisedRequest,
}
use gldaassurance.Authorization.FieldPolicy.{
  shape_fields, omit, ShapeResult, shape, shaped, FieldClassificationMap,
}
use gldaassurance.Authorization.FieldPolicy.Shaping.{MayLeave, shape-payload_iff}
use gldaassurance.Authorization.Enforcement.Trail.{
  Trail, authorise_complete, authorise-authorised, authorise-Trail,
}
use gldaassurance.Authorization.Enforcement.Granting.{PassesChecks}
use gldaassurance.Access.Types.{commercial_confidential, public_internal, delivery_manager}

abbrev context : RequestContext
context = record {
  auth = manager;
  clock_now = minute_later;
  placements = two_projects;
  request_ip = "10.0.0.1";
  request_agent = "test";
}

abbrev read_project : String → AuthoriseRequest
read_project id = record {
  declaration = record {
    capability = "project.view";
    reads_classifications = public_internal ∷ [];
    audit_reads = true;
    is_write = false;
  };
  wanted_entity = some id;
  wanted_type = "project";
}

abbrev backing : Backing
backing = record { store = one_session; log = empty_log }

abbrev expected_request : AuthorisedRequest
expected_request = issue_request context (read_project "p-1") (resolve_scope two_projects manager)

authorise_run :
    (authorise name_digest context (read_project "p-1") backing).1 ≡ authorised expected_request
unfolding authorise validate get may property capability_matrix resolve_scope record_entry
authorise_run = refl

denied_run :
    (authorise name_digest context (read_project "p-2") backing).1
    ≡ authorization_denied (outside_set "project" "p-2" 1 1)
unfolding authorise validate get may property capability_matrix resolve_scope record_entry
denied_run = refl

authorise-authorised_example :
    PassesChecks context (read_project "p-1") one_session
    × (expected_request.granted_auth ≡ manager)
    × (expected_request.granted_capability ≡ "project.view")
    × (expected_request.entity_set ≡ resolve_scope two_projects manager)
    × (expected_request.granted_correlation ≡ "c-1")
authorise-authorised_example =
    authorise-authorised name_digest context (read_project "p-1") backing expected_request
      authorise_run

authorise_complete_example :
    (authorise name_digest context (read_project "p-1") backing).1 ≡ authorised expected_request
authorise_complete_example =
    authorise_complete name_digest context (read_project "p-1") backing refl refl
      authorise-authorised_example.0

authorise-Trail_example :
    Trail name_digest context
      (read_project "p-2")
      empty_log
      (authorise name_digest context (read_project "p-2") backing).0.log
      (authorise name_digest context (read_project "p-2") backing).1
authorise-Trail_example = authorise-Trail name_digest context (read_project "p-2") backing

abbrev classifications : FieldClassificationMap
classifications =
    ("name", record { field = "name"; classification = public_internal; disposition = omit })
    ∷ (
      "margin",
      record { field = "margin"; classification = commercial_confidential; disposition = omit },
    )
    ∷ []

abbrev row : List (String × ℕ)
row = ("name", 7) ∷ ("margin", 12) ∷ []

abbrev shaped_row : ShapeResult ℕ
shaped_row = record {
  payload = ("name", 7) ∷ [];
  withheld = "margin" ∷ [];
  sensitive_fields_read = [];
  security_telemetry_read = [];
}

shape_run : shape 0 "project" row classifications manager ≡ shaped shaped_row
unfolding shape shape_fields property sort
shape_run = refl

shape-payload_iff_example :
    ((field : String) (v : ℕ)
      → Memᴰ (field, v) shaped_row.payload
        ↔ (Memᴰ (field, v) row × MayLeave delivery_manager classifications field))
    × ((field : String)
        → Memᴰ field shaped_row.withheld
          ↔ ((v : ℕ) × Memᴰ (field, v) row × ¬ MayLeave delivery_manager classifications field))
shape-payload_iff_example =
    shape-payload_iff 0 "project" row classifications manager shaped_row (refl, (refl, tt))
      shape_run
