-- ===== src/Api/Contract.antt =====
-- src/app/api/contract.ts: the table of routes and the lookup of a route. The descriptions of routes,
-- which nothing reads, are left out.
pub mod Lookup
use Prim.Native.Char.{Char, code}
use gldaassurance.Base.{
  Bool, none, ◌==◌, true, some, nat_eqb, String, List, if◌then◌else◌, append_text, ℕ, ◌&&◌, find,
  [], false, ◌∷◌, Option, string_eq,
}
use gldaassurance.Access.Types.{
  portfolio_view_aggregates, security_telemetry, project_view_commercial, health_apply_override,
  FieldClassification, audit_read, delivery_sensitive, commercial_confidential, Capability,
  forecast_update_etc, project_view, public_internal,
}

pub record RouteDefinition : Type 0 where
  pub method : String
  pub path : String
  pub capability : Capability
  pub entity_type : String
  pub reads_classifications : List FieldClassification
  pub audit_reads : Bool
  pub is_write : Bool
  pub max_page_size : Option ℕ

abbrev pub default_page_size : ℕ
default_page_size = 25

abbrev pub max_page : ℕ
max_page = 100

-- A route that reads.
abbrev get_route :
    String → Capability → String → List FieldClassification → Bool → Option ℕ → RouteDefinition
get_route path capability entity_type classifications audited ceiling = record {
  method = "GET";
  path = path;
  capability = capability;
  entity_type = entity_type;
  reads_classifications = classifications;
  audit_reads = audited;
  is_write = false;
  max_page_size = ceiling;
}

-- A route that writes.
abbrev write_route :
    String → String → Capability → String → List FieldClassification → RouteDefinition
write_route method path capability entity_type classifications = record {
  method = method;
  path = path;
  capability = capability;
  entity_type = entity_type;
  reads_classifications = classifications;
  audit_reads = false;
  is_write = true;
  max_page_size = none;
}

abbrev up_to_commercial : List FieldClassification
up_to_commercial = public_internal ∷ delivery_sensitive ∷ commercial_confidential ∷ []

-- `ROUTES`
unfoldable pub routes : List RouteDefinition
routes =
    get_route "/v1/projects" project_view "project" (public_internal ∷ delivery_sensitive ∷ [])
      false (some max_page)
    ∷ get_route "/v1/projects/:id" project_view "project" up_to_commercial true none
    ∷ get_route "/v1/projects/:id/executive-health" project_view "projectExecutiveHealth"
        up_to_commercial true (some 1)
    ∷ get_route "/v1/projects/:id/margin-intelligence" project_view_commercial "marginIntelligence"
        up_to_commercial true (some 1)
    ∷ get_route "/v1/projects/:id/forward-risk" project_view "forwardRisk" up_to_commercial true
        (some 1)
    ∷ get_route "/v1/projects/:id/economics" project_view_commercial "projectEconomics"
        (commercial_confidential ∷ []) true none
    ∷ get_route "/v1/portfolio/command-center" portfolio_view_aggregates "portfolioCommandCenter"
        up_to_commercial true (some 1)
    ∷ get_route "/v1/portfolio/summary" portfolio_view_aggregates "portfolioSummary"
        (commercial_confidential ∷ []) true (some 1)
    ∷ get_route "/v1/lineage/:id" project_view "lineage" (public_internal ∷ []) false none
    ∷ get_route "/v1/audit" audit_read "auditEvent"
        (commercial_confidential ∷ security_telemetry ∷ []) true (some max_page)
    ∷ write_route "POST" "/v1/projects/:id/rag-override" health_apply_override "ragOverride"
        (public_internal ∷ [])
    ∷ write_route "PATCH" "/v1/projects/:id/etc" forecast_update_etc "estimateToComplete"
        (commercial_confidential ∷ [])
    ∷ []

abbrev push_char : Char → List String → List String
push_char c [] = []
push_char c (segment ∷ segments) = (String.◌∷◌ c segment) ∷ segments

-- `split('/')`
unfoldable pub split_slash : String → List String
split_slash String.[] = "" ∷ []
split_slash (String.◌∷◌ c s) =
    let segments = split_slash s in
    if nat_eqb (code c) b'/' then "" ∷ segments else push_char c segments

-- `startsWith(':')`
abbrev pub is_param : String → Bool
is_param String.[] = false
is_param (String.◌∷◌ c s) = nat_eqb (code c) b':'

-- The test of one segment in `matches`.
abbrev pub segment_matches : String → String → Bool
segment_matches pattern' actual =
    if is_param pattern' then (if actual == "" then false else true) else pattern' == actual

-- `matches`, on the segments; lists of different lengths do not match.
unfoldable pub segments_match : List String → List String → Bool
segments_match [] [] = true
segments_match (p ∷ ps) (a ∷ as') = segment_matches p a && segments_match ps as'
segments_match [] (_ ∷ _) = false
segments_match (_ ∷ _) [] = false

-- `matches`
unfoldable pub matches : String → String → Bool
unfolding split_slash segments_match
matches pattern' actual = segments_match (split_slash pattern') (split_slash actual)

-- `findRoute`
unfoldable pub find_route : String → String → Option RouteDefinition
unfolding routes matches
find_route method path = find (λ r. r.method == method && matches r.path path) routes

-- `a[p.indexOf(':name')]`
unfoldable pub param_at : String → List String → List String → Option String
param_at name [] actual = none
param_at name (p ∷ ps) [] = none
param_at name (p ∷ ps) (a ∷ as') =
    if p == append_text ":" name then some a else param_at name ps as'

-- `pathParam`
unfoldable pub path_param : String → String → String → Option String
unfolding split_slash param_at
path_param pattern' actual name = param_at name (split_slash pattern') (split_slash actual)
