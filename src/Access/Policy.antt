-- ===== src/Access/Policy.antt =====
-- src/platform/authz/policy.ts: the two matrices, scope resolution and the decision functions.
pub mod Laws
pub mod Scope
use Prim.Native.String.{compare}
use Prim.Native.Nat.{Ordering}
use gldaassurance.Base.{
  String, Bool, true, false, List, [], ◌∷◌, map, if◌then◌else◌, ◌==◌, any, contains, filter, sort,
  string_eq,
}
use gldaassurance.Access.Types.{
  Role, executive, portfolio_director, delivery_manager, finance_controller, assurance_auditor,
  security_admin, FieldClassification, public_internal, delivery_sensitive, commercial_confidential,
  personal_data, security_telemetry, ScopeKind, business_unit, geography, portfolio, account,
  project, ScopeNode, AuthorizationContext, role_eq, classification_eq,
}

-- `CAPABILITY_MATRIX`, in the order of the source.
unfoldable pub capability_matrix : List (String × List Role)
capability_matrix =
    (
      "project.view",
      executive ∷ portfolio_director ∷ delivery_manager ∷ finance_controller ∷ assurance_auditor
          ∷ [],
    )
    ∷ (
      "project.viewCommercial",
      executive ∷ portfolio_director ∷ finance_controller ∷ assurance_auditor ∷ [],
    )
    ∷ (
      "portfolio.viewAggregates",
      executive ∷ portfolio_director ∷ finance_controller ∷ assurance_auditor ∷ [],
    )
    ∷ ("resource.viewIndividual", [])
    ∷ ("health.setReportedRag", portfolio_director ∷ delivery_manager ∷ [])
    ∷ ("health.applyOverride", executive ∷ portfolio_director ∷ [])
    ∷ ("intervention.manage", executive ∷ portfolio_director ∷ delivery_manager ∷ [])
    ∷ ("rules.editThresholds", executive ∷ [])
    ∷ ("audit.read", assurance_auditor ∷ [])
    ∷ ("audit.readAccessEventsOnly", security_admin ∷ [])
    ∷ ("identity.manageGrants", security_admin ∷ [])
    ∷ (
      "assistant.use",
      executive ∷ portfolio_director ∷ delivery_manager ∷ finance_controller ∷ assurance_auditor
          ∷ [],
    )
    ∷ ("forecast.updateEtc", delivery_manager ∷ portfolio_director ∷ finance_controller ∷ [])
    ∷ ("contract.reviseBaseline", portfolio_director ∷ finance_controller ∷ [])
    ∷ ("commercial.setCrAssumption", portfolio_director ∷ finance_controller ∷ [])
    ∷ ("risk.acceptRisk", executive ∷ portfolio_director ∷ [])
    ∷ ("recovery.setAssumption", executive ∷ portfolio_director ∷ delivery_manager ∷ [])
    ∷ ("data.applyCorrection", finance_controller ∷ [])
    ∷ []

-- `CLASSIFICATION_MATRIX`
abbrev pub classification_matrix : FieldClassification → List Role
classification_matrix public_internal =
    executive ∷ portfolio_director ∷ delivery_manager ∷ finance_controller ∷ assurance_auditor ∷ []
classification_matrix delivery_sensitive =
    executive ∷ portfolio_director ∷ delivery_manager ∷ finance_controller ∷ assurance_auditor ∷ []
classification_matrix commercial_confidential =
    executive ∷ portfolio_director ∷ finance_controller ∷ assurance_auditor ∷ []
classification_matrix personal_data = []
classification_matrix security_telemetry = assurance_auditor ∷ []

-- `AUDITED_READ_CLASSIFICATIONS`
abbrev pub audited_read_classifications : List FieldClassification
audited_read_classifications = commercial_confidential ∷ personal_data ∷ security_telemetry ∷ []

-- `SECURITY_TELEMETRY_RESOURCES`
abbrev pub security_telemetry_resources : List String
security_telemetry_resources = "auditEvent" ∷ []

-- What `object[key]` gives on an object literal: an own property, one that every object inherits
-- from `Object.prototype`, or `undefined`.
pub data Property (V : Type 0) : Type 0 where
  own : V → Property V
  inherited : Property V
  absent : Property V

-- The keys of `Object.prototype`.
abbrev pub object_prototype_keys : List String
object_prototype_keys =
    "constructor" ∷ "__defineGetter__" ∷ "__defineSetter__" ∷ "hasOwnProperty" ∷ "__lookupGetter__"
    ∷ "__lookupSetter__" ∷ "isPrototypeOf" ∷ "propertyIsEnumerable" ∷ "toString" ∷ "valueOf"
    ∷ "__proto__" ∷ "toLocaleString" ∷ []

unfoldable pub property : {V : Type 0} → List (String × V) → String → Property V
property [] key = if contains object_prototype_keys key then inherited else absent
property ((k, v) ∷ fields) key = if k == key then own v else property fields key

-- The reason of a denial, by its template and the values put into it.
pub data Reason : Type 0 where
  undeclared_capability : String → Reason
  role_not_granted : Role → String → Reason
  role_may_not_read : Role → FieldClassification → Reason

pub data AuthorizationDecision : Type 0 where
  grant : AuthorizationDecision
  deny : Reason → AuthorizationDecision

-- A call returns a decision, or throws the `TypeError` of calling `includes` on what is no array.
pub data Answer : Type 0 where
  decided : AuthorizationDecision → Answer
  type_error : Answer

-- The decision of `may` on what the lookup of the row gave.
abbrev pub answer : Role → String → Property (List Role) → Answer
answer role capability absent = decided (deny (undeclared_capability capability))
answer role capability inherited = type_error
answer role capability (own allowed) =
    if contains allowed role
    then decided grant
    else decided (deny (role_not_granted role capability))

-- `DeclarativePolicy.may`
unfoldable pub may : AuthorizationContext → String → Answer
unfolding property capability_matrix
may ctx capability = answer ctx.role capability (property capability_matrix capability)

-- `DeclarativePolicy.mayReadField`; its parameter is of the closed union, so the row is there.
unfoldable pub may_read_field : AuthorizationContext → FieldClassification → AuthorizationDecision
may_read_field ctx classification =
    if contains (classification_matrix classification) ctx.role
    then grant
    else deny (role_may_not_read ctx.role classification)

-- `DeclarativePolicy.readIsAudited`
unfoldable pub read_is_audited : List FieldClassification → Bool
read_is_audited = any (λ c. contains audited_read_classifications c)

pub record EntityPlacement : Type 0 where
  pub project_id : String
  pub business_unit_id : String
  pub geography_id : String
  pub portfolio_id : String
  pub account_id : String

-- `placement[NODE_FIELD[kind]]`
abbrev pub node_field : ScopeKind → EntityPlacement → String
node_field business_unit p = p.business_unit_id
node_field geography p = p.geography_id
node_field portfolio p = p.portfolio_id
node_field account p = p.account_id
node_field project p = p.project_id

-- `placementInScope`
unfoldable pub placement_in_scope : EntityPlacement → List ScopeNode → Bool
placement_in_scope p scope = any (λ node. node_field node.kind p == node.id) scope

pub record AuthorisedEntitySet : Type 0 where
  pub project_ids : List String
  pub resolved_from : List ScopeNode

-- The order of `sort()` with no comparator, by code points.
abbrev pub text_before : String → String → Bool
text_before a b = elim (compare a b) [ Ordering.gt ↦ false | _ ↦ true ]

-- `DeclarativePolicy.resolveScope`, on the placements that the policy holds.
unfoldable pub resolve_scope : List EntityPlacement → AuthorizationContext → AuthorisedEntitySet
unfolding placement_in_scope sort
resolve_scope placements ctx = record {
  project_ids =
      sort text_before
        (map (λ p. p.project_id) (filter (λ p. placement_in_scope p ctx.scope) placements));
  resolved_from = ctx.scope;
}
