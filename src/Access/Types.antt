-- ===== src/Access/Types.antt =====
-- src/platform/authz/index.ts and the unions of policy.ts. A union of string literals is a data
-- type; where the source compares a literal with a text, `capability_name` is that literal.
use gldaassurance.Base.{
  ℕ, String, ◌≡◌, ◌↔◌, true, Option, List, arith, Equality, nat_eqb, ◌==◌, false, Bool, ==_iff,
  string_eq,
}

pub data Role : Type 0 where
  executive portfolio_director delivery_manager finance_controller assurance_auditor : Role
  security_admin : Role

abbrev pub role_code : Role → ℕ
role_code executive = 0
role_code portfolio_director = 1
role_code delivery_manager = 2
role_code finance_controller = 3
role_code assurance_auditor = 4
role_code security_admin = 5

pub role_code_iff : (a b : Role) → (nat_eqb (role_code a) (role_code b) ≡ true) ↔ (a ≡ b)
role_code_iff a b = ground arith

instance abbrev pub role_eq : Equality Role
role_eq = record { equals = λ a b. nat_eqb (role_code a) (role_code b); equals_iff = role_code_iff }

pub data FieldClassification : Type 0 where
  public_internal delivery_sensitive commercial_confidential personal_data : FieldClassification
  security_telemetry : FieldClassification

abbrev pub classification_code : FieldClassification → ℕ
classification_code public_internal = 0
classification_code delivery_sensitive = 1
classification_code commercial_confidential = 2
classification_code personal_data = 3
classification_code security_telemetry = 4

pub classification_code_iff :
    (a b : FieldClassification)
    → (nat_eqb (classification_code a) (classification_code b) ≡ true) ↔ (a ≡ b)
classification_code_iff a b = ground arith

instance abbrev pub classification_eq : Equality FieldClassification
classification_eq = record {
  equals = λ a b. nat_eqb (classification_code a) (classification_code b);
  equals_iff = classification_code_iff;
}

-- The literal that stands for a classification in the source.
abbrev pub classification_name : FieldClassification → String
classification_name public_internal = "PUBLIC_INTERNAL"
classification_name delivery_sensitive = "DELIVERY_SENSITIVE"
classification_name commercial_confidential = "COMMERCIAL_CONFIDENTIAL"
classification_name personal_data = "PERSONAL_DATA"
classification_name security_telemetry = "SECURITY_TELEMETRY"

pub data ScopeKind : Type 0 where
  business_unit geography portfolio account project : ScopeKind

pub record ScopeNode : Type 0 where
  pub kind : ScopeKind
  pub id : String

-- A session id is the one issued as the n-th, `ses-` and n padded to six digits, or any other text.
pub data SessionId : Type 0 where
  issued : ℕ → SessionId
  other : String → SessionId

pub record AuthorizationContext : Type 0 where
  pub actor_id : String
  pub role : Role
  pub session_id : SessionId
  pub correlation_id : String
  pub scope : List ScopeNode
  pub impersonator_id : Option String

pub data Capability : Type 0 where
  project_view project_view_commercial portfolio_view_aggregates : Capability
  resource_view_individual health_set_reported_rag health_apply_override : Capability
  intervention_manage rules_edit_thresholds audit_read audit_read_access_events_only : Capability
  identity_manage_grants assistant_use forecast_update_etc contract_revise_baseline : Capability
  commercial_set_cr_assumption risk_accept_risk recovery_set_assumption : Capability
  data_apply_correction : Capability

-- The literal that stands for a capability in the source.
abbrev pub capability_name : Capability → String
capability_name project_view = "project.view"
capability_name project_view_commercial = "project.viewCommercial"
capability_name portfolio_view_aggregates = "portfolio.viewAggregates"
capability_name resource_view_individual = "resource.viewIndividual"
capability_name health_set_reported_rag = "health.setReportedRag"
capability_name health_apply_override = "health.applyOverride"
capability_name intervention_manage = "intervention.manage"
capability_name rules_edit_thresholds = "rules.editThresholds"
capability_name audit_read = "audit.read"
capability_name audit_read_access_events_only = "audit.readAccessEventsOnly"
capability_name identity_manage_grants = "identity.manageGrants"
capability_name assistant_use = "assistant.use"
capability_name forecast_update_etc = "forecast.updateEtc"
capability_name contract_revise_baseline = "contract.reviseBaseline"
capability_name commercial_set_cr_assumption = "commercial.setCrAssumption"
capability_name risk_accept_risk = "risk.acceptRisk"
capability_name recovery_set_assumption = "recovery.setAssumption"
capability_name data_apply_correction = "data.applyCorrection"

abbrev pub session_id_eqb : SessionId → SessionId → Bool
session_id_eqb (issued m) (issued n) = nat_eqb m n
session_id_eqb (other s) (other t) = s == t
session_id_eqb _ _ = false

pub session_id_eqb_iff : (a b : SessionId) → (session_id_eqb a b ≡ true) ↔ (a ≡ b)
session_id_eqb_iff (issued m) (issued n) = ground arith
session_id_eqb_iff (other s) (other t) = ground (arith, ==_iff s t)
session_id_eqb_iff (issued m) (other t) = ground arith
session_id_eqb_iff (other s) (issued n) = ground arith

instance abbrev pub session_id_eq : Equality SessionId
session_id_eq = record { equals = session_id_eqb; equals_iff = session_id_eqb_iff }
