-- ===== src/Tests/Data.antt =====
-- A caller, the projects of a small portfolio, a session store and a log.
use gldaassurance.Time.{Instant}
use gldaassurance.Base.{ℕ, ◌∷◌, String, List, none, false, []}
use gldaassurance.Audit.{AuditLog, AuditEntry}
use gldaassurance.Identity.Sessions.{
  SecurityPolicy, SessionRecord, SessionStore, empty_store, new_record,
}
use gldaassurance.Access.Policy.{EntityPlacement}
use gldaassurance.Access.Types.{
  ScopeKind, ScopeNode, AuthorizationContext, delivery_manager, issued,
}

abbrev pub noon : Instant
noon = record { second = 43200; fraction = none }

abbrev pub minute_later : Instant
minute_later = record { second = 43260; fraction = none }

abbrev pub evening : Instant
evening = record { second = 75600; fraction = none }

abbrev pub first_project : EntityPlacement
first_project = record {
  project_id = "p-1";
  business_unit_id = "bu-1";
  geography_id = "emea";
  portfolio_id = "pf-1";
  account_id = "acc-1";
}

abbrev pub second_project : EntityPlacement
second_project = record first_project { project_id = "p-2"; portfolio_id = "pf-2" }

abbrev pub two_projects : List EntityPlacement
two_projects = second_project ∷ first_project ∷ []

abbrev pub own_portfolio : ScopeNode
own_portfolio = record { kind = ScopeKind.portfolio; id = "pf-1" }

-- A delivery manager whose scope is one portfolio.
abbrev pub manager : AuthorizationContext
manager = record {
  actor_id = "mia";
  role = delivery_manager;
  session_id = issued 1;
  correlation_id = "c-1";
  scope = own_portfolio ∷ [];
  impersonator_id = none;
}

abbrev pub lifetimes : SecurityPolicy
lifetimes = record { session_absolute_lifetime_ms = 28800000; session_idle_lifetime_ms = 1800000 }

-- The store after the manager's session was issued at noon.
abbrev pub mia_session : SessionRecord
mia_session = new_record (empty_store lifetimes) "mia" noon

abbrev pub one_session : SessionStore
one_session = record { sessions = (issued 1, mia_session) ∷ []; seq = 1; policy = lifetimes }

abbrev pub empty_log : AuditLog
empty_log = record { records = []; sealed = false }

-- A stand-in for the digest: the entity id.
abbrev pub name_digest : ℕ → AuditEntry → String
name_digest n entry = entry.entity_id
