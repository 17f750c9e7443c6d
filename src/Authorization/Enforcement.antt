-- ===== src/Authorization/Enforcement.antt =====
-- src/app/authorization/enforcement.ts: the authorization enforcement point. Telemetry is left out;
-- it does not reach the outcome. The instant of a call is that of the request context's clock, which
-- the session store shares.
pub mod Granting
pub mod Trail
use gldaassurance.Time.{Instant}
use gldaassurance.Base.{
  ℕ, length, [], ◌==◌, none, map, some, ◌||◌, List, contains, Bool, String, if◌then◌else◌, Option,
  string_eq,
}
use gldaassurance.Audit.{
  actor_mismatch, read_action, write_reason, AuditEntry, AuditFailure, denied, AuditLog,
  session_reason, outside_set, AuditAction, granted, write_failed, policy_reason, write_action,
  AuditReason, Verdict, Recorded, recorded, record_entry,
}
use gldaassurance.Identity.Sessions.{valid, rejected, Validated, SessionStore, validate}
use gldaassurance.Access.Policy.{
  grant, AuthorisedEntitySet, decided, resolve_scope, deny, Answer, may, EntityPlacement,
  type_error,
}
use gldaassurance.Access.Types.{FieldClassification, classification_name, AuthorizationContext}

-- The parts of the `RequestContext` that the point changes: the store and the audit log.
pub record Backing : Type 0 where
  pub store : SessionStore
  pub log : AuditLog

-- The parts that it reads.
pub record RequestContext : Type 0 where
  pub auth : AuthorizationContext
  pub clock_now : Instant
  pub placements : List EntityPlacement
  pub request_ip : String
  pub request_agent : String

-- `CapabilityDeclaration`, with the capability as the text that `may` is given; `is_write` is the
-- value of `isWrite === true`.
pub record CapabilityDeclaration : Type 0 where
  pub capability : String
  pub reads_classifications : List FieldClassification
  pub audit_reads : Bool
  pub is_write : Bool

-- `AuthoriseRequest`
pub record AuthoriseRequest : Type 0 where
  pub declaration : CapabilityDeclaration
  pub wanted_entity : Option String
  pub wanted_type : String

pub record AuthorisedRequest : Type 0 where
  pub granted_auth : AuthorizationContext
  pub granted_capability : String
  pub entity_set : AuthorisedEntitySet
  pub granted_correlation : String

-- `permits`
abbrev pub permits : AuthorisedRequest → String → Bool
permits request id = contains request.entity_set.project_ids id

-- How a call ends: with a request, with `AuthorizationDenied` and its audit reason, with the failure
-- of an audit write, or with the `TypeError` of `may`.
pub data Outcome : Type 0 where
  authorised : AuthorisedRequest → Outcome
  authorization_denied : AuditReason → Outcome
  audit_failed : AuditFailure → Outcome
  policy_failed : Outcome

-- The entry that `#audit` records.
abbrev pub audit_entry :
    RequestContext
    → AuthoriseRequest
    → Verdict
    → Option AuditReason
    → List FieldClassification
    → AuditEntry
audit_entry ctx request verdict reason classifications = record {
  occurred_at = ctx.clock_now;
  actor_id = ctx.auth.actor_id;
  actor_role = ctx.auth.role;
  impersonator_id = ctx.auth.impersonator_id;
  action = if request.declaration.is_write then write_action else read_action;
  entity_type = request.wanted_type;
  entity_id = elim request.wanted_entity [ none ↦ "*" | some id ↦ id ];
  fields = map classification_name classifications;
  decision = verdict;
  reason = reason;
  correlation_id = ctx.auth.correlation_id;
  rule_version = none;
  source_ip = ctx.request_ip;
  user_agent = ctx.request_agent;
}

-- What the checks of `authorise` come to: a call of `deny` with its reason, the error that `may`
-- throws, or the end of the checks with the resolved set.
pub data Assessment : Type 0 where
  refuse : AuditReason → Assessment
  throws : Assessment
  admits : AuthorisedEntitySet → Assessment

-- Step 5, the object-level check.
abbrev pub assess_entity : AuthoriseRequest → AuthorisedEntitySet → Assessment
assess_entity request set = elim request.wanted_entity [
  | none ↦ admits set
  | some id ↦
      if contains set.project_ids id
      then admits set
      else refuse
          (outside_set request.wanted_type id (length set.project_ids) (length set.resolved_from))
]

-- Steps 2 to 4. Step 3 only adds to the telemetry.
abbrev pub assess_capability : RequestContext → AuthoriseRequest → Answer → Assessment
assess_capability ctx request type_error = throws
assess_capability ctx request (decided (deny reason)) = refuse (policy_reason reason)
assess_capability ctx request (decided grant) =
    assess_entity request (resolve_scope ctx.placements ctx.auth)

-- The steps from the outcome of the session check on.
abbrev pub assess : RequestContext → AuthoriseRequest → Validated → Assessment
assess ctx request (rejected why) = refuse (session_reason why)
assess ctx request (valid session) =
    if session.actor_id == ctx.auth.actor_id
    then assess_capability ctx request (may ctx.auth request.declaration.capability)
    else refuse actor_mismatch

-- A write to the log and how the call ends if it succeeds.
abbrev pub after_write : Backing → Recorded → Outcome → Backing × Outcome
after_write backing (recorded log') outcome = (record backing { log = log' }, outcome)
after_write backing (write_failed failure) outcome = (backing, audit_failed failure)

abbrev pub issue_request :
    RequestContext → AuthoriseRequest → AuthorisedEntitySet → AuthorisedRequest
issue_request ctx request set = record {
  granted_auth = ctx.auth;
  granted_capability = request.declaration.capability;
  entity_set = set;
  granted_correlation = ctx.auth.correlation_id;
}

abbrev pub is_audited : AuthoriseRequest → Bool
is_audited request = request.declaration.audit_reads || request.declaration.is_write

-- What `authorise` does after the checks: `deny`, the error, or the audit of the grant.
abbrev pub conclude :
    (ℕ → AuditEntry → String)
    → RequestContext
    → AuthoriseRequest
    → Backing
    → Assessment
    → Backing × Outcome
conclude digest ctx request backing throws = (backing, policy_failed)
conclude digest ctx request backing (refuse reason) =
    after_write backing
      (record_entry digest backing.log (audit_entry ctx request denied (some reason) []))
      (authorization_denied reason)
conclude digest ctx request backing (admits set) =
    if is_audited request
    then after_write backing
        (record_entry digest backing.log
          (audit_entry ctx request granted none request.declaration.reads_classifications))
        (authorised (issue_request ctx request set))
    else (backing, authorised (issue_request ctx request set))

-- `EnforcementPoint.authorise`
unfoldable pub authorise :
    (ℕ → AuditEntry → String) → RequestContext → AuthoriseRequest → Backing → Backing × Outcome
authorise digest ctx request backing =
    let (store', v) = validate backing.store ctx.auth.session_id ctx.clock_now in
    conclude digest ctx request (record backing { store = store' }) (assess ctx request v)

-- The arguments of `recordWrite`.
pub record WriteArgs : Type 0 where
  pub written_type : String
  pub written_id : String
  pub written_action : AuditAction
  pub why : String
  pub changed_fields : List String
  pub before_hash : Option String
  pub after_hash : String

-- `EnforcementPoint.recordWrite`
unfoldable pub record_write :
    (ℕ → AuditEntry → String) → RequestContext → WriteArgs → AuditLog → Recorded
record_write digest ctx args log = record_entry digest log (record {
  occurred_at = ctx.clock_now;
  actor_id = ctx.auth.actor_id;
  actor_role = ctx.auth.role;
  impersonator_id = ctx.auth.impersonator_id;
  action = args.written_action;
  entity_type = args.written_type;
  entity_id = args.written_id;
  fields = args.changed_fields;
  decision = granted;
  reason = some (write_reason args.why args.before_hash args.after_hash);
  correlation_id = ctx.auth.correlation_id;
  rule_version = none;
  source_ip = ctx.request_ip;
  user_agent = ctx.request_agent;
})
