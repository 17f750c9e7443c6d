-- ===== src/Audit.antt =====
-- src/platform/audit: the append-only audit log and what is read from it.
-- An id is the first 32 digits of a SHA-256 digest; the digest is the section's parameter. A reason
-- is given by its template and the values put into it.
pub mod Appending
pub mod Reading
use gldaassurance.Time.{Instant, instant_le}
use gldaassurance.Base.{
  if◌then◌else◌, filter, Option, List, false, some, ℕ, ◌||◌, ◌&&◌, none, true, Bool, ◌==◌, String,
  length, ◌++◌, [], contains, ◌∷◌, string_eq,
}
use gldaassurance.Identity.Sessions.{SessionRejection}
use gldaassurance.Access.Policy.{Reason}
use gldaassurance.Access.Types.{Role}

pub data AuditAction : Type 0 where
  read_action write_action login logout login_failure session_expiry : AuditAction
  impersonation_start impersonation_end assistant_query override rule_change : AuditAction

pub data Verdict : Type 0 where
  granted denied : Verdict

pub data AuditReason : Type 0 where
  session_reason : SessionRejection → AuditReason
  actor_mismatch : AuditReason
  policy_reason : Reason → AuditReason
  outside_set : String → String → ℕ → ℕ → AuditReason
  write_reason : String → Option String → String → AuditReason
  records_returned : ℕ → List String → AuditReason

-- `Omit<AuditRecord, 'id'>`
pub record AuditEntry : Type 0 where
  pub occurred_at : Instant
  pub actor_id : String
  pub actor_role : Role
  pub impersonator_id : Option String
  pub action : AuditAction
  pub entity_type : String
  pub entity_id : String
  pub fields : List String
  pub decision : Verdict
  pub reason : Option AuditReason
  pub correlation_id : String
  pub rule_version : Option String
  pub source_ip : String
  pub user_agent : String

pub record AuditRecord : Type 0 where
  pub id : String
  pub entry : AuditEntry

-- `InMemoryAuditLog`
pub record AuditLog : Type 0 where
  pub records : List AuditRecord
  pub sealed : Bool

pub data AuditFailure : Type 0 where
  log_sealed no_actor no_entity_type : AuditFailure

pub data Recorded : Type 0 where
  recorded : AuditLog → Recorded
  write_failed : AuditFailure → Recorded

abbrev pub push_record : (ℕ → AuditEntry → String) → AuditLog → AuditEntry → AuditLog
push_record digest log entry = record log {
  records = log.records ++ record { id = digest (length log.records) entry; entry = entry } ∷ [];
}

-- `record`; the digest is of the position and the entry.
unfoldable pub record_entry : (ℕ → AuditEntry → String) → AuditLog → AuditEntry → Recorded
record_entry digest log entry =
    if log.sealed
    then write_failed log_sealed
    else if entry.actor_id == ""
    then write_failed no_actor
    else if entry.entity_type == ""
    then write_failed no_entity_type
    else recorded (push_record digest log entry)

-- `seal`
abbrev pub seal : AuditLog → AuditLog
seal log = record log { sealed = true }

pub record AuditQuery : Type 0 where
  pub actor_id : Option String
  pub entity_type : Option String
  pub entity_id : Option String
  pub from : Option Instant
  pub to : Option Instant

-- `criterion === undefined || ...`
abbrev pub unless_given {ℓ} : {A : Type ℓ} → (A → Bool) → Option A → Bool
unless_given test none = true
unless_given test (some a) = test a

abbrev pub satisfies : AuditQuery → AuditRecord → Bool
satisfies q r =
    unless_given (λ a. r.entry.actor_id == a) q.actor_id
    && unless_given (λ t. r.entry.entity_type == t) q.entity_type
    && unless_given (λ i. r.entry.entity_id == i) q.entity_id
    && unless_given (λ f. instant_le f r.entry.occurred_at) q.from
    && unless_given (λ t. instant_le r.entry.occurred_at t) q.to

-- `query`
unfoldable pub query : AuditLog → AuditQuery → List AuditRecord
query log q = filter (satisfies q) log.records

-- `isAccessEvent`, over `ACCESS_EVENT_ACTIONS`
abbrev pub is_access_action : AuditAction → Bool
is_access_action login = true
is_access_action logout = true
is_access_action login_failure = true
is_access_action session_expiry = true
is_access_action impersonation_start = true
is_access_action impersonation_end = true
is_access_action _ = false

-- `accessEventsOnly`
unfoldable pub access_events_only : List AuditRecord → List AuditRecord
access_events_only = filter (λ r. is_access_action r.entry.action)

-- `withinAuthorisedEntities`
unfoldable pub within_authorised_entities :
    List AuditRecord → List String → List String → List AuditRecord
within_authorised_entities records known authorised =
    filter
      (λ r.
        (if contains known r.entry.entity_id then false else true)
        || contains authorised r.entry.entity_id)
      records
