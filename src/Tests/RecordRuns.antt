-- ===== src/Tests/RecordRuns.antt =====
-- The audit log and the rate limiter on concrete entries and requests.
use gldaassurance.Base.{
  ◌≡◌, ◌++◌, refl, ◌∷◌, ◌-◌, List, none, get, some, min, filter, [], String, string_eq,
}
use gldaassurance.Audit.{read_action, AuditRecord, AuditLog, AuditQuery, granted, AuditEntry}
use gldaassurance.Api.RateLimit.{check, auth_bucket, exceeded, Limiter}
use gldaassurance.Api.RateLimit.Budget.{check_all, check_all-passed}
use gldaassurance.Tests.Data.{noon, name_digest, empty_log}
use gldaassurance.Access.Types.{delivery_manager}
use gldaassurance.Audit.Appending.{is_complete, numbered, record_all, record_all-appends}

abbrev entry : String → AuditEntry
entry actor = record {
  occurred_at = noon;
  actor_id = actor;
  actor_role = delivery_manager;
  impersonator_id = none;
  action = read_action;
  entity_type = "project";
  entity_id = "p-1";
  fields = [];
  decision = granted;
  reason = none;
  correlation_id = "c-1";
  rule_version = none;
  source_ip = "10.0.0.1";
  user_agent = "test";
}

abbrev two_entries : List AuditEntry
two_entries = entry "mia" ∷ entry "" ∷ []

abbrev a_record : AuditRecord
a_record = record { id = "p-1"; entry = entry "mia" }

abbrev full_log : AuditLog
full_log = record empty_log { records = a_record ∷ [] }

abbrev by_mia : AuditQuery
by_mia = record {
  actor_id = some "mia";
  entity_type = none;
  entity_id = none;
  from = some noon;
  to = none;
}

record_all-appends_example :
    (record_all name_digest two_entries full_log).records
    ≡ (a_record ∷ []) ++ numbered name_digest 1 (filter is_complete two_entries)
record_all-appends_example = record_all-appends name_digest two_entries full_log refl

abbrev nine_used : Limiter
nine_used = ("mia:auth", record { start = noon; count = 9 }) ∷ []

abbrev used_up : Limiter
used_up = ("mia:auth", record { start = noon; count = 10 }) ∷ []

exceeded_run : (check used_up "mia" auth_bucket noon).1 ≡ exceeded 60000
unfolding check get
exceeded_run = refl

check_all-passed_example :
    (check_all nine_used "mia" auth_bucket (noon ∷ noon ∷ noon ∷ [])).1 ≡ min 3 (10 - 9)
unfolding get
check_all-passed_example =
    check_all-passed nine_used "mia" auth_bucket (record { start = noon; count = 9 })
      (noon ∷ noon ∷ noon ∷ []) refl (refl, (refl, (refl, tt)))
