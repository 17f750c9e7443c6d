-- ===== src/Explainability.antt =====
-- src/platform/explainability/index.ts: what a rule's evaluation says, and the explanation of an
-- assessment.
pub mod Explaining
use gldaassurance.Time.{Instant}
use gldaassurance.Base.{
  String, filter, if◌then◌else◌, some, Option, true, append_text, Bool, List, none, ◌&&◌, map,
  false, ◌∷◌, find, put, ◌++◌, [], string_eq, or_else, is_empty,
}

-- `RecordRef` of src/platform/provenance/index.ts.
pub record RecordRef : Type 0 where
  pub context : String
  pub entity_type : String
  pub entity_id : String
  pub metric_id : Option String

pub data SignalDirection : Type 0 where
  improving stable worsening direction_not_computable : SignalDirection

pub data Comparison : Type 0 where
  lt lte gt gte eq neq in_band present : Comparison

pub data RuleEvaluationStatus : Type 0 where
  fired_status clear_status not_applicable_status : RuleEvaluationStatus
  not_computable_status configuration_error_status : RuleEvaluationStatus

pub data SignalState : Type 0 where
  observed known_zero not_applicable not_computable unbounded configuration_error : SignalState

pub data NotEvaluatedReasonCode : Type 0 where
  lifecycle_not_applicable contract_type_not_applicable no_remaining_work : NotEvaluatedReasonCode
  risk_object_absent no_remaining_delivery_window : NotEvaluatedReasonCode
  insufficient_execution_history required_metric_not_computable : NotEvaluatedReasonCode
  required_evidence_missing signal_builder_missing threshold_undecided : NotEvaluatedReasonCode
  reason_configuration_error : NotEvaluatedReasonCode

pub record Impact : Type 0 where
  pub amount : String
  pub currency : String

pub record RuleEvaluation : Type 0 where
  pub status : RuleEvaluationStatus
  pub not_evaluated_reason_code : Option NotEvaluatedReasonCode
  pub required_evidence : Option (List String)
  pub missing_evidence : Option (List String)
  pub rule_id : String
  pub rule_name : String
  pub rule_set_id : String
  pub rule_version : String
  pub signal_id : String
  pub signal_metric_id : Option String
  pub observed_value : Option String
  pub comparison : Comparison
  pub threshold_value : Option String
  pub not_evaluated_reason : Option String
  pub fired : Bool
  pub trend : Option SignalDirection
  pub estimated_impact : Option Impact
  pub contribution : String
  pub narrative : String
  pub evidence : List RecordRef

pub record Explanation : Type 0 where
  pub outcome : String
  pub outcome_detail : Option String
  pub evaluated_at : Instant
  pub rule_set_version : String
  pub metric_catalog_version : String
  pub health_model_version : Option String
  pub evaluations : List RuleEvaluation
  pub fired_rules : List String
  pub unevaluated_rules : List String
  pub explained_by : List RecordRef

-- The arguments of `explain`.
pub record ExplainArgs : Type 0 where
  pub outcome : String
  pub outcome_detail : Option String
  pub evaluated_at : Instant
  pub rule_set_version : String
  pub metric_catalog_version : String
  pub health_model_version : Option String
  pub evaluations : List RuleEvaluation

-- What `explain` returns, or the two errors that it throws; the second names a rule.
pub data Explained : Type 0 where
  explained : Explanation → Explained
  looked_at_nothing : Explained
  fired_without_evidence : String → Explained

-- The key of `dedupeEvidence`.
unfoldable pub evidence_key : RecordRef → String
evidence_key r = append_text r.context (
    append_text "|" (
      append_text r.entity_type
        (append_text "|" (append_text r.entity_id (append_text "|" (or_else r.metric_id ""))))))

unfoldable pub keyed : List RecordRef → List (String × RecordRef) → List (String × RecordRef)
unfolding put evidence_key
keyed [] seen = seen
keyed (r ∷ refs) seen = keyed refs (put (evidence_key r) r seen)

-- `dedupeEvidence`
unfoldable pub dedupe_evidence : List RecordRef → List RecordRef
unfolding keyed
dedupe_evidence refs = map (λ e. e.1) (keyed refs [])

abbrev pub all_evidence : List RuleEvaluation → List RecordRef
all_evidence [] = []
all_evidence (e ∷ es) = e.evidence ++ all_evidence es

unfoldable pub fired_on_nothing : RuleEvaluation → Bool
fired_on_nothing e = e.fired && is_empty e.evidence

-- `e.notEvaluatedReason !== undefined`
abbrev pub is_unevaluated : RuleEvaluation → Bool
is_unevaluated e = elim e.not_evaluated_reason [ none ↦ false | some _ ↦ true ]

abbrev pub explanation_of : ExplainArgs → Explanation
explanation_of args = record {
  outcome = args.outcome;
  outcome_detail = args.outcome_detail;
  evaluated_at = args.evaluated_at;
  rule_set_version = args.rule_set_version;
  metric_catalog_version = args.metric_catalog_version;
  health_model_version = args.health_model_version;
  evaluations = args.evaluations;
  fired_rules = map (λ e. e.rule_id) (filter (λ e. e.fired) args.evaluations);
  unevaluated_rules = map (λ e. e.rule_id) (filter is_unevaluated args.evaluations);
  explained_by = dedupe_evidence (all_evidence args.evaluations);
}

-- `explain`
unfoldable pub explain : ExplainArgs → Explained
explain args =
    if is_empty args.evaluations
    then looked_at_nothing
    else elim (find fired_on_nothing args.evaluations) [
      | some e ↦ fired_without_evidence e.rule_id
      | none ↦ explained (explanation_of args)
    ]
