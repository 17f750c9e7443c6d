-- ===== src/Health/Statuses.antt =====
-- src/contexts/health/internal/health-engine.ts: the statuses, the coverage of the rules and the
-- completeness of an assessment, from which `evaluateHealth` is put together.
pub mod Coverage
use gldaassurance.Explainability.{
  fired_status, not_computable, RecordRef, clear_status, configuration_error, RuleEvaluationStatus,
  SignalState, not_applicable_status, Explanation, required_metric_not_computable,
  lifecycle_not_applicable, NotEvaluatedReasonCode, not_computable_status,
  configuration_error_status, Explained, RuleEvaluation,
}
use gldaassurance.Time.{instant_le, Instant}
use gldaassurance.Base.{
  ◌++◌, difference, append_text, ◌&&◌, filter, get, ℕ, is_empty, false, length, ltb, some, ◌∷◌,
  nat_eqb, contains, ℤ, none, [], if◌then◌else◌, not, ◌-◌, map, String, true, or_else, Option, List,
  Bool, pos, string_eq, negsuc,
}
use gldaassurance.Decimals.{Quantity}
use gldaassurance.Rules.Engine.{RuleApplicabilityContext, signal_state_of, SignalReading}
use gldaassurance.Health.Model.{DimensionInput, HealthModel, DimensionDefinition}
use gldaassurance.Health.Scoring.{is_some, DimensionScore}

pub data Rag : Type 0 where
  red amber green : Rag

abbrev pub rag_order : Rag → ℕ
rag_order Rag.red = 0
rag_order Rag.amber = 1
rag_order Rag.green = 2

abbrev pub rag_text : Rag → String
rag_text Rag.red = "RED"
rag_text Rag.amber = "AMBER"
rag_text Rag.green = "GREEN"

abbrev pub is_green : Rag → Bool
is_green Rag.green = true
is_green _ = false

abbrev pub is_red_rag : Rag → Bool
is_red_rag Rag.red = true
is_red_rag _ = false

pub record RagOverride : Type 0 where
  pub override_rag : Rag
  pub override_reason : String
  pub override_actor_id : String
  pub applied_at : Instant
  pub override_expires_at : Instant

-- `write_instant` is the text of an instant, which the narrative of an override holds.
pub record HealthInput : Type 0 where
  pub applicability_context : Option RuleApplicabilityContext
  pub declared_signals : Option (List String)
  pub assessed_project_id : String
  pub assessed_week : String
  pub assessed_at : Instant
  pub model : HealthModel
  pub catalog_version : String
  pub readings : List (String × SignalReading)
  pub reported_rag : Option Rag
  pub manual_override : Option RagOverride
  pub input_evidence : List RecordRef
  pub write_instant : Instant → String

pub record NotApplicableControl : Type 0 where
  pub inapplicable_rule_id : String
  pub inapplicable_code : NotEvaluatedReasonCode
  pub inapplicable_reason : String

pub record UnevaluatedControl : Type 0 where
  pub unevaluated_rule_id : String
  pub unevaluated_code : NotEvaluatedReasonCode
  pub unevaluated_reason : String
  pub needed_evidence : List String
  pub absent_evidence : List String

pub record RuleCoverage : Type 0 where
  pub overrides_declared : ℕ
  pub overrides_applicable : ℕ
  pub overrides_not_applicable : ℕ
  pub overrides_fired : ℕ
  pub overrides_clear : ℕ
  pub overrides_not_computable : ℕ
  pub not_applicable_controls : List NotApplicableControl
  pub unevaluated_controls : List UnevaluatedControl
  pub configuration_error_controls : List String
  pub all_applicable_evaluated : Bool

pub data AssessmentStatus : Type 0 where
  complete provisional status_not_computable : AssessmentStatus

pub record MissingDimension : Type 0 where
  pub missing_id : String
  pub missing_name : String
  pub missing_weight : Quantity
  pub missing_reason : String

pub data Direction : Type 0 where
  reported_optimistic reported_pessimistic : Direction

pub record StatusConflict : Type 0 where
  pub conflict_reported : Rag
  pub conflict_assessed : Rag
  pub divergence : ℤ
  pub direction : Direction
  pub conflict_narrative : String
  pub unexplained_by : List String

pub record HealthEvaluation : Type 0 where
  pub evaluated_project_id : String
  pub evaluated_week : String
  pub evaluated_instant : Instant
  pub evaluated_model_version : String
  pub composite_score : Option Quantity
  pub dimension_scores : List DimensionScore
  pub declared_rag : Option Rag
  pub system_assessed_rag : Rag
  pub effective_rag : Rag
  pub override_applied : Bool
  pub status_divergence : Option ℤ
  pub status_conflict : Option StatusConflict
  pub fired_overrides : List String
  pub rule_coverage : RuleCoverage
  pub composite_band : Option Rag
  pub override_changed_band : Bool
  pub assessment_status : AssessmentStatus
  pub dimension_coverage : Option Quantity
  pub available_weight : Quantity
  pub declared_weight : Quantity
  pub missing_dimensions : List MissingDimension
  pub missing_material_inputs : List String
  pub health_explanation : Explanation

abbrev pub is_scored : DimensionScore → Bool
is_scored d = is_some d.score

abbrev pub missing_of : DimensionScore → MissingDimension
missing_of d = record {
  missing_id = d.dimension_id;
  missing_name = d.dimension_name;
  missing_weight = d.dimension_weight;
  missing_reason = or_else d.not_computable_reason "no reason recorded";
}

-- `e.status === s`
abbrev pub status_index : RuleEvaluationStatus → ℕ
status_index fired_status = 0
status_index clear_status = 1
status_index not_applicable_status = 2
status_index not_computable_status = 3
status_index configuration_error_status = 4

abbrev pub has_status : RuleEvaluationStatus → RuleEvaluation → Bool
has_status s e = nat_eqb (status_index e.status) (status_index s)

unfoldable pub with_status : RuleEvaluationStatus → List RuleEvaluation → List RuleEvaluation
with_status s es = filter (has_status s) es

-- `costsCompleteness`
abbrev pub costs_completeness : SignalState → Bool
costs_completeness SignalState.not_computable = true
costs_completeness SignalState.configuration_error = true
costs_completeness _ = false

abbrev pub absent_inputs : List (String × SignalReading) → List DimensionInput → List DimensionInput
absent_inputs readings xs =
    filter (λ x. costs_completeness (signal_state_of (get readings x.input_signal_id))) xs

abbrev pub absence_label : DimensionDefinition → DimensionInput → String
absence_label d x = append_text x.input_signal_id (
    append_text " ("
      (append_text x.input_metric_id (append_text ", " (append_text d.definition_name ")"))))

-- `materialAbsent`: each absent input's signal and label.
unfoldable pub material_absent :
    List (String × SignalReading) → List DimensionDefinition → List (String × String)
unfolding get signal_state_of
material_absent readings [] = []
material_absent readings (d ∷ ds) =
    map (λ x. (x.input_signal_id, absence_label d x)) (absent_inputs readings d.definition_inputs)
    ++ material_absent readings ds

abbrev pub inapplicable_signals : List RuleEvaluation → List String
inapplicable_signals es = map (λ e. e.signal_id) (with_status not_applicable_status es)

-- `missingMaterialInputs`
unfoldable pub missing_material :
    List (String × SignalReading) → List DimensionDefinition → List RuleEvaluation → List String
unfolding material_absent with_status
missing_material readings ds es =
    map (λ lacking. lacking.1)
      (filter (λ lacking. not (contains (inapplicable_signals es) lacking.0))
        (material_absent readings ds))

abbrev pub not_applicable_control : RuleEvaluation → NotApplicableControl
not_applicable_control e = record {
  inapplicable_rule_id = e.rule_id;
  inapplicable_code =
      or_else e.not_evaluated_reason_code NotEvaluatedReasonCode.lifecycle_not_applicable;
  inapplicable_reason = or_else e.not_evaluated_reason "not applicable";
}

abbrev pub unevaluated_control : RuleEvaluation → UnevaluatedControl
unevaluated_control e = record {
  unevaluated_rule_id = e.rule_id;
  unevaluated_code =
      or_else e.not_evaluated_reason_code NotEvaluatedReasonCode.required_metric_not_computable;
  unevaluated_reason = or_else e.not_evaluated_reason "not computable";
  needed_evidence = or_else e.required_evidence [];
  absent_evidence = or_else e.missing_evidence [];
}

abbrev pub rule_ids : List RuleEvaluation → List String
rule_ids es = map (λ e. e.rule_id) es

-- `ruleCoverage`
unfoldable pub coverage_of : List RuleEvaluation → RuleCoverage
unfolding with_status
coverage_of es = record {
  overrides_declared = length es;
  overrides_applicable = length es - length (with_status not_applicable_status es);
  overrides_not_applicable = length (with_status not_applicable_status es);
  overrides_fired = length (rule_ids (with_status fired_status es));
  overrides_clear = length (with_status clear_status es);
  overrides_not_computable = length (with_status not_computable_status es);
  not_applicable_controls = map not_applicable_control (with_status not_applicable_status es);
  unevaluated_controls = map unevaluated_control (with_status not_computable_status es);
  configuration_error_controls = rule_ids (with_status configuration_error_status es);
  all_applicable_evaluated =
      is_empty (with_status not_computable_status es)
      && is_empty (with_status configuration_error_status es);
}

-- `assessmentStatus`
unfoldable pub assessment_status_of :
    Option Quantity → List MissingDimension → List String → AssessmentStatus
assessment_status_of none missing lacking = status_not_computable
assessment_status_of (some composite) missing lacking =
    if is_empty missing && is_empty lacking then complete else provisional

-- `overrideInDate`
abbrev pub override_in_date : Option RagOverride → Instant → Bool
override_in_date none now = false
override_in_date (some o) now =
    instant_le o.applied_at now && not (instant_le o.override_expires_at now)

-- `overrideInDate ? input.override.rag : systemAssessedRag`
unfoldable pub effective_rag_of : Option RagOverride → Instant → Rag → Rag
effective_rag_of none now assessed = assessed
effective_rag_of (some o) now assessed =
    if override_in_date (some o) now then o.override_rag else assessed

-- `RAG_ORDER[reported] - RAG_ORDER[assessed]`
abbrev pub divergence_of : Rag → Rag → ℤ
divergence_of reported assessed = difference (rag_order reported) (rag_order assessed)

abbrev pub is_positive_int : ℤ → Bool
is_positive_int (pos n) = ltb 0 n
is_positive_int (negsuc n) = false

abbrev pub is_zero_int : ℤ → Bool
is_zero_int (pos n) = nat_eqb n 0
is_zero_int (negsuc n) = false

abbrev pub optimistic_narrative : Rag → Rag → String
optimistic_narrative reported assessed = append_text "Reported " (
    append_text (rag_text reported) (
      append_text " while the evidence supports " (
        append_text (rag_text assessed) (
          append_text ". Nobody is necessarily wrong — the reporting may simply not have caught " (
            append_text "up with the arithmetic — but the gap is the finding, and it is worth "
              "more than either value alone.")))))

abbrev pub pessimistic_narrative : Rag → Rag → String
pessimistic_narrative reported assessed = append_text "Reported " (
    append_text (rag_text reported) (
      append_text " while the evidence supports " (
        append_text (rag_text assessed) (
          append_text ". The team is reporting more conservatively than the evidence requires, "
            "which is worth understanding before it is corrected."))))

-- `statusConflict`
unfoldable pub status_conflict_of : Option Rag → Rag → List String → Option StatusConflict
status_conflict_of none assessed unexplained_ids = none
status_conflict_of (some reported) assessed unexplained_ids =
    if is_zero_int (divergence_of reported assessed)
    then none
    else some (record {
      conflict_reported = reported;
      conflict_assessed = assessed;
      divergence = divergence_of reported assessed;
      direction =
          if is_positive_int (divergence_of reported assessed)
          then reported_optimistic
          else reported_pessimistic;
      conflict_narrative =
          if is_positive_int (divergence_of reported assessed)
          then optimistic_narrative reported assessed
          else pessimistic_narrative reported assessed;
      unexplained_by = unexplained_ids;
    })
