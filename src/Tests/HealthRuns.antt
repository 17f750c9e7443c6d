-- ===== src/Tests/HealthRuns.antt =====
-- The health engine on a project whose cost runs ahead of its progress.
use mathlib.Core.Path.{subst}
use gldaassurance.Explainability.{RecordRef}
use gldaassurance.Base.{
  inl, some, none, [], List, ◌≡◌, false, refl, true, ◌∷◌, ◌+◌, some_inj, String, ◌≢◌, arith, Memᴰ,
  inr, get, All,
}
use gldaassurance.Decimals.{is_decimal_text}
use gldaassurance.Api.Validation.{digits_value}
use gldaassurance.Tests.Data.{noon}
use gldaassurance.Tests.Naturals.{naturals}
use gldaassurance.Rules.Engine.{SignalReading, normalise_to_score, signal_state_of}
use gldaassurance.Health.Statuses.{RagOverride, HealthEvaluation, HealthInput, coverage_of, Rag}
use gldaassurance.Health.Model.{
  DimensionDefinition, HealthModel, dimension_input, supporting, health_model_v1,
  validate_health_model, weight_unset, returned,
}
use gldaassurance.Health.Scoring.{DimensionScore, is_some, score_from, input_score, score_dimension}
use gldaassurance.Health.Assessment.{evaluate_health}
use gldaassurance.Health.Scoring.Scored.{score_dimension-scored_iff, IsReadable, IsNumericDimension}
use gldaassurance.Health.Model.Balance.{validate_health_model-nil_iff}
use gldaassurance.Health.Statuses.Coverage.{coverage_of-partition}
use gldaassurance.Health.Assessment.Explaining.{evaluate_health-returns, evaluate_health-kept_apart}
use gldaassurance.Health.Assessment.Banding.{evaluate_health-status_iff, Fires}
use gldaassurance.Rules.Overrides.{override_burn_mismatch, hard_override_rules}
use gldaassurance.Rules.Explained.{IsBacked}

abbrev cost_record : RecordRef
cost_record = record {
  context = "financial";
  entity_type = "CostEntry";
  entity_id = "c-1";
  metric_id = none;
}

abbrev burning : SignalReading
burning = record {
  signal_id = "BURN_GAP";
  value = some "30";
  trend = none;
  evidence = cost_record ∷ [];
  estimated_impact = none;
  not_computable_reason = none;
  is_unbounded = false;
  state = none;
  state_reason_code = none;
}

abbrev burn_dimension : DimensionDefinition
burn_dimension = record {
  definition_id = "FINANCIAL";
  definition_name = "Financial Health";
  definition_metric_id = "MET-HLTH-021";
  definition_weight = some "1";
  definition_inputs =
      dimension_input "MET-FIN-027" "BURN_GAP" "1" "2" "40" false true supporting ∷ [];
}

abbrev burn_model : HealthModel
burn_model = record {
  model_version = "HEALTH-v9";
  model_name = "one dimension";
  effective_from = "2026-08-31";
  composite_metric_id = "MET-HLTH-020";
  dimensions = burn_dimension ∷ [];
  is_default = false;
  rationale = "a run";
  model_blocked_by = none;
}

abbrev burn_readings : List (String × SignalReading)
burn_readings = ("BURN_GAP", burning) ∷ []

abbrev green_until_noon : RagOverride
green_until_noon = record {
  override_rag = Rag.green;
  override_reason = "agreed";
  override_actor_id = "u-1";
  applied_at = noon;
  override_expires_at = noon;
}

abbrev burning_project : HealthInput
burning_project = record {
  applicability_context = none;
  declared_signals = none;
  assessed_project_id = "prj-001";
  assessed_week = "2026-W30";
  assessed_at = noon;
  model = burn_model;
  catalog_version = "1";
  readings = burn_readings;
  reported_rag = some Rag.green;
  manual_override = none;
  input_evidence = cost_record ∷ [];
  write_instant = λ t. "2026-07-23T12:00:00Z";
}

burn_readings-IsReadable : IsReadable burn_readings
unfolding is_decimal_text
burn_readings-IsReadable =
    (λ value e. subst (λ v. is_decimal_text v ≡ true) (some_inj "30" value e) refl, tt)

burn_readings-IsBacked : IsBacked burn_readings
burn_readings-IsBacked = ((λ e. cc), tt)

burn_model-IsNumeric : All IsNumericDimension burn_model.dimensions
unfolding is_decimal_text
burn_model-IsNumeric = ((((refl, refl, refl), tt), refl), tt)

all_numbers : (t : String) → is_decimal_text t ≡ true → naturals.is_number t ≡ true
all_numbers t h = refl

cost_given : burning_project.input_evidence ≢ []
cost_given e = cc

evaluate_health-returns_example :
    (e : HealthEvaluation) × (evaluate_health naturals burning_project ≡ returned e)
evaluate_health-returns_example =
    evaluate_health-returns naturals burning_project burn_readings-IsReadable burn_readings-IsBacked
      cost_given burn_model-IsNumeric all_numbers

abbrev burning_evaluation : HealthEvaluation
burning_evaluation =
    (evaluate_health-returns naturals burning_project burn_readings-IsReadable
      burn_readings-IsBacked cost_given burn_model-IsNumeric all_numbers).0

burning_returned : evaluate_health naturals burning_project ≡ returned burning_evaluation
burning_returned =
    (evaluate_health-returns naturals burning_project burn_readings-IsReadable
      burn_readings-IsBacked cost_given burn_model-IsNumeric all_numbers).1

burn_override-Fires : Fires naturals burning_project override_burn_mismatch
unfolding digits_value get
burn_override-Fires = (
  λ applies ctx e f. cc,
  λ signals e. absurd (cc),
  inl (λ e. cc),
  inr (refl, "30", refl, λ e. cc),
)

burn_rule_listed : Memᴰ override_burn_mismatch (hard_override_rules naturals)
unfolding hard_override_rules
burn_rule_listed = Memᴰ.tail (Memᴰ.tail (Memᴰ.tail (Memᴰ.tail (Memᴰ.tail (Memᴰ.head refl)))))

evaluate_health-status_iff_example : burning_evaluation.system_assessed_rag ≡ Rag.red
evaluate_health-status_iff_example =
    (evaluate_health-status_iff naturals burning_project burning_evaluation burning_returned).1.1
      (inl (override_burn_mismatch, burn_rule_listed, burn_override-Fires))

evaluate_health-kept_apart_example :
    (e : HealthEvaluation) × (evaluate_health naturals
        (record burning_project { reported_rag = none; manual_override = some green_until_noon })
      ≡ returned e)
evaluate_health-kept_apart_example =
    let result =
      evaluate_health-kept_apart naturals burning_project burning_evaluation none
        (some green_until_noon) burning_returned in
    (result.0, result.1)

abbrev burn_score : DimensionScore
unfolding score_from
burn_score = score_from naturals burn_dimension (
    input_score naturals
      (dimension_input "MET-FIN-027" "BURN_GAP" "1" "2" "40" false true supporting) (some burning)
      (some (normalise_to_score naturals "30" "2" "40" false))
    ∷ [])

burn_dimension_scored : score_dimension naturals burn_dimension burn_readings ≡ returned burn_score
unfolding score_dimension burn_score is_decimal_text signal_state_of digits_value
burn_dimension_scored = refl

score_dimension-scored_iff_example : is_some burn_score.score ≡ true
unfolding burn_score digits_value
score_dimension-scored_iff_example =
    (score_dimension-scored_iff naturals burn_dimension burn_readings burn_score
        burn_dimension_scored).0.1
      ((λ _. refl, tt), (omega arith, omega arith), refl)

coverage_of-partition_example :
    (coverage_of []).overrides_applicable + (coverage_of []).overrides_not_applicable
    ≡ (coverage_of []).overrides_declared
coverage_of-partition_example = (coverage_of-partition []).0

validate_health_model-nil_iff_example : validate_health_model naturals burn_model ≡ returned []
unfolding is_decimal_text digits_value
validate_health_model-nil_iff_example = (validate_health_model-nil_iff naturals burn_model).1 (
    inr (
      (λ e. cc, tt),
      (refl, (refl, (refl, (refl, tt)))),
      refl,
      (inr (refl, (inr (refl, refl), tt)), tt),
    ))

blocked_model : validate_health_model naturals health_model_v1 ≡ returned []
unfolding validate_health_model
blocked_model = refl

unset_model :
    validate_health_model naturals (record health_model_v1 { model_blocked_by = none })
    ≡ returned (weight_unset ∷ [])
unfolding validate_health_model
unset_model = refl
