-- ===== src/Health/Assessment.antt =====
-- src/contexts/health/internal/health-engine.ts: `evaluateHealth`, in the order of its sections:
-- dimensions, rules, band, and the three statuses that are kept apart.
pub mod Banding
pub mod Explaining
use mathlib.Core.Option
use gldaassurance.Health.Scoring.{DimensionScore, score_dimension, join_with, is_some}
use gldaassurance.Explainability.{
  fired_without_evidence, Comparison, looked_at_nothing, explain, RuleEvaluation, clear_status,
  present, in_band, fired_status, explained, ExplainArgs, Explanation,
}
use gldaassurance.Base.{
  Option, none, filter, append_text, [], not, ◌+◌, length, false, map, or_else, some, List,
  nat_text, ◌&&◌, String, ltb, ◌||◌, is_empty, ◌∷◌, if◌then◌else◌, ℤ, ◌++◌, pos, negsuc,
}
use gldaassurance.Decimals.{q_zero, Quantity, q_div, q_mul, q_fixed, q_ge, DecimalJs}
use gldaassurance.Rules.Overrides.{
  amber_floor, health_rule_version, elevation_rules, band_rule_set, green_floor,
  hard_override_rules,
}
use gldaassurance.Rules.Engine.{SignalReading, ThresholdRule, evaluate_rules, evaluate_rules_result}
use gldaassurance.Health.Statuses.{
  rule_ids, coverage_of, with_status, missing_of, HealthInput, divergence_of, is_positive_int,
  is_green, missing_material, Rag, RagOverride, rag_text, effective_rag_of, is_scored,
  HealthEvaluation, status_conflict_of, StatusConflict, override_in_date, is_red_rag,
  assessment_status_of, MissingDimension,
}
use gldaassurance.Health.Model.{
  ◌>>=◌, DimensionDefinition, model_total, HealthModel, sum_weights, read_quantities, Fallible,
  weight_or_zero, unexplained, no_number, threw, returned,
}

-- `compositeBand`, and the band of a composite when no override fired.
abbrev pub band_at : DecimalJs → Quantity → Rag
band_at J composite =
    if q_ge J composite green_floor
    then Rag.green
    else if q_ge J composite amber_floor
    then Rag.amber
    else Rag.red

unfoldable pub composite_band_of : DecimalJs → Option Quantity → Option Rag
composite_band_of J none = none
composite_band_of J (some composite) = some (band_at J composite)

-- `systemAssessedRag`, from the ids of the overrides and of the elevations that fired.
unfoldable pub assessed_rag : DecimalJs → List String → List String → Option Quantity → Rag
assessed_rag J (o ∷ overrides) elevations composite = Rag.red
assessed_rag J [] elevations none = Rag.amber
assessed_rag J [] elevations (some composite) =
    if is_green (band_at J composite) && not (is_empty elevations)
    then Rag.amber
    else band_at J composite

abbrev pub band_text : Option Rag → String
band_text none = "NOT COMPUTABLE"
band_text (some band) = rag_text band

abbrev pub banded_narrative : Quantity → String
banded_narrative composite = append_text "Composite " (
    append_text composite (
      append_text " banded against the HEALTH-v2 thresholds (Green ≥ "
        (append_text green_floor (append_text ", Amber ≥ " (append_text amber_floor ").")))))

abbrev pub forced_narrative : List String → Option Rag → String
forced_narrative overrides band = append_text "Red is forced by " (
    append_text (nat_text (length overrides)) (
      append_text " hard override" (
        append_text (if ltb 1 (length overrides) then "s" else "") (
          append_text " (" (
            append_text (join_with ", " overrides) (
              append_text "), regardless of the composite score. An override exists precisely " (
                append_text "because a weighted average can absorb a catastrophe in one " (
                  append_text "dimension. The weighted composite alone would have banded this " (
                    append_text "project " (
                      append_text (band_text band) (
                        append_text " — the Red above is a policy decision, not the model's "
                          "arithmetic.")))))))))))

-- `bandNarrative`
unfoldable pub band_narrative : DecimalJs → List String → List String → Option Quantity → String
unfolding nat_text join_with composite_band_of
band_narrative J (o ∷ overrides) elevations composite =
    forced_narrative (o ∷ overrides) (composite_band_of J composite)
band_narrative J [] elevations none =
    append_text "The composite could not be computed, so no band could be derived from it. Amber " (
      append_text "is reported rather than Green: an unassessable project is not a healthy " "one.")
band_narrative J [] elevations (some composite) =
    if is_green (band_at J composite) && not (is_empty elevations)
    then append_text (banded_narrative composite) (
        append_text " Elevated to Amber by " (
          append_text (join_with ", " elevations) (
            append_text ": the composite is in the Green band but a warning condition is "
              "live.")))
    else banded_narrative composite

-- `bandEvaluation`
unfoldable pub band_evaluation : HealthInput → Option Quantity → Rag → String → RuleEvaluation
band_evaluation input composite assessed said = record {
  status = if is_green assessed then clear_status else fired_status;
  not_evaluated_reason_code = none;
  required_evidence = none;
  missing_evidence = none;
  rule_id = "BAND-COMPOSITE";
  rule_name = "Composite banding";
  rule_set_id = band_rule_set;
  rule_version = health_rule_version;
  signal_id = "COMPOSITE_HEALTH_SCORE";
  signal_metric_id = some input.model.composite_metric_id;
  observed_value = composite;
  comparison = Comparison.in_band;
  threshold_value =
      some
        (append_text "Green ≥ " (append_text green_floor (append_text ", Amber ≥ " amber_floor)));
  not_evaluated_reason = none;
  fired = not (is_green assessed);
  trend = none;
  estimated_impact = none;
  contribution = append_text "System-Assessed RAG = " (rag_text assessed);
  narrative = said;
  evidence = input.input_evidence;
}

abbrev pub held_narrative : HealthInput → Option RagOverride → Rag → String
held_narrative input none assessed = ""
held_narrative input (some o) assessed = append_text "An authorised override by " (
    append_text o.override_actor_id (
      append_text " holds this at " (
        append_text (rag_text o.override_rag) (
          append_text " until " (
            append_text (input.write_instant o.override_expires_at) (
              append_text ": \"" (
                append_text o.override_reason (
                  append_text "\". The system assessment of " (
                    append_text (rag_text assessed)
                      " is unchanged and remains visible beneath it.")))))))))

-- `overrideEvaluation`
unfoldable pub override_evaluation : HealthInput → Rag → RuleEvaluation
unfolding effective_rag_of
override_evaluation input assessed =
    let in_date = override_in_date input.manual_override input.assessed_at in
    record {
      status = if in_date then fired_status else clear_status;
      not_evaluated_reason_code = none;
      required_evidence = none;
      missing_evidence = none;
      rule_id = "RAG-OVERRIDE";
      rule_name = "Authorised manual override";
      rule_set_id = band_rule_set;
      rule_version = health_rule_version;
      signal_id = "MANUAL_OVERRIDE";
      signal_metric_id = some "MET-HLTH-013";
      observed_value =
          Option.map (λ (o : RagOverride). rag_text o.override_rag) input.manual_override;
      comparison = Comparison.present;
      threshold_value = none;
      not_evaluated_reason = none;
      fired = in_date;
      trend = none;
      estimated_impact = none;
      contribution =
          if in_date
          then append_text "Effective RAG = " (
              append_text
                (rag_text (effective_rag_of input.manual_override input.assessed_at assessed))
                " (override)")
          else "none — no in-date override";
      narrative =
          if in_date
          then held_narrative input input.manual_override assessed
          else append_text "No in-date authorised override. The effective status is the system "
              "assessment.";
      evidence =
          if in_date
          then record {
            context = "health";
            entity_type = "RagOverride";
            entity_id = input.assessed_project_id;
            metric_id = none;
          }
            ∷ []
          else input.input_evidence;
    }

abbrev pub int_text : ℤ → String
int_text (pos n) = nat_text n
int_text (negsuc n) = append_text "-" (nat_text (n + 1))

-- `outcomeDetail`
abbrev pub conflict_detail : StatusConflict → String
conflict_detail c = append_text "Reported " (
    append_text (rag_text c.conflict_reported) (
      append_text "; divergence "
        (append_text (if is_positive_int c.divergence then "+" else "") (int_text c.divergence))))

-- The evaluations that are explained together.
abbrev pub explained_evaluations :
    HealthInput
    → List RuleEvaluation
    → List RuleEvaluation
    → Option Quantity
    → Rag
    → String
    → List RuleEvaluation
explained_evaluations input overrides elevations composite assessed said =
    overrides
    ++ (elevations
        ++ (band_evaluation input composite assessed said
            ∷ override_evaluation input assessed
            ∷ []))

-- The ids of the overrides and of the elevations that fired.
abbrev pub fired_in : List RuleEvaluation → List String
fired_in overrides = rule_ids (with_status fired_status overrides)

abbrev pub elevated_in : List RuleEvaluation → List String
elevated_in elevations = rule_ids (filter (λ e. e.fired) elevations)

module _ (J : DecimalJs) where
  unfoldable pub score_dimensions :
      List DimensionDefinition → List (String × SignalReading) → Fallible (List DimensionScore)
  unfolding score_dimension
  score_dimensions [] readings = returned []
  score_dimensions (d ∷ ds) readings = do
    s ← score_dimension J d readings
    rest ← score_dimensions ds readings
    returned (s ∷ rest)

  abbrev pub weight_of_scores : List DimensionScore → Quantity
  weight_of_scores scored = sum_weights J (map (λ d. d.dimension_weight) scored)

  abbrev pub weighted_scores : List DimensionScore → Quantity
  weighted_scores scored =
      sum_weights J (map (λ d. q_mul J (or_else d.score q_zero) d.dimension_weight) scored)

  -- `compositeScore`, from the dimensions that have a score.
  unfoldable pub composite_of : HealthModel → List DimensionScore → Option Quantity
  composite_of m scored =
      if is_empty scored || is_some m.model_blocked_by
      then none
      else Option.map (λ c. q_fixed J c 2)
          (q_div J (weighted_scores scored) (weight_of_scores scored))

  abbrev pub composite_in : HealthInput → List DimensionScore → Option Quantity
  composite_in input scores = composite_of input.model (filter is_scored scores)

  -- From here on the dimensions are scored and the rules are evaluated.
  module _ (input : HealthInput) (scores : List DimensionScore)
      (overrides elevations : List RuleEvaluation) where
    abbrev pub assessed_in : Rag
    assessed_in =
        assessed_rag J (fired_in overrides) (elevated_in elevations) (composite_in input scores)

    abbrev pub conflict_in_health : Option StatusConflict
    conflict_in_health =
        status_conflict_of input.reported_rag assessed_in
          (fired_in overrides ++ elevated_in elevations)

    -- What is handed to `explain`.
    abbrev pub health_args : ExplainArgs
    health_args = record {
      outcome = append_text "System-Assessed RAG = " (rag_text assessed_in);
      outcome_detail = Option.map conflict_detail conflict_in_health;
      evaluated_at = input.assessed_at;
      rule_set_version = health_rule_version;
      metric_catalog_version = input.catalog_version;
      health_model_version = some input.model.model_version;
      evaluations =
          explained_evaluations input overrides elevations (composite_in input scores) assessed_in (
            band_narrative J (fired_in overrides) (elevated_in elevations)
              (composite_in input scores));
    }

    abbrev pub missing_in : List MissingDimension
    missing_in = map missing_of (filter (λ d. not (is_scored d)) scores)

    abbrev pub absent_in : List String
    absent_in = missing_material input.readings input.model.dimensions (overrides ++ elevations)

    -- What is returned with the explanation.
    abbrev pub health_with : Explanation → HealthEvaluation
    health_with explanation =
        let scored = filter is_scored scores in
        let composite = composite_in input scores in
        let total = model_total J input.model in
        record {
          evaluated_project_id = input.assessed_project_id;
          evaluated_week = input.assessed_week;
          evaluated_instant = input.assessed_at;
          evaluated_model_version = input.model.model_version;
          composite_score = composite;
          dimension_scores = scores;
          declared_rag = input.reported_rag;
          system_assessed_rag = assessed_in;
          effective_rag = effective_rag_of input.manual_override input.assessed_at assessed_in;
          override_applied = override_in_date input.manual_override input.assessed_at;
          status_divergence =
              Option.map (λ reported. divergence_of reported assessed_in) input.reported_rag;
          status_conflict = conflict_in_health;
          fired_overrides = fired_in overrides;
          rule_coverage = coverage_of overrides;
          composite_band = composite_band_of J composite;
          override_changed_band =
              not (is_empty (fired_in overrides))
              && not (elim (composite_band_of J composite) [
                | none ↦ false
                | some band ↦ is_red_rag band
              ]);
          assessment_status = assessment_status_of composite missing_in absent_in;
          dimension_coverage =
              Option.map (λ c. q_fixed J c 4) (q_div J (weight_of_scores scored) total);
          available_weight = q_fixed J (weight_of_scores scored) 4;
          declared_weight = q_fixed J total 4;
          missing_dimensions = missing_in;
          missing_material_inputs = absent_in;
          health_explanation = explanation;
        }

    -- The explanation and the return; `explain` may throw.
    unfoldable pub health_of : Fallible HealthEvaluation
    unfolding composite_of composite_band_of assessed_rag band_narrative band_evaluation
        override_evaluation coverage_of missing_material status_conflict_of effective_rag_of
        assessment_status_of explain
    health_of = elim (explain health_args) [
      | explained explanation ↦ returned (health_with explanation)
      | looked_at_nothing ↦ threw (unexplained looked_at_nothing)
      | fired_without_evidence id ↦ threw (unexplained (fired_without_evidence id))
    ]

  abbrev pub rules_on : HealthInput → List ThresholdRule → List RuleEvaluation
  rules_on input rules =
      evaluate_rules J rules input.readings input.applicability_context input.declared_signals

  -- The evaluations of a table, or what is thrown.
  abbrev pub run_rules : HealthInput → List ThresholdRule → Fallible (List RuleEvaluation)
  run_rules input rules =
      elim (evaluate_rules_result J rules input.readings input.applicability_context
        input.declared_signals) [ none ↦ threw no_number | some evaluated ↦ returned evaluated ]

  -- `evaluateHealth`
  unfoldable pub evaluate_health : HealthInput → Fallible HealthEvaluation
  unfolding score_dimensions health_of evaluate_rules_result hard_override_rules elevation_rules
      read_quantities
  evaluate_health input = do
    scores ← score_dimensions input.model.dimensions input.readings
    weights ← read_quantities (map weight_or_zero input.model.dimensions)
    overrides ← run_rules input (hard_override_rules J)
    elevations ← run_rules input elevation_rules
    health_of input scores overrides elevations
