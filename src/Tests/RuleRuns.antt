-- ===== src/Tests/RuleRuns.antt =====
-- The rule engine on a rule about a margin.
use mathlib.Core.Path.{subst}
use gldaassurance.Explainability.{ExplainArgs, Comparison, RecordRef, RuleEvaluation}
use gldaassurance.Base.{
  Memᴰ, String, none, ◌∷◌, false, [], List, refl, inr, some, ◌≡◌, inl, true, some_inj,
}
use gldaassurance.Api.Validation.{digits_value}
use gldaassurance.Tests.Data.{noon}
use gldaassurance.Tests.Naturals.{naturals}
use gldaassurance.Rules.Engine.{
  evaluate_rule, warning, ThresholdRule, SignalReading, evaluate_rules, evaluate_rules_result,
}
use gldaassurance.Rules.Explained.{evaluate_rules-explained}
use gldaassurance.Rules.Engine.Outcomes.{evaluate_rule-fired_iff}

abbrev margin_record : RecordRef
margin_record = record {
  context = "financial";
  entity_type = "Forecast";
  entity_id = "f-1";
  metric_id = none;
}

abbrev margin_rule : ThresholdRule
margin_rule = record {
  id = "R-1";
  name = "Margin";
  rule_set_id = "HEALTH";
  rule_version = "HEALTH-v1";
  signal_id = "margin";
  signal_metric_id = none;
  comparison = Comparison.lt;
  threshold = some "10";
  severity = warning;
  narrative_when_fired = "low";
  narrative_when_clear = "fine";
  effect = "amber";
  blocked_by = none;
  applicability = none;
  required_evidence = none;
}

abbrev low_margin : SignalReading
low_margin = record {
  signal_id = "margin";
  value = some "7";
  trend = none;
  evidence = margin_record ∷ [];
  estimated_impact = none;
  not_computable_reason = none;
  is_unbounded = false;
  state = none;
  state_reason_code = none;
}

abbrev margin_readings : List (String × SignalReading)
margin_readings = ("margin", low_margin) ∷ []

evaluate_rule-fired_iff_example :
    (evaluate_rule naturals margin_rule (some low_margin) none (some ("margin" ∷ []))).fired ≡ true
unfolding digits_value
evaluate_rule-fired_iff_example =
    (evaluate_rule-fired_iff naturals margin_rule (some low_margin) none (some ("margin" ∷ []))).1 (
      λ applies ctx e f. cc,
      λ signals e. subst (Memᴰ "margin") (some_inj ("margin" ∷ []) signals e) (Memᴰ.head refl),
      inl (λ e. cc),
      inr (refl, "7", refl, refl),
    )

abbrev margin_args : ExplainArgs
unfolding evaluate_rules
margin_args = record {
  outcome = "AMBER";
  outcome_detail = none;
  evaluated_at = noon;
  rule_set_version = "HEALTH-v1";
  metric_catalog_version = "1";
  health_model_version = none;
  evaluations = evaluate_rules naturals (margin_rule ∷ []) margin_readings none none;
}

evaluate_rules-explained_example :
    (evaluated : List RuleEvaluation) × (evaluate_rules_result naturals
        (margin_rule ∷ [])
        margin_readings
        none
        none
      ≡ some evaluated)
evaluate_rules-explained_example =
    let result =
      evaluate_rules-explained naturals margin_readings none none (margin_rule ∷ []) margin_args
        (λ e. cc) ((λ e. cc), tt) ((λ value e. (refl, refl), tt), (λ t e. refl, tt)) in
    (result.0, result.1)
