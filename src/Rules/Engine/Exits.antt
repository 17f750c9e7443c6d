-- ===== src/Rules/Engine/Exits.antt =====
-- engine.ts: what holds of an evaluation whichever way evaluateRule returned it.
use gldaassurance.Explainability.{
  fired_status, RuleEvaluation, is_unevaluated, RuleEvaluationStatus, clear_status,
}
use gldaassurance.Base.{
  some, not, Bool-cases, ◌≡◌, refl, Option, true, Bool, Option-cases, inl, arith, List, none,
  String, inr, false,
}
use gldaassurance.Decimals.{DecimalJs}
use gldaassurance.Rules.Engine.{
  unmeasured, unbounded_evaluation, is_undeclared, measured, refusal_of, evaluate_rule,
  is_undecided, ApplicabilityVerdict, evaluate_reading, RuleApplicabilityContext, misconfigured,
  SignalReading, inapplicable, ThresholdRule, undecided,
}
use gldaassurance.Rules.Engine.Outcomes.{
  evaluate_inapplicable, evaluate_undecided, evaluate_decided, evaluate_undeclared,
}

-- The status says whether the rule fired, and a reason is given exactly where the rule was not
-- evaluated.
abbrev pub is_fired_status : RuleEvaluationStatus → Bool
is_fired_status fired_status = true
is_fired_status _ = false

abbrev pub is_verdict : RuleEvaluationStatus → Bool
is_verdict fired_status = true
is_verdict clear_status = true
is_verdict _ = false

abbrev AgreesWithStatus : RuleEvaluation → Type 0
AgreesWithStatus e =
    (is_fired_status e.status ≡ e.fired) × (is_unevaluated e ≡ not (is_verdict e.status))

module _ (J : DecimalJs) (rule : ThresholdRule) where
  -- A property of the readings' exits holds of what they return.
  pub evaluate_reading_cases :
      (P : RuleEvaluation → Type 0) (reading : Option SignalReading)
      → P (unmeasured rule reading)
      → ((r : SignalReading) → reading ≡ some r → P (unbounded_evaluation rule r))
      → ((r : SignalReading) (value : String) → reading ≡ some r → P (measured J rule r value))
      → P (evaluate_reading J rule reading)
  unfolding evaluate_reading unbounded_evaluation
  evaluate_reading_cases P none missing endless given = missing
  evaluate_reading_cases P (some r) missing endless given = elim (Bool-cases r.is_unbounded) [
    | inl e ↦ rw (e, evaluate_reading) (endless r refl)
    | inr e ↦ elim (Option-cases r.value) [
      | inl f ↦ rw (e, f, evaluate_reading) missing
      | inr (value, f) ↦ rw (e, f, evaluate_reading) (given r value refl)
    ]
  ]

  module _ (reading : Option SignalReading) (context : Option RuleApplicabilityContext)
      (declared : Option (List String)) where
    pub evaluate_rule_cases :
        (P : RuleEvaluation → Type 0)
        → ((verdict : ApplicabilityVerdict) → P (inapplicable rule reading verdict))
        → P (misconfigured rule)
        → P (undecided rule reading)
        → P (evaluate_reading J rule reading)
        → P (evaluate_rule J rule reading context declared)
    evaluate_rule_cases P a b c d = elim (Option-cases (refusal_of rule context)) [
      | inr (verdict, e) ↦
          rw (evaluate_inapplicable J rule reading context declared verdict e) (a verdict)
      | inl e ↦ elim (Bool-cases (is_undeclared rule declared)) [
        | inl f ↦ rw (evaluate_undeclared J rule reading context declared e f) b
        | inr f ↦ elim (Bool-cases (is_undecided rule)) [
          | inl g ↦ rw (evaluate_undecided J rule reading context declared e f g) c
          | inr g ↦ rw (evaluate_decided J rule reading context declared e f g) d
        ]
      ]
    ]

    pub evaluate_rule-rule_id : (evaluate_rule J rule reading context declared).rule_id ≡ rule.id
    unfolding inapplicable misconfigured undecided unmeasured unbounded_evaluation measured
    evaluate_rule-rule_id =
        evaluate_rule_cases (λ e. e.rule_id ≡ rule.id) (λ _. refl) refl refl
          (evaluate_reading_cases (λ e. e.rule_id ≡ rule.id) reading refl (λ _ _. refl)
            (λ _ _ _. refl))

    -- Whatever the evaluation is, its status is FIRED exactly where it says that it fired, and a
    -- reason for not being evaluated is given exactly where the status is neither FIRED nor CLEAR.
    pub evaluate_rule-status :
        (is_fired_status (evaluate_rule J rule reading context declared).status
          ≡ (evaluate_rule J rule reading context declared).fired)
        × (is_unevaluated (evaluate_rule J rule reading context declared)
            ≡ not (is_verdict (evaluate_rule J rule reading context declared).status))
    unfolding inapplicable misconfigured undecided unmeasured unbounded_evaluation measured
    evaluate_rule-status =
        evaluate_rule_cases AgreesWithStatus (λ _. (refl, refl)) (refl, refl) (refl, refl)
          (evaluate_reading_cases AgreesWithStatus reading (refl, refl) (λ r _. ground arith)
            (λ r value _. ground arith))
