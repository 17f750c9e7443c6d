-- ===== src/Rules/Engine.antt =====
-- src/contexts/rules/internal/engine.ts. The arithmetic of decimals is a parameter; a reading's
-- value is a text that the library can read.
pub mod Outcomes
pub mod Exits
use Prim.Native.Char.{code}
use gldaassurance.Explainability.{
  present, fired_status, not_computable, Comparison, SignalState, not_applicable_status,
  RuleEvaluation, signal_builder_missing, eq, Impact, lt, required_metric_not_computable,
  SignalDirection, neq, clear_status, configuration_error_status, threshold_undecided, observed,
  lte, gte, NotEvaluatedReasonCode, gt, unbounded, in_band, RecordRef, not_computable_status,
}
use gldaassurance.Base.{
  String, if◌then◌else◌, some, Option, true, append_text, Bool, not, List, none, Ordering, contains,
  nat_eqb, map, false, ◌∷◌, ℕ, ◌==◌, get, ℤ, [], string_eq, or_else, is_tie, all,
}
use gldaassurance.Decimals.{
  q_ge, q_le, q_normalise_score, q_lt, DecimalJs, q_compare, q_gt, Quantity,
}

pub record RuleApplicabilityContext : Type 0 where
  pub physical_completion : Option Quantity
  pub days_to_baseline_completion : Option ℤ
  pub elapsed_delivery_weeks : Option ℕ
  pub velocity_window_weeks : ℕ
  pub contract_type : String
  pub lifecycle_stage : String

pub record ApplicabilityVerdict : Type 0 where
  pub applicable : Bool
  pub reason_code : Option NotEvaluatedReasonCode
  pub reason_text : Option String

pub data RuleSeverity : Type 0 where
  override warning informational : RuleSeverity

pub record ThresholdRule : Type 0 where
  pub id : String
  pub name : String
  pub rule_set_id : String
  pub rule_version : String
  pub signal_id : String
  pub signal_metric_id : Option String
  pub comparison : Comparison
  pub threshold : Option String
  pub severity : RuleSeverity
  pub narrative_when_fired : String
  pub narrative_when_clear : String
  pub effect : String
  pub blocked_by : Option String
  pub applicability : Option (RuleApplicabilityContext → ApplicabilityVerdict)
  pub required_evidence : Option (List String)

-- `is_unbounded` reads `adverseState === 'UNBOUNDED'`.
pub record SignalReading : Type 0 where
  pub signal_id : String
  pub value : Option String
  pub trend : Option SignalDirection
  pub evidence : List RecordRef
  pub estimated_impact : Option Impact
  pub not_computable_reason : Option String
  pub is_unbounded : Bool
  pub state : Option SignalState
  pub state_reason_code : Option NotEvaluatedReasonCode

-- `signalStateOf`
unfoldable pub signal_state_of : Option SignalReading → SignalState
signal_state_of none = not_computable
signal_state_of (some r) = elim r.state [
  | some state ↦ state
  | none ↦
      if r.is_unbounded
      then unbounded
      else elim r.value [ none ↦ not_computable | some _ ↦ observed ]
]

-- `observed.startsWith('-') ? observed.slice(1) : observed`
unfoldable pub without_minus : String → String
without_minus String.[] = String.[]
without_minus (String.◌∷◌ c s) = if nat_eqb (code c) b'-' then s else String.◌∷◌ c s

-- The `base` of `evaluateRule`, with nothing said about the evaluation yet.
abbrev pub base_of : ThresholdRule → RuleEvaluation
base_of rule = record {
  status = clear_status;
  not_evaluated_reason_code = none;
  required_evidence = rule.required_evidence;
  missing_evidence = none;
  rule_id = rule.id;
  rule_name = rule.name;
  rule_set_id = rule.rule_set_id;
  rule_version = rule.rule_version;
  signal_id = rule.signal_id;
  signal_metric_id = rule.signal_metric_id;
  observed_value = none;
  comparison = rule.comparison;
  threshold_value = rule.threshold;
  not_evaluated_reason = none;
  fired = false;
  trend = none;
  estimated_impact = none;
  contribution = "";
  narrative = "";
  evidence = [];
}

-- `reading?.value ?? null`, `reading?.evidence ?? []`
abbrev pub value_of : Option SignalReading → Option String
value_of none = none
value_of (some r) = r.value

abbrev pub evidence_of : Option SignalReading → List RecordRef
evidence_of none = []
evidence_of (some r) = r.evidence

abbrev pub quoted : ThresholdRule → String → String
quoted rule rest = append_text "\"" (append_text rule.name (append_text "\"" rest))

-- The verdict by which a rule does not apply, if there is one.
unfoldable pub refusal_of :
    ThresholdRule → Option RuleApplicabilityContext → Option ApplicabilityVerdict
refusal_of rule context = elim rule.applicability [
  | none ↦ none
  | some applies ↦ elim context [
    | none ↦ none
    | some ctx ↦ if (applies ctx).applicable then none else some (applies ctx)
  ]
]

unfoldable pub inapplicable :
    ThresholdRule → Option SignalReading → ApplicabilityVerdict → RuleEvaluation
inapplicable rule reading verdict = record (base_of rule) {
  status = not_applicable_status;
  observed_value = value_of reading;
  not_evaluated_reason_code = verdict.reason_code;
  not_evaluated_reason = some (
      or_else verdict.reason_text
        "the rule does not apply to this project under its governed applicability conditions");
  contribution = "none — rule not applicable";
  narrative = quoted rule (
      append_text " does not apply to this project. " (
        append_text (or_else verdict.reason_text "") (
          append_text " This is **not** missing evidence and is **not** a finding "
            "about delivery: the condition the rule tests cannot arise here.")));
  evidence = evidence_of reading;
}

-- `declaredSignals !== undefined && !declaredSignals.has(rule.signalId)`
unfoldable pub is_undeclared : ThresholdRule → Option (List String) → Bool
is_undeclared rule none = false
is_undeclared rule (some declared) = not (contains declared rule.signal_id)

unfoldable pub misconfigured : ThresholdRule → RuleEvaluation
misconfigured rule = record (base_of rule) {
  status = configuration_error_status;
  not_evaluated_reason_code = some signal_builder_missing;
  not_evaluated_reason = some (
      append_text "no registered builder produces "
        (append_text rule.signal_id ", so this control cannot run anywhere"));
  missing_evidence = some (rule.signal_id ∷ []);
  contribution = "none — control not operational";
  narrative = quoted rule (
      append_text " could not run because no builder produces " (
        append_text rule.signal_id (
          append_text ". This is a **system control defect, not a project finding** — the control "
            "is not operational and its silence says nothing about this project.")));
}

abbrev pub is_present_test : Comparison → Bool
is_present_test Comparison.present = true
is_present_test _ = false

-- `rule.threshold === undefined && rule.comparison !== 'PRESENT'`
unfoldable pub is_undecided : ThresholdRule → Bool
is_undecided rule = elim rule.threshold [
  | some _ ↦ false
  | none ↦ not (is_present_test rule.comparison)
]

unfoldable pub undecided : ThresholdRule → Option SignalReading → RuleEvaluation
undecided rule reading = record (base_of rule) {
  status = not_computable_status;
  not_evaluated_reason_code = some threshold_undecided;
  observed_value = value_of reading;
  not_evaluated_reason = some (elim rule.blocked_by [
    | none ↦ "threshold undecided; the rule exists but has no configured value"
    | some blocker ↦
        if blocker == ""
        then "threshold undecided; the rule exists but has no configured value"
        else append_text "threshold undecided — " blocker
  ]);
  contribution = "none — rule not evaluated";
  narrative = quoted rule (
      append_text " could not be evaluated because its threshold has not been set. The rule is "
        "declared and will apply as soon as a value is configured; it is not silently off.");
  evidence = evidence_of reading;
}

abbrev pub is_upper_bound : Comparison → Bool
is_upper_bound Comparison.gte = true
is_upper_bound Comparison.gt = true
is_upper_bound _ = false

unfoldable pub unbounded_evaluation : ThresholdRule → SignalReading → RuleEvaluation
unbounded_evaluation rule reading =
    let upper = is_upper_bound rule.comparison in
    record (base_of rule) {
      status = if upper then fired_status else clear_status;
      observed_value = some "UNBOUNDED";
      fired = upper;
      contribution = if upper then rule.effect else "none — the comparison is not an upper bound";
      narrative =
          if upper
          then append_text rule.narrative_when_fired (
              append_text " **The observed value is unbounded**: " (
                append_text
                  (or_else reading.not_computable_reason "the denominator is an observed zero")
                  (append_text ". That exceeds the " (
                    append_text (or_else rule.threshold "undefined")
                      " threshold by more than any finite value could."))))
          else rule.narrative_when_clear;
      evidence = reading.evidence;
    }

abbrev pub why_missing : Option SignalReading → String
why_missing none = "signal not supplied"
why_missing (some r) = or_else r.not_computable_reason "signal not supplied"

unfoldable pub unmeasured : ThresholdRule → Option SignalReading → RuleEvaluation
unmeasured rule reading = record (base_of rule) {
  status = not_computable_status;
  not_evaluated_reason_code = some required_metric_not_computable;
  missing_evidence = some (or_else rule.signal_metric_id rule.signal_id ∷ []);
  not_evaluated_reason = some (append_text "signal not computable — " (why_missing reading));
  contribution = "none — signal not computable";
  narrative = quoted rule (
      append_text " could not be evaluated: " (
        append_text rule.signal_id (
          append_text " is not computable ("
            (append_text (why_missing reading) "). Reported rather than treated as passing."))));
  evidence = evidence_of reading;
}

-- The texts of which `compare` makes numbers.
abbrev pub compared_in : Comparison → String → String → List String
compared_in Comparison.in_band value threshold = value ∷ threshold ∷ without_minus value ∷ []
compared_in _ value threshold = value ∷ threshold ∷ []

abbrev pub reading_texts : ThresholdRule → Option SignalReading → List String
reading_texts rule none = []
reading_texts rule (some reading) = if reading.is_unbounded then [] else elim reading.value [
  | none ↦ []
  | some value ↦
      if is_present_test rule.comparison
      then []
      else compared_in rule.comparison value (or_else rule.threshold "undefined")
]

-- The texts that an evaluation compares, if it comes to that.
unfoldable pub compared_texts :
    ThresholdRule
    → Option SignalReading
    → Option RuleApplicabilityContext
    → Option (List String)
    → List String
unfolding refusal_of is_undeclared is_undecided without_minus
compared_texts rule reading context declared = elim (refusal_of rule context) [
  | some verdict ↦ []
  | none ↦
      if is_undeclared rule declared
      then []
      else if is_undecided rule
      then []
      else reading_texts rule reading
]

module _ (J : DecimalJs) where
  -- `compare`
  unfoldable pub compare_values : Quantity → Comparison → Quantity → Bool
  unfolding without_minus
  compare_values value Comparison.lt threshold = q_lt J value threshold
  compare_values value Comparison.lte threshold = q_le J value threshold
  compare_values value Comparison.gt threshold = q_gt J value threshold
  compare_values value Comparison.gte threshold = q_ge J value threshold
  compare_values value Comparison.eq threshold = is_tie (q_compare J value threshold)
  compare_values value Comparison.neq threshold = not (is_tie (q_compare J value threshold))
  compare_values value Comparison.in_band threshold = q_le J (without_minus value) threshold
  compare_values value Comparison.present threshold = true

  -- The `fired` of a reading with a value; a rule that tests presence has no use for a threshold.
  abbrev pub fires_at : ThresholdRule → String → Bool
  fires_at rule value =
      if is_present_test rule.comparison
      then true
      else compare_values value rule.comparison (or_else rule.threshold "undefined")

  unfoldable pub measured : ThresholdRule → SignalReading → String → RuleEvaluation
  measured rule reading value =
      let hit = fires_at rule value in
      record (base_of rule) {
        status = if hit then fired_status else clear_status;
        observed_value = some value;
        fired = hit;
        trend = reading.trend;
        estimated_impact = if hit then reading.estimated_impact else none;
        contribution = if hit then rule.effect else "none — within threshold";
        narrative = if hit then rule.narrative_when_fired else rule.narrative_when_clear;
        evidence = reading.evidence;
      }

  -- From the observed adverse state on.
  unfoldable pub evaluate_reading : ThresholdRule → Option SignalReading → RuleEvaluation
  evaluate_reading rule none = unmeasured rule none
  evaluate_reading rule (some reading) =
      if reading.is_unbounded then unbounded_evaluation rule reading else elim reading.value [
        | none ↦ unmeasured rule (some reading)
        | some value ↦ measured rule reading value
      ]

  -- What `evaluateRule` returns. It throws instead where `compared_texts` has a text that is no
  -- number; `evaluate_rule_result` says which.
  unfoldable pub evaluate_rule :
      ThresholdRule
      → Option SignalReading
      → Option RuleApplicabilityContext
      → Option (List String)
      → RuleEvaluation
  evaluate_rule rule reading context declared = elim (refusal_of rule context) [
    | some verdict ↦ inapplicable rule reading verdict
    | none ↦
        if is_undeclared rule declared
        then misconfigured rule
        else if is_undecided rule
        then undecided rule reading
        else evaluate_reading rule reading
  ]

  -- `evaluateRule`, with `none` where the constructor of `Decimal` throws.
  unfoldable pub evaluate_rule_result :
      ThresholdRule
      → Option SignalReading
      → Option RuleApplicabilityContext
      → Option (List String)
      → Option RuleEvaluation
  unfolding evaluate_rule compared_texts
  evaluate_rule_result rule reading context declared =
      if all J.is_number (compared_texts rule reading context declared)
      then some (evaluate_rule rule reading context declared)
      else none

  -- What `evaluateRules` returns.
  unfoldable pub evaluate_rules :
      List ThresholdRule
      → List (String × SignalReading)
      → Option RuleApplicabilityContext
      → Option (List String)
      → List RuleEvaluation
  unfolding get
  evaluate_rules rules readings context declared =
      map (λ r. evaluate_rule r (get readings r.signal_id) context declared) rules

  -- `evaluateRules`, with `none` where one of them throws.
  unfoldable pub evaluate_rules_result :
      List ThresholdRule
      → List (String × SignalReading)
      → Option RuleApplicabilityContext
      → Option (List String)
      → Option (List RuleEvaluation)
  unfolding evaluate_rule_result get
  evaluate_rules_result [] readings context declared = some []
  evaluate_rules_result (r ∷ rules) readings context declared =
      let rest = evaluate_rules_result rules readings context declared in
      elim (evaluate_rule_result r (get readings r.signal_id) context declared) [
        | none ↦ none
        | some e ↦ elim rest [ none ↦ none | some es ↦ some (e ∷ es) ]
      ]

  -- `normaliseToScore`
  abbrev pub normalise_to_score : Quantity → Quantity → Quantity → Bool → Quantity
  normalise_to_score = q_normalise_score J
