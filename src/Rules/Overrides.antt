-- ===== src/Rules/Overrides.antt =====
-- src/contexts/rules/internal/override-rules.ts: the rules that force a status, whatever the
-- composite says, and the thresholds of the bands.
use gldaassurance.Explainability.{
  Comparison, no_remaining_work, insufficient_execution_history, no_remaining_delivery_window,
  NotEvaluatedReasonCode,
}
use gldaassurance.Base.{
  Bool, Option, List, String, if◌then◌else◌, false, ℤ, true, nat_text, not_after, some, ℕ,
  compare_int, none, ltb, [], ◌∷◌, ◌+◌, append_text, pos,
}
use gldaassurance.Decimals.{q_one, q_ge, Quantity, DecimalJs}
use gldaassurance.Rules.Engine.{
  warning, ThresholdRule, RuleApplicabilityContext, ApplicabilityVerdict, override,
}

abbrev pub health_rule_version : String
health_rule_version = "HEALTH-v2"

-- `rule`; each of the tables gives a threshold and no blocker.
abbrev pub rule :
    String
    → String
    → String
    → String
    → Comparison
    → String
    → String
    → String
    → String
    → ThresholdRule
rule id name signal metric comparison threshold effect when_fired when_clear = record {
  id = id;
  name = name;
  rule_set_id = "HEALTH";
  rule_version = health_rule_version;
  signal_id = signal;
  signal_metric_id = some metric;
  comparison = comparison;
  threshold = some threshold;
  severity = override;
  narrative_when_fired = when_fired;
  narrative_when_clear = when_clear;
  effect = effect;
  blocked_by = none;
  applicability = none;
  required_evidence = none;
}

abbrev pub applies_here : ApplicabilityVerdict
applies_here = record { applicable = true; reason_code = none; reason_text = none }

abbrev pub refused : NotEvaluatedReasonCode → String → ApplicabilityVerdict
refused because said = record {
  applicable = false;
  reason_code = some because;
  reason_text = some said;
}

-- `ctx.daysToBaselineCompletion !== null && ctx.daysToBaselineCompletion <= 0`
abbrev pub window_is_over : Option ℤ → Bool
window_is_over none = false
window_is_over (some days) = not_after (compare_int days (pos 0))

abbrev pub history_is_short : Option ℕ → ℕ → Bool
history_is_short none window = false
history_is_short (some weeks) window = ltb weeks (window + 1)

abbrev pub weeks_text : Option ℕ → String
weeks_text none = "null"
weeks_text (some weeks) = nat_text weeks

module _ (J : DecimalJs) where
  abbrev pub is_delivered : Option Quantity → Bool
  is_delivered none = false
  is_delivered (some completion) = q_ge J completion q_one

  -- `applicability` of `OVR-NO-CREDIBLE-PLAN`.
  unfoldable pub plan_applicability : RuleApplicabilityContext → ApplicabilityVerdict
  plan_applicability ctx =
      if is_delivered ctx.physical_completion
      then refused no_remaining_work
          "Delivery is complete, so there is no remaining plan whose credibility could be in question."
      else if window_is_over ctx.days_to_baseline_completion
      then refused no_remaining_delivery_window (
          append_text
            "The committed completion date has been reached, so there is no remaining window "
            (append_text
              "a required future velocity could be measured against. Whether the date was met "
              "is a separate, backward-looking finding."))
      else if history_is_short ctx.elapsed_delivery_weeks ctx.velocity_window_weeks
      then refused insufficient_execution_history (
          append_text "Delivery has been running " (
            append_text (weeks_text ctx.elapsed_delivery_weeks) (
              append_text " weeks, and a demonstrated velocity needs " (
                append_text (nat_text (ctx.velocity_window_weeks + 1)) (
                  append_text
                    ". The comparison this rule makes has no subject yet -- the history is not "
                    "missing, it cannot exist yet.")))))
      else applies_here

abbrev override_gm_negative : ThresholdRule
override_gm_negative =
    rule "OVR-GM-NEGATIVE" "Forecast gross margin is negative" "FORECAST_GM_PERCENT" "MET-FIN-014"
      Comparison.lt "0" "forces RED"
      (append_text
        "Forecast margin is below zero: every remaining unit of delivery costs more than "
        "it earns. This is a commercial decision, not a delivery one.")
      "Forecast margin is positive."

abbrev override_ragm_negative : ThresholdRule
override_ragm_negative =
    rule "OVR-RAGM-NEGATIVE" "Risk-adjusted gross margin is negative" "RISK_ADJUSTED_GM_PERCENT"
      "MET-FIN-033" Comparison.lt "0" "forces RED"
      (append_text "Once unresolved risk that is not already provisioned in ETC is counted, the " (
        append_text "engagement is loss-making. The headline margin may still look positive; it is "
          "not the number to act on."))
      "Risk-adjusted margin is positive."

abbrev override_contract_loss : ThresholdRule
override_contract_loss =
    rule "OVR-CONTRACT-LOSS" "Forecast contract loss against the as-sold position"
      "GM_VALUE_AT_RISK_RATIO" "MET-FIN-042" Comparison.gte "0.80" "forces RED"
      (append_text "Substantially all of the margin sold has been put at risk. The engagement is "
        "heading for a contractual loss position rather than a margin shortfall.")
      "Margin at risk is within tolerance of the as-sold position."

abbrev override_ld_exposure : ThresholdRule
override_ld_exposure =
    rule "OVR-LD-EXPOSURE" "Critical liquidated-damages exposure" "LD_EXPOSURE_RATIO" "MET-COM-011"
      Comparison.gte "0.02" "forces RED"
      (append_text "Liquidated damages are live and material against contract value. Exposure of "
        "this kind is contractual and does not resolve through delivery recovery alone.")
      "No material liquidated-damages exposure."

abbrev override_acceptance_failure : ThresholdRule
override_acceptance_failure =
    rule "OVR-ACCEPTANCE-FAILURE" "Material acceptance failure" "ACCEPTANCE_BLOCKERS" "MET-QUA-010"
      Comparison.gte "5" "forces RED"
      (append_text "The client has named enough blocking objections that formal acceptance is not "
        (append_text
          "achievable on the current plan. In fixed-bid these gate revenue, so this is an "
          "economic event."))
      "Acceptance blockers are below the override threshold."

abbrev pub override_burn_mismatch : ThresholdRule
override_burn_mismatch =
    rule "OVR-BURN-MISMATCH" "Severe burn against progress mismatch" "BURN_GAP" "MET-FIN-027"
      Comparison.gte "0.25" "forces RED"
      (append_text "Spending has run far ahead of delivered progress. Whatever the current margin "
        (append_text "says, the remaining work is being funded from margin that has already been "
          "consumed."))
      "Cost consumption is within tolerance of delivered progress."

abbrev override_uncommercialised_scope : ThresholdRule
override_uncommercialised_scope =
    rule "OVR-UNCOMMERCIALISED-SCOPE" "Material uncommercialised scope" "UNCOMPENSATED_SCOPE_RATIO"
      "MET-COM-009" Comparison.gte "0.10" "forces RED"
      (append_text "A material share of contract value is being delivered with no executed change "
        "request behind it. The loss is already incurred and the remedy is commercial.")
      "Uncommercialised scope is below the override threshold."

abbrev plan_rule : ThresholdRule
plan_rule =
    rule "OVR-NO-CREDIBLE-PLAN" "No credible completion plan" "REQUIRED_VELOCITY_RATIO"
      "MET-DEL-018" Comparison.gte "2.00" "forces RED"
      (append_text "Finishing on the committed date requires at least twice the delivery rate this "
        "team has demonstrated. The plan assumes a step-change nobody has shown.")
      "The remaining plan is within reach of demonstrated delivery rate."

-- `HARD_OVERRIDE_RULES`
unfoldable pub hard_override_rules : DecimalJs → List ThresholdRule
hard_override_rules J =
    override_gm_negative
    ∷ override_ragm_negative
    ∷ override_contract_loss
    ∷ override_ld_exposure
    ∷ override_acceptance_failure
    ∷ override_burn_mismatch
    ∷ override_uncommercialised_scope
    ∷ record plan_rule {
      required_evidence = some ("MET-DEL-018" ∷ "MET-DEL-019" ∷ "MET-DEL-020" ∷ "MET-DEL-016" ∷ []);
      applicability = some (plan_applicability J);
    }
    ∷ []

abbrev elevation_etc_optimism : ThresholdRule
elevation_etc_optimism =
    record (rule "ELV-ETC-OPTIMISM" "Estimate at completion is materially optimistic"
      "ETC_OPTIMISM_RATIO" "MET-FIN-040" Comparison.gte "0.10" "forces at least AMBER"
      (append_text "Demonstrated performance implies a materially higher outturn cost than the "
        "stated estimate. The forecast has not caught up with the run rate.")
      "The stated estimate is consistent with demonstrated performance.") { severity = warning }

abbrev elevation_contingency_burn : ThresholdRule
elevation_contingency_burn =
    record (rule "ELV-CONTINGENCY-BURN" "Contingency consumed far ahead of progress"
      "CONTINGENCY_BURN_GAP" "MET-FIN-034" Comparison.gte "0.20" "forces at least AMBER"
      (append_text "The buffer priced to absorb uncertainty is being spent faster than the work is "
        (append_text "being delivered. Margin protection is going before the risk it was meant to "
          "cover has materialised."))
      "Contingency consumption is proportionate to progress.") { severity = warning }

abbrev elevation_margin_erosion : ThresholdRule
elevation_margin_erosion =
    record (rule "ELV-MARGIN-EROSION" "Margin erosion against as-sold" "MARGIN_EROSION_PP"
      "MET-FIN-016" Comparison.lte "-0.05" "forces at least AMBER"
      "Five or more percentage points of margin have gone against the price we sold."
      "Margin erosion is within tolerance.") { severity = warning }

-- `ELEVATION_RULES`
unfoldable pub elevation_rules : List ThresholdRule
elevation_rules =
    elevation_etc_optimism ∷ elevation_contingency_burn ∷ elevation_margin_erosion ∷ []

-- `BAND_THRESHOLDS`
abbrev pub band_rule_set : String
band_rule_set = "HEALTH"

abbrev pub green_floor : Quantity
green_floor = "70"

abbrev pub amber_floor : Quantity
amber_floor = "45"
