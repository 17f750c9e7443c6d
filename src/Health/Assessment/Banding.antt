-- ===== src/Health/Assessment/Banding.antt =====
-- evaluateHealth: which rules and which composite give a status.
use mathlib.Core.Path.{subst}
use gldaassurance.Health.Model.{read_quantities, weight_or_zero}
use gldaassurance.Base.{
  ◌⊎◌, Option, ◌∷◌, ◌≡◌, none, arith, [], get, some, String, ◌↔◌, true, false, List, inl, refl, ◌≢◌,
  string_eq, none-ne-some, some_inj, Bool-cases, inr, sym, Bool, Memᴰ, All, filter, All-mem, ◌∙◌,
  nat_eqb, ap, Option-cases, map,
}
use gldaassurance.Decimals.{Quantity, q_ge, DecimalJs}
use gldaassurance.Rules.Overrides.{
  amber_floor, rule, green_floor, elevation_rules, hard_override_rules,
}
use gldaassurance.Rules.Engine.{ThresholdRule, evaluate_rules, evaluate_rule, evaluate_rules_result}
use gldaassurance.Rules.Engine.Outcomes.{
  Applies, Decided, Breaches, Declared, evaluate_rule-fired_iff,
}
use gldaassurance.Health.Statuses.{
  HealthInput, Rag, rule_ids, HealthEvaluation, has_status, with_status, status_index,
}
use gldaassurance.Health.Assessment.{
  assessed_rag, score_dimensions, evaluate_health, health_of, health_with, rules_on, health_args,
  elevated_in, composite_in, fired_in, run_rules, returned,
}
use gldaassurance.Explainability.{
  Explanation, RuleEvaluation, explained, explain, looked_at_nothing, Explained,
  fired_without_evidence, not_computable_status, RuleEvaluationStatus, configuration_error_status,
  clear_status, not_applicable_status, fired_status,
}
use gldaassurance.Health.Scoring.{DimensionScore}
use gldaassurance.Health.Scoring.Scored.{returned_inj, >>=-returned}
use gldaassurance.Rules.Engine.Exits.{evaluate_rule-status, is_fired_status}
use gldaassurance.Rules.Explained.{evaluate_rules_result-some}

-- A rule that fires on the readings of a project.
abbrev pub Fires : DecimalJs → HealthInput → ThresholdRule → Type 0
Fires J input rule =
    Applies rule input.applicability_context
    × Declared rule input.declared_signals
    × Decided rule
    × Breaches J rule (get input.readings rule.signal_id)

Explained-cases :
    (x : Explained)
    → ((y : Explanation) × (x ≡ explained y))
      ⊎ ((x ≡ looked_at_nothing) ⊎ ((id : String) × (x ≡ fired_without_evidence id)))
Explained-cases (explained y) = inl (y, refl)
Explained-cases looked_at_nothing = inr (inl refl)
Explained-cases (fired_without_evidence id) = inr (inr (id, refl))

status_agrees : (s : RuleEvaluationStatus) → nat_eqb (status_index s) 0 ≡ is_fired_status s
status_agrees fired_status = refl
status_agrees clear_status = refl
status_agrees not_applicable_status = refl
status_agrees not_computable_status = refl
status_agrees configuration_error_status = refl

-- The composite is there, and is at least the floor, or below both.
abbrev pub ReachesGreen : DecimalJs → Option Quantity → Type 0
ReachesGreen J composite = (c : Quantity) × (composite ≡ some c) × (q_ge J c green_floor ≡ true)

abbrev pub BelowAmber : DecimalJs → Option Quantity → Type 0
BelowAmber J composite =
    (c : Quantity) × (composite ≡ some c)
    × (q_ge J c green_floor ≡ false)
    × (q_ge J c amber_floor ≡ false)

composite_inj : {c d : Quantity} → some c ≡ some d → c ≡ d
composite_inj {c} {d} h = some_inj c d h

module _ (J : DecimalJs) where
  assessed_rag-green_iff :
      (overrides elevations : List String) (composite : Option Quantity)
      → (assessed_rag J overrides elevations composite ≡ Rag.green)
        ↔ ((overrides ≡ []) × (elevations ≡ []) × ReachesGreen J composite)
  unfolding assessed_rag
  assessed_rag-green_iff (o ∷ os) es c = (λ h. absurd (cc), λ h. absurd (cc (h.0)))
  assessed_rag-green_iff [] es none = (λ h. absurd (cc), λ h. absurd (none-ne-some h.2.0 h.2.1))
  assessed_rag-green_iff [] [] (some c) = (
    λ h. (refl, refl, (c, refl, ground arith)),
    λ h.
        let reached = subst (λ d. q_ge J d green_floor ≡ true) (sym (composite_inj h.2.1)) h.2.2 in
        ground arith,
  )
  assessed_rag-green_iff [] (x ∷ es) (some c) = (λ h. ground arith, λ h. absurd (cc (h.1)))

  assessed_rag-red_iff :
      (overrides elevations : List String) (composite : Option Quantity)
      → (assessed_rag J overrides elevations composite ≡ Rag.red)
        ↔ ((overrides ≢ []) ⊎ BelowAmber J composite)
  unfolding assessed_rag
  assessed_rag-red_iff (o ∷ os) es c = (λ h. inl (λ e. cc), λ _. refl)
  assessed_rag-red_iff [] es none = (
    λ h. absurd (cc),
    λ h. elim h [ inl bad ↦ absurd (bad refl) | inr low ↦ absurd (none-ne-some low.0 low.1) ],
  )
  assessed_rag-red_iff [] es (some c) = (
    λ h. inr (c, refl, ground arith, ground arith),
    λ h. elim h [
      | inl bad ↦ absurd (bad refl)
      | inr low ↦
          let under = subst (λ d. q_ge J d green_floor ≡ false) (sym (composite_inj low.1)) low.2 in
          let lower = subst (λ d. q_ge J d amber_floor ≡ false) (sym (composite_inj low.1)) low.3 in
          ground arith
    ],
  )

  -- A test of evaluations that agrees with firing picks out the rules that fire.
  module _ (input : HealthInput) (p : RuleEvaluation → Bool)
      (agrees : (rule : ThresholdRule)
        → p (
            evaluate_rule J rule
              (get input.readings rule.signal_id)
              input.applicability_context
              input.declared_signals)
          ≡ (evaluate_rule J rule
              (get input.readings rule.signal_id)
              input.applicability_context
              input.declared_signals).fired) where
    Fires-iff :
        (rule : ThresholdRule)
        → (p (
              evaluate_rule J rule
                (get input.readings rule.signal_id)
                input.applicability_context
                input.declared_signals)
            ≡ true)
          ↔ Fires J input rule
    Fires-iff rule = rw (agrees rule) (
        evaluate_rule-fired_iff J rule (get input.readings rule.signal_id)
          input.applicability_context input.declared_signals)

    picked-nil_iff :
        (rules : List ThresholdRule)
        → (rule_ids (filter p (rules_on J input rules)) ≡ [])
          ↔ All (λ rule. Fires J input rule → ⊥) rules
    unfolding evaluate_rules
    picked-nil_iff [] = (λ _. tt, λ _. refl)
    picked-nil_iff (rule ∷ rules) =
        elim (Bool-cases (
          p (
            evaluate_rule J rule (get input.readings rule.signal_id) input.applicability_context
              input.declared_signals))) [
                | inl hit ↦ rw hit (λ h. absurd (cc), λ a. absurd (a.0 ((Fires-iff rule).0 hit)))
                | inr miss ↦ rw miss (
                  λ h. (λ f. absurd (cc (miss, (Fires-iff rule).1 f)), (picked-nil_iff rules).0 h),
                  λ a. (picked-nil_iff rules).1 a.1,
                )
              ]

    some-Fires :
        (rules : List ThresholdRule)
        → rule_ids (filter p (rules_on J input rules)) ≢ []
        → (rule : ThresholdRule) × Memᴰ rule rules × Fires J input rule
    unfolding evaluate_rules
    some-Fires [] h = absurd (h refl)
    some-Fires (rule ∷ rules) h =
        elim (Bool-cases (
          p (
            evaluate_rule J rule (get input.readings rule.signal_id) input.applicability_context
              input.declared_signals))) [
                | inl hit ↦ (rule, Memᴰ.head refl, (Fires-iff rule).0 hit)
                | inr miss ↦
                    let (r, m, f) = some-Fires rules (λ e. h (rw miss e)) in (r, Memᴰ.tail m, f)
              ]

    picked-cons_iff :
        (rules : List ThresholdRule)
        → (rule_ids (filter p (rules_on J input rules)) ≢ [])
          ↔ ((rule : ThresholdRule) × Memᴰ rule rules × Fires J input rule)
    picked-cons_iff rules = (
      some-Fires rules,
      λ (rule, m, f) e.
          All-mem (λ rule. Fires J input rule → ⊥) rules ((picked-nil_iff rules).0 e) m f,
    )

  fired_agrees :
      (input : HealthInput) (rule : ThresholdRule)
      → has_status fired_status (
          evaluate_rule J rule
            (get input.readings rule.signal_id)
            input.applicability_context
            input.declared_signals)
        ≡ (evaluate_rule J rule
            (get input.readings rule.signal_id)
            input.applicability_context
            input.declared_signals).fired
  fired_agrees input rule =
      status_agrees
        (evaluate_rule J rule (get input.readings rule.signal_id) input.applicability_context
          input.declared_signals).status
      ∙ (evaluate_rule-status J rule (get input.readings rule.signal_id) input.applicability_context
          input.declared_signals).0

  health_of-returned :
      (input : HealthInput) (scores : List DimensionScore)
      (overrides elevations : List RuleEvaluation) (e : HealthEvaluation)
      → health_of J input scores overrides elevations ≡ returned e
      → (y : Explanation) × (explain (health_args J input scores overrides elevations)
          ≡ explained y)
        × (e ≡ health_with J input scores overrides elevations y)
  unfolding health_of
  health_of-returned input scores overrides elevations e h =
      elim (Explained-cases (explain (health_args J input scores overrides elevations))) [
        | inl (y, given) ↦ (y, given, returned_inj (sym (rw (given, health_of) at h)))
        | inr (inl bare) ↦ absurd (cc (rw (bare, health_of) at h))
        | inr (inr (id, untraced)) ↦ absurd (cc (rw (untraced, health_of) at h))
      ]

  run_rules-returned :
      (input : HealthInput) (rules : List ThresholdRule) (evaluated : List RuleEvaluation)
      → run_rules J input rules ≡ returned evaluated
      → evaluated ≡ rules_on J input rules
  run_rules-returned input rules evaluated h =
      let result =
        evaluate_rules_result J rules input.readings input.applicability_context
          input.declared_signals in
      elim (Option-cases result) [
        | inl gone ↦ absurd (cc (rw (gone, run_rules) at h))
        | inr (es, there) ↦
            sym (returned_inj (rw (there, run_rules) at h))
            ∙ evaluate_rules_result-some J input.readings input.applicability_context
                input.declared_signals rules es there
      ]

  -- What an assessment that is returned went through.
  pub evaluate_health-returned :
      (input : HealthInput) (e : HealthEvaluation)
      → evaluate_health J input ≡ returned e
      → (scores : List DimensionScore) × (score_dimensions J input.model.dimensions input.readings
          ≡ returned scores)
        × (qs : List Quantity) × (read_quantities (map weight_or_zero input.model.dimensions)
            ≡ returned qs)
        × (run_rules J input (hard_override_rules J)
            ≡ returned (rules_on J input (hard_override_rules J)))
        × (run_rules J input elevation_rules ≡ returned (rules_on J input elevation_rules))
        × (y : Explanation) × (explain (
              health_args J input scores
                (rules_on J input (hard_override_rules J))
                (rules_on J input elevation_rules))
            ≡ explained y)
        × (e
            ≡ health_with J input scores
                (rules_on J input (hard_override_rules J))
                (rules_on J input elevation_rules)
                y)
  unfolding evaluate_health
  evaluate_health-returned input e h =
      let (scores, given, h1) =
        >>=-returned (score_dimensions J input.model.dimensions input.readings) _ h in
      let (qs, weighed, h2) =
        >>=-returned (read_quantities (map weight_or_zero input.model.dimensions)) _ h1 in
      let (overrides, first, h3) = >>=-returned (run_rules J input (hard_override_rules J)) _ h2 in
      let (elevations, second, h4) = >>=-returned (run_rules J input elevation_rules) _ h3 in
      let same = run_rules-returned input (hard_override_rules J) overrides first in
      let same' = run_rules-returned input elevation_rules elevations second in
      let (y, told, made) =
        health_of-returned input scores (rules_on J input (hard_override_rules J))
          (rules_on J input elevation_rules) e
          (subst
            (λ es.
              health_of J input scores (rules_on J input (hard_override_rules J)) es ≡ returned e)
            same' (subst (λ os. health_of J input scores os elevations ≡ returned e) same h4)) in
      (
        scores,
        given,
        qs,
        weighed,
        first ∙ ap returned same,
        second ∙ ap returned same',
        y,
        told,
        made,
      )

  -- Where an assessment is returned, the system assesses green exactly where no hard override
  -- fires, no elevation fires and the composite reaches the floor of green; and it assesses red
  -- exactly where a hard override fires or the composite is below the floor of amber. A rule fires
  -- where it applies, its signal is declared, its threshold is decided and the reading breaches it.
  pub evaluate_health-status_iff :
      (input : HealthInput) (e : HealthEvaluation)
      → evaluate_health J input ≡ returned e
      → ((e.system_assessed_rag ≡ Rag.green) ↔ (
          All (λ rule. Fires J input rule → ⊥) (hard_override_rules J)
          × All (λ rule. Fires J input rule → ⊥) elevation_rules
          × ReachesGreen J e.composite_score))
        × ((e.system_assessed_rag ≡ Rag.red) ↔ (
            ((rule : ThresholdRule) × Memᴰ rule (hard_override_rules J) × Fires J input rule)
            ⊎ BelowAmber J e.composite_score))
  unfolding with_status
  evaluate_health-status_iff input e h =
      let (scores, _, _, _, _, _, y, _, made) = evaluate_health-returned input e h in
      let composite = composite_in J input scores in
      let overrides = fired_in (rules_on J input (hard_override_rules J)) in
      let elevations = elevated_in (rules_on J input elevation_rules) in
      rw made (
        (
          λ g.
              let (no_override, no_elevation, reached) =
                (assessed_rag-green_iff overrides elevations composite).0 g in
              (
                (picked-nil_iff input (has_status fired_status) (fired_agrees input)
                      (hard_override_rules J)).0
                    no_override,
                (picked-nil_iff input (λ x. x.fired) (λ _. refl) elevation_rules).0 no_elevation,
                reached,
              ),
          λ (no_override, no_elevation, reached).
              (assessed_rag-green_iff overrides elevations composite).1 (
                (picked-nil_iff input (has_status fired_status) (fired_agrees input)
                      (hard_override_rules J)).1
                    no_override,
                (picked-nil_iff input (λ x. x.fired) (λ _. refl) elevation_rules).1 no_elevation,
                reached,
              ),
        ),
        (
          λ r. elim ((assessed_rag-red_iff overrides elevations composite).0 r) [
            | inl forced ↦ inl (
                (picked-cons_iff input (has_status fired_status) (fired_agrees input)
                    (hard_override_rules J)).0
                  forced)
            | inr low ↦ inr low
          ],
          λ r. elim r [
            | inl forced ↦ (assessed_rag-red_iff overrides elevations composite).1 (
                inl (
                  (picked-cons_iff input (has_status fired_status) (fired_agrees input)
                      (hard_override_rules J)).1
                    forced))
            | inr low ↦ (assessed_rag-red_iff overrides elevations composite).1 (inr low)
          ],
        ),
      )
