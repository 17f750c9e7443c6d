-- ===== src/Health/Assessment/Explaining.antt =====
-- evaluateHealth: that it returns, and what a report and an override leave as it is.
use mathlib.Core.Path.{subst}
use Prim.Native.Char.{code}
use gldaassurance.Explainability.{RuleEvaluation, explanation_of, Explanation, explain, explained}
use gldaassurance.Time.{instant_le, Instant}
use gldaassurance.Base.{
  ◌⊎◌, none, All-append, some, All, [], refl, arith, true, List, String, Option, ◌∷◌, false, inl,
  ◌≡◌, ◌≢◌, ◌++◌, Bool-cases, inr, sym, ap, some_inj, none-ne-some, nat_eqb, All-mem, map,
  All-of_mem, nat_eqb_iff,
}
use gldaassurance.Decimals.{DecimalJs, is_decimal_text, whole_ok}
use gldaassurance.Explainability.Explaining.{explain-explained_iff, IsTraceable}
use gldaassurance.Rules.Overrides.{hard_override_rules, elevation_rules}
use gldaassurance.Rules.Engine.{SignalReading, without_minus, ThresholdRule}
use gldaassurance.Rules.Explained.{
  IsBacked, evaluate_rules-IsTraceable, evaluate_rules_result-numbers,
}
use gldaassurance.Health.Statuses.{
  override_in_date, HealthEvaluation, effective_rag_of, HealthInput, RagOverride, Rag,
}
use gldaassurance.Health.Model.{DimensionDefinition, weight_or_zero}
use gldaassurance.Health.Scoring.{DimensionScore}
use gldaassurance.Health.Assessment.{
  evaluate_health, score_dimensions, health_of, health_args, band_narrative, health_with,
  assessed_in, override_evaluation, rules_on, fired_in, elevated_in, composite_in, band_evaluation,
  run_rules, returned,
}
use gldaassurance.Health.Scoring.Scored.{
  IsReadable, score_dimension-returns, IsNumericDimension, read_quantities-returns, IsPlain,
  All-map,
}
use gldaassurance.Health.Assessment.Banding.{evaluate_health-returned}

nonempty_append :
    (xs ys : List RuleEvaluation) (z : RuleEvaluation) (zs : List RuleEvaluation)
    → xs ++ (ys ++ (z ∷ zs)) ≢ []
nonempty_append [] [] z zs e = cc
nonempty_append [] (y ∷ ys) z zs e = cc
nonempty_append (x ∷ xs) ys z zs e = cc

-- The override's evaluation fires on a record of its own.
override_evaluation-IsTraceable :
    (input : HealthInput) (assessed : Rag) → IsTraceable (override_evaluation input assessed)
unfolding override_evaluation
override_evaluation-IsTraceable input assessed hit = rw hit (λ e. cc)

-- An override that was applied by an instant and has not expired at it.
abbrev pub IsInForce : Option RagOverride → Instant → Type 0
IsInForce o now =
    (held : RagOverride) × (o ≡ some held)
    × (instant_le held.applied_at now ≡ true)
    × (instant_le held.override_expires_at now ≡ false)

in_force_test :
    (held : RagOverride) (now : Instant)
    → instant_le held.applied_at now ≡ true
    → instant_le held.override_expires_at now ≡ false
    → override_in_date (some held) now ≡ true
in_force_test held now applied lasts = rw (applied, lasts) refl

-- What an override in force and no override give.
abbrev pub HoldsOrKeeps : Option RagOverride → Instant → Rag → Rag → Type 0
HoldsOrKeeps o now assessed effective =
    ((IsInForce o now → ⊥) × (effective ≡ assessed))
    ⊎ ((held : RagOverride) × (o ≡ some held)
        × (instant_le held.applied_at now ≡ true)
        × (instant_le held.override_expires_at now ≡ false)
        × (effective ≡ held.override_rag))

effective_rag_of_cases :
    (o : Option RagOverride) (now : Instant) (assessed : Rag)
    → HoldsOrKeeps o now assessed (effective_rag_of o now assessed)
unfolding effective_rag_of
effective_rag_of_cases none now assessed = inl (λ h. absurd (none-ne-some h.0 h.1), refl)
effective_rag_of_cases (some o) now assessed = elim (Bool-cases (override_in_date (some o) now)) [
  | inl held ↦ rw held (inr (o, refl, ground arith, ground arith, refl))
  | inr lapsed ↦ rw lapsed (
      inl (
        λ (held, same, applied, lasts). absurd (
            cc (
              lapsed,
              subst (λ h. override_in_date (some h) now ≡ true) (sym (some_inj o held same))
                  (in_force_test held now applied lasts),
            )),
        refl,
      ))
]

All-of_append :
    {A : Type 0} (P : A → Type 0) (xs ys : List A) → All P (xs ++ ys) → All P xs × All P ys
All-of_append P [] ys a = (tt, a)
All-of_append P (x ∷ xs) ys a = let (b, c) = All-of_append P xs ys a.1 in ((a.0, b), c)

plain_at :
    (s : String)
    → is_decimal_text s ≡ true
    → (t : String) → some s ≡ some t
    → is_decimal_text t ≡ true
plain_at s plain t e = subst (λ u. is_decimal_text u ≡ true) (some_inj s t e) plain

without_minus-plain :
    (s : String) → is_decimal_text s ≡ true → is_decimal_text (without_minus s) ≡ true
unfolding is_decimal_text without_minus
without_minus-plain String.[] h = absurd (cc)
without_minus-plain (String.◌∷◌ c s) h = elim (Bool-cases (nat_eqb (code c) 45)) [
  | inr unsigned ↦ rw unsigned h
  | inl signed ↦ rw signed (behind_sign s (rw signed at h))
]
  where
    behind_sign : (t : String) → whole_ok false t ≡ true → is_decimal_text t ≡ true
    behind_sign String.[] k = absurd (cc)
    behind_sign (String.◌∷◌ d t) k = elim (Bool-cases (nat_eqb (code d) 45)) [
      | inr unsigned' ↦ rw unsigned' k
      | inl again ↦
          let minus_sign = (nat_eqb_iff (code d) 45).0 again in
          absurd (cc (rw (minus_sign, whole_ok) at k))
    ]

module _ (J : DecimalJs) where
  module _ (input : HealthInput) (scores : List DimensionScore)
      (overrides elevations : List RuleEvaluation) where
    abbrev own_band : RuleEvaluation
    own_band =
        band_evaluation input (composite_in J input scores)
          (assessed_in J input scores overrides elevations)
          (band_narrative J (fired_in overrides) (elevated_in elevations)
            (composite_in J input scores))

    abbrev own_evaluations : List RuleEvaluation
    own_evaluations =
        own_band ∷ override_evaluation input (assessed_in J input scores overrides elevations) ∷ []

    health_of-explained :
        All IsTraceable overrides
        → All IsTraceable elevations
        → IsTraceable own_band
        → health_of J input scores overrides elevations
          ≡ returned (
              health_with J input scores overrides elevations
                (explanation_of (health_args J input scores overrides elevations)))
    unfolding health_of
    health_of-explained a b band =
        let args = health_args J input scores overrides elevations in
        let last_two : All IsTraceable own_evaluations = (
          band,
          (
            override_evaluation-IsTraceable input (assessed_in J input scores overrides elevations),
            tt,
          ),
        ) in
        let told : explain args ≡ explained (explanation_of args) =
          (explain-explained_iff args (explanation_of args)).1 (
            nonempty_append overrides elevations _ _,
            All-append IsTraceable overrides (elevations ++ own_evaluations) a
                (All-append IsTraceable elevations own_evaluations b last_two),
            refl,
          ) in
        rw (told, health_of)

    traced_parts :
        (y : Explanation)
        → explain (health_args J input scores overrides elevations) ≡ explained y
        → All IsTraceable overrides × All IsTraceable elevations × IsTraceable own_band
    traced_parts y told =
        let (_, traced, _) =
          (explain-explained_iff (health_args J input scores overrides elevations) y).0 told in
        let (a, rest) =
          All-of_append IsTraceable overrides (elevations ++ own_evaluations) traced in
        let (b, last_two) = All-of_append IsTraceable elevations own_evaluations rest in
        (a, b, last_two.0)

  score_dimensions-returns :
      (readings : List (String × SignalReading)) (ds : List DimensionDefinition)
      → IsReadable readings
      → All IsNumericDimension ds
      → (scores : List DimensionScore) × (score_dimensions J ds readings ≡ returned scores)
  unfolding score_dimensions
  score_dimensions-returns readings [] r n = ([], refl)
  score_dimensions-returns readings (d ∷ ds) r n =
      let (s, scored) = score_dimension-returns J readings r d n.0 in
      let (rest, more) = score_dimensions-returns readings ds r n.1 in (s ∷ rest, rw (scored, more))

  -- Every threshold of a table is a plain decimal.
  abbrev IsPlainTable : List ThresholdRule → Type 0
  IsPlainTable rules =
      All (λ rule. (t : String) → rule.threshold ≡ some t → is_decimal_text t ≡ true) rules

  hard_override_rules-IsPlainTable : IsPlainTable (hard_override_rules J)
  unfolding hard_override_rules is_decimal_text
  hard_override_rules-IsPlainTable = (
    plain_at "0" refl,
    (
      plain_at "0" refl,
      (
        plain_at "0.80" refl,
        (
          plain_at "0.02" refl,
          (
            plain_at "5" refl,
            (plain_at "0.25" refl, (plain_at "0.10" refl, (plain_at "2.00" refl, tt))),
          ),
        ),
      ),
    ),
  )

  elevation_rules-IsPlainTable : IsPlainTable elevation_rules
  unfolding elevation_rules is_decimal_text
  elevation_rules-IsPlainTable =
      (plain_at "0.10" refl, (plain_at "0.20" refl, (plain_at "-0.05" refl, tt)))

  run_rules-returns :
      (input : HealthInput) (rules : List ThresholdRule)
      → IsReadable input.readings
      → ((t : String) → is_decimal_text t ≡ true → J.is_number t ≡ true)
      → IsPlainTable rules
      → run_rules J input rules ≡ returned (rules_on J input rules)
  run_rules-returns input rules readable reads plain =
      let numbers =
        evaluate_rules_result-numbers J input.readings input.applicability_context
          input.declared_signals rules
          (
            All-of_mem _ input.readings (λ entry m value e.
                let decimal = All-mem _ input.readings readable m value e in
                (
                  reads value decimal,
                  reads (without_minus value) (without_minus-plain value decimal),
                )),
            All-of_mem _ rules (λ rule m t e. reads t (All-mem _ rules plain m t e)),
          ) in
      rw (numbers, run_rules) refl

  -- Where every value, and every weight and edge of the model, is a plain decimal, decimal.js reads
  -- the plain decimals, every reading names a record and the assessment is given evidence, an
  -- assessment is returned, whatever the report and the override.
  pub evaluate_health-returns :
      (input : HealthInput)
      → IsReadable input.readings
      → IsBacked input.readings
      → input.input_evidence ≢ []
      → All IsNumericDimension input.model.dimensions
      → ((t : String) → is_decimal_text t ≡ true → J.is_number t ≡ true)
      → (e : HealthEvaluation) × (evaluate_health J input ≡ returned e)
  unfolding evaluate_health band_evaluation
  evaluate_health-returns input readable backed given plain_model reads =
      let (scores, scored) =
        score_dimensions-returns input.readings input.model.dimensions readable plain_model in
      let (_, weighed) = read_quantities-returns (map weight_or_zero input.model.dimensions) (
        All-map IsPlain weight_or_zero input.model.dimensions (
          All-of_mem (λ d. IsPlain (weight_or_zero d)) input.model.dimensions
            (λ d m. (All-mem IsNumericDimension input.model.dimensions plain_model m).1))) in
      let overrides = rules_on J input (hard_override_rules J) in
      let elevations = rules_on J input elevation_rules in
      (
        health_with J input scores overrides elevations
            (explanation_of (health_args J input scores overrides elevations)),
        rw (
          scored,
          weighed,
          run_rules-returns input (hard_override_rules J) readable reads
              hard_override_rules-IsPlainTable,
          run_rules-returns input elevation_rules readable reads elevation_rules-IsPlainTable,
          health_of-explained input scores overrides elevations
              (evaluate_rules-IsTraceable J input.readings input.applicability_context
                input.declared_signals (hard_override_rules J) backed)
              (evaluate_rules-IsTraceable J input.readings input.applicability_context
                input.declared_signals elevation_rules backed)
              (λ _. given),
        ),
      )

  -- Whatever is reported and overridden, an assessment that is returned is returned again, with the
  -- same system assessment, composite, fired overrides, coverage and status; the report is carried
  -- as it is, and the effective status is that of the override where it is applied and not yet
  -- expired at the instant of the assessment, and the system assessment everywhere else.
  pub evaluate_health-kept_apart :
      (input : HealthInput) (e : HealthEvaluation) (reported : Option Rag) (o : Option RagOverride)
      → evaluate_health J input ≡ returned e
      → (e' : HealthEvaluation) × (evaluate_health J
            (record input { reported_rag = reported; manual_override = o })
          ≡ returned e')
        × (e'.system_assessed_rag ≡ e.system_assessed_rag)
        × (e'.composite_score ≡ e.composite_score)
        × (e'.fired_overrides ≡ e.fired_overrides)
        × (e'.rule_coverage ≡ e.rule_coverage)
        × (e'.assessment_status ≡ e.assessment_status)
        × (e'.declared_rag ≡ reported)
        × HoldsOrKeeps o input.assessed_at e.system_assessed_rag e'.effective_rag
  unfolding evaluate_health
  evaluate_health-kept_apart input e reported o h =
      let (scores, scored, _, weighed, first, second, y, told, made) =
        evaluate_health-returned J input e h in
      let overrides = rules_on J input (hard_override_rules J) in
      let elevations = rules_on J input elevation_rules in
      let input' : HealthInput = record input { reported_rag = reported; manual_override = o } in
      let (a, b, band) = traced_parts input scores overrides elevations y told in
      (
        health_with J input' scores overrides elevations
            (explanation_of (health_args J input' scores overrides elevations)),
        rw (scored, weighed, first, second)
            (health_of-explained input' scores overrides elevations a b band),
        ap (λ x. x.system_assessed_rag) (sym made),
        ap (λ x. x.composite_score) (sym made),
        ap (λ x. x.fired_overrides) (sym made),
        ap (λ x. x.rule_coverage) (sym made),
        ap (λ x. x.assessment_status) (sym made),
        refl,
        subst
            (λ rag. HoldsOrKeeps o input.assessed_at rag (
              effective_rag_of o input.assessed_at
                (assessed_in J input scores overrides elevations)))
            (ap (λ x. x.system_assessed_rag) (sym made))
            (effective_rag_of_cases o input.assessed_at
              (assessed_in J input scores overrides elevations)),
      )
