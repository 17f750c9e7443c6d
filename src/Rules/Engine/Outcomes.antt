-- ===== src/Rules/Engine/Outcomes.antt =====
-- engine.ts: when a rule fires, and what the engine says where it does not.
use mathlib.Core.Path.{subst}
use gldaassurance.Explainability.{Comparison}
use gldaassurance.Base.{
  inr, arith, some, ◌≡◌, true, Memᴰ, none, ◌↔◌, contains_iff, refl, Option-cases, some_inj, false,
  String, Option, List, Ordering, inl, ◌⊎◌, ◌≢◌, string_eq, Bool-cases, not, if◌then◌else◌, ◌∙◌,
  sym, or_else,
}
use gldaassurance.Decimals.{DecimalJs, Quantity, q_compare}
use gldaassurance.Rules.Engine.{
  without_minus, compare_values, is_undeclared, fires_at, ApplicabilityVerdict, refusal_of,
  ThresholdRule, is_undecided, SignalReading, RuleApplicabilityContext, unmeasured, is_upper_bound,
  evaluate_reading, is_present_test, evaluate_rule, measured, unbounded_evaluation, inapplicable,
  undecided, misconfigured,
}

-- The comparison holds between the sign of the difference and the threshold; `in_band` is left to
-- the size of the value.
abbrev pub Meets : (J : DecimalJs) → Quantity → Comparison → Quantity → Type 0
Meets J value Comparison.lt threshold = q_compare J value threshold ≡ Ordering.lt
Meets J value Comparison.lte threshold = q_compare J value threshold ≢ Ordering.gt
Meets J value Comparison.gt threshold = q_compare J value threshold ≡ Ordering.gt
Meets J value Comparison.gte threshold = q_compare J value threshold ≢ Ordering.lt
Meets J value Comparison.eq threshold = q_compare J value threshold ≡ Ordering.eq
Meets J value Comparison.neq threshold = q_compare J value threshold ≢ Ordering.eq
Meets J value Comparison.in_band threshold =
    q_compare J (without_minus value) threshold ≢ Ordering.gt
Meets J value Comparison.present threshold = Unit

-- No applicability predicate refuses the facts that are given.
abbrev pub Applies : ThresholdRule → Option RuleApplicabilityContext → Type 0
Applies rule context =
    (applies : RuleApplicabilityContext → ApplicabilityVerdict) (ctx : RuleApplicabilityContext)
    → rule.applicability ≡ some applies
    → context ≡ some ctx
    → (applies ctx).applicable ≡ true

-- A builder claims to produce the signal, where the builders are given.
abbrev pub Declared : ThresholdRule → Option (List String) → Type 0
Declared rule declared =
    (signals : List String) → declared ≡ some signals → Memᴰ rule.signal_id signals

-- The rule has a threshold or needs none.
abbrev pub Decided : ThresholdRule → Type 0
Decided rule = (rule.threshold ≢ none) ⊎ (rule.comparison ≡ Comparison.present)

-- A reading is there, and it is unbounded under an upper bound, or has a value that meets the rule.
abbrev pub Breaches : (J : DecimalJs) → ThresholdRule → Option SignalReading → Type 0
Breaches J rule none = ⊥
Breaches J rule (some r) =
    ((r.is_unbounded ≡ true)
      × ((rule.comparison ≡ Comparison.gt) ⊎ (rule.comparison ≡ Comparison.gte)))
    ⊎ ((r.is_unbounded ≡ false)
        × (value : String) × (r.value ≡ some value)
        × Meets J value rule.comparison (or_else rule.threshold "undefined"))

refusal_of-none :
    (rule : ThresholdRule) (context : Option RuleApplicabilityContext)
    → (refusal_of rule context ≡ none) ↔ Applies rule context
unfolding refusal_of
refusal_of-none rule context = (to, from)
  where
    to : refusal_of rule context ≡ none → Applies rule context
    to h applies ctx e f = ground arith

    from : Applies rule context → refusal_of rule context ≡ none
    from h = elim (Option-cases rule.applicability) [
      | inl e ↦ rw e
      | inr (applies, e) ↦ elim (Option-cases context) [
        | inl f ↦ rw (e, f)
        | inr (ctx, f) ↦ let yes' = h applies ctx e f in rw (e, f) (rw yes')
      ]
    ]

is_undeclared-false :
    (rule : ThresholdRule) (declared : Option (List String))
    → (is_undeclared rule declared ≡ false) ↔ Declared rule declared
unfolding is_undeclared
is_undeclared-false rule none = (λ _ signals e. cc, λ _. refl)
is_undeclared-false rule (some signals) = (
  λ h signals' e.
      rw (← some_inj signals signals' e) ((contains_iff signals rule.signal_id).0 (ground arith)),
  λ h. let m = (contains_iff signals rule.signal_id).1 (h signals refl) in rw m,
)

decided_test :
    (threshold : Option String) (c : Comparison)
    → (elim threshold [ some _ ↦ false | none ↦ not (is_present_test c) ] ≡ false)
      ↔ ((threshold ≢ none) ⊎ (c ≡ Comparison.present))
decided_test (some t) c = (λ _. inl (λ e. cc), λ _. refl)
decided_test none c = (λ h. inr (ground arith), λ h. ground arith)

module _ (J : DecimalJs) (value : String) where
  compare_values_iff :
      (c : Comparison) (threshold : Quantity)
      → (compare_values J value c threshold ≡ true) ↔ Meets J value c threshold
  unfolding compare_values
  compare_values_iff Comparison.lt t = ground arith
  compare_values_iff Comparison.lte t = ground arith
  compare_values_iff Comparison.gt t = ground arith
  compare_values_iff Comparison.gte t = ground arith
  compare_values_iff Comparison.eq t = ground arith
  compare_values_iff Comparison.neq t = ground arith
  compare_values_iff Comparison.in_band t = ground arith
  compare_values_iff Comparison.present t = (λ _. tt, λ _. refl)

  fires_test :
      (c : Comparison) (t : Quantity)
      → ((if is_present_test c then true else compare_values J value c t) ≡ true)
        ↔ Meets J value c t
  fires_test Comparison.lt t = compare_values_iff Comparison.lt t
  fires_test Comparison.lte t = compare_values_iff Comparison.lte t
  fires_test Comparison.gt t = compare_values_iff Comparison.gt t
  fires_test Comparison.gte t = compare_values_iff Comparison.gte t
  fires_test Comparison.eq t = compare_values_iff Comparison.eq t
  fires_test Comparison.neq t = compare_values_iff Comparison.neq t
  fires_test Comparison.in_band t = compare_values_iff Comparison.in_band t
  fires_test Comparison.present t = (λ _. tt, λ _. refl)

is_undecided-false : (rule : ThresholdRule) → (is_undecided rule ≡ false) ↔ Decided rule
unfolding is_undecided
is_undecided-false rule = decided_test rule.threshold rule.comparison

upper_bound_test :
    (c : Comparison) → (is_upper_bound c ≡ true) ↔ ((c ≡ Comparison.gt) ⊎ (c ≡ Comparison.gte))
upper_bound_test c = ground arith

module _ (J : DecimalJs) (rule : ThresholdRule) where
  fired_unbounded :
      (r : SignalReading)
      → r.is_unbounded ≡ true
      → (evaluate_reading J rule (some r)).fired ≡ is_upper_bound rule.comparison
  unfolding evaluate_reading unbounded_evaluation
  fired_unbounded r e = rw e

  fired_none : (evaluate_reading J rule none).fired ≡ false
  unfolding evaluate_reading unmeasured
  fired_none = refl

  fired_missing :
      (r : SignalReading)
      → r.is_unbounded ≡ false
      → r.value ≡ none
      → (evaluate_reading J rule (some r)).fired ≡ false
  unfolding evaluate_reading unmeasured
  fired_missing r e f = rw (e, f)

  fired_measured :
      (r : SignalReading) (value : String)
      → r.is_unbounded ≡ false
      → r.value ≡ some value
      → (evaluate_reading J rule (some r)).fired ≡ fires_at J rule value
  unfolding evaluate_reading measured
  fired_measured r value e f = rw (e, f)

  evaluate_reading-fired_iff :
      (reading : Option SignalReading)
      → ((evaluate_reading J rule reading).fired ≡ true) ↔ Breaches J rule reading
  evaluate_reading-fired_iff none = (λ h. absurd (cc fired_none), λ h. absurd h)
  evaluate_reading-fired_iff (some r) = elim (Bool-cases r.is_unbounded) [
    | inl endless ↦ (
      λ h.
          inl (endless, (upper_bound_test rule.comparison).0 (sym (fired_unbounded r endless) ∙ h)),
      λ b. elim b [
        | inl (_, upper) ↦ fired_unbounded r endless ∙ (upper_bound_test rule.comparison).1 upper
        | inr (bounded, _, _, _) ↦ absurd (cc)
      ],
    )
    | inr bounded ↦ elim (Option-cases r.value) [
      | inl missing ↦ (
        λ h. absurd (cc (fired_missing r bounded missing)),
        λ b. elim b [ inl (endless, _) ↦ absurd (cc) | inr (_, value, given, _) ↦ absurd (cc) ],
      )
      | inr (value, given) ↦ (
        λ h. inr (
          bounded,
          value,
          given,
          (fires_test J value rule.comparison (or_else rule.threshold "undefined")).0
              (sym (fired_measured r value bounded given) ∙ h),
        ),
        λ b. elim b [
          | inl (endless, _) ↦ absurd (cc)
          | inr (_, value', given', met) ↦
              fired_measured r value bounded given
              ∙ (fires_test J value rule.comparison (or_else rule.threshold "undefined")).1 (
                  subst (λ v. Meets J v rule.comparison (or_else rule.threshold "undefined"))
                    (some_inj value' value (sym given' ∙ given)) met)
        ],
      )
    ]
  ]

  module _ (reading : Option SignalReading) (context : Option RuleApplicabilityContext)
      (declared : Option (List String)) where
    -- The four stages that a rule passes to fire.
    unfoldable pub Passes : Type 0
    Passes =
        (refusal_of rule context ≡ none)
        × (is_undeclared rule declared ≡ false)
        × (is_undecided rule ≡ false)
        × ((evaluate_reading J rule reading).fired ≡ true)

    -- What evaluateRule returns at each of its exits.
    pub evaluate_inapplicable :
        (verdict : ApplicabilityVerdict)
        → refusal_of rule context ≡ some verdict
        → evaluate_rule J rule reading context declared ≡ inapplicable rule reading verdict
    unfolding evaluate_rule
    evaluate_inapplicable verdict e = rw (e, evaluate_rule)

    pub evaluate_undeclared :
        refusal_of rule context ≡ none
        → is_undeclared rule declared ≡ true
        → evaluate_rule J rule reading context declared ≡ misconfigured rule
    unfolding evaluate_rule
    evaluate_undeclared a b = rw (a, b, evaluate_rule)

    pub evaluate_undecided :
        refusal_of rule context ≡ none
        → is_undeclared rule declared ≡ false
        → is_undecided rule ≡ true
        → evaluate_rule J rule reading context declared ≡ undecided rule reading
    unfolding evaluate_rule
    evaluate_undecided a b c = rw (a, b, c, evaluate_rule)

    pub evaluate_decided :
        refusal_of rule context ≡ none
        → is_undeclared rule declared ≡ false
        → is_undecided rule ≡ false
        → evaluate_rule J rule reading context declared ≡ evaluate_reading J rule reading
    unfolding evaluate_rule
    evaluate_decided a b c = rw (a, b, c, evaluate_rule)

    fired_of_passes : Passes → (evaluate_rule J rule reading context declared).fired ≡ true
    unfolding Passes
    fired_of_passes (applies, known, set, hit) = rw (evaluate_decided applies known set) hit

    pub passes_of_fired : (evaluate_rule J rule reading context declared).fired ≡ true → Passes
    unfolding Passes inapplicable misconfigured undecided
    passes_of_fired h = elim (Option-cases (refusal_of rule context)) [
      | inr (verdict, refused) ↦ absurd (cc (rw (evaluate_inapplicable verdict refused) at h))
      | inl applies ↦ elim (Bool-cases (is_undeclared rule declared)) [
        | inl unknown ↦ absurd (cc (rw (evaluate_undeclared applies unknown) at h))
        | inr known ↦ elim (Bool-cases (is_undecided rule)) [
          | inl unset ↦ absurd (cc (rw (evaluate_undecided applies known unset) at h))
          | inr set ↦ (applies, known, set, rw (evaluate_decided applies known set) at h)
        ]
      ]
    ]

  -- A rule fires exactly where it applies to the facts given, its signal is declared, its threshold
  -- is decided, and the reading breaches it: by a value that meets the comparison, or without bound
  -- under an upper bound. A missing reading or value never fires.
  pub evaluate_rule-fired_iff :
      (reading : Option SignalReading) (context : Option RuleApplicabilityContext)
      (declared : Option (List String))
      → ((evaluate_rule J rule reading context declared).fired ≡ true)
        ↔ (Applies rule context × Declared rule declared × Decided rule × Breaches J rule reading)
  unfolding Passes
  evaluate_rule-fired_iff reading context declared = (
    λ h.
        let (a, b, c, d) = passes_of_fired reading context declared h in
        (
          (refusal_of-none rule context).0 a,
          (is_undeclared-false rule declared).0 b,
          (is_undecided-false rule).0 c,
          (evaluate_reading-fired_iff reading).0 d,
        ),
    λ (a, b, c, d). fired_of_passes reading context declared (
      (refusal_of-none rule context).1 a,
      (is_undeclared-false rule declared).1 b,
      (is_undecided-false rule).1 c,
      (evaluate_reading-fired_iff reading).1 d,
    ),
  )
