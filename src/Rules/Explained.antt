-- ===== src/Rules/Explained.antt =====
-- The engine and the explanation together: what an explanation of evaluateRules lists.
use mathlib.Core.Path.{subst}
use gldaassurance.Base.{
  [], Option, List, Bool-cases, some, All, ◌==◌, refl, inr, some_inj, get, inl, String, ◌≢◌, ◌≡◌,
  ◌∷◌, ap, true, ◌∙◌, map, sym, string_eq, mem-filter, filter, mem-map, mem-filter_iff,
  mem_of_mem-map, Memᴰ, ◌↔◌, Option-cases, false, none, all, none-ne-some,
}
use gldaassurance.Decimals.{DecimalJs}
use gldaassurance.Rules.Engine.{
  SignalReading, ThresholdRule, unmeasured, unbounded_evaluation, measured, evaluate_rule,
  evaluate_rules, RuleApplicabilityContext, inapplicable, misconfigured, undecided, compared_in,
  evaluate_rule_result, evaluate_rules_result, is_undecided, compared_texts, is_present_test,
  value_of, reading_texts, without_minus, is_undeclared, refusal_of,
}
use gldaassurance.Explainability.Explaining.{IsTraceable, explain-explained_iff}
use gldaassurance.Rules.Engine.Exits.{
  evaluate_rule-rule_id, evaluate_rule_cases, evaluate_reading_cases,
}
use gldaassurance.Explainability.{
  Explanation, explain, RuleEvaluation, ExplainArgs, explained, explanation_of, Comparison,
}
use gldaassurance.Rules.Engine.Outcomes.{
  Breaches, Declared, evaluate_rule-fired_iff, Decided, Applies,
}

-- Every reading names a record.
abbrev pub IsBacked : List (String × SignalReading) → Type 0
IsBacked readings = All (λ entry. entry.1.evidence ≢ []) readings

pub get-All :
    (P : SignalReading → Type 0) (readings : List (String × SignalReading)) (key : String)
    (r : SignalReading)
    → All (λ entry. P entry.1) readings
    → get readings key ≡ some r
    → P r
unfolding get
get-All P [] key r a h = absurd (cc)
get-All P ((k, v) ∷ readings) key r a h = elim (Bool-cases (k == key)) [
  | inl hit ↦ subst P (some_inj v r (rw (hit, get) at h)) a.0
  | inr miss ↦ get-All P readings key r a.1 (rw (miss, get) at h)
]

map-nil : {A B : Type 0} (f : A → B) (xs : List A) → map f xs ≡ [] → xs ≡ []
map-nil f [] h = refl
map-nil f (x ∷ xs) h = absurd (cc)

abbrev RestsOn : Option SignalReading → RuleEvaluation → Type 0
RestsOn reading e =
    e.fired ≡ true → (r : SignalReading) × (reading ≡ some r) × (e.evidence ≡ r.evidence)

module _ (J : DecimalJs) where
  -- What a rule that fired rests on.
  fired_evidence :
      (rule : ThresholdRule) (reading : Option SignalReading)
      (context : Option RuleApplicabilityContext) (declared : Option (List String))
      → (evaluate_rule J rule reading context declared).fired ≡ true
      → (r : SignalReading) × (reading ≡ some r)
        × ((evaluate_rule J rule reading context declared).evidence ≡ r.evidence)
  unfolding inapplicable misconfigured undecided unmeasured unbounded_evaluation measured
  fired_evidence rule reading context declared =
      evaluate_rule_cases J rule reading context declared (RestsOn reading) (λ _ hit. absurd (cc))
        (λ hit. absurd (cc)) (λ hit. absurd (cc))
        (evaluate_reading_cases J rule (RestsOn reading) reading (λ hit. absurd (cc))
          (λ r e hit. (r, e, refl)) (λ r value e hit. (r, e, refl)))

  module _ (readings : List (String × SignalReading)) (context : Option RuleApplicabilityContext)
      (declared : Option (List String)) where
    pub evaluate_rules-IsTraceable :
        (rules : List ThresholdRule)
        → IsBacked readings
        → All IsTraceable (evaluate_rules J rules readings context declared)
    unfolding evaluate_rules
    evaluate_rules-IsTraceable [] backed = tt
    evaluate_rules-IsTraceable (rule ∷ rules) backed = (
      λ hit empty.
          let (r, given, same) =
            fired_evidence rule (get readings rule.signal_id) context declared hit in
          get-All (λ r. r.evidence ≢ []) readings rule.signal_id r backed given (sym same ∙ empty),
      evaluate_rules-IsTraceable rules backed,
    )

    map-rule_id-evaluate_rules :
        (rules : List ThresholdRule)
        → map (λ e. e.rule_id) (evaluate_rules J rules readings context declared)
          ≡ map (λ rule. rule.id) rules
    unfolding evaluate_rules
    map-rule_id-evaluate_rules [] = refl
    map-rule_id-evaluate_rules (rule ∷ rules) =
        rw (evaluate_rule-rule_id J rule (get readings rule.signal_id) context declared)
          (ap (λ l. rule.id ∷ l) (map-rule_id-evaluate_rules rules))

    -- The ids of the evaluations that pass a test are those of the rules whose evaluation does.
    mem_fired_iff :
        (id : String) (rules : List ThresholdRule)
        → Memᴰ id (
            map
              (λ e. e.rule_id)
              (filter (λ e. e.fired) (evaluate_rules J rules readings context declared)))
          ↔ ((rule : ThresholdRule) × Memᴰ rule rules
              × (id ≡ rule.id)
              × ((evaluate_rule J rule (get readings rule.signal_id) context declared).fired
                  ≡ true))
    unfolding evaluate_rules
    mem_fired_iff id rules = (to rules, λ (rule, m, e, hit). from rules rule m e hit)
      where
        evaluation : ThresholdRule → RuleEvaluation
        evaluation rule = evaluate_rule J rule (get readings rule.signal_id) context declared

        to :
            (l : List ThresholdRule)
            → Memᴰ id (map (λ e. e.rule_id) (filter (λ e. e.fired) (map evaluation l)))
            → (rule : ThresholdRule) × Memᴰ rule l
              × (id ≡ rule.id)
              × ((evaluation rule).fired ≡ true)
        to l m =
            let (e, kept, same) =
              mem_of_mem-map (λ e. e.rule_id) id (filter (λ e. e.fired) (map evaluation l)) m in
            let (listed, hit) = (mem-filter_iff (λ e. e.fired) e (map evaluation l)).0 kept in
            let (rule, given, made) = mem_of_mem-map evaluation e l listed in
            (
              rule,
              given,
              same
                  ∙ ap (λ x. x.rule_id) made
                  ∙ evaluate_rule-rule_id J rule (get readings rule.signal_id) context declared,
              ap (λ x. x.fired) (sym made) ∙ hit,
            )

        from :
            (l : List ThresholdRule) (rule : ThresholdRule)
            → Memᴰ rule l
            → id ≡ rule.id
            → (evaluation rule).fired ≡ true
            → Memᴰ id (map (λ e. e.rule_id) (filter (λ e. e.fired) (map evaluation l)))
        from l rule m e hit =
            subst (λ x. Memᴰ x (map (λ e. e.rule_id) (filter (λ e. e.fired) (map evaluation l))))
              (evaluate_rule-rule_id J rule (get readings rule.signal_id) context declared ∙ sym e)
              (mem-map (λ e. e.rule_id) (filter (λ e. e.fired) (map evaluation l))
                (mem-filter (λ e. e.fired) (map evaluation l) (mem-map evaluation l m) hit))

    -- Every value read is a number, its sign left away or not, and so is every threshold.
    abbrev pub AreNumbers : List ThresholdRule → Type 0
    AreNumbers rules =
        All
          (λ entry.
            (value : String)
            → entry.1.value ≡ some value
            → (J.is_number value ≡ true) × (J.is_number (without_minus value) ≡ true))
          readings
        × All (λ rule. (t : String) → rule.threshold ≡ some t → J.is_number t ≡ true) rules

    compared_in-numbers :
        (c : Comparison) (value t : String)
        → (J.is_number value ≡ true) × (J.is_number (without_minus value) ≡ true)
        → J.is_number t ≡ true
        → all J.is_number (compared_in c value t) ≡ true
    compared_in-numbers Comparison.lt value t (v, w) n = rw (v, n) refl
    compared_in-numbers Comparison.lte value t (v, w) n = rw (v, n) refl
    compared_in-numbers Comparison.gt value t (v, w) n = rw (v, n) refl
    compared_in-numbers Comparison.gte value t (v, w) n = rw (v, n) refl
    compared_in-numbers Comparison.eq value t (v, w) n = rw (v, n) refl
    compared_in-numbers Comparison.neq value t (v, w) n = rw (v, n) refl
    compared_in-numbers Comparison.in_band value t (v, w) n = rw (v, n, w) refl
    compared_in-numbers Comparison.present value t (v, w) n = rw (v, n) refl

    reading_texts-numbers :
        (rule : ThresholdRule) (reading : Option SignalReading)
        → is_undecided rule ≡ false
        → ((value : String)
            → value_of reading ≡ some value
            → (J.is_number value ≡ true) × (J.is_number (without_minus value) ≡ true))
        → ((t : String) → rule.threshold ≡ some t → J.is_number t ≡ true)
        → all J.is_number (reading_texts rule reading) ≡ true
    unfolding is_undecided
    reading_texts-numbers rule none made values thresholds = refl
    reading_texts-numbers rule (some r) made values thresholds = elim (Bool-cases r.is_unbounded) [
      | inl endless ↦ rw endless refl
      | inr bounded ↦ elim (Option-cases r.value) [
        | inl gone ↦ rw (bounded, gone) refl
        | inr (value, there) ↦ elim (Bool-cases (is_present_test rule.comparison)) [
          | inl tests_presence ↦ rw (bounded, there, tests_presence) refl
          | inr compares ↦ elim (Option-cases rule.threshold) [
            | inl none_set ↦ absurd (cc (rw (none_set, compares) at made))
            | inr (t, at_t) ↦
                rw (bounded, there, compares, at_t)
                  (compared_in-numbers rule.comparison value t (values value there)
                    (thresholds t at_t))
          ]
        ]
      ]
    ]

    value_number :
        (signal value : String)
        → All
            (λ entry.
              (v : String)
              → entry.1.value ≡ some v
              → (J.is_number v ≡ true) × (J.is_number (without_minus v) ≡ true))
            readings
        → value_of (get readings signal) ≡ some value
        → (J.is_number value ≡ true) × (J.is_number (without_minus value) ≡ true)
    value_number signal value values h = elim (Option-cases (get readings signal)) [
      | inl gone ↦ absurd (cc (rw gone at h))
      | inr (r, there) ↦
          get-All
            (λ r.
              (v : String)
              → r.value ≡ some v
              → (J.is_number v ≡ true) × (J.is_number (without_minus v) ≡ true))
            readings signal r values there value (rw there at h)
    ]

    compared_texts-numbers :
        (rule : ThresholdRule) (reading : Option SignalReading)
        → ((value : String)
            → value_of reading ≡ some value
            → (J.is_number value ≡ true) × (J.is_number (without_minus value) ≡ true))
        → ((t : String) → rule.threshold ≡ some t → J.is_number t ≡ true)
        → all J.is_number (compared_texts rule reading context declared) ≡ true
    unfolding compared_texts
    compared_texts-numbers rule reading values thresholds =
        elim (Option-cases (refusal_of rule context)) [
          | inr (verdict, e) ↦ rw (e, compared_texts) refl
          | inl e ↦ elim (Bool-cases (is_undeclared rule declared)) [
            | inl undeclared ↦ rw (e, undeclared, compared_texts) refl
            | inr known ↦ elim (Bool-cases (is_undecided rule)) [
              | inl open_rule ↦ rw (e, known, open_rule, compared_texts) refl
              | inr decided_rule ↦
                  rw (e, known, decided_rule, compared_texts)
                    (reading_texts-numbers rule reading decided_rule values thresholds)
            ]
          ]
        ]

    evaluate_rule_result-numbers :
        (rule : ThresholdRule) (reading : Option SignalReading)
        → all J.is_number (compared_texts rule reading context declared) ≡ true
        → evaluate_rule_result J rule reading context declared
          ≡ some (evaluate_rule J rule reading context declared)
    unfolding evaluate_rule_result
    evaluate_rule_result-numbers rule reading numbers = rw numbers refl

    pub evaluate_rules_result-numbers :
        (rules : List ThresholdRule)
        → AreNumbers rules
        → evaluate_rules_result J rules readings context declared
          ≡ some (evaluate_rules J rules readings context declared)
    unfolding evaluate_rules_result evaluate_rules
    evaluate_rules_result-numbers [] numbers = refl
    evaluate_rules_result-numbers (rule ∷ rules) (values, (first, others)) =
        let reading = get readings rule.signal_id in
        rw
          (
            evaluate_rule_result-numbers rule reading (
                compared_texts-numbers rule reading
                  (λ value h. value_number rule.signal_id value values h) first),
            evaluate_rules_result-numbers rules (values, others),
            evaluate_rules_result,
          )
          refl

    evaluate_rule_result-some :
        (rule : ThresholdRule) (reading : Option SignalReading) (e : RuleEvaluation)
        → evaluate_rule_result J rule reading context declared ≡ some e
        → e ≡ evaluate_rule J rule reading context declared
    unfolding evaluate_rule_result
    evaluate_rule_result-some rule reading e h =
        elim (Bool-cases (all J.is_number (compared_texts rule reading context declared))) [
          | inl numbers ↦ sym (some_inj _ e (rw numbers at h))
          | inr bad ↦ absurd (none-ne-some e (rw bad at h))
        ]

    pub evaluate_rules_result-some :
        (rules : List ThresholdRule) (evaluated : List RuleEvaluation)
        → evaluate_rules_result J rules readings context declared ≡ some evaluated
        → evaluated ≡ evaluate_rules J rules readings context declared
    unfolding evaluate_rules_result evaluate_rules
    evaluate_rules_result-some [] evaluated h = sym (some_inj [] evaluated h)
    evaluate_rules_result-some (rule ∷ rules) evaluated h =
        let reading = get readings rule.signal_id in
        elim (Option-cases (evaluate_rule_result J rule reading context declared)) [
          | inl gone ↦ absurd (none-ne-some evaluated (rw (gone, evaluate_rules_result) at h))
          | inr (e, first) ↦
              elim (Option-cases (evaluate_rules_result J rules readings context declared)) [
                | inl gone ↦
                    absurd (none-ne-some evaluated (rw (first, gone, evaluate_rules_result) at h))
                | inr (es, others) ↦
                    sym
                      (some_inj (e ∷ es) evaluated (rw (first, others, evaluate_rules_result) at h))
                    ∙ ap (λ x. x ∷ es) (evaluate_rule_result-some rule reading e first)
                    ∙ ap (λ xs. evaluate_rule J rule reading context declared ∷ xs)
                        (evaluate_rules_result-some rules es others)
              ]
        ]

    -- Where there is a rule, every reading names a record, and every value and every threshold is a
    -- number, the rules are evaluated and the evaluations can be explained: the explanation holds one
    -- evaluation for each rule, in their order, and lists as fired exactly the rules that apply, are
    -- declared, are decided and are breached.
    pub evaluate_rules-explained :
        (rules : List ThresholdRule) (args : ExplainArgs)
        → rules ≢ []
        → IsBacked readings
        → AreNumbers rules
        → (evaluated : List RuleEvaluation) × (evaluate_rules_result J rules readings context
              declared
            ≡ some evaluated)
          × (x : Explanation) × (explain (record args { evaluations = evaluated }) ≡ explained x)
          × (map (λ e. e.rule_id) x.evaluations ≡ map (λ rule. rule.id) rules)
          × ((id : String)
              → Memᴰ id x.fired_rules ↔ (
                  (rule : ThresholdRule) × Memᴰ rule rules
                  × (id ≡ rule.id)
                  × (Applies rule context
                      × Declared rule declared
                      × Decided rule
                      × Breaches J rule (get readings rule.signal_id))))
    evaluate_rules-explained rules given some' backed numbers =
        let evaluated = evaluate_rules J rules readings context declared in
        let args : ExplainArgs = record given { evaluations = evaluated } in
        (
          evaluated,
          evaluate_rules_result-numbers rules numbers,
          explanation_of args,
          (explain-explained_iff args (explanation_of args)).1 (
            λ empty. some' (
                map-nil (λ rule. rule.id) rules
                  (sym (map-rule_id-evaluate_rules rules) ∙ ap (map (λ e. e.rule_id)) empty)),
            evaluate_rules-IsTraceable rules backed,
            refl,
          ),
          map-rule_id-evaluate_rules rules,
          λ id. (
            λ m.
                let (rule, m', e, hit) = (mem_fired_iff id rules).0 m in
                (
                  rule,
                  m',
                  e,
                  (evaluate_rule-fired_iff J rule (get readings rule.signal_id) context declared).0
                      hit,
                ),
            λ (rule, m, e, stages). (mem_fired_iff id rules).1 (
              rule,
              m,
              e,
              (evaluate_rule-fired_iff J rule (get readings rule.signal_id) context declared).1
                  stages,
            ),
          ),
        )
