-- ===== src/Explainability/Explaining.antt =====
-- explainability/index.ts: when an explanation is given, and what it lists.
use gldaassurance.Explainability.{
  fired_on_nothing, explanation_of, Explanation, ExplainArgs, RuleEvaluation, explained, explain,
  looked_at_nothing, fired_without_evidence,
}
use gldaassurance.Base.{
  All, Bool-cases, refl, true, [], ◌↔◌, find, ◌≡◌, ◌≢◌, none, arith, inl, inr, List, ◌∷◌, false,
  some, ◌∙◌, Option-cases, ap, sym, is_empty,
}

-- A firing rests on a record.
abbrev pub IsTraceable : RuleEvaluation → Type 0
IsTraceable e = e.fired ≡ true → e.evidence ≢ []

is_empty-false : {A : Type 0} (xs : List A) → (is_empty xs ≡ false) ↔ (xs ≢ [])
is_empty-false [] = (λ h. absurd (cc), λ h. absurd (h refl))
is_empty-false (x ∷ xs) = (λ _ e. cc, λ _. refl)

fired_on_nothing-false : (e : RuleEvaluation) → (fired_on_nothing e ≡ false) ↔ IsTraceable e
unfolding fired_on_nothing
fired_on_nothing-false e = elim (Bool-cases (is_empty e.evidence)) [
  | inl bare ↦ (
    λ h hit. absurd (ground arith),
    λ t. elim (Bool-cases e.fired) [
      | inl hit ↦ absurd (cc (bare, (is_empty-false e.evidence).1 (t hit)))
      | inr quiet ↦ rw quiet
    ],
  )
  | inr backed ↦ (λ _ _. (is_empty-false e.evidence).0 backed, λ _. ground arith)
]

All-IsTraceable :
    (es : List RuleEvaluation) → (find fired_on_nothing es ≡ none) ↔ All IsTraceable es
All-IsTraceable [] = (λ _. tt, λ _. refl)
All-IsTraceable (e ∷ es) = elim (Bool-cases (fired_on_nothing e)) [
  | inl bad ↦ (
    λ h. absurd (cc (rw (bad, find) at h)),
    λ a. absurd (cc (bad, (fired_on_nothing-false e).1 a.0)),
  )
  | inr good ↦ (
    λ h. ((fired_on_nothing-false e).0 good, (All-IsTraceable es).0 (rw (good, find) at h)),
    λ a. rw (good, find) ((All-IsTraceable es).1 a.1),
  )
]

explained_inj : {x y : Explanation} → explained x ≡ explained y → x ≡ y
explained_inj h = cc

explain_nothing :
    (args : ExplainArgs) → is_empty args.evaluations ≡ true → explain args ≡ looked_at_nothing
unfolding explain
explain_nothing args e = rw (e, explain)

explain_untraced :
    (args : ExplainArgs) (e : RuleEvaluation)
    → is_empty args.evaluations ≡ false
    → find fired_on_nothing args.evaluations ≡ some e
    → explain args ≡ fired_without_evidence e.rule_id
unfolding explain
explain_untraced args e some' bad = rw (some', bad, explain)

explain_traced :
    (args : ExplainArgs)
    → is_empty args.evaluations ≡ false
    → find fired_on_nothing args.evaluations ≡ none
    → explain args ≡ explained (explanation_of args)
unfolding explain
explain_traced args some' good = rw (some', good, explain)

-- An explanation is given exactly where there is an evaluation to explain and every rule that
-- fired names a record, and it is then the one that lists the evaluations, the rules that fired
-- and the rules that were not evaluated.
pub explain-explained_iff :
    (args : ExplainArgs) (x : Explanation)
    → (explain args ≡ explained x)
      ↔ ((args.evaluations ≢ []) × All IsTraceable args.evaluations × (x ≡ explanation_of args))
explain-explained_iff args x = (to, from)
  where
    to :
        explain args ≡ explained x
        → (args.evaluations ≢ []) × All IsTraceable args.evaluations × (x ≡ explanation_of args)
    to h = elim (Bool-cases (is_empty args.evaluations)) [
      | inl bare ↦ absurd (cc (h, explain_nothing args bare))
      | inr some' ↦ elim (Option-cases (find fired_on_nothing args.evaluations)) [
        | inr (e, bad) ↦ absurd (cc (h, explain_untraced args e some' bad))
        | inl good ↦ (
          (is_empty-false args.evaluations).0 some',
          (All-IsTraceable args.evaluations).0 good,
          explained_inj (sym h ∙ explain_traced args some' good),
        )
      ]
    ]

    from :
        (args.evaluations ≢ []) × All IsTraceable args.evaluations × (x ≡ explanation_of args)
        → explain args ≡ explained x
    from (some', good, same) =
        explain_traced args ((is_empty-false args.evaluations).1 some')
          ((All-IsTraceable args.evaluations).1 good)
        ∙ ap explained (sym same)
