-- ===== src/Health/Statuses/Coverage.antt =====
-- ruleCoverage: what its counts and its flag say of the evaluations.
use gldaassurance.Explainability.{
  not_computable_status, clear_status, not_applicable_status, configuration_error_status,
  fired_status, RuleEvaluation, RuleEvaluationStatus,
}
use gldaassurance.Base.{
  [], is_empty, length, ◌↔◌, refl, List, arith, ◌≡◌, true, ◌∷◌, ◌+◌, suc, ℕ, Bool, filter, inl,
  nat_eqb, ◌&&◌, Bool-cases, ap, false, inr,
}
use gldaassurance.Health.Statuses.{with_status, coverage_of, status_index, rule_ids, has_status}

-- What a test adds to a count.
abbrev once : Bool → ℕ → ℕ
once true n = suc n
once false n = n

length-filter_cons :
    (p : RuleEvaluation → Bool) (e : RuleEvaluation) (es : List RuleEvaluation)
    → length (filter p (e ∷ es)) ≡ once (p e) (length (filter p es))
length-filter_cons p e es = elim (Bool-cases (p e)) [ inl hit ↦ rw hit | inr miss ↦ rw miss ]

one_status :
    (s : RuleEvaluationStatus) (n a b c d f : ℕ)
    → n ≡ a + b + c + d + f
    → suc n
      ≡ once (nat_eqb (status_index s) 0) a
        + once (nat_eqb (status_index s) 1) b
        + once (nat_eqb (status_index s) 2) c
        + once (nat_eqb (status_index s) 3) d
        + once (nat_eqb (status_index s) 4) f
one_status fired_status n a b c d f h = omega arith
one_status clear_status n a b c d f h = omega arith
one_status not_applicable_status n a b c d f h = omega arith
one_status not_computable_status n a b c d f h = omega arith
one_status configuration_error_status n a b c d f h = omega arith

-- Every evaluation has one status.
counts_partition :
    (es : List RuleEvaluation)
    → length es
      ≡ length (with_status fired_status es)
        + length (with_status clear_status es)
        + length (with_status not_applicable_status es)
        + length (with_status not_computable_status es)
        + length (with_status configuration_error_status es)
unfolding with_status
counts_partition [] = refl
counts_partition (e ∷ es) =
    simp
      (
        length-filter_cons (has_status fired_status) e es,
        length-filter_cons (has_status clear_status) e es,
        length-filter_cons (has_status not_applicable_status) e es,
        length-filter_cons (has_status not_computable_status) e es,
        length-filter_cons (has_status configuration_error_status) e es,
      )
      (one_status e.status (length es) (length (with_status fired_status es))
        (length (with_status clear_status es)) (length (with_status not_applicable_status es))
        (length (with_status not_computable_status es))
        (length (with_status configuration_error_status es)) (counts_partition es))

length-rule_ids : (es : List RuleEvaluation) → length (rule_ids es) ≡ length es
length-rule_ids [] = refl
length-rule_ids (e ∷ es) = ap suc (length-rule_ids es)

both_empty :
    (xs ys : List RuleEvaluation)
    → (is_empty xs && is_empty ys ≡ true) ↔ (length xs + length ys ≡ 0)
both_empty [] [] = (λ _. refl, λ _. refl)
both_empty [] (y ∷ ys) = (λ h. absurd (cc), λ h. absurd (omega arith))
both_empty (x ∷ xs) ys = (λ h. absurd (cc), λ h. absurd (omega arith))

-- Whatever the evaluations: the rules that apply and those that do not make up the declared ones;
-- a rule that applies fired, is clear, could not be computed or is misconfigured; and the coverage
-- says that every rule that applies was evaluated exactly where each of these fired or is clear.
pub coverage_of-partition :
    (es : List RuleEvaluation)
    → ((coverage_of es).overrides_applicable + (coverage_of es).overrides_not_applicable
        ≡ (coverage_of es).overrides_declared)
      × ((coverage_of es).overrides_applicable
          ≡ (coverage_of es).overrides_fired
            + (coverage_of es).overrides_clear
            + (coverage_of es).overrides_not_computable
            + length (coverage_of es).configuration_error_controls)
      × (((coverage_of es).all_applicable_evaluated ≡ true) ↔ (
          (coverage_of es).overrides_fired + (coverage_of es).overrides_clear
          ≡ (coverage_of es).overrides_applicable))
unfolding coverage_of
coverage_of-partition es =
    let total = counts_partition es in
    let fired_length = length-rule_ids (with_status fired_status es) in
    let broken_length = length-rule_ids (with_status configuration_error_status es) in
    let (none_left, left_none) =
      both_empty (with_status not_computable_status es)
        (with_status configuration_error_status es) in
    (
      omega arith,
      omega arith,
      (λ h. let left = none_left h in omega arith, λ h. left_none (omega arith)),
    )
