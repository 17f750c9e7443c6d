-- ===== src/Assistant/Validator/Governed.antt =====
-- validatePlan: which plans it accepts.
use gldaassurance.Base.{
  ap, ◌↔◌, [], Bool-cases, ◌∷◌, refl, is_empty, joined-nil_iff, ◌≡◌, inl, true, List, sym, inr,
}
use gldaassurance.Assistant.Validator.{
  rejection_parts, validate_plan, accepted, PlanRejection, all_rejections, PlanContext,
}
use gldaassurance.Assistant.Plan.{QueryPlan}
use gldaassurance.Assistant.Validator.Scopes.{
  value_rejections-nil_iff, query_rejections-nil_iff, scope_rejections-nil_iff,
  metric_rejections-nil_iff,
}
use gldaassurance.Assistant.Validator.Promises.{IsGoverned}
use gldaassurance.Assistant.Validator.Questions.{
  question_rejections-nil_iff, filter_rejections-nil_iff,
}

all_rejections-nil_iff :
    (plan : QueryPlan) (context : PlanContext)
    → (all_rejections plan context ≡ []) ↔ IsGoverned plan context
unfolding all_rejections
all_rejections-nil_iff plan context = (
  λ h.
      let (a, (b, (c, (d, (e, (f, _)))))) = (joined-nil_iff (rejection_parts plan context)).0 h in
      record {
        asks = (question_rejections-nil_iff plan).0 a;
        filters_by = (filter_rejections-nil_iff plan.filters context.vocabulary).0 b;
        stays = (scope_rejections-nil_iff plan context.authorised_project_ids).0 c;
        names_metric = (metric_rejections-nil_iff plan.plan_metric_id context.known_metric_ids).0 d;
        asks_words = (query_rejections-nil_iff plan.evidence_query).0 e;
        carries_no_code = (value_rejections-nil_iff plan.filters).0 f;
      },
  λ r. (joined-nil_iff (rejection_parts plan context)).1 (
    (question_rejections-nil_iff plan).1 r.asks,
    (
      (filter_rejections-nil_iff plan.filters context.vocabulary).1 r.filters_by,
      (
        (scope_rejections-nil_iff plan context.authorised_project_ids).1 r.stays,
        (
          (metric_rejections-nil_iff plan.plan_metric_id context.known_metric_ids).1 r.names_metric,
          (
            (query_rejections-nil_iff plan.evidence_query).1 r.asks_words,
            ((value_rejections-nil_iff plan.filters).1 r.carries_no_code, tt),
          ),
        ),
      ),
    ),
  ),
)

accepted_inj : {p q : QueryPlan} → accepted p ≡ accepted q → p ≡ q
accepted_inj h = cc

pub validate_plan-accepted_iff :
    (plan given : QueryPlan) (context : PlanContext)
    → (validate_plan plan context ≡ accepted given) ↔ ((given ≡ plan) × IsGoverned plan context)
unfolding validate_plan
validate_plan-accepted_iff plan given context =
    elim (Bool-cases (is_empty (all_rejections plan context))) [
      | inl clean ↦ rw clean (
        λ h. (
          sym (accepted_inj h),
          (all_rejections-nil_iff plan context).0
              ((is_empty_iff (all_rejections plan context)).0 clean),
        ),
        λ h. ap accepted (sym h.0),
      )
      | inr some' ↦ rw some' (
        λ h. absurd (cc),
        λ h. absurd (
            cc (
              some',
              (is_empty_iff (all_rejections plan context)).1
                  ((all_rejections-nil_iff plan context).1 h.1),
            )),
      )
    ]
  where
    is_empty_iff : (xs : List PlanRejection) → (is_empty xs ≡ true) ↔ (xs ≡ [])
    is_empty_iff [] = (λ _. refl, λ _. refl)
    is_empty_iff (x ∷ xs) = (λ h. absurd (cc), λ h. absurd (cc))
