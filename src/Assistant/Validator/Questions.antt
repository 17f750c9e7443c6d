-- ===== src/Assistant/Validator/Questions.antt =====
-- validatePlan: the checks on the question and on the filters.
use gldaassurance.Base.{
  ◌||◌, All, inl, joined-nil_iff, arith, ◌∷◌, unless_nil, ==_iff, List, refl, ◌==◌, [], ◌≡◌,
  nil_append, contains_iff, contains, ◌↔◌, ◌⊎◌, true, Bool-cases, inr, string_eq,
}
use gldaassurance.Assistant.Validator.{
  question_parts, threshold_rejections, all_threshold_rejections, question_rejections,
  filter_rejections, PlannerVocabulary, filter_parts,
}
use gldaassurance.Assistant.Plan.{
  all_comparisons, ThresholdCondition, QueryPlan, all_findings, all_trajectories, all_drivers,
  all_times, all_metrics, all_shapes, PlanFilters, all_sorts, all_bands, all_groups,
}
use gldaassurance.Assistant.Validator.Values.{
  IsListed-iff, check_enum-nil_iff, check_vocabulary-nil_iff, each_known_iff, limit_iff,
}
use gldaassurance.Assistant.Validator.Promises.{IsThreshold, FiltersGoverned, AsksGoverned}

pub question_rejections-nil_iff :
    (plan : QueryPlan) → (question_rejections plan ≡ []) ↔ AsksGoverned plan
unfolding question_rejections
question_rejections-nil_iff plan = (
  λ h.
      let (a, (b, (c, (d, (e, (f, (g, _))))))) = (joined-nil_iff (question_parts plan)).0 h in
      record {
        shape_known = (contains_iff all_shapes plan.shape).0 ((unless_nil _ _).0 a);
        metrics_known = (each_known_iff all_metrics _ plan.metrics).0 b;
        sort_known = (contains_iff all_sorts plan.plan_sort).0 ((unless_nil _ _).0 c);
        time_known = (contains_iff all_times plan.plan_time).0 ((unless_nil _ _).0 d);
        comparison_known =
            (contains_iff all_comparisons plan.plan_comparison).0 ((unless_nil _ _).0 e);
        group_known = (IsListed-iff all_groups plan.group_by).0 ((unless_nil _ _).0 f);
        limit_bounded = (limit_iff plan.limit).0 ((unless_nil _ _).0 g);
      },
  λ r. (joined-nil_iff (question_parts plan)).1 (
    (unless_nil _ _).1 ((contains_iff all_shapes plan.shape).1 r.shape_known),
    (
      (each_known_iff all_metrics _ plan.metrics).1 r.metrics_known,
      (
        (unless_nil _ _).1 ((contains_iff all_sorts plan.plan_sort).1 r.sort_known),
        (
          (unless_nil _ _).1 ((contains_iff all_times plan.plan_time).1 r.time_known),
          (
            (unless_nil _ _).1
                ((contains_iff all_comparisons plan.plan_comparison).1 r.comparison_known),
            (
              (unless_nil _ _).1 ((IsListed-iff all_groups plan.group_by).1 r.group_known),
              ((unless_nil _ _).1 ((limit_iff plan.limit).1 r.limit_bounded), tt),
            ),
          ),
        ),
      ),
    ),
  ),
)

pub threshold_rejections-nil_iff :
    (t : ThresholdCondition) → (threshold_rejections t ≡ []) ↔ IsThreshold t
unfolding threshold_rejections
threshold_rejections-nil_iff t = elim (Bool-cases (contains all_metrics t.metric)) [
  | inr unknown ↦
      rw unknown
        (λ h. absurd (cc), λ h. absurd (cc (unknown, (contains_iff all_metrics t.metric).1 h.0)))
  | inl known ↦ rw known (
    λ h.
        let (a, b) = (nil_append _ _).0 h in
        (
          (contains_iff all_metrics t.metric).0 known,
          operator_iff.0 ((unless_nil _ _).0 a),
          (unless_nil _ _).0 b,
        ),
    λ h. (nil_append _ _).1 ((unless_nil _ _).1 (operator_iff.1 h.1), (unless_nil _ _).1 h.2),
  )
]
  where
    operator_iff :
        (t.operator == "gte" || t.operator == "lte" ≡ true)
        ↔ ((t.operator ≡ "gte") ⊎ (t.operator ≡ "lte"))
    operator_iff = ground (arith, ==_iff t.operator "gte", ==_iff t.operator "lte")

pub all_threshold_rejections-nil_iff :
    (ts : List ThresholdCondition) → (all_threshold_rejections ts ≡ []) ↔ All IsThreshold ts
unfolding all_threshold_rejections
all_threshold_rejections-nil_iff [] = (λ _. tt, λ _. refl)
all_threshold_rejections-nil_iff (t ∷ ts) =
    let (split, join) = nil_append (threshold_rejections t) (all_threshold_rejections ts) in
    (
      λ h. (
        (threshold_rejections-nil_iff t).0 (split h).0,
        (all_threshold_rejections-nil_iff ts).0 (split h).1,
      ),
      λ a.
          join
            ((threshold_rejections-nil_iff t).1 a.0, (all_threshold_rejections-nil_iff ts).1 a.1),
    )

pub filter_rejections-nil_iff :
    (f : PlanFilters) (v : PlannerVocabulary) → (filter_rejections f v ≡ []) ↔ FiltersGoverned f v
unfolding filter_rejections
filter_rejections-nil_iff f v = (
  λ h.
      let (a, (b, (c, (d, (e, (k, (l, (m, (n, (o, (p, (q, (r, _))))))))))))) =
        (joined-nil_iff (filter_parts f v)).0 h in
      record {
        regions_held = (check_vocabulary-nil_iff "regions" f.regions v.known_regions).0 a;
        industries_held =
            (check_vocabulary-nil_iff "industries" f.industries v.known_industries).0 b;
        accounts_held = (check_vocabulary-nil_iff "accounts" f.accounts v.known_accounts).0 c;
        customers_held = (check_vocabulary-nil_iff "customers" f.customers v.known_customers).0 d;
        groups_held =
            (check_vocabulary-nil_iff "deliveryGroups" f.delivery_groups v.known_delivery_groups).0
              e;
        system_known = (check_enum-nil_iff "systemRag" f.system_rag all_bands).0 k;
        reported_known = (check_enum-nil_iff "reportedRag" f.reported_rag all_bands).0 l;
        outlook30_known = (check_enum-nil_iff "outlook30" f.outlook30 all_bands).0 m;
        outlook60_known = (check_enum-nil_iff "outlook60" f.outlook60 all_bands).0 n;
        trajectory_known = (check_enum-nil_iff "trajectory" f.trajectory all_trajectories).0 o;
        drivers_known = (check_enum-nil_iff "drivers" f.drivers all_drivers).0 p;
        findings_known = (check_enum-nil_iff "findings" f.plan_findings all_findings).0 q;
        thresholds_formed = (all_threshold_rejections-nil_iff f.thresholds).0 r;
      },
  λ g. (joined-nil_iff (filter_parts f v)).1 (
    (check_vocabulary-nil_iff "regions" f.regions v.known_regions).1 g.regions_held,
    (
      (check_vocabulary-nil_iff "industries" f.industries v.known_industries).1 g.industries_held,
      (
        (check_vocabulary-nil_iff "accounts" f.accounts v.known_accounts).1 g.accounts_held,
        (
          (check_vocabulary-nil_iff "customers" f.customers v.known_customers).1 g.customers_held,
          (
            (check_vocabulary-nil_iff "deliveryGroups" f.delivery_groups v.known_delivery_groups).1
                g.groups_held,
            (
              (check_enum-nil_iff "systemRag" f.system_rag all_bands).1 g.system_known,
              (
                (check_enum-nil_iff "reportedRag" f.reported_rag all_bands).1 g.reported_known,
                (
                  (check_enum-nil_iff "outlook30" f.outlook30 all_bands).1 g.outlook30_known,
                  (
                    (check_enum-nil_iff "outlook60" f.outlook60 all_bands).1 g.outlook60_known,
                    (
                      (check_enum-nil_iff "trajectory" f.trajectory all_trajectories).1
                          g.trajectory_known,
                      (
                        (check_enum-nil_iff "drivers" f.drivers all_drivers).1 g.drivers_known,
                        (
                          (check_enum-nil_iff "findings" f.plan_findings all_findings).1
                              g.findings_known,
                          (
                            (all_threshold_rejections-nil_iff f.thresholds).1 g.thresholds_formed,
                            tt,
                          ),
                        ),
                      ),
                    ),
                  ),
                ),
              ),
            ),
          ),
        ),
      ),
    ),
  ),
)
