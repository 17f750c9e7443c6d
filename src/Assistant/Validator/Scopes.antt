-- ===== src/Assistant/Validator/Scopes.antt =====
-- validatePlan: the checks on projects, the metric id, free text and sizes.
use gldaassurance.Base.{
  String, arith, joined-nil_iff, true, nil_append, is_empty, contains, ◌≤◌, ◌⊎◌, ℕ, filter, not,
  length, ◌&&◌, none, inl, Bool, refl, contains_iff, unless_nil, List, false, Memᴰ, All, [], some,
  Option, leb, Bool-cases, ◌∷◌, ◌≢◌, ◌≡◌, ◌↔◌, inr, string_eq,
}
use gldaassurance.Audit.{query}
use gldaassurance.Api.Validation.{unit_length}
use gldaassurance.Assistant.Patterns.{finds}
use gldaassurance.Assistant.Validator.{
  executable_shape, PlanRejection, check_count, each_unless, value_parts, value_rejections,
  named_values, metric_rejections, scope_parts, query_rejections, scope_rejections,
}
use gldaassurance.Assistant.Plan.{project_shapes, PlanFilters, QueryPlan, requires_project}
use gldaassurance.Assistant.Validator.Values.{each_unless-nil_iff, IsListed-iff, All-iff}
use gldaassurance.Assistant.Validator.Promises.{CarriesNoCode, NamesMetric, StaysInScope, AsksWords}
use gldaassurance.Authorization.FieldPolicy.{shape}
use gldaassurance.Health.Scoring.{is_some}

-- No id is left once those of the scope are taken out.
pub outside-empty_iff :
    (in_scope ids : List String)
    → (is_empty (filter (λ id. not (contains in_scope id)) ids) ≡ true)
      ↔ All (λ id. Memᴰ id in_scope) ids
outside-empty_iff in_scope [] = (λ _. tt, λ _. refl)
outside-empty_iff in_scope (id ∷ ids) = elim (Bool-cases (contains in_scope id)) [
  | inl within ↦ rw within (
    λ h. ((contains_iff in_scope id).0 within, (outside-empty_iff in_scope ids).0 h),
    λ a. (outside-empty_iff in_scope ids).1 a.1,
  )
  | inr outside ↦
      rw outside (λ h. absurd (cc), λ a. absurd (cc (outside, (contains_iff in_scope id).1 a.0)))
]

pub is_some-ne_none : {A : Type 0} (x : Option A) → (is_some x ≡ true) ↔ (x ≢ none)
is_some-ne_none none = (λ h. absurd (cc), λ h. absurd (h refl))
is_some-ne_none (some a) = (λ _ e. cc, λ _. refl)

pub project_named_iff :
    (shape : String) (id : Option String)
    → (not (requires_project shape && not (is_some id)) ≡ true)
      ↔ ((Memᴰ shape project_shapes → ⊥) ⊎ (id ≢ none))
project_named_iff shape id =
    let (to, from) = contains_iff project_shapes shape in
    let (some_to, some_from) = is_some-ne_none id in
    elim (Bool-cases (contains project_shapes shape)) [
      | inr free ↦ rw free (λ _. inl (λ m. absurd (cc (free, from m))), λ _. refl)
      | inl needs ↦ elim (Bool-cases (is_some id)) [
        | inl named ↦ rw (needs, named) (λ _. inr (some_to named), λ _. refl)
        | inr open' ↦
            rw (needs, open')
              (
                λ h. absurd (cc),
                λ h. elim h [
                  | inl bad ↦ absurd (bad (to needs))
                  | inr given ↦ absurd (cc (open', some_from given))
                ],
              )
      ]
    ]

pub scope_rejections-nil_iff :
    (plan : QueryPlan) (in_scope : List String)
    → (scope_rejections plan in_scope ≡ []) ↔ StaysInScope plan in_scope
unfolding scope_rejections
scope_rejections-nil_iff plan in_scope = (
  λ h.
      let (a, (b, (c, _))) = (joined-nil_iff (scope_parts plan in_scope)).0 h in
      record {
        project_named =
            (project_named_iff plan.shape plan.plan_project_id).0 ((unless_nil _ _).0 a);
        project_in_scope = (IsListed-iff in_scope plan.plan_project_id).0 ((unless_nil _ _).0 b);
        projects_in_scope =
            (outside-empty_iff in_scope plan.filters.project_ids).0 ((unless_nil _ _).0 c);
      },
  λ r. (joined-nil_iff (scope_parts plan in_scope)).1 (
    (unless_nil _ _).1 ((project_named_iff plan.shape plan.plan_project_id).1 r.project_named),
    (
      (unless_nil _ _).1 ((IsListed-iff in_scope plan.plan_project_id).1 r.project_in_scope),
      (
        (unless_nil _ _).1
            ((outside-empty_iff in_scope plan.filters.project_ids).1 r.projects_in_scope),
        tt,
      ),
    ),
  ),
)

pub metric_rejections-nil_iff :
    (id : Option String) (known : List String)
    → (metric_rejections id known ≡ []) ↔ NamesMetric id known
unfolding metric_rejections
metric_rejections-nil_iff none known = (λ _. tt, λ _. refl)
metric_rejections-nil_iff (some id) [] = (
  λ h. ((unless_nil _ _).0 ((nil_append _ _).0 h).0, inl refl),
  λ h. (nil_append _ _).1 ((unless_nil _ _).1 h.0, refl),
)
metric_rejections-nil_iff (some id) (k ∷ known) = (
  λ h.
      let (a, b) = (nil_append _ _).0 h in
      ((unless_nil _ _).0 a, inr ((contains_iff (k ∷ known) id).0 ((unless_nil _ _).0 b))),
  λ h. (nil_append _ _).1 (
    (unless_nil _ _).1 h.0,
    (unless_nil _ _).1
        (elim h.1 [ inl bad ↦ absurd (cc) | inr there ↦ (contains_iff (k ∷ known) id).1 there ]),
  ),
)

pub leb_iff : (a b : ℕ) → (leb a b ≡ true) ↔ (a ≤ b)
leb_iff a b = ground arith

pub not_iff : (b : Bool) → (not b ≡ true) ↔ (b ≡ false)
not_iff b = ground arith

pub query_rejections-nil_iff :
    (query : Option String) → (query_rejections query ≡ []) ↔ AsksWords query
unfolding query_rejections
query_rejections-nil_iff none = (λ _. tt, λ _. refl)
query_rejections-nil_iff (some query) = (
  λ h.
      let (a, b) = (nil_append _ _).0 h in
      (
        (leb_iff (unit_length query) 500).0 ((unless_nil _ _).0 a),
        (not_iff (finds executable_shape query)).0 ((unless_nil _ _).0 b),
      ),
  λ h. (nil_append _ _).1 (
    (unless_nil _ _).1 ((leb_iff (unit_length query) 500).1 h.0),
    (unless_nil _ _).1 ((not_iff (finds executable_shape query)).1 h.1),
  ),
)

pub few_iff :
    (about : String) (given : List String) → (check_count about given ≡ []) ↔ (length given ≤ 12)
few_iff about given = (
  λ h. (leb_iff (length given) 12).0 ((unless_nil _ _).0 h),
  λ h. (unless_nil _ _).1 ((leb_iff (length given) 12).1 h),
)

pub plain_iff :
    (r : String → PlanRejection) (xs : List String)
    → (each_unless (λ x. not (finds executable_shape x)) r xs ≡ [])
      ↔ All (λ x. finds executable_shape x ≡ false) xs
plain_iff r xs =
    let (to, from) = each_unless-nil_iff (λ x. not (finds executable_shape x)) r xs in
    let (to', from') =
      All-iff (λ x. not (finds executable_shape x) ≡ true) (λ x. finds executable_shape x ≡ false)
        xs (λ x. not_iff (finds executable_shape x)) in
    (λ h. to' (to h), λ a. from (from' a))

pub value_rejections-nil_iff : (f : PlanFilters) → (value_rejections f ≡ []) ↔ CarriesNoCode f
unfolding value_rejections
value_rejections-nil_iff f = (
  λ h.
      let (a, (b, (c, (d, (e, (g, (k, _))))))) = (joined-nil_iff (value_parts f)).0 h in
      record {
        values_plain = (plain_iff _ (named_values f)).0 a;
        regions_few = (few_iff "regions" f.regions).0 b;
        industries_few = (few_iff "industries" f.industries).0 c;
        accounts_few = (few_iff "accounts" f.accounts).0 d;
        customers_few = (few_iff "customers" f.customers).0 e;
        groups_few = (few_iff "deliveryGroups" f.delivery_groups).0 g;
        projects_few = (few_iff "projectIds" f.project_ids).0 k;
      },
  λ r. (joined-nil_iff (value_parts f)).1 (
    (plain_iff _ (named_values f)).1 r.values_plain,
    (
      (few_iff "regions" f.regions).1 r.regions_few,
      (
        (few_iff "industries" f.industries).1 r.industries_few,
        (
          (few_iff "accounts" f.accounts).1 r.accounts_few,
          (
            (few_iff "customers" f.customers).1 r.customers_few,
            (
              (few_iff "deliveryGroups" f.delivery_groups).1 r.groups_few,
              ((few_iff "projectIds" f.project_ids).1 r.projects_few, tt),
            ),
          ),
        ),
      ),
    ),
  ),
)
