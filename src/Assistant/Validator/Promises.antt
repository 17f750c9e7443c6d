-- ===== src/Assistant/Validator/Promises.antt =====
-- What a plan is held to, check by check of validatePlan.
use gldaassurance.Base.{
  Memᴰ, String, false, length, ◌≤◌, ◌⊎◌, Option, [], none, ◌≢◌, ◌≡◌, ℕ, some, List, true, All, pos,
}
use gldaassurance.Audit.{query}
use gldaassurance.Api.Validation.{unit_length}
use gldaassurance.Assistant.Patterns.{finds, fits}
use gldaassurance.Assistant.Validator.{
  metric_id_shape, PlanContext, threshold_shape, named_values, PlannerVocabulary, executable_shape,
}
use gldaassurance.Assistant.Plan.{
  all_comparisons, all_times, all_sorts, QueryPlan, all_shapes, all_trajectories, PlanFilters,
  all_metrics, all_bands, all_groups, all_drivers, project_shapes, all_findings, ThresholdCondition,
}

-- The value is missing or one of those listed.
abbrev pub IsListed : List String → Option String → Type 0
IsListed governed none = Unit {0}
IsListed governed (some x) = Memᴰ x governed

-- Every value is listed, where a list is given at all.
abbrev pub AreHeld : List String → List String → Type 0
AreHeld governed given = (governed ≡ []) ⊎ All (λ x. Memᴰ x governed) given

-- The plan asks only in the words of the vocabularies, for 1 to 50 results.
pub record AsksGoverned (plan : QueryPlan) : Type 0 where
  pub shape_known : Memᴰ plan.shape all_shapes
  pub metrics_known : All (λ x. Memᴰ x all_metrics) plan.metrics
  pub sort_known : Memᴰ plan.plan_sort all_sorts
  pub time_known : Memᴰ plan.plan_time all_times
  pub comparison_known : Memᴰ plan.plan_comparison all_comparisons
  pub group_known : IsListed all_groups plan.group_by
  pub limit_bounded : (n : ℕ) × (plan.limit ≡ pos n) × (1 ≤ n) × (n ≤ 50)

abbrev pub IsThreshold : ThresholdCondition → Type 0
IsThreshold t =
    Memᴰ t.metric all_metrics
    × ((t.operator ≡ "gte") ⊎ (t.operator ≡ "lte"))
    × (fits threshold_shape t.bound_text ≡ true)

-- Every filter holds values of its vocabulary.
pub record FiltersGoverned (f : PlanFilters) (v : PlannerVocabulary) : Type 0 where
  pub regions_held : AreHeld v.known_regions f.regions
  pub industries_held : AreHeld v.known_industries f.industries
  pub accounts_held : AreHeld v.known_accounts f.accounts
  pub customers_held : AreHeld v.known_customers f.customers
  pub groups_held : AreHeld v.known_delivery_groups f.delivery_groups
  pub system_known : All (λ x. Memᴰ x all_bands) f.system_rag
  pub reported_known : All (λ x. Memᴰ x all_bands) f.reported_rag
  pub outlook30_known : All (λ x. Memᴰ x all_bands) f.outlook30
  pub outlook60_known : All (λ x. Memᴰ x all_bands) f.outlook60
  pub trajectory_known : All (λ x. Memᴰ x all_trajectories) f.trajectory
  pub drivers_known : All (λ x. Memᴰ x all_drivers) f.drivers
  pub findings_known : All (λ x. Memᴰ x all_findings) f.plan_findings
  pub thresholds_formed : All IsThreshold f.thresholds

-- A question about one project names one, and every project that the plan names is in the scope.
pub record StaysInScope (plan : QueryPlan) (in_scope : List String) : Type 0 where
  pub project_named : (Memᴰ plan.shape project_shapes → ⊥) ⊎ (plan.plan_project_id ≢ none)
  pub project_in_scope : IsListed in_scope plan.plan_project_id
  pub projects_in_scope : All (λ id. Memᴰ id in_scope) plan.filters.project_ids

abbrev pub NamesMetric : Option String → List String → Type 0
NamesMetric none known = Unit {0}
NamesMetric (some id) known = (fits metric_id_shape id ≡ true) × ((known ≡ []) ⊎ Memᴰ id known)

abbrev pub AsksWords : Option String → Type 0
AsksWords none = Unit {0}
AsksWords (some query) = (unit_length query ≤ 500) × (finds executable_shape query ≡ false)

pub record CarriesNoCode (f : PlanFilters) : Type 0 where
  pub values_plain : All (λ x. finds executable_shape x ≡ false) (named_values f)
  pub regions_few : length f.regions ≤ 12
  pub industries_few : length f.industries ≤ 12
  pub accounts_few : length f.accounts ≤ 12
  pub customers_few : length f.customers ≤ 12
  pub groups_few : length f.delivery_groups ≤ 12
  pub projects_few : length f.project_ids ≤ 12

-- A plan that the caller may run.
pub record IsGoverned (plan : QueryPlan) (context : PlanContext) : Type 0 where
  pub asks : AsksGoverned plan
  pub filters_by : FiltersGoverned plan.filters context.vocabulary
  pub stays : StaysInScope plan context.authorised_project_ids
  pub names_metric : NamesMetric plan.plan_metric_id context.known_metric_ids
  pub asks_words : AsksWords plan.evidence_query
  pub carries_no_code : CarriesNoCode plan.filters
