-- ===== src/Assistant/Proposal/Reading.antt =====
-- readProposedPlan: what a plan that is read can hold.
use mathlib.Core.Path.{subst}
use gldaassurance.Base.{
  contains, ◌≡◌, All, or_else, String, mem-filter_iff, inl, filter, length, contains_iff, ◌≤◌, ◌⊎◌,
  none-ne-some, Option, refl, some, List, Memᴰ, All-of_mem, Bool-cases, some_inj, Option-cases, inr,
  string_eq, length-take,
}
use gldaassurance.Assistant.Plan.{
  all_shapes, all_times, all_findings, all_trajectories, all_comparisons, all_drivers,
  model_proposed, all_sorts, all_groups, QueryPlan, all_bands, all_metrics,
}
use gldaassurance.Assistant.Proposal.{
  is_object, read_proposed_plan, text_or_none, Language, pick_strings, object_or_empty, plan_read,
  member_of, pick_enum, pick_enums, json_part, plan_from, Json, texts_or_empty, filters_read,
}
use gldaassurance.Assistant.Validator.Promises.{IsListed}

pick_strings-few : (value : Option Json) → length (pick_strings value) ≤ 12
unfolding pick_strings
pick_strings-few value = length-take 12 (texts_or_empty value)

pick_enums-known :
    (value : Option Json) (permitted : List String)
    → All (λ x. Memᴰ x permitted) (pick_enums value permitted)
unfolding pick_enums
pick_enums-known value permitted =
    All-of_mem (λ x. Memᴰ x permitted) (filter (contains permitted) (texts_or_empty value))
      (λ x m.
        (contains_iff permitted x).0
          ((mem-filter_iff (contains permitted) x (texts_or_empty value)).0 m).1)

pick_enum-known :
    (value : Option Json) (permitted : List String) (x : String)
    → pick_enum value permitted ≡ some x
    → Memᴰ x permitted
unfolding pick_enum
pick_enum-known value permitted x h = elim (Option-cases (text_or_none value)) [
  | inl e ↦ absurd (none-ne-some x (rw (e, pick_enum) at h))
  | inr (s, e) ↦ elim (Bool-cases (contains permitted s)) [
    | inl known ↦
        subst (λ y. Memᴰ y permitted) (some_inj s x (rw (e, known, pick_enum) at h))
          ((contains_iff permitted s).0 known)
    | inr unknown ↦ absurd (none-ne-some x (rw (e, unknown, pick_enum) at h))
  ]
]

pick_enum-IsListed :
    (value : Option Json) (permitted : List String) → IsListed permitted (pick_enum value permitted)
pick_enum-IsListed value permitted = elim (Option-cases (pick_enum value permitted)) [
  | inl e ↦ rw e tt
  | inr (x, e) ↦ rw e (pick_enum-known value permitted x e)
]

-- A value that is read, or the one that was there.
abbrev pub KnownOr : List String → String → String → Type 0
KnownOr permitted base x = (x ≡ base) ⊎ Memᴰ x permitted

pick_enum-or :
    (value : Option Json) (permitted : List String) (base : String)
    → KnownOr permitted base (or_else (pick_enum value permitted) base)
pick_enum-or value permitted base = elim (Option-cases (pick_enum value permitted)) [
  | inl e ↦ rw e (inl refl)
  | inr (x, e) ↦ rw e (inr (pick_enum-known value permitted x e))
]

-- What the text of a model can put into a plan, beside the plan that it refines.
pub record IsProposal (base p : QueryPlan) : Type 0 where
  pub proposed_shape : Memᴰ p.shape all_shapes
  pub proposed_metrics : All (λ x. Memᴰ x all_metrics) p.metrics
  pub proposed_sort : KnownOr all_sorts base.plan_sort p.plan_sort
  pub proposed_time : KnownOr all_times base.plan_time p.plan_time
  pub proposed_comparison : KnownOr all_comparisons base.plan_comparison p.plan_comparison
  pub proposed_group : IsListed all_groups p.group_by
  pub proposed_system : All (λ x. Memᴰ x all_bands) p.filters.system_rag
  pub proposed_reported : All (λ x. Memᴰ x all_bands) p.filters.reported_rag
  pub proposed_outlook30 : All (λ x. Memᴰ x all_bands) p.filters.outlook30
  pub proposed_outlook60 : All (λ x. Memᴰ x all_bands) p.filters.outlook60
  pub proposed_trajectory : All (λ x. Memᴰ x all_trajectories) p.filters.trajectory
  pub proposed_drivers : All (λ x. Memᴰ x all_drivers) p.filters.drivers
  pub proposed_findings : All (λ x. Memᴰ x all_findings) p.filters.plan_findings
  pub proposed_regions : length p.filters.regions ≤ 12
  pub proposed_industries : length p.filters.industries ≤ 12
  pub proposed_accounts : length p.filters.accounts ≤ 12
  pub proposed_customers : length p.filters.customers ≤ 12
  pub proposed_delivery_groups : length p.filters.delivery_groups ≤ 12
  pub proposed_projects : length p.filters.project_ids ≤ 12
  pub kept_thresholds : p.filters.thresholds ≡ base.filters.thresholds
  pub marked : p.origin ≡ model_proposed

module _ (language : Language) where
  plan_read-IsProposal :
      (j : Json) (asked : String) (base : QueryPlan)
      → Memᴰ asked all_shapes
      → IsProposal base (plan_read language j asked base)
  unfolding plan_read filters_read
  plan_read-IsProposal j asked base known =
      let f = object_or_empty (member_of j "filters") in
      record {
        proposed_shape = known;
        proposed_metrics = pick_enums-known (member_of j "metrics") all_metrics;
        proposed_sort = pick_enum-or (member_of j "sort") all_sorts base.plan_sort;
        proposed_time = pick_enum-or (member_of j "time") all_times base.plan_time;
        proposed_comparison =
            pick_enum-or (member_of j "comparison") all_comparisons base.plan_comparison;
        proposed_group = pick_enum-IsListed (member_of j "groupBy") all_groups;
        proposed_system = pick_enums-known (member_of f "systemRag") all_bands;
        proposed_reported = pick_enums-known (member_of f "reportedRag") all_bands;
        proposed_outlook30 = pick_enums-known (member_of f "outlook30") all_bands;
        proposed_outlook60 = pick_enums-known (member_of f "outlook60") all_bands;
        proposed_trajectory = pick_enums-known (member_of f "trajectory") all_trajectories;
        proposed_drivers = pick_enums-known (member_of f "drivers") all_drivers;
        proposed_findings = pick_enums-known (member_of f "findings") all_findings;
        proposed_regions = pick_strings-few (member_of f "regions");
        proposed_industries = pick_strings-few (member_of f "industries");
        proposed_accounts = pick_strings-few (member_of f "accounts");
        proposed_customers = pick_strings-few (member_of f "customers");
        proposed_delivery_groups = pick_strings-few (member_of f "deliveryGroups");
        proposed_projects = pick_strings-few (member_of f "projectIds");
        kept_thresholds = refl;
        marked = refl;
      }

  plan_from-IsProposal :
      (j : Json) (base p : QueryPlan) → plan_from language j base ≡ some p → IsProposal base p
  unfolding plan_from
  plan_from-IsProposal j base p h = elim (Bool-cases (is_object j)) [
    | inr bare ↦ absurd (none-ne-some p (rw (bare, plan_from) at h))
    | inl object' ↦ elim (Option-cases (pick_enum (member_of j "shape") all_shapes)) [
      | inl e ↦ absurd (none-ne-some p (rw (object', e, plan_from) at h))
      | inr (asked, e) ↦
          subst (IsProposal base)
            (some_inj (plan_read language j asked base) p (rw (object', e, plan_from) at h))
            (plan_read-IsProposal j asked base
              (pick_enum-known (member_of j "shape") all_shapes asked e))
    ]
  ]

  -- Whatever text a model answers with, a plan that is read out of it is marked as proposed by a
  -- model, has a shape, metrics, grouping and enumerated filters of the vocabularies and an
  -- ordering, period and comparison that are of the vocabularies or those of the plan it refines,
  -- has at most twelve values in each other filter, and has the thresholds of the plan it refines.
  pub read_proposed_plan-IsProposal :
      (raw : String) (base p : QueryPlan)
      → read_proposed_plan language raw base ≡ some p
      → IsProposal base p
  unfolding read_proposed_plan
  read_proposed_plan-IsProposal raw base p h = elim (Option-cases (json_part raw)) [
    | inl e ↦ absurd (none-ne-some p (rw (e, read_proposed_plan) at h))
    | inr (part, e) ↦ elim (Option-cases (language.parse_json part)) [
      | inl f ↦ absurd (none-ne-some p (rw (e, f, read_proposed_plan) at h))
      | inr (j, f) ↦ plan_from-IsProposal j base p (rw (e, f, read_proposed_plan) at h)
    ]
  ]
