-- ===== src/Assistant/Conversation.antt =====
-- src/app/assistant/conversation.ts: how a turn refines the plan of the turn before, and what is
-- kept of a turn.
use gldaassurance.Base.{
  some, Option, ◌==◌, ℕ, false, true, String, List, none, ◌+◌, ◌-◌, length, is_empty, ◌++◌, [], ◌∷◌,
  ◌&&◌, if◌then◌else◌, drop, not, Bool, take, string_eq,
}
use gldaassurance.Assistant.Plan.{
  conversation_refinement, empty_filters, PlanFilters, QueryPlan, requires_project, Origin,
}

pub record ConversationState : Type 0 where
  pub turn : ℕ
  pub last_plan : Option QueryPlan
  pub carried_population : List String
  pub active_project_id : Option String
  pub surface_filters : PlanFilters
  pub turn_history : List (String × String)

abbrev pub max_population_carried : ℕ
max_population_carried = 200

abbrev pub max_history : ℕ
max_history = 12

abbrev pub new_conversation : ConversationState
new_conversation = record {
  turn = 0;
  last_plan = none;
  carried_population = [];
  active_project_id = none;
  surface_filters = empty_filters;
  turn_history = [];
}

abbrev pub is_refined : Origin → Bool
is_refined conversation_refinement = true
is_refined _ = false

-- `hasOwnShape`
abbrev pub has_own_shape : QueryPlan → Bool
has_own_shape plan = not (is_refined plan.origin && plan.shape == "population.list")

-- `incoming.length > 0 ? incoming : previous`
abbrev pub given_or {ℓ} : {A : Type ℓ} → List A → List A → List A
given_or [] previous = previous
given_or (x ∷ xs) previous = x ∷ xs

-- `incoming ?? previous`
abbrev pub else_of {ℓ} : {A : Type ℓ} → Option A → Option A → Option A
else_of none previous = previous
else_of (some x) previous = some x

-- `replaceNamedDimensions`
abbrev pub replace_named_dimensions : PlanFilters → PlanFilters → PlanFilters
replace_named_dimensions previous incoming = record {
  regions = given_or incoming.regions previous.regions;
  industries = given_or incoming.industries previous.industries;
  accounts = given_or incoming.accounts previous.accounts;
  customers = given_or incoming.customers previous.customers;
  delivery_groups = given_or incoming.delivery_groups previous.delivery_groups;
  system_rag = given_or incoming.system_rag previous.system_rag;
  reported_rag = given_or incoming.reported_rag previous.reported_rag;
  trajectory = given_or incoming.trajectory previous.trajectory;
  outlook30 = given_or incoming.outlook30 previous.outlook30;
  outlook60 = given_or incoming.outlook60 previous.outlook60;
  drivers = given_or incoming.drivers previous.drivers;
  plan_findings = given_or incoming.plan_findings previous.plan_findings;
  project_ids = incoming.project_ids;
  thresholds = given_or incoming.thresholds previous.thresholds;
}

-- `mergeSurfaceFilters`
abbrev pub merge_surface_filters : QueryPlan → PlanFilters → QueryPlan
merge_surface_filters plan surface = record plan {
  filters = record {
    regions = given_or plan.filters.regions surface.regions;
    industries = given_or plan.filters.industries surface.industries;
    accounts = given_or plan.filters.accounts surface.accounts;
    customers = given_or plan.filters.customers surface.customers;
    delivery_groups = given_or plan.filters.delivery_groups surface.delivery_groups;
    system_rag = given_or plan.filters.system_rag surface.system_rag;
    reported_rag = given_or plan.filters.reported_rag surface.reported_rag;
    trajectory = given_or plan.filters.trajectory surface.trajectory;
    outlook30 = given_or plan.filters.outlook30 surface.outlook30;
    outlook60 = given_or plan.filters.outlook60 surface.outlook60;
    drivers = given_or plan.filters.drivers surface.drivers;
    plan_findings = given_or plan.filters.plan_findings surface.plan_findings;
    project_ids = plan.filters.project_ids;
    thresholds = plan.filters.thresholds;
  };
}

-- `withPopulation`
abbrev pub with_population : ConversationState → Bool → PlanFilters → PlanFilters
with_population state back_reference filters =
    if back_reference && not (is_empty state.carried_population)
    then record filters { project_ids = take max_population_carried state.carried_population }
    else filters

-- The plan of a turn that refines the one before.
abbrev pub refined_plan : ConversationState → QueryPlan → QueryPlan → Bool → QueryPlan
refined_plan state previous incoming back_reference =
    let asked = if has_own_shape incoming then incoming.shape else previous.shape in
    let about =
      else_of incoming.plan_project_id
        (if requires_project asked then state.active_project_id else none) in
    record {
      shape = asked;
      plan_scope = elim about [ none ↦ previous.plan_scope | some _ ↦ "project" ];
      filters =
          with_population state back_reference
            (replace_named_dimensions previous.filters incoming.filters);
      metrics = given_or incoming.metrics previous.metrics;
      plan_time =
          if incoming.plan_time == "current" then previous.plan_time else incoming.plan_time;
      plan_comparison =
          if incoming.plan_comparison == "none"
          then previous.plan_comparison
          else incoming.plan_comparison;
      plan_sort = incoming.plan_sort;
      limit = incoming.limit;
      group_by = else_of incoming.group_by previous.group_by;
      plan_project_id = about;
      plan_metric_id = else_of incoming.plan_metric_id previous.plan_metric_id;
      evidence_query = else_of incoming.evidence_query previous.evidence_query;
      origin = conversation_refinement;
    }

-- `refine`
unfoldable pub refine : ConversationState → QueryPlan → Bool → Bool → QueryPlan
refine state incoming is_refinement back_reference = elim state.last_plan [
  | none ↦ merge_surface_filters incoming state.surface_filters
  | some previous ↦
      if is_refinement
      then refined_plan state previous incoming back_reference
      else merge_surface_filters incoming state.surface_filters
]

-- The one project of a population, or the one before.
abbrev pub only_of : List String → Option String → Option String
only_of (x ∷ []) before = some x
only_of _ before = before

-- `plan?.projectId ?? (population.length === 1 ? population[0] ?? null : state.activeProjectId)`
abbrev pub active_after : Option String → List String → Option QueryPlan → Option String
active_after before found none = only_of found before
active_after before found (some plan) = else_of plan.plan_project_id (only_of found before)

-- `advance`, where `slice n s` is `s.slice(0, n)`.
unfoldable pub advance :
    (ℕ → String → String)
    → ConversationState
    → String
    → Option QueryPlan
    → List String
    → ConversationState
advance slice state question plan found = record {
  turn = state.turn + 1;
  last_plan = else_of plan state.last_plan;
  carried_population = take max_population_carried found;
  active_project_id = active_after state.active_project_id found plan;
  surface_filters = state.surface_filters;
  turn_history =
      drop (length state.turn_history - (max_history - 1)) state.turn_history
      ++ ((slice 400 question, elim plan [ none ↦ "unresolved" | some p ↦ p.shape ]) ∷ []);
}
