-- ===== src/Assistant/Plan.antt =====
-- src/contexts/ai-intelligence/internal/plan.ts: the vocabularies of plans, and the plan. The fields
-- that the source types by a vocabulary hold texts, which nothing checks before the validator.
use gldaassurance.Base.{Option, [], ℤ, contains, List, Bool, none, ◌∷◌, String, pos, string_eq}

-- `ALL_SHAPES`
abbrev pub all_shapes : List String
all_shapes =
    "population.list" ∷ "population.rank" ∷ "population.compare" ∷ "population.aggregate"
    ∷ "population.change" ∷ "population.concentration" ∷ "population.reportedGreenRisk"
    ∷ "population.emergingRisk" ∷ "population.recovering" ∷ "project.health" ∷ "project.margin"
    ∷ "project.burn" ∷ "project.scope" ∷ "project.confidence" ∷ "project.forwardRisk"
    ∷ "project.recovery" ∷ "project.milestones" ∷ "project.acceptanceEvidence" ∷ "project.compare"
    ∷ "evidence.lookup" ∷ "metric.definition" ∷ "knowledge.document" ∷ "source.provenance"
    ∷ "source.dataQuality" ∷ []

-- `ALL_BANDS`
abbrev pub all_bands : List String
all_bands = "GREEN" ∷ "AMBER" ∷ "RED" ∷ []

-- `ALL_TRAJECTORIES`
abbrev pub all_trajectories : List String
all_trajectories = "IMPROVING" ∷ "STABLE" ∷ "DETERIORATING" ∷ "RAPIDLY_DETERIORATING" ∷ []

-- `ALL_DRIVERS`
abbrev pub all_drivers : List String
all_drivers =
    "margin-erosion" ∷ "scope-leakage" ∷ "burn-ahead-of-progress" ∷ "behind-plan" ∷ "deteriorating"
    ∷ "reporting-divergence" ∷ "emerging-risk" ∷ []

-- `ALL_FINDINGS`
abbrev pub all_findings : List String
all_findings = "reportedGreenRisk" ∷ "emergingRisk" ∷ "recovering" ∷ []

-- `ALL_METRICS`
abbrev pub all_metrics : List String
all_metrics =
    "tcv" ∷ "soldGm" ∷ "forecastGm" ∷ "riskAdjustedGm" ∷ "gmErosion" ∷ "gmAtRisk" ∷ "eac" ∷ "etc"
    ∷ "scopeExposure" ∷ "pendingChange" ∷ "milestoneStatus" ∷ "qualityExposure" ∷ []

-- `ALL_TIMES`
abbrev pub all_times : List String
all_times = "current" ∷ "previousPeriod" ∷ "day30" ∷ "day60" ∷ []

-- `ALL_COMPARISONS`
abbrev pub all_comparisons : List String
all_comparisons = "none" ∷ "soldVsCurrent" ∷ "currentVsPrior" ∷ "currentVsOutlook" ∷ []

-- `ALL_SORTS`
abbrev pub all_sorts : List String
all_sorts =
    "economicExposure" ∷ "gmErosion" ∷ "trajectorySeverity" ∷ "milestoneProximity"
    ∷ "interventionPriority" ∷ "recovery" ∷ "contractValue" ∷ "name" ∷ []

-- `ALL_GROUPS`
abbrev pub all_groups : List String
all_groups = "region" ∷ "industry" ∷ "account" ∷ "deliveryGroup" ∷ "driver" ∷ "customer" ∷ []

-- `PROJECT_SHAPES`
abbrev pub project_shapes : List String
project_shapes =
    "project.health" ∷ "project.margin" ∷ "project.burn" ∷ "project.scope" ∷ "project.confidence"
    ∷ "project.forwardRisk" ∷ "project.recovery" ∷ "project.milestones"
    ∷ "project.acceptanceEvidence" ∷ "evidence.lookup" ∷ "knowledge.document" ∷ []

-- `requiresProject`
abbrev pub requires_project : String → Bool
requires_project shape = contains project_shapes shape

-- `DRIVER_LABEL`
abbrev pub driver_labels : List (String × String)
driver_labels =
    ("margin-erosion", "margin erosion against the as-sold position")
    ∷ ("scope-leakage", "scope delivered without commercial cover")
    ∷ ("burn-ahead-of-progress", "cost running ahead of delivered progress")
    ∷ ("behind-plan", "delivery behind the planned position")
    ∷ ("deteriorating", "a deteriorating trajectory")
    ∷ ("reporting-divergence", "reported status ahead of the evidence")
    ∷ ("emerging-risk", "a governed outlook that turns within 60 days")
    ∷ []

-- `METRIC_LABEL`
abbrev pub metric_labels : List (String × String)
metric_labels =
    ("tcv", "total contract value")
    ∷ ("soldGm", "as-sold gross margin")
    ∷ ("forecastGm", "forecast gross margin")
    ∷ ("riskAdjustedGm", "risk-adjusted gross margin")
    ∷ ("gmErosion", "gross-margin erosion")
    ∷ ("gmAtRisk", "gross margin at risk")
    ∷ ("eac", "cost at completion")
    ∷ ("etc", "estimate to complete")
    ∷ ("scopeExposure", "uncommercialised scope exposure")
    ∷ ("pendingChange", "pending change requests")
    ∷ ("milestoneStatus", "milestone status")
    ∷ ("qualityExposure", "quality exposure")
    ∷ []

pub record ThresholdCondition : Type 0 where
  pub metric : String
  pub operator : String
  pub bound_text : String
  pub unit : String

pub record PlanFilters : Type 0 where
  pub regions : List String
  pub industries : List String
  pub accounts : List String
  pub customers : List String
  pub delivery_groups : List String
  pub system_rag : List String
  pub reported_rag : List String
  pub trajectory : List String
  pub outlook30 : List String
  pub outlook60 : List String
  pub drivers : List String
  pub plan_findings : List String
  pub project_ids : List String
  pub thresholds : List ThresholdCondition

abbrev pub empty_filters : PlanFilters
empty_filters = record {
  regions = [];
  industries = [];
  accounts = [];
  customers = [];
  delivery_groups = [];
  system_rag = [];
  reported_rag = [];
  trajectory = [];
  outlook30 = [];
  outlook60 = [];
  drivers = [];
  plan_findings = [];
  project_ids = [];
  thresholds = [];
}

pub data Origin : Type 0 where
  deterministic model_proposed conversation_refinement : Origin

-- A limit is a safe integer.
pub record QueryPlan : Type 0 where
  pub shape : String
  pub plan_scope : String
  pub filters : PlanFilters
  pub metrics : List String
  pub plan_time : String
  pub plan_comparison : String
  pub plan_sort : String
  pub limit : ℤ
  pub group_by : Option String
  pub plan_project_id : Option String
  pub plan_metric_id : Option String
  pub evidence_query : Option String
  pub origin : Origin

abbrev pub limit_min : ℤ
limit_min = pos 1

abbrev pub limit_max : ℤ
limit_max = pos 50

abbrev pub default_limit : ℤ
default_limit = pos 10

-- `emptyPlan`
abbrev pub empty_plan : String → QueryPlan
empty_plan asked = record {
  shape = asked;
  plan_scope = "portfolio";
  filters = empty_filters;
  metrics = [];
  plan_time = "current";
  plan_comparison = "none";
  plan_sort = "interventionPriority";
  limit = default_limit;
  group_by = none;
  plan_project_id = none;
  plan_metric_id = none;
  evidence_query = none;
  origin = deterministic;
}
