-- ===== src/Assistant/Proposal.antt =====
-- src/app/assistant/plan-validator.ts: `readProposedPlan`, which reads a plan out of what a language
-- model answered. `JSON.parse`, the change of case and `slice` are those of the language.
pub mod Reading
use Prim.Native.Char.{code}
use gldaassurance.Base.{
  Bool, true, if◌then◌else◌, [], false, ℤ, ◌==◌, ℕ, none, Option, String, zero, or_else, filter,
  contains, some, suc, ◌∷◌, nat_eqb, List, string_eq, take,
}
use gldaassurance.Assistant.Validator.{max_filter_values, max_evidence_query_chars}
use gldaassurance.Assistant.Plan.{
  all_times, all_bands, all_trajectories, all_comparisons, all_drivers, all_sorts, all_findings,
  model_proposed, all_metrics, all_shapes, PlanFilters, QueryPlan, all_groups,
}
use gldaassurance.Authorization.FieldPolicy.{shape}
use gldaassurance.Health.Scoring.{is_some}

-- A parsed value; `integer` is a number that is a safe integer.
mutual
  pub data Json : Type 0 where
    json_null : Json
    json_bool : Bool → Json
    integer : ℤ → Json
    fractional : Json
    json_text : String → Json
    json_array : Items → Json
    json_object : Fields → Json

  pub data Items : Type 0 where
    no_items : Items
    item : Json → Items → Items

  pub data Fields : Type 0 where
    no_fields : Fields
    field : String → Json → Fields → Fields

-- `slice n s` is `s.slice(0, n)`; `parse_json` is `none` where `JSON.parse` throws.
pub record Language : Type 0 where
  pub lower_case : String → String
  pub upper_case : String → String
  pub slice : ℕ → String → String
  pub parse_json : String → Option Json

-- `p[name]`; `none` is `undefined`.
unfoldable pub field_of : Fields → String → Option Json
field_of no_fields name = none
field_of (field key value fields) name = if key == name then some value else field_of fields name

-- `p[name]` of any object; an array has no such key.
abbrev pub member_of : Json → String → Option Json
member_of (json_object fields) name = field_of fields name
member_of _ name = none

-- `typeof parsed !== 'object' || parsed === null`
abbrev pub is_object : Json → Bool
is_object (json_array _) = true
is_object (json_object _) = true
is_object _ = false

-- What is an object under `filters`, or `{}`.
abbrev pub object_or_empty : Option Json → Json
object_or_empty none = json_object no_fields
object_or_empty (some j) = if is_object j then j else json_object no_fields

abbrev pub text_or_none : Option Json → Option String
text_or_none (some (json_text s)) = some s
text_or_none _ = none

-- `value.filter((v) => typeof v === 'string')`
unfoldable pub texts_of : Items → List String
texts_of no_items = []
texts_of (item (json_text s) items) = s ∷ texts_of items
texts_of (item _ items) = texts_of items

abbrev pub texts_or_empty : Option Json → List String
texts_or_empty (some (json_array items)) = texts_of items
texts_or_empty _ = []

-- `pickStrings`
unfoldable pub pick_strings : Option Json → List String
unfolding texts_of
pick_strings value = take max_filter_values (texts_or_empty value)

-- `pickEnum`
unfoldable pub pick_enum : Option Json → List String → Option String
pick_enum value permitted = elim (text_or_none value) [
  | none ↦ none
  | some s ↦ if contains permitted s then some s else none
]

-- `pickEnums`
unfoldable pub pick_enums : Option Json → List String → List String
unfolding texts_of
pick_enums value permitted = filter (contains permitted) (texts_or_empty value)

-- Up to the last `}`, that included.
unfoldable pub to_last_brace : String → Option String
to_last_brace String.[] = none
to_last_brace (String.◌∷◌ c s) = elim (to_last_brace s) [
  | some front ↦ some (String.◌∷◌ c front)
  | none ↦ if nat_eqb (code c) b'}' then some (String.◌∷◌ c String.[]) else none
]

-- `raw.slice(jsonStart, jsonEnd + 1)`; `none` where there is no `{` with a `}` behind it.
unfoldable pub json_part : String → Option String
unfolding to_last_brace
json_part String.[] = none
json_part (String.◌∷◌ c s) =
    let later = json_part s in
    if nat_eqb (code c) b'{' then to_last_brace (String.◌∷◌ c s) else later

-- The filters that are read; thresholds are never taken from the model.
unfoldable pub filters_read : Json → PlanFilters → PlanFilters
unfolding pick_strings pick_enums field_of
filters_read j base = record {
  regions = pick_strings (member_of j "regions");
  industries = pick_strings (member_of j "industries");
  accounts = pick_strings (member_of j "accounts");
  customers = pick_strings (member_of j "customers");
  delivery_groups = pick_strings (member_of j "deliveryGroups");
  system_rag = pick_enums (member_of j "systemRag") all_bands;
  reported_rag = pick_enums (member_of j "reportedRag") all_bands;
  trajectory = pick_enums (member_of j "trajectory") all_trajectories;
  outlook30 = pick_enums (member_of j "outlook30") all_bands;
  outlook60 = pick_enums (member_of j "outlook60") all_bands;
  drivers = pick_enums (member_of j "drivers") all_drivers;
  plan_findings = pick_enums (member_of j "findings") all_findings;
  project_ids = pick_strings (member_of j "projectIds");
  thresholds = base.thresholds;
}

abbrev pub limit_or : Option Json → ℤ → ℤ
limit_or (some (integer n)) base = n
limit_or _ base = base

-- `typeof v === 'string' ? change(v) : base`
abbrev pub changed_or : (String → String) → Option Json → Option String → Option String
changed_or change value base = elim (text_or_none value) [ none ↦ base | some s ↦ some (change s) ]

module _ (language : Language) where
  unfoldable pub plan_read : Json → String → QueryPlan → QueryPlan
  unfolding filters_read pick_enum pick_enums field_of
  plan_read j asked base = record {
    shape = asked;
    plan_scope =
        if is_some (text_or_none (member_of j "projectId")) then "project" else base.plan_scope;
    filters = filters_read (object_or_empty (member_of j "filters")) base.filters;
    metrics = pick_enums (member_of j "metrics") all_metrics;
    plan_time = or_else (pick_enum (member_of j "time") all_times) base.plan_time;
    plan_comparison =
        or_else (pick_enum (member_of j "comparison") all_comparisons) base.plan_comparison;
    plan_sort = or_else (pick_enum (member_of j "sort") all_sorts) base.plan_sort;
    limit = limit_or (member_of j "limit") base.limit;
    group_by = pick_enum (member_of j "groupBy") all_groups;
    plan_project_id = changed_or language.lower_case (member_of j "projectId") base.plan_project_id;
    plan_metric_id = changed_or language.upper_case (member_of j "metricId") base.plan_metric_id;
    evidence_query =
        changed_or (language.slice max_evidence_query_chars) (member_of j "evidenceQuery")
          base.evidence_query;
    origin = model_proposed;
  }

  -- From the parsed value on.
  unfoldable pub plan_from : Json → QueryPlan → Option QueryPlan
  unfolding plan_read pick_enum field_of
  plan_from j base =
      if is_object j
      then elim (pick_enum (member_of j "shape") all_shapes) [
        | none ↦ none
        | some asked ↦ some (plan_read j asked base)
      ]
      else none

  -- `readProposedPlan`
  unfoldable pub read_proposed_plan : String → QueryPlan → Option QueryPlan
  unfolding json_part plan_from
  read_proposed_plan raw base = elim (json_part raw) [
    | none ↦ none
    | some part ↦ elim (language.parse_json part) [ none ↦ none | some j ↦ plan_from j base ]
  ]
