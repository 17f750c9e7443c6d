-- ===== src/Assistant/Validator.antt =====
-- src/app/assistant/plan-validator.ts: every plan is checked here before a tool runs, and a plan that
-- a language model proposed is read here.
pub mod Promises
pub mod Values
pub mod Questions
pub mod Scopes
pub mod Governed
use gldaassurance.Api.Validation.{unit_length}
use gldaassurance.Base.{
  compare_int, ◌∷◌, String, contains, ◌||◌, append_text, [], ℤ, Option, none, List, is_empty, ℕ,
  length, ◌&&◌, not, leb, filter, ◌++◌, Bool, some, or_else, if◌then◌else◌, joined, not_after, ◌==◌,
  nat_eqb, true, string_eq, is_space,
}
use gldaassurance.Audit.{query}
use gldaassurance.Assistant.Patterns.{
  many, is_upper_code, repeated, edge, up_to, finds, fits, Pattern, no_chars, is_digit_code,
  one_up_to, one_char, then_pattern, either, word,
}
use gldaassurance.Assistant.Plan.{
  all_times, all_groups, QueryPlan, all_drivers, all_comparisons, limit_min, requires_project,
  ThresholdCondition, limit_max, all_bands, all_findings, PlanFilters, all_sorts, all_metrics,
  all_trajectories, all_shapes,
}
use gldaassurance.Authorization.FieldPolicy.{shape}
use gldaassurance.Health.Scoring.{is_some, join_with}

pub data PlanRejectionCode : Type 0 where
  unknown_shape unknown_metric unknown_filter_value unknown_sort unknown_time : PlanRejectionCode
  unknown_comparison unknown_group limit_out_of_range project_required : PlanRejectionCode
  project_not_authorised scope_exceeds_caller malformed_metric_id : PlanRejectionCode
  malformed_threshold executable_content too_many_filter_values : PlanRejectionCode
  evidence_query_too_long : PlanRejectionCode

pub record PlanRejection : Type 0 where
  pub rejection_code : PlanRejectionCode
  pub rejected_field : String
  pub rejection_detail : String

pub data PlanVerdict : Type 0 where
  accepted : QueryPlan → PlanVerdict
  rejected : List PlanRejection → PlanVerdict

-- `PlannerVocabulary`, as far as the validator reads it.
pub record PlannerVocabulary : Type 0 where
  pub known_regions : List String
  pub known_industries : List String
  pub known_accounts : List String
  pub known_customers : List String
  pub known_delivery_groups : List String

pub record PlanContext : Type 0 where
  pub vocabulary : PlannerVocabulary
  pub authorised_project_ids : List String
  pub known_metric_ids : List String

abbrev pub sequence : List Pattern → Pattern
sequence [] = no_chars
sequence (p ∷ ps) = then_pattern p (sequence ps)

abbrev pub any_of : Pattern → List Pattern → Pattern
any_of p [] = p
any_of p (q ∷ ps) = either p (any_of q ps)

abbrev pub anything : ℕ → Bool
anything c = true

-- `EXECUTABLE_SHAPE`, its alternatives in order.
unfoldable pub executable_shape : Pattern
unfolding word
executable_shape =
    any_of
      (sequence (edge ∷ word "select" ∷ edge ∷ up_to 40 anything ∷ edge ∷ word "from" ∷ edge ∷ []))
      (sequence (edge ∷ word "drop" ∷ one_char is_space ∷ many is_space ∷ word "table" ∷ edge ∷ [])
        ∷ sequence
            (edge ∷ word "union" ∷ one_char is_space ∷ many is_space ∷ word "select" ∷ edge ∷ [])
        ∷ sequence (word "--" ∷ one_char is_space ∷ [])
        ∷ sequence (word ";" ∷ many is_space ∷ word "delete" ∷ [])
        ∷ word "<script"
        ∷ word "javascript:"
        ∷ word "${"
        ∷ sequence (edge ∷ word "function" ∷ many is_space ∷ word "(" ∷ [])
        ∷ word "=>"
        ∷ sequence (edge ∷ word "eval" ∷ many is_space ∷ word "(" ∷ [])
        ∷ [])

-- `/^-?\d{1,15}(\.\d{1,6})?$/`
unfoldable pub threshold_shape : Pattern
unfolding word
threshold_shape = sequence (
    either (word "-") no_chars
    ∷ one_up_to 15 is_digit_code
    ∷ either (then_pattern (word ".") (one_up_to 6 is_digit_code)) no_chars
    ∷ [])

-- `/^MET-[A-Z]{2,5}-\d{3}$/`; the letters are matched as they are.
unfoldable pub metric_id_shape : Pattern
metric_id_shape = sequence (
    one_char (λ c. nat_eqb c b'M')
    ∷ one_char (λ c. nat_eqb c b'E')
    ∷ one_char (λ c. nat_eqb c b'T')
    ∷ one_char (λ c. nat_eqb c b'-')
    ∷ repeated 2 is_upper_code
    ∷ up_to 3 is_upper_code
    ∷ one_char (λ c. nat_eqb c b'-')
    ∷ repeated 3 is_digit_code
    ∷ [])

abbrev pub max_filter_values : ℕ
max_filter_values = 12

abbrev pub max_evidence_query_chars : ℕ
max_evidence_query_chars = 500

abbrev pub rejection : PlanRejectionCode → String → String → PlanRejection
rejection because about said = record {
  rejection_code = because;
  rejected_field = about;
  rejection_detail = said;
}

-- `if (!test) reject(...)`
abbrev pub unless : Bool → PlanRejection → List PlanRejection
unless test r = if test then [] else r ∷ []

-- `for (const x of xs) if (!test(x)) reject(...)`
abbrev pub each_unless :
    (String → Bool) → (String → PlanRejection) → List String → List PlanRejection
each_unless test r [] = []
each_unless test r (x ∷ xs) = (if test x then [] else r x ∷ []) ++ each_unless test r xs

abbrev pub quoting : String → String → String
quoting value rest = append_text "\"" (append_text value (append_text "\"" rest))

-- `checkVocabulary`
unfoldable pub check_vocabulary : String → List String → List String → List PlanRejection
check_vocabulary about given governed =
    if is_empty governed
    then []
    else each_unless (contains governed)
        (λ x. rejection unknown_filter_value (append_text "filters." about) (
          quoting x
            (append_text " is not a value this portfolio holds for " (append_text about "."))))
        given

-- `checkEnum`
unfoldable pub check_enum : String → List String → List String → List PlanRejection
unfolding join_with
check_enum about given permitted =
    each_unless (contains permitted)
      (λ x.
        rejection unknown_filter_value (append_text "filters." about)
          (quoting x (append_text " is not one of " (append_text (join_with ", " permitted) "."))))
      given

abbrev pub is_member_or_null : List String → Option String → Bool
is_member_or_null governed none = true
is_member_or_null governed (some x) = contains governed x

abbrev pub limit_in_range : ℤ → Bool
limit_in_range n = not_after (compare_int limit_min n) && not_after (compare_int n limit_max)

-- The checks on the question that is asked.
abbrev pub question_parts : QueryPlan → List (List PlanRejection)
question_parts plan =
    unless (contains all_shapes plan.shape) (
      rejection unknown_shape "shape"
        (quoting plan.shape " is not a question this product answers."))
    ∷ each_unless (contains all_metrics)
        (λ x. rejection unknown_metric "metrics" (
          quoting x (
            append_text " is not a governed metric. A plan selects metrics the catalogue defines; "
              "it cannot introduce one.")))
        plan.metrics
    ∷ unless (contains all_sorts plan.plan_sort) (
        rejection unknown_sort "sort"
          (quoting plan.plan_sort " is not an ordering this product supports."))
    ∷ unless (contains all_times plan.plan_time)
        (rejection unknown_time "time" (quoting plan.plan_time " is not a governed period."))
    ∷ unless (contains all_comparisons plan.plan_comparison) (
        rejection unknown_comparison "comparison"
          (quoting plan.plan_comparison " is not a supported comparison."))
    ∷ unless (is_member_or_null all_groups plan.group_by) (
        rejection unknown_group "groupBy"
          (quoting (or_else plan.group_by "null") " is not a dimension this product groups by."))
    ∷ unless (limit_in_range plan.limit) (
        rejection limit_out_of_range "limit" (
          append_text "A result limit must be between 1 and 50. An out-of-range limit is rejected "
            "rather than clamped, because a clamped answer looks like a complete one."))
    ∷ []

unfoldable pub question_rejections : QueryPlan → List PlanRejection
question_rejections plan = joined (question_parts plan)

-- One pass of the loop over thresholds.
unfoldable pub threshold_rejections : ThresholdCondition → List PlanRejection
unfolding threshold_shape fits
threshold_rejections t =
    if contains all_metrics t.metric
    then unless (t.operator == "gte" || t.operator == "lte") (
        rejection malformed_threshold "filters.thresholds"
          "A threshold operator must be gte or lte.")
      ++ unless (fits threshold_shape t.bound_text) (
          rejection malformed_threshold "filters.thresholds"
            "A threshold value must be a plain decimal figure. Expressions are not accepted.")
    else rejection malformed_threshold "filters.thresholds"
        (append_text "A threshold names " (quoting t.metric ", which is not a governed metric."))
      ∷ []

unfoldable pub all_threshold_rejections : List ThresholdCondition → List PlanRejection
unfolding threshold_rejections
all_threshold_rejections [] = []
all_threshold_rejections (t ∷ ts) = threshold_rejections t ++ all_threshold_rejections ts

-- The checks on the filters' values.
abbrev pub filter_parts : PlanFilters → PlannerVocabulary → List (List PlanRejection)
filter_parts f vocabulary =
    check_vocabulary "regions" f.regions vocabulary.known_regions
    ∷ check_vocabulary "industries" f.industries vocabulary.known_industries
    ∷ check_vocabulary "accounts" f.accounts vocabulary.known_accounts
    ∷ check_vocabulary "customers" f.customers vocabulary.known_customers
    ∷ check_vocabulary "deliveryGroups" f.delivery_groups vocabulary.known_delivery_groups
    ∷ check_enum "systemRag" f.system_rag all_bands
    ∷ check_enum "reportedRag" f.reported_rag all_bands
    ∷ check_enum "outlook30" f.outlook30 all_bands
    ∷ check_enum "outlook60" f.outlook60 all_bands
    ∷ check_enum "trajectory" f.trajectory all_trajectories
    ∷ check_enum "drivers" f.drivers all_drivers
    ∷ check_enum "findings" f.plan_findings all_findings
    ∷ all_threshold_rejections f.thresholds
    ∷ []

unfoldable pub filter_rejections : PlanFilters → PlannerVocabulary → List PlanRejection
unfolding check_vocabulary check_enum all_threshold_rejections
filter_rejections f vocabulary = joined (filter_parts f vocabulary)

-- The checks on the projects that the plan names.
abbrev pub scope_parts : QueryPlan → List String → List (List PlanRejection)
scope_parts plan in_scope =
    unless (not (requires_project plan.shape && not (is_some plan.plan_project_id))) (
      rejection project_required "projectId"
        "That question is about one project, and no project was resolved.")
    ∷ unless (is_member_or_null in_scope plan.plan_project_id) (
        rejection project_not_authorised "projectId"
          "There is nothing to show for that request in your authorised scope.")
    ∷ unless (is_empty (filter (λ id. not (contains in_scope id)) plan.filters.project_ids)) (
        rejection scope_exceeds_caller "filters.projectIds" (
          append_text "The plan named projects outside the resolved scope. A plan may narrow the "
            "caller's scope and can never widen it."))
    ∷ []

unfoldable pub scope_rejections : QueryPlan → List String → List PlanRejection
scope_rejections plan in_scope = joined (scope_parts plan in_scope)

-- The checks on the metric id.
unfoldable pub metric_rejections : Option String → List String → List PlanRejection
unfolding metric_id_shape fits
metric_rejections none known = []
metric_rejections (some id) known =
    unless (fits metric_id_shape id) (
      rejection malformed_metric_id "metricId"
        "A metric identifier must match the catalogue format.")
    ++ unless (is_empty known || contains known id) (
        rejection unknown_metric "metricId"
          (append_text id " is not defined in the metric catalogue."))

-- The checks of the size and content of the free text.
unfoldable pub query_rejections : Option String → List PlanRejection
unfolding executable_shape finds unit_length
query_rejections none = []
query_rejections (some query) =
    unless (leb (unit_length query) max_evidence_query_chars) (
      rejection evidence_query_too_long "evidenceQuery"
        "The evidence query exceeds the retrieval bound.")
    ++ unless (not (finds executable_shape query)) (
        rejection executable_content "evidenceQuery" (
          append_text "The evidence query contains query- or code-shaped content. Retrieval takes "
            "words, not code."))

abbrev pub check_count : String → List String → List PlanRejection
check_count about given = unless (leb (length given) max_filter_values) (
    rejection too_many_filter_values (append_text "filters." about)
      "A filter may name at most 12 values.")

abbrev pub named_values : PlanFilters → List String
named_values f = f.regions ++ (f.industries ++ (f.accounts ++ (f.customers ++ f.delivery_groups)))

abbrev pub value_parts : PlanFilters → List (List PlanRejection)
value_parts f =
    each_unless (λ x. not (finds executable_shape x))
      (λ x.
        rejection executable_content "filters"
          "A filter value contains query- or code-shaped content.")
      (named_values f)
    ∷ check_count "regions" f.regions
    ∷ check_count "industries" f.industries
    ∷ check_count "accounts" f.accounts
    ∷ check_count "customers" f.customers
    ∷ check_count "deliveryGroups" f.delivery_groups
    ∷ check_count "projectIds" f.project_ids
    ∷ []

unfoldable pub value_rejections : PlanFilters → List PlanRejection
unfolding executable_shape finds
value_rejections f = joined (value_parts f)

-- `rejections`, in the order in which they are pushed.
abbrev pub rejection_parts : QueryPlan → PlanContext → List (List PlanRejection)
rejection_parts plan context =
    question_rejections plan
    ∷ filter_rejections plan.filters context.vocabulary
    ∷ scope_rejections plan context.authorised_project_ids
    ∷ metric_rejections plan.plan_metric_id context.known_metric_ids
    ∷ query_rejections plan.evidence_query
    ∷ value_rejections plan.filters
    ∷ []

unfoldable pub all_rejections : QueryPlan → PlanContext → List PlanRejection
unfolding question_rejections filter_rejections scope_rejections metric_rejections query_rejections
    value_rejections
all_rejections plan context = joined (rejection_parts plan context)

-- `validatePlan`
unfoldable pub validate_plan : QueryPlan → PlanContext → PlanVerdict
unfolding all_rejections
validate_plan plan context =
    if is_empty (all_rejections plan context)
    then accepted plan
    else rejected (all_rejections plan context)
