-- ===== src/Tests/PlanRuns.antt =====
-- Plans of the assistant.
use gldaassurance.Base.{
  arith, true, false, ◌≡◌, refl, ◌∷◌, [], String, some, List, pos, string_eq, ◌≢◌, none,
}
use gldaassurance.Assistant.Patterns.{finds, fits, codes}
use gldaassurance.Assistant.Validator.{
  executable_shape, threshold_shape, metric_id_shape, PlanContext, validate_plan,
}
use gldaassurance.Assistant.Plan.{QueryPlan, empty_plan, empty_filters}
use gldaassurance.Assistant.Proposal.{
  json_text, Json, integer, no_fields, plan_read, field, read_proposed_plan, Language, json_object,
}
use gldaassurance.Assistant.Proposal.Reading.{IsProposal, read_proposed_plan-IsProposal}
use gldaassurance.Assistant.Turns.{plan_turn, runs, PlanningResult, proposed_text}
use gldaassurance.Assistant.Conversation.{new_conversation, ConversationState, advance}
use gldaassurance.Assistant.Turns.Gate.{plan_turn-many_refused}

abbrev europe_plan : QueryPlan
europe_plan = record (empty_plan "population.list") {
  filters = record empty_filters { regions = "Europe" ∷ [] };
  metrics = "tcv" ∷ [];
  limit = pos 5;
}

abbrev europe_context : PlanContext
europe_context = record {
  vocabulary = record {
    known_regions = "Europe" ∷ "LATAM" ∷ [];
    known_industries = [];
    known_accounts = [];
    known_customers = [];
    known_delivery_groups = [];
  };
  authorised_project_ids = "prj-001" ∷ [];
  known_metric_ids = [];
}

selects : finds executable_shape "x SELECT a FROM b" ≡ true
unfolding finds executable_shape
selects = refl

selection : finds executable_shape "selection of fromage" ≡ false
unfolding finds executable_shape
selection = refl

metric_id_fits : fits metric_id_shape "MET-HLTH-020" ≡ true
unfolding fits metric_id_shape
metric_id_fits = refl

threshold_fits : fits threshold_shape "-12.50" ≡ true
unfolding fits threshold_shape
threshold_fits = refl

threshold_refused : fits threshold_shape "3 points" ≡ false
unfolding fits threshold_shape
threshold_refused = refl

abbrev answered : Json
answered =
    json_object
      (field "shape" (json_text "population.rank") (field "limit" (integer (pos 3)) no_fields))

abbrev echo : Language
echo = record {
  lower_case = λ s. s;
  upper_case = λ s. s;
  slice = λ n s. s;
  parse_json = λ s. some answered;
}

ranked_read :
    read_proposed_plan echo "so: {..}" europe_plan
    ≡ some (plan_read echo answered "population.rank" europe_plan)
unfolding read_proposed_plan
ranked_read = refl

read_proposed_plan-IsProposal_example :
    IsProposal europe_plan (plan_read echo answered "population.rank" europe_plan)
read_proposed_plan-IsProposal_example =
    read_proposed_plan-IsProposal echo "so: {..}" europe_plan
      (plan_read echo answered "population.rank" europe_plan) ranked_read

abbrev europe_grammar : PlanningResult
europe_grammar = record {
  planned_plan = some europe_plan;
  decline_reason = none;
  recognised = [];
  is_refinement = true;
}

-- A model's plan for a question that is out of domain, refined by nothing.
abbrev unknown_question : PlanningResult
unknown_question = record {
  planned_plan = none;
  decline_reason = none;
  recognised = [];
  is_refinement = false;
}

model_runs :
    plan_turn echo
      (some (λ q. proposed_text "{..}"))
      europe_context
      new_conversation
      "Worst three?"
      unknown_question
    ≡ runs (plan_read echo answered "population.rank" (empty_plan "population.rank"))
unfolding plan_turn validate_plan read_proposed_plan codes
model_runs = refl

abbrev thirteen : List String
thirteen =
    "p01" ∷ "p02" ∷ "p03" ∷ "p04" ∷ "p05" ∷ "p06" ∷ "p07" ∷ "p08" ∷ "p09" ∷ "p10" ∷ "p11" ∷ "p12"
    ∷ "p13" ∷ []

abbrev after_thirteen : ConversationState
unfolding advance
after_thirteen = advance (λ n s. s) new_conversation "All projects" (some europe_plan) thirteen

plan_turn-many_refused_example :
    plan_turn echo none europe_context after_thirteen "Only Europe" europe_grammar
    ≢ runs europe_plan
unfolding after_thirteen
plan_turn-many_refused_example =
    plan_turn-many_refused echo none europe_context after_thirteen "Only Europe" europe_grammar
      europe_plan europe_plan europe_plan refl refl refl (omega arith)
