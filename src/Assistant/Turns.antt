-- ===== src/Assistant/Turns.antt =====
-- src/app/assistant/orchestrator.ts: the steps of a question from the result of the grammar to the plan
-- that runs: `assistPlan`, and the refinement and validation of `resolveAsk`. The statement of a
-- refusal without a plan is a constant for its reason and left out.
pub mod Gate
use gldaassurance.Base.{
  some, Option, or_else, false, true, all, String, append_text, List, none, is_empty, [], ◌∷◌, ◌&&◌,
  if◌then◌else◌, any, not, Bool, is_space,
}
use gldaassurance.Assistant.Patterns.{codes}
use gldaassurance.Assistant.Validator.{
  PlanContext, project_not_authorised, validate_plan, PlanRejection, accepted, PlanRejectionCode,
  scope_exceeds_caller, PlanVerdict, rejected,
}
use gldaassurance.Assistant.Plan.{QueryPlan, empty_plan}
use gldaassurance.Assistant.Proposal.{Language, read_proposed_plan}
use gldaassurance.Assistant.Conversation.{refine, ConversationState}

pub data DeclineReason : Type 0 where
  mutation_request probability_request out_of_domain project_not_named ambiguous_question :
      DeclineReason

-- What the grammar makes of a question.
pub record PlanningResult : Type 0 where
  pub planned_plan : Option QueryPlan
  pub decline_reason : Option DeclineReason
  pub recognised : List String
  pub is_refinement : Bool

pub data RefusalReason : Type 0 where
  unauthorized insufficient_evidence metric_not_computable evidence_stale : RefusalReason
  unsupported_question advisory_only_restriction : RefusalReason

-- What a model is asked for: `propose` throws, gives `null`, or gives a text.
pub data ProposedText : Type 0 where
  propose_failed no_text : ProposedText
  proposed_text : String → ProposedText

abbrev pub is_out_of_domain : DeclineReason → Bool
is_out_of_domain out_of_domain = true
is_out_of_domain _ = false

-- `raw.trim() === ''`
abbrev pub is_white : String → Bool
is_white raw = all is_space (codes raw)

module _ (language : Language) where
  -- The plan read out of a text.
  unfoldable pub with_proposal : PlanningResult → ProposedText → PlanningResult
  unfolding read_proposed_plan codes
  with_proposal grammar propose_failed = grammar
  with_proposal grammar no_text = grammar
  with_proposal grammar (proposed_text raw) =
      if is_white raw
      then grammar
      else elim (read_proposed_plan language raw (empty_plan "population.rank")) [
        | none ↦ grammar
        | some p ↦ record grammar { planned_plan = some p }
      ]

  -- `assistPlan`, where `none` is that no planner is configured.
  unfoldable pub assist_plan :
      Option (String → ProposedText) → String → PlanningResult → PlanningResult
  unfolding with_proposal
  assist_plan none question grammar = grammar
  assist_plan (some propose) question grammar = elim grammar.planned_plan [
    | some p ↦ grammar
    | none ↦
        if is_out_of_domain (or_else grammar.decline_reason out_of_domain)
        then with_proposal grammar (propose question)
        else grammar
  ]

-- The reason of a refusal without a plan.
abbrev pub unplanned_reason : DeclineReason → RefusalReason
unplanned_reason mutation_request = advisory_only_restriction
unplanned_reason probability_request = unsupported_question
unplanned_reason project_not_named = insufficient_evidence
unplanned_reason _ = unsupported_question

abbrev pub is_scope_code : PlanRejectionCode → Bool
is_scope_code project_not_authorised = true
is_scope_code scope_exceeds_caller = true
is_scope_code _ = false

abbrev pub concerns_scope : PlanRejection → Bool
concerns_scope r = is_scope_code r.rejection_code

-- `map((r) => r.detail).join(' ')`
abbrev pub details_of : List PlanRejection → String
details_of [] = ""
details_of (r ∷ []) = r.rejection_detail
details_of (r ∷ rs) = append_text r.rejection_detail (append_text " " (details_of rs))

-- `GENERIC_DECLINE`
abbrev pub generic_decline : String
generic_decline = "Not found. There is nothing to show for that request in your authorised scope."

-- A question ends without a plan, ends with a plan that is refused, or goes on with a plan.
pub data Turn : Type 0 where
  unplanned : RefusalReason → Turn
  refused_plan : RefusalReason → String → QueryPlan → List PlanRejection → Turn
  runs : QueryPlan → Turn

unfoldable pub after_validation : QueryPlan → PlanVerdict → Turn
after_validation candidate (accepted plan) = runs plan
after_validation candidate (rejected rs) =
    if any concerns_scope rs
    then refused_plan unauthorized generic_decline candidate rs
    else refused_plan unsupported_question
        (append_text "That question could not be resolved into something this product can answer: "
          (details_of rs))
        candidate rs

-- The candidate of a plan.
abbrev pub candidate_of : ConversationState → QueryPlan → Bool → QueryPlan
candidate_of state p is_refinement =
    refine state p is_refinement (is_refinement && not (is_empty state.carried_population))

unfoldable pub after_planning : PlanContext → ConversationState → PlanningResult → Turn
unfolding refine validate_plan after_validation
after_planning context state planned = elim planned.planned_plan [
  | none ↦ unplanned (unplanned_reason (or_else planned.decline_reason out_of_domain))
  | some p ↦
      let candidate = candidate_of state p planned.is_refinement in
      after_validation candidate (validate_plan candidate context)
]

-- Steps 4 and 5 of `resolveAsk`.
unfoldable pub plan_turn :
    Language
    → Option (String → ProposedText)
    → PlanContext
    → ConversationState
    → String
    → PlanningResult
    → Turn
unfolding assist_plan after_planning
plan_turn language planning context state question grammar =
    after_planning context state (assist_plan language planning question grammar)
