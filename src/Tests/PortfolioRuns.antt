-- ===== src/Tests/PortfolioRuns.antt =====
-- The ranking of two candidates.
use gldaassurance.Grades.{green}
use gldaassurance.Base.{
  map, on_key, String, none, ◌∷◌, on_key-IsComparator, false, [], IsComparator, Ordering,
  compare_nat, some, compare_nat-IsComparator, ◌≡◌, pos,
}
use gldaassurance.Api.Validation.{text_length}
use gldaassurance.Tests.Naturals.{naturals, naturals-ComparesNumbers}
use gldaassurance.Portfolio.Priority.{
  ActionabilityEvidence, has_predicted_deterioration, ExposureEvidence, PriorityCandidate,
  PriorityPolicy,
}
use gldaassurance.Portfolio.Priority.Order.{rank_intervention_priority-IsSorted}
use gldaassurance.Portfolio.Priority.Ranking.{has_critical_exposure, rank_intervention_priority}

abbrev no_exposure : ExposureEvidence
no_exposure = record {
  system_assessed_band = some green;
  gm_value_at_risk = some "5";
  contractual_penalty_exposure = none;
  forecast_contract_loss = none;
  is_system_green_at_risk = false;
  outlook_30 = none;
  outlook_60 = none;
  weeks_to_band_change = none;
  weeks_to_critical_milestone = none;
  hard_override_present = false;
}

abbrev no_plan_known : ActionabilityEvidence
no_plan_known = record {
  open_recovery_action_id = none;
  named_owner = none;
  due_date = none;
  estimated_gm_benefit = none;
  estimated_schedule_benefit_weeks = none;
  plan_confidence = none;
  executive_dependency = false;
}

abbrev small_candidate : PriorityCandidate
small_candidate = record {
  candidate_id = "p-1";
  exposure = no_exposure;
  actionability = no_plan_known;
  data_confidence_band = none;
  forecast_confidence_band = none;
}

abbrev large_candidate : PriorityCandidate
large_candidate = record small_candidate {
  candidate_id = "p-2";
  exposure = record no_exposure { gm_value_at_risk = some "50" };
}

abbrev floor_policy : PriorityPolicy
floor_policy = record {
  rule_version = "PORT-v1";
  critical_gm_value_at_risk_floor = "100";
  immediate_horizon_weeks = pos 4;
}

-- Ids by their length, in place of `localeCompare`.
abbrev by_length : String → String → Ordering
by_length = on_key text_length compare_nat

by_length-IsComparator : IsComparator by_length
by_length-IsComparator = on_key-IsComparator text_length compare_nat compare_nat-IsComparator

rank_intervention_priority-IsSorted_example :
    map
      (λ r. r.rank)
      (rank_intervention_priority naturals by_length floor_policy
        (small_candidate ∷ large_candidate ∷ [])).ranked
    ≡ 1 ∷ 2 ∷ []
unfolding has_critical_exposure has_predicted_deterioration
rank_intervention_priority-IsSorted_example =
    (rank_intervention_priority-IsSorted naturals naturals-ComparesNumbers by_length
      by_length-IsComparator floor_policy (small_candidate ∷ large_candidate ∷ [])).2
