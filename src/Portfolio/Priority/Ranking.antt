-- ===== src/Portfolio/Priority/Ranking.antt =====
-- intervention-priority.ts, the comparison of two candidates and the ranking.
use gldaassurance.Grades.{confidence_rank, red, Band}
use gldaassurance.Base.{
  string_eq, option_eq, ◌∷◌, false, compare_nat, true, ℤ, descending, compare_int, Bool, none_last,
  Ordering, then_by, ◌||◌, filter, suc, String, Option, none, some, List, if◌then◌else◌, [], sort,
  ℕ, ◌&&◌, length, not_after, not, ◌==◌, nat_eqb,
}
use gldaassurance.Decimals.{DecimalJs, q_compare, q_zero, q_ge, q_gt, Quantity}
use gldaassurance.Portfolio.Priority.{
  has_predicted_deterioration, PriorityPolicy, actionability_rank, ExposureEvidence,
  time_criticality_weeks, is_given, EvidenceGap, PriorityCandidate, gaps_of, PriorityTierValues,
  rank_confidence_of, grade_actionability,
}

-- One that is present stands first.
abbrev pub present_first : Bool → Bool → Ordering
present_first true true = Ordering.eq
present_first true false = Ordering.lt
present_first false true = Ordering.gt
present_first false false = Ordering.eq

-- `compareClock`
abbrev pub compare_clock : Option ℤ → Option ℤ → Ordering
compare_clock = none_last compare_int

-- `ORDER[b] - ORDER[a]`
abbrev pub compare_rank : ℕ → ℕ → Ordering
compare_rank a b = compare_nat b a

-- The seven texts of `decidingTier`, by the tier that they name.
pub data DecidingTier : Type 0 where
  by_exposure by_deterioration by_clock by_value by_actionability by_confidence by_id : DecidingTier

-- `a !== b` on Booleans.
abbrev pub differs : Bool → Bool → Bool
differs true true = false
differs true false = true
differs false true = true
differs false false = false

-- `compare(a, b) !== 0`
abbrev pub tells_apart : Ordering → Bool
tells_apart Ordering.lt = true
tells_apart Ordering.eq = false
tells_apart Ordering.gt = true

-- `decidingTier`; the value at risk is compared as a text.
unfoldable pub deciding_tier : PriorityTierValues → PriorityTierValues → DecidingTier
deciding_tier a b =
    if differs a.critical_exposure b.critical_exposure
    then by_exposure
    else if differs a.predicted_deterioration b.predicted_deterioration
    then by_deterioration
    else if tells_apart (compare_clock a.time_criticality b.time_criticality)
    then by_clock
    else if not (a.tier_value_at_risk == b.tier_value_at_risk)
    then by_value
    else if not (
        nat_eqb (actionability_rank a.tier_actionability) (actionability_rank b.tier_actionability))
    then by_actionability
    else if not (nat_eqb (confidence_rank a.rank_confidence) (confidence_rank b.rank_confidence))
    then by_confidence
    else by_id

-- A candidate that can be placed.
pub record Placed : Type 0 where
  pub placed_id : String
  pub tiers : PriorityTierValues
  pub gaps : List EvidenceGap

pub record PriorityRanking : Type 0 where
  pub ranked_id : String
  pub rank : ℕ
  pub ranked_tiers : PriorityTierValues
  pub ranked_gaps : List EvidenceGap
  pub outranks_because : Option DecidingTier

pub record UnrankedCandidate : Type 0 where
  pub unranked_id : String
  pub unranked_gaps : List EvidenceGap

pub record PriorityResult : Type 0 where
  pub ranked : List PriorityRanking
  pub insufficient_evidence : List UnrankedCandidate

abbrev pub unranked_as : PriorityCandidate → UnrankedCandidate
unranked_as c = record { unranked_id = c.candidate_id; unranked_gaps = gaps_of c }

-- What decided between a candidate and the one that is ranked next, if there is one.
unfoldable pub decided_against : Placed → List Placed → Option DecidingTier
decided_against p [] = none
decided_against p (next ∷ _) = some (deciding_tier p.tiers next.tiers)

-- The `map` that numbers the ranking, from the given rank.
unfoldable pub number_from : ℕ → List Placed → List PriorityRanking
number_from n [] = []
number_from n (p ∷ rest) =
    record {
      ranked_id = p.placed_id;
      rank = n;
      ranked_tiers = p.tiers;
      ranked_gaps = p.gaps;
      outranks_because = decided_against p rest;
    }
    ∷ number_from (suc n) rest

module _ (J : DecimalJs) where
  -- `positive`
  abbrev pub is_positive : Option Quantity → Bool
  is_positive none = false
  is_positive (some q) = q_gt J q q_zero

  abbrev pub is_red : Option Band → Bool
  is_red (some red) = true
  is_red _ = false

  -- `e.gmValueAtRisk !== null && qCompare(e.gmValueAtRisk, floor) >= 0`
  abbrev pub reaches : Quantity → Option Quantity → Bool
  reaches floor none = false
  reaches floor (some q) = q_ge J q floor

  -- `hasCriticalExposure`
  unfoldable pub has_critical_exposure : ExposureEvidence → PriorityPolicy → Bool
  has_critical_exposure e policy =
      if is_positive e.contractual_penalty_exposure
      then true
      else if is_positive e.forecast_contract_loss
      then true
      else is_red e.system_assessed_band
        && reaches policy.critical_gm_value_at_risk_floor e.gm_value_at_risk

  -- The value at risk, larger first and a measured one before one that is not.
  abbrev pub compare_value : Option Quantity → Option Quantity → Ordering
  compare_value = none_last (descending (q_compare J))

  -- The tiers of a candidate.
  abbrev pub tiers_of : PriorityPolicy → PriorityCandidate → PriorityTierValues
  tiers_of policy c = record {
    critical_exposure = has_critical_exposure c.exposure policy;
    predicted_deterioration = has_predicted_deterioration c.exposure;
    time_criticality = time_criticality_weeks c.exposure;
    tier_value_at_risk = c.exposure.gm_value_at_risk;
    tier_actionability = grade_actionability c.actionability;
    rank_confidence = rank_confidence_of c (gaps_of c);
  }

  -- `placeable`
  abbrev pub is_placeable : PriorityPolicy → PriorityCandidate → Bool
  is_placeable policy c =
      has_critical_exposure c.exposure policy
      || has_predicted_deterioration c.exposure
      || is_given c.exposure.gm_value_at_risk

  abbrev pub placed_as : PriorityPolicy → PriorityCandidate → Placed
  placed_as policy c = record {
    placed_id = c.candidate_id;
    tiers = tiers_of policy c;
    gaps = gaps_of c;
  }

  -- The two lists that the loop of `rankInterventionPriority` fills.
  unfoldable pub place_all : PriorityPolicy → List PriorityCandidate → List Placed
  place_all policy [] = []
  place_all policy (c ∷ rest) =
      let placed = place_all policy rest in
      if is_placeable policy c then placed_as policy c ∷ placed else placed

  unfoldable pub set_aside : PriorityPolicy → List PriorityCandidate → List UnrankedCandidate
  set_aside policy [] = []
  set_aside policy (c ∷ rest) =
      let others = set_aside policy rest in
      if is_placeable policy c then others else unranked_as c ∷ others

  -- `rankableCount`, as a number.
  unfoldable pub rankable_count : PriorityPolicy → List PriorityCandidate → ℕ
  rankable_count policy candidates = length (filter (is_placeable policy) candidates)

  module _ (locale_compare : String → String → Ordering) where
    -- `comparePriority`
    unfoldable pub compare_priority : Placed → Placed → Ordering
    compare_priority a b =
        then_by (present_first a.tiers.critical_exposure b.tiers.critical_exposure) (
          then_by (present_first a.tiers.predicted_deterioration b.tiers.predicted_deterioration) (
            then_by (compare_clock a.tiers.time_criticality b.tiers.time_criticality) (
              then_by (compare_value a.tiers.tier_value_at_risk b.tiers.tier_value_at_risk) (
                then_by
                  (compare_rank (actionability_rank a.tiers.tier_actionability)
                    (actionability_rank b.tiers.tier_actionability))
                  (then_by
                    (compare_rank (confidence_rank a.tiers.rank_confidence)
                      (confidence_rank b.tiers.rank_confidence))
                    (locale_compare a.placed_id b.placed_id))))))

    -- `not after`, for the sort.
    abbrev pub ranks_not_after : Placed → Placed → Bool
    ranks_not_after a b = not_after (compare_priority a b)

    -- `rankInterventionPriority`
    unfoldable pub rank_intervention_priority :
        PriorityPolicy → List PriorityCandidate → PriorityResult
    rank_intervention_priority policy candidates = record {
      ranked = number_from 1 (sort ranks_not_after (place_all policy candidates));
      insufficient_evidence = set_aside policy candidates;
    }
