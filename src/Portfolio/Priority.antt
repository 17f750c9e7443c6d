-- ===== src/Portfolio/Priority.antt =====
-- src/contexts/portfolio/internal/intervention-priority.ts: the tiers of a candidate and the order of
-- the candidates. Numbers of weeks are integers; `decimal.js` and `localeCompare` are parameters; the
-- narrative texts are left out.
pub mod Ranking
pub mod Order
pub mod Reasons
use gldaassurance.Grades.{
  high_confidence, band_rank, low_confidence, ConfidenceBand, confidence_rank, medium_confidence,
  Band,
}
use gldaassurance.Base.{
  ◌∷◌, false, true, ℤ, compare_int, Bool, nat_eqb, leb, ◌||◌, String, Option, none, any, some, List,
  if◌then◌else◌, [], ℕ, ◌&&◌, length, not_after, ltb, given_values,
}
use gldaassurance.Decimals.{Quantity}

pub record ExposureEvidence : Type 0 where
  pub system_assessed_band : Option Band
  pub gm_value_at_risk : Option Quantity
  pub contractual_penalty_exposure : Option Quantity
  pub forecast_contract_loss : Option Quantity
  pub is_system_green_at_risk : Bool
  pub outlook_30 : Option Band
  pub outlook_60 : Option Band
  pub weeks_to_band_change : Option ℤ
  pub weeks_to_critical_milestone : Option ℤ
  pub hard_override_present : Bool

pub record ActionabilityEvidence : Type 0 where
  pub open_recovery_action_id : Option String
  pub named_owner : Option String
  pub due_date : Option String
  pub estimated_gm_benefit : Option Quantity
  pub estimated_schedule_benefit_weeks : Option ℤ
  pub plan_confidence : Option ConfidenceBand
  pub executive_dependency : Bool

pub record PriorityCandidate : Type 0 where
  pub candidate_id : String
  pub exposure : ExposureEvidence
  pub actionability : ActionabilityEvidence
  pub data_confidence_band : Option ConfidenceBand
  pub forecast_confidence_band : Option ConfidenceBand

pub record PriorityPolicy : Type 0 where
  pub rule_version : String
  pub critical_gm_value_at_risk_floor : Quantity
  pub immediate_horizon_weeks : ℤ

pub data ActionabilityGrade : Type 0 where
  credible_plan plan_forming no_plan not_assessed : ActionabilityGrade

-- `ACTIONABILITY_ORDER`
abbrev pub actionability_rank : ActionabilityGrade → ℕ
actionability_rank credible_plan = 3
actionability_rank plan_forming = 2
actionability_rank no_plan = 1
actionability_rank not_assessed = 0

-- `value === null`
abbrev pub is_null {ℓ} : {A : Type ℓ} → Option A → Bool
is_null none = true
is_null (some _) = false

-- `value !== null`
abbrev pub is_given {ℓ} : {A : Type ℓ} → Option A → Bool
is_given none = false
is_given (some _) = true

-- The `nothingKnown` of `gradeActionability`.
abbrev pub nothing_known : ActionabilityEvidence → Bool
nothing_known a =
    is_null a.open_recovery_action_id
    && is_null a.named_owner
    && is_null a.due_date
    && is_null a.estimated_gm_benefit
    && is_null a.estimated_schedule_benefit_weeks
    && is_null a.plan_confidence

-- `gradeActionability`
unfoldable pub grade_actionability : ActionabilityEvidence → ActionabilityGrade
grade_actionability a =
    if nothing_known a
    then not_assessed
    else if is_null a.open_recovery_action_id
    then no_plan
    else if is_given a.named_owner
        && is_given a.due_date
        && (is_given a.estimated_gm_benefit || is_given a.estimated_schedule_benefit_weeks)
    then credible_plan
    else plan_forming

-- `hasPredictedDeterioration`
unfoldable pub has_predicted_deterioration : ExposureEvidence → Bool
has_predicted_deterioration e =
    if e.is_system_green_at_risk then true else elim e.system_assessed_band [
      | none ↦ false
      | some band ↦
          any (λ b. ltb (band_rank band) (band_rank b))
            (given_values (e.outlook_30 ∷ e.outlook_60 ∷ []))
    ]

-- `Math.min` of two numbers.
abbrev pub min_int : ℤ → ℤ → ℤ
min_int a b = if not_after (compare_int a b) then a else b

-- The least of the clocks that are given.
abbrev pub least_of : List ℤ → Option ℤ
least_of [] = none
least_of (w ∷ ws) = elim (least_of ws) [ none ↦ some w | some m ↦ some (min_int w m) ]

-- `timeCriticalityWeeks`
unfoldable pub time_criticality_weeks : ExposureEvidence → Option ℤ
time_criticality_weeks e =
    least_of (given_values (e.weeks_to_band_change ∷ e.weeks_to_critical_milestone ∷ []))

-- The gaps that `gapsOf` names.
pub data EvidenceGap : Type 0 where
  no_band no_value_at_risk no_clock no_assessment no_data_confidence : EvidenceGap

abbrev pub gap_if : Bool → EvidenceGap → List EvidenceGap → List EvidenceGap
gap_if true gap rest = gap ∷ rest
gap_if false gap rest = rest

abbrev pub is_not_assessed : ActionabilityGrade → Bool
is_not_assessed not_assessed = true
is_not_assessed _ = false

-- `gapsOf`
unfoldable pub gaps_of : PriorityCandidate → List EvidenceGap
unfolding time_criticality_weeks grade_actionability
gaps_of c = gap_if (is_null c.exposure.system_assessed_band) no_band (
    gap_if (is_null c.exposure.gm_value_at_risk) no_value_at_risk (
      gap_if (is_null (time_criticality_weeks c.exposure)) no_clock (
        gap_if (is_not_assessed (grade_actionability c.actionability)) no_assessment
          (gap_if (is_null c.data_confidence_band) no_data_confidence []))))

-- The worse of two bands, as the `reduce` of `rankConfidenceOf` takes it.
abbrev pub worse_band : ConfidenceBand → ConfidenceBand → ConfidenceBand
worse_band worst b = if ltb (confidence_rank b) (confidence_rank worst) then b else worst

abbrev pub worst_of : List ConfidenceBand → ConfidenceBand
worst_of [] = low_confidence
worst_of (b ∷ []) = b
worst_of (b ∷ c ∷ rest) = worst_of (worse_band b c ∷ rest)

abbrev pub knocked_down : ConfidenceBand → ConfidenceBand
knocked_down high_confidence = medium_confidence
knocked_down medium_confidence = low_confidence
knocked_down low_confidence = low_confidence

-- `rankConfidenceOf`
unfoldable pub rank_confidence_of : PriorityCandidate → List EvidenceGap → ConfidenceBand
rank_confidence_of c gaps =
    let base = worst_of (given_values (c.data_confidence_band ∷ c.forecast_confidence_band ∷ [])) in
    if leb 3 (length gaps)
    then low_confidence
    else if nat_eqb (length gaps) 0
    then base
    else knocked_down base

pub record PriorityTierValues : Type 0 where
  pub critical_exposure : Bool
  pub predicted_deterioration : Bool
  pub time_criticality : Option ℤ
  pub tier_value_at_risk : Option Quantity
  pub tier_actionability : ActionabilityGrade
  pub rank_confidence : ConfidenceBand
