-- ===== src/Portfolio/Priority/Reasons.antt =====
-- intervention-priority.ts: the tier that decidingTier names, and the tier at which comparePriority
-- returned.
use gldaassurance.Grades.{confidence_rank}
use gldaassurance.Base.{
  string_eq, option_eq, ◌↔◌, ◌==◌, ==_iff, Ordering, [], if◌then◌else◌, nat_eqb, true, refl, not,
  arith, ◌≡◌, List, ℕ, false, Option, Bool, ◌∷◌,
}
use gldaassurance.Decimals.{DecimalJs, Quantity}
use gldaassurance.Access.Policy.{answer}
use gldaassurance.Portfolio.Priority.{PriorityTierValues, actionability_rank}
use gldaassurance.Portfolio.Priority.Ranking.{
  compare_value, by_clock, by_deterioration, by_exposure, compare_rank, deciding_tier, by_value,
  tells_apart, by_actionability, differs, compare_clock, present_first, DecidingTier, by_confidence,
  by_id,
}

-- The first tier of a list at which the answer is not a tie.
abbrev pub first_apart : List (Ordering × DecidingTier) → DecidingTier
first_apart [] = by_id
first_apart ((answer, tier) ∷ rest) = if tells_apart answer then tier else first_apart rest

module _ (J : DecimalJs) where
  -- The tiers above the id, with what comparePriority finds at each.
  abbrev pub tier_answers : PriorityTierValues → PriorityTierValues → List (Ordering × DecidingTier)
  tier_answers a b =
      (present_first a.critical_exposure b.critical_exposure, by_exposure)
      ∷ (present_first a.predicted_deterioration b.predicted_deterioration, by_deterioration)
      ∷ (compare_clock a.time_criticality b.time_criticality, by_clock)
      ∷ (compare_value J a.tier_value_at_risk b.tier_value_at_risk, by_value)
      ∷ (
        compare_rank (actionability_rank a.tier_actionability)
            (actionability_rank b.tier_actionability),
        by_actionability,
      )
      ∷ (
        compare_rank (confidence_rank a.rank_confidence) (confidence_rank b.rank_confidence),
        by_confidence,
      )
      ∷ []

  -- Two values at risk are equal as decimals exactly where their texts are the same.
  abbrev pub SameTextWhenEqual : Option Quantity → Option Quantity → Type 0
  SameTextWhenEqual a b = (compare_value J a b ≡ Ordering.eq) ↔ (a ≡ b)

  differs-present_first : (a b : Bool) → differs a b ≡ tells_apart (present_first a b)
  differs-present_first true true = refl
  differs-present_first true false = refl
  differs-present_first false true = refl
  differs-present_first false false = refl

  differs-compare_rank : (a b : ℕ) → not (nat_eqb a b) ≡ tells_apart (compare_rank a b)
  differs-compare_rank a b = ground arith

  tells_apart_iff : (o : Ordering) → (tells_apart o ≡ false) ↔ (o ≡ Ordering.eq)
  tells_apart_iff o = ground arith

  differs-compare_value :
      (a b : Option Quantity)
      → SameTextWhenEqual a b
      → not (a == b) ≡ tells_apart (compare_value J a b)
  differs-compare_value a b same =
      ground (arith, ==_iff a b, tells_apart_iff (compare_value J a b), same)

  -- Where equal values at risk have equal texts, the tier that is named as the reason is the first
  -- tier at which the comparison of the two candidates is not a tie.
  pub deciding_tier-first :
      (a b : PriorityTierValues)
      → SameTextWhenEqual a.tier_value_at_risk b.tier_value_at_risk
      → deciding_tier a b ≡ first_apart (tier_answers a b)
  unfolding deciding_tier
  deciding_tier-first a b same = rw (
    differs-present_first a.critical_exposure b.critical_exposure,
    differs-present_first a.predicted_deterioration b.predicted_deterioration,
    differs-compare_value a.tier_value_at_risk b.tier_value_at_risk same,
    differs-compare_rank (actionability_rank a.tier_actionability)
        (actionability_rank b.tier_actionability),
    differs-compare_rank (confidence_rank a.rank_confidence) (confidence_rank b.rank_confidence),
  )
