-- ===== src/Portfolio/Priority/Order.antt =====
-- intervention-priority.ts: comparePriority is an order, and the ranking follows it.
use gldaassurance.Grades.{confidence_rank}
use gldaassurance.Base.{
  IsSorted, compare_int, ap, descending-IsComparator, IsComparator, ◌∷◌, zero, flipped, suc, length,
  compare_nat, Ordering, [], ℕ, compare_nat-IsComparator, on_key-IsComparator, String, Bool, true,
  chained-IsComparator, none_last-IsComparator, descending, ◌≡◌, map, List, false, refl, filter,
  Permᴰ, compare_int-IsComparator, option_eq, sort-IsSorted, ◌∙◌, sort, inr, Bool-cases,
  comparator_trans, comparator_total, not, sort-perm, inl, length_of_perm,
}
use gldaassurance.Decimals.{q_compare, DecimalJs, ComparesNumbers, q_compare-IsComparator}
use gldaassurance.Portfolio.Priority.{actionability_rank, PriorityPolicy, PriorityCandidate}
use gldaassurance.Portfolio.Priority.Ranking.{
  PriorityRanking, ranks_not_after, number_from, compare_value, compare_rank, compare_clock,
  is_placeable, present_first, Placed, compare_priority, rank_intervention_priority, placed_as,
  place_all, rankable_count, set_aside, unranked_as,
}

present_first-IsComparator : IsComparator present_first
present_first-IsComparator = record { turns = turns'; alike = alike'; chains = chains' }
  where
    turns' : (a b : Bool) → present_first b a ≡ flipped (present_first a b)
    turns' true true = refl
    turns' true false = refl
    turns' false true = refl
    turns' false false = refl

    alike' :
        (a b c : Bool) → present_first a b ≡ Ordering.eq → present_first a c ≡ present_first b c
    alike' true true c e = refl
    alike' true false c e = cc
    alike' false true c e = cc
    alike' false false c e = refl

    chains' :
        (a b c : Bool)
        → present_first a b ≡ Ordering.lt
        → present_first b c ≡ Ordering.lt
        → present_first a c ≡ Ordering.lt
    chains' true true c p q = cc
    chains' true false true p q = cc
    chains' true false false p q = refl
    chains' false true c p q = cc
    chains' false false c p q = cc

compare_rank-IsComparator : IsComparator compare_rank
compare_rank-IsComparator = descending-IsComparator compare_nat compare_nat-IsComparator

-- The ranks that a ranking of n has.
abbrev pub ranks_from : ℕ → ℕ → List ℕ
ranks_from n zero = []
ranks_from n (suc k) = n ∷ ranks_from (suc n) k

-- What a ranking says of a candidate, without its rank.
abbrev pub placed_of : PriorityRanking → Placed
placed_of r = record { placed_id = r.ranked_id; tiers = r.ranked_tiers; gaps = r.ranked_gaps }

map-placed_of-number_from : (n : ℕ) (ps : List Placed) → map placed_of (number_from n ps) ≡ ps
unfolding number_from
map-placed_of-number_from n [] = refl
map-placed_of-number_from n (p ∷ ps) = ap (λ l. p ∷ l) (map-placed_of-number_from (suc n) ps)

map-rank-number_from :
    (n : ℕ) (ps : List Placed) → map (λ r. r.rank) (number_from n ps) ≡ ranks_from n (length ps)
unfolding number_from
map-rank-number_from n [] = refl
map-rank-number_from n (p ∷ ps) = ap (λ l. n ∷ l) (map-rank-number_from (suc n) ps)

length-number_from : (n : ℕ) (ps : List Placed) → length (number_from n ps) ≡ length ps
unfolding number_from
length-number_from n [] = refl
length-number_from n (p ∷ ps) = ap suc (length-number_from (suc n) ps)

length-map-placed : {A : Type 0} (f : A → Placed) (l : List A) → length (map f l) ≡ length l
length-map-placed f [] = refl
length-map-placed f (a ∷ l) = ap suc (length-map-placed f l)

module _ (J : DecimalJs) (policy : PriorityPolicy) where
  place_all-filter :
      (candidates : List PriorityCandidate)
      → place_all J policy candidates
        ≡ map (placed_as J policy) (filter (is_placeable J policy) candidates)
  unfolding place_all
  place_all-filter [] = refl
  place_all-filter (c ∷ rest) = elim (Bool-cases (is_placeable J policy c)) [
    | inl can ↦ rw can (ap (λ l. placed_as J policy c ∷ l) (place_all-filter rest))
    | inr cannot ↦ rw cannot (place_all-filter rest)
  ]

  set_aside-filter :
      (candidates : List PriorityCandidate)
      → set_aside J policy candidates
        ≡ map unranked_as (filter (λ c. not (is_placeable J policy c)) candidates)
  unfolding set_aside
  set_aside-filter [] = refl
  set_aside-filter (c ∷ rest) = elim (Bool-cases (is_placeable J policy c)) [
    | inl can ↦ rw can (set_aside-filter rest)
    | inr cannot ↦ rw cannot (ap (λ l. unranked_as c ∷ l) (set_aside-filter rest))
  ]

  -- The candidates that are not ranked are exactly those that no tier can place, in their order,
  -- and rankableCount counts those that are ranked, whatever decimal.js and localeCompare do.
  pub rank_intervention_priority-set_aside :
      (locale_compare : String → String → Ordering) (candidates : List PriorityCandidate)
      → ((rank_intervention_priority J locale_compare policy candidates).insufficient_evidence
          ≡ map unranked_as (filter (λ c. not (is_placeable J policy c)) candidates))
        × (length (rank_intervention_priority J locale_compare policy candidates).ranked
            ≡ rankable_count J policy candidates)
  unfolding rank_intervention_priority rankable_count
  rank_intervention_priority-set_aside locale_compare candidates = (
    set_aside-filter candidates,
    length-number_from 1 (sort (ranks_not_after J locale_compare) (place_all J policy candidates))
        ∙ length_of_perm
            (sort-perm (ranks_not_after J locale_compare) (place_all J policy candidates))
        ∙ ap length (place_all-filter candidates)
        ∙ length-map-placed (placed_as J policy) (filter (is_placeable J policy) candidates),
  )

module _ (J : DecimalJs) (h : ComparesNumbers J) where
  compare_value-IsComparator : IsComparator (compare_value J)
  compare_value-IsComparator =
      none_last-IsComparator (descending (q_compare J))
        (descending-IsComparator (q_compare J) (q_compare-IsComparator J h))

  module _ (locale_compare : String → String → Ordering) (total : IsComparator locale_compare) where
    -- Where decimal.js compares numbers and localeCompare is an order, the comparison of two
    -- candidates is an order: it turns with its arguments, candidates that it does not tell apart
    -- answer and what stands strictly before does so transitively.
    pub compare_priority-IsComparator : IsComparator (compare_priority J locale_compare)
    unfolding compare_priority
    compare_priority-IsComparator =
        chained-IsComparator _ _
          (on_key-IsComparator (λ p. p.tiers.critical_exposure) present_first
            present_first-IsComparator)
          (chained-IsComparator _ _
            (on_key-IsComparator (λ p. p.tiers.predicted_deterioration) present_first
              present_first-IsComparator)
            (chained-IsComparator _ _
              (on_key-IsComparator (λ p. p.tiers.time_criticality) compare_clock
                (none_last-IsComparator compare_int compare_int-IsComparator))
              (chained-IsComparator _ _
                (on_key-IsComparator (λ p. p.tiers.tier_value_at_risk) (compare_value J)
                  compare_value-IsComparator)
                (chained-IsComparator _ _
                  (on_key-IsComparator (λ p. actionability_rank p.tiers.tier_actionability)
                    compare_rank compare_rank-IsComparator)
                  (chained-IsComparator _ _
                    (on_key-IsComparator (λ p. confidence_rank p.tiers.rank_confidence) compare_rank
                      compare_rank-IsComparator)
                    (on_key-IsComparator (λ p. p.placed_id) locale_compare total))))))

    -- Where decimal.js compares numbers and localeCompare is an order, the ranking holds the
    -- placeable candidates, each as often as it was given, no later one strictly before an earlier
    -- one, and the ranks count from one.
    pub rank_intervention_priority-IsSorted :
        (policy : PriorityPolicy) (candidates : List PriorityCandidate)
        → IsSorted
            (ranks_not_after J locale_compare)
            (map placed_of (rank_intervention_priority J locale_compare policy candidates).ranked)
          × Permᴰ
              (map placed_of (rank_intervention_priority J locale_compare policy candidates).ranked)
              (map (placed_as J policy) (filter (is_placeable J policy) candidates))
          × (map
                (λ r. r.rank)
                (rank_intervention_priority J locale_compare policy candidates).ranked
              ≡ ranks_from 1 (length (filter (is_placeable J policy) candidates)))
    unfolding rank_intervention_priority
    rank_intervention_priority-IsSorted policy candidates =
        let order = ranks_not_after J locale_compare in
        let placed = place_all J policy candidates in
        let plain : map placed_of (number_from 1 (sort order placed)) ≡ sort order placed =
          map-placed_of-number_from 1 (sort order placed) in
        let sorted : IsSorted order (sort order placed) =
          sort-IsSorted order
            (comparator_total (compare_priority J locale_compare) compare_priority-IsComparator)
            (comparator_trans (compare_priority J locale_compare) compare_priority-IsComparator)
            placed in
        let same = place_all-filter J policy candidates in
        (
          rw plain sorted,
          rw plain (rw (← same) (sort-perm order placed)),
          map-rank-number_from 1 (sort order placed)
              ∙ ap (ranks_from 1) (
                  length_of_perm (sort-perm order placed)
                  ∙ ap length same
                  ∙ length-map-placed (placed_as J policy)
                      (filter (is_placeable J policy) candidates)),
        )
