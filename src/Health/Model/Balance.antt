-- ===== src/Health/Model/Balance.antt =====
-- validateHealthModel: when it has nothing to object to.
use gldaassurance.Base.{
  none, [], ◌≡◌, ◌⊎◌, Bool-cases, All, true, false, List, Option-cases, any, if◌then◌else◌, refl,
  inl, ◌∷◌, ◌↔◌, ◌≢◌, is_empty, inr, unless_nil, nil_append, ap, map, sym, none-ne-some, is_tie,
  ◌∙◌, Ordering,
}
use gldaassurance.Decimals.{DecimalJs, Quantity, is_decimal_text, q_compare}
use gldaassurance.Health.Model.{
  validate_health_model, equals_one, dimension_errors, model_total, input_total, DimensionInput,
  all_dimension_errors, edge_errors, HealthModel, edges_ordered, input_weights_sum_to,
  edges_reversed, DimensionDefinition, is_unset, dimension_weights_sum_to, weight_or_zero, sum_from,
  model_texts, read_quantities, sum_weights, returned,
}
use gldaassurance.Health.Scoring.Scored.{
  >>=-returned, returned_inj, read_quantities-returns, read_quantities-IsPlain,
}

module _ (J : DecimalJs) where
  -- What is left of adding each text in turn, as decimal.js adds and writes.
  abbrev pub added_up : Quantity → List Quantity → Quantity
  added_up total [] = total
  added_up total (w ∷ weights) =
      added_up (J.to_fixed (J.plus (J.of_text total) (J.of_text w))) weights

  -- From zero, the weights added in their order come to a number that compares equal to one.
  abbrev pub SumsToOne : List Quantity → Type 0
  SumsToOne weights = J.compared_to (J.of_text (added_up "0" weights)) (J.of_text "1") ≡ Ordering.eq

  -- The green edge is above the red one where more is better, and below it where less is.
  abbrev pub InOrder : DimensionInput → Type 0
  InOrder x =
      ((x.higher_is_better ≡ true)
        × (J.compared_to (J.of_text x.green_edge) (J.of_text x.red_edge) ≡ Ordering.gt))
      ⊎ ((x.higher_is_better ≡ false)
          × (J.compared_to (J.of_text x.green_edge) (J.of_text x.red_edge) ≡ Ordering.lt))

  -- The weights of the inputs sum to one and each input's edges are in the order of its direction.
  abbrev pub IsBalanced : DimensionDefinition → Type 0
  IsBalanced d =
      (d.definition_inputs ≡ [])
      ⊎ (SumsToOne (map (λ x. x.input_weight) d.definition_inputs)
          × All InOrder d.definition_inputs)

  sum_from-added_up :
      (total : Quantity) (weights : List Quantity)
      → sum_from J total weights ≡ added_up total weights
  sum_from-added_up total [] = refl
  sum_from-added_up total (w ∷ weights) =
      sum_from-added_up (J.to_fixed (J.plus (J.of_text total) (J.of_text w))) weights

  is_tie_iff : (o : Ordering) → (is_tie o ≡ true) ↔ (o ≡ Ordering.eq)
  is_tie_iff Ordering.lt = (λ h. absurd (cc), λ h. absurd (cc))
  is_tie_iff Ordering.eq = (λ _. refl, λ _. refl)
  is_tie_iff Ordering.gt = (λ h. absurd (cc), λ h. absurd (cc))

  SumsToOne-equals_one :
      (weights : List Quantity) → (equals_one J (sum_weights J weights) ≡ true) ↔ SumsToOne weights
  SumsToOne-equals_one weights =
      rw (sum_from-added_up "0" weights)
        (is_tie_iff (J.compared_to (J.of_text (added_up "0" weights)) (J.of_text "1")))

  edges_ordered-InOrder : (x : DimensionInput) → (edges_ordered J x ≡ true) ↔ InOrder x
  edges_ordered-InOrder x = elim (Bool-cases x.higher_is_better) [
    | inl higher ↦ rw higher (
      λ h. inl (refl, (is_gt_iff (q_compare J x.green_edge x.red_edge)).0 h),
      λ h. elim h [
        | inl up ↦ (is_gt_iff (q_compare J x.green_edge x.red_edge)).1 up.1
        | inr down ↦ absurd (cc (down.0))
      ],
    )
    | inr lower ↦ rw lower (
      λ h. inr (refl, (is_lt_iff (q_compare J x.green_edge x.red_edge)).0 h),
      λ h. elim h [
        | inl up ↦ absurd (cc (up.0))
        | inr down ↦ (is_lt_iff (q_compare J x.green_edge x.red_edge)).1 down.1
      ],
    )
  ]
    where
      is_gt_iff :
          (o : Ordering) → (elim o [ Ordering.gt ↦ true | _ ↦ false ] ≡ true) ↔ (o ≡ Ordering.gt)
      is_gt_iff Ordering.lt = (λ h. absurd (cc), λ h. absurd (cc))
      is_gt_iff Ordering.eq = (λ h. absurd (cc), λ h. absurd (cc))
      is_gt_iff Ordering.gt = (λ _. refl, λ _. refl)

      is_lt_iff :
          (o : Ordering) → (elim o [ Ordering.lt ↦ true | _ ↦ false ] ≡ true) ↔ (o ≡ Ordering.lt)
      is_lt_iff Ordering.lt = (λ _. refl, λ _. refl)
      is_lt_iff Ordering.eq = (λ h. absurd (cc), λ h. absurd (cc))
      is_lt_iff Ordering.gt = (λ h. absurd (cc), λ h. absurd (cc))

  edge_errors-nil_iff :
      (d : DimensionDefinition) (xs : List DimensionInput)
      → (edge_errors J d xs ≡ []) ↔ All InOrder xs
  unfolding edge_errors
  edge_errors-nil_iff d [] = (λ _. tt, λ _. refl)
  edge_errors-nil_iff d (x ∷ xs) =
      let (split, join) =
        nil_append
          (if edges_ordered J x
            then []
            else edges_reversed d.definition_id x.input_metric_id x.higher_is_better ∷ [])
          (edge_errors J d xs) in
      let (ordered, none_raised) =
        unless_nil (edges_ordered J x)
          (edges_reversed d.definition_id x.input_metric_id x.higher_is_better) in
      let (said, meant) = edges_ordered-InOrder x in
      (
        λ h. (said (ordered (split h).0), (edge_errors-nil_iff d xs).0 (split h).1),
        λ a. join (none_raised (meant a.0), (edge_errors-nil_iff d xs).1 a.1),
      )

  inputs_cases : (xs : List DimensionInput) → (xs ≡ []) ⊎ ((is_empty xs ≡ false) × (xs ≢ []))
  inputs_cases [] = inl refl
  inputs_cases (x ∷ xs) = inr (refl, λ e. cc)

  dimension_errors-nil_iff : (d : DimensionDefinition) → (dimension_errors J d ≡ []) ↔ IsBalanced d
  unfolding dimension_errors
  dimension_errors-nil_iff d = elim (inputs_cases d.definition_inputs) [
    | inl bare ↦ (λ _. inl bare, λ _. rw bare)
    | inr (some', ne) ↦
        let total_error = input_weights_sum_to d.definition_id (input_total J d) in
        let (split, join) =
          nil_append (if equals_one J (input_total J d) then [] else total_error ∷ [])
            (edge_errors J d d.definition_inputs) in
        let (sums, none_raised) = unless_nil (equals_one J (input_total J d)) total_error in
        let (said, meant) = SumsToOne-equals_one (map (λ x. x.input_weight) d.definition_inputs) in
        rw some' (
          λ h.
              inr (
                said (sums (split h).0),
                (edge_errors-nil_iff d d.definition_inputs).0 (split h).1,
              ),
          λ b. elim b [
            | inl bare ↦ absurd (ne bare)
            | inr (unit_sum, ordered) ↦ join (
              none_raised (meant unit_sum),
              (edge_errors-nil_iff d d.definition_inputs).1 ordered,
            )
          ],
        )
  ]

  all_dimension_errors-nil_iff :
      (ds : List DimensionDefinition) → (all_dimension_errors J ds ≡ []) ↔ All IsBalanced ds
  unfolding all_dimension_errors
  all_dimension_errors-nil_iff [] = (λ _. tt, λ _. refl)
  all_dimension_errors-nil_iff (d ∷ ds) =
      let (split, join) = nil_append (dimension_errors J d) (all_dimension_errors J ds) in
      (
        λ h. (
          (dimension_errors-nil_iff d).0 (split h).0,
          (all_dimension_errors-nil_iff ds).0 (split h).1,
        ),
        λ a. join ((dimension_errors-nil_iff d).1 a.0, (all_dimension_errors-nil_iff ds).1 a.1),
      )

  -- The model check returns and has nothing to object to exactly where the model is marked blocked,
  -- or where every dimension has a weight, every weight and edge is a plain decimal, the weights of
  -- the dimensions sum to one, and in every dimension with inputs the weights of the inputs sum to
  -- one and the green edge of each is above the red one where more is better and below it elsewhere.
  pub validate_health_model-nil_iff :
      (m : HealthModel)
      → (validate_health_model J m ≡ returned []) ↔ (
          (m.model_blocked_by ≢ none)
          ⊎ (All (λ d. d.definition_weight ≢ none) m.dimensions
              × All (λ t. is_decimal_text t ≡ true) (model_texts m)
              × SumsToOne (map weight_or_zero m.dimensions)
              × All IsBalanced m.dimensions))
  unfolding validate_health_model
  validate_health_model-nil_iff m = elim (Option-cases m.model_blocked_by) [
    | inr (why, e) ↦ rw e (λ _. inl (λ bad. cc), λ _. refl)
    | inl e ↦ elim (Bool-cases (any is_unset m.dimensions)) [
      | inl unset ↦
          rw (e, unset)
            (
              λ h. absurd (cc (returned_inj h)),
              λ h. elim h [
                | inl bad ↦ absurd (bad refl)
                | inr (set, _, _, _) ↦ absurd (cc (unset, all_set m.dimensions set))
              ],
            )
      | inr set ↦
          let (split, join) =
            nil_append
              (if equals_one J (model_total J m)
                then []
                else dimension_weights_sum_to (model_total J m) ∷ [])
              (all_dimension_errors J m.dimensions) in
          let (sums, none_raised) =
            unless_nil (equals_one J (model_total J m))
              (dimension_weights_sum_to (model_total J m)) in
          let (said, meant) = SumsToOne-equals_one (map weight_or_zero m.dimensions) in
          rw (e, set)
            (
              λ h.
                  let (qs, read, made) = >>=-returned (read_quantities (model_texts m)) _ h in
                  let clean = returned_inj made in
                  inr (
                    set_all m.dimensions set,
                    read_quantities-IsPlain (model_texts m) qs read,
                    said (sums (split clean).0),
                    (all_dimension_errors-nil_iff m.dimensions).0 (split clean).1,
                  ),
              λ h. elim h [
                | inl bad ↦ absurd (bad refl)
                | inr (_, plain, unit_sum, balanced) ↦
                    let (qs, read) = read_quantities-returns (model_texts m) plain in
                    rw read (
                      ap returned (
                        join (
                          none_raised (meant unit_sum),
                          (all_dimension_errors-nil_iff m.dimensions).1 balanced,
                        )))
              ],
            )
    ]
  ]
    where
      all_set :
          (ds : List DimensionDefinition)
          → All (λ d. d.definition_weight ≢ none) ds
          → any is_unset ds ≡ false
      all_set [] a = refl
      all_set (d ∷ ds) a = elim (Option-cases d.definition_weight) [
        | inl gone ↦ absurd (a.0 gone)
        | inr (w, there) ↦ rw there (all_set ds a.1)
      ]

      set_all :
          (ds : List DimensionDefinition)
          → any is_unset ds ≡ false
          → All (λ d. d.definition_weight ≢ none) ds
      set_all [] h = tt
      set_all (d ∷ ds) h = elim (Option-cases d.definition_weight) [
        | inl gone ↦ absurd (cc (rw gone at h))
        | inr (w, there) ↦ (λ bad. none-ne-some w (sym bad ∙ there), set_all ds (rw there at h))
      ]
