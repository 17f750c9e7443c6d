-- ===== src/Health/Scoring.antt =====
-- The type of dimension scores and `scoreDimension` of
-- src/contexts/health/internal/health-engine.ts.
pub mod Scored
use gldaassurance.Explainability.{
  observed, NotEvaluatedReasonCode, known_zero, SignalState, unbounded, Explained,
}
use gldaassurance.Base.{
  ◌||◌, ltb, false, map, append_text, length, filter, String, nat_eqb, or_else, get, Bool, is_empty,
  not, ◌∷◌, if◌then◌else◌, find, ℕ, [], some, nat_text, Option, ◌*◌, ◌==◌, true, List, none,
  string_eq, ◌++◌,
}
use gldaassurance.Decimals.{q_mul, Quantity, qty, DecimalJs, q_div, q_zero, q_fixed}
use gldaassurance.Api.Validation.{text}
use gldaassurance.Rules.Engine.{normalise_to_score, SignalReading, value_of, signal_state_of}
use gldaassurance.Health.Model.{
  sum_weights, DimensionDefinition, Materiality, weight_or_zero, DimensionInput, read_quantities,
  Fallible, read_quantity, returned, ◌>>=◌,
}

pub record InputScore : Type 0 where
  pub scored_metric_id : String
  pub scored_signal_id : String
  pub seen : Option String
  pub normalised : Option Quantity
  pub input_state : SignalState
  pub reason_code : Option NotEvaluatedReasonCode
  pub input_reason : Option String
  pub scored_weight : Quantity
  pub scored_green_edge : Quantity
  pub scored_red_edge : Quantity
  pub scored_higher_is_better : Bool
  pub scored_materiality : Option Materiality

pub record DimensionScore : Type 0 where
  pub dimension_id : String
  pub dimension_name : String
  pub dimension_metric_id : String
  pub dimension_weight : Quantity
  pub score : Option Quantity
  pub contribution : Option Quantity
  pub inputs : List InputScore
  pub not_computable_reason : Option String

abbrev pub is_unbounded_state : SignalState → Bool
is_unbounded_state SignalState.unbounded = true
is_unbounded_state _ = false

-- `state === 'OBSERVED' || state === 'KNOWN_ZERO'`
abbrev pub is_measured_state : SignalState → Bool
is_measured_state SignalState.observed = true
is_measured_state SignalState.known_zero = true
is_measured_state _ = false

-- `r?.stateReasonCode`, `r?.notComputableReason`
abbrev pub code_of : Option SignalReading → Option NotEvaluatedReasonCode
code_of none = none
code_of (some r) = r.state_reason_code

abbrev pub reason_of : Option SignalReading → Option String
reason_of none = none
reason_of (some r) = r.not_computable_reason

abbrev pub is_some {ℓ} : {A : Type ℓ} → Option A → Bool
is_some none = false
is_some (some a) = true

abbrev pub is_usable : InputScore → Bool
is_usable x = is_some x.normalised

-- `inputs.find((y) => y.signalId === x.signalId)?.normalised`
abbrev pub normalised_of : List InputScore → String → Option Quantity
normalised_of xs signal = elim (find (λ y. y.scored_signal_id == signal) xs) [
  | none ↦ none
  | some y ↦ y.normalised
]

-- The inputs behind `missingRequired`.
unfoldable pub missing_required : List DimensionInput → List InputScore → List DimensionInput
missing_required definitions xs =
    filter (λ x. not (is_some (normalised_of xs x.input_signal_id)))
      (filter (λ x. x.required) definitions)

-- `texts.join(separator)`
unfoldable pub join_with : String → List String → String
join_with separator [] = ""
join_with separator (t ∷ []) = t
join_with separator (t ∷ u ∷ texts) =
    append_text t (append_text separator (join_with separator (u ∷ texts)))

-- `${x.signalId} (${x.metricId})`
abbrev pub signal_label : DimensionInput → String
signal_label x =
    append_text x.input_signal_id (append_text " (" (append_text x.input_metric_id ")"))

unfoldable pub required_reason : List DimensionInput → String
unfolding join_with
required_reason missing = append_text "required signal" (
    append_text (if ltb 1 (length missing) then "s" else "") (
      append_text " not supplied: " (
        append_text (join_with ", " (map signal_label missing)) (
          append_text ". A dimension without the measure it is about is not a partial score, "
            "it is a different metric."))))

unfoldable pub half_reason : ℕ → ℕ → String
unfolding nat_text
half_reason usable all_inputs = append_text "only " (
    append_text (nat_text usable) (
      append_text " of " (
        append_text (nat_text all_inputs) (
          append_text " contributing metrics are computable; a dimension carried by fewer "
            "than half its inputs is not reported"))))

-- The three returns with no score.
abbrev pub unscored : DimensionDefinition → List InputScore → String → DimensionScore
unscored dim xs reason = record {
  dimension_id = dim.definition_id;
  dimension_name = dim.definition_name;
  dimension_metric_id = dim.definition_metric_id;
  dimension_weight = weight_or_zero dim;
  score = none;
  contribution = none;
  inputs = xs;
  not_computable_reason = some reason;
}

-- `usable.length === 0 || usable.length * 2 < inputs.length`
abbrev pub too_few : ℕ → ℕ → Bool
too_few usable all_inputs = nat_eqb usable 0 || ltb (usable * 2) all_inputs

-- A usable input's `normalised`.
abbrev pub normalised_value : InputScore → Quantity
normalised_value x = or_else x.normalised q_zero

module _ (J : DecimalJs) where
  -- `normalised`: the state decides.
  unfoldable pub normalise_input :
      DimensionInput → Option SignalReading → Fallible (Option Quantity)
  unfolding qty
  normalise_input x reading =
      if is_unbounded_state (signal_state_of reading)
      then returned (some q_zero)
      else if is_measured_state (signal_state_of reading)
      then elim (value_of reading) [
        | none ↦ returned none
        | some value ↦ read_quantity value >>= λ v. read_quantity x.green_edge >>= λ green_at.
            read_quantity x.red_edge >>= λ red_at.
            returned (some (normalise_to_score J v green_at red_at x.higher_is_better))
      ]
      else returned none

  -- The state and the value that is shown beside it.
  abbrev pub input_score : DimensionInput → Option SignalReading → Option Quantity → InputScore
  input_score x reading result = record {
    scored_metric_id = x.input_metric_id;
    scored_signal_id = x.input_signal_id;
    seen =
        if is_unbounded_state (signal_state_of reading) then some "UNBOUNDED" else value_of reading;
    normalised = result;
    input_state = signal_state_of reading;
    reason_code = code_of reading;
    input_reason = reason_of reading;
    scored_weight = x.input_weight;
    scored_green_edge = x.green_edge;
    scored_red_edge = x.red_edge;
    scored_higher_is_better = x.higher_is_better;
    scored_materiality = x.materiality;
  }

  unfoldable pub score_inputs :
      List (String × SignalReading) → List DimensionInput → Fallible (List InputScore)
  unfolding normalise_input get
  score_inputs readings [] = returned []
  score_inputs readings (x ∷ xs) = do
    result ← normalise_input x (get readings x.input_signal_id)
    rest ← score_inputs readings xs
    returned (input_score x (get readings x.input_signal_id) result ∷ rest)

  -- `usable.reduce((a, x) => qAdd(a, qMul(x.normalised, qty(x.weight))), Q_ZERO)`
  abbrev pub weighted_inputs : List InputScore → Quantity
  weighted_inputs xs = sum_weights J (map (λ x. q_mul J (normalised_value x) x.scored_weight) xs)

  abbrev pub usable_weight : List InputScore → Quantity
  usable_weight xs = sum_weights J (map (λ x. x.scored_weight) xs)

  -- `qty(qFixed(q, 2))`; what `toFixed` writes is a plain decimal.
  abbrev pub rounded : Quantity → Quantity
  rounded q = q_fixed J q 2

  abbrev pub scored_at : DimensionDefinition → List InputScore → Quantity → DimensionScore
  scored_at dim xs q = record {
    dimension_id = dim.definition_id;
    dimension_name = dim.definition_name;
    dimension_metric_id = dim.definition_metric_id;
    dimension_weight = weight_or_zero dim;
    score = some (rounded q);
    contribution = some (rounded (q_mul J q (weight_or_zero dim)));
    inputs = xs;
    not_computable_reason = none;
  }

  -- From `usable` on.
  unfoldable pub score_from : DimensionDefinition → List InputScore → DimensionScore
  unfolding missing_required required_reason half_reason
  score_from dim xs =
      let usable = filter is_usable xs in
      let missing = missing_required dim.definition_inputs xs in
      if not (is_empty missing)
      then unscored dim xs (required_reason missing)
      else if too_few (length usable) (length xs)
      then unscored dim xs (half_reason (length usable) (length xs))
      else elim (q_div J (weighted_inputs usable) (usable_weight usable)) [
        | none ↦ unscored dim xs "contributing input weights sum to zero"
        | some q ↦ scored_at dim xs q
      ]

  -- The weights that are read on the way to a score: those of the usable inputs, and the dimension's
  -- own where there is a score.
  unfoldable pub weights_read : DimensionDefinition → List InputScore → List String
  unfolding missing_required
  weights_read dim xs =
      let usable = filter is_usable xs in
      if not (is_empty (missing_required dim.definition_inputs xs))
      then []
      else if too_few (length usable) (length xs)
      then []
      else map (λ x. x.scored_weight) usable
        ++ (elim (q_div J (weighted_inputs usable) (usable_weight usable)) [
          | none ↦ []
          | some q ↦ weight_or_zero dim ∷ []
        ])

  -- `scoreDimension`
  unfoldable pub score_dimension :
      DimensionDefinition → List (String × SignalReading) → Fallible DimensionScore
  unfolding score_inputs score_from weights_read read_quantities
  score_dimension dim readings = do
    xs ← score_inputs readings dim.definition_inputs
    weights ← read_quantities (weights_read dim xs)
    returned (score_from dim xs)
