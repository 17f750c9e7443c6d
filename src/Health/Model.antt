-- ===== src/Health/Model.antt =====
-- src/contexts/rules/internal/health-model.ts: the versions of the health model and the check of
-- their weights. Weights and edges are configuration, written as plain decimals, which `qty` gives
-- back as they are.
pub mod Balance
use gldaassurance.Base.{
  ◌∷◌, List, Option, is_tie, some, find, [], append_text, String, true, map, ◌++◌, is_empty, Bool,
  or_else, false, any, none, ◌==◌, if◌then◌else◌, string_eq, joined,
}
use gldaassurance.Decimals.{q_zero, q_one, q_gt, Quantity, q_compare, q_lt, q_add, DecimalJs, qty}
use gldaassurance.Explainability.{Explained}

pub data Materiality : Type 0 where
  material supporting : Materiality

pub record DimensionInput : Type 0 where
  pub input_metric_id : String
  pub input_signal_id : String
  pub input_weight : Quantity
  pub green_edge : Quantity
  pub red_edge : Quantity
  pub higher_is_better : Bool
  pub materiality : Option Materiality
  pub required : Bool

-- A weight of `none` is the text `UNSET`.
pub record DimensionDefinition : Type 0 where
  pub definition_id : String
  pub definition_name : String
  pub definition_metric_id : String
  pub definition_weight : Option Quantity
  pub definition_inputs : List DimensionInput

pub record HealthModel : Type 0 where
  pub model_version : String
  pub model_name : String
  pub effective_from : String
  pub composite_metric_id : String
  pub dimensions : List DimensionDefinition
  pub is_default : Bool
  pub rationale : String
  pub model_blocked_by : Option String

-- `i`
abbrev pub dimension_input :
    String → String → Quantity → Quantity → Quantity → Bool → Bool → Materiality → DimensionInput
dimension_input metric signal weight best worst higher needed matters = record {
  input_metric_id = metric;
  input_signal_id = signal;
  input_weight = weight;
  green_edge = best;
  red_edge = worst;
  higher_is_better = higher;
  materiality = elim matters [ material ↦ some material | supporting ↦ none ];
  required = needed;
}

abbrev pub financial_dimension : DimensionDefinition
financial_dimension = record {
  definition_id = "FINANCIAL";
  definition_name = "Financial Health";
  definition_metric_id = "MET-HLTH-021";
  definition_weight = some "0.40";
  definition_inputs =
      dimension_input "MET-FIN-014" "FORECAST_GM_PERCENT" "0.40" "0.22" "0.05" true true supporting
      ∷ dimension_input "MET-FIN-016" "MARGIN_EROSION_PP" "0.25" "-0.01" "-0.09" true false
          supporting
      ∷ dimension_input "MET-FIN-027" "BURN_GAP" "0.20" "0.02" "0.15" false false supporting
      ∷ dimension_input "MET-FIN-034" "CONTINGENCY_BURN_GAP" "0.15" "0.05" "0.30" false false
          supporting
      ∷ [];
}

abbrev pub delivery_dimension : DimensionDefinition
delivery_dimension = record {
  definition_id = "DELIVERY";
  definition_name = "Delivery Health";
  definition_metric_id = "MET-HLTH-022";
  definition_weight = some "0.25";
  definition_inputs =
      dimension_input "MET-DEL-015" "PROGRESS_VARIANCE" "0.35" "-0.02" "-0.15" true true supporting
      ∷ dimension_input "MET-DEL-018" "REQUIRED_VELOCITY_RATIO" "0.30" "1.05" "1.80" false false
          material
      ∷ dimension_input "MET-DEL-010" "MILESTONES_AT_RISK" "0.20" "0" "4" false false supporting
      ∷ dimension_input "MET-DEL-023" "DEPENDENCY_AGEING_DAYS" "0.15" "14" "90" false false
          supporting
      ∷ [];
}

abbrev pub scope_dimension : DimensionDefinition
scope_dimension = record {
  definition_id = "SCOPE_COMMERCIAL";
  definition_name = "Scope & Commercial Health";
  definition_metric_id = "MET-HLTH-023";
  definition_weight = some "0.20";
  definition_inputs =
      dimension_input "MET-COM-009" "UNCOMPENSATED_SCOPE_RATIO" "0.45" "0.01" "0.10" false true
        supporting
      ∷ dimension_input "MET-COM-007" "PENDING_CR_AGE_DAYS" "0.30" "21" "120" false false supporting
      ∷ dimension_input "MET-FIN-011" "UNSECURED_UPSIDE_RATIO" "0.25" "0.01" "0.12" false false
          supporting
      ∷ [];
}

abbrev pub quality_dimension : DimensionDefinition
quality_dimension = record {
  definition_id = "PRODUCT_QUALITY";
  definition_name = "Product & Quality Health";
  definition_metric_id = "MET-HLTH-024";
  definition_weight = some "0.15";
  definition_inputs =
      dimension_input "MET-QUA-006" "REWORK_RATIO" "0.35" "0.05" "0.20" false true supporting
      ∷ dimension_input "MET-QUA-010" "ACCEPTANCE_BLOCKERS" "0.30" "0" "5" false false supporting
      ∷ dimension_input "MET-QUA-003" "ESCAPED_DEFECT_RATE" "0.20" "0.05" "0.30" false false
          supporting
      ∷ dimension_input "MET-QUA-009" "DEFECT_BACKLOG_TREND" "0.15" "0" "3" false false supporting
      ∷ [];
}

-- `HEALTH_MODEL_V2`
abbrev pub health_model_v2 : HealthModel
health_model_v2 = record {
  model_version = "HEALTH-v2";
  model_name = "Executive health model — four dimensions";
  effective_from = "2026-08-31";
  composite_metric_id = "MET-HLTH-020";
  dimensions = financial_dimension ∷ delivery_dimension ∷ scope_dimension ∷ quality_dimension ∷ [];
  is_default = true;
  rationale =
      append_text "Four dimensions an executive can act on, weighted as the Phase 4 brief " (
        append_text "specifies. The six analytical dimensions of HEALTH-v1 remain computable " (
          append_text "underneath as the detail view; they are not the executive output. " (
            append_text "Composite score is deliberately not the headline — System-Assessed RAG "
              "is, with the dimension breakdown beneath it.")));
  model_blocked_by = none;
}

abbrev pub analytical_dimension : String → String → String → DimensionDefinition
analytical_dimension id name metric = record {
  definition_id = id;
  definition_name = append_text name " Health Dimension";
  definition_metric_id = metric;
  definition_weight = none;
  definition_inputs = [];
}

-- `HEALTH_MODEL_V1`
abbrev pub health_model_v1 : HealthModel
health_model_v1 = record {
  model_version = "HEALTH-v1";
  model_name = "Analytical health model — six dimensions";
  effective_from = "2026-08-31";
  composite_metric_id = "MET-HLTH-010";
  dimensions =
      analytical_dimension "FINANCIAL" "Financial" "MET-HLTH-001"
      ∷ analytical_dimension "SCHEDULE" "Schedule" "MET-HLTH-002"
      ∷ analytical_dimension "SCOPE_COMMERCIAL" "Scope & commercial" "MET-HLTH-003"
      ∷ analytical_dimension "QUALITY" "Quality" "MET-HLTH-004"
      ∷ analytical_dimension "RESOURCE" "Resource" "MET-HLTH-005"
      ∷ analytical_dimension "RISK" "Risk" "MET-HLTH-006"
      ∷ [];
  is_default = false;
  rationale =
      append_text
        "The six analytical dimensions frozen in Phase 2. Its weights remain open (MC-2), "
        (append_text "so it cannot produce a composite. It is kept because Phase 2 froze " (
          append_text "MET-HLTH-001…006 and MET-HLTH-010 against it, and because the six-way "
            "breakdown is the right detail view beneath the executive four."));
  model_blocked_by =
      some "MC-2 — the six dimension weights were never set. Owner: Sponsor / Delivery leadership.";
}

-- `HEALTH_MODELS`
abbrev pub health_models : List HealthModel
health_models = health_model_v2 ∷ health_model_v1 ∷ []

-- `defaultHealthModel`; `none` where it throws.
unfoldable pub default_health_model : Option HealthModel
default_health_model = find (λ m. m.is_default) health_models

-- `healthModelAt`
unfoldable pub health_model_at : String → Option HealthModel
health_model_at version = find (λ m. m.model_version == version) health_models

-- `d.weight === 'UNSET'`
abbrev pub is_unset : DimensionDefinition → Bool
is_unset d = elim d.definition_weight [ none ↦ true | some _ ↦ false ]

-- `d.weight === 'UNSET' ? '0' : d.weight`
abbrev pub weight_or_zero : DimensionDefinition → Quantity
weight_or_zero d = or_else d.definition_weight q_zero

-- What `qty` and the constructor of `Decimal` throw, and the two errors of `explain`.
pub data HealthError : Type 0 where
  no_decimal : String → HealthError
  no_number : HealthError
  unexplained : Explained → HealthError

pub data Fallible {ℓ} (A : Type ℓ) : Type ℓ where
  returned : A → Fallible A
  threw : HealthError → Fallible A

infixl 5 ◌>>=◌
abbrev pub ◌>>=◌ {ℓ κ} : {A : Type ℓ} {B : Type κ} → Fallible A → (A → Fallible B) → Fallible B
returned a >>= f = f a
threw e >>= f = threw e

-- `qty`, of a text that is trimmed.
abbrev pub read_quantity : String → Fallible Quantity
read_quantity given = elim (qty given) [ none ↦ threw (no_decimal given) | some q ↦ returned q ]

-- `qty` of each text in turn.
unfoldable pub read_quantities : List String → Fallible (List Quantity)
unfolding qty
read_quantities [] = returned []
read_quantities (given ∷ texts) = do
  q ← read_quantity given
  rest ← read_quantities texts
  returned (q ∷ rest)

-- The errors of `validateHealthModel`; each names what the text that it stands for names.
pub data ModelError : Type 0 where
  weight_unset : ModelError
  dimension_weights_sum_to : Quantity → ModelError
  input_weights_sum_to : String → Quantity → ModelError
  edges_reversed : String → String → Bool → ModelError

-- The texts of weights and edges that are read of a dimension, and of a model.
abbrev pub dimension_texts : DimensionDefinition → List String
dimension_texts d =
    map (λ x. x.input_weight) d.definition_inputs
    ++ joined (map (λ x. x.green_edge ∷ x.red_edge ∷ []) d.definition_inputs)

abbrev pub model_texts : HealthModel → List String
model_texts m = map weight_or_zero m.dimensions ++ joined (map dimension_texts m.dimensions)

module _ (J : DecimalJs) where
  -- `weights.reduce((a, w) => qAdd(a, w), Q_ZERO)`
  abbrev pub sum_from : Quantity → List Quantity → Quantity
  sum_from sum [] = sum
  sum_from sum (w ∷ weights) = sum_from (q_add J sum w) weights

  abbrev pub sum_weights : List Quantity → Quantity
  sum_weights = sum_from q_zero

  abbrev pub equals_one : Quantity → Bool
  equals_one total = is_tie (q_compare J total q_one)

  abbrev pub edges_ordered : DimensionInput → Bool
  edges_ordered x =
      if x.higher_is_better then q_gt J x.green_edge x.red_edge else q_lt J x.green_edge x.red_edge

  abbrev pub input_total : DimensionDefinition → Quantity
  input_total d = sum_weights (map (λ x. x.input_weight) d.definition_inputs)

  abbrev pub model_total : HealthModel → Quantity
  model_total m = sum_weights (map weight_or_zero m.dimensions)

  unfoldable pub edge_errors : DimensionDefinition → List DimensionInput → List ModelError
  edge_errors d [] = []
  edge_errors d (x ∷ xs) =
      (if edges_ordered x
        then []
        else edges_reversed d.definition_id x.input_metric_id x.higher_is_better ∷ [])
      ++ edge_errors d xs

  unfoldable pub dimension_errors : DimensionDefinition → List ModelError
  unfolding edge_errors
  dimension_errors d =
      if is_empty d.definition_inputs
      then []
      else (if equals_one (input_total d)
          then []
          else input_weights_sum_to d.definition_id (input_total d) ∷ [])
        ++ edge_errors d d.definition_inputs

  unfoldable pub all_dimension_errors : List DimensionDefinition → List ModelError
  unfolding dimension_errors
  all_dimension_errors [] = []
  all_dimension_errors (d ∷ ds) = dimension_errors d ++ all_dimension_errors ds

  -- `validateHealthModel`. Whatever it objects to, it reads every weight and edge.
  unfoldable pub validate_health_model : HealthModel → Fallible (List ModelError)
  unfolding all_dimension_errors read_quantities
  validate_health_model m = elim m.model_blocked_by [
    | some _ ↦ returned []
    | none ↦
        if any is_unset m.dimensions
        then returned (weight_unset ∷ [])
        else read_quantities (model_texts m) >>= λ _. returned (
            (if equals_one (model_total m)
              then []
              else dimension_weights_sum_to (model_total m) ∷ [])
            ++ all_dimension_errors m.dimensions)
  ]
