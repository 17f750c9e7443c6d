-- ===== src/Health/Scoring/Scored.antt =====
-- scoreDimension: when a dimension has a score, and when it is scored at all.
use mathlib.Core.Path.{subst}
use gldaassurance.Health.Model.{
  ◌>>=◌, DimensionDefinition, DimensionInput, weight_or_zero, Fallible, threw, read_quantity,
  read_quantities, returned,
}
use gldaassurance.Base.{
  refl, All, ◌∷◌, [], ◌≡◌, ◌↔◌, List, true, Bool-cases, inl, inr, length, some, Option, is_empty,
  filter, ◌≤◌, String, false, ◌<◌, ℕ, arith, ◌*◌, not, ap, get, ◌∙◌, sym, string_eq, none,
  Option-cases, map, All-filter, All-append, if_cases,
}
use gldaassurance.Health.Scoring.{
  is_some, missing_required, InputScore, normalised_of, is_unbounded_state, DimensionScore,
  is_usable, too_few, score_dimension, score_from, usable_weight, normalise_input, score_inputs,
  is_measured_state, input_score, weights_read, weighted_inputs,
}
use gldaassurance.Decimals.{DecimalJs, q_zero, is_decimal_text, Quantity, qty, q_div}
use gldaassurance.Rules.Engine.{value_of, SignalReading, signal_state_of, normalise_to_score}
use gldaassurance.Rules.Explained.{get-All}

pub returned_inj {ℓ} : {A : Type ℓ} {a b : A} → returned a ≡ returned b → a ≡ b
returned_inj h = cc

pub >>=-returned {ℓ κ} :
    {A : Type ℓ} {B : Type κ} (m : Fallible A) (f : A → Fallible B) {b : B}
    → (m >>= f) ≡ returned b
    → (a : A) × (m ≡ returned a) × (f a ≡ returned b)
>>=-returned (returned a) f h = (a, refl, h)
>>=-returned (threw e) f h = absurd (cc)

-- Every required signal was read.
abbrev pub HasRequired : DimensionDefinition → List InputScore → Type 0
HasRequired dim xs =
    All (λ x. x.required ≡ true → is_some (normalised_of xs x.input_signal_id) ≡ true)
      dim.definition_inputs

missing_required-nil_iff :
    (xs : List InputScore) (definitions : List DimensionInput)
    → (missing_required definitions xs ≡ [])
      ↔ All
          (λ x. x.required ≡ true → is_some (normalised_of xs x.input_signal_id) ≡ true)
          definitions
unfolding missing_required
missing_required-nil_iff xs [] = (λ _. tt, λ _. refl)
missing_required-nil_iff xs (x ∷ definitions) = elim (Bool-cases x.required) [
  | inr free ↦ rw free (
    λ h. (λ r. absurd (cc (r)), (missing_required-nil_iff xs definitions).0 h),
    λ a. (missing_required-nil_iff xs definitions).1 a.1,
  )
  | inl needed ↦ elim (Bool-cases (is_some (normalised_of xs x.input_signal_id))) [
    | inl there ↦
        rw (needed, there)
          (
            λ h. (λ _. refl, (missing_required-nil_iff xs definitions).0 h),
            λ a. (missing_required-nil_iff xs definitions).1 a.1,
          )
    | inr gone ↦ rw (needed, gone) (λ h. absurd (cc), λ a. absurd (cc (a.0 refl)))
  ]
]

-- At least half the inputs, and one at least, have a normalised value.
abbrev pub HasHalf : List InputScore → Type 0
HasHalf xs = (0 < length (filter is_usable xs)) × (length xs ≤ length (filter is_usable xs) * 2)

too_few-false_iff : (n m : ℕ) → (too_few n m ≡ false) ↔ ((0 < n) × (m ≤ n * 2))
too_few-false_iff n m = (λ h. (ground arith, ground arith), λ h. ground arith)

is_empty-nil : {A : Type 0} (xs : List A) → (not (is_empty xs) ≡ false) ↔ (xs ≡ [])
is_empty-nil [] = (λ _. refl, λ _. refl)
is_empty-nil (x ∷ xs) = (λ h. absurd (cc), λ h. absurd (cc))

read_quantity-returns :
    (value : String) → is_decimal_text value ≡ true → read_quantity value ≡ returned value
unfolding qty
read_quantity-returns value plain = rw (plain, read_quantity)

abbrev pub IsPlain : String → Type 0
IsPlain given = is_decimal_text given ≡ true

pub read_quantities-returns :
    (texts : List String)
    → All IsPlain texts
    → (qs : List Quantity) × (read_quantities texts ≡ returned qs)
unfolding read_quantities
read_quantities-returns [] a = ([], refl)
read_quantities-returns (t ∷ texts) a =
    let (qs, others) = read_quantities-returns texts a.1 in
    (t ∷ qs, rw (read_quantity-returns t a.0, others, read_quantities) refl)

pub read_quantities-IsPlain :
    (texts : List String) (qs : List Quantity)
    → read_quantities texts ≡ returned qs
    → All IsPlain texts
unfolding read_quantities qty
read_quantities-IsPlain [] qs h = tt
read_quantities-IsPlain (t ∷ texts) qs h =
    let (q, first, h') = >>=-returned (read_quantity t) _ h in
    let (rest, others, _) = >>=-returned (read_quantities texts) _ h' in
    (read_quantity-plain t q first, read_quantities-IsPlain texts rest others)
  where
    read_quantity-plain : (given q : String) → read_quantity given ≡ returned q → IsPlain given
    read_quantity-plain given q e = elim (Bool-cases (is_decimal_text given)) [
      | inl plain ↦ plain
      | inr bad ↦ absurd (cc (rw (bad, read_quantity) at e))
    ]

pub All-map :
    {A B : Type 0} (P : B → Type 0) (f : A → B) (xs : List A)
    → All (λ x. P (f x)) xs
    → All P (map f xs)
All-map P f [] a = tt
All-map P f (x ∷ xs) a = (a.0, All-map P f xs a.1)

-- The edges and the weight of an input are plain decimals.
abbrev pub IsNumericInput : DimensionInput → Type 0
IsNumericInput x = IsPlain x.green_edge × IsPlain x.red_edge × IsPlain x.input_weight

-- So are those of every input of a dimension, and its own weight.
abbrev pub IsNumericDimension : DimensionDefinition → Type 0
IsNumericDimension d = All IsNumericInput d.definition_inputs × IsPlain (weight_or_zero d)

-- Every value that is there is a plain decimal.
abbrev pub IsReadable : List (String × SignalReading) → Type 0
IsReadable readings =
    All (λ entry. (value : String) → entry.1.value ≡ some value → is_decimal_text value ≡ true)
      readings

module _ (J : DecimalJs) where
  -- The usable inputs weigh something.
  abbrev pub HasWeight : List InputScore → Type 0
  HasWeight xs = J.is_zero (J.of_text (usable_weight J (filter is_usable xs))) ≡ false

  score_from-scored_iff :
      (dim : DimensionDefinition) (xs : List InputScore)
      → (is_some (score_from J dim xs).score ≡ true)
        ↔ (HasRequired dim xs × HasHalf xs × HasWeight xs)
  unfolding score_from
  score_from-scored_iff dim xs =
      elim (Bool-cases (not (is_empty (missing_required dim.definition_inputs xs)))) [
        | inl gone ↦ rw gone (
          λ h. absurd (cc),
          λ h. absurd (
              cc (
                gone,
                (is_empty-nil (missing_required dim.definition_inputs xs)).1
                    ((missing_required-nil_iff xs dim.definition_inputs).1 h.0),
              )),
        )
        | inr there ↦
            let required =
              (missing_required-nil_iff xs dim.definition_inputs).0
                ((is_empty-nil (missing_required dim.definition_inputs xs)).0 there) in
            elim (Bool-cases (too_few (length (filter is_usable xs)) (length xs))) [
              | inl few ↦
                  rw (there, few)
                    (
                      λ h. absurd (cc),
                      λ h. absurd (
                          cc (
                            few,
                            (too_few-false_iff (length (filter is_usable xs)) (length xs)).1 h.1,
                          )),
                    )
              | inr enough ↦
                  let half =
                    (too_few-false_iff (length (filter is_usable xs)) (length xs)).0 enough in
                  elim (Bool-cases
                    (J.is_zero (J.of_text (usable_weight J (filter is_usable xs))))) [
                      | inl weightless ↦
                          rw (there, enough, weightless) (λ h. absurd (cc), λ h. absurd (cc (h.2)))
                      | inr weighty ↦
                          rw (there, enough, weighty) (λ _. (required, half, refl), λ _. refl)
                    ]
            ]
      ]

  score_from-inputs :
      (dim : DimensionDefinition) (xs : List InputScore) → (score_from J dim xs).inputs ≡ xs
  unfolding score_from
  score_from-inputs dim xs =
      elim (Bool-cases (not (is_empty (missing_required dim.definition_inputs xs)))) [
        | inl gone ↦ rw gone
        | inr there ↦ elim (Bool-cases (too_few (length (filter is_usable xs)) (length xs))) [
          | inl few ↦ rw (there, few)
          | inr enough ↦
              elim (Bool-cases (J.is_zero (J.of_text (usable_weight J (filter is_usable xs))))) [
                | inl weightless ↦ rw (there, enough, weightless)
                | inr weighty ↦ rw (there, enough, weighty)
              ]
        ]
      ]

  normalise_input-unbounded :
      (x : DimensionInput) (reading : Option SignalReading) (result : Option Quantity)
      → normalise_input J x reading ≡ returned result
      → is_unbounded_state (signal_state_of reading) ≡ true
      → result ≡ some q_zero
  unfolding normalise_input
  normalise_input-unbounded x reading result h bad = returned_inj (sym h ∙ rw bad)

  score_inputs-unbounded :
      (readings : List (String × SignalReading)) (xs : List DimensionInput)
      (scores : List InputScore)
      → score_inputs J readings xs ≡ returned scores
      → All (λ x. is_unbounded_state x.input_state ≡ true → x.normalised ≡ some q_zero) scores
  unfolding score_inputs
  score_inputs-unbounded readings [] scores h = rw (← returned_inj h) tt
  score_inputs-unbounded readings (x ∷ xs) scores h =
      let (result, read, h') =
        >>=-returned (normalise_input J x (get readings x.input_signal_id)) _ h in
      let (rest, scored, h'') = >>=-returned (score_inputs J readings xs) _ h' in
      rw (← returned_inj h'') (
        normalise_input-unbounded x (get readings x.input_signal_id) result read,
        score_inputs-unbounded readings xs rest scored,
      )

  -- Of a dimension that was scored: it has a score exactly where every required signal was read, at
  -- least half of its inputs and one at least were, and these have a weight that is not zero; and
  -- an input whose signal is unbounded is read as zero.
  pub score_dimension-scored_iff :
      (dim : DimensionDefinition) (readings : List (String × SignalReading)) (d : DimensionScore)
      → score_dimension J dim readings ≡ returned d
      → ((is_some d.score ≡ true)
          ↔ (HasRequired dim d.inputs × HasHalf d.inputs × HasWeight d.inputs))
        × All (λ x. is_unbounded_state x.input_state ≡ true → x.normalised ≡ some q_zero) d.inputs
  unfolding score_dimension
  score_dimension-scored_iff dim readings d h =
      let (xs, scored, h') = >>=-returned (score_inputs J readings dim.definition_inputs) _ h in
      let (_, _, made) = >>=-returned (read_quantities (weights_read J dim xs)) _ h' in
      let kept : d.inputs ≡ xs =
        ap (λ s. s.inputs) (sym (returned_inj made)) ∙ score_from-inputs dim xs in
      (
        rw kept (
            subst (λ s. (is_some s.score ≡ true) ↔ (HasRequired dim xs × HasHalf xs × HasWeight xs))
              (returned_inj made) (score_from-scored_iff dim xs)),
        rw kept (score_inputs-unbounded readings dim.definition_inputs xs scored),
      )

  normalise_input-returns :
      (x : DimensionInput) (reading : Option SignalReading)
      → ((value : String) → value_of reading ≡ some value → is_decimal_text value ≡ true)
      → IsNumericInput x
      → (result : Option Quantity) × (normalise_input J x reading ≡ returned result)
  unfolding normalise_input qty
  normalise_input-returns x reading readable (green_plain, red_plain, _) =
      elim (Bool-cases (is_unbounded_state (signal_state_of reading))) [
        | inl bad ↦ (some q_zero, rw bad)
        | inr bounded ↦ elim (Bool-cases (is_measured_state (signal_state_of reading))) [
          | inr unread ↦ (none, rw (bounded, unread))
          | inl seen' ↦ elim (Option-cases (value_of reading)) [
            | inl gone ↦ (none, rw (bounded, seen', gone))
            | inr (value, there) ↦ (
              some (normalise_to_score J value x.green_edge x.red_edge x.higher_is_better),
              rw (bounded, seen', there)
                  (rw (
                    read_quantity-returns value (readable value there),
                    read_quantity-returns x.green_edge green_plain,
                    read_quantity-returns x.red_edge red_plain,
                  )),
            )
          ]
        ]
      ]

  module _ (readings : List (String × SignalReading)) (readable : IsReadable readings) where
    get-readable :
        (signal value : String)
        → value_of (get readings signal) ≡ some value
        → is_decimal_text value ≡ true
    get-readable signal value h = elim (Option-cases (get readings signal)) [
      | inl gone ↦ absurd (cc (rw gone at h))
      | inr (r, there) ↦
          get-All (λ r. (value : String) → r.value ≡ some value → is_decimal_text value ≡ true)
            readings signal r readable there value (rw there at h)
    ]

    score_inputs-returns :
        (xs : List DimensionInput)
        → All IsNumericInput xs
        → (scores : List InputScore) × (score_inputs J readings xs ≡ returned scores)
          × All (λ s. IsPlain s.scored_weight) scores
    unfolding score_inputs
    score_inputs-returns [] plain_parts = ([], refl, tt)
    score_inputs-returns (x ∷ xs) plain_parts =
        let (result, read) =
          normalise_input-returns x (get readings x.input_signal_id)
            (get-readable x.input_signal_id) plain_parts.0 in
        let (rest, scored, weights) = score_inputs-returns xs plain_parts.1 in
        (
          input_score J x (get readings x.input_signal_id) result ∷ rest,
          rw (read, scored),
          (plain_parts.0.2, weights),
        )

    weights_read-IsPlain :
        (dim : DimensionDefinition) (xs : List InputScore)
        → IsPlain (weight_or_zero dim)
        → All (λ s. IsPlain s.scored_weight) xs
        → All IsPlain (weights_read J dim xs)
    unfolding weights_read
    weights_read-IsPlain dim xs own_weight weights =
        let usable = filter is_usable xs in
        let used =
          All-map IsPlain (λ x. x.scored_weight) usable
            (All-filter (λ s. IsPlain s.scored_weight) is_usable xs weights) in
        if_cases (All IsPlain) (not (is_empty (missing_required dim.definition_inputs xs))) tt (
          if_cases (All IsPlain) (too_few (length usable) (length xs)) tt (
            All-append IsPlain (map (λ x. x.scored_weight) usable) _ used
              (if_none (q_div J (weighted_inputs J usable) (usable_weight J usable)))))
      where
        if_none :
            (q : Option Quantity)
            → All IsPlain (elim q [ none ↦ [] | some _ ↦ weight_or_zero dim ∷ [] ])
        if_none none = tt
        if_none (some q) = (own_weight, tt)

    pub score_dimension-returns :
        (dim : DimensionDefinition)
        → IsNumericDimension dim
        → (d : DimensionScore) × (score_dimension J dim readings ≡ returned d)
    unfolding score_dimension
    score_dimension-returns dim plain_parts =
        let (xs, scored, weights) = score_inputs-returns dim.definition_inputs plain_parts.0 in
        let (_, read) =
          read_quantities-returns (weights_read J dim xs)
            (weights_read-IsPlain dim xs plain_parts.1 weights) in
        (score_from J dim xs, rw (scored, read))
