-- ===== src/Assistant/Turns/Gate.antt =====
-- Steps 4 and 5 of resolveAsk: which plans run.
use mathlib.Core.Path.{subst}
use gldaassurance.Base.{
  ◌⊎◌, zero, some, ℕ, sym, String, List, arith, length, ◌≤◌, suc, Bool-cases, [], ◌∷◌, ap, refl,
  inl, any, Option-cases, ◌≡◌, take, inr, true, Option, some_inj, is_empty, ◌<◌, ◌≢◌, or_else, none,
  false, ◌∙◌, if◌then◌else◌,
}
use gldaassurance.Assistant.Turns.{
  concerns_scope, PlanningResult, after_validation, runs, after_planning, candidate_of, rejected,
  is_white, ProposedText, project_not_named, with_proposal, assist_plan, proposed_text,
  propose_failed, no_text, probability_request, mutation_request, out_of_domain, plan_turn,
  DeclineReason, is_out_of_domain, ambiguous_question,
}
use gldaassurance.Assistant.Validator.{
  PlanContext, validate_plan, PlanRejection, accepted, PlanVerdict,
}
use gldaassurance.Assistant.Plan.{QueryPlan, empty_plan}
use gldaassurance.Assistant.Conversation.{ConversationState, refine}
use gldaassurance.Assistant.Validator.Governed.{validate_plan-accepted_iff}
use gldaassurance.Assistant.Validator.Promises.{IsGoverned}
use gldaassurance.Assistant.Proposal.{Language, read_proposed_plan}
use gldaassurance.Assistant.Proposal.Reading.{IsProposal, read_proposed_plan-IsProposal}

length-take_all : (n m : ℕ) (xs : List String) → m ≤ n → m ≤ length xs → m ≤ length (take n xs)
length-take_all zero m xs small enough = omega arith
length-take_all (suc n) m [] small enough = enough
length-take_all (suc n) zero (x ∷ xs) small enough = omega arith
length-take_all (suc n) (suc m) (x ∷ xs) small enough =
    omega (arith, length-take_all n m xs (omega arith) (omega arith))

verdict-cases :
    (v : PlanVerdict)
    → ((p : QueryPlan) × (v ≡ accepted p)) ⊎ ((rs : List PlanRejection) × (v ≡ rejected rs))
verdict-cases (accepted p) = inl (p, refl)
verdict-cases (rejected rs) = inr (rs, refl)

runs_inj : {p q : QueryPlan} → runs p ≡ runs q → p ≡ q
runs_inj h = cc

after_validation-runs :
    (candidate plan : QueryPlan) (v : PlanVerdict)
    → after_validation candidate v ≡ runs plan
    → v ≡ accepted plan
unfolding after_validation
after_validation-runs candidate plan (accepted p) h = ap accepted (runs_inj h)
after_validation-runs candidate plan (rejected rs) h = elim (Bool-cases (any concerns_scope rs)) [
  | inl e ↦ absurd (cc (e, h))
  | inr e ↦ absurd (cc (e, h))
]

-- A plan that runs is the candidate of a plan that was made, and passed the validator.
after_planning-runs :
    (context : PlanContext) (state : ConversationState) (planned : PlanningResult)
    (plan : QueryPlan)
    → after_planning context state planned ≡ runs plan
    → (p : QueryPlan) × (planned.planned_plan ≡ some p)
      × (plan ≡ candidate_of state p planned.is_refinement)
      × IsGoverned plan context
unfolding after_planning
after_planning-runs context state planned plan h = elim (Option-cases planned.planned_plan) [
  | inl e ↦ absurd (cc (e, h))
  | inr (p, e) ↦
      let candidate = candidate_of state p planned.is_refinement in
      let passed =
        after_validation-runs candidate plan (validate_plan candidate context)
          (rw (e, after_planning) at h) in
      let (same, governed) = (validate_plan-accepted_iff candidate plan context).0 passed in
      (p, e, same, subst (λ q. IsGoverned q context) (sym same) governed)
]

domain_of : (r : DeclineReason) → is_out_of_domain r ≡ true → r ≡ out_of_domain
domain_of out_of_domain h = refl
domain_of mutation_request h = absurd (cc)
domain_of probability_request h = absurd (cc)
domain_of project_not_named h = absurd (cc)
domain_of ambiguous_question h = absurd (cc)

-- A plan that a model proposed for a question that the grammar found out of domain.
abbrev pub ComesOfModel : PlanningResult → QueryPlan → Type 0
ComesOfModel grammar p =
    (grammar.planned_plan ≡ none)
    × (or_else grammar.decline_reason out_of_domain ≡ out_of_domain)
    × IsProposal (empty_plan "population.rank") p

module _ (language : Language) where
  with_proposal_cases :
      (grammar : PlanningResult) (t : ProposedText)
      → (with_proposal language grammar t ≡ grammar)
        ⊎ ((p : QueryPlan) × IsProposal (empty_plan "population.rank") p
            × (with_proposal language grammar t ≡ record grammar { planned_plan = some p }))
  unfolding with_proposal
  with_proposal_cases grammar propose_failed = inl refl
  with_proposal_cases grammar no_text = inl refl
  with_proposal_cases grammar (proposed_text raw) = elim (Bool-cases (is_white raw)) [
    | inl e ↦ inl (rw e refl)
    | inr e ↦ elim (Option-cases (read_proposed_plan language raw (empty_plan "population.rank"))) [
      | inl f ↦ inl (rw (e, f) refl)
      | inr (p, f) ↦ inr (
        p,
        read_proposed_plan-IsProposal language raw (empty_plan "population.rank") p f,
        rw (e, f) refl,
      )
    ]
  ]

  assisted :
      (propose : String → ProposedText) (question : String) (grammar : PlanningResult)
      → grammar.planned_plan ≡ none
      → is_out_of_domain (or_else grammar.decline_reason out_of_domain) ≡ true
      → assist_plan language (some propose) question grammar
        ≡ with_proposal language grammar (propose question)
  unfolding assist_plan
  assisted propose question grammar e outside =
      let made = with_proposal language grammar (propose question) in
      let reason = or_else grammar.decline_reason out_of_domain in
      ap
        (λ o. elim o [
          | some p ↦ grammar
          | none ↦ if is_out_of_domain reason then made else grammar
        ])
        e
      ∙ ap (λ b. if b then made else grammar) outside

  assist_plan_cases :
      (planning : Option (String → ProposedText)) (question : String) (grammar : PlanningResult)
      → (assist_plan language planning question grammar ≡ grammar)
        ⊎ ((p : QueryPlan) × ComesOfModel grammar p
            × (assist_plan language planning question grammar
                ≡ record grammar { planned_plan = some p }))
  unfolding assist_plan
  assist_plan_cases none question grammar = inl refl
  assist_plan_cases (some propose) question grammar = elim (Option-cases grammar.planned_plan) [
    | inr (p, e) ↦ inl (rw e refl)
    | inl e ↦
        let reason = or_else grammar.decline_reason out_of_domain in
        elim (Bool-cases (is_out_of_domain reason)) [
          | inr other_reason ↦ inl (rw (e, other_reason) refl)
          | inl outside ↦ elim (with_proposal_cases grammar (propose question)) [
            | inl same ↦ inl (assisted propose question grammar e outside ∙ same)
            | inr (p, proposal, changed) ↦ inr (
              p,
              (e, domain_of reason outside, proposal),
              assisted propose question grammar e outside ∙ changed,
            )
          ]
        ]
  ]

  pub plan_turn-runs :
      (planning : Option (String → ProposedText)) (context : PlanContext)
      (state : ConversationState) (question : String) (grammar : PlanningResult) (plan : QueryPlan)
      → plan_turn language planning context state question grammar ≡ runs plan
      → IsGoverned plan context
        × ((p : QueryPlan) × ((grammar.planned_plan ≡ some p) ⊎ ComesOfModel grammar p)
            × (plan ≡ candidate_of state p grammar.is_refinement))
  unfolding plan_turn
  plan_turn-runs planning context state question grammar plan h =
      elim (assist_plan_cases planning question grammar) [
        | inl same ↦
            let (p, e, candidate, governed) =
              after_planning-runs context state grammar plan (rw same at h) in
            (governed, (p, inl e, candidate))
        | inr (q, made, changed) ↦
            let (p, e, candidate, governed) =
              after_planning-runs context state (record grammar { planned_plan = some q }) plan
                (rw changed at h) in
            let known : q ≡ p = some_inj q p e in
            (governed, (p, inr (subst (ComesOfModel grammar) known made), candidate))
      ]

  refined_projects :
      (state : ConversationState) (p previous : QueryPlan)
      → state.last_plan ≡ some previous
      → 12 < length state.carried_population
      → 12 < length (candidate_of state p true).filters.project_ids
  unfolding refine
  refined_projects state p previous e crowd =
      let filled = crowded_filled state.carried_population crowd in
      rw (e, filled)
        (length-take_all 200 13 state.carried_population (omega arith) (omega (arith, crowd)))
    where
      crowded_filled : (xs : List String) → 12 < length xs → is_empty xs ≡ false
      crowded_filled [] h = absurd (omega (arith, h))
      crowded_filled (x ∷ xs) h = refl

  -- A turn that refines the plan before, where that turn's answer was about more than twelve
  -- projects, runs no plan, whatever it asks for.
  pub plan_turn-many_refused :
      (planning : Option (String → ProposedText)) (context : PlanContext)
      (state : ConversationState) (question : String) (grammar : PlanningResult)
      (p previous plan : QueryPlan)
      → grammar.planned_plan ≡ some p
      → grammar.is_refinement ≡ true
      → state.last_plan ≡ some previous
      → 12 < length state.carried_population
      → plan_turn language planning context state question grammar ≢ runs plan
  plan_turn-many_refused planning context state question grammar p previous plan made refining e
        crowd h =
      let (governed, (q, from, candidate)) =
        plan_turn-runs planning context state question grammar plan h in
      let few = governed.carries_no_code.projects_few in
      let wide = refined_projects state q previous e crowd in
      let same : plan ≡ candidate_of state q true =
        subst (λ b. plan ≡ candidate_of state q b) refining candidate in
      let narrow : length (candidate_of state q true).filters.project_ids ≤ 12 =
        subst (λ c. length c.filters.project_ids ≤ 12) same few in
      absurd (omega (arith, wide, narrow))
