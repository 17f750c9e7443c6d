-- ===== src/Integration/Conflict/Grouping.antt =====
-- conflict.ts: the grouping of the observations is complete.

use mathlib.Core.List.{append-nil, append_assoc}
use mathlib.Core.Path.{subst}
use gldaassurance.Base.{
  Memᴰ, ==_iff, get, ◌≡◌, filter, Option-cases, or_else, inl, HasDistinctKeys, refl,
  put-HasDistinctKeys, mem_of_get, get-put, List, sym, get_of_mem, [], ==_refl, mem-filter, inr,
  ◌==◌, ◌∙◌, String, ◌∷◌, Bool, ap, ◌++◌, Bool-cases, string_eq,
}
use gldaassurance.Integration.Conflict.{ConceptObservation, add_to_group, group_all, subject_key}
use gldaassurance.Portfolio.Priority.Ranking.{differs}

-- The observations of one subject, in their order.
abbrev pub of_subject : String → List ConceptObservation → List ConceptObservation
of_subject key = filter (λ o. subject_key o == key)

filter_append :
    {A : Type 0} (p : A → Bool) (xs ys : List A) → filter p (xs ++ ys) ≡ filter p xs ++ filter p ys
filter_append p [] ys = refl
filter_append p (x ∷ xs) ys = elim (Bool-cases (p x)) [
  | inl kept ↦ rw kept (ap (λ l. x ∷ l) (filter_append p xs ys))
  | inr dropped ↦ rw dropped (filter_append p xs ys)
]

module _ (o : ConceptObservation) (groups : List (String × List ConceptObservation)) where
  get-add_to_group :
      (key : String)
      → or_else (get (add_to_group o groups) key) []
        ≡ or_else (get groups key) [] ++ of_subject key (o ∷ [])
  unfolding add_to_group
  get-add_to_group key =
      rw (get-put (subject_key o) key (or_else (get groups (subject_key o)) [] ++ o ∷ []) groups)
        (elim (Bool-cases (subject_key o == key)) [
          | inl same ↦
              rw same (
                ap (λ k. or_else (get groups k) [] ++ o ∷ []) ((==_iff (subject_key o) key).0 same))
          | inr differs ↦ rw differs (sym (append-nil (or_else (get groups key) [])))
        ])

get-group_all :
    (os : List ConceptObservation) (groups : List (String × List ConceptObservation)) (key : String)
    → or_else (get (group_all os groups) key) [] ≡ or_else (get groups key) [] ++ of_subject key os
unfolding group_all
get-group_all [] groups key = sym (append-nil (or_else (get groups key) []))
get-group_all (o ∷ os) groups key =
    get-group_all os (add_to_group o groups) key
    ∙ rw (get-add_to_group o groups key) (
        append_assoc (or_else (get groups key) []) (of_subject key (o ∷ [])) (of_subject key os)
        ∙ ap (λ l. or_else (get groups key) [] ++ l)
            (sym (filter_append (λ x. subject_key x == key) (o ∷ []) os)))

group_all-HasDistinctKeys :
    (os : List ConceptObservation) (groups : List (String × List ConceptObservation))
    → HasDistinctKeys groups
    → HasDistinctKeys (group_all os groups)
unfolding group_all add_to_group
group_all-HasDistinctKeys [] groups d = d
group_all-HasDistinctKeys (o ∷ os) groups d = group_all-HasDistinctKeys os (add_to_group o groups) (
    put-HasDistinctKeys (subject_key o) (or_else (get groups (subject_key o)) [] ++ o ∷ []) groups
      d)

get-group_all_nil :
    (os : List ConceptObservation) (key : String)
    → or_else (get (group_all os []) key) [] ≡ of_subject key os
unfolding get
get-group_all_nil os key = get-group_all os [] key

-- A group that is formed holds exactly the observations of its subject.
pub group_all-group :
    (os : List ConceptObservation) (key : String) (group : List ConceptObservation)
    → Memᴰ (key, group) (group_all os [])
    → group ≡ of_subject key os
group_all-group os key group m =
    let found = get_of_mem (group_all os []) key group (group_all-HasDistinctKeys os [] tt) m in
    sym (ap (λ g. or_else g []) found) ∙ get-group_all_nil os key

pub not_in_nil : {A : Type 0} (a : A) → Memᴰ a [] → ⊥
not_in_nil a m = elim m [ ]

-- Every subject that is observed has its group.
pub group_all-mem :
    (os : List ConceptObservation) (o : ConceptObservation)
    → Memᴰ o os
    → Memᴰ (subject_key o, of_subject (subject_key o) os) (group_all os [])
group_all-mem os o m = elim (Option-cases (get (group_all os []) (subject_key o))) [
  | inl missing ↦ absurd (
      not_in_nil o (
        subst (Memᴰ o) (sym (get-group_all_nil os (subject_key o)) ∙ ap (λ g. or_else g []) missing)
          (mem-filter (λ x. subject_key x == subject_key o) os m (==_refl (subject_key o)))))
  | inr (group, found) ↦
      subst (λ g. Memᴰ (subject_key o, g) (group_all os []))
        (sym (ap (λ g. or_else g []) found) ∙ get-group_all_nil os (subject_key o))
        (mem_of_get (group_all os []) (subject_key o) group found)
]
