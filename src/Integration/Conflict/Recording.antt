-- ===== src/Integration/Conflict/Recording.antt =====
-- conflict.ts: what a recorded conflict says, and which disagreements are recorded.

use mathlib.Core.Path.{subst}
use gldaassurance.Base.{
  ap, true, All, ◌≡◌, given_values, mem-filter_iff, ◌∷◌, sym, mem_of_perm, arith, some_inj, refl,
  ==_iff, ◌∙◌, Memᴰ, sort, some, false, ◌==◌, sort-perm, String, mem-filter, List, [], string_eq,
  Bool, Bool-cases, All-of_mem, ◌≢◌, is_empty, if_true, map, mem_of_mem-map, none-ne-some, if_false,
  filter, inr, inl, ltb, suc, length_of_perm, mem_of_mem-filter, mem-map, length, ==_refl, ◌&&◌,
  not,
}
use gldaassurance.Integration.Conflict.{
  subject_key, governs_before, ConceptObservation, group_all, to_entry, detect_conflicts,
  conflict_between, conflict_in, SourceConflict, MaterialityPolicy, disagrees, conflict_of,
  is_material,
}
use gldaassurance.Integration.Conflict.Grouping.{
  of_subject, group_all-group, group_all-mem, not_in_nil,
}
use gldaassurance.Decimals.{DecimalJs}
use gldaassurance.Integration.Conflict.Governing.{
  Governs, of_ordered, to_ordered, mem_of_mem-given_values, first-Governs, mem-given_values,
}
use mathlib.Core.List.Permᴰ

is_empty_of_mem :
    {a : ConceptObservation} (l : List ConceptObservation) → Memᴰ a l → is_empty l ≡ false
is_empty_of_mem [] m = elim m [ ]
is_empty_of_mem (x ∷ l) m = refl

two_members :
    {a : ConceptObservation} (group others : List ConceptObservation)
    → length group ≡ suc (length others)
    → Memᴰ a others
    → ltb (length group) 2 ≡ false
two_members group [] e m = elim m [ ]
two_members group (x ∷ others) e m = ground arith

module _ (J : DecimalJs) (trim upper : String → String) (policy : MaterialityPolicy) where
  -- What a conflict records: the value of an observation that governs its subject, and that
  -- observation with others of the subject, from other sources, that differ from it materially.
  abbrev pub Records : List ConceptObservation → SourceConflict → Type 0
  Records observations c =
      (g : ConceptObservation) × (disagreeing : List ConceptObservation) × Governs observations g
      × (c.governed_source_id ≡ g.source_id)
      × (c.governed_value ≡ g.value)
      × (c.entries ≡ map to_entry (g ∷ disagreeing))
      × (disagreeing ≢ [])
      × All
          (λ d.
            Memᴰ d observations
            × (subject_key d ≡ subject_key g)
            × (disagrees J trim upper policy g d ≡ true))
          disagreeing

  conflict_in-Records :
      (observations : List ConceptObservation) (key : String) (l : List ConceptObservation)
      (c : SourceConflict)
      → sort governs_before (of_subject key observations) ≡ l
      → conflict_in J trim upper policy key l ≡ some c
      → Records observations c
  unfolding conflict_in
  conflict_in-Records observations key [] c ordered h = absurd (cc)
  conflict_in-Records observations key (g ∷ others) c ordered h =
      let ds = filter (disagrees J trim upper policy g) others in
      elim (Bool-cases (is_empty ds)) [
        | inl bare ↦ absurd (none-ne-some c (sym (if_true (is_empty ds) _ _ bare) ∙ h))
        | inr found ↦
            let same : conflict_between J trim upper policy key g others ds ≡ c =
              some_inj _ c (sym (if_false (is_empty ds) _ _ found) ∙ h) in
            (
              g,
              ds,
              first-Governs observations key g others ordered,
              ap (λ x. x.governed_source_id) (sym same),
              ap (λ x. x.governed_value) (sym same),
              ap (λ x. x.entries) (sym same),
              λ e. absurd (cc (sym found ∙ ap is_empty e)),
              All-of_mem _ ds (λ d m.
                  let (listed, differs') =
                    (mem-filter_iff (disagrees J trim upper policy g) d others).0 m in
                  let (known, subject) =
                    of_ordered observations key g others ordered d (Memᴰ.tail listed) in
                  (
                    known,
                    subject
                        ∙ sym (of_ordered observations key g others ordered g (Memᴰ.head refl)).1,
                    differs',
                  )),
            )
      ]

  conflict_of-Records :
      (observations : List ConceptObservation) (key : String) (group : List ConceptObservation)
      (c : SourceConflict)
      → group ≡ of_subject key observations
      → conflict_of J trim upper policy (key, group) ≡ some c
      → Records observations c
  unfolding conflict_of
  conflict_of-Records observations key group c formed h = elim (Bool-cases (ltb (length group) 2)) [
    | inl few ↦ absurd (none-ne-some c (sym (if_true (ltb (length group) 2) _ _ few) ∙ h))
    | inr enough ↦
        conflict_in-Records observations key (sort governs_before group) c
          (ap (sort governs_before) (sym formed))
          (sym (if_false (ltb (length group) 2) _ _ enough) ∙ h)
  ]

  -- The governing observation does not disagree with itself.
  behind :
      (g d : ConceptObservation) (others : List ConceptObservation)
      → Memᴰ d (g ∷ others)
      → disagrees J trim upper policy g d ≡ true
      → Memᴰ d others
  behind g d others (Memᴰ.tail m) h = m
  behind g d others (Memᴰ.head e) h =
      let same = (==_iff d.source_id g.source_id).1 (ap (λ x. x.source_id) e) in
      absurd (cc (ap (λ b. not b && is_material J trim upper g d policy) (sym same) ∙ h))

  -- The conflict of a subject in which an observation behind the governing one disagrees.
  conflict_of-some :
      (group : List ConceptObservation) (key : String) (g d : ConceptObservation)
      (others : List ConceptObservation)
      → sort governs_before group ≡ g ∷ others
      → Memᴰ d (filter (disagrees J trim upper policy g) others)
      → conflict_of J trim upper policy (key, group)
        ≡ some (
            conflict_between J trim upper policy key g others
              (filter (disagrees J trim upper policy g) others))
  unfolding conflict_of conflict_in
  conflict_of-some group key g d others ordered m =
      let ds = filter (disagrees J trim upper policy g) others in
      let enough : ltb (length group) 2 ≡ false =
        two_members group others
          (sym (length_of_perm (sort-perm governs_before group)) ∙ ap length ordered)
          (mem_of_mem-filter (disagrees J trim upper policy g) others m) in
      if_false (ltb (length group) 2) _ _ enough
      ∙ ap (conflict_in J trim upper policy key) ordered
      ∙ if_false (is_empty ds) _ _ (is_empty_of_mem ds m)

  module _ (locale_le : String → String → Bool) (observations : List ConceptObservation) where
    abbrev ordered_groups : List (String × List ConceptObservation)
    ordered_groups = sort (λ a b. locale_le a.0 b.0) (group_all observations [])

    -- Whatever the order of the keys, each recorded conflict is between observations of one
    -- subject: the governed value is that of an observation that no other of the subject
    -- outranks, and every further entry is of another source and differs from it materially.
    pub detect_conflicts-Records :
        (c : SourceConflict)
        → Memᴰ c (detect_conflicts J trim upper locale_le observations policy)
        → Records observations c
    unfolding detect_conflicts conflict_of
    detect_conflicts-Records c m =
        let ((key, group), listed, made) =
          mem_of_mem-map (conflict_of J trim upper policy) (some c) ordered_groups
            (mem_of_mem-given_values c (map (conflict_of J trim upper policy) ordered_groups) m) in
        let formed =
          group_all-group observations key group (
            mem_of_perm (sort-perm (λ a b. locale_le a.0 b.0) (group_all observations []))
              listed) in
        conflict_of-Records observations key group c formed (sym made)

    -- Of every observation's subject some observation governs, and every observation of the
    -- subject from another source that differs from it materially is an entry of a recorded
    -- conflict with its value as the governed one.
    pub detect_conflicts_complete :
        (o : ConceptObservation)
        → Memᴰ o observations
        → (g : ConceptObservation) × Governs observations g
          × (subject_key g ≡ subject_key o)
          × ((d : ConceptObservation)
              → Memᴰ d observations
              → subject_key d ≡ subject_key o
              → disagrees J trim upper policy g d ≡ true
              → (c : SourceConflict) × Memᴰ c
                  (detect_conflicts J trim upper locale_le observations policy)
                × (c.governed_value ≡ g.value)
                × Memᴰ (to_entry d) c.entries)
    unfolding detect_conflicts
    detect_conflicts_complete o m =
        of (sort governs_before (of_subject (subject_key o) observations)) refl
      where
        key : String
        key = subject_key o

        recorded :
            (g d : ConceptObservation) (others : List ConceptObservation)
            → sort governs_before (of_subject key observations) ≡ g ∷ others
            → Memᴰ d (filter (disagrees J trim upper policy g) others)
            → (c : SourceConflict) × Memᴰ c
                (given_values (map (conflict_of J trim upper policy) ordered_groups))
              × (c.governed_value ≡ g.value)
              × Memᴰ (to_entry d) c.entries
        recorded g d others ordered kept = (
          conflict_between J trim upper policy key g others
              (filter (disagrees J trim upper policy g) others),
          mem-given_values _ (map (conflict_of J trim upper policy) ordered_groups) (
              subst (λ x. Memᴰ x (map (conflict_of J trim upper policy) ordered_groups))
                (conflict_of-some (of_subject key observations) key g d others ordered kept)
                (mem-map (conflict_of J trim upper policy) ordered_groups (
                  mem_of_perm
                    (Permᴰ.symm (sort-perm (λ a b. locale_le a.0 b.0) (group_all observations [])))
                    (group_all-mem observations o m)))),
          refl,
          Memᴰ.tail (mem-map to_entry (filter (disagrees J trim upper policy g) others) kept),
        )

        of :
            (l : List ConceptObservation)
            → sort governs_before (of_subject key observations) ≡ l
            → (g : ConceptObservation) × Governs observations g
              × (subject_key g ≡ key)
              × ((d : ConceptObservation)
                  → Memᴰ d observations
                  → subject_key d ≡ key
                  → disagrees J trim upper policy g d ≡ true
                  → (c : SourceConflict) × Memᴰ c
                      (given_values (map (conflict_of J trim upper policy) ordered_groups))
                    × (c.governed_value ≡ g.value)
                    × Memᴰ (to_entry d) c.entries)
        of [] ordered = absurd (
            not_in_nil o (
              subst (Memᴰ o) ordered (
                mem_of_perm (Permᴰ.symm (sort-perm governs_before (of_subject key observations)))
                  (mem-filter (λ x. subject_key x == key) observations m (==_refl key)))))
        of (g ∷ others) ordered = (
          g,
          first-Governs observations key g others ordered,
          (of_ordered observations key g others ordered g (Memᴰ.head refl)).1,
          λ d listed same differs'. recorded g d others ordered (
              mem-filter (disagrees J trim upper policy g) others
                (behind g d others (to_ordered observations key g others ordered d listed same)
                  differs')
                differs'),
        )
