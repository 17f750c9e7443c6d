-- ===== src/Integration/Conflict/Governing.antt =====
-- conflict.ts: the first of an ordered group, and the members of the list that is returned.
use mathlib.Core.Path.{subst}
use gldaassurance.Base.{
  Option, mem-filter, given_values, [], Memᴰ, mem-filter_iff, some, ◌∙◌, none, mem_of_perm, ap,
  true, IsSorted, ==_iff, String, arith, sym, All-mem, some_inj, false, sort-IsSorted, All, refl,
  sort, List, ◌≡◌, ◌==◌, ◌∷◌, sort-perm, string_eq,
}
use gldaassurance.Integration.Authority.{outranks}
use gldaassurance.Integration.Conflict.{ConceptObservation, governs_before, subject_key}
use gldaassurance.Integration.Conflict.Grouping.{of_subject}
use mathlib.Core.List.Permᴰ

pub governs_total :
    (a b : ConceptObservation) → governs_before a b ≡ false → governs_before b a ≡ true
governs_total a b h = ground arith

pub governs_trans :
    (a b c : ConceptObservation)
    → governs_before a b ≡ true
    → governs_before b c ≡ true
    → governs_before a c ≡ true
governs_trans a b c h k = ground arith

-- No observation of the subject outranks it.
abbrev pub Governs : List ConceptObservation → ConceptObservation → Type 0
Governs observations g =
    Memᴰ g observations
    × ((o : ConceptObservation)
        → Memᴰ o observations
        → subject_key o ≡ subject_key g
        → outranks o.authority g.authority ≡ false)

pub mem_of_mem-given_values :
    {A : Type 0} (a : A) (l : List (Option A)) → Memᴰ a (given_values l) → Memᴰ (some a) l
mem_of_mem-given_values a [] m = elim m [ ]
mem_of_mem-given_values a (none ∷ l) m = Memᴰ.tail (mem_of_mem-given_values a l m)
mem_of_mem-given_values a (some b ∷ l) (Memᴰ.head e) = Memᴰ.head (ap some e)
mem_of_mem-given_values a (some b ∷ l) (Memᴰ.tail m) = Memᴰ.tail (mem_of_mem-given_values a l m)

pub mem-given_values :
    {A : Type 0} (a : A) (l : List (Option A)) → Memᴰ (some a) l → Memᴰ a (given_values l)
mem-given_values a [] m = elim m [ ]
mem-given_values a (none ∷ l) (Memᴰ.head e) = absurd (cc)
mem-given_values a (none ∷ l) (Memᴰ.tail m) = mem-given_values a l m
mem-given_values a (some b ∷ l) (Memᴰ.head e) = Memᴰ.head (some_inj a b e)
mem-given_values a (some b ∷ l) (Memᴰ.tail m) = Memᴰ.tail (mem-given_values a l m)

module _ (observations : List ConceptObservation) (key : String) (governing : ConceptObservation)
    (others : List ConceptObservation)
    (ordered : sort governs_before (of_subject key observations) ≡ governing ∷ others) where
  pub of_ordered :
      (o : ConceptObservation)
      → Memᴰ o (governing ∷ others)
      → Memᴰ o observations × (subject_key o ≡ key)
  of_ordered o m =
      let (listed, same) = (mem-filter_iff (λ x. subject_key x == key) o observations).0 (
        mem_of_perm (sort-perm governs_before (of_subject key observations))
          (subst (Memᴰ o) (sym ordered) m)) in
      (listed, (==_iff (subject_key o) key).0 same)

  pub to_ordered :
      (o : ConceptObservation)
      → Memᴰ o observations
      → subject_key o ≡ key
      → Memᴰ o (governing ∷ others)
  to_ordered o m same = subst (Memᴰ o) ordered (
      mem_of_perm (Permᴰ.symm (sort-perm governs_before (of_subject key observations))) (
        mem-filter (λ x. subject_key x == key) observations m
          ((==_iff (subject_key o) key).1 same)))

  pub first-Governs : Governs observations governing
  first-Governs =
      let (listed, subject) = of_ordered governing (Memᴰ.head refl) in
      let sorted : IsSorted governs_before (governing ∷ others) =
        subst (IsSorted governs_before) ordered (
          sort-IsSorted governs_before governs_total governs_trans (of_subject key observations)) in
      (listed, λ o m same. not_above o (to_ordered o m (same ∙ subject)) sorted.0)
    where
      not_above :
          (o : ConceptObservation)
          → Memᴰ o (governing ∷ others)
          → All (λ x. governs_before governing x ≡ true) others
          → outranks o.authority governing.authority ≡ false
      not_above o (Memᴰ.head e) a =
          ap (λ x. outranks x.authority governing.authority) e ∙ ground arith
      not_above o (Memᴰ.tail m) a =
          let h = All-mem (λ x. governs_before governing x ≡ true) others a m in ground arith
