-- ===== src/Integration/Authority/Governing.antt =====
-- The registry is never ambiguous at the top, and a value is governed by a source that none outranks.
use mathlib.Core.Path.{subst}
use gldaassurance.Base.{
  Bool-cases, Option-cases, find-none, All-mem, ap, ◌≡◌, ◌∷◌, ==_iff, inl, List, sym, true, none,
  false, ◌∙◌, [], Memᴰ, String, arith, ◌⊎◌, inr, string_eq, nat_eq, refl, sort-perm, IsSorted,
  sort-IsSorted, mem-filter_iff, none-ne-some, mem-filter, some_inj, ◌==◌, mem_of_perm, some,
  filter, Bool, All,
}
use gldaassurance.Integration.Authority.{
  same_place, is_authoritative, registered, contests, authority_conflict, store_grant, clash_of,
  register, AuthorityGrant, ranks_before, governing_source, first_of, outranks, grants_for,
}
use mathlib.Core.List.Permᴰ

-- Two sources never hold the top authority for one concept at one priority.
abbrev pub IsUnambiguous : List AuthorityGrant → Type 0
IsUnambiguous grants =
    (a b : AuthorityGrant)
    → Memᴰ a grants
    → Memᴰ b grants
    → is_authoritative a.authority ≡ true
    → is_authoritative b.authority ≡ true
    → a.concept ≡ b.concept
    → a.priority ≡ b.priority
    → a.source_id ≡ b.source_id

in_replaced :
    (given g a : AuthorityGrant) (grants : List AuthorityGrant)
    → Memᴰ a (given ∷ grants)
    → (a ≡ given) ⊎ Memᴰ a (g ∷ grants)
in_replaced given g a grants (Memᴰ.head e) = inl e
in_replaced given g a grants (Memᴰ.tail t) = inr (Memᴰ.tail t)

in_kept :
    (given g a : AuthorityGrant) (changed grants : List AuthorityGrant)
    → Memᴰ a (g ∷ changed)
    → (Memᴰ a changed → (a ≡ given) ⊎ Memᴰ a grants)
    → (a ≡ given) ⊎ Memᴰ a (g ∷ grants)
in_kept given g a changed grants (Memᴰ.head e) later = inr (Memᴰ.head e)
in_kept given g a changed grants (Memᴰ.tail t) later = elim (later t) [
  | inl e ↦ inl e
  | inr old ↦ inr (Memᴰ.tail old)
]

mem_of_mem-store_grant :
    (given a : AuthorityGrant) (grants : List AuthorityGrant)
    → Memᴰ a (store_grant given grants)
    → (a ≡ given) ⊎ Memᴰ a grants
unfolding store_grant
mem_of_mem-store_grant given a [] (Memᴰ.head e) = inl e
mem_of_mem-store_grant given a [] (Memᴰ.tail t) = elim t [ ]
mem_of_mem-store_grant given a (g ∷ grants) m = elim (Bool-cases (same_place given g)) [
  | inl same ↦ in_replaced given g a grants (rw same at m)
  | inr differs ↦
      in_kept given g a (store_grant given grants) grants (rw differs at m)
        (mem_of_mem-store_grant given a grants)
]

registered_inj : {a b : List AuthorityGrant} → registered a ≡ registered b → a ≡ b
registered_inj h = cc

conflict-ne :
    {c f s : String} {a : List AuthorityGrant} → authority_conflict c f s ≡ registered a → ⊥
conflict-ne h = cc

-- What a grant that is registered has passed.
uncontested :
    (grants : List AuthorityGrant) (given g : AuthorityGrant)
    → clash_of given grants ≡ none
    → Memᴰ g grants
    → is_authoritative given.authority ≡ true
    → is_authoritative g.authority ≡ true
    → g.concept ≡ given.concept
    → g.priority ≡ given.priority
    → g.source_id ≡ given.source_id
uncontested grants given g free m top top' concept priority =
    let quiet : contests given g ≡ false =
      All-mem (λ x. contests given x ≡ false) grants
        (find-none (contests given) grants (rw top at free)) m in
    ground (
      arith,
      quiet,
      top',
      (==_iff g.concept given.concept).1 concept,
      (==_iff g.priority given.priority).1 priority,
      ==_iff g.source_id given.source_id,
    )

-- A registration that does not throw keeps a registry free of two sources with the top authority
-- for one concept at one priority.
pub register-IsUnambiguous :
    (grants grants' : List AuthorityGrant) (given : AuthorityGrant)
    → IsUnambiguous grants
    → register grants given ≡ registered grants'
    → IsUnambiguous grants'
unfolding register
register-IsUnambiguous grants grants' given clear h = elim (Option-cases (clash_of given grants)) [
  | inr (clash, found) ↦ absurd (conflict-ne (rw (register, found) at h))
  | inl free ↦
      let same : store_grant given grants ≡ grants' = registered_inj (rw (register, free) at h) in
      subst IsUnambiguous same (λ a b ma mb ta tb concept priority.
        elim (mem_of_mem-store_grant given a grants ma) [
          | inl ea ↦ elim (mem_of_mem-store_grant given b grants mb) [
            | inl eb ↦ ap (λ g. g.source_id) (ea ∙ sym eb)
            | inr ob ↦ sym (
                uncontested grants given b free ob
                  (ap (λ g. is_authoritative g.authority) (sym ea) ∙ ta) tb
                  (sym concept ∙ ap (λ g. g.concept) ea) (sym priority ∙ ap (λ g. g.priority) ea)
                ∙ ap (λ g. g.source_id) (sym ea))
          ]
          | inr oa ↦ elim (mem_of_mem-store_grant given b grants mb) [
            | inl eb ↦
                uncontested grants given a free oa
                  (ap (λ g. is_authoritative g.authority) (sym eb) ∙ tb) ta
                  (concept ∙ ap (λ g. g.concept) eb) (priority ∙ ap (λ g. g.priority) eb)
                ∙ ap (λ g. g.source_id) (sym eb)
            | inr ob ↦ clear a b oa ob ta tb concept priority
          ]
        ])
]

module _ (locale_le : String → String → Bool)
    (locale_total : (a b : String) → locale_le a b ≡ false → locale_le b a ≡ true)
    (locale_trans : (a b c : String)
      → locale_le a b ≡ true
      → locale_le b c ≡ true
      → locale_le a c ≡ true) where
  ranks_before_total :
      (a b : AuthorityGrant)
      → ranks_before locale_le a b ≡ false
      → ranks_before locale_le b a ≡ true
  ranks_before_total a b h = ground (arith, locale_total a.source_id b.source_id)

  ranks_before_trans :
      (a b c : AuthorityGrant)
      → ranks_before locale_le a b ≡ true
      → ranks_before locale_le b c ≡ true
      → ranks_before locale_le a c ≡ true
  ranks_before_trans a b c h k = ground (arith, locale_trans a.source_id b.source_id c.source_id)

  not_outranked :
      (a b : AuthorityGrant)
      → ranks_before locale_le a b ≡ true
      → outranks b.authority a.authority ≡ false
  not_outranked a b h = ground arith

  head_best :
      (y x : AuthorityGrant) (grants : List AuthorityGrant)
      → All (λ z. ranks_before locale_le y z ≡ true) grants
      → Memᴰ x (y ∷ grants)
      → outranks x.authority y.authority ≡ false
  head_best y x grants h (Memᴰ.head e) =
      subst (λ z. outranks z.authority y.authority ≡ false) (sym e) (ground arith)
  head_best y x grants h (Memᴰ.tail m) =
      not_outranked y x (All-mem (λ z. ranks_before locale_le y z ≡ true) grants h m)

  -- None outranks the grant.
  abbrev IsBest : List AuthorityGrant → AuthorityGrant → Type 0
  IsBest grants g = (x : AuthorityGrant) → Memᴰ x grants → outranks x.authority g.authority ≡ false

  first_of-IsBest :
      (grants : List AuthorityGrant) (g : AuthorityGrant)
      → IsSorted (ranks_before locale_le) grants
      → first_of locale_le grants ≡ some g
      → Memᴰ g grants × IsBest grants g
  first_of-IsBest [] g h e = absurd (none-ne-some g e)
  first_of-IsBest (y ∷ grants) g h e =
      subst (λ z. Memᴰ z (y ∷ grants) × IsBest (y ∷ grants) z) (some_inj y g e)
        (Memᴰ.head refl, λ x m. head_best y x grants h.0 m)

  -- Where `localeCompare` orders the source ids, the governing source of a concept is a grant for
  -- that concept which no other grant for it outranks.
  pub governing_source-best :
      (grants : List AuthorityGrant) (concept : String) (g : AuthorityGrant)
      → governing_source locale_le grants concept ≡ some g
      → Memᴰ g grants
        × (g.concept ≡ concept)
        × ((x : AuthorityGrant)
            → Memᴰ x grants
            → x.concept ≡ concept
            → outranks x.authority g.authority ≡ false)
  unfolding governing_source grants_for
  governing_source-best grants concept g h =
      let test = λ (x : AuthorityGrant). x.concept == concept in
      let kept = filter test grants in
      let perm = sort-perm (ranks_before locale_le) kept in
      let (inside, best) =
        first_of-IsBest (grants_for locale_le grants concept) g
          (sort-IsSorted (ranks_before locale_le) ranks_before_total ranks_before_trans kept) h in
      let (held, named) = (mem-filter_iff test g grants).0 (mem_of_perm perm inside) in
      (
        held,
        (==_iff g.concept concept).0 named,
        λ x m e. best x (
            mem_of_perm (Permᴰ.symm perm)
              (mem-filter test grants m ((==_iff x.concept concept).1 e))),
      )
