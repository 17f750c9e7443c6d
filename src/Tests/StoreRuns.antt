-- ===== src/Tests/StoreRuns.antt =====
-- The stores and the registry of authorities on concrete rows and grants.
use gldaassurance.Persistence.{SeriesRow}
use gldaassurance.Base.{
  true, Bool, Memᴰ, false, List, ap, ◌∙◌, [], sort, ◌∷◌, ◌≡◌, sym, String, some, refl, ℕ, string_eq,
  ◌≢◌,
}
use gldaassurance.Integration.Authority.{
  AuthorityGrant, authoritative, outranks, disclose, governing_source, supplemental, grants_for,
}
use gldaassurance.Integration.Authority.Governing.{governing_source-best, IsUnambiguous}
use gldaassurance.Integration.IdentityHub.{
  unresolved, IdentityMapping, declare_all, ambiguous, resolve,
}
use gldaassurance.Integration.IdentityHub.Resolution.{resolve-never_ambiguous}

abbrev id_of : String × ℕ → String
id_of e = e.0

abbrev row : ℕ × String → SeriesRow
row (seq, week) = record {
  key = "p-1";
  week = week;
  correction_seq = seq;
  captured_at = "2026-02-01";
  corrects = some 0;
}

abbrev baselines : List (String × (String × ℕ))
baselines = ("b-1", ("b-1", 5)) ∷ []

abbrev weeks : List (ℕ × String)
weeks = (0, "2026-W05") ∷ (0, "2026-W06") ∷ []

abbrev erp : AuthorityGrant
erp = record {
  source_id = "erp";
  concept = "financial.actualCost";
  authority = authoritative;
  priority = 1;
  conflict_behaviour = disclose;
  rationale = "ledger";
}

abbrev psa : AuthorityGrant
psa = record erp { source_id = "psa"; authority = supplemental }

-- A comparison in which every two texts are equal.
abbrev any_order : String → String → Bool
any_order a b = true

alone : IsUnambiguous (erp ∷ [])
alone a b ma mb ta tb c p = ap (λ g. g.source_id) (only a ma ∙ sym (only b mb))
  where
    only : (g : AuthorityGrant) → Memᴰ g (erp ∷ []) → g ≡ erp
    only g (Memᴰ.head e) = e
    only g (Memᴰ.tail m) = elim m [ ]

governing_source-best_example :
    Memᴰ erp (psa ∷ erp ∷ [])
    × (erp.concept ≡ "financial.actualCost")
    × ((x : AuthorityGrant)
        → Memᴰ x (psa ∷ erp ∷ [])
        → x.concept ≡ "financial.actualCost"
        → outranks x.authority erp.authority ≡ false)
unfolding governing_source grants_for sort
governing_source-best_example =
    governing_source-best any_order (λ a b h. refl) (λ a b c h k. refl) (psa ∷ erp ∷ [])
      "financial.actualCost" erp refl

abbrev atlas : IdentityMapping
atlas = record {
  mapped_project = "p-1";
  system = "PSA";
  external_id = "prj-011";
  declared_by = "ops";
}

abbrev apollo : IdentityMapping
apollo = record atlas { mapped_project = "p-2" }

resolve-never_ambiguous_example :
    resolve (λ s. s) (declare_all (λ s. s) [] (atlas ∷ apollo ∷ [])) "PSA" "prj-011"
    ≢ unresolved ambiguous 2
resolve-never_ambiguous_example =
    resolve-never_ambiguous (λ s. s) (atlas ∷ apollo ∷ []) "PSA" "prj-011" 2
