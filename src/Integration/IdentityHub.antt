-- ===== src/Integration/IdentityHub.antt =====
-- src/contexts/integration/internal/identity.ts, `ProjectIdentityHub`. `fold`, a parameter, is the
-- built-in trimming and change of case in `normalise`; a system is the literal that names it.
pub mod Resolution
use gldaassurance.Base.{
  sort, ◌==◌, filter, ltb, length, ◌&&◌, ◌∷◌, List, if◌then◌else◌, ℕ, Bool, String, map, [],
  string_eq, distinct,
}

pub record IdentityMapping : Type 0 where
  pub mapped_project : String
  pub system : String
  pub external_id : String
  pub declared_by : String

pub data UnresolvedReason : Type 0 where
  not_mapped ambiguous blank : UnresolvedReason

pub data IdentityResolution : Type 0 where
  resolved : String → IdentityMapping → IdentityResolution
  unresolved : UnresolvedReason → (candidate_count : ℕ) → IdentityResolution

module _ (fold : String → String) where
  -- The mapping is one of the system with the folded id.
  abbrev pub is_keyed : String → String → IdentityMapping → Bool
  is_keyed system key m = m.system == system && fold m.external_id == key

  -- The end of `declare`: the first mapping with the key is replaced, or the mapping is pushed.
  unfoldable pub store_mapping : IdentityMapping → List IdentityMapping → List IdentityMapping
  store_mapping mapping [] = mapping ∷ []
  store_mapping mapping (m ∷ ms) =
      if is_keyed mapping.system (fold mapping.external_id) m
      then mapping ∷ ms
      else m ∷ store_mapping mapping ms

  -- `declare`
  unfoldable pub declare_mapping : List IdentityMapping → IdentityMapping → List IdentityMapping
  unfolding store_mapping
  declare_mapping ms mapping =
      if fold mapping.external_id == "" then ms else store_mapping mapping ms

  -- `declareAll`
  unfoldable pub declare_all : List IdentityMapping → List IdentityMapping → List IdentityMapping
  declare_all ms [] = ms
  declare_all ms (m ∷ rest) = declare_all (declare_mapping ms m) rest

  -- The end of `resolve`, on the matches.
  abbrev pub resolution_of : List IdentityMapping → IdentityResolution
  resolution_of [] = unresolved not_mapped 0
  resolution_of (first ∷ rest) =
      if ltb 1 (length (first ∷ rest))
        && ltb 1 (length (distinct (map (λ m. m.mapped_project) (first ∷ rest))))
      then unresolved ambiguous (length (first ∷ rest))
      else resolved first.mapped_project first

  -- `resolve`
  unfoldable pub resolve : List IdentityMapping → String → String → IdentityResolution
  resolve ms system external_id =
      if fold external_id == ""
      then unresolved blank 0
      else resolution_of (filter (is_keyed system (fold external_id)) ms)

-- `identitiesOf`; `localeCompare` of two systems is a parameter.
unfoldable pub identities_of :
    (String → String → Bool) → List IdentityMapping → String → List IdentityMapping
unfolding sort
identities_of locale_le ms project_id =
    sort (λ a b. locale_le a.system b.system) (filter (λ m. m.mapped_project == project_id) ms)
