-- ===== src/Integration/Authority.antt =====
-- src/contexts/integration/internal/authority.ts, `SourceAuthorityRegistry`, with the order of
-- src/platform/provenance/index.ts. A concept is the literal that names it; `localeCompare` of two
-- source ids is a parameter.
pub mod Governing
use gldaassurance.Base.{
  ◌∷◌, ◌&&◌, ltb, Bool, if◌then◌else◌, List, some, filter, true, find, none, ℕ, false, [], ◌==◌,
  sort, String, Option, string_eq, nat_eq,
}

pub data SourceAuthorityClass : Type 0 where
  authoritative governed_reference supplemental evidence_only unverified : SourceAuthorityClass

-- `AUTHORITY_ORDER.indexOf`
abbrev pub authority_rank : SourceAuthorityClass → ℕ
authority_rank authoritative = 0
authority_rank governed_reference = 1
authority_rank supplemental = 2
authority_rank evidence_only = 3
authority_rank unverified = 4

-- `outranks`
abbrev pub outranks : SourceAuthorityClass → SourceAuthorityClass → Bool
outranks a b = ltb (authority_rank a) (authority_rank b)

abbrev pub is_authoritative : SourceAuthorityClass → Bool
is_authoritative authoritative = true
is_authoritative _ = false

pub data ConflictBehaviour : Type 0 where
  disclose ignore : ConflictBehaviour

pub record AuthorityGrant : Type 0 where
  pub source_id : String
  pub concept : String
  pub authority : SourceAuthorityClass
  pub priority : ℕ
  pub conflict_behaviour : ConflictBehaviour
  pub rationale : String

-- What `register` does: the grants afterwards, or `AuthorityConflict` with the two sources.
pub data Registration : Type 0 where
  registered : List AuthorityGrant → Registration
  authority_conflict : (concept first second : String) → Registration

-- The test of the search for a clash.
abbrev pub contests : AuthorityGrant → AuthorityGrant → Bool
contests given g =
    g.concept == given.concept
    && is_authoritative g.authority
    && g.priority == given.priority
    && (if g.source_id == given.source_id then false else true)

abbrev pub same_place : AuthorityGrant → AuthorityGrant → Bool
same_place given g = g.concept == given.concept && g.source_id == given.source_id

-- The end of `register`: the first grant of the source for the concept is replaced, or the grant is
-- pushed.
unfoldable pub store_grant : AuthorityGrant → List AuthorityGrant → List AuthorityGrant
store_grant given [] = given ∷ []
store_grant given (g ∷ grants) =
    if same_place given g then given ∷ grants else g ∷ store_grant given grants

abbrev pub clash_of : AuthorityGrant → List AuthorityGrant → Option AuthorityGrant
clash_of given grants =
    if is_authoritative given.authority then find (contests given) grants else none

-- `register`
unfoldable pub register : List AuthorityGrant → AuthorityGrant → Registration
unfolding store_grant
register grants given = elim (clash_of given grants) [
  | some clash ↦ authority_conflict given.concept clash.source_id given.source_id
  | none ↦ registered (store_grant given grants)
]

module _ (locale_le : String → String → Bool) where
  -- The comparator of `for`, not after: by authority, then priority, then source id.
  abbrev pub ranks_before : AuthorityGrant → AuthorityGrant → Bool
  ranks_before a b =
      if outranks a.authority b.authority
      then true
      else if outranks b.authority a.authority
      then false
      else if ltb a.priority b.priority
      then true
      else if ltb b.priority a.priority
      then false
      else locale_le a.source_id b.source_id

  -- `for`
  unfoldable pub grants_for : List AuthorityGrant → String → List AuthorityGrant
  unfolding sort
  grants_for grants concept = sort ranks_before (filter (λ g. g.concept == concept) grants)

  abbrev pub first_of : List AuthorityGrant → Option AuthorityGrant
  first_of [] = none
  first_of (g ∷ grants) = some g

  -- `governingSource`
  unfoldable pub governing_source : List AuthorityGrant → String → Option AuthorityGrant
  unfolding grants_for
  governing_source grants concept = first_of (grants_for grants concept)

-- `authorityOf`
unfoldable pub authority_of : List AuthorityGrant → String → String → SourceAuthorityClass
authority_of grants source_id concept =
    elim (find (λ g. g.source_id == source_id && g.concept == concept) grants) [
      | none ↦ unverified
      | some g ↦ g.authority
    ]

-- `grantsBySource`
unfoldable pub grants_by_source : List AuthorityGrant → String → List AuthorityGrant
grants_by_source grants source_id = filter (λ g. g.source_id == source_id) grants
