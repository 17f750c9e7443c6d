-- ===== src/Integration/Conflict.antt =====
-- src/contexts/integration/internal/conflict.ts, with the observation and the reconciliation of
-- internal/staging.ts. `decimal.js`, `trim`, `toUpperCase` and `localeCompare` are parameters; the two
-- texts of a materiality policy are decimals.
pub mod Grouping
pub mod Governing
pub mod Recording
use gldaassurance.Base.{
  [], false, sort, ◌||◌, ◌∷◌, difference, Option, ◌++◌, put, append_text, length, ◌&&◌, get, map,
  filter, List, some, true, ltb, none, leb, if◌then◌else◌, not, String, Bool, ◌==◌, string_eq,
  or_else, is_tie, is_empty, given_values,
}
use gldaassurance.Decimals.{q_div, qty, q_abs, Quantity, q_sub, q_le, q_gt, q_compare, DecimalJs}
use gldaassurance.Parse.Tabular.{trim}
use gldaassurance.Integration.Authority.{outranks, SourceAuthorityClass}
use Prim.Native.Char.{code}

pub data ObservationKind : Type 0 where
  numeric categorical : ObservationKind

pub record ConceptObservation : Type 0 where
  pub source_id : String
  pub project_id : String
  pub concept : String
  pub period : String
  pub value : String
  pub kind : ObservationKind
  pub authority : SourceAuthorityClass
  pub data_context : String
  pub observed_at : Option String
  pub source_version : String

pub record MaterialityPolicy : Type 0 where
  pub relative : Quantity
  pub absolute_floor : Quantity

-- `POC_MATERIALITY`
abbrev pub poc_materiality : MaterialityPolicy
poc_materiality = record { relative = "0.005"; absolute_floor = "1" }

pub record ConflictEntry : Type 0 where
  pub entry_source_id : String
  pub entry_authority : SourceAuthorityClass
  pub entry_value : String
  pub entry_observed_at : Option String
  pub entry_source_version : String

pub record SourceConflict : Type 0 where
  pub conflict_id : String
  pub conflict_project_id : String
  pub conflict_concept : String
  pub conflict_period : String
  pub governed_source_id : String
  pub governed_authority : SourceAuthorityClass
  pub governed_value : String
  pub entries : List ConflictEntry
  pub unresolved_authority : Bool

-- The key of a group.
unfoldable pub subject_key : ConceptObservation → String
subject_key o =
    append_text o.project_id (append_text "|" (append_text o.concept (append_text "|" o.period)))

-- One round of the loop that groups the observations.
unfoldable pub add_to_group :
    ConceptObservation
    → List (String × List ConceptObservation)
    → List (String × List ConceptObservation)
unfolding get put
add_to_group o groups =
    put (subject_key o) (or_else (get groups (subject_key o)) [] ++ o ∷ []) groups

unfoldable pub group_all :
    List ConceptObservation
    → List (String × List ConceptObservation)
    → List (String × List ConceptObservation)
unfolding add_to_group
group_all [] groups = groups
group_all (o ∷ rest) groups = group_all rest (add_to_group o groups)

-- `toEntry`
abbrev pub to_entry : ConceptObservation → ConflictEntry
to_entry o = record {
  entry_source_id = o.source_id;
  entry_authority = o.authority;
  entry_value = o.value;
  entry_observed_at = o.observed_at;
  entry_source_version = o.source_version;
}

-- The comparator of a group, not after: a stays in front unless b outranks it.
abbrev pub governs_before : ConceptObservation → ConceptObservation → Bool
governs_before a b = not (outranks b.authority a.authority)

abbrev pub is_categorical : ObservationKind → Bool
is_categorical categorical = true
is_categorical numeric = false

-- `key.replace(/[^a-zA-Z0-9]/g, '-')`
unfoldable pub dashed : String → String
dashed String.[] = String.[]
dashed (String.◌∷◌ c s) =
    let kept =
      (leb b'a' (code c) && leb (code c) b'z')
      || (leb b'A' (code c) && leb (code c) b'Z')
      || (leb b'0' (code c) && leb (code c) b'9') in
    String.◌∷◌ (if kept then c else "-") (dashed s)

module _ (J : DecimalJs) (trim upper : String → String) where
  -- The comparison of two values that are decimals.
  unfoldable pub differs_by : MaterialityPolicy → Quantity → Quantity → Bool
  differs_by policy av bv =
      let difference = q_abs J (q_sub J av bv) in
      let base = q_abs J av in
      if q_le J difference policy.absolute_floor
      then false
      else if is_tie (q_compare J base "0")
      then true
      else elim (q_div J difference base) [
        | none ↦ true
        | some relative ↦ q_gt J relative policy.relative
      ]

  -- `isMaterial`
  unfoldable pub is_material : ConceptObservation → ConceptObservation → MaterialityPolicy → Bool
  unfolding differs_by
  is_material a b policy =
      if is_categorical a.kind || is_categorical b.kind
      then not (upper (trim a.value) == upper (trim b.value))
      else elim (qty (trim a.value)) [
        | none ↦ not (trim a.value == trim b.value)
        | some av ↦ elim (qty (trim b.value)) [
          | none ↦ not (trim a.value == trim b.value)
          | some bv ↦ differs_by policy av bv
        ]
      ]

  abbrev pub disagrees : MaterialityPolicy → ConceptObservation → ConceptObservation → Bool
  disagrees policy governing o =
      not (o.source_id == governing.source_id) && is_material governing o policy

  -- `unresolvedAuthority`, from the observations behind the governing one.
  abbrev pub is_unresolved : MaterialityPolicy → ConceptObservation → List ConceptObservation → Bool
  is_unresolved policy governing [] = false
  is_unresolved policy governing (second ∷ _) =
      not (outranks governing.authority second.authority) && is_material governing second policy

  abbrev pub conflict_between :
      MaterialityPolicy
      → String
      → ConceptObservation
      → List ConceptObservation
      → List ConceptObservation
      → SourceConflict
  conflict_between policy key governing others disagreeing = record {
    conflict_id = append_text "cf-" (dashed key);
    conflict_project_id = governing.project_id;
    conflict_concept = governing.concept;
    conflict_period = governing.period;
    governed_source_id = governing.source_id;
    governed_authority = governing.authority;
    governed_value = governing.value;
    entries = map to_entry (governing ∷ disagreeing);
    unresolved_authority = is_unresolved policy governing others;
  }

  -- The conflict of an ordered group, if it has one.
  unfoldable pub conflict_in :
      MaterialityPolicy → String → List ConceptObservation → Option SourceConflict
  conflict_in policy key [] = none
  conflict_in policy key (governing ∷ others) =
      let disagreeing = filter (disagrees policy governing) others in
      if is_empty disagreeing
      then none
      else some (conflict_between policy key governing others disagreeing)

  -- The body of the loop over the groups.
  unfoldable pub conflict_of :
      MaterialityPolicy → String × List ConceptObservation → Option SourceConflict
  unfolding sort conflict_in
  conflict_of policy (key, group) =
      if ltb (length group) 2 then none else conflict_in policy key (sort governs_before group)

  -- `detectConflicts`; `locale_le a b` reads `a.localeCompare(b) <= 0`.
  unfoldable pub detect_conflicts :
      (String → String → Bool) → List ConceptObservation → MaterialityPolicy → List SourceConflict
  unfolding group_all sort conflict_of
  detect_conflicts locale_le observations policy =
      given_values
        (map (conflict_of policy) (sort (λ a b. locale_le a.0 b.0) (group_all observations [])))
