-- ===== src/Persistence.antt =====
-- src/platform/persistence/in-memory.ts: the stores. An entity is of a type that the sections take as
-- a parameter, with its id or its place in the series; `localeCompare` of two weeks is a parameter.
pub mod History
use gldaassurance.Base.{
  Bool, ◌++◌, ◌&&◌, List, [], String, true, sort, filter, some, ltb, false, ◌==◌, none,
  if◌then◌else◌, ◌∷◌, ℕ, map, Option, find, put, get, string_eq, nat_eq,
}
use gldaassurance.Access.Policy.{text_before}

-- What a write does: the rows afterwards, `ImmutabilityViolationError`, or the `TypeError` of a
-- correction that does not name what it corrects.
pub data Stored (R : Type 0) : Type 0 where
  stored : R → Stored R
  immutability_violation : Stored R
  unnamed_correction : Stored R

module _ {E : Type 0} (id_of : E → String) where
  -- `InMemoryRepository.upsert`
  unfoldable pub upsert : List (String × E) → E → List (String × E)
  upsert rows entity = put (id_of entity) entity rows

  -- `InMemoryImmutableStore.insert`
  unfoldable pub insert_once : List (String × E) → E → Stored (List (String × E))
  insert_once rows entity = elim (get rows (id_of entity)) [
    | some _ ↦ immutability_violation
    | none ↦ stored (put (id_of entity) entity rows)
  ]

-- `findById`, of the repository and of the immutable store.
abbrev pub find_by_id : {E : Type 0} → List (String × E) → String → Option E
find_by_id rows id = get rows id

-- `InMemoryRepository.findMany`
unfoldable pub find_many : {E : Type 0} → List (String × E) → List String → List E
find_many rows [] = []
find_many rows (id ∷ ids) =
    let rest = find_many rows ids in elim (get rows id) [ none ↦ rest | some e ↦ e ∷ rest ]

pub record SeriesRow : Type 0 where
  pub key : String
  pub week : String
  pub correction_seq : ℕ
  pub captured_at : String
  pub corrects : Option ℕ

module _ {E : Type 0} (row : E → SeriesRow) where
  -- The test of the search for a clash in `append`.
  abbrev pub clashes : E → E → Bool
  clashes entity r =
      (row r).key == (row entity).key
      && (row r).week == (row entity).week
      && (row r).correction_seq == (row entity).correction_seq

  abbrev pub is_unnamed_correction : E → Bool
  is_unnamed_correction entity =
      ltb 0 (row entity).correction_seq
      && elim (row entity).corrects [ none ↦ true | some _ ↦ false ]

  -- `InMemoryAppendOnlyStore.append`
  unfoldable pub append : List E → E → Stored (List E)
  append rows entity = elim (find (clashes entity) rows) [
    | some _ ↦ immutability_violation
    | none ↦
        if is_unnamed_correction entity then unnamed_correction else stored (rows ++ entity ∷ [])
  ]

  -- The row is one of the key, captured by the given instant.
  abbrev pub is_held : String → String → E → Bool
  is_held key as_of r = (row r).key == key && text_before (row r).captured_at as_of

  module _ (week_before : String → String → Bool) where
    -- The comparator of the two series.
    abbrev pub by_week : E → E → Bool
    by_week a b = week_before (row a).week (row b).week

    -- `seriesAsOf`
    unfoldable pub series_as_of : List E → String → String → List E
    unfolding sort
    series_as_of rows key as_of =
        sort by_week (filter (λ r. is_held key as_of r && (row r).correction_seq == 0) rows)

    -- The update of `latest` for one row.
    abbrev pub keep_latest : E → List (String × E) → List (String × E)
    keep_latest r latest = elim (get latest (row r).week) [
      | none ↦ put (row r).week r latest
      | some held ↦
          if ltb (row held).correction_seq (row r).correction_seq
          then put (row r).week r latest
          else latest
    ]

    -- The loop of `seriesAsCorrected`.
    unfoldable pub latest_from : String → String → List (String × E) → List E → List (String × E)
    latest_from key as_of latest [] = latest
    latest_from key as_of latest (r ∷ rows) =
        latest_from key as_of (if is_held key as_of r then keep_latest r latest else latest) rows

    -- `seriesAsCorrected`
    unfoldable pub series_as_corrected : List E → String → String → List E
    unfolding sort latest_from
    series_as_corrected rows key as_of =
        sort by_week (map (λ e. e.1) (latest_from key as_of [] rows))
