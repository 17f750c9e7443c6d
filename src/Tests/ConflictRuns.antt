-- ===== src/Tests/ConflictRuns.antt =====
-- Two sources that disagree about a status.
use gldaassurance.Base.{Memᴰ, String, none, ◌∷◌, false, [], put, List, get, refl, ◌≡◌, sort}
use gldaassurance.Tests.Naturals.{naturals}
use gldaassurance.Access.Policy.{text_before}
use gldaassurance.Integration.Authority.{authoritative, supplemental}
use gldaassurance.Integration.Conflict.{
  dashed, add_to_group, poc_materiality, subject_key, group_all, detect_conflicts, to_entry,
  conflict_in, ConceptObservation, conflict_of, is_material, categorical, SourceConflict,
}
use gldaassurance.Integration.Conflict.Recording.{
  detect_conflicts-Records, detect_conflicts_complete, Records,
}
use gldaassurance.Integration.Conflict.Governing.{Governs}

abbrev same_text : String → String
same_text s = s

abbrev erp_status : ConceptObservation
erp_status = record {
  source_id = "erp";
  project_id = "p-1";
  concept = "status";
  period = "2026-W05";
  value = "GREEN";
  kind = categorical;
  authority = authoritative;
  data_context = "SYNTHETIC";
  observed_at = none;
  source_version = "1";
}

abbrev sheet_status : ConceptObservation
sheet_status = record erp_status { source_id = "sheet"; value = "RED"; authority = supplemental }

abbrev two_statuses : List ConceptObservation
two_statuses = sheet_status ∷ erp_status ∷ []

abbrev found_conflict : SourceConflict
found_conflict = record {
  conflict_id = "cf-p-1-status-2026-W05";
  conflict_project_id = "p-1";
  conflict_concept = "status";
  conflict_period = "2026-W05";
  governed_source_id = "erp";
  governed_authority = authoritative;
  governed_value = "GREEN";
  entries = to_entry erp_status ∷ to_entry sheet_status ∷ [];
  unresolved_authority = false;
}

detect_conflicts_run :
    detect_conflicts naturals same_text same_text text_before two_statuses poc_materiality
    ≡ found_conflict ∷ []
unfolding detect_conflicts group_all add_to_group get put subject_key sort conflict_of conflict_in
    is_material dashed
detect_conflicts_run = refl

detect_conflicts-Records_example :
    Records naturals same_text same_text poc_materiality two_statuses found_conflict
detect_conflicts-Records_example =
    detect_conflicts-Records naturals same_text same_text poc_materiality text_before two_statuses
      found_conflict (rw detect_conflicts_run (Memᴰ.head refl))

detect_conflicts_complete_example : (g : ConceptObservation) × Governs two_statuses g
unfolding subject_key
detect_conflicts_complete_example =
    let result =
      detect_conflicts_complete naturals same_text same_text poc_materiality text_before
        two_statuses sheet_status (Memᴰ.head refl) in
    (result.0, result.1)
