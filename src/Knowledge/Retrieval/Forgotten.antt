-- ===== src/Knowledge/Retrieval/Forgotten.antt =====
-- remove and retrieve together: a removed document is not cited again.

use mathlib.Core.Path.{subst}
use gldaassurance.Base.{
  not, Bool-cases, All-of_mem, [], none-ne-some, Ordering, some, String, ◌∷◌, ◌∙◌, ap, sym, ◌==◌,
  inl, refl, get, All-mem, length, ◌≡◌, ◌≢◌, List, if_cases, none, ltb, filter, All, inr, string_eq,
}
use gldaassurance.Audit.{query}
use gldaassurance.Access.Policy.{may}
use gldaassurance.Knowledge.Index.{
  rebuild_postings, KnowledgeIndex, add_chunk, DocumentChunk, add_chunks, without_document,
  belongs_to, add_each, DocumentVersion, versions_of, remove_document,
}
use gldaassurance.Knowledge.Retrieval.{retrieve, Numbers, RetrievalQuery, RetrievalHit}
use gldaassurance.Knowledge.Retrieval.Admitted.{retrieve-admitted, IsAdmitted}

get-filtered :
    (m : List (String × String)) (id : String)
    → get (filter (λ entry. not (entry.0 == id)) m) id ≡ none
unfolding get
get-filtered [] id = refl
get-filtered ((k, v) ∷ m) id = elim (Bool-cases (k == id)) [
  | inl gone ↦ rw gone (get-filtered m id)
  | inr kept ↦ rw (kept, get) (rw kept (get-filtered m id))
]

module _ (lower : String → String) where
  add_chunks-current_version :
      (cs : List DocumentChunk) (index : KnowledgeIndex)
      → (add_chunks lower index cs).current_version ≡ index.current_version
  unfolding add_chunks add_chunk
  add_chunks-current_version [] index = refl
  add_chunks-current_version (c ∷ cs) index =
      add_chunks-current_version cs (add_chunk lower index c)

  add_each-current_version :
      (vs : List DocumentVersion) (index : KnowledgeIndex)
      → (add_each lower index vs).current_version ≡ index.current_version
  unfolding add_each
  add_each-current_version [] index = refl
  add_each-current_version (v ∷ vs) index =
      add_each-current_version vs (add_chunks lower index v.chunks)
      ∙ add_chunks-current_version v.chunks index

  module _ (locale_compare : String → String → Ordering) (N : Numbers) where
    remove_document-current_version :
        (index : KnowledgeIndex) (id : String)
        → get (remove_document lower locale_compare index id).0.current_version id ≡ none
    unfolding remove_document rebuild_postings
    remove_document-current_version index id =
        if_cases (λ (left : KnowledgeIndex). get left.current_version id ≡ none)
          (ltb 0 (length (filter (belongs_to id) index.versions)))
          {x = rebuild_postings lower locale_compare (without_document index id)}
          {y = without_document index id}
          (ap (λ m. get m id)
              (add_each-current_version
                (versions_of lower locale_compare (without_document index id)) _)
            ∙ get-filtered index.current_version id)
          (get-filtered index.current_version id)

    -- Whatever the index, the query and the scores: right after a document is
    -- removed, no hit is a chunk of it.
    pub retrieve-removed :
        (index : KnowledgeIndex) (id : String) (query : RetrievalQuery)
        → All
            (λ (hit : RetrievalHit N). hit.hit_chunk.chunk_document_id ≢ id)
            (retrieve lower N (remove_document lower locale_compare index id).0 query)
    retrieve-removed index id query =
        let left = (remove_document lower locale_compare index id).0 in
        let hits = retrieve lower N left query in
        All-of_mem (λ (hit : RetrievalHit N). hit.hit_chunk.chunk_document_id ≢ id) hits
          (λ hit m same.
            let (version, may, _) =
              All-mem (IsAdmitted lower N left query) hits (retrieve-admitted lower N left query).0
                m in
            none-ne-some hit.hit_chunk.chunk_version_id (
              sym (remove_document-current_version index id)
              ∙ subst (λ d. get left.current_version d ≡ some hit.hit_chunk.chunk_version_id) same
                  may.1))
