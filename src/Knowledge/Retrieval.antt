-- ===== src/Knowledge/Retrieval.antt =====
-- src/contexts/knowledge/internal/lexical-index.ts: what a query may see, and how it is ranked.
pub mod Admitted
pub mod Forgotten
use gldaassurance.Base.{
  is_empty, not_after, any, [], or_else, some, ◌==◌, put, ◌++◌, false, ℕ, Bool, compare_nat, length,
  suc, then_by, get, option_eqb, none, String, ◌&&◌, ◌||◌, append_text, filter, get_elem?, nat_text,
  contains, Ordering, List, if◌then◌else◌, ◌∷◌, distinct, sort, Option, string_eq, nat_eq, take,
}
use gldaassurance.Audit.{query}
use gldaassurance.Knowledge.Index.{
  chunk, Posting, DocumentClass, KnowledgeIndex, LocationKind, same_class, tokenise, page, row,
  DocumentVersion, DocumentChunk,
}

pub record RetrievalQuery : Type 0 where
  pub query_text : String
  pub query_projects : List String
  pub query_classes : List DocumentClass
  pub query_limit : ℕ

pub record Citation : Type 0 where
  pub cited_document_id : String
  pub cited_version_id : String
  pub cited_title : String
  pub cited_class : DocumentClass
  pub cited_stated_version : Option String
  pub cited_kind : LocationKind
  pub cited_location : ℕ
  pub cited_label : String
  pub cited_authority : String
  pub cited_context : String
  pub cited_source_id : String

-- The floating-point numbers of the language. `literal` is a number as it is written, `is_falsy`
-- holds of zero and of NaN, and `descending_sign a b` is the sign of `b - a`.
pub record Numbers : Type 1 where
  pub Num : Type 0
  pub of_nat : ℕ → Num
  pub literal : String → Num
  pub num_add : Num → Num → Num
  pub num_sub : Num → Num → Num
  pub num_mul : Num → Num → Num
  pub num_div : Num → Num → Num
  pub log : Num → Num
  pub is_falsy : Num → Bool
  pub descending_sign : Num → Num → Ordering

-- The label of `citationFor`.
abbrev pub label_of : DocumentVersion → DocumentChunk → String
label_of version c = elim c.location_kind [
  | page ↦ append_text "page " (nat_text c.location)
  | row ↦ append_text "row " (nat_text c.location)
  | chunk ↦
      append_text "section "
        (append_text (nat_text c.location) (append_text " of " (nat_text (length version.chunks))))
]

-- `citationFor`
abbrev pub citation_for : DocumentVersion → DocumentChunk → Citation
citation_for version c = record {
  cited_document_id = version.document_id;
  cited_version_id = version.version_id;
  cited_title = version.metadata.title;
  cited_class = version.metadata.document_class;
  cited_stated_version = version.metadata.stated_version;
  cited_kind = c.location_kind;
  cited_location = c.location;
  cited_label = label_of version c;
  cited_authority = version.metadata.document_authority;
  cited_context = version.metadata.data_context;
  cited_source_id = version.metadata.source_id;
}

pub record RetrievalHit (N : Numbers) : Type 0 where
  pub hit_chunk : DocumentChunk
  pub hit_score : N.Num
  pub citation : Citation

-- `query.projectIds.length > 0 && !query.projectIds.some(...)` does not hold.
abbrev pub is_linked : RetrievalQuery → DocumentVersion → Bool
is_linked query version =
    is_empty query.query_projects
    || any (λ id. contains version.metadata.association.associated_projects id) query.query_projects

abbrev pub is_of_class : RetrievalQuery → DocumentVersion → Bool
is_of_class query version =
    is_empty query.query_classes
    || any (λ c. same_class c version.metadata.document_class) query.query_classes

-- The tests of the loop of `#admissibleChunkIndexes`, of one chunk.
unfoldable pub is_admissible : KnowledgeIndex → RetrievalQuery → DocumentChunk → Bool
unfolding get
is_admissible index query c =
    if option_eqb (λ a b. a == b) (get index.current_version c.chunk_document_id)
      (some c.chunk_version_id)
    then elim (get index.versions c.chunk_version_id) [
      | none ↦ false
      | some version ↦ is_linked query version && is_of_class query version
    ]
    else false

-- The indexes of the chunks that pass, from a position on.
unfoldable pub admissible_from : KnowledgeIndex → RetrievalQuery → ℕ → List DocumentChunk → List ℕ
unfolding is_admissible
admissible_from index query i [] = []
admissible_from index query i (c ∷ cs) =
    (if is_admissible index query c then i ∷ [] else []) ++ admissible_from index query (suc i) cs

-- `#admissibleChunkIndexes`
unfoldable pub admissible_indexes : KnowledgeIndex → RetrievalQuery → List ℕ
unfolding admissible_from
admissible_indexes index query = admissible_from index query 0 index.chunk_table

module _ (lower : String → String) (N : Numbers) where
  -- The length of a chunk, tokenised again.
  abbrev pub length_at : KnowledgeIndex → ℕ → ℕ
  length_at index i = elim (get_elem? index.chunk_table i) [
    | none ↦ 0
    | some c ↦ length (tokenise lower c.chunk_text)
  ]

  -- `BM25`
  abbrev pub bm25_k1 : N.Num
  bm25_k1 = N.literal "1.2"

  abbrev pub bm25_b : N.Num
  bm25_b = N.literal "0.75"

  -- `x || 1`
  abbrev pub or_one : N.Num → N.Num
  or_one x = if N.is_falsy x then N.of_nat 1 else x

  -- `idf`, of as many admissible and as many relevant chunks.
  abbrev pub idf : ℕ → ℕ → N.Num
  idf admissible relevant = N.log (
      N.num_add (N.of_nat 1) (
        N.num_div
          (N.num_add (N.num_sub (N.of_nat admissible) (N.of_nat relevant)) (N.literal "0.5"))
          (N.num_add (N.of_nat relevant) (N.literal "0.5"))))

  abbrev pub average_length : KnowledgeIndex → N.Num
  average_length index =
      N.num_div (N.of_nat index.total_length) (N.of_nat (length index.chunk_table))

  -- `denominator`, of a term frequency and a chunk's length.
  abbrev pub denominator : KnowledgeIndex → ℕ → ℕ → N.Num
  denominator index tf dl = N.num_add (N.of_nat tf) (
      N.num_mul bm25_k1 (
        N.num_add (N.num_sub (N.of_nat 1) bm25_b)
          (N.num_mul bm25_b (N.num_div (N.of_nat dl) (or_one (average_length index))))))

  -- `contribution`
  abbrev pub share : KnowledgeIndex → N.Num → Posting → N.Num
  share index weight posting = N.num_mul weight (
      N.num_div (N.num_mul (N.of_nat posting.term_frequency) (N.num_add bm25_k1 (N.of_nat 1)))
        (or_one (denominator index posting.term_frequency (length_at index posting.chunk_index))))

  -- `scores.set(i, (scores.get(i) ?? 0) + contribution)` over the relevant postings.
  unfoldable pub score_postings :
      KnowledgeIndex → N.Num → List Posting → List (ℕ × N.Num) → List (ℕ × N.Num)
  unfolding get put tokenise
  score_postings index weight [] scores = scores
  score_postings index weight (p ∷ ps) scores = elim (get_elem? index.chunk_table p.chunk_index) [
    | none ↦ score_postings index weight ps scores
    | some c ↦ score_postings index weight ps (
        put p.chunk_index
          (N.num_add (or_else (get scores p.chunk_index) (N.of_nat 0)) (share index weight p))
          scores)
  ]

  abbrev pub relevant_of : KnowledgeIndex → List ℕ → String → List Posting
  relevant_of index admissible term =
      filter (λ p. contains admissible p.chunk_index) (or_else (get index.postings term) [])

  unfoldable pub score_terms :
      KnowledgeIndex → List ℕ → List String → List (ℕ × N.Num) → List (ℕ × N.Num)
  unfolding score_postings
  score_terms index admissible [] scores = scores
  score_terms index admissible (t ∷ ts) scores =
      let relevant = relevant_of index admissible t in
      score_terms index admissible ts (
        if is_empty relevant
        then scores
        else score_postings index (idf (length admissible) (length relevant)) relevant scores)

  -- `(b[1] - a[1]) || (a[0] - b[0])`
  abbrev pub ranked_before : ℕ × N.Num → ℕ × N.Num → Bool
  ranked_before a b = not_after (then_by (N.descending_sign a.1 b.1) (compare_nat a.0 b.0))

  -- The hit of a ranked entry, if its chunk and version are there.
  abbrev pub hits_of : KnowledgeIndex → ℕ × N.Num → List (RetrievalHit N)
  hits_of index entry = elim (get_elem? index.chunk_table entry.0) [
    | none ↦ []
    | some c ↦ elim (get index.versions c.chunk_version_id) [
      | none ↦ []
      | some version ↦
          record { hit_chunk = c; hit_score = entry.1; citation = citation_for version c } ∷ []
    ]
  ]

  unfoldable pub all_hits : KnowledgeIndex → List (ℕ × N.Num) → List (RetrievalHit N)
  all_hits index [] = []
  all_hits index (entry ∷ entries) = hits_of index entry ++ all_hits index entries

  -- `retrieve`
  unfoldable pub retrieve : KnowledgeIndex → RetrievalQuery → List (RetrievalHit N)
  retrieve index query =
      let terms = tokenise lower query.query_text in
      let admissible = admissible_indexes index query in
      if is_empty terms || is_empty index.chunk_table
      then []
      else if is_empty admissible
      then []
      else all_hits index (
          take query.query_limit
            (sort ranked_before (score_terms index admissible (distinct terms) [])))
