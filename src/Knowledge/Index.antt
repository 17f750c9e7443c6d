-- ===== src/Knowledge/Index.antt =====
-- src/contexts/knowledge/internal/lexical-index.ts: the index, how a version is added and how a
-- document is removed. The change of case, `localeCompare` and the floating-point numbers of scores
-- are parameters.
pub mod Postings
use Prim.Native.Char.{code}
use gldaassurance.Time.{Instant}
use gldaassurance.Base.{
  not_after, [], or_else, some, ◌==◌, put, ◌++◌, false, ℕ, leb, ◌+◌, Bool, compare_nat, true, not,
  length, ltb, then_by, map, get, nat_eqb, none, String, ◌&&◌, ◌||◌, filter, contains, Ordering,
  List, if◌then◌else◌, ◌∷◌, sort, Option, string_eq,
}

pub data DocumentClass : Type 0 where
  sow contract amendment change_request acceptance_criteria : DocumentClass
  governance_minutes risk_document steering_artifact other_document : DocumentClass

abbrev pub class_index : DocumentClass → ℕ
class_index sow = 0
class_index contract = 1
class_index amendment = 2
class_index change_request = 3
class_index acceptance_criteria = 4
class_index governance_minutes = 5
class_index risk_document = 6
class_index steering_artifact = 7
class_index other_document = 8

abbrev pub same_class : DocumentClass → DocumentClass → Bool
same_class c d = nat_eqb (class_index c) (class_index d)

pub record DocumentAssociation : Type 0 where
  pub associated_projects : List String
  pub associated_customers : List String
  pub associated_portfolios : List String

pub record DocumentMetadata : Type 0 where
  pub title : String
  pub document_class : DocumentClass
  pub association : DocumentAssociation
  pub stated_version : Option String
  pub effective_on : Option String
  pub uploaded_at : Instant
  pub document_authority : String
  pub data_context : String
  pub source_id : String

pub data LocationKind : Type 0 where
  page chunk row : LocationKind

pub record DocumentChunk : Type 0 where
  pub chunk_id : String
  pub chunk_document_id : String
  pub chunk_version_id : String
  pub location_kind : LocationKind
  pub location : ℕ
  pub heading : Option String
  pub chunk_text : String

pub record DocumentVersion : Type 0 where
  pub document_id : String
  pub version_id : String
  pub version_ordinal : ℕ
  pub fingerprint : String
  pub byte_length : ℕ
  pub page_count : ℕ
  pub is_complete : Bool
  pub unreadable : List String
  pub metadata : DocumentMetadata
  pub chunks : List DocumentChunk

pub record Posting : Type 0 where
  pub chunk_index : ℕ
  pub term_frequency : ℕ

-- The fields of `LexicalKnowledgeIndex`.
pub record KnowledgeIndex : Type 0 where
  pub versions : List (String × DocumentVersion)
  pub current_version : List (String × String)
  pub chunk_table : List DocumentChunk
  pub postings : List (String × List Posting)
  pub total_length : ℕ

abbrev pub empty_index : KnowledgeIndex
empty_index = record {
  versions = [];
  current_version = [];
  chunk_table = [];
  postings = [];
  total_length = 0;
}

pub data IndexAdmission : Type 0 where
  indexed duplicate supersedes : IndexAdmission

pub record IndexResult : Type 0 where
  pub admission : IndexAdmission
  pub result_version : DocumentVersion
  pub chunks_indexed : ℕ
  pub superseded_version_id : Option String

-- `STOPWORDS`
abbrev pub stopwords : List String
stopwords =
    "a" ∷ "an" ∷ "and" ∷ "are" ∷ "as" ∷ "at" ∷ "be" ∷ "been" ∷ "but" ∷ "by" ∷ "do" ∷ "does" ∷ "for"
    ∷ "from" ∷ "had" ∷ "has" ∷ "have" ∷ "he" ∷ "her" ∷ "his" ∷ "i" ∷ "if" ∷ "in" ∷ "into" ∷ "is"
    ∷ "it" ∷ "its" ∷ "me" ∷ "my" ∷ "no" ∷ "nor" ∷ "not" ∷ "of" ∷ "on" ∷ "or" ∷ "our" ∷ "she" ∷ "so"
    ∷ "than" ∷ "that" ∷ "the" ∷ "their" ∷ "them" ∷ "then" ∷ "there" ∷ "these" ∷ "they" ∷ "this"
    ∷ "those" ∷ "to" ∷ "was" ∷ "we" ∷ "were" ∷ "what" ∷ "when" ∷ "where" ∷ "which" ∷ "who" ∷ "will"
    ∷ "with" ∷ "would" ∷ "you" ∷ "your" ∷ []

-- A character of `[a-z0-9]`.
abbrev pub is_term_code : ℕ → Bool
is_term_code c = leb b'a' c && leb c b'z' || leb b'0' c && leb c b'9'

-- The first piece of a split, and the others.
unfoldable pub split_terms : String → String × List String
split_terms String.[] = ("", [])
split_terms (String.◌∷◌ c s) =
    let (w, ws) = split_terms s in
    if is_term_code (code c) then (String.◌∷◌ c w, ws) else ("", w ∷ ws)

abbrev pub has_two : String → Bool
has_two (String.◌∷◌ c (String.◌∷◌ d s)) = true
has_two _ = false

abbrev pub is_term : String → Bool
is_term w = has_two w && not (contains stopwords w)

-- `tokenise`
unfoldable pub tokenise : (String → String) → String → List String
unfolding split_terms
tokenise lower text' = let (w, ws) = split_terms (lower text') in filter is_term (w ∷ ws)

-- `counts.set(t, (counts.get(t) ?? 0) + 1)` over the terms.
unfoldable pub count_from : List (String × ℕ) → List String → List (String × ℕ)
unfolding get put
count_from counts [] = counts
count_from counts (t ∷ ts) = count_from (put t (or_else (get counts t) 0 + 1) counts) ts

-- One posting behind those that a term has.
abbrev pub push_posting :
    String → Posting → List (String × List Posting) → List (String × List Posting)
push_posting term posting table = put term (or_else (get table term) [] ++ (posting ∷ [])) table

unfoldable pub push_counts :
    ℕ → List (String × ℕ) → List (String × List Posting) → List (String × List Posting)
unfolding get put
push_counts i [] table = table
push_counts i ((term, tf) ∷ counts) table =
    push_counts i counts (push_posting term (record { chunk_index = i; term_frequency = tf }) table)

module _ (lower : String → String) where
  -- The body of the loop over chunks, in `add` and in `#rebuildPostings`.
  unfoldable pub add_chunk : KnowledgeIndex → DocumentChunk → KnowledgeIndex
  add_chunk index c =
      let terms = tokenise lower c.chunk_text in
      record index {
        chunk_table = index.chunk_table ++ (c ∷ []);
        total_length = index.total_length + length terms;
        postings = push_counts (length index.chunk_table) (count_from [] terms) index.postings;
      }

  unfoldable pub add_chunks : KnowledgeIndex → List DocumentChunk → KnowledgeIndex
  unfolding add_chunk
  add_chunks index [] = index
  add_chunks index (c ∷ cs) = add_chunks (add_chunk index c) cs

  -- `add`
  unfoldable pub add_version : KnowledgeIndex → DocumentVersion → KnowledgeIndex × IndexResult
  unfolding add_chunks get put
  add_version index version = elim (get index.versions version.version_id) [
    | some existing ↦ (
      index,
      record {
        admission = duplicate;
        result_version = existing;
        chunks_indexed = 0;
        superseded_version_id = none;
      },
    )
    | none ↦ (
      add_chunks
          (record index {
            versions = put version.version_id version index.versions;
            current_version = put version.document_id version.version_id index.current_version;
          })
          version.chunks,
      record {
        admission = elim (get index.current_version version.document_id) [
          | none ↦ indexed
          | some _ ↦ supersedes
        ];
        result_version = version;
        chunks_indexed = length version.chunks;
        superseded_version_id = get index.current_version version.document_id;
      },
    )
  ]

  unfoldable pub add_each : KnowledgeIndex → List DocumentVersion → KnowledgeIndex
  unfolding add_chunks
  add_each index [] = index
  add_each index (v ∷ vs) = add_each (add_chunks index v.chunks) vs

  module _ (locale_compare : String → String → Ordering) where
    -- The order of `versions`.
    abbrev pub version_before : DocumentVersion → DocumentVersion → Bool
    version_before a b = not_after (
        then_by (locale_compare a.document_id b.document_id)
          (compare_nat a.version_ordinal b.version_ordinal))

    -- `versions`
    unfoldable pub versions_of : KnowledgeIndex → List DocumentVersion
    unfolding sort
    versions_of index = sort version_before (map (λ entry. entry.1) index.versions)

    -- `#rebuildPostings`
    unfoldable pub rebuild_postings : KnowledgeIndex → KnowledgeIndex
    unfolding add_each versions_of
    rebuild_postings index =
        add_each (record index { chunk_table = []; postings = []; total_length = 0 })
          (versions_of index)

-- `get`
abbrev pub version_of : KnowledgeIndex → String → Option DocumentVersion
version_of index id = get index.versions id

-- The loop of `current`.
unfoldable pub current_from : KnowledgeIndex → List (String × String) → List DocumentVersion
current_from index [] = []
current_from index ((id, version) ∷ rest) =
    let later = current_from index rest in
    elim (version_of index version) [ none ↦ later | some v ↦ v ∷ later ]

-- `current`, where `locale_compare` is that of the language.
unfoldable pub current_of : (String → String → Ordering) → KnowledgeIndex → List DocumentVersion
unfolding current_from sort
current_of locale_compare index =
    sort (λ a b. not_after (locale_compare a.metadata.title b.metadata.title))
      (current_from index index.current_version)

-- `documentCount` and `chunkCount`
abbrev pub document_count : KnowledgeIndex → ℕ
document_count index = length index.current_version

abbrev pub chunk_count : KnowledgeIndex → ℕ
chunk_count index = length index.chunk_table

-- The versions and current versions without those of a document.
abbrev pub belongs_to : String → String × DocumentVersion → Bool
belongs_to id entry = entry.1.document_id == id

abbrev pub without_document : KnowledgeIndex → String → KnowledgeIndex
without_document index id = record index {
  versions = filter (λ entry. not (belongs_to id entry)) index.versions;
  current_version = filter (λ entry. not (entry.0 == id)) index.current_version;
}

-- `remove`, with the number of versions that went.
unfoldable pub remove_document :
    (String → String) → (String → String → Ordering) → KnowledgeIndex → String → KnowledgeIndex × ℕ
remove_document lower locale_compare index id =
    let gone = length (filter (belongs_to id) index.versions) in
    (
      if ltb 0 gone
          then rebuild_postings lower locale_compare (without_document index id)
          else without_document index id,
      gone,
    )
