-- ===== src/Tests/KnowledgeRuns.antt =====
-- The lexical index on one contract.
use gldaassurance.Base.{
  ◌*◌, ◌≤◌, compare_nat, ◌≢◌, List, All, ◌/◌, ◌-◌, Ordering, String, ◌⊎◌, ◌∷◌, true, length, ◌+◌,
  [], nat_eqb, inl, none, refl, ℕ, ◌≡◌, inr, arith, some, nat_text, Option, map,
}
use gldaassurance.Tests.Data.{noon}
use gldaassurance.Knowledge.Index.{
  DocumentChunk, remove_document, add_version, empty_index, tokenise, contract, DocumentVersion,
  KnowledgeIndex, page,
}
use gldaassurance.Knowledge.Retrieval.{RetrievalQuery, Numbers, RetrievalHit, retrieve}
use gldaassurance.Knowledge.Index.Postings.{run_calls, IsIndexed, run_calls-IsIndexed}
use gldaassurance.Knowledge.Retrieval.Admitted.{retrieve-admitted}
use gldaassurance.Knowledge.Retrieval.Forgotten.{retrieve-removed}
use gldaassurance.Knowledge.Chunks.{chunk_pages, ParsedPage}
use gldaassurance.Knowledge.Chunks.Sizes.{IsChunk, chunk_pages-IsChunk}
use gldaassurance.Parse.Tabular.{Text}
use gldaassurance.Assistant.Patterns.{codes}

abbrev by_code : String → String → Ordering
by_code a b = Ordering.eq

abbrev counting : Numbers
counting = record {
  Num = ℕ;
  of_nat = λ n. n;
  literal = λ s. 1;
  num_add = λ a b. a + b;
  num_sub = λ a b. a - b;
  num_mul = λ a b. a * b;
  num_div = λ a b. a / b;
  log = λ n. n;
  is_falsy = λ n. nat_eqb n 0;
  descending_sign = λ a b. compare_nat b a;
}

abbrev atlas_chunk : DocumentChunk
atlas_chunk = record {
  chunk_id = "chk-1";
  chunk_document_id = "doc-1";
  chunk_version_id = "ver-1";
  location_kind = page;
  location = 14;
  heading = none;
  chunk_text = "the acceptance criteria of atlas, acceptance by milestone";
}

abbrev atlas_contract : DocumentVersion
atlas_contract = record {
  document_id = "doc-1";
  version_id = "ver-1";
  version_ordinal = 1;
  fingerprint = "f";
  byte_length = 9;
  page_count = 20;
  is_complete = true;
  unreadable = [];
  metadata = record {
    title = "Atlas";
    document_class = contract;
    association = record {
      associated_projects = "prj-001" ∷ [];
      associated_customers = [];
      associated_portfolios = [];
    };
    stated_version = none;
    effective_on = none;
    uploaded_at = noon;
    document_authority = "SYSTEM_OF_RECORD";
    data_context = "SYNTHETIC";
    source_id = "src-1";
  };
  chunks = atlas_chunk ∷ [];
}

abbrev atlas_query : RetrievalQuery
atlas_query = record {
  query_text = "acceptance of atlas";
  query_projects = "prj-001" ∷ [];
  query_classes = [];
  query_limit = 5;
}

abbrev unchanged : String → String
unchanged s = s

abbrev atlas_index : KnowledgeIndex
unfolding add_version
atlas_index = (add_version unchanged empty_index atlas_contract).0

terms_read :
    tokenise unchanged "the acceptance-criteria: a, v2" ≡ "acceptance" ∷ "criteria" ∷ "v2" ∷ []
unfolding tokenise
terms_read = refl

abbrev atlas_calls : List (DocumentVersion ⊎ String)
atlas_calls = inl atlas_contract ∷ inr "doc-2" ∷ inl atlas_contract ∷ []

run_calls-IsIndexed_example :
    IsIndexed unchanged (run_calls unchanged by_code empty_index atlas_calls)
run_calls-IsIndexed_example = run_calls-IsIndexed unchanged by_code atlas_calls

retrieve-admitted_example : length (retrieve unchanged counting atlas_index atlas_query) ≤ 5
unfolding atlas_index
retrieve-admitted_example = (retrieve-admitted unchanged counting atlas_index atlas_query).1

retrieve-removed_example :
    All
      (λ (hit : RetrievalHit counting). hit.hit_chunk.chunk_document_id ≢ "doc-1")
      (retrieve unchanged counting
        (remove_document unchanged by_code atlas_index "doc-1").0
        atlas_query)
unfolding atlas_index
retrieve-removed_example =
    retrieve-removed unchanged by_code counting atlas_index "doc-1" atlas_query

abbrev two_parts : List ParsedPage
two_parts =
    record { page_location = 3; page_content = codes "Old terms hold.\n\nNew Part:\n \nIt begins." }
    ∷ []

-- The length of a text, as its text.
abbrev sized : Text → String
sized content = nat_text (length content)

abbrev cut_parts : ℕ → List (ℕ × Option String × String)
unfolding chunk_pages
cut_parts target =
    map (λ c. (c.location, c.heading, c.chunk_text))
      (chunk_pages sized unchanged "doc-1" "ver-1" page target two_parts)

-- The text before a heading is in the chunk of the heading.
heading_taken : cut_parts 900 ≡ (3, some "8", "36") ∷ []
unfolding cut_parts chunk_pages codes nat_text
heading_taken = refl

cut_small :
    cut_parts 6 ≡ (3, none, "6") ∷ (3, none, "9") ∷ (3, some "8", "9") ∷ (3, some "8", "10") ∷ []
unfolding cut_parts chunk_pages codes nat_text
cut_small = refl

chunk_pages-IsChunk_example :
    All
      (IsChunk sized unchanged "doc-1" "ver-1" page 6 (3 ∷ []))
      (chunk_pages sized unchanged "doc-1" "ver-1" page 6 two_parts)
chunk_pages-IsChunk_example =
    chunk_pages-IsChunk sized unchanged "doc-1" "ver-1" page 6 two_parts (omega arith)
