-- ===== src/Knowledge/Index/Postings.antt =====
-- The index's tables: after any calls they are those that its chunks call for.
use mathlib.Core.List.{append-nil, append_assoc}
use gldaassurance.Base.{
  get-put, some, none, put-HasDistinctKeys, ◌∙◌, String, if◌then◌else◌, sym, ℕ, refl, ◌∷◌, List,
  put, ==_iff, ◌==◌, inl, or_else, zero, ◌≡◌, length, get, [], Option, ◌+◌, arith, HasDistinctKeys,
  suc, ap, ◌++◌, Bool-cases, inr, string_eq, if_cases, ltb, filter, Option-cases, ◌⊎◌, Ordering,
}
use gldaassurance.Knowledge.Index.{
  Posting, add_chunk, tokenise, count_from, push_counts, KnowledgeIndex, DocumentChunk,
  push_posting, DocumentVersion, rebuild_postings, add_each, belongs_to, add_chunks,
  remove_document, versions_of, empty_index, add_version, without_document,
}

-- How often a term stands among terms.
abbrev pub occurrences : String → List String → ℕ
occurrences t [] = 0
occurrences t (x ∷ xs) = if x == t then suc (occurrences t xs) else occurrences t xs

abbrev pub posting_at : ℕ → ℕ → List Posting
posting_at i zero = []
posting_at i (suc n) = record { chunk_index = i; term_frequency = suc n } ∷ []

-- The postings of a term, read off the chunks: one for each chunk that holds it, with its count.
unfoldable pub reference_postings :
    (String → String) → String → ℕ → List DocumentChunk → List Posting
reference_postings lower t i [] = []
reference_postings lower t i (c ∷ cs) =
    posting_at i (occurrences t (tokenise lower c.chunk_text))
    ++ reference_postings lower t (suc i) cs

unfoldable pub reference_length : (String → String) → List DocumentChunk → ℕ
reference_length lower [] = 0
reference_length lower (c ∷ cs) = length (tokenise lower c.chunk_text) + reference_length lower cs

pub record IsIndexed (lower : String → String) (index : KnowledgeIndex) : Type 0 where
  pub postings_right :
      (t : String)
      → or_else (get index.postings t) [] ≡ reference_postings lower t 0 index.chunk_table
  pub length_right : index.total_length ≡ reference_length lower index.chunk_table

-- A count that grows by occurrences; none stays none where there are none.
abbrev grown : Option ℕ → ℕ → Option ℕ
grown none zero = none
grown none (suc n) = some (suc n)
grown (some k) n = some (k + n)

grown_once : (o : Option ℕ) (n : ℕ) → grown (some (or_else o 0 + 1)) n ≡ grown o (suc n)
grown_once none n = ap some (omega arith)
grown_once (some k) n = ap some (omega arith)

grown_zero : (o : Option ℕ) → o ≡ grown o 0
grown_zero none = refl
grown_zero (some k) = ap some (omega arith)

get-count_from :
    (ts : List String) (counts : List (String × ℕ)) (t : String)
    → get (count_from counts ts) t ≡ grown (get counts t) (occurrences t ts)
unfolding count_from
get-count_from [] counts t = grown_zero (get counts t)
get-count_from (x ∷ ts) counts t =
    get-count_from ts (put x (or_else (get counts x) 0 + 1) counts) t
    ∙ ap (λ o. grown o (occurrences t ts)) (get-put x t (or_else (get counts x) 0 + 1) counts)
    ∙ by_case
  where
    by_case :
        grown
          (if x == t then some (or_else (get counts x) 0 + 1) else get counts t)
          (occurrences t ts)
        ≡ grown (get counts t) (if x == t then suc (occurrences t ts) else occurrences t ts)
    by_case = elim (Bool-cases (x == t)) [
      | inr miss ↦ rw miss
      | inl hit ↦
          let same : x ≡ t = (==_iff x t).0 hit in
          rw (hit, same) (grown_once (get counts t) (occurrences t ts))
    ]

count_from-HasDistinctKeys :
    (ts : List String) (counts : List (String × ℕ))
    → HasDistinctKeys counts
    → HasDistinctKeys (count_from counts ts)
unfolding count_from
count_from-HasDistinctKeys [] counts d = d
count_from-HasDistinctKeys (x ∷ ts) counts d =
    count_from-HasDistinctKeys ts _ (put-HasDistinctKeys x (or_else (get counts x) 0 + 1) counts d)

-- What the counts of a chunk add to a term's postings.
abbrev added : ℕ → Option ℕ → List Posting
added i none = []
added i (some tf) = record { chunk_index = i; term_frequency = tf } ∷ []

get-push_counts :
    (i : ℕ) (counts : List (String × ℕ)) (table : List (String × List Posting)) (t : String)
    → HasDistinctKeys counts
    → or_else (get (push_counts i counts table) t) []
      ≡ or_else (get table t) [] ++ added i (get counts t)
unfolding push_counts
get-push_counts i [] table t d = sym (append-nil _)
get-push_counts i ((x, tf) ∷ counts) table t d =
    get-push_counts i counts
      (push_posting x (record { chunk_index = i; term_frequency = tf }) table) t d.1
    ∙ ap (λ o. or_else o [] ++ added i (get counts t))
        (get-put x t
          (or_else (get table x) [] ++ (record { chunk_index = i; term_frequency = tf } ∷ []))
          table)
    ∙ by_case
  where
    by_case :
        or_else
            (if x == t
              then some (
                  or_else (get table x) []
                  ++ (record { chunk_index = i; term_frequency = tf } ∷ []))
              else get table t)
            []
          ++ added i (get counts t)
        ≡ or_else (get table t) [] ++ added i (if x == t then some tf else get counts t)
    by_case = elim (Bool-cases (x == t)) [
      | inr miss ↦ rw miss
      | inl hit ↦
          let same : x ≡ t = (==_iff x t).0 hit in
          let gone : get counts t ≡ none = rw (← same) d.0 in rw (hit, gone, same) (append-nil _)
    ]

added-grown : (i n : ℕ) → added i (grown none n) ≡ posting_at i n
added-grown i zero = refl
added-grown i (suc n) = refl

module _ (lower : String → String) where
  reference_postings-append :
      (t : String) (i : ℕ) (cs : List DocumentChunk) (c : DocumentChunk)
      → reference_postings lower t i (cs ++ (c ∷ []))
        ≡ reference_postings lower t i cs
          ++ posting_at (i + length cs) (occurrences t (tokenise lower c.chunk_text))
  unfolding reference_postings
  reference_postings-append t i [] c =
      append-nil _
      ∙ ap (λ n. posting_at n (occurrences t (tokenise lower c.chunk_text))) (omega arith)
  reference_postings-append t i (d ∷ cs) c =
      let here = posting_at i (occurrences t (tokenise lower d.chunk_text)) in
      let last = λ (n : ℕ). posting_at n (occurrences t (tokenise lower c.chunk_text)) in
      ap (λ l. here ++ l) (reference_postings-append t (suc i) cs c)
      ∙ sym (append_assoc here (reference_postings lower t (suc i) cs) (last (suc i + length cs)))
      ∙ ap (λ n. (here ++ reference_postings lower t (suc i) cs) ++ last n) (omega arith)

  reference_length-append :
      (cs : List DocumentChunk) (c : DocumentChunk)
      → reference_length lower (cs ++ (c ∷ []))
        ≡ reference_length lower cs + length (tokenise lower c.chunk_text)
  unfolding reference_length
  reference_length-append [] c = omega arith
  reference_length-append (d ∷ cs) c = omega (arith, reference_length-append cs c)

  add_chunk-IsIndexed :
      (index : KnowledgeIndex) (c : DocumentChunk)
      → IsIndexed lower index
      → IsIndexed lower (add_chunk lower index c)
  unfolding add_chunk get
  add_chunk-IsIndexed index c ok' =
      let terms = tokenise lower c.chunk_text in
      record {
        postings_right = λ t.
            get-push_counts (length index.chunk_table) (count_from [] terms) index.postings t
              (count_from-HasDistinctKeys terms [] tt)
            ∙ ap (λ l. l ++ added (length index.chunk_table) (get (count_from [] terms) t))
                (ok'.postings_right t)
            ∙ ap (λ l. reference_postings lower t 0 index.chunk_table ++ l)
                (ap (added (length index.chunk_table)) (get-count_from terms [] t)
                  ∙ added-grown (length index.chunk_table) (occurrences t terms))
            ∙ ap
                (λ n.
                  reference_postings lower t 0 index.chunk_table
                  ++ posting_at n (occurrences t terms))
                (omega arith)
            ∙ sym (reference_postings-append t 0 index.chunk_table c);
        length_right = omega (arith, ok'.length_right, reference_length-append index.chunk_table c);
      }

  no_tables-IsIndexed :
      (versions : List (String × DocumentVersion)) (current : List (String × String))
      → IsIndexed lower (record empty_index { versions = versions; current_version = current })
  unfolding get reference_postings reference_length
  no_tables-IsIndexed versions current = record { postings_right = λ t. refl; length_right = refl }

  add_chunks-IsIndexed :
      (cs : List DocumentChunk) (index : KnowledgeIndex)
      → IsIndexed lower index
      → IsIndexed lower (add_chunks lower index cs)
  unfolding add_chunks
  add_chunks-IsIndexed [] index right = right
  add_chunks-IsIndexed (c ∷ cs) index right =
      add_chunks-IsIndexed cs (add_chunk lower index c) (add_chunk-IsIndexed index c right)

  add_version-IsIndexed :
      (index : KnowledgeIndex) (v : DocumentVersion)
      → IsIndexed lower index
      → IsIndexed lower (add_version lower index v).0
  unfolding add_version
  add_version-IsIndexed index v right = elim (Option-cases (get index.versions v.version_id)) [
    | inr (old, e) ↦ rw (e, add_version) right
    | inl e ↦
        rw (e, add_version)
          (add_chunks-IsIndexed v.chunks _
            (record { postings_right = right.postings_right; length_right = right.length_right }))
  ]

  add_each-IsIndexed :
      (vs : List DocumentVersion) (index : KnowledgeIndex)
      → IsIndexed lower index
      → IsIndexed lower (add_each lower index vs)
  unfolding add_each
  add_each-IsIndexed [] index right = right
  add_each-IsIndexed (v ∷ vs) index right =
      add_each-IsIndexed vs (add_chunks lower index v.chunks)
        (add_chunks-IsIndexed v.chunks index right)

  module _ (locale_compare : String → String → Ordering) where
    rebuild_postings-IsIndexed :
        (index : KnowledgeIndex) → IsIndexed lower (rebuild_postings lower locale_compare index)
    unfolding rebuild_postings
    rebuild_postings-IsIndexed index =
        add_each-IsIndexed (versions_of lower locale_compare index) _
          (no_tables-IsIndexed index.versions index.current_version)

    remove_document-IsIndexed :
        (index : KnowledgeIndex) (id : String)
        → IsIndexed lower index
        → IsIndexed lower (remove_document lower locale_compare index id).0
    unfolding remove_document
    remove_document-IsIndexed index id right =
        if_cases (IsIndexed lower) (ltb 0 (length (filter (belongs_to id) index.versions)))
          {x = rebuild_postings lower locale_compare (without_document index id)}
          {y = without_document index id} (rebuild_postings-IsIndexed (without_document index id))
          (record { postings_right = right.postings_right; length_right = right.length_right })

    -- The calls that change the index, and what they leave.
    abbrev pub run_calls : KnowledgeIndex → List (DocumentVersion ⊎ String) → KnowledgeIndex
    run_calls index [] = index
    run_calls index (inl v ∷ calls) = run_calls (add_version lower index v).0 calls
    run_calls index (inr id ∷ calls) =
        run_calls (remove_document lower locale_compare index id).0 calls

    run_calls-IsIndexed_from :
        (calls : List (DocumentVersion ⊎ String)) (index : KnowledgeIndex)
        → IsIndexed lower index
        → IsIndexed lower (run_calls index calls)
    run_calls-IsIndexed_from [] index right = right
    run_calls-IsIndexed_from (inl v ∷ calls) index right =
        run_calls-IsIndexed_from calls _ (add_version-IsIndexed index v right)
    run_calls-IsIndexed_from (inr id ∷ calls) index right =
        run_calls-IsIndexed_from calls _ (remove_document-IsIndexed index id right)

    -- After any additions and removals from the empty index, the postings of every term are those
    -- read off the chunk table: one for each chunk that holds the term, in their order, with the
    -- number of times that it stands there; and the total length is that of all the chunks.
    pub run_calls-IsIndexed :
        (calls : List (DocumentVersion ⊎ String)) → IsIndexed lower (run_calls empty_index calls)
    run_calls-IsIndexed calls =
        run_calls-IsIndexed_from calls empty_index (no_tables-IsIndexed [] [])
