-- ===== src/Knowledge/Retrieval/Admitted.antt =====
-- retrieve: which chunks a query is answered with.
use mathlib.Core.Path.{subst}
use gldaassurance.Base.{
  refl, inl, ◌||◌, any, String, ◌⊎◌, get, true, some, any_iff, Bool, [], List, ◌≡◌, ◌∷◌, Memᴰ,
  is_empty, inr, string_eq, zero, contains, ◌∙◌, contains_iff, nat_eqb_iff, ◌==◌, option_eqb,
  option_eqb_iff, ℕ, and_iff, sym, Bool-cases, arith, ◌+◌, ap, suc, get_elem?, Option-cases,
  All-of_mem, length, length-append, or_else, mem-filter_iff, put, All, All-append, ◌≤◌, nat_eq,
  sort-perm, sort, length-take, distinct, All-mem, All-take, mem_of_perm, take, if_cases,
}
use gldaassurance.Audit.{query}
use gldaassurance.Knowledge.Index.{
  DocumentClass, KnowledgeIndex, DocumentVersion, DocumentChunk, same_class, contract,
  other_document, change_request, governance_minutes, risk_document, amendment, steering_artifact,
  acceptance_criteria, sow, class_index, Posting, tokenise,
}
use gldaassurance.Knowledge.Retrieval.{
  RetrievalQuery, is_admissible, is_of_class, admissible_from, is_linked, relevant_of, hits_of,
  admissible_indexes, Numbers, retrieve, RetrievalHit, score_terms, score_postings, share, all_hits,
  citation_for, ranked_before,
}
use gldaassurance.Access.Policy.{may}

class_of : ℕ → DocumentClass
class_of zero = sow
class_of (suc zero) = contract
class_of (suc (suc zero)) = amendment
class_of (suc (suc (suc zero))) = change_request
class_of (suc (suc (suc (suc zero)))) = acceptance_criteria
class_of (suc (suc (suc (suc (suc zero))))) = governance_minutes
class_of (suc (suc (suc (suc (suc (suc zero)))))) = risk_document
class_of (suc (suc (suc (suc (suc (suc (suc zero))))))) = steering_artifact
class_of (suc (suc (suc (suc (suc (suc (suc (suc n)))))))) = other_document

class_of-class_index : (c : DocumentClass) → class_of (class_index c) ≡ c
unfolding class_of
class_of-class_index sow = refl
class_of-class_index contract = refl
class_of-class_index amendment = refl
class_of-class_index change_request = refl
class_of-class_index acceptance_criteria = refl
class_of-class_index governance_minutes = refl
class_of-class_index risk_document = refl
class_of-class_index steering_artifact = refl
class_of-class_index other_document = refl

same_class-eq : (c d : DocumentClass) → same_class c d ≡ true → c ≡ d
same_class-eq c d h =
    sym (class_of-class_index c)
    ∙ ap class_of ((nat_eqb_iff (class_index c) (class_index d)).0 h)
    ∙ class_of-class_index d

-- The version is the current one of its document and may be shown to the query.
abbrev pub MayCite : KnowledgeIndex → RetrievalQuery → DocumentChunk → DocumentVersion → Type 0
MayCite index query c version =
    (get index.versions c.chunk_version_id ≡ some version)
    × (get index.current_version c.chunk_document_id ≡ some c.chunk_version_id)
    × ((query.query_projects ≡ [])
        ⊎ ((id : String) × Memᴰ id query.query_projects
            × Memᴰ id version.metadata.association.associated_projects))
    × ((query.query_classes ≡ []) ⊎ Memᴰ version.metadata.document_class query.query_classes)

empty_or_any :
    {A : Type 0} (p : A → Bool) (xs : List A)
    → (is_empty xs || any p xs ≡ true)
    → (xs ≡ []) ⊎ ((a : A) × Memᴰ a xs × (p a ≡ true))
empty_or_any p [] h = inl refl
empty_or_any p (x ∷ xs) h = let (a, m, e) = (any_iff p (x ∷ xs)).0 h in inr (a, m, e)

is_linked_iff :
    (query : RetrievalQuery) (version : DocumentVersion)
    → is_linked query version ≡ true
    → (query.query_projects ≡ [])
      ⊎ ((id : String) × Memᴰ id query.query_projects
          × Memᴰ id version.metadata.association.associated_projects)
is_linked_iff query version h =
    let linked = version.metadata.association.associated_projects in
    elim (empty_or_any (contains linked) query.query_projects h) [
      | inl bare ↦ inl bare
      | inr (id, m, e) ↦ inr (id, m, (contains_iff linked id).0 e)
    ]

is_of_class_iff :
    (query : RetrievalQuery) (version : DocumentVersion)
    → is_of_class query version ≡ true
    → (query.query_classes ≡ []) ⊎ Memᴰ version.metadata.document_class query.query_classes
is_of_class_iff query version h =
    elim (empty_or_any (λ c. same_class c version.metadata.document_class) query.query_classes h) [
      | inl bare ↦ inl bare
      | inr (c, m, e) ↦ inr (
          subst (λ d. Memᴰ d query.query_classes)
            (same_class-eq c version.metadata.document_class e) m)
    ]

is_admissible-MayCite :
    (index : KnowledgeIndex) (query : RetrievalQuery) (c : DocumentChunk)
    → is_admissible index query c ≡ true
    → (version : DocumentVersion) × MayCite index query c version
unfolding is_admissible
is_admissible-MayCite index query c h =
    elim (Bool-cases (
      option_eqb (λ a b. a == b) (get index.current_version c.chunk_document_id)
        (some c.chunk_version_id))) [
          | inr stale ↦ absurd (cc (rw (stale, is_admissible) at h))
          | inl live ↦ elim (Option-cases (get index.versions c.chunk_version_id)) [
            | inl gone ↦ absurd (cc (rw (live, gone, is_admissible) at h))
            | inr (version, there) ↦
                let (a, b) =
                  (and_iff (is_linked query version) (is_of_class query version)).0
                    (rw (live, there, is_admissible) at h) in
                (
                  version,
                  (
                    there,
                    (option_eqb_iff string_eq (get index.current_version c.chunk_document_id)
                          (some c.chunk_version_id)).0
                        live,
                    is_linked_iff query version a,
                    is_of_class_iff query version b,
                  ),
                )
          ]
        ]

-- A position of the table that holds a chunk which the query may see.
abbrev pub IsSeen : KnowledgeIndex → RetrievalQuery → ℕ → Type 0
IsSeen index query i =
    (c : DocumentChunk) × (get_elem? index.chunk_table i ≡ some c)
    × (is_admissible index query c ≡ true)

-- A position that `admissible_from` lists, counted from the first.
abbrev ListedAt : KnowledgeIndex → RetrievalQuery → ℕ → ℕ → List DocumentChunk → Type 0
ListedAt index query k i cs =
    (j : ℕ) × (i ≡ k + j)
    × (c : DocumentChunk) × (get_elem? cs j ≡ some c)
    × (is_admissible index query c ≡ true)

shifted :
    (index : KnowledgeIndex) (query : RetrievalQuery) (k i : ℕ) (c : DocumentChunk)
    (cs : List DocumentChunk)
    → ListedAt index query (suc k) i cs
    → ListedAt index query k i (c ∷ cs)
shifted index query k i c cs (j, e, c', at_j, passes) = (suc j, omega arith, c', at_j, passes)

admissible_from-at :
    (index : KnowledgeIndex) (query : RetrievalQuery) (k i : ℕ) (cs : List DocumentChunk)
    → Memᴰ i (admissible_from index query k cs)
    → ListedAt index query k i cs
unfolding admissible_from
admissible_from-at index query k i [] m = elim m [ ]
admissible_from-at index query k i (c ∷ cs) m = elim (Bool-cases (is_admissible index query c)) [
  | inr hidden ↦
      shifted index query k i c cs
        (admissible_from-at index query (suc k) i cs (rw (hidden, admissible_from) at m))
  | inl shown ↦
      first_or_later shown (admissible_from-at index query (suc k) i cs)
        (rw (shown, admissible_from) at m)
]
  where
    first_or_later :
        is_admissible index query c ≡ true
        → (Memᴰ i (admissible_from index query (suc k) cs) → ListedAt index query (suc k) i cs)
        → Memᴰ i (k ∷ admissible_from index query (suc k) cs)
        → ListedAt index query k i (c ∷ cs)
    first_or_later shown ih (Memᴰ.head e) = (0, omega arith, c, refl, shown)
    first_or_later shown ih (Memᴰ.tail later) = shifted index query k i c cs (ih later)

admissible_indexes-IsSeen :
    (index : KnowledgeIndex) (query : RetrievalQuery) (i : ℕ)
    → Memᴰ i (admissible_indexes index query)
    → IsSeen index query i
unfolding admissible_indexes
admissible_indexes-IsSeen index query i m =
    let (j, e, c, at_j, passes) = admissible_from-at index query 0 i index.chunk_table m in
    let same : i ≡ j = omega arith in
    (c, subst (λ n. get_elem? index.chunk_table n ≡ some c) (sym same) at_j, passes)

-- A map whose keys all meet a predicate keeps to it.
put-keys :
    {V : Type 0} (P : ℕ → Type 0) (k : ℕ) (v : V) (m : List (ℕ × V))
    → P k
    → All (λ e. P e.0) m
    → All (λ e. P e.0) (put k v m)
unfolding put
put-keys P k v [] p a = (p, tt)
put-keys P k v ((j, w) ∷ m) p a = elim (Bool-cases (j == k)) [
  | inl same ↦ rw same (p, a.1)
  | inr other' ↦ rw other' (a.0, put-keys P k v m p a.1)
]

module _ (lower : String → String) (N : Numbers) (index : KnowledgeIndex) where
  score_postings-keys :
      (P : ℕ → Type 0) (weight : N.Num) (ps : List Posting) (scores : List (ℕ × N.Num))
      → All (λ p. P p.chunk_index) ps
      → All (λ e. P e.0) scores
      → All (λ e. P e.0) (score_postings lower N index weight ps scores)
  unfolding score_postings
  score_postings-keys P weight [] scores a b = b
  score_postings-keys P weight (p ∷ ps) scores a b =
      elim (Option-cases (get_elem? index.chunk_table p.chunk_index)) [
        | inl gone ↦ rw (gone, score_postings) (score_postings-keys P weight ps scores a.1 b)
        | inr (c, there) ↦
            rw (there, score_postings)
              (score_postings-keys P weight ps
                (put p.chunk_index
                  (N.num_add (or_else (get scores p.chunk_index) (N.of_nat 0))
                    (share lower N index weight p))
                  scores)
                a.1 (put-keys P p.chunk_index _ scores a.0 b))
      ]

  score_terms-keys :
      (admissible : List ℕ) (terms : List String) (scores : List (ℕ × N.Num))
      → All (λ e. Memᴰ e.0 admissible) scores
      → All (λ e. Memᴰ e.0 admissible) (score_terms lower N index admissible terms scores)
  unfolding score_terms
  score_terms-keys admissible [] scores a = a
  score_terms-keys admissible (t ∷ ts) scores a =
      elim (Bool-cases (is_empty (relevant_of lower N index admissible t))) [
        | inl bare ↦ rw bare (score_terms-keys admissible ts scores a)
        | inr some' ↦ rw some' (
            score_terms-keys admissible ts _ (
              score_postings-keys (λ i. Memᴰ i admissible) _
                (relevant_of lower N index admissible t) scores
                (All-of_mem (λ p. Memᴰ p.chunk_index admissible)
                  (relevant_of lower N index admissible t)
                  (λ p m.
                    (contains_iff admissible p.chunk_index).0
                      ((mem-filter_iff (λ p. contains admissible p.chunk_index) p
                          (or_else (get index.postings t) [])).0
                        m).1))
                a))
      ]

  module _ (query : RetrievalQuery) where
    -- A hit is a chunk that may be cited, under the citation of its version.
    abbrev pub IsAdmitted : RetrievalHit N → Type 0
    IsAdmitted hit =
        (version : DocumentVersion) × MayCite index query hit.hit_chunk version
        × (hit.citation ≡ citation_for version hit.hit_chunk)

    hits_of-IsAdmitted :
        (entry : ℕ × N.Num)
        → IsSeen index query entry.0
        → All IsAdmitted (hits_of lower N index entry)
    hits_of-IsAdmitted entry (c, at_entry, passes) =
        let (version, may) = is_admissible-MayCite index query c passes in
        rw (at_entry, may.0, hits_of) ((version, may, refl), tt)

    all_hits-IsAdmitted :
        (entries : List (ℕ × N.Num))
        → All (λ e. IsSeen index query e.0) entries
        → All IsAdmitted (all_hits lower N index entries)
    unfolding all_hits
    all_hits-IsAdmitted [] a = tt
    all_hits-IsAdmitted (e ∷ es) a =
        All-append IsAdmitted (hits_of lower N index e) _ (hits_of-IsAdmitted e a.0)
          (all_hits-IsAdmitted es a.1)

    length-hits_of : (e : ℕ × N.Num) → length (hits_of lower N index e) ≤ 1
    length-hits_of e = elim (Option-cases (get_elem? index.chunk_table e.0)) [
      | inl gone ↦ rw (gone, hits_of) (omega arith)
      | inr (c, there) ↦ elim (Option-cases (get index.versions c.chunk_version_id)) [
        | inl lost ↦ rw (there, lost, hits_of) (omega arith)
        | inr (v, found) ↦ rw (there, found, hits_of) (omega arith)
      ]
    ]

    length-all_hits : (es : List (ℕ × N.Num)) → length (all_hits lower N index es) ≤ length es
    unfolding all_hits
    length-all_hits [] = omega arith
    length-all_hits (e ∷ es) = omega (
      arith,
      length-append {0} (hits_of lower N index e) (all_hits lower N index es),
      length-hits_of e,
      length-all_hits es,
    )

    abbrev pub IsAnswer : List (RetrievalHit N) → Type 0
    IsAnswer hits = All IsAdmitted hits × (length hits ≤ query.query_limit)

    -- Whatever the index and the scores: every hit is a chunk of a version that the index holds and
    -- that is the current one of its document, that is linked to a project of the query where the
    -- query names projects, and whose class the query names where it names classes; it is cited as
    -- that version; and there are no more hits than the limit.
    pub retrieve-admitted : IsAnswer (retrieve lower N index query)
    unfolding retrieve
    retrieve-admitted =
        let terms = tokenise lower query.query_text in
        let admissible = admissible_indexes index query in
        let scores = score_terms lower N index admissible (distinct terms) [] in
        let ranked = sort (ranked_before lower N) scores in
        let seen' : All (λ e. IsSeen index query e.0) ranked =
          All-of_mem (λ e. IsSeen index query e.0) ranked
            (λ e m. admissible_indexes-IsSeen index query e.0 (
              All-mem (λ e. Memᴰ e.0 admissible) scores
                (score_terms-keys admissible (distinct terms) [] tt)
                (mem_of_perm (sort-perm (ranked_before lower N) scores) m))) in
        if_cases IsAnswer (is_empty terms || is_empty index.chunk_table) (tt, omega arith)
          (if_cases IsAnswer (is_empty admissible) (tt, omega arith)
            (
              all_hits-IsAdmitted (take query.query_limit ranked)
                  (All-take (λ e. IsSeen index query e.0) query.query_limit ranked seen'),
              omega (
                arith,
                length-all_hits (take query.query_limit ranked),
                length-take {0} query.query_limit ranked,
              ),
            ))
