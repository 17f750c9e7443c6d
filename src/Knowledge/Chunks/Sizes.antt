-- ===== src/Knowledge/Chunks/Sizes.antt =====
-- chunkPages: the end of its loop, the sizes of chunks and the pages they name.
use gldaassurance.Base.{
  All-append, leb, suc, some, ◌&&◌, inl, Option-cases, ltb, arith, List, ℕ, is_empty, false, refl,
  Memᴰ, String, ◌*◌, some_inj, length, nat_eqb, not, ◌∷◌, [], none-ne-some, ◌≤◌, ◌≡◌, ◌+◌,
  Bool-cases, All, inr, mem-map, none, length-drop, map, drop, zero, ◌<◌, length-take, take,
  is_space,
}
use gldaassurance.Knowledge.Index.{page, LocationKind, DocumentChunk}
use gldaassurance.Knowledge.Chunks.{
  starts_blank, flush, cut_at, Chunking, last_stop, note_heading, cut_once, cut_loop, add_pages,
  add_paragraphs, is_heading, put_behind, paragraphs_of, chunk_pages, add_paragraph, ParsedPage,
}
use gldaassurance.Parse.Tabular.{trim, trim_end, has_items, trim_start, Text}

length-trim_start : (t : Text) → length (trim_start t) ≤ length t
unfolding trim_start
length-trim_start [] = omega arith
length-trim_start (c ∷ cs) =
    let rest = length-trim_start cs in
    elim (Bool-cases (is_space c)) [ inl e ↦ rw e (omega arith) | inr e ↦ rw e (omega arith) ]

length-trim_end : (t : Text) → length (trim_end t) ≤ length t
unfolding trim_end
length-trim_end [] = omega arith
length-trim_end (c ∷ cs) =
    let rest = length-trim_end cs in
    elim (Bool-cases (not (has_items (trim_end cs)) && is_space c)) [
      | inl e ↦ rw e (omega arith)
      | inr e ↦ rw e (omega arith)
    ]

length-trim : (t : Text) → length (trim t) ≤ length t
unfolding trim
length-trim t = let a = length-trim_start (trim_end t) in let b = length-trim_end t in omega arith

last_stop_le : (upto i : ℕ) (t : Text) (n : ℕ) → last_stop upto i t ≡ some n → n ≤ upto
unfolding last_stop
last_stop_le upto i [] n h = absurd (none-ne-some n h)
last_stop_le upto i (c ∷ cs) n h = elim (Option-cases (last_stop upto (suc i) cs)) [
  | inr (k, e) ↦
      let same = some_inj k n (rw e at h) in
      let below = last_stop_le upto (suc i) cs k e in omega arith
  | inl e ↦ elim (Bool-cases (leb i upto && nat_eqb c b'.' && starts_blank cs)) [
    | inl found ↦ let same = some_inj i n (rw (e, found) at h) in ground arith
    | inr bare ↦ absurd (none-ne-some n (rw (e, bare) at h))
  ]
]

cut_at_bounds :
    (target : ℕ) (t : Text) → 1 ≤ target → (1 ≤ cut_at target t) × (cut_at target t ≤ target * 2)
cut_at_bounds target t positive = elim (Option-cases (last_stop target 0 t)) [
  | inl e ↦ rw (e, cut_at) (omega arith, omega arith)
  | inr (n, e) ↦
      let below = last_stop_le target 0 t n e in
      elim (Bool-cases (ltb target (n * 2))) [
        | inl late ↦ rw (e, late, cut_at) (omega arith, omega arith)
        | inr early ↦ rw (e, early, cut_at) (omega arith, omega arith)
      ]
]

module _ (written : Text → String) (digest : String → String) (document version : String)
    (kind : LocationKind) (target : ℕ) (places : List ℕ) where
  -- A chunk with a text of at most twice the target, and a page that is there where pages are kept.
  abbrev pub IsChunk : DocumentChunk → Type 0
  IsChunk c =
      ((content : Text) × (c.chunk_text ≡ written content)
        × (1 ≤ length content)
        × (length content ≤ target * 2))
      × (kind ≡ page → Memᴰ c.location places)

  abbrev pub IsCut : Chunking → Type 0
  IsCut s = All IsChunk s.cut_chunks × (length s.buffer ≤ target * 2)

  located :
      (here n : ℕ)
      → Memᴰ here places
      → kind ≡ page
      → Memᴰ (elim kind [ page ↦ here | _ ↦ n ]) places
  located here n known e = rw e known

  flush-IsCut :
      (here : ℕ) (s : Chunking)
      → Memᴰ here places
      → IsCut s
      → All IsChunk (flush written digest document version kind target here s).cut_chunks
  unfolding flush
  flush-IsCut here s known good = elim (Bool-cases (is_empty (trim s.buffer))) [
    | inl e ↦ rw e good.0
    | inr e ↦
        let shorter = length-trim s.buffer in
        rw e (
          All-append IsChunk s.cut_chunks _ good.0 (
            (
              (trim s.buffer, refl, not_empty_length (trim s.buffer) e, omega (arith, good.1)),
              located here (s.ordinal + 1) known,
            ),
            tt,
          ))
  ]
    where
      not_empty_length : (t : Text) → is_empty t ≡ false → 1 ≤ length t
      not_empty_length [] e = absurd (cc)
      not_empty_length (c ∷ cs) e = omega arith

  flush-empties :
      (here : ℕ) (s : Chunking)
      → (flush written digest document version kind target here s).buffer ≡ []
  unfolding flush
  flush-empties here s = elim (Bool-cases (is_empty (trim s.buffer))) [
    | inl e ↦ rw e refl
    | inr e ↦ rw e refl
  ]

  module _ (positive : 1 ≤ target) where
    cut_once-IsCut :
        (here : ℕ) (s : Chunking)
        → Memᴰ here places
        → All IsChunk s.cut_chunks
        → All IsChunk (cut_once written digest document version kind target here s).cut_chunks
    unfolding cut_once
    cut_once-IsCut here s known good =
        let bounds = cut_at_bounds target s.buffer positive in
        flush-IsCut here (record s { buffer = take (cut_at target s.buffer) s.buffer }) known
          (good, omega (arith, length-take (cut_at target s.buffer) s.buffer, bounds.1))

    cut_once-shortens :
        (here : ℕ) (s : Chunking)
        → 1 ≤ length s.buffer
        → length (cut_once written digest document version kind target here s).buffer
          < length s.buffer
    unfolding cut_once
    cut_once-shortens here s filled =
        let bounds = cut_at_bounds target s.buffer positive in
        let at = cut_at target s.buffer in
        omega (arith, bounds.0, length-drop at s.buffer, length-trim (drop at s.buffer))

    -- With as much fuel as the buffer is long, the loop ends.
    cut_loop-IsCut :
        (fuel here : ℕ) (s : Chunking)
        → Memᴰ here places
        → All IsChunk s.cut_chunks
        → length s.buffer ≤ fuel
        → IsCut (cut_loop written digest document version kind target fuel here s)
    unfolding cut_loop
    cut_loop-IsCut zero here s known good enough = (good, omega arith)
    cut_loop-IsCut (suc fuel) here s known good enough =
        elim (Bool-cases (ltb (target * 2) (length s.buffer))) [
          | inr short ↦ rw short (good, ground arith)
          | inl long ↦
              let filled : 1 ≤ length s.buffer = ground arith in
              let shorter = cut_once-shortens here s filled in
              rw long (
                cut_loop-IsCut fuel here
                  (cut_once written digest document version kind target here s) known
                  (cut_once-IsCut here s known good) (omega arith))
        ]

    note_heading-IsCut :
        (here : ℕ) (p : Text) (s : Chunking)
        → Memᴰ here places
        → IsCut s
        → IsCut (note_heading written digest document version kind target here p s)
    unfolding note_heading
    note_heading-IsCut here p s known good = elim (Bool-cases (is_heading p)) [
      | inr plain ↦ rw plain good
      | inl titled ↦ elim (Bool-cases (leb target (length s.buffer))) [
        | inr small ↦ rw (titled, small) good
        | inl full ↦
            let empties = flush-empties here s in
            rw (titled, full) (flush-IsCut here s known good, rw empties (omega arith))
      ]
    ]

    put_behind-IsCut :
        (here : ℕ) (p : Text) (s : Chunking)
        → Memᴰ here places
        → IsCut s
        → All IsChunk (put_behind written digest document version kind target here p s).cut_chunks
    unfolding put_behind
    put_behind-IsCut here p s known good =
        elim (Bool-cases (ltb target (length s.buffer + length p) && not (is_empty s.buffer))) [
          | inl full ↦ rw full (flush-IsCut here s known good)
          | inr small ↦ rw small good.0
        ]

    add_paragraph-IsCut :
        (here : ℕ) (p : Text) (s : Chunking)
        → Memᴰ here places
        → IsCut s
        → IsCut (add_paragraph written digest document version kind target here p s)
    unfolding add_paragraph
    add_paragraph-IsCut here p s known good =
        let noted = note_heading written digest document version kind target here p s in
        let next = put_behind written digest document version kind target here p noted in
        cut_loop-IsCut (length next.buffer) here next known
          (put_behind-IsCut here p noted known (note_heading-IsCut here p s known good))
          (omega arith)

    add_paragraphs-IsCut :
        (here : ℕ) (ps : List Text) (s : Chunking)
        → Memᴰ here places
        → IsCut s
        → All IsChunk
            (add_paragraphs written digest document version kind target here ps s).cut_chunks
    unfolding add_paragraphs
    add_paragraphs-IsCut here [] s known good = flush-IsCut here s known good
    add_paragraphs-IsCut here (p ∷ ps) s known good =
        add_paragraphs-IsCut here ps
          (add_paragraph written digest document version kind target here p s) known
          (add_paragraph-IsCut here p s known good)

    add_pages-IsCut :
        (ps : List ParsedPage) (s : Chunking)
        → ((p : ParsedPage) → Memᴰ p ps → Memᴰ p.page_location places)
        → All IsChunk s.cut_chunks
        → All IsChunk (add_pages written digest document version kind target ps s).cut_chunks
    unfolding add_pages
    add_pages-IsCut [] s known good = good
    add_pages-IsCut (p ∷ ps) s known good =
        add_pages-IsCut ps
          (add_paragraphs written digest document version kind target p.page_location
            (paragraphs_of p.page_content) (record s { buffer = []; current_heading = none }))
          (λ q m. known q (Memᴰ.tail m))
          (add_paragraphs-IsCut p.page_location (paragraphs_of p.page_content)
            (record s { buffer = []; current_heading = none }) (known p (Memᴰ.head refl))
            (good, omega arith))

-- Where the target is positive, every chunk of the pages of a document has a text of at least one
-- and at most twice the target's units, and where pages are kept, it names one of the pages given.
pub chunk_pages-IsChunk :
    (written : Text → String) (digest : String → String) (document version : String)
    (kind : LocationKind) (target : ℕ) (pages : List ParsedPage)
    → 1 ≤ target
    → All
        (IsChunk written digest document version kind target (map (λ p. p.page_location) pages))
        (chunk_pages written digest document version kind target pages)
unfolding chunk_pages
chunk_pages-IsChunk written digest document version kind target pages positive =
    add_pages-IsCut written digest document version kind target (map (λ p. p.page_location) pages)
      positive pages (record { cut_chunks = []; ordinal = 0; buffer = []; current_heading = none })
      (λ p m. mem-map (λ q. q.page_location) pages m) tt
