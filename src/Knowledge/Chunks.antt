-- ===== src/Knowledge/Chunks.antt =====
-- src/contexts/knowledge/internal/lexical-index.ts: `chunkPages`, which cuts the pages of a document
-- into chunks. A text is the list of its UTF-16 code units, which the parameter `written` turns into
-- the text of a chunk. `digest` is the part of a SHA-256 digest that an id keeps.
pub mod Sizes
use gldaassurance.Base.{
  zero, [], true, Option, ◌||◌, none, append_text, ◌∷◌, some, ℕ, ◌&&◌, not, Bool, ◌*◌, suc, List,
  drop, is_empty, ◌++◌, length, map, ◌+◌, nat_eqb, ltb, nat_text, filter, false, if◌then◌else◌, leb,
  all, String, take, is_space,
}
use gldaassurance.Knowledge.Index.{DocumentChunk, page, LocationKind}
use gldaassurance.Parse.Tabular.{Text, trim}

-- `shortId`, of the parts already joined.
abbrev pub short_id : (String → String) → String → String → String
short_id digest prefix parts = append_text prefix (append_text "-" (digest parts))

-- `chunkIdFor`
abbrev pub chunk_id_for : (String → String) → String → ℕ → String
chunk_id_for digest version ordinal =
    short_id digest "chk" (append_text version (append_text " " (nat_text ordinal)))

-- How many units behind a line feed belong to a match of `/\n\s*\n/`, which takes the last line feed
-- of the white space.
unfoldable pub break_length : Text → Option ℕ
break_length [] = none
break_length (c ∷ cs) =
    if is_space c
    then elim (break_length cs) [
      | some n ↦ some (suc n)
      | none ↦ if nat_eqb c 10 then some 1 else none
    ]
    else none

-- `split(/\n\s*\n/)`: the first piece and the others, past the units that a match still has.
unfoldable pub pieces : ℕ → Text → Text × List Text
unfolding break_length
pieces n [] = ([], [])
pieces (suc n) (c ∷ cs) = pieces n cs
pieces zero (c ∷ cs) = elim (if nat_eqb c 10 then break_length cs else none) [
  | some n ↦ let (w, ws) = pieces n cs in ([], w ∷ ws)
  | none ↦ let (w, ws) = pieces zero cs in (c ∷ w, ws)
]

-- `replace(/[ \t]+/g, ' ')`, behind such a run or not.
unfoldable pub squeeze : Bool → Text → Text
squeeze within [] = []
squeeze within (c ∷ cs) =
    if nat_eqb c 32 || nat_eqb c 9
    then (if within then [] else 32 ∷ []) ++ squeeze true cs
    else c ∷ squeeze false cs

-- The paragraphs of a page.
unfoldable pub paragraphs_of : Text → List Text
unfolding pieces squeeze trim
paragraphs_of source =
    let (w, ws) = pieces 0 source in
    filter (λ p. not (is_empty p)) (map (λ p. trim (squeeze false p)) (w ∷ ws))

abbrev pub is_sentence_end : ℕ → Bool
is_sentence_end c = nat_eqb c b'.' || nat_eqb c b'!' || nat_eqb c b'?'

abbrev pub starts_capital : Text → Bool
starts_capital [] = false
starts_capital (c ∷ cs) = leb b'A' c && leb c b'Z'

-- The test for a heading. `[^.!?]+` takes a final colon too.
abbrev pub is_heading : Text → Bool
is_heading p =
    leb (length p) 80
    && (not (is_empty p) && all (λ c. not (is_sentence_end c)) p)
    && starts_capital p

-- `replace(/:$/, '')`
unfoldable pub without_colon : Text → Text
without_colon [] = []
without_colon (c ∷ cs) =
    let later = without_colon cs in if is_empty cs && nat_eqb c b':' then [] else c ∷ later

abbrev pub starts_blank : Text → Bool
starts_blank [] = false
starts_blank (d ∷ ds) = nat_eqb d 32

-- `lastIndexOf('. ', upto)`, of the positions from `i` on.
unfoldable pub last_stop : (upto i : ℕ) → Text → Option ℕ
last_stop upto i [] = none
last_stop upto i (c ∷ cs) = elim (last_stop upto (suc i) cs) [
  | some n ↦ some n
  | none ↦ if leb i upto && nat_eqb c b'.' && starts_blank cs then some i else none
]

-- The place of the cut. The index is compared with half the target, which may be a half.
abbrev pub cut_at : ℕ → Text → ℕ
cut_at target content = elim (last_stop target 0 content) [
  | none ↦ target
  | some n ↦ if ltb target (n * 2) then n + 1 else target
]

-- A page as the parser kept it.
pub record ParsedPage : Type 0 where
  pub page_location : ℕ
  pub page_content : Text

-- The variables of `chunkPages`.
pub record Chunking : Type 0 where
  pub cut_chunks : List DocumentChunk
  pub ordinal : ℕ
  pub buffer : Text
  pub current_heading : Option Text

module _ (written : Text → String) (digest : String → String) (document version : String)
    (kind : LocationKind) (target : ℕ) where
  -- `flush`
  unfoldable pub flush : ℕ → Chunking → Chunking
  unfolding trim
  flush here s =
      let content = trim s.buffer in
      if is_empty content then record s { buffer = [] } else record s {
        buffer = [];
        ordinal = s.ordinal + 1;
        cut_chunks =
            s.cut_chunks
            ++ (record {
              chunk_id = chunk_id_for digest version (s.ordinal + 1);
              chunk_document_id = document;
              chunk_version_id = version;
              location_kind = kind;
              location = elim kind [ page ↦ here | _ ↦ s.ordinal + 1 ];
              heading = elim s.current_heading [ none ↦ none | some h ↦ some (written h) ];
              chunk_text = written content;
            }
                ∷ []);
      }

  -- The body of the `while` loop.
  unfoldable pub cut_once : ℕ → Chunking → Chunking
  unfolding flush last_stop trim
  cut_once here s =
      let at = cut_at target s.buffer in
      let flushed = flush here (record s { buffer = take at s.buffer }) in
      record flushed { buffer = trim (drop at s.buffer) }

  -- The `while` loop, on fuel.
  unfoldable pub cut_loop : ℕ → ℕ → Chunking → Chunking
  unfolding cut_once
  cut_loop zero here s = s
  cut_loop (suc fuel) here s =
      let later = cut_loop fuel here (cut_once here s) in
      if ltb (target * 2) (length s.buffer) then later else s

  -- The heading that a paragraph is.
  unfoldable pub note_heading : ℕ → Text → Chunking → Chunking
  unfolding flush without_colon
  note_heading here p s =
      if is_heading p
      then record (if leb target (length s.buffer) then flush here s else s) {
        current_heading = some (without_colon p);
      }
      else s

  -- The paragraph that is put behind the buffer.
  unfoldable pub put_behind : ℕ → Text → Chunking → Chunking
  unfolding flush
  put_behind here p s =
      let room =
        if ltb target (length s.buffer + length p) && not (is_empty s.buffer)
        then flush here s
        else s in
      record room { buffer = if is_empty room.buffer then p else room.buffer ++ (10 ∷ p) }

  -- The body of the loop over paragraphs. The buffer gets shorter with each cut.
  unfoldable pub add_paragraph : ℕ → Text → Chunking → Chunking
  unfolding note_heading put_behind cut_loop
  add_paragraph here p s =
      let next = put_behind here p (note_heading here p s) in
      cut_loop (length next.buffer) here next

  unfoldable pub add_paragraphs : ℕ → List Text → Chunking → Chunking
  unfolding add_paragraph flush
  add_paragraphs here [] s = flush here s
  add_paragraphs here (p ∷ ps) s = add_paragraphs here ps (add_paragraph here p s)

  -- The loop over pages, each with a new buffer and no heading.
  unfoldable pub add_pages : List ParsedPage → Chunking → Chunking
  unfolding add_paragraphs paragraphs_of
  add_pages [] s = s
  add_pages (p ∷ ps) s = add_pages ps (
      add_paragraphs p.page_location (paragraphs_of p.page_content)
        (record s { buffer = []; current_heading = none }))

  -- `chunkPages`
  unfoldable pub chunk_pages : List ParsedPage → List DocumentChunk
  unfolding add_pages
  chunk_pages pages =
      (add_pages pages
        (record { cut_chunks = []; ordinal = 0; buffer = []; current_heading = none })).cut_chunks
