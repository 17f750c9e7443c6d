-- ===== src/Persistence/History.antt =====
-- What the stores never do: change an entity that was inserted once, hold two rows in one place of a
-- series, or let a correction rewrite what was believed at the time.
use mathlib.Core.Path.{subst}
use gldaassurance.Persistence.{
  SeriesRow, clashes, series_as_of, immutability_violation, stored, append, unnamed_correction,
  is_unnamed_correction, insert_once, is_held, Stored,
}
use gldaassurance.Base.{
  Bool, get-put_ne, ◌++◌, List, [], ◌⊎◌, ◌<◌, String, sym, ◌∙◌, inr, get, Option-cases, some, ap,
  false, Bool-cases, inl, none, ◌≡◌, ◌∷◌, Memᴰ, none-ne-some, ◌≢◌, find, find-none, filter, arith,
  refl, ◌==◌, All-append, All, ◌&&◌, All-mem, string_eq, nat_eq,
}

-- The rows after a write; one that is refused leaves them as they were.
abbrev pub kept_rows : {R : Type 0} → R → Stored R → R
kept_rows rows (stored rows') = rows'
kept_rows rows immutability_violation = rows
kept_rows rows unnamed_correction = rows

-- Inserts in order.
unfoldable pub insert_all :
    {E : Type 0} → (E → String) → List E → List (String × E) → List (String × E)
insert_all id_of [] rows = rows
insert_all id_of (e ∷ es) rows = insert_all id_of es (kept_rows rows (insert_once id_of rows e))

-- Appends in order.
unfoldable pub append_all : {E : Type 0} → (E → SeriesRow) → List E → List E → List E
append_all row [] rows = rows
append_all row (e ∷ es) rows = append_all row es (kept_rows rows (append row rows e))

insert_once-keeps :
    {E : Type 0} (id_of : E → String) (rows : List (String × E)) (e : E) (id : String) (held : E)
    → get rows id ≡ some held
    → get (kept_rows rows (insert_once id_of rows e)) id ≡ some held
unfolding insert_once
insert_once-keeps id_of rows e id held h = elim (Option-cases (get rows (id_of e))) [
  | inl free ↦
      let ne : id_of e ≢ id = λ p. none-ne-some held (sym free ∙ ap (get rows) p ∙ h) in
      rw (insert_once, free) (get-put_ne (id_of e) id e rows ne ∙ h)
  | inr (taken, found) ↦ rw (insert_once, found) h
]

-- An entity that is stored under an id stays there, unchanged, through any sequence of inserts.
pub insert_all-keeps :
    {E : Type 0} (id_of : E → String) (es : List E) (rows : List (String × E)) (id : String)
    (held : E)
    → get rows id ≡ some held
    → get (insert_all id_of es rows) id ≡ some held
unfolding insert_all
insert_all-keeps id_of [] rows id held h = h
insert_all-keeps id_of (e ∷ es) rows id held h =
    insert_all-keeps id_of es (kept_rows rows (insert_once id_of rows e)) id held
      (insert_once-keeps id_of rows e id held h)

stored_inj : {R : Type 0} {a b : R} → stored a ≡ stored b → a ≡ b
stored_inj h = cc

violation-ne : {R : Type 0} {a : R} → immutability_violation ≡ stored a → ⊥
violation-ne h = cc

unnamed-ne : {R : Type 0} {a : R} → unnamed_correction ≡ stored a → ⊥
unnamed-ne h = cc

module _ {E : Type 0} (row : E → SeriesRow) where
  -- No row clashes with one before it: a place of the series holds one row.
  abbrev pub IsDistinct : List E → Type 0
  IsDistinct [] = Unit
  IsDistinct (r ∷ rows) = All (λ x. clashes row x r ≡ false) rows × IsDistinct rows

  append-IsDistinct :
      (rows : List E) (e : E)
      → IsDistinct rows
      → ((r : E) → Memᴰ r rows → clashes row e r ≡ false)
      → IsDistinct (rows ++ e ∷ [])
  append-IsDistinct [] e h free = (tt, tt)
  append-IsDistinct (r ∷ rows) e h free = (
    All-append (λ x. clashes row x r ≡ false) rows (e ∷ []) h.0 (free r (Memᴰ.head refl), tt),
    append-IsDistinct rows e h.1 (λ x m. free x (Memᴰ.tail m)),
  )

  append-cases :
      (rows : List E) (e : E)
      → ((find (clashes row e) rows ≡ none) × (append row rows e ≡ stored (rows ++ e ∷ [])))
        ⊎ ((append row rows e ≡ immutability_violation) ⊎ (append row rows e ≡ unnamed_correction))
  unfolding append
  append-cases rows e = elim (Option-cases (find (clashes row e) rows)) [
    | inl free ↦ elim (Bool-cases (is_unnamed_correction row e)) [
      | inl unnamed ↦ inr (inr (rw (append, free, unnamed)))
      | inr named ↦ inl (free, rw (append, free, named))
    ]
    | inr (r, found) ↦ inr (inl (rw (append, found)))
  ]

  kept_rows-IsDistinct :
      (rows : List E) (e : E) → IsDistinct rows → IsDistinct (kept_rows rows (append row rows e))
  kept_rows-IsDistinct rows e h =
      let carry = λ (o : Stored (List E)). IsDistinct (kept_rows rows o) in
      elim (append-cases rows e) [
        | inl (free, done) ↦ subst carry (sym done) (
            append-IsDistinct rows e h (λ r m.
              All-mem (λ x. clashes row e x ≡ false) rows (find-none (clashes row e) rows free) m))
        | inr (inl clash) ↦ subst carry (sym clash) h
        | inr (inr unnamed) ↦ subst carry (sym unnamed) h
      ]

  -- Any sequence of appends to a series in which no row clashes with one before it leaves such a
  -- series.
  pub append_all-IsDistinct :
      (es rows : List E) → IsDistinct rows → IsDistinct (append_all row es rows)
  unfolding append_all
  append_all-IsDistinct [] rows h = h
  append_all-IsDistinct (e ∷ es) rows h =
      append_all-IsDistinct es (kept_rows rows (append row rows e)) (kept_rows-IsDistinct rows e h)

  filter-append_none :
      (p : E → Bool) (rows : List E) (e : E)
      → p e ≡ false
      → filter p (rows ++ e ∷ []) ≡ filter p rows
  filter-append_none p [] e h = rw h
  filter-append_none p (r ∷ rows) e h = elim (Bool-cases (p r)) [
    | inl keep ↦ rw keep (ap (λ l. r ∷ l) (filter-append_none p rows e h))
    | inr drop ↦ rw drop (filter-append_none p rows e h)
  ]

  -- A correction that is appended without an error leaves every series of original beliefs as it
  -- was.
  pub append-series_as_of :
      (week_before : String → String → Bool) (rows rows' : List E) (e : E) (key as_of : String)
      → append row rows e ≡ stored rows'
      → 0 < (row e).correction_seq
      → series_as_of row week_before rows' key as_of ≡ series_as_of row week_before rows key as_of
  unfolding series_as_of
  append-series_as_of week_before rows rows' e key as_of h corrected = elim (append-cases rows e) [
    | inl (free, done) ↦
        let grown : rows' ≡ rows ++ e ∷ [] = stored_inj (sym h ∙ done) in
        let test = λ (r : E). is_held row key as_of r && (row r).correction_seq == 0 in
        let out : test e ≡ false = ground arith in rw (grown, filter-append_none test rows e out)
    | inr (inl clash) ↦ absurd (violation-ne (sym clash ∙ h))
    | inr (inr unnamed) ↦ absurd (unnamed-ne (sym unnamed ∙ h))
  ]
