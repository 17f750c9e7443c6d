-- ===== src/Parse/Tabular/Splitting.antt =====
-- tabular.ts: the budget of rows, in the loop of splitRecords and in that of parseCsv.
use mathlib.Core.Path.{subst}
use gldaassurance.Base.{
  arith, inr, inl, refl, ◌+◌, true, ◌⊎◌, ◌++◌, length, ◌≡◌, ℕ, Bool-cases, false, ◌≤◌,
  length-append, ◌∷◌, ltb, [], if◌then◌else◌, ◌∙◌, ap, List, ◌||◌, if_cases, nat_eqb, if_false,
  if_true, sym, leb, take,
}
use gldaassurance.Parse.Tabular.{
  split_records, finish, Splitter, split_loop, split_step, TabularBudget, end_record, without_mark,
  Text, step_plain, new_splitter, has_items, quote_mark, step_quoted, starts_quote, read_rows,
  parse_csv, sheet_of, name_headers, TabularRow, read_cells, is_blank_record,
}

-- Until the loop stops there is room for one record more; once it has, no field is left over.
abbrev IsWithin : TabularBudget → Splitter → Type 0
IsWithin budget s =
    ((s.stopped ≡ false) × (length s.out ≤ budget.max_rows + 1))
    ⊎ ((s.stopped ≡ true)
        × (length s.out ≤ budget.max_rows + 2)
        × (s.record_fields ≡ [])
        × (s.field ≡ []))

module _ (budget : TabularBudget) where
  end_record-IsWithin :
      (s : Splitter)
      → s.stopped ≡ false
      → length s.out ≤ budget.max_rows + 1
      → IsWithin budget (end_record budget s)
  unfolding end_record
  end_record-IsWithin s going h =
      let longer : length (s.out ++ (s.record_fields ++ s.field ∷ []) ∷ []) ≡ length s.out + 1 =
        length-append s.out ((s.record_fields ++ s.field ∷ []) ∷ []) in
      elim (Bool-cases
        (ltb (budget.max_rows + 1) (length (s.out ++ (s.record_fields ++ s.field ∷ []) ∷ [])))) [
          | inl over ↦ inr (over, omega arith, refl, refl)
          | inr under ↦ inl (under, ground arith)
        ]

  step_plain-IsWithin :
      (s : Splitter) (ch : ℕ)
      → s.stopped ≡ false
      → length s.out ≤ budget.max_rows + 1
      → IsWithin budget (step_plain budget s ch)
  unfolding step_plain
  step_plain-IsWithin s ch going h =
      if_cases (IsWithin budget) (nat_eqb ch quote_mark) (inl (going, h)) (
        if_cases (IsWithin budget) (nat_eqb ch b',') (inl (going, h)) (
          if_cases (IsWithin budget) (nat_eqb ch 13) (inl (going, h)) (
            if_cases (IsWithin budget) (nat_eqb ch 10) (end_record-IsWithin s going h)
              (inl (going, h)))))

  step_quoted-IsWithin :
      (s : Splitter) (ch : ℕ) (rest : Text)
      → s.stopped ≡ false
      → length s.out ≤ budget.max_rows + 1
      → IsWithin budget (step_quoted s ch rest)
  unfolding step_quoted
  step_quoted-IsWithin s ch rest going h =
      if_cases (IsWithin budget) (nat_eqb ch quote_mark)
        (if_cases (IsWithin budget) (starts_quote rest) (inl (going, h)) (inl (going, h)))
        (inl (going, h))

  split_step_going :
      (s : Splitter) (ch : ℕ) (rest : Text)
      → s.stopped ≡ false
      → length s.out ≤ budget.max_rows + 1
      → IsWithin budget (
          if s.skipping
          then record s { skipping = false }
          else if s.in_quotes
          then step_quoted s ch rest
          else step_plain budget s ch)
  split_step_going s ch rest going h = if_cases (IsWithin budget) s.skipping (inl (going, h)) (
      if_cases (IsWithin budget) s.in_quotes (step_quoted-IsWithin s ch rest going h)
        (step_plain-IsWithin s ch going h))

  split_step-IsWithin :
      (s : Splitter) (ch : ℕ) (rest : Text)
      → IsWithin budget s
      → IsWithin budget (split_step budget s ch rest)
  unfolding split_step
  split_step-IsWithin s ch rest (inr over) =
      subst (IsWithin budget) (sym (if_true s.stopped _ _ over.0)) (inr over)
  split_step-IsWithin s ch rest (inl (going, h)) =
      if_cases (IsWithin budget) s.stopped (inl (going, h)) (split_step_going s ch rest going h)

  split_loop-IsWithin :
      (s : Splitter) (source : Text)
      → IsWithin budget s
      → IsWithin budget (split_loop budget s source)
  unfolding split_loop
  split_loop-IsWithin s [] h = h
  split_loop-IsWithin s (ch ∷ rest) h =
      split_loop-IsWithin (split_step budget s ch rest) rest (split_step-IsWithin s ch rest h)

  finish_le : (s : Splitter) → IsWithin budget s → length (finish s) ≤ budget.max_rows + 2
  unfolding finish
  finish_le s (inl (going, h)) =
      if_cases (λ (l : List (List Text)). length l ≤ budget.max_rows + 2)
        (has_items s.field || has_items s.record_fields)
        (omega (arith, length-append {0} s.out ((s.record_fields ++ s.field ∷ []) ∷ [])))
        (omega arith)
  finish_le s (inr (over, h, e, f)) =
      let bare : (has_items s.field || has_items s.record_fields) ≡ false =
        ap (λ l. has_items l || has_items s.record_fields) f ∙ ap has_items e in
      subst (λ (l : List (List Text)). length l ≤ budget.max_rows + 2)
        (sym (
          if_false (has_items s.field || has_items s.record_fields)
            (s.out ++ (s.record_fields ++ s.field ∷ []) ∷ []) s.out bare))
        h

  -- Whatever the file, at most two records more than the budget of rows are split off.
  pub split_records_le :
      (source : Text) → length (split_records source budget) ≤ budget.max_rows + 2
  unfolding split_records
  split_records_le source =
      finish_le (split_loop budget new_splitter (without_mark source))
        (split_loop-IsWithin new_splitter (without_mark source) (inl (refl, omega arith)))

abbrev IsCut : TabularBudget → List TabularRow × ℕ → Type 0
IsCut budget (rows, truncated) = (length rows ≤ budget.max_rows) × (truncated ≤ 1)

-- The rows and the records that parseCsv leaves out, from where its loop stands.
read_rows_budget :
    (budget : TabularBudget) (headers : List Text) (i : ℕ) (records : List (List Text))
    (rows : List TabularRow)
    → length rows ≤ budget.max_rows
    → length rows + 1 ≤ i
    → i + length records ≤ budget.max_rows + 2
    → (length (read_rows budget headers i records rows).0 ≤ budget.max_rows)
      × ((read_rows budget headers i records rows).1 ≤ 1)
unfolding read_rows
read_rows_budget budget headers i [] rows h k n = (h, omega arith)
read_rows_budget budget headers i (fields ∷ records) rows h k n =
    elim (Bool-cases (leb budget.max_rows (length rows))) [
      | inl full ↦
          subst (IsCut budget) (sym (if_true (leb budget.max_rows (length rows)) _ _ full))
            (h, ground arith)
      | inr room ↦
          subst (IsCut budget) (sym (if_false (leb budget.max_rows (length rows)) _ _ room))
            (elim (Bool-cases (is_blank_record fields)) [
              | inl bare ↦ rw bare (
                  read_rows_budget budget headers (i + 1) records rows h (omega arith)
                    (omega arith))
              | inr given ↦
                  let row : TabularRow = record {
                    row_number = i + 1;
                    cells = (read_cells budget headers fields ([], [])).0;
                    formula_like = (read_cells budget headers fields ([], [])).1;
                  } in
                  let longer : length (rows ++ row ∷ []) ≡ length rows + 1 =
                    length-append rows (row ∷ []) in
                  rw given (
                    read_rows_budget budget headers (i + 1) records (rows ++ row ∷ [])
                      (ground arith) (omega arith) (omega arith))
            ])
    ]

-- Whatever the file, parseCsv returns no more rows than its budget allows, and it counts at most
-- one row as cut off, however many there were.
pub parse_csv-rows_truncated :
    (source : Text) (budget : TabularBudget)
    → (length (parse_csv source budget).rows ≤ budget.max_rows)
      × ((parse_csv source budget).rows_truncated ≤ 1)
unfolding parse_csv
parse_csv-rows_truncated source budget =
    of (split_records source budget) (split_records_le budget source)
  where
    of :
        (records : List (List Text))
        → length records ≤ budget.max_rows + 2
        → (length (sheet_of records budget).rows ≤ budget.max_rows)
          × ((sheet_of records budget).rows_truncated ≤ 1)
    of [] h = (omega arith, omega arith)
    of (header_record ∷ records) h =
        read_rows_budget budget (name_headers 0 (take budget.max_columns header_record)) 1 records
          [] (omega arith) (omega arith) (omega arith)
