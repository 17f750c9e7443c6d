-- ===== src/Parse/Tabular/Cells.antt =====
-- tabular.ts: no cell of a sheet that was read is a formula when it is exported.
use gldaassurance.Base.{
  list_eq, nat_eq, ◌≡◌, zero, suc, All-append, if◌then◌else◌, ℕ, false, length, inr, ◌∷◌, ◌≤◌, ◌+◌,
  ap, inl, All, true, ◌++◌, put, if_cases, [], not, refl, leb, List, ◌==◌, ◌⊎◌, Bool-cases, Bool,
  arith, if_split, take, any, nat_eqb, ◌&&◌, All-of_mem, Memᴰ, all_iff, All-mem, ◌||◌, all, any_iff,
  nat_eqb_iff,
}
use gldaassurance.Parse.Tabular.{
  has_execution_prefix, sheet_of, parse_csv, TabularRow, Text, is_blank_record, split_records,
  TabularBudget, name_headers, read_rows, read_cells, neutralise_formula, is_signed_number,
  is_execution_char, is_numeric_char, is_digit_unit,
}
use gldaassurance.Portfolio.Priority.Ranking.{differs}

-- `=`, `+`, `-`, `@`, the tab and the carriage return, by which a spreadsheet begins an expression.
abbrev pub expression_starts : List ℕ
expression_starts = 61 ∷ 43 ∷ 45 ∷ 64 ∷ 9 ∷ 13 ∷ []

-- A digit, or a comma, a point or a space between digits.
abbrev pub IsNumeral : ℕ → Type 0
IsNumeral c = ((48 ≤ c) × (c ≤ 57)) ⊎ Memᴰ c (44 ∷ 46 ∷ 32 ∷ [])

-- A spreadsheet reads no formula in the text: it is empty, it begins with none of those characters,
-- or it is a sign with only digits, commas, points and spaces behind it, a digit among them.
abbrev pub IsInert : Text → Type 0
IsInert [] = Unit {0}
IsInert (c ∷ rest) =
    (Memᴰ c expression_starts → ⊥)
    ⊎ (Memᴰ c (43 ∷ 45 ∷ []) × All IsNumeral rest × ((d : ℕ) × Memᴰ d rest × (48 ≤ d) × (d ≤ 57)))

starts_listed : (c : ℕ) → Memᴰ c expression_starts → is_execution_char c ≡ true
starts_listed c (Memᴰ.head e) = ground arith
starts_listed c (Memᴰ.tail (Memᴰ.head e)) = ground arith
starts_listed c (Memᴰ.tail (Memᴰ.tail (Memᴰ.head e))) = ground arith
starts_listed c (Memᴰ.tail (Memᴰ.tail (Memᴰ.tail (Memᴰ.head e)))) = ground arith
starts_listed c (Memᴰ.tail (Memᴰ.tail (Memᴰ.tail (Memᴰ.tail (Memᴰ.head e))))) = ground arith
starts_listed c (Memᴰ.tail (Memᴰ.tail (Memᴰ.tail (Memᴰ.tail (Memᴰ.tail (Memᴰ.head e)))))) =
    ground arith
starts_listed c (Memᴰ.tail (Memᴰ.tail (Memᴰ.tail (Memᴰ.tail (Memᴰ.tail (Memᴰ.tail x)))))) =
    elim x [ ]

signs_listed : (c : ℕ) → (nat_eqb c 43 || nat_eqb c 45) ≡ true → Memᴰ c (43 ∷ 45 ∷ [])
signs_listed c h = elim (Bool-cases (nat_eqb c 43)) [
  | inl plus_sign ↦ Memᴰ.head ((nat_eqb_iff c 43).0 plus_sign)
  | inr unsigned ↦ Memᴰ.tail (Memᴰ.head (ground arith))
]

numerals_listed : (c : ℕ) → is_numeric_char c ≡ true → IsNumeral c
numerals_listed c h = elim (Bool-cases (is_digit_unit c)) [
  | inl digit ↦ inl (ground arith, ground arith)
  | inr separator ↦ elim (Bool-cases (nat_eqb c 44)) [
    | inl comma ↦ inr (Memᴰ.head (ground arith))
    | inr uncommaed ↦ elim (Bool-cases (nat_eqb c 46)) [
      | inl point ↦ inr (Memᴰ.tail (Memᴰ.head (ground arith)))
      | inr unpointed ↦ inr (Memᴰ.tail (Memᴰ.tail (Memᴰ.head (ground arith))))
    ]
  ]
]

plain-IsInert : (cell : Text) → has_execution_prefix cell ≡ false → IsInert cell
plain-IsInert [] h = tt
plain-IsInert (c ∷ rest) h = inl (λ m. absurd (cc (h, starts_listed c m)))

signed-IsInert : (cell : Text) → is_signed_number cell ≡ true → IsInert cell
signed-IsInert [] h = tt
signed-IsInert (c ∷ rest) h =
    let signed = nat_eqb c 43 || nat_eqb c 45 in
    let (front, some_digit) =
      and_parts (signed && all is_numeric_char rest) (any is_digit_unit rest) h in
    let (sign, numerals) = and_parts signed (all is_numeric_char rest) front in
    let (d, listed, digit) = (any_iff is_digit_unit rest).0 some_digit in
    inr (
      signs_listed c sign,
      All-of_mem IsNumeral rest (λ x m. numerals_listed x (
          All-mem (λ y. is_numeric_char y ≡ true) rest ((all_iff is_numeric_char rest).0 numerals)
            m)),
      (d, listed, ground arith, ground arith),
    )
  where
    and_parts : (a b : Bool) → (a && b) ≡ true → (a ≡ true) × (b ≡ true)
    and_parts true b h = (refl, h)
    and_parts false b h = absurd (cc)

neutralise_formula-IsInert : (value : Text) → IsInert (neutralise_formula value).0
unfolding neutralise_formula
neutralise_formula-IsInert value =
    if_split (λ (r : Text × Bool). IsInert r.0) (not (has_execution_prefix value))
      (λ plain. plain-IsInert value (ground arith))
      (λ _.
        if_split (λ (r : Text × Bool). IsInert r.0) (is_signed_number value) (signed-IsInert value)
          (λ _. plain-IsInert (39 ∷ value) refl))

length-neutralise_formula : (value : Text) → length (neutralise_formula value).0 ≤ length value + 1
unfolding neutralise_formula
length-neutralise_formula value =
    if_cases (λ (r : Text × Bool). length r.0 ≤ length value + 1) (not (has_execution_prefix value))
      (omega arith)
      (if_cases (λ (r : Text × Bool). length r.0 ≤ length value + 1) (is_signed_number value)
        (omega arith) (omega arith))

length-take_le : {A : Type 0} (n : ℕ) (xs : List A) → length (take n xs) ≤ n
length-take_le zero xs = omega arith
length-take_le (suc n) [] = omega arith
length-take_le (suc n) (x ∷ xs) = omega (arith, length-take_le n xs)

-- A cell is inert and within the budget, but for the apostrophe that may stand before it.
abbrev pub IsSafe : TabularBudget → Text × Text → Type 0
IsSafe budget (header, value) = IsInert value × (length value ≤ budget.max_cell_chars + 1)

All-put :
    (P : Text × Text → Type 0) (k v : Text) (m : List (Text × Text))
    → P (k, v)
    → All P m
    → All P (put k v m)
unfolding put
All-put P k v [] p a = (p, tt)
All-put P k v ((j, w) ∷ m) p a = elim (Bool-cases (j == k)) [
  | inl same ↦ rw same (p, a.1)
  | inr differs ↦ rw differs (a.0, All-put P k v m p a.1)
]

module _ (budget : TabularBudget) where
  read_cells-IsSafe :
      (headers fields : List Text) (found : List (Text × Text) × List Text)
      → All (IsSafe budget) found.0
      → All (IsSafe budget) (read_cells budget headers fields found).0
  unfolding read_cells
  read_cells-IsSafe [] fields found a = a
  read_cells-IsSafe (h ∷ hs) [] (cells, marked) a =
      read_cells-IsSafe hs [] (put h [] cells, marked)
        (All-put (IsSafe budget) h [] cells (tt, omega arith) a)
  read_cells-IsSafe (h ∷ hs) (raw ∷ more) (cells, marked) a =
      let cut = take budget.max_cell_chars raw in
      read_cells-IsSafe hs more
        (
          put h (neutralise_formula cut).0 cells,
          if (neutralise_formula cut).1 then marked ++ h ∷ [] else marked,
        )
        (All-put (IsSafe budget) h (neutralise_formula cut).0 cells
          (
            neutralise_formula-IsInert cut,
            omega (arith, length-neutralise_formula cut, length-take_le budget.max_cell_chars raw),
          )
          a)

  read_rows-IsSafe :
      (headers : List Text) (i : ℕ) (records : List (List Text)) (rows : List TabularRow)
      → All (λ row. All (IsSafe budget) row.cells) rows
      → All (λ row. All (IsSafe budget) row.cells) (read_rows budget headers i records rows).0
  unfolding read_rows
  read_rows-IsSafe headers i [] rows a = a
  read_rows-IsSafe headers i (fields ∷ records) rows a =
      if_cases (λ (r : List TabularRow × ℕ). All (λ row. All (IsSafe budget) row.cells) r.0)
        (leb budget.max_rows (length rows)) a
        (read_rows-IsSafe headers (i + 1) records _ (
          if_cases (All (λ row. All (IsSafe budget) row.cells)) (is_blank_record fields) a (
            All-append (λ row. All (IsSafe budget) row.cells) rows _ a
              (read_cells-IsSafe headers fields ([], []) tt, tt))))

  length-name_headers : (i : ℕ) (hs : List Text) → length (name_headers i hs) ≡ length hs
  unfolding name_headers
  length-name_headers i [] = refl
  length-name_headers i (h ∷ hs) = ap suc (length-name_headers (i + 1) hs)

  -- Whatever the file, a sheet has at most the budgeted columns, and every cell of every row that it
  -- holds has at most the budgeted length and one apostrophe, and is no formula to a spreadsheet: it
  -- is empty, begins with none of `=`, `+`, `-`, `@`, tab and carriage return, or is a plus or minus
  -- sign followed only by digits, commas, points and spaces, a digit among them. The headers are not
  -- neutralised.
  pub parse_csv-IsSafe :
      (source : Text)
      → (length (parse_csv source budget).headers ≤ budget.max_columns)
        × All (λ row. All (IsSafe budget) row.cells) (parse_csv source budget).rows
  unfolding parse_csv sheet_of
  parse_csv-IsSafe source = of (split_records source budget)
    where
      of :
          (records : List (List Text))
          → (length (sheet_of records budget).headers ≤ budget.max_columns)
            × All (λ row. All (IsSafe budget) row.cells) (sheet_of records budget).rows
      of [] = (omega arith, tt)
      of (header_record ∷ records) =
          let headers = name_headers 0 (take budget.max_columns header_record) in
          (
            omega (
              arith,
              length-name_headers 0 (take budget.max_columns header_record),
              length-take_le budget.max_columns header_record,
            ),
            read_rows-IsSafe headers 1 records [] tt,
          )
