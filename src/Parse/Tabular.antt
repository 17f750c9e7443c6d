-- ===== src/Parse/Tabular.antt =====
-- src/platform/parse/tabular.ts: the CSV reader and the neutralising of formulas. A text is the list
-- of its UTF-16 code units, as the source indexes it. No header is `__proto__`.
pub mod Splitting
pub mod RoundTrip
pub mod Cells
use gldaassurance.Base.{
  list_eq, nat_eq, Bool, nat_eqb, ◌∷◌, ltb, ◌++◌, suc, true, ◌||◌, any, false, if◌then◌else◌, [], ℕ,
  put, zero, length, not, List, leb, ◌+◌, ◌&&◌, all, ◌%◌, ◌/◌, is_space, take,
}

abbrev pub Text : Type 0
Text = List ℕ

pub record TabularBudget : Type 0 where
  pub max_rows : ℕ
  pub max_columns : ℕ
  pub max_cell_chars : ℕ

-- `DEFAULT_TABULAR_BUDGET`
abbrev pub default_tabular_budget : TabularBudget
default_tabular_budget = record { max_rows = 20000; max_columns = 256; max_cell_chars = 4000 }

pub record TabularRow : Type 0 where
  pub row_number : ℕ
  pub cells : List (Text × Text)
  pub formula_like : List Text

pub record TabularSheet : Type 0 where
  pub headers : List Text
  pub rows : List TabularRow
  pub rows_truncated : ℕ

abbrev pub quote_mark : ℕ
quote_mark = 34

-- The class `[=+\-@\t\r]`.
abbrev pub is_execution_char : ℕ → Bool
is_execution_char c =
    nat_eqb c b'='
    || nat_eqb c b'+'
    || nat_eqb c b'-'
    || nat_eqb c b'@'
    || nat_eqb c 9
    || nat_eqb c 13

-- `EXECUTION_PREFIX.test`
abbrev pub has_execution_prefix : Text → Bool
has_execution_prefix [] = false
has_execution_prefix (c ∷ _) = is_execution_char c

abbrev pub is_digit_unit : ℕ → Bool
is_digit_unit c = leb b'0' c && leb c b'9'

-- The class `[\d,. ]`.
abbrev pub is_numeric_char : ℕ → Bool
is_numeric_char c = is_digit_unit c || nat_eqb c b',' || nat_eqb c b'.' || nat_eqb c b' '

-- `/^[+-][\d,. ]*\d[\d,. ]*$/`: a sign, then only characters of the class, a digit among them.
abbrev pub is_signed_number : Text → Bool
is_signed_number [] = false
is_signed_number (c ∷ rest) =
    (nat_eqb c b'+' || nat_eqb c b'-') && all is_numeric_char rest && any is_digit_unit rest

-- `neutraliseFormula`: the value, and whether it was changed.
unfoldable pub neutralise_formula : Text → Text × Bool
neutralise_formula value =
    if not (has_execution_prefix value)
    then (value, false)
    else if is_signed_number value
    then (value, false)
    else (39 ∷ value, true)

-- The variables of the loop of `splitRecords`. `skipping` stands for the step over the second of two
-- quotes, `stopped` for the `break`.
pub record Splitter : Type 0 where
  pub out : List (List Text)
  pub record_fields : List Text
  pub field : Text
  pub in_quotes : Bool
  pub skipping : Bool
  pub stopped : Bool

abbrev pub new_splitter : Splitter
new_splitter = record {
  out = [];
  record_fields = [];
  field = [];
  in_quotes = false;
  skipping = false;
  stopped = false;
}

abbrev pub starts_quote : Text → Bool
starts_quote [] = false
starts_quote (c ∷ _) = nat_eqb c quote_mark

-- A character between quotes; `rest` is what follows it.
unfoldable pub step_quoted : Splitter → ℕ → Text → Splitter
step_quoted s ch rest =
    if nat_eqb ch quote_mark
    then (if starts_quote rest
        then record s { field = s.field ++ quote_mark ∷ []; skipping = true }
        else record s { in_quotes = false })
    else record s { field = s.field ++ ch ∷ [] }

-- The end of a record, with the stop at the budget.
unfoldable pub end_record : TabularBudget → Splitter → Splitter
end_record budget s =
    let out' = s.out ++ (s.record_fields ++ s.field ∷ []) ∷ [] in
    record s {
      out = out';
      record_fields = [];
      field = [];
      stopped = ltb (budget.max_rows + 1) (length out');
    }

unfoldable pub step_plain : TabularBudget → Splitter → ℕ → Splitter
step_plain budget s ch =
    if nat_eqb ch quote_mark
    then record s { in_quotes = true }
    else if nat_eqb ch b','
    then record s { record_fields = s.record_fields ++ s.field ∷ []; field = [] }
    else if nat_eqb ch 13
    then s
    else if nat_eqb ch 10
    then end_record budget s
    else record s { field = s.field ++ ch ∷ [] }

-- One round of the loop.
unfoldable pub split_step : TabularBudget → Splitter → ℕ → Text → Splitter
split_step budget s ch rest =
    if s.stopped
    then s
    else if s.skipping
    then record s { skipping = false }
    else if s.in_quotes
    then step_quoted s ch rest
    else step_plain budget s ch

unfoldable pub split_loop : TabularBudget → Splitter → Text → Splitter
split_loop budget s [] = s
split_loop budget s (ch ∷ rest) = split_loop budget (split_step budget s ch rest) rest

abbrev pub has_items {ℓ} : {A : Type ℓ} → List A → Bool
has_items [] = false
has_items (_ ∷ _) = true

-- What `splitRecords` returns after the loop.
unfoldable pub finish : Splitter → List (List Text)
finish s =
    if has_items s.field || has_items s.record_fields
    then s.out ++ (s.record_fields ++ s.field ∷ []) ∷ []
    else s.out

-- The byte order mark is dropped.
abbrev pub without_mark : Text → Text
without_mark [] = []
without_mark (c ∷ rest) = if nat_eqb c 65279 then rest else c ∷ rest

-- `splitRecords`
unfoldable pub split_records : Text → TabularBudget → List (List Text)
unfolding split_loop finish
split_records source budget = finish (split_loop budget new_splitter (without_mark source))

unfoldable pub trim_start : Text → Text
trim_start [] = []
trim_start (c ∷ rest) = let later = trim_start rest in if is_space c then later else c ∷ rest

unfoldable pub trim_end : Text → Text
trim_end [] = []
trim_end (c ∷ rest) =
    let later = trim_end rest in if not (has_items later) && is_space c then [] else c ∷ later

-- `trim`
unfoldable pub trim : Text → Text
unfolding trim_start trim_end
trim source = trim_start (trim_end source)

-- `String(n)`: the last digit behind those of the quotient, which fuel `n + 1` reaches.
unfoldable pub decimal_digits : ℕ → ℕ → Text
decimal_digits zero n = []
decimal_digits (suc fuel) n =
    let front = decimal_digits fuel (n / 10) in
    if ltb n 10 then (n + 48) ∷ [] else front ++ (n % 10 + 48) ∷ []

abbrev pub decimal_text : ℕ → Text
decimal_text n = decimal_digits (suc n) n

-- `column_1` and so on, for headers that are blank.
unfoldable pub name_headers : ℕ → List Text → List Text
unfolding trim decimal_digits
name_headers i [] = []
name_headers i (h ∷ hs) =
    (if has_items (trim h)
      then trim h
      else (b'c' ∷ b'o' ∷ b'l' ∷ b'u' ∷ b'm' ∷ b'n' ∷ b'_' ∷ decimal_text (i + 1)))
    ∷ name_headers (i + 1) hs

-- The inner loop of `parseCsv`, over the headers that are left and the cells of the record that
-- are left.
unfoldable pub read_cells :
    TabularBudget
    → List Text
    → List Text
    → List (Text × Text) × List Text
    → List (Text × Text) × List Text
unfolding neutralise_formula put
read_cells budget [] record_cells found = found
read_cells budget (h ∷ hs) [] (cells, formula_like) =
    read_cells budget hs [] (put h [] cells, formula_like)
read_cells budget (h ∷ hs) (raw ∷ more) (cells, formula_like) =
    let (value, changed) = neutralise_formula (take budget.max_cell_chars raw) in
    read_cells budget hs more
      (put h value cells, if changed then formula_like ++ h ∷ [] else formula_like)

-- `record.length === 1 && (record[0] ?? '').trim() === ''`
unfoldable pub is_blank_record : List Text → Bool
unfolding trim
is_blank_record (field ∷ []) = not (has_items (trim field))
is_blank_record _ = false

-- The loop over the records behind the header, with the rows so far: the rows, and the number of
-- records that the budget cut off. `i` is the index of the first record.
unfoldable pub read_rows :
    TabularBudget → List Text → ℕ → List (List Text) → List TabularRow → List TabularRow × ℕ
unfolding read_cells is_blank_record
read_rows budget headers i [] rows = (rows, 0)
read_rows budget headers i (fields ∷ records) rows =
    let found = read_cells budget headers fields ([], []) in
    let row : TabularRow = record { row_number = i + 1; cells = found.0; formula_like = found.1 } in
    let more =
      read_rows budget headers (i + 1) records
        (if is_blank_record fields then rows else rows ++ row ∷ []) in
    if leb budget.max_rows (length rows) then (rows, suc (length records)) else more

-- What `parseCsv` makes of the records.
unfoldable pub sheet_of : List (List Text) → TabularBudget → TabularSheet
unfolding name_headers read_rows
sheet_of [] budget = record { headers = []; rows = []; rows_truncated = 0 }
sheet_of (header_record ∷ records) budget =
    let headers = name_headers 0 (take budget.max_columns header_record) in
    let read = read_rows budget headers 1 records [] in
    record { headers = headers; rows = read.0; rows_truncated = read.1 }

-- `parseCsv`, without the sheet's name.
unfoldable pub parse_csv : Text → TabularBudget → TabularSheet
unfolding split_records sheet_of
parse_csv source budget = sheet_of (split_records source budget) budget
