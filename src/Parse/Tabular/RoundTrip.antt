-- ===== src/Parse/Tabular/RoundTrip.antt =====
-- tabular.ts: the CSV reader reads back what RFC 4180 writes.
use gldaassurance.Base.{
  inr, ◌≡◌, inl, ◌∷◌, [], List, Bool-cases, ◌++◌, true, nat_eqb, false, ◌∙◌, arith, length-append,
  nat_eqb_iff, length, ◌≤◌, refl, if◌then◌else◌, ◌+◌, ltb, map, ap, ℕ,
}
use gldaassurance.Parse.Tabular.{
  split_step, starts_quote, TabularBudget, Splitter, split_loop, Text, step_quoted, end_record,
  step_plain, finish, quote_mark, without_mark, split_records,
}
use mathlib.Core.List.{append-nil, append_assoc}

-- RFC 4180, with every field quoted: a quote inside is doubled, fields stand apart by commas, a
-- record ends with CR LF. Each piece stands in front of what follows it.
abbrev pub escaped : Text → Text → Text
escaped [] rest = rest
escaped (c ∷ cs) rest =
    let later = escaped cs rest in
    if nat_eqb c quote_mark then quote_mark ∷ quote_mark ∷ later else c ∷ later

abbrev pub quoted_field : Text → Text → Text
quoted_field cell rest = quote_mark ∷ escaped cell (quote_mark ∷ rest)

abbrev pub print_record : Text → List Text → Text → Text
print_record cell [] rest = quoted_field cell (13 ∷ 10 ∷ rest)
print_record cell (next ∷ more) rest = quoted_field cell (b',' ∷ print_record next more rest)

-- A record is its first field and the others.
unfoldable pub print_csv : List (Text × List Text) → Text
print_csv [] = []
print_csv ((cell, more) ∷ records) = print_record cell more (print_csv records)

abbrev outside : List (List Text) → List Text → Text → Splitter
outside out fields cell = record {
  out = out;
  record_fields = fields;
  field = cell;
  in_quotes = false;
  skipping = false;
  stopped = false;
}

abbrev inside : List (List Text) → List Text → Text → Splitter
inside out fields cell = record {
  out = out;
  record_fields = fields;
  field = cell;
  in_quotes = true;
  skipping = false;
  stopped = false;
}

module _ (budget : TabularBudget) (out : List (List Text)) where
  step-closing :
      (fields : List Text) (cell rest : Text)
      → starts_quote rest ≡ false
      → split_step budget (inside out fields cell) quote_mark rest ≡ outside out fields cell
  unfolding split_step step_quoted
  step-closing fields cell rest h = rw (h, step_quoted)

  step-inside :
      (fields : List Text) (cell : Text) (c : ℕ) (rest : Text)
      → nat_eqb c quote_mark ≡ false
      → split_step budget (inside out fields cell) c rest ≡ inside out fields (cell ++ c ∷ [])
  unfolding split_step step_quoted
  step-inside fields cell c rest plain = rw (plain, step_quoted)

  -- The text of a quoted field is read up to its closing quote, unless a quote follows.
  loop-escaped :
      (fields : List Text) (cell cs rest : Text)
      → starts_quote rest ≡ false
      → split_loop budget (inside out fields cell) (escaped cs (quote_mark ∷ rest))
        ≡ split_loop budget (outside out fields (cell ++ cs)) rest
  unfolding split_loop split_step step_quoted
  loop-escaped fields cell [] rest h =
      ap (λ s. split_loop budget s rest) (step-closing fields cell rest h) ∙ rw (append-nil cell)
  loop-escaped fields cell (c ∷ cs) rest h = elim (Bool-cases (nat_eqb c quote_mark)) [
    | inl quote ↦
        let e : c ≡ quote_mark = (nat_eqb_iff c quote_mark).0 quote in
        rw e (
          loop-escaped fields (cell ++ quote_mark ∷ []) cs rest h
          ∙ ap (λ l. split_loop budget (outside out fields l) rest)
              (append_assoc cell (quote_mark ∷ []) cs))
    | inr plain ↦ rw plain (
        ap (λ s. split_loop budget s (escaped cs (quote_mark ∷ rest)))
          (step-inside fields cell c (escaped cs (quote_mark ∷ rest)) plain)
        ∙ loop-escaped fields (cell ++ c ∷ []) cs rest h
        ∙ ap (λ l. split_loop budget (outside out fields l) rest) (append_assoc cell (c ∷ []) cs))
  ]

  loop-quoted_field :
      (fields : List Text) (cell rest : Text)
      → starts_quote rest ≡ false
      → split_loop budget (outside out fields []) (quoted_field cell rest)
        ≡ split_loop budget (outside out fields cell) rest
  unfolding split_loop split_step step_plain
  loop-quoted_field fields cell rest h = loop-escaped fields [] cell rest h

  -- A record is read whole, within the budget.
  loop-print_record :
      (fields : List Text) (cell : Text) (more : List Text) (rest : Text)
      → length out ≤ budget.max_rows
      → split_loop budget (outside out fields []) (print_record cell more rest)
        ≡ split_loop budget (outside (out ++ (fields ++ cell ∷ more) ∷ []) [] []) rest
  unfolding split_loop split_step step_plain end_record
  loop-print_record fields cell [] rest h =
      let within : ltb (budget.max_rows + 1) (length (out ++ (fields ++ cell ∷ []) ∷ [])) ≡ false =
        ground (arith, length-append {0} out ((fields ++ cell ∷ []) ∷ [])) in
      loop-quoted_field fields cell (13 ∷ 10 ∷ rest) refl ∙ rw within
  loop-print_record fields cell (next ∷ more) rest h =
      loop-quoted_field fields cell (b',' ∷ print_record next more rest) refl
      ∙ loop-print_record (fields ++ cell ∷ []) next more rest h
      ∙ rw (append_assoc fields (cell ∷ []) (next ∷ more))

abbrev pub fields_of : Text × List Text → List Text
fields_of (cell, more) = cell ∷ more

loop-print_csv :
    (budget : TabularBudget) (out : List (List Text)) (records : List (Text × List Text))
    → length out + length records ≤ budget.max_rows + 1
    → split_loop budget (outside out [] []) (print_csv records)
      ≡ outside (out ++ map fields_of records) [] []
unfolding split_loop print_csv
loop-print_csv budget out [] h = rw (append-nil out)
loop-print_csv budget out ((cell, more) ∷ records) h =
    loop-print_record budget out [] cell more (print_csv records) (omega arith)
    ∙ loop-print_csv budget (out ++ (cell ∷ more) ∷ []) records
        (omega (arith, length-append {0} out ((cell ∷ more) ∷ [])))
    ∙ rw (append_assoc out ((cell ∷ more) ∷ []) (map fields_of records))

without_mark-print_csv :
    (records : List (Text × List Text)) → without_mark (print_csv records) ≡ print_csv records
unfolding print_csv
without_mark-print_csv [] = refl
without_mark-print_csv ((cell, []) ∷ records) = refl
without_mark-print_csv ((cell, next ∷ more) ∷ records) = refl

-- A table that is written as RFC 4180 says, every field quoted, is read back field by field, commas,
-- quotes and line ends within the fields included, where it has a header and at most as many records
-- as the budget allows.
pub split_records-print_csv :
    (budget : TabularBudget) (records : List (Text × List Text))
    → length records ≤ budget.max_rows + 1
    → split_records (print_csv records) budget ≡ map fields_of records
unfolding split_records finish
split_records-print_csv budget records h =
    rw (without_mark-print_csv records) (rw (loop-print_csv budget [] records (omega arith)))
