-- ===== src/Tests/FileRuns.antt =====
-- Files, dates and weeks.
use gldaassurance.Base.{map, ◌∷◌, All, length, [], List, refl, ◌≡◌, arith, ◌≤◌}
use gldaassurance.Parse.Tabular.{
  end_record, step_plain, step_quoted, Text, TabularBudget, split_step, parse_csv, split_records,
}
use gldaassurance.Parse.Tabular.RoundTrip.{fields_of, split_records-print_csv, print_csv}
use gldaassurance.Parse.Tabular.Cells.{parse_csv-IsSafe, IsSafe}
use gldaassurance.Parse.Tabular.Splitting.{parse_csv-rows_truncated}
use gldaassurance.Time.Periods.{
  from_epoch_day, start_of_week, year_from, date_in_year, start_of_week_id, week_of, iso_weekday,
  CalendarDate, find_month, is_leap, first_monday, to_epoch_day,
}
use gldaassurance.Time.Periods.Days.{IsGregorian}
use gldaassurance.Time.Periods.Weeks.{start_of_week_id-week_of}

abbrev small_budget : TabularBudget
small_budget = record { max_rows = 1; max_columns = 2; max_cell_chars = 10 }

-- The header `a` and a record with a quote, a comma and a line end in its field.
abbrev quoted_table : List (Text × List Text)
quoted_table = ((b'a' ∷ [], []) ∷ (34 ∷ b',' ∷ 10 ∷ [], []) ∷ [])

split_records-print_csv_example :
    split_records (print_csv quoted_table) small_budget ≡ map fields_of quoted_table
split_records-print_csv_example = split_records-print_csv small_budget quoted_table (omega arith)

-- `=1` under the header `a`.
abbrev formula_file : Text
formula_file = b'a' ∷ 10 ∷ b'=' ∷ b'1' ∷ 10 ∷ []

parse_csv-IsSafe_example :
    (length (parse_csv formula_file small_budget).headers ≤ small_budget.max_columns)
    × All (λ row. All (IsSafe small_budget) row.cells) (parse_csv formula_file small_budget).rows
parse_csv-IsSafe_example = parse_csv-IsSafe small_budget formula_file

parse_csv-rows_truncated_example :
    (length (parse_csv formula_file small_budget).rows ≤ small_budget.max_rows)
    × ((parse_csv formula_file small_budget).rows_truncated ≤ 1)
parse_csv-rows_truncated_example = parse_csv-rows_truncated formula_file small_budget

parse_csv_run :
    (parse_csv formula_file small_budget).rows
    ≡ record {
      row_number = 2;
      cells = (b'a' ∷ [], 39 ∷ b'=' ∷ b'1' ∷ []) ∷ [];
      formula_like = (b'a' ∷ []) ∷ [];
    }
      ∷ []
unfolding parse_csv split_step step_quoted step_plain end_record
parse_csv_run = refl

abbrev leap_day : CalendarDate
leap_day = record { year = 2024; month = 2; day = 29 }

leap_day-IsGregorian : IsGregorian leap_day
unfolding is_leap
leap_day-IsGregorian = (omega arith, omega arith, omega arith, 29, refl, omega arith)

start_of_week_id-week_of_example : start_of_week_id (week_of leap_day) ≡ start_of_week leap_day
start_of_week_id-week_of_example =
    (start_of_week_id-week_of leap_day (leap_day-IsGregorian, omega arith)).0

epoch_run : to_epoch_day (record { year = 1970; month = 1; day = 1 }) ≡ 719528
unfolding to_epoch_day is_leap
epoch_run = refl

week_run :
    week_of (record { year = 2027; month = 1; day = 1 }) ≡ record { iso_year = 2026; week = 53 }
unfolding week_of start_of_week first_monday to_epoch_day from_epoch_day date_in_year year_from
    find_month iso_weekday is_leap
week_run = refl
