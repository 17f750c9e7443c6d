-- ===== src/Time/Periods/Weeks.antt =====
-- periods.ts: a week id names the week that begins on its Monday.
use gldaassurance.Base.{
  ◌%◌, ◌∙◌, ◌<◌, arith, ◌≡◌, ◌*◌, ◌+◌, ◌≤◌, ◌-◌, ap, if_cases, ◌/◌, ℕ, inr, ltb, inl, Bool-cases,
}
use gldaassurance.Time.Periods.{
  to_epoch_day, CalendarDate, start_of_week_id, week_of, days_in_year, iso_weekday, start_of_week,
  first_monday, is_leap, days_before_year, from_epoch_day,
}
use gldaassurance.Time.Periods.Days.{
  to_epoch_day-parts, days_before_year_lt, IsGregorian, to_epoch_day-from_epoch_day,
  from_epoch_day-year, from_epoch_day-IsGregorian,
}

-- The days of the dates at hand: a year past the first that `Date` reads as it is written.
abbrev pub IsModern : CalendarDate → Type 0
IsModern d = IsGregorian d × (101 ≤ d.year)

year_bounds : (y : ℕ) → (365 ≤ days_in_year y) × (days_in_year y ≤ 366)
year_bounds y =
    if_cases (λ (n : ℕ). (365 ≤ n) × (n ≤ 366)) (is_leap y) (omega arith, omega arith)
      (omega arith, omega arith)

days_before_year_mono : (a b : ℕ) → a ≤ b → days_before_year a ≤ days_before_year b
days_before_year_mono a b h = elim (Bool-cases (ltb a b)) [
  | inl below ↦ omega (arith, days_before_year_lt a b (ground arith))
  | inr same ↦ let e : a ≡ b = ground arith in rw e (omega arith)
]

modern_day : (d : CalendarDate) → IsModern d → days_before_year 100 + 365 ≤ to_epoch_day d
modern_day d (g, past) =
    let years = days_before_year_lt 100 d.year (omega arith) in
    omega (arith, to_epoch_day-parts d g.0, year_bounds 100)

abbrev monday_of : ℕ → ℕ
monday_of n = n - (iso_weekday n - 1)

-- The day of the Monday of a date's week, and the weekday of Mondays.
monday-lem :
    (n : ℕ)
    → days_before_year 100 + 365 ≤ n
    → (days_before_year 100 + 358 ≤ monday_of n)
      × (monday_of n ≤ n)
      × (n < monday_of n + 7)
      × ((monday_of n + 5) % 7 ≡ 0)
unfolding iso_weekday
monday-lem n h = (omega arith, omega arith, omega arith, omega arith)

first_monday-lem : (y : ℕ) → 100 ≤ y → (first_monday y ≡ monday_of (days_before_year y + 3))
unfolding first_monday
first_monday-lem y h =
    let jan4 : CalendarDate = record { year = y; month = 1; day = 4 } in
    let day : to_epoch_day jan4 ≡ days_before_year y + 3 =
      to_epoch_day-parts jan4 h ∙ omega arith in
    ap monday_of day

-- A Monday whose Thursday is in the year is a whole number of weeks behind the first Monday.
weeks_apart :
    (start monday : ℕ)
    → 7 ≤ start
    → start ≤ monday + 3
    → monday + 3 < start + 366
    → (monday + 5) % 7 ≡ 0
    → (monday_of (start + 3) + ((monday - monday_of (start + 3)) / 7 + 1 - 1) * 7 ≡ monday)
      × ((monday - monday_of (start + 3)) / 7 + 1 ≤ 53)
unfolding iso_weekday
weeks_apart start monday h a b m = (omega arith, omega arith)

module _ (d : CalendarDate) (modern : IsModern d) where
  monday : ℕ
  monday = monday_of (to_epoch_day d)

  thursday_year : ℕ
  thursday_year = (from_epoch_day (monday + 3)).year

  monday-facts :
      (days_before_year 100 + 358 ≤ monday)
      × (monday ≤ to_epoch_day d)
      × (to_epoch_day d < monday + 7)
      × ((monday + 5) % 7 ≡ 0)
  unfolding monday
  monday-facts = monday-lem (to_epoch_day d) (modern_day d modern)

  day-start_of_week : to_epoch_day (start_of_week d) ≡ monday
  unfolding start_of_week monday
  day-start_of_week = to_epoch_day-from_epoch_day monday (omega (arith, monday-facts))

  thursday_year-facts :
      (100 ≤ thursday_year)
      × (days_before_year 100 ≤ days_before_year thursday_year)
      × (days_before_year thursday_year ≤ monday + 3)
      × (monday + 3 < days_before_year thursday_year + 366)
  unfolding thursday_year
  thursday_year-facts =
      let year = (from_epoch_day (monday + 3)).year in
      let (start, end) = from_epoch_day-year (monday + 3) in
      let greg = from_epoch_day-IsGregorian (monday + 3) (omega (arith, monday-facts)) in
      (greg.0, days_before_year_mono 100 year greg.0, start, omega (arith, year_bounds year))

  week_of-parts : week_of d ≡ record {
    iso_year = thursday_year;
    week = (monday - monday_of (days_before_year thursday_year + 3)) / 7 + 1;
  }
  unfolding week_of thursday_year
  week_of-parts = rw (day-start_of_week, first_monday-lem thursday_year thursday_year-facts.0)

-- Of a date from the year 101 on, the week starts on the Monday on or before it, less than a week
-- before; its week id has a week between 1 and 53, and names that very Monday.
pub start_of_week_id-week_of :
    (d : CalendarDate)
    → IsModern d
    → (start_of_week_id (week_of d) ≡ start_of_week d)
      × (iso_weekday (to_epoch_day (start_of_week d)) ≡ 1)
      × (to_epoch_day (start_of_week d) ≤ to_epoch_day d)
      × (to_epoch_day d < to_epoch_day (start_of_week d) + 7)
      × (1 ≤ (week_of d).week)
      × ((week_of d).week ≤ 53)
unfolding start_of_week_id start_of_week iso_weekday monday
start_of_week_id-week_of d modern =
    let (early, before, after, weekday) = monday-facts d modern in
    let (year, old, start, end) = thursday_year-facts d modern in
    let first = first_monday-lem (thursday_year d modern) year in
    let day = day-start_of_week d modern in
    let (whole, most) =
      weeks_apart (days_before_year (thursday_year d modern)) (monday d modern)
        (omega (arith, days_before_year_lt 0 100 (omega arith), year_bounds 0)) start end weekday in
    (
      rw (week_of-parts d modern) (ap from_epoch_day (rw first whole)),
      rw day (omega arith),
      rw day before,
      rw day after,
      rw (week_of-parts d modern) (omega arith),
      rw (week_of-parts d modern) most,
    )
