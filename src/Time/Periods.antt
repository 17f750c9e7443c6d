-- ===== src/Time/Periods.antt =====
-- src/platform/time/periods.ts. A calendar date is given by the numbers of its text `YYYY-MM-DD`, a
-- week id by those of `YYYY-Www`. Days are counted from 0000-01-01, which is 719528 days before the
-- epoch day of the source: differences are the same, and no day is negative. `Date.UTC` and the
-- getters of `Date` are those of the Gregorian calendar; `Date.UTC` reads the years 0 to 99 as 1900 to
-- 1999.
pub mod Days
pub mod Weeks
pub mod Fiscal
use gldaassurance.Base.{
  ◌/◌, true, ◌+◌, ◌&&◌, ◌+ℤ◌, suc, leb, ltb, ◌||◌, ◌∷◌, [], not, List, String, none, difference,
  ◌%◌, false, nat_eqb, some, ℕ, Bool, Option, ℤ, ◌*◌, zero, if◌then◌else◌, ◌-◌, pos, negsuc,
}

pub record CalendarDate : Type 0 where
  pub year : ℕ
  pub month : ℕ
  pub day : ℕ

pub record WeekId : Type 0 where
  pub iso_year : ℕ
  pub week : ℕ

-- The Gregorian calendar of `Date`.
unfoldable pub is_leap : ℕ → Bool
is_leap y = nat_eqb (y % 4) 0 && (not (nat_eqb (y % 100) 0) || nat_eqb (y % 400) 0)

abbrev pub month_lengths : Bool → List ℕ
month_lengths leap =
    31 ∷ (if leap then 29 else 28) ∷ 31 ∷ 30 ∷ 31 ∷ 30 ∷ 31 ∷ 31 ∷ 30 ∷ 31 ∷ 30 ∷ 31 ∷ []

abbrev pub days_in_year : ℕ → ℕ
days_in_year y = if is_leap y then 366 else 365

unfoldable pub days_before_year : ℕ → ℕ
days_before_year zero = 0
days_before_year (suc y) = days_before_year y + days_in_year y

-- The days of the first months of a list.
abbrev pub sum_first : ℕ → List ℕ → ℕ
sum_first zero ls = 0
sum_first (suc k) [] = 0
sum_first (suc k) (l ∷ ls) = l + sum_first k ls

-- `Date.UTC(y, m - 1, d)`, in days; a month that is none is not given.
abbrev pub utc_year : ℕ → ℕ
utc_year y = if leb y 99 then 1900 + y else y

-- `toEpochDay`
unfoldable pub to_epoch_day : CalendarDate → ℕ
unfolding days_before_year
to_epoch_day d =
    days_before_year (utc_year d.year)
    + sum_first (d.month - 1) (month_lengths (is_leap (utc_year d.year)))
    + (d.day - 1)

-- The year that holds a day, from a year on, and the day's place in it.
unfoldable pub year_from : ℕ → ℕ → ℕ → ℕ × ℕ
year_from zero y n = (y, n)
year_from (suc fuel) y n =
    let rest = year_from fuel (suc y) (n - days_in_year y) in
    if ltb n (days_in_year y) then (y, n) else rest

-- The month that holds a day of the year, from a month on, and the day's place in it.
unfoldable pub find_month : List ℕ → ℕ → ℕ → ℕ × ℕ
find_month [] m n = (m, n)
find_month (l ∷ ls) m n =
    let rest = find_month ls (suc m) (n - l) in if ltb n l then (m, n) else rest

-- The date of a day of a year.
unfoldable pub date_in_year : ℕ × ℕ → CalendarDate
date_in_year (y, in_year) =
    let found = find_month (month_lengths (is_leap y)) 1 in_year in
    record { year = y; month = found.0; day = found.1 + 1 }

-- `fromEpochDay`; a day is reached within as many years as it is days from the start.
unfoldable pub from_epoch_day : ℕ → CalendarDate
from_epoch_day n = date_in_year (year_from (suc n) 0 n)

-- A day, moved by a number of days.
abbrev pub shift : ℕ → ℤ → ℕ
shift n (pos k) = n + k
shift n (negsuc k) = n - suc k

-- `addDays`
unfoldable pub add_days : CalendarDate → ℤ → CalendarDate
add_days d days = from_epoch_day (shift (to_epoch_day d) days)

-- `daysBetween` and `compareDates`
unfoldable pub days_between : CalendarDate → CalendarDate → ℤ
days_between from to = difference (to_epoch_day to) (to_epoch_day from)

-- `isoWeekday`, of a day as it is counted here.
unfoldable pub iso_weekday : ℕ → ℕ
iso_weekday n = (n + 5) % 7 + 1

-- `startOfWeek`
unfoldable pub start_of_week : CalendarDate → CalendarDate
start_of_week d = from_epoch_day (to_epoch_day d - (iso_weekday (to_epoch_day d) - 1))

-- The Monday of the first week of a year, that of January 4th.
unfoldable pub first_monday : ℕ → ℕ
first_monday y =
    let jan4 = to_epoch_day (record { year = y; month = 1; day = 4 }) in
    jan4 - (iso_weekday jan4 - 1)

-- `weekOf`
unfoldable pub week_of : CalendarDate → WeekId
week_of d =
    let monday = to_epoch_day (start_of_week d) in
    let y = (from_epoch_day (monday + 3)).year in
    record { iso_year = y; week = (monday - first_monday y) / 7 + 1 }

-- `startOfWeekId`
unfoldable pub start_of_week_id : WeekId → CalendarDate
start_of_week_id w = from_epoch_day (first_monday w.iso_year + (w.week - 1) * 7)

-- `addWeeks`, with the days that the weeks are.
unfoldable pub add_weeks : WeekId → ℤ → WeekId
add_weeks w (pos n) = week_of (add_days (start_of_week_id w) (pos (n * 7)))
add_weeks w (negsuc n) = week_of (add_days (start_of_week_id w) (negsuc (n * 7 + 6)))

pub data YearLabel : Type 0 where
  start_year end_year : YearLabel

pub record FiscalCalendarDefinition : Type 0 where
  pub start_month : ℕ
  pub year_label_prefix : String
  pub year_labelled_by : YearLabel

-- `fiscalYearOf`
unfoldable pub fiscal_year_of : CalendarDate → FiscalCalendarDefinition → ℕ
fiscal_year_of d cal =
    let start = if leb cal.start_month d.month then d.year else d.year - 1 in
    elim cal.year_labelled_by [ start_year ↦ start | end_year ↦ start + 1 ]

-- `fiscalMonthOf`
unfoldable pub fiscal_month_of : CalendarDate → FiscalCalendarDefinition → ℕ
fiscal_month_of d cal = (d.month + 12 - cal.start_month) % 12 + 1

-- The quarter of `fiscalPeriodOf`, `Math.ceil(month / 3)`.
unfoldable pub fiscal_quarter_of : CalendarDate → FiscalCalendarDefinition → ℕ
unfolding fiscal_month_of
fiscal_quarter_of d cal = (fiscal_month_of d cal + 2) / 3

-- `a <= b` on the texts of two dates.
abbrev pub date_le : CalendarDate → CalendarDate → Bool
date_le a b =
    if ltb a.year b.year
    then true
    else if not (nat_eqb a.year b.year)
    then false
    else if ltb a.month b.month
    then true
    else if not (nat_eqb a.month b.month)
    then false
    else leb a.day b.day

-- `hasOccurredAsOf`
unfoldable pub has_occurred_as_of : Option CalendarDate → CalendarDate → Bool
has_occurred_as_of none as_of = false
has_occurred_as_of (some date) as_of = date_le date as_of

-- `isOpenAsOf`
unfoldable pub is_open_as_of : Option CalendarDate → CalendarDate → Bool
unfolding has_occurred_as_of
is_open_as_of settled_on as_of = not (has_occurred_as_of settled_on as_of)

-- `settledOnAsOf`
unfoldable pub settled_on_as_of : Option CalendarDate → CalendarDate → Option CalendarDate
unfolding has_occurred_as_of
settled_on_as_of settled_on as_of = if has_occurred_as_of settled_on as_of then settled_on else none

-- `isCalendarDate`, of a text of the form `YYYY-MM-DD`: the numbers survive `Date`.
unfoldable pub is_calendar_date : CalendarDate → Bool
is_calendar_date d =
    let back = from_epoch_day (to_epoch_day d) in
    leb 1 d.month
    && leb d.month 12
    && leb 1 d.day
    && leb d.day 31
    && nat_eqb back.year d.year
    && nat_eqb back.month d.month
    && nat_eqb back.day d.day

-- `weeksBetween`, of weeks whose Mondays are whole weeks apart.
unfoldable pub weeks_between : WeekId → WeekId → ℤ
weeks_between from to =
    let a = to_epoch_day (start_of_week_id from) in
    let b = to_epoch_day (start_of_week_id to) in
    if leb a b then pos ((b - a) / 7) else difference 0 ((a - b) / 7)

-- `projectPeriodOf`; no value where it throws `PeriodError`.
unfoldable pub project_period_of : CalendarDate → CalendarDate → Option ℤ
project_period_of d project_start =
    if ltb (to_epoch_day d) (to_epoch_day project_start)
    then none
    else some (weeks_between (week_of project_start) (week_of d) +ℤ pos 1)

-- The array of `trailingWeeks`, from the week that many weeks back on.
unfoldable pub weeks_up_to : WeekId → ℕ → List WeekId
unfolding add_weeks
weeks_up_to end_week zero = []
weeks_up_to end_week (suc back) = add_weeks end_week (difference 0 back) ∷ weeks_up_to end_week back

-- `trailingWeeks`; no value where it throws `PeriodError`.
unfoldable pub trailing_weeks : WeekId → ℕ → Option (List WeekId)
unfolding weeks_up_to
trailing_weeks end_week zero = none
trailing_weeks end_week (suc back) = some (weeks_up_to end_week (suc back))
