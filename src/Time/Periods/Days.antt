-- ===== src/Time/Periods/Days.antt =====
-- periods.ts: dates and days determine one another.
use gldaassurance.Base.{
  true, get_elem?, false, ◌≤◌, Bool-cases, ◌∷◌, length, arith, List, ◌≡◌, if_cases, ltb, some, inl,
  ℕ, suc, inr, refl, ◌-◌, if◌then◌else◌, ◌<◌, zero, [], if_split, Bool, ◌+◌, ap, leb, if_false, ◌∙◌,
}
use gldaassurance.Time.Periods.{
  CalendarDate, is_leap, find_month, sum_first, month_lengths, year_from, days_before_year,
  days_in_year, from_epoch_day, to_epoch_day, date_in_year,
}

-- A date of the Gregorian calendar, from the year 100 on.
abbrev pub IsGregorian : CalendarDate → Type 0
IsGregorian d =
    (100 ≤ d.year)
    × (1 ≤ d.month)
    × (1 ≤ d.day)
    × (l : ℕ) × (get_elem? (month_lengths (is_leap d.year)) (d.month - 1) ≡ some l)
    × (d.day ≤ l)

find_month-sum_first :
    (ls : List ℕ) (m k r l : ℕ)
    → get_elem? ls k ≡ some l
    → r < l
    → find_month ls m (sum_first k ls + r) ≡ (m + k, r)
unfolding find_month
find_month-sum_first [] m k r l h small = absurd (cc)
find_month-sum_first (x ∷ ls) m zero r l h small = ground arith
find_month-sum_first (x ∷ ls) m (suc k) r l h small =
    ground (arith, find_month-sum_first ls (suc m) k r l h small)

pub sum_first_le :
    (ls : List ℕ) (k l : ℕ)
    → get_elem? ls k ≡ some l
    → sum_first k ls + l ≤ sum_first (length ls) ls
sum_first_le [] k l h = absurd (cc)
sum_first_le (x ∷ ls) zero l h = ground arith
sum_first_le (x ∷ ls) (suc k) l h = omega (arith, sum_first_le ls k l h)

-- The month that is found and the day's place in it are the day.
abbrev FoundMonth : List ℕ → ℕ → ℕ → ℕ × ℕ → Type 0
FoundMonth ls m n (found, r) =
    (k : ℕ) × (l : ℕ) × (found ≡ m + k)
    × (get_elem? ls k ≡ some l)
    × (r < l)
    × (sum_first k ls + r ≡ n)

find_month-found :
    (ls : List ℕ) (m n : ℕ) → n < sum_first (length ls) ls → FoundMonth ls m n (find_month ls m n)
unfolding find_month
find_month-found [] m n h = absurd (omega arith)
find_month-found (x ∷ ls) m n h =
    if_split (FoundMonth (x ∷ ls) m n) (ltb n x)
      (λ here. (0, x, omega arith, refl, ground arith, omega arith))
      (λ later.
        let (k, l, e, f, small, s) = find_month-found ls (suc m) (n - x) (ground arith) in
        (suc k, l, omega arith, f, small, ground arith))

months_of_year : (leap : Bool) → sum_first 12 (month_lengths leap) ≡ (if leap then 366 else 365)
months_of_year true = refl
months_of_year false = refl

pub months_in_year : (y : ℕ) → sum_first 12 (month_lengths (is_leap y)) ≡ days_in_year y
months_in_year y = months_of_year (is_leap y)

some_days : (y : ℕ) → 0 < days_in_year y
some_days y = if_cases (λ (d : ℕ). 0 < d) (is_leap y) (omega arith) (omega arith)

pub days_before_year_lt :
    (a b : ℕ) → a < b → days_before_year a + days_in_year a ≤ days_before_year b
unfolding days_before_year
days_before_year_lt a zero h = absurd (omega arith)
days_before_year_lt a (suc b) h = elim (Bool-cases (ltb a b)) [
  | inl below ↦ omega (arith, days_before_year_lt a b (ground arith))
  | inr here ↦ let e : a ≡ b = ground arith in rw e (omega arith)
]

-- The year that is found and the day's place in it are the day.
abbrev FoundYear : ℕ → ℕ × ℕ → Type 0
FoundYear n (y, r) = (days_before_year y + r ≡ n) × (r < days_in_year y)

year_from-found :
    (fuel y n : ℕ) → n < fuel → FoundYear (days_before_year y + n) (year_from fuel y n)
unfolding year_from days_before_year
year_from-found zero y n h = absurd (omega arith)
year_from-found (suc fuel) y n h =
    if_split (FoundYear (days_before_year y + n)) (ltb n (days_in_year y))
      (λ here. (refl, ground arith))
      (λ later.
        let enough : days_in_year y ≤ n = ground arith in
        let (e, small) =
          year_from-found fuel (suc y) (n - days_in_year y) (omega (arith, some_days y)) in
        (omega arith, small))

same_year :
    (y y' r r' : ℕ)
    → days_before_year y + r ≡ days_before_year y' + r'
    → r < days_in_year y
    → r' < days_in_year y'
    → y ≡ y'
same_year y y' r r' e h h' =
    trichotomy (λ below. omega (arith, days_before_year_lt y y' below))
      (λ above. omega (arith, days_before_year_lt y' y above))
  where
    trichotomy : (y < y' → ⊥) → (y' < y → ⊥) → y ≡ y'
    trichotomy f g = elim (Bool-cases (ltb y y')) [
      | inl below ↦ absurd (f (ground arith))
      | inr _ ↦ elim (Bool-cases (ltb y' y)) [
        | inl above ↦ absurd (g (ground arith))
        | inr _ ↦ ground arith
      ]
    ]

pub to_epoch_day-parts :
    (d : CalendarDate)
    → 100 ≤ d.year
    → to_epoch_day d
      ≡ days_before_year d.year
        + sum_first (d.month - 1) (month_lengths (is_leap d.year))
        + (d.day - 1)
unfolding to_epoch_day
to_epoch_day-parts d h =
    let modern : leb d.year 99 ≡ false = ground arith in
    ap (λ y. days_before_year y + sum_first (d.month - 1) (month_lengths (is_leap y)) + (d.day - 1))
      (if_false (leb d.year 99) (1900 + d.year) d.year modern)

-- What a date that is made of a day is.
from_epoch_day-made :
    (n : ℕ)
    → (y k r l : ℕ) × (from_epoch_day n ≡ record { year = y; month = suc k; day = r + 1 })
      × (get_elem? (month_lengths (is_leap y)) k ≡ some l)
      × (r < l)
      × (days_before_year y + (sum_first k (month_lengths (is_leap y)) + r) ≡ n)
unfolding from_epoch_day date_in_year days_before_year
from_epoch_day-made n = of (year_from (suc n) 0 n) (year_from-found (suc n) 0 n (omega arith))
  where
    of :
        (found : ℕ × ℕ)
        → FoundYear (0 + n) found
        → (y k r l : ℕ) × (date_in_year found ≡ record { year = y; month = suc k; day = r + 1 })
          × (get_elem? (month_lengths (is_leap y)) k ≡ some l)
          × (r < l)
          × (days_before_year y + (sum_first k (month_lengths (is_leap y)) + r) ≡ n)
    of (y, in_year) (e, small) =
        let (k, l, f, g, inside, s) =
          find_month-found (month_lengths (is_leap y)) 1 in_year
            (omega (arith, months_in_year y)) in
        (
          y,
          k,
          (find_month (month_lengths (is_leap y)) 1 in_year).1,
          l,
          ap
              (λ m. record {
                year = y;
                month = m;
                day = (find_month (month_lengths (is_leap y)) 1 in_year).1 + 1;
              })
              (f ∙ omega arith),
          g,
          inside,
          omega arith,
        )

-- The year of a day is the one that holds it.
year_from_parts :
    (y r : ℕ)
    → r < days_in_year y
    → (n : ℕ) → days_before_year y + r ≡ n
    → year_from (suc n) 0 n ≡ (y, r)
unfolding days_before_year
year_from_parts y r small n e =
    of (year_from (suc n) 0 n) (year_from-found (suc n) 0 n (omega arith))
  where
    of : (found : ℕ × ℕ) → FoundYear (0 + n) found → found ≡ (y, r)
    of (y', r') (e', small') =
        let same : y' ≡ y = same_year y' y r' r (omega arith) small' small in
        let rest : r' ≡ r = omega (arith, ap days_before_year same) in λ i. (same i, rest i)

date_in_year-sum_first :
    (y k r l : ℕ)
    → get_elem? (month_lengths (is_leap y)) k ≡ some l
    → r < l
    → date_in_year (y, sum_first k (month_lengths (is_leap y)) + r)
      ≡ record { year = y; month = suc k; day = r + 1 }
unfolding date_in_year
date_in_year-sum_first y k r l found small =
    ap (λ (f : ℕ × ℕ). let d : CalendarDate = record { year = y; month = f.0; day = f.1 + 1 } in d)
      (find_month-sum_first (month_lengths (is_leap y)) 1 k r l found small
        ∙ (λ i. ((let p : 1 + k ≡ suc k = omega arith in p) i, r)))

pred_suc : (k : ℕ) → suc k - 1 ≡ k
pred_suc k = omega arith

modern_year :
    (y n : ℕ) (r : ℕ)
    → days_before_year 100 ≤ n
    → days_before_year y + r ≡ n
    → r < days_in_year y
    → 100 ≤ y
modern_year y n r h e small = elim (Bool-cases (ltb y 100)) [
  | inl old ↦ absurd (omega (arith, days_before_year_lt y 100 (ground arith)))
  | inr modern ↦ ground arith
]

-- The date of a day of a year from 100 on is a date of the calendar.
pub from_epoch_day-IsGregorian : (n : ℕ) → days_before_year 100 ≤ n → IsGregorian (from_epoch_day n)
from_epoch_day-IsGregorian n h =
    let (y, k, r, l, e, g, inside, s) = from_epoch_day-made n in
    rw e (
      modern_year y n (sum_first k (month_lengths (is_leap y)) + r) h s
          (omega (arith, sum_first_le (month_lengths (is_leap y)) k l g, months_in_year y)),
      omega arith,
      omega arith,
      l,
      rw (pred_suc k) g,
      omega arith,
    )

-- Every day from the year 100 on is the day of the date that is made of it.
pub to_epoch_day-from_epoch_day :
    (n : ℕ) → days_before_year 100 ≤ n → to_epoch_day (from_epoch_day n) ≡ n
to_epoch_day-from_epoch_day n h =
    let (y, k, r, l, e, g, inside, s) = from_epoch_day-made n in
    let modern =
      modern_year y n (sum_first k (month_lengths (is_leap y)) + r) h s
        (omega (arith, sum_first_le (month_lengths (is_leap y)) k l g, months_in_year y)) in
    rw e (
      to_epoch_day-parts (record { year = y; month = suc k; day = r + 1 }) modern
      ∙ rw (pred_suc k) (omega arith))

-- Every date of the Gregorian calendar from the year 100 on is made again of its day.
pub from_epoch_day-to_epoch_day :
    (d : CalendarDate) → IsGregorian d → from_epoch_day (to_epoch_day d) ≡ d
unfolding from_epoch_day
from_epoch_day-to_epoch_day d (modern, m, one, l, found, fits) =
    ap date_in_year (year_from_parts d.year in_year small (to_epoch_day d) whole)
    ∙ date_in_year-sum_first d.year (d.month - 1) (d.day - 1) l found (omega arith)
    ∙ (λ i. record {
      year = d.year;
      month = (let p : suc (d.month - 1) ≡ d.month = omega arith in p) i;
      day = (let p : (d.day - 1) + 1 ≡ d.day = omega arith in p) i;
    })
  where
    ls : List ℕ
    ls = month_lengths (is_leap d.year)

    in_year : ℕ
    in_year = sum_first (d.month - 1) ls + (d.day - 1)

    small : in_year < days_in_year d.year
    small = omega (arith, sum_first_le ls (d.month - 1) l found, months_in_year d.year)

    whole : days_before_year d.year + in_year ≡ to_epoch_day d
    whole = omega (arith, to_epoch_day-parts d modern)

-- The year of a day begins on or before it and ends after it.
pub from_epoch_day-year :
    (n : ℕ)
    → (days_before_year (from_epoch_day n).year ≤ n)
      × (n < days_before_year (from_epoch_day n).year + days_in_year (from_epoch_day n).year)
from_epoch_day-year n =
    let (y, k, r, l, e, g, inside, s) = from_epoch_day-made n in
    let same : (from_epoch_day n).year ≡ y = ap (λ d. d.year) e in
    rw same
      (omega arith, omega (arith, sum_first_le (month_lengths (is_leap y)) k l g, months_in_year y))
