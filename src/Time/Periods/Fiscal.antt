-- ===== src/Time/Periods/Fiscal.antt =====
-- periods.ts: fiscal years and months, and the order of dates as texts.
use gldaassurance.Base.{
  ◌<◌, ap, ◌-◌, suc, [], ◌+◌, some, ◌≡◌, true, ◌≤◌, ◌*◌, zero, ℕ, List, get_elem?, ◌↔◌, arith, ◌∷◌,
  not, ◌⊎◌, sym, Bool, false, inl, ◌∙◌, if_split, leb, refl, ltb, inr, Bool-cases, nat_eqb,
}
use gldaassurance.Time.Periods.{
  to_epoch_day, is_leap, fiscal_year_of, fiscal_quarter_of, month_lengths, has_occurred_as_of,
  YearLabel, fiscal_month_of, sum_first, days_before_year, start_year, end_year, CalendarDate,
  FiscalCalendarDefinition,
}
use gldaassurance.Time.Periods.Days.{
  days_before_year_lt, months_in_year, IsGregorian, to_epoch_day-parts, sum_first_le,
}
use mathlib.Core.Path.{subst}

abbrev pub label_months : YearLabel → ℕ
label_months start_year = 0
label_months end_year = 12

-- For a calendar that starts in a month of the year, the fiscal month is between 1 and 12 and the
-- quarter between 1 and 4, three months to a quarter, and the fiscal year and month count the same
-- months as the date does.
pub fiscal_year_of-fiscal_month_of :
    (d : CalendarDate) (cal : FiscalCalendarDefinition)
    → 1 ≤ d.year
    → 1 ≤ d.month
    → d.month ≤ 12
    → 1 ≤ cal.start_month
    → cal.start_month ≤ 12
    → (1 ≤ fiscal_month_of d cal)
      × (fiscal_month_of d cal ≤ 12)
      × (3 * fiscal_quarter_of d cal ≤ fiscal_month_of d cal + 2)
      × (fiscal_month_of d cal ≤ 3 * fiscal_quarter_of d cal)
      × (d.year * 12 + d.month + label_months cal.year_labelled_by
          ≡ fiscal_year_of d cal * 12 + cal.start_month + (fiscal_month_of d cal - 1))
unfolding fiscal_year_of fiscal_month_of fiscal_quarter_of
fiscal_year_of-fiscal_month_of d cal y m m' s s' =
    (omega arith, omega arith, omega arith, omega arith, ground arith)

sum_first_lt :
    (ls : List ℕ) (k k' l l' : ℕ)
    → k < k'
    → get_elem? ls k ≡ some l
    → get_elem? ls k' ≡ some l'
    → sum_first k ls + l ≤ sum_first k' ls
sum_first_lt [] k k' l l' h e e' = absurd (cc)
sum_first_lt (x ∷ ls) zero (suc k') l l' h e e' = ground arith
sum_first_lt (x ∷ ls) (suc k) (suc k') l l' h e e' =
    omega (arith, sum_first_lt ls k k' l l' (omega arith) e e')
sum_first_lt (x ∷ ls) k zero l l' h e e' = absurd (omega arith)

module _ (a b : CalendarDate) (ga : IsGregorian a) (gb : IsGregorian b) where
  earlier_year : a.year < b.year → to_epoch_day a < to_epoch_day b
  earlier_year h =
      let (m, p, one, l, found, fits) = ga in
      omega (
        arith,
        to_epoch_day-parts a m,
        to_epoch_day-parts b gb.0,
        days_before_year_lt a.year b.year h,
        sum_first_le (month_lengths (is_leap a.year)) (a.month - 1) l found,
        months_in_year a.year,
      )

  earlier_month : a.year ≡ b.year → a.month < b.month → to_epoch_day a < to_epoch_day b
  earlier_month e h =
      let (m, p, one, l, found, fits) = ga in
      let (m', p', one', l', found', fits') = gb in
      let moved : get_elem? (month_lengths (is_leap a.year)) (b.month - 1) ≡ some l' =
        subst (λ y. get_elem? (month_lengths (is_leap y)) (b.month - 1) ≡ some l') (sym e) found' in
      omega (
        arith,
        to_epoch_day-parts a m,
        to_epoch_day-parts b m',
        ap days_before_year e,
        sum_first_lt (month_lengths (is_leap a.year)) (a.month - 1) (b.month - 1) l l' (omega arith)
            found moved,
        ap (λ y. sum_first (b.month - 1) (month_lengths (is_leap y))) e,
      )

  same_month :
      a.year ≡ b.year
      → a.month ≡ b.month
      → (a.day ≤ b.day → to_epoch_day a ≤ to_epoch_day b)
        × (b.day < a.day → to_epoch_day b < to_epoch_day a)
  same_month e f =
      let (m, p, one, l, found, fits) = ga in
      let (m', p', one', l', found', fits') = gb in
      let start : days_before_year a.year + sum_first (a.month - 1) (month_lengths (is_leap a.year))
          ≡ days_before_year b.year + sum_first (b.month - 1) (month_lengths (is_leap b.year)) =
        λ i. days_before_year (e i) + sum_first (f i - 1) (month_lengths (is_leap (e i))) in
      (
        λ h. omega (arith, to_epoch_day-parts a m, to_epoch_day-parts b m', start),
        λ h. omega (arith, to_epoch_day-parts a m, to_epoch_day-parts b m', start),
      )

-- The texts of two dates of the Gregorian calendar, from the year 100 on, compare as their days do:
-- an event has occurred as of a date exactly where its day is not after that date's.
pub has_occurred_as_of_iff :
    (date as_of : CalendarDate)
    → IsGregorian date
    → IsGregorian as_of
    → (has_occurred_as_of (some date) as_of ≡ true) ↔ (to_epoch_day date ≤ to_epoch_day as_of)
unfolding has_occurred_as_of
has_occurred_as_of_iff date as_of ga gb =
    if_split Agrees (ltb date.year as_of.year)
      (λ h. (λ _. omega (arith, earlier_year date as_of ga gb (ground arith)), λ _. refl))
      (λ not_year.
        if_split Agrees (not (nat_eqb date.year as_of.year))
          (λ h. (
            λ e. absurd (cc),
            λ le. absurd (omega (arith, earlier_year as_of date gb ga (ground arith))),
          ))
          (λ year.
            if_split Agrees (ltb date.month as_of.month)
              (λ h. (
                λ _. omega (arith, earlier_month date as_of ga gb (ground arith) (ground arith)),
                λ _. refl,
              ))
              (λ not_month.
                if_split Agrees (not (nat_eqb date.month as_of.month))
                  (λ h. (
                    λ e. absurd (cc),
                    λ le. absurd (
                        omega
                          (arith, earlier_month as_of date gb ga (ground arith) (ground arith))),
                  ))
                  (λ month.
                    let (up, down) = same_month date as_of ga gb (ground arith) (ground arith) in
                    in_month up down (Bool-cases (leb date.day as_of.day))))))
  where
    Agrees : Bool → Type 0
    Agrees b = (b ≡ true) ↔ (to_epoch_day date ≤ to_epoch_day as_of)

    in_month :
        (date.day ≤ as_of.day → to_epoch_day date ≤ to_epoch_day as_of)
        → (as_of.day < date.day → to_epoch_day as_of < to_epoch_day date)
        → (leb date.day as_of.day ≡ true) ⊎ (leb date.day as_of.day ≡ false)
        → (leb date.day as_of.day ≡ true) ↔ (to_epoch_day date ≤ to_epoch_day as_of)
    in_month up down (inl h) = (λ _. up (ground arith), λ _. h)
    in_month up down (inr h) =
        (λ e. absurd (cc (sym h ∙ e)), λ le. absurd (omega (arith, down (ground arith))))
