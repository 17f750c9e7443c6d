-- ===== src/Money.antt =====
-- src/platform/decimal/money.ts, currency.ts, ratio.ts and fx.ts, and
-- src/contexts/portfolio/internal/aggregation.ts over them. `decimal.js` and `trim` are parameters; what
-- is thrown is an outcome.
pub mod Converting
use gldaassurance.Base.{
  not, map, ◌∷◌, ℕ, ◌++◌, none, nat_eqb, String, Bool, List, if◌then◌else◌, some, [], length,
  Option,
}
use gldaassurance.Decimals.{DecimalJs, is_decimal_text}
use gldaassurance.Parse.Tabular.{trim}

pub data CurrencyCode : Type 0 where
  usd eur gbp inr jpy : CurrencyCode

-- `MINOR_UNITS`
abbrev pub minor_units : CurrencyCode → ℕ
minor_units usd = 2
minor_units eur = 2
minor_units gbp = 2
minor_units inr = 2
minor_units jpy = 0

-- The place in `SUPPORTED_CURRENCIES`.
abbrev pub currency_index : CurrencyCode → ℕ
currency_index usd = 0
currency_index eur = 1
currency_index gbp = 2
currency_index inr = 3
currency_index jpy = 4

-- `a === b`
abbrev pub same_currency : CurrencyCode → CurrencyCode → Bool
same_currency a b = nat_eqb (currency_index a) (currency_index b)

-- What is thrown: `CurrencyMismatchError`, `FxRateMissingError`, `FxRateMismatchError`, and the
-- `TypeError` of an amount that is no decimal, and the error of a scalar that is no number.
pub data MoneyError : Type 0 where
  currency_mismatch : (left right : CurrencyCode) → MoneyError
  rate_missing : (from to : CurrencyCode) (as_of : String) → MoneyError
  rate_mismatch : MoneyError
  invalid_amount invalid_scalar : MoneyError

pub data Outcome {ℓ} (A : Type ℓ) : Type ℓ where
  returns : A → Outcome A
  throws : MoneyError → Outcome A

infixl 5 ◌>>=◌
abbrev pub ◌>>=◌ {ℓ κ} : {A : Type ℓ} {B : Type κ} → Outcome A → (A → Outcome B) → Outcome B
returns a >>= f = f a
throws e >>= f = throws e

pub data NotComputableReason : Type 0 where
  zero_denominator no_baseline insufficient_history : NotComputableReason
  mixed_currency source_unavailable : NotComputableReason

pub record Money (J : DecimalJs) : Type 0 where
  pub amount_value : J.Decimal
  pub currency : CurrencyCode

pub data Ratio (J : DecimalJs) : Type 0 where
  computed : J.Decimal → Ratio J
  incomputable : NotComputableReason → Ratio J

pub data FxRateType : Type 0 where
  spot monthly_average budget closing : FxRateType

pub record FxRate : Type 0 where
  pub rate_from : CurrencyCode
  pub rate_to : CurrencyCode
  pub rate_text : String
  pub rate_type : FxRateType
  pub effective_date : String
  pub rate_source : String

pub record ConvertedMoney (J : DecimalJs) : Type 0 where
  pub original : Money J
  pub reporting_currency : CurrencyCode
  pub normalized : Money J
  pub applied_rate : FxRate

-- `FxRateProvider`
abbrev pub FxRateProvider : Type 0
FxRateProvider = CurrencyCode → CurrencyCode → String → FxRateType → Option FxRate

module _ (J : DecimalJs) where
  -- `Money.zero`
  abbrev pub money_zero : CurrencyCode → Money J
  money_zero c = record { amount_value = J.of_text "0"; currency = c }

  -- `assertSameCurrency` before what follows it.
  abbrev pub in_same_currency {ℓ} : {A : Type ℓ} → Money J → Money J → A → Outcome A
  in_same_currency m addend result =
      if same_currency addend.currency m.currency
      then returns result
      else throws (currency_mismatch m.currency addend.currency)

  -- `plus`
  unfoldable pub money_plus : Money J → Money J → Outcome (Money J)
  money_plus m addend =
      in_same_currency m addend
        (record { amount_value = J.plus m.amount_value addend.amount_value; currency = m.currency })

  -- `minus`
  unfoldable pub money_minus : Money J → Money J → Outcome (Money J)
  money_minus m addend =
      in_same_currency m addend (record {
        amount_value = J.minus m.amount_value addend.amount_value;
        currency = m.currency;
      })

  -- `times`, of a text
  unfoldable pub money_times : Money J → String → Outcome (Money J)
  money_times m scalar =
      if J.is_number scalar
      then returns (record {
        amount_value = J.times m.amount_value (J.of_text scalar);
        currency = m.currency;
      })
      else throws invalid_scalar

  -- `isZero`
  abbrev pub money_is_zero : Money J → Bool
  money_is_zero m = J.is_zero m.amount_value

  -- `dividedBy`
  unfoldable pub money_divided_by : Money J → Money J → Outcome (Ratio J)
  money_divided_by m addend = in_same_currency m addend (
      if money_is_zero addend
      then incomputable zero_denominator
      else computed (J.divided_by m.amount_value addend.amount_value))

  -- `Money.sum`, and `reduce` with `plus` from a value on.
  unfoldable pub sum_onto : Money J → List (Money J) → Outcome (Money J)
  sum_onto total [] = returns total
  sum_onto total (m ∷ rest) = money_plus total m >>= λ t. sum_onto t rest

  unfoldable pub money_sum : List (Money J) → CurrencyCode → Outcome (Money J)
  unfolding sum_onto
  money_sum items c = sum_onto (money_zero c) items

  module _ (trim : String → String) where
    -- `Money.of`
    unfoldable pub money_of : String → CurrencyCode → Outcome (Money J)
    money_of amount c =
        if is_decimal_text (trim amount)
        then returns (record { amount_value = J.of_text (trim amount); currency = c })
        else throws invalid_amount

    -- `convert`
    unfoldable pub convert : Money J → CurrencyCode → FxRate → Outcome (ConvertedMoney J)
    unfolding money_times
    convert amount to rate =
        let converted : Money J → ConvertedMoney J = λ m. record {
          original = amount;
          reporting_currency = to;
          normalized = m;
          applied_rate = rate;
        } in
        if not (same_currency rate.rate_from amount.currency)
        then throws rate_mismatch
        else if not (same_currency rate.rate_to to)
        then throws rate_mismatch
        else if same_currency amount.currency to
        then returns (converted amount)
        else money_times amount rate.rate_text >>= λ product.
            money_of (J.to_fixed product.amount_value) to >>= λ m. returns (converted m)

    -- The rate of an amount, or what is thrown.
    abbrev pub rate_or_throw :
        FxRateProvider → CurrencyCode → CurrencyCode → String → FxRateType → Outcome FxRate
    rate_or_throw provider from to as_of type = elim (provider from to as_of type) [
      | none ↦ throws (rate_missing from to as_of)
      | some rate ↦ returns rate
    ]

    -- The loop of `sumInReportingCurrency`, with the total and the conversions so far.
    unfoldable pub sum_converted :
        FxRateProvider
        → CurrencyCode
        → String
        → FxRateType
        → Money J
        → List (ConvertedMoney J)
        → List (Money J)
        → Outcome (Money J × List (ConvertedMoney J))
    sum_converted provider to as_of type total done [] = returns (total, done)
    sum_converted provider to as_of type total done (amount ∷ rest) =
        let same =
          money_plus total amount >>= λ t. sum_converted provider to as_of type t done rest in
        let foreign = rate_or_throw provider amount.currency to as_of type >>= λ rate.
        convert amount to rate >>= λ c. money_plus total c.normalized >>= λ t.
        sum_converted provider to as_of type t (done ++ c ∷ []) rest in
        if same_currency amount.currency to then same else foreign

    -- `sumInReportingCurrency`
    unfoldable pub sum_in_reporting_currency :
        List (Money J)
        → CurrencyCode
        → String
        → FxRateType
        → FxRateProvider
        → Outcome (Money J × List (ConvertedMoney J))
    unfolding sum_converted
    sum_in_reporting_currency amounts to as_of type provider =
        sum_converted provider to as_of type (money_zero to) [] amounts

-- `ProjectContribution`
pub record ProjectContribution (J : DecimalJs) : Type 0 where
  pub contribution_id : String
  pub contract_value : Money J
  pub forecast_revenue : Money J
  pub estimate_at_completion : Money J
  pub value_at_risk : Money J

pub record PortfolioAggregate (J : DecimalJs) : Type 0 where
  pub total_currency : CurrencyCode
  pub project_count : ℕ
  pub total_contract_value : Money J
  pub total_forecast_revenue : Money J
  pub total_estimate : Money J
  pub forecast_margin : Ratio J
  pub total_value_at_risk : Money J

module _ (J : DecimalJs) where
  -- The margin of `aggregate`.
  unfoldable pub margin_of : Money J → Money J → Outcome (Ratio J)
  margin_of revenue estimate =
      if money_is_zero J revenue
      then returns (incomputable zero_denominator)
      else money_minus J revenue estimate >>= λ m. money_divided_by J m revenue

  -- The result of `aggregate`, of the four totals and the number of projects.
  abbrev pub combine_totals :
      Money J
      → Outcome (Money J)
      → Outcome (Money J)
      → Outcome (Money J)
      → Outcome (Money J)
      → ℕ
      → Outcome (PortfolioAggregate J)
  combine_totals zero_money values revenues estimates risks projects_held = values >>= λ value.
      revenues >>= λ revenue. estimates >>= λ estimate. risks >>= λ risk.
      margin_of revenue estimate >>= λ margin. returns (record {
        total_currency = zero_money.currency;
        project_count = projects_held;
        total_contract_value = value;
        total_forecast_revenue = revenue;
        total_estimate = estimate;
        forecast_margin = margin;
        total_value_at_risk = risk;
      })

  -- `aggregate`
  unfoldable pub aggregate : List (ProjectContribution J) → Money J → Outcome (PortfolioAggregate J)
  unfolding margin_of
  aggregate contributions zero_money =
      combine_totals zero_money (sum_onto J zero_money (map (λ c. c.contract_value) contributions))
        (sum_onto J zero_money (map (λ c. c.forecast_revenue) contributions))
        (sum_onto J zero_money (map (λ c. c.estimate_at_completion) contributions))
        (sum_onto J zero_money (map (λ c. c.value_at_risk) contributions)) (length contributions)
