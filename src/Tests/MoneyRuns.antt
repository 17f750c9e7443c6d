-- ===== src/Tests/MoneyRuns.antt =====
-- Two amounts in different currencies, and a portfolio of two projects.
use gldaassurance.Base.{
  true, inl, List, nat_eqb, [], String, ◌∷◌, ◌&&◌, ℕ, refl, if◌then◌else◌, if_cases, some, none,
  ◌≡◌, inr,
}
use gldaassurance.Money.{
  Money, FxRate, ConvertedMoney, returns, same_currency, FxRateProvider, spot,
  sum_in_reporting_currency, gbp, eur,
}
use gldaassurance.Decimals.{is_decimal_text}
use gldaassurance.Tests.Naturals.{naturals}
use gldaassurance.Money.Converting.{sum_in_reporting_currency-returns}

abbrev as_given : String → String
as_given s = s

abbrev pounds : Money naturals
pounds = record { amount_value = 5; currency = gbp }

abbrev euros : Money naturals
euros = record { amount_value = 7; currency = eur }

abbrev pound_in_euros : FxRate
pound_in_euros = record {
  rate_from = gbp;
  rate_to = eur;
  rate_text = "2";
  rate_type = spot;
  effective_date = "2026-02-01";
  rate_source = "bank";
}

abbrev one_rate : FxRateProvider
one_rate from to as_of type =
    if same_currency from gbp && same_currency to eur then some pound_in_euros else none

writes_decimals : (n : ℕ) → is_decimal_text (naturals.to_fixed n) ≡ true
unfolding is_decimal_text
writes_decimals n = if_cases (λ (s : String). is_decimal_text s ≡ true) (nat_eqb n 0) refl refl

sum_in_reporting_currency-returns_example :
    (result : Money naturals × List (ConvertedMoney naturals)) × (sum_in_reporting_currency naturals
        as_given
        (euros ∷ pounds ∷ [])
        eur
        "2026-02-01"
        spot
        one_rate
      ≡ returns result)
sum_in_reporting_currency-returns_example =
    let found =
      sum_in_reporting_currency-returns naturals as_given one_rate eur "2026-02-01" spot
        writes_decimals (euros ∷ pounds ∷ [])
        (inl refl, (inr ((λ e. cc), pound_in_euros, refl, refl, refl, refl), tt)) in
    (found.0, found.1)
