-- ===== src/Money/Converting.antt =====
-- fx.ts: no amount enters a total in another currency without a rate.
use mathlib.Core.Path.{subst}
use gldaassurance.Base.{
  refl, ◌∙◌, ◌≡◌, ◌⊎◌, true, not, filter, sym, some, All, String, ◌↔◌, ◌≢◌, if_true, arith, List,
  if_false, false, Bool-cases, ap, inl, inr, ◌++◌, map, ◌∷◌, [], All-append,
}
use gldaassurance.Money.{
  ConvertedMoney, FxRateType, same_currency, money_times, convert, CurrencyCode, FxRateProvider,
  money_plus, money_of, returns, Money, FxRate, ◌>>=◌, sum_converted, Outcome, money_zero,
  sum_in_reporting_currency, rate_or_throw, invalid_scalar, throws,
}
use gldaassurance.Decimals.{is_decimal_text, DecimalJs}
use mathlib.Core.List.{append-nil, append_assoc, map-append}
use gldaassurance.Parse.Tabular.{trim}

pub same_currency_iff : (a b : CurrencyCode) → (same_currency a b ≡ true) ↔ (a ≡ b)
same_currency_iff a b = ground arith

differs_currency : (a b : CurrencyCode) → a ≢ b → same_currency a b ≡ false
differs_currency a b ne = elim (Bool-cases (same_currency a b)) [
  | inl same ↦ absurd (ne ((same_currency_iff a b).0 same))
  | inr differs' ↦ differs'
]

module _ (J : DecimalJs) (trim : String → String) (provider : FxRateProvider) (to : CurrencyCode)
    (as_of : String) (type : FxRateType) where
  -- The amount is in the reporting currency, or the provider has a rate of exactly that pair, which
  -- is written as a number.
  abbrev pub HasRate : Money J → Type 0
  HasRate amount =
      (amount.currency ≡ to)
      ⊎ ((amount.currency ≢ to)
          × (rate : FxRate) × (provider amount.currency to as_of type ≡ some rate)
          × (rate.rate_from ≡ amount.currency)
          × (rate.rate_to ≡ to)
          × (J.is_number rate.rate_text ≡ true))

  -- What an amount at a rate comes to: the product as `toFixed` writes it, read again.
  abbrev pub at_rate : Money J → FxRate → J.Decimal
  at_rate amount rate =
      J.of_text (trim (J.to_fixed (J.times amount.amount_value (J.of_text rate.rate_text))))

  -- From `start`, each amount in turn is added: as it is in the reporting currency, and at the rate
  -- that the provider has for it in another.
  abbrev pub SumsTo : J.Decimal → List (Money J) → J.Decimal → Type 0
  SumsTo start [] end = start ≡ end
  SumsTo start (amount ∷ rest) end =
      ((amount.currency ≡ to) × SumsTo (J.plus start amount.amount_value) rest end)
      ⊎ ((amount.currency ≢ to)
          × (rate : FxRate) × (provider amount.currency to as_of type ≡ some rate)
          × SumsTo (J.plus start (at_rate amount rate)) rest end)

  -- The amounts that have to be converted.
  abbrev pub foreign_amounts : List (Money J) → List (Money J)
  foreign_amounts = filter (λ m. not (same_currency m.currency to))

  -- The sum so far is in the reporting currency, and what was converted is too.
  abbrev pub IsReported : Money J × List (ConvertedMoney J) → Type 0
  IsReported (total, done) = (total.currency ≡ to) × All (λ c. c.normalized.currency ≡ to) done

  -- A total with the conversions that an amount was added to.
  money_plus-returns :
      (m n : Money J)
      → m.currency ≡ to
      → n.currency ≡ to
      → money_plus J m n
        ≡ returns
            (record { amount_value = J.plus m.amount_value n.amount_value; currency = m.currency })
  unfolding money_plus
  money_plus-returns m n p q =
      if_true (same_currency n.currency m.currency) _ _
        ((same_currency_iff n.currency m.currency).1 (q ∙ sym p))

  module _ (writes : (x : J.Decimal) → is_decimal_text (trim (J.to_fixed x)) ≡ true) where
    money_of-to_fixed :
        (x : J.Decimal)
        → money_of J trim (J.to_fixed x) to
          ≡ returns (record { amount_value = J.of_text (trim (J.to_fixed x)); currency = to })
    unfolding money_of
    money_of-to_fixed x = if_true (is_decimal_text (trim (J.to_fixed x))) _ _ (writes x)

    -- A rate of the pair converts.
    convert-returns :
        (amount : Money J) (rate : FxRate)
        → amount.currency ≢ to
        → rate.rate_from ≡ amount.currency
        → rate.rate_to ≡ to
        → J.is_number rate.rate_text ≡ true
        → (c : ConvertedMoney J) × (convert J trim amount to rate ≡ returns c)
          × (c.original ≡ amount)
          × (c.normalized.currency ≡ to)
          × (c.normalized.amount_value ≡ at_rate amount rate)
    unfolding convert money_times
    convert-returns amount rate foreign from target number =
        let product = J.times amount.amount_value (J.of_text rate.rate_text) in
        let scaled : Money J = record { amount_value = product; currency = amount.currency } in
        let made : Money J → ConvertedMoney J = λ m. record {
          original = amount;
          reporting_currency = to;
          normalized = m;
          applied_rate = rate;
        } in
        let m : Money J = record {
          amount_value = J.of_text (trim (J.to_fixed product));
          currency = to;
        } in
        (
          made m,
          if_false (not (same_currency rate.rate_from amount.currency)) _ _
                (ap not ((same_currency_iff rate.rate_from amount.currency).1 from))
              ∙ if_false (not (same_currency rate.rate_to to)) _ _
                  (ap not ((same_currency_iff rate.rate_to to).1 target))
              ∙ if_false (same_currency amount.currency to) _ _
                  (differs_currency amount.currency to foreign)
              ∙ ap
                  (λ (o : Outcome (Money J)). o >>= λ p.
                    money_of J trim (J.to_fixed p.amount_value) to >>= λ x. returns (made x))
                  (if_true (J.is_number rate.rate_text) (returns scaled) (throws invalid_scalar)
                    number)
              ∙ ap (λ (o : Outcome (Money J)). o >>= λ x. returns (made x))
                  (money_of-to_fixed product),
          refl,
          refl,
          refl,
        )

    abbrev added : Money J → Money J → Money J
    added m n = record {
      amount_value = J.plus m.amount_value n.amount_value;
      currency = m.currency;
    }

    sum_converted-same :
        (total : Money J) (done : List (ConvertedMoney J)) (amount : Money J)
        (rest : List (Money J))
        → total.currency ≡ to
        → amount.currency ≡ to
        → sum_converted J trim provider to as_of type total done (amount ∷ rest)
          ≡ sum_converted J trim provider to as_of type (added total amount) done rest
    unfolding sum_converted
    sum_converted-same total done amount rest c same =
        if_true (same_currency amount.currency to) _ _
          ((same_currency_iff amount.currency to).1 same)
        ∙ ap
            (λ (o : Outcome (Money J)).
              o >>= λ t. sum_converted J trim provider to as_of type t done rest)
            (money_plus-returns total amount c same)

    rate_or_throw-returns :
        (from : CurrencyCode) (rate : FxRate)
        → provider from to as_of type ≡ some rate
        → rate_or_throw J trim provider from to as_of type ≡ returns rate
    rate_or_throw-returns from rate found = rw (found, rate_or_throw)

    sum_converted-foreign :
        (total : Money J) (done : List (ConvertedMoney J)) (amount : Money J)
        (rest : List (Money J)) (rate : FxRate) (c : ConvertedMoney J)
        → total.currency ≡ to
        → amount.currency ≢ to
        → provider amount.currency to as_of type ≡ some rate
        → convert J trim amount to rate ≡ returns c
        → c.normalized.currency ≡ to
        → sum_converted J trim provider to as_of type total done (amount ∷ rest)
          ≡ sum_converted J trim provider to as_of type
              (added total c.normalized)
              (done ++ c ∷ [])
              rest
    unfolding sum_converted
    sum_converted-foreign total done amount rest rate c p foreign found made q =
        let next : ConvertedMoney J → Outcome (Money J × List (ConvertedMoney J)) = λ x.
          money_plus J total x.normalized >>= λ t.
          sum_converted J trim provider to as_of type t (done ++ x ∷ []) rest in
        if_false (same_currency amount.currency to) _ _
          (differs_currency amount.currency to foreign)
        ∙ ap (λ (o : Outcome FxRate). o >>= λ r. convert J trim amount to r >>= next)
            (rate_or_throw-returns amount.currency rate found)
        ∙ ap (λ (o : Outcome (ConvertedMoney J)). o >>= next) made
        ∙ ap
            (λ (o : Outcome (Money J)).
              o >>= λ t. sum_converted J trim provider to as_of type t (done ++ c ∷ []) rest)
            (money_plus-returns total c.normalized p q)

    -- The sum goes through where every amount has a rate.
    sum_converted-returns :
        (total : Money J) (done : List (ConvertedMoney J)) (amounts : List (Money J))
        → IsReported (total, done)
        → All HasRate amounts
        → (result : Money J × List (ConvertedMoney J)) × (sum_converted J trim provider to as_of
              type total done amounts
            ≡ returns result)
          × IsReported result
          × SumsTo total.amount_value amounts result.0.amount_value
          × (map (λ c. c.original) result.1 ≡ map (λ c. c.original) done ++ foreign_amounts amounts)
    unfolding sum_converted
    sum_converted-returns total done [] reported rates =
        ((total, done), refl, reported, refl, sym (append-nil (map (λ c. c.original) done)))
    sum_converted-returns total done (amount ∷ rest) (c, d) (inl same, rates) =
        let (result, e, reported, sums, listed) =
          sum_converted-returns (added total amount) done rest (c, d) rates in
        (
          result,
          sum_converted-same total done amount rest c same ∙ e,
          reported,
          inl (same, sums),
          listed
              ∙ ap (λ l. map (λ x. x.original) done ++ l)
                  (sym (
                    if_false (not (same_currency amount.currency to)) _ _
                      (ap not ((same_currency_iff amount.currency to).1 same)))),
        )
    sum_converted-returns total done (amount ∷ rest) (c, d)
          (inr (foreign, rate, found, from, target, number), rates) =
        let (converted, made, origin, target', worth) =
          convert-returns amount rate foreign from target number in
        let (result, e, reported, sums, listed) =
          sum_converted-returns (added total converted.normalized) (done ++ converted ∷ []) rest
            (c, All-append _ done (converted ∷ []) d (target', tt)) rates in
        (
          result,
          sum_converted-foreign total done amount rest rate converted c foreign found made target'
              ∙ e,
          reported,
          inr (
            foreign,
            rate,
            found,
            subst (λ x. SumsTo (J.plus total.amount_value x) rest result.0.amount_value) worth sums,
          ),
          listed
              ∙ ap (λ l. l ++ foreign_amounts rest)
                  (map-append (λ x. x.original) done (converted ∷ []))
              ∙ append_assoc (map (λ x. x.original) done) (converted.original ∷ [])
                  (foreign_amounts rest)
              ∙ ap (λ x. map (λ y. y.original) done ++ x ∷ foreign_amounts rest) origin
              ∙ ap (λ l. map (λ x. x.original) done ++ l)
                  (sym (
                    if_true (not (same_currency amount.currency to)) _ _
                      (ap not (differs_currency amount.currency to foreign)))),
        )

-- Where toFixed writes a plain decimal and every amount is in the reporting currency or has a rate
-- of exactly its pair that is written as a number, the sum is returned: it is in the reporting
-- currency; its amount is what comes of adding to zero each amount in turn, as it is or at its rate;
-- and its conversions are those of the amounts in other currencies, in their order, each into the
-- reporting currency.
pub sum_in_reporting_currency-returns :
    (J : DecimalJs) (trim : String → String) (provider : FxRateProvider) (to : CurrencyCode)
    (as_of : String) (type : FxRateType)
    → ((x : J.Decimal) → is_decimal_text (trim (J.to_fixed x)) ≡ true)
    → (amounts : List (Money J)) → All (HasRate J trim provider to as_of type) amounts
    → (result : Money J × List (ConvertedMoney J)) × (sum_in_reporting_currency J trim amounts to
          as_of type provider
        ≡ returns result)
      × (result.0.currency ≡ to)
      × SumsTo J trim provider to as_of type (J.of_text "0") amounts result.0.amount_value
      × All (λ c. c.normalized.currency ≡ to) result.1
      × (map (λ c. c.original) result.1 ≡ filter (λ m. not (same_currency m.currency to)) amounts)
unfolding sum_in_reporting_currency
sum_in_reporting_currency-returns J trim provider to as_of type writes amounts rates =
    let (result, e, (c, d), sums, listed) =
      sum_converted-returns J trim provider to as_of type writes (money_zero J to) [] amounts
        (refl, tt) rates in
    (result, e, c, sums, d, listed)
