-- ===== src/Decimals.antt =====
-- src/platform/decimal/quantity.ts over `decimal.js`, a library that the program only calls. A
-- quantity is a text; what the library makes of it is the record `DecimalJs`, a parameter of all
-- that computes with quantities.
use Prim.Native.Char.{Char, code}
use gldaassurance.Base.{
  ℕ, flipped, [], ◌∷◌, leb, not_after, ◌&&◌, true, if◌then◌else◌, nat_eqb, false, Option, none,
  String, Ordering, on_key-IsComparator, Bool, some, IsComparator, List,
}

-- The members of `Decimal` that the program calls, at its precision and rounding. `is_number` holds
-- of the texts that the constructor reads: it throws on the others, and `of_text` is what it makes of
-- those that it reads. `compared_to` is
-- the sign that `comparedTo` returns, which is never `NaN` on a parsed text; `smaller` and `larger`
-- are the static `min` and `max`, and `to_fixed_places` is `toFixed` with its argument.
pub record DecimalJs : Type 1 where
  pub Decimal : Type 0
  pub is_number : String → Bool
  pub of_text : String → Decimal
  pub to_fixed : Decimal → String
  pub to_fixed_places : ℕ → Decimal → String
  pub plus : Decimal → Decimal → Decimal
  pub minus : Decimal → Decimal → Decimal
  pub times : Decimal → Decimal → Decimal
  pub divided_by : Decimal → Decimal → Decimal
  pub smaller : Decimal → Decimal → Decimal
  pub larger : Decimal → Decimal → Decimal
  pub negated : Decimal → Decimal
  pub abs : Decimal → Decimal
  pub compared_to : Decimal → Decimal → Ordering
  pub is_zero : Decimal → Bool
  pub is_negative : Decimal → Bool

-- What the documentation says of `comparedTo`: it compares the numbers.
pub record ComparesNumbers (J : DecimalJs) : Type 0 where
  pub compares : IsComparator J.compared_to

abbrev pub Quantity : Type 0
Quantity = String

abbrev pub q_zero : Quantity
q_zero = "0"

abbrev pub q_one : Quantity
q_one = "1"

abbrev pub q_hundred : Quantity
q_hundred = "100"

abbrev pub is_decimal_digit : Char → Bool
is_decimal_digit c = leb b'0' (code c) && leb (code c) b'9'

-- The part of `DECIMAL_RE` behind the point: digits, one at least; `some_digit` says that one came.
unfoldable pub fraction_ok : Bool → String → Bool
fraction_ok some_digit String.[] = some_digit
fraction_ok some_digit (String.◌∷◌ c s) = is_decimal_digit c && fraction_ok true s

-- Behind the sign: digits, one at least, then the end or a point and a fraction.
unfoldable pub whole_ok : Bool → String → Bool
unfolding fraction_ok
whole_ok some_digit String.[] = some_digit
whole_ok some_digit (String.◌∷◌ c s) =
    let more = whole_ok true s in
    if is_decimal_digit c then more else some_digit && nat_eqb (code c) b'.' && fraction_ok false s

-- `DECIMAL_RE.test`
unfoldable pub is_decimal_text : String → Bool
unfolding whole_ok
is_decimal_text String.[] = false
is_decimal_text (String.◌∷◌ c s) =
    if nat_eqb (code c) b'-' then whole_ok false s else whole_ok false (String.◌∷◌ c s)

-- `qty`, of a text that is trimmed; `none` where it throws.
unfoldable pub qty : String → Option Quantity
unfolding is_decimal_text
qty trimmed = if is_decimal_text trimmed then some trimmed else none

module _ (J : DecimalJs) where
  -- `qFixed`
  abbrev pub q_fixed : Quantity → ℕ → String
  q_fixed a places = J.to_fixed_places places (J.of_text a)

  abbrev pub q_add : Quantity → Quantity → Quantity
  q_add a b = J.to_fixed (J.plus (J.of_text a) (J.of_text b))

  abbrev pub q_sub : Quantity → Quantity → Quantity
  q_sub a b = J.to_fixed (J.minus (J.of_text a) (J.of_text b))

  abbrev pub q_mul : Quantity → Quantity → Quantity
  q_mul a b = J.to_fixed (J.times (J.of_text a) (J.of_text b))

  -- `qDiv`, with no value for a denominator of zero.
  abbrev pub q_div : Quantity → Quantity → Option Quantity
  q_div a b =
      if J.is_zero (J.of_text b)
      then none
      else some (J.to_fixed (J.divided_by (J.of_text a) (J.of_text b)))

  abbrev pub q_neg : Quantity → Quantity
  q_neg a = J.to_fixed (J.negated (J.of_text a))

  abbrev pub q_abs : Quantity → Quantity
  q_abs a = J.to_fixed (J.abs (J.of_text a))

  abbrev pub q_compare : Quantity → Quantity → Ordering
  q_compare a b = J.compared_to (J.of_text a) (J.of_text b)

  abbrev pub q_is_zero : Quantity → Bool
  q_is_zero a = J.is_zero (J.of_text a)

  abbrev pub q_is_negative : Quantity → Bool
  q_is_negative a = J.is_negative (J.of_text a) && (if J.is_zero (J.of_text a) then false else true)

  -- `qCompare(a, b) <= 0`, `>= 0` and `> 0`
  abbrev pub q_le : Quantity → Quantity → Bool
  q_le a b = not_after (q_compare a b)

  abbrev pub q_ge : Quantity → Quantity → Bool
  q_ge a b = not_after (flipped (q_compare a b))

  abbrev pub q_gt : Quantity → Quantity → Bool
  q_gt a b = elim (q_compare a b) [ Ordering.gt ↦ true | _ ↦ false ]

  abbrev pub q_lt : Quantity → Quantity → Bool
  q_lt a b = elim (q_compare a b) [ Ordering.lt ↦ true | _ ↦ false ]

  abbrev pub q_min : Quantity → Quantity → Quantity
  q_min a b = if q_le a b then a else b

  abbrev pub q_max : Quantity → Quantity → Quantity
  q_max a b = if q_ge a b then a else b

  -- `qClamp`
  unfoldable pub q_clamp : Quantity → Quantity → Quantity → Quantity
  q_clamp v lo hi = q_min (q_max v lo) hi

  -- The two sums of `qWeightedMean`, of the weights and of the weighted values.
  abbrev pub weight_sum : List (Quantity × Quantity) → J.Decimal → J.Decimal
  weight_sum [] sum = sum
  weight_sum ((value, weight) ∷ pairs) sum = weight_sum pairs (J.plus sum (J.of_text weight))

  abbrev pub weighted_sum : List (Quantity × Quantity) → J.Decimal → J.Decimal
  weighted_sum [] sum = sum
  weighted_sum ((value, weight) ∷ pairs) sum =
      weighted_sum pairs (J.plus sum (J.times (J.of_text value) (J.of_text weight)))

  -- `qWeightedMean`; a pair is a value and its weight.
  unfoldable pub q_weighted_mean : List (Quantity × Quantity) → Option Quantity
  q_weighted_mean [] = none
  q_weighted_mean (p ∷ pairs) =
      if J.is_zero (weight_sum (p ∷ pairs) (J.of_text "0"))
      then none
      else some (
          J.to_fixed (
            J.divided_by (weighted_sum (p ∷ pairs) (J.of_text "0"))
              (weight_sum (p ∷ pairs) (J.of_text "0"))))

  -- `qNormaliseScore`; `v.gte` and `v.lte` are signs of `comparedTo`.
  unfoldable pub q_normalise_score : Quantity → Quantity → Quantity → Bool → Quantity
  q_normalise_score value green_edge red_edge higher_is_better =
      let v = J.of_text value in
      let green = J.of_text green_edge in
      let red = J.of_text red_edge in
      let span = if higher_is_better then J.minus green red else J.minus red green in
      let position =
        if higher_is_better
        then J.divided_by (J.minus v red) span
        else J.divided_by (J.minus red v) span in
      if J.is_zero span
      then (if (if higher_is_better then q_ge value green_edge else q_le value green_edge)
          then q_hundred
          else q_zero)
      else J.to_fixed (
          J.times (J.larger (J.of_text "0") (J.smaller (J.of_text "1") position)) (J.of_text "100"))

  pub q_compare-IsComparator : ComparesNumbers J → IsComparator q_compare
  q_compare-IsComparator h = on_key-IsComparator J.of_text J.compared_to h.compares
