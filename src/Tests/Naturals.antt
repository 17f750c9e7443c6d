-- ===== src/Tests/Naturals.antt =====
-- Decimals for the runs: the digits of a text are read as a natural number.
use gldaassurance.Base.{
  ℕ, nat_eqb, leb, ◌+◌, ◌-◌, ◌*◌, false, if◌then◌else◌, ◌/◌, compare_nat, compare_nat-IsComparator,
  nat_text, true,
}
use gldaassurance.Decimals.{DecimalJs, ComparesNumbers}
use gldaassurance.Api.Validation.{digits_value}

abbrev pub naturals : DecimalJs
naturals = record {
  Decimal = ℕ;
  is_number = λ t. true;
  of_text = digits_value 0;
  to_fixed = λ n. if nat_eqb n 0 then "0" else "1";
  to_fixed_places = λ places n. nat_text n;
  plus = λ a b. a + b;
  minus = λ a b. a - b;
  times = λ a b. a * b;
  divided_by = λ a b. a / b;
  smaller = λ a b. if leb a b then a else b;
  larger = λ a b. if leb a b then b else a;
  negated = λ a. 0 - a;
  abs = λ a. a;
  compared_to = compare_nat;
  is_zero = λ a. nat_eqb a 0;
  is_negative = λ a. false;
}

pub naturals-ComparesNumbers : ComparesNumbers naturals
naturals-ComparesNumbers = record { compares = compare_nat-IsComparator }
