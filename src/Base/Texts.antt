-- ===== src/Base/Texts.antt =====
-- The decimal text of a number, `String(n)` of the sources.
use Prim.Native.Nat.{ℕ, zero, suc, ◌/◌, ◌%◌}
use Prim.Native.String.{String, ◌++◌}
use gldaassurance.Base.Tests.{if◌then◌else◌, ltb, nat_eqb}

abbrev pub digit_text : ℕ → String
digit_text d =
    if nat_eqb d 0
    then "0"
    else if nat_eqb d 1
    then "1"
    else if nat_eqb d 2
    then "2"
    else if nat_eqb d 3
    then "3"
    else if nat_eqb d 4
    then "4"
    else if nat_eqb d 5
    then "5"
    else if nat_eqb d 6
    then "6"
    else if nat_eqb d 7
    then "7"
    else if nat_eqb d 8
    then "8"
    else "9"

-- As many rounds as the number is large are more than it has digits.
unfoldable pub digits_of : ℕ → ℕ → String
digits_of zero n = ""
digits_of (suc fuel) n =
    let front = digits_of fuel (n / 10) in
    if ltb n 10 then digit_text n else front ++ digit_text (n % 10)

unfoldable pub nat_text : ℕ → String
unfolding digits_of
nat_text n = digits_of (suc n) n
