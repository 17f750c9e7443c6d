-- ===== src/Base/Int.antt =====
-- Whole numbers of the sources that may be negative, over the native numbers.
use Prim.Native.Nat.{ℕ, suc, ◌+◌, ◌-◌, compare, Ordering}
use native.Mathlib.Omega.{arith}
use gldaassurance.Base.Tests.{leb, if◌then◌else◌}
use gldaassurance.Base.Orders.{IsComparator}

-- `negsuc n` is -(n + 1).
pub data ℤ : Type 0 where
  pos : ℕ → ℤ
  negsuc : ℕ → ℤ

abbrev pub positive_of : ℤ → ℕ
positive_of (pos n) = n
positive_of (negsuc n) = 0

abbrev pub negative_of : ℤ → ℕ
negative_of (pos n) = 0
negative_of (negsuc n) = suc n

-- a - b
abbrev pub difference : ℕ → ℕ → ℤ
difference a b = if leb b a then pos (a - b) else negsuc (b - a - 1)

infixl 65 ◌+ℤ◌ ◌-ℤ◌
unfoldable pub ◌+ℤ◌ : ℤ → ℤ → ℤ
a +ℤ b = difference (positive_of a + positive_of b) (negative_of a + negative_of b)

unfoldable pub ◌-ℤ◌ : ℤ → ℤ → ℤ
a -ℤ b = difference (positive_of a + negative_of b) (negative_of a + positive_of b)

-- The sign of a - b.
abbrev pub compare_int : ℤ → ℤ → Ordering
compare_int a b = compare (positive_of a + negative_of b) (positive_of b + negative_of a)

pub compare_int-IsComparator : IsComparator compare_int
compare_int-IsComparator = record {
  turns = λ a b. ground arith;
  alike = λ a b c e. ground arith;
  chains = λ a b c p q. ground arith;
}
