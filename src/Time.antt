-- ===== src/Time.antt =====
-- src/platform/time/index.ts: instants and their arithmetic.
-- An instant is a text `YYYY-MM-DDThh:mm:ss`, with an optional fraction of a second, and `Z`. It is
-- given here by the second that it names, counted from the epoch, and by the milliseconds of its
-- fraction, if one is written. For years of four digits the texts sort as `instant_le` says: by the
-- second, then by `.` (0x2E) before `Z` (0x5A). A fraction has three digits, as `toISOString` writes.
pub mod Laws
pub mod Periods
use gldaassurance.Base.{
  ℕ, ◌+◌, ◌*◌, ◌/◌, ◌%◌, Bool, true, false, Option, none, some, ltb, leb, nat_eqb, if◌then◌else◌,
}

pub record Instant : Type 0 where
  pub second : ℕ
  pub fraction : Option ℕ

-- Which of two renderings of one second sorts first.
abbrev pub fraction_le : Option ℕ → Option ℕ → Bool
fraction_le none none = true
fraction_le none (some g) = false
fraction_le (some f) none = true
fraction_le (some f) (some g) = leb f g

-- `a <= b` on the texts.
abbrev pub instant_le : Instant → Instant → Bool
instant_le a b =
    if ltb a.second b.second
    then true
    else if nat_eqb a.second b.second
    then fraction_le a.fraction b.fraction
    else false

abbrev pub fraction_ms : Option ℕ → ℕ
fraction_ms none = 0
fraction_ms (some f) = f

-- `Date.parse`
abbrev pub epoch_ms : Instant → ℕ
epoch_ms t = t.second * 1000 + fraction_ms t.fraction

-- `new Date(ms).toISOString()`, which always writes the fraction.
abbrev pub to_instant : ℕ → Instant
to_instant ms = record { second = ms / 1000; fraction = some (ms % 1000) }

-- `instantPlusMs`
abbrev pub instant_plus_ms : Instant → ℕ → Instant
instant_plus_ms from ms = to_instant (epoch_ms from + ms)

-- `earlier`
abbrev pub earlier : Instant → Instant → Instant
earlier a b = if instant_le a b then a else b
