-- ===== src/Time/Laws.antt =====
-- The order of the texts against the order of the moments that they name.
use gldaassurance.Base.{ℕ, ◌+◌, ◌≤◌, ◌<◌, ◌≡◌, true, false, Option, none, some, arith, leb, min}
use gldaassurance.Time.{Instant, instant_le, epoch_ms, instant_plus_ms, earlier, fraction_ms}

-- A fraction that is written is below one second.
abbrev pub IsInstant : Instant → Type 0
IsInstant t = fraction_ms t.fraction < 1000

abbrev StylesAgree : Option ℕ → Option ℕ → Type 0
StylesAgree none none = Unit
StylesAgree (some f) (some g) = Unit
StylesAgree _ _ = ⊥

-- Both instants are written with a fraction of a second, or neither is.
abbrev pub SameStyle : Instant → Instant → Type 0
SameStyle a b = StylesAgree a.fraction b.fraction

pub instant_le_refl : (a : Instant) → instant_le a a ≡ true
instant_le_refl a = ground arith

pub instant_le_trans :
    (a b c : Instant) → instant_le a b ≡ true → instant_le b c ≡ true → instant_le a c ≡ true
instant_le_trans a b c h k = ground arith

pub instant_le_total : (a b : Instant) → instant_le a b ≡ false → instant_le b a ≡ true
instant_le_total a b h = ground arith

pub instant_le_iff :
    (a b : Instant)
    → IsInstant a
    → IsInstant b
    → SameStyle a b
    → instant_le a b ≡ leb (epoch_ms a) (epoch_ms b)
instant_le_iff a b va vb s = ground arith

-- A text that is not after another names no moment that is a whole second later or more.
pub instant_le-ms :
    (a b : Instant) → IsInstant a → instant_le a b ≡ true → epoch_ms a ≤ epoch_ms b + 999
instant_le-ms a b va h = ground arith

pub epoch_ms-plus : (t : Instant) (ms : ℕ) → epoch_ms (instant_plus_ms t ms) ≡ epoch_ms t + ms
epoch_ms-plus t ms = omega arith

-- A moment at or after `t` plus `ms` sorts so too, in whichever style it is written.
pub instant_le-plus :
    (t later : Instant) (ms : ℕ)
    → IsInstant later
    → epoch_ms t + ms ≤ epoch_ms later
    → instant_le (instant_plus_ms t ms) later ≡ true
instant_le-plus t later ms v h = ground arith

pub earlier-le : (a b : Instant) → instant_le (earlier a b) b ≡ true
earlier-le a b = ground arith

-- `earlier` names the smaller moment where both instants are well-formed and written in one style.
pub earlier-min :
    (a b : Instant)
    → IsInstant a
    → IsInstant b
    → SameStyle a b
    → epoch_ms (earlier a b) ≡ min (epoch_ms a) (epoch_ms b)
earlier-min a b va vb s = ground arith
