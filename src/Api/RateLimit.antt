-- ===== src/Api/RateLimit.antt =====
-- src/app/api/rate-limit.ts, with the limits of src/platform/config/index.ts.
pub mod Budget
use gldaassurance.Time.{Instant, epoch_ms}
use gldaassurance.Base.{
  leb, List, ℕ, ◌-◌, some, append_text, none, if◌then◌else◌, Bool, String, get, put, ◌+◌, string_eq,
}

pub data RateLimitBucket : Type 0 where
  auth_bucket read_bucket write_bucket assistant_bucket : RateLimitBucket

pub record RateLimitPolicy : Type 0 where
  pub window_ms : ℕ
  pub max_requests : ℕ

-- `RATE_LIMITS`
abbrev pub rate_limits : RateLimitBucket → RateLimitPolicy
rate_limits auth_bucket = record { window_ms = 60000; max_requests = 10 }
rate_limits read_bucket = record { window_ms = 60000; max_requests = 300 }
rate_limits write_bucket = record { window_ms = 60000; max_requests = 30 }
rate_limits assistant_bucket = record { window_ms = 60000; max_requests = 20 }

abbrev pub bucket_name : RateLimitBucket → String
bucket_name auth_bucket = "auth"
bucket_name read_bucket = "read"
bucket_name write_bucket = "write"
bucket_name assistant_bucket = "assistant"

-- `${actorId}:${bucket}`
abbrev pub window_key : String → RateLimitBucket → String
window_key actor_id bucket = append_text (append_text actor_id ":") (bucket_name bucket)

pub record Window : Type 0 where
  pub start : Instant
  pub count : ℕ

-- `FixedWindowRateLimiter`
abbrev pub Limiter : Type 0
Limiter = List (String × Window)

pub data RateCheck : Type 0 where
  allowed : RateCheck
  exceeded : (retry_after_ms : ℕ) → RateCheck

-- `elapsed >= policy.windowMs`, with `elapsed` the milliseconds from the start of the window, a
-- number that is negative where the clock has gone back.
abbrev pub has_elapsed : Window → Instant → ℕ → Bool
has_elapsed w now window_ms = leb (epoch_ms w.start + window_ms) (epoch_ms now)

abbrev pub opened : Instant → Window
opened now = record { start = now; count = 1 }

-- The part of `check` behind the lookup, for a window that is there.
abbrev pub check_window :
    RateLimitPolicy → String → Instant → Limiter → Window → Limiter × RateCheck
check_window policy key now limiter w =
    if has_elapsed w now policy.window_ms
    then (put key (opened now) limiter, allowed)
    else if leb policy.max_requests w.count
    then (limiter, exceeded (epoch_ms w.start + policy.window_ms - epoch_ms now))
    else (put key (record w { count = w.count + 1 }) limiter, allowed)

-- `check`; a window's count is raised in the object that the map holds.
unfoldable pub check : Limiter → String → RateLimitBucket → Instant → Limiter × RateCheck
check limiter actor_id bucket now = elim (get limiter (window_key actor_id bucket)) [
  | none ↦ (put (window_key actor_id bucket) (opened now) limiter, allowed)
  | some w ↦ check_window (rate_limits bucket) (window_key actor_id bucket) now limiter w
]
