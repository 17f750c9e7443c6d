-- ===== src/Api/RateLimit/Budget.antt =====
-- How many requests a window lets through.
use native.Mathlib.Decide.{dec_lt}
use gldaassurance.Base.{
  ℕ, List, ◌-◌, min, some, ◌∷◌, arith, [], false, All, length, String, suc, get, ◌≡◌, string_eq,
  ◌≤◌, ◌+◌, put, get-put_self, leb, true, ◌<◌, Bool-cases, inr, inl, Option-cases, refl,
}
use gldaassurance.Time.{Instant, epoch_ms}
use gldaassurance.Api.RateLimit.{
  allowed, Limiter, has_elapsed, window_key, exceeded, RateLimitBucket, Window, rate_limits, check,
  opened, RateCheck,
}
use gldaassurance.Access.Policy.{answer}

abbrev tally : RateCheck → ℕ → ℕ
tally allowed passed = suc passed
tally (exceeded _) passed = passed

-- The requests of one actor in one bucket at the given instants, in their order; the limiter
-- afterwards, and the number of those that were allowed.
unfoldable pub check_all : Limiter → String → RateLimitBucket → List Instant → Limiter × ℕ
check_all limiter actor_id bucket [] = (limiter, 0)
check_all limiter actor_id bucket (now ∷ later) =
    let (limiter', answer) = check limiter actor_id bucket now in
    let (end, passed) = check_all limiter' actor_id bucket later in (end, tally answer passed)

check_all-cons :
    (limiter : Limiter) (actor_id : String) (bucket : RateLimitBucket) (now : Instant)
    (later : List Instant)
    → (check_all limiter actor_id bucket (now ∷ later)).1
      ≡ tally
          (check limiter actor_id bucket now).1
          (check_all (check limiter actor_id bucket now).0 actor_id bucket later).1
unfolding check_all
check_all-cons limiter actor_id bucket now later = refl

check_all-nil :
    (limiter : Limiter) (actor_id : String) (bucket : RateLimitBucket)
    → (check_all limiter actor_id bucket []).1 ≡ 0
unfolding check_all
check_all-nil limiter actor_id bucket = refl

check_open :
    (limiter : Limiter) (actor_id : String) (bucket : RateLimitBucket) (w : Window) (now : Instant)
    → get limiter (window_key actor_id bucket) ≡ some w
    → has_elapsed w now (rate_limits bucket).window_ms ≡ false
    → w.count < (rate_limits bucket).max_requests
    → check limiter actor_id bucket now
      ≡ (put (window_key actor_id bucket) (record w { count = w.count + 1 }) limiter, allowed)
unfolding check
check_open limiter actor_id bucket w now h is_open room =
    let some_left : leb (rate_limits bucket).max_requests w.count ≡ false = ground arith in
    rw (h, check) (rw (is_open, some_left))

check_full :
    (limiter : Limiter) (actor_id : String) (bucket : RateLimitBucket) (w : Window) (now : Instant)
    → get limiter (window_key actor_id bucket) ≡ some w
    → has_elapsed w now (rate_limits bucket).window_ms ≡ false
    → (rate_limits bucket).max_requests ≤ w.count
    → check limiter actor_id bucket now
      ≡ (limiter, exceeded (epoch_ms w.start + (rate_limits bucket).window_ms - epoch_ms now))
unfolding check
check_full limiter actor_id bucket w now h is_open full =
    let none_left : leb (rate_limits bucket).max_requests w.count ≡ true = ground arith in
    rw (h, check) (rw (is_open, none_left))

-- Of the requests that come while a window is open, as many are allowed as its budget still holds,
-- or all of them where they are fewer.
pub check_all-passed :
    (limiter : Limiter) (actor_id : String) (bucket : RateLimitBucket) (w : Window)
    (requests : List Instant)
    → get limiter (window_key actor_id bucket) ≡ some w
    → All (λ now. has_elapsed w now (rate_limits bucket).window_ms ≡ false) requests
    → (check_all limiter actor_id bucket requests).1
      ≡ min (length requests) ((rate_limits bucket).max_requests - w.count)
check_all-passed limiter actor_id bucket w [] h within =
    omega (arith, check_all-nil limiter actor_id bucket)
check_all-passed limiter actor_id bucket w (now ∷ later) h within =
    let key = window_key actor_id bucket in
    elim (dec_lt w.count (rate_limits bucket).max_requests) [
      | yes room ↦
          let ih =
            check_all-passed (put key (record w { count = w.count + 1 }) limiter) actor_id bucket
              (record w { count = w.count + 1 }) later (get-put_self key _ limiter) within.1 in
          rw
            (
              check_all-cons limiter actor_id bucket now later,
              check_open limiter actor_id bucket w now h within.0 room,
            )
            (omega (arith, ih))
      | no full ↦
          let ih = check_all-passed limiter actor_id bucket w later h within.1 in
          rw
            (
              check_all-cons limiter actor_id bucket now later,
              check_full limiter actor_id bucket w now h within.0 (omega arith),
            )
            (omega (arith, ih))
    ]

allowed-ne-exceeded : (n : ℕ) → allowed ≡ exceeded n → ⊥
allowed-ne-exceeded n h = cc

exceeded_inj : (m n : ℕ) → exceeded m ≡ exceeded n → m ≡ n
exceeded_inj m n h = cc

-- What a refusal shows of the limiter: the actor's window is open and full, and the wait is what is
-- left of it.
check-exceeded :
    (limiter : Limiter) (actor_id : String) (bucket : RateLimitBucket) (now : Instant) (wait : ℕ)
    → (check limiter actor_id bucket now).1 ≡ exceeded wait
    → (w : Window) × (get limiter (window_key actor_id bucket) ≡ some w)
      × ((rate_limits bucket).max_requests ≤ w.count)
      × (epoch_ms now + wait ≡ epoch_ms w.start + (rate_limits bucket).window_ms)
      × (0 < wait)
unfolding check
check-exceeded limiter actor_id bucket now wait h =
    elim (Option-cases (get limiter (window_key actor_id bucket))) [
      | inl missing ↦ absurd (allowed-ne-exceeded wait (rw (missing, check) at h))
      | inr (w, found) ↦ elim (Bool-cases (has_elapsed w now (rate_limits bucket).window_ms)) [
        | inl over ↦ absurd (allowed-ne-exceeded wait (rw (found, check, over) at h))
        | inr is_open ↦ elim (Bool-cases (leb (rate_limits bucket).max_requests w.count)) [
          | inl full ↦
              let e = exceeded_inj _ wait (rw (found, check, is_open, full) at h) in
              (w, found, ground arith, ground arith, ground arith)
          | inr room ↦ absurd (allowed-ne-exceeded wait (rw (found, check, is_open, room) at h))
        ]
      ]
    ]

-- A refusal says when to come back. The wait that it names is positive; the same request is allowed
-- at every moment at or after the end of the wait, where it opens a new window, and until then it
-- is refused with what is left of the wait.
pub check-retry_after :
    (limiter : Limiter) (actor_id : String) (bucket : RateLimitBucket) (now : Instant) (wait : ℕ)
    → (check limiter actor_id bucket now).1 ≡ exceeded wait
    → (0 < wait)
      × ((later : Instant)
          → epoch_ms now + wait ≤ epoch_ms later
          → check limiter actor_id bucket later
            ≡ (put (window_key actor_id bucket) (opened later) limiter, allowed))
      × ((sooner : Instant)
          → epoch_ms sooner < epoch_ms now + wait
          → check limiter actor_id bucket sooner
            ≡ (limiter, exceeded (epoch_ms now + wait - epoch_ms sooner)))
unfolding check
check-retry_after limiter actor_id bucket now wait h =
    let (w, found, full, at_end, positive) = check-exceeded limiter actor_id bucket now wait h in
    (
      positive,
      λ later late.
          let over : has_elapsed w later (rate_limits bucket).window_ms ≡ true = ground arith in
          rw (found, check) (rw over),
      λ sooner early.
          let is_open : has_elapsed w sooner (rate_limits bucket).window_ms ≡ false =
            ground arith in
          rw at_end (check_full limiter actor_id bucket w sooner found is_open full),
    )
