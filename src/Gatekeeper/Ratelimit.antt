-- ===== src/Gatekeeper/Ratelimit.antt =====
-- services/gatekeeper/internal/ratelimit/limiter.go: a token bucket for each key. A `float64` of
-- tokens is kept as an exact number of billionths, so that a nanosecond at `rps` refills `rps` of
-- them; rounding is left out. Times are nanoseconds of the monotonic clock. The mutex makes a call
-- one step.
use aegisbastion.Common.{
  find, put, ℕ, ◌+◌, ◌-◌, ◌*◌, ◌/◌, Bool, true, false, List, Option, none, some, Text, min, leb,
  if◌then◌else◌, ◌==◌,
}

-- Billionths in a token, and nanoseconds in a second.
abbrev pub one : ℕ
one = 1000000000

pub record Bucket : Type 0 where
  pub tokens : ℕ
  pub last : ℕ

abbrev pub Buckets : Type 0
Buckets = List (Text × Bucket)

-- The bucket that a call works on: a new one is full.
unfoldable pub start : Option Bucket → ℕ → ℕ → Bucket
start (some b) rps now = b
start none rps now = record { tokens = rps * one; last = now }

unfoldable pub refill : Bucket → ℕ → ℕ → Bucket
refill b rps now = record { tokens = min (rps * one) (b.tokens + (now - b.last) * rps); last = now }

-- The outcome of a call: whether it may proceed, and the nanoseconds to wait if not.
pub record Verdict : Type 0 where
  pub allowed : Bool
  pub retry_after : ℕ

unfoldable pub spend : Bucket → ℕ → Bucket × Verdict
spend b rps =
    if leb one b.tokens
    then (record b { tokens = b.tokens - one }, record { allowed = true; retry_after = 0 })
    else (b, record { allowed = false; retry_after = (one - b.tokens) / rps })

-- `Allow` on the bucket of its key.
unfoldable pub take_token : Option Bucket → ℕ → ℕ → Bucket × Verdict
unfolding start refill spend
take_token b rps now = spend (refill (start b rps now) rps now) rps

unfoldable pub allow : Buckets → Text → ℕ → ℕ → Buckets × Verdict
unfolding take_token
allow m key rps now =
    if rps == 0
    then (m, record { allowed = true; retry_after = 0 })
    else let (b, v) = take_token (find key m) rps now in (put key b m, v)
