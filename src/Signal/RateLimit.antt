-- ===== src/Signal/RateLimit.antt =====
-- internal/signal/ratelimit.go: a token bucket for each IP address.
-- Tokens are float64 there. Here they are counted exactly, in parts of a token: the clock counts
-- nanoseconds and a minute brings `rate` tokens, so a nanosecond brings `rate` parts of 6 * 10^10 to
-- the token. Times come from Go's monotonic clock, so they do not run backwards.
pub mod Available
pub mod Bound
pub mod Cleanup
use remotty.Base.{
  ℕ, suc, ◌+◌, ◌-◌, ◌*◌, ◌≡◌, refl, String, Bool, true, false, List, [], ◌∷◌, Option, none, some,
  if◌then◌else◌, ltb, lookup, insert, string_key, arith,
}

pub record Bucket : Type 0 where
  pub tokens : ℕ
  pub last_leak : ℕ

pub record RateLimiter : Type 0 where
  pub buckets : List (String × Bucket)
  pub rate : ℕ
  pub burst : ℕ
  pub interval : ℕ

-- The parts of one token, and five minutes in nanoseconds.
abbrev pub one_token : ℕ
one_token = 60000000000

abbrev pub five_minutes : ℕ
five_minutes = 300000000000

unfoldable pub new_rate_limiter : ℕ → RateLimiter
new_rate_limiter rate = record { buckets = []; rate = rate; burst = rate; interval = five_minutes }

-- The tokens of a bucket after the leak up to `now`, at most `burst`.
abbrev pub refill : RateLimiter → Bucket → ℕ → ℕ
refill rl b now =
    let tokens = b.tokens + (now - b.last_leak) * rl.rate in
    if ltb (rl.burst * one_token) tokens then rl.burst * one_token else tokens

abbrev pub put_bucket : RateLimiter → String → ℕ → ℕ → RateLimiter
put_bucket rl ip tokens now = record rl {
  buckets = insert ip (record { tokens = tokens; last_leak = now }) rl.buckets;
}

-- `Allow`. A limiter is made for a positive rate, so `burst - 1` is exact.
unfoldable pub allow : RateLimiter → String → ℕ → RateLimiter × Bool
allow rl ip now = elim (lookup ip rl.buckets) [
  | none ↦ (put_bucket rl ip ((rl.burst - 1) * one_token) now, true)
  | some b ↦
      let tokens = refill rl b now in
      if ltb tokens one_token
      then (put_bucket rl ip tokens now, false)
      else (put_bucket rl ip (tokens - one_token) now, true)
]

-- The loop over the buckets in `cleanupLoop`: those untouched for more than the interval go.
unfoldable pub drop_stale : ℕ → ℕ → List (String × Bucket) → List (String × Bucket)
drop_stale interval now [] = []
drop_stale interval now ((ip, b) ∷ m) =
    let rest = drop_stale interval now m in
    if ltb (b.last_leak + interval) now then rest else (ip, b) ∷ rest

-- One tick of `cleanupLoop`.
unfoldable pub cleanup : RateLimiter → ℕ → RateLimiter
unfolding drop_stale
cleanup rl now = record rl { buckets = drop_stale rl.interval now rl.buckets }

-- What the limiter goes through: requests and cleanups, each at its time.
pub data Event : Type 0 where
  request : String → ℕ → Event
  tick : ℕ → Event

abbrev pub time_of : Event → ℕ
time_of (request ip now) = now
time_of (tick now) = now

abbrev pub step : RateLimiter → Event → RateLimiter × Bool
step rl (request ip now) = allow rl ip now
step rl (tick now) = (cleanup rl now, false)

-- The tokens that an IP could use at `now`: a new one finds the bucket full.
abbrev pub tokens_of : RateLimiter → ℕ → Option Bucket → ℕ
tokens_of rl now none = rl.burst * one_token
tokens_of rl now (some b) = refill rl b now

unfoldable pub available : RateLimiter → String → ℕ → ℕ
available rl ip now = tokens_of rl now (lookup ip rl.buckets)
