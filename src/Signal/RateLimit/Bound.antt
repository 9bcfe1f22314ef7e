-- ===== src/Signal/RateLimit/Bound.antt =====
-- Over any history an IP is allowed a burst, and then the rate.
use remotty.Base.{
  ℕ, ◌+◌, ◌-◌, ◌*◌, ◌≤◌, ◌≡◌, refl, String, Bool, true, List, [], ◌∷◌, if◌then◌else◌, string_key,
  arith, ==_iff, ap, lookup, ◌==◌,
}
use remotty.Signal.RateLimit.{
  RateLimiter, Event, request, tick, time_of, step, allow, cleanup, available, one_token,
  new_rate_limiter,
}
use remotty.Signal.RateLimit.Available.{
  IsSetUp, remaining, grown, allow_answer, allow-IsSetUp, available-allow, cleanup-IsSetUp,
  available-cleanup, available_growth,
}

-- The requests of `ip` that a history allows.
abbrev pub granted : String → Event → Bool → ℕ
granted ip (request j now) true = if j == ip then 1 else 0
granted ip _ _ = 0

unfoldable pub allowed : String → RateLimiter → List Event → ℕ
allowed ip rl [] = 0
allowed ip rl (e ∷ es) = let (rl', yes') = step rl e in granted ip e yes' + allowed ip rl' es

-- The times rise from `from` to `until`.
abbrev pub IsOrdered : ℕ → List Event → ℕ → Type 0
IsOrdered from [] until = from ≤ until
IsOrdered from (e ∷ es) until = (from ≤ time_of e) × IsOrdered (time_of e) es until

step-IsSetUp : (rl : RateLimiter) (e : Event) → IsSetUp rl → IsSetUp (step rl e).0
step-IsSetUp rl (request ip now) w = allow-IsSetUp rl ip now w
step-IsSetUp rl (tick now) w = cleanup-IsSetUp rl now w

step-rate : (rl : RateLimiter) (e : Event) → (step rl e).0.rate ≡ rl.rate
unfolding allow cleanup
step-rate rl (request ip now) = ground arith
step-rate rl (tick now) = refl

grown_none : (rl : RateLimiter) (a now : ℕ) → grown rl a (now - now) ≤ a
grown_none rl a now = let e : now - now ≡ 0 = omega arith in rw e (ground arith)

-- A token granted is a token less.
step_spends :
    (rl : RateLimiter) (ip : String) (e : Event)
    → IsSetUp rl
    → granted ip e (step rl e).1 * one_token + available (step rl e).0 ip (time_of e)
      ≤ available rl ip (time_of e)
step_spends rl ip (request j now) w = ground (
  arith,
  ==_iff j ip,
  allow_answer rl j now w,
  available-allow rl j ip now now w,
  grown_none rl (remaining (available rl j now)) now,
)
step_spends rl ip (tick now) w = ground (arith, available-cleanup rl now ip now w)

ordered_le : (from until : ℕ) (es : List Event) → IsOrdered from es until → from ≤ until
ordered_le from until [] o = o
ordered_le from until (e ∷ es) o = omega (arith, ordered_le (time_of e) until es o.1)

span_split :
    (from mid until r : ℕ)
    → from ≤ mid
    → mid ≤ until
    → (until - from) * r ≡ (mid - from) * r + (until - mid) * r
span_split from mid until r h k =
    let e : until - from ≡ (mid - from) + (until - mid) = omega arith in
    omega (arith, ap (λ (n : ℕ). n * r) e)

allowed_within :
    (ip : String) (rl : RateLimiter) (from until : ℕ) (es : List Event)
    → IsSetUp rl
    → IsOrdered from es until
    → allowed ip rl es * one_token ≤ available rl ip from + (until - from) * rl.rate
unfolding allowed
allowed_within ip rl from until [] w o = omega arith
allowed_within ip rl from until (e ∷ es) w o =
    let now = time_of e in
    let later = allowed_within ip (step rl e).0 now until es (step-IsSetUp rl e w) o.1 in
    omega (
      arith,
      rw (step-rate rl e) at later,
      step_spends rl ip e w,
      available_growth rl ip from now o.0,
      span_split from now until rl.rate o.0 (ordered_le now until es o.1),
    )

new_rate_limiter-IsSetUp : (rate : ℕ) → 1 ≤ rate → IsSetUp (new_rate_limiter rate)
unfolding new_rate_limiter
new_rate_limiter-IsSetUp rate h = ground arith

full_at_first :
    (rate : ℕ) (ip : String) (now : ℕ)
    → (available (new_rate_limiter rate) ip now ≡ rate * one_token)
      × ((new_rate_limiter rate).rate ≡ rate)
unfolding new_rate_limiter available lookup
full_at_first rate ip now = (refl, refl)

-- Over a whole history, of requests from all addresses and of cleanups, at times that rise from
-- `from` to `until`, the number of requests that a new limiter of a positive rate allows one IP is
-- at most the burst and what the rate brings in that time: 60 * 10^9 * allowed is at most
-- 60 * 10^9 * rate + (until - from) * rate, in nanoseconds.
pub allowed_bound :
    (rate from until : ℕ) (ip : String) (es : List Event)
    → 1 ≤ rate
    → IsOrdered from es until
    → allowed ip (new_rate_limiter rate) es * one_token ≤ rate * one_token + (until - from) * rate
allowed_bound rate from until ip es h o = ground (
  arith,
  full_at_first rate ip from,
  allowed_within ip (new_rate_limiter rate) from until es (new_rate_limiter-IsSetUp rate h) o,
)
