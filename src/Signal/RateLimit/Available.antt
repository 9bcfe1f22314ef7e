-- ===== src/Signal/RateLimit/Available.antt =====
-- What a request and a cleanup do to the tokens that each IP could use.
use native.Mathlib.Nat.{mul-le-mul_right}
use remotty.Base.{
  ℕ, ◌+◌, ◌-◌, ◌*◌, ◌≤◌, ◌≡◌, refl, String, List, [], ◌∷◌, Option, none, some, if◌then◌else◌, ltb,
  leb, lookup, string_key, arith, ==_iff, ◌==◌, lookup-insert, Bool-cases, sym, ltb→lt, inl, inr,
  IsDistinct, insert-IsDistinct,
}
use remotty.Signal.RateLimit.{
  Bucket, RateLimiter, allow, cleanup, drop_stale, available, one_token, five_minutes, refill,
  put_bucket, tokens_of,
}

-- A limiter as `NewRateLimiter` sets it up, for a positive rate.
pub record IsSetUp (rl : RateLimiter) : Type 0 where
  pub burst_eq : rl.burst ≡ rl.rate
  pub rate_pos : 1 ≤ rl.rate
  pub interval_eq : rl.interval ≡ five_minutes
  pub distinct : IsDistinct rl.buckets

-- A bucket idle for the interval has filled up.
idle_fills :
    (rl : RateLimiter) (b : Bucket) (now : ℕ)
    → IsSetUp rl
    → b.last_leak + rl.interval ≤ now
    → refill rl b now ≡ rl.burst * one_token
idle_fills rl b now w h =
    let long : five_minutes * rl.rate ≤ (now - b.last_leak) * rl.rate =
      mul-le-mul_right rl.rate (omega (arith, w.interval_eq)) in
    ground (arith, w.burst_eq)

-- What a request leaves of the tokens that it finds.
abbrev pub remaining : ℕ → ℕ
remaining a = if leb one_token a then a - one_token else a

-- The answer depends on the available tokens alone, and so does what is available afterwards.
pub allow_answer :
    (rl : RateLimiter) (ip : String) (now : ℕ)
    → IsSetUp rl
    → (allow rl ip now).1 ≡ leb one_token (available rl ip now)
unfolding allow available
allow_answer rl ip now w = ground (arith, w.burst_eq, w.rate_pos)

-- The bucket that a request leaves: the same limiter with one entry written.
abbrev after_request : RateLimiter → String → ℕ → RateLimiter
after_request rl ip now = put_bucket rl ip (remaining (available rl ip now)) now

allow_state :
    (rl : RateLimiter) (ip : String) (now : ℕ)
    → IsSetUp rl
    → (allow rl ip now).0 ≡ after_request rl ip now
unfolding allow available
allow_state rl ip now w = ground (arith, w.burst_eq, w.rate_pos)

pub allow-IsSetUp :
    (rl : RateLimiter) (ip : String) (now : ℕ) → IsSetUp rl → IsSetUp (allow rl ip now).0
allow-IsSetUp rl ip now w = rw (allow_state rl ip now w) (record {
  burst_eq = w.burst_eq;
  rate_pos = w.rate_pos;
  interval_eq = w.interval_eq;
  distinct = insert-IsDistinct ip _ rl.buckets w.distinct;
})

-- The tokens that come by `later` to one who has `a` now.
abbrev pub grown : RateLimiter → ℕ → ℕ → ℕ
grown rl a span =
    let tokens = a + span * rl.rate in
    if ltb (rl.burst * one_token) tokens then rl.burst * one_token else tokens

available-put_bucket :
    (rl : RateLimiter) (ip j : String) (a now later : ℕ)
    → available (put_bucket rl ip a now) j later
      ≡ (if ip == j then grown rl a (later - now) else available rl j later)
unfolding available
available-put_bucket rl ip j a now later =
    ground (arith, lookup-insert ip j (record { tokens = a; last_leak = now }) rl.buckets)

pub available-allow :
    (rl : RateLimiter) (ip j : String) (now later : ℕ)
    → IsSetUp rl
    → available (allow rl ip now).0 j later ≡ (
        if ip == j
        then grown rl (remaining (available rl ip now)) (later - now)
        else available rl j later)
available-allow rl ip j now later w =
    rw (allow_state rl ip now w) (available-put_bucket rl ip j _ now later)

-- What the cleanup leaves in the table.
keep_fresh : ℕ → ℕ → Option Bucket → Option Bucket
keep_fresh interval now none = none
keep_fresh interval now (some b) = if ltb (b.last_leak + interval) now then none else some b

lookup-drop_stale :
    (interval now : ℕ) (m : List (String × Bucket)) (j : String)
    → IsDistinct m
    → lookup j (drop_stale interval now m) ≡ keep_fresh interval now (lookup j m)
unfolding drop_stale keep_fresh lookup
lookup-drop_stale interval now [] j d = refl
lookup-drop_stale interval now ((ip, b) ∷ m) j d =
    ground (arith, ==_iff ip j, lookup-drop_stale interval now m j d.1)

drop_stale-IsDistinct :
    (interval now : ℕ) (m : List (String × Bucket))
    → IsDistinct m
    → IsDistinct (drop_stale interval now m)
unfolding drop_stale keep_fresh
drop_stale-IsDistinct interval now [] d = tt
drop_stale-IsDistinct interval now ((ip, b) ∷ m) d =
    ground
      (arith, drop_stale-IsDistinct interval now m d.1, lookup-drop_stale interval now m ip d.1)

pub cleanup-IsSetUp : (rl : RateLimiter) (now : ℕ) → IsSetUp rl → IsSetUp (cleanup rl now)
unfolding cleanup
cleanup-IsSetUp rl now w = record {
  burst_eq = w.burst_eq;
  rate_pos = w.rate_pos;
  interval_eq = w.interval_eq;
  distinct = drop_stale-IsDistinct rl.interval now rl.buckets w.distinct;
}

tokens_of-keep_fresh :
    (rl : RateLimiter) (now later : ℕ) (o : Option Bucket)
    → IsSetUp rl
    → now ≤ later
    → tokens_of rl later (keep_fresh rl.interval now o) ≡ tokens_of rl later o
unfolding keep_fresh
tokens_of-keep_fresh rl now later none w h = refl
tokens_of-keep_fresh rl now later (some b) w h =
    elim (Bool-cases (ltb (b.last_leak + rl.interval) now)) [
      | inl stale ↦ rw stale (sym (idle_fills rl b later w (omega (arith, ltb→lt _ _ stale))))
      | inr kept ↦ rw kept
    ]

-- No cleanup changes what an IP could use from then on.
pub available-cleanup :
    (rl : RateLimiter) (now : ℕ) (j : String) (later : ℕ)
    → IsSetUp rl
    → now ≤ later
    → available (cleanup rl now) j later ≡ available rl j later
unfolding cleanup available
available-cleanup rl now j later w h =
    rw (lookup-drop_stale rl.interval now rl.buckets j w.distinct)
      (tokens_of-keep_fresh rl now later (lookup j rl.buckets) w h)

-- In a span of time an IP gains at most the rate.
pub available_growth :
    (rl : RateLimiter) (ip : String) (now later : ℕ)
    → now ≤ later
    → available rl ip later ≤ available rl ip now + (later - now) * rl.rate
unfolding available
available_growth rl ip now later h = growth (lookup ip rl.buckets)
  where
    growth :
        (o : Option Bucket) → tokens_of rl later o ≤ tokens_of rl now o + (later - now) * rl.rate
    growth none = omega arith
    growth (some b) =
        let sum : (later - b.last_leak) * rl.rate ≤ (now - b.last_leak + (later - now)) * rl.rate =
          mul-le-mul_right rl.rate (omega arith) in
        ground arith
