-- ===== src/Signal/RateLimit/Cleanup.antt =====
-- The cleanup of idle buckets cannot be observed: a bucket that it drops had filled up.
use remotty.Base.{ℕ, ◌≤◌, ◌≡◌, refl, String, Bool, List, [], ◌∷◌, string_key, arith}
use remotty.Signal.RateLimit.{RateLimiter, allow, cleanup, available}
use remotty.Signal.RateLimit.Available.{
  IsSetUp, allow_answer, allow-IsSetUp, available-allow, cleanup-IsSetUp, available-cleanup,
}

-- The answers to a row of requests.
unfoldable pub answers : RateLimiter → List (String × ℕ) → List Bool
answers rl [] = []
answers rl ((ip, now) ∷ rs) = let (rl', yes') = allow rl ip now in yes' ∷ answers rl' rs

-- Requests at times that rise from `from`.
abbrev pub IsLater : ℕ → List (String × ℕ) → Type 0
IsLater from [] = Unit {0}
IsLater from ((ip, now) ∷ rs) = (from ≤ now) × IsLater now rs

-- Two limiters that offer every IP the same from `from` on.
record Same (from : ℕ) (a b : RateLimiter) : Type 0 where
  burst_same : a.burst ≡ b.burst
  rate_same : a.rate ≡ b.rate
  offer_same : (ip : String) (now : ℕ) → from ≤ now → available a ip now ≡ available b ip now

allow-settings :
    (rl : RateLimiter) (ip : String) (now : ℕ)
    → ((allow rl ip now).0.burst ≡ rl.burst) × ((allow rl ip now).0.rate ≡ rl.rate)
unfolding allow
allow-settings rl ip now = ground arith

allow-Same :
    (from : ℕ) (a b : RateLimiter) (ip : String) (now : ℕ)
    → IsSetUp a
    → IsSetUp b
    → from ≤ now
    → Same from a b
    → Same now (allow a ip now).0 (allow b ip now).0
allow-Same from a b ip now wa wb h s = record {
  burst_same = ground (arith, allow-settings a ip now, allow-settings b ip now);
  rate_same = ground (arith, allow-settings a ip now, allow-settings b ip now);
  offer_same = λ j later k. ground (
    arith,
    available-allow a ip j now later wa,
    available-allow b ip j now later wb,
    s.offer_same ip now h,
    s.offer_same j later,
    s.burst_same,
    s.rate_same,
  );
}

Same-answers :
    (from : ℕ) (a b : RateLimiter) (rs : List (String × ℕ))
    → IsSetUp a
    → IsSetUp b
    → Same from a b
    → IsLater from rs
    → answers a rs ≡ answers b rs
unfolding answers
Same-answers from a b [] wa wb s o = refl
Same-answers from a b ((ip, now) ∷ rs) wa wb s o = cc (
  allow_answer a ip now wa,
  allow_answer b ip now wb,
  s.offer_same ip now o.0,
  Same-answers now (allow a ip now).0 (allow b ip now).0 rs (allow-IsSetUp a ip now wa)
      (allow-IsSetUp b ip now wb) (allow-Same from a b ip now wa wb o.0 s) o.1,
)

cleanup-Same : (rl : RateLimiter) (now : ℕ) → IsSetUp rl → Same now (cleanup rl now) rl
cleanup-Same rl now w = record {
  burst_same = unfold cleanup in refl;
  rate_same = unfold cleanup in refl;
  offer_same = λ ip later h. available-cleanup rl now ip later w h;
}

-- A cleanup at `now` changes no answer to any later row of requests, by any addresses.
pub cleanup_unobservable :
    (rl : RateLimiter) (now : ℕ) (rs : List (String × ℕ))
    → IsSetUp rl
    → IsLater now rs
    → answers (cleanup rl now) rs ≡ answers rl rs
cleanup_unobservable rl now rs w o =
    Same-answers now (cleanup rl now) rl rs (cleanup-IsSetUp rl now w) w (cleanup-Same rl now w) o
