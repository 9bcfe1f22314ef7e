-- ===== src/Signal/Gate.antt =====
-- Who gets in: the token of the WebSocket, the origins and the rate limit of the middleware; and what
-- the reporting endpoints say of it.
use remotty.Base.{
  ℕ, ◌≡◌, refl, ◌≢◌, ◌⊎◌, ◌↔◌, String, Bool, true, false, not, ◌&&◌, ◌||◌, List, [], ◌∷◌, Option,
  some, arith, ◌==◌, string_key, ==_iff, any, All, Bool-cases, inl, inr, true≢false,
}
use remotty.Base.Int.{pos}
use remotty.Signal.State.{Server, new_server}
use remotty.Signal.Route.{add_peer, Reach}
use remotty.Signal.Invariant.Steps.{reachable-Inv}
use remotty.Signal.RateLimit.{RateLimiter, allow}
use remotty.Config.{SignalConfig}
use remotty.Signal.Access.{
  Request, Upgrade, Verdict, is_origin_allowed, extract_ip, forbidden, preflight, too_many_requests,
  passed, middleware, upgraded, presented, handle_web_socket, handle_health, handle_stats,
}

-- The request may open a connection: the server accepts, and the token is right where one is set.
pub record IsAdmitted (s : Server) (r : Request) : Type 0 where
  pub open_still : s.accepting ≡ true
  pub token_right : (s.cfg.auth_token ≡ "") ⊎ (presented r ≡ s.cfg.auth_token)

-- The test of the token, and what it stands for.
abbrev token_wrong : String → String → Bool
token_wrong wanted given = not (wanted == "") && not (given == wanted)

token_wrong_iff :
    (wanted given : String)
    → (token_wrong wanted given ≡ false) ↔ ((wanted ≡ "") ⊎ (given ≡ wanted))
token_wrong_iff wanted given = (
  (λ h. ground (arith, ==_iff wanted "", ==_iff given wanted)),
  λ h. ground (arith, ==_iff wanted "", ==_iff given wanted),
)

-- The two ends of a request for a connection.
abbrev pub UpgradeOutcome : Server → Request → Bool → ℕ → Server × Upgrade → Type 0
UpgradeOutcome s r upgrades now out =
    (IsAdmitted s r × (upgrades ≡ true) × (out ≡ (add_peer s now r.remote_addr, upgraded s.next)))
    ⊎ ((out.0 ≡ s) × ((p : ℕ) → out.1 ≢ upgraded p) × ((upgrades ≡ false) ⊎ (¬ IsAdmitted s r)))

-- A connection is taken in, as the next peer, exactly when the request is admitted and the upgrade goes
-- well; in every other case the server is as it was and no peer is reported.
pub handle_web_socket_outcome :
    (s : Server) (r : Request) (upgrades : Bool) (now : ℕ)
    → UpgradeOutcome s r upgrades now (handle_web_socket s r upgrades now)
unfolding handle_web_socket
handle_web_socket_outcome s r upgrades now = elim (Bool-cases s.accepting) [
  | inr closed ↦ inr (
    rw (closed, handle_web_socket),
    (λ p. rw (closed, handle_web_socket) (λ h. cc)),
    inr (λ a. true≢false a.open_still closed),
  )
  | inl still ↦ elim (Bool-cases (token_wrong s.cfg.auth_token (presented r))) [
    | inl wrong ↦ inr (
      rw (still, wrong, handle_web_socket),
      (λ p. rw (still, wrong, handle_web_socket) (λ h. cc)),
      inr (λ a. true≢false wrong ((token_wrong_iff _ _).1 a.token_right)),
    )
    | inr right ↦ elim (Bool-cases upgrades) [
      | inl fine ↦ inl (
        record { open_still = still; token_right = (token_wrong_iff _ _).0 right },
        fine,
        rw (still, right, fine, handle_web_socket),
      )
      | inr broken ↦ inr (
        rw (still, right, broken, handle_web_socket),
        (λ p. rw (still, right, broken, handle_web_socket) (λ h. cc)),
        inl broken,
      )
    ]
  ]
]

-- No entry of the list admits the origin.
abbrev IsForeign : String → List String → Type 0
IsForeign origin origins = All (λ a. (a ≢ "*") × (a ≢ origin)) origins

any-IsForeign :
    (origin : String) (origins : List String)
    → (any (λ b. b == "*" || b == origin) origins ≡ false) ↔ IsForeign origin origins
any-IsForeign origin [] = ((λ h. tt), λ h. refl)
any-IsForeign origin (a ∷ as') =
    let (there, back) = any-IsForeign origin as' in
    (
      (λ h. ground (arith, ==_iff a "*", ==_iff a origin, there)),
      λ h. ground (arith, ==_iff a "*", ==_iff a origin, back),
    )

-- The middleware forbids a request exactly when it names an origin, origins are configured, and none of
-- them is "*" or that origin.
pub middleware-forbidden :
    (rl : Option RateLimiter) (origins : List String) (r : Request) (now : ℕ)
    → ((middleware rl origins r now).1 ≡ forbidden)
      ↔ ((r.origin ≢ "") × (origins ≢ []) × IsForeign r.origin origins)
unfolding middleware is_origin_allowed
middleware-forbidden rl [] r now = ((λ h. absurd (ground arith)), λ h. absurd (h.1 refl))
middleware-forbidden rl (a ∷ as') r now =
    let (there, back) = any-IsForeign r.origin (a ∷ as') in
    (
      (λ h. (ground (arith, ==_iff r.origin ""), (λ e. cc), ground (arith, there))),
      λ h. ground (arith, ==_iff r.origin "", back h.2),
    )

-- What the middleware makes of a request, and what is left of the limiter.
abbrev pub LimitOutcome : RateLimiter → Request → ℕ → Option RateLimiter × Verdict → Type 0
LimitOutcome rl r now out =
    let asked = allow rl (extract_ip r.remote_addr) now in
    (((out.1 ≡ forbidden) ⊎ (out.1 ≡ preflight)) × (out.0 ≡ some rl))
    ⊎ ((out.0 ≡ some asked.0)
        × ((out.1 ≡ passed) × (asked.1 ≡ true) ⊎ (out.1 ≡ too_many_requests) × (asked.1 ≡ false)))

-- The limiter is asked only for a request that is neither forbidden nor a preflight, and it is asked for
-- the IP of the remote address: a forbidden request or a preflight leaves it as it was, and any other is
-- passed exactly when the limiter allows it, and leaves what the limiter leaves.
pub middleware-limits :
    (rl : RateLimiter) (origins : List String) (r : Request) (now : ℕ)
    → LimitOutcome rl r now (middleware (some rl) origins r now)
unfolding middleware
middleware-limits rl origins r now = ground arith

-- After any history the count of peers that `/api/stats` keeps is the number of peers that `/health`
-- finds in the table.
pub stats-health :
    (cfg : SignalConfig) {t : Server}
    → Reach (new_server cfg) t
    → (handle_stats t).peers ≡ pos (handle_health t).peers
unfolding handle_stats handle_health
stats-health cfg r = (reachable-Inv cfg r).peers_counted
