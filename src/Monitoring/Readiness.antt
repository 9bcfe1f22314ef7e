-- ===== src/Monitoring/Readiness.antt =====
-- internal/monitoring/monitoring.go: what the readiness endpoint answers.
use remotty.Base.{
  Option-cases, ℕ, ◌≡◌, refl, String, true, false, List, [], ◌∷◌, ◌++◌, none, some, inl, inr, ◌⊎◌,
  string_key, insert, All, ap, ◌∙◌,
}
use remotty.Monitoring.{
  ReadinessCheck, ReadinessHandler, Findings, ready, not_ready, check_type, run_checks, serve_http,
}

-- A check that finds no error.
abbrev pub Passes : ℕ → ReadinessCheck → Type 0
Passes now check = check now ≡ none

pub checks_pass :
    (checks : List ReadinessCheck) (now : ℕ) (found : Findings)
    → All (Passes now) checks
    → run_checks checks now found ≡ found
unfolding run_checks
checks_pass [] now found h = refl
checks_pass (check ∷ checks) now found h = rw (h.0) (checks_pass checks now found h.1)

-- No error, or one under the key that all checks share.
abbrev pub IsLone : List (String × String) → Type 0
IsLone m = (m ≡ []) ⊎ ((e : String) × (m ≡ (check_type, e) ∷ []))

lone_insert :
    (m : List (String × String)) (err : String)
    → IsLone m
    → insert check_type err m ≡ (check_type, err) ∷ []
unfolding insert
lone_insert m err (inl none_yet) = rw (none_yet) refl
lone_insert m err (inr (e, one)) = rw (one) refl

last_error :
    (before after : List ReadinessCheck) (check : ReadinessCheck) (err : String) (now : ℕ)
    (found : Findings)
    → check now ≡ some err
    → All (Passes now) after
    → IsLone found.checks
    → run_checks (before ++ check ∷ after) now found
      ≡ record { unavailable = true; checks = (check_type, err) ∷ [] }
unfolding run_checks
last_error [] after check err now found e h lone = rw (e) (
    checks_pass after now _ h
    ∙ ap (λ m. record { unavailable = true; checks = m }) (lone_insert found.checks err lone))
last_error (b ∷ before) after check err now found e h lone = elim (Option-cases (b now)) [
  | inl passes ↦ rw (passes) (last_error before after check err now found e h lone)
  | inr (other, fails) ↦ rw (fails) (
      last_error before after check err now _ e h
        (inr (other, lone_insert found.checks other lone)))
]

-- The endpoint answers 200 where every check passes, and 503 where one fails; then its body names the
-- error of the last check that fails, and no other, however many fail before it.
pub serve_http_outcome :
    (h : ReadinessHandler) (now : ℕ)
    → (All (Passes now) h.checks → serve_http h now ≡ ready 200 now)
      × ((before after : List ReadinessCheck) (check : ReadinessCheck) (err : String)
          → h.checks ≡ before ++ check ∷ after
          → check now ≡ some err
          → All (Passes now) after
          → serve_http h now ≡ not_ready 503 ((check_type, err) ∷ []))
unfolding serve_http
serve_http_outcome h now = (
  λ pass. rw (checks_pass h.checks now (record { unavailable = false; checks = [] }) pass) refl,
  λ before after check err split e pass.
      rw
        (
          split,
          last_error before after check err now (record { unavailable = false; checks = [] }) e pass
              (inl refl),
        )
        refl,
)
