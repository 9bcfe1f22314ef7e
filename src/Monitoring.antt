-- ===== src/Monitoring.antt =====
-- internal/monitoring/monitoring.go: the readiness endpoint.
pub mod Readiness
pub mod Tests
use remotty.Base.{
  ℕ, String, Bool, true, false, List, [], ◌∷◌, ◌++◌, Option, none, some, string_key, insert,
  if◌then◌else◌,
}

-- A check at a moment: no error, or one.
abbrev pub ReadinessCheck : Type 0
ReadinessCheck = ℕ → Option String

pub record ReadinessHandler : Type 0 where
  pub checks : List ReadinessCheck

unfoldable pub new_readiness_handler : ReadinessHandler
new_readiness_handler = record { checks = [] }

-- The name of a check is not kept.
unfoldable pub add_check : ReadinessHandler → String → ReadinessCheck → ReadinessHandler
add_check h name fn = record h { checks = h.checks ++ fn ∷ [] }

-- What `%T` makes of every check.
abbrev pub check_type : String
check_type = "monitoring.ReadinessCheck"

pub record Findings : Type 0 where
  pub unavailable : Bool
  pub checks : List (String × String)

-- The loop over the checks.
unfoldable pub run_checks : List ReadinessCheck → ℕ → Findings → Findings
run_checks [] now found = found
run_checks (check ∷ checks) now found = elim (check now) [
  | none ↦ run_checks checks now found
  | some err ↦
      run_checks checks now
        (record { unavailable = true; checks = insert check_type err found.checks })
]

-- The code and the body of an answer.
pub data Answer : Type 0 where
  ready : (code now : ℕ) → Answer
  not_ready : (code : ℕ) → List (String × String) → Answer

unfoldable pub serve_http : ReadinessHandler → ℕ → Answer
unfolding run_checks
serve_http h now =
    let found = run_checks h.checks now (record { unavailable = false; checks = [] }) in
    if found.unavailable then not_ready 503 found.checks else ready 200 now
