-- ===== src/Monitoring/Tests.antt =====
-- The theorems on the readiness endpoint at concrete inputs.
use remotty.Base.{◌≡◌, refl, [], ◌∷◌, some, none}
use remotty.Monitoring.{
  ReadinessHandler, not_ready, check_type, new_readiness_handler, add_check, serve_http,
}
use remotty.Monitoring.Readiness.{serve_http_outcome}

-- Two checks fail, and the third passes.
abbrev handler : ReadinessHandler
handler =
    add_check
      (add_check (add_check new_readiness_handler "disk" (λ now. some "disk full")) "signal"
        (λ now. some "no connection"))
      "screen" (λ now. none)

serve_http_outcome_example :
    serve_http handler 7 ≡ not_ready 503 ((check_type, "no connection") ∷ [])
unfolding add_check new_readiness_handler
serve_http_outcome_example =
    (serve_http_outcome handler 7).1 ((λ now. some "disk full") ∷ []) ((λ now. none) ∷ [])
      (λ now. some "no connection") "no connection" refl refl (refl, tt)
