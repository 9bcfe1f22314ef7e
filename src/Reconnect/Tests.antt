-- ===== src/Reconnect/Tests.antt =====
-- The theorems on reconnection at concrete inputs.
use remotty.Base.{◌≡◌, refl, true, false, [], ◌∷◌, arith}
use remotty.Reconnect.{
  ReconnectConfig, Attempt, time_passed, restart_ice, attempts, Engine, reconnect_loop,
  ice_connected,
}
use remotty.Reconnect.Attempts.{Ended, reconnect_loop-Ended, recovered_unreported}

abbrev short : ReconnectConfig
short = record { initial_backoff = 5; max_backoff = 12; max_attempts = 4 }

abbrev broken : Attempt
broken = record {
  closes = false;
  offer_made = true;
  description_set = true;
  offer_sent = false;
  wakeup = time_passed;
}

abbrev working : Attempt
working = record broken { offer_sent = true }

abbrev open_engine : Engine
open_engine = record { closed = false; restarting = false; successes = 0; failures = 0 }

delays_test :
    (reconnect_loop short open_engine (broken ∷ broken ∷ broken ∷ broken ∷ [])).1.delays
    ≡ 5 ∷ 10 ∷ 12 ∷ []
unfolding reconnect_loop attempts restart_ice
delays_test = refl

reconnect_loop-Ended_example :
    Ended short open_engine
      (broken ∷ working ∷ broken ∷ broken ∷ [])
      (reconnect_loop short open_engine (broken ∷ working ∷ broken ∷ broken ∷ []))
reconnect_loop-Ended_example =
    reconnect_loop-Ended short open_engine (broken ∷ working ∷ broken ∷ broken ∷ []) refl
      (omega arith) (omega arith) (omega arith)

recovered_unreported_example :
    (ice_connected (reconnect_loop short open_engine (broken ∷ working ∷ [])).0).successes ≡ 0
unfolding reconnect_loop attempts restart_ice
recovered_unreported_example =
    recovered_unreported short open_engine (broken ∷ working ∷ []) refl refl
