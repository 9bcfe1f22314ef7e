-- ===== src/Reconnect.antt =====
-- internal/webrtc/engine.go: the ICE restart with its attempts and delays.
-- The peer connection, the signaling connection and the timer are arguments: what they do at each
-- attempt. `Close` may run before an attempt, and either of `Close` and the ICE state may end a wait.
pub mod Attempts
mod Tests
use remotty.Base.{
  ℕ, suc, ◌+◌, Bool, true, false, ◌&&◌, ◌||◌, not, List, [], ◌∷◌, ◌++◌, if◌then◌else◌, leb, ltb,
}
use remotty.Backoff.{doubled}

pub record ReconnectConfig : Type 0 where
  pub initial_backoff : ℕ
  pub max_backoff : ℕ
  pub max_attempts : ℕ

-- 5 seconds, 60 seconds and 10 attempts, in nanoseconds.
abbrev pub default_reconnect_config : ReconnectConfig
default_reconnect_config = record {
  initial_backoff = 5000000000;
  max_backoff = 60000000000;
  max_attempts = 10;
}

-- What ends the wait after a failed attempt: `Close` or a connection that recovers, which both stop the
-- cycle through `reconnectStop`, or the timer.
pub data Wakeup : Type 0 where
  engine_closed connected time_passed : Wakeup

-- What one attempt meets: whether `Close` ran since the one before, the three calls of `restartICE`, and
-- the wait.
pub record Attempt : Type 0 where
  pub closes : Bool
  pub offer_made : Bool
  pub description_set : Bool
  pub offer_sent : Bool
  pub wakeup : Wakeup

-- `restartICE`: whether the new offer went out; `closed` is `e.closed`.
unfoldable pub restart_ice : Bool → Attempt → Bool
restart_ice closed a = not closed && a.offer_made && a.description_set && a.offer_sent

-- `stopped` is by `Close`, `reconnected` by the ICE state.
pub data Ending : Type 0 where
  recovered stopped reconnected gave_up still_trying : Ending

-- What a cycle did: how it ended, `e.closed` then, the attempts that it reported and the delays that it
-- waited.
pub record Cycle : Type 0 where
  pub ending : Ending
  pub closed : Bool
  pub reported : List ℕ
  pub delays : List ℕ

abbrev pub ended : Ending → Bool → ℕ → Cycle
ended e closed attempt = record {
  ending = e;
  closed = closed;
  reported = attempt ∷ [];
  delays = [];
}

abbrev pub waited : ℕ → ℕ → Cycle → Cycle
waited attempt backoff c = record {
  ending = c.ending;
  closed = c.closed;
  reported = attempt ∷ c.reported;
  delays = backoff ∷ c.delays;
}

-- A wait that something other than the timer ends.
abbrev pub woken : Ending → Bool → ℕ → ℕ → Cycle
woken e closed attempt backoff = record {
  ending = e;
  closed = closed;
  reported = attempt ∷ [];
  delays = backoff ∷ [];
}

-- The loop of `reconnectLoop`, from the attempt after `done`.
unfoldable pub attempts : ReconnectConfig → ℕ → ℕ → Bool → List Attempt → Cycle
attempts cfg done backoff closed [] = record {
  ending = still_trying;
  closed = closed;
  reported = [];
  delays = [];
}
attempts cfg done backoff closed (a ∷ as') =
    let attempt = suc done in
    let now_closed = closed || a.closes in
    let later = attempts cfg attempt (doubled cfg.max_backoff backoff) now_closed as' in
    if restart_ice now_closed a
    then ended recovered now_closed attempt
    else (if ltb 0 cfg.max_attempts && leb cfg.max_attempts attempt
        then ended gave_up now_closed attempt
        else elim a.wakeup [
          | engine_closed ↦ woken stopped true attempt backoff
          | connected ↦ woken reconnected now_closed attempt backoff
          | time_passed ↦ waited attempt backoff later
        ])

-- The part of the engine that the cycle and the ICE state share.
pub record Engine : Type 0 where
  pub closed : Bool
  pub restarting : Bool
  pub successes : ℕ
  pub failures : ℕ

-- `Close`.
unfoldable pub close : Engine → Engine
close e = if e.closed then e else record e { closed = true; restarting = false }

-- What the end of a cycle does to the engine; the ICE state that stops a cycle has reported a success.
abbrev pub finish : Cycle → Engine → Engine
finish c e =
    let left = record e { closed = c.closed; restarting = false } in
    elim c.ending [
      | recovered ↦ left
      | stopped ↦ left
      | reconnected ↦ record left { successes = suc e.successes }
      | gave_up ↦ close (record left { failures = suc e.failures })
      | still_trying ↦ record left { restarting = true }
    ]

-- `reconnectLoop`: nothing, if a cycle is running.
unfoldable pub reconnect_loop : ReconnectConfig → Engine → List Attempt → Engine × Cycle
unfolding attempts close restart_ice
reconnect_loop cfg e as' =
    let c = attempts cfg 0 cfg.initial_backoff e.closed as' in
    if e.restarting
    then (e, record { ending = still_trying; closed = e.closed; reported = []; delays = [] })
    else (finish c e, c)

-- The ICE state `connected` or `completed`: a success is reported if a cycle is running.
unfoldable pub ice_connected : Engine → Engine
ice_connected e =
    if e.restarting then record e { restarting = false; successes = suc e.successes } else e
