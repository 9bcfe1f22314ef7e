-- ===== src/Reconnect/Attempts.antt =====
-- A cycle of reconnection ends, and how its delays grow.
use remotty.Base.{
  ℕ, zero, suc, ◌+◌, ◌≤◌, ◌<◌, ◌≡◌, refl, ◌≢◌, ◌⊎◌, ◌↔◌, inl, inr, Bool, ◌||◌, true, false, List,
  [], ◌∷◌, ltb, length, All, arith, Bool-cases, ltb→lt, sym, ◌∙◌, ap,
}
use remotty.Backoff.{doubled, delay_at, doubled-delay_at, delay_first}
use remotty.Reconnect.{
  ReconnectConfig, Attempt, time_passed, restart_ice, recovered, stopped, reconnected, gave_up,
  still_trying, Cycle, attempts, Engine, close, finish, reconnect_loop, ice_connected,
}

-- How a cycle from the attempt after `done` may have gone, `left` attempts before the last.
pub record IsBounded (cfg : ReconnectConfig) (done : ℕ) (c : Cycle) : Type 0 where
  pub ends : c.ending ≢ still_trying
  pub some_attempt : 1 ≤ length c.reported
  pub at_most : done + length c.reported ≤ cfg.max_attempts
  pub gave_up_last : c.ending ≡ gave_up → done + length c.reported ≡ cfg.max_attempts

attempts-IsBounded :
    (cfg : ReconnectConfig) (done backoff : ℕ) (closed : Bool) (as' : List Attempt)
    → done < cfg.max_attempts
    → cfg.max_attempts ≤ done + length as'
    → IsBounded cfg done (attempts cfg done backoff closed as')
unfolding attempts
attempts-IsBounded cfg done backoff closed [] h k = absurd (omega arith)
attempts-IsBounded cfg done backoff closed (a ∷ as') h k =
    elim (Bool-cases (ltb (suc done) cfg.max_attempts)) [
      | inl more ↦
          let later =
            attempts-IsBounded cfg (suc done) (doubled cfg.max_backoff backoff) (closed || a.closes)
              as' (ltb→lt (suc done) cfg.max_attempts more) (omega (arith, k)) in
          record {
            ends = ground (arith, later.ends);
            some_attempt = ground arith;
            at_most = ground (arith, later.at_most, h);
            gave_up_last = ground (arith, later.gave_up_last, h, more);
          }
      | inr last ↦ record {
        ends = ground (arith, last, h);
        some_attempt = ground arith;
        at_most = ground (arith, last, h);
        gave_up_last = ground (arith, last, h);
      }
    ]

-- The delays from the one after `n` failures on.
unfoldable pub delays_from : ReconnectConfig → ℕ → List ℕ → List ℕ
delays_from cfg n [] = []
delays_from cfg n (d ∷ ds) =
    delay_at cfg.max_backoff cfg.initial_backoff n ∷ delays_from cfg (suc n) ds

attempts-delays :
    (cfg : ReconnectConfig) (done backoff : ℕ) (closed : Bool) (as' : List Attempt)
    → backoff ≡ delay_at cfg.max_backoff cfg.initial_backoff done
    → let ds = (attempts cfg done backoff closed as').delays in ds ≡ delays_from cfg done ds
unfolding attempts delays_from
attempts-delays cfg done backoff closed [] h = refl
attempts-delays cfg done backoff closed (a ∷ as') h =
    let next : doubled cfg.max_backoff backoff
        ≡ delay_at cfg.max_backoff cfg.initial_backoff (suc done) =
      ap (doubled cfg.max_backoff) h ∙ doubled-delay_at cfg.max_backoff cfg.initial_backoff done in
    ground (
      arith,
      h,
      attempts-delays cfg (suc done) (doubled cfg.max_backoff backoff) (closed || a.closes) as'
          next,
    )

-- `Close` ran before one of the first `n` attempts.
abbrev pub closes_within : ℕ → List Attempt → Bool
closes_within zero as' = false
closes_within (suc n) [] = false
closes_within (suc n) (a ∷ as') = a.closes || closes_within n as'

attempts-closed :
    (cfg : ReconnectConfig) (done backoff : ℕ) (closed : Bool) (as' : List Attempt)
    → let c = attempts cfg done backoff closed as' in
      (c.closed ≡ true)
      ↔ ((c.ending ≡ stopped) ⊎ ((closed ≡ true) ⊎ (closes_within (length c.reported) as' ≡ true)))
unfolding attempts
attempts-closed cfg done backoff closed [] = ground arith
attempts-closed cfg done backoff closed (a ∷ as') =
    let later =
      attempts-closed cfg (suc done) (doubled cfg.max_backoff backoff) (closed || a.closes) as' in
    ground (arith, later)

-- What a whole cycle leaves.
pub record Ended (cfg : ReconnectConfig) (e : Engine) (as' : List Attempt) (out : Engine × Cycle)
    : Type 0 where
  pub bounded : IsBounded cfg 0 out.1
  pub delays_double : out.1.delays ≡ delays_from cfg 0 out.1.delays
  pub free_again : out.0.restarting ≡ false
  pub closed_iff : (out.0.closed ≡ true) ↔ (
      ((out.1.ending ≡ gave_up) ⊎ (out.1.ending ≡ stopped))
      ⊎ ((e.closed ≡ true) ⊎ (closes_within (length out.1.reported) as' ≡ true)))
  pub failures_count : (out.1.ending ≡ gave_up) → out.0.failures ≡ suc e.failures
  pub successes_count : (out.1.ending ≡ reconnected) → out.0.successes ≡ suc e.successes

finish-closed :
    (e : Engine) (c : Cycle)
    → c.ending ≢ still_trying
    → (((finish c e).restarting ≡ false)
        × (((finish c e).closed ≡ true) ↔ ((c.ending ≡ gave_up) ⊎ (c.closed ≡ true))))
      × ((c.ending ≡ gave_up → (finish c e).failures ≡ suc e.failures)
          × (c.ending ≡ reconnected → (finish c e).successes ≡ suc e.successes))
unfolding close
finish-closed e c h = ground (arith, h)

idle_loop :
    (cfg : ReconnectConfig) (e : Engine) (as' : List Attempt)
    → e.restarting ≡ false
    → reconnect_loop cfg e as' ≡ (
      finish (attempts cfg 0 cfg.initial_backoff e.closed as') e,
      attempts cfg 0 cfg.initial_backoff e.closed as',
    )
unfolding reconnect_loop
idle_loop cfg e as' free = ground (arith, free)

-- A cycle of reconnection that is allowed some number of attempts, and starts while no other runs, ends
-- within them, whatever the connection and the timer do: given what at least that many attempts meet, it is
-- not still trying, it has made between one and that many attempts, and exactly that many when it gives up. Its
-- delays are the first one, which is not above the cap, doubled each time up to the cap. Afterwards a new
-- cycle can start; the engine is closed just when the cycle gave up, or `Close` stopped it, or ran before
-- it or before one of its attempts; a cycle that gave up is counted as a failure, and one that the ICE state
-- stopped as a success.
pub reconnect_loop-Ended :
    (cfg : ReconnectConfig) (e : Engine) (as' : List Attempt)
    → e.restarting ≡ false
    → 1 ≤ cfg.max_attempts
    → cfg.max_attempts ≤ length as'
    → cfg.initial_backoff ≤ cfg.max_backoff
    → Ended cfg e as' (reconnect_loop cfg e as')
reconnect_loop-Ended cfg e as' free some_attempts enough capped =
    let c = attempts cfg 0 cfg.initial_backoff e.closed as' in
    let bounded =
      attempts-IsBounded cfg 0 cfg.initial_backoff e.closed as' some_attempts
        (omega (arith, enough)) in
    let left = finish-closed e c bounded.ends in
    let shut = attempts-closed cfg 0 cfg.initial_backoff e.closed as' in
    rw (idle_loop cfg e as' free) (record {
      bounded = bounded;
      delays_double =
          attempts-delays cfg 0 cfg.initial_backoff e.closed as'
            (sym (delay_first cfg.max_backoff cfg.initial_backoff capped));
      free_again = left.0.0;
      closed_iff = ground (arith, left.0.1, shut);
      failures_count = left.1.0;
      successes_count = left.1.1;
    })

-- The attempt fails, and nobody stops the wait.
abbrev pub IsHopeless : Attempt → Type 0
IsHopeless a = (restart_ice false a ≡ false) × (a.wakeup ≡ time_passed)

still_fails :
    (closed : Bool) (a : Attempt) → restart_ice false a ≡ false → restart_ice closed a ≡ false
unfolding restart_ice
still_fails closed a h = ground (arith, h)

attempts-give_up :
    (cfg : ReconnectConfig) (done backoff : ℕ) (closed : Bool) (as' : List Attempt)
    → done < cfg.max_attempts
    → cfg.max_attempts ≤ done + length as'
    → All IsHopeless as'
    → ((attempts cfg done backoff closed as').ending ≡ gave_up)
      × (done + length (attempts cfg done backoff closed as').delays + 1 ≡ cfg.max_attempts)
unfolding attempts
attempts-give_up cfg done backoff closed [] h k l = absurd (omega arith)
attempts-give_up cfg done backoff closed (a ∷ as') h k l =
    let fails = still_fails (closed || a.closes) a l.0.0 in
    elim (Bool-cases (ltb (suc done) cfg.max_attempts)) [
      | inl more ↦
          let later =
            attempts-give_up cfg (suc done) (doubled cfg.max_backoff backoff) (closed || a.closes)
              as' (ltb→lt (suc done) cfg.max_attempts more) (omega (arith, k)) l.1 in
          ground (arith, later, l.0.1, fails, more, h)
      | inr last ↦ ground (arith, last, l.0.1, fails, h)
    ]

-- Where every attempt fails and nobody stops it, a cycle gives up after exactly the allowed number of
-- attempts, having waited once between each two: the engine is closed and one failure more is counted.
pub reconnect_loop-gave_up :
    (cfg : ReconnectConfig) (e : Engine) (as' : List Attempt)
    → e.restarting ≡ false
    → 1 ≤ cfg.max_attempts
    → cfg.max_attempts ≤ length as'
    → All IsHopeless as'
    → let (t, c) = reconnect_loop cfg e as' in
      ((t.closed ≡ true) × (t.failures ≡ suc e.failures))
      × ((length c.delays + 1 ≡ cfg.max_attempts) × (length c.reported ≡ cfg.max_attempts))
reconnect_loop-gave_up cfg e as' free some_attempts enough hopeless =
    let c = attempts cfg 0 cfg.initial_backoff e.closed as' in
    let over =
      attempts-give_up cfg 0 cfg.initial_backoff e.closed as' some_attempts (omega (arith, enough))
        hopeless in
    let bounded =
      attempts-IsBounded cfg 0 cfg.initial_backoff e.closed as' some_attempts
        (omega (arith, enough)) in
    let left = finish-closed e c bounded.ends in
    rw (idle_loop cfg e as' free) (
      (left.0.1.1 (inl over.0), left.1.0 over.0),
      (omega (arith, over.1), omega (arith, bounded.gave_up_last over.0)),
    )

-- A restart that works is never reported: a cycle ends as recovered once the offer is sent, so the
-- connected state that follows finds no cycle and counts no success.
pub recovered_unreported :
    (cfg : ReconnectConfig) (e : Engine) (as' : List Attempt)
    → e.restarting ≡ false
    → (reconnect_loop cfg e as').1.ending ≡ recovered
    → (ice_connected (reconnect_loop cfg e as').0).successes ≡ e.successes
unfolding reconnect_loop ice_connected
recovered_unreported cfg e as' free done = ground (arith, free, done)
