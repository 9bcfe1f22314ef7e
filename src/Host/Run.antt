-- ===== src/Host/Run.antt =====
-- internal/host/daemon.go: the loop of `Run`, which connects again and again.
use remotty.Base.{
  ℕ, suc, ◌≡◌, refl, Bool, false, ◌&&◌, List, [], ◌∷◌, if◌then◌else◌, ltb, All, arith, ap, sym, ◌∙◌,
}
use remotty.Backoff.{doubled, delay_at, doubled-delay_at, delay_first}

-- What a call of `connect` meets: the dial, the write of the registration, the read of its answer, and
-- whether the context was over when the read loop ended. `connect` fails in every case but the last:
-- a read loop that ends otherwise ends with the error of the read.
pub record Connection : Type 0 where
  pub dialed : Bool
  pub registered : Bool
  pub answered : Bool
  pub cancelled : Bool

unfoldable pub connect : Connection → Bool
connect c = c.dialed && c.registered && c.answered && c.cancelled

-- The greatest delay: what is set, and no less than the first.
abbrev pub max_backoff_of : ℕ → ℕ → ℕ
max_backoff_of wait max_wait = if ltb max_wait wait then wait else max_wait

-- The delays that `Run` waits, one after each connection that failed, from the delay `backoff` on. The
-- list ends where the context is over.
unfoldable pub run : ℕ → ℕ → ℕ → List Connection → List ℕ
unfolding connect
run wait max backoff [] = []
run wait max backoff (c ∷ cs) =
    let again = run wait max wait cs in
    let later = run wait max (doubled max backoff) cs in
    if connect c then again else backoff ∷ later

-- Delays that double from `first`, after `n` of them.
unfoldable pub doubling : ℕ → ℕ → ℕ → List Connection → List ℕ
doubling max first n [] = []
doubling max first n (c ∷ cs) = delay_at max first n ∷ doubling max first (suc n) cs

run-doubling :
    (wait max n : ℕ) (cs : List Connection)
    → All (λ c. c.cancelled ≡ false) cs
    → run wait max (delay_at max wait n) cs ≡ doubling max wait n cs
unfolding run connect doubling
run-doubling wait max n [] h = refl
run-doubling wait max n (c ∷ cs) h =
    ground (arith, h.0, doubled-delay_at max wait n, run-doubling wait max (suc n) cs h.1)

-- As long as the daemon is not told to stop, the delay before it connects again doubles at each
-- connection that ends, up to the greatest delay, and is never reset: also where the connections were
-- good ones, and ended after any time.
pub backoff_never_reset :
    (wait max_wait : ℕ) (cs : List Connection)
    → All (λ c. c.cancelled ≡ false) cs
    → let max = max_backoff_of wait max_wait in run wait max wait cs ≡ doubling max wait 0 cs
backoff_never_reset wait max_wait cs h =
    let max = max_backoff_of wait max_wait in
    let first : delay_at max wait 0 ≡ wait = delay_first max wait (ground arith) in
    ap (λ (b : ℕ). run wait max b cs) (sym first) ∙ run-doubling wait max 0 cs h
