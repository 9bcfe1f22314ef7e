-- ===== src/Backoff.antt =====
-- The doubling delay of internal/webrtc/engine.go (reconnectLoop) and internal/host/daemon.go (Run).
use native.Mathlib.Nat.{mul_assoc, pow-suc}
use remotty.Base.{ℕ, suc, ◌*◌, ◌^◌, ◌≤◌, ◌≡◌, if◌then◌else◌, ltb, arith, sym, ap, ◌∙◌}

-- `backoff *= 2`, and the cap.
abbrev pub doubled : ℕ → ℕ → ℕ
doubled cap b = if ltb cap (b * 2) then cap else b * 2

-- The lesser of the cap and the first delay doubled `n` times.
abbrev pub delay_at : ℕ → ℕ → ℕ → ℕ
delay_at cap first n = if ltb cap (first * 2 ^ n) then cap else first * 2 ^ n

power_step : (first n : ℕ) → first * 2 ^ suc n ≡ first * 2 ^ n * 2
power_step first n = ap (λ (k : ℕ). first * k) (pow-suc 2 n) ∙ sym (mul_assoc first (2 ^ n) 2)

pub delay_first : (cap first : ℕ) → first ≤ cap → delay_at cap first 0 ≡ first
delay_first cap first h = ground (arith, h)

pub doubled-delay_at :
    (cap first n : ℕ) → doubled cap (delay_at cap first n) ≡ delay_at cap first (suc n)
doubled-delay_at cap first n = ground (arith, power_step first n)
