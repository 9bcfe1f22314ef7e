-- ===== src/Screen/Quality.antt =====
-- The adaptive quality of internal/screen/stream.go stays between its limits.
use remotty.Base.{ℕ, ◌*◌, ◌<◌, ◌≡◌, refl, ◌≢◌, ◌⊎◌, true, false, List, [], ◌∷◌, arith, ap, ◌∙◌}
use remotty.Base.Int.{ℤ, pos, negsuc, ◌+ℤ◌, ◌-ℤ◌, ◌≤ℤ◌}
use remotty.Screen.{
  StreamConfig, Streamer, normalized, or_default, compute_adaptive_quality, stepped, clamped,
  average, target_interval, update_config, is_nil, stats,
}

-- The settings of a stream that works.
pub record IsSound (cfg : StreamConfig) : Type 0 where
  pub fps_positive : pos 1 ≤ℤ cfg.fps
  pub min_positive : pos 1 ≤ℤ cfg.min_quality
  pub above_min : cfg.min_quality ≤ℤ cfg.quality
  pub below_max : cfg.quality ≤ℤ cfg.max_quality

or_default-positive : (a b : ℤ) → pos 1 ≤ℤ b → pos 1 ≤ℤ or_default a b
or_default-positive a b h = ground arith

-- Whatever settings are asked for, those of a new stream are sound; and settings that were sound
-- already are kept.
pub normalized-IsSound :
    (cfg : StreamConfig) → IsSound (normalized cfg) × (IsSound cfg → normalized cfg ≡ cfg)
unfolding normalized ◌+ℤ◌
normalized-IsSound cfg = (
  record {
    fps_positive = or_default-positive cfg.fps (pos 15) (omega arith);
    min_positive = or_default-positive cfg.min_quality (pos 20) (omega arith);
    above_min = ground arith;
    below_max = ground arith;
  },
  λ h. ground (arith, h.fps_positive, h.min_positive, h.above_min, h.below_max),
)

clamped-between :
    (cfg : StreamConfig) (q : ℤ)
    → cfg.min_quality ≤ℤ cfg.max_quality
    → (cfg.min_quality ≤ℤ clamped cfg q) × (clamped cfg q ≤ℤ cfg.max_quality)
clamped-between cfg q h = ground arith

pub compute_adaptive_quality-IsSound :
    (s : Streamer) → IsSound s.cfg → IsSound (compute_adaptive_quality s).0.cfg
unfolding compute_adaptive_quality
compute_adaptive_quality-IsSound s w = ground (
  arith,
  w.fps_positive,
  w.min_positive,
  w.above_min,
  w.below_max,
  clamped-between s.cfg (stepped s.cfg (average s.frame_times)),
)

-- The frames take more than 0.85 of the time that there is for one.
pub record IsSlow (s : Streamer) : Type 0 where
  pub adaptive : s.cfg.adaptive_quality ≡ true
  pub some_time : s.frame_times ≢ []
  pub over : target_interval s.cfg * 85 < average s.frame_times * 100

pub ℤ_antisym : (a b : ℤ) → a ≤ℤ b → b ≤ℤ a → a ≡ b
ℤ_antisym (pos a) (pos b) h k = ap pos (omega arith)
ℤ_antisym (pos a) (negsuc b) h k = absurd (omega arith)
ℤ_antisym (negsuc a) (pos b) h k = absurd (omega arith)
ℤ_antisym (negsuc a) (negsuc b) h k = ap negsuc (omega arith)

not_nil : (ds : List ℕ) → ds ≢ [] → is_nil ds ≡ false
not_nil [] h = absurd (h refl)
not_nil (d ∷ ds) h = refl

-- A slow frame takes 5 from the quality, down to the least.
pub slow_step :
    (s : Streamer)
    → IsSound s.cfg
    → IsSlow s
    → let t = (compute_adaptive_quality s).0 in
      ((t.cfg.quality ≡ s.cfg.quality -ℤ pos 5) ⊎ (t.cfg.quality ≡ s.cfg.min_quality))
      × (t.cfg.quality ≤ℤ s.cfg.quality)
unfolding compute_adaptive_quality ◌-ℤ◌
slow_step s w l =
    ground (arith, w.above_min, w.below_max, l.adaptive, l.over, not_nil s.frame_times l.some_time)

-- Reading the statistics of a slow stream lowers its quality, though no frame was captured meanwhile:
-- for a sound stream that is slow and at least 5 above its least quality, `stats` leaves the quality
-- 5 lower and the count of frames as it was.
pub stats_lowers_quality :
    (s : Streamer)
    → IsSound s.cfg
    → IsSlow s
    → s.cfg.min_quality ≤ℤ s.cfg.quality -ℤ pos 5
    → ((stats s).0.cfg.quality ≡ s.cfg.quality -ℤ pos 5)
      × ((stats s).0.frames_captured ≡ s.frames_captured)
unfolding stats compute_adaptive_quality ◌-ℤ◌
stats_lowers_quality s w l room =
    ground
      (arith, w.above_min, w.below_max, l.adaptive, l.over, not_nil s.frame_times l.some_time, room)

clamped_inverted :
    (cfg : StreamConfig) (q : ℤ)
    → cfg.max_quality +ℤ pos 1 ≤ℤ cfg.min_quality
    → clamped cfg q ≡ cfg.max_quality
unfolding ◌+ℤ◌
clamped_inverted cfg q h = ground (arith, h)

adapts :
    (s : Streamer)
    → s.cfg.adaptive_quality ≡ true
    → s.frame_times ≢ []
    → (compute_adaptive_quality s).1 ≡ clamped s.cfg (stepped s.cfg (average s.frame_times))
unfolding compute_adaptive_quality
adapts s a n = rw (a, not_nil s.frame_times n)

-- An update can turn the limits round, which `NewStreamer` would have put right: after one that sets
-- a positive greatest quality below the least, a stream that adapts computes the greatest quality,
-- which is below the least.
pub update_inverts_limits :
    (s : Streamer) (cfg : StreamConfig)
    → s.frame_times ≢ []
    → cfg.adaptive_quality ≡ true
    → pos 1 ≤ℤ cfg.max_quality
    → cfg.max_quality +ℤ pos 1 ≤ℤ cfg.min_quality
    → let t = update_config s cfg in
      ((compute_adaptive_quality t).1 ≡ cfg.max_quality) × (t.cfg.min_quality ≡ cfg.min_quality)
unfolding update_config ◌+ℤ◌
update_inverts_limits s cfg some_time adaptive positive inverted =
    let t = update_config s cfg in
    let high : t.cfg.max_quality ≡ cfg.max_quality = ground (arith, positive) in
    let low : t.cfg.min_quality ≡ cfg.min_quality = ground (arith, positive, inverted) in
    (
      adapts t adaptive some_time
          ∙ clamped_inverted t.cfg (stepped t.cfg (average t.frame_times)) (rw (high, low) inverted)
          ∙ high,
      low,
    )
