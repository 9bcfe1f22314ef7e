-- ===== src/Screen/Frames.antt =====
-- The loop of internal/screen/stream.go, frame after frame.
use remotty.Base.{
  ℕ, suc, ◌+◌, ◌-◌, ◌*◌, ◌≤◌, ◌≡◌, refl, ◌≢◌, ◌⊎◌, inl, inr, List, [], ◌∷◌, ◌++◌, Option, none,
  some, length, arith, length-append, ◌∙◌,
}
use remotty.Base.Int.{ℤ, pos, ◌+ℤ◌, ◌-ℤ◌, ◌≤ℤ◌}
use remotty.Screen.{
  Streamer, capture_and_send, compute_adaptive_quality, record_frame, skip_frame, window,
  frame_size, jpeg_quality, finish_frame,
}
use remotty.Screen.Quality.{IsSound, IsSlow, compute_adaptive_quality-IsSound, slow_step, ℤ_antisym}

-- What the display, the encoder and the clock give for one frame.
pub record Shot : Type 0 where
  pub captured : Option (ℕ × ℕ)
  pub encode : ℕ × ℕ → ℤ → Option ℕ
  pub now : ℕ

abbrev pub shoot : Streamer → Shot → Streamer
shoot s x = (capture_and_send s x.captured x.encode x.now).0

unfoldable pub run : Streamer → List Shot → Streamer
run s [] = s
run s (x ∷ xs) = run (shoot s x) xs

-- A running stream: sound settings, and no more than 30 durations.
pub record IsStreaming (s : Streamer) : Type 0 where
  pub sound : IsSound s.cfg
  pub window_full : length s.frame_times ≤ 30

length-window : (ds : List ℕ) (d : ℕ) → length ds ≤ 30 → length (window (ds ++ d ∷ [])) ≤ 30
length-window [] d h = omega arith
length-window (e ∷ ds) d h = ground (arith, length-append ds (d ∷ []))

adapted-times :
    (s : Streamer)
    → let t = (compute_adaptive_quality s).0 in
      (t.frame_times ≡ s.frame_times)
      × ((t.frames_captured ≡ s.frames_captured) × (t.frames_skipped ≡ s.frames_skipped))
unfolding compute_adaptive_quality
adapted-times s = ground arith

-- What one round leaves: one frame more is captured or skipped.
pub record Counted (s t : Streamer) : Type 0 where
  pub streams : IsStreaming t
  pub counted : t.frames_captured + t.frames_skipped ≡ suc (s.frames_captured + s.frames_skipped)

finish_frame-Counted :
    (s : Streamer) (size : ℕ × ℕ) (o : Option ℕ) (now : ℕ)
    → IsStreaming s
    → Counted s (finish_frame s size o now).0
unfolding finish_frame record_frame skip_frame
finish_frame-Counted s size none now w = record {
  streams = record { sound = w.sound; window_full = w.window_full };
  counted = omega arith;
}
finish_frame-Counted s size (some bytes) now w = record {
  streams = record {
    sound = w.sound;
    window_full = length-window s.frame_times (now - s.last_frame_time) w.window_full;
  };
  counted = omega arith;
}

-- Each round of the loop, whatever the capture and the encoder do, keeps the stream sound with at
-- most 30 durations, and counts one frame more, as captured or as skipped.
pub capture_and_send-Counted :
    (s : Streamer) (captured : Option (ℕ × ℕ)) (encode : ℕ × ℕ → ℤ → Option ℕ) (now : ℕ)
    → IsStreaming s
    → Counted s (capture_and_send s captured encode now).0
unfolding capture_and_send skip_frame
capture_and_send-Counted s none encode now w = record {
  streams = record { sound = w.sound; window_full = w.window_full };
  counted = omega arith;
}
capture_and_send-Counted s (some size) encode now w =
    let t = (compute_adaptive_quality s).0 in
    let same = adapted-times s in
    let done =
      finish_frame-Counted t (frame_size s.cfg size)
        (encode (frame_size s.cfg size) (jpeg_quality (compute_adaptive_quality s).1)) now
        (record {
          sound = compute_adaptive_quality-IsSound s w.sound;
          window_full = rw same.0 w.window_full;
        }) in
    record { streams = done.streams; counted = omega (arith, done.counted, same.1.0, same.1.1) }

finish_frame-cfg :
    (s : Streamer) (size : ℕ × ℕ) (o : Option ℕ) (now : ℕ)
    → (finish_frame s size o now).0.cfg ≡ s.cfg
unfolding finish_frame record_frame skip_frame
finish_frame-cfg s size none now = refl
finish_frame-cfg s size (some bytes) now = refl

shoot-cfg :
    (s : Streamer) (c : Option (ℕ × ℕ)) (encode : ℕ × ℕ → ℤ → Option ℕ) (now : ℕ)
    → c ≢ none
    → (capture_and_send s c encode now).0.cfg ≡ (compute_adaptive_quality s).0.cfg
unfolding capture_and_send
shoot-cfg s none encode now h = absurd (h refl)
shoot-cfg s (some size) encode now h =
    finish_frame-cfg (compute_adaptive_quality s).0 (frame_size s.cfg size)
      (encode (frame_size s.cfg size) (jpeg_quality (compute_adaptive_quality s).1)) now

adapted-min : (s : Streamer) → (compute_adaptive_quality s).0.cfg.min_quality ≡ s.cfg.min_quality
unfolding compute_adaptive_quality
adapted-min s = ground arith

-- Every frame of the row is captured while the stream is slow.
abbrev pub IsLate : Streamer → List Shot → Type 0
IsLate s [] = Unit {0}
IsLate s (x ∷ xs) = (IsSlow s × (x.captured ≢ none)) × IsLate (shoot s x) xs

nearer :
    (q q' low : ℤ) (n : ℕ)
    → ((q' ≡ q -ℤ pos 5) ⊎ (q' ≡ low))
    → q ≤ℤ low +ℤ pos (5 * suc n)
    → q' ≤ℤ low +ℤ pos (5 * n)
unfolding ◌+ℤ◌ ◌-ℤ◌
nearer q q' low n (inl e) h = rw e (ground (arith, h))
nearer q q' low n (inr e) h = rw e (ground arith)

none_left : (a b : ℤ) → a ≤ℤ b +ℤ pos (5 * 0) → a ≤ℤ b
unfolding ◌+ℤ◌
none_left a b h = ground (arith, h)

-- A stream that stays slow comes down to its least quality: a row of slow frames that are captured,
-- a fifth as many as the quality is above the least, ends at the least quality exactly.
pub run-settles :
    (s : Streamer) (xs : List Shot)
    → IsStreaming s
    → IsLate s xs
    → s.cfg.quality ≤ℤ s.cfg.min_quality +ℤ pos (5 * length xs)
    → (run s xs).cfg.quality ≡ s.cfg.min_quality
unfolding run
run-settles s [] w l h =
    ℤ_antisym s.cfg.quality s.cfg.min_quality (none_left s.cfg.quality s.cfg.min_quality h)
      w.sound.above_min
run-settles s (x ∷ xs) w l h =
    let t = shoot s x in
    let same = shoot-cfg s x.captured x.encode x.now l.0.1 in
    let low : t.cfg.min_quality ≡ s.cfg.min_quality = rw same (adapted-min s) in
    let near =
      nearer s.cfg.quality (compute_adaptive_quality s).0.cfg.quality s.cfg.min_quality (length xs)
        (slow_step s w.sound l.0.0).0 h in
    run-settles t xs (capture_and_send-Counted s x.captured x.encode x.now w).streams l.1
      (rw (low, same) near)
    ∙ low
