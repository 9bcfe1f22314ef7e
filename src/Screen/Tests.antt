-- ===== src/Screen/Tests.antt =====
-- The theorems on the screen stream at concrete inputs.
use remotty.Base.{◌≢◌, ◌≡◌, refl, true, [], ◌∷◌, none, some, arith}
use remotty.Base.Int.{pos, negsuc, ◌+ℤ◌, ◌-ℤ◌}
use remotty.Screen.{
  StreamConfig, Streamer, default_stream_config, normalized, capture_and_send,
  compute_adaptive_quality, finish_frame, record_frame, skip_frame, frame_size, total_time,
}
use remotty.Screen.Scale.{scaled_size}
use remotty.Screen.Blend.{Image, IsWithin, red, scale_bilinear, blend, scale_bilinear-IsWithin}
use remotty.Screen.Quality.{IsSound, IsSlow}
use remotty.Screen.Keys.{pressed, string_to_key_code, other_keys, letter_keys, letters_misplaced}
use remotty.Screen.Frames.{Shot, IsStreaming, run, run-settles}

abbrev odd_settings : StreamConfig
odd_settings = record default_stream_config {
  fps = pos 0;
  quality = negsuc 3;
  min_quality = pos 95;
}

odd_test : (normalized odd_settings).quality ≡ pos 95
unfolding normalized ◌+ℤ◌
odd_test = refl

scaled_test : scaled_size (pos 1280) (pos 600) (1920, 1080) ≡ (1066, 600)
unfolding scaled_size
scaled_test = refl

abbrev plain : Image
plain = record { width = 3; height = 2; rgba_at = λ x y. record { r = 7; g = x; b = y; a = 255 } }

blend_test : ((scale_bilinear plain 2 1).rgba_at 1 0).g ≡ 2
unfolding scale_bilinear blend
blend_test = refl

scale_bilinear-IsWithin_example : IsWithin red 7 7 (scale_bilinear plain 2 1)
scale_bilinear-IsWithin_example =
    (scale_bilinear-IsWithin red 7 7 plain 2 1 (omega arith) (omega arith) (omega arith)
      (λ x y hx hy. (omega arith, omega arith))).1

-- A stream of 10 frames a second whose only frame took 95 milliseconds.
abbrev slow : Streamer
slow = record {
  cfg = record default_stream_config { fps = pos 10; quality = pos 27 };
  running = true;
  last_frame_time = 1000;
  frame_times = 95000000 ∷ [];
  frames_captured = 1;
  frames_skipped = 0;
  total_bytes = 9;
}

slow-IsSound : IsSound slow.cfg
slow-IsSound = record {
  fps_positive = omega arith;
  min_positive = omega arith;
  above_min = omega arith;
  below_max = omega arith;
}

slow-IsSlow : IsSlow slow
unfolding total_time
slow-IsSlow = record { adaptive = refl; some_time = (λ e. cc); over = omega arith }

slow-IsStreaming : IsStreaming slow
slow-IsStreaming = record { sound = slow-IsSound; window_full = omega arith }

-- Two more frames, as slow as the first.
abbrev second : Shot
second = record { captured = some (64, 48); encode = λ size q. some 5; now = 95001000 }

abbrev third : Shot
third = record { captured = some (64, 48); encode = λ size q. none; now = 190001000 }

second-IsSlow : IsSlow (capture_and_send slow second.captured second.encode second.now).0
unfolding capture_and_send compute_adaptive_quality finish_frame record_frame skip_frame frame_size
    total_time ◌-ℤ◌
second-IsSlow = record { adaptive = refl; some_time = (λ e. cc); over = omega arith }

run-settles_example : (run slow (second ∷ third ∷ [])).cfg.quality ≡ pos 20
unfolding ◌+ℤ◌
run-settles_example =
    run-settles slow (second ∷ third ∷ []) slow-IsStreaming
      ((slow-IsSlow, λ e. cc), ((second-IsSlow, λ e. cc), tt)) (omega arith)

-- The letter `b`, whose key is 0x0b.
letters_misplaced_example : pressed (98 ∷ []) ≢ 0x0b ∷ []
unfolding letter_keys
letters_misplaced_example = (letters_misplaced 1 0x0b refl).0

space_test : pressed (32 ∷ 97 ∷ 10 ∷ []) ≡ 0x31 ∷ 0x24 ∷ []
unfolding pressed string_to_key_code other_keys
space_test = refl
