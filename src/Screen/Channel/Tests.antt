-- ===== src/Screen/Channel/Tests.antt =====
-- The theorems on the screen channel at concrete inputs.
use remotty.Base.{
  ℕ, map, ◌≡◌, refl, true, false, ◌&&◌, ◌||◌, not, List, [], ◌∷◌, none, some, ◌==◌, nat_key, any,
  arith, if◌then◌else◌,
}
use remotty.Base.Int.{pos}
use remotty.Screen.{
  Frame, new_streamer, normalized, capture_and_send, compute_adaptive_quality, finish_frame,
  record_frame, frame_size, stop, total_time, Streamer, default_stream_config,
}
use remotty.Screen.Frames.{Shot}
use remotty.Screen.Keys.{string_to_key_code, pressed}
use remotty.Screen.Channel.{
  ScreenSession, ScreenEvent, hears, ticks, screen_start, screen_stop, ScreenRequest, key_press,
  key_release, Key, on_screen_message, react_all, react, handle_screen_start, stop_active, activate,
  start_async, requested_config, on_tick, call_back, without,
}
use remotty.Screen.Channel.Active.{IsOrderly}
use remotty.Screen.Channel.Ticks.{react_all-IsOrderly, stop-silent}
use remotty.Screen.Channel.Held.{held, typed_text_held}

abbrev fresh : Streamer
fresh = record {
  cfg = default_stream_config;
  running = false;
  last_frame_time = 0;
  frame_times = [];
  frames_captured = 0;
  frames_skipped = 0;
  total_bytes = 0;
}

abbrev quiet : ScreenSession
quiet = record {
  heap = λ i. fresh;
  next = 0;
  active = none;
  loops = [];
  frames = [];
  inputs = [];
  errors = [];
}

quiet-IsOrderly : IsOrderly quiet
quiet-IsOrderly = record {
  runs_active = λ i h. absurd (cc);
  active_there = λ i h. absurd (cc);
  streams = λ i h. absurd (omega (arith, h));
  ordered = tt;
}

abbrev plain : ScreenRequest
plain = record { fps = pos 0; quality = pos 0; max_dimension = pos 0 }

abbrev shot : Shot
shot = record { captured = some (4, 3); encode = λ size q. some 10; now = 5 }

-- The second stream replaces the first, whose late tick ends its loop.
abbrev events : List ScreenEvent
events =
    hears (screen_start plain) 1
    ∷ ticks 0 shot true
    ∷ hears (screen_start plain) 2
    ∷ ticks 0 shot true
    ∷ ticks 1 shot true
    ∷ []

react_all-IsOrderly_example : IsOrderly (react_all quiet events)
react_all-IsOrderly_example = react_all-IsOrderly quiet events quiet-IsOrderly

stop-silent_example :
    (react_all (react_all quiet events) (hears screen_stop 3 ∷ ticks 1 shot true ∷ [])).frames
    ≡ (react_all quiet events).frames
stop-silent_example =
    stop-silent (react_all quiet events) 3 (ticks 1 shot true ∷ []) react_all-IsOrderly_example
      (refl, tt)

-- After "bc" is typed, the key that it pressed for "c" is still down.
typed_text_held_example :
    let typed : Key = record { key_code = 0; chars = 98 ∷ 99 ∷ [] } in
    held 2
      (on_screen_message
        (on_screen_message quiet (key_press (some typed)) 1)
        (key_release (some typed))
        2).inputs
    ≡ (if not (string_to_key_code (98 ∷ 99 ∷ []) == 0) && string_to_key_code (98 ∷ 99 ∷ []) == 2
        then false
        else any (λ code. code == 2) (pressed (98 ∷ 99 ∷ [])) || false)
typed_text_held_example = typed_text_held quiet 98 (99 ∷ []) 0 1 2 2

still_down_test :
    (if not (string_to_key_code (98 ∷ 99 ∷ []) == 0) && string_to_key_code (98 ∷ 99 ∷ []) == 2
      then false
      else any (λ code. code == 2) (pressed (98 ∷ 99 ∷ [])) || false)
    ≡ true
unfolding string_to_key_code pressed
still_down_test = refl

order_test : map (λ (f : ℕ × Frame). f.0) (react_all quiet events).frames ≡ 1 ∷ 0 ∷ []
unfolding react_all react on_screen_message handle_screen_start stop_active activate start_async
    new_streamer normalized requested_config on_tick call_back capture_and_send
    compute_adaptive_quality finish_frame record_frame frame_size stop without total_time
order_test = refl
