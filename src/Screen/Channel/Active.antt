-- ===== src/Screen/Channel/Active.antt =====
-- internal/host/daemon.go, `handleScreenChannel`: which stream runs, and whose frames are sent.
use mathlib.Core.Path.{subst}
use remotty.Base.{
  ℕ, suc, ◌≤◌, ◌<◌, ◌≡◌, refl, inl, inr, Bool, true, false, not, List, [], ◌∷◌, Option, none, some,
  ◌==◌, nat_key, if◌then◌else◌, arith, ap, ◌∙◌, sym, some_inj, ==_iff, Bool-cases, Option-cases,
  true≢false, if_true, if_false, if_case,
}
use remotty.Base.Int.{ℤ}
use remotty.Screen.{
  StreamConfig, Streamer, new_streamer, stop, Frame, capture_and_send, compute_adaptive_quality,
  finish_frame, record_frame, skip_frame,
}
use remotty.Screen.Quality.{normalized-IsSound}
use remotty.Screen.Frames.{IsStreaming}
use remotty.Screen.Keys.{string_to_key_code}
use remotty.Screen.Channel.{
  ScreenSession, ScreenRequest, ScreenMessage, screen_start, screen_stop, mouse_move, mouse_scroll,
  mouse_click, key_press, key_release, other_message, Input, key_up, add_input, is_empty,
  set_streamer, start_async, stop_active, requested_config, activate, handle_screen_start,
  handle_key_press, handle_key_release, handle_mouse_click, on_screen_message,
}

-- The frames, the newest first, are in the order of the streams that sent them, up to a bound.
abbrev pub Descends : ℕ → List (ℕ × Frame) → Type 0
Descends bound [] = Unit {0}
Descends bound ((i, frame) ∷ frames) = (i ≤ bound) × Descends i frames

-- The streamer that may send, or one that is yet to come.
abbrev pub top : ScreenSession → ℕ
top ss = elim ss.active [ none ↦ ss.next | some i ↦ i ]

pub record IsOrderly (ss : ScreenSession) : Type 0 where
  pub runs_active : (i : ℕ) → (ss.heap i).running ≡ true → ss.active ≡ some i
  pub active_there : (i : ℕ) → ss.active ≡ some i → i < ss.next
  pub streams : (i : ℕ) → i < ss.next → IsStreaming (ss.heap i)
  pub ordered : Descends (top ss) ss.frames

Descends-le : (a b : ℕ) (frames : List (ℕ × Frame)) → a ≤ b → Descends a frames → Descends b frames
Descends-le a b [] h d = tt
Descends-le a b ((i, frame) ∷ frames) h d = (omega (arith, d.0), d.1)

top_le : (ss : ScreenSession) → IsOrderly ss → top ss ≤ ss.next
top_le ss w = elim (Option-cases ss.active) [
  | inl idle ↦ rw idle (omega arith)
  | inr (i, busy) ↦ rw busy (omega (arith, w.active_there i busy))
]

adapted-running : (s : Streamer) → (compute_adaptive_quality s).0.running ≡ s.running
unfolding compute_adaptive_quality
adapted-running s = ground arith

finish_frame-running :
    (s : Streamer) (size : ℕ × ℕ) (o : Option ℕ) (now : ℕ)
    → (finish_frame s size o now).0.running ≡ s.running
unfolding finish_frame record_frame skip_frame
finish_frame-running s size none now = refl
finish_frame-running s size (some bytes) now = refl

pub capture_and_send-running :
    (s : Streamer) (captured : Option (ℕ × ℕ)) (encode : ℕ × ℕ → ℤ → Option ℕ) (now : ℕ)
    → (capture_and_send s captured encode now).0.running ≡ s.running
unfolding capture_and_send skip_frame
capture_and_send-running s none encode now = refl
capture_and_send-running s (some size) encode now =
    finish_frame-running (compute_adaptive_quality s).0 _ _ now ∙ adapted-running s

-- A streamer is written that runs only if it is the active one.
pub write-IsOrderly :
    (ss : ScreenSession) (i : ℕ) (s : Streamer) (loops : List ℕ)
    → IsOrderly ss
    → (s.running ≡ true → ss.active ≡ some i)
    → (i < ss.next → IsStreaming s)
    → IsOrderly (record ss { heap = set_streamer i s ss.heap; loops = loops })
write-IsOrderly ss i s loops w own streams = record {
  runs_active = λ j. elim (Bool-cases (i == j)) [
    | inl e ↦ rw e (λ h. own h ∙ ap some ((==_iff i j).0 e))
    | inr e ↦ rw e (w.runs_active j)
  ];
  active_there = w.active_there;
  streams = λ j h. elim (Bool-cases (i == j)) [
    | inl e ↦ rw e (streams (omega (arith, h, (==_iff i j).0 e)))
    | inr e ↦ rw e (w.streams j h)
  ];
  ordered = w.ordered;
}

stop-stopped : (s : Streamer) → (stop s).0 ≡ record s { running = false }
unfolding stop
stop-stopped s = elim (Bool-cases s.running) [
  | inl e ↦ ap (λ (p : Streamer × Bool). p.0) (if_true s.running _ _ e)
  | inr e ↦
      ap (λ (p : Streamer × Bool). p.0) (if_false s.running _ _ e)
      ∙ ap (λ b. record s { running = b }) e
]

-- Nothing is active after a stop, and nothing runs.
pub record IsIdle (ss : ScreenSession) : Type 0 where
  pub orderly : IsOrderly ss
  pub idle : ss.active ≡ none

pub stop_active-IsIdle : (ss : ScreenSession) → IsOrderly ss → IsIdle (stop_active ss)
unfolding stop_active
stop_active-IsIdle ss w = elim (Option-cases ss.active) [
  | inl idle ↦ rw (idle, stop_active) (record { orderly = w; idle = idle })
  | inr (i, busy) ↦
      rw (busy, stop_active)
        (record {
          orderly = record {
            runs_active = λ j. elim (Bool-cases (i == j)) [
              | inl e ↦ rw (e, stop-stopped (ss.heap i)) (λ h. absurd (cc))
              | inr e ↦ rw e (λ h.
                  absurd
                    (true≢false ((==_iff i j).1 (some_inj i j (sym busy ∙ w.runs_active j h))) e))
            ];
            active_there = λ j h. absurd (cc);
            streams = λ j h. elim (Bool-cases (i == j)) [
              | inl e ↦
                  rw (e, stop-stopped (ss.heap i))
                    (let old = w.streams i (w.active_there i busy) in
                      record { sound = old.sound; window_full = old.window_full })
              | inr e ↦ rw e (w.streams j h)
            ];
            ordered = Descends-le (top ss) ss.next ss.frames (top_le ss w) w.ordered;
          };
          idle = refl;
        })
]

new_streamer-IsStreaming :
    (cfg : StreamConfig) (s : Streamer)
    → new_streamer cfg true ≡ some s
    → IsStreaming s × (s.running ≡ false)
unfolding new_streamer
new_streamer-IsStreaming cfg s e =
    subst (λ s. IsStreaming s × (s.running ≡ false)) (some_inj _ s e)
      (record { sound = (normalized-IsSound cfg).0; window_full = omega arith }, refl)

-- The streamer once its loop is begun.
abbrev begun : Streamer → ℕ → Streamer
begun s now = record s { running = true; last_frame_time = now }

abbrev activated : ScreenSession → Streamer × Bool → ScreenSession
activated ss started = record ss {
  heap = set_streamer ss.next started.0 ss.heap;
  next = suc ss.next;
  active = some ss.next;
  loops = if started.1 then ss.next ∷ ss.loops else ss.loops;
}

activate_fresh :
    (ss : ScreenSession) (s : Streamer) (now : ℕ)
    → s.running ≡ false
    → activate ss s now ≡ activated ss (begun s now, true)
unfolding activate start_async
activate_fresh ss s now fresh = ap (activated ss) (if_false s.running _ _ fresh)

activated-IsOrderly :
    (ss : ScreenSession) (s : Streamer) (now : ℕ)
    → IsIdle ss
    → IsStreaming s
    → IsOrderly (activated ss (begun s now, true))
activated-IsOrderly ss s now w sound = record {
  runs_active = λ j. elim (Bool-cases (ss.next == j)) [
    | inl e ↦ rw e (λ h. ap some ((==_iff ss.next j).0 e))
    | inr e ↦ rw e (λ h. absurd (cc (w.idle, w.orderly.runs_active j h)))
  ];
  active_there = λ j h. omega (arith, some_inj ss.next j h);
  streams = λ j h. elim (Bool-cases (ss.next == j)) [
    | inl e ↦ rw e (record { sound = sound.sound; window_full = sound.window_full })
    | inr e ↦ rw e (w.orderly.streams j (ground (arith, h, e, ==_iff ss.next j)))
  ];
  ordered = Descends-le (top ss) ss.next ss.frames (top_le ss w.orderly) w.orderly.ordered;
}

handle_screen_start-IsOrderly :
    (ss : ScreenSession) (req : ScreenRequest) (now : ℕ)
    → IsOrderly ss
    → IsOrderly (handle_screen_start ss req now)
unfolding handle_screen_start
handle_screen_start-IsOrderly ss req now w =
    let (sound, fresh) = new_streamer-IsStreaming (requested_config req) _ refl in
    subst IsOrderly (sym (activate_fresh (stop_active ss) _ now fresh))
      (activated-IsOrderly (stop_active ss) _ now (stop_active-IsIdle ss w) sound)

-- Inputs do not touch the streams.
inputs-IsOrderly :
    (ss : ScreenSession) (inputs : List Input)
    → IsOrderly ss
    → IsOrderly (record ss { inputs = inputs })
inputs-IsOrderly ss inputs w = record {
  runs_active = w.runs_active;
  active_there = w.active_there;
  streams = w.streams;
  ordered = w.ordered;
}

pub on_screen_message-IsOrderly :
    (ss : ScreenSession) (msg : ScreenMessage) (now : ℕ)
    → IsOrderly ss
    → IsOrderly (on_screen_message ss msg now)
unfolding on_screen_message handle_key_press handle_key_release handle_mouse_click
on_screen_message-IsOrderly ss (screen_start req) now w = handle_screen_start-IsOrderly ss req now w
on_screen_message-IsOrderly ss screen_stop now w = (stop_active-IsIdle ss w).orderly
on_screen_message-IsOrderly ss (mouse_move (some (x, y))) now w = inputs-IsOrderly ss _ w
on_screen_message-IsOrderly ss (mouse_scroll (some (x, y))) now w = inputs-IsOrderly ss _ w
on_screen_message-IsOrderly ss (mouse_click (some c)) now w =
    if_case IsOrderly c.down _ _ (λ h. inputs-IsOrderly ss _ w) (λ h. inputs-IsOrderly ss _ w)
on_screen_message-IsOrderly ss (key_press (some key)) now w =
    if_case IsOrderly (not (is_empty key.chars)) _ _ (λ h. inputs-IsOrderly ss _ w)
      (λ h. if_case IsOrderly (not (key.key_code == 0)) _ _ (λ k. inputs-IsOrderly ss _ w) (λ k. w))
on_screen_message-IsOrderly ss (key_release (some key)) now w =
    let code = if not (is_empty key.chars) then string_to_key_code key.chars else key.key_code in
    if_case IsOrderly (not (code == 0)) (add_input (key_up code) ss) ss
      (λ h. inputs-IsOrderly ss _ w) (λ h. w)
on_screen_message-IsOrderly ss (mouse_move none) now w = w
on_screen_message-IsOrderly ss (mouse_scroll none) now w = w
on_screen_message-IsOrderly ss (mouse_click none) now w = w
on_screen_message-IsOrderly ss (key_press none) now w = w
on_screen_message-IsOrderly ss (key_release none) now w = w
on_screen_message-IsOrderly ss other_message now w = w
