-- ===== src/Screen/Channel/Ticks.antt =====
-- internal/host/daemon.go, `handleScreenChannel`: the loops of the streams between the messages.
use mathlib.Core.Path.{subst}
use remotty.Base.{
  ℕ, ◌<◌, ◌≡◌, refl, inl, inr, Bool, true, false, ◌&&◌, not, List, [], ◌∷◌, Option, none, some,
  ◌==◌, nat_key, any, arith, ap, ◌∙◌, sym, ==_iff, Option-cases, true≢false, if_case, All,
}
use remotty.Screen.{Streamer, Frame, capture_and_send}
use remotty.Screen.Frames.{Shot, IsStreaming, capture_and_send-Counted}
use remotty.Screen.Channel.{
  ScreenSession, screen_start, screen_stop, without, ScreenEvent, hears, ticks, ends, set_streamer,
  stop_active, handle_key_press, handle_key_release, handle_mouse_click, on_screen_message,
  is_active, call_back, on_tick, react, react_all,
}
use remotty.Screen.Channel.Active.{
  Descends, IsOrderly, capture_and_send-running, on_screen_message-IsOrderly, stop_active-IsIdle,
  top, write-IsOrderly,
}

active_some : (ss : ScreenSession) (i : ℕ) → is_active ss i ≡ true → ss.active ≡ some i
active_some ss i h = elim (Option-cases ss.active) [
  | inl idle ↦ absurd (true≢false h (rw (idle, is_active) refl))
  | inr (j, busy) ↦ busy ∙ ap some ((==_iff j i).0 (sym (rw (busy, is_active) refl) ∙ h))
]

-- The frame of the active streamer comes first.
sent-IsOrderly :
    (ss : ScreenSession) (i : ℕ) (frame : Frame)
    → IsOrderly ss
    → ss.active ≡ some i
    → IsOrderly (record ss { frames = (i, frame) ∷ ss.frames })
sent-IsOrderly ss i frame w busy = record {
  runs_active = w.runs_active;
  active_there = w.active_there;
  streams = w.streams;
  ordered =
      let at_top : top ss ≡ i = rw (busy, top) refl in
      rw (busy, top) (omega arith, subst (λ n. Descends n ss.frames) at_top w.ordered);
}

call_back-IsOrderly :
    (ss : ScreenSession) (i : ℕ) (s : Streamer) (frame : Frame) (sends : Bool)
    → IsOrderly ss
    → (s.running ≡ true → ss.active ≡ some i)
    → (i < ss.next → IsStreaming s)
    → IsOrderly (call_back ss i s frame sends)
unfolding call_back
call_back-IsOrderly ss i s frame sends w own streams =
    if_case IsOrderly (is_active ss i && sends) _ _
      (λ sent.
        sent-IsOrderly (record ss { heap = set_streamer i s ss.heap }) i frame
          (write-IsOrderly ss i s ss.loops w own streams) (active_some ss i (ground (arith, sent))))
      (λ unsent.
        write-IsOrderly ss i (record s { running = false }) (without i ss.loops) w
          (λ h. absurd (cc))
          (λ h. let old = streams h in record { sound = old.sound; window_full = old.window_full }))

-- What a round leaves, by the streamer and the frame of `captureAndSend`.
tick-IsOrderly :
    (ss : ScreenSession) (i : ℕ) (s : Streamer) (frame : Option Frame) (sends : Bool)
    → IsOrderly ss
    → (s.running ≡ true → ss.active ≡ some i)
    → (i < ss.next → IsStreaming s)
    → IsOrderly (elim frame [
      | none ↦ record ss { heap = set_streamer i s ss.heap }
      | some frame ↦ call_back ss i s frame sends
    ])
tick-IsOrderly ss i s none sends w own streams = write-IsOrderly ss i s ss.loops w own streams
tick-IsOrderly ss i s (some frame) sends w own streams =
    call_back-IsOrderly ss i s frame sends w own streams

on_tick-IsOrderly :
    (ss : ScreenSession) (i : ℕ) (shot : Shot) (sends : Bool)
    → IsOrderly ss
    → IsOrderly (on_tick ss i shot sends)
unfolding on_tick
on_tick-IsOrderly ss i shot sends w =
    let shown = capture_and_send (ss.heap i) shot.captured shot.encode shot.now in
    tick-IsOrderly ss i shown.0 shown.1 sends w
      (λ h.
        w.runs_active i
          (sym (capture_and_send-running (ss.heap i) shot.captured shot.encode shot.now) ∙ h))
      (λ h.
        (capture_and_send-Counted (ss.heap i) shot.captured shot.encode shot.now
          (w.streams i h)).streams)

loops-IsOrderly :
    (ss : ScreenSession) (loops : List ℕ) → IsOrderly ss → IsOrderly (record ss { loops = loops })
loops-IsOrderly ss loops w = record {
  runs_active = w.runs_active;
  active_there = w.active_there;
  streams = w.streams;
  ordered = w.ordered;
}

react-IsOrderly : (ss : ScreenSession) (e : ScreenEvent) → IsOrderly ss → IsOrderly (react ss e)
unfolding react
react-IsOrderly ss (hears msg now) w = on_screen_message-IsOrderly ss msg now w
react-IsOrderly ss (ticks i shot sends) w =
    if_case IsOrderly (any (λ j. j == i) ss.loops) _ _ (λ h. on_tick-IsOrderly ss i shot sends w)
      (λ h. w)
react-IsOrderly ss (ends i) w =
    if_case IsOrderly (not (ss.heap i).running) _ _ (λ h. loops-IsOrderly ss (without i ss.loops) w)
      (λ h. w)

-- Whatever messages come and however the loops of the streams run in between, an orderly screen channel
-- stays so: only the active stream runs, the settings of every stream are sound and it keeps at
-- most 30 durations, and the frames that are sent come in the order in which their streams were started, so that
-- after a frame of a stream none of an earlier stream is sent.
pub react_all-IsOrderly :
    (ss : ScreenSession) (es : List ScreenEvent) → IsOrderly ss → IsOrderly (react_all ss es)
unfolding react_all
react_all-IsOrderly ss [] w = w
react_all-IsOrderly ss (e ∷ es) w = react_all-IsOrderly (react ss e) es (react-IsOrderly ss e w)

-- A message that starts a stream.
abbrev pub starts : ScreenEvent → Bool
starts (hears (screen_start req) now) = true
starts _ = false

stays_idle :
    (ss : ScreenSession) (e : ScreenEvent)
    → starts e ≡ false
    → ss.active ≡ none
    → (react ss e).active ≡ none
unfolding react on_screen_message stop_active handle_key_press handle_key_release handle_mouse_click
    on_tick call_back
stays_idle ss e h idle = grind (arith, h, idle)

stays_silent :
    (ss : ScreenSession) (e : ScreenEvent)
    → starts e ≡ false
    → ss.active ≡ none
    → (react ss e).frames ≡ ss.frames
unfolding react on_screen_message stop_active handle_key_press handle_key_release handle_mouse_click
    on_tick call_back
stays_silent ss e h idle = grind (arith, h, idle)

stop_active-frames : (ss : ScreenSession) → (stop_active ss).frames ≡ ss.frames
unfolding stop_active
stop_active-frames ss = grind (arith)

idle-silent :
    (ss : ScreenSession) (es : List ScreenEvent)
    → All (λ e. starts e ≡ false) es
    → ss.active ≡ none
    → (react_all ss es).frames ≡ ss.frames
unfolding react_all
idle-silent ss [] h idle = refl
idle-silent ss (e ∷ es) h idle =
    idle-silent (react ss e) es h.1 (stays_idle ss e h.0 idle) ∙ stays_silent ss e h.0 idle

-- A client that stops the screen sees no frame until it starts it again, whatever other messages come
-- and whatever ticks the loops of the streams still take.
pub stop-silent :
    (ss : ScreenSession) (now : ℕ) (es : List ScreenEvent)
    → IsOrderly ss
    → All (λ e. starts e ≡ false) es
    → (react_all ss (hears screen_stop now ∷ es)).frames ≡ ss.frames
unfolding react_all react on_screen_message
stop-silent ss now es w h =
    idle-silent (stop_active ss) es h (stop_active-IsIdle ss w).idle ∙ stop_active-frames ss
