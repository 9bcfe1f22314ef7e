-- ===== src/Screen/Channel.antt =====
-- internal/host/daemon.go, `handleScreenChannel`, with the loops of the streams that it starts
-- (`StartAsync` and `Stop` of internal/screen/stream.go).
-- A `*Streamer` is a number that points into `heap`. The number of a new streamer is `next`. `loops`
-- has the streams whose goroutine runs, and `frames` what was sent, the newest first, with the
-- streamer that sent it. A float64 is only passed on, so its bits stand for it.
pub mod Active
pub mod Ticks
mod Tests
pub mod Held
use remotty.Base.{
  ℕ, suc, ◌+◌, Bool, true, false, ◌&&◌, not, List, [], ◌∷◌, ◌++◌, Option, none, some, ◌==◌, String,
  nat_key, if◌then◌else◌, any,
}
use remotty.Base.Int.{ℤ, pos, ltb_ℤ}
use remotty.Screen.{
  StreamConfig, default_stream_config, Streamer, new_streamer, stop, Frame, capture_and_send,
}
use remotty.Screen.Frames.{Shot}
use remotty.Screen.Keys.{string_to_key_code, pressed}

-- What is asked of the system.
pub data Input : Type 0 where
  mouse_moved mouse_scrolled : ℕ → ℕ → Input
  button_down button_up : ℤ → ℕ → ℕ → Input
  key_down key_up : ℕ → Input

pub record ScreenSession : Type 0 where
  pub heap : ℕ → Streamer
  pub next : ℕ
  pub active : Option ℕ
  pub loops : List ℕ
  pub frames : List (ℕ × Frame)
  pub inputs : List Input
  pub errors : List String

pub record ScreenRequest : Type 0 where
  pub fps : ℤ
  pub quality : ℤ
  pub max_dimension : ℤ

pub record MouseClick : Type 0 where
  pub button : ℤ
  pub x : ℕ
  pub y : ℕ
  pub down : Bool

-- The characters are bytes. A character of several bytes has no key, and none of its bytes has one.
pub record Key : Type 0 where
  pub key_code : ℕ
  pub chars : List ℕ

-- A message with the payload that was decoded, if it could be; the payload of `screen_start` is what the
-- decoder leaves, since its error is not looked at.
pub data ScreenMessage : Type 0 where
  screen_start : ScreenRequest → ScreenMessage
  screen_stop : ScreenMessage
  mouse_move mouse_scroll : Option (ℕ × ℕ) → ScreenMessage
  mouse_click : Option MouseClick → ScreenMessage
  key_press key_release : Option Key → ScreenMessage
  other_message : ScreenMessage

abbrev pub set_streamer : ℕ → Streamer → (ℕ → Streamer) → ℕ → Streamer
set_streamer i s heap j = if i == j then s else heap j

-- `StartAsync`: the streamer, and whether a loop is begun.
unfoldable pub start_async : Streamer → ℕ → Streamer × Bool
start_async s now =
    if s.running then (s, false) else (record s { running = true; last_frame_time = now }, true)

-- The active streamer is stopped and forgotten.
unfoldable pub stop_active : ScreenSession → ScreenSession
unfolding stop
stop_active ss = elim ss.active [
  | none ↦ ss
  | some i ↦ record ss { heap = set_streamer i (stop (ss.heap i)).0 ss.heap; active = none }
]

abbrev pub if_positive : ℤ → ℤ → ℤ
if_positive given old = if ltb_ℤ (pos 0) given then given else old

unfoldable pub requested_config : ScreenRequest → StreamConfig
requested_config req = record default_stream_config {
  fps = if_positive req.fps default_stream_config.fps;
  quality = if_positive req.quality default_stream_config.quality;
  max_width = if_positive req.max_dimension default_stream_config.max_width;
  max_height = if_positive req.max_dimension default_stream_config.max_height;
}

-- A streamer that is made becomes the active one, and its loop begins.
unfoldable pub activate : ScreenSession → Streamer → ℕ → ScreenSession
unfolding start_async
activate ss s now =
    let (s', begun) = start_async s now in
    record ss {
      heap = set_streamer ss.next s' ss.heap;
      next = suc ss.next;
      active = some ss.next;
      loops = if begun then ss.next ∷ ss.loops else ss.loops;
    }

unfoldable pub handle_screen_start : ScreenSession → ScreenRequest → ℕ → ScreenSession
unfolding new_streamer stop_active
handle_screen_start ss req now =
    let ss' = stop_active ss in
    elim (new_streamer (requested_config req) true) [
      | none ↦ record ss' { errors = ss'.errors ++ ("Failed to start screen capture" ∷ []) }
      | some s ↦ activate ss' s now
    ]

abbrev pub add_input : Input → ScreenSession → ScreenSession
add_input input ss = record ss { inputs = input ∷ ss.inputs }

-- One key press after the other.
unfoldable pub press_keys : List ℕ → List Input → List Input
press_keys [] inputs = inputs
press_keys (code ∷ codes) inputs = press_keys codes (key_down code ∷ inputs)

abbrev pub is_empty : List ℕ → Bool
is_empty [] = true
is_empty (c ∷ cs) = false

unfoldable pub handle_key_press : ScreenSession → Key → ScreenSession
unfolding press_keys
handle_key_press ss key =
    if not (is_empty key.chars)
    then record ss { inputs = press_keys (pressed key.chars) ss.inputs }
    else (if not (key.key_code == 0) then add_input (key_down key.key_code) ss else ss)

unfoldable pub handle_key_release : ScreenSession → Key → ScreenSession
handle_key_release ss key =
    let code = if not (is_empty key.chars) then string_to_key_code key.chars else key.key_code in
    if not (code == 0) then add_input (key_up code) ss else ss

unfoldable pub handle_mouse_click : ScreenSession → MouseClick → ScreenSession
handle_mouse_click ss c =
    if c.down
    then add_input (button_down c.button c.x c.y) ss
    else add_input (button_up c.button c.x c.y) ss

-- The handler of messages.
unfoldable pub on_screen_message : ScreenSession → ScreenMessage → ℕ → ScreenSession
on_screen_message ss (screen_start req) now = handle_screen_start ss req now
on_screen_message ss screen_stop now = stop_active ss
on_screen_message ss (mouse_move (some (x, y))) now = add_input (mouse_moved x y) ss
on_screen_message ss (mouse_scroll (some (x, y))) now = add_input (mouse_scrolled x y) ss
on_screen_message ss (mouse_click (some c)) now = handle_mouse_click ss c
on_screen_message ss (key_press (some key)) now = handle_key_press ss key
on_screen_message ss (key_release (some key)) now = handle_key_release ss key
on_screen_message ss _ now = ss

abbrev pub is_active : ScreenSession → ℕ → Bool
is_active ss i = elim ss.active [ none ↦ false | some j ↦ j == i ]

unfoldable pub without : ℕ → List ℕ → List ℕ
without i [] = []
without i (j ∷ js) = let rest = without i js in if j == i then rest else j ∷ rest

-- What the callback does with a frame, when the streamer is `s`: it sends the frame of the active
-- streamer, and ends the loop of any other, or where the send fails.
unfoldable pub call_back : ScreenSession → ℕ → Streamer → Frame → Bool → ScreenSession
unfolding without
call_back ss i s frame sends =
    if is_active ss i && sends
    then record ss { heap = set_streamer i s ss.heap; frames = (i, frame) ∷ ss.frames }
    else record ss {
      heap = set_streamer i (record s { running = false }) ss.heap;
      loops = without i ss.loops;
    }

-- A round of the loop of a streamer, whose frame goes to the callback.
unfoldable pub on_tick : ScreenSession → ℕ → Shot → Bool → ScreenSession
unfolding call_back
on_tick ss i shot sends =
    let (s, frame) = capture_and_send (ss.heap i) shot.captured shot.encode shot.now in
    elim frame [
      | none ↦ record ss { heap = set_streamer i s ss.heap }
      | some frame ↦ call_back ss i s frame sends
    ]

-- What happens next: a message comes, the loop of a streamer has a tick, or it sees that it is stopped.
-- After `Stop` a loop may still take a tick, since `select` chooses among what is ready.
pub data ScreenEvent : Type 0 where
  hears : ScreenMessage → ℕ → ScreenEvent
  ticks : ℕ → Shot → Bool → ScreenEvent
  ends : ℕ → ScreenEvent

unfoldable pub react : ScreenSession → ScreenEvent → ScreenSession
unfolding on_screen_message on_tick
react ss (hears msg now) = on_screen_message ss msg now
react ss (ticks i shot sends) = if any (λ j. j == i) ss.loops then on_tick ss i shot sends else ss
react ss (ends i) = if not (ss.heap i).running then record ss { loops = without i ss.loops } else ss

unfoldable pub react_all : ScreenSession → List ScreenEvent → ScreenSession
react_all ss [] = ss
react_all ss (e ∷ es) = react_all (react ss e) es
