-- ===== src/Screen.antt =====
-- internal/screen/stream.go: the settings of a stream and the loop that captures, scales and sends.
-- Durations are nanoseconds. A ratio of two durations is compared with 0.85, 0.6 and 0.4 by cross
-- multiplication, which is also right where the target interval is 0. The capture and the encoder
-- are arguments: what they give for this frame.
pub mod Scale
pub mod Blend
pub mod Quality
pub mod Frames
pub mod Keys
pub mod Channel
mod Tests
use remotty.Base.{
  ℕ, ◌+◌, ◌-◌, ◌*◌, ◌/◌, Bool, true, false, ◌&&◌, ◌||◌, not, List, [], ◌∷◌, ◌++◌, Option, none,
  some, if◌then◌else◌, ltb, length,
}
use remotty.Base.Int.{ℤ, pos, ◌+ℤ◌, ◌-ℤ◌, pos_part, ltb_ℤ, leb_ℤ}
use remotty.Screen.Scale.{scaled_size}

pub record StreamConfig : Type 0 where
  pub fps : ℤ
  pub quality : ℤ
  pub display_id : ℤ
  pub max_width : ℤ
  pub max_height : ℤ
  pub adaptive_quality : Bool
  pub min_quality : ℤ
  pub max_quality : ℤ

abbrev pub default_stream_config : StreamConfig
default_stream_config = record {
  fps = pos 15;
  quality = pos 60;
  display_id = pos 0;
  max_width = pos 0;
  max_height = pos 0;
  adaptive_quality = true;
  min_quality = pos 20;
  max_quality = pos 90;
}

pub record Streamer : Type 0 where
  pub cfg : StreamConfig
  pub running : Bool
  pub last_frame_time : ℕ
  pub frame_times : List ℕ
  pub frames_captured : ℕ
  pub frames_skipped : ℕ
  pub total_bytes : ℕ

abbrev pub or_default : ℤ → ℤ → ℤ
or_default given fallback = if leb_ℤ given (pos 0) then fallback else given

-- The checks of `NewStreamer`, in their order.
unfoldable pub normalized : StreamConfig → StreamConfig
normalized cfg =
    let low = or_default cfg.min_quality (pos 20) in
    let high = or_default cfg.max_quality (pos 90) in
    let high' = if ltb_ℤ high low then low +ℤ pos 10 else high in
    let wanted = or_default cfg.quality (pos 60) in
    let raised = if ltb_ℤ wanted low then low else wanted in
    record cfg {
      fps = or_default cfg.fps (pos 15);
      min_quality = low;
      max_quality = high';
      quality = if ltb_ℤ high' raised then high' else raised;
    }

-- `NewStreamer`: the callback is given, or it is nil and there is no streamer.
unfoldable pub new_streamer : StreamConfig → Bool → Option Streamer
unfolding normalized
new_streamer cfg has_callback =
    if not has_callback
    then none
    else some (record {
      cfg = normalized cfg;
      running = false;
      last_frame_time = 0;
      frame_times = [];
      frames_captured = 0;
      frames_skipped = 0;
      total_bytes = 0;
    })

-- `Stop`: the loop is told once.
unfoldable pub stop : Streamer → Streamer × Bool
stop s = if s.running then (record s { running = false }, true) else (s, false)

abbrev pub set_positive : ℤ → ℤ → ℤ
set_positive given old = if ltb_ℤ (pos 0) given then given else old

unfoldable pub update_config : Streamer → StreamConfig → Streamer
update_config s cfg =
    let old = s.cfg in
    record s {
      cfg = record {
        fps = set_positive cfg.fps old.fps;
        quality = set_positive cfg.quality old.quality;
        display_id = cfg.display_id;
        max_width = cfg.max_width;
        max_height = cfg.max_height;
        adaptive_quality = cfg.adaptive_quality;
        min_quality = set_positive cfg.min_quality old.min_quality;
        max_quality = set_positive cfg.max_quality old.max_quality;
      };
    }

unfoldable pub total_time : List ℕ → ℕ
total_time [] = 0
total_time (d ∷ ds) = d + total_time ds

abbrev pub average : List ℕ → ℕ
average ds = total_time ds / length ds

-- `time.Second / time.Duration(FPS)`.
abbrev pub target_interval : StreamConfig → ℕ
target_interval cfg = 1000000000 / pos_part cfg.fps

-- The `switch` on the ratio of the average to the target.
abbrev pub stepped : StreamConfig → ℕ → ℤ
stepped cfg avg =
    let target = target_interval cfg in
    let q = cfg.quality in
    if ltb (target * 85) (avg * 100)
    then q -ℤ pos 5
    else (if ltb (avg * 10) (target * 4) && ltb_ℤ q cfg.max_quality
        then q +ℤ pos 5
        else (if ltb (avg * 10) (target * 6) && ltb_ℤ q cfg.max_quality then q +ℤ pos 2 else q))

abbrev pub clamped : StreamConfig → ℤ → ℤ
clamped cfg q =
    let raised = if ltb_ℤ q cfg.min_quality then cfg.min_quality else q in
    if ltb_ℤ cfg.max_quality raised then cfg.max_quality else raised

abbrev pub is_nil : List ℕ → Bool
is_nil [] = true
is_nil (d ∷ ds) = false

-- `computeAdaptiveQuality`: the quality, which the streamer keeps.
unfoldable pub compute_adaptive_quality : Streamer → Streamer × ℤ
compute_adaptive_quality s =
    let cfg = s.cfg in
    let q = clamped cfg (stepped cfg (average s.frame_times)) in
    if not cfg.adaptive_quality || is_nil s.frame_times
    then (s, cfg.quality)
    else (record s { cfg = record cfg { quality = q } }, q)

-- `Stats`, for what depends on no clock: it computes the quality again, and keeps that.
pub record StreamStats : Type 0 where
  pub captured : ℕ
  pub skipped : ℕ
  pub sent_bytes : ℕ
  pub current_quality : ℤ
  pub is_running : Bool

unfoldable pub stats : Streamer → Streamer × StreamStats
unfolding compute_adaptive_quality
stats s =
    let (s', q) =
      if s.cfg.adaptive_quality then compute_adaptive_quality s else (s, s.cfg.quality) in
    (
      s',
      record {
        captured = s.frames_captured;
        skipped = s.frames_skipped;
        sent_bytes = s.total_bytes;
        current_quality = q;
        is_running = s.running;
      },
    )

-- `EncodeJPEG` puts the quality between 1 and 100 before it calls the encoder.
abbrev pub jpeg_quality : ℤ → ℤ
jpeg_quality q =
    let low = if ltb_ℤ q (pos 1) then pos 1 else q in if ltb_ℤ (pos 100) low then pos 100 else low

-- The last 30 durations.
abbrev pub window : List ℕ → List ℕ
window [] = []
window (d ∷ ds) = if ltb 30 (length (d ∷ ds)) then ds else d ∷ ds

-- What the callback gets: the encoded size, the width and the height.
pub record Frame : Type 0 where
  pub bytes : ℕ
  pub width : ℕ
  pub height : ℕ

-- The end of `captureAndSend`, for a frame that is encoded.
unfoldable pub record_frame : Streamer → ℕ → ℕ → Streamer
record_frame s bytes now = record s {
  frames_captured = s.frames_captured + 1;
  total_bytes = s.total_bytes + bytes;
  last_frame_time = now;
  frame_times = window (s.frame_times ++ (now - s.last_frame_time) ∷ []);
}

unfoldable pub skip_frame : Streamer → Streamer
skip_frame s = record s { frames_skipped = s.frames_skipped + 1 }

-- The size of the image that is encoded.
unfoldable pub frame_size : StreamConfig → ℕ × ℕ → ℕ × ℕ
unfolding scaled_size
frame_size cfg size =
    if ltb_ℤ (pos 0) cfg.max_width || ltb_ℤ (pos 0) cfg.max_height
    then scaled_size cfg.max_width cfg.max_height size
    else size

-- What becomes of a frame once the encoder has answered.
unfoldable pub finish_frame : Streamer → ℕ × ℕ → Option ℕ → ℕ → Streamer × Option Frame
unfolding record_frame skip_frame
finish_frame s size none now = (skip_frame s, none)
finish_frame s size (some bytes) now =
    (record_frame s bytes now, some (record { bytes = bytes; width = size.0; height = size.1 }))

-- `captureAndSend`: the capture gives the size of the image or fails, the encoder gives the size of
-- the file for an image and a quality or fails; what is left for the callback is the frame.
unfoldable pub capture_and_send :
    Streamer → Option (ℕ × ℕ) → (ℕ × ℕ → ℤ → Option ℕ) → ℕ → Streamer × Option Frame
unfolding compute_adaptive_quality finish_frame skip_frame frame_size
capture_and_send s none encode now = (skip_frame s, none)
capture_and_send s (some size) encode now =
    let size' = frame_size s.cfg size in
    let (s', quality) = compute_adaptive_quality s in
    finish_frame s' size' (encode size' (jpeg_quality quality)) now
