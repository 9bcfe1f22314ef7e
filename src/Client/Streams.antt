-- ===== src/Client/Streams.antt =====
-- internal/client/client.go: what a terminal sends as input and shows as output.
use remotty.Base.{
  String, append_nil, append_assoc, ℕ, ◌≡◌, refl, List, [], ◌∷◌, ◌++◌, Bool, true, false, ◌&&◌, not,
  some, none, Option, ◌∙◌, ap, sym, arith, ◌==◌, string_key, if◌then◌else◌,
}
use remotty.Protocol.{MessageType}
use remotty.Config.{ClientConfig}
use remotty.Client.{
  start_session, Session, Event, Sent, sent_resize, sent_input, sent_auth, typed, input_failed,
  resized, channel_opens, channel_closes, received, answered, react, react_all, on_input, on_resize,
  on_answer, close_done, uint16,
}

-- The bytes that the host is sent as input.
abbrev pub input_of : List Sent → List ℕ
input_of [] = []
input_of (sent_input bytes ∷ ms) = bytes ++ input_of ms
input_of (_ ∷ ms) = input_of ms

input-append : (ms more : List Sent) → input_of (ms ++ more) ≡ input_of ms ++ input_of more
input-append [] more = refl
input-append (sent_input bytes ∷ ms) more =
    rw (input-append ms more) (sym (append_assoc bytes (input_of ms) (input_of more)))
input-append (sent_resize r c ∷ ms) more = input-append ms more
input-append (sent_auth p ∷ ms) more = input-append ms more

-- The passwords that the host is sent.
abbrev pub passwords_of : List Sent → List String
passwords_of [] = []
passwords_of (sent_auth password ∷ ms) = password ∷ passwords_of ms
passwords_of (_ ∷ ms) = passwords_of ms

passwords-append :
    (ms more : List Sent) → passwords_of (ms ++ more) ≡ passwords_of ms ++ passwords_of more
passwords-append [] more = refl
passwords-append (sent_input bytes ∷ ms) more = passwords-append ms more
passwords-append (sent_resize r c ∷ ms) more = passwords-append ms more
passwords-append (sent_auth p ∷ ms) more =
    ap (λ (ps : List String). p ∷ ps) (passwords-append ms more)

-- The bytes that are typed while the standard input is read and the channel is open.
abbrev pub typed_of : Bool → Bool → List Event → List ℕ
typed_of r ready [] = []
typed_of r ready (typed bytes ∷ es) = (if r && ready then bytes else []) ++ typed_of r ready es
typed_of r ready (input_failed ∷ es) = typed_of false ready es
typed_of r ready (channel_opens ∷ es) = typed_of r true es
typed_of r ready (channel_closes ∷ es) = typed_of r false es
typed_of r ready (_ ∷ es) = typed_of r ready es

input-sends :
    (s : Session) (bytes : List ℕ)
    → input_of (on_input s bytes).sent
      ≡ input_of s.sent ++ (if s.reading && s.channel_open then bytes else [])
unfolding on_input
input-sends s [] =
    ground (arith, append_nil (input_of s.sent), input-append s.sent (sent_input [] ∷ []))
input-sends s (b ∷ bs) = ground (
  arith,
  append_nil (input_of s.sent),
  append_nil (b ∷ bs),
  input-append s.sent (sent_input (b ∷ bs) ∷ []),
)

resize-sends :
    (s : Session) (size : Option (ℕ × ℕ)) → input_of (on_resize s size).sent ≡ input_of s.sent
unfolding on_resize
resize-sends s none = refl
resize-sends s (some (w, c)) = ground (
  arith,
  append_nil (input_of s.sent),
  input-append s.sent (sent_resize (uint16 c) (uint16 w) ∷ []),
)

answer-sends : (s : Session) (t : MessageType) → (on_answer s t).sent ≡ s.sent
unfolding on_answer close_done
answer-sends s t = ground arith

-- What of a session decides which input goes out.
abbrev gate : Session → Bool × Bool
gate s = (s.reading, s.channel_open)

answer-gate : (s : Session) (t : MessageType) → gate (on_answer s t) ≡ gate s
unfolding on_answer close_done
answer-gate s t = ground arith

input-gate : (s : Session) (bytes : List ℕ) → gate (on_input s bytes) ≡ gate s
unfolding on_input
input-gate s bytes = ground arith

resize-gate : (s : Session) (size : Option (ℕ × ℕ)) → gate (on_resize s size) ≡ gate s
unfolding on_resize
resize-gate s none = refl
resize-gate s (some (w, c)) = ground arith

pub all-sends :
    (s : Session) (es : List Event)
    → input_of (react_all s es).sent ≡ input_of s.sent ++ typed_of s.reading s.channel_open es
unfolding react_all react
all-sends s [] = sym (append_nil (input_of s.sent))
all-sends s (typed bytes ∷ es) = cc (
  all-sends (on_input s bytes) es,
  input-sends s bytes,
  input-gate s bytes,
  append_assoc (input_of s.sent) (if s.reading && s.channel_open then bytes else [])
      (typed_of s.reading s.channel_open es),
)
all-sends s (input_failed ∷ es) = all-sends (record s { reading = false }) es
all-sends s (resized size ∷ es) =
    cc (all-sends (on_resize s size) es, resize-sends s size, resize-gate s size)
all-sends s (channel_opens ∷ es) = all-sends (record s { channel_open = true }) es
all-sends s (channel_closes ∷ es) = all-sends (record s { channel_open = false }) es
all-sends s (received bytes ∷ es) = all-sends (record s { shown = s.shown ++ bytes }) es
all-sends s (answered t ∷ es) = cc (all-sends (on_answer s t) es, answer-sends s t, answer-gate s t)

-- What the host sends to be shown.
abbrev pub output_of : List Event → List ℕ
output_of [] = []
output_of (received bytes ∷ es) = bytes ++ output_of es
output_of (_ ∷ es) = output_of es

input-shown : (s : Session) (bytes : List ℕ) → (on_input s bytes).shown ≡ s.shown
unfolding on_input
input-shown s bytes = ground arith

resize-shown : (s : Session) (size : Option (ℕ × ℕ)) → (on_resize s size).shown ≡ s.shown
unfolding on_resize
resize-shown s none = refl
resize-shown s (some (w, c)) = ground arith

answer-shown : (s : Session) (t : MessageType) → (on_answer s t).shown ≡ s.shown
unfolding on_answer close_done
answer-shown s t = ground arith

pub all-shows : (s : Session) (es : List Event) → (react_all s es).shown ≡ s.shown ++ output_of es
unfolding react_all react
all-shows s [] = sym (append_nil s.shown)
all-shows s (typed bytes ∷ es) = cc (all-shows (on_input s bytes) es, input-shown s bytes)
all-shows s (input_failed ∷ es) = all-shows (record s { reading = false }) es
all-shows s (resized size ∷ es) = cc (all-shows (on_resize s size) es, resize-shown s size)
all-shows s (channel_opens ∷ es) = all-shows (record s { channel_open = true }) es
all-shows s (channel_closes ∷ es) = all-shows (record s { channel_open = false }) es
all-shows s (received bytes ∷ es) =
    all-shows (record s { shown = s.shown ++ bytes }) es ∙ append_assoc s.shown bytes (output_of es)
all-shows s (answered t ∷ es) = cc (all-shows (on_answer s t) es, answer-shown s t)

input-passwords :
    (s : Session) (bytes : List ℕ) → passwords_of (on_input s bytes).sent ≡ passwords_of s.sent
unfolding on_input
input-passwords s bytes =
    ground
      (arith, append_nil (passwords_of s.sent), passwords-append s.sent (sent_input bytes ∷ []))

resize-passwords :
    (s : Session) (size : Option (ℕ × ℕ))
    → passwords_of (on_resize s size).sent ≡ passwords_of s.sent
unfolding on_resize
resize-passwords s none = refl
resize-passwords s (some (w, c)) = ground (
  arith,
  append_nil (passwords_of s.sent),
  passwords-append s.sent (sent_resize (uint16 c) (uint16 w) ∷ []),
)

pub all-passwords :
    (s : Session) (es : List Event) → passwords_of (react_all s es).sent ≡ passwords_of s.sent
unfolding react_all react
all-passwords s [] = refl
all-passwords s (typed bytes ∷ es) = all-passwords (on_input s bytes) es ∙ input-passwords s bytes
all-passwords s (input_failed ∷ es) = all-passwords (record s { reading = false }) es
all-passwords s (resized size ∷ es) = all-passwords (on_resize s size) es ∙ resize-passwords s size
all-passwords s (channel_opens ∷ es) = all-passwords (record s { channel_open = true }) es
all-passwords s (channel_closes ∷ es) = all-passwords (record s { channel_open = false }) es
all-passwords s (received bytes ∷ es) = all-passwords (record s { shown = s.shown ++ bytes }) es
all-passwords s (answered t ∷ es) =
    all-passwords (on_answer s t) es ∙ ap passwords_of (answer-sends s t)

pub start-sends :
    (cfg : ClientConfig) (size : Option (ℕ × ℕ)) (auth_open terminal_open : Bool)
    → let s = start_session cfg size auth_open terminal_open in
      (input_of s.sent ≡ [])
      × (passwords_of s.sent
          ≡ (if auth_open && not (cfg.master_password == "") then cfg.master_password ∷ [] else []))
unfolding start_session
start-sends cfg size auth_open terminal_open = ground arith
