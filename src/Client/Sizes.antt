-- ===== src/Client/Sizes.antt =====
-- internal/client/client.go: the sizes that a terminal tells the host.
use remotty.Base.{
  append_nil, append_assoc, ℕ, ◌≡◌, refl, List, [], ◌∷◌, ◌++◌, Bool, true, false, ◌&&◌, not, some,
  none, Option, ◌∙◌, ap, sym, arith, string_key, nat_beq, if◌then◌else◌,
}
use remotty.Protocol.{MessageType}
use remotty.Config.{ClientConfig}
use remotty.Client.{
  start_session, first_size, Session, Event, Sent, sent_resize, sent_input, sent_auth, typed,
  input_failed, resized, channel_opens, channel_closes, received, answered, react, react_all,
  on_input, on_resize, on_answer, close_done, uint16,
}

-- The rows and columns of the sizes that the host is told.
abbrev pub sizes_of : List Sent → List (ℕ × ℕ)
sizes_of [] = []
sizes_of (sent_resize rows cols ∷ ms) = (rows, cols) ∷ sizes_of ms
sizes_of (_ ∷ ms) = sizes_of ms

sizes-append : (ms more : List Sent) → sizes_of (ms ++ more) ≡ sizes_of ms ++ sizes_of more
sizes-append [] more = refl
sizes-append (sent_input bytes ∷ ms) more = sizes-append ms more
sizes-append (sent_resize r c ∷ ms) more =
    ap (λ (sizes : List (ℕ × ℕ)). (r, c) ∷ sizes) (sizes-append ms more)
sizes-append (sent_auth p ∷ ms) more = sizes-append ms more

-- The size that a terminal has, of columns and rows.
abbrev pub size_of : Session → ℕ × ℕ
size_of s = (s.last_cols, s.last_rows)

abbrev pub is_same : ℕ × ℕ → ℕ × ℕ → Bool
is_same new size = nat_beq new.0 size.0 && nat_beq new.1 size.1

-- The size after some events, of columns and rows: the last that was read, or the first.
abbrev pub size_after : ℕ × ℕ → List Event → ℕ × ℕ
size_after size [] = size
size_after size (resized (some new) ∷ es) = size_after new es
size_after size (_ ∷ es) = size_after size es

-- The sizes that differ from the ones before while the channel is open, as rows and columns of 16 bits.
abbrev pub told_of : Bool → ℕ × ℕ → List Event → List (ℕ × ℕ)
told_of ready size [] = []
told_of ready size (resized (some new) ∷ es) =
    (if ready && not (is_same new size) then (uint16 new.1, uint16 new.0) ∷ [] else [])
    ++ told_of ready new es
told_of ready size (channel_opens ∷ es) = told_of true size es
told_of ready size (channel_closes ∷ es) = told_of false size es
told_of ready size (_ ∷ es) = told_of ready size es

input-size : (s : Session) (bytes : List ℕ) → size_of (on_input s bytes) ≡ size_of s
unfolding on_input
input-size s bytes = ground arith

resize-size : (s : Session) (w h : ℕ) → size_of (on_resize s (some (w, h))) ≡ (w, h)
unfolding on_resize
resize-size s w h = ground arith

answer-size : (s : Session) (a : MessageType) → size_of (on_answer s a) ≡ size_of s
unfolding on_answer close_done
answer-size s a = ground arith

pub all-size :
    (s : Session) (es : List Event) → size_of (react_all s es) ≡ size_after (size_of s) es
unfolding react_all react on_resize
all-size s [] = refl
all-size s (typed bytes ∷ es) =
    all-size (on_input s bytes) es ∙ ap (λ z. size_after z es) (input-size s bytes)
all-size s (input_failed ∷ es) = all-size (record s { reading = false }) es
all-size s (resized none ∷ es) = all-size s es
all-size s (resized (some (w, h)) ∷ es) =
    all-size (on_resize s (some (w, h))) es ∙ ap (λ z. size_after z es) (resize-size s w h)
all-size s (channel_opens ∷ es) = all-size (record s { channel_open = true }) es
all-size s (channel_closes ∷ es) = all-size (record s { channel_open = false }) es
all-size s (received bytes ∷ es) = all-size (record s { shown = s.shown ++ bytes }) es
all-size s (answered t ∷ es) =
    all-size (on_answer s t) es ∙ ap (λ z. size_after z es) (answer-size s t)

input-sizes : (s : Session) (bytes : List ℕ) → sizes_of (on_input s bytes).sent ≡ sizes_of s.sent
unfolding on_input
input-sizes s bytes =
    ground (arith, append_nil (sizes_of s.sent), sizes-append s.sent (sent_input bytes ∷ []))

resize-tells :
    (s : Session) (w h : ℕ)
    → sizes_of (on_resize s (some (w, h))).sent
      ≡ sizes_of s.sent
        ++ (if s.channel_open && not (is_same (w, h) (size_of s))
            then (uint16 h, uint16 w) ∷ []
            else [])
unfolding on_resize
resize-tells s w h = ground (
  arith,
  append_nil (sizes_of s.sent),
  sizes-append s.sent (sent_resize (uint16 h) (uint16 w) ∷ []),
)

answer-sizes : (s : Session) (t : MessageType) → sizes_of (on_answer s t).sent ≡ sizes_of s.sent
unfolding on_answer close_done
answer-sizes s t = ground arith

input-open : (s : Session) (bytes : List ℕ) → (on_input s bytes).channel_open ≡ s.channel_open
unfolding on_input
input-open s bytes = ground arith

resize-open : (s : Session) (w h : ℕ) → (on_resize s (some (w, h))).channel_open ≡ s.channel_open
unfolding on_resize
resize-open s w h = ground arith

answer-open : (s : Session) (t : MessageType) → (on_answer s t).channel_open ≡ s.channel_open
unfolding on_answer close_done
answer-open s t = ground arith

pub all-tells :
    (s : Session) (es : List Event)
    → sizes_of (react_all s es).sent ≡ sizes_of s.sent ++ told_of s.channel_open (size_of s) es
unfolding react_all react
all-tells s [] = sym (append_nil (sizes_of s.sent))
all-tells s (typed bytes ∷ es) =
    cc
      (all-tells (on_input s bytes) es, input-sizes s bytes, input-size s bytes, input-open s bytes)
all-tells s (input_failed ∷ es) = all-tells (record s { reading = false }) es
all-tells s (resized none ∷ es) = unfold on_resize in all-tells s es
all-tells s (resized (some (w, h)) ∷ es) = cc (
  all-tells (on_resize s (some (w, h))) es,
  resize-tells s w h,
  resize-size s w h,
  resize-open s w h,
  append_assoc (sizes_of s.sent)
      (if s.channel_open && not (is_same (w, h) (size_of s)) then (uint16 h, uint16 w) ∷ [] else [])
      (told_of s.channel_open (w, h) es),
)
all-tells s (channel_opens ∷ es) = all-tells (record s { channel_open = true }) es
all-tells s (channel_closes ∷ es) = all-tells (record s { channel_open = false }) es
all-tells s (received bytes ∷ es) = all-tells (record s { shown = s.shown ++ bytes }) es
all-tells s (answered t ∷ es) =
    cc (all-tells (on_answer s t) es, answer-sizes s t, answer-size s t, answer-open s t)

pub start-tells :
    (cfg : ClientConfig) (size : Option (ℕ × ℕ)) (auth_open terminal_open : Bool)
    → sizes_of (start_session cfg size auth_open terminal_open).sent ≡ (
        if terminal_open then (uint16 (first_size size).1, uint16 (first_size size).0) ∷ [] else [])
unfolding start_session
start-tells cfg size auth_open terminal_open = ground arith
