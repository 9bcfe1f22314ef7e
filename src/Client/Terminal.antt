-- ===== src/Client/Terminal.antt =====
-- internal/client/client.go: the interactive terminal of a client.
use remotty.Base.{
  if◌then◌else◌, ◌&&◌, not, ◌==◌, ℕ, ◌≡◌, refl, List, [], ◌∷◌, ◌++◌, Bool, false, true, ◌||◌, some,
  none, Option, ap, ◌∙◌, arith, string_key,
}
use remotty.Protocol.{MessageType, msg_auth_fail}
use remotty.Config.{ClientConfig}
use remotty.Client.{
  start_session, first_size, Session, Event, typed, input_failed, resized, channel_opens,
  channel_closes, received, answered, react, react_all, on_input, on_resize, on_answer, close_done,
  uint16,
}
use remotty.Client.Sizes.{sizes_of, size_of, size_after, told_of, all-size, all-tells, start-tells}
use remotty.Client.Streams.{
  input_of, passwords_of, typed_of, output_of, all-sends, all-shows, all-passwords, start-sends,
}

-- Whether an event is the host's refusal.
abbrev pub is_refusal : Event → Bool
is_refusal (answered msg_auth_fail) = true
is_refusal _ = false

abbrev pub refused : List Event → Bool
refused [] = false
refused (e ∷ es) = is_refusal e || refused es

done-input : (s : Session) (bytes : List ℕ) → (on_input s bytes).done ≡ s.done
unfolding on_input
done-input s bytes = ground arith

done-resize : (s : Session) (size : Option (ℕ × ℕ)) → (on_resize s size).done ≡ s.done
unfolding on_resize
done-resize s none = refl
done-resize s (some (w, h)) = ground arith

done-answer :
    (s : Session) (t : MessageType) → (on_answer s t).done ≡ (s.done || is_refusal (answered t))
unfolding on_answer close_done
done-answer s t = ground arith

react-done : (s : Session) (e : Event) → (react s e).done ≡ (s.done || is_refusal e)
unfolding react
react-done s (typed bytes) = ground (arith, done-input s bytes)
react-done s input_failed = ground arith
react-done s (resized size) = ground (arith, done-resize s size)
react-done s channel_opens = ground arith
react-done s channel_closes = ground arith
react-done s (received bytes) = ground arith
react-done s (answered t) = done-answer s t

done-all : (s : Session) (es : List Event) → (react_all s es).done ≡ (s.done || refused es)
unfolding react_all
done-all s [] = ground arith
done-all s (e ∷ es) = ground (arith, done-all (react s e) es, react-done s e)

-- What a terminal has done after some events that began at a size, with the two channels open or not.
pub record IsFollowing (cfg : ClientConfig) (size : Option (ℕ × ℕ)) (auth_open terminal_open : Bool)
    (es : List Event) (t : Session) : Type 0 where
  ended : t.done ≡ refused es
  password :
      passwords_of t.sent
      ≡ (if auth_open && not (cfg.master_password == "") then cfg.master_password ∷ [] else [])
  input : input_of t.sent ≡ typed_of true terminal_open es
  output : t.shown ≡ output_of es
  size_kept : size_of t ≡ size_after (first_size size) es
  told :
      sizes_of t.sent
      ≡ (if terminal_open
          then (uint16 (first_size size).1, uint16 (first_size size).0) ∷ []
          else [])
        ++ told_of terminal_open (first_size size) es

-- Whatever a user types and the host sends, however the size changes and whenever the channel `terminal`
-- opens and closes: what goes out as input is all that is typed until the standard input fails, while the
-- channel is open, in order; all that the host sends is shown, in order; the sizes that go out are the
-- first, if the channel was open as the terminal started, and each later one that differs from the one before,
-- while the channel is open, each side of it as 16 bits; the password goes out if the channel `auth` was open as
-- the terminal started, and else never; and the terminal ends if the host refuses the password, and in no
-- other way.
pub react_all-IsFollowing :
    (cfg : ClientConfig) (size : Option (ℕ × ℕ)) (auth_open terminal_open : Bool) (es : List Event)
    → IsFollowing cfg size auth_open terminal_open es
        (react_all (start_session cfg size auth_open terminal_open) es)
unfolding start_session
react_all-IsFollowing cfg size auth_open terminal_open es =
    let s = start_session cfg size auth_open terminal_open in
    let (no_input, password) = start-sends cfg size auth_open terminal_open in
    record {
      ended = done-all s es;
      password = all-passwords s es ∙ password;
      input = all-sends s es ∙ ap (λ bytes. bytes ++ typed_of true terminal_open es) no_input;
      output = all-shows s es;
      size_kept = all-size s es;
      told =
          all-tells s es
          ∙ ap (λ sizes. sizes ++ told_of terminal_open (first_size size) es)
              (start-tells cfg size auth_open terminal_open);
    }
