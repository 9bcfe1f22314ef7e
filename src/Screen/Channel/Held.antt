-- ===== src/Screen/Channel/Held.antt =====
-- internal/host/daemon.go, `handleScreenChannel`: the keys that are down.
use remotty.Base.{
  ℕ, ◌≡◌, refl, Bool, true, false, ◌&&◌, ◌||◌, not, List, [], ◌∷◌, some, ◌==◌, nat_key,
  if◌then◌else◌, any, arith, sym, ◌∙◌, inl, inr, Bool-cases,
}
use remotty.Screen.Keys.{string_to_key_code, pressed}
use remotty.Screen.Channel.{
  Input, key_down, key_up, ScreenSession, Key, key_press, key_release, press_keys, handle_key_press,
  handle_key_release, on_screen_message, add_input,
}

-- Whether a key is down, by the inputs, the newest first.
abbrev pub held : ℕ → List Input → Bool
held key [] = false
held key (key_down code ∷ inputs) = if code == key then true else held key inputs
held key (key_up code ∷ inputs) = if code == key then false else held key inputs
held key (input ∷ inputs) = held key inputs

held-press_keys :
    (key : ℕ) (codes : List ℕ) (inputs : List Input)
    → held key (press_keys codes inputs) ≡ (any (λ code. code == key) codes || held key inputs)
unfolding press_keys
held-press_keys key [] inputs = refl
held-press_keys key (code ∷ codes) inputs =
    held-press_keys key codes (key_down code ∷ inputs) ∙ ground arith

-- The end of `handle_key_release`.
released :
    (code key : ℕ) (ss : ScreenSession)
    → held key (if not (code == 0) then add_input (key_up code) ss else ss).inputs
      ≡ (if not (code == 0) && code == key then false else held key ss.inputs)
released code key ss = elim (Bool-cases (code == 0)) [
  | inl none' ↦ rw none' refl
  | inr some' ↦ rw some' refl
]

-- A text that is pressed and released leaves all its keys down but that of its first character: a key
-- is down afterwards exactly if it is not the key of the first character, and the text presses it or it
-- was down before. Where the first character has no key, nothing is released.
pub typed_text_held :
    (ss : ScreenSession) (c : ℕ) (cs : List ℕ) (key_code now later key : ℕ)
    → let typed : Key = record { key_code = key_code; chars = c ∷ cs } in
      let first = string_to_key_code (c ∷ cs) in
      let after =
        on_screen_message
          (on_screen_message ss (key_press (some typed)) now)
          (key_release (some typed))
          later in
      held key after.inputs ≡ (
        if not (first == 0) && first == key
        then false
        else any (λ code. code == key) (pressed (c ∷ cs)) || held key ss.inputs)
unfolding on_screen_message handle_key_press handle_key_release
typed_text_held ss c cs key_code now later key =
    rw (sym (held-press_keys key (pressed (c ∷ cs)) ss.inputs)) (
      released (string_to_key_code (c ∷ cs)) key
        (record ss { inputs = press_keys (pressed (c ∷ cs)) ss.inputs }))
