-- ===== src/Host/Channels.antt =====
-- internal/host/daemon.go: the data channels of a session, and what their handlers act on.
use remotty.Base.{
  ℕ, String, Bool, true, false, ◌||◌, not, [], ◌∷◌, ◌++◌, Option, none, some, ◌==◌, string_key,
  nat_key, if◌then◌else◌, lookup,
}
use remotty.Base.Json.{null, str}
use remotty.Protocol.{
  MessageType, Message, new_message, msg_error, msg_auth, msg_auth_ok, msg_auth_fail, msg_input,
  msg_resize, msg_screen_start, msg_screen_stop, msg_mouse_move, msg_mouse_click, msg_mouse_scroll,
  msg_key_press, msg_key_release, msg_file_request, msg_file_chunk, msg_file_complete,
  msg_file_cancel, msg_file_error, msg_clipboard_data, msg_clipboard_request,
}
use remotty.Host.{
  Daemon, Label, auth, terminal, screen, transfer, file, clipboard, unknown, update_session,
  write_session, text_of,
}

abbrev pub set_handler : Daemon → ℕ → Label → Daemon
set_handler d s label = record d { channels = (s, label) ∷ d.channels }

abbrev pub reply : Daemon → ℕ → Message → Daemon
reply d s msg = record d { replies = d.replies ++ (s, msg) ∷ [] }

abbrev pub refuse : Daemon → ℕ → Daemon
refuse d s = reply d s (new_message msg_error (str "Not authenticated"))

-- A channel that is there only for who is authenticated.
abbrev pub open_guarded : Daemon → ℕ → Label → Daemon
open_guarded d s label = if (d.heap s).authed then set_handler d s label else refuse d s

abbrev pub record_action : Daemon → ℕ → Label → Option MessageType → Daemon
record_action d s label what = record d {
  actions = (record { by = s; through = label; what = what }) ∷ d.actions;
}

-- What the host meets as a channel opens: whether the shell or the clipboard monitor starts, and
-- whether there is some text in the clipboard, which is sent at once.
pub record Opening : Type 0 where
  pub ready : Bool
  pub content : Bool

-- The end of `handleTerminalChannel`, once the shell runs: its output goes to the client from then on.
unfoldable pub start_shell : Daemon → ℕ → Daemon
start_shell d s =
    let session = d.heap s in
    let running = write_session d s (record session { shell_open = true }) in
    set_handler (record_action running s terminal none) s terminal

-- `onDataChannel` for a session.
unfoldable pub open_channel : Daemon → ℕ → Label → Opening → Daemon
open_channel d s auth o = set_handler d s auth
open_channel d s terminal o =
    if not (d.heap s).authed
    then refuse d s
    else (if o.ready
        then start_shell d s
        else reply d s (new_message msg_error (str "Failed to start shell")))
open_channel d s screen o = open_guarded d s screen
open_channel d s transfer o = open_guarded d s transfer
open_channel d s file o = open_guarded d s file
open_channel d s clipboard o =
    if not o.ready
    then d
    else (if o.content
        then set_handler (record_action d s clipboard none) s clipboard
        else set_handler d s clipboard)
open_channel d s unknown o = d

unfoldable pub on_data_channel : Daemon → String → Label → Opening → Daemon
unfolding open_channel
on_data_channel d room label o = elim (lookup room d.sessions) [
  | none ↦ d
  | some s ↦ open_channel d s label o
]

-- The messages that the handler of each channel acts on, `none` being what is no JSON.
abbrev pub handles : Label → Option MessageType → Bool
handles terminal none = true
handles terminal (some msg_input) = true
handles terminal (some msg_resize) = true
handles screen (some msg_screen_start) = true
handles screen (some msg_screen_stop) = true
handles screen (some msg_mouse_move) = true
handles screen (some msg_mouse_click) = true
handles screen (some msg_mouse_scroll) = true
handles screen (some msg_key_press) = true
handles screen (some msg_key_release) = true
handles transfer (some msg_file_request) = true
handles transfer (some msg_file_chunk) = true
handles transfer (some msg_file_complete) = true
handles transfer (some msg_file_cancel) = true
handles transfer (some msg_file_error) = true
handles file (some msg_file_request) = true
handles file (some msg_file_chunk) = true
handles file (some msg_file_complete) = true
handles file (some msg_file_cancel) = true
handles file (some msg_file_error) = true
handles clipboard (some msg_clipboard_data) = true
handles clipboard (some msg_clipboard_request) = true
handles _ _ = false

abbrev pub act : Daemon → ℕ → Label → Option MessageType → Daemon
act d s label what = if handles label what then record_action d s label what else d

abbrev pub is_auth : MessageType → Bool
is_auth msg_auth = true
is_auth _ = false

-- The handler of the auth channel; `check` is `auth.CheckPassword`.
unfoldable pub handle_auth : (String → String → Bool) → Daemon → ℕ → Message → Daemon
handle_auth check d s msg =
    let session = d.heap s in
    let right = check (text_of "password" msg) d.cfg.master_hash in
    if is_auth msg.type
    then (if d.cfg.master_hash == "" || right
        then record d {
          heap = update_session d.heap s (record session { authed = true });
          accepted = if right then s ∷ d.accepted else d.accepted;
          replies = d.replies ++ (s, new_message msg_auth_ok null) ∷ [];
        }
        else reply d s (new_message msg_auth_fail null))
    else d

abbrev pub type_of : Option Message → Option MessageType
type_of none = none
type_of (some msg) = some msg.type

-- The handler that a channel of a session has set.
unfoldable pub on_message : (String → String → Bool) → Daemon → ℕ → Label → Option Message → Daemon
unfolding handle_auth
on_message check d s auth none = d
on_message check d s auth (some msg) = handle_auth check d s msg
on_message check d s terminal msg = if (d.heap s).authed then act d s terminal (type_of msg) else d
on_message check d s label msg = act d s label (type_of msg)
