-- ===== src/Host.antt =====
-- internal/host/daemon.go: the sessions of the host and who is let in. A `*Session` is a number that points into `heap`: the channels of a session hold it even
-- when it is no longer in the table. The WebRTC engine, the shell, the clipboard monitor and the
-- comparison of a password with its hash are arguments.
pub mod Channels
pub mod Steps
pub mod Starting
pub mod Sessions
pub mod Auth
pub mod Closing
pub mod Run
mod Tests
pub use remotty.Config.{HostConfig}
use remotty.Base.{
  ℕ, suc, ◌+◌, String, Bool, true, false, ◌&&◌, ◌||◌, not, List, [], ◌∷◌, ◌++◌, Option, none, some,
  ◌==◌, string_key, nat_key, if◌then◌else◌, lookup, insert, delete, length, any, leb,
}
use remotty.Base.Int.{beq_ℤ, ℤ, pos, pos_part, ltb_ℤ, leb_ℤ}
use remotty.Base.Text.{◌<>◌, decimal}
use remotty.Base.Json.{Json, str, num, obj, end, field, read, set_string, fields_of}
use remotty.Protocol.{
  MessageType, Message, new_message, msg_connect, msg_answer, msg_ice_candidate, msg_offer,
  msg_peer_left, msg_error, msg_auth, msg_auth_ok, msg_auth_fail, msg_input, msg_resize,
  msg_screen_start, msg_screen_stop, msg_mouse_move, msg_mouse_click, msg_mouse_scroll,
  msg_key_press, msg_key_release, msg_file_request, msg_file_chunk, msg_file_complete,
  msg_file_cancel, msg_file_error, msg_clipboard_data, msg_clipboard_request,
}

pub record Session : Type 0 where
  pub client_id : String
  pub room_id : String
  pub authed : Bool
  pub shell_open : Bool
  pub engine_open : Bool
  pub created_at : ℕ

-- The labels of the data channels.
pub data Label : Type 0 where
  auth terminal screen transfer file clipboard unknown : Label

-- What a channel did for a session, by the type of the message; `none` is raw input, and as the channel opens
-- the shell that starts with its output, or the text of the clipboard.
pub record Action : Type 0 where
  pub by : ℕ
  pub through : Label
  pub what : Option MessageType

-- `sent` goes to the server and `replies` to the clients; `channels` holds the channels whose message handler is set. `accepted` records for whom the right
-- password came: the code does not keep that.
pub record Daemon : Type 0 where
  pub cfg : HostConfig
  pub heap : ℕ → Session
  pub next : ℕ
  pub sessions : List (String × ℕ)
  pub channels : List (ℕ × Label)
  pub sent : List Message
  pub replies : List (ℕ × Message)
  pub forwarded : List (ℕ × Message)
  pub actions : List Action
  pub accepted : List ℕ

-- What `NewDaemon` finds: the name of the machine, its system, and whether the configured features are
-- given, which an empty slice does not tell.
pub record Environment : Type 0 where
  pub host_name : String
  pub is_darwin : Bool
  pub features_given : Bool

-- The hash of a plain password, unless a hash is set.
unfoldable pub hashed : (String → Option String) → HostConfig → Option HostConfig
hashed hash_password cfg =
    if not (cfg.master_password == "") && cfg.master_hash == ""
    then elim (hash_password cfg.master_password) [
      | none ↦ none
      | some hash ↦ some (record cfg { master_hash = hash })
    ]
    else some cfg

abbrev pub when_zero : ℤ → ℤ → ℤ
when_zero n default = if beq_ℤ n (pos 0) then default else n

abbrev pub default_features : Bool → List String
default_features is_darwin = "terminal" ∷ (if is_darwin then "screen" ∷ [] else [])

unfoldable pub with_defaults : Environment → HostConfig → HostConfig
with_defaults env cfg = record cfg {
  name = if cfg.name == "" then env.host_name else cfg.name;
  features = if env.features_given then cfg.features else default_features env.is_darwin;
  reconnect_wait = when_zero cfg.reconnect_wait (pos 5000000000);
  heartbeat_int = when_zero cfg.heartbeat_int (pos 15000000000);
  max_sessions = when_zero cfg.max_sessions (pos 10);
}

-- A daemon without sessions.
abbrev pub idle_daemon : HostConfig → Daemon
idle_daemon cfg = record {
  cfg = cfg;
  heap = λ s. record {
    client_id = "";
    room_id = "";
    authed = false;
    shell_open = false;
    engine_open = false;
    created_at = 0;
  };
  next = 0;
  sessions = [];
  channels = [];
  sent = [];
  replies = [];
  forwarded = [];
  actions = [];
  accepted = [];
}

-- `NewDaemon`, where `hash_password` is `auth.HashPassword`; `none` is an error.
unfoldable pub new_daemon : (String → Option String) → Environment → HostConfig → Option Daemon
unfolding hashed with_defaults
new_daemon hash_password env cfg = elim (hashed hash_password cfg) [
  | none ↦ none
  | some c ↦
      if c.require_auth && c.master_hash == "" && c.master_password == ""
      then none
      else some (idle_daemon (with_defaults env c))
]

abbrev pub update_session : (ℕ → Session) → ℕ → Session → ℕ → Session
update_session heap s x j = if j == s then x else heap j

abbrev pub write_session : Daemon → ℕ → Session → Daemon
write_session d s x = record d { heap = update_session d.heap s x }

abbrev pub text_of : String → Message → String
text_of name msg = read set_string name "" (fields_of msg.payload)

abbrev pub sessions_error : ℤ → Message
sessions_error max = new_message msg_error (
    obj (
      field "code" (num (pos 4001))
        (field "message" (str ("Max sessions (" <> decimal (pos_part max) <> ") reached")) end)))

abbrev pub is_full : Daemon → Bool
is_full d = ltb_ℤ (pos 0) d.cfg.max_sessions && leb_ℤ d.cfg.max_sessions (pos (length d.sessions))

abbrev pub is_empty_list : List String → Bool
is_empty_list [] = true
is_empty_list (x ∷ xs) = false

-- The allow list, where there is one.
abbrev pub is_allowed : List String → String → Bool
is_allowed allowed client = is_empty_list allowed || any (λ id. id == client || id == "*") allowed

unfoldable pub add_session : Daemon → String → String → ℕ → Daemon
add_session d room client now = record d {
  heap = update_session d.heap d.next (record {
    client_id = client;
    room_id = room;
    authed = d.cfg.master_hash == "";
    shell_open = false;
    engine_open = true;
    created_at = now;
  });
  next = suc d.next;
  sessions = insert room d.next d.sessions;
}

-- The offer, if the engine makes one.
unfoldable pub send_offer : Daemon → String → Option Json → Daemon
send_offer d room none = d
send_offer d room (some offer) = record d {
  sent = d.sent ++ (record (new_message msg_offer offer) { room = room }) ∷ [];
}

unfoldable pub handle_connect_request : Daemon → Message → Bool → Option Json → ℕ → Daemon
unfolding add_session send_offer
handle_connect_request d msg engine_made offer now =
    let room = text_of "room" msg in
    let client = text_of "client_id" msg in
    if is_full d
    then record d { sent = d.sent ++ sessions_error d.cfg.max_sessions ∷ [] }
    else (if is_allowed d.cfg.allow_list client && engine_made
        then send_offer (add_session d room client now) room offer
        else d)

-- `handleWebRTCMessage`, up to the call of the engine.
unfoldable pub handle_webrtc_message : Daemon → Message → Daemon
handle_webrtc_message d msg = if msg.room == "" then d else elim (lookup msg.room d.sessions) [
  | none ↦ d
  | some s ↦ record d { forwarded = d.forwarded ++ (s, msg) ∷ [] }
]

-- `cleanupSessionLocked`.
unfoldable pub cleanup_session_locked : Daemon → String → ℕ → Daemon
cleanup_session_locked d room s =
    let session = d.heap s in
    record d {
      heap = update_session d.heap s (record session { shell_open = false; engine_open = false });
      sessions = delete room d.sessions;
    }

unfoldable pub cleanup_session : Daemon → String → Daemon
unfolding cleanup_session_locked
cleanup_session d room = elim (lookup room d.sessions) [
  | none ↦ d
  | some s ↦ cleanup_session_locked d room s
]

-- The loop of `handlePeerDisconnect` over the table.
unfoldable pub close_sessions : String → List (String × ℕ) → Daemon → Daemon
unfolding cleanup_session_locked
close_sessions peer [] d = d
close_sessions peer ((room, s) ∷ m) d =
    let rest = close_sessions peer m d in
    if (d.heap s).client_id == peer then cleanup_session_locked rest room s else rest

unfoldable pub handle_peer_disconnect : Daemon → Message → Daemon
unfolding close_sessions
handle_peer_disconnect d msg = close_sessions (text_of "peer_id" msg) d.sessions d

-- The switch of `handleMessage`; `engine_made` and `offer` are for a request to connect.
unfoldable pub dispatch_signal : MessageType → Daemon → Message → Bool → Option Json → ℕ → Daemon
dispatch_signal msg_connect d msg engine_made offer now =
    handle_connect_request d msg engine_made offer now
dispatch_signal msg_answer d msg engine_made offer now = handle_webrtc_message d msg
dispatch_signal msg_ice_candidate d msg engine_made offer now = handle_webrtc_message d msg
dispatch_signal msg_offer d msg engine_made offer now = handle_webrtc_message d msg
dispatch_signal msg_peer_left d msg engine_made offer now = handle_peer_disconnect d msg
dispatch_signal _ d msg engine_made offer now = d

unfoldable pub handle_message : Daemon → Message → Bool → Option Json → ℕ → Daemon
unfolding dispatch_signal
handle_message d msg engine_made offer now = dispatch_signal msg.type d msg engine_made offer now
