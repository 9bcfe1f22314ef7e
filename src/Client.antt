-- ===== src/Client.antt =====
-- internal/client/client.go: the list of hosts, the way into a room, and the interactive terminal.
pub mod Hosts
pub mod Entering
pub mod Sizes
pub mod Streams
pub mod Terminal
pub mod Tests
use remotty.Base.{
  ℕ, String, Bool, true, false, not, ◌&&◌, List, [], ◌∷◌, ◌++◌, ◌%◌, Option, none, some, ◌==◌,
  string_key, nat_beq, if◌then◌else◌, length, ltb,
}
use remotty.Base.Json.{
  Json, Items, nil, cons, Fields, null, arr, str, obj, end, field, read, set_string, fields_of,
}
use remotty.Protocol.{
  Message, MessageType, HostInfo, no_info, set_info, encode_connect, text_field, new_message,
  msg_list_hosts, msg_host_list, msg_connect, msg_error, msg_room_ready, msg_auth, msg_auth_ok,
  msg_auth_fail,
}
use remotty.Config.{ClientConfig}

-- The setup of the engine: its room and its ICE servers.
pub record EngineSetup : Type 0 where
  pub room_id : String
  pub ice_servers : List String

-- `conn` tells whether `signalConn` is set; a nil list of hosts is empty.
pub record Client : Type 0 where
  pub cfg : ClientConfig
  pub conn : Bool
  pub engine : Option EngineSetup
  pub hosts : List HostInfo

unfoldable pub new_client : ClientConfig → Client
new_client cfg = record { cfg = cfg; conn = false; engine = none; hosts = [] }

-- What dialling and reading one message give: an error, or the message that decoding leaves.
pub data Reply : Type 0 where
  dial_failed read_failed : String → Reply
  replied : Message → Reply

pub data ClientError : Type 0 where
  connect_error read_error connection_rejected engine_error : String → ClientError
  unexpected_response : MessageType → ClientError

pub data Listing : Type 0 where
  listed : List HostInfo → Listing
  not_listed : ClientError → Listing

abbrev pub infos_of : Items → List HostInfo
infos_of nil = []
infos_of (cons j js) = set_info no_info j ∷ infos_of js

-- What a value does to a field that is a list of hosts.
abbrev pub set_infos : List HostInfo → Json → List HostInfo
set_infos old (arr js) = infos_of js
set_infos old null = []
set_infos old _ = old

-- `ListHosts`: the client afterwards, the requests that it sent, and its result. An error of the
-- decoding is not looked at.
unfoldable pub list_hosts : Client → Reply → Client × List Message × Listing
list_hosts c (dial_failed e) = (c, [], not_listed (connect_error e))
list_hosts c (read_failed e) = (c, new_message msg_list_hosts null ∷ [], not_listed (read_error e))
list_hosts c (replied msg) = elim msg.type [
  | msg_host_list ↦
      let hosts = read set_infos "hosts" [] (fields_of msg.payload) in
      (record c { hosts = hosts }, new_message msg_list_hosts null ∷ [], listed hosts)
  | t ↦ (c, new_message msg_list_hosts null ∷ [], not_listed (unexpected_response t))
]

pub record RoomInfo : Type 0 where
  pub room : String
  pub host_id : String
  pub host : HostInfo

abbrev pub room_info_of : Fields → RoomInfo
room_info_of fs = record {
  room = text_field "room" fs;
  host_id = text_field "host_id" fs;
  host = read set_info "host" no_info fs;
}

abbrev pub connect_request : ClientConfig → Message
connect_request cfg =
    new_message msg_connect
      (encode_connect (record { host_id = cfg.host_id; password = cfg.master_password }))

pub data Entry : Type 0 where
  entered : Entry
  not_entered : ClientError → Entry

-- The engine for a room; `made` is the error of `NewEngine`, if it has one.
unfoldable pub create_engine : Client → RoomInfo → Option String → Client × Entry
create_engine c room (some e) = (c, not_entered (engine_error e))
create_engine c room none = (
  record c {
    engine =
        some (record { room_id = room.room; ice_servers = "stun:stun.l.google.com:19302" ∷ [] });
  },
  entered,
)

-- `ConnectInteractive` up to the engine: the client afterwards, the requests that it sent, and
-- whether it is in a room.
unfoldable pub enter_room : Client → Reply → Option String → Client × List Message × Entry
unfolding create_engine
enter_room c (dial_failed e) made = (c, [], not_entered (connect_error e))
enter_room c (read_failed e) made =
    (record c { conn = true }, connect_request c.cfg ∷ [], not_entered (read_error e))
enter_room c (replied msg) made =
    let c' = record c { conn = true } in
    let asked = connect_request c.cfg ∷ [] in
    elim msg.type [
      | msg_error ↦ (
        c',
        asked,
        not_entered (connection_rejected (text_field "message" (fields_of msg.payload))),
      )
      | msg_room_ready ↦
          let (c'', entry) = create_engine c' (room_info_of (fields_of msg.payload)) made in
          (c'', asked, entry)
      | t ↦ (c', asked, not_entered (unexpected_response t))
    ]

-- What the client sends on the channels `terminal` and `auth`; a size is of rows and columns.
pub data Sent : Type 0 where
  sent_auth : String → Sent
  sent_resize : ℕ → ℕ → Sent
  sent_input : List ℕ → Sent

-- The terminal of a client. `channel_open` is whether the channel `terminal` is open: what is sent on a
-- channel that is not is refused, and nobody looks at the error. `sent` is what went out; `reading` is whether
-- the loop over the standard input runs, `done` whether the channel of that name is closed, and `panicked`
-- whether it was closed twice.
pub record Session : Type 0 where
  pub last_rows : ℕ
  pub last_cols : ℕ
  pub channel_open : Bool
  pub reading : Bool
  pub done : Bool
  pub panicked : Bool
  pub sent : List Sent
  pub shown : List ℕ

-- `uint16`.
abbrev pub uint16 : ℕ → ℕ
uint16 n = n % 65536

-- The size of a terminal, of columns and rows, or the default where it is not known.
abbrev pub first_size : Option (ℕ × ℕ) → ℕ × ℕ
first_size none = (80, 24)
first_size (some size) = size

-- The channels are made; the password is sent at once, if there is one, and then the size. Whether the
-- channels `auth` and `terminal` are open by then is up to the WebRTC library.
unfoldable pub start_session : ClientConfig → Option (ℕ × ℕ) → Bool → Bool → Session
start_session cfg size auth_open terminal_open =
    let (width, height) = first_size size in
    record {
      last_rows = height;
      last_cols = width;
      channel_open = terminal_open;
      reading = true;
      done = false;
      panicked = false;
      sent =
          (if auth_open && not (cfg.master_password == "")
            then sent_auth cfg.master_password ∷ []
            else [])
          ++ (if terminal_open then sent_resize (uint16 height) (uint16 width) ∷ [] else []);
      shown = [];
    }

pub data Event : Type 0 where
  -- a read of the standard input
  typed : List ℕ → Event
  input_failed : Event
  -- a signal that the size changed, with the columns and rows that are read then
  resized : Option (ℕ × ℕ) → Event
  -- the channel `terminal` opens, or closes
  channel_opens channel_closes : Event
  -- data on the channels `terminal` and `auth`
  received : List ℕ → Event
  answered : MessageType → Event

-- A message on the channel `terminal`.
abbrev pub send : Session → Sent → Session
send s m = if s.channel_open then record s { sent = s.sent ++ m ∷ [] } else s

unfoldable pub on_input : Session → List ℕ → Session
on_input s bytes = if s.reading && ltb 0 (length bytes) then send s (sent_input bytes) else s

unfoldable pub on_resize : Session → Option (ℕ × ℕ) → Session
on_resize s none = s
on_resize s (some (w, h)) =
    if nat_beq w s.last_cols && nat_beq h s.last_rows
    then s
    else send (record s { last_cols = w; last_rows = h }) (sent_resize (uint16 h) (uint16 w))

-- `close(done)`: closing a closed channel panics.
unfoldable pub close_done : Session → Session
close_done s = if s.done then record s { panicked = true } else record s { done = true }

unfoldable pub on_answer : Session → MessageType → Session
unfolding close_done
on_answer s msg_auth_fail = close_done s
on_answer s _ = s

unfoldable pub react : Session → Event → Session
unfolding on_input on_resize on_answer
react s (typed bytes) = on_input s bytes
react s input_failed = record s { reading = false }
react s (resized size) = on_resize s size
react s channel_opens = record s { channel_open = true }
react s channel_closes = record s { channel_open = false }
react s (received bytes) = record s { shown = s.shown ++ bytes }
react s (answered t) = on_answer s t

unfoldable pub react_all : Session → List Event → Session
react_all s [] = s
react_all s (e ∷ es) = react_all (react s e) es
