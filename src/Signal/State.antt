-- ===== src/Signal/State.antt =====
-- internal/signal/server.go: peers, rooms and the server, and what the handlers do to them. Peers are
-- pointers there, shared between the tables and the rooms; here a pointer is a number, and the heap
-- gives what it points to. `sent` holds the messages handed to the connections, oldest first.
use remotty.Base.{
  ℕ, String, Bool, true, List, [], ◌∷◌, ◌++◌, ◌==◌, nat_key, string_key, if◌then◌else◌,
}
use remotty.Base.Int.{ℤ, pos}
use remotty.Base.Text.{◌<>◌}
use remotty.Base.Json.{num, str, obj, end, field}
use remotty.Protocol.{
  no_info, Message, HostInfo, msg_error, new_message, err_unauthorized, err_invalid_state,
  err_invalid_payload, err_payload_too_large, err_host_not_found, err_room_not_found, err_internal,
}
use remotty.Config.{SignalConfig}

pub data PeerState : Type 0 where
  peer_new peer_registered peer_in_room peer_disconnected : PeerState

-- The roles are the strings "", "host" and "client".
pub data Role : Type 0 where
  no_role host client : Role

pub record Peer : Type 0 where
  pub id : String
  pub role : Role
  pub remote_addr : String
  pub state : PeerState
  pub info : HostInfo
  pub room_id : String
  pub connected_at : ℕ
  pub last_heartbeat : ℕ

-- A room does not change once it is made, so a pointer to one is its value.
pub record Room : Type 0 where
  pub id : String
  pub host : ℕ
  pub client : ℕ
  pub created_at : ℕ

pub record Server : Type 0 where
  pub cfg : SignalConfig
  pub heap : ℕ → Peer
  pub next : ℕ
  pub peers : List (String × ℕ)
  pub rooms : List (String × Room)
  pub host_index : List (String × ℕ)
  pub peer_count : ℤ
  pub room_count : ℤ
  pub accepting : Bool
  pub sent : List (ℕ × Message)

abbrev pub no_peer : Peer
no_peer = record {
  id = "";
  role = no_role;
  remote_addr = "";
  state = peer_disconnected;
  info = no_info;
  room_id = "";
  connected_at = 0;
  last_heartbeat = 0;
}

unfoldable pub new_server : SignalConfig → Server
new_server cfg = record {
  cfg = cfg;
  heap = λ p. no_peer;
  next = 0;
  peers = [];
  rooms = [];
  host_index = [];
  peer_count = pos 0;
  room_count = pos 0;
  accepting = true;
  sent = [];
}

-- A write through a pointer.
abbrev pub update : (ℕ → Peer) → ℕ → Peer → ℕ → Peer
update heap p peer q = if p == q then peer else heap q

abbrev pub write_peer : Server → ℕ → Peer → Server
write_peer s p peer = record s { heap = update s.heap p peer }

unfoldable pub send_message : Server → ℕ → Message → Server
send_message s p msg = record s { sent = s.sent ++ (p, msg) ∷ [] }

-- The switch of `sendError`.
unfoldable pub error_code : String → ℕ
error_code code =
    if code == "unauthorized"
    then err_unauthorized
    else (if code == "invalid_state"
        then err_invalid_state
        else (if code == "invalid_payload"
            then err_invalid_payload
            else (if code == "invalid_message"
                then err_invalid_payload
                else (if code == "payload_too_large"
                    then err_payload_too_large
                    else (if code == "host_not_found"
                        then err_host_not_found
                        else (if code == "no_room" then err_room_not_found else err_internal))))))

-- The message that `sendError` sends.
unfoldable pub error_message : String → String → Message
unfolding error_code
error_message code message = new_message msg_error (
    obj (
      field "code" (num (pos (error_code code)))
        (field "message" (str (code <> ": " <> message)) end)))

unfoldable pub send_error : Server → ℕ → String → String → Server
unfolding send_message
send_error s p code message = send_message s p (error_message code message)
