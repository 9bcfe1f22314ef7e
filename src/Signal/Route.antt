-- ===== src/Signal/Route.antt =====
-- internal/signal/server.go: the read loop of a connection, the dispatch of its messages, and the
-- server as a step relation over what the connections do.
use remotty.Base.{
  ℕ, suc, ◌≡◌, String, Option, none, some, if◌then◌else◌, lookup, insert, ltb, string_key,
}
use remotty.Base.Int.{pos, ◌+ℤ◌}
use remotty.Base.Text.{◌<>◌, decimal}
use remotty.Base.Json.{null}
use remotty.Protocol.{
  no_info, MessageType, Message, msg_register, msg_heartbeat, msg_update, msg_list_hosts,
  msg_connect, msg_offer, msg_answer, msg_ice_candidate, msg_ping, msg_pong, new_message,
}
use remotty.Signal.State.{Peer, Server, peer_new, no_role, update, send_message, send_error}
use remotty.Signal.Handlers.{handle_register, handle_heartbeat, handle_update, handle_list_hosts}
use remotty.Signal.Rooms.{handle_connect, relay_to_room, cleanup_peer, room_id_at}

abbrev pub max_payload_size : ℕ
max_payload_size = 1048576

-- The switch of `routeMessage`.
unfoldable pub dispatch : MessageType → Server → ℕ → Message → ℕ → Server
dispatch msg_register s p msg now = handle_register s p msg
dispatch msg_heartbeat s p msg now = handle_heartbeat s p now
dispatch msg_update s p msg now = handle_update s p msg
dispatch msg_list_hosts s p msg now = handle_list_hosts s p
dispatch msg_connect s p msg now = handle_connect s p msg now
dispatch msg_offer s p msg now = relay_to_room s p msg
dispatch msg_answer s p msg now = relay_to_room s p msg
dispatch msg_ice_candidate s p msg now = relay_to_room s p msg
dispatch msg_ping s p msg now = send_message s p (new_message msg_pong null)
dispatch _ s p msg now = s

unfoldable pub route_message : Server → ℕ → Message → ℕ → Server
unfolding dispatch
route_message s p msg now = dispatch msg.type s p msg now

-- One round of `readLoop`: the bytes enter as their number and as what `json.Unmarshal` makes of them.
unfoldable pub receive : Server → ℕ → ℕ → Option Message → ℕ → Server
receive s p size decoded now =
    if ltb max_payload_size size
    then send_error s p "payload_too_large" "Message exceeds 1048576 bytes"
    else elim decoded [
      | none ↦ send_error s p "invalid_message" "Malformed JSON"
      | some msg ↦ route_message s p msg now
    ]

abbrev pub peer_id_at : ℕ → String
peer_id_at now = "p-" <> decimal now

abbrev pub fresh_peer : ℕ → String → Peer
fresh_peer now addr = record {
  id = peer_id_at now;
  role = no_role;
  remote_addr = addr;
  state = peer_new;
  info = no_info;
  room_id = "";
  connected_at = now;
  last_heartbeat = now;
}

-- The part of `handleWebSocket` that takes an upgraded connection in.
unfoldable pub add_peer : Server → ℕ → String → Server
add_peer s now addr = record s {
  heap = update s.heap s.next (fresh_peer now addr);
  next = suc s.next;
  peers = insert (peer_id_at now) s.next s.peers;
  peer_count = s.peer_count +ℤ pos 1;
}

-- The read loop of this peer is running: the table still holds it.
abbrev pub IsConnected : Server → ℕ → Type 0
IsConnected s p = lookup (s.heap p).id s.peers ≡ some p

-- What the connections may do next, in any order. The clock gives a new connection and a new room
-- IDs that are not in use.
pub data Step (s : Server) : Server → Type 0 where
  connects :
      (now : ℕ) (addr : String)
      → lookup (peer_id_at now) s.peers ≡ none
      → Step s (add_peer s now addr)
  receives :
      (p size : ℕ) (decoded : Option Message) (now : ℕ)
      → IsConnected s p
      → lookup (room_id_at now) s.rooms ≡ none
      → Step s (receive s p size decoded now)
  disconnects : (p : ℕ) → IsConnected s p → Step s (cleanup_peer s p)

pub data Reach (s : Server) : Server → Type 0 where
  here : Reach s s
  next : {t u : Server} → Reach s t → Step t u → Reach s u
