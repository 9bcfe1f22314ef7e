-- ===== src/Signal/Rooms.antt =====
-- internal/signal/server.go: the handlers that make, use and close rooms.
use remotty.Base.{
  ℕ, String, List, [], ◌∷◌, Option, none, some, ◌==◌, nat_key, string_key, if◌then◌else◌, lookup,
  insert, delete,
}
use remotty.Base.Int.{pos, ◌+ℤ◌, ◌-ℤ◌}
use remotty.Base.Text.{◌<>◌, decimal}
use remotty.Base.Json.{Json, str, obj, end, field}
use remotty.Protocol.{
  Message, msg_connect, msg_room_ready, msg_peer_left, new_message, decode_connect,
  encode_host_info,
}
use remotty.Signal.State.{
  peer_registered, peer_in_room, peer_disconnected, Peer, Room, Server, update, write_peer,
  send_message, send_error,
}
use remotty.Signal.Handlers.{is_disconnected, default_role}

-- `s.peers[id]`, and failing that `s.hostIndex[id]`.
unfoldable pub find_host : Server → String → Option ℕ
find_host s id = elim (lookup id s.peers) [ some p ↦ some p | none ↦ lookup id s.host_index ]

abbrev pub room_id_at : ℕ → String
room_id_at now = "r-" <> decimal now

abbrev pub room_ready : String → Peer → Json
room_ready room_id h = obj (
    field "host" (encode_host_info h.info)
      (field "host_id" (str h.id) (field "room" (str room_id) end)))

abbrev pub connect_notice : String → Peer → Json
connect_notice room_id c = obj (field "client_id" (str c.id) (field "room" (str room_id) end))

-- The critical section of `handleConnect`: the host is written first, then the client.
unfoldable pub create_room : Server → ℕ → ℕ → ℕ → Server
create_room s h c now =
    let room_id = room_id_at now in
    let host_peer = s.heap h in
    let heap = update s.heap h (record host_peer { room_id = room_id; state = peer_in_room }) in
    let client_peer = heap c in
    record s {
      heap = update heap c (record client_peer { room_id = room_id; state = peer_in_room });
      rooms =
          insert room_id (record { id = room_id; host = h; client = c; created_at = now }) s.rooms;
      room_count = s.room_count +ℤ pos 1;
    }

-- The end of `handleConnect`: the room is made, and both are told.
unfoldable pub join_host : Server → ℕ → ℕ → ℕ → Server
unfolding create_room
join_host s h c now =
    let s' = create_room s h c now in
    let told =
      send_message s' c (new_message msg_room_ready (room_ready (room_id_at now) (s'.heap h))) in
    send_message told h (new_message msg_connect (connect_notice (room_id_at now) (s'.heap c)))

unfoldable pub connect_to : Server → ℕ → String → ℕ → Server
unfolding find_host join_host
connect_to s p host_id now = elim (find_host s host_id) [
  | none ↦ send_error s p "host_not_found" ("Host " <> host_id <> " is offline")
  | some h ↦
      if is_disconnected (s.heap h).state
      then send_error s p "host_not_found" ("Host " <> host_id <> " is offline")
      else join_host s h p now
]

unfoldable pub handle_connect : Server → ℕ → Message → ℕ → Server
unfolding connect_to
handle_connect s p msg now = elim (decode_connect msg.payload) [
  | none ↦ send_error s p "invalid_payload" "Cannot parse connect request"
  | some req ↦
      let peer = s.heap p in
      connect_to (write_peer s p (record peer { role = default_role peer.role })) p req.host_id now
]

-- The other member of a room: the host is told by its ID.
unfoldable pub other_member : (ℕ → Peer) → Room → ℕ → ℕ
other_member heap room p = if (heap p).id == (heap room.host).id then room.client else room.host

unfoldable pub relay_to_room : Server → ℕ → Message → Server
unfolding other_member
relay_to_room s p msg = elim (lookup (s.heap p).room_id s.rooms) [
  | none ↦ send_error s p "no_room" "You are not in a room"
  | some room ↦ send_message s (other_member s.heap room p) (record msg { room = room.id })
]

-- The loop that drops the first entry of the host index with this peer's ID.
unfoldable pub remove_host : (ℕ → Peer) → String → List (String × ℕ) → List (String × ℕ)
remove_host heap id [] = []
remove_host heap id ((name, p) ∷ m) =
    if (heap p).id == id then m else (name, p) ∷ remove_host heap id m

abbrev pub peer_left : String → Json
peer_left id = obj (field "peer_id" (str id) (field "reason" (str "disconnected") end))

-- The part of `cleanupPeer` that closes the peer's room and tells the other member.
unfoldable pub leave_room : Server → ℕ → Server
unfolding other_member
leave_room s p = elim (lookup (s.heap p).room_id s.rooms) [
  | none ↦ s
  | some room ↦
      let o = other_member s.heap room p in
      let other = s.heap o in
      let freed = write_peer s o (record other { room_id = ""; state = peer_registered }) in
      let told = send_message freed o (new_message msg_peer_left (peer_left (s.heap p).id)) in
      record told {
        rooms = delete (freed.heap p).room_id told.rooms;
        room_count = told.room_count -ℤ pos 1;
      }
]

-- The part of `cleanupPeer` that forgets the peer.
unfoldable pub forget_peer : Server → ℕ → Server
forget_peer s p =
    let peer = s.heap p in
    record s {
      host_index = remove_host s.heap peer.id s.host_index;
      peers = delete peer.id s.peers;
      peer_count = s.peer_count -ℤ pos 1;
      heap = update s.heap p (record peer { state = peer_disconnected });
    }

unfoldable pub cleanup_peer : Server → ℕ → Server
unfolding leave_room forget_peer
cleanup_peer s p = forget_peer (leave_room s p) p
