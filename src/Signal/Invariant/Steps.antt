-- ===== src/Signal/Invariant/Steps.antt =====
-- The invariant through every step, and so in every state that the server reaches.
use remotty.Base.{
  ℕ, ◌≡◌, String, Option, none, some, arith, nat_key, string_key, ==_iff, lookup, lookup-insert,
  insert-IsDistinct, length-insert_new,
}
use remotty.Base.Int.{◌+ℤ◌}
use remotty.Protocol.{Message}
use remotty.Signal.State.{Server}
use remotty.Signal.Route.{add_peer, peer_id_at, IsConnected}
use remotty.Config.{SignalConfig}
use remotty.Signal.State.{new_server}
use remotty.Signal.Invariant.{new_server-Inv, Inv, Keeps-Inv, send_error-Inv, send_message-Keeps}
use remotty.Signal.Invariant.Register.{handle_register-Inv}
use remotty.Signal.Invariant.Cleanup.{cleanup_peer-Inv}
use remotty.Signal.Keeps.{
  handle_heartbeat-Keeps, handle_update-Keeps, handle_list_hosts-Keeps, handle_connect-Keeps,
  relay_to_room-Keeps,
}
use remotty.Signal.Route.{
  Step, connects, receives, disconnects, Reach, here, next, receive, route_message, dispatch,
}
use remotty.Protocol.{
  MessageType, msg_register, msg_heartbeat, msg_update, msg_list_hosts, msg_connect, msg_offer,
  msg_answer, msg_ice_candidate, msg_ping,
}

pub add_peer-Inv :
    (s : Server) (now : ℕ) (addr : String)
    → lookup (peer_id_at now) s.peers ≡ none
    → Inv s
    → Inv (add_peer s now addr)
unfolding add_peer ◌+ℤ◌
add_peer-Inv s now addr fresh v = record {
  peers_ok = λ k q h. ground (
    arith,
    ==_iff s.next q,
    ==_iff (peer_id_at now) k,
    v.peers_ok k q,
    lookup-insert (peer_id_at now) k s.next s.peers,
  );
  hosts_ok = λ n q h.
      let old = v.hosts_ok n q h in
      ground (
        arith,
        ==_iff s.next q,
        v.peers_ok (s.heap q).id q,
        ==_iff (peer_id_at now) (s.heap q).id,
        lookup-insert (peer_id_at now) (s.heap q).id s.next s.peers,
      );
  distinct_peers = insert-IsDistinct (peer_id_at now) s.next s.peers v.distinct_peers;
  distinct_hosts = v.distinct_hosts;
  peers_counted =
      ground (arith, v.peers_counted, length-insert_new (peer_id_at now) s.next s.peers);
}

pub dispatch-Inv :
    (type : MessageType) (s : Server) (p : ℕ) (msg : Message) (now : ℕ)
    → IsConnected s p
    → Inv s
    → Inv (dispatch type s p msg now)
unfolding dispatch
dispatch-Inv msg_register s p msg now c v = handle_register-Inv s p msg c v
dispatch-Inv msg_heartbeat s p msg now c v = Keeps-Inv s _ (handle_heartbeat-Keeps s p now) v
dispatch-Inv msg_update s p msg now c v = Keeps-Inv s _ (handle_update-Keeps s p msg) v
dispatch-Inv msg_list_hosts s p msg now c v = Keeps-Inv s _ (handle_list_hosts-Keeps s p) v
dispatch-Inv msg_connect s p msg now c v = Keeps-Inv s _ (handle_connect-Keeps s p msg now) v
dispatch-Inv msg_offer s p msg now c v = Keeps-Inv s _ (relay_to_room-Keeps s p msg) v
dispatch-Inv msg_answer s p msg now c v = Keeps-Inv s _ (relay_to_room-Keeps s p msg) v
dispatch-Inv msg_ice_candidate s p msg now c v = Keeps-Inv s _ (relay_to_room-Keeps s p msg) v
dispatch-Inv msg_ping s p msg now c v = Keeps-Inv s _ (send_message-Keeps s p _) v
dispatch-Inv _ s p msg now c v = v

receive-Inv :
    (s : Server) (p size : ℕ) (decoded : Option Message) (now : ℕ)
    → IsConnected s p
    → Inv s
    → Inv (receive s p size decoded now)
unfolding receive route_message
receive-Inv s p size none now c v = ground (
  arith,
  send_error-Inv s p "payload_too_large" "Message exceeds 1048576 bytes" v,
  send_error-Inv s p "invalid_message" "Malformed JSON" v,
)
receive-Inv s p size (some msg) now c v = ground (
  arith,
  send_error-Inv s p "payload_too_large" "Message exceeds 1048576 bytes" v,
  dispatch-Inv msg.type s p msg now c v,
)

-- Every step of any connection keeps the invariant.
pub Step-Inv : {s t : Server} → Step s t → Inv s → Inv t
Step-Inv {s} (connects now addr fresh) v = add_peer-Inv s now addr fresh v
Step-Inv {s} (receives p size decoded now c fresh) v = receive-Inv s p size decoded now c v
Step-Inv {s} (disconnects p c) v = cleanup_peer-Inv s p c v

pub Reach-Inv : {s t : Server} → Inv s → Reach s t → Inv t
Reach-Inv v here = v
Reach-Inv v (next r st) = Step-Inv st (Reach-Inv v r)

-- In every state that the server reaches from its start, the table of peers leads each ID to the
-- connected peer of that ID, which is not marked as disconnected; the host index leads each name to a
-- registered, connected host of that name; no ID and no name stands twice; and the count of peers is the
-- number of entries of the table.
pub reachable-Inv : (cfg : SignalConfig) {t : Server} → Reach (new_server cfg) t → Inv t
reachable-Inv cfg r = Reach-Inv (new_server-Inv cfg) r
