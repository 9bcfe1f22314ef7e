-- ===== src/Signal/Keeps.antt =====
-- What a handler other than the registration does to the server: the tables of peers and hosts and
-- the count of peers stay, and no peer changes its ID or name, becomes new, or is lost.
use remotty.Base.{ℕ, ◌≡◌, arith}
use remotty.Protocol.{Message}
use remotty.Signal.State.{Server, Peer, peer_new, peer_disconnected, send_message, send_error}
use remotty.Signal.Handlers.{handle_heartbeat, handle_update, handle_list_hosts}
use remotty.Signal.Rooms.{handle_connect, relay_to_room, leave_room}

pub record KeepsPeer (a b : Peer) : Type 0 where
  pub id_same : b.id ≡ a.id
  pub name_same : b.info.name ≡ a.info.name
  pub not_new : b.state ≡ peer_new → a.state ≡ peer_new
  pub not_lost : b.state ≡ peer_disconnected → a.state ≡ peer_disconnected

pub record Keeps (s t : Server) : Type 0 where
  pub next_same : t.next ≡ s.next
  pub peers_same : t.peers ≡ s.peers
  pub index_same : t.host_index ≡ s.host_index
  pub count_same : t.peer_count ≡ s.peer_count
  pub peer_kept : (p : ℕ) → KeepsPeer (s.heap p) (t.heap p)

pub handle_heartbeat-Keeps : (s : Server) (p now : ℕ) → Keeps s (handle_heartbeat s p now)
unfolding handle_heartbeat
handle_heartbeat-Keeps s p now = ground arith

pub handle_connect-Keeps :
    (s : Server) (p : ℕ) (msg : Message) (now : ℕ) → Keeps s (handle_connect s p msg now)
unfolding handle_connect send_message send_error
handle_connect-Keeps s p msg now = ground arith

pub handle_update-Keeps : (s : Server) (p : ℕ) (msg : Message) → Keeps s (handle_update s p msg)
unfolding handle_update
handle_update-Keeps s p msg = ground arith

pub handle_list_hosts-Keeps : (s : Server) (p : ℕ) → Keeps s (handle_list_hosts s p)
unfolding handle_list_hosts send_message
handle_list_hosts-Keeps s p = ground arith

pub relay_to_room-Keeps : (s : Server) (p : ℕ) (msg : Message) → Keeps s (relay_to_room s p msg)
unfolding relay_to_room send_message send_error
relay_to_room-Keeps s p msg = ground arith

pub leave_room-Keeps : (s : Server) (p : ℕ) → Keeps s (leave_room s p)
unfolding leave_room send_message
leave_room-Keeps s p = ground arith
