-- ===== src/Signal/Invariant.antt =====
-- What holds of the signaling server's tables between two steps.
pub mod Register
pub mod Cleanup
pub mod Steps
use remotty.Base.{
  ℕ, suc, ◌+◌, ◌<◌, ◌≡◌, refl, ◌≢◌, inl, inr, String, true, false, Option, none, some, arith, ◌==◌,
  nat_key, string_key, ==_iff, if◌then◌else◌, lookup, insert, delete, IsDistinct, lookup-insert,
  lookup_tail, lookup_cons, lookup_head, lookup-delete, insert-IsDistinct, delete-IsDistinct,
  length, length-insert_new, length-delete, Bool-cases, Option-cases, List, [], ◌∷◌,
}
use remotty.Base.Int.{pos, ◌+ℤ◌, ◌-ℤ◌}
use remotty.Base.Text.{trim_space}
use remotty.Protocol.{decode_register, Message, RegisterPayload}
use remotty.Signal.State.{
  Server, Peer, PeerState, peer_new, peer_disconnected, update, new_server, send_message,
  send_error,
}
use remotty.Signal.Handlers.{is_new, accept_host, register_host, handle_register}
use remotty.Signal.Rooms.{remove_host, leave_room, forget_peer, cleanup_peer}
use remotty.Config.{SignalConfig}
use remotty.Signal.Keeps.{Keeps, KeepsPeer, leave_room-Keeps}
use remotty.Signal.Route.{add_peer, peer_id_at, IsConnected}

pub record Inv (s : Server) : Type 0 where
  -- The table of peers sends an ID to the connected peer that has it.
  pub peers_ok :
      (k : String) (p : ℕ)
      → lookup k s.peers ≡ some p
      → (p < s.next) × ((s.heap p).id ≡ k) × ((s.heap p).state ≢ peer_disconnected)
  -- The host index sends a name to a registered, connected host of that name.
  pub hosts_ok :
      (n : String) (p : ℕ)
      → lookup n s.host_index ≡ some p
      → ((s.heap p).info.name ≡ n) × ((s.heap p).state ≢ peer_new) × IsConnected s p
  pub distinct_peers : IsDistinct s.peers
  pub distinct_hosts : IsDistinct s.host_index
  pub peers_counted : s.peer_count ≡ pos (length s.peers)

pub new_server-Inv : (cfg : SignalConfig) → Inv (new_server cfg)
unfolding new_server lookup
new_server-Inv cfg = ground arith

pub Keeps-Inv : (s t : Server) → Keeps s t → Inv s → Inv t
Keeps-Inv s t k v = record {
  peers_ok = λ i p h.
      let old = v.peers_ok i p (rw (← k.peers_same) h) in
      let kept = k.peer_kept p in
      (ground (arith, k.next_same), ground arith, λ e. old.2 (kept.not_lost e));
  hosts_ok = λ n p h.
      let old = v.hosts_ok n p (rw (← k.index_same) h) in
      let kept = k.peer_kept p in
      (ground arith, (λ e. old.1 (kept.not_new e)), rw (k.peers_same, kept.id_same) old.2);
  distinct_peers = rw k.peers_same v.distinct_peers;
  distinct_hosts = rw k.index_same v.distinct_hosts;
  peers_counted = rw (k.count_same, k.peers_same) v.peers_counted;
}

pub send_error-Keeps :
    (s : Server) (p : ℕ) (code message : String) → Keeps s (send_error s p code message)
unfolding send_error
send_error-Keeps s p code message = ground arith

pub send_error-Inv :
    (s : Server) (p : ℕ) (code message : String) → Inv s → Inv (send_error s p code message)
send_error-Inv s p code message v = Keeps-Inv s _ (send_error-Keeps s p code message) v

pub send_message-Keeps : (s : Server) (p : ℕ) (msg : Message) → Keeps s (send_message s p msg)
unfolding send_message
send_message-Keeps s p msg = ground arith
