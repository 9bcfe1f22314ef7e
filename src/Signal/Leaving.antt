-- ===== src/Signal/Leaving.antt =====
-- `cleanupPeer`: what is left of a peer whose connection has ended, and of its room.
use remotty.Base.{
  ℕ, ◌≡◌, refl, ◌≢◌, String, false, [], ◌∷◌, ◌++◌, none, some, arith, ◌==◌, string_key, nat_key,
  ==_iff, ==_self, lookup, delete, lookup-delete, sym, ◌∙◌,
}
use mathlib.Core.Path.{subst}
use text.Mathlib.TextLemmas.{cons-append, cons≢nil}
use remotty.Base.Int.{pos, ◌+ℤ◌, ◌-ℤ◌}
use remotty.Protocol.{Message, ConnectPayload, decode_connect, new_message, msg_peer_left}
use remotty.Signal.State.{Server, Room, peer_registered, peer_disconnected, send_message}
use remotty.Signal.Rooms.{
  find_host, handle_connect, leave_room, forget_peer, cleanup_peer, other_member, peer_left,
  join_host, room_id_at,
}
use remotty.Signal.Keeps.{leave_room-Keeps}
use remotty.Signal.Relay.{join_host-IsPaired, asking, handle_connect-joins}
use remotty.Signal.Route.{IsConnected}
use remotty.Signal.Invariant.{Inv, Keeps-Inv}
use remotty.Signal.Invariant.Cleanup.{left_in_index}

-- What a closed connection leaves behind.
pub record IsForgotten (id : String) (p : ℕ) (t : Server) : Type 0 where
  pub no_entry : lookup id t.peers ≡ none
  pub no_name : (n : String) (q : ℕ) → lookup n t.host_index ≡ some q → (t.heap q).id ≢ id
  pub lost : (t.heap p).state ≡ peer_disconnected

forget_peer-IsForgotten :
    (s : Server) (p : ℕ) → IsConnected s p → Inv s → IsForgotten (s.heap p).id p (forget_peer s p)
unfolding forget_peer
forget_peer-IsForgotten s p c v = record {
  no_entry =
      ground (arith, lookup-delete (s.heap p).id (s.heap p).id s.peers, ==_self (s.heap p).id);
  no_name = λ n q h. ground (arith, ==_iff p q, left_in_index s p c v n q h);
  lost = ground (arith, ==_iff p p);
}

-- Once the connection of a peer has ended, in a state that keeps the invariant, the table of peers has
-- no entry for its ID, no name of the host index leads to a peer with that ID, and its record is marked
-- as disconnected.
pub cleanup_peer-IsForgotten :
    (s : Server) (p : ℕ) → IsConnected s p → Inv s → IsForgotten (s.heap p).id p (cleanup_peer s p)
unfolding cleanup_peer
cleanup_peer-IsForgotten s p c v =
    let k = leave_room-Keeps s p in
    let id = (k.peer_kept p).id_same in
    subst (λ i. IsForgotten i p (forget_peer (leave_room s p) p)) id
      (forget_peer-IsForgotten (leave_room s p) p (rw (k.peers_same, id) c)
        (Keeps-Inv s (leave_room s p) k v))

-- The peer `o` has been set free from the room, and been told that the other has left.
pub record IsFreed (s : Server) (p o : ℕ) (room_id : String) (t : Server) : Type 0 where
  pub no_room : lookup room_id t.rooms ≡ none
  pub out : ((t.heap o).room_id ≡ "") × ((t.heap o).state ≡ peer_registered)
  pub told : t.sent ≡ s.sent ++ (o, new_message msg_peer_left (peer_left (s.heap p).id)) ∷ []
  pub counted : t.room_count ≡ s.room_count -ℤ pos 1

leave_room-frees :
    (s : Server) (p : ℕ) (room : Room)
    → lookup (s.heap p).room_id s.rooms ≡ some room
    → other_member s.heap room p ≢ p
    → IsFreed s p (other_member s.heap room p) (s.heap p).room_id (leave_room s p)
unfolding leave_room send_message
leave_room-frees s p room e d =
    let o = other_member s.heap room p in
    let r = (s.heap p).room_id in
    rw (e, leave_room)
      (record {
        no_room = ground (arith, ==_iff o p, lookup-delete r r s.rooms, ==_self r);
        out = ground (arith, ==_iff o o);
        told = refl;
        counted = refl;
      })

-- Where the peer that leaves is in a room with another, the room is gone, the other is registered again
-- and in no room, it alone is told who left, and one room less is counted.
pub cleanup_peer-frees :
    (s : Server) (p : ℕ) (room : Room)
    → lookup (s.heap p).room_id s.rooms ≡ some room
    → other_member s.heap room p ≢ p
    → IsFreed s p (other_member s.heap room p) (s.heap p).room_id (cleanup_peer s p)
unfolding cleanup_peer forget_peer
cleanup_peer-frees s p room e d =
    let f = leave_room-frees s p room e d in
    record {
      no_room = f.no_room;
      out = ground (arith, f.out, ==_iff p (other_member s.heap room p));
      told = f.told;
      counted = f.counted;
    }

kept_apart : (r : String) → r ≢ "" → ("" == r) ≡ false
kept_apart r d = ground (arith, ==_iff "" r)

room_id_at-ne : (now : ℕ) → room_id_at now ≢ ""
room_id_at-ne now h = cons≢nil (sym (cons-append _ _ _) ∙ h)

leave_room_self :
    (s : Server) (p : ℕ) (room : Room)
    → lookup (s.heap p).room_id s.rooms ≡ some room
    → other_member s.heap room p ≡ p
    → ((cleanup_peer s p).rooms ≡ delete "" s.rooms)
      × ((cleanup_peer s p).room_count ≡ s.room_count -ℤ pos 1)
unfolding cleanup_peer leave_room forget_peer send_message
leave_room_self s p room e same = rw (e, leave_room) (rw same (ground (arith, ==_iff p p)))

joined_self_leaks :
    (s : Server) (p now : ℕ)
    → let t = cleanup_peer (join_host s p p now) p in
      (lookup (room_id_at now) t.rooms
        ≡ some (record { id = room_id_at now; host = p; client = p; created_at = now }))
      × (t.room_count ≡ s.room_count +ℤ pos 1 -ℤ pos 1)
joined_self_leaks s p now =
    let t = join_host s p p now in
    let r = room_id_at now in
    let paired = join_host-IsPaired s p p now in
    let room : Room = record { id = r; host = p; client = p; created_at = now } in
    let left =
      leave_room_self t p room (rw paired.host_in.0 paired.room_made)
        (unfold other_member in ground (arith, ==_self (t.heap p).id)) in
    (
      rw left.0 (
          ground (
            arith,
            lookup-delete "" r t.rooms,
            ==_iff "" r,
            paired.room_made,
            kept_apart r (room_id_at-ne now),
          )),
      rw left.1 (unfold join_host send_message in refl),
    )

-- A peer that is not gone and asks for its own ID, or for a name that leads to it, is in a room with
-- itself, and when it leaves the room stays in the table, although one room less is counted.
pub self_room_leaks :
    (s : Server) (p now : ℕ) (msg : Message) (req : ConnectPayload)
    → decode_connect msg.payload ≡ some req
    → find_host s req.host_id ≡ some p
    → (s.heap p).state ≢ peer_disconnected
    → let t = cleanup_peer (handle_connect s p msg now) p in
      (lookup (room_id_at now) t.rooms
        ≡ some (record { id = room_id_at now; host = p; client = p; created_at = now }))
      × (t.room_count ≡ s.room_count +ℤ pos 1 -ℤ pos 1)
self_room_leaks s p now msg req e found live =
    rw (handle_connect-joins s p p msg req now e found live) (joined_self_leaks (asking s p) p now)
