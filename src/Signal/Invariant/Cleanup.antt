-- ===== src/Signal/Invariant/Cleanup.antt =====
-- The invariant through `cleanupPeer`: what it removes from the tables.
use remotty.Base.{
  ℕ, ◌≡◌, refl, ◌≢◌, String, none, some, arith, nat_key, string_key, ==_iff, lookup, IsDistinct,
  lookup_tail, lookup_cons, lookup_head, lookup-delete, delete-IsDistinct, length-delete, List, [],
  ◌∷◌,
}
use remotty.Base.Int.{◌-ℤ◌}
use remotty.Signal.State.{Server, Peer}
use remotty.Signal.Rooms.{remove_host, leave_room, forget_peer, cleanup_peer}
use remotty.Signal.Keeps.{leave_room-Keeps}
use remotty.Signal.Route.{IsConnected}
use remotty.Signal.Invariant.{Inv, Keeps-Inv}

not_found : (k : String) {p : ℕ} → lookup k [] ≡ some p → ⊥
unfolding lookup
not_found k h = cc

lookup-remove_host-none :
    (heap : ℕ → Peer) (id : String) (m : List (String × ℕ)) (j : String)
    → lookup j m ≡ none
    → lookup j (remove_host heap id m) ≡ none
unfolding lookup remove_host
lookup-remove_host-none heap id [] j h = refl
lookup-remove_host-none heap id ((n, p) ∷ m) j h =
    ground (arith, lookup-remove_host-none heap id m j)

-- What is left in the host index, where one name at most belongs to the ID.
lookup-remove_host :
    (heap : ℕ → Peer) (id name : String) (m : List (String × ℕ)) (j : String) (q : ℕ)
    → IsDistinct m
    → ((n : String) (p : ℕ) → lookup n m ≡ some p → (heap p).id ≡ id → n ≡ name)
    → lookup j (remove_host heap id m) ≡ some q
    → (lookup j m ≡ some q) × ((heap q).id ≢ id)
unfolding remove_host
lookup-remove_host heap id name [] j q d u h = absurd (not_found j h)
lookup-remove_host heap id name ((n, p) ∷ m) j q d u h = ground (
  arith,
  ==_iff n j,
  ==_iff (heap p).id id,
  lookup_tail n j p q m d.0,
  lookup_cons n j p m,
  u n p (lookup_head n p m),
  u j q,
  lookup_cons n j p (remove_host heap id m),
  lookup-remove_host heap id name m j q d.1 (λ i r e. u i r (lookup_tail n i p r m d.0 e)),
)

remove_host-IsDistinct :
    (heap : ℕ → Peer) (id : String) (m : List (String × ℕ))
    → IsDistinct m
    → IsDistinct (remove_host heap id m)
unfolding remove_host
remove_host-IsDistinct heap id [] d = tt
remove_host-IsDistinct heap id ((n, p) ∷ m) d =
    ground (arith, remove_host-IsDistinct heap id m d.1, lookup-remove_host-none heap id m n d.0)

-- What `forget_peer` leaves in the host index was there, and belongs to another ID.
pub left_in_index :
    (s : Server) (p : ℕ)
    → IsConnected s p
    → Inv s
    → (n : String) (q : ℕ) → lookup n (remove_host s.heap (s.heap p).id s.host_index) ≡ some q
    → (lookup n s.host_index ≡ some q) × ((s.heap q).id ≢ (s.heap p).id)
left_in_index s p c v n q =
    lookup-remove_host s.heap (s.heap p).id (s.heap p).info.name s.host_index n q v.distinct_hosts
      λ j r e i. let (name, _, live) = v.hosts_ok j r e in ground arith

-- A peer whose room is closed is forgotten: no entry of either table names its ID any more.
forget_peer-Inv : (s : Server) (p : ℕ) → IsConnected s p → Inv s → Inv (forget_peer s p)
unfolding forget_peer ◌-ℤ◌
forget_peer-Inv s p c v = record {
  peers_ok = λ k q h. ground (
    arith,
    ==_iff p q,
    ==_iff (s.heap p).id k,
    v.peers_ok k q,
    lookup-delete (s.heap p).id k s.peers,
  );
  hosts_ok = λ n q h.
      let (was, other) = left_in_index s p c v n q h in
      ground (
        arith,
        ==_iff p q,
        ==_iff (s.heap p).id (s.heap q).id,
        v.hosts_ok n q was,
        lookup-delete (s.heap p).id (s.heap q).id s.peers,
      );
  distinct_peers = delete-IsDistinct (s.heap p).id s.peers v.distinct_peers;
  distinct_hosts = remove_host-IsDistinct s.heap (s.heap p).id s.host_index v.distinct_hosts;
  peers_counted =
      ground (arith, v.peers_counted, length-delete (s.heap p).id p s.peers v.distinct_peers c);
}

pub cleanup_peer-Inv : (s : Server) (p : ℕ) → IsConnected s p → Inv s → Inv (cleanup_peer s p)
unfolding cleanup_peer
cleanup_peer-Inv s p c v =
    let k = leave_room-Keeps s p in
    forget_peer-Inv (leave_room s p) p (rw (k.peers_same, (k.peer_kept p).id_same) c)
      (Keeps-Inv s (leave_room s p) k v)
