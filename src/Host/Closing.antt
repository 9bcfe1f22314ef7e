-- ===== src/Host/Closing.antt =====
-- internal/host/daemon.go: what a client's leaving does to the table of sessions.
use remotty.Base.{
  ℕ, ◌≡◌, refl, ◌≢◌, inl, inr, String, true, false, List, [], ◌∷◌, none, some, ◌==◌, string_key,
  nat_key, lookup, IsDistinct, arith, ==_iff, Bool-cases, lookup-delete, ◌∙◌, sym, some_inj,
}
use remotty.Protocol.{Message}
use remotty.Host.{Daemon, text_of, cleanup_session_locked, close_sessions, handle_peer_disconnect}

close_sessions-removes :
    (peer room : String) (s : ℕ) (m : List (String × ℕ)) (d : Daemon)
    → lookup room m ≡ some s
    → (d.heap s).client_id ≡ peer
    → lookup room (close_sessions peer m d).sessions ≡ none
unfolding close_sessions cleanup_session_locked lookup
close_sessions-removes peer room s [] d e c = absurd (cc)
close_sessions-removes peer room s ((r, q) ∷ m) d e c = elim (Bool-cases (r == room)) [
  | inl same ↦
      let q_is : q ≡ s = ground (arith, same, e) in
      let gone : ((d.heap q).client_id == peer) ≡ true =
        ground (arith, ==_iff (d.heap q).client_id peer, q_is, c) in
      rw gone (lookup-delete r room (close_sessions peer m d).sessions ∙ rw same refl)
  | inr other ↦ ground (
    arith,
    other,
    e,
    close_sessions-removes peer room s m d,
    c,
    lookup-delete r room (close_sessions peer m d).sessions,
  )
]

close_sessions-keeps :
    (peer room : String) (m : List (String × ℕ)) (d : Daemon)
    → IsDistinct m
    → ((s : ℕ) → lookup room m ≡ some s → (d.heap s).client_id ≢ peer)
    → lookup room (close_sessions peer m d).sessions ≡ lookup room d.sessions
unfolding close_sessions cleanup_session_locked lookup
close_sessions-keeps peer room [] d di c = refl
close_sessions-keeps peer room ((r, q) ∷ m) d di c = elim (Bool-cases (r == room)) [
  | inl same ↦
      let r_is : r ≡ room = (==_iff r room).0 same in
      let stays : ((d.heap q).client_id == peer) ≡ false =
        ground (arith, ==_iff (d.heap q).client_id peer, c q (rw same refl)) in
      rw stays (close_sessions-keeps peer room m d di.1 (λ s e. absurd (cc (e, di.0, r_is))))
  | inr other ↦
      let rest = close_sessions-keeps peer room m d di.1 (λ s e. c s (rw other e)) in
      ground (arith, other, rest, lookup-delete r room (close_sessions peer m d).sessions)
]

-- When a client leaves, the table loses its sessions and no others: a room whose session is that
-- client's is in the table no more, and a room whose session is another client's leads to the same session
-- as before, in a table where no room stands twice.
pub handle_peer_disconnect-clears :
    (d : Daemon) (msg : Message) (room : String) (s : ℕ)
    → IsDistinct d.sessions
    → lookup room d.sessions ≡ some s
    → ((d.heap s).client_id ≡ text_of "peer_id" msg
        → lookup room (handle_peer_disconnect d msg).sessions ≡ none)
      × ((d.heap s).client_id ≢ text_of "peer_id" msg
          → lookup room (handle_peer_disconnect d msg).sessions ≡ some s)
unfolding handle_peer_disconnect
handle_peer_disconnect-clears d msg room s di e =
    let peer = text_of "peer_id" msg in
    (
      (λ c. close_sessions-removes peer room s d.sessions d e c),
      λ c.
          close_sessions-keeps peer room d.sessions d di
            (λ q h k. c (cc (k, some_inj s q (sym e ∙ h))))
          ∙ e,
    )
