-- ===== src/Signal/Relay.antt =====
-- `handleConnect` and `relayToRoom` together: what a room does for its two members.
use remotty.Base.{
  ℕ, ◌≡◌, refl, ◌≢◌, ◌⊎◌, inl, inr, String, false, [], ◌∷◌, ◌++◌, none, some, arith, string_key,
  nat_key, ==_iff, ==_self, lookup, lookup-insert, ◌∙◌,
}
use remotty.Base.Text.{◌<>◌}
use remotty.Protocol.{
  Message, ConnectPayload, decode_connect, new_message, msg_room_ready, msg_connect,
}
use remotty.Signal.State.{
  Server, PeerState, Room, peer_in_room, peer_disconnected, send_message, send_error, write_peer,
}
use remotty.Signal.Handlers.{is_disconnected, default_role}
use remotty.Signal.Rooms.{
  find_host, handle_connect, connect_to, join_host, relay_to_room, room_id_at, room_ready,
  connect_notice,
}

-- The room at `now` has these members, who know that they are in it.
pub record IsPaired (t : Server) (h c now : ℕ) : Type 0 where
  pub room_made :
      lookup (room_id_at now) t.rooms
      ≡ some (record { id = room_id_at now; host = h; client = c; created_at = now })
  pub host_in : ((t.heap h).room_id ≡ room_id_at now) × ((t.heap h).state ≡ peer_in_room)
  pub client_in : ((t.heap c).room_id ≡ room_id_at now) × ((t.heap c).state ≡ peer_in_room)

pub join_host-IsPaired : (s : Server) (h c now : ℕ) → IsPaired (join_host s h c now) h c now
unfolding join_host send_message
join_host-IsPaired s h c now = record {
  room_made = ground (
    arith,
    lookup-insert (room_id_at now) (room_id_at now)
        (record { id = room_id_at now; host = h; client = c; created_at = now }) s.rooms,
    ==_self (room_id_at now),
  );
  host_in = ground (arith, ==_iff h h, ==_iff c h);
  client_in = ground (arith, ==_iff c c);
}

-- In a paired room what the client sends goes to the host, and what the host sends to the client.
IsPaired-relays :
    (t : Server) (h c now : ℕ) (msg : Message)
    → IsPaired t h c now
    → (t.heap h).id ≢ (t.heap c).id
    → (relay_to_room t c msg ≡ send_message t h (record msg { room = room_id_at now }))
      × (relay_to_room t h msg ≡ send_message t c (record msg { room = room_id_at now }))
unfolding relay_to_room
IsPaired-relays t h c now msg v d =
    ground
      (arith, v.room_made, ==_iff (t.heap c).id (t.heap h).id, ==_iff (t.heap h).id (t.heap h).id)

not_disconnected : (st : PeerState) → st ≢ peer_disconnected → is_disconnected st ≡ false
not_disconnected st h = ground arith

connect_to-joins :
    (s : Server) (p h : ℕ) (id : String) (now : ℕ)
    → find_host s id ≡ some h
    → (s.heap h).state ≢ peer_disconnected
    → connect_to s p id now ≡ join_host s h p now
unfolding connect_to
connect_to-joins s p h id now e k =
    rw (e, connect_to) (ground (arith, not_disconnected (s.heap h).state k))

join_host-sent :
    (s : Server) (h c now : ℕ)
    → (join_host s h c now).sent
      ≡ (s.sent
          ++ (
            c,
            new_message msg_room_ready (room_ready (room_id_at now) ((join_host s h c now).heap h)),
          )
            ∷ [])
        ++ (
          h,
          new_message msg_connect (connect_notice (room_id_at now) ((join_host s h c now).heap c)),
        )
          ∷ []
unfolding join_host send_message
join_host-sent s h c now = refl

-- The server once the asking peer has a role.
abbrev pub asking : Server → ℕ → Server
asking s c = let peer = s.heap c in write_peer s c (record peer { role = default_role peer.role })

-- The server that makes the room.
pub handle_connect-joins :
    (s : Server) (c h : ℕ) (msg : Message) (req : ConnectPayload) (now : ℕ)
    → decode_connect msg.payload ≡ some req
    → find_host s req.host_id ≡ some h
    → (s.heap h).state ≢ peer_disconnected
    → handle_connect s c msg now ≡ join_host (asking s c) h c now
unfolding handle_connect find_host
handle_connect-joins s c h msg req now e f k =
    rw (e, handle_connect)
      (connect_to-joins (asking s c) c h req.host_id now f (λ q. k (ground (arith, ==_iff c h))))

join_host-id : (s : Server) (h c now q : ℕ) → ((join_host s h c now).heap q).id ≡ (s.heap q).id
unfolding join_host send_message
join_host-id s h c now q = ground arith

asking-id : (s : Server) (c q : ℕ) → ((asking s c).heap q).id ≡ (s.heap q).id
asking-id s c q = ground arith

-- A client that asks for a host, by an ID or a name that leads to a peer which is not gone and has
-- another ID, gets a room with it: the client is told that the room is ready and then the host that
-- the client is there, both are in the room, and a message that one of them relays then goes to the
-- other, unchanged but for the room it names.
pub handle_connect_pairs :
    (s : Server) (c h : ℕ) (msg relayed : Message) (req : ConnectPayload) (now : ℕ)
    → decode_connect msg.payload ≡ some req
    → find_host s req.host_id ≡ some h
    → (s.heap h).state ≢ peer_disconnected
    → (s.heap h).id ≢ (s.heap c).id
    → let t = handle_connect s c msg now in
      IsPaired t h c now
      × (t.sent
          ≡ (s.sent
              ++ (c, new_message msg_room_ready (room_ready (room_id_at now) (t.heap h))) ∷ [])
            ++ (h, new_message msg_connect (connect_notice (room_id_at now) (t.heap c))) ∷ [])
      × ((relay_to_room t c relayed ≡ send_message t h (record relayed { room = room_id_at now }))
          × (relay_to_room t h relayed
              ≡ send_message t c (record relayed { room = room_id_at now })))
handle_connect_pairs s c h msg relayed req now e f k d =
    rw (handle_connect-joins s c h msg req now e f k) (
      paired,
      join_host-sent (asking s c) h c now,
      IsPaired-relays _ h c now relayed paired distinct,
    )
  where
    paired : IsPaired (join_host (asking s c) h c now) h c now
    paired = join_host-IsPaired (asking s c) h c now

    distinct :
        ((join_host (asking s c) h c now).heap h).id ≢ ((join_host (asking s c) h c now).heap c).id
    distinct q = d (
        cc (
          q,
          join_host-id (asking s c) h c now h,
          join_host-id (asking s c) h c now c,
          asking-id s c h,
          asking-id s c c,
        ))

connect_to_refuses :
    (s : Server) (p : ℕ) (id : String) (now : ℕ)
    → (find_host s id ≡ none)
      ⊎ ((h : ℕ) × (find_host s id ≡ some h) × ((s.heap h).state ≡ peer_disconnected))
    → connect_to s p id now ≡ send_error s p "host_not_found" ("Host " <> id <> " is offline")
unfolding connect_to
connect_to_refuses s p id now (inl f) = rw (f, connect_to)
connect_to_refuses s p id now (inr (h, f, k)) = rw (f, k, connect_to)

-- Where no peer of the ID or name is at hand, or it is gone, the client is sent an error and gets no
-- room: the tables stay, and no peer enters a room.
pub handle_connect_refuses :
    (s : Server) (c : ℕ) (msg : Message) (req : ConnectPayload) (now : ℕ)
    → decode_connect msg.payload ≡ some req
    → (find_host s req.host_id ≡ none)
      ⊎ ((h : ℕ) × (find_host s req.host_id ≡ some h) × ((s.heap h).state ≡ peer_disconnected))
    → handle_connect s c msg now
      ≡ send_error (asking s c) c "host_not_found" ("Host " <> req.host_id <> " is offline")
unfolding handle_connect find_host
handle_connect_refuses s c msg req now e f =
    rw (e, handle_connect) (connect_to_refuses (asking s c) c req.host_id now (gone f))
  where
    gone :
        (find_host s req.host_id ≡ none)
          ⊎ ((h : ℕ) × (find_host s req.host_id ≡ some h) × ((s.heap h).state ≡ peer_disconnected))
        → (find_host s req.host_id ≡ none)
          ⊎ ((h : ℕ) × (find_host s req.host_id ≡ some h)
              × (((asking s c).heap h).state ≡ peer_disconnected))
    gone (inl none_found) = inl none_found
    gone (inr (h, found, lost)) = inr (h, found, ground (arith, ==_iff c h))

join_host_others :
    (s : Server) (h c now q : ℕ) (room : String)
    → q ≢ h
    → q ≢ c
    → room ≢ room_id_at now
    → (lookup room (join_host s h c now).rooms ≡ lookup room s.rooms)
      × ((join_host s h c now).heap q ≡ s.heap q)
unfolding join_host send_message
join_host_others s h c now q room a b d = ground (
  arith,
  ==_iff h q,
  ==_iff c q,
  ==_iff (room_id_at now) room,
  lookup-insert (room_id_at now) room
      (record { id = room_id_at now; host = h; client = c; created_at = now }) s.rooms,
)

relay-to_host :
    (t : Server) (p : ℕ) (room : Room) (msg : Message)
    → lookup (t.heap p).room_id t.rooms ≡ some room
    → (t.heap p).id ≢ (t.heap room.host).id
    → relay_to_room t p msg ≡ send_message t room.host (record msg { room = room.id })
unfolding relay_to_room
relay-to_host t p room msg e d =
    rw (e, relay_to_room) (ground (arith, ==_iff (t.heap p).id (t.heap room.host).id))

-- The room of a second client takes the host over: what the host relays goes to the second client,
-- whatever room the message names, while the first client's messages still come to the host.
pub second_client_takes_over :
    (s : Server) (h c1 c2 n1 n2 : ℕ) (relayed : Message)
    → room_id_at n1 ≢ room_id_at n2
    → (s.heap h).id ≢ (s.heap c1).id
    → (s.heap h).id ≢ (s.heap c2).id
    → c1 ≢ c2
    → c1 ≢ h
    → let t = join_host (join_host s h c1 n1) h c2 n2 in
      (relay_to_room t h relayed ≡ send_message t c2 (record relayed { room = room_id_at n2 }))
      × (relay_to_room t c1 relayed ≡ send_message t h (record relayed { room = room_id_at n1 }))
second_client_takes_over s h c1 c2 n1 n2 relayed nr d1 d2 e1 e2 =
    let a = join_host s h c1 n1 in
    let t = join_host a h c2 n2 in
    let first = join_host-IsPaired s h c1 n1 in
    let second = join_host-IsPaired a h c2 n2 in
    let (there, same) = join_host_others a h c2 n2 c1 (room_id_at n1) e2 e1 nr in
    let room : Room = record { id = room_id_at n1; host = h; client = c1; created_at = n1 } in
    let id = λ (q : ℕ). join_host-id a h c2 n2 q ∙ join_host-id s h c1 n1 q in
    (
      (IsPaired-relays t h c2 n2 relayed second (λ q. d2 (cc (q, id h, id c2)))).1,
      relay-to_host t c1 room relayed (cc (first.room_made, first.client_in.0, there, same))
          (λ q. d1 (cc (q, id h, id c1))),
    )
