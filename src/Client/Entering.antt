-- ===== src/Client/Entering.antt =====
-- internal/client/client.go: the way of a client into a room, from its request to its engine.
use remotty.Base.{◌++◌, ℕ, ◌≡◌, ◌≢◌, refl, String, [], ◌∷◌, Bool, false, true, some, none, sym}
use remotty.Base.Text.{equal_fold, fold_code, equal_codes}
use remotty.Base.Json.{read}
use remotty.Protocol.{Message, new_message, msg_connect, msg_room_ready}
use remotty.Protocol.Encoding.{decode-encode_connect}
use remotty.Config.{Config}
use remotty.Config.Validate.{complaints}
use remotty.Config.Accepted.{accepted-keeps_out}
use remotty.Config.Checks.{complaints_iff}
use remotty.Signal.State.{Server, peer_disconnected}
use remotty.Signal.Rooms.{connect_notice, find_host, room_ready, room_id_at, handle_connect}
use remotty.Signal.Relay.{IsPaired, handle_connect_pairs}
use remotty.Signal.Access.{Request, presented, upgraded, handle_web_socket}
use remotty.Client.{Client, entered, replied, connect_request, enter_room}

-- What the server tells the client of a room with the host `h`.
abbrev pub ready : Server → ℕ → ℕ → Message
ready t h now = new_message msg_room_ready (room_ready (room_id_at now) (t.heap h))

-- The client whose engine is set up for the room at `now`.
abbrev pub in_room : Client → ℕ → Client
in_room c now = record c {
  conn = true;
  engine =
      some (record { room_id = room_id_at now; ice_servers = "stun:stun.l.google.com:19302" ∷ [] });
}

ready_enters :
    (c : Client) (t : Server) (h now : ℕ)
    → enter_room c (replied (ready t h now)) none
      ≡ (in_room c now, connect_request c.cfg ∷ [], entered)
unfolding enter_room read equal_fold fold_code equal_codes
ready_enters c t h now = refl

-- A client gets into the room that the server makes for it: where the host that its configuration names
-- leads to a peer which is not gone and has another ID, its request puts the two in a new room, and the server
-- sends it that the room is ready and then tells the host, and nothing else; this message, read by
-- `ConnectInteractive`, makes it set up its engine for that very room.
pub enter_room-IsPaired :
    (s : Server) (c : Client) (p h now : ℕ)
    → find_host s c.cfg.host_id ≡ some h
    → (s.heap h).state ≢ peer_disconnected
    → (s.heap h).id ≢ (s.heap p).id
    → let t = handle_connect s p (connect_request c.cfg) now in
      (t.sent
        ≡ (s.sent ++ (p, ready t h now) ∷ [])
          ++ (h, new_message msg_connect (connect_notice (room_id_at now) (t.heap p))) ∷ [])
      × IsPaired t h p now
      × (enter_room c (replied (ready t h now)) none
          ≡ (in_room c now, connect_request c.cfg ∷ [], entered))
enter_room-IsPaired s c p h now found live apart =
    let request = connect_request c.cfg in
    let pairs =
      handle_connect_pairs s p h request request _ now (decode-encode_connect _) found live apart in
    (pairs.1, pairs.0, ready_enters c (handle_connect s p request now) h now)

-- The request that `Dial` makes of a URL without a query and no header: it names no token.
abbrev pub dialled : String → Request
dialled addr = record {
  method = "GET";
  token = "";
  authorization = "";
  origin = "";
  remote_addr = addr;
}

-- A server that runs with an accepted configuration outside of development takes in no client and no
-- host daemon of this code, as both dial without a token.
pub dialled_refused :
    (c : Config) (s : Server) (addr : String) (upgrades : Bool) (now : ℕ)
    → complaints c ≡ []
    → c.signal.dev_mode ≡ false
    → s.cfg ≡ c.signal
    → let out = handle_web_socket s (dialled addr) upgrades now in
      (out.0 ≡ s) × ((p : ℕ) → out.1 ≢ upgraded p)
unfolding presented
dialled_refused c s addr upgrades now valid off same =
    let token = ((complaints_iff c).0 valid).secure.token off in
    accepted-keeps_out c s (dialled addr) upgrades now valid off same (λ e. token (sym e))
