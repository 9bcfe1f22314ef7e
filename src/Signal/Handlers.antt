-- ===== src/Signal/Handlers.antt =====
-- internal/signal/server.go: the handlers for registration and the list of hosts.
-- A handler runs here as one step; logging and the audit log are left out.
use remotty.Base.{
  ℕ, ◌≡◌, arith, String, Bool, true, false, List, [], ◌∷◌, Option, none, some, ◌==◌, nat_key,
  string_key, if◌then◌else◌, insert, ltb, length,
}
use remotty.Base.Int.{pos}
use remotty.Base.Text.{byte_len, trim_space}
use remotty.Base.Json.{Json, Items, str, arr, obj, nil, cons, end, field}
use remotty.Protocol.{
  Message, HostInfo, RegisterPayload, msg_register, msg_host_list, new_message, decode_register,
  decode_host_info, encode_host_info,
}
use remotty.Signal.State.{
  PeerState, peer_new, peer_registered, peer_in_room, peer_disconnected, Role, no_role, host,
  client, Peer, Server, update, write_peer, send_message, send_error,
}

abbrev pub max_host_name_len : ℕ
max_host_name_len = 64

abbrev pub max_features_count : ℕ
max_features_count = 20

abbrev pub is_new : PeerState → Bool
is_new peer_new = true
is_new _ = false

pub is_new→new : (st : PeerState) → is_new st ≡ true → st ≡ peer_new
is_new→new st h = ground arith

abbrev pub is_disconnected : PeerState → Bool
is_disconnected peer_disconnected = true
is_disconnected _ = false

-- The filter of `handleListHosts`.
abbrev pub is_listed : PeerState → Bool
is_listed peer_registered = true
is_listed peer_in_room = true
is_listed _ = false

-- `if peer.Role == "" { peer.Role = "client" }`
abbrev pub default_role : Role → Role
default_role no_role = client
default_role r = r

-- The length of a slice that may be nil.
abbrev pub count_features : Option (List String) → ℕ
count_features none = 0
count_features (some fs) = length fs

abbrev pub host_info : Peer → String → RegisterPayload → HostInfo
host_info peer name reg = record {
  id = peer.id;
  name = name;
  platform = reg.platform;
  arch = reg.arch;
  version = reg.version;
  online = true;
  features = reg.features;
  device_id = "";
  ping = pos 0;
}

abbrev pub registered : String → Json
registered id = obj (field "id" (str id) (field "status" (str "ok") end))

-- The end of `handleRegister`, once the fields are found valid.
unfoldable pub accept_host : Server → ℕ → String → RegisterPayload → Server
accept_host s p name reg =
    let peer = s.heap p in
    let peer' = record peer {
      role = host;
      state = peer_registered;
      info = host_info peer name reg;
    } in
    send_message
      (record s { heap = update s.heap p peer'; host_index = insert name p s.host_index }) p
      (new_message msg_register (registered peer.id))

-- The checks of the fields, in their order.
unfoldable pub register_host : Server → ℕ → RegisterPayload → Server
unfolding accept_host
register_host s p reg =
    let name = trim_space reg.name in
    if name == ""
    then send_error s p "invalid_payload" "Host name is required"
    else (if ltb max_host_name_len (byte_len name)
        then send_error s p "invalid_payload" "Host name too long (max 64 chars)"
        else (if ltb max_features_count (count_features reg.features)
            then send_error s p "invalid_payload" "Too many features (max 20)"
            else accept_host s p name reg))

unfoldable pub handle_register : Server → ℕ → Message → Server
unfolding register_host
handle_register s p msg =
    if is_new (s.heap p).state
    then elim (decode_register msg.payload) [
      | none ↦ send_error s p "invalid_payload" "Cannot parse registration"
      | some reg ↦ register_host s p reg
    ]
    else send_error s p "invalid_state" "Already registered"

unfoldable pub handle_heartbeat : Server → ℕ → ℕ → Server
handle_heartbeat s p now =
    let peer = s.heap p in write_peer s p (record peer { last_heartbeat = now })

unfoldable pub handle_update : Server → ℕ → Message → Server
handle_update s p msg = elim (decode_host_info msg.payload) [
  | none ↦ s
  | some info ↦ elim info.features [
    | none ↦ s
    | some fs ↦
        let peer = s.heap p in
        let old = peer.info in
        write_peer s p (record peer { info = record old { features = some fs } })
  ]
]

-- The loop over the host index; the order of a map's entries is any.
unfoldable pub listed_hosts : (ℕ → Peer) → List (String × ℕ) → List HostInfo
listed_hosts heap [] = []
listed_hosts heap ((name, p) ∷ m) =
    let rest = listed_hosts heap m in
    if is_listed (heap p).state then (heap p).info ∷ rest else rest

abbrev pub host_items : List HostInfo → Items
host_items [] = nil
host_items (h ∷ hs) = cons (encode_host_info h) (host_items hs)

unfoldable pub handle_list_hosts : Server → ℕ → Server
handle_list_hosts s p =
    let peer = s.heap p in
    let s' =
      write_peer s p (record peer { role = default_role peer.role; state = peer_registered }) in
    send_message s' p (
      new_message msg_host_list
        (obj (field "hosts" (arr (host_items (listed_hosts s'.heap s'.host_index))) end)))
