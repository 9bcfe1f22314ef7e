-- ===== src/Client/Hosts.antt =====
-- internal/client/client.go: the list of hosts, from the server's tables to the client.
use remotty.Base.{ℕ, ◌≡◌, refl, String, List, [], ◌∷◌, true, map}
use remotty.Base.Text.{equal_fold, fold_code, equal_codes}
use remotty.Base.Json.{null, arr, obj, end, field, read, in_int64}
use remotty.Protocol.{HostInfo, Message, new_message, msg_list_hosts, msg_host_list}
use remotty.Protocol.Encoding.{set_info-encoded}
use remotty.Signal.State.{Server, Peer, send_message}
use remotty.Signal.Handlers.{host_items, handle_list_hosts}
use remotty.Signal.Registration.{handle_list_hosts_complete}
use remotty.Signal.Invariant.{Inv}
use remotty.Client.{Client, replied, listed, list_hosts, infos_of}

-- The infos that the host index leads to.
abbrev pub known_hosts : (ℕ → Peer) → List (String × ℕ) → List HostInfo
known_hosts heap index = map (λ e. (heap e.1).info) index

infos_of-host_items :
    (heap : ℕ → Peer) (index : List (String × ℕ))
    → ((p : ℕ) → in_int64 (heap p).info.ping ≡ true)
    → infos_of (host_items (known_hosts heap index)) ≡ known_hosts heap index
infos_of-host_items heap [] h = refl
infos_of-host_items heap ((n, p) ∷ index) h =
    let one = set_info-encoded (heap p).info (h p) in
    let rest = infos_of-host_items heap index h in rw (one, rest) refl

-- The reply of the server to a request for the list.
abbrev pub host_list : Server → Message
host_list s =
    new_message msg_host_list
      (obj (field "hosts" (arr (host_items (known_hosts s.heap s.host_index))) end))

-- The list of hosts gets through: in a state of the server that keeps the invariant, where every ping is a
-- 64-bit integer, a request for the list is answered with a message from which `ListHosts` returns and
-- keeps exactly the info of every host that the index holds, in the order of the index, field by field.
pub list_hosts_complete :
    (s : Server) (p : ℕ) (c : Client)
    → Inv s
    → ((q : ℕ) → in_int64 (s.heap q).info.ping ≡ true)
    → ((handle_list_hosts s p).sent ≡ (send_message s p (host_list s)).sent)
      × (list_hosts c (replied (host_list s)) ≡ (
        record c { hosts = known_hosts s.heap s.host_index },
        new_message msg_list_hosts null ∷ [],
        listed (known_hosts s.heap s.host_index),
      ))
unfolding list_hosts read equal_fold fold_code equal_codes
list_hosts_complete s p c v h =
    ((handle_list_hosts_complete s p v).0, rw (infos_of-host_items s.heap s.host_index h) refl)
