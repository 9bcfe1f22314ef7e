-- ===== src/Client/Tests.antt =====
-- The theorems on the client at concrete inputs: the host "mac", and a client of it.
use Prim.Native.Nat.{zero, suc}
use remotty.Base.{
  ℕ, ◌≡◌, refl, true, false, List, [], ◌∷◌, none, some, arith, lookup, insert, ==_apart, string_key,
}
use remotty.Base.Int.{pos}
use remotty.Base.Text.{byte_len, trim_space, decimal, equal_fold}
use remotty.Base.Json.{null, obj, end, field, str, read, fits, in_int64}
use remotty.Config.{SignalConfig}
use remotty.Protocol.{
  Message, msg_list_hosts, msg_auth_fail, msg_register, new_message, decode_register,
  decode_connect,
}
use remotty.Signal.State.{Server, new_server, send_message}
use remotty.Signal.Handlers.{handle_register}
use remotty.Signal.Rooms.{find_host, handle_connect}
use remotty.Signal.Route.{Reach, connects, here, next, add_peer, dispatch}
use remotty.Signal.Invariant.{Inv}
use remotty.Signal.Invariant.Steps.{reachable-Inv, dispatch-Inv}
use remotty.Signal.Relay.{IsPaired}
use remotty.Client.{
  channel_opens, sent_input, sent_resize, react, on_input, on_resize, on_answer, Client, listed,
  replied, new_client, list_hosts, connect_request, Event, typed, resized, answered, react_all,
  start_session,
}
use remotty.Client.Hosts.{list_hosts_complete, host_list, known_hosts}
use remotty.Client.Entering.{enter_room-IsPaired}
use remotty.Client.Terminal.{react_all-IsFollowing, IsFollowing}

abbrev settings : SignalConfig
settings = record {
  host = "0.0.0.0";
  port = pos 9000;
  tls = record { enabled = false; cert_file = ""; key_file = "" };
  auth_token = "";
  rate_limit = pos 60;
  allowed_origins = [];
  dev_mode = true;
  web_dir = "";
}

abbrev registration : Message
registration =
    new_message msg_register (obj (field "name" (str "mac") (field "platform" (str "darwin") end)))

abbrev two : Server
two = add_peer (add_peer (new_server settings) 1 "10.0.0.1:1") 2 "10.0.0.2:2"

two_reached : Reach (new_server settings) two
unfolding new_server add_peer lookup insert decimal
two_reached = next (next here (connects 1 "10.0.0.1:1" refl)) (connects 2 "10.0.0.2:2" refl)

abbrev hosted : Server
hosted = handle_register two 0 registration

hosted-Inv : Inv hosted
unfolding new_server add_peer lookup insert decimal handle_register dispatch
hosted-Inv =
    dispatch-Inv msg_register two 0 registration 3 refl (reachable-Inv settings two_reached)

abbrev client : Client
client = new_client (record {
  signal_url = "wss://example.org";
  host_id = "mac";
  master_password = "pw";
  insecure = false;
})

pings : (q : ℕ) → in_int64 (hosted.heap q).info.ping ≡ true
unfolding handle_register decode_register read fits new_server add_peer lookup insert decimal
    trim_space equal_fold byte_len send_message
pings zero = refl
pings (suc q) = ground arith

list_hosts_complete_example : list_hosts client (replied (host_list hosted)) ≡ (
  record client { hosts = known_hosts hosted.heap hosted.host_index },
  new_message msg_list_hosts null ∷ [],
  listed (known_hosts hosted.heap hosted.host_index),
)
list_hosts_complete_example = (list_hosts_complete hosted 1 client hosted-Inv pings).1

enter_room-IsPaired_example :
    IsPaired (handle_connect hosted 1 (connect_request client.cfg) 9) 0 1 9
unfolding handle_register decode_register decode_connect read fits find_host new_server add_peer
    lookup insert decimal trim_space equal_fold send_message byte_len new_client
enter_room-IsPaired_example =
    (enter_room-IsPaired hosted client 1 0 9 refl (λ e. cc)
      (==_apart (hosted.heap 0).id (hosted.heap 1).id refl)).1

-- The first keys are typed before the channel opens.
abbrev events : List Event
events =
    typed (108 ∷ [])
    ∷ channel_opens
    ∷ typed (115 ∷ [])
    ∷ resized (some (100, 40))
    ∷ typed (17 ∷ [])
    ∷ answered msg_auth_fail
    ∷ []

react_all-IsFollowing_example :
    IsFollowing client.cfg none false false events
      (react_all (start_session client.cfg none false false) events)
react_all-IsFollowing_example = react_all-IsFollowing client.cfg none false false events

lost_test :
    (react_all (start_session client.cfg none false false) events).sent
    ≡ sent_input (115 ∷ []) ∷ sent_resize 40 100 ∷ sent_input (17 ∷ []) ∷ []
unfolding react_all react start_session on_input on_resize on_answer new_client
lost_test = refl
