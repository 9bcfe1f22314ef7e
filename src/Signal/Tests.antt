-- ===== src/Signal/Tests.antt =====
-- The theorems on the signaling server at concrete inputs: a host and two clients.
use remotty.Base.{
  ◌+◌, ◌-◌, ◌*◌, ◌≤◌, ◌≡◌, refl, true, false, List, [], ◌∷◌, arith, lookup, insert, ==_apart,
  string_key,
}
use remotty.Base.Int.{pos, ◌+ℤ◌, ◌-ℤ◌}
use remotty.Base.Text.{byte_len, trim_space, decimal, equal_fold}
use remotty.Base.Json.{str, obj, end, field, read, fits}
use remotty.Config.{SignalConfig}
use remotty.Protocol.{
  Message, ConnectPayload, msg_register, msg_connect, msg_offer, new_message, decode_connect,
  decode_register,
}
use remotty.Signal.State.{Server, new_server, send_message}
use remotty.Signal.Handlers.{handle_register}
use remotty.Signal.Rooms.{
  handle_connect, find_host, join_host, cleanup_peer, other_member, room_id_at, relay_to_room,
}
use remotty.Signal.Route.{Reach, connects, here, next, add_peer}
use remotty.Signal.Invariant.{Inv}
use remotty.Signal.Invariant.Steps.{reachable-Inv}
use remotty.Signal.Registration.{handle_register_outcome, RegisterOutcome}
use remotty.Signal.Relay.{IsPaired, handle_connect_pairs, second_client_takes_over}
use remotty.Signal.Leaving.{
  IsForgotten, IsFreed, cleanup_peer-IsForgotten, cleanup_peer-frees, self_room_leaks,
}
use remotty.Signal.Access.{Request, handle_web_socket}
use remotty.Signal.RateLimit.{
  RateLimiter, Event, request, tick, new_rate_limiter, one_token, allow, cleanup, drop_stale,
}
use remotty.Signal.RateLimit.Available.{IsSetUp}
use remotty.Signal.RateLimit.Bound.{allowed, allowed_bound}
use remotty.Signal.RateLimit.Cleanup.{answers, cleanup_unobservable}
use remotty.Signal.Gate.{UpgradeOutcome, handle_web_socket_outcome}

abbrev settings : SignalConfig
settings = record {
  host = "0.0.0.0";
  port = pos 9000;
  tls = record { enabled = false; cert_file = ""; key_file = "" };
  auth_token = "secret";
  rate_limit = pos 60;
  allowed_origins = "https://a.example" ∷ [];
  dev_mode = false;
  web_dir = "";
}

abbrev registration : Message
registration =
    new_message msg_register
      (obj (field "name" (str " mac ") (field "platform" (str "darwin") end)))

abbrev request_mac : Message
request_mac = new_message msg_connect (obj (field "host_id" (str "mac") end))

-- Peer 0 registers as the host "mac"; peers 1 and 2 have connected.
abbrev hosted : Server
hosted =
    handle_register
      (add_peer (add_peer (add_peer (new_server settings) 1 "10.0.0.1:1") 2 "10.0.0.2:2") 3
        "10.0.0.3:3")
      0 registration

abbrev three : Server
three =
    add_peer (add_peer (add_peer (new_server settings) 1 "10.0.0.1:1") 2 "10.0.0.2:2") 3
      "10.0.0.3:3"

three_reached : Reach (new_server settings) three
unfolding new_server add_peer lookup insert decimal
three_reached =
    next (next (next here (connects 1 "10.0.0.1:1" refl)) (connects 2 "10.0.0.2:2" refl))
      (connects 3 "10.0.0.3:3" refl)

reachable-Inv_example : Inv three
reachable-Inv_example = reachable-Inv settings three_reached

handle_register_outcome_example :
    RegisterOutcome three 0 registration (handle_register three 0 registration)
handle_register_outcome_example = handle_register_outcome three 0 registration

abbrev req_mac : ConnectPayload
req_mac = record { host_id = "mac"; password = "" }

abbrev offer : Message
offer = new_message msg_offer (str "sdp")

handle_connect_pairs_example : IsPaired (handle_connect hosted 1 request_mac 9) 0 1 9
unfolding handle_register decode_register decode_connect read fits find_host new_server add_peer
    lookup insert decimal trim_space equal_fold send_message byte_len
handle_connect_pairs_example =
    (handle_connect_pairs hosted 1 0 request_mac offer req_mac 9 refl refl (λ e. cc)
      (==_apart (hosted.heap 0).id (hosted.heap 1).id refl)).0

second_client_takes_over_example :
    relay_to_room (join_host (join_host hosted 0 1 8) 0 2 9) 0 offer
    ≡ send_message
        (join_host (join_host hosted 0 1 8) 0 2 9)
        2
        (record offer { room = room_id_at 9 })
unfolding handle_register decode_register decode_connect read fits find_host new_server add_peer
    lookup insert decimal trim_space equal_fold send_message byte_len
second_client_takes_over_example =
    (second_client_takes_over hosted 0 1 2 8 9 offer (==_apart (room_id_at 8) (room_id_at 9) refl)
      (==_apart (hosted.heap 0).id (hosted.heap 1).id refl)
      (==_apart (hosted.heap 0).id (hosted.heap 2).id refl) (omega arith) (omega arith)).0

cleanup_peer-IsForgotten_example : IsForgotten "p-1" 0 (cleanup_peer three 0)
unfolding new_server add_peer lookup insert decimal
cleanup_peer-IsForgotten_example =
    cleanup_peer-IsForgotten three 0 refl (reachable-Inv settings three_reached)

abbrev paired : Server
paired = join_host three 0 1 9

cleanup_peer-frees_example : IsFreed paired 0 1 "r-9" (cleanup_peer paired 0)
unfolding new_server add_peer lookup insert decimal join_host other_member send_message
cleanup_peer-frees_example =
    cleanup_peer-frees paired 0 (record { id = "r-9"; host = 0; client = 1; created_at = 9 }) refl
      (omega arith)

self_room_leaks_example :
    (cleanup_peer (handle_connect hosted 0 request_mac 9) 0).room_count
    ≡ hosted.room_count +ℤ pos 1 -ℤ pos 1
unfolding handle_register decode_register decode_connect read fits find_host new_server add_peer
    lookup insert decimal trim_space equal_fold send_message byte_len
self_room_leaks_example = (self_room_leaks hosted 0 9 request_mac req_mac refl refl (λ e. cc)).1

abbrev from_elsewhere : Request
from_elsewhere = record {
  method = "GET";
  token = "";
  authorization = "Bearer secret";
  origin = "https://b.example";
  remote_addr = "10.0.0.9:5000";
}

handle_web_socket_outcome_example :
    UpgradeOutcome three from_elsewhere true 7 (handle_web_socket three from_elsewhere true 7)
handle_web_socket_outcome_example = handle_web_socket_outcome three from_elsewhere true 7

-- Two requests at once and one after half an hour, with a cleanup in between, at two a minute.
abbrev visits : List Event
visits =
    request "a" 10
    ∷ request "a" 20
    ∷ request "a" 30
    ∷ tick 400000000000
    ∷ request "a" 1800000000000
    ∷ []

visits-allowed : allowed "a" (new_rate_limiter 2) visits ≡ 3
unfolding allowed new_rate_limiter allow cleanup drop_stale lookup insert
visits-allowed = refl

allowed_bound_example :
    allowed "a" (new_rate_limiter 2) visits * one_token ≤ 2 * one_token + (1800000000000 - 10) * 2
allowed_bound_example =
    allowed_bound 2 10 1800000000000 "a" visits (omega arith)
      (omega arith, (omega arith, (omega arith, (omega arith, (omega arith, omega arith)))))

-- A limiter after its first request.
abbrev visited : RateLimiter
visited = (allow (new_rate_limiter 2) "a" 10).0

visited-IsSetUp : IsSetUp visited
unfolding allow new_rate_limiter lookup insert
visited-IsSetUp = record {
  burst_eq = refl;
  rate_pos = omega arith;
  interval_eq = refl;
  distinct = (refl, tt);
}

cleanup_unobservable_example :
    answers (cleanup visited 400000000000) (("a", 400000000000) ∷ ("b", 400000000005) ∷ [])
    ≡ answers visited (("a", 400000000000) ∷ ("b", 400000000005) ∷ [])
cleanup_unobservable_example =
    cleanup_unobservable visited 400000000000 (("a", 400000000000) ∷ ("b", 400000000005) ∷ [])
      visited-IsSetUp (omega arith, (omega arith, tt))
