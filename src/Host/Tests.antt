-- ===== src/Host/Tests.antt =====
-- The theorems on the host daemon at concrete inputs.
use text.Mathlib.TextLemmas.{cons-append, cons≢nil}
use remotty.Base.{
  inl, ◌≢◌, Option, sym, ◌∙◌, some_inj, ◌≤◌, ◌≡◌, refl, String, Bool, true, false, [], ◌∷◌, none,
  some, ◌==◌, string_key, arith, All, length, lookup, insert, ==_apart, get_elem?,
}
use remotty.Base.Int.{pos}
use remotty.Base.Text.{◌<>◌, equal_fold}
use remotty.Base.Json.{str, obj, end, field, read}
use remotty.Protocol.{
  Message, new_message, msg_connect, msg_auth, msg_input, msg_peer_left, msg_clipboard_data,
}
use remotty.Host.{
  HostConfig, Daemon, auth, terminal, clipboard, Environment, hashed, with_defaults, idle_daemon,
  new_daemon, handle_message, dispatch_signal, handle_connect_request, add_session, send_offer,
  handle_peer_disconnect,
}
use remotty.Host.Channels.{
  Opening, on_data_channel, open_channel, start_shell, on_message, handle_auth,
}
use remotty.Host.Steps.{Reach, signals, opens, hears, here, next}
use remotty.Host.Auth.{Earned}
use remotty.Host.Auth.Hearing.{nothing_unearned, clipboard_unguarded}
use remotty.Host.Sessions.{sessions_bounded}
use remotty.Host.Closing.{handle_peer_disconnect-clears}
use remotty.Host.Run.{Connection, run, doubling, backoff_never_reset}

abbrev settings : HostConfig
settings = record {
  signal_url = "ws://127.0.0.1:9000";
  name = "box";
  master_password = "";
  master_hash = "hash";
  allow_list = "p-7" ∷ [];
  features = "terminal" ∷ [];
  reconnect_wait = pos 5000000000;
  reconnect_max_wait = pos 60000000000;
  heartbeat_int = pos 15000000000;
  session_timeout = pos 1800000000000;
  max_sessions = pos 0;
  require_auth = true;
  device_id = "";
  show_qr = false;
}

abbrev check : String → String → Bool
check password hash = password == "secret"

abbrev request : Message
request =
    new_message msg_connect (obj (field "room" (str "r-1") (field "client_id" (str "p-7") end)))

abbrev login : Message
login = new_message msg_auth (obj (field "password" (str "secret") end))

abbrev fine : Opening
fine = record { ready = true; content = false }

abbrev machine : Environment
machine = record { host_name = "host.local"; is_darwin = false; features_given = true }

-- No password has an empty hash.
abbrev hash_password : String → Option String
hash_password password = some ("#" <> password)

hash_password-filled : (password hash : String) → hash_password password ≡ some hash → hash ≢ ""
hash_password-filled password hash e empty =
    cons≢nil (sym (cons-append _ _ _) ∙ some_inj ("#" <> password) hash e ∙ empty)

abbrev idle : Daemon
idle = idle_daemon (with_defaults machine settings)

made : new_daemon hash_password machine settings ≡ some idle
unfolding new_daemon hashed with_defaults
made = refl

-- A password is required, and none is there.
bare_test : new_daemon hash_password machine (record settings { master_hash = "" }) ≡ none
unfolding new_daemon hashed with_defaults
bare_test = refl

plain_test :
    new_daemon hash_password machine
      (record settings { master_password = "secret"; master_hash = "" })
    ≡ some (
        idle_daemon (
          with_defaults machine
            (record settings { master_password = "secret"; master_hash = "#secret" })))
unfolding new_daemon hashed with_defaults
plain_test = refl

abbrev joined : Daemon
joined = handle_message idle request true none 5

abbrev typed : Daemon
typed =
    on_message check
      (on_data_channel
        (on_message check (on_data_channel joined "r-1" auth fine) 0 auth (some login)) "r-1"
        terminal fine)
      0 terminal (some (new_message msg_input (str "ls")))

typed_reached : Reach check idle typed
unfolding equal_fold with_defaults handle_message dispatch_signal handle_connect_request add_session
    send_offer read insert lookup on_data_channel open_channel start_shell on_message handle_auth
typed_reached =
    next
      (next
        (next (next (next here (signals request true none 5)) (opens "r-1" auth fine))
          (hears 0 0 auth (some login) refl))
        (opens "r-1" terminal fine))
      (hears 0 0 terminal (some (new_message msg_input (str "ls"))) refl)

typed_test : (length typed.actions ≡ 2) × (typed.accepted ≡ 0 ∷ [])
unfolding equal_fold with_defaults handle_message dispatch_signal handle_connect_request add_session
    send_offer read insert lookup on_data_channel open_channel start_shell on_message handle_auth
typed_test = (refl, refl)

nothing_unearned_example : All (λ a. Earned typed.accepted a.by a.through) typed.actions
nothing_unearned_example =
    (nothing_unearned check hash_password machine settings hash_password-filled
      (inl (==_apart "hash" "" refl)) made typed_reached).0

clipboard_unguarded_example :
    get_elem? (on_data_channel joined "r-1" clipboard fine).channels 0 ≡ some (0, clipboard)
unfolding equal_fold with_defaults handle_message dispatch_signal handle_connect_request add_session
    send_offer read insert lookup
clipboard_unguarded_example =
    (clipboard_unguarded check joined "r-1" 0 fine (new_message msg_clipboard_data (str "text"))
      refl refl refl refl).0

sessions_bounded_example : length typed.sessions ≤ 10
sessions_bounded_example =
    (sessions_bounded check hash_password machine settings (omega arith) made typed_reached).1 refl

handle_peer_disconnect-clears_example :
    lookup "r-1"
      (handle_peer_disconnect joined
        (new_message msg_peer_left (obj (field "peer_id" (str "p-7") end)))).sessions
    ≡ none
unfolding equal_fold with_defaults handle_message dispatch_signal handle_connect_request add_session
    send_offer read insert lookup
handle_peer_disconnect-clears_example =
    (handle_peer_disconnect-clears joined
        (new_message msg_peer_left (obj (field "peer_id" (str "p-7") end))) "r-1" 0 (refl, tt)
        refl).0
      refl

-- A connection that lived, and broke.
abbrev lived : Connection
lived = record { dialed = true; registered = true; answered = true; cancelled = false }

backoff_never_reset_example :
    run 5 12 5 (lived ∷ lived ∷ lived ∷ []) ≡ doubling 12 5 0 (lived ∷ lived ∷ lived ∷ [])
backoff_never_reset_example =
    backoff_never_reset 5 12 (lived ∷ lived ∷ lived ∷ []) (refl, (refl, (refl, tt)))
