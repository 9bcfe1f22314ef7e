-- ===== src/Host/Auth.antt =====
-- A host with a password does nothing for a client that did not give it, but for the clipboard.
pub mod Served
pub mod Hearing
use remotty.Base.{
  ℕ, zero, suc, ◌+◌, ◌≤◌, ◌≡◌, refl, ◌≢◌, ◌⊎◌, ◌↔◌, inl, inr, String, Bool, true, false, ◌&&◌, ◌||◌,
  not, List, [], ◌∷◌, ◌++◌, Option, none, some, ◌==◌, string_key, nat_key, if◌then◌else◌, lookup,
  any, All, All-map, All-get_elem?, get_elem?, arith, ==_iff, ==_self, Bool-cases, Option-cases,
  sym,
}
use remotty.Base.Json.{Json, null, str}
use remotty.Protocol.{
  MessageType, Message, new_message, msg_error, msg_auth_ok, msg_auth_fail, msg_connect, msg_answer,
  msg_ice_candidate, msg_offer, msg_peer_left,
}
use remotty.Host.{
  HostConfig, Daemon, Session, Label, auth, terminal, screen, transfer, file, clipboard, unknown,
  Action, new_daemon, update_session, write_session, text_of, is_full, is_allowed, add_session,
  send_offer, handle_connect_request, handle_webrtc_message, cleanup_session_locked,
  cleanup_session, close_sessions, handle_peer_disconnect, dispatch_signal, handle_message,
}
use remotty.Host.Channels.{
  Opening, start_shell, open_channel, set_handler, reply, open_guarded, record_action, act, is_auth,
  on_data_channel, handles, handle_auth, on_message, type_of,
}
use remotty.Host.Steps.{Step, signals, opens, hears, fails, Reach, here, next}

-- All that a session may do needs the password, but for the channel that takes it and the clipboard.
abbrev pub is_guarded : Label → Bool
is_guarded terminal = true
is_guarded screen = true
is_guarded transfer = true
is_guarded file = true
is_guarded _ = false

-- The right password came for this session.
abbrev pub is_accepted : List ℕ → ℕ → Bool
is_accepted accepted s = any (λ p. p == s) accepted

-- A label is not guarded, or the password came.
abbrev pub Earned : List ℕ → ℕ → Label → Type 0
Earned accepted s label = (is_guarded label ≡ true) → is_accepted accepted s ≡ true

pub record IsGuarded (hash : String) (d : Daemon) : Type 0 where
  pub hash_kept : d.cfg.master_hash ≡ hash
  pub sessions_earned : (s : ℕ) → (d.heap s).authed ≡ true → is_accepted d.accepted s ≡ true
  pub channels_earned : All (λ c. Earned d.accepted c.0 c.1) d.channels
  pub actions_earned : All (λ a. Earned d.accepted a.by a.through) d.actions

module _ (hash : String) (password : hash ≢ "") where
  add_session-IsGuarded :
      (d : Daemon) (room client : String) (now : ℕ)
      → IsGuarded hash d
      → IsGuarded hash (add_session d room client now)
  unfolding add_session
  add_session-IsGuarded d room client now v = record {
    hash_kept = v.hash_kept;
    sessions_earned = λ s h.
        ground (arith, ==_iff d.cfg.master_hash "", v.hash_kept, password, v.sessions_earned s, h);
    channels_earned = v.channels_earned;
    actions_earned = v.actions_earned;
  }

  send_offer-IsGuarded :
      (d : Daemon) (room : String) (offer : Option Json)
      → IsGuarded hash d
      → IsGuarded hash (send_offer d room offer)
  unfolding send_offer
  send_offer-IsGuarded d room none v = v
  send_offer-IsGuarded d room (some offer) v = record {
    hash_kept = v.hash_kept;
    sessions_earned = v.sessions_earned;
    channels_earned = v.channels_earned;
    actions_earned = v.actions_earned;
  }

  cleanup_session_locked-IsGuarded :
      (d : Daemon) (room : String) (s : ℕ)
      → IsGuarded hash d
      → IsGuarded hash (cleanup_session_locked d room s)
  unfolding cleanup_session_locked
  cleanup_session_locked-IsGuarded d room s v = record {
    hash_kept = v.hash_kept;
    sessions_earned =
        λ q h. ground (arith, ==_iff q s, v.sessions_earned q, v.sessions_earned s, h);
    channels_earned = v.channels_earned;
    actions_earned = v.actions_earned;
  }

  handle_connect_request-IsGuarded :
      (d : Daemon) (msg : Message) (engine_made : Bool) (offer : Option Json) (now : ℕ)
      → IsGuarded hash d
      → IsGuarded hash (handle_connect_request d msg engine_made offer now)
  unfolding handle_connect_request
  handle_connect_request-IsGuarded d msg engine_made offer now v =
      let room = text_of "room" msg in
      let added = add_session d room (text_of "client_id" msg) now in
      let done =
        send_offer-IsGuarded added room offer
          (add_session-IsGuarded d room (text_of "client_id" msg) now v) in
      elim (Bool-cases (is_full d)) [
        | inl full ↦
            rw (full, handle_connect_request)
              (record {
                hash_kept = v.hash_kept;
                sessions_earned = v.sessions_earned;
                channels_earned = v.channels_earned;
                actions_earned = v.actions_earned;
              })
        | inr free ↦
            elim (Bool-cases
              (is_allowed d.cfg.allow_list (text_of "client_id" msg) && engine_made)) [
                | inl good ↦ rw (free, good, handle_connect_request) done
                | inr bad ↦ rw (free, bad, handle_connect_request) v
              ]
      ]

  handle_webrtc_message-IsGuarded :
      (d : Daemon) (msg : Message) → IsGuarded hash d → IsGuarded hash (handle_webrtc_message d msg)
  unfolding handle_webrtc_message
  handle_webrtc_message-IsGuarded d msg v = elim (Bool-cases (msg.room == "")) [
    | inl nowhere ↦ rw (nowhere, handle_webrtc_message) v
    | inr somewhere ↦ rw (somewhere, handle_webrtc_message) (go (lookup msg.room d.sessions))
  ]
    where
      go :
          (o : Option ℕ)
          → IsGuarded hash
              (elim o [ none ↦ d | some s ↦ record d { forwarded = d.forwarded ++ (s, msg) ∷ [] } ])
      go none = v
      go (some s) = record {
        hash_kept = v.hash_kept;
        sessions_earned = v.sessions_earned;
        channels_earned = v.channels_earned;
        actions_earned = v.actions_earned;
      }

  close_sessions-IsGuarded :
      (peer : String) (m : List (String × ℕ)) (d : Daemon)
      → IsGuarded hash d
      → IsGuarded hash (close_sessions peer m d)
  unfolding close_sessions
  close_sessions-IsGuarded peer [] d v = v
  close_sessions-IsGuarded peer ((room, s) ∷ m) d v =
      let rest = close_sessions-IsGuarded peer m d v in
      elim (Bool-cases ((d.heap s).client_id == peer)) [
        | inl same ↦
            rw same (cleanup_session_locked-IsGuarded (close_sessions peer m d) room s rest)
        | inr other ↦ rw other rest
      ]

  pub dispatch_signal-IsGuarded :
      (type : MessageType) (d : Daemon) (msg : Message) (engine_made : Bool) (offer : Option Json)
      (now : ℕ)
      → IsGuarded hash d
      → IsGuarded hash (dispatch_signal type d msg engine_made offer now)
  unfolding dispatch_signal handle_peer_disconnect
  dispatch_signal-IsGuarded msg_connect d msg engine_made offer now v =
      handle_connect_request-IsGuarded d msg engine_made offer now v
  dispatch_signal-IsGuarded msg_answer d msg engine_made offer now v =
      handle_webrtc_message-IsGuarded d msg v
  dispatch_signal-IsGuarded msg_ice_candidate d msg engine_made offer now v =
      handle_webrtc_message-IsGuarded d msg v
  dispatch_signal-IsGuarded msg_offer d msg engine_made offer now v =
      handle_webrtc_message-IsGuarded d msg v
  dispatch_signal-IsGuarded msg_peer_left d msg engine_made offer now v =
      close_sessions-IsGuarded (text_of "peer_id" msg) d.sessions d v
  dispatch_signal-IsGuarded _ d msg engine_made offer now v = v

  pub cleanup_session-IsGuarded :
      (d : Daemon) (room : String) → IsGuarded hash d → IsGuarded hash (cleanup_session d room)
  unfolding cleanup_session
  cleanup_session-IsGuarded d room v = go (lookup room d.sessions) refl
    where
      go : (o : Option ℕ) → o ≡ lookup room d.sessions → IsGuarded hash (cleanup_session d room)
      go none e = rw (sym e, cleanup_session) v
      go (some s) e = rw (sym e, cleanup_session) (cleanup_session_locked-IsGuarded d room s v)
