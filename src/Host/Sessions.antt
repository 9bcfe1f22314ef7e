-- ===== src/Host/Sessions.antt =====
-- internal/host/daemon.go: who gets a session, and how many there are.
use remotty.Base.{
  ap, sym, ℕ, ◌≤◌, ◌≡◌, refl, inl, inr, String, Bool, List, [], ◌∷◌, Option, none, some, ◌==◌,
  string_key, nat_key, lookup, length, arith, Bool-cases, Option-cases, length-insert_le,
  length-delete_le, ◌∙◌,
}
use remotty.Base.Int.{ℤ, pos, pos_part, ◌≤ℤ◌}
use remotty.Base.Json.{Json}
use remotty.Protocol.{
  MessageType, Message, msg_connect, msg_answer, msg_ice_candidate, msg_offer, msg_peer_left,
}
use remotty.Host.{
  HostConfig, Environment, when_zero, hashed, with_defaults, Daemon, Label, auth, terminal,
  new_daemon, text_of, add_session, send_offer, handle_connect_request, handle_webrtc_message,
  cleanup_session_locked, cleanup_session, close_sessions, handle_peer_disconnect, dispatch_signal,
  handle_message,
}
use remotty.Host.Starting.{new_daemon-made, hashed-cases}
use remotty.Host.Channels.{
  Opening, start_shell, open_channel, on_data_channel, handle_auth, on_message,
}
use remotty.Host.Steps.{Step, signals, opens, hears, fails, Reach, here, next}

-- No more sessions than a positive limit allows.
pub record IsLimited (max : ℤ) (d : Daemon) : Type 0 where
  pub limit_kept : d.cfg.max_sessions ≡ max
  pub within : pos 1 ≤ℤ max → length d.sessions ≤ pos_part max

-- What leaves the limit and the table as they were.
record Same (d t : Daemon) : Type 0 where
  limit_same : t.cfg.max_sessions ≡ d.cfg.max_sessions
  sessions_same : t.sessions ≡ d.sessions

module _ (max : ℤ) where
  Same-IsLimited : (d t : Daemon) → Same d t → IsLimited max d → IsLimited max t
  Same-IsLimited d t s v = record {
    limit_kept = s.limit_same ∙ v.limit_kept;
    within = λ h. rw s.sessions_same (v.within h);
  }

  handle_connect_request-IsLimited :
      (d : Daemon) (msg : Message) (engine_made : Bool) (offer : Option Json) (now : ℕ)
      → IsLimited max d
      → IsLimited max (handle_connect_request d msg engine_made offer now)
  unfolding handle_connect_request add_session send_offer
  handle_connect_request-IsLimited d msg engine_made none now v = record {
    limit_kept = ground (arith, v.limit_kept);
    within = λ h. ground (
      arith,
      v.limit_kept,
      v.within h,
      h,
      length-insert_le (text_of "room" msg) d.next d.sessions,
    );
  }
  handle_connect_request-IsLimited d msg engine_made (some offer) now v = record {
    limit_kept = ground (arith, v.limit_kept);
    within = λ h. ground (
      arith,
      v.limit_kept,
      v.within h,
      h,
      length-insert_le (text_of "room" msg) d.next d.sessions,
    );
  }

  cleanup_session_locked-IsLimited :
      (d : Daemon) (room : String) (s : ℕ)
      → IsLimited max d
      → IsLimited max (cleanup_session_locked d room s)
  unfolding cleanup_session_locked
  cleanup_session_locked-IsLimited d room s v = record {
    limit_kept = v.limit_kept;
    within = λ h. omega (arith, length-delete_le room d.sessions, v.within h);
  }

  close_sessions-IsLimited :
      (peer : String) (m : List (String × ℕ)) (d : Daemon)
      → IsLimited max d
      → IsLimited max (close_sessions peer m d)
  unfolding close_sessions
  close_sessions-IsLimited peer [] d v = v
  close_sessions-IsLimited peer ((room, s) ∷ m) d v =
      let rest = close_sessions-IsLimited peer m d v in
      elim (Bool-cases ((d.heap s).client_id == peer)) [
        | inl same ↦
            rw same (cleanup_session_locked-IsLimited (close_sessions peer m d) room s rest)
        | inr other ↦ rw other rest
      ]

  handle_webrtc_message-Same : (d : Daemon) (msg : Message) → Same d (handle_webrtc_message d msg)
  unfolding handle_webrtc_message
  handle_webrtc_message-Same d msg = record {
    limit_same = ground arith;
    sessions_same = ground arith;
  }

  dispatch_signal-IsLimited :
      (type : MessageType) (d : Daemon) (msg : Message) (engine_made : Bool) (offer : Option Json)
      (now : ℕ)
      → IsLimited max d
      → IsLimited max (dispatch_signal type d msg engine_made offer now)
  unfolding dispatch_signal handle_peer_disconnect
  dispatch_signal-IsLimited msg_connect d msg engine_made offer now v =
      handle_connect_request-IsLimited d msg engine_made offer now v
  dispatch_signal-IsLimited msg_answer d msg engine_made offer now v =
      Same-IsLimited d (handle_webrtc_message d msg) (handle_webrtc_message-Same d msg) v
  dispatch_signal-IsLimited msg_ice_candidate d msg engine_made offer now v =
      Same-IsLimited d (handle_webrtc_message d msg) (handle_webrtc_message-Same d msg) v
  dispatch_signal-IsLimited msg_offer d msg engine_made offer now v =
      Same-IsLimited d (handle_webrtc_message d msg) (handle_webrtc_message-Same d msg) v
  dispatch_signal-IsLimited msg_peer_left d msg engine_made offer now v =
      close_sessions-IsLimited (text_of "peer_id" msg) d.sessions d v
  dispatch_signal-IsLimited _ d msg engine_made offer now v = v

  open_channel-Same :
      (d : Daemon) (s : ℕ) (label : Label) (o : Opening) → Same d (open_channel d s label o)
  unfolding open_channel start_shell
  open_channel-Same d s label o = record { limit_same = ground arith; sessions_same = ground arith }

  on_message-Same :
      (check : String → String → Bool) (d : Daemon) (s : ℕ) (label : Label) (msg : Option Message)
      → Same d (on_message check d s label msg)
  unfolding on_message handle_auth
  on_message-Same check d s auth none = record { limit_same = refl; sessions_same = refl }
  on_message-Same check d s auth (some msg) = record {
    limit_same = ground arith;
    sessions_same = ground arith;
  }
  on_message-Same check d s terminal msg = record {
    limit_same = ground arith;
    sessions_same = ground arith;
  }
  on_message-Same check d s label msg = record {
    limit_same = ground arith;
    sessions_same = ground arith;
  }

  Step-IsLimited :
      (check : String → String → Bool) {d t : Daemon}
      → Step check d t
      → IsLimited max d
      → IsLimited max t
  unfolding handle_message on_data_channel cleanup_session
  Step-IsLimited check {d} (signals msg engine_made offer now) v =
      dispatch_signal-IsLimited msg.type d msg engine_made offer now v
  Step-IsLimited check {d} (opens room label o) v = elim (Option-cases (lookup room d.sessions)) [
    | inl e ↦ rw (e, on_data_channel) v
    | inr (s, e) ↦
        rw (e, on_data_channel)
          (Same-IsLimited d (open_channel d s label o) (open_channel-Same d s label o) v)
  ]
  Step-IsLimited check {d} (hears i s label msg e) v =
      Same-IsLimited d (on_message check d s label msg) (on_message-Same check d s label msg) v
  Step-IsLimited check {d} (fails room) v = elim (Option-cases (lookup room d.sessions)) [
    | inl e ↦ rw (e, cleanup_session) v
    | inr (s, e) ↦ rw (e, cleanup_session) (cleanup_session_locked-IsLimited d room s v)
  ]

  Reach-IsLimited :
      (check : String → String → Bool) {d t : Daemon}
      → Reach check d t
      → IsLimited max d
      → IsLimited max t
  Reach-IsLimited check here v = v
  Reach-IsLimited check (next r st) v = Step-IsLimited check st (Reach-IsLimited check r v)

-- The limit that a daemon works with: 10 where none is set.
abbrev pub limit_of : HostConfig → ℤ
limit_of cfg = when_zero cfg.max_sessions (pos 10)

hashed-max_sessions :
    (hash_password : String → Option String) (cfg c : HostConfig)
    → hashed hash_password cfg ≡ some c
    → c.max_sessions ≡ cfg.max_sessions
hashed-max_sessions hash_password cfg c e = elim (hashed-cases hash_password cfg c e) [
  | inl (other, same) ↦ ap (λ x. x.max_sessions) (sym same)
  | inr (hash, hashes, same) ↦ ap (λ x. x.max_sessions) (sym same)
]

new_daemon-IsLimited :
    (hash_password : String → Option String) (env : Environment) (cfg : HostConfig) (d : Daemon)
    → new_daemon hash_password env cfg ≡ some d
    → IsLimited (limit_of cfg) d
unfolding with_defaults
new_daemon-IsLimited hash_password env cfg d e =
    let (c, made, fine, same) = new_daemon-made hash_password env cfg d e in
    let kept = hashed-max_sessions hash_password cfg c made in
    record {
      limit_kept = ap (λ x. x.cfg.max_sessions) same ∙ ap (λ n. when_zero n (pos 10)) kept;
      within = λ h. rw (ap (λ x. x.sessions) same) (omega arith);
    }

-- In every state that a daemon reaches, whatever comes from the server and the clients, it has at most
-- as many sessions as its limit, where that is positive; a limit that is set to 0 is 10.
pub sessions_bounded :
    (check : String → String → Bool) (hash_password : String → Option String) (env : Environment)
    (cfg : HostConfig) {start d : Daemon}
    → pos 0 ≤ℤ cfg.max_sessions
    → new_daemon hash_password env cfg ≡ some start
    → Reach check start d
    → (length d.sessions ≤ pos_part (limit_of cfg))
      × ((cfg.max_sessions ≡ pos 0) → length d.sessions ≤ 10)
sessions_bounded check hash_password env cfg {start} some_limit made r =
    let v =
      Reach-IsLimited (limit_of cfg) check r
        (new_daemon-IsLimited hash_password env cfg start made) in
    (v.within (ground (arith, some_limit)), λ zero_limit. ground (arith, zero_limit, v.within))
