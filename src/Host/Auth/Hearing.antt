-- ===== src/Host/Auth/Hearing.antt =====
-- internal/host/daemon.go: what is heard on the channels of a host with a password.
use mathlib.Core.Path.{subst}
use remotty.Base.{
  sym, ◌⊎◌, ℕ, ◌≡◌, refl, ◌≢◌, inl, inr, String, Bool, true, false, [], ◌∷◌, ◌++◌, Option, none,
  some, ◌==◌, string_key, nat_key, lookup, All, All-map, All-get_elem?, get_elem?, arith, ==_iff,
  Bool-cases,
}
use remotty.Base.Json.{null}
use remotty.Protocol.{
  MessageType, Message, new_message, msg_auth_ok, msg_auth_fail, msg_clipboard_data,
}
use remotty.Host.{
  HostConfig, Daemon, Label, auth, terminal, screen, transfer, file, clipboard, unknown,
  Environment, new_daemon, idle_daemon, update_session, text_of, handle_message,
}
use remotty.Host.Channels.{
  Opening, open_channel, act, is_auth, on_data_channel, handles, handle_auth, on_message, type_of,
}
use remotty.Host.Steps.{Step, signals, opens, hears, fails, Reach, here, next}
use remotty.Host.Starting.{new_daemon-IsLocked}
use remotty.Host.Auth.{
  IsGuarded, Earned, is_accepted, dispatch_signal-IsGuarded, cleanup_session-IsGuarded,
}
use remotty.Host.Auth.Served.{reply-IsGuarded, record_action-IsGuarded, on_data_channel-IsGuarded}

module _ (hash : String) (password : hash ≢ "") where
  act-IsGuarded :
      (d : Daemon) (s : ℕ) (label : Label) (what : Option MessageType)
      → Earned d.accepted s label
      → IsGuarded hash d
      → IsGuarded hash (act d s label what)
  act-IsGuarded d s label what earned v = elim (Bool-cases (handles label what)) [
    | inl known ↦ rw known (record_action-IsGuarded hash d s label what earned v)
    | inr other ↦ rw other v
  ]

  -- Where the password is right, one more session is accepted.
  accept :
      (d : Daemon) (s : ℕ) (msg : Message)
      → IsGuarded hash d
      → IsGuarded hash (record d {
        heap = update_session d.heap s (record (d.heap s) { authed = true });
        accepted = s ∷ d.accepted;
        replies = d.replies ++ (s, msg) ∷ [];
      })
  accept d s msg v = record {
    hash_kept = v.hash_kept;
    sessions_earned = λ q h. ground (arith, ==_iff q s, ==_iff s q, v.sessions_earned q, h);
    channels_earned =
        All-map (λ c. Earned d.accepted c.0 c.1) (λ c. Earned (s ∷ d.accepted) c.0 c.1) d.channels
          (λ c e g. ground (arith, e g)) v.channels_earned;
    actions_earned =
        All-map (λ a. Earned d.accepted a.by a.through)
          (λ a. Earned (s ∷ d.accepted) a.by a.through) d.actions (λ a e g. ground (arith, e g))
          v.actions_earned;
  }

  handle_auth-IsGuarded :
      (check : String → String → Bool) (d : Daemon) (s : ℕ) (msg : Message)
      → IsGuarded hash d
      → IsGuarded hash (handle_auth check d s msg)
  unfolding handle_auth
  handle_auth-IsGuarded check d s msg v =
      let hashed : (d.cfg.master_hash == "") ≡ false =
        ground (arith, ==_iff d.cfg.master_hash "", v.hash_kept, password) in
      elim (Bool-cases (is_auth msg.type)) [
        | inr other ↦ rw (other, handle_auth) v
        | inl asked ↦ elim (Bool-cases (check (text_of "password" msg) d.cfg.master_hash)) [
          | inl right ↦
              rw (asked, hashed, right, handle_auth) (accept d s (new_message msg_auth_ok null) v)
          | inr wrong ↦
              rw (asked, hashed, wrong, handle_auth)
                (reply-IsGuarded hash d s (new_message msg_auth_fail null) v)
        ]
      ]

  on_message-IsGuarded :
      (check : String → String → Bool) (d : Daemon) (s : ℕ) (label : Label) (msg : Option Message)
      → Earned d.accepted s label
      → IsGuarded hash d
      → IsGuarded hash (on_message check d s label msg)
  unfolding on_message
  on_message-IsGuarded check d s auth none e v = v
  on_message-IsGuarded check d s auth (some msg) e v = handle_auth-IsGuarded check d s msg v
  on_message-IsGuarded check d s terminal msg e v = elim (Bool-cases (d.heap s).authed) [
    | inl authed ↦ rw authed (act-IsGuarded d s terminal (type_of msg) e v)
    | inr stranger ↦ rw stranger v
  ]
  on_message-IsGuarded check d s screen msg e v = act-IsGuarded d s screen (type_of msg) e v
  on_message-IsGuarded check d s transfer msg e v = act-IsGuarded d s transfer (type_of msg) e v
  on_message-IsGuarded check d s file msg e v = act-IsGuarded d s file (type_of msg) e v
  on_message-IsGuarded check d s clipboard msg e v = act-IsGuarded d s clipboard (type_of msg) e v
  on_message-IsGuarded check d s unknown msg e v = act-IsGuarded d s unknown (type_of msg) e v

  Step-IsGuarded :
      (check : String → String → Bool) {d t : Daemon}
      → Step check d t
      → IsGuarded hash d
      → IsGuarded hash t
  unfolding handle_message
  Step-IsGuarded check {d} (signals msg engine_made offer now) v =
      dispatch_signal-IsGuarded hash password msg.type d msg engine_made offer now v
  Step-IsGuarded check {d} (opens room label o) v = on_data_channel-IsGuarded hash d room label o v
  Step-IsGuarded check {d} (hears i s label msg e) v =
      on_message-IsGuarded check d s label msg
        (All-get_elem? (λ c. Earned d.accepted c.0 c.1) d.channels i (s, label) v.channels_earned e)
        v
  Step-IsGuarded check {d} (fails room) v = cleanup_session-IsGuarded hash password d room v

  Reach-IsGuarded :
      (check : String → String → Bool) {d t : Daemon}
      → Reach check d t
      → IsGuarded hash d
      → IsGuarded hash t
  Reach-IsGuarded check here v = v
  Reach-IsGuarded check (next r st) v = Step-IsGuarded check st (Reach-IsGuarded check r v)

idle-IsGuarded : (cfg : HostConfig) → IsGuarded cfg.master_hash (idle_daemon cfg)
idle-IsGuarded cfg = record {
  hash_kept = refl;
  sessions_earned = λ s h. absurd (cc);
  channels_earned = tt;
  actions_earned = tt;
}

-- On a host with a password, whatever the server and the clients send and in whatever order channels
-- open, all that the host did through a terminal, screen, transfer or file channel, the start of a shell
-- included, it did for a session for which the right password had come; and only such sessions are
-- authenticated. A host that runs has a password if its configuration gives one, plain or as a hash, or
-- requires it, where no password has an empty hash.
pub nothing_unearned :
    (check : String → String → Bool) (hash_password : String → Option String) (env : Environment)
    (cfg : HostConfig) {start d : Daemon}
    → ((password hash : String) → hash_password password ≡ some hash → hash ≢ "")
    → (cfg.master_hash ≢ "") ⊎ (cfg.master_password ≢ "") ⊎ (cfg.require_auth ≡ true)
    → new_daemon hash_password env cfg ≡ some start
    → Reach check start d
    → All (λ a. Earned d.accepted a.by a.through) d.actions
      × ((s : ℕ) → (d.heap s).authed ≡ true → is_accepted d.accepted s ≡ true)
nothing_unearned check hash_password env cfg {start} filled given made r =
    let (c, password, same) = new_daemon-IsLocked hash_password env cfg start filled given made in
    let v =
      Reach-IsGuarded c.master_hash password check r
        (subst (IsGuarded c.master_hash) (sym same) (idle-IsGuarded c)) in
    (v.actions_earned, v.sessions_earned)

-- The clipboard has no guard: a channel for it that opens while the client of the session is not
-- authenticated is served, and the host acts on the clipboard data that this client then sends there.
pub clipboard_unguarded :
    (check : String → String → Bool) (d : Daemon) (room : String) (s : ℕ) (o : Opening)
    (msg : Message)
    → lookup room d.sessions ≡ some s
    → (d.heap s).authed ≡ false
    → o.ready ≡ true
    → msg.type ≡ msg_clipboard_data
    → let opened = on_data_channel d room clipboard o in
      let t = on_message check opened s clipboard (some msg) in
      (get_elem? opened.channels 0 ≡ some (s, clipboard))
      × ((t.actions
            ≡ (record { by = s; through = clipboard; what = some msg_clipboard_data })
              ∷ opened.actions)
          × ((t.heap s).authed ≡ false))
unfolding on_data_channel open_channel on_message
clipboard_unguarded check d room s o msg known stranger ready kind =
    ground (arith, known, stranger, ready, kind)
