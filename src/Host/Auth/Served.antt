-- ===== src/Host/Auth/Served.antt =====
-- internal/host/daemon.go: a channel that opens is served only where the password came.
use remotty.Base.{
  ℕ, ◌≡◌, inl, inr, String, true, Option, none, string_key, nat_key, lookup, arith, ==_iff,
  Bool-cases, Option-cases,
}
use remotty.Base.Json.{str}
use remotty.Protocol.{MessageType, Message, new_message, msg_error}
use remotty.Host.{Daemon, Label, auth, terminal, screen, transfer, file, clipboard, unknown}
use remotty.Host.Channels.{
  Opening, start_shell, open_channel, set_handler, reply, open_guarded, record_action,
  on_data_channel,
}
use remotty.Host.Auth.{IsGuarded, Earned}

module _ (hash : String) where
  -- A reply changes nothing of it.
  pub reply-IsGuarded :
      (d : Daemon) (s : ℕ) (msg : Message) → IsGuarded hash d → IsGuarded hash (reply d s msg)
  reply-IsGuarded d s msg v = record {
    hash_kept = v.hash_kept;
    sessions_earned = v.sessions_earned;
    channels_earned = v.channels_earned;
    actions_earned = v.actions_earned;
  }

  set_handler-IsGuarded :
      (d : Daemon) (s : ℕ) (label : Label)
      → Earned d.accepted s label
      → IsGuarded hash d
      → IsGuarded hash (set_handler d s label)
  set_handler-IsGuarded d s label earned v = record {
    hash_kept = v.hash_kept;
    sessions_earned = v.sessions_earned;
    channels_earned = (earned, v.channels_earned);
    actions_earned = v.actions_earned;
  }

  pub record_action-IsGuarded :
      (d : Daemon) (s : ℕ) (label : Label) (what : Option MessageType)
      → Earned d.accepted s label
      → IsGuarded hash d
      → IsGuarded hash (record_action d s label what)
  record_action-IsGuarded d s label what earned v = record {
    hash_kept = v.hash_kept;
    sessions_earned = v.sessions_earned;
    channels_earned = v.channels_earned;
    actions_earned = (earned, v.actions_earned);
  }

  open_guarded-IsGuarded :
      (d : Daemon) (s : ℕ) (label : Label)
      → IsGuarded hash d
      → IsGuarded hash (open_guarded d s label)
  open_guarded-IsGuarded d s label v = elim (Bool-cases (d.heap s).authed) [
    | inl authed ↦ rw authed (set_handler-IsGuarded d s label (λ g. v.sessions_earned s authed) v)
    | inr stranger ↦
        rw stranger (reply-IsGuarded d s (new_message msg_error (str "Not authenticated")) v)
  ]

  start_shell-IsGuarded :
      (d : Daemon) (s : ℕ)
      → (d.heap s).authed ≡ true
      → IsGuarded hash d
      → IsGuarded hash (start_shell d s)
  unfolding start_shell
  start_shell-IsGuarded d s authed v = record {
    hash_kept = v.hash_kept;
    sessions_earned =
        λ q h. ground (arith, ==_iff q s, v.sessions_earned q, v.sessions_earned s, h);
    channels_earned = ((λ g. v.sessions_earned s authed), v.channels_earned);
    actions_earned = ((λ g. v.sessions_earned s authed), v.actions_earned);
  }

  open_channel-IsGuarded :
      (d : Daemon) (s : ℕ) (label : Label) (o : Opening)
      → IsGuarded hash d
      → IsGuarded hash (open_channel d s label o)
  unfolding open_channel
  open_channel-IsGuarded d s auth o v = set_handler-IsGuarded d s auth (λ g. absurd (cc)) v
  open_channel-IsGuarded d s terminal o v = elim (Bool-cases (d.heap s).authed) [
    | inl authed ↦ elim (Bool-cases o.ready) [
      | inl ready ↦ rw (authed, ready) (start_shell-IsGuarded d s authed v)
      | inr broken ↦
          rw (authed, broken)
            (reply-IsGuarded d s (new_message msg_error (str "Failed to start shell")) v)
    ]
    | inr stranger ↦
        rw stranger (reply-IsGuarded d s (new_message msg_error (str "Not authenticated")) v)
  ]
  open_channel-IsGuarded d s screen o v = open_guarded-IsGuarded d s screen v
  open_channel-IsGuarded d s transfer o v = open_guarded-IsGuarded d s transfer v
  open_channel-IsGuarded d s file o v = open_guarded-IsGuarded d s file v
  open_channel-IsGuarded d s clipboard o v =
      let told = record_action-IsGuarded d s clipboard none (λ g. absurd (cc)) v in
      elim (Bool-cases o.ready) [
        | inl ready ↦ elim (Bool-cases o.content) [
          | inl content ↦
              rw (ready, content)
                (set_handler-IsGuarded (record_action d s clipboard none) s clipboard
                  (λ g. absurd (cc)) told)
          | inr empty ↦ rw (ready, empty) (set_handler-IsGuarded d s clipboard (λ g. absurd (cc)) v)
        ]
        | inr broken ↦ rw broken v
      ]
  open_channel-IsGuarded d s unknown o v = v

  pub on_data_channel-IsGuarded :
      (d : Daemon) (room : String) (label : Label) (o : Opening)
      → IsGuarded hash d
      → IsGuarded hash (on_data_channel d room label o)
  unfolding on_data_channel
  on_data_channel-IsGuarded d room label o v = elim (Option-cases (lookup room d.sessions)) [
    | inl e ↦ rw (e, on_data_channel) v
    | inr (s, e) ↦ rw (e, on_data_channel) (open_channel-IsGuarded d s label o v)
  ]
