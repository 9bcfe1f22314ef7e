-- ===== src/Host/Steps.antt =====
-- internal/host/daemon.go: what may happen to the daemon next, in any order.
use remotty.Base.{ℕ, String, Bool, ◌≡◌, Option, some, get_elem?}
use remotty.Base.Json.{Json}
use remotty.Protocol.{Message}
use remotty.Host.{Daemon, Label, handle_message, cleanup_session}
use remotty.Host.Channels.{Opening, on_data_channel, on_message}

-- A message from the server; a channel that opens; a message on a channel whose handler is set; and
-- `OnReconnectFailed` of a session's engine.
pub data Step (check : String → String → Bool) (d : Daemon) : Daemon → Type 0 where
  signals :
      (msg : Message) (engine_made : Bool) (offer : Option Json) (now : ℕ)
      → Step check d (handle_message d msg engine_made offer now)
  opens :
      (room : String) (label : Label) (o : Opening) → Step check d (on_data_channel d room label o)
  hears :
      (i s : ℕ) (label : Label) (msg : Option Message)
      → get_elem? d.channels i ≡ some (s, label)
      → Step check d (on_message check d s label msg)
  fails : (room : String) → Step check d (cleanup_session d room)

pub data Reach (check : String → String → Bool) (d : Daemon) : Daemon → Type 0 where
  here : Reach check d d
  next : {t u : Daemon} → Reach check d t → Step check t u → Reach check d u
