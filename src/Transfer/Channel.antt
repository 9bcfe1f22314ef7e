-- ===== src/Transfer/Channel.antt =====
-- internal/host/daemon.go: the messages about files that a client sends on the channel `transfer`
-- (`handleTransferChannel`) and on the channel `file` (`handleFileChannel`).
-- What the system does is an environment: the joining of paths, the hash of a chunk, whether the
-- directory for downloads can be made and which files can be opened. A message comes as its type and
-- the payload that was decoded, if it could be.
pub mod Upload
pub mod Sending
pub mod Closed
pub mod Kept
pub mod Ended
mod Tests
pub mod Encoded
use remotty.Base.{
  ℕ, String, Bool, true, false, not, List, [], ◌∷◌, ◌++◌, Option, none, some, string_key,
  if◌then◌else◌, lookup, insert, length,
}
use remotty.Base.Int.{ℤ}
use remotty.Base.Base64.{decode}
use remotty.Transfer.{
  Transfer, Manager, FileRequest, Disk, TransferError, initiate_receive, write_chunk, Written,
  complete, cancel,
}

pub record FileEnv : Type 0 where
  pub join : String → String → String
  pub digest : List ℕ → String
  pub makes_dir : Bool
  pub opens : String → Bool

pub record FileChunk : Type 0 where
  pub transfer_id : String
  pub index : ℤ
  pub bytes : List ℕ
  pub checksum : String

pub data FileMessage : Type 0 where
  file_request : Option FileRequest → FileMessage
  file_chunk : Option FileChunk → FileMessage
  file_complete file_cancel file_error : Option String → FileMessage
  other_message : FileMessage

-- The answers; a `file_failed` names the transfer and the code.
pub data FileReply : Type 0 where
  not_authenticated : FileReply
  file_accept : String → FileReply
  file_progress : String → ℕ → ℤ → FileReply
  file_failed : String → String → FileReply

-- A channel of a session: the daemon's transfers and files, the answers in the order they are sent, and
-- whether a handler of messages is set.
pub record Channel : Type 0 where
  pub manager : Manager
  pub disk : Disk
  pub replies : List FileReply
  pub listening : Bool

abbrev pub reply : FileReply → Channel → Channel
reply r ch = record ch { replies = ch.replies ++ (r ∷ []) }

-- Both handlers first look whether the session is authenticated.
unfoldable pub open_channel : Bool → Channel → Channel
open_channel authed ch =
    if authed then record ch { listening = true } else reply not_authenticated ch

-- `MsgFileRequest`; `none` is the panic of `InitiateReceive`.
unfoldable pub on_request : FileEnv → Channel → FileRequest → Option Channel
on_request env ch req =
    if env.makes_dir
    then (elim (initiate_receive env.join ch.manager req) [
      | none ↦ none
      | some (manager, t) ↦
          some (reply (file_accept req.transfer_id) (record ch { manager = manager }))
    ])
    else some (reply (file_failed req.transfer_id "init_failed") ch)

abbrev pub set_transfer : String → Transfer → Manager → Manager
set_transfer id t m = record m { transfers = insert id t m.transfers }

-- The answer to a chunk that was tried.
abbrev pub answer_chunk : FileChunk → Written → FileReply
answer_chunk chunk w = elim w.error [
  | none ↦ file_progress chunk.transfer_id w.transfer.bytes_sent w.transfer.size
  | some e ↦ file_failed chunk.transfer_id "write_failed"
]

-- `MsgFileChunk`, once the transfer is found.
unfoldable pub store_chunk : FileEnv → Channel → FileChunk → Transfer → Channel
store_chunk env ch chunk t =
    let w =
      write_chunk env.digest (env.opens t.path) t ch.disk chunk.index chunk.bytes chunk.checksum in
    reply (answer_chunk chunk w)
      (record ch { manager = set_transfer chunk.transfer_id w.transfer ch.manager; disk = w.disk })

-- The transfer of an ID, if there is one, is completed or cancelled.
unfoldable pub close_transfer : (Transfer → Transfer) → String → Channel → Channel
close_transfer close id ch = elim (lookup id ch.manager.transfers) [
  | none ↦ ch
  | some t ↦ record ch { manager = set_transfer id (close t) ch.manager }
]

-- The chunk as the channel `file` takes it: bytes that read as base64 are decoded.
unfoldable pub decode_chunk : FileChunk → FileChunk
decode_chunk chunk = elim (decode chunk.bytes) [
  | some (b ∷ bs) ↦ record chunk { bytes = b ∷ bs }
  | other ↦ chunk
]

-- A chunk on the channel `transfer`: one of an unknown transfer is passed over.
unfoldable pub on_transfer_chunk : FileEnv → Channel → FileChunk → Channel
on_transfer_chunk env ch chunk = elim (lookup chunk.transfer_id ch.manager.transfers) [
  | none ↦ ch
  | some t ↦ store_chunk env ch chunk t
]

-- A chunk on the channel `file`: it may be base64, and one of an unknown transfer is refused.
unfoldable pub on_file_chunk : FileEnv → Channel → FileChunk → Channel
on_file_chunk env ch chunk = elim (lookup chunk.transfer_id ch.manager.transfers) [
  | none ↦ reply (file_failed chunk.transfer_id "unknown_transfer") ch
  | some t ↦ store_chunk env ch (decode_chunk chunk) t
]

pub data FileLabel : Type 0 where
  transfer_label file_label : FileLabel

-- The chunk as the handler of a channel takes it.
abbrev pub on_chunk : FileLabel → FileEnv → Channel → FileChunk → Channel
on_chunk transfer_label env ch chunk = on_transfer_chunk env ch chunk
on_chunk file_label env ch chunk = on_file_chunk env ch chunk

-- One message on a channel with a handler: the two handlers differ in how they take a chunk.
abbrev pub handled : FileLabel → FileEnv → Channel → FileMessage → Option Channel
handled label env ch (file_request (some req)) = on_request env ch req
handled label env ch (file_chunk (some chunk)) = some (on_chunk label env ch chunk)
handled label env ch (file_complete (some id)) = some (close_transfer complete id ch)
handled label env ch (file_cancel (some id)) = some (close_transfer cancel id ch)
handled label env ch (file_error (some id)) = some (close_transfer cancel id ch)
handled label env ch _ = some ch

-- A message does nothing on a channel with no handler.
unfoldable pub on_message : FileLabel → FileEnv → Channel → FileMessage → Option Channel
on_message label env ch msg = if ch.listening then handled label env ch msg else some ch

-- The messages, in the order they come.
unfoldable pub on_messages : FileLabel → FileEnv → Channel → List FileMessage → Option Channel
on_messages label env ch [] = some ch
on_messages label env ch (msg ∷ msgs) = elim (on_message label env ch msg) [
  | none ↦ none
  | some ch' ↦ on_messages label env ch' msgs
]
