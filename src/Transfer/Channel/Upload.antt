-- ===== src/Transfer/Channel/Upload.antt =====
-- internal/host/daemon.go: a file that a client sends whole on one of the two channels.
use remotty.Base.{
  ℕ, suc, ◌+◌, ◌≤◌, ◌≡◌, refl, String, true, List, [], ◌∷◌, none, some, string_key, lookup, length,
  any, arith, ap, ◌∙◌, sym, length-append, ◌-◌,
}
use remotty.Base.Int.{pos}
use remotty.Base.Base64.{AreBytes}
use remotty.Transfer.{
  Transfer, FileRequest, transfer_complete, content, initiate_receive, receive_transfer, complete,
}
use remotty.Transfer.Delivery.{start-Agrees, Agrees-all, IsComplete}
use remotty.Transfer.Channel.{
  FileEnv, FileMessage, file_request, FileReply, file_accept, FileLabel, Channel, reply,
  set_transfer, on_request, on_message, on_messages,
}
use remotty.Transfer.Channel.Encoded.{one_more, on_message-listening}
use remotty.Transfer.Channel.Sending.{
  IsUnder, any-reply, chunk_messages, chunks-IsSent, found_new, is_failure,
}

-- The messages of a client that sends a file: its request, its chunks in the order given, and the end.
abbrev pub upload_messages : FileLabel → FileEnv → FileRequest → List ℕ → List ℕ → List FileMessage
upload_messages label env req src order =
    file_request (some req) ∷ chunk_messages label env req.transfer_id src req.chunk_size order

-- What a channel is left with by a file that was sent in a number of chunks.
pub record IsUploaded (id path : String) (src : List ℕ) (chunks : ℕ) (before : List FileReply)
    (out : Channel) : Type 0 where
  pub t : Transfer
  pub kept : lookup id out.manager.transfers ≡ some t
  pub ended : t.state ≡ transfer_complete
  pub path_is : t.path ≡ path
  pub counted : t.received_chunks ≡ chunks
  pub written : content out.disk path ≡ src
  pub no_failure : any is_failure out.replies ≡ any is_failure before
  pub answers : length out.replies ≡ length before + 1 + chunks

-- The channel once a request is taken, for a chunk size that is one more than `c`.
abbrev pub accepted : FileEnv → Channel → FileRequest → ℕ → Channel
accepted env ch req c = reply (file_accept req.transfer_id) (record ch {
  manager = set_transfer req.transfer_id (receive_transfer env.join ch.manager req c) ch.manager;
})

pub on_request-accepted :
    (env : FileEnv) (ch : Channel) (req : FileRequest) (c : ℕ)
    → env.makes_dir ≡ true
    → req.chunk_size ≡ suc c
    → on_request env ch req ≡ some (accepted env ch req c)
unfolding on_request initiate_receive
on_request-accepted env ch req c dir size = rw (dir, size, on_request, initiate_receive) refl

on_message-accepted :
    (label : FileLabel) (env : FileEnv) (ch : Channel) (req : FileRequest) (c : ℕ)
    → ch.listening ≡ true
    → env.makes_dir ≡ true
    → req.chunk_size ≡ suc c
    → on_message label env ch (file_request (some req)) ≡ some (accepted env ch req c)
on_message-accepted label env ch req c listens dir size =
    on_message-listening label env ch _ listens ∙ on_request-accepted env ch req c dir size

-- A file sent on an open channel arrives: a request with a positive chunk size, then the chunks of the
-- source in any order and as often as one likes, each at least once and with its hash, then the end.
-- On the channel `file` the chunks are sent in base64. The host then has the bytes of the source under
-- the name in its downloads, the transfer is complete and has counted each chunk, and each message but
-- the last was answered, none of them by an error. The directory of downloads can be made, the file can be opened
-- and is not there before, and the source consists of bytes.
pub on_messages-IsUploaded :
    (label : FileLabel) (env : FileEnv) (ch : Channel) (req : FileRequest) (src : List ℕ)
    (order : List ℕ)
    → ch.listening ≡ true
    → env.makes_dir ≡ true
    → let path = env.join (env.join ch.manager.data_dir "downloads") req.name in
      env.opens path ≡ true
      → lookup path ch.disk ≡ none
      → AreBytes src
      → 1 ≤ req.chunk_size
      → IsComplete src req.chunk_size order
      → (out : Channel) × ((on_messages label env ch (upload_messages label env req src order)
            ≡ some out)
          × IsUploaded req.transfer_id path src (length order) ch.replies out)
on_messages-IsUploaded label env ch req src order listens dir opens fresh bytes p complete =
    let c = req.chunk_size - 1 in
    let t = receive_transfer env.join ch.manager req c in
    let size : req.chunk_size ≡ suc c = omega arith in
    let start : IsUnder src req.chunk_size [] req.transfer_id t (accepted env ch req c) = record {
      listens = listens;
      found = found_new req.transfer_id t ch.manager.transfers;
      runs = refl;
      size = ap pos (sym size);
      agrees = rw (fresh, content) (start-Agrees src req.chunk_size);
    } in
    let (out, (runs, w)) =
      chunks-IsSent label env req.transfer_id src req.chunk_size order [] t (accepted env ch req c)
        opens bytes start in
    (
      out,
      (
        one_more label env ch _ _ _ (on_message-accepted label env ch req c listens dir size)
            ∙ runs,
        record {
          t = w.t;
          kept = w.kept;
          ended = w.ended;
          path_is = w.path_is;
          counted = omega (arith, w.counted);
          written = Agrees-all src req.chunk_size order _ p complete w.agrees;
          no_failure = w.no_failure ∙ any-reply ch.replies _ refl;
          answers =
              omega (arith, w.answers, length-append ch.replies (file_accept req.transfer_id ∷ []));
        },
      ),
    )
