-- ===== src/Transfer/Channel/Sending.antt =====
-- internal/host/daemon.go: the chunks of a file, one after the other, on one of the two channels.
use remotty.Base.{
  ℕ, ◌+◌, ◌*◌, ◌≡◌, refl, String, Bool, true, false, List, [], ◌∷◌, ◌++◌, some, string_key, lookup,
  insert, length, any, arith, ap, ◌∙◌, ==_self, length-append, lookup-insert,
}
use remotty.Base.Int.{pos}
use remotty.Base.Base64.{AreBytes}
use remotty.Transfer.{
  Transfer, is_active, transfer_complete, content, write_chunk, complete, Written,
}
use remotty.Transfer.Bytes.{read_at, write_at}
use remotty.Transfer.Delivery.{Agrees, step-Agrees, gather, received, write_active, content-insert}
use remotty.Transfer.Channel.{
  FileEnv, FileChunk, FileMessage, file_chunk, file_complete, FileReply, file_progress, file_failed,
  FileLabel, Channel, reply, store_chunk, set_transfer, close_transfer, on_message, on_messages,
  answer_chunk,
}
use remotty.Transfer.Channel.Encoded.{
  one_more, as_sent, on_message-as_sent, on_message-listening, read_at-AreBytes,
}

abbrev pub is_failure : FileReply → Bool
is_failure (file_failed id code) = true
is_failure _ = false

-- The chunk `i` of a source in chunks of size `c`.
abbrev pub chunk_of : FileEnv → String → List ℕ → ℕ → ℕ → FileChunk
chunk_of env id src c i =
    let bytes = read_at (i * c) c src in
    record { transfer_id = id; index = pos i; bytes = bytes; checksum = env.digest bytes }

-- The chunks in the order given, then the end.
unfoldable pub chunk_messages :
    FileLabel → FileEnv → String → List ℕ → ℕ → List ℕ → List FileMessage
chunk_messages label env id src c [] = file_complete (some id) ∷ []
chunk_messages label env id src c (i ∷ order) =
    file_chunk (some (as_sent label (chunk_of env id src c i)))
    ∷ chunk_messages label env id src c order

-- A transfer that is under way on a channel.
pub record IsUnder (src : List ℕ) (c : ℕ) (done : List ℕ) (id : String) (t : Transfer)
    (ch : Channel) : Type 0 where
  pub listens : ch.listening ≡ true
  pub found : lookup id ch.manager.transfers ≡ some t
  pub runs : is_active t.state ≡ true
  pub size : t.chunk_size ≡ pos c
  pub agrees : Agrees src c done (content ch.disk t.path)

-- How the messages leave the channel: the chunks `done` are written for the transfer, which has ended.
pub record IsSent (src : List ℕ) (c : ℕ) (done : List ℕ) (id path : String) (was chunks : ℕ)
    (before : List FileReply) (out : Channel) : Type 0 where
  pub t : Transfer
  pub kept : lookup id out.manager.transfers ≡ some t
  pub ended : t.state ≡ transfer_complete
  pub path_is : t.path ≡ path
  pub counted : t.received_chunks ≡ was + chunks
  pub agrees : Agrees src c done (content out.disk path)
  pub no_failure : any is_failure out.replies ≡ any is_failure before
  pub answers : length out.replies ≡ length before + chunks

abbrev progress_of : String → Transfer → FileReply
progress_of id t = file_progress id t.bytes_sent t.size

-- The channel once a chunk is in.
abbrev stored : FileEnv → String → List ℕ → ℕ → ℕ → Transfer → Channel → Channel
stored env id src c i t ch =
    let bytes = read_at (i * c) c src in
    let t' = received t bytes in
    reply (progress_of id t') (record ch {
      manager = set_transfer id t' ch.manager;
      disk = insert t.path (write_at (i * c) bytes (content ch.disk t.path)) ch.disk;
    })

store_chunk-stored :
    (env : FileEnv) (id : String) (src : List ℕ) (c i : ℕ) (done : List ℕ) (t : Transfer)
    (ch : Channel)
    → env.opens t.path ≡ true
    → IsUnder src c done id t ch
    → store_chunk env ch (chunk_of env id src c i) t ≡ stored env id src c i t ch
unfolding store_chunk
store_chunk-stored env id src c i done t ch opens u =
    let chunk = chunk_of env id src c i in
    ap
      (λ (w : Written).
        reply (answer_chunk chunk w)
          (record ch { manager = set_transfer id w.transfer ch.manager; disk = w.disk }))
      (ap (λ b. write_chunk env.digest b t ch.disk chunk.index chunk.bytes chunk.checksum) opens
        ∙ write_active env.digest t ch.disk chunk.bytes c i u.runs u.size)

pub found_new :
    {A : Type 0} (id : String) (a : A) (m : List (String × A)) → lookup id (insert id a m) ≡ some a
found_new id a m = ground (arith, lookup-insert id id a m, ==_self id)

stored-IsUnder :
    (env : FileEnv) (id : String) (src : List ℕ) (c i : ℕ) (done : List ℕ) (t : Transfer)
    (ch : Channel)
    → IsUnder src c done id t ch
    → IsUnder src c (i ∷ done) id (received t (read_at (i * c) c src)) (stored env id src c i t ch)
stored-IsUnder env id src c i done t ch u =
    let bytes = read_at (i * c) c src in
    record {
      listens = u.listens;
      found = found_new id (received t bytes) ch.manager.transfers;
      runs = u.runs;
      size = u.size;
      agrees =
          rw (content-insert t.path (write_at (i * c) bytes (content ch.disk t.path)) ch.disk)
            (step-Agrees src c i done (content ch.disk t.path) u.agrees);
    }

pub any-reply :
    (replies : List FileReply) (r : FileReply)
    → is_failure r ≡ false
    → any is_failure (replies ++ (r ∷ [])) ≡ any is_failure replies
any-reply [] r h = rw h refl
any-reply (first ∷ replies) r h = rw (any-reply replies r h) refl

closing :
    (label : FileLabel) (env : FileEnv) (id : String) (t : Transfer) (ch : Channel)
    → ch.listening ≡ true
    → lookup id ch.manager.transfers ≡ some t
    → on_message label env ch (file_complete (some id))
      ≡ some (record ch { manager = set_transfer id (complete t) ch.manager })
unfolding close_transfer
closing label env id t ch listens found =
    on_message-listening label env ch _ listens ∙ rw (found, close_transfer) refl

-- The end of the transfer.
end-IsSent :
    (label : FileLabel) (env : FileEnv) (id : String) (src : List ℕ) (c : ℕ) (done : List ℕ)
    (t : Transfer) (ch : Channel)
    → IsUnder src c done id t ch
    → (out : Channel) × ((on_messages label env ch (file_complete (some id) ∷ []) ≡ some out)
        × IsSent src c done id t.path t.received_chunks 0 ch.replies out)
unfolding on_messages
end-IsSent label env id src c done t ch u = (
  record ch { manager = set_transfer id (complete t) ch.manager },
  (
    rw (closing label env id t ch u.listens u.found, on_messages) refl,
    record {
      t = complete t;
      kept = found_new id (complete t) ch.manager.transfers;
      ended = refl;
      path_is = refl;
      counted = omega arith;
      agrees = u.agrees;
      no_failure = refl;
      answers = omega arith;
    },
  ),
)

pub chunks-IsSent :
    (label : FileLabel) (env : FileEnv) (id : String) (src : List ℕ) (c : ℕ) (order done : List ℕ)
    (t : Transfer) (ch : Channel)
    → env.opens t.path ≡ true
    → AreBytes src
    → IsUnder src c done id t ch
    → (out : Channel) × ((on_messages label env ch (chunk_messages label env id src c order)
          ≡ some out)
        × IsSent src c
            (gather order done)
            id
            t.path
            t.received_chunks
            (length order)
            ch.replies
            out)
unfolding chunk_messages gather
chunks-IsSent label env id src c [] done t ch opens bytes u =
    end-IsSent label env id src c done t ch u
chunks-IsSent label env id src c (i ∷ order) done t ch opens bytes u =
    let chunk = chunk_of env id src c i in
    let next = stored env id src c i t ch in
    let step : on_message label env ch (file_chunk (some (as_sent label chunk))) ≡ some next =
      on_message-as_sent label env ch chunk t u.listens u.found
        (read_at-AreBytes (i * c) c src bytes)
      ∙ ap some (store_chunk-stored env id src c i done t ch opens u) in
    let (out, (runs, w)) =
      chunks-IsSent label env id src c order (i ∷ done) (received t chunk.bytes) next opens bytes
        (stored-IsUnder env id src c i done t ch u) in
    (
      out,
      (
        one_more label env ch next _ _ step ∙ runs,
        record {
          t = w.t;
          kept = w.kept;
          ended = w.ended;
          path_is = w.path_is;
          counted = omega (arith, w.counted);
          agrees = w.agrees;
          no_failure = w.no_failure ∙ any-reply ch.replies _ refl;
          answers = omega (
            arith,
            w.answers,
            length-append ch.replies (progress_of id (received t chunk.bytes) ∷ []),
          );
        },
      ),
    )
