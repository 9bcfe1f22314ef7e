-- ===== src/Transfer/Channel/Encoded.antt =====
-- internal/host/daemon.go: the bytes of a chunk as the channel `file` takes them.
use remotty.Base.{
  ℕ, zero, suc, ◌≡◌, refl, String, Bool, true, List, [], ◌∷◌, none, some, string_key, lookup, arith,
  ap, ◌∙◌, ◌≢◌, ==_iff, if_true,
}
use remotty.Base.Int.{ℤ}
use remotty.Base.Base64.{encode, AreBytes, decode-encode}
use remotty.Transfer.{
  Transfer, Disk, is_active, write_chunk, failed, Written, TransferError, checksum_mismatch,
}
use remotty.Transfer.Bytes.{take, drop, read_at}
use remotty.Transfer.Channel.{
  FileEnv, FileChunk, FileLabel, transfer_label, file_label, Channel, store_chunk, decode_chunk,
  file_chunk, FileMessage, on_message, on_messages, on_file_chunk, on_transfer_chunk, reply,
  file_failed, handled, set_transfer, answer_chunk,
}

take-AreBytes : (n : ℕ) (bs : List ℕ) → AreBytes bs → AreBytes (take n bs)
unfolding take
take-AreBytes zero bs h = tt
take-AreBytes (suc n) [] h = tt
take-AreBytes (suc n) (b ∷ bs) h = (h.0, take-AreBytes n bs h.1)

drop-AreBytes : (n : ℕ) (bs : List ℕ) → AreBytes bs → AreBytes (drop n bs)
unfolding drop
drop-AreBytes zero bs h = h
drop-AreBytes (suc n) [] h = tt
drop-AreBytes (suc n) (b ∷ bs) h = drop-AreBytes n bs h.1

pub read_at-AreBytes : (offset n : ℕ) (bs : List ℕ) → AreBytes bs → AreBytes (read_at offset n bs)
unfolding read_at
read_at-AreBytes offset n bs h = take-AreBytes n (drop offset bs) (drop-AreBytes offset bs h)

-- The chunk with its bytes in base64.
abbrev pub encoded : FileChunk → FileChunk
encoded chunk = record chunk { bytes = encode chunk.bytes }

-- The chunk with these bytes.
abbrev with_bytes : FileChunk → List ℕ → FileChunk
with_bytes chunk bs = record chunk { bytes = bs }

encode_nothing : encode [] ≡ []
unfolding encode
encode_nothing = refl

decode_chunk-bytes :
    (chunk : FileChunk) (bs : List ℕ)
    → AreBytes bs
    → decode_chunk (with_bytes chunk (encode bs)) ≡ with_bytes chunk bs
unfolding decode_chunk
decode_chunk-bytes chunk [] h =
    rw (decode-encode [] tt, decode_chunk) (ap (with_bytes chunk) encode_nothing)
decode_chunk-bytes chunk (b ∷ bs) h = rw (decode-encode (b ∷ bs) h, decode_chunk) refl

-- Where the bytes are bytes, the channel `file` takes back what base64 makes of them.
pub decode_chunk-encoded :
    (chunk : FileChunk) → AreBytes chunk.bytes → decode_chunk (encoded chunk) ≡ chunk
decode_chunk-encoded chunk h = decode_chunk-bytes chunk chunk.bytes h

-- How a client sends a chunk on a channel.
abbrev pub as_sent : FileLabel → FileChunk → FileChunk
as_sent transfer_label chunk = chunk
as_sent file_label chunk = encoded chunk

pub on_message-listening :
    (label : FileLabel) (env : FileEnv) (ch : Channel) (msg : FileMessage)
    → ch.listening ≡ true
    → on_message label env ch msg ≡ handled label env ch msg
unfolding on_message
on_message-listening label env ch msg listens = if_true _ _ _ listens

pub one_more :
    (label : FileLabel) (env : FileEnv) (ch next : Channel) (msg : FileMessage)
    (msgs : List FileMessage)
    → on_message label env ch msg ≡ some next
    → on_messages label env ch (msg ∷ msgs) ≡ on_messages label env next msgs
unfolding on_messages
one_more label env ch next msg msgs step = rw (step, on_messages) refl

pub no_more :
    (label : FileLabel) (env : FileEnv) (ch : Channel) (msg : FileMessage) (msgs : List FileMessage)
    → on_message label env ch msg ≡ none
    → on_messages label env ch (msg ∷ msgs) ≡ none
unfolding on_messages
no_more label env ch msg msgs panic = rw (panic, on_messages) refl

-- A chunk of a transfer that is there is stored as it was before it was sent.
pub on_message-as_sent :
    (label : FileLabel) (env : FileEnv) (ch : Channel) (chunk : FileChunk) (t : Transfer)
    → ch.listening ≡ true
    → lookup chunk.transfer_id ch.manager.transfers ≡ some t
    → AreBytes chunk.bytes
    → on_message label env ch (file_chunk (some (as_sent label chunk)))
      ≡ some (store_chunk env ch chunk t)
unfolding on_transfer_chunk on_file_chunk
on_message-as_sent transfer_label env ch chunk t listens found h =
    on_message-listening transfer_label env ch _ listens ∙ rw (found, on_transfer_chunk) refl
on_message-as_sent file_label env ch chunk t listens found h =
    on_message-listening file_label env ch _ listens
    ∙ rw (found, decode_chunk-encoded chunk h, on_file_chunk) refl

write_mismatch :
    (digest : List ℕ → String) (opens : Bool) (t : Transfer) (disk : Disk) (index : ℤ)
    (bytes : List ℕ) (checksum : String)
    → is_active t.state ≡ true
    → checksum ≢ ""
    → digest bytes ≢ checksum
    → write_chunk digest opens t disk index bytes checksum ≡ failed t disk checksum_mismatch
unfolding write_chunk
write_mismatch digest opens t disk index bytes checksum runs given apart =
    ground (arith, runs, ==_iff checksum "", ==_iff (digest bytes) checksum)

-- A chunk that was not written.
pub store_chunk-failed :
    (env : FileEnv) (ch : Channel) (chunk : FileChunk) (t : Transfer) (e : TransferError)
    → write_chunk env.digest (env.opens t.path) t ch.disk chunk.index chunk.bytes chunk.checksum
      ≡ failed t ch.disk e
    → store_chunk env ch chunk t
      ≡ reply
          (file_failed chunk.transfer_id "write_failed")
          (record ch { manager = set_transfer chunk.transfer_id t ch.manager })
unfolding store_chunk
store_chunk-failed env ch chunk t e w =
    ap
      (λ (w : Written). reply (answer_chunk chunk w) (record ch {
        manager = set_transfer chunk.transfer_id w.transfer ch.manager;
        disk = w.disk;
      }))
      w

-- On the channel `file`, a chunk that is not in base64 and whose bytes happen to be base64 is lost: with
-- its right hash, for an active transfer, and where the bytes that it decodes to have another hash, it is
-- answered by `write_failed`, and the files, the transfer and those of other IDs stay as they are.
pub on_message-base64 :
    (env : FileEnv) (ch : Channel) (chunk : FileChunk) (t : Transfer) (bs : List ℕ)
    → ch.listening ≡ true
    → lookup chunk.transfer_id ch.manager.transfers ≡ some t
    → is_active t.state ≡ true
    → AreBytes bs
    → chunk.bytes ≡ encode bs
    → chunk.checksum ≡ env.digest chunk.bytes
    → chunk.checksum ≢ ""
    → env.digest bs ≢ chunk.checksum
    → on_message file_label env ch (file_chunk (some chunk))
      ≡ some (
          reply
            (file_failed chunk.transfer_id "write_failed")
            (record ch { manager = set_transfer chunk.transfer_id t ch.manager }))
on_message-base64 env ch chunk t bs listens found runs h e sum given apart =
    let plain = with_bytes chunk bs in
    let wrong =
      write_mismatch env.digest (env.opens t.path) t ch.disk chunk.index bs chunk.checksum runs
        given apart in
    ap (λ c. on_message file_label env ch (file_chunk (some c))) (ap (with_bytes chunk) e)
    ∙ on_message-as_sent file_label env ch plain t listens found h
    ∙ ap some (store_chunk-failed env ch plain t checksum_mismatch wrong)
