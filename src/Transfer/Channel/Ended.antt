-- ===== src/Transfer/Channel/Ended.antt =====
-- internal/host/daemon.go: what comes on a channel for files after the end of a transfer.
use mathlib.Core.Path.{subst}
use remotty.Base.{
  ℕ, ◌≡◌, refl, inl, inr, String, Bool, true, false, List, [], ◌∷◌, ◌++◌, none, some, ◌==◌,
  string_key, lookup, arith, ap, ◌∙◌, sym, ==_iff, All, Bool-cases, Option-cases, if_true, if_false,
}
use remotty.Transfer.{FileRequest, Transfer, initiate_receive, complete, cancel, not_active}
use remotty.Transfer.Channel.{
  FileEnv, FileChunk, FileMessage, file_request, file_chunk, file_complete, file_cancel, file_error,
  other_message, file_failed, FileLabel, transfer_label, file_label, Channel, store_chunk,
  decode_chunk, close_transfer, on_request, on_message, on_messages, on_transfer_chunk,
  on_file_chunk, on_chunk, handled,
}
use remotty.Transfer.Channel.Encoded.{one_more, no_more, store_chunk-failed, on_message-listening}
use remotty.Transfer.Channel.Closed.{
  Closes, IsClosed, IsClosedIn, carry, requests, write_chunk-stopped, complete-Closes,
  cancel-Closes, insert_own, decode_chunk-id,
}
use remotty.Transfer.Channel.Kept.{on_message-IsClosed}

close_transfer-listens :
    (close : Transfer → Transfer) (id : String) (ch : Channel)
    → (close_transfer close id ch).listening ≡ ch.listening
unfolding close_transfer
close_transfer-listens close id ch = elim (Option-cases (lookup id ch.manager.transfers)) [
  | inl unknown ↦ rw (unknown, close_transfer) refl
  | inr (t, found) ↦ rw (found, close_transfer) refl
]

on_chunk-listens :
    (label : FileLabel) (env : FileEnv) (ch : Channel) (chunk : FileChunk)
    → (on_chunk label env ch chunk).listening ≡ ch.listening
unfolding on_transfer_chunk on_file_chunk store_chunk
on_chunk-listens transfer_label env ch chunk =
    elim (Option-cases (lookup chunk.transfer_id ch.manager.transfers)) [
      | inl unknown ↦ rw (unknown, on_transfer_chunk) refl
      | inr (t, found) ↦ rw (found, on_transfer_chunk) refl
    ]
on_chunk-listens file_label env ch chunk =
    elim (Option-cases (lookup chunk.transfer_id ch.manager.transfers)) [
      | inl unknown ↦ rw (unknown, on_file_chunk) refl
      | inr (t, found) ↦ rw (found, on_file_chunk) refl
    ]

on_request-listens :
    (env : FileEnv) (ch next : Channel) (req : FileRequest)
    → on_request env ch req ≡ some next
    → next.listening ≡ ch.listening
unfolding on_request initiate_receive
on_request-listens env ch next req e = ground (arith, e)

handled-listens :
    (label : FileLabel) (env : FileEnv) (ch next : Channel) (msg : FileMessage)
    → handled label env ch msg ≡ some next
    → next.listening ≡ ch.listening
handled-listens label env ch next msg e = grind (
  arith,
  e,
  close_transfer-listens complete,
  close_transfer-listens cancel,
  on_chunk-listens label env ch,
  on_request-listens env ch next,
)

on_message-listens :
    (label : FileLabel) (env : FileEnv) (ch next : Channel) (msg : FileMessage)
    → on_message label env ch msg ≡ some next
    → next.listening ≡ ch.listening
unfolding on_message
on_message-listens label env ch next msg e = elim (Bool-cases ch.listening) [
  | inl listens ↦ handled-listens label env ch next msg (sym (if_true ch.listening _ _ listens) ∙ e)
  | inr deaf ↦
      carry (λ other. other.listening ≡ ch.listening) ch next
        (sym (if_false ch.listening _ _ deaf) ∙ e) refl
]

-- What a run of messages keeps, if each message keeps it.
run-keeps :
    (label : FileLabel) (env : FileEnv) (Allowed : FileMessage → Type 0) (P : Channel → Type 0)
    → ((ch next : Channel) (msg : FileMessage)
        → Allowed msg
        → P ch
        → on_message label env ch msg ≡ some next
        → P next)
    → (msgs : List FileMessage) (ch out : Channel) → All Allowed msgs
    → P ch
    → on_messages label env ch msgs ≡ some out
    → P out
unfolding on_messages
run-keeps label env Allowed P keeps [] ch out h p e = carry P ch out e p
run-keeps label env Allowed P keeps (msg ∷ msgs) ch out h p e =
    elim (Option-cases (on_message label env ch msg)) [
      | inl panic ↦ absurd (cc (no_more label env ch msg msgs panic, e))
      | inr (next, step) ↦
          run-keeps label env Allowed P keeps msgs next out h.1 (keeps ch next msg h.0 p step)
            (sym (one_more label env ch next msg msgs step) ∙ e)
    ]

-- Whether a message ends the transfer of an ID.
abbrev pub ends : String → FileMessage → Bool
ends id (file_complete (some key)) = key == id
ends id (file_cancel (some key)) = key == id
ends id (file_error (some key)) = key == id
ends id _ = false

-- What a handler makes of a chunk.
abbrev taken : FileLabel → FileChunk → FileChunk
taken transfer_label chunk = chunk
taken file_label chunk = decode_chunk chunk

on_chunk-found :
    (label : FileLabel) (env : FileEnv) (ch : Channel) (chunk : FileChunk) (t : Transfer)
    → lookup chunk.transfer_id ch.manager.transfers ≡ some t
    → on_chunk label env ch chunk ≡ store_chunk env ch (taken label chunk) t
unfolding on_transfer_chunk on_file_chunk
on_chunk-found transfer_label env ch chunk t found = rw (found, on_transfer_chunk) refl
on_chunk-found file_label env ch chunk t found = rw (found, on_file_chunk) refl

taken-id :
    (label : FileLabel) (chunk : FileChunk) → (taken label chunk).transfer_id ≡ chunk.transfer_id
taken-id transfer_label chunk = refl
taken-id file_label chunk = decode_chunk-id chunk

-- How a late chunk leaves the channel.
pub record IsRefused (id : String) (ch late : Channel) : Type 0 where
  pub same_files : late.disk ≡ ch.disk
  pub answered : late.replies ≡ ch.replies ++ (file_failed id "write_failed" ∷ [])

late-IsRefused :
    (label : FileLabel) (env : FileEnv) (id : String) (chunks sent : ℕ) (out : Channel)
    (chunk : FileChunk)
    → out.listening ≡ true
    → IsClosedIn id chunks sent out
    → chunk.transfer_id ≡ id
    → (late : Channel) × ((on_message label env out (file_chunk (some chunk)) ≡ some late)
        × IsRefused id out late)
late-IsRefused label env id chunks sent out chunk listens w same =
    let found = ap (λ k. lookup k out.manager.transfers) same ∙ w.found in
    let read = taken label chunk in
    let refused =
      on_chunk-found label env out chunk w.t found
      ∙ store_chunk-failed env out read w.t not_active (
          write_chunk-stopped env.digest (env.opens w.t.path) w.t out.disk read.index read.bytes
            read.checksum w.stopped) in
    (
      _,
      (
        on_message-listening label env out _ listens ∙ ap some refused,
        record {
          same_files = refl;
          answered =
              ap (λ k. out.replies ++ (file_failed k "write_failed" ∷ []))
                (taken-id label chunk ∙ same);
        },
      ),
    )

closed_now :
    (id key : String) (close : Transfer → Transfer) (ch : Channel) (t : Transfer)
    → Closes close
    → lookup id ch.manager.transfers ≡ some t
    → key ≡ id
    → IsClosedIn id t.received_chunks t.bytes_sent (close_transfer close key ch)
unfolding close_transfer
closed_now id key close ch t closes found same =
    subst (λ k. IsClosedIn id t.received_chunks t.bytes_sent (close_transfer close k ch)) (sym same)
      (rw (found, close_transfer)
        (insert_own id t.received_chunks t.bytes_sent (close t) ch.manager.transfers
          (closes.stops t) (closes.chunks_stay t) (closes.sent_stay t)))

end-IsClosed :
    (label : FileLabel) (env : FileEnv) (id : String) (ch next : Channel) (t : Transfer)
    (msg : FileMessage)
    → lookup id ch.manager.transfers ≡ some t
    → ends id msg ≡ true
    → handled label env ch msg ≡ some next
    → IsClosedIn id t.received_chunks t.bytes_sent next
end-IsClosed label env id ch next t (file_complete (some key)) found h e =
    carry (IsClosedIn id t.received_chunks t.bytes_sent) _ next e
      (closed_now id key complete ch t complete-Closes found ((==_iff key id).0 h))
end-IsClosed label env id ch next t (file_cancel (some key)) found h e =
    carry (IsClosedIn id t.received_chunks t.bytes_sent) _ next e
      (closed_now id key cancel ch t cancel-Closes found ((==_iff key id).0 h))
end-IsClosed label env id ch next t (file_error (some key)) found h e =
    carry (IsClosedIn id t.received_chunks t.bytes_sent) _ next e
      (closed_now id key cancel ch t cancel-Closes found ((==_iff key id).0 h))
end-IsClosed label env id ch next t (file_complete none) found h e = absurd (cc)
end-IsClosed label env id ch next t (file_cancel none) found h e = absurd (cc)
end-IsClosed label env id ch next t (file_error none) found h e = absurd (cc)
end-IsClosed label env id ch next t (file_request req) found h e = absurd (cc)
end-IsClosed label env id ch next t (file_chunk chunk) found h e = absurd (cc)
end-IsClosed label env id ch next t other_message found h e = absurd (cc)

-- On both channels the end of a transfer is the end: once a client has completed, cancelled or given up
-- a transfer that is there, then whatever else it sends, but for a new request with the ID, the transfer
-- stays inactive with the chunks and bytes that it had counted, and a chunk for it that comes then is
-- answered by `write_failed` and writes nothing.
pub on_messages-ended :
    (label : FileLabel) (env : FileEnv) (id : String) (ch out : Channel) (t : Transfer)
    (end : FileMessage) (msgs : List FileMessage) (chunk : FileChunk)
    → ch.listening ≡ true
    → lookup id ch.manager.transfers ≡ some t
    → ends id end ≡ true
    → All (λ msg. requests id msg ≡ false) msgs
    → on_messages label env ch (end ∷ msgs) ≡ some out
    → chunk.transfer_id ≡ id
    → IsClosed id t.received_chunks t.bytes_sent out.manager.transfers
      × ((late : Channel) × ((on_message label env out (file_chunk (some chunk)) ≡ some late)
            × IsRefused id out late))
on_messages-ended label env id ch out t end msgs chunk listens found h others run same =
    elim (Option-cases (handled label env ch end)) [
      | inl panic ↦ absurd (
          cc (
            no_more label env ch end msgs (on_message-listening label env ch end listens ∙ panic),
            run,
          ))
      | inr (next, step) ↦
          let first = on_message-listening label env ch end listens ∙ step in
          let rest = sym (one_more label env ch next end msgs first) ∙ run in
          let now = end-IsClosed label env id ch next t end found h step in
          let awake = handled-listens label env ch next end step ∙ listens in
          let closed =
            run-keeps label env (λ msg. requests id msg ≡ false)
              (IsClosedIn id t.received_chunks t.bytes_sent)
              (λ ch next msg other w e.
                on_message-IsClosed label id t.received_chunks t.bytes_sent env ch next msg other w
                  e)
              msgs next out others now rest in
          let heard =
            run-keeps label env (λ msg. requests id msg ≡ false) (λ ch. ch.listening ≡ true)
              (λ ch next msg other w e. on_message-listens label env ch next msg e ∙ w) msgs next
              out others awake rest in
          (
            closed,
            late-IsRefused label env id t.received_chunks t.bytes_sent out chunk heard closed same,
          )
    ]
