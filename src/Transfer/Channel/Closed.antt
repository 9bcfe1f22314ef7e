-- ===== src/Transfer/Channel/Closed.antt =====
-- internal/host/daemon.go: transfers that are completed or cancelled, on the two channels for files.
use mathlib.Core.Path.{subst}
use remotty.Base.{
  ℕ, ◌≡◌, refl, inl, inr, String, Bool, true, false, List, [], ◌∷◌, none, some, ◌==◌, string_key,
  lookup, insert, arith, ap, ◌∙◌, sym, ==_self, ==_iff, lookup-insert, Bool-cases, Option-cases,
  ℕ-cases, if_false, some_inj, ◌⊎◌,
}
use remotty.Base.Int.{ℤ}
use remotty.Base.Base64.{decode}
use remotty.Transfer.{
  Transfer, FileRequest, Disk, is_active, write_chunk, initiate_receive, complete, cancel, failed,
  not_active, Written, receive_transfer,
}
use remotty.Transfer.Channel.{
  FileEnv, FileChunk, FileMessage, file_request, FileLabel, transfer_label, file_label, Channel,
  store_chunk, decode_chunk, close_transfer, on_request, on_transfer_chunk, on_file_chunk, on_chunk,
}
use remotty.Transfer.Channel.Upload.{on_request-accepted}

-- The transfer of an ID is there and not active, with these numbers.
pub record IsClosed (id : String) (chunks sent : ℕ) (transfers : List (String × Transfer))
    : Type 0 where
  pub t : Transfer
  pub found : lookup id transfers ≡ some t
  pub stopped : is_active t.state ≡ false
  pub chunks_are : t.received_chunks ≡ chunks
  pub sent_are : t.bytes_sent ≡ sent

abbrev pub IsClosedIn : String → ℕ → ℕ → Channel → Type 0
IsClosedIn id chunks sent ch = IsClosed id chunks sent ch.manager.transfers

pub insert_other :
    (id other : String) (chunks sent : ℕ) (t : Transfer) (transfers : List (String × Transfer))
    → IsClosed id chunks sent transfers
    → (other == id) ≡ false
    → IsClosed id chunks sent (insert other t transfers)
insert_other id other chunks sent t transfers w apart = record {
  t = w.t;
  found = ground (arith, lookup-insert other id t transfers, w.found, apart);
  stopped = w.stopped;
  chunks_are = w.chunks_are;
  sent_are = w.sent_are;
}

pub insert_own :
    (id : String) (chunks sent : ℕ) (t : Transfer) (transfers : List (String × Transfer))
    → is_active t.state ≡ false
    → t.received_chunks ≡ chunks
    → t.bytes_sent ≡ sent
    → IsClosed id chunks sent (insert id t transfers)
insert_own id chunks sent t transfers stopped chunks_are sent_are = record {
  t = t;
  found = ground (arith, lookup-insert id id t transfers, ==_self id);
  stopped = stopped;
  chunks_are = chunks_are;
  sent_are = sent_are;
}

-- Whether a message is the request of a transfer with this ID.
abbrev pub requests : String → FileMessage → Bool
requests id (file_request (some req)) = req.transfer_id == id
requests id _ = false

-- A write under the key of the transfer, or under another.
insert-IsClosed :
    (id key : String) (chunks sent : ℕ) (t : Transfer) (transfers : List (String × Transfer))
    → IsClosed id chunks sent transfers
    → (key ≡ id
        → (is_active t.state ≡ false) × ((t.received_chunks ≡ chunks) × (t.bytes_sent ≡ sent)))
    → IsClosed id chunks sent (insert key t transfers)
insert-IsClosed id key chunks sent t transfers w own = elim (Bool-cases (key == id)) [
  | inl e ↦
      let same : key ≡ id = (==_iff key id).0 e in
      let (stopped, (chunks_are, sent_are)) = own same in
      subst (λ k. IsClosed id chunks sent (insert k t transfers)) (sym same)
        (insert_own id chunks sent t transfers stopped chunks_are sent_are)
  | inr apart ↦ insert_other id key chunks sent t transfers w apart
]

-- What is found under the ID is the transfer that is closed.
pub found-IsClosed :
    (id key : String) (chunks sent : ℕ) (t : Transfer) (transfers : List (String × Transfer))
    → IsClosed id chunks sent transfers
    → lookup key transfers ≡ some t
    → key ≡ id
    → (is_active t.state ≡ false) × ((t.received_chunks ≡ chunks) × (t.bytes_sent ≡ sent))
found-IsClosed id key chunks sent t transfers w found same =
    let e : t ≡ w.t = some_inj t w.t (sym found ∙ ap (λ k. lookup k transfers) same ∙ w.found) in
    (
      ap (λ t. is_active t.state) e ∙ w.stopped,
      (ap (λ t. t.received_chunks) e ∙ w.chunks_are, ap (λ t. t.bytes_sent) e ∙ w.sent_are),
    )

-- A chunk for a transfer that is not active.
pub write_chunk-stopped :
    (digest : List ℕ → String) (opens : Bool) (t : Transfer) (disk : Disk) (index : ℤ)
    (bytes : List ℕ) (checksum : String)
    → is_active t.state ≡ false
    → write_chunk digest opens t disk index bytes checksum ≡ failed t disk not_active
unfolding write_chunk
write_chunk-stopped digest opens t disk index bytes checksum stopped =
    rw (stopped, write_chunk) refl

store_chunk-IsClosed :
    (id : String) (chunks sent : ℕ) (env : FileEnv) (ch : Channel) (chunk : FileChunk)
    (t : Transfer)
    → lookup chunk.transfer_id ch.manager.transfers ≡ some t
    → IsClosed id chunks sent ch.manager.transfers
    → IsClosed id chunks sent (store_chunk env ch chunk t).manager.transfers
unfolding store_chunk
store_chunk-IsClosed id chunks sent env ch chunk t found w =
    insert-IsClosed id chunk.transfer_id chunks sent _ ch.manager.transfers w (λ same.
      let (stopped, (chunks_are, sent_are)) =
        found-IsClosed id chunk.transfer_id chunks sent t ch.manager.transfers w found same in
      let kept =
        write_chunk-stopped env.digest (env.opens t.path) t ch.disk chunk.index chunk.bytes
          chunk.checksum stopped in
      (
        ap (λ (w : Written). is_active w.transfer.state) kept ∙ stopped,
        (
          ap (λ (w : Written). w.transfer.received_chunks) kept ∙ chunks_are,
          ap (λ (w : Written). w.transfer.bytes_sent) kept ∙ sent_are,
        ),
      ))

-- What both ways to end a transfer have in common.
pub record Closes (close : Transfer → Transfer) : Type 0 where
  pub stops : (t : Transfer) → is_active (close t).state ≡ false
  pub chunks_stay : (t : Transfer) → (close t).received_chunks ≡ t.received_chunks
  pub sent_stay : (t : Transfer) → (close t).bytes_sent ≡ t.bytes_sent

pub complete-Closes : Closes complete
complete-Closes = record { stops = λ t. refl; chunks_stay = λ t. refl; sent_stay = λ t. refl }

pub cancel-Closes : Closes cancel
cancel-Closes = record { stops = λ t. refl; chunks_stay = λ t. refl; sent_stay = λ t. refl }

pub close_transfer-IsClosed :
    (id key : String) (chunks sent : ℕ) (close : Transfer → Transfer) (ch : Channel)
    → Closes close
    → IsClosed id chunks sent ch.manager.transfers
    → IsClosed id chunks sent (close_transfer close key ch).manager.transfers
unfolding close_transfer
close_transfer-IsClosed id key chunks sent close ch closes w =
    elim (Option-cases (lookup key ch.manager.transfers)) [
      | inl unknown ↦ rw (unknown, close_transfer) w
      | inr (t, found) ↦
          rw (found, close_transfer)
            (insert-IsClosed id key chunks sent (close t) ch.manager.transfers w (λ same.
              let (stopped, (chunks_are, sent_are)) =
                found-IsClosed id key chunks sent t ch.manager.transfers w found same in
              (closes.stops t, (closes.chunks_stay t ∙ chunks_are, closes.sent_stay t ∙ sent_are))))
    ]

pub panics :
    (env : FileEnv) (ch : Channel) (req : FileRequest)
    → env.makes_dir ≡ true
    → req.chunk_size ≡ 0
    → on_request env ch req ≡ none
unfolding on_request initiate_receive
panics env ch req made size = rw (made, size, on_request, initiate_receive) refl

-- A request leaves the transfers alone, or begins its own.
pub on_request-outcome :
    (env : FileEnv) (ch next : Channel) (req : FileRequest)
    → on_request env ch req ≡ some next
    → (next.manager.transfers ≡ ch.manager.transfers)
      ⊎ ((t : Transfer) × (next.manager.transfers ≡ insert req.transfer_id t ch.manager.transfers))
unfolding on_request initiate_receive
on_request-outcome env ch next req e = elim (Bool-cases env.makes_dir) [
  | inl made ↦ elim (ℕ-cases req.chunk_size) [
    | inl zero' ↦ absurd (cc (e, panics env ch req made zero'))
    | inr (c, size) ↦
        let same = some_inj _ next (sym (on_request-accepted env ch req c made size) ∙ e) in
        inr (
          receive_transfer env.join ch.manager req c,
          sym (ap (λ (ch : Channel). ch.manager.transfers) same),
        )
  ]
  | inr failed' ↦
      let same = some_inj _ next (sym (if_false env.makes_dir _ _ failed') ∙ e) in
      inl (sym (ap (λ (ch : Channel). ch.manager.transfers) same))
]

pub carry : (P : Channel → Type 0) (ch next : Channel) → some ch ≡ some next → P ch → P next
carry P ch next e h = subst P (some_inj ch next e) h

pub decode_chunk-id : (chunk : FileChunk) → (decode_chunk chunk).transfer_id ≡ chunk.transfer_id
unfolding decode_chunk
decode_chunk-id chunk = elim (Option-cases (decode chunk.bytes)) [
  | inl unread ↦ rw (unread, decode_chunk) refl
  | inr ([], read) ↦ rw (read, decode_chunk) refl
  | inr (b ∷ bs, read) ↦ rw (read, decode_chunk) refl
]

pub on_chunk-IsClosed :
    (label : FileLabel) (id : String) (chunks sent : ℕ) (env : FileEnv) (ch : Channel)
    (chunk : FileChunk)
    → IsClosed id chunks sent ch.manager.transfers
    → IsClosed id chunks sent (on_chunk label env ch chunk).manager.transfers
unfolding on_transfer_chunk on_file_chunk
on_chunk-IsClosed transfer_label id chunks sent env ch chunk w =
    elim (Option-cases (lookup chunk.transfer_id ch.manager.transfers)) [
      | inl unknown ↦ rw (unknown, on_transfer_chunk) w
      | inr (t, found) ↦
          rw (found, on_transfer_chunk) (store_chunk-IsClosed id chunks sent env ch chunk t found w)
    ]
on_chunk-IsClosed file_label id chunks sent env ch chunk w =
    elim (Option-cases (lookup chunk.transfer_id ch.manager.transfers)) [
      | inl unknown ↦ rw (unknown, on_file_chunk) w
      | inr (t, found) ↦
          rw (found, on_file_chunk)
            (store_chunk-IsClosed id chunks sent env ch (decode_chunk chunk) t
              (ap (λ k. lookup k ch.manager.transfers) (decode_chunk-id chunk) ∙ found) w)
    ]
