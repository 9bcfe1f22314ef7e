-- ===== src/Transfer/Requests.antt =====
-- internal/transfer/transfer.go: the transfers that are begun, and the number of their chunks.
use native.Mathlib.Nat.{le-div_iff_mul-le}
use remotty.Base.{
  ℕ, zero, suc, ◌+◌, ◌*◌, ◌/◌, ◌<◌, ◌≡◌, refl, ◌↔◌, ◌⊎◌, inl, inr, String, List, Option, none, some,
  string_key, lookup, insert, arith, ap, ==_self, lookup-insert, sym,
}
use remotty.Base.Int.{pos, pos_part}
use remotty.Transfer.{
  Transfer, TransferState, transfer_active, transfer_pending, Manager, FileRequest, initiate_send,
  initiate_receive, transfer_id_at, receive_transfer, default_chunk_size,
}

-- The number of chunks is that of the offsets before the end.
total_exact : (size c i : ℕ) → (i * suc c < size) ↔ (i < (size + c) / suc c)
total_exact size c i =
    let div = le-div_iff_mul-le {k = suc c} {x = suc i} {y = size + c} (omega arith) in
    ((λ h. omega (arith, div.1 (omega (arith, h)))), λ h. omega (arith, div.0 (omega (arith, h))))

-- A transfer that is kept, with as many chunks as there are offsets before the end of the file.
pub record IsBegun (size c : ℕ) (state : TransferState) (m : Manager) (t : Transfer) : Type 0 where
  pub kept : lookup t.id m.transfers ≡ some t
  pub in_state : t.state ≡ state
  pub chunk_is : t.chunk_size ≡ pos c
  pub chunks : (i : ℕ) → (i * c < size) ↔ (i < pos_part t.total_chunks)
  pub none_yet : t.received_chunks ≡ 0

abbrev pub SendOutcome : Option ℕ → Option (Manager × Transfer) → Type 0
SendOutcome none out = out ≡ none
SendOutcome (some size) out =
    (m : Manager) × ((t : Transfer) × ((out ≡ some (m, t))
        × IsBegun size default_chunk_size transfer_pending m t))

kept_new :
    (k : String) (t : Transfer) (m : List (String × Transfer)) → lookup k (insert k t m) ≡ some t
kept_new k t m = ground (arith, lookup-insert k k t m, ==_self k)

-- A file is offered exactly when the system knows its size: the transfer is then kept under its ID as
-- pending, and its chunks are as many as it takes to reach the end of the file.
pub initiate_send_outcome :
    (m : Manager) (path base : String) (size : Option ℕ) (now : ℕ)
    → SendOutcome size (initiate_send m path base size now)
unfolding initiate_send
initiate_send_outcome m path base none now = refl
initiate_send_outcome m path base (some size) now = (
  _,
  (
    _,
    (
      refl,
      record {
        kept = kept_new (transfer_id_at now) _ m.transfers;
        in_state = refl;
        chunk_is = refl;
        chunks = λ i. total_exact size 65535 i;
        none_yet = refl;
      },
    ),
  ),
)

abbrev pub ReceiveOutcome : FileRequest → Option (Manager × Transfer) → Type 0
ReceiveOutcome req out =
    ((req.chunk_size ≡ 0) × (out ≡ none))
    ⊎ ((m : Manager) × ((t : Transfer) × (((out ≡ some (m, t)) × (t.id ≡ req.transfer_id))
            × IsBegun req.size req.chunk_size transfer_active m t)))

-- A request to send a file is taken unless its chunk size is 0, which makes the host panic: the transfer
-- is then kept under the ID of the request as active, and its chunks are as many as it takes to reach
-- the end of the file.
pub initiate_receive_outcome :
    (join : String → String → String) (m : Manager) (req : FileRequest)
    → ReceiveOutcome req (initiate_receive join m req)
unfolding initiate_receive
initiate_receive_outcome join m req = go req.chunk_size refl
  where
    go : (c : ℕ) → c ≡ req.chunk_size → ReceiveOutcome req (initiate_receive join m req)
    go zero e = inl (sym e, rw (sym e, initiate_receive) refl)
    go (suc c) e =
        let t = receive_transfer join m req c in
        inr (
          record m { transfers = insert t.id t m.transfers },
          (
            t,
            (
              (rw (sym e, initiate_receive) refl, refl),
              record {
                kept = kept_new req.transfer_id t m.transfers;
                in_state = refl;
                chunk_is = ap pos e;
                chunks = λ i. rw (sym e) (total_exact req.size c i);
                none_yet = refl;
              },
            ),
          ),
        )
