-- ===== src/Transfer.antt =====
-- internal/transfer/transfer.go: the chunks of a file, written and read at their offsets.
-- The files of a host are an association list from paths to bytes. The hash of a chunk, the joining of
-- paths and whether the system opens, writes and reads a file are arguments; a write that fails writes
-- nothing.
pub mod Bytes
pub mod Writing
pub mod Delivery
pub mod Requests
pub mod Channel
mod Tests
use remotty.Base.{
  ℕ, zero, suc, ◌+◌, ◌*◌, ◌/◌, String, Bool, true, false, ◌&&◌, ◌||◌, not, List, [], ◌∷◌, ◌++◌,
  Option, none, some, ◌==◌, string_key, if◌then◌else◌, lookup, insert, length, ltb,
}
use remotty.Base.Int.{ℤ, pos, negsuc, ◌+ℤ◌, ◌-ℤ◌, pos_part, neg_part, sub_ℕ, ltb_ℤ}
use remotty.Base.Text.{◌<>◌, decimal}
use remotty.Transfer.Bytes.{read_at, write_at}

abbrev pub default_chunk_size : ℕ
default_chunk_size = 65536

pub data TransferState : Type 0 where
  transfer_pending transfer_active transfer_paused : TransferState
  transfer_complete transfer_failed transfer_cancelled : TransferState

pub record Transfer : Type 0 where
  pub id : String
  pub name : String
  pub path : String
  pub size : ℤ
  pub mime_type : String
  pub direction : String
  pub state : TransferState
  pub chunk_size : ℤ
  pub total_chunks : ℤ
  pub received_chunks : ℕ
  pub bytes_sent : ℕ

pub record Manager : Type 0 where
  pub transfers : List (String × Transfer)
  pub data_dir : String

abbrev pub Disk : Type 0
Disk = List (String × List ℕ)

-- `a * b` on whole numbers.
abbrev pub mul_ℤ : ℤ → ℤ → ℤ
mul_ℤ a b =
    sub_ℕ (pos_part a * pos_part b + neg_part a * neg_part b)
      (pos_part a * neg_part b + neg_part a * pos_part b)

abbrev pub transfer_id_at : ℕ → String
transfer_id_at now = "tf-" <> decimal now

-- `InitiateSend`, for a file whose size the system tells; `base` is the last part of the path.
unfoldable pub initiate_send :
    Manager → String → String → Option ℕ → ℕ → Option (Manager × Transfer)
initiate_send m path base none now = none
initiate_send m path base (some size) now =
    let t : Transfer = record {
      id = transfer_id_at now;
      name = base;
      path = path;
      size = pos size;
      mime_type = "";
      direction = "send";
      state = transfer_pending;
      chunk_size = pos default_chunk_size;
      total_chunks = pos ((size + 65535) / default_chunk_size);
      received_chunks = 0;
      bytes_sent = 0;
    } in
    some (record m { transfers = insert t.id t m.transfers }, t)

pub record FileRequest : Type 0 where
  pub transfer_id : String
  pub name : String
  pub size : ℕ
  pub mime_type : String
  pub chunk_size : ℕ

-- The transfer that a request begins, for a chunk size that is one more than `c`.
abbrev pub receive_transfer : (String → String → String) → Manager → FileRequest → ℕ → Transfer
receive_transfer join m req c = record {
  id = req.transfer_id;
  name = req.name;
  path = join (join m.data_dir "downloads") req.name;
  size = pos req.size;
  mime_type = req.mime_type;
  direction = "receive";
  state = transfer_active;
  chunk_size = pos (suc c);
  total_chunks = pos ((req.size + c) / suc c);
  received_chunks = 0;
  bytes_sent = 0;
}

-- `InitiateReceive`, of a request with sizes that are not negative, in a directory that can be made.
-- `none` is the panic of a division by 0.
unfoldable pub initiate_receive :
    (String → String → String) → Manager → FileRequest → Option (Manager × Transfer)
initiate_receive join m req = elim req.chunk_size [
  | zero ↦ none
  | suc c ↦
      let t = receive_transfer join m req c in
      some (record m { transfers = insert t.id t m.transfers }, t)
]

pub data TransferError : Type 0 where
  not_active checksum_mismatch cancelled io_error : TransferError

abbrev pub is_active : TransferState → Bool
is_active transfer_active = true
is_active _ = false

abbrev pub is_cancelled : TransferState → Bool
is_cancelled transfer_cancelled = true
is_cancelled _ = false

abbrev pub content : Disk → String → List ℕ
content disk path = elim (lookup path disk) [ none ↦ [] | some bytes ↦ bytes ]

-- What a call of `WriteChunk` leaves.
pub record Written : Type 0 where
  pub transfer : Transfer
  pub disk : Disk
  pub error : Option TransferError

abbrev pub failed : Transfer → Disk → TransferError → Written
failed t disk e = record { transfer = t; disk = disk; error = some e }

-- The end of `WriteChunk`: the file is opened (and made, if there is none), then the seek and the write.
unfoldable pub put_chunk : Transfer → Disk → ℤ → List ℕ → Written
put_chunk t disk offset bytes = elim offset [
  | negsuc n ↦ failed t (insert t.path (content disk t.path) disk) io_error
  | pos n ↦ record {
    transfer = record t {
      received_chunks = suc t.received_chunks;
      bytes_sent = t.bytes_sent + length bytes;
    };
    disk = insert t.path (write_at n bytes (content disk t.path)) disk;
    error = none;
  }
]

unfoldable pub write_chunk :
    (List ℕ → String) → Bool → Transfer → Disk → ℤ → List ℕ → String → Written
unfolding put_chunk
write_chunk digest opens t disk index bytes checksum =
    if not (is_active t.state)
    then failed t disk not_active
    else (if not (checksum == "") && not (digest bytes == checksum)
        then failed t disk checksum_mismatch
        else (if opens
            then put_chunk t disk (mul_ℤ index t.chunk_size) bytes
            else failed t disk io_error))

-- `ReadChunk`, at an index and of a size that are not negative: the bytes and their hash.
unfoldable pub read_chunk :
    (List ℕ → String) → Bool → Transfer → Disk → ℕ → Option (List ℕ × String)
read_chunk digest opens t disk index =
    if is_cancelled t.state || not opens then none else elim (lookup t.path disk) [
      | none ↦ none
      | some file ↦
          let bytes = read_at (index * pos_part t.chunk_size) (pos_part t.chunk_size) file in
          some (bytes, digest bytes)
    ]

abbrev pub complete : Transfer → Transfer
complete t = record t { state = transfer_complete }

abbrev pub cancel : Transfer → Transfer
cancel t = record t { state = transfer_cancelled }
