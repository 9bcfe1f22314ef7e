-- ===== src/Transfer/Tests.antt =====
-- The theorems on file transfer at concrete inputs.
use remotty.Base.{ℕ, zero, suc, ◌≡◌, refl, String, List, [], ◌∷◌, lookup, insert, arith, nat_key}
use remotty.Base.Int.{pos}
use remotty.Base.Text.{◌<>◌, decimal}
use remotty.Transfer.{
  Transfer, transfer_active, transfer_pending, Manager, FileRequest, Disk, content, read_chunk,
  write_chunk, put_chunk,
}
use remotty.Transfer.Bytes.{read_at, write_at, put_at, drop, take}
use remotty.Transfer.Delivery.{deliver, IsReady, IsComplete, deliver-content}

abbrev digest : List ℕ → String
digest [] = "empty"
digest (b ∷ bs) = decimal b

abbrev source : List ℕ
source = 1 ∷ 2 ∷ 3 ∷ 4 ∷ 5 ∷ []

abbrev sender : Transfer
sender = record {
  id = "tf-1";
  name = "a";
  path = "/a";
  size = pos 5;
  mime_type = "";
  direction = "send";
  state = transfer_pending;
  chunk_size = pos 2;
  total_chunks = pos 3;
  received_chunks = 0;
  bytes_sent = 0;
}

abbrev receiver : Transfer
receiver = record sender { path = "/b"; direction = "receive"; state = transfer_active }

abbrev sent : Disk
sent = ("/a", source) ∷ []

ready : IsReady sender receiver sent source 2
unfolding lookup
ready = record {
  file_there = refl;
  sender_runs = refl;
  receiver_runs = refl;
  sender_size = refl;
  receiver_size = refl;
}

all_asked : IsComplete source 2 (2 ∷ 0 ∷ 2 ∷ 1 ∷ [])
all_asked zero h = refl
all_asked (suc zero) h = refl
all_asked (suc (suc zero)) h = refl
all_asked (suc (suc (suc i))) h = absurd (omega (arith, h))

deliver-content_example :
    content (deliver digest sender sent (2 ∷ 0 ∷ 2 ∷ 1 ∷ []) receiver []).1 "/b" ≡ source
unfolding lookup
deliver-content_example =
    (deliver-content digest sender receiver sent [] source 2 (2 ∷ 0 ∷ 2 ∷ 1 ∷ []) ready
      (omega arith) refl all_asked).0

gap_test : content (deliver digest sender sent (2 ∷ []) receiver []).1 "/b" ≡ 0 ∷ 0 ∷ 0 ∷ 0 ∷ 5 ∷ []
unfolding deliver read_chunk write_chunk put_chunk read_at write_at put_at drop take lookup insert
    decimal
gap_test = refl

abbrev manager : Manager
manager = record { transfers = []; data_dir = "/data" }

abbrev wanted : FileRequest
wanted = record { transfer_id = "tf-2"; name = "b"; size = 5; mime_type = ""; chunk_size = 2 }

abbrev joined : String → String → String
joined a b = a <> "/" <> b
