-- ===== src/Transfer/Channel/Tests.antt =====
-- The theorems on the channels for files at concrete inputs.
use remotty.Base.{
  ℕ, zero, suc, ◌≡◌, refl, String, true, false, List, [], ◌∷◌, some, none, lookup, insert, arith,
  string_key, nat_beq, if◌then◌else◌, ==_apart, nat_key, ==_self,
}
use remotty.Base.Int.{pos}
use remotty.Base.Base64.{encode}
use remotty.Base.Text.{◌<>◌}
use remotty.Transfer.{Transfer, transfer_active, FileRequest, initiate_receive, cancel, complete}
use remotty.Transfer.Delivery.{IsComplete}
use remotty.Transfer.Channel.{
  FileEnv, FileChunk, file_chunk, file_complete, file_cancel, file_label, transfer_label, Channel,
  on_message, on_messages, reply, file_failed, set_transfer, on_request, on_file_chunk,
  on_transfer_chunk, file_request, close_transfer,
}
use remotty.Transfer.Channel.Encoded.{on_message-base64}
use remotty.Transfer.Channel.Upload.{upload_messages, IsUploaded, on_messages-IsUploaded}
use remotty.Transfer.Channel.Closed.{IsClosed}
use remotty.Transfer.Channel.Ended.{IsRefused, on_messages-ended}

abbrev digest : List ℕ → String
digest [] = "none"
digest (b ∷ bs) = if nat_beq b 97 then "low" else "high"

abbrev env : FileEnv
env = record {
  join = λ a b. a <> "/" <> b;
  digest = digest;
  makes_dir = true;
  opens = λ path. true;
}

abbrev idle : Channel
idle = record {
  manager = record { transfers = []; data_dir = "/data" };
  disk = [];
  replies = [];
  listening = true;
}

abbrev req : FileRequest
req = record { transfer_id = "tf-1"; name = "a"; size = 3; mime_type = ""; chunk_size = 2 }

abbrev source : List ℕ
source = 97 ∷ 98 ∷ 99 ∷ []

asked : IsComplete source 2 (1 ∷ 0 ∷ 1 ∷ [])
asked zero h = refl
asked (suc zero) h = refl
asked (suc (suc i)) h = absurd (omega (arith, h))

on_messages-IsUploaded_example :
    (out : Channel) × ((on_messages file_label env idle
          (upload_messages file_label env req source (1 ∷ 0 ∷ 1 ∷ []))
        ≡ some out)
      × IsUploaded "tf-1" ("/data" <> "/" <> "downloads" <> "/" <> "a") source 3 [] out)
unfolding lookup
on_messages-IsUploaded_example =
    on_messages-IsUploaded file_label env idle req source (1 ∷ 0 ∷ 1 ∷ []) refl refl refl refl
      (omega arith) (omega arith) asked

abbrev under_way : Transfer
under_way = record {
  id = "tf-1";
  name = "a";
  path = "/data/downloads/a";
  size = pos 3;
  mime_type = "";
  direction = "receive";
  state = transfer_active;
  chunk_size = pos 2;
  total_chunks = pos 2;
  received_chunks = 1;
  bytes_sent = 2;
}

abbrev busy : Channel
busy = record idle { manager = record { transfers = ("tf-1", under_way) ∷ []; data_dir = "/data" } }

there : lookup "tf-1" busy.manager.transfers ≡ some under_way
unfolding lookup
there = refl

abbrev readable : FileChunk
readable = record {
  transfer_id = "tf-1";
  index = pos 0;
  bytes = encode source;
  checksum = digest (encode source);
}

on_message-base64_example :
    on_message file_label env busy (file_chunk (some readable))
    ≡ some (
        reply
          (file_failed "tf-1" "write_failed")
          (record busy { manager = set_transfer "tf-1" under_way busy.manager }))
unfolding encode
on_message-base64_example =
    on_message-base64 env busy readable under_way source refl there refl (omega arith) refl refl
      (==_apart "high" "" refl) (==_apart "low" "high" refl)

abbrev late : FileChunk
late = record { transfer_id = "tf-1"; index = pos 1; bytes = 99 ∷ []; checksum = "" }

abbrev cancelled : Channel
cancelled = close_transfer complete "tf-1" (close_transfer cancel "tf-1" busy)

run :
    on_messages transfer_label env busy
      (file_cancel (some "tf-1") ∷ file_complete (some "tf-1") ∷ [])
    ≡ some cancelled
unfolding on_messages on_message close_transfer lookup insert
run = refl

on_messages-ended_example :
    IsClosed "tf-1" 1 2 cancelled.manager.transfers
    × ((later : Channel) × ((on_message transfer_label env cancelled (file_chunk (some late))
            ≡ some later)
          × IsRefused "tf-1" cancelled later))
on_messages-ended_example =
    on_messages-ended transfer_label env "tf-1" busy cancelled under_way (file_cancel (some "tf-1"))
      (file_complete (some "tf-1") ∷ []) late refl there (==_self {Key = String} "tf-1") (refl, tt)
      run refl

-- A request with chunks of size 0 makes the host panic.
zero_size_test :
    on_messages file_label env idle
      (upload_messages file_label env (record req { chunk_size = 0 }) source [])
    ≡ none
unfolding on_messages on_message on_request initiate_receive
zero_size_test = refl

-- Where the directory of downloads cannot be made, the request is refused.
no_directory_test :
    on_message file_label (record env { makes_dir = false }) idle (file_request (some req))
    ≡ some (reply (file_failed "tf-1" "init_failed") idle)
unfolding on_message on_request
no_directory_test = refl

-- A chunk of an unknown transfer is answered on the one channel only.
unknown_test :
    on_message file_label env idle (file_chunk (some late))
    ≡ some (reply (file_failed "tf-1" "unknown_transfer") idle)
unfolding on_message on_file_chunk lookup
unknown_test = refl

passed_over_test : on_message transfer_label env idle (file_chunk (some late)) ≡ some idle
unfolding on_message on_transfer_chunk lookup
passed_over_test = refl
