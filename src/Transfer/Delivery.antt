-- ===== src/Transfer/Delivery.antt =====
-- internal/transfer/transfer.go: a file whose chunks are read on one side and written on the other.
use native.Mathlib.Nat.{mod-lt, div-add-mod, mul_comm}
use remotty.Base.{
  ℕ, suc, ◌+◌, ◌-◌, ◌*◌, ◌/◌, ◌≤◌, ◌<◌, ◌≡◌, refl, ◌⊎◌, inl, inr, String, Bool, true, false, ◌&&◌,
  List, [], ◌∷◌, none, some, ◌==◌, string_key, nat_key, ltb, leb, length, get_elem?, any, lookup,
  insert, arith, ap, ◌∙◌, sym, Bool-cases, Option-cases, ==_iff, ==_self, lookup-insert,
}
use remotty.Base.Int.{pos}
use remotty.Transfer.{
  Transfer, is_active, is_cancelled, Disk, content, write_chunk, put_chunk, read_chunk, mul_ℤ,
}
use remotty.Transfer.Bytes.{
  read_at, write_at, get_elem?-read_at, length-read_at, get_elem?-beyond, get_elem?-inside,
  get_elem?-ext,
}
use remotty.Transfer.Writing.{length-write_at, write_at-puts, write_at-keeps}

-- The chunk `i` of size `c` holds the byte `k`.
abbrev pub covers : ℕ → ℕ → ℕ → Bool
covers c k i = leb (i * c) k && ltb k (i * c + c)

-- Where the chunks `done` are written, the file is as the source.
pub record Agrees (src : List ℕ) (c : ℕ) (done : List ℕ) (file : List ℕ) : Type 0 where
  pub no_longer : length file ≤ length src
  pub same :
      (k : ℕ) → k < length src → any (covers c k) done ≡ true → get_elem? file k ≡ get_elem? src k

chunk-inside :
    (src : List ℕ) (offset c j : ℕ)
    → j < c
    → offset + j < length src
    → j < length (read_at offset c src)
chunk-inside src offset c j h k = elim (Bool-cases (ltb j (length (read_at offset c src)))) [
  | inl inside ↦ ground (arith, inside)
  | inr outside ↦
      let gone = get_elem?-beyond (read_at offset c src) j (ground (arith, outside)) in
      absurd (get_elem?-inside src (offset + j) k (sym (get_elem?-read_at offset c src j h) ∙ gone))
]

-- One more chunk.
pub step-Agrees :
    (src : List ℕ) (c i : ℕ) (done file : List ℕ)
    → Agrees src c done file
    → Agrees src c (i ∷ done) (write_at (i * c) (read_at (i * c) c src) file)
step-Agrees src c i done file v = record {
  no_longer =
      let (few, inside) = length-read_at (i * c) c src in
      length-write_at (i * c) (read_at (i * c) c src) file (length src) v.no_longer
        (λ h. omega (arith, inside));
  same = λ k h covered. elim (Bool-cases (covers c k i)) [
    | inl here ↦
        let j = k - i * c in
        let split : k ≡ i * c + j = ground (arith, here) in
        let short : j < c = ground (arith, here) in
        let inside = chunk-inside src (i * c) c j short (omega (arith, split, h)) in
        ap (get_elem? (write_at (i * c) (read_at (i * c) c src) file)) split
        ∙ write_at-puts (i * c) (read_at (i * c) c src) file j inside
        ∙ get_elem?-read_at (i * c) c src j short
        ∙ ap (get_elem? src) (sym split)
    | inr elsewhere ↦
        let before : any (covers c k) done ≡ true = ground (arith, covered, elsewhere) in
        let outside : (k < i * c) ⊎ (i * c + length (read_at (i * c) c src) ≤ k) =
          ground (arith, elsewhere, length-read_at (i * c) c src) in
        elim (Option-cases (get_elem? src k)) [
          | inl gone ↦ absurd (get_elem?-inside src k h gone)
          | inr (v', e) ↦
              write_at-keeps (i * c) (read_at (i * c) c src) file k v' (v.same k h before ∙ e)
                outside
              ∙ sym e
        ]
  ];
}

-- The chunks are asked of the sender in the order given, and each is written as it comes.
unfoldable pub deliver :
    (List ℕ → String) → Transfer → Disk → List ℕ → Transfer → Disk → Transfer × Disk
deliver digest from sent [] to disk = (to, disk)
deliver digest from sent (i ∷ order) to disk = elim (read_chunk digest true from sent i) [
  | none ↦ (to, disk)
  | some (bytes, checksum) ↦
      let w = write_chunk digest true to disk (pos i) bytes checksum in
      deliver digest from sent order w.transfer w.disk
]

-- A sender of a file, and a receiver that is active, with chunks of one size.
pub record IsReady (from to : Transfer) (sent : Disk) (src : List ℕ) (c : ℕ) : Type 0 where
  pub file_there : lookup from.path sent ≡ some src
  pub sender_runs : is_cancelled from.state ≡ false
  pub receiver_runs : is_active to.state ≡ true
  pub sender_size : from.chunk_size ≡ pos c
  pub receiver_size : to.chunk_size ≡ pos c

mul_pos : (i c : ℕ) → mul_ℤ (pos i) (pos c) ≡ pos (i * c)
mul_pos i c = ground arith

read_ready :
    (digest : List ℕ → String) (from to : Transfer) (sent : Disk) (src : List ℕ) (c i : ℕ)
    → IsReady from to sent src c
    → read_chunk digest true from sent i
      ≡ some (read_at (i * c) c src, digest (read_at (i * c) c src))
unfolding read_chunk
read_ready digest from to sent src c i w =
    rw (w.sender_runs, w.file_there, w.sender_size, read_chunk) refl

-- What a chunk that comes in order leaves.
abbrev pub received : Transfer → List ℕ → Transfer
received to bytes = record to {
  received_chunks = suc to.received_chunks;
  bytes_sent = to.bytes_sent + length bytes;
}

-- A chunk with its hash, for a transfer that is active.
pub write_active :
    (digest : List ℕ → String) (to : Transfer) (disk : Disk) (bytes : List ℕ) (c i : ℕ)
    → is_active to.state ≡ true
    → to.chunk_size ≡ pos c
    → write_chunk digest true to disk (pos i) bytes (digest bytes) ≡ record {
      transfer = received to bytes;
      disk = insert to.path (write_at (i * c) bytes (content disk to.path)) disk;
      error = none;
    }
unfolding write_chunk put_chunk
write_active digest to disk bytes c i runs size =
    let own = ==_self (digest bytes) in
    rw (runs, own, size, mul_pos i c, write_chunk) (ground arith)

pub content-insert :
    (path : String) (file : List ℕ) (disk : Disk) → content (insert path file disk) path ≡ file
content-insert path file disk =
    let found : lookup path (insert path file disk) ≡ some file =
      ground (arith, lookup-insert path path file disk, ==_self path) in
    rw (found, content) refl

received-IsReady :
    (from to : Transfer) (sent : Disk) (src bytes : List ℕ) (c : ℕ)
    → IsReady from to sent src c
    → IsReady from (received to bytes) sent src c
received-IsReady from to sent src bytes c w = record {
  file_there = w.file_there;
  sender_runs = w.sender_runs;
  receiver_runs = w.receiver_runs;
  sender_size = w.sender_size;
  receiver_size = w.receiver_size;
}

-- The chunks that are written, the last first.
unfoldable pub gather : List ℕ → List ℕ → List ℕ
gather [] done = done
gather (i ∷ order) done = gather order (i ∷ done)

any-gather :
    (p : ℕ → Bool) (order done : List ℕ)
    → (any p order ≡ true) ⊎ (any p done ≡ true)
    → any p (gather order done) ≡ true
unfolding gather
any-gather p [] done h = ground (arith, h)
any-gather p (i ∷ order) done h =
    any-gather p order (i ∷ done)
      (elim (Bool-cases (p i)) [ inl yes' ↦ inr (rw yes' refl) | inr no' ↦ ground (arith, h, no') ])

-- How a delivery leaves the receiver.
record IsDelivered (src : List ℕ) (c : ℕ) (done : List ℕ) (to : Transfer) (n : ℕ)
    (out : Transfer × Disk) : Type 0 where
  agrees : Agrees src c done (content out.1 to.path)
  counted : out.0.received_chunks ≡ to.received_chunks + n

deliver-IsDelivered :
    (digest : List ℕ → String) (from : Transfer) (sent : Disk) (src : List ℕ) (c : ℕ)
    (order : List ℕ) (to : Transfer) (disk : Disk) (done : List ℕ)
    → IsReady from to sent src c
    → Agrees src c done (content disk to.path)
    → IsDelivered src c
        (gather order done)
        to
        (length order)
        (deliver digest from sent order to disk)
unfolding deliver gather
deliver-IsDelivered digest from sent src c [] to disk done w v = record {
  agrees = v;
  counted = omega arith;
}
deliver-IsDelivered digest from sent src c (i ∷ order) to disk done w v =
    let bytes = read_at (i * c) c src in
    let file = write_at (i * c) bytes (content disk to.path) in
    let rest =
      deliver-IsDelivered digest from sent src c order (received to bytes)
        (insert to.path file disk) (i ∷ done) (received-IsReady from to sent src bytes c w)
        (rw (content-insert to.path file disk)
          (step-Agrees src c i done (content disk to.path) v)) in
    rw
      (
        read_ready digest from to sent src c i w,
        write_active digest to disk bytes c i w.receiver_runs w.receiver_size,
        deliver,
      )
      (record { agrees = rest.agrees; counted = omega (arith, rest.counted) })

-- Every chunk of the source is in the order.
abbrev pub IsComplete : List ℕ → ℕ → List ℕ → Type 0
IsComplete src c order = (i : ℕ) → i * c < length src → any (λ j. j == i) order ≡ true

covers_own : (c k i : ℕ) → 1 ≤ c → i ≡ k / c → covers c k i ≡ true
covers_own c k i p e =
    let split = div-add-mod k c in
    let small = mod-lt k p in
    let same : i * c ≡ c * (k / c) = ap (λ (q : ℕ). q * c) e ∙ mul_comm (k / c) c in
    ground (arith, split, small, same)

any_weaken :
    (p q : ℕ → Bool) (order : List ℕ)
    → ((i : ℕ) → p i ≡ true → q i ≡ true)
    → any p order ≡ true
    → any q order ≡ true
any_weaken p q [] h e = e
any_weaken p q (i ∷ order) h e = elim (Bool-cases (p i)) [
  | inl yes' ↦ rw (h i yes') refl
  | inr no' ↦ ground (arith, any_weaken p q order h, e, no')
]

-- With every chunk written the file is the source.
pub Agrees-all :
    (src : List ℕ) (c : ℕ) (order file : List ℕ)
    → 1 ≤ c
    → IsComplete src c order
    → Agrees src c (gather order []) file
    → file ≡ src
Agrees-all src c order file p complete v = get_elem?-ext file src (λ k.
    elim (Bool-cases (ltb k (length src))) [
      | inl inside ↦
          let i = k / c in
          let first : i * c ≤ k = ground (arith, covers_own c k i p refl) in
          let asked = complete i (ground (arith, inside, first)) in
          v.same k (ground (arith, inside)) (
            any-gather (covers c k) order [] (
              inl (
                any_weaken (λ j. j == i) (covers c k) order
                  (λ j e. covers_own c k j p ((==_iff j i).0 e)) asked)))
      | inr outside ↦
          get_elem?-beyond file k (ground (arith, outside, v.no_longer))
          ∙ sym (get_elem?-beyond src k (ground (arith, outside)))
    ])

pub start-Agrees : (src : List ℕ) (c : ℕ) → Agrees src c [] []
start-Agrees src c = record { no_longer = omega arith; same = λ k h covered. absurd (cc) }

-- Whatever the order in which the chunks of a file are asked for and written, and however often, the
-- receiver ends with the file of the sender, if every chunk is asked for at least once: the sender has
-- the file and is not cancelled, the receiver is active and has no file at its path yet, both have the
-- same positive chunk size, and the files can be opened. Each chunk that came is counted.
pub deliver-content :
    (digest : List ℕ → String) (from to : Transfer) (sent disk : Disk) (src : List ℕ) (c : ℕ)
    (order : List ℕ)
    → IsReady from to sent src c
    → 1 ≤ c
    → lookup to.path disk ≡ none
    → IsComplete src c order
    → let out = deliver digest from sent order to disk in
      (content out.1 to.path ≡ src) × (out.0.received_chunks ≡ to.received_chunks + length order)
deliver-content digest from to sent disk src c order w p fresh complete =
    let start : Agrees src c [] (content disk to.path) = rw (fresh, content) (start-Agrees src c) in
    let done = deliver-IsDelivered digest from sent src c order to disk [] w start in
    (Agrees-all src c order _ p complete done.agrees, done.counted)
