-- ===== src/Transfer/Writing.antt =====
-- internal/transfer/transfer.go: what a write leaves of the bytes of a file.
use remotty.Base.{
  ℕ, zero, suc, ◌+◌, ◌-◌, ◌≤◌, ◌<◌, ◌≡◌, List, [], ◌∷◌, ◌++◌, some, length, get_elem?, arith, ap,
  ◌∙◌, sym, length-append, ◌⊎◌, inl, inr,
}
use remotty.Transfer.Bytes.{
  drop, put_at, write_at, get_elem?-drop, length-drop, get_elem?-append_left,
  get_elem?-append_right,
}

length-put_at :
    (offset : ℕ) (bytes file : List ℕ) (n : ℕ)
    → length file ≤ n
    → offset + length bytes ≤ n
    → length (put_at offset bytes file) ≤ n
unfolding put_at
length-put_at zero bytes file n h k =
    omega (arith, length-append bytes (drop (length bytes) file), length-drop (length bytes) file)
length-put_at (suc offset) bytes [] zero h k = absurd (omega arith)
length-put_at (suc offset) bytes [] (suc n) h k =
    omega (arith, length-put_at offset bytes [] n (omega arith) (omega arith))
length-put_at (suc offset) bytes (b ∷ bs) zero h k = absurd (omega arith)
length-put_at (suc offset) bytes (b ∷ bs) (suc n) h k =
    omega (arith, length-put_at offset bytes bs n (omega arith) (omega arith))

-- The bytes written stand at their offset.
put_at-puts :
    (offset : ℕ) (bytes file : List ℕ) (k : ℕ)
    → k < length bytes
    → get_elem? (put_at offset bytes file) (offset + k) ≡ get_elem? bytes k
unfolding put_at
put_at-puts zero bytes file k h =
    let e : 0 + k ≡ k = omega arith in
    ap (get_elem? (bytes ++ drop (length bytes) file)) e
    ∙ get_elem?-append_left bytes (drop (length bytes) file) k h
put_at-puts (suc offset) bytes [] k h =
    let e : suc offset + k ≡ suc (offset + k) = omega arith in
    ap (get_elem? (0 ∷ put_at offset bytes [])) e ∙ put_at-puts offset bytes [] k h
put_at-puts (suc offset) bytes (b ∷ bs) k h =
    let e : suc offset + k ≡ suc (offset + k) = omega arith in
    ap (get_elem? (b ∷ put_at offset bytes bs)) e ∙ put_at-puts offset bytes bs k h

-- A byte that is there, outside what is written, stays.
put_at-keeps :
    (offset : ℕ) (bytes file : List ℕ) (k v : ℕ)
    → get_elem? file k ≡ some v
    → (k < offset) ⊎ (offset + length bytes ≤ k)
    → get_elem? (put_at offset bytes file) k ≡ some v
unfolding put_at
put_at-keeps zero bytes file k v e (inl h) = absurd (omega arith)
put_at-keeps zero bytes file k v e (inr h) =
    let n = length bytes in
    let split : k ≡ n + (k - n) = omega (arith, h) in
    ap (get_elem? (bytes ++ drop n file)) split
    ∙ get_elem?-append_right bytes (drop n file) (k - n)
    ∙ get_elem?-drop n file (k - n)
    ∙ ap (get_elem? file) (sym split)
    ∙ e
put_at-keeps (suc offset) bytes [] k v e h = absurd (cc)
put_at-keeps (suc offset) bytes (b ∷ bs) zero v e h = e
put_at-keeps (suc offset) bytes (b ∷ bs) (suc k) v e (inl h) =
    put_at-keeps offset bytes bs k v e (inl (omega arith))
put_at-keeps (suc offset) bytes (b ∷ bs) (suc k) v e (inr h) =
    put_at-keeps offset bytes bs k v e (inr (omega arith))

pub length-write_at :
    (offset : ℕ) (bytes file : List ℕ) (n : ℕ)
    → length file ≤ n
    → (1 ≤ length bytes → offset + length bytes ≤ n)
    → length (write_at offset bytes file) ≤ n
unfolding write_at
length-write_at offset [] file n h k = h
length-write_at offset (b ∷ bs) file n h k =
    length-put_at offset (b ∷ bs) file n h (k (omega arith))

pub write_at-puts :
    (offset : ℕ) (bytes file : List ℕ) (k : ℕ)
    → k < length bytes
    → get_elem? (write_at offset bytes file) (offset + k) ≡ get_elem? bytes k
unfolding write_at
write_at-puts offset [] file k h = absurd (omega arith)
write_at-puts offset (b ∷ bs) file k h = put_at-puts offset (b ∷ bs) file k h

pub write_at-keeps :
    (offset : ℕ) (bytes file : List ℕ) (k v : ℕ)
    → get_elem? file k ≡ some v
    → (k < offset) ⊎ (offset + length bytes ≤ k)
    → get_elem? (write_at offset bytes file) k ≡ some v
unfolding write_at
write_at-keeps offset [] file k v e h = e
write_at-keeps offset (b ∷ bs) file k v e h = put_at-keeps offset (b ∷ bs) file k v e h
