-- ===== src/Transfer/Bytes.antt =====
-- internal/transfer/transfer.go: what a read and a write at an offset do to the bytes of a file.
use remotty.Base.{
  ℕ, zero, suc, ◌+◌, ◌-◌, ◌≤◌, ◌<◌, ◌≡◌, refl, List, [], ◌∷◌, ◌++◌, none, length, get_elem?, arith,
  ap, ◌∙◌, ◌≢◌, some_inj,
}

unfoldable pub drop : ℕ → List ℕ → List ℕ
drop zero bs = bs
drop (suc n) [] = []
drop (suc n) (b ∷ bs) = drop n bs

unfoldable pub take : ℕ → List ℕ → List ℕ
take zero bs = []
take (suc n) [] = []
take (suc n) (b ∷ bs) = b ∷ take n bs

-- At most `n` bytes from the offset on.
unfoldable pub read_at : ℕ → ℕ → List ℕ → List ℕ
unfolding drop take
read_at offset n file = take n (drop offset file)

-- The bytes replace what stands at the offset; a gap before it is filled with zeros.
unfoldable pub put_at : ℕ → List ℕ → List ℕ → List ℕ
put_at zero bytes file = bytes ++ drop (length bytes) file
put_at (suc n) bytes [] = 0 ∷ put_at n bytes []
put_at (suc n) bytes (b ∷ bs) = b ∷ put_at n bytes bs

-- A write of nothing changes nothing.
unfoldable pub write_at : ℕ → List ℕ → List ℕ → List ℕ
unfolding put_at
write_at offset [] file = file
write_at offset (b ∷ bs) file = put_at offset (b ∷ bs) file

pub get_elem?-drop : (n : ℕ) (bs : List ℕ) (k : ℕ) → get_elem? (drop n bs) k ≡ get_elem? bs (n + k)
unfolding drop
get_elem?-drop zero bs k = ap (get_elem? bs) (omega arith)
get_elem?-drop (suc n) [] k = refl
get_elem?-drop (suc n) (b ∷ bs) k = get_elem?-drop n bs k ∙ ap (get_elem? (b ∷ bs)) (sum_suc n k)
  where
    sum_suc : (n k : ℕ) → suc (n + k) ≡ suc n + k
    sum_suc n k = omega arith

get_elem?-take : (n : ℕ) (bs : List ℕ) (k : ℕ) → k < n → get_elem? (take n bs) k ≡ get_elem? bs k
unfolding take
get_elem?-take zero bs k h = absurd (omega arith)
get_elem?-take (suc n) [] k h = refl
get_elem?-take (suc n) (b ∷ bs) zero h = refl
get_elem?-take (suc n) (b ∷ bs) (suc k) h = get_elem?-take n bs k (omega arith)

length-take : (n : ℕ) (bs : List ℕ) → (length (take n bs) ≤ n) × (length (take n bs) ≤ length bs)
unfolding take
length-take zero bs = (omega arith, omega arith)
length-take (suc n) [] = (omega arith, omega arith)
length-take (suc n) (b ∷ bs) =
    (omega (arith, (length-take n bs).0), omega (arith, (length-take n bs).1))

pub length-drop : (n : ℕ) (bs : List ℕ) → length (drop n bs) ≡ length bs - n
unfolding drop
length-drop zero bs = omega arith
length-drop (suc n) [] = omega arith
length-drop (suc n) (b ∷ bs) = omega (arith, length-drop n bs)

-- What is read at an offset is what stands in the file from there on.
pub get_elem?-read_at :
    (offset n : ℕ) (file : List ℕ) (k : ℕ)
    → k < n
    → get_elem? (read_at offset n file) k ≡ get_elem? file (offset + k)
unfolding read_at
get_elem?-read_at offset n file k h =
    get_elem?-take n (drop offset file) k h ∙ get_elem?-drop offset file k

pub length-read_at :
    (offset n : ℕ) (file : List ℕ)
    → (length (read_at offset n file) ≤ n) × (length (read_at offset n file) ≤ length file - offset)
unfolding read_at
length-read_at offset n file =
    let (few, inside) = length-take n (drop offset file) in
    (few, omega (arith, inside, length-drop offset file))

-- A byte that is there is before the end, and the other way round.
pub get_elem?-beyond : (bs : List ℕ) (k : ℕ) → length bs ≤ k → get_elem? bs k ≡ none
get_elem?-beyond [] k h = refl
get_elem?-beyond (b ∷ bs) zero h = absurd (omega arith)
get_elem?-beyond (b ∷ bs) (suc k) h = get_elem?-beyond bs k (omega arith)

pub get_elem?-inside : (bs : List ℕ) (k : ℕ) → k < length bs → get_elem? bs k ≢ none
get_elem?-inside [] k h = absurd (omega arith)
get_elem?-inside (b ∷ bs) zero h = λ e. cc
get_elem?-inside (b ∷ bs) (suc k) h = get_elem?-inside bs k (omega arith)

pub get_elem?-ext : (as' bs : List ℕ) → ((k : ℕ) → get_elem? as' k ≡ get_elem? bs k) → as' ≡ bs
get_elem?-ext [] [] h = refl
get_elem?-ext [] (b ∷ bs) h = absurd (cc (h 0))
get_elem?-ext (a ∷ as') [] h = absurd (cc (h 0))
get_elem?-ext (a ∷ as') (b ∷ bs) h = cc (some_inj a b (h 0), get_elem?-ext as' bs (λ k. h (suc k)))

pub get_elem?-append_left :
    (as' bs : List ℕ) (k : ℕ) → k < length as' → get_elem? (as' ++ bs) k ≡ get_elem? as' k
get_elem?-append_left [] bs k h = absurd (omega arith)
get_elem?-append_left (a ∷ as') bs zero h = refl
get_elem?-append_left (a ∷ as') bs (suc k) h = get_elem?-append_left as' bs k (omega arith)

pub get_elem?-append_right :
    (as' bs : List ℕ) (k : ℕ) → get_elem? (as' ++ bs) (length as' + k) ≡ get_elem? bs k
get_elem?-append_right [] bs k = ap (get_elem? bs) (omega arith)
get_elem?-append_right (a ∷ as') bs k =
    let e : length (a ∷ as') + k ≡ suc (length as' + k) = omega arith in
    ap (get_elem? (a ∷ (as' ++ bs))) e ∙ get_elem?-append_right as' bs k
