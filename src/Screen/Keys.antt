-- ===== src/Screen/Keys.antt =====
-- internal/screen/input_darwin.go, `StringToKeyCode` and the table of key codes, and the keys that
-- internal/host/daemon.go presses for the characters of a message.
use remotty.Base.{
  ℕ, zero, suc, ◌+◌, ◌-◌, ◌≡◌, refl, ◌≢◌, Bool, true, false, ◌&&◌, not, List, [], ◌∷◌, some, ◌==◌,
  nat_key, if◌then◌else◌, leb, get_elem?, arith, some_inj, true≢false, sym,
}

-- The keys of the inner `switch`, by the code of the character.
unfoldable pub other_keys : List (ℕ × ℕ)
other_keys =
    (32, 0x31)
    ∷ (10, 0x24)
    ∷ (13, 0x24)
    ∷ (9, 0x30)
    ∷ (46, 0x2f)
    ∷ (44, 0x2b)
    ∷ (45, 0x1b)
    ∷ (61, 0x18)
    ∷ (47, 0x2c)
    ∷ (59, 0x29)
    ∷ (39, 0x27)
    ∷ (91, 0x21)
    ∷ (93, 0x1e)
    ∷ (92, 0x2a)
    ∷ (96, 0x32)
    ∷ []

abbrev pub key_among : List (ℕ × ℕ) → ℕ → ℕ
key_among [] c = 0
key_among ((k, code) ∷ ks) c = if k == c then code else key_among ks c

-- `StringToKeyCode`, of the bytes of a text.
unfoldable pub string_to_key_code : List ℕ → ℕ
unfolding other_keys
string_to_key_code [] = 0
string_to_key_code (c ∷ cs) =
    if leb 97 c && leb c 122
    then c - 97
    else (if leb 65 c && leb c 90
        then c - 65
        else (if leb 48 c && leb c 57 then 0x1d + (c - 48) else key_among other_keys c))

-- kVK_ANSI_A to kVK_ANSI_Z, in the order of the alphabet.
unfoldable pub letter_keys : List ℕ
letter_keys =
    0x00 ∷ 0x0b ∷ 0x08 ∷ 0x02 ∷ 0x0e ∷ 0x03 ∷ 0x05 ∷ 0x04 ∷ 0x22 ∷ 0x26 ∷ 0x28 ∷ 0x25 ∷ 0x2e ∷ 0x2d
    ∷ 0x1f ∷ 0x23 ∷ 0x0c ∷ 0x0f ∷ 0x01 ∷ 0x11 ∷ 0x20 ∷ 0x09 ∷ 0x0d ∷ 0x07 ∷ 0x10 ∷ 0x06 ∷ []

-- The loop over `payload.Chars`, of characters of one byte: a code of 0 is not pressed.
unfoldable pub pressed : List ℕ → List ℕ
unfolding string_to_key_code
pressed [] = []
pressed (c ∷ cs) =
    let rest = pressed cs in
    let code = string_to_key_code (c ∷ []) in if code == 0 then rest else code ∷ rest

-- The characters from `c` on press the keys of the list.
abbrev is_pressed : ℕ → ℕ → Bool
is_pressed c key = let code = string_to_key_code (c ∷ []) in not (code == 0) && code == key

abbrev none_pressed : ℕ → List ℕ → Bool
none_pressed c [] = true
none_pressed c (k ∷ ks) = not (is_pressed c k) && none_pressed (suc c) ks

pressed_is : (c key : ℕ) → pressed (c ∷ []) ≡ key ∷ [] → is_pressed c key ≡ true
unfolding pressed
pressed_is c key h = ground (arith, h)

none_pressed_at :
    (c : ℕ) (keys : List ℕ) (i key : ℕ)
    → none_pressed c keys ≡ true
    → get_elem? keys i ≡ some key
    → is_pressed (c + i) key ≡ false
none_pressed_at c [] i key h e = absurd (cc)
none_pressed_at c (k ∷ ks) zero key h e =
    let here : c + 0 ≡ c = omega arith in rw (here, sym (some_inj k key e)) (ground (arith, h))
none_pressed_at c (k ∷ ks) (suc i) key h e =
    let later : c + suc i ≡ suc c + i = omega arith in
    rw later (none_pressed_at (suc c) ks i key (ground (arith, h)) e)

-- A table of keys for the characters from `c` on, none of which is pressed for its character.
none_pressed-typed :
    (c : ℕ) (keys : List ℕ) (i key : ℕ)
    → none_pressed c keys ≡ true
    → get_elem? keys i ≡ some key
    → pressed ((c + i) ∷ []) ≢ key ∷ []
none_pressed-typed c keys i key h e p =
    true≢false (pressed_is (c + i) key p) (none_pressed_at c keys i key h e)

letters_checked : (none_pressed 97 letter_keys ≡ true) × (none_pressed 65 letter_keys ≡ true)
unfolding letter_keys string_to_key_code
letters_checked = (refl, refl)

-- No letter presses its key: for a letter, small or capital, that the table of key codes gives a key,
-- the keys that are pressed for it are not that one key.
pub letters_misplaced :
    (i key : ℕ)
    → get_elem? letter_keys i ≡ some key
    → (pressed ((97 + i) ∷ []) ≢ key ∷ []) × (pressed ((65 + i) ∷ []) ≢ key ∷ [])
letters_misplaced i key e = (
  none_pressed-typed 97 letter_keys i key letters_checked.0 e,
  none_pressed-typed 65 letter_keys i key letters_checked.1 e,
)
