-- ===== src/Base/Base64.antt =====
-- Go's encoding/base64, StdEncoding, on bytes.
use Prim.Native.Nat.{ℕ, ◌+◌, ◌-◌, ◌*◌, ◌/◌, ◌%◌, ◌<◌}
use mathlib.Core.Path.{◌≡◌, refl, ap, ◌∙◌}
use mathlib.Core.Bool.{Bool, true, false, ◌&&◌, ◌||◌}
use mathlib.Core.Option.{Option, none, some}
use mathlib.Core.List.{List, [], ◌∷◌}
use native.Mathlib.Omega.{arith}
use remotty.Base.Tests.{ltb, leb, nat_beq, if◌then◌else◌}
use remotty.Base.Lists.{All}

-- The character of six bits, and the six bits of a character; 64 stands for no such character.
abbrev pub char_of : ℕ → ℕ
char_of v =
    if ltb v 26
    then 65 + v
    else (if ltb v 52 then 71 + v else (if ltb v 62 then v - 4 else (if ltb v 63 then 43 else 47)))

abbrev pub six_bits : ℕ → ℕ
six_bits c =
    if leb 65 c && leb c 90
    then c - 65
    else (if leb 97 c && leb c 122
        then c - 71
        else (if leb 48 c && leb c 57
            then c + 4
            else (if nat_beq c 43 then 62 else (if nat_beq c 47 then 63 else 64))))

abbrev pub is_char : ℕ → Bool
is_char c = ltb (six_bits c) 64

-- `EncodeToString`.
unfoldable pub encode : List ℕ → List ℕ
encode [] = []
encode (a ∷ []) = char_of (a / 4) ∷ char_of (a % 4 * 16) ∷ 61 ∷ 61 ∷ []
encode (a ∷ b ∷ []) =
    char_of (a / 4) ∷ char_of (a % 4 * 16 + b / 16) ∷ char_of (b % 16 * 4) ∷ 61 ∷ []
encode (a ∷ b ∷ c ∷ bs) =
    let rest = encode bs in
    char_of (a / 4)
    ∷ char_of (a % 4 * 16 + b / 16)
    ∷ char_of (b % 16 * 4 + c / 64)
    ∷ char_of (c % 64)
    ∷ rest

abbrev add_three : ℕ → ℕ → ℕ → Option (List ℕ) → Option (List ℕ)
add_three a b c none = none
add_three a b c (some bs) = some (a ∷ b ∷ c ∷ bs)

-- The decoding of text without line breaks: groups of four, padded only at the end.
unfoldable pub decode_groups : List ℕ → Option (List ℕ)
decode_groups [] = some []
decode_groups (w ∷ x ∷ y ∷ z ∷ cs) =
    let rest = decode_groups cs in
    let a = six_bits w * 4 + six_bits x / 16 in
    let b = six_bits x % 16 * 16 + six_bits y / 4 in
    let c = six_bits y % 4 * 64 + six_bits z in
    if is_char w && is_char x
    then (if is_char y && is_char z then add_three a b c rest else (elim cs [
      | [] ↦
          if is_char y && nat_beq z 61
          then some (a ∷ b ∷ [])
          else (if nat_beq y 61 && nat_beq z 61 then some (a ∷ []) else none)
      | c' ∷ cs' ↦ none
    ]))
    else none
decode_groups _ = none

-- `DecodeString` passes over carriage returns and line feeds.
unfoldable pub without_breaks : List ℕ → List ℕ
without_breaks [] = []
without_breaks (c ∷ cs) =
    let rest = without_breaks cs in if nat_beq c 10 || nat_beq c 13 then rest else c ∷ rest

unfoldable pub decode : List ℕ → Option (List ℕ)
unfolding without_breaks decode_groups
decode cs = decode_groups (without_breaks cs)

-- Bytes are below 256.
abbrev pub AreBytes : List ℕ → Type 0
AreBytes bs = All (λ b. b < 256) bs

six_bits-char_of : (v : ℕ) → v < 64 → six_bits (char_of v) ≡ v
six_bits-char_of v h = ground arith

no_break : (v : ℕ) → v < 64 → (nat_beq (char_of v) 10 || nat_beq (char_of v) 13) ≡ false
no_break v h = ground arith

is_char-char_of : (v : ℕ) → v < 64 → is_char (char_of v) ≡ true
is_char-char_of v h = ground arith

-- Text that starts with the character of six bits has no break there.
unbroken_char :
    (v : ℕ) (cs : List ℕ)
    → v < 64
    → without_breaks cs ≡ cs
    → without_breaks (char_of v ∷ cs) ≡ char_of v ∷ cs
unfolding without_breaks
unbroken_char v cs h same = rw (no_break v h, same) refl

below : (v : ℕ) → v < 64 → ltb v 64 ≡ true
below v h = ground arith

breakless : without_breaks [] ≡ []
unfolding without_breaks
breakless = refl

padding : without_breaks (61 ∷ []) ≡ 61 ∷ []
unfolding without_breaks
padding = refl

paddings : without_breaks (61 ∷ 61 ∷ []) ≡ 61 ∷ 61 ∷ []
unfolding without_breaks
paddings = refl

without_breaks-encode : (bs : List ℕ) → AreBytes bs → without_breaks (encode bs) ≡ encode bs
unfolding encode
without_breaks-encode [] h = breakless
without_breaks-encode (a ∷ []) (ha, h) =
    unbroken_char (a / 4) _ (omega arith) (unbroken_char (a % 4 * 16) _ (omega arith) paddings)
without_breaks-encode (a ∷ b ∷ []) (ha, (hb, h)) = unbroken_char (a / 4) _ (omega arith) (
    unbroken_char (a % 4 * 16 + b / 16) _ (omega arith)
      (unbroken_char (b % 16 * 4) _ (omega arith) padding))
without_breaks-encode (a ∷ b ∷ c ∷ bs) (ha, (hb, (hc, h))) = unbroken_char (a / 4) _ (omega arith) (
    unbroken_char (a % 4 * 16 + b / 16) _ (omega arith) (
      unbroken_char (b % 16 * 4 + c / 64) _ (omega arith)
        (unbroken_char (c % 64) _ (omega arith) (without_breaks-encode bs h))))

-- A group of four characters stands for three bytes.
four_chars :
    (p q r s : ℕ) (cs bs : List ℕ)
    → p < 64
    → q < 64
    → r < 64
    → s < 64
    → decode_groups cs ≡ some bs
    → decode_groups (char_of p ∷ char_of q ∷ char_of r ∷ char_of s ∷ cs)
      ≡ some ((p * 4 + q / 16) ∷ (q % 16 * 16 + r / 4) ∷ (r % 4 * 64 + s) ∷ bs)
unfolding decode_groups
four_chars p q r s cs bs hp hq hr hs rest =
    rw
      (
        six_bits-char_of p hp,
        six_bits-char_of q hq,
        six_bits-char_of r hr,
        six_bits-char_of s hs,
        below p hp,
        below q hq,
        below r hr,
        below s hs,
        rest,
      )
      refl

three_bytes :
    {p p' q q' r r' : ℕ} (bs : List ℕ)
    → p ≡ p'
    → q ≡ q'
    → r ≡ r'
    → ◌≡◌ {A = Option (List ℕ)} (some (p ∷ q ∷ r ∷ bs)) (some (p' ∷ q' ∷ r' ∷ bs))
three_bytes bs hp hq hr = cc

two_bytes :
    {p p' q q' : ℕ}
    → p ≡ p'
    → q ≡ q'
    → ◌≡◌ {A = Option (List ℕ)} (some (p ∷ q ∷ [])) (some (p' ∷ q' ∷ []))
two_bytes hp hq = cc

decode_groups-encode : (bs : List ℕ) → AreBytes bs → decode_groups (encode bs) ≡ some bs
unfolding encode decode_groups
decode_groups-encode [] h = refl
decode_groups-encode (a ∷ []) (ha, h) =
    let p = a / 4 in
    let q = a % 4 * 16 in
    let hp : p < 64 = omega arith in
    let hq : q < 64 = omega arith in
    rw (six_bits-char_of p hp, six_bits-char_of q hq, below p hp, below q hq)
      (ap (λ x. some (x ∷ [])) (omega arith))
decode_groups-encode (a ∷ b ∷ []) (ha, (hb, h)) =
    let p = a / 4 in
    let q = a % 4 * 16 + b / 16 in
    let r = b % 16 * 4 in
    let hp : p < 64 = omega arith in
    let hq : q < 64 = omega arith in
    let hr : r < 64 = omega arith in
    rw
      (
        six_bits-char_of p hp,
        six_bits-char_of q hq,
        six_bits-char_of r hr,
        below p hp,
        below q hq,
        below r hr,
      )
      (two_bytes (omega arith) (omega arith))
decode_groups-encode (a ∷ b ∷ c ∷ bs) (ha, (hb, (hc, h))) =
    four_chars (a / 4) (a % 4 * 16 + b / 16) (b % 16 * 4 + c / 64) (c % 64) (encode bs) bs
      (omega arith) (omega arith) (omega arith) (omega arith) (decode_groups-encode bs h)
    ∙ three_bytes bs (omega arith) (omega arith) (omega arith)

-- What `EncodeToString` makes of bytes, `DecodeString` takes apart.
pub decode-encode : (bs : List ℕ) → AreBytes bs → decode (encode bs) ≡ some bs
unfolding decode
decode-encode bs h = ap decode_groups (without_breaks-encode bs h) ∙ decode_groups-encode bs h
