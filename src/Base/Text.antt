-- ===== src/Base/Text.antt =====
-- The functions of Go's `strings` and `fmt` that the code uses, over the native texts.
use Prim.Native.Nat.{ℕ, zero, suc, ◌+◌, ◌/◌, ◌%◌}
use Prim.Native.Char.{code}
use Prim.Native.String.{String, ◌++◌, len, slice}
use text.Mathlib.Text.{starts_with}
use mathlib.Core.Bool.{Bool, true, false, ◌&&◌, ◌||◌}
use mathlib.Core.List.{List, map}
use mathlib.Core.Path.{◌≡◌, refl}
use remotty.Base.Tests.{leb, ltb, nat_beq, if◌then◌else◌}

-- `s + t` on strings.
infixr 65 ◌<>◌
abbrev pub ◌<>◌ : String → String → String
s <> t = s ++ t

-- The code points of a text.
abbrev pub codes : String → List ℕ
codes String.[] = List.[]
codes (String.◌∷◌ letter text) = List.◌∷◌ (code letter) (codes text)

-- The bytes of a code point in UTF-8.
abbrev pub utf8_size : ℕ → ℕ
utf8_size c =
    if ltb c 0x80 then 1 else (if ltb c 0x800 then 2 else (if ltb c 0x10000 then 3 else 4))

-- `len(s)`: a Go string is counted in bytes.
unfoldable pub byte_len : String → ℕ
byte_len String.[] = 0
byte_len (String.◌∷◌ c s) = utf8_size (code c) + byte_len s

-- `unicode.IsSpace`.
unfoldable pub is_space : ℕ → Bool
is_space c =
    leb 9 c && leb c 13
    || nat_beq c 32
    || nat_beq c 0x85
    || nat_beq c 0xa0
    || nat_beq c 0x1680
    || leb 0x2000 c && leb c 0x200a
    || nat_beq c 0x2028
    || nat_beq c 0x2029
    || nat_beq c 0x202f
    || nat_beq c 0x205f
    || nat_beq c 0x3000

abbrev pub is_empty : String → Bool
is_empty String.[] = true
is_empty (String.◌∷◌ c s) = false

unfoldable pub trim_left : String → String
trim_left String.[] = String.[]
trim_left (String.◌∷◌ c s) =
    let rest = trim_left s in if is_space (code c) then rest else String.◌∷◌ c s

unfoldable pub trim_right : String → String
trim_right String.[] = String.[]
trim_right (String.◌∷◌ c s) =
    let rest = trim_right s in
    if is_space (code c) && is_empty rest then String.[] else String.◌∷◌ c rest

-- `strings.TrimSpace`.
unfoldable pub trim_space : String → String
unfolding trim_left trim_right is_space
trim_space s = trim_right (trim_left s)

-- `strings.TrimRight(s, "\n\r")`.
unfoldable pub trim_newlines : String → String
trim_newlines String.[] = String.[]
trim_newlines (String.◌∷◌ c s) =
    let rest = trim_newlines s in
    if (nat_beq (code c) 10 || nat_beq (code c) 13) && is_empty rest
    then String.[]
    else String.◌∷◌ c rest

-- `strings.HasPrefix` and `strings.TrimPrefix`.
abbrev pub has_prefix : String → String → Bool
has_prefix s p = starts_with s p

abbrev pub trim_prefix : String → String → String
trim_prefix s p = if has_prefix s p then slice s (len p) (len s) else s

-- The fold of a code point that is equal to an ASCII letter up to case.
unfoldable pub fold_code : ℕ → ℕ
fold_code c =
    if leb 65 c && leb c 90
    then c + 32
    else (if nat_beq c 0x17f then 115 else (if nat_beq c 0x212a then 107 else c))

unfoldable pub equal_codes : List ℕ → List ℕ → Bool
equal_codes List.[] List.[] = true
equal_codes List.[] (List.◌∷◌ b bs) = false
equal_codes (List.◌∷◌ a as') List.[] = false
equal_codes (List.◌∷◌ a as') (List.◌∷◌ b bs) = nat_beq a b && equal_codes as' bs

-- `strings.EqualFold s t`, where `t` is ASCII.
unfoldable pub equal_fold : String → String → Bool
unfolding fold_code equal_codes
equal_fold s t = equal_codes (map fold_code (codes s)) (map fold_code (codes t))

digit : ℕ → String
digit zero = "0"
digit (suc zero) = "1"
digit (suc (suc zero)) = "2"
digit (suc (suc (suc zero))) = "3"
digit (suc (suc (suc (suc zero)))) = "4"
digit (suc (suc (suc (suc (suc zero))))) = "5"
digit (suc (suc (suc (suc (suc (suc zero)))))) = "6"
digit (suc (suc (suc (suc (suc (suc (suc zero))))))) = "7"
digit (suc (suc (suc (suc (suc (suc (suc (suc zero)))))))) = "8"
digit (suc (suc (suc (suc (suc (suc (suc (suc (suc n))))))))) = "9"

decimal_from : ℕ → ℕ → String → String
decimal_from zero n acc = acc
decimal_from (suc fuel) n acc =
    let rest = decimal_from fuel (n / 10) (digit (n % 10) <> acc) in
    if ltb n 10 then digit n <> acc else rest

-- `%d` of a number that is not negative.
unfoldable pub decimal : ℕ → String
unfolding decimal_from digit
decimal n = decimal_from (suc n) n ""

decimal_test : decimal 1700000000123456789 ≡ "1700000000123456789"
unfolding decimal
decimal_test = refl

trim_test : trim_space " \t my host " ≡ "my host"
unfolding trim_space
trim_test = refl

byte_len_test : byte_len "é€a" ≡ 6
unfolding byte_len
byte_len_test = refl
