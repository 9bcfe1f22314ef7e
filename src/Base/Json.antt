-- ===== src/Base/Json.antt =====
-- JSON values, and what `encoding/json` does when it decodes one into a struct: a key finds its
-- field up to case, the last key wins, `null` changes nothing, and a value of another type is an
-- error that leaves the field alone and lets the decoding go on.
use Prim.Native.String.{String}
use mathlib.Core.Bool.{Bool, true, false, ◌&&◌}
use mathlib.Core.List.{List, [], ◌∷◌}
use mathlib.Core.Option.{Option, none, some}
use remotty.Base.Tests.{if◌then◌else◌}
use remotty.Base.Int.{ℤ, pos, negsuc, leb_ℤ}
use remotty.Base.Text.{equal_fold}

mutual
  -- `frac` is a number literal that is no integer.
  pub data Json : Type 0 where
    null : Json
    bool : Bool → Json
    num : ℤ → Json
    frac : String → Json
    str : String → Json
    arr : Items → Json
    obj : Fields → Json

  pub data Items : Type 0 where
    nil : Items
    cons : Json → Items → Items

  pub data Fields : Type 0 where
    end : Fields
    field : String → Json → Fields → Fields

-- `json.RawMessage`: absent, or a value.
abbrev pub Raw : Type 0
Raw = Option Json

abbrev pub max_int64 : ℤ
max_int64 = pos 9223372036854775807

abbrev pub min_int64 : ℤ
min_int64 = negsuc 9223372036854775807

-- What a value does to a field of each type: the field afterwards, and whether it fits.
abbrev pub set_string : String → Json → String
set_string old (str s) = s
set_string old _ = old

abbrev pub fits_string : Json → Bool
fits_string (str s) = true
fits_string null = true
fits_string _ = false

abbrev pub set_bool : Bool → Json → Bool
set_bool old (bool b) = b
set_bool old _ = old

abbrev pub fits_bool : Json → Bool
fits_bool (bool b) = true
fits_bool null = true
fits_bool _ = false

abbrev pub in_int64 : ℤ → Bool
in_int64 n = leb_ℤ min_int64 n && leb_ℤ n max_int64

abbrev pub set_int : ℤ → Json → ℤ
set_int old (num n) = if in_int64 n then n else old
set_int old _ = old

abbrev pub fits_int : Json → Bool
fits_int (num n) = in_int64 n
fits_int null = true
fits_int _ = false

abbrev pub strings_of : Items → List String
strings_of nil = []
strings_of (cons j js) = set_string "" j ∷ strings_of js

abbrev pub fit_strings : Items → Bool
fit_strings nil = true
fit_strings (cons j js) = fits_string j && fit_strings js

-- A slice of strings: `none` is the nil slice, which `null` brings back.
abbrev pub set_strings : Option (List String) → Json → Option (List String)
set_strings old (arr js) = some (strings_of js)
set_strings old null = none
set_strings old _ = old

abbrev pub fits_strings : Json → Bool
fits_strings (arr js) = fit_strings js
fits_strings null = true
fits_strings _ = false

-- The value of the field `k` once all keys are read, from the value that it had.
unfoldable pub read {ℓ} : {A : Type ℓ} → (A → Json → A) → String → A → Fields → A
read set k old end = old
read set k old (field j v fs) = read set k (if equal_fold j k then set old v else old) fs

-- Whether each value that is given for `k` fits.
unfoldable pub fits : (Json → Bool) → String → Fields → Bool
fits ok k end = true
fits ok k (field j v fs) = (if equal_fold j k then ok v else true) && fits ok k fs

-- The fields of a payload; a payload that is absent or no object is an error, except `null`.
abbrev pub fields_of : Raw → Fields
fields_of (some (obj fs)) = fs
fields_of _ = end

abbrev pub is_object : Raw → Bool
is_object (some (obj fs)) = true
is_object (some null) = true
is_object _ = false

-- Encoding.
abbrev pub items_of : List String → Items
items_of [] = nil
items_of (s ∷ ss) = cons (str s) (items_of ss)

abbrev pub of_strings : Option (List String) → Json
of_strings none = null
of_strings (some ss) = arr (items_of ss)
