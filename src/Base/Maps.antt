-- ===== src/Base/Maps.antt =====
-- A Go map as an association list. `insert` is `entries[key] = val` and `delete` is `delete(entries, key)`.
use Prim.Native.Nat.{◌+◌, ◌≤◌}
use mathlib.Core.Path.{◌≡◌, refl}
use mathlib.Core.List.{List, [], ◌∷◌}
use mathlib.Core.Option.{Option, none, some}
use native.Mathlib.Omega.{arith}
use remotty.Base.Tests.{if◌then◌else◌}
use remotty.Base.Lists.{length}
use remotty.Base.Keys.{HasEq, ◌==◌, ==_iff}

module _ {ℓ κ} {Key : Type ℓ} {Val : Type κ} ⦃keys : HasEq Key⦄ where
  unfoldable pub lookup : Key → List (Key × Val) → Option Val
  lookup key [] = none
  lookup key ((k, val) ∷ entries) = if k == key then some val else lookup key entries

  unfoldable pub insert : Key → Val → List (Key × Val) → List (Key × Val)
  insert key val [] = (key, val) ∷ []
  insert key val ((k, held) ∷ entries) =
      if k == key then (key, val) ∷ entries else (k, held) ∷ insert key val entries

  unfoldable pub delete : Key → List (Key × Val) → List (Key × Val)
  delete key [] = []
  delete key ((k, held) ∷ entries) =
      let rest = delete key entries in if k == key then rest else (k, held) ∷ rest

  -- No key stands twice.
  abbrev pub IsDistinct : List (Key × Val) → Type κ
  IsDistinct [] = Unit
  IsDistinct ((key, val) ∷ entries) = (lookup key entries ≡ none) × IsDistinct entries

  pub lookup_cons :
      (first k : Key) (val : Val) (entries : List (Key × Val))
      → lookup k ((first, val) ∷ entries) ≡ (if first == k then some val else lookup k entries)
  unfolding lookup
  lookup_cons first k val entries = refl

  pub lookup_head :
      (first : Key) (val : Val) (entries : List (Key × Val))
      → lookup first ((first, val) ∷ entries) ≡ some val
  unfolding lookup
  lookup_head first val entries = ground (arith, ==_iff first first)

  pub lookup_tail :
      (first k : Key) (val held : Val) (entries : List (Key × Val))
      → lookup first entries ≡ none
      → lookup k entries ≡ some held
      → lookup k ((first, val) ∷ entries) ≡ some held
  unfolding lookup
  lookup_tail first k val held entries fresh h = ground (arith, ==_iff first k)

  pub lookup-insert :
      (key k : Key) (val : Val) (entries : List (Key × Val))
      → lookup k (insert key val entries) ≡ (if key == k then some val else lookup k entries)
  unfolding lookup insert
  lookup-insert key k val [] = refl
  lookup-insert key k val ((first, held) ∷ entries) =
      ground
        (arith, ==_iff key k, ==_iff first key, ==_iff first k, lookup-insert key k val entries)

  pub lookup-delete :
      (key k : Key) (entries : List (Key × Val))
      → lookup k (delete key entries) ≡ (if key == k then none else lookup k entries)
  unfolding lookup delete
  lookup-delete key k [] = ground arith
  lookup-delete key k ((first, held) ∷ entries) =
      ground (arith, ==_iff key k, ==_iff first key, ==_iff first k, lookup-delete key k entries)

  pub insert-IsDistinct :
      (key : Key) (val : Val) (entries : List (Key × Val))
      → IsDistinct entries
      → IsDistinct (insert key val entries)
  unfolding lookup insert
  insert-IsDistinct key val [] h = (refl, tt)
  insert-IsDistinct key val ((first, held) ∷ entries) h = ground (
    arith,
    ==_iff first key,
    ==_iff key first,
    lookup-insert key first val entries,
    insert-IsDistinct key val entries h.1,
  )

  pub delete-IsDistinct :
      (key : Key) (entries : List (Key × Val))
      → IsDistinct entries
      → IsDistinct (delete key entries)
  unfolding delete
  delete-IsDistinct key [] h = tt
  delete-IsDistinct key ((first, held) ∷ entries) h = ground (
    arith,
    ==_iff first key,
    ==_iff key first,
    lookup-delete key first entries,
    delete-IsDistinct key entries h.1,
  )

  pub length-insert_new :
      (key : Key) (val : Val) (entries : List (Key × Val))
      → lookup key entries ≡ none
      → length (insert key val entries) ≡ length entries + 1
  unfolding lookup insert
  length-insert_new key val [] h = omega arith
  length-insert_new key val ((first, held) ∷ entries) h =
      ground (arith, length-insert_new key val entries)

  delete_absent :
      (key : Key) (entries : List (Key × Val))
      → lookup key entries ≡ none
      → delete key entries ≡ entries
  unfolding lookup delete
  delete_absent key [] h = refl
  delete_absent key ((first, held) ∷ entries) h = ground (arith, delete_absent key entries)

  pub length-delete :
      (key : Key) (val : Val) (entries : List (Key × Val))
      → IsDistinct entries
      → lookup key entries ≡ some val
      → length (delete key entries) + 1 ≡ length entries
  unfolding lookup delete
  length-delete key val [] d h = absurd (cc)
  length-delete key val ((first, held) ∷ entries) d h =
      ground (arith, ==_iff first key, delete_absent key entries, length-delete key val entries d.1)

  pub length-insert_le :
      (key : Key) (val : Val) (entries : List (Key × Val))
      → length (insert key val entries) ≤ length entries + 1
  unfolding insert
  length-insert_le key val [] = omega arith
  length-insert_le key val ((first, held) ∷ entries) =
      ground (arith, length-insert_le key val entries)

  pub length-delete_le :
      (key : Key) (entries : List (Key × Val)) → length (delete key entries) ≤ length entries
  unfolding delete
  length-delete_le key [] = omega arith
  length-delete_le key ((first, held) ∷ entries) = ground (arith, length-delete_le key entries)
