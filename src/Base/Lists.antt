-- ===== src/Base/Lists.antt =====
-- Lists measured and indexed by native numbers, under the library's names.
use Prim.Native.Nat.{ℕ, zero, suc, ◌+◌}
use mathlib.Core.Path.{◌≡◌, refl, ap, subst}
use remotty.Base.Tests.{some_inj}
use mathlib.Core.List.{List, [], ◌∷◌, ◌++◌}
use mathlib.Core.Bool.{Bool, false, ◌||◌}
use mathlib.Core.Option.{Option, none, some}
use native.Mathlib.Omega.{arith}

module _ {ℓ} {Item : Type ℓ} where
  abbrev pub length : List Item → ℕ
  length [] = 0
  length (item ∷ items) = suc (length items)

  abbrev pub get_elem? : List Item → ℕ → Option Item
  get_elem? [] i = none
  get_elem? (item ∷ items) zero = some item
  get_elem? (item ∷ items) (suc i) = get_elem? items i

  abbrev pub any : (Item → Bool) → List Item → Bool
  any p [] = false
  any p (item ∷ items) = p item || any p items

  abbrev pub All {κ} : (Item → Type κ) → List Item → Type κ
  All Holds [] = Unit
  All Holds (item ∷ items) = Holds item × All Holds items

  pub length-append : (items more : List Item) → length (items ++ more) ≡ length items + length more
  length-append [] more = omega arith
  length-append (item ∷ items) more = omega (arith, length-append items more)

  pub append_nil : (items : List Item) → items ++ [] ≡ items
  append_nil [] = refl
  append_nil (item ∷ items) = ap (λ (is : List Item). item ∷ is) (append_nil items)

  pub append_assoc :
      (items more rest : List Item) → (items ++ more) ++ rest ≡ items ++ (more ++ rest)
  append_assoc [] more rest = refl
  append_assoc (item ∷ items) more rest =
      ap (λ (is : List Item). item ∷ is) (append_assoc items more rest)

  pub All-append {κ} :
      (Holds : Item → Type κ) (items more : List Item)
      → All Holds items
      → All Holds more
      → All Holds (items ++ more)
  All-append Holds [] more here there = there
  All-append Holds (item ∷ items) more here there =
      (here.0, All-append Holds items more here.1 there)

  pub All-map {κ μ} :
      (Holds : Item → Type κ) (Also : Item → Type μ) (items : List Item)
      → ((item : Item) → Holds item → Also item)
      → All Holds items
      → All Also items
  All-map Holds Also [] f h = tt
  All-map Holds Also (item ∷ items) f h = (f item h.0, All-map Holds Also items f h.1)

  pub All-get_elem? {κ} :
      (Holds : Item → Type κ) (items : List Item) (i : ℕ) (item : Item)
      → All Holds items
      → get_elem? items i ≡ some item
      → Holds item
  All-get_elem? Holds [] i item h e = absurd (cc)
  All-get_elem? Holds (first ∷ items) zero item h e = subst Holds (some_inj first item e) h.0
  All-get_elem? Holds (first ∷ items) (suc i) item h e = All-get_elem? Holds items i item h.1 e
