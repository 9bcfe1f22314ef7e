-- ===== src/Base/Keys.antt =====
-- Equality of the keys of a Go map: numbers and strings.
use Prim.Native.Nat.{ℕ}
use Prim.Native.String.{String}
use text.Mathlib.Text.{◌==◌ as str_eq}
use text.Mathlib.TextEquality.{eq_iff}
use mathlib.Core.Path.{◌≡◌, refl}
use mathlib.Core.Logic.{◌↔◌, ◌≢◌}
use mathlib.Core.Bool.{Bool, true, false, ◌&&◌}
use mathlib.Core.List.{List, [], ◌∷◌}
use native.Mathlib.Omega.{arith}
use remotty.Base.Tests.{nat_beq, nat_beq_iff, true≢false}

pub record HasEq {ℓ} (Key : Type ℓ) : Type ℓ where
  pub same : Key → Key → Bool
  pub same_iff : (a b : Key) → (same a b ≡ true) ↔ (a ≡ b)

infix 51 ◌==◌
abbrev pub ◌==◌ {ℓ} : {Key : Type ℓ} ⦃keys : HasEq Key⦄ → Key → Key → Bool
◌==◌ ⦃keys⦄ = keys.same

instance abbrev pub nat_key : HasEq ℕ
nat_key = record { same = nat_beq; same_iff = nat_beq_iff }

instance abbrev pub string_key : HasEq String
string_key = record { same = str_eq; same_iff = eq_iff }

pub ==_iff {ℓ} : {Key : Type ℓ} ⦃keys : HasEq Key⦄ (a b : Key) → ((a == b) ≡ true) ↔ (a ≡ b)
==_iff ⦃keys⦄ a b = keys.same_iff a b

pub ==_self {ℓ} : {Key : Type ℓ} ⦃keys : HasEq Key⦄ (a : Key) → (a == a) ≡ true
==_self ⦃keys⦄ a = (keys.same_iff a a).1 refl

pub ==_apart {ℓ} : {Key : Type ℓ} ⦃keys : HasEq Key⦄ (a b : Key) → (a == b) ≡ false → a ≢ b
==_apart ⦃keys⦄ a b h q = true≢false ((keys.same_iff a b).1 q) h

abbrev pub list_same {ℓ} : {Key : Type ℓ} ⦃keys : HasEq Key⦄ → List Key → List Key → Bool
list_same [] [] = true
list_same [] (b ∷ bs) = false
list_same (a ∷ as') [] = false
list_same (a ∷ as') (b ∷ bs) = (a == b) && list_same as' bs

pub list_same_iff {ℓ} :
    {Key : Type ℓ} ⦃keys : HasEq Key⦄ (as' bs : List Key) → (list_same as' bs ≡ true) ↔ (as' ≡ bs)
list_same_iff [] [] = ((λ h. refl), λ h. refl)
list_same_iff [] (b ∷ bs) = ((λ h. absurd (cc)), λ h. absurd (cc))
list_same_iff (a ∷ as') [] = ((λ h. absurd (cc)), λ h. absurd (cc))
list_same_iff (a ∷ as') (b ∷ bs) =
    let head = ==_iff a b in
    let rest = list_same_iff as' bs in
    (
      (λ h. cc (head.0 (ground (arith, h)), rest.0 (ground (arith, h)))),
      λ h. ground (arith, head.1 (cc h), rest.1 (cc h)),
    )

-- Lists of keys are keys.
instance abbrev pub list_key {ℓ} : {Key : Type ℓ} ⦃keys : HasEq Key⦄ → HasEq (List Key)
list_key = record { same = list_same; same_iff = list_same_iff }
