-- ===== src/Screen/Scale.antt =====
-- internal/screen/stream.go, `downscale`: the size that a frame is scaled to.
use native.Mathlib.Nat.{mul-le-mul_left, mul_comm, div-lt_iff_lt-mul, le-div_iff_mul-le}
use remotty.Base.{
  ℕ, ◌+◌, ◌*◌, ◌/◌, ◌≤◌, ◌<◌, ◌≡◌, ◌⊎◌, ◌&&◌, if◌then◌else◌, ltb, leb, arith, nat_key,
}
use remotty.Base.Int.{ℤ, pos, pos_part, leb_ℤ}

-- A limit that is not positive is none: the size itself stands for it.
abbrev pub limit : ℤ → ℕ → ℕ
limit given size = if leb_ℤ given (pos 0) then size else pos_part given

abbrev pub at_least_one : ℕ → ℕ
at_least_one n = if leb n 0 then 1 else n

-- The width is brought down first.
abbrev pub narrowed : ℕ → ℕ × ℕ → ℕ × ℕ
narrowed max_w (w, h) = if ltb max_w w then (max_w, h * max_w / w) else (w, h)

-- Then the height, and the width with it, from the size of the source.
abbrev pub lowered : ℕ → ℕ × ℕ → ℕ × ℕ → ℕ × ℕ
lowered max_h (w, h) (w', h') = if ltb max_h h' then (w * max_h / h, max_h) else (w', h')

-- The size of the image that `downscale` returns: that of the source, or what `scaleBilinear` makes.
unfoldable pub scaled_size : ℤ → ℤ → ℕ × ℕ → ℕ × ℕ
scaled_size max_width max_height size =
    let max_w = limit max_width size.0 in
    let max_h = limit max_height size.1 in
    let scaled = lowered max_h size (narrowed max_w size) in
    if leb size.0 max_w && leb size.1 max_h
    then size
    else (at_least_one scaled.0, at_least_one scaled.1)

-- A size fits the limits, is not empty, and is no larger than the source.
pub record Fits (max_width max_height : ℤ) (size out : ℕ × ℕ) : Type 0 where
  pub width_fits : (pos_part max_width ≡ 0) ⊎ (out.0 ≤ pos_part max_width)
  pub height_fits : (pos_part max_height ≡ 0) ⊎ (out.1 ≤ pos_part max_height)
  pub width_positive : 1 ≤ out.0
  pub height_positive : 1 ≤ out.1
  pub width_shrinks : out.0 ≤ size.0
  pub height_shrinks : out.1 ≤ size.1

quotient_le : (a b c : ℕ) → 1 ≤ c → b ≤ c → a * b / c ≤ a
quotient_le a b c pc h =
    let bound : a * b < (a + 1) * c = omega (arith, mul-le-mul_left a h, pc) in
    omega (arith, (div-lt_iff_lt-mul {x = a * b} {y = a + 1} pc).1 bound)

-- Where the height that goes with the width `a` is above `b`, the width that goes with `b` is at most `a`.
quotient_cross : (w h a b : ℕ) → 1 ≤ w → 1 ≤ h → b < h * a / w → w * b / h ≤ a
quotient_cross w h a b pw ph above =
    let high = (le-div_iff_mul-le {x = b + 1} {y = h * a} pw).0 (omega (arith, above)) in
    let bound : w * b < (a + 1) * h = omega (arith, high, mul_comm w b, mul_comm h a, pw, ph) in
    omega (arith, (div-lt_iff_lt-mul {x = w * b} {y = a + 1} ph).1 bound)

-- What the two steps make of a size, for limits that are positive.
steps_fit :
    (w h a b : ℕ)
    → 1 ≤ w
    → 1 ≤ h
    → 1 ≤ a
    → 1 ≤ b
    → let out = lowered b (w, h) (narrowed a (w, h)) in
      ((out.0 ≤ a) × (out.1 ≤ b)) × ((out.0 ≤ w) × (out.1 ≤ h))
steps_fit w h a b pw ph pa pb =
    ground (arith, quotient_le h a w pw, quotient_le w b h ph, quotient_cross w h a b pw ph)

limit_fits :
    (given : ℤ) (size : ℕ)
    → 1 ≤ size
    → (1 ≤ limit given size)
      × ((pos_part given ≡ 0) × (limit given size ≡ size) ⊎ (limit given size ≡ pos_part given))
limit_fits given size p = ground arith

-- Whatever the limits are, the size that a frame is scaled to keeps within each positive limit, is at
-- least one pixel each way, and is no larger than a source that is not empty.
pub scaled_size-Fits :
    (max_width max_height : ℤ) (w h : ℕ)
    → 1 ≤ w
    → 1 ≤ h
    → Fits max_width max_height (w, h) (scaled_size max_width max_height (w, h))
unfolding scaled_size
scaled_size-Fits max_width max_height w h pw ph =
    let a = limit max_width w in
    let b = limit max_height h in
    ground (
      arith,
      limit_fits max_width w pw,
      limit_fits max_height h ph,
      steps_fit w h a b pw ph (limit_fits max_width w pw).0 (limit_fits max_height h ph).0,
    )
