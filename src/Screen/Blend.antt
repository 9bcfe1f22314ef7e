-- ===== src/Screen/Blend.antt =====
-- internal/screen/stream.go, `scaleBilinear`: the pixels of a scaled frame. The fractions of a source
-- coordinate are exact: the numerator over the width or height of the result.
use native.Mathlib.Nat.{
  mul-le-mul_right, mul-lt-mul_of_pos_right, mul-pos, mul_assoc, div-lt_iff_lt-mul,
  le-div_iff_mul-le, mod-lt,
}
use remotty.Base.{
  ℕ, ◌+◌, ◌-◌, ◌*◌, ◌/◌, ◌%◌, ◌≤◌, ◌<◌, ◌≡◌, if◌then◌else◌, ltb, leb, arith, ap, refl,
}

pub record Pixel : Type 0 where
  pub r : ℕ
  pub g : ℕ
  pub b : ℕ
  pub a : ℕ

pub record Image : Type 0 where
  pub width : ℕ
  pub height : ℕ
  pub rgba_at : ℕ → ℕ → Pixel

-- The coordinate below, the one after it, and the numerator of the fraction.
abbrev pub floor_of : ℕ → ℕ → ℕ → ℕ
floor_of src dst d = d * src / dst

abbrev pub after : ℕ → ℕ → ℕ
after src x0 = if leb src (x0 + 1) then src - 1 else x0 + 1

abbrev pub part_of : ℕ → ℕ → ℕ → ℕ
part_of src dst d = d * src % dst

-- `lerp a b (part / whole)`, times `whole`.
abbrev pub lerp : ℕ → ℕ → ℕ → ℕ → ℕ
lerp a b part whole = a * (whole - part) + b * part

-- The nearest number to `total / whole`, as `int(v + 0.5)` gives it.
abbrev pub rounded : ℕ → ℕ → ℕ
rounded total whole = (2 * total + whole) / (2 * whole)

-- `uint8(clamp(v, 0, 255))`, of a value that is not negative.
abbrev pub clamp_byte : ℕ → ℕ
clamp_byte v = if ltb 255 v then 255 else v

-- The four samples of one channel, from the left to the right and then down.
unfoldable pub blend : ℕ → ℕ → ℕ → ℕ → ℕ → ℕ → ℕ → ℕ → ℕ
blend p00 p10 p01 p11 px w py h =
    clamp_byte (rounded (lerp (lerp p00 p10 px w) (lerp p01 p11 px w) py h) (w * h))

unfoldable pub scale_bilinear : Image → ℕ → ℕ → Image
unfolding blend
scale_bilinear src dst_w dst_h = record {
  width = dst_w;
  height = dst_h;
  rgba_at = λ dx dy.
      let x0 = floor_of src.width dst_w dx in
      let y0 = floor_of src.height dst_h dy in
      let x1 = after src.width x0 in
      let y1 = after src.height y0 in
      let px = part_of src.width dst_w dx in
      let py = part_of src.height dst_h dy in
      let p00 = src.rgba_at x0 y0 in
      let p10 = src.rgba_at x1 y0 in
      let p01 = src.rgba_at x0 y1 in
      let p11 = src.rgba_at x1 y1 in
      record {
        r = blend p00.r p10.r p01.r p11.r px dst_w py dst_h;
        g = blend p00.g p10.g p01.g p11.g px dst_w py dst_h;
        b = blend p00.b p10.b p01.b p11.b px dst_w py dst_h;
        a = blend p00.a p10.a p01.a p11.a px dst_w py dst_h;
      };
}

lerp_between :
    (low high a b part whole : ℕ)
    → part ≤ whole
    → (low ≤ a) × (a ≤ high)
    → (low ≤ b) × (b ≤ high)
    → (low * whole ≤ lerp a b part whole) × (lerp a b part whole ≤ high * whole)
lerp_between low high a b part whole h ha hb =
    let rest = whole - part in
    let e : whole ≡ rest + part = omega (arith, h) in
    let split = λ (m : ℕ). ap (λ (n : ℕ). m * n) e in
    (
      omega (arith, split low, mul-le-mul_right rest ha.0, mul-le-mul_right part hb.0),
      omega (arith, split high, mul-le-mul_right rest ha.1, mul-le-mul_right part hb.1),
    )

rounded_between :
    (low high total whole : ℕ)
    → 1 ≤ whole
    → low * whole ≤ total
    → total ≤ high * whole
    → (low ≤ rounded total whole) × (rounded total whole ≤ high)
rounded_between low high total whole p hl hh =
    let twice : 1 ≤ 2 * whole = omega (arith, p) in
    let under : 2 * total + whole < (high + 1) * (2 * whole) = omega (arith, hh, p) in
    let over : low * (2 * whole) ≤ 2 * total + whole = omega (arith, hl) in
    (
      (le-div_iff_mul-le {x = low} {y = 2 * total + whole} twice).1 over,
      omega (arith, (div-lt_iff_lt-mul {x = 2 * total + whole} {y = high + 1} twice).1 under),
    )

-- A sample is between two bounds.
abbrev pub Between : ℕ → ℕ → ℕ → Type 0
Between low high v = (low ≤ v) × (v ≤ high)

blend-Between :
    (low high p00 p10 p01 p11 px w py h : ℕ)
    → high ≤ 255
    → px < w
    → py < h
    → Between low high p00
    → Between low high p10
    → Between low high p01
    → Between low high p11
    → Between low high (blend p00 p10 p01 p11 px w py h)
unfolding blend
blend-Between low high p00 p10 p01 p11 px w py h byte hx hy b00 b10 b01 b11 =
    let top = lerp_between low high p00 p10 px w (omega (arith, hx)) b00 b10 in
    let bottom = lerp_between low high p01 p11 px w (omega (arith, hx)) b01 b11 in
    let all =
      lerp_between (low * w) (high * w) (lerp p00 p10 px w) (lerp p01 p11 px w) py h
        (omega (arith, hy)) top bottom in
    let near =
      rounded_between low high (lerp (lerp p00 p10 px w) (lerp p01 p11 px w) py h) (w * h)
        (mul-pos (omega (arith, hx)) (omega (arith, hy))) (omega (arith, all.0, mul_assoc low w h))
        (omega (arith, all.1, mul_assoc high w h)) in
    ground (arith, near, byte)

pub data Channel : Type 0 where
  red green blue alpha : Channel

abbrev pub channel : Channel → Pixel → ℕ
channel red p = p.r
channel green p = p.g
channel blue p = p.b
channel alpha p = p.a

-- A channel of all pixels of an image is between two bounds.
abbrev pub IsWithin : Channel → ℕ → ℕ → Image → Type 0
IsWithin c low high i =
    (x y : ℕ) → x < i.width → y < i.height → Between low high (channel c (i.rgba_at x y))

-- The source pixels that are read are in the source.
floor_of-inside :
    (src dst d : ℕ)
    → 1 ≤ src
    → d < dst
    → (floor_of src dst d < src) × (after src (floor_of src dst d) < src)
floor_of-inside src dst d p h =
    let bound : d * src < src * dst = omega (arith, mul-lt-mul_of_pos_right {k = src} h p) in
    let low : d * src / dst < src =
      (div-lt_iff_lt-mul {x = d * src} {y = src} (omega (arith, h))).1 bound in
    (low, ground (arith, low, p))

-- One channel of a pixel of the result.
abbrev sampled : Channel → Image → ℕ → ℕ → ℕ → ℕ → ℕ
sampled c src dst_w dst_h x y =
    let x0 = floor_of src.width dst_w x in
    let y0 = floor_of src.height dst_h y in
    let x1 = after src.width x0 in
    let y1 = after src.height y0 in
    blend (channel c (src.rgba_at x0 y0)) (channel c (src.rgba_at x1 y0))
      (channel c (src.rgba_at x0 y1)) (channel c (src.rgba_at x1 y1)) (part_of src.width dst_w x)
      dst_w (part_of src.height dst_h y) dst_h

channel-scale_bilinear :
    (c : Channel) (src : Image) (dst_w dst_h x y : ℕ)
    → channel c ((scale_bilinear src dst_w dst_h).rgba_at x y) ≡ sampled c src dst_w dst_h x y
unfolding scale_bilinear
channel-scale_bilinear red src dst_w dst_h x y = refl
channel-scale_bilinear green src dst_w dst_h x y = refl
channel-scale_bilinear blue src dst_w dst_h x y = refl
channel-scale_bilinear alpha src dst_w dst_h x y = refl

scaled-IsWithin :
    (c : Channel) (low high : ℕ) (src : Image) (dst_w dst_h : ℕ)
    → high ≤ 255
    → 1 ≤ src.width
    → 1 ≤ src.height
    → IsWithin c low high src
    → IsWithin c low high (scale_bilinear src dst_w dst_h)
unfolding scale_bilinear
scaled-IsWithin c low high src dst_w dst_h byte pw ph inside x y hx hy =
    let (in_x0, in_x1) = floor_of-inside src.width dst_w x pw hx in
    let (in_y0, in_y1) = floor_of-inside src.height dst_h y ph hy in
    let x0 = floor_of src.width dst_w x in
    let y0 = floor_of src.height dst_h y in
    let x1 = after src.width x0 in
    let y1 = after src.height y0 in
    rw (channel-scale_bilinear c src dst_w dst_h x y) (
      blend-Between low high (channel c (src.rgba_at x0 y0)) (channel c (src.rgba_at x1 y0))
        (channel c (src.rgba_at x0 y1)) (channel c (src.rgba_at x1 y1)) (part_of src.width dst_w x)
        dst_w (part_of src.height dst_h y) dst_h byte (mod-lt (x * src.width) (omega (arith, hx)))
        (mod-lt (y * src.height) (omega (arith, hy))) (inside x0 y0 in_x0 in_y0)
        (inside x1 y0 in_x1 in_y0) (inside x0 y1 in_x0 in_y1) (inside x1 y1 in_x1 in_y1))

-- The samples of each pixel of a result are taken inside the source.
abbrev pub SamplesInside : Image → ℕ → ℕ → Type 0
SamplesInside src dst_w dst_h =
    (x y : ℕ)
    → x < dst_w
    → y < dst_h
    → ((floor_of src.width dst_w x < src.width)
        × (after src.width (floor_of src.width dst_w x) < src.width))
      × ((floor_of src.height dst_h y < src.height)
          × (after src.height (floor_of src.height dst_h y) < src.height))

-- Scaling an image that is not empty takes its samples inside it, and makes no channel of any pixel
-- brighter than its brightest or darker than its darkest in the source: bounds on a channel of the
-- pixels in the source hold for all pixels of the result.
pub scale_bilinear-IsWithin :
    (c : Channel) (low high : ℕ) (src : Image) (dst_w dst_h : ℕ)
    → high ≤ 255
    → 1 ≤ src.width
    → 1 ≤ src.height
    → IsWithin c low high src
    → SamplesInside src dst_w dst_h × IsWithin c low high (scale_bilinear src dst_w dst_h)
scale_bilinear-IsWithin c low high src dst_w dst_h byte pw ph inside = (
  λ x y hx hy. (floor_of-inside src.width dst_w x pw hx, floor_of-inside src.height dst_h y ph hy),
  scaled-IsWithin c low high src dst_w dst_h byte pw ph inside,
)
