-- ===== src/Image/Geometry/Fits.antt =====
-- The crops that the package makes are crops that it accepts.
use nxgt_data.Prelude.{ℕ, ◌+◌, ◌-◌, ◌/◌, ◌≤◌, ◌≡◌, false, ◌||◌, ltb, min, max, arith}
use nxgt_data.Image.Geometry.{
  Dimensions, CropBox, scaled_dimensions, centred_crop, crop_refused, clamp, scale_crop,
}

accepted :
    (size x y width height : ℕ)
    → 1 ≤ size
    → x + size ≤ width
    → y + size ≤ height
    → (ltb size 1 || ltb width (x + size) || ltb height (y + size)) ≡ false
accepted size x y width height s w h = ground arith

-- The centred crop of an image with a pixel on each side is not refused.
pub crop_refused-centred_crop :
    (d : Dimensions) → 1 ≤ d.width → 1 ≤ d.height → crop_refused (centred_crop d) d ≡ false
unfolding centred_crop crop_refused
crop_refused-centred_crop d w h =
    accepted (min d.width d.height) ((d.width - min d.width d.height) / 2)
      ((d.height - min d.width d.height) / 2) d.width d.height (omega (arith, w, h))
      (omega (arith, w, h)) (omega (arith, w, h))

-- However the scale rounds, a crop that is scaled with its image is not refused.
pub crop_refused-scale_crop :
    (scaled : ℕ → ℕ) (crop : CropBox) (image : Dimensions)
    → crop_refused
        (scale_crop scaled crop (scaled_dimensions scaled image))
        (scaled_dimensions scaled image)
      ≡ false
unfolding scale_crop crop_refused scaled_dimensions clamp
crop_refused-scale_crop scaled crop image =
    let w = max 1 (scaled image.width) in
    let h = max 1 (scaled image.height) in
    let size = max 1 (min (scaled crop.size) (min w h)) in
    accepted size (min (scaled crop.x) (w - size)) (min (scaled crop.y) (h - size)) w h
      (omega arith) (omega arith) (omega arith)
