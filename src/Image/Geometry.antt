-- ===== src/Image/Geometry.antt =====
-- packages/image/src/process/geometry.ts: crops of an image. Sides are whole pixels. A side times
-- the scale, rounded, is a parameter `scaled`: the arithmetic of doubles is left out.
pub mod Fits
use nxgt_data.Prelude.{ℕ, ◌+◌, ◌-◌, ◌*◌, ◌/◌, Bool, ◌||◌, ltb, min, max}

pub record Dimensions : Type 0 where
  pub width : ℕ
  pub height : ℕ

pub record CropBox : Type 0 where
  pub x : ℕ
  pub y : ℕ
  pub size : ℕ

-- `scaledDimensions`
unfoldable pub scaled_dimensions : (ℕ → ℕ) → Dimensions → Dimensions
scaled_dimensions scaled d = record {
  width = max 1 (scaled d.width);
  height = max 1 (scaled d.height);
}

-- `centredCrop`
unfoldable pub centred_crop : Dimensions → CropBox
centred_crop d =
    let size = min d.width d.height in
    record { x = (d.width - size) / 2; y = (d.height - size) / 2; size = size }

-- `assertCropFits`: whether it refuses.
unfoldable pub crop_refused : CropBox → Dimensions → Bool
crop_refused crop image =
    ltb crop.size 1 || ltb image.width (crop.x + crop.size) || ltb image.height (crop.y + crop.size)

pub clamp : (ℕ → ℕ) → ℕ → ℕ → ℕ → ℕ
clamp scaled size value room = min (scaled value) (room - size)

-- `scaleCrop`: the differences are not negative, since the size is at most each side of 1 or more.
unfoldable pub scale_crop : (ℕ → ℕ) → CropBox → Dimensions → CropBox
unfolding clamp
scale_crop scaled crop shrunk =
    let size = max 1 (min (scaled crop.size) (min shrunk.width shrunk.height)) in
    record {
      x = clamp scaled size crop.x shrunk.width;
      y = clamp scaled size crop.y shrunk.height;
      size = size;
    }
