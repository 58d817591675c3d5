-- ===== src/Image/Examples.antt =====
-- Tests of the row filters and of the assembler, and what their properties say of short rows.
use nxgt_data.Prelude.{
  false, ◌/◌, ℕ, List, Bool, true, length, ◌≤◌, ◌++◌, ◌≡◌, refl, none, some, [], ◌∷◌, arith,
}
use nxgt_data.Image.Filters.{unfilter_row, filter_of}
use nxgt_data.Image.Filters.Rows.{filter_row, unfilter-filter}
use nxgt_data.Image.Assembler.{more, refused, ◌>>=◌, feed, no_rows}
use nxgt_data.Image.Assembler.Parts.{feed-append}
use nxgt_data.Image.Geometry.{Dimensions, CropBox, centred_crop, crop_refused}
use nxgt_data.Image.Geometry.Fits.{crop_refused-centred_crop}

opened : Unit {0}
unfolding unfilter_row filter_of feed no_rows
opened = tt

undone : unfilter_row 4 (10 ∷ 250 ∷ 3 ∷ []) (1 ∷ 2 ∷ 3 ∷ []) 1 ≡ some (11 ∷ 5 ∷ 8 ∷ [])
unfolding opened
undone = refl

unknown : unfilter_row 5 (10 ∷ []) (1 ∷ []) 1 ≡ none
unfolding opened
unknown = refl

unfilter-filter_example :
    unfilter_row 4
      (filter_row 4 2 (9 ∷ 200 ∷ 255 ∷ 3 ∷ []) (0 ∷ 17 ∷ 255 ∷ 80 ∷ []))
      (0 ∷ 17 ∷ 255 ∷ 80 ∷ [])
      2
    ≡ some (9 ∷ 200 ∷ 255 ∷ 3 ∷ [])
unfolding opened
unfilter-filter_example =
    unfilter-filter 4 2 (9 ∷ 200 ∷ 255 ∷ 3 ∷ []) (0 ∷ 17 ∷ 255 ∷ 80 ∷ []) (omega arith)
      (omega arith) refl (omega arith, (omega arith, (omega arith, (omega arith, tt))))
      (omega arith, (omega arith, (omega arith, (omega arith, tt))))

-- An assembler of two rows of two bytes, whose caller takes every row.
abbrev take_all : List ℕ → ℕ → Bool
take_all _ _ = true

rows_fed :
    feed 2 2 1 take_all (0 ∷ 7 ∷ 8 ∷ 2 ∷ 1 ∷ 1 ∷ []) (no_rows 2)
    ≡ more (record {
      previous = 8 ∷ 9 ∷ [];
      filled = [];
      y = 2;
      given = (7 ∷ 8 ∷ []) ∷ (8 ∷ 9 ∷ []) ∷ [];
    })
unfolding opened
rows_fed = refl

too_long : feed 2 1 1 take_all (0 ∷ 7 ∷ 8 ∷ 2 ∷ []) (no_rows 2) ≡ refused
unfolding opened
too_long = refl

no_rows_room : length (no_rows 2).filled ≤ 2
unfolding opened
no_rows_room = omega arith

feed-append_example :
    feed 2 2 1 take_all ((0 ∷ 7 ∷ []) ++ (8 ∷ 2 ∷ 1 ∷ 1 ∷ [])) (no_rows 2)
    ≡ feed 2 2 1 take_all (0 ∷ 7 ∷ []) (no_rows 2) >>= feed 2 2 1 take_all (8 ∷ 2 ∷ 1 ∷ 1 ∷ [])
feed-append_example =
    feed-append 2 2 1 take_all (0 ∷ 7 ∷ []) (8 ∷ 2 ∷ 1 ∷ 1 ∷ []) (no_rows 2) no_rows_room

-- A photo of 400 by 300, and half of it.
abbrev photo : Dimensions
photo = record { width = 400; height = 300 }

abbrev half : ℕ → ℕ
half n = n / 2

abbrev corner : CropBox
corner = record { x = 101; y = 99; size = 201 }

crop_refused-centred_crop_example : crop_refused (centred_crop photo) photo ≡ false
crop_refused-centred_crop_example = crop_refused-centred_crop photo (omega arith) (omega arith)
