-- ===== src/Image/Filters.antt =====
-- packages/image/src/crop/unfilter.ts: undoing the row filters of PNG. A row is the list of its
-- bytes from `offset` on; the loop carries the bytes before the current one, the nearest first, of
-- the row (already undone) and of the row above.
pub mod Rows
use nxgt_data.Prelude.{
  ℕ, zero, suc, ◌+◌, ◌-◌, ◌*◌, ◌/◌, ◌%◌, Bool, true, false, ◌&&◌, Option, none, some, List, [], ◌∷◌,
  leb, ◌==◌, get_elem?, if◌then◌else◌,
}

-- `Math.abs(a - b)`
abbrev pub distance : ℕ → ℕ → ℕ
distance a b = a - b + (b - a)

-- `paeth`, where `p` is `a + b - c`; `p - a` is written `(a + b) - (c + a)`, and so on.
pub paeth : ℕ → ℕ → ℕ → ℕ
paeth a b c =
    let pa = distance (a + b) (c + a) in
    let pb = distance (a + b) (c + b) in
    let pc = distance (a + b) (c + c) in
    if leb pa pb && leb pa pc then a else if leb pb pc then b else c

-- The byte `bpp` places back, 0 before the row; a pixel has at least one byte.
pub back : ℕ → List ℕ → ℕ
back zero before = 0
back (suc n) before = elim (get_elem? before n) [ none ↦ 0 | some x ↦ x ]

-- What a filter type adds to a byte: from the one on its left, the one above, and the one above on
-- the left. `none` is a type that is not defined.
pub data Filter : Type 0 where
  keep sub up average paeth_filter : Filter

unfoldable pub filter_of : ℕ → Option Filter
filter_of type =
    if type == 0
    then some keep
    else if type == 1
    then some sub
    else if type == 2
    then some up
    else if type == 3
    then some average
    else if type == 4
    then some paeth_filter
    else none

pub added : Filter → ℕ → ℕ → ℕ → ℕ
unfolding paeth
added keep left above up_left = 0
added sub left above up_left = left
added up left above up_left = above
added average left above up_left = (left + above) / 2
added paeth_filter left above up_left = paeth left above up_left

-- The loop over a row.
pub unfilter_bytes : Filter → ℕ → List ℕ → List ℕ → List ℕ → List ℕ → List ℕ
unfolding added back
unfilter_bytes t bpp before before_above [] above = []
unfilter_bytes t bpp before before_above (x ∷ xs) [] = []
unfilter_bytes t bpp before before_above (x ∷ xs) (b ∷ bs) =
    let y = (x + added t (back bpp before) b (back bpp before_above)) % 256 in
    y ∷ unfilter_bytes t bpp (y ∷ before) (b ∷ before_above) xs bs

-- `unfilterRow`: the row undone, or `none` for `false`.
unfoldable pub unfilter_row : ℕ → List ℕ → List ℕ → ℕ → Option (List ℕ)
unfolding filter_of unfilter_bytes
unfilter_row type row previous bpp = elim (filter_of type) [
  | none ↦ none
  | some t ↦ some (unfilter_bytes t bpp [] [] row previous)
]
