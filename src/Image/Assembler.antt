-- ===== src/Image/Assembler.antt =====
-- `createRowAssembler` of packages/image/src/crop/row-assembler.ts: inflated bytes, in parts of any
-- size, into rows. `on_row` is the caller's; a row is given without its filter byte.
pub mod Parts
use nxgt_data.Prelude.{
  ℕ, zero, suc, ◌+◌, ◌-◌, Bool, true, false, Option, none, some, List, [], ◌∷◌, ◌++◌, length, take,
  drop, replicate, leb, ltb, min, if◌then◌else◌,
}
use nxgt_data.Image.Filters.{unfilter_row}

-- `previous` without its filter byte, the filled part of `current`, `y`, and the rows given.
pub record Rows : Type 0 where
  pub previous : List ℕ
  pub filled : List ℕ
  pub y : ℕ
  pub given : List (List ℕ)

-- `feed` returns `true` or `false`, or refuses.
pub data Fed : Type 0 where
  more stopped : Rows → Fed
  refused : Fed

infixl 5 ◌>>=◌
abbrev pub ◌>>=◌ : Fed → (Rows → Fed) → Fed
more st >>= k = k st
stopped st >>= k = stopped st
refused >>= k = refused

module _ (stride height bpp : ℕ) (on_row : List ℕ → ℕ → Bool) where
  -- A buffer that is full: its filter byte, then the row.
  pub finish_row : List ℕ → Rows → Fed
  finish_row [] st = refused
  finish_row (type ∷ row) st = elim (unfilter_row type row st.previous bpp) [
    | none ↦ refused
    | some r ↦
        if on_row r st.y
        then more (record { previous = r; filled = []; y = st.y + 1; given = st.given ++ (r ∷ []) })
        else stopped
            (record { previous = r; filled = []; y = st.y + 1; given = st.given ++ (r ∷ []) })
  ]

  -- `filled` with more bytes: still short of a row, or a row.
  pub filled_to : List ℕ → Rows → Fed
  unfolding finish_row
  filled_to filled st =
      if ltb (length filled) (stride + 1)
      then more (record st { filled = filled })
      else finish_row filled st

  -- The loop of `feed`, on fuel.
  pub feed_all : ℕ → List ℕ → Rows → Fed
  unfolding filled_to
  feed_all zero part st = more st
  feed_all (suc k) [] st = more st
  feed_all (suc k) (b ∷ bs) st =
      let took = min (length (b ∷ bs)) (stride + 1 - length st.filled) in
      (if leb height st.y then refused else filled_to (st.filled ++ take took (b ∷ bs)) st)
      >>= feed_all k (drop took (b ∷ bs))

  -- `feed`
  unfoldable pub feed : List ℕ → Rows → Fed
  unfolding feed_all
  feed part st = feed_all (length part) part st

-- A new assembler: the row above the first is all 0.
unfoldable pub no_rows : ℕ → Rows
no_rows stride = record { previous = replicate stride 0; filled = []; y = 0; given = [] }
