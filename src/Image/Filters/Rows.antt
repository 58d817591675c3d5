-- ===== src/Image/Filters/Rows.antt =====
-- `unfilterRow` undoes the filters of the PNG specification, which are written here from the
-- specification alone: the byte to the left of a byte is the one `bpp` places before it in the row, 0
-- for the first `bpp`, and a row and the one above are read by shifting them that far.
use nxgt_data.Prelude.{
  ℕ, zero, suc, ◌+◌, ◌-◌, ◌*◌, ◌/◌, ◌%◌, ◌<◌, ◌≡◌, refl, ap, ◌∙◌, subst, ◌&&◌, inl, inr, none, some,
  List, [], ◌∷◌, ◌++◌, length, get_elem?, leb, ltb, ◌==◌, if◌then◌else◌, arith, All, Option-cases,
}
use nxgt_data.Image.Filters.{
  distance, paeth, back, Filter, keep, sub, up, average, paeth_filter, filter_of, added,
  unfilter_bytes, unfilter_row,
}

-- How far apart two numbers are.
abbrev pub gap : ℕ → ℕ → ℕ
gap x y = if ltb x y then y - x else x - y

-- Of left, above and upper left, the one nearest to left + above - upper left, in that order where
-- two are as near: it is |above - upper left| from left, and |left - upper left| from above.
abbrev pub nearest : ℕ → ℕ → ℕ → ℕ
nearest left above up_left =
    let from_left = gap above up_left in
    let from_above = gap left up_left in
    let from_up_left = gap (left + above) (2 * up_left) in
    if leb from_left from_above && leb from_left from_up_left
    then left
    else if leb from_above from_up_left
    then above
    else up_left

-- What filter types 0 to 4 (None, Sub, Up, Average, Paeth) predict of a byte.
abbrev pub predicted : ℕ → ℕ → ℕ → ℕ → ℕ
predicted type left above up_left =
    if type == 0
    then 0
    else if type == 1
    then left
    else if type == 2
    then above
    else if type == 3
    then (left + above) / 2
    else nearest left above up_left

abbrev pub zeros : ℕ → List ℕ
zeros zero = []
zeros (suc n) = 0 ∷ zeros n

-- Each byte less what is predicted of it, modulo 256, from the lists of what is on the left, above,
-- and above on the left of each.
abbrev pub filter_all : ℕ → List ℕ → List ℕ → List ℕ → List ℕ → List ℕ
filter_all type [] above up_left row = []
filter_all type (l ∷ ls) [] up_left row = []
filter_all type (l ∷ ls) (b ∷ bs) [] row = []
filter_all type (l ∷ ls) (b ∷ bs) (u ∷ us) [] = []
filter_all type (l ∷ ls) (b ∷ bs) (u ∷ us) (y ∷ ys) =
    (y + 256 - predicted type l b u) % 256 ∷ filter_all type ls bs us ys

abbrev pub filter_row : ℕ → ℕ → List ℕ → List ℕ → List ℕ
filter_row type bpp row previous =
    filter_all type (zeros bpp ++ row) previous (zeros bpp ++ previous) row

abbrev pub IsBytes : List ℕ → Type 0
IsBytes xs = All (λ x. x < 256) xs

byte_back : (a p : ℕ) → a < 256 → p < 256 → ((a + 256 - p) % 256 + p) % 256 ≡ a
byte_back a p la lp = omega arith

get-byte : (xs : List ℕ) (n x : ℕ) → IsBytes xs → get_elem? xs n ≡ some x → x < 256
get-byte [] n x bs e = cc
get-byte (y ∷ ys) zero x (lt, rest) e =
    let q : y ≡ x = ap (λ o. elim o [ none ↦ y | some z ↦ z ]) e in omega (arith, q, lt)
get-byte (y ∷ ys) (suc n) x (lt, rest) e = get-byte ys n x rest e

distance-gap : (x y z : ℕ) → distance (x + y) (z + x) ≡ gap y z
distance-gap x y z = ground arith

distance-gap_right : (x y z : ℕ) → distance (x + y) (z + y) ≡ gap x z
distance-gap_right x y z = ground arith

distance-gap_twice : (x z : ℕ) → distance x (z + z) ≡ gap x (2 * z)
distance-gap_twice x z = ground arith

paeth-nearest : (a b c : ℕ) → paeth a b c ≡ nearest a b c
unfolding paeth
paeth-nearest a b c =
    rw (← distance-gap a b c, ← distance-gap_right a b c, ← distance-gap_twice (a + b) c) refl

paeth-lt : (a b c : ℕ) → a < 256 → b < 256 → c < 256 → paeth a b c < 256
unfolding paeth
paeth-lt a b c la lb lc = ground arith

added-lt :
    (t : Filter) (left above up_left : ℕ)
    → left < 256
    → above < 256
    → up_left < 256
    → added t left above up_left < 256
unfolding added
added-lt keep l a u pl pa pu = omega arith
added-lt sub l a u pl pa pu = pl
added-lt up l a u pl pa pu = pa
added-lt average l a u pl pa pu = omega arith
added-lt paeth_filter l a u pl pa pu = paeth-lt l a u pl pa pu

back-lt : (n : ℕ) (xs : List ℕ) → IsBytes xs → back n xs < 256
unfolding back
back-lt zero xs bs = omega arith
back-lt (suc n) xs bs = elim (Option-cases (get_elem? xs n)) [
  | inl missing ↦ rw (back, missing) (omega arith)
  | inr (x, found) ↦ rw (back, found) (get-byte xs n x bs found)
]

-- The last `n` bytes before the current one, the farthest first, 0 before the row.
window : ℕ → List ℕ → List ℕ
window zero before = []
window (suc n) before = back (suc n) before ∷ window n before

window-nil : (n : ℕ) → window n [] ≡ zeros n
unfolding window back
window-nil zero = refl
window-nil (suc n) = ap (λ xs. 0 ∷ xs) (window-nil n)

window-step :
    (n : ℕ) (before : List ℕ) (y : ℕ) → window n before ++ (y ∷ []) ≡ window (suc n) (y ∷ before)
unfolding window back
window-step zero before y = refl
window-step (suc n) before y = ap (λ xs. back (suc n) before ∷ xs) (window-step n before y)

append_assoc : (xs : List ℕ) (y : ℕ) (ys : List ℕ) → xs ++ (y ∷ ys) ≡ (xs ++ (y ∷ [])) ++ ys
append_assoc [] y ys = refl
append_assoc (x ∷ xs) y ys = ap (λ zs. x ∷ zs) (append_assoc xs y ys)

window_append :
    (n : ℕ) (before : List ℕ) (y : ℕ) (ys : List ℕ)
    → window n before ++ (y ∷ ys) ≡ window (suc n) (y ∷ before) ++ ys
window_append n before y ys =
    append_assoc (window n before) y ys ∙ ap (λ xs. xs ++ ys) (window-step n before y)

module _ (type : ℕ) (t : Filter) (same : (l a u : ℕ) → added t l a u ≡ predicted type l a u) where
  unfilter-filter_all :
      (n : ℕ) (before before_above ys above : List ℕ)
      → length ys ≡ length above
      → IsBytes before
      → IsBytes before_above
      → IsBytes ys
      → IsBytes above
      → unfilter_bytes t
          (suc n)
          before
          before_above
          (filter_all type
            (window (suc n) before ++ ys)
            above
            (window (suc n) before_above ++ above)
            ys)
          above
        ≡ ys
  unfolding unfilter_bytes window
  unfilter-filter_all n before before_above [] [] l p q r s = refl
  unfilter-filter_all n before before_above [] (b ∷ bs) l p q r s = absurd (omega (arith, l))
  unfilter-filter_all n before before_above (y ∷ ys) [] l p q r s = absurd (omega (arith, l))
  unfilter-filter_all n before before_above (y ∷ ys) (b ∷ bs) l p q (ry, r) (sb, s) =
      let left = back (suc n) before in
      let up_left = back (suc n) before_above in
      let lt =
        added-lt t left b up_left (back-lt (suc n) before p) sb (back-lt (suc n) before_above q) in
      let e : ((y + 256 - predicted type left b up_left) % 256 + added t left b up_left) % 256 ≡ y =
        rw (← same left b up_left) (byte_back y (added t left b up_left) ry lt) in
      rw (
        e,
        window_append n before y ys,
        window_append n before_above b bs,
        unfilter-filter_all n (y ∷ before) (b ∷ before_above) ys bs (omega (arith, l)) (ry, p)
            (sb, q) r s,
      )

-- The code's filter of each type that it accepts.
filter-predicted :
    (type : ℕ)
    → type < 5
    → (t : Filter) × (filter_of type ≡ some t)
      × ((l a u : ℕ) → added t l a u ≡ predicted type l a u)
unfolding filter_of added
filter-predicted zero _ = (keep, refl, λ l a u. refl)
filter-predicted (suc zero) _ = (sub, refl, λ l a u. refl)
filter-predicted (suc (suc zero)) _ = (up, refl, λ l a u. refl)
filter-predicted (suc (suc (suc zero))) _ = (average, refl, λ l a u. refl)
filter-predicted (suc (suc (suc (suc zero)))) _ = (paeth_filter, refl, paeth-nearest)
filter-predicted (suc (suc (suc (suc (suc n))))) lt = absurd (omega (arith, lt))

-- A row of bytes that was filtered as the PNG specification has it, by one of its types 0 to 4 and
-- for at least one byte to a pixel, against a row above of the same length, comes back from
-- `unfilterRow` with that type.
pub unfilter-filter :
    (type bpp : ℕ) (row previous : List ℕ)
    → type < 5
    → 0 < bpp
    → length row ≡ length previous
    → IsBytes row
    → IsBytes previous
    → unfilter_row type (filter_row type bpp row previous) previous bpp ≡ some row
unfolding unfilter_row
unfilter-filter type zero row previous lt pos l r s = absurd (omega (arith, pos))
unfilter-filter type (suc n) row previous lt pos l r s =
    let (t, e, same) = filter-predicted type lt in
    let back_again =
      subst
        (λ q.
          unfilter_bytes t (suc n) [] [] (filter_all type (q ++ row) previous (q ++ previous) row)
            previous
          ≡ row)
        (window-nil (suc n)) (unfilter-filter_all type t same n [] [] row previous l tt tt r s) in
    rw (unfilter_row, e) (ap some back_again)
