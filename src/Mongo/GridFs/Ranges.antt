-- ===== src/Mongo/GridFs/Ranges.antt =====
-- What is written is read back, whole or by ranges.
use native.Mathlib.Nat.{mul-le-mul_right, div-mul-le_self, lt-div-mul-add, le-div_iff_mul-le}
use nxgt_data.Prelude.{
  ℕ, ◌+◌, ◌-◌, ◌*◌, ◌/◌, ◌≤◌, ◌<◌, ◌≡◌, refl, sym, ap, ◌∙◌, subst, inl, inr, false, ◌&&◌, Option,
  none, some, List, [], ◌∷◌, ◌++◌, length, take, drop, leb, ◌==◌, min, arith, Bool-cases,
  length-append, length-take, length-drop, leb→le, ==_iff,
}
use nxgt_data.Mongo.GridFs.{
  bytes, Chunk, write_chunks, closed, pull_all, read_chunks, clamp_start, clamp_end, last_chunk,
}
use nxgt_data.Mongo.GridFs.Writes.{
  Full, Layout, GoodWrite, GoodWrite-map, Stored, concat, append_nil, append_assoc,
  write_chunks-Stored,
}
use nxgt_data.Mongo.GridFs.Reads.{
  between, drop_all, window-append, Pieces, suc_mul, window, pull_from,
}

minus_none : (n u : ℕ) → n - 0 * u ≡ n
minus_none n u = omega arith

strict : (a b : ℕ) → (a == b) ≡ false → b ≤ a → b < a
strict a b e le = ground arith

over : (a b : ℕ) → leb a b ≡ false → b + 1 ≤ a
over a b e = ground arith

too_early : (a n k b : ℕ) → n ≡ k → leb a k ≡ false → (leb a n && leb n b) ≡ false
too_early a n k b e p = ground arith

module _ (size start end last first : ℕ) (some_size : 0 < size) (nonempty : start < end)
    (last_below : last * size < end) (last_reaches : end ≤ last * size + size)
    (first_below : first * size ≤ start) (first_reaches : start < first * size + size) where
  window-skip :
      {A : Type 0} (k : ℕ) (xs d ys : List A)
      → length d ≡ size
      → xs ≡ d ++ ys
      → (k + 1) * size ≤ first * size
      → window size start end last some_size nonempty last_below last_reaches k xs
        ≡ window size start end last some_size nonempty last_below last_reaches (k + 1) ys
  window-skip k xs d ys full eq le =
      let m : (k + 1) * size ≡ k * size + size = suc_mul k size in
      let s = start - k * size in
      let e = end - k * size in
      let none_of_d : drop s (take e d) ≡ [] =
        drop_all s (take e d) (omega (arith, length-take e d, full, m, le, first_below)) in
      let p : s - min e (length d) ≡ start - (k + 1) * size =
        omega (arith, full, m, le, first_below, nonempty) in
      let q : e - length d ≡ end - (k + 1) * size = omega (arith, full, m) in
      ap (λ y. drop s (take e y)) eq
      ∙ window-append s e d ys
      ∙ ap (λ y. y ++ drop (s - min e (length d)) (take (e - length d) ys)) none_of_d
      ∙ ap (λ y. drop y (take (e - length d) ys)) p
      ∙ ap (λ y. drop (start - (k + 1) * size) (take y ys)) q

  abbrev Gives : {Key A : Type 0} → ℕ → List (Chunk Key A) → List A → Type 0
  Gives k cs xs =
      pull_all size start end last (between first last cs) first 0
      ≡ (window size start end last some_size nonempty last_below last_reaches k xs, closed)

  pull_reached :
      {Key A : Type 0} (k : ℕ) (cs : List (Chunk Key A)) (xs : List A)
      → Pieces size k cs xs
      → k ≡ first
      → end ≤ k * size + length xs
      → Gives k cs xs
  pull_reached k cs xs ps same le =
      let le' : end ≤ first * size + length xs = subst (λ j. end ≤ j * size + length xs) same le in
      let l : length (drop (start - first * size) (take (end - first * size) xs)) ≡ end - start =
        omega (
          arith,
          length-drop (start - first * size) (take (end - first * size) xs),
          length-take (end - first * size) xs,
          le',
          first_below,
          nonempty,
        ) in
      subst (λ j. Gives j cs xs) (sym same)
        (pull_from size start end last some_size nonempty last_below last_reaches first first cs xs
          0 (subst (λ j. Pieces size j cs xs) same ps) (omega arith) first_reaches le'
          (omega (arith, l)))

  pull_range :
      {Key A : Type 0} (k : ℕ) (cs : List (Chunk Key A)) (xs : List A)
      → Pieces size k cs xs
      → k ≤ first
      → end ≤ k * size + length xs
      → Gives k cs xs
  pull_range k [] xs ps kf le =
      let l : length xs ≡ 0 = ap length ps in
      let m : k * size ≤ first * size = mul-le-mul_right size kf in
      absurd (omega (arith, l, m, le, first_below, nonempty))
  pull_range k (c ∷ cs) xs (d, ys, n, b, le_d, or, eq, rest) kf le =
      elim (Bool-cases (leb first k)) [
        | inl reached ↦
            pull_reached k (c ∷ cs) xs (d, ys, n, b, le_d, or, eq, rest)
              (omega (arith, kf, leb→le first k reached)) le
        | inr before ↦
            (let m : (k + 1) * size ≡ k * size + size = suc_mul k size in
              let m' : (k + 1) * size ≤ first * size =
                mul-le-mul_right size (over first k before) in
              let l : length xs ≡ length d + length ys = ap length eq ∙ length-append d ys in
              let full : length d ≡ size = elim or [
                | inl whole ↦ whole
                | inr nil ↦
                    (let z : length ys ≡ 0 = ap length nil in
                      absurd (omega (arith, z, l, le, le_d, m, m', first_below, nonempty)))
              ] in
              let out : (leb first c.n && leb c.n last) ≡ false =
                too_early first c.n k last n before in
              rw out (
                pull_range (k + 1) cs ys rest (over first k before) (omega (arith, m, l, le, full))
                ∙ ap (λ y. (y, closed)) (sym (window-skip k xs d ys full eq m'))))
      ]

Full-Pieces :
    {Key A : Type 0} (size k : ℕ) (cs : List (Chunk Key A)) (xs : List A)
    → Full size k cs xs
    → Pieces size k cs xs
Full-Pieces size k [] xs full = full
Full-Pieces size k (c ∷ cs) xs (d, ys, n, b, l, eq, rest) =
    (d, ys, n, b, omega (arith, l), inl l, eq, Full-Pieces size (k + 1) cs ys rest)

last-Pieces :
    {Key A : Type 0} (size k : ℕ) (full : List (Chunk Key A)) (c : Chunk Key A) (pre d : List A)
    → Full size k full pre
    → c.n ≡ k + length full
    → c.content ≡ bytes d
    → length d < size
    → Pieces size k (full ++ (c ∷ [])) (pre ++ d)
last-Pieces size k [] c pre d full n b lt = (
  d,
  [],
  n ∙ omega arith,
  b,
  omega (arith, lt),
  inr refl,
  ap (λ y. y ++ d) full ∙ sym (append_nil d),
  refl,
)
last-Pieces size k (e ∷ es) c pre d (d', ys, n', b', l', eq, rest) n b lt = (
  d',
  ys ++ d,
  n',
  b',
  omega (arith, l'),
  inl l',
  ap (λ y. y ++ d) eq ∙ append_assoc d' ys d,
  last-Pieces size (k + 1) es c ys d rest (n ∙ omega arith) b lt,
)

Layout-Pieces :
    {Key A : Type 0} (size : ℕ) (cs : List (Chunk Key A)) (xs : List A)
    → Layout size 0 cs xs
    → Pieces size 0 cs xs
Layout-Pieces size cs xs (inl full) = Full-Pieces size 0 cs xs full
Layout-Pieces size cs xs (inr (full, c, pre, d, split, whole, n, b, some_d, lt, eq)) =
    subst (λ y. Pieces size 0 y xs) (sym split)
      (subst (λ y. Pieces size 0 (full ++ (c ∷ [])) y) (sym eq)
        (last-Pieces size 0 full c pre d whole n b lt))

-- The bytes of a range of a file, with both ends moved into it.
abbrev pub range_of : {A : Type 0} → Option ℕ → Option ℕ → List A → List A
range_of from until xs =
    let start = clamp_start from (length xs) in
    drop start (take (clamp_end until start (length xs)) xs)

clamp_end-le :
    (from until : Option ℕ) (len : ℕ)
    → (clamp_end until (clamp_start from len) len ≤ len)
      × (clamp_start from len ≤ clamp_end until (clamp_start from len) len)
clamp_end-le none none len = (omega arith, omega arith)
clamp_end-le none (some e) len = (omega arith, omega arith)
clamp_end-le (some s) none len = (omega arith, omega arith)
clamp_end-le (some s) (some e) len = (omega arith, omega arith)

-- The last chunk of a range holds its last byte.
last_chunk-bounds :
    (end size : ℕ)
    → 0 < size
    → 0 < end
    → (last_chunk end size * size < end) × (end ≤ last_chunk end size * size + size)
last_chunk-bounds end size some_size some_end =
    let q = (end + size - 1) / size in
    let below : q * size ≤ end + size - 1 = div-mul-le_self (end + size - 1) size in
    let reaches : end + size - 1 < q * size + size = lt-div-mul-add some_size in
    let one : 1 ≤ q = (le-div_iff_mul-le some_size).1 (omega (arith, some_end)) in
    let m : (q - 1) * size + size ≡ q * size =
      sym (suc_mul (q - 1) size) ∙ ap (λ y. y * size) (omega (arith, one)) in
    (omega (arith, below, m, some_size), omega (arith, reaches, m))

module _ {Key A : Type 0} (find : ℕ → ℕ → List (Chunk Key A) → List (Chunk Key A)) (size : ℕ)
    (some_size : 0 < size)
    (find_between : (lo hi : ℕ) (cs : List (Chunk Key A)) (xs : List A)
      → Layout size 0 cs xs
      → find lo hi cs ≡ between lo hi cs) where
  -- Of chunks that hold `xs` by number, every range reads as the bytes of `xs` in it, and the stream
  -- closes without an error.
  pub read_chunks_range :
      (cs : List (Chunk Key A)) (xs : List A) (from until : Option ℕ)
      → Layout size 0 cs xs
      → read_chunks find size (length xs) from until cs ≡ (range_of from until xs, closed)
  unfolding read_chunks
  read_chunks_range cs xs from until layout =
      let start = clamp_start from (length xs) in
      let end = clamp_end until start (length xs) in
      let bounds = clamp_end-le from until (length xs) in
      elim (Bool-cases (end == start)) [
        | inl none_asked ↦
            (let e : end ≡ start = (==_iff end start).0 none_asked in
              let nil : drop start (take end xs) ≡ [] =
                drop_all start (take end xs) (omega (arith, length-take end xs, e)) in
              rw (read_chunks, none_asked, nil))
        | inr asked ↦
            (let some_asked : start < end = strict end start asked bounds.1 in
              let l = last_chunk-bounds end size some_size (omega (arith, some_asked)) in
              let r =
                pull_range size start end (last_chunk end size) (start / size) some_size some_asked
                  l.0 l.1 (div-mul-le_self start size) (lt-div-mul-add some_size) 0 cs xs
                  (Layout-Pieces size cs xs layout) (omega arith) (omega (arith, bounds.0)) in
              let z : (n : ℕ) → n - 0 * size ≡ n = (λ n. minus_none n size) in
              let w : drop (start - 0 * size) (take (end - 0 * size) xs)
                  ≡ drop start (take end xs) =
                ap (λ n. drop n (take (end - 0 * size) xs)) (z start)
                ∙ ap (λ n. drop start (take n xs)) (z end) in
              rw
                (read_chunks, asked, find_between (start / size) (last_chunk end size) cs xs layout)
                (r ∙ ap (λ y. (y, closed)) w))
      ]

  module _ (new_id : ℕ → Key) (lands : ℕ → Option ℕ) (fine : (k : ℕ) → lands k ≡ none) where
    -- Where chunks have a size and no insert fails, what `writeChunks` stored of a source reads back,
    -- whole or by any range, as the bytes of the source in that range; the stream closes without an
    -- error. The cursor is taken to give the chunks of the asked numbers, by number.
    pub read-write :
        (source : List (List A)) (from until : Option ℕ)
        → GoodWrite
            (λ w.
              read_chunks find size w.total from until w.stored
              ≡ (range_of from until (concat source), closed))
            (write_chunks new_id lands size source)
    read-write source from until =
        GoodWrite-map (Stored size new_id lands fine some_size (concat source)) _
          (write_chunks new_id lands size source)
          (write_chunks-Stored size new_id lands fine some_size source)
          (λ w s.
            ap (λ n. read_chunks find size n from until w.stored) s.1
            ∙ read_chunks_range w.stored (concat source) from until s.0)
