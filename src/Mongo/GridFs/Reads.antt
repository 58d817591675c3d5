-- ===== src/Mongo/GridFs/Reads.antt =====
-- What `readChunks` gives of chunks that hold some bytes: the bytes of the range.
use native.Mathlib.Nat.{mul-le-mul_right}
use nxgt_data.Prelude.{
  ℕ, zero, suc, ◌+◌, ◌-◌, ◌*◌, ◌≤◌, ◌<◌, ◌≡◌, refl, sym, ap, ◌∙◌, ◌⊎◌, inl, inr, true, false, ◌&&◌,
  List, [], ◌∷◌, ◌++◌, length, take, drop, select, leb, ◌==◌, min, arith, Bool-cases, length-append,
  length-take, leb→le, le→leb, ==_iff,
}
use nxgt_data.Mongo.GridFs.{bytes, Chunk, cut, finish_read, closed, pull_all}
use nxgt_data.Mongo.GridFs.Writes.{append_nil}

-- The cursor over chunks that are stored by number.
abbrev pub between : {Key A : Type 0} → ℕ → ℕ → List (Chunk Key A) → List (Chunk Key A)
between lo hi cs = select (λ c. leb lo c.n && leb c.n hi) cs

pub sub_zero : (n : ℕ) → n - 0 ≡ n
sub_zero n = omega arith

zero_sub : (n : ℕ) → 0 - n ≡ 0
zero_sub n = omega arith

suc_sub : (n m : ℕ) → suc n - suc m ≡ n - m
suc_sub n m = omega arith

take-nil : {A : Type 0} (n : ℕ) → take {A = A} n [] ≡ []
take-nil zero = refl
take-nil (suc n) = refl

drop-nil : {A : Type 0} (n : ℕ) → drop {A = A} n [] ≡ []
drop-nil zero = refl
drop-nil (suc n) = refl

take-append :
    {A : Type 0} (n : ℕ) (xs ys : List A) → take n (xs ++ ys) ≡ take n xs ++ take (n - length xs) ys
take-append {A = A} n [] ys = rw (take-nil {A = A} n, sub_zero n)
take-append zero (x ∷ xs) ys = rw (zero_sub (suc (length xs)))
take-append (suc n) (x ∷ xs) ys =
    ap (λ t. x ∷ t) (take-append n xs ys)
    ∙ ap (λ m. x ∷ (take n xs ++ take m ys)) (sym (suc_sub n (length xs)))

pub drop-append :
    {A : Type 0} (n : ℕ) (xs ys : List A) → drop n (xs ++ ys) ≡ drop n xs ++ drop (n - length xs) ys
drop-append {A = A} n [] ys = rw (drop-nil {A = A} n, sub_zero n)
drop-append zero (x ∷ xs) ys = rw (zero_sub (suc (length xs)))
drop-append (suc n) (x ∷ xs) ys =
    drop-append n xs ys ∙ ap (λ m. drop n xs ++ drop m ys) (sym (suc_sub n (length xs)))

pub drop_all : {A : Type 0} (n : ℕ) (xs : List A) → length xs ≤ n → drop n xs ≡ []
drop_all zero [] le = refl
drop_all zero (x ∷ xs) le = absurd (omega (arith, le))
drop_all (suc n) [] le = refl
drop_all (suc n) (x ∷ xs) le = drop_all n xs (omega (arith, le))

-- A window of two lists put together.
pub window-append :
    {A : Type 0} (s e : ℕ) (xs ys : List A)
    → drop s (take e (xs ++ ys))
      ≡ drop s (take e xs) ++ drop (s - min e (length xs)) (take (e - length xs) ys)
window-append s e xs ys =
    ap (drop s) (take-append e xs ys)
    ∙ drop-append s (take e xs) (take (e - length xs) ys)
    ∙ ap (λ n. drop s (take e xs) ++ drop (s - n) (take (e - length xs) ys)) (length-take e xs)

is_in : (a n k b : ℕ) → n ≡ k → leb a k ≡ true → leb k b ≡ true → (leb a n && leb n b) ≡ true
is_in a n k b e p q = ground arith

pub not_in : (a n b : ℕ) → b < n → (leb a n && leb n b) ≡ false
not_in a n b lt = ground arith

over : (a b : ℕ) → leb b a ≡ false → a + 1 ≤ b
over a b e = ground arith

pub over_lt : (a b : ℕ) → leb b a ≡ false → a < b
over_lt a b e = ground arith

pub suc_mul : (n u : ℕ) → (n + 1) * u ≡ n * u + u
suc_mul n u = grind arith

lt_of_le_lt : {a b c : ℕ} → a ≤ b → b < c → a < c
lt_of_le_lt p q = omega arith

-- Chunks numbered from `k` on that hold `xs`, each of the whole size unless nothing follows.
abbrev pub Pieces : {Key A : Type 0} → ℕ → ℕ → List (Chunk Key A) → List A → Type 0
Pieces size k [] xs = xs ≡ []
Pieces {A = A} size k (c ∷ cs) xs =
    (d : List A) × (ys : List A) × (c.n ≡ k)
    × (c.content ≡ bytes d)
    × (length d ≤ size)
    × ((length d ≡ size) ⊎ (ys ≡ []))
    × (xs ≡ d ++ ys)
    × Pieces size (k + 1) cs ys

window_from_nil : {A : Type 0} (s e : ℕ) → drop s (take {A = A} e []) ≡ []
window_from_nil {A = A} s e = ap (drop s) (take-nil {A = A} e) ∙ drop-nil {A = A} s

-- A window that reaches past a first part of `size`, or of all there is.
window-cons :
    {A : Type 0} (s e size : ℕ) (d ys : List A)
    → (length d ≡ size) ⊎ (ys ≡ [])
    → s ≤ min e size
    → drop s (take e (d ++ ys)) ≡ drop s (take e d) ++ drop 0 (take (e - size) ys)
window-cons s e size d ys (inl full) le =
    window-append s e d ys
    ∙ (let z : s - min e (length d) ≡ 0 = omega (arith, full, le) in
        let q : e - length d ≡ e - size = ap (λ l. e - l) full in rw (z, q))
window-cons {A = A} s e size d ys (inr nil) le =
    ap (λ y. drop s (take e (d ++ y))) nil
    ∙ ap (λ y. drop s (take e y)) (append_nil d)
    ∙ sym (append_nil (drop s (take e d)))
    ∙ ap (λ y. drop s (take e d) ++ y)
        (sym (window_from_nil {A = A} 0 (e - size))
          ∙ ap (λ y. drop 0 (take (e - size) y)) (sym nil))

min_zero : (n : ℕ) → min n 0 ≡ 0
min_zero n = omega arith

min-suc : (m n : ℕ) → min (suc m) (suc n) ≡ suc (min m n)
min-suc m n = omega arith

take-min : {A : Type 0} (e : ℕ) (d : List A) → take (min (length d) e) d ≡ take e d
take-min e [] = rw (take-nil e, take-nil (min 0 e))
take-min zero (x ∷ xs) = rw (min_zero (suc (length xs)))
take-min (suc e) (x ∷ xs) =
    ap (λ m. take m (x ∷ xs)) (min-suc (length xs) e) ∙ ap (λ t. x ∷ t) (take-min e xs)

module _ (size start end last : ℕ) (some_size : 0 < size) (nonempty : start < end)
    (last_below : last * size < end) (last_reaches : end ≤ last * size + size) where
  -- Past the last chunk the cursor has nothing.
  between-beyond :
      {Key A : Type 0} (first k : ℕ) (cs : List (Chunk Key A)) (xs : List A)
      → Pieces size k cs xs
      → last < k
      → between first last cs ≡ []
  between-beyond first k [] xs ps lt = refl
  between-beyond first k (c ∷ cs) xs (d, ys, n, b, le, or, eq, rest) lt =
      let out : (leb first c.n && leb c.n last) ≡ false =
        not_in first c.n last (omega (arith, n, lt)) in
      rw out (between-beyond first (k + 1) cs ys rest (omega (arith, lt)))

  -- The bytes of the range that are among `xs`, which start at chunk `k`.
  abbrev pub window : {A : Type 0} → ℕ → List A → List A
  window k xs = drop (start - k * size) (take (end - k * size) xs)

  end_of_read :
      (k sent : ℕ)
      → leb k last ≡ false
      → sent ≡ end - start
      → finish_read size start end last k sent ≡ closed
  unfolding finish_read
  end_of_read k sent past e =
      let t : (sent == end - start) ≡ true = (==_iff sent (end - start)).1 e in
      rw (finish_read, past, t)

  before_end : (k : ℕ) → leb k last ≡ true → k * size < end
  before_end k e = lt_of_le_lt (mul-le-mul_right size (leb→le k last e)) last_below

  after_end : (k : ℕ) → leb k last ≡ false → end ≤ k * size
  after_end k e =
      let m : (last + 1) * size ≤ k * size = mul-le-mul_right size (over last k e) in
      let q : (last + 1) * size ≡ last * size + size = suc_mul last size in
      omega (arith, m, q, last_reaches)

  -- What one chunk gives, and what is left for the ones after it.
  window-split :
      {A : Type 0} (k : ℕ) (xs d ys : List A)
      → (length d ≡ size) ⊎ (ys ≡ [])
      → xs ≡ d ++ ys
      → start < k * size + size
      → k * size < end
      → window k xs ≡ cut size start end last k d ++ window (k + 1) ys
  unfolding cut
  window-split k xs d ys or eq lo before =
      let m : (k + 1) * size ≡ k * size + size = suc_mul k size in
      let s0 : start - (k + 1) * size ≡ 0 = omega (arith, m, lo) in
      let e0 : end - (k + 1) * size ≡ end - k * size - size = omega (arith, m) in
      ap (window k) eq
      ∙ window-cons (start - k * size) (end - k * size) size d ys or
          (omega (arith, lo, nonempty, before))
      ∙ ap (λ y. drop (start - k * size) y ++ drop 0 (take (end - k * size - size) ys))
          (sym (take-min (end - k * size) d))
      ∙ ap (λ p. cut size start end last k d ++ drop p (take (end - k * size - size) ys)) (sym s0)
      ∙ ap (λ p. cut size start end last k d ++ drop (start - (k + 1) * size) (take p ys)) (sym e0)

  pub pull_from :
      {Key A : Type 0} (first k : ℕ) (cs : List (Chunk Key A)) (xs : List A) (sent : ℕ)
      → Pieces size k cs xs
      → first ≤ k
      → start < k * size + size
      → end ≤ k * size + length xs
      → sent + length (window k xs) ≡ end - start
      → pull_all size start end last (between first last cs) k sent ≡ (window k xs, closed)
  unfolding pull_all
  pull_from {A = A} first k [] xs sent ps fk lo le total = elim (Bool-cases (leb k last)) [
    | inl within ↦
        let b = before_end k within in
        let l : length xs ≡ 0 = ap length ps in absurd (omega (arith, b, l, le))
    | inr past ↦
        (let nil : window k xs ≡ [] =
            ap (window k) ps ∙ window_from_nil {A = A} (start - k * size) (end - k * size) in
          let l : length (window k xs) ≡ 0 = ap length nil in
          let f = end_of_read k sent past (omega (arith, total, l)) in rw (nil, pull_all, f))
  ]
  pull_from {A = A} first k (c ∷ cs) xs sent (d, ys, n, b, le_d, or, eq, rest) fk lo le total =
      elim (Bool-cases (leb k last)) [
        | inr past ↦
            (let none_left =
                between-beyond first k (c ∷ cs) xs (d, ys, n, b, le_d, or, eq, rest)
                  (over_lt last k past) in
              let z : end - k * size ≡ 0 = omega (arith, after_end k past) in
              let nil : window k xs ≡ [] =
                ap (λ e. drop (start - k * size) (take e xs)) z
                ∙ drop-nil {A = A} (start - k * size) in
              let l : length (window k xs) ≡ 0 = ap length nil in
              let f = end_of_read k sent past (omega (arith, total, l)) in
              rw none_left (rw (nil, pull_all, f)))
        | inl within ↦
            (let chosen : (leb first c.n && leb c.n last) ≡ true =
                is_in first c.n k last n (le→leb first k fk) within in
              let same : (c.n == k) ≡ true = (==_iff c.n k).1 n in
              let sum : cut size start end last k d ++ window (k + 1) ys ≡ window k xs =
                sym (window-split k xs d ys or eq lo (before_end k within)) in
              let m : (k + 1) * size ≡ k * size + size = suc_mul k size in
              let l : length xs ≡ length d + length ys = ap length eq ∙ length-append d ys in
              let t : length (window k xs)
                  ≡ length (cut size start end last k d) + length (window (k + 1) ys) =
                ap length (sym sum)
                ∙ length-append (cut size start end last k d) (window (k + 1) ys) in
              let ih =
                pull_from first (k + 1) cs ys (sent + length (cut size start end last k d)) rest
                  (omega (arith, fk)) (omega (arith, lo, m)) (omega (arith, m, l, le, le_d))
                  (omega (arith, total, t)) in
              rw chosen (rw (pull_all, same, b, ih, sum)))
      ]
