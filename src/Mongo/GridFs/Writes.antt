-- ===== src/Mongo/GridFs/Writes.antt =====
-- What `writeChunks` stores: chunks of the whole size, by number, and the rest in a last one.
use nxgt_data.Prelude.{
  ℕ, zero, suc, ◌+◌, ◌-◌, ◌≤◌, ◌<◌, ◌≡◌, refl, sym, ap, ◌∙◌, subst, ◌⊎◌, inl, inr, false, Option,
  none, List, [], ◌∷◌, ◌++◌, length, take, drop, leb, ltb, ltb→lt, ◌==◌, min, arith, Bool-cases,
  ==_iff, take-append-drop, length-append, length-take, length-drop,
}
use nxgt_data.Mongo.GridFs.{
  bytes, Chunk, Writer, Wrote, ok, threw, ◌>>=◌, batch_size, insert_many, flush_batch, emit,
  take_piece, fill, write_pieces, no_bytes, finish, close, write_source, write_chunks,
}

pub append_nil : {A : Type 0} (xs : List A) → xs ++ [] ≡ xs
append_nil [] = refl
append_nil (x ∷ xs) = rw (append_nil xs)

pub append_assoc : {A : Type 0} (xs ys zs : List A) → (xs ++ ys) ++ zs ≡ xs ++ (ys ++ zs)
append_assoc [] ys zs = refl
append_assoc (x ∷ xs) ys zs = rw (append_assoc xs ys zs)

pub List-cases : {A : Type 0} (xs : List A) → (xs ≡ []) ⊎ ((y : A) × (ys : List A) × (xs ≡ y ∷ ys))
List-cases [] = inl refl
List-cases (x ∷ xs) = inr (x, xs, refl)

-- All the bytes of a source.
abbrev pub concat : {A : Type 0} → List (List A) → List A
concat [] = []
concat (xs ∷ xss) = xs ++ concat xss

abbrev pub GoodWrite : {Key A : Type 0} → (Writer Key A → Type 0) → Wrote Key A → Type 0
GoodWrite P (ok w) = P w
GoodWrite P (threw w) = ⊥

pub GoodWrite-bind :
    {Key A : Type 0} (P Q : Writer Key A → Type 0) (r : Wrote Key A)
    (k : Writer Key A → Wrote Key A)
    → GoodWrite P r
    → ((w : Writer Key A) → P w → GoodWrite Q (k w))
    → GoodWrite Q (r >>= k)
GoodWrite-bind P Q (ok w) k p f = f w p
GoodWrite-bind P Q (threw w) k p f = absurd p

pub GoodWrite-map :
    {Key A : Type 0} (P Q : Writer Key A → Type 0) (r : Wrote Key A)
    → GoodWrite P r
    → ((w : Writer Key A) → P w → Q w)
    → GoodWrite Q r
GoodWrite-map P Q (ok w) p f = f w p
GoodWrite-map P Q (threw w) p f = absurd p

zero_below_suc : (n : ℕ) → ltb 0 (suc n) ≡ false → ⊥
zero_below_suc n e = ground arith

empty : {A : Type 0} (xs : List A) → ltb 0 (length xs) ≡ false → xs ≡ []
empty [] e = refl
empty (x ∷ xs) e = absurd (zero_below_suc (length xs) e)

below : (a b : ℕ) → (a == b) ≡ false → a ≤ b → a < b
below a b e l = ground arith

module _ {Key A : Type 0} (size : ℕ) where
  -- Chunks numbered from `k` on, each of the whole size, that hold `xs`.
  abbrev pub Full : ℕ → List (Chunk Key A) → List A → Type 0
  Full k [] xs = xs ≡ []
  Full k (c ∷ cs) xs =
      (d : List A) × (ys : List A) × (c.n ≡ k)
      × (c.content ≡ bytes d)
      × (length d ≡ size)
      × (xs ≡ d ++ ys)
      × Full (k + 1) cs ys

  -- The same, with a last chunk that may be shorter, but not empty.
  abbrev pub Layout : ℕ → List (Chunk Key A) → List A → Type 0
  Layout k cs xs =
      Full k cs xs
      ⊎ ((full : List (Chunk Key A)) × (c : Chunk Key A) × (pre d : List A) × (cs
            ≡ full ++ (c ∷ []))
          × Full k full pre
          × (c.n ≡ k + length full)
          × (c.content ≡ bytes d)
          × (0 < length d)
          × (length d < size)
          × (xs ≡ pre ++ d))

  Full-snoc :
      (k : ℕ) (cs : List (Chunk Key A)) (xs : List A) (c : Chunk Key A) (d : List A)
      → Full k cs xs
      → c.n ≡ k + length cs
      → c.content ≡ bytes d
      → length d ≡ size
      → Full k (cs ++ (c ∷ [])) (xs ++ d)
  Full-snoc k [] xs c d full n b l =
      (d, [], n ∙ omega arith, b, l, ap (λ y. y ++ d) full ∙ sym (append_nil d), refl)
  Full-snoc k (e ∷ es) xs c d (d', ys, n', b', l', eq, rest) n b l = (
    d',
    ys ++ d,
    n',
    b',
    l',
    ap (λ y. y ++ d) eq ∙ append_assoc d' ys d,
    Full-snoc (k + 1) es ys c d rest (n ∙ omega arith) b l,
  )

  -- The writer has taken `xs`: in full chunks, but for what `held` has.
  record Has (xs : List A) (t : ℕ) (w : Writer Key A) : Type 0 where
    pre : List A
    full : Full 0 (w.stored ++ w.batch) pre
    covers : xs ≡ pre ++ w.held
    numbered : w.n ≡ length (w.stored ++ w.batch)
    room : length w.held < size
    counted : w.total ≡ t

  module _ (new_id : ℕ → Key) (lands : ℕ → Option ℕ) (fine : (k : ℕ) → lands k ≡ none)
      (some_size : 0 < size) where
    flush_batch-Has :
        (xs : List A) (t : ℕ) (w : Writer Key A)
        → Has xs t w
        → GoodWrite
            (λ v. Has xs t v × (v.batch ≡ []) × (v.held ≡ w.held))
            (flush_batch new_id lands size w)
    unfolding flush_batch insert_many
    flush_batch-Has xs t w h = elim (List-cases w.batch) [
      | inl none_held ↦ rw (flush_batch, none_held) (h, none_held, refl)
      | inr (c, cs, held) ↦
          rw (flush_batch, held, fine w.calls)
            (
              record {
                pre = h.pre;
                full =
                    subst (λ b. Full 0 b h.pre)
                      (ap (λ b. w.stored ++ b) held ∙ sym (append_nil (w.stored ++ (c ∷ cs))))
                      h.full;
                covers = h.covers;
                numbered =
                    h.numbered
                    ∙ ap length
                        (ap (λ b. w.stored ++ b) held ∙ sym (append_nil (w.stored ++ (c ∷ cs))));
                room = h.room;
                counted = h.counted;
              },
              refl,
              refl,
            )
    ]

    flush_batch-keeps :
        (xs : List A) (t : ℕ) (w : Writer Key A)
        → Has xs t w
        → GoodWrite (Has xs t) (flush_batch new_id lands size w)
    flush_batch-keeps xs t w h =
        GoodWrite-map _ (Has xs t) (flush_batch new_id lands size w) (flush_batch-Has xs t w h)
          (λ v p. p.0)

    -- A full `held` becomes a chunk.
    emit-Has :
        (xs pre : List A) (t : ℕ) (w : Writer Key A)
        → Full 0 (w.stored ++ w.batch) pre
        → xs ≡ pre ++ w.held
        → w.n ≡ length (w.stored ++ w.batch)
        → length w.held ≡ size
        → w.total ≡ t
        → GoodWrite (Has xs t) (emit new_id lands size w)
    unfolding emit
    emit-Has xs pre t w full covers numbered l counted =
        let c : Chunk Key A = record { id = new_id w.n; n = w.n; content = bytes w.held } in
        let next : Writer Key A = record w {
          batch = w.batch ++ (c ∷ []);
          n = w.n + 1;
          held = [];
        } in
        let h : Has xs t next = record {
          pre = pre ++ w.held;
          full =
              subst (λ b. Full 0 b (pre ++ w.held)) (append_assoc w.stored w.batch (c ∷ []))
                (Full-snoc 0 (w.stored ++ w.batch) pre c w.held full (numbered ∙ omega arith) refl
                  l);
          covers = covers ∙ sym (append_nil (pre ++ w.held));
          numbered = omega (
            arith,
            numbered,
            length-append w.stored (w.batch ++ (c ∷ [])),
            length-append w.batch (c ∷ []),
            length-append w.stored w.batch,
          );
          room = some_size;
          counted = counted;
        } in
        elim (Bool-cases (leb batch_size (length (w.batch ++ (c ∷ []))))) [
          | inl many ↦ rw (emit, many) (flush_batch-keeps xs t next h)
          | inr few ↦ rw (emit, few) h
        ]

    take_piece-Has :
        (xs piece : List A) (t : ℕ) (w : Writer Key A)
        → Has xs t w
        → GoodWrite
            (Has (xs ++ take (min (size - length w.held) (length piece)) piece) t)
            (take_piece new_id lands size piece w)
    unfolding take_piece
    take_piece-Has xs piece t w h =
        let took = take (min (size - length w.held) (length piece)) piece in
        let filled = w.held ++ took in
        let covers : xs ++ took ≡ h.pre ++ filled =
          ap (λ y. y ++ took) h.covers ∙ append_assoc h.pre w.held took in
        elim (Bool-cases (length filled == size)) [
          | inl full ↦
              rw (take_piece, full)
                (emit-Has (xs ++ took) h.pre t (record w { held = filled }) h.full covers h.numbered
                  ((==_iff (length filled) size).0 full) h.counted)
          | inr open_ ↦
              rw (take_piece, open_)
                (record {
                  pre = h.pre;
                  full = h.full;
                  covers = covers;
                  numbered = h.numbered;
                  room = below (length filled) size open_ (
                      omega (
                        arith,
                        h.room,
                        length-append w.held took,
                        length-take (min (size - length w.held) (length piece)) piece,
                      ));
                  counted = h.counted;
                })
        ]

    -- The fuel of the loop over a piece suffices: it is taken whole.
    fill-Has :
        (k : ℕ) (xs piece : List A) (t : ℕ) (w : Writer Key A)
        → length piece ≤ k
        → Has xs t w
        → GoodWrite (Has (xs ++ piece) t) (fill new_id lands size k piece w)
    unfolding fill
    fill-Has zero xs [] t w le h = subst (λ y. Has y t w) (sym (append_nil xs)) h
    fill-Has zero xs (b ∷ bs) t w le h = absurd (omega (arith, le))
    fill-Has (suc k) xs [] t w le h = subst (λ y. Has y t w) (sym (append_nil xs)) h
    fill-Has (suc k) xs (b ∷ bs) t w le h =
        let m = min (size - length w.held) (length (b ∷ bs)) in
        let fewer : length (drop m (b ∷ bs)) ≤ k =
          omega (arith, le, h.room, length-drop m (b ∷ bs)) in
        GoodWrite-bind (Has (xs ++ take m (b ∷ bs)) t) (Has (xs ++ (b ∷ bs)) t)
          (take_piece new_id lands size (b ∷ bs) w) (fill new_id lands size k (drop m (b ∷ bs)))
          (take_piece-Has xs (b ∷ bs) t w h)
          (λ v p.
            subst (λ y. GoodWrite (Has y t) (fill new_id lands size k (drop m (b ∷ bs)) v))
              (append_assoc xs (take m (b ∷ bs)) (drop m (b ∷ bs))
                ∙ ap (λ y. xs ++ y) (take-append-drop m (b ∷ bs)))
              (fill-Has k (xs ++ take m (b ∷ bs)) (drop m (b ∷ bs)) t v fewer p))

    write_pieces-Has :
        (source : List (List A)) (xs : List A) (w : Writer Key A)
        → Has xs (length xs) w
        → GoodWrite
            (Has (xs ++ concat source) (length (xs ++ concat source)))
            (write_pieces new_id lands size source w)
    unfolding write_pieces
    write_pieces-Has [] xs w h = subst (λ y. Has y (length y) w) (sym (append_nil xs)) h
    write_pieces-Has (piece ∷ source) xs w h =
        let counted : Has xs (length (xs ++ piece)) (record w { total = w.total + length piece }) =
          record {
            pre = h.pre;
            full = h.full;
            covers = h.covers;
            numbered = h.numbered;
            room = h.room;
            counted = omega (arith, h.counted, length-append xs piece);
          } in
        GoodWrite-bind (Has (xs ++ piece) (length (xs ++ piece)))
          (Has (xs ++ (piece ++ concat source)) (length (xs ++ (piece ++ concat source))))
          (fill new_id lands size (length piece) piece
            (record w { total = w.total + length piece }))
          (write_pieces new_id lands size source)
          (fill-Has (length piece) xs piece (length (xs ++ piece)) _ (omega arith) counted)
          (λ v p.
            subst (λ y. GoodWrite (Has y (length y)) (write_pieces new_id lands size source v))
              (append_assoc xs piece (concat source)) (write_pieces-Has source (xs ++ piece) v p))

    -- After a flush everything is stored.
    abbrev Flushed : List (Chunk Key A) → ℕ → Writer Key A → Type 0
    Flushed cs t v = (v.stored ≡ cs) × (v.batch ≡ []) × (v.total ≡ t)

    flush_batch-Flushed :
        (w : Writer Key A)
        → GoodWrite (Flushed (w.stored ++ w.batch) w.total) (flush_batch new_id lands size w)
    unfolding flush_batch insert_many
    flush_batch-Flushed w = elim (List-cases w.batch) [
      | inl none_held ↦ rw (flush_batch, none_held) (sym (append_nil w.stored), none_held, refl)
      | inr (c, cs, held) ↦ rw (flush_batch, held, fine w.calls) (refl, refl, refl)
    ]

    twice :
        (cs : List (Chunk Key A)) (t : ℕ) (w : Writer Key A)
        → (w.stored ++ w.batch) ≡ cs
        → w.total ≡ t
        → GoodWrite (Flushed cs t) (flush_batch new_id lands size w)
    twice cs t w e q =
        GoodWrite-map _ (Flushed cs t) (flush_batch new_id lands size w) (flush_batch-Flushed w)
          (λ v p. (p.0 ∙ e, p.1, p.2 ∙ q))

    emit-Flushed :
        (w : Writer Key A) (c : Chunk Key A)
        → c ≡ record { id = new_id w.n; n = w.n; content = bytes w.held }
        → GoodWrite
            (Flushed (w.stored ++ (w.batch ++ (c ∷ []))) w.total)
            (emit new_id lands size w >>= flush_batch new_id lands size)
    unfolding emit
    emit-Flushed w c e =
        let c' : Chunk Key A = record { id = new_id w.n; n = w.n; content = bytes w.held } in
        let next : Writer Key A = record w {
          batch = w.batch ++ (c' ∷ []);
          n = w.n + 1;
          held = [];
        } in
        let goal = w.stored ++ (w.batch ++ (c ∷ [])) in
        let all : w.stored ++ (w.batch ++ (c' ∷ [])) ≡ goal =
          ap (λ x. w.stored ++ (w.batch ++ (x ∷ []))) (sym e) in
        elim (Bool-cases (leb batch_size (length (w.batch ++ (c' ∷ []))))) [
          | inl many ↦
              rw (emit, many)
                (GoodWrite-bind (Flushed goal w.total) (Flushed goal w.total)
                  (flush_batch new_id lands size next) (flush_batch new_id lands size)
                  (twice goal w.total next all refl)
                  (λ v p.
                    twice goal w.total v (ap (λ b. v.stored ++ b) p.1 ∙ append_nil v.stored ∙ p.0)
                      p.2))
          | inr few ↦ rw (emit, few) (twice goal w.total next all refl)
        ]

    -- What `writeChunks` ends with.
    abbrev pub Stored : List A → Writer Key A → Type 0
    Stored xs w = Layout 0 w.stored xs × (w.total ≡ length xs)

    finish-Stored :
        (xs : List A) (w : Writer Key A)
        → Has xs (length xs) w
        → GoodWrite (Stored xs) (finish new_id lands size w)
    unfolding finish
    finish-Stored xs w h = elim (Bool-cases (ltb 0 (length w.held))) [
      | inl some_held ↦
          (let c : Chunk Key A = record { id = new_id w.n; n = w.n; content = bytes w.held } in
            rw (finish, some_held)
              (GoodWrite-map _ (Stored xs)
                (emit new_id lands size w >>= flush_batch new_id lands size) (emit-Flushed w c refl)
                (λ v p. (
                  inr (
                    w.stored ++ w.batch,
                    c,
                    h.pre,
                    w.held,
                    p.0 ∙ sym (append_assoc w.stored w.batch (c ∷ [])),
                    h.full,
                    omega (arith, h.numbered),
                    refl,
                    ltb→lt 0 (length w.held) some_held,
                    h.room,
                    h.covers,
                  ),
                  p.2 ∙ h.counted,
                ))))
      | inr none_held ↦
          rw (finish, none_held)
            (GoodWrite-map _ (Stored xs) (flush_batch new_id lands size w) (flush_batch-Flushed w)
              (λ v p. (
                inl (
                    subst (λ b. Full 0 b xs) (sym p.0)
                      (subst (λ y. Full 0 (w.stored ++ w.batch) y)
                        (sym (append_nil h.pre)
                          ∙ (ap (λ b. h.pre ++ b) (sym (empty w.held none_held)) ∙ sym h.covers))
                        h.full)),
                p.2 ∙ h.counted,
              )))
    ]

    -- Where no insert fails, `writeChunks` stores the bytes of its source in chunks of the whole
    -- size, numbered from 0, and what is left over in a last one, and answers their length.
    pub write_chunks-Stored :
        (source : List (List A))
        → GoodWrite (Stored (concat source)) (write_chunks new_id lands size source)
    unfolding write_chunks write_source close no_bytes
    write_chunks-Stored source =
        GoodWrite-bind (Has (concat source) (length (concat source))) (Stored (concat source))
          (write_pieces new_id lands size source (no_bytes new_id lands size))
          (finish new_id lands size)
          (write_pieces-Has source [] (no_bytes new_id lands size) (record {
            pre = [];
            full = refl;
            covers = refl;
            numbered = refl;
            room = some_size;
            counted = refl;
          }))
          (λ w h. finish-Stored (concat source) w h)
