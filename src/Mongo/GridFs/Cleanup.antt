-- ===== src/Mongo/GridFs/Cleanup.antt =====
-- A write that fails can be undone: the ids in `written` name every document that landed.
use nxgt_data.Prelude.{
  In-append, append-In, take-In, map-In, ℕ, zero, suc, ◌+◌, ◌-◌, ◌≡◌, refl, sym, ap, subst, inl,
  inr, Bool, true, false, not, Option, List, [], ◌∷◌, ◌++◌, length, take, drop, select, any, leb,
  ltb, ◌==◌, min, arith, Bool-cases, Option-cases, In, In-any,
}
use nxgt_data.Mongo.GridFs.{
  bytes, Chunk, Writer, Wrote, ok, threw, ◌>>=◌, batch_size, insert_many, flush_batch, emit,
  take_piece, fill, write_pieces, no_bytes, finish, Close, ends, breaks, close, write_source,
  drop_chunks,
}
use nxgt_data.Mongo.GridFs.Writes.{append_nil, List-cases}

not_zero : (n : ℕ) → (suc n == 0) ≡ true → ⊥
not_zero n e = ground arith

none-In : {A : Type 0} (a : A) (xs : List A) → (length xs == 0) ≡ true → In a xs → ⊥
none-In a [] e i = absurd i
none-In a (x ∷ xs) e i = not_zero (length xs) e

-- The writer, however the write ended.
abbrev pub writer : {Key A : Type 0} → Wrote Key A → Writer Key A
writer (ok w) = w
writer (threw w) = w

module _ {Key A : Type 0} where
  -- Every document that landed has its id in `written`.
  abbrev pub Tracked : Writer Key A → Type 0
  Tracked w = (c : Chunk Key A) → In c w.stored → In c.id w.written

  bind-Tracked :
      (r : Wrote Key A) (k : Writer Key A → Wrote Key A)
      → Tracked (writer r)
      → ((w : Writer Key A) → Tracked w → Tracked (writer (k w)))
      → Tracked (writer (r >>= k))
  bind-Tracked (ok w) k t f = f w t
  bind-Tracked (threw w) k t f = t

  module _ (new_id : ℕ → Key) (lands : ℕ → Option ℕ) (size : ℕ) where
    flush_batch-Tracked :
        (w : Writer Key A) → Tracked w → Tracked (writer (flush_batch new_id lands size w))
    unfolding flush_batch insert_many
    flush_batch-Tracked w t = elim (List-cases w.batch) [
      | inl none_held ↦ rw (flush_batch, none_held) t
      | inr (c, cs, held) ↦ elim (Option-cases (lands w.calls)) [
        | inl all ↦
            rw (flush_batch, held, all)
              (λ x i. elim (In-append x w.stored (c ∷ cs) i) [
                | inl j ↦ append-In x.id w.written _ (inl (t x j))
                | inr j ↦ append-In x.id w.written _ (inr (map-In (λ y. y.id) x (c ∷ cs) j))
              ])
        | inr (k, part) ↦
            rw (flush_batch, held, part)
              (λ x i. elim (In-append x w.stored (take k (c ∷ cs)) i) [
                | inl j ↦ append-In x.id w.written _ (inl (t x j))
                | inr j ↦
                    append-In x.id w.written _
                      (inr (map-In (λ y. y.id) x (c ∷ cs) (take-In x k (c ∷ cs) j)))
              ])
      ]
    ]

    emit-Tracked : (w : Writer Key A) → Tracked w → Tracked (writer (emit new_id lands size w))
    unfolding emit
    emit-Tracked w t =
        let c : Chunk Key A = record { id = new_id w.n; n = w.n; content = bytes w.held } in
        elim (Bool-cases (leb batch_size (length (w.batch ++ (c ∷ []))))) [
          | inl many ↦
              rw (emit, many)
                (flush_batch-Tracked
                  (record w { batch = w.batch ++ (c ∷ []); n = w.n + 1; held = [] }) t)
          | inr few ↦ rw (emit, few) t
        ]

    take_piece-Tracked :
        (piece : List A) (w : Writer Key A)
        → Tracked w
        → Tracked (writer (take_piece new_id lands size piece w))
    unfolding take_piece
    take_piece-Tracked piece w t =
        let filled = w.held ++ take (min (size - length w.held) (length piece)) piece in
        elim (Bool-cases (length filled == size)) [
          | inl full ↦ rw (take_piece, full) (emit-Tracked (record w { held = filled }) t)
          | inr room ↦ rw (take_piece, room) t
        ]

    fill-Tracked :
        (k : ℕ) (piece : List A) (w : Writer Key A)
        → Tracked w
        → Tracked (writer (fill new_id lands size k piece w))
    unfolding fill
    fill-Tracked zero piece w t = t
    fill-Tracked (suc k) [] w t = t
    fill-Tracked (suc k) (b ∷ bs) w t =
        bind-Tracked (take_piece new_id lands size (b ∷ bs) w) _ (take_piece-Tracked (b ∷ bs) w t)
          (λ v u. fill-Tracked k (drop (min (size - length w.held) (length (b ∷ bs))) (b ∷ bs)) v u)

    write_pieces-Tracked :
        (source : List (List A)) (w : Writer Key A)
        → Tracked w
        → Tracked (writer (write_pieces new_id lands size source w))
    unfolding write_pieces
    write_pieces-Tracked [] w t = t
    write_pieces-Tracked (piece ∷ source) w t =
        bind-Tracked
          (fill new_id lands size (length piece) piece
            (record w { total = w.total + length piece }))
          _ (fill-Tracked (length piece) piece (record w { total = w.total + length piece }) t)
          (λ v u. write_pieces-Tracked source v u)

    finish-Tracked : (w : Writer Key A) → Tracked w → Tracked (writer (finish new_id lands size w))
    unfolding finish
    finish-Tracked w t = elim (Bool-cases (ltb 0 (length w.held))) [
      | inl held ↦
          rw (finish, held)
            (bind-Tracked (emit new_id lands size w) _ (emit-Tracked w t)
              (λ v u. flush_batch-Tracked v u))
      | inr empty ↦ rw (finish, empty) (flush_batch-Tracked w t)
    ]

    close-Tracked :
        (end : Close) (w : Writer Key A)
        → Tracked w
        → Tracked (writer (close new_id lands size end w))
    unfolding close
    close-Tracked ends w t = finish-Tracked w t
    close-Tracked breaks w t = t

    write_source-Tracked :
        (source : List (List A)) (end : Close)
        → Tracked (writer (write_source new_id lands size source end))
    unfolding write_source no_bytes
    write_source-Tracked source end =
        bind-Tracked (write_pieces new_id lands size source (no_bytes new_id lands size)) _
          (write_pieces-Tracked source (no_bytes new_id lands size) (λ c i. absurd i))
          (λ v u. close-Tracked end v u)

    select-others :
        (p : Chunk Key A → Bool) (others mine : List (Chunk Key A))
        → ((c : Chunk Key A) → In c others → p c ≡ true)
        → ((c : Chunk Key A) → In c mine → p c ≡ false)
        → select p (others ++ mine) ≡ others
    select-others p [] [] f g = refl
    select-others p [] (c ∷ cs) f g =
        rw (g c (inl refl)) (select-others p [] cs f (λ d i. g d (inr i)))
    select-others p (c ∷ cs) mine f g =
        rw (f c (inl refl), select-others p cs mine (λ d i. f d (inr i)) g)

    drop_chunks-Tracked :
        (same : Key → Key → Bool)
        → ((k : Key) → same k k ≡ true)
        → (others : List (Chunk Key A)) (w : Writer Key A)
        → ((c : Chunk Key A) → In c others → any (same c.id) w.written ≡ false)
        → Tracked w
        → drop_chunks same w.written (others ++ w.stored) ≡ others
    unfolding drop_chunks
    drop_chunks-Tracked same same_refl others w apart t =
        elim (Bool-cases (length w.written == 0)) [
          | inr some_written ↦
              rw (drop_chunks, some_written)
                (select-others (λ c. not (any (same c.id) w.written)) others w.stored
                  (λ c i. ap not (apart c i))
                  (λ c i. ap not (In-any (same c.id) c.id w.written (t c i) (same_refl c.id))))
          | inl none_written ↦ elim (List-cases w.stored) [
            | inl nil ↦ rw (drop_chunks, none_written, nil) (append_nil others)
            | inr (c, cs, e) ↦
                absurd (
                  none-In c.id w.written none_written
                    (t c (subst (λ y. In c y) (sym e) (inl refl))))
          ]
        ]

    -- Whether a write ends, an insert of it fails partway, or its source or `onBytes` throws after any
    -- number of pieces: `dropChunks` of the ids that it recorded takes back exactly what it stored, and leaves the chunks of others, whose ids differ.
    pub drop-write :
        (same : Key → Key → Bool)
        → ((k : Key) → same k k ≡ true)
        → (others : List (Chunk Key A)) (source : List (List A)) (end : Close)
        → ((c : Chunk Key A)
            → In c others
            → any (same c.id) (writer (write_source new_id lands size source end)).written ≡ false)
        → drop_chunks same
            (writer (write_source new_id lands size source end)).written
            (others ++ (writer (write_source new_id lands size source end)).stored)
          ≡ others
    drop-write same same_refl others source end apart =
        drop_chunks-Tracked same same_refl others
          (writer (write_source new_id lands size source end)) apart
          (write_source-Tracked source end)
