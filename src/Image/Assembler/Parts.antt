-- ===== src/Image/Assembler/Parts.antt =====
-- The rows do not depend on how the bytes are cut into parts.
use nxgt_data.Prelude.{
  ℕ, zero, suc, ◌+◌, ◌-◌, ◌≤◌, ◌<◌, ◌≡◌, refl, sym, ap, ◌∙◌, inl, inr, Bool, true, false, List, [],
  ◌∷◌, ◌++◌, length, take, drop, leb, ltb, lt→ltb, min, if◌then◌else◌, arith, Bool-cases,
  Option-cases, length-append, length-take, length-drop, take-append-drop,
}
use nxgt_data.Image.Filters.{unfilter_row}
use nxgt_data.Image.Assembler.{
  Rows, Fed, more, stopped, refused, ◌>>=◌, finish_row, filled_to, feed_all, feed,
}

append_nil : {A : Type 0} (xs : List A) → xs ++ [] ≡ xs
append_nil [] = refl
append_nil (x ∷ xs) = rw (append_nil xs)

append_assoc : {A : Type 0} (xs ys zs : List A) → (xs ++ ys) ++ zs ≡ xs ++ (ys ++ zs)
append_assoc [] ys zs = refl
append_assoc (x ∷ xs) ys zs = rw (append_assoc xs ys zs)

bind_assoc : (r : Fed) (f g : Rows → Fed) → (r >>= f) >>= g ≡ r >>= (λ st. f st >>= g)
bind_assoc (more st) f g = refl
bind_assoc (stopped st) f g = refl
bind_assoc refused f g = refl

-- There is room for a byte in what `feed` goes on with.
abbrev HasRoom : ℕ → Fed → Type 0
HasRoom stride (more st) = length st.filled ≤ stride
HasRoom stride (stopped st) = Unit
HasRoom stride refused = Unit

bind_with :
    (stride : ℕ) (r : Fed) (f g : Rows → Fed)
    → HasRoom stride r
    → ((st : Rows) → length st.filled ≤ stride → f st ≡ g st)
    → r >>= f ≡ r >>= g
bind_with stride (more st) f g room e = e st room
bind_with stride (stopped st) f g room e = refl
bind_with stride refused f g room e = refl

short_of : (n s : ℕ) → ltb n (s + 1) ≡ true → n ≤ s
short_of n s e = ground arith

module _ (stride height bpp : ℕ) (on_row : List ℕ → ℕ → Bool) where
  -- One byte at a time.
  push : ℕ → Rows → Fed
  push b st =
      if leb height st.y
      then refused
      else filled_to stride height bpp on_row (st.filled ++ (b ∷ [])) st

  pushes : List ℕ → Rows → Fed
  unfolding push
  pushes [] st = more st
  pushes (b ∷ bs) st = push b st >>= pushes bs

  pushes-append : (a b : List ℕ) (st : Rows) → pushes (a ++ b) st ≡ pushes a st >>= pushes b
  unfolding pushes
  pushes-append [] b st = refl
  pushes-append (x ∷ xs) b st =
      bind_ext (push x st) (λ v. pushes-append xs b v)
      ∙ sym (bind_assoc (push x st) (pushes xs) (pushes b))
    where
      bind_ext : (r : Fed) {f g : Rows → Fed} → ((v : Rows) → f v ≡ g v) → r >>= f ≡ r >>= g
      bind_ext (more v) e = e v
      bind_ext (stopped v) e = refl
      bind_ext refused e = refl

  finish_row-HasRoom :
      (filled : List ℕ) (st : Rows) → HasRoom stride (finish_row stride height bpp on_row filled st)
  unfolding finish_row
  finish_row-HasRoom [] st = tt
  finish_row-HasRoom (type ∷ row) st = elim (Option-cases (unfilter_row type row st.previous bpp)) [
    | inl unknown ↦ rw (finish_row, unknown) tt
    | inr (r, undone) ↦ elim (Bool-cases (on_row r st.y)) [
      | inl on ↦ rw (finish_row, undone, on) (omega arith)
      | inr off ↦ rw (finish_row, undone, off) tt
    ]
  ]

  filled_to-HasRoom :
      (filled : List ℕ) (st : Rows) → HasRoom stride (filled_to stride height bpp on_row filled st)
  unfolding filled_to
  filled_to-HasRoom filled st = elim (Bool-cases (ltb (length filled) (stride + 1))) [
    | inl short ↦ rw (filled_to, short) (short_of (length filled) stride short)
    | inr whole ↦ rw (filled_to, whole) (finish_row-HasRoom filled st)
  ]

  finish_row_of :
      (f g : List ℕ) (st : Rows)
      → finish_row stride height bpp on_row f (record st { filled = g })
        ≡ finish_row stride height bpp on_row f st
  unfolding finish_row
  finish_row_of [] g st = refl
  finish_row_of (type ∷ row) g st = refl

  filled_to_of :
      (f g : List ℕ) (st : Rows)
      → filled_to stride height bpp on_row f (record st { filled = g })
        ≡ filled_to stride height bpp on_row f st
  unfolding filled_to
  filled_to_of f g st = elim (Bool-cases (ltb (length f) (stride + 1))) [
    | inl short ↦ rw (filled_to, short)
    | inr whole ↦ rw (filled_to, whole) (finish_row_of f g st)
  ]

  -- Bytes that fit the row, pushed one by one or at once.
  pushes-filled_to :
      (xs : List ℕ) (st : Rows)
      → leb height st.y ≡ false
      → 0 < length xs
      → length st.filled + length xs ≤ stride + 1
      → pushes xs st ≡ filled_to stride height bpp on_row (st.filled ++ xs) st
  unfolding pushes push filled_to
  pushes-filled_to [] st on some_bytes fits = absurd (omega (arith, some_bytes))
  pushes-filled_to (x ∷ []) st on some_bytes fits =
      rw on (bind_more (filled_to stride height bpp on_row (st.filled ++ (x ∷ [])) st))
    where
      bind_more : (r : Fed) → r >>= more ≡ r
      bind_more (more v) = refl
      bind_more (stopped v) = refl
      bind_more refused = refl
  pushes-filled_to (x ∷ y ∷ ys) st on some_bytes fits =
      let next : Rows = record st { filled = st.filled ++ (x ∷ []) } in
      let l : length (st.filled ++ (x ∷ [])) ≡ length st.filled + 1 =
        length-append st.filled (x ∷ []) ∙ omega arith in
      let short : ltb (length (st.filled ++ (x ∷ []))) (stride + 1) ≡ true =
        lt→ltb _ _ (omega (arith, l, fits)) in
      let one : push x st ≡ more next = pushed x st on short in
      ap (λ r. r >>= pushes (y ∷ ys)) one
      ∙ pushes-filled_to (y ∷ ys) next on (omega arith) (omega (arith, l, fits))
      ∙ ap (λ f. filled_to stride height bpp on_row f next)
          (append_assoc st.filled (x ∷ []) (y ∷ ys))
      ∙ filled_to_of (st.filled ++ (x ∷ y ∷ ys)) (st.filled ++ (x ∷ [])) st
    where
      pushed :
          (x : ℕ) (st : Rows)
          → leb height st.y ≡ false
          → ltb (length (st.filled ++ (x ∷ []))) (stride + 1) ≡ true
          → push x st ≡ more (record st { filled = st.filled ++ (x ∷ []) })
      pushed x st on short = rw (push, on, filled_to, short)

  feed_turn :
      (k b : ℕ) (bs : List ℕ) (st : Rows)
      → leb height st.y ≡ false
      → feed_all stride height bpp on_row (suc k) (b ∷ bs) st
        ≡ filled_to stride height bpp on_row
            (st.filled ++ take (min (length (b ∷ bs)) (stride + 1 - length st.filled)) (b ∷ bs))
            st
          >>= feed_all stride height bpp on_row k
              (drop (min (length (b ∷ bs)) (stride + 1 - length st.filled)) (b ∷ bs))
  unfolding feed_all
  feed_turn k b bs st on = rw (feed_all, on)

  feed_all-pushes :
      (k : ℕ) (part : List ℕ) (st : Rows)
      → length part ≤ k
      → length st.filled ≤ stride
      → feed_all stride height bpp on_row k part st ≡ pushes part st
  unfolding feed_all pushes push
  feed_all-pushes zero [] st le room = refl
  feed_all-pushes zero (b ∷ bs) st le room = absurd (omega (arith, le))
  feed_all-pushes (suc k) [] st le room = refl
  feed_all-pushes (suc k) (b ∷ bs) st le room = elim (Bool-cases (leb height st.y)) [
    | inl over ↦ rw (feed_all, pushes, push, over)
    | inr on ↦
        (let took = min (length (b ∷ bs)) (stride + 1 - length st.filled) in
          let row = take took (b ∷ bs) in
          let rest = drop took (b ∷ bs) in
          let l : length row ≡ min took (length (b ∷ bs)) = length-take took (b ∷ bs) in
          let full : pushes row st ≡ filled_to stride height bpp on_row (st.filled ++ row) st =
            pushes-filled_to row st on (omega (arith, l, room)) (omega (arith, l, room)) in
          let left : length rest ≤ k = omega (arith, length-drop took (b ∷ bs), le, room) in
          let turn : filled_to stride height bpp on_row (st.filled ++ row) st
                >>= feed_all stride height bpp on_row k rest
              ≡ filled_to stride height bpp on_row (st.filled ++ row) st >>= pushes rest =
            bind_with stride (filled_to stride height bpp on_row (st.filled ++ row) st) _ _
              (filled_to-HasRoom (st.filled ++ row) st) (λ v r. feed_all-pushes k rest v left r) in
          let whole : pushes row st >>= pushes rest ≡ pushes (b ∷ bs) st =
            sym (pushes-append row rest st)
            ∙ ap (λ p. pushes p st) (take-append-drop took (b ∷ bs)) in
          feed_turn k b bs st on ∙ turn ∙ ap (λ r. r >>= pushes rest) (sym full) ∙ whole)
  ]

  bind-HasRoom :
      (r : Fed) (f : Rows → Fed)
      → ((v : Rows) → length v.filled ≤ stride → HasRoom stride (f v))
      → HasRoom stride r
      → HasRoom stride (r >>= f)
  bind-HasRoom (more v) f e h = e v h
  bind-HasRoom (stopped v) f e h = tt
  bind-HasRoom refused f e h = tt

  feed_all-HasRoom :
      (k : ℕ) (part : List ℕ) (st : Rows)
      → length st.filled ≤ stride
      → HasRoom stride (feed_all stride height bpp on_row k part st)
  unfolding feed_all
  feed_all-HasRoom zero part st room = room
  feed_all-HasRoom (suc k) [] st room = room
  feed_all-HasRoom (suc k) (b ∷ bs) st room = elim (Bool-cases (leb height st.y)) [
    | inl over ↦ rw (feed_all, over) tt
    | inr on ↦
        rw (feed_all, on)
          (bind-HasRoom (filled_to stride height bpp on_row _ st) _
            (λ v r. feed_all-HasRoom k _ v r) (filled_to-HasRoom _ st))
  ]

  -- Feeding two parts, one after the other, does what feeding them as one part does: the rows given,
  -- the answer and the refusals are the same. There must be room for a byte in the row, as there is
  -- in a new assembler and in what `feed` goes on with.
  pub feed-append :
      (a b : List ℕ) (st : Rows)
      → length st.filled ≤ stride
      → feed stride height bpp on_row (a ++ b) st
        ≡ feed stride height bpp on_row a st >>= feed stride height bpp on_row b
  unfolding feed
  feed-append a b st room =
      let one : feed stride height bpp on_row (a ++ b) st ≡ pushes (a ++ b) st =
        feed_all-pushes (length (a ++ b)) (a ++ b) st (omega arith) room in
      let first : feed stride height bpp on_row a st ≡ pushes a st =
        feed_all-pushes (length a) a st (omega arith) room in
      let room_after : HasRoom stride (feed stride height bpp on_row a st) =
        feed_all-HasRoom (length a) a st room in
      one
      ∙ pushes-append a b st
      ∙ ap (λ r. r >>= pushes b) (sym first)
      ∙ bind_with stride (feed stride height bpp on_row a st) _ _ room_after
          (λ v r. sym (feed_all-pushes (length b) b v (omega arith) r))
