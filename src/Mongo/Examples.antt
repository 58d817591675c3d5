-- ===== src/Mongo/Examples.antt =====
-- Tests of GridFS, and what its properties say of a file of seven bytes in chunks of three.
use nxgt_data.Prelude.{
  ℕ, zero, ◌+◌, ◌≡◌, refl, ap, ◌∙◌, Bool, true, Option, none, some, List, [], ◌∷◌, ◌++◌, map, any,
  ◌==◌, arith, inl, inr,
}
use nxgt_data.Mongo.GridFs.{
  bytes, Chunk, write_chunks, closed, missing, read_chunks, drop_chunks, breaks, write_source,
}
use nxgt_data.Mongo.GridFs.Writes.{GoodWrite, Stored, concat, write_chunks-Stored}
use nxgt_data.Mongo.GridFs.Reads.{between}
use nxgt_data.Mongo.GridFs.Ranges.{range_of, read-write}
use nxgt_data.Mongo.GridFs.Cleanup.{writer, drop-write}

opened : Unit {0}
unfolding write_chunks write_source read_chunks
opened = tt

abbrev own_id : ℕ → ℕ
own_id n = n + 100

abbrev all_land : ℕ → Option ℕ
all_land _ = none

-- The first insert throws after one document.
abbrev one_lands : ℕ → Option ℕ
one_lands zero = some 1
one_lands _ = none

abbrev seven : List (List ℕ)
seven = (1 ∷ 2 ∷ []) ∷ (3 ∷ 4 ∷ 5 ∷ 6 ∷ []) ∷ (7 ∷ []) ∷ []

abbrev same_id : ℕ → ℕ → Bool
same_id a b = a == b

numbers : map (λ c. c.n) (writer (write_chunks own_id all_land 3 seven)).stored ≡ 0 ∷ 1 ∷ 2 ∷ []
unfolding opened
numbers = refl

middle :
    read_chunks between 3 7 (some 2) (some 5) (writer (write_chunks own_id all_land 3 seven)).stored
    ≡ (3 ∷ 4 ∷ 5 ∷ [], closed)
unfolding opened
middle = refl

gap :
    read_chunks between 3 7 none none (writer (write_chunks own_id one_lands 3 seven)).stored
    ≡ (1 ∷ 2 ∷ 3 ∷ [], missing 1)
unfolding opened
gap = refl

read-write_example :
    GoodWrite
      (λ w.
        read_chunks between 3 w.total (some 2) (some 5) w.stored
        ≡ (range_of (some 2) (some 5) (concat seven), closed))
      (write_chunks own_id all_land 3 seven)
read-write_example =
    read-write between 3 (omega arith) (λ lo hi cs xs layout. refl) own_id all_land (λ k. refl)
      seven (some 2) (some 5)

write_chunks-Stored_example :
    GoodWrite
      (Stored 3 own_id all_land (λ k. refl) (omega arith) (concat seven))
      (write_chunks own_id all_land 3 seven)
write_chunks-Stored_example = write_chunks-Stored 3 own_id all_land (λ k. refl) (omega arith) seven

same_refl : (n : ℕ) → same_id n n ≡ true
same_refl n = ground arith

abbrev other_chunk : Chunk ℕ ℕ
other_chunk = record { id = 5; n = 0; content = bytes [] }

drop-write_example :
    drop_chunks same_id
      (writer (write_source own_id one_lands 3 seven breaks)).written
      ((other_chunk ∷ []) ++ (writer (write_source own_id one_lands 3 seven breaks)).stored)
    ≡ other_chunk ∷ []
unfolding opened
drop-write_example =
    drop-write own_id one_lands 3 same_id same_refl (other_chunk ∷ []) seven breaks (λ c i. elim i [
      | inl e ↦
          ap
            (λ x.
              any (same_id x.id) (writer (write_source own_id one_lands 3 seven breaks)).written)
            e
          ∙ refl
      | inr j ↦ absurd j
    ])
