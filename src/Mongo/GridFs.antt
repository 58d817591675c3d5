-- ===== src/Mongo/GridFs.antt =====
-- packages/mongo/src/gridfs/chunks.ts: how the bytes of a file are cut into chunks and read back.
-- The driver is a parameter: `new_id` makes the ids of this call's chunks, `lands k` says whether the
-- k-th `insertMany` throws, after how many documents (it inserts in order), and `find` is the
-- cursor over the chunks of a file with numbers from `lo` to `hi`, by number.
pub mod Writes
pub mod Reads
pub mod Ranges
pub mod Cleanup
use nxgt_data.Prelude.{
  ℕ, zero, suc, ◌+◌, ◌-◌, ◌*◌, ◌/◌, Bool, true, false, not, ◌&&◌, ◌||◌, Option, none, some, List,
  [], ◌∷◌, ◌++◌, map, length, take, drop, select, any, leb, ltb, ◌==◌, if◌then◌else◌, min, max,
}

-- `BATCH`
abbrev pub batch_size : ℕ
batch_size = 16

-- The `data` of a chunk document: bytes, or what something else wrote there.
pub data Content (A : Type 0) : Type 0 where
  bytes : List A → Content A
  not_bytes : Content A

pub record Chunk (Key A : Type 0) : Type 0 where
  pub id : Key
  pub n : ℕ
  pub content : Content A

-- The state of `writeChunks`: the bytes counted, the next chunk's number, the bytes of `held` that
-- are filled, the batch, the ids in `written`, how many inserts were called, and the documents that
-- landed.
pub record Writer (Key A : Type 0) : Type 0 where
  pub total : ℕ
  pub n : ℕ
  pub held : List A
  pub batch : List (Chunk Key A)
  pub written : List Key
  pub calls : ℕ
  pub stored : List (Chunk Key A)

pub data Wrote (Key A : Type 0) : Type 0 where
  ok threw : Writer Key A → Wrote Key A

infixl 5 ◌>>=◌
abbrev pub ◌>>=◌ : {Key A : Type 0} → Wrote Key A → (Writer Key A → Wrote Key A) → Wrote Key A
ok w >>= k = k w
threw w >>= k = threw w

-- How the source of a write ends.
pub data Close : Type 0 where
  ends breaks : Close

module _ {Key A : Type 0} (new_id : ℕ → Key) (lands : ℕ → Option ℕ) (size : ℕ) where
  -- `insertMany` of `going`, whose ids are in `written` already.
  insert_many : Option ℕ → List (Chunk Key A) → Writer Key A → Wrote Key A
  insert_many none going w = ok (record w { calls = w.calls + 1; stored = w.stored ++ going })
  insert_many (some k) going w =
      threw (record w { calls = w.calls + 1; stored = w.stored ++ take k going })

  -- `flushBatch`
  pub flush_batch : Writer Key A → Wrote Key A
  unfolding insert_many
  flush_batch w = elim w.batch [
    | [] ↦ ok w
    | c ∷ cs ↦
        insert_many (lands w.calls) (c ∷ cs)
          (record w { batch = []; written = w.written ++ map (λ x. x.id) (c ∷ cs) })
  ]

  -- `emit`
  pub emit : Writer Key A → Wrote Key A
  emit w =
      let next = record w {
        batch = w.batch ++ (record { id = new_id w.n; n = w.n; content = bytes w.held } ∷ []);
        n = w.n + 1;
        held = [];
      } in
      if leb batch_size (length next.batch) then flush_batch next else ok next

  -- One turn of the `while`: what `held` takes of the piece, and a full chunk.
  take_piece : List A → Writer Key A → Wrote Key A
  take_piece piece w =
      let filled = w.held ++ take (min (size - length w.held) (length piece)) piece in
      if length filled == size
      then emit (record w { held = filled })
      else ok (record w { held = filled })

  -- The `while` over one piece, on fuel.
  fill : ℕ → List A → Writer Key A → Wrote Key A
  unfolding take_piece
  fill zero piece w = ok w
  fill (suc k) [] w = ok w
  fill (suc k) (b ∷ bs) w =
      take_piece (b ∷ bs) w
      >>= fill k (drop (min (size - length w.held) (length (b ∷ bs))) (b ∷ bs))

  -- The `for await` over the pieces of the source.
  pub write_pieces : List (List A) → Writer Key A → Wrote Key A
  unfolding fill
  write_pieces [] w = ok w
  write_pieces (piece ∷ source) w =
      fill (length piece) piece (record w { total = w.total + length piece })
      >>= write_pieces source

  no_bytes : Writer Key A
  no_bytes = record {
    total = 0;
    n = 0;
    held = [];
    batch = [];
    written = [];
    calls = 0;
    stored = [];
  }

  finish : Writer Key A → Wrote Key A
  finish w = (if ltb 0 (length w.held) then emit w else ok w) >>= flush_batch

  -- What follows the last piece that the loop took: the end of the source, or an error, which is
  -- the source's own or that of `onBytes` on the next piece, before a byte of it is counted.
  close : Close → Writer Key A → Wrote Key A
  unfolding finish emit flush_batch
  close ends w = finish w
  close breaks w = threw w

  -- `writeChunks` over the pieces that the loop takes, and what follows them.
  unfoldable pub write_source : List (List A) → Close → Wrote Key A
  unfolding write_pieces no_bytes close
  write_source source end = write_pieces source no_bytes >>= close end

  -- `writeChunks` of a source that ends: the length is `total`.
  unfoldable pub write_chunks : List (List A) → Wrote Key A
  unfolding write_source
  write_chunks source = write_source source ends

-- `dropChunks` of the collection's chunks, with the equality of ids.
pub drop_chunks :
    {Key A : Type 0} → (Key → Key → Bool) → List Key → List (Chunk Key A) → List (Chunk Key A)
drop_chunks same ids chunks =
    if length ids == 0 then chunks else select (λ c. not (any (same c.id) ids)) chunks

-- How a read ends.
pub data Ended : Type 0 where
  closed short : Ended
  missing corrupt : ℕ → Ended

module _ (size start end last : ℕ) where
  -- What `pull` enqueues of a chunk's bytes.
  pub cut : {A : Type 0} → ℕ → List A → List A
  cut expected octets =
      let at = expected * size in drop (start - at) (take (min (length octets) (end - at)) octets)

  finish_read : ℕ → ℕ → Ended
  finish_read expected sent =
      if leb expected last then missing expected else if sent == end - start then closed else short

  -- The calls of `pull` until the stream ends: what was enqueued, and the end.
  pub pull_all : {Key A : Type 0} → List (Chunk Key A) → ℕ → ℕ → List A × Ended
  unfolding cut finish_read
  pull_all [] expected sent = ([], finish_read expected sent)
  pull_all (c ∷ cs) expected sent =
      if c.n == expected
      then elim c.content [
        | not_bytes ↦ ([], corrupt c.n)
        | bytes octets ↦
            (let sent_part = cut expected octets in
              let rest = pull_all cs (expected + 1) (sent + length sent_part) in
              (sent_part ++ rest.0, rest.1))
      ]
      else ([], missing expected)

abbrev pub clamp_start : Option ℕ → ℕ → ℕ
clamp_start none len = 0
clamp_start (some s) len = min s len

abbrev pub clamp_end : Option ℕ → ℕ → ℕ → ℕ
clamp_end none start len = max start len
clamp_end (some e) start len = max start (min e len)

-- `Math.ceil(end / chunkSize) - 1`
abbrev pub last_chunk : ℕ → ℕ → ℕ
last_chunk end size = (end + size - 1) / size - 1

-- `readChunks`
unfoldable pub read_chunks :
    {Key A : Type 0}
    → (find : ℕ → ℕ → List (Chunk Key A) → List (Chunk Key A)) (size len : ℕ)
      (from until : Option ℕ) (stored : List (Chunk Key A))
    → List A × Ended
unfolding pull_all
read_chunks find size len from until stored =
    let start = clamp_start from len in
    let end = clamp_end until start len in
    let last = last_chunk end size in
    if end == start
    then ([], closed)
    else pull_all size start end last (find (start / size) last stored) (start / size) 0
