-- ===== src/Redis/Idempotency/Run/Once.antt =====
-- The work of one key counts once: a run that returns its own result was alone on the key while it
-- worked, and a later run with the same fingerprint is given that result.
use mathlib.Core.Bool.{false≢true}
use nxgt_data.Prelude.{
  ℕ, ◌*◌, ◌<◌, ◌≡◌, ◌≢◌, refl, ap, ◌∙◌, sym, Bool, true, false, Option, none, some, String, List,
  ◌∷◌, ◌++◌, str_eq, eq_iff, if◌then◌else◌, arith, All, Bool-cases, inl, inr,
}
use nxgt_data.Redis.Server.{Hash, Server}
use nxgt_data.Redis.Idempotency.{
  Begun, started, corrupt, mismatch, running, done, begin, complete, holds,
}
use nxgt_data.Redis.Idempotency.Events.{
  Event, begins, completes, step, play, play-append, IsNotBegin, hash-play,
}
use nxgt_data.Redis.Idempotency.Fencing.{taken-IsFenced, started-HasFp}
use nxgt_data.Redis.Idempotency.Records.{
  IsOurs, IsSent, elapsed, begin-complete, after_events-IsOurs,
}
use nxgt_data.Redis.Idempotency.Run.{
  Codec, from_stored, to_stored, Worked, returned, threw, Outcome, value, invalid, lease_lost,
  work_failed, not_started, ◌>>=◌, replay, store, settle_value, settle, run_found, run,
}

bind-eq-some :
    {A B : Type 0} (m : Option A) (f : A → Option B) {b : B}
    → (m >>= f) ≡ some b
    → (a : A) × (m ≡ some a) × (f a ≡ some b)
bind-eq-some none f e = cc
bind-eq-some (some a) f e = (a, refl, e)

if_same : {b : Bool} (json : String) → b ≡ true → (if b then done json else mismatch) ≡ done json
if_same json e = rw e

pair_parts :
    {A B : Type 0} {a c : A} {b d : B}
    → ◌≡◌ {A = Option (A × B)} (some (a, b)) (some (c, d))
    → (a ≡ c) × (b ≡ d)
pair_parts e = (ground arith, ground arith)

module _ (codec : Codec) where
  lost-ne-value : (v : codec.Value) → ◌≢◌ {A = Outcome codec} lease_lost (value v false)
  lost-ne-value v e = cc

  invalid-ne-value : (v : codec.Value) → ◌≢◌ {A = Outcome codec} invalid (value v false)
  invalid-ne-value v e = cc

  failed-ne-value : (v : codec.Value) → ◌≢◌ {A = Outcome codec} work_failed (value v false)
  failed-ne-value v e = cc

  value_eq : (u v : codec.Value) → ◌≡◌ {A = Outcome codec} (value u false) (value v false) → u ≡ v
  value_eq u v e = cc

  replay-ne-value : (o : Option codec.Value) (v : codec.Value) → replay codec o ≢ value v false
  unfolding replay
  replay-ne-value none v e = cc
  replay-ne-value (some u) v e = cc

  not_started-ne-value : (found : Begun) (v : codec.Value) → not_started codec found ≢ value v false
  unfolding not_started
  not_started-ne-value started v e = cc
  not_started-ne-value mismatch v e = cc
  not_started-ne-value corrupt v e = cc
  not_started-ne-value (running p) v e = cc
  not_started-ne-value (done j) v e = replay-ne-value (from_stored codec j) v e

  -- The value that `toStored` gives back is what every replay of its text reads.
  pub from_stored-to_stored :
      (result v : codec.Value) (json : String)
      → to_stored codec result ≡ some (json, v)
      → from_stored codec json ≡ some v
  unfolding to_stored from_stored
  from_stored-to_stored result v json e =
      let (parsed, _, e₁) = bind-eq-some (codec.parse result) _ e in
      let (text, _, e₂) = bind-eq-some (codec.stringify parsed) _ e₁ in
      let (raw, read, e₃) = bind-eq-some (codec.json_parse text) _ e₂ in
      let (again, reread, e₄) = bind-eq-some (codec.parse raw) _ e₃ in
      let (same_text, same_value) = pair_parts e₄ in
      rw (← same_text, read, reread) (ap some same_value)

  module _ (server : Server) (token given : String) (lease ttl : ℕ) where
    open server use {Db, hash}

    -- What a run that returns its own result has done.
    pub record HasStored (db : Db) (between : List Event) (worked : Worked codec) (v : codec.Value)
        (end : Db) : Type 0 where
      pub began : (begin (hash db) token given lease).0 ≡ started
      pub result : codec.Value
      pub json : String
      pub encoded : to_stored codec result ≡ some (json, v)
      pub completed :
          (complete
            (hash (play server between (step server (begins token given lease) db)))
            token
            json
            ttl).0
          ≡ true
      pub at_end :
          end
          ≡ step server
              (completes token json ttl)
              (play server between (step server (begins token given lease) db))

    -- Only a run that stored returns a value as its own.
    store_inv :
        (db : Db) (lost : Bool) (json : String) (u v : codec.Value) (end : Db)
        → store codec server token given lease ttl db lost json u ≡ (value v false, end)
        → (u ≡ v)
          × ((complete (hash db) token json ttl).0 ≡ true)
          × (end ≡ step server (completes token json ttl) db)
    unfolding run
    store_inv db true json u v end e = absurd (lost-ne-value v (ap (λ p. p.0) e))
    store_inv db false json u v end e =
        let first : (if (complete (hash db) token json ttl).0 then value u false else lease_lost)
            ≡ value v false =
          ap (λ p. p.0) e in
        elim (Bool-cases (complete (hash db) token json ttl).0) [
          | inl ok ↦ (value_eq u v (rw ok at first), ok, sym (ap (λ p. p.1) e))
          | inr no_longer ↦ absurd (lost-ne-value v (rw no_longer at first))
        ]

    pub run-HasStored :
        (db : Db) (between : List Event) (lost : Bool) (worked : Worked codec) (v : codec.Value)
        (end : Db)
        → run codec server token given lease ttl db between lost worked ≡ (value v false, end)
        → HasStored db between worked v end
    unfolding run
    run-HasStored db between lost worked v end e =
        found_inv (begin (hash db) token given lease).0 refl e
      where
        now : Db
        now = step server (begins token given lease) db

        encoded_inv :
            (result : codec.Value) (o : Option (String × codec.Value))
            → to_stored codec result ≡ o
            → (begin (hash db) token given lease).0 ≡ started
            → settle_value codec server token given lease ttl (play server between now) lost o
              ≡ (value v false, end)
            → HasStored db between worked v end
        encoded_inv result none t b e = absurd (invalid-ne-value v (ap (λ p. p.0) e))
        encoded_inv result (some (json, u)) t b e =
            let (same, ok, final) = store_inv (play server between now) lost json u v end e in
            record {
              began = b;
              result = result;
              json = json;
              encoded = rw (← same) t;
              completed = ok;
              at_end = final;
            }

        worked_inv :
            (w : Worked codec)
            → (begin (hash db) token given lease).0 ≡ started
            → settle codec server token given lease ttl (play server between now) lost w
              ≡ (value v false, end)
            → HasStored db between worked v end
        worked_inv threw b e = absurd (failed-ne-value v (ap (λ p. p.0) e))
        worked_inv (returned result) b e = encoded_inv result (to_stored codec result) refl b e

        found_inv :
            (found : Begun)
            → (begin (hash db) token given lease).0 ≡ found
            → run_found codec server token given lease ttl found now between lost worked
              ≡ (value v false, end)
            → HasStored db between worked v end
        found_inv started b e = worked_inv worked b e
        found_inv mismatch b e = absurd (not_started-ne-value mismatch v (ap (λ p. p.0) e))
        found_inv corrupt b e = absurd (not_started-ne-value corrupt v (ap (λ p. p.0) e))
        found_inv (running p) b e = absurd (not_started-ne-value (running p) v (ap (λ p. p.0) e))
        found_inv (done j) b e = absurd (not_started-ne-value (done j) v (ap (λ p. p.0) e))

  module _ (server : Server) (token given : String) (lease ttl : ℕ) where
    open server use {Db, hash}

    -- A run that returns its own result was alone: no `BEGIN` of another token has started on the
    -- key since its own, unless its own token began again.
    pub returned_alone :
        (db end : Db) (before : List Event) (other given' : String) (lease' : ℕ)
        (since : List Event) (lost : Bool) (worked : Worked codec) (v : codec.Value)
        → other ≢ token
        → All (IsNotBegin token) since
        → run codec server token given lease ttl db
            (before ++ begins other given' lease' ∷ since)
            lost
            worked
          ≡ (value v false, end)
        → (begin
            (hash (play server before (step server (begins token given lease) db)))
            other
            given'
            lease').0
          ≢ started
    returned_alone db end before other given' lease' since lost worked v ne nes e overtaken =
        let stored =
          run-HasStored server token given lease ttl db
            (before ++ begins other given' lease' ∷ since) lost worked v end e in
        let fenced =
          taken-IsFenced server (play server before (step server (begins token given lease) db))
            token other given' lease' since ne overtaken nes in
        let completed =
          rw
            (play-append server before (begins other given' lease' ∷ since)
              (step server (begins token given lease) db))
            at stored.completed in
        false≢true (sym (ap (λ p. p.0) (fenced.0 stored.json ttl)) ∙ completed)

    run_of_done :
        (db : Db) (between : List Event) (lost : Bool) (worked : Worked codec) (json : String)
        (v : codec.Value)
        → (begin (hash db) token given lease).0 ≡ done json
        → from_stored codec json ≡ some v
        → (run codec server token given lease ttl db between lost worked).0 ≡ value v true
    unfolding run
    run_of_done db between lost worked json v e stored = rw (e, run_found, not_started, stored) refl

    holds_of_complete :
        (h : Hash) (json : String) → (complete h token json ttl).0 ≡ true → holds h token ≡ true
    unfolding complete
    holds_of_complete h json e = elim (Bool-cases (holds h token)) [
      | inl own ↦ own
      | inr other ↦ absurd (false≢true (rw other at e))
    ]

  module _ (server : Server) where
    open server use {Db, hash}

    -- A run on a key that only the package wrote returns its own result `v`; from then on, within
    -- its `ttl` and whatever scripts follow, every run with the same fingerprint returns `v` as a
    -- replay, without running its own work.
    pub returned_replayed :
        (token given : String) (lease ttl : ℕ) (db end : Db) (between : List Event) (lost : Bool)
        (worked : Worked codec) (v : codec.Value) (after : List Event) (other : String)
        (lease' ttl' : ℕ) (between' : List Event) (lost' : Bool) (worked' : Worked codec)
        → IsOurs (hash db)
        → IsSent (begins token given lease)
        → 0 < ttl
        → All IsSent between
        → All (IsNotBegin token) between
        → run codec server token given lease ttl db between lost worked ≡ (value v false, end)
        → elapsed after < ttl * 1000
        → (run codec server other given lease' ttl'
            (play server after end)
            between'
            lost'
            worked').0
          ≡ value v true
    returned_replayed token given lease ttl db end between lost worked v after other lease' ttl'
          between' lost' worked' ours sent pos sents nes e within =
        let stored = run-HasStored server token given lease ttl db between lost worked v end e in
        let last = play server between (step server (begins token given lease) db) in
        let last_ours : IsOurs (hash last) =
          rw (hash-play server (begins token given lease ∷ between) db)
            (after_events-IsOurs (begins token given lease ∷ between) (sent, sents) ours) in
        let own =
          holds_of_complete server token given lease ttl (hash last) stored.json stored.completed in
        let fp = started-HasFp server db token given lease between stored.began nes own in
        let answer =
          begin-complete server last given token stored.json ttl after other given lease' last_ours
            fp pos stored.completed within in
        let same : str_eq given given ≡ true = (eq_iff given given).1 refl in
        rw stored.at_end (
          run_of_done server other given lease' ttl' _ between' lost' worked' stored.json v
            (answer ∙ if_same stored.json same)
            (from_stored-to_stored stored.result v stored.json stored.encoded))
