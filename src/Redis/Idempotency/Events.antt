-- ===== src/Redis/Idempotency/Events.antt =====
-- What may happen to one key: the scripts of any number of runs, each one step on the server, and
-- the passing of time, in any order.
use nxgt_data.Prelude.{ℕ, ◌≡◌, ◌≢◌, refl, ap, ◌∙◌, String, List, [], ◌∷◌, ◌++◌}
use nxgt_data.Redis.Server.{Hash, after_all, elapse, Server}
use nxgt_data.Redis.Idempotency.{begin, complete, renew, release}

pub data Event : Type 0 where
  begins : (token given : String) (lease : ℕ) → Event
  completes : (token json : String) (ttl : ℕ) → Event
  renews : (token : String) (lease : ℕ) → Event
  releases : (token : String) → Event
  passes : ℕ → Event

-- What an event makes of the key's hash.
unfoldable pub after_event : Event → Hash → Hash
after_event (begins token given lease) h = after_all (begin h token given lease).1 h
after_event (completes token json ttl) h = after_all (complete h token json ttl).1 h
after_event (renews token lease) h = after_all (renew h token lease).1 h
after_event (releases token) h = after_all (release h token).1 h
after_event (passes ms) h = elapse ms h

abbrev pub after_events : List Event → Hash → Hash
after_events [] h = h
after_events (e ∷ es) h = after_events es (after_event e h)

module _ (server : Server) where
  open server use {Db, hash, exec, pass, hash-exec, hash-pass}

  unfoldable pub step : Event → Db → Db
  step (begins token given lease) db = exec (begin (hash db) token given lease).1 db
  step (completes token json ttl) db = exec (complete (hash db) token json ttl).1 db
  step (renews token lease) db = exec (renew (hash db) token lease).1 db
  step (releases token) db = exec (release (hash db) token).1 db
  step (passes ms) db = pass ms db

  abbrev pub play : List Event → Db → Db
  play [] db = db
  play (e ∷ es) db = play es (step e db)

  pub hash-step : (e : Event) (db : Db) → hash (step e db) ≡ after_event e (hash db)
  unfolding step after_event
  hash-step (begins token given lease) db = hash-exec _ db
  hash-step (completes token json ttl) db = hash-exec _ db
  hash-step (renews token lease) db = hash-exec _ db
  hash-step (releases token) db = hash-exec _ db
  hash-step (passes ms) db = hash-pass ms db

  pub hash-play : (es : List Event) (db : Db) → hash (play es db) ≡ after_events es (hash db)
  hash-play [] db = refl
  hash-play (e ∷ es) db = hash-play es (step e db) ∙ ap (after_events es) (hash-step e db)

  pub play-append : (es fs : List Event) (db : Db) → play (es ++ fs) db ≡ play fs (play es db)
  play-append [] fs db = refl
  play-append (e ∷ es) fs db = play-append es fs (step e db)

-- No event is a `BEGIN` with this token.
abbrev pub IsNotBegin : String → Event → Type 0
IsNotBegin token (begins other given lease) = other ≢ token
IsNotBegin token _ = Unit
