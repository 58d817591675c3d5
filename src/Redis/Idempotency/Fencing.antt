-- ===== src/Redis/Idempotency/Fencing.antt =====
-- A run that lost its key cannot change it: not finish over another run, nor keep its marker
-- alive, nor free it.
use nxgt_data.Prelude.{
  ℕ, ◌≡◌, ◌≢◌, ◌↔◌, refl, ◌∙◌, sym, Bool, true, false, not, ◌&&◌, ◌||◌, Option, none, some, String,
  List, [], ◌∷◌, str_eq, eq_iff, ◌==◌, ltb, arith, All, Bool-cases, Option-cases, inl, inr,
}
use nxgt_data.Redis.Server.{
  Hash, no_key, hlen, set_state, set_token, set_fp, pexpire, after_all, elapse, Server,
}
use nxgt_data.Redis.Idempotency.{
  Begun, started, corrupt, begin, complete, renew, release, holds, is, answer_fp, answer, time_left,
}
use nxgt_data.Redis.Idempotency.Events.{
  Event, begins, completes, renews, releases, passes, after_event, after_events, step, play,
  hash-step, hash-play, IsNotBegin,
}

is_other : (o : Option String) (s t : String) → s ≢ t → is o s ≡ true → is o t ≡ false
is_other none s t ne e = refl
is_other (some x) s t ne e = elim (Bool-cases (str_eq x t)) [
  | inl same ↦ absurd (ne (sym ((eq_iff x s).0 e) ∙ (eq_iff x t).0 same))
  | inr differs ↦ differs
]

differs_of_ne : (s t : String) → s ≢ t → str_eq s t ≡ false
differs_of_ne s t ne = elim (Bool-cases (str_eq s t)) [
  | inl same ↦ absurd (ne ((eq_iff s t).0 same))
  | inr differs ↦ differs
]

taken_free : (h : Hash) → (hlen h == 0) ≡ false → hlen h ≡ 0 → ⊥
taken_free h taken e = ground arith

zero_test : (n : ℕ) → n ≡ 0 → (n == 0) ≡ true
zero_test n e = ground arith

lost_and : (b : Bool) → (b && false) ≡ false
lost_and true = refl
lost_and false = refl

-- The record that a `BEGIN` writes is not another token's.
fresh_lost :
    (h : Hash) (token other given : String) (lease : ℕ)
    → other ≢ token
    → holds
        (after_all (set_state "running" ∷ set_token other ∷ set_fp given ∷ pexpire lease ∷ []) h)
        token
      ≡ false
fresh_lost h token other given lease ne = elim (Bool-cases (lease == 0)) [
  | inl gone ↦ rw gone
  | inr stays ↦ rw (stays, differs_of_ne other token ne) refl
]

elapse_lost :
    (ms : ℕ) (h : Hash) (token : String) → holds h token ≡ false → holds (elapse ms h) token ≡ false
elapse_lost ms h token e = elim (Option-cases h.pttl) [
  | inl endless ↦ rw endless e
  | inr (p, ends) ↦ elim (Bool-cases (ltb p ms)) [
    | inl over ↦ rw (ends, over) refl
    | inr left ↦ rw (ends, left) e
  ]
]

-- Only a `BEGIN` with the token itself gives it the key.
after_event_lost :
    (e : Event) (h : Hash) (token : String)
    → IsNotBegin token e
    → holds h token ≡ false
    → holds (after_event e h) token ≡ false
unfolding after_event begin complete renew release
after_event_lost (begins other given lease) h token ne lost = elim (Bool-cases (hlen h == 0)) [
  | inl free ↦ rw free (fresh_lost h token other given lease ne)
  | inr taken ↦ elim (Bool-cases (not (hlen h == 3) || (time_left h.pttl == 0))) [
    | inl odd ↦ rw (taken, odd) lost
    | inr whole ↦ rw (taken, whole) lost
  ]
]
after_event_lost (completes other json ttl) h token _ lost = elim (Bool-cases (holds h other)) [
  | inl own ↦ elim (Bool-cases (ttl == 0)) [
    | inl gone ↦ rw (own, gone)
    | inr stays ↦ rw (own, stays)
  ]
  | inr not_own ↦ rw not_own lost
]
after_event_lost (renews other lease) h token _ lost = elim (Bool-cases (holds h other)) [
  | inl own ↦ elim (Bool-cases (lease == 0)) [
    | inl gone ↦ rw (own, gone)
    | inr stays ↦ rw (own, stays) lost
  ]
  | inr not_own ↦ rw not_own lost
]
after_event_lost (releases other) h token _ lost = elim (Bool-cases (holds h other)) [
  | inl own ↦ rw own
  | inr not_own ↦ rw not_own lost
]
after_event_lost (passes ms) h token _ lost = elapse_lost ms h token lost

answer_fp-ne-started :
    (h : Hash) (fp : Option String) (given : String) → answer_fp h fp given ≢ started
unfolding begin
answer_fp-ne-started h none given e = cc
answer_fp-ne-started h (some fp) given e = answer-ne-started h fp given h.value refl e
  where
    answer-ne-started :
        (h : Hash) (fp given : String) (v : Option String)
        → h.value ≡ v
        → answer h fp given ≢ started
    answer-ne-started h fp given none q e = ground arith
    answer-ne-started h fp given (some v) q e = ground arith

corrupt-ne-started : ◌≢◌ {A = Begun} corrupt started
corrupt-ne-started e = cc

-- `BEGIN` starts exactly when the key has no field.
pub begin-eq-started_iff :
    (h : Hash) (token given : String) (lease : ℕ)
    → ((begin h token given lease).0 ≡ started) ↔ (hlen h ≡ 0)
unfolding begin
begin-eq-started_iff h token given lease = (to, from)
  where
    to : (begin h token given lease).0 ≡ started → hlen h ≡ 0
    to e = elim (Bool-cases (hlen h == 0)) [
      | inl free ↦ ground arith
      | inr taken ↦ elim (Bool-cases (not (hlen h == 3) || (time_left h.pttl == 0))) [
        | inl odd ↦ absurd (corrupt-ne-started (rw (taken, odd) at e))
        | inr whole ↦ absurd (answer_fp-ne-started h h.fp given (rw (taken, whole) at e))
      ]
    ]

    from : hlen h ≡ 0 → (begin h token given lease).0 ≡ started
    from e = let free : (hlen h == 0) ≡ true = ground arith in rw free

-- A `BEGIN` that starts takes the key from every other run.
after_begin_lost :
    (h : Hash) (token other given : String) (lease : ℕ)
    → other ≢ token
    → (begin h other given lease).0 ≡ started
    → holds (after_event (begins other given lease) h) token ≡ false
unfolding after_event begin
after_begin_lost h token other given lease ne e = elim (Bool-cases (hlen h == 0)) [
  | inl free ↦ rw free (fresh_lost h token other given lease ne)
  | inr taken ↦ absurd (taken_free h taken ((begin-eq-started_iff h other given lease).0 e))
]

true-ne-false : {b : Bool} → b ≡ true → b ≡ false → ⊥
true-ne-false p q = cc

-- The fingerprint of the run that holds the key is the one that it began with.
abbrev pub HasFp : String → String → Hash → Type 0
HasFp token given h = holds h token ≡ true → h.fp ≡ some given

lost-HasFp : (token given : String) (h : Hash) → holds h token ≡ false → HasFp token given h
lost-HasFp token given h lost own = absurd (true-ne-false own lost)

elapse-HasFp :
    (ms : ℕ) (h : Hash) (token given : String)
    → HasFp token given h
    → HasFp token given (elapse ms h)
elapse-HasFp ms h token given f = elim (Option-cases h.pttl) [
  | inl endless ↦ rw endless f
  | inr (p, ends) ↦ elim (Bool-cases (ltb p ms)) [
    | inl over ↦ rw (ends, over) (lost-HasFp token given no_key refl)
    | inr left ↦ rw (ends, left) f
  ]
]

after_event-HasFp :
    (e : Event) (h : Hash) (token given : String)
    → IsNotBegin token e
    → HasFp token given h
    → HasFp token given (after_event e h)
unfolding after_event begin complete renew release
after_event-HasFp (begins other given' lease) h token given ne f = elim (Bool-cases (hlen h == 0)) [
  | inl free ↦
      rw free (λ own. absurd (true-ne-false own (fresh_lost h token other given' lease ne)))
  | inr taken ↦ elim (Bool-cases (not (hlen h == 3) || (time_left h.pttl == 0))) [
    | inl odd ↦ rw (taken, odd) f
    | inr whole ↦ rw (taken, whole) f
  ]
]
after_event-HasFp (completes other json ttl) h token given _ f = elim (Bool-cases (holds h other)) [
  | inl own ↦ elim (Bool-cases (ttl == 0)) [
    | inl gone ↦ rw (own, gone) (lost-HasFp token given no_key refl)
    | inr stays ↦ rw (own, stays) (λ own'. absurd (true-ne-false own' refl))
  ]
  | inr not_own ↦ rw not_own f
]
after_event-HasFp (renews other lease) h token given _ f = elim (Bool-cases (holds h other)) [
  | inl own ↦ elim (Bool-cases (lease == 0)) [
    | inl gone ↦ rw (own, gone) (lost-HasFp token given no_key refl)
    | inr stays ↦ rw (own, stays) f
  ]
  | inr not_own ↦ rw not_own f
]
after_event-HasFp (releases other) h token given _ f = elim (Bool-cases (holds h other)) [
  | inl own ↦ rw own (lost-HasFp token given no_key refl)
  | inr not_own ↦ rw not_own f
]
after_event-HasFp (passes ms) h token given _ f = elapse-HasFp ms h token given f

pub after_events-HasFp :
    (es : List Event) (h : Hash) (token given : String)
    → All (IsNotBegin token) es
    → HasFp token given h
    → HasFp token given (after_events es h)
after_events-HasFp [] h token given _ f = f
after_events-HasFp (e ∷ es) h token given (ne, nes) f =
    after_events-HasFp es (after_event e h) token given nes (after_event-HasFp e h token given ne f)

begin-HasFp :
    (h : Hash) (token given : String) (lease : ℕ)
    → (begin h token given lease).0 ≡ started
    → HasFp token given (after_event (begins token given lease) h)
unfolding after_event begin
begin-HasFp h token given lease e =
    let free : (hlen h == 0) ≡ true =
      zero_test _ ((begin-eq-started_iff h token given lease).0 e) in
    elim (Bool-cases (lease == 0)) [
      | inl gone ↦ rw (free, gone) (lost-HasFp token given no_key refl)
      | inr stays ↦ rw (free, stays) (λ _. refl)
    ]

after_events_lost :
    (es : List Event) (h : Hash) (token : String)
    → All (IsNotBegin token) es
    → holds h token ≡ false
    → holds (after_events es h) token ≡ false
after_events_lost [] h token _ lost = lost
after_events_lost (e ∷ es) h token (ne, nes) lost =
    after_events_lost es (after_event e h) token nes (after_event_lost e h token ne lost)

-- The three scripts of a run that does not hold the key refuse, and send nothing.
abbrev pub IsFenced : Hash → String → Type 0
IsFenced h token =
    ((json : String) (ttl : ℕ) → complete h token json ttl ≡ (false, []))
    × ((lease : ℕ) → renew h token lease ≡ (false, []))
    × (release h token ≡ (false, []))

lost-IsFenced : (h : Hash) (token : String) → holds h token ≡ false → IsFenced h token
unfolding complete renew release
lost-IsFenced h token lost = (λ json ttl. rw lost, λ lease. rw lost, rw lost)

module _ (server : Server) where
  open server use {Db, hash}

  -- Once another run's `BEGIN` has started on a key, and whatever scripts of any runs and whatever
  -- time follow, a run that does not `BEGIN` again is refused by `COMPLETE`, `RENEW` and `RELEASE`,
  -- which change nothing.
  pub taken-IsFenced :
      (db : Db) (token other given : String) (lease : ℕ) (es : List Event)
      → other ≢ token
      → (begin (hash db) other given lease).0 ≡ started
      → All (IsNotBegin token) es
      → IsFenced (hash (play server es (step server (begins other given lease) db))) token
  taken-IsFenced db token other given lease es ne e nes =
      rw
        (
          hash-play server es (step server (begins other given lease) db),
          hash-step server (begins other given lease) db,
        )
        (lost-IsFenced _ token (
          after_events_lost es _ token nes
            (after_begin_lost (hash db) token other given lease ne e)))

  -- While a run holds the key, its record has the fingerprint that its `BEGIN` was given.
  pub started-HasFp :
      (db : Db) (token given : String) (lease : ℕ) (es : List Event)
      → (begin (hash db) token given lease).0 ≡ started
      → All (IsNotBegin token) es
      → HasFp token given (hash (play server es (step server (begins token given lease) db)))
  started-HasFp db token given lease es e nes =
      rw
        (
          hash-play server es (step server (begins token given lease) db),
          hash-step server (begins token given lease) db,
        )
        (after_events-HasFp es _ token given nes (begin-HasFp (hash db) token given lease e))
