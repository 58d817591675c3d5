-- ===== src/Redis/Idempotency/Records.antt =====
-- The records that the scripts write, and what `BEGIN` answers about each: a free key, a run in
-- flight, a result, and a record with no time left.
use mathlib.Core.Bool.{false≢true}
use nxgt_data.Prelude.{
  ℕ, ◌+◌, ◌-◌, ◌*◌, ◌<◌, ◌≡◌, ◌≢◌, refl, ap, ◌∙◌, sym, true, false, Option, none, some, String,
  List, [], ◌∷◌, str_eq, ◌==◌, ltb, if◌then◌else◌, arith, All, Bool-cases, inl, inr, Bool, ◌↔◌,
  subst, clash,
}
use nxgt_data.Redis.Server.{Hash, no_key, after_all, elapse, Server}
use nxgt_data.Redis.Idempotency.{
  Begun, started, corrupt, mismatch, running, done, begin, complete, renew, release, hex_of,
  good_fp,
}
use nxgt_data.Redis.Idempotency.Events.{
  Event, begins, completes, renews, releases, passes, after_event, after_events, play, hash-play,
}

abbrev pub running_record : String → String → ℕ → Hash
running_record t f p = record {
  state = some "running";
  token = some t;
  fp = some f;
  value = none;
  others = 0;
  pttl = some p;
}

abbrev pub done_record : String → String → ℕ → Hash
done_record f v p = record {
  state = some "done";
  token = none;
  fp = some f;
  value = some v;
  others = 0;
  pttl = some p;
}

pub data IsOurs (h : Hash) : Type 0 where
  free : h ≡ no_key → IsOurs h
  in_flight :
      (t f : String) (p : ℕ)
      → hex_of 32 t ≡ true
      → good_fp f ≡ true
      → h ≡ running_record t f p
      → IsOurs h
  finished : (f v : String) (p : ℕ) → good_fp f ≡ true → h ≡ done_record f v p → IsOurs h

-- What `run` sends: a token of 32 hex digits, a fingerprint that is '' or 64 hex digits, and times
-- that the checks of a definition accept.
abbrev pub IsSent : Event → Type 0
IsSent (begins token given lease) = (hex_of 32 token ≡ true) × (good_fp given ≡ true) × (0 < lease)
IsSent (completes token json ttl) = 0 < ttl
IsSent (renews token lease) = 0 < lease
IsSent (releases token) = Unit
IsSent (passes ms) = Unit

-- What `BEGIN` should answer about a record, by its kind.
abbrev pub expected : {h : Hash} → IsOurs h → String → Begun
expected (free _) given = started
expected (in_flight t f p _ _ _) given =
    if p == 0 then corrupt else if str_eq f given then running p else mismatch
expected (finished f v p _ _) given =
    if p == 0 then corrupt else if str_eq f given then done v else mismatch

pos_test : (p : ℕ) → 0 < p → (p == 0) ≡ false
pos_test p h = ground arith

-- On a record that the package wrote `BEGIN` starts if it is free, and else, while it has time left,
-- replays, waits or refuses by the fingerprint.
pub begin-expected :
    {h : Hash} (ours : IsOurs h) (token given : String) (lease : ℕ)
    → (begin h token given lease).0 ≡ expected ours given
unfolding begin
begin-expected (free e) token given lease = rw e refl
begin-expected (in_flight t f p ht hf e) token given lease = elim (Bool-cases (p == 0)) [
  | inl over ↦ rw (e, over) refl
  | inr left ↦ rw (e, left, hf, ht) refl
]
begin-expected (finished f v p hf e) token given lease = elim (Bool-cases (p == 0)) [
  | inl over ↦ rw (e, over) refl
  | inr left ↦ rw (e, left, hf) refl
]

elapse-IsOurs : {h : Hash} (ms : ℕ) → IsOurs h → IsOurs (elapse ms h)
elapse-IsOurs ms (free e) = free (rw e refl)
elapse-IsOurs ms (in_flight t f p ht hf e) = elim (Bool-cases (ltb p ms)) [
  | inl over ↦ free (rw (e, over) refl)
  | inr left ↦ in_flight t f (p - ms) ht hf (rw (e, left) refl)
]
elapse-IsOurs ms (finished f v p hf e) = elim (Bool-cases (ltb p ms)) [
  | inl over ↦ free (rw (e, over) refl)
  | inr left ↦ finished f v (p - ms) hf (rw (e, left) refl)
]

begin-IsOurs :
    {h : Hash} (ours : IsOurs h) (token given : String) (lease : ℕ)
    → IsSent (begins token given lease)
    → IsOurs (after_all (begin h token given lease).1 h)
unfolding begin
begin-IsOurs (free e) token given lease (ht, hf, hl) =
    in_flight token given lease ht hf (rw (e, pos_test lease hl) refl)
begin-IsOurs (in_flight t f p ht hf e) token given lease _ = elim (Bool-cases (p == 0)) [
  | inl over ↦ in_flight t f p ht hf (rw (e, over) refl)
  | inr left ↦ in_flight t f p ht hf (rw (e, left) refl)
]
begin-IsOurs (finished f v p hf e) token given lease _ = elim (Bool-cases (p == 0)) [
  | inl over ↦ finished f v p hf (rw (e, over) refl)
  | inr left ↦ finished f v p hf (rw (e, left) refl)
]

complete-IsOurs :
    {h : Hash} (ours : IsOurs h) (token json : String) (ttl : ℕ)
    → 0 < ttl
    → IsOurs (after_all (complete h token json ttl).1 h)
unfolding complete
complete-IsOurs (free e) token json ttl ht = free (rw e refl)
complete-IsOurs (in_flight t f p tt' hf e) token json ttl ht = elim (Bool-cases (str_eq t token)) [
  | inl own ↦ finished f json (ttl * 1000) hf (rw (e, own, pos_test ttl ht) refl)
  | inr other ↦ in_flight t f p tt' hf (rw (e, other) refl)
]
complete-IsOurs (finished f v p hf e) token json ttl ht = finished f v p hf (rw e refl)

renew-IsOurs :
    {h : Hash} (ours : IsOurs h) (token : String) (lease : ℕ)
    → 0 < lease
    → IsOurs (after_all (renew h token lease).1 h)
unfolding renew
renew-IsOurs (free e) token lease hl = free (rw e refl)
renew-IsOurs (in_flight t f p ht hf e) token lease hl = elim (Bool-cases (str_eq t token)) [
  | inl own ↦ in_flight t f lease ht hf (rw (e, own, pos_test lease hl) refl)
  | inr other ↦ in_flight t f p ht hf (rw (e, other) refl)
]
renew-IsOurs (finished f v p hf e) token lease hl = finished f v p hf (rw e refl)

release-IsOurs :
    {h : Hash} (ours : IsOurs h) (token : String) → IsOurs (after_all (release h token).1 h)
unfolding release
release-IsOurs (free e) token = free (rw e refl)
release-IsOurs (in_flight t f p ht hf e) token = elim (Bool-cases (str_eq t token)) [
  | inl own ↦ free (rw (e, own) refl)
  | inr other ↦ in_flight t f p ht hf (rw (e, other) refl)
]
release-IsOurs (finished f v p hf e) token = finished f v p hf (rw e refl)

after_event-IsOurs : {h : Hash} (e : Event) → IsSent e → IsOurs h → IsOurs (after_event e h)
unfolding after_event
after_event-IsOurs (begins token given lease) s ours = begin-IsOurs ours token given lease s
after_event-IsOurs (completes token json ttl) s ours = complete-IsOurs ours token json ttl s
after_event-IsOurs (renews token lease) s ours = renew-IsOurs ours token lease s
after_event-IsOurs (releases token) s ours = release-IsOurs ours token
after_event-IsOurs (passes ms) s ours = elapse-IsOurs ms ours

pub after_events-IsOurs :
    (es : List Event) → All IsSent es → {h : Hash} → IsOurs h → IsOurs (after_events es h)
after_events-IsOurs [] _ ours = ours
after_events-IsOurs (e ∷ es) (s, ss) ours = after_events-IsOurs es ss (after_event-IsOurs e s ours)

none-ne-some : (n : ℕ) → ◌≢◌ {A = Option ℕ} none (some n)
none-ne-some n e = cc

running-ne-corrupt : (b : Bool) (p : ℕ) → (if b then running p else mismatch) ≢ corrupt
running-ne-corrupt b p e = ground arith

done-ne-corrupt : (b : Bool) (v : String) → (if b then done v else mismatch) ≢ corrupt
done-ne-corrupt b v e = ground arith

started-ne-corrupt : ◌≢◌ {A = Begun} started corrupt
started-ne-corrupt e = cc

zero_of : (p : ℕ) → (p == 0) ≡ true → p ≡ 0
zero_of p e = ground arith

some_zero : (p : ℕ) → some p ≡ some 0 → (p == 0) ≡ true
some_zero p e = let q : p ≡ 0 = ap (λ o. elim o [ none ↦ p | some x ↦ x ]) e in ground arith

expected-eq-corrupt_iff :
    {h : Hash} (ours : IsOurs h) (given : String)
    → (expected ours given ≡ corrupt) ↔ (h.pttl ≡ some 0)
expected-eq-corrupt_iff (free e) given =
    (λ c. absurd (started-ne-corrupt c), λ t. absurd (none-ne-some 0 (rw e at t)))
expected-eq-corrupt_iff (in_flight t f p _ _ e) given = elim (Bool-cases (p == 0)) [
  | inl over ↦ (λ _. rw e (ap some (zero_of p over)), λ _. rw over refl)
  | inr left ↦ (
    λ c. absurd (running-ne-corrupt (str_eq f given) p (rw left at c)),
    λ z. absurd (clash (some_zero p (rw e at z)) left),
  )
]
expected-eq-corrupt_iff (finished f v p _ e) given = elim (Bool-cases (p == 0)) [
  | inl over ↦ (λ _. rw e (ap some (zero_of p over)), λ _. rw over refl)
  | inr left ↦ (
    λ c. absurd (done-ne-corrupt (str_eq f given) v (rw left at c)),
    λ z. absurd (clash (some_zero p (rw e at z)) left),
  )
]

-- The ms that pass in a history.
abbrev pub elapsed : List Event → ℕ
elapsed [] = 0
elapsed (passes ms ∷ es) = ms + elapsed es
elapsed (begins _ _ _ ∷ es) = elapsed es
elapsed (completes _ _ _ ∷ es) = elapsed es
elapsed (renews _ _ ∷ es) = elapsed es
elapsed (releases _ ∷ es) = elapsed es

done_stays :
    (f v : String) (p : ℕ) (es : List Event)
    → elapsed es < p
    → after_events es (done_record f v p) ≡ done_record f v (p - elapsed es)
unfolding after_event begin complete renew release
done_stays f v p [] h = ap (done_record f v) (omega arith)
done_stays f v p (begins token given lease ∷ es) h =
    rw (pos_test p (omega arith)) (done_stays f v p es h)
done_stays f v p (completes token json ttl ∷ es) h = done_stays f v p es h
done_stays f v p (renews token lease ∷ es) h = done_stays f v p es h
done_stays f v p (releases token ∷ es) h = done_stays f v p es h
done_stays f v p (passes ms ∷ es) h =
    let left : ltb p ms ≡ false = ground arith in
    let split : p - ms - elapsed es ≡ p - (ms + elapsed es) = omega arith in
    rw left (done_stays f v (p - ms) es (omega arith) ∙ ap (done_record f v) split)

some_eq : (g f : String) → some g ≡ some f → g ≡ f
some_eq g f e = cc

no_fp : (f : String) → ◌≢◌ {A = Option String} none (some f)
no_fp f e = cc

-- What a run that holds the key stores.
complete_stores :
    {h : Hash} (ours : IsOurs h) (f token json : String) (ttl : ℕ)
    → h.fp ≡ some f
    → 0 < ttl
    → (complete h token json ttl).0 ≡ true
    → (good_fp f ≡ true)
      × (after_event (completes token json ttl) h ≡ done_record f json (ttl * 1000))
unfolding after_event complete
complete_stores (free e) f token json ttl ef ht c = absurd (no_fp f (rw e at ef))
complete_stores (in_flight t g p _ hf e) f token json ttl ef ht c =
    elim (Bool-cases (str_eq t token)) [
      | inl own ↦
          let same : g ≡ f = some_eq g f (rw e at ef) in
          (rw (← same) hf, rw (e, own, pos_test ttl ht, same) refl)
      | inr other ↦ absurd (false≢true (rw (e, other) at c))
    ]
complete_stores (finished g v p hf e) f token json ttl ef ht c = absurd (false≢true (rw e at c))

module _ (server : Server) where
  open server use {Db, hash}

  -- A key that starts free, and that only the package's scripts write, is answered `corrupt`
  -- exactly when its record is there with 0 ms left, as it is for the last ms of its time to live.
  pub begin-eq-corrupt_iff :
      (db : Db) (es : List Event) (token given : String) (lease : ℕ)
      → hash db ≡ no_key
      → All IsSent es
      → ((begin (hash (play server es db)) token given lease).0 ≡ corrupt)
        ↔ ((hash (play server es db)).pttl ≡ some 0)
  begin-eq-corrupt_iff db es token given lease e sent =
      let ours : IsOurs (hash (play server es db)) =
        subst IsOurs (sym (hash-play server es db)) (after_events-IsOurs es sent (free e)) in
      let same = begin-expected ours token given lease in
      let iff = expected-eq-corrupt_iff ours given in
      (λ c. iff.0 (sym same ∙ c), λ z. same ∙ iff.1 z)

  -- Once `COMPLETE` has stored a result, whatever scripts follow within its `ttl`, a `BEGIN` with
  -- the fingerprint of the first run is answered with that result, and one with another is refused.
  pub begin-complete :
      (db : Db) (f token json : String) (ttl : ℕ) (es : List Event) (other given : String)
      (lease : ℕ)
      → IsOurs (hash db)
      → (hash db).fp ≡ some f
      → 0 < ttl
      → (complete (hash db) token json ttl).0 ≡ true
      → elapsed es < ttl * 1000
      → (begin (hash (play server (completes token json ttl ∷ es) db)) other given lease).0
        ≡ (if str_eq f given then done json else mismatch)
  begin-complete db f token json ttl es other given lease ours ef ht c within =
      let (hf, stored) = complete_stores ours f token json ttl ef ht c in
      let kept = done_stays f json (ttl * 1000) es within in
      let read : hash (play server (completes token json ttl ∷ es) db)
          ≡ done_record f json (ttl * 1000 - elapsed es) =
        hash-play server (completes token json ttl ∷ es) db ∙ ap (after_events es) stored ∙ kept in
      let left = pos_test (ttl * 1000 - elapsed es) (omega arith) in
      begin-expected (finished f json (ttl * 1000 - elapsed es) hf read) other given lease
      ∙ rw left refl
