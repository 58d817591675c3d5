-- ===== src/Mongo/Migrations/Lock/Exclusive.antt =====
-- The lock between runs as a sequence of the server's writes, at times that do not go back.
use nxgt_data.Prelude.{
  clash, ℕ, ◌+◌, ◌≤◌, ◌<◌, ◌≡◌, ◌↔◌, refl, sym, ap, ◌∙◌, subst, ◌⊎◌, inl, inr, true, false, none,
  some, String, str_eq, eq_iff, leb, leb→le, le→leb, arith, Bool-cases,
}
use nxgt_data.Mongo.Migrations.Lock.{
  LockDocument, Stored, HeldLock, stamped, insert_lock, take_lapsed, take, Acquired, taken, held_by,
  acquire, renew, release,
}

-- The server: its clock and the lock's document.
pub record Server : Type 0 where
  pub now : ℕ
  pub stored : Stored

-- Time passing, and each write of the runs, the two of `take` one by one, other than the release by `holder`.
pub data Step (ttl : ℕ) (holder : String) : Server → Server → Type 0 where
  waits :
      (s : Server) (later : ℕ)
      → s.now ≤ later
      → Step ttl holder s (record { now = later; stored = s.stored })
  inserts :
      (s : Server) (by : String)
      → Step ttl holder s (record { now = s.now; stored = (insert_lock ttl by s.now s.stored).0 })
  takes_over :
      (s : Server) (by : String)
      → Step ttl holder s (record { now = s.now; stored = (take_lapsed ttl by s.now s.stored).0 })
  renews :
      (s : Server) (lock : HeldLock)
      → Step ttl holder s (record { now = s.now; stored = (renew ttl s.now lock s.stored).0 })
  releases :
      (s : Server) (lock : HeldLock)
      → str_eq holder lock.holder ≡ false
      → Step ttl holder s (record { now = s.now; stored = release lock s.stored })

pub data Steps (ttl : ℕ) (holder : String) : Server → Server → Type 0 where
  start : (s : Server) → Steps ttl holder s s
  next : (s t u : Server) → Steps ttl holder s t → Step ttl holder t u → Steps ttl holder s u

take_lapsed_lem :
    (ttl : ℕ) (holder : String) (now : ℕ) (d : LockDocument)
    → leb d.expires_at now ≡ false
    → take_lapsed ttl holder now (some d) ≡ (some d, false)
unfolding take_lapsed
take_lapsed_lem ttl holder now d e = rw (take_lapsed, e) refl

acquire_lapsed :
    (ttl : ℕ) (holder : String) (now : ℕ) (d : LockDocument)
    → leb d.expires_at now ≡ false
    → acquire ttl holder now (some d) ≡ (some d, held_by (some d))
unfolding acquire take insert_lock take_lapsed
acquire_lapsed ttl holder now d e = rw (acquire, take, insert_lock, take_lapsed, e) refl

not_lapsed : (expires now : ℕ) → now < expires → leb expires now ≡ false
not_lapsed expires now lt = ground arith

-- The holder's document, which lasts until `until` at least.
pub record IsHeld (holder : String) (until : ℕ) (stored : Stored) : Type 0 where
  pub document : LockDocument
  pub there : stored ≡ some document
  pub own : str_eq document.holder holder ≡ true
  pub lasts : until ≤ document.expires_at

Holds : ℕ → String → ℕ → Server → Type 0
Holds ttl holder since s =
    s.now < since + ttl → (since ≤ s.now) × IsHeld holder (since + ttl) s.stored

Step-Holds :
    (ttl : ℕ) (holder : String) (since : ℕ) (s t : Server)
    → Step ttl holder s t
    → Holds ttl holder since s
    → Holds ttl holder since t
unfolding Holds insert_lock renew release
Step-Holds ttl holder since s _ (waits _ later le) h early =
    let r = h (omega (arith, le, early)) in (omega (arith, r.0, le), r.1)
Step-Holds ttl holder since s _ (inserts _ by) h early =
    let r = h early in
    (
      r.0,
      record {
        document = r.1.document;
        there = rw (r.1.there, insert_lock) refl;
        own = r.1.own;
        lasts = r.1.lasts;
      },
    )
Step-Holds ttl holder since s _ (takes_over _ by) h early =
    let r = h early in
    let shut = not_lapsed r.1.document.expires_at s.now (omega (arith, r.1.lasts, early)) in
    let same =
      ap (take_lapsed ttl by s.now) r.1.there ∙ take_lapsed_lem ttl by s.now r.1.document shut in
    (
      r.0,
      record {
        document = r.1.document;
        there = ap (λ p. p.0) same;
        own = r.1.own;
        lasts = r.1.lasts;
      },
    )
Step-Holds ttl holder since s _ (renews _ lock) h early =
    let r = h early in
    let d = r.1.document in
    elim (Bool-cases (str_eq d.holder lock.holder)) [
      | inl mine ↦ (
        r.0,
        record {
          document = record {
            holder = d.holder;
            acquired_at = d.acquired_at;
            expires_at = s.now + ttl;
          };
          there = rw (r.1.there, renew, mine) refl;
          own = r.1.own;
          lasts = omega (arith, r.0);
        },
      )
      | inr theirs ↦ (
        r.0,
        record {
          document = d;
          there = rw (r.1.there, renew, theirs) refl;
          own = r.1.own;
          lasts = r.1.lasts;
        },
      )
    ]
Step-Holds ttl holder since s _ (releases _ lock other) h early =
    let r = h early in
    let d = r.1.document in
    let theirs : str_eq d.holder lock.holder ≡ false =
      ap (λ x. str_eq x lock.holder) ((eq_iff d.holder holder).0 r.1.own) ∙ other in
    (
      r.0,
      record {
        document = d;
        there = rw (r.1.there, release, theirs) refl;
        own = r.1.own;
        lasts = r.1.lasts;
      },
    )

Steps-Holds :
    (ttl : ℕ) (holder : String) (since : ℕ) (s t : Server)
    → Steps ttl holder s t
    → Holds ttl holder since s
    → Holds ttl holder since t
Steps-Holds ttl holder since s _ (start _) h = h
Steps-Holds ttl holder since s _ (next _ t u before step) h =
    Step-Holds ttl holder since t u step (Steps-Holds ttl holder since s t before h)

-- From a lock just taken, whatever writes the runs send until its TTL has passed, but for the
-- holder's own release, neither write of another `take` changes the document or takes it, no run
-- acquires it, and the holder's renewal finds it.
pub acquire-exclusive :
    (ttl : ℕ) (holder : String) (s t : Server)
    → s.stored ≡ some (stamped ttl holder s.now)
    → Steps ttl holder s t
    → t.now < s.now + ttl
    → ((by : String)
        → (insert_lock ttl by t.now t.stored ≡ (t.stored, false))
          × (take_lapsed ttl by t.now t.stored ≡ (t.stored, false))
          × ((acquire ttl by t.now t.stored).1 ≡ held_by t.stored))
      × ((lock : HeldLock) → lock.holder ≡ holder → (renew ttl t.now lock t.stored).1 ≡ lock)
unfolding Holds stamped insert_lock renew
acquire-exclusive ttl holder s t taken_now steps early =
    let at_start : Holds ttl holder s.now s = λ e. (
      omega arith,
      record {
        document = stamped ttl holder s.now;
        there = taken_now;
        own = (eq_iff holder holder).1 refl;
        lasts = omega arith;
      },
    ) in
    let r = Steps-Holds ttl holder s.now s t steps at_start early in
    let d = r.1.document in
    let shut = not_lapsed d.expires_at t.now (omega (arith, r.1.lasts, early)) in
    (
      λ by. (
        rw (r.1.there, insert_lock) refl,
        rw (r.1.there) (take_lapsed_lem ttl by t.now d shut),
        rw (r.1.there) (ap (λ p. p.1) (acquire_lapsed ttl by t.now d shut)),
      ),
      λ lock same.
          let own : str_eq d.holder lock.holder ≡ true =
            subst (λ x. str_eq d.holder x ≡ true) (sym same) r.1.own in
          rw (r.1.there, renew, own) refl,
    )

-- A run acquires the lock exactly when no document is there or the one there has lapsed.
pub acquire_iff :
    (ttl : ℕ) (holder : String) (now : ℕ) (stored : Stored)
    → ((acquire ttl holder now stored).1 ≡ taken (record { holder = holder; lost = false }))
      ↔ ((stored ≡ none) ⊎ ((d : LockDocument) × (stored ≡ some d) × (d.expires_at ≤ now)))
unfolding acquire take insert_lock take_lapsed
acquire_iff ttl holder now none = (λ e. inl refl, λ e. refl)
acquire_iff ttl holder now (some d) = elim (Bool-cases (leb d.expires_at now)) [
  | inl lapsed ↦ (
    λ e. inr (d, refl, leb→le d.expires_at now lapsed),
    λ e. rw (acquire, take, insert_lock, take_lapsed, lapsed) refl,
  )
  | inr lasts ↦ (
    λ e.
        let bad : ◌≡◌ {A = Acquired} (held_by (some d))
            (taken (record { holder = holder; lost = false })) =
          rw (acquire, take, insert_lock, take_lapsed, lasts) at e in
        cc,
    λ e. elim e [
      | inl nothing ↦ cc
      | inr (d', same, le) ↦
          let at : d.expires_at ≤ now =
            subst (λ n. n ≤ now) (ap (λ o. elim o [ none ↦ 0 | some x ↦ x.expires_at ]) (sym same))
              le in
          let lapsed = le→leb d.expires_at now at in absurd (clash lapsed lasts)
    ],
  )
]
