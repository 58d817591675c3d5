-- ===== src/Redis/Queue/Placed.antt =====
-- Where the jobs of a queue are: each one is in the set that its state names and in no other, and
-- has a token when it is active. While a claim pops, the popped ids that it has not come to are
-- pending: they wait, but are out of `ready`.
pub mod Untouched
pub mod Claims
pub mod Begins
pub mod Settles
pub mod Workers
pub mod Adds
pub mod Admins
pub mod Calls
pub mod Leases
use nxgt_data.Prelude.{
  ℕ, ◌≡◌, refl, sym, ap, ◌∙◌, subst, Bool, true, false, ◌&&◌, ◌||◌, not, Option, none, some, String,
  List, [], ◌∷◌, str_eq, str_eq_refl, eq_iff, any, Bool-cases, inl, inr, clash, if◌then◌else◌,
}
use nxgt_data.Redis.Zsets.{Zsets}
use nxgt_data.Redis.Queue.Commands.{
  job_after, held_after, run_all-others, jobs-run_all, in_set-run_all,
}
use nxgt_data.Redis.Queue.{
  Job, no_fields, Key, delayed, ready, active, completed, failed, same, Queue, fields, is, is_there,
  Command, edit, del, zadd, zrem, hash, score_in, in_set, run, run_all, poke, publish, Event,
}

-- A text is one of two different ones at most.
pub only : (o : Option String) (s t : String) → is o s ≡ true → str_eq s t ≡ false → is o t ≡ false
only none s t e ne = refl
only (some x) s t e ne = subst (λ y. str_eq y t ≡ false) (sym ((eq_iff x s).0 e)) ne

-- The state of the jobs of a set.
abbrev pub text : Key → String
text delayed = "delayed"
text ready = "waiting"
text active = "active"
text completed = "completed"
text failed = "failed"

abbrev pub member : String → List String → Bool
member j = any (λ i. str_eq i j)

-- One id: its hash, which sets hold it, and whether it is pending.
pub record IsPlacedAt (o : Option Job) (held : Key → Bool) (pending : Bool) : Type 0 where
  pub agrees : (k : Key) → (held k || (pending && same ready k)) ≡ is (fields o).state (text k)
  pub fenced : is_there (fields o).token ≡ is (fields o).state "active"
  pub known : is_there o ≡ true → (k : Key) × (is (fields o).state (text k) ≡ true)
  pub out : pending ≡ true → held ready ≡ false

pub record IsPlacedBut {R : Zsets} (pending : String → Bool) (q : Queue R) : Type 0 where
  pub at : (j : String) → IsPlacedAt (q.jobs j) (λ k. in_set q k j) (pending j)

abbrev pub IsPlaced : {R : Zsets} → Queue R → Type 0
IsPlaced q = IsPlacedBut (λ _. false) q

pub by_key :
    (P : Key → Type 0) → P delayed → P ready → P active → P completed → P failed → (k : Key) → P k
by_key P d r a c f delayed = d
by_key P d r a c f ready = r
by_key P d r a c f active = a
by_key P d r a c f completed = c
by_key P d r a c f failed = f

-- The states of two sets differ as the sets do.
text_differs : (k l : Key) → str_eq (text k) (text l) ≡ same k l
text_differs delayed =
    by_key (λ l. str_eq "delayed" (text l) ≡ same delayed l) refl refl refl refl refl
text_differs ready = by_key (λ l. str_eq "waiting" (text l) ≡ same ready l) refl refl refl refl refl
text_differs active =
    by_key (λ l. str_eq "active" (text l) ≡ same active l) refl refl refl refl refl
text_differs completed =
    by_key (λ l. str_eq "completed" (text l) ≡ same completed l) refl refl refl refl refl
text_differs failed =
    by_key (λ l. str_eq "failed" (text l) ≡ same failed l) refl refl refl refl refl

pub not_and : (b : Bool) → (not b && b) ≡ false
not_and true = refl
not_and false = refl

or_false : (b : Bool) → (b || false) ≡ b
or_false true = refl
or_false false = refl

pub is_state : (o : Option String) (k l : Key) → is o (text k) ≡ true → is o (text l) ≡ same k l
is_state none k l e = cc
is_state (some x) k l e =
    subst (λ y. str_eq y (text l) ≡ same k l) (sym ((eq_iff x (text k)).0 e)) (text_differs k l)

-- A hash with this state, in its set and in no other, is in its place.
pub arrive :
    (j : Job) (k : Key) (held : Key → Bool)
    → is j.state (text k) ≡ true
    → is_there j.token ≡ same k active
    → ((l : Key) → held l ≡ same k l)
    → IsPlacedAt (some j) held false
arrive j k held s t h = record {
  agrees = λ l. rw (h l, is_state j.state k l s) (or_false (same k l));
  fenced = t ∙ sym (is_state j.state k active s);
  known = λ _. (k, s);
  out = λ e. cc;
}

-- An id with no hash is in no set.
pub leave : (held : Key → Bool) → ((l : Key) → held l ≡ false) → IsPlacedAt none held false
leave held h = record { agrees = λ l. rw (h l); fenced = refl; known = λ e. cc; out = λ e. cc }

-- The set of an id that is in its place.
pub where_is :
    (o : Option Job) (held : Key → Bool) (k l : Key)
    → IsPlacedAt o held false
    → held k ≡ true
    → held l ≡ same k l
where_is o held k l p e =
    let s : is (fields o).state (text k) ≡ true = sym (p.agrees k) ∙ rw e in
    sym (or_false (held l)) ∙ p.agrees l ∙ is_state (fields o).state k l s

respects :
    {o o' : Option Job} {held held' : Key → Bool} {p p' : Bool}
    → o' ≡ o
    → ((k : Key) → held' k ≡ held k)
    → p' ≡ p
    → IsPlacedAt o held p
    → IsPlacedAt o' held' p'
respects e h w v = record {
  agrees = λ k. rw (e, h k, w) (v.agrees k);
  fenced = rw e v.fenced;
  known = λ t. let r = v.known (ap is_there (sym e) ∙ t) in (r.0, rw e r.1);
  out = λ t. h ready ∙ v.out (sym w ∙ t);
}

module _ {R : Zsets} where
  -- The commands of a script about one id leave the others in their places.
  pub placed_run :
      (pend pend' : String → Bool) (i : String) (cs : List Command) (q : Queue R)
      → IsPlacedBut pend q
      → ((j : String) → str_eq i j ≡ false → pend' j ≡ pend j)
      → IsPlacedAt (job_after cs (q.jobs i)) (λ k. held_after k cs (in_set q k i)) (pend' i)
      → IsPlacedBut pend' (run_all i cs q)
  placed_run pend pend' i cs q v w own = record {
    at = λ j. elim (Bool-cases (str_eq i j)) [
      | inl e ↦
          subst
            (λ x. IsPlacedAt ((run_all i cs q).jobs x) (λ k. in_set (run_all i cs q) k x) (pend' x))
            ((eq_iff i j).0 e) (respects (jobs-run_all i cs q) (in_set-run_all i cs q) refl own)
      | inr e ↦
          (let other = run_all-others i j cs q e in
            respects other.0 (λ k. ap is_there (other.1 k)) (w j e) (v.at j))
    ];
  }

  -- A job that goes from one set to another.
  pub moves :
      (k l : Key) (i : String) (cs : List Command) (j : Job) (q : Queue R)
      → IsPlaced q
      → in_set q k i ≡ true
      → job_after cs (q.jobs i) ≡ some j
      → is j.state (text l) ≡ true
      → is_there j.token ≡ same l active
      → ((m : Key) → held_after m cs (same k m) ≡ same l m)
      → IsPlaced (run_all i cs q)
  moves k l i cs j q v e o s t h =
      placed_run (λ _. false) (λ _. false) i cs q v (λ _ _. refl)
        (respects o
          (λ m. ap (held_after m cs) (where_is (q.jobs i) (λ k. in_set q k i) k m (v.at i) e) ∙ h m)
          refl (arrive j l (same l) s t (λ m. refl)))

  -- A job that is deleted, out of a set.
  pub goes :
      (k : Key) (i : String) (cs : List Command) (q : Queue R)
      → IsPlaced q
      → in_set q k i ≡ true
      → job_after cs (q.jobs i) ≡ none
      → ((m : Key) → held_after m cs (same k m) ≡ false)
      → IsPlaced (run_all i cs q)
  goes k i cs q v e o h =
      placed_run (λ _. false) (λ _. false) i cs q v (λ _ _. refl)
        (respects o
          (λ m. ap (held_after m cs) (where_is (q.jobs i) (λ k. in_set q k i) k m (v.at i) e) ∙ h m)
          refl (leave (λ _. false) (λ m. refl)))

  -- A job that stays in its set.
  pub stays :
      (i : String) (f : Job → Job) (q : Queue R)
      → IsPlaced q
      → is_there (q.jobs i) ≡ true
      → (f (hash q i)).state ≡ (hash q i).state
      → (f (hash q i)).token ≡ (hash q i).token
      → IsPlaced (run i (edit f) q)
  stays i f q v e s t =
      placed_run (λ _. false) (λ _. false) i (edit f ∷ []) q v (λ _ _. refl)
        (record {
          agrees = λ k. rw s ((v.at i).agrees k);
          fenced = rw (s, t) ((v.at i).fenced);
          known = λ _. rw s ((v.at i).known e);
          out = λ b. cc;
        })

-- A job in a set has a token when the set is `active`.
pub token_is_there :
    (o : Option Job) (held : Key → Bool) (k : Key)
    → IsPlacedAt o held false
    → held k ≡ true
    → is_there (fields o).token ≡ same k active
token_is_there o held k p e =
    let s : is (fields o).state (text k) ≡ true = sym (p.agrees k) ∙ rw e in
    p.fenced ∙ is_state (fields o).state k active s

module _ {R : Zsets} {pend : String → Bool} where
  -- What a script writes besides hashes and sets moves no job.
  pub published : (e : Event) (q : Queue R) → IsPlacedBut pend q → IsPlacedBut pend (publish e q)
  published e q v = record { at = v.at }

  pub numbered :
      (n : ℕ) (q : Queue R) → IsPlacedBut pend q → IsPlacedBut pend (record q { seq = n })
  numbered n q v = record { at = v.at }

  pub poked : (q : Queue R) → IsPlacedBut pend q → IsPlacedBut pend (poke q)
  poked q v = elim (Bool-cases q.paused) as (λ _. IsPlacedBut pend (poke q)) [
    | inl e ↦ simp e v
    | inr e ↦ simp e (record { at = v.at })
  ]

pub no_job : (o : Option Job) → is_there o ≡ false → o ≡ none
no_job none e = refl
no_job (some j) e = cc
