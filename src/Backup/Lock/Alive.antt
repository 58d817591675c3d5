-- ===== src/Backup/Lock/Alive.antt =====
-- What holds in every state of the writers, and what a move must show to keep it.
use nxgt_data.Prelude.{
  ℕ, ◌+◌, ◌≤◌, ◌<◌, ◌≡◌, ◌≢◌, refl, sym, ◌∙◌, subst, ◌⊎◌, inl, inr, Bool, true, false, Option, none,
  some, String, str_eq, eq_iff, List, [], In, Bool-cases, clash, arith,
}
use nxgt_data.Backup.Lock.{
  expires, Phase, idle, writing, landed, looking, forgetting, holding, ended, Files, Effect, update,
  apply, System, moved, initial,
}

-- When a writer's lease runs out; 0 where it has none.
abbrev pub deadline_of : Phase → ℕ
deadline_of idle = 0
deadline_of (writing at d) = 0
deadline_of (landed d) = d
deadline_of (looking now d keys) = d
deadline_of (forgetting now d id keys) = d
deadline_of (holding d r) = d
deadline_of ended = 0

-- Whether a writer's put is still to land.
abbrev pub is_fresh : Phase → Bool
is_fresh idle = true
is_fresh (writing at d) = true
is_fresh _ = false

-- The keys that a writer that has listed is still to look at.
abbrev pub todo : Phase → Option (List String)
todo (looking now d keys) = some keys
todo (forgetting now d id keys) = some keys
todo (holding d r) = some []
todo _ = none

-- A writer that can never hold the lease again.
abbrev pub IsOut : ℕ → Phase → Type 0
IsOut time p = (is_fresh p ≡ false) × (deadline_of p ≤ time)

-- What a writer's own clock readings satisfy.
abbrev pub Facts : ℕ → ℕ → ℕ → Phase → Type 0
Facts lease time skew idle = Unit
Facts lease time skew (writing at d) = (d + skew ≤ at) × (d ≤ time + lease)
Facts lease time skew (landed d) = d ≤ time + lease
Facts lease time skew (looking now d keys) = (d ≤ time + lease) × (now ≤ time + skew)
Facts lease time skew (forgetting now d id keys) = (d ≤ time + lease) × (now ≤ time + skew)
Facts lease time skew (holding d none) = d ≤ time + lease
Facts lease time skew (holding d (some r)) =
    (d ≤ r.next) × (r.next + skew ≤ r.at) × (r.next ≤ time + lease)
Facts lease time skew ended = Unit

-- The lock file of a writer that lasts as long as its lease.
abbrev pub Covered : Files → String → ℕ → ℕ → Type 0
Covered files id deadline skew = (at : ℕ) × (files id ≡ some (expires at)) × (deadline + skew ≤ at)

pub update_same : {A : Type 0} (id : String) (x : A) (f : String → A) → update id x f id ≡ x
update_same id x f = let e : str_eq id id ≡ true = (eq_iff id id).1 refl in rw e

pub update_other :
    {A : Type 0} (id y : String) (x : A) (f : String → A)
    → str_eq y id ≡ false
    → update id x f y ≡ f y
update_other id y x f e = rw e

pub differs : {x y : String} → str_eq x y ≡ false → x ≢ y
differs {x = x} {y = y} e p = clash ((eq_iff x y).1 p) e

pub not_same : {x y : String} → x ≢ y → str_eq x y ≡ false
not_same {x = x} {y = y} n = elim (Bool-cases (str_eq x y)) [
  | inl same ↦ absurd (n ((eq_iff x y).0 same))
  | inr other ↦ other
]

module _ (lease : ℕ) (skew : String → ℕ) where
  pub record Inv (s : System) : Type 0 where
    pub live :
        (w : String)
        → s.time < deadline_of (s.writers w)
        → Covered s.files w (deadline_of (s.writers w)) (skew w)
    pub unwritten : (w : String) → is_fresh (s.writers w) ≡ true → s.files w ≡ none
    pub facts : (w : String) → Facts lease s.time (skew w) (s.writers w)
    pub out :
        (w : String) (now d : ℕ) (id : String) (keys : List String)
        → s.writers w ≡ forgetting now d id keys
        → (id ≢ w) × IsOut s.time (s.writers id)
    pub pair :
        (w v : String) (kw kv : List String)
        → w ≢ v
        → todo (s.writers w) ≡ some kw
        → todo (s.writers v) ≡ some kv
        → s.time < deadline_of (s.writers w)
        → s.time < deadline_of (s.writers v)
        → In w kv ⊎ In v kw

  -- What a move of `own` to `p` must show.
  pub record Change (s : System) (own : String) (p : Phase) (e : Effect) : Type 0 where
    pub live : s.time < deadline_of p → Covered (apply e s.files) own (deadline_of p) (skew own)
    pub unwritten : is_fresh p ≡ true → apply e s.files own ≡ none
    pub facts : Facts lease s.time (skew own) p
    pub out :
        (now d : ℕ) (id : String) (keys : List String)
        → p ≡ forgetting now d id keys
        → (id ≢ own) × IsOut s.time (s.writers id)
    pub pair :
        (v : String) (kw kv : List String)
        → own ≢ v
        → todo p ≡ some kw
        → todo (s.writers v) ≡ some kv
        → s.time < deadline_of p
        → s.time < deadline_of (s.writers v)
        → In own kv ⊎ In v kw
    pub files :
        (w : String) → w ≢ own → (apply e s.files w ≡ s.files w) ⊎ (IsOut s.time (s.writers w))
    pub stays_out : IsOut s.time (s.writers own) → IsOut s.time p

  module _ (s : System) (own : String) (p : Phase) (e : Effect) (i : Inv s)
      (c : Change s own p e) where
    -- What is shown of `own` after the move and of the others before it holds of all after it.
    each :
        (P : String → Phase → Type 0)
        → P own p
        → ((w : String) → w ≢ own → P w (s.writers w))
        → (w : String) → P w ((moved s own p e).writers w)
    each P at_own others w = elim (Bool-cases (str_eq w own)) [
      | inl same ↦
          subst (λ x. P x (update own p s.writers x)) (sym ((eq_iff w own).0 same))
            (subst (P own) (sym (update_same own p s.writers)) at_own)
      | inr other ↦
          subst (P w) (sym (update_other own w p s.writers other)) (others w (differs other))
    ]

    late : {a b : ℕ} → b ≤ a → a < b → ⊥
    late le lt = omega (arith, le, lt)

    moved-live :
        (w : String)
        → s.time < deadline_of ((moved s own p e).writers w)
        → Covered (apply e s.files) w (deadline_of ((moved s own p e).writers w)) (skew w)
    moved-live =
        each (λ w q. s.time < deadline_of q → Covered (apply e s.files) w (deadline_of q) (skew w))
          c.live
          (λ w other lt. elim (c.files w other) [
            | inr gone ↦ absurd (late gone.1 lt)
            | inl kept ↦ (let l = i.live w lt in (l.0, kept ∙ l.1, l.2))
          ])

    moved-unwritten :
        (w : String) → is_fresh ((moved s own p e).writers w) ≡ true → apply e s.files w ≡ none
    moved-unwritten =
        each (λ w q. is_fresh q ≡ true → apply e s.files w ≡ none) c.unwritten
          (λ w other f. elim (c.files w other) [
            | inr gone ↦ absurd (clash f gone.0)
            | inl kept ↦ kept ∙ i.unwritten w f
          ])

    still-IsOut :
        (id : String) → IsOut s.time (s.writers id) → IsOut s.time ((moved s own p e).writers id)
    still-IsOut =
        each (λ w q. IsOut s.time (s.writers w) → IsOut s.time q) c.stays_out (λ w other o. o)

    moved-IsOut :
        (w : String) (now d : ℕ) (id : String) (keys : List String)
        → (moved s own p e).writers w ≡ forgetting now d id keys
        → (id ≢ w) × IsOut s.time ((moved s own p e).writers id)
    moved-IsOut =
        each
          (λ w q.
            (now d : ℕ) (id : String) (keys : List String)
            → q ≡ forgetting now d id keys
            → (id ≢ w) × IsOut s.time ((moved s own p e).writers id))
          (λ now d id keys f. let r = c.out now d id keys f in (r.0, still-IsOut id r.1))
          (λ w other now d id keys f. let r = i.out w now d id keys f in (r.0, still-IsOut id r.1))

    moved-pair :
        (w v : String) (kw kv : List String)
        → w ≢ v
        → todo ((moved s own p e).writers w) ≡ some kw
        → todo ((moved s own p e).writers v) ≡ some kv
        → s.time < deadline_of ((moved s own p e).writers w)
        → s.time < deadline_of ((moved s own p e).writers v)
        → In w kv ⊎ In v kw
    moved-pair w v kw kv =
        each
          (λ w q.
            w ≢ v
            → todo q ≡ some kw
            → todo ((moved s own p e).writers v) ≡ some kv
            → s.time < deadline_of q
            → s.time < deadline_of ((moved s own p e).writers v)
            → In w kv ⊎ In v kw)
          (each
            (λ v q.
              own ≢ v
              → todo p ≡ some kw
              → todo q ≡ some kv
              → s.time < deadline_of p
              → s.time < deadline_of q
              → In own kv ⊎ In v kw)
            (λ n a b x y. absurd (n refl)) (λ v other n a b x y. c.pair v kw kv n a b x y) v)
          (λ w other.
            each
              (λ v q.
                w ≢ v
                → todo (s.writers w) ≡ some kw
                → todo q ≡ some kv
                → s.time < deadline_of (s.writers w)
                → s.time < deadline_of q
                → In w kv ⊎ In v kw)
              (λ n a b x y. elim (c.pair w kv kw (λ f. other (sym f)) b a y x) [
                | inl j ↦ inr j
                | inr j ↦ inl j
              ])
              (λ v other' n a b x y. i.pair w v kw kv n a b x y) v)
          w

    pub moved-Inv : Inv (moved s own p e)
    moved-Inv = record {
      live = moved-live;
      unwritten = moved-unwritten;
      facts = each (λ w q. Facts lease s.time (skew w) q) c.facts (λ w other. i.facts w);
      out = moved-IsOut;
      pair = moved-pair;
    }

  Facts-later :
      (time later k : ℕ) (p : Phase) → time ≤ later → Facts lease time k p → Facts lease later k p
  Facts-later time later k idle le f = tt
  Facts-later time later k (writing at d) le f = (f.0, omega (arith, f.1, le))
  Facts-later time later k (landed d) le f = omega (arith, f, le)
  Facts-later time later k (looking now d keys) le f =
      (omega (arith, f.0, le), omega (arith, f.1, le))
  Facts-later time later k (forgetting now d id keys) le f =
      (omega (arith, f.0, le), omega (arith, f.1, le))
  Facts-later time later k (holding d none) le f = omega (arith, f, le)
  Facts-later time later k (holding d (some r)) le f = (f.0, f.1, omega (arith, f.2, le))
  Facts-later time later k ended le f = tt

  pub waits-Inv :
      (s : System) (later : ℕ)
      → s.time ≤ later
      → Inv s
      → Inv (record { time = later; files = s.files; writers = s.writers })
  waits-Inv s later le i = record {
    live = λ w lt. i.live w (omega (arith, lt, le));
    unwritten = i.unwritten;
    facts = λ w. Facts-later s.time later (skew w) (s.writers w) le (i.facts w);
    out = λ w now d id keys f.
        (let r = i.out w now d id keys f in (r.0, (r.1.0, omega (arith, r.1.1, le))));
    pair =
        λ w v kw kv n a b x y. i.pair w v kw kv n a b (omega (arith, x, le)) (omega (arith, y, le));
  }

  pub initial-Inv : (time : ℕ) → Inv (initial time)
  initial-Inv time = record {
    live = λ w lt. absurd (omega (arith, lt));
    unwritten = λ w f. refl;
    facts = λ w. tt;
    out = λ w now d id keys f. cc;
    pair = λ w v kw kv n a b x y. cc;
  }
