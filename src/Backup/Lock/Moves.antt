-- ===== src/Backup/Lock/Moves.antt =====
-- What each move of a writer changes, while the clocks agree within one lease.
use nxgt_data.Prelude.{
  ℕ, ◌+◌, ◌≤◌, ◌<◌, ◌≡◌, ◌≢◌, refl, sym, ap, ◌∙◌, subst, ◌⊎◌, inl, inr, Bool, false, Option, none,
  some, String, str_eq, eq_iff, List, [], ◌∷◌, In, Bool-cases, clash, arith, ltb, ltb→lt,
}
use nxgt_data.Backup.Lock.{
  File, expires, illegible, still_held, renewed, Phase, looking, forgetting, ended, Effect, nothing,
  sets, update, apply, Move, System,
}
use nxgt_data.Backup.Lock.Alive.{
  deadline_of, is_fresh, todo, IsOut, Facts, Covered, update_same, update_other, not_same, Inv,
  Change,
}

renewed-held : (time d next : ℕ) → time < renewed time d next → time < d
unfolding renewed
renewed-held time d next lt = elim (Bool-cases (ltb time d)) [
  | inl h ↦ ltb→lt time d h
  | inr h ↦ (let lt' : time < d = rw (renewed, h) at lt in lt')
]

renewed-le : (time d next : ℕ) → d ≤ next → renewed time d next ≤ next
unfolding renewed
renewed-le time d next le = elim (Bool-cases (ltb time d)) [
  | inl h ↦ rw (renewed, h) (omega (arith, le))
  | inr h ↦ rw (renewed, h) le
]

renewed-out : (time d next : ℕ) → d ≤ time → renewed time d next ≡ d
unfolding renewed
renewed-out time d next le = let h : ltb time d ≡ false = ground arith in rw (renewed, h) refl

stale_lt : (lease now at : ℕ) → still_held lease now (some (expires at)) ≡ false → at + lease < now
unfolding still_held
stale_lt lease now at e = ground arith

module _ (lease : ℕ) (skew : String → ℕ) (agree : (v w : String) → skew v ≤ skew w + lease) where
  module _ (s : System) (own : String) (i : Inv lease skew s) where
    -- A writer whose file is not there, or is stale, has no lease left.
    no_file : (id : String) → s.files id ≡ none → s.time < deadline_of (s.writers id) → ⊥
    no_file id e lt =
        let l = i.live id lt in
        let bad : ◌≡◌ {A = Option File} none (some (expires l.0)) = sym e ∙ l.1 in cc

    stale_file :
        (id : String) (now : ℕ) (file : File)
        → now ≤ s.time + skew own
        → s.files id ≡ some file
        → still_held lease now (some file) ≡ false
        → IsOut s.time (s.writers id)
    unfolding still_held
    stale_file id now illegible le e h = absurd (clash refl h)
    stale_file id now (expires at) le e h = (
      not_fresh,
      elim (Bool-cases (ltb s.time (deadline_of (s.writers id)))) [
        | inr over ↦ ground arith
        | inl early ↦
            (let lt : s.time < deadline_of (s.writers id) = ground arith in
              let l = i.live id lt in
              let same : at ≡ l.0 =
                ap (λ o. elim o [ none ↦ 0 | some f ↦ elim f [ expires x ↦ x | illegible ↦ 0 ] ])
                  (sym e ∙ l.1) in
              let gap = stale_lt lease now at h in
              let near = agree own id in absurd (omega (arith, lt, same, l.2, gap, near, le)))
      ],
    )
      where
        not_fresh : is_fresh (s.writers id) ≡ false
        not_fresh = elim (Bool-cases (is_fresh (s.writers id))) [
          | inr f ↦ f
          | inl f ↦
              (let bad : ◌≡◌ {A = Option File} none (some (expires at)) =
                  sym (i.unwritten id f) ∙ e in
                cc)
        ]

    own_only :
        (file : Option File) (w : String)
        → w ≢ own
        → (update own file s.files w ≡ s.files w) ⊎ (IsOut s.time (s.writers w))
    own_only file w n = inl (update_other own w file s.files (not_same n))

    module _ (q : Phase) (at_q : s.writers own ≡ q) where
      Facts-own : Facts lease s.time (skew own) q
      Facts-own = subst (Facts lease s.time (skew own)) at_q (i.facts own)

      live_of : s.time < deadline_of q → Covered s.files own (deadline_of q) (skew own)
      live_of =
          subst (λ x. s.time < deadline_of x → Covered s.files own (deadline_of x) (skew own)) at_q
            (i.live own)

      pair_of :
          (v : String) (kw kv : List String)
          → own ≢ v
          → todo q ≡ some kw
          → todo (s.writers v) ≡ some kv
          → s.time < deadline_of q
          → s.time < deadline_of (s.writers v)
          → In own kv ⊎ In v kw
      pair_of v kw kv n a b x y =
          i.pair own v kw kv n (ap todo at_q ∙ a) b
            (subst (λ z. s.time < deadline_of z) (sym at_q) x) y

      IsOut-own : IsOut s.time (s.writers own) → IsOut s.time q
      IsOut-own = subst (IsOut s.time) at_q

      -- A move that leaves the files and the deadline, and drops a key that is not of a live writer.
      looks :
          (now d : ℕ) (id : String) (keys : List String) (p : Phase)
          → q ≡ looking now d (id ∷ keys)
          → deadline_of p ≡ d
          → is_fresh p ≡ false
          → todo p ≡ some keys
          → Facts lease s.time (skew own) p
          → ((now' d' : ℕ) (id' : String) (keys' : List String)
              → p ≡ forgetting now' d' id' keys'
              → (id' ≢ own) × IsOut s.time (s.writers id'))
          → ((v : String) → own ≢ v → v ≡ id → s.time < deadline_of (s.writers v) → ⊥)
          → Change lease skew s own p nothing
      unfolding apply
      looks now d id keys p e same old list facts out dead = record {
        live = λ lt.
            subst (λ x. Covered s.files own x (skew own)) (ap deadline_of e ∙ sym same)
              (live_of (subst (λ x. s.time < x) (same ∙ sym (ap deadline_of e)) lt));
        unwritten = λ f. absurd (clash f old);
        facts = facts;
        out = out;
        pair = λ v kw kv n a b x y.
            (let r =
                pair_of v (id ∷ keys) kv n (ap todo e) b
                  (subst (λ z. s.time < z) (same ∙ sym (ap deadline_of e)) x) y in
              elim r [
                | inl j ↦ inl j
                | inr (inl v_id) ↦ absurd (dead v n v_id y)
                | inr (inr j) ↦
                    inr
                      (subst (In v) (ap (λ o. elim o [ none ↦ [] | some l ↦ l ]) (sym list ∙ a)) j)
              ]);
        files = λ w n. inl refl;
        stays_out = λ o.
            (let o' = IsOut-own o in
              (old, subst (λ x. x ≤ s.time) (ap deadline_of e ∙ sym same) o'.1));
      }

    -- A writer that ended has nothing to keep.
    ends :
        (e : Effect)
        → ((w : String) → w ≢ own → (apply e s.files w ≡ s.files w) ⊎ (IsOut s.time (s.writers w)))
        → Change lease skew s own ended e
    ends e files = record {
      live = λ lt. absurd (omega (arith, lt));
      unwritten = λ f. cc;
      facts = tt;
      out = λ now d id keys f. cc;
      pair = λ v kw kv n a b x y. cc;
      files = files;
      stays_out = λ o. (refl, omega arith);
    }

    untouched : (w : String) → w ≢ own → (s.files w ≡ s.files w) ⊎ (IsOut s.time (s.writers w))
    untouched w n = inl refl

    pub Move-Change :
        (q p : Phase) (e : Effect)
        → s.writers own ≡ q
        → Move lease (skew own) s.time s.files own q p e
        → Change lease skew s own p e
    unfolding apply renewed
    Move-Change q p e at_q Move.starts = record {
      live = λ lt. absurd (omega (arith, lt));
      unwritten = λ f. i.unwritten own (ap is_fresh at_q);
      facts = (omega arith, omega arith);
      out = λ now d id keys f. cc;
      pair = λ v kw kv n a b x y. cc;
      files = λ w n. inl refl;
      stays_out = λ o. absurd (clash (ap is_fresh at_q) o.0);
    }
    Move-Change q p e at_q (Move.lands at d) = record {
      live = λ lt. (at, update_same own (some (expires at)) s.files, (Facts-own q at_q).0);
      unwritten = λ f. cc;
      facts = (Facts-own q at_q).1;
      out = λ now d id keys f. cc;
      pair = λ v kw kv n a b x y. cc;
      files = own_only (some (expires at));
      stays_out = λ o. absurd (clash (ap is_fresh at_q) o.0);
    }
    Move-Change q p e at_q (Move.put_fails at d) = ends (sets own none) (own_only none)
    Move-Change q p e at_q (Move.put_fails_late at d) =
        ends (sets own (some (expires at))) (own_only (some (expires at)))
    Move-Change q p e at_q (Move.lists d keys listed) = record {
      live = live_of q at_q;
      unwritten = λ f. cc;
      facts = (Facts-own q at_q, omega arith);
      out = λ now d id keys f. cc;
      pair = λ v kw kv n a b x y. inr (
          subst (In v) (ap (λ o. elim o [ none ↦ [] | some l ↦ l ]) a)
            (listed v (λ f. n (sym f)) (λ f. no_file v f y)));
      files = λ w n. inl refl;
      stays_out = λ o. (refl, (IsOut-own q at_q o).1);
    }
    Move-Change q p e at_q (Move.skips_own now d keys) =
        looks q at_q now d own keys (looking now d keys) refl refl refl refl (Facts-own q at_q)
          (λ now' d' id' keys' f. cc) (λ v n f y. n (sym f))
    Move-Change q p e at_q (Move.finds_none now d id keys n e') =
        looks q at_q now d id keys (looking now d keys) refl refl refl refl (Facts-own q at_q)
          (λ now' d' id' keys' f. cc) (λ v m f y. no_file v (ap s.files f ∙ e') y)
    Move-Change q p e at_q (Move.gives_up now d id keys n h) = ends (sets own none) (own_only none)
    Move-Change q p e at_q (Move.gives_up_late now d keys) = ends nothing untouched
    Move-Change q p e at_q (Move.look_fails now d keys) = ends (sets own none) (own_only none)
    Move-Change q p e at_q (Move.finds_stale now d id keys file n e' h) =
        let gone : IsOut s.time (s.writers id) = stale_file id now file (Facts-own q at_q).1 e' h in
        looks q at_q now d id keys (forgetting now d id keys) refl refl refl refl (Facts-own q at_q)
          (λ now' d' id' keys' f.
            let same : id ≡ id' = ap (λ x. elim x [ forgetting _ _ y _ ↦ y | _ ↦ id ]) f in
            (subst (λ x. x ≢ own) same n, subst (λ x. IsOut s.time (s.writers x)) same gone))
          (λ v m f y. past gone (subst (λ x. s.time < deadline_of (s.writers x)) f y))
      where
        past : {a b : ℕ} {c d' : Bool} → (c ≡ d') × (b ≤ a) → a < b → ⊥
        past o lt = omega (arith, o.1, lt)
    Move-Change q p e at_q (Move.forgets now d id keys) =
        let gone = i.out own now d id keys at_q in
        record {
          live = λ lt.
              (let l = live_of q at_q lt in
                (
                  l.0,
                  update_other id own none s.files (not_same (λ f. gone.0 (sym f))) ∙ l.1,
                  l.2,
                ));
          unwritten = λ f. cc;
          facts = Facts-own q at_q;
          out = λ now d id keys f. cc;
          pair = pair_of q at_q;
          files = λ w n. elim (Bool-cases (str_eq w id)) [
            | inl same ↦
                inr (subst (λ x. IsOut s.time (s.writers x)) (sym ((eq_iff w id).0 same)) gone.1)
            | inr other ↦ inl (update_other id w none s.files other)
          ];
          stays_out = λ o. (refl, (IsOut-own q at_q o).1);
        }
    Move-Change q p e at_q (Move.forgets_not now d id keys) = record {
      live = live_of q at_q;
      unwritten = λ f. cc;
      facts = Facts-own q at_q;
      out = λ now d id keys f. cc;
      pair = pair_of q at_q;
      files = λ w n. inl refl;
      stays_out = λ o. (refl, (IsOut-own q at_q o).1);
    }
    Move-Change q p e at_q (Move.acquires now d) = record {
      live = live_of q at_q;
      unwritten = λ f. cc;
      facts = (Facts-own q at_q).0;
      out = λ now d id keys f. cc;
      pair = pair_of q at_q;
      files = λ w n. inl refl;
      stays_out = λ o. (refl, (IsOut-own q at_q o).1);
    }
    Move-Change q p e at_q (Move.renews d h) =
        let f = Facts-own q at_q in
        record {
          live = live_of q at_q;
          unwritten = λ f. cc;
          facts = (f, omega arith, omega arith);
          out = λ now d id keys f. cc;
          pair = pair_of q at_q;
          files = λ w n. inl refl;
          stays_out = λ o. (refl, (IsOut-own q at_q o).1);
        }
    Move-Change q p e at_q (Move.renewal_lands d r) =
        let f = Facts-own q at_q in
        let bound = renewed-le s.time d r.next f.0 in
        record {
          live = λ lt.
              (r.at, update_same own (some (expires r.at)) s.files, omega (arith, f.1, bound));
          unwritten = λ f. cc;
          facts = omega (arith, f.2, bound);
          out = λ now d id keys f. cc;
          pair =
              λ v kw kv n a b x y. pair_of q at_q v kw kv n a b (renewed-held s.time d r.next x) y;
          files = own_only (some (expires r.at));
          stays_out = λ o. (
            refl,
            subst (λ x. x ≤ s.time) (sym (renewed-out s.time d r.next (IsOut-own q at_q o).1))
                (IsOut-own q at_q o).1,
          );
        }
    Move-Change q p e at_q (Move.renewal_fails d r) =
        let f = Facts-own q at_q in
        record {
          live = live_of q at_q;
          unwritten = λ f. cc;
          facts = omega (arith, f.0, f.2);
          out = λ now d id keys f. cc;
          pair = pair_of q at_q;
          files = λ w n. inl refl;
          stays_out = λ o. (refl, (IsOut-own q at_q o).1);
        }
    Move-Change q p e at_q (Move.renewal_fails_late d r) =
        let f = Facts-own q at_q in
        record {
          live =
              λ lt. (r.at, update_same own (some (expires r.at)) s.files, omega (arith, f.0, f.1));
          unwritten = λ f. cc;
          facts = omega (arith, f.0, f.2);
          out = λ now d id keys f. cc;
          pair = pair_of q at_q;
          files = own_only (some (expires r.at));
          stays_out = λ o. (refl, (IsOut-own q at_q o).1);
        }
    Move-Change q p e at_q (Move.releases_late d) = ends nothing untouched
    Move-Change q p e at_q (Move.releases d) = ends (sets own none) (own_only none)
