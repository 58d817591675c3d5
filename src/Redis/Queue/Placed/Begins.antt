-- ===== src/Redis/Queue/Placed/Begins.antt =====
-- What a claim pops and begins is active afterwards, and each other job is in its place.
use nxgt_data.Prelude.{
  ℕ, ◌+◌, ◌≡◌, refl, sym, ap, ◌∙◌, subst, Bool, true, false, ◌&&◌, ◌||◌, not, Option, none, some,
  String, List, [], ◌∷◌, str_eq, str_eq_refl, eq_iff, ltb, Bool-cases, inl, inr, In, take, take-In,
  drop, any-In,
}
use nxgt_data.Redis.Zsets.{Zsets, IsDistinct}
use nxgt_data.Redis.RateLimit.Arithmetic.{Doubles}
use nxgt_data.Redis.Queue.Edits.{as_active}
use nxgt_data.Redis.Queue.{
  Job, Key, delayed, ready, active, completed, failed, same, Queue, fields, is, is_there, Command,
  edit, zadd, zrem, hash, in_set, run, sound, card,
}
use nxgt_data.Redis.Queue.Claim.{
  Limit, Schedules, take_out, start, begin_all, charge, claim, admitted, begin_ready, pass_on,
  retry_after, token_of,
}
use nxgt_data.Redis.Queue.Placed.Claims.{
  refuse-IsPlacedBut, reclaim-IsPlaced, promote-IsPlaced, take-IsDistinct, differs,
}
use nxgt_data.Redis.Queue.Commands.{run_all-others, held_after}
use nxgt_data.Redis.Queue.Placed.{
  IsPlacedAt, IsPlacedBut, IsPlaced, member, text, arrive, is_state, placed_run, by_key, respects,
  or_false,
}

popped :
    (o : Option Job) (held : Key → Bool)
    → IsPlacedAt o held false
    → held ready ≡ true
    → IsPlacedAt o (λ l. not (same ready l) && held l) true
popped o held p e = record {
  agrees =
      by_key
        (λ l.
          ((not (same ready l) && held l) || (true && same ready l)) ≡ is (fields o).state (text l))
        (p.agrees delayed) (sym (rw e) ∙ p.agrees ready) (p.agrees active) (p.agrees completed)
        (p.agrees failed);
  fenced = p.fenced;
  known = p.known;
  out = λ _. refl;
}

or_true : (b : Bool) → (b || true) ≡ true
or_true true = refl
or_true false = refl

-- A pending id is in no set.
pending_nowhere :
    (o : Option Job) (held : Key → Bool) → IsPlacedAt o held true → (l : Key) → held l ≡ false
pending_nowhere o held p =
    by_key (λ l. held l ≡ false) (else_where delayed refl) (p.out refl) (else_where active refl)
      (else_where completed refl) (else_where failed refl)
  where
    waits : is (fields o).state (text ready) ≡ true
    waits = sym (p.agrees ready) ∙ or_true (held ready)

    else_where : (l : Key) → same ready l ≡ false → held l ≡ false
    else_where l ne =
        let a : (held l || false) ≡ is (fields o).state (text l) =
          ap (λ b. held l || b) (sym ne) ∙ p.agrees l in
        sym (or_false (held l)) ∙ a ∙ is_state (fields o).state ready l waits ∙ ne

or_swap : (a b c : Bool) → ((a || b) || c) ≡ (b || (a || c))
or_swap true b c = sym (or_true b)
or_swap false b c = refl

-- An id that is not of the rest.
not_member : (i : String) (ids : List String) → (In i ids → ⊥) → member i ids ≡ false
not_member i ids fresh = elim (Bool-cases (member i ids)) [
  | inl e ↦
      (let m = any-In (λ x. str_eq x i) ids e in
        absurd (fresh (subst (λ x. In x ids) ((eq_iff m.0 i).0 m.2) m.1)))
  | inr e ↦ e
]

module _ {R : Zsets} where
  pub repend :
      (pend pend' : String → Bool) (q : Queue R)
      → ((j : String) → pend' j ≡ pend j)
      → IsPlacedBut pend q
      → IsPlacedBut pend' q
  repend pend pend' q w v = record { at = λ j. respects refl (λ _. refl) (w j) (v.at j) }

  take_out-IsPlacedBut :
      (pend : String → Bool) (ids : List String) (q : Queue R)
      → IsDistinct ids
      → ((j : String) → In j ids → in_set q ready j ≡ true)
      → ((j : String) → In j ids → pend j ≡ false)
      → IsPlacedBut pend q
      → IsPlacedBut (λ j. member j ids || pend j) (take_out ids q)
  unfolding take_out
  take_out-IsPlacedBut pend [] q d h w v = v
  take_out-IsPlacedBut pend (i ∷ ids) q d h w v =
      repend _ _ _ (λ j. or_swap (str_eq i j) (member j ids) (pend j))
        (take_out-IsPlacedBut with_i ids (run i (zrem ready) q) d.1
          (λ j m.
            ap is_there ((run_all-others i j (zrem ready ∷ []) q (differs i j ids d.0 m)).1 ready)
            ∙ h j (inr m))
          (λ j m. rw (differs i j ids d.0 m) (w j (inr m)))
          (placed_run pend with_i i (zrem ready ∷ []) q v (λ j ne. rw ne)
            (respects refl (λ _. refl) (rw (str_eq_refl i))
              (popped (q.jobs i) (λ l. in_set q l i)
                (respects refl (λ _. refl) (sym (w i (inl refl))) (v.at i)) (h i (inl refl))))))
    where
      with_i : String → Bool
      with_i j = str_eq i j || pend j

  start-IsPlacedBut :
      (now lease : ℕ) (token i : String) (ids : List String) (q : Queue R)
      → (In i ids → ⊥)
      → ((l : Key) → in_set q l i ≡ false)
      → IsPlacedBut (λ j. member j (i ∷ ids)) q
      → IsPlacedBut (λ j. member j ids) (start now lease token i q)
  unfolding start
  start-IsPlacedBut now lease token i ids q fresh nowhere v =
      placed_run (λ j. member j (i ∷ ids)) (λ j. member j ids) i cs q v (λ j ne. rw ne)
        (respects refl (λ l. ap (held_after l cs) (nowhere l) ∙ or_false (same active l))
          (not_member i ids fresh)
          (arrive (begun (hash q i)) active (same active) refl refl (λ _. refl)))
    where
      begun : Job → Job
      begun = as_active token

      cs : List Command
      cs = edit begun ∷ zadd active (now + lease) ∷ []

  begin_all-IsPlaced :
      (now lease : ℕ) (tokens ids : List String) (q : Queue R)
      → IsDistinct ids
      → IsPlacedBut (λ j. member j ids) q
      → IsPlaced (begin_all now lease tokens ids q).0
  unfolding begin_all
  begin_all-IsPlaced now lease tokens [] q d v = v
  begin_all-IsPlaced now lease tokens (i ∷ ids) q d v =
      elim (Bool-cases (sound (hash q i)))
        as (λ _. IsPlaced (begin_all now lease tokens (i ∷ ids) q).0) [
          | inl e ↦ rw e (begin_all-IsPlaced now lease (drop 1 tokens) ids _ d.1 started)
          | inr e ↦ rw e (
              begin_all-IsPlaced now lease tokens ids _ d.1 (
                refuse-IsPlacedBut (λ j. member j (i ∷ ids)) (λ j. member j ids) now i q v
                  (λ j ne. rw ne) (not_member i ids d.0) (nowhere completed) (nowhere failed)))
        ]
    where
      head : IsPlacedAt (q.jobs i) (λ l. in_set q l i) true
      head = respects refl (λ _. refl) (rw (str_eq_refl i)) (v.at i)

      nowhere : (l : Key) → in_set q l i ≡ false
      nowhere = pending_nowhere (q.jobs i) (λ l. in_set q l i) head

      started : IsPlacedBut (λ j. member j ids) (start now lease (token_of tokens) i q)
      started = start-IsPlacedBut now lease (token_of tokens) i ids q d.0 nowhere v

  begin_ready-IsPlaced :
      (lua : Doubles) (n lease : ℕ) (tokens : List String) (now : ℕ) (rate : Option Limit)
      (q : Queue R)
      → IsPlaced q
      → IsPlaced (begin_ready lua n lease tokens now rate q).0
  unfolding begin_ready
  begin_ready-IsPlaced lua n lease tokens now rate q v =
      begin_all-IsPlaced now lease tokens ids (take_out ids q) distinct (
        repend (λ j. member j ids || false) (λ j. member j ids) _
          (λ j. sym (or_false (member j ids)))
          (take_out-IsPlacedBut (λ _. false) ids q distinct there (λ _ _. refl) v))
    where
      ids : List String
      ids = take (admitted lua n rate q) (R.members (q.sets ready))

      distinct : IsDistinct ids
      distinct = take-IsDistinct (admitted lua n rate q) _ (R.members-IsDistinct (q.sets ready))

      there : (j : String) → In j ids → in_set q ready j ≡ true
      there j m =
          ap is_there (R.members-score (q.sets ready) j (take-In j (admitted lua n rate q) _ m)).1

  charge-IsPlaced :
      (lua : Doubles) (rate : Option Limit) (k : ℕ) (q : Queue R)
      → IsPlaced q
      → IsPlaced (charge lua rate k q)
  unfolding charge
  charge-IsPlaced lua none k q v = v
  charge-IsPlaced lua (some l) k q v =
      elim (Bool-cases (ltb 0 k)) as (λ _. IsPlaced (charge lua (some l) k q)) [
        | inl e ↦ simp e (record { at = v.at })
        | inr e ↦ simp e v
      ]

  pass_on-IsPlaced :
      (lua : Doubles) (rate : Option Limit) (q : Queue R)
      → IsPlaced q
      → IsPlaced (pass_on lua rate q)
  unfolding pass_on
  pass_on-IsPlaced lua rate q v =
      elim (Bool-cases
          (not q.paused && ltb 0 (card q ready) && not (is_there (retry_after lua rate q))))
        as (λ _. IsPlaced (pass_on lua rate q)) [
          | inl e ↦ simp e (record { at = v.at })
          | inr e ↦ simp e (record { at = v.at })
        ]

  pub claim-IsPlaced :
      (lua : Doubles) (n lease : ℕ) (tokens : List String) (now : ℕ) (rate : Option Limit)
      (schedules : Schedules) (q : Queue R)
      → IsPlaced q
      → IsPlaced (claim lua n lease tokens now rate schedules q).queue
  unfolding claim
  claim-IsPlaced lua n lease tokens now rate schedules q v = pass_on-IsPlaced lua rate _ (
      charge-IsPlaced lua rate _ _ (
        begin_ready-IsPlaced lua n lease tokens now rate _
          (promote-IsPlaced now _ (reclaim-IsPlaced now q v))))
