-- ===== src/Redis/Queue/Placed/Calls.antt =====
-- Every script leaves each job in its place, so any sequence of them does.
use nxgt_data.Prelude.{
  ℕ, ◌≡◌, sym, ap, ◌∙◌, Bool, true, false, ◌||◌, Option, String, List, [], ◌∷◌, ltb, Bool-cases,
  inl, inr,
}
use nxgt_data.Redis.Zsets.{Zsets}
use nxgt_data.Redis.RateLimit.Arithmetic.{Doubles}
use nxgt_data.Redis.Queue.{
  Job, Key, delayed, ready, same, Queue, fields, is_there, is, in_set, card,
}
use nxgt_data.Redis.Queue.Admin.{pause, resume}
use nxgt_data.Redis.Queue.Calls.{
  Call, adds, claims, completes, fails, releases, renews, reports, begins_step, commits_step,
  cancels, retries_job, removes, pauses, resumes, call, calls,
}
use nxgt_data.Redis.Queue.Placed.Begins.{claim-IsPlaced}
use nxgt_data.Redis.Queue.Placed.Workers.{
  complete-IsPlaced, fail-IsPlaced, release-IsPlaced, renew-IsPlaced, progress-IsPlaced,
  step_begin-IsPlaced, step_commit-IsPlaced,
}
use nxgt_data.Redis.Queue.Placed.Adds.{add-IsPlaced}
use nxgt_data.Redis.Queue.Placed.Admins.{cancel-IsPlaced, retry-IsPlaced, remove-IsPlaced}
use nxgt_data.Redis.Queue.Placed.{IsPlacedAt, IsPlaced, text, is_state, no_job, or_false}

one_set :
    (o : Option Job) (held : Key → Bool)
    → IsPlacedAt o held false
    → (is_there o ≡ true → (k : Key) × ((l : Key) → held l ≡ same k l))
      × (is_there o ≡ false → (l : Key) → held l ≡ false)
one_set o held p = (
  λ e.
      let k = p.known e in
      (k.0, λ l. sym (or_false (held l)) ∙ p.agrees l ∙ is_state (fields o).state k.0 l k.1),
  λ e l. sym (or_false (held l)) ∙ p.agrees l ∙ ap (λ o. is (fields o).state (text l)) (no_job o e),
)

module _ (lua : Doubles) (is_number : List ℕ → Bool) {R : Zsets} where
  resume-IsPlaced : (q : Queue R) → IsPlaced q → IsPlaced (resume q)
  unfolding resume
  resume-IsPlaced q v =
      elim (Bool-cases (ltb 0 (card q ready) || ltb 0 (card q delayed)))
        as (λ _. IsPlaced (resume q)) [
          | inl e ↦ simp e (record { at = v.at })
          | inr e ↦ simp e (record { at = v.at })
        ]

  call-IsPlaced : (c : Call) (q : Queue R) → IsPlaced q → IsPlaced (call lua is_number c q)
  unfolding call pause
  call-IsPlaced (adds now js keys) q v = add-IsPlaced is_number now js keys q v
  call-IsPlaced (claims n lease tokens now rate schedules) q v =
      claim-IsPlaced lua n lease tokens now rate schedules q v
  call-IsPlaced (completes now args id token result keep) q v =
      complete-IsPlaced lua now args id token result keep q v
  call-IsPlaced (fails now args id token error retry_in keep) q v =
      fail-IsPlaced lua now args id token error retry_in keep q v
  call-IsPlaced (releases jobs) q v = release-IsPlaced jobs q v
  call-IsPlaced (renews now lease jobs) q v = renew-IsPlaced now lease jobs q v
  call-IsPlaced (reports id token value) q v = progress-IsPlaced id token value q v
  call-IsPlaced (begins_step now lease id token name) q v =
      step_begin-IsPlaced now lease id token name q v
  call-IsPlaced (commits_step now id token name json) q v =
      step_commit-IsPlaced now id token name json q v
  call-IsPlaced (cancels id) q v = cancel-IsPlaced id q v
  call-IsPlaced (retries_job now id fresh) q v = retry-IsPlaced now id fresh q v
  call-IsPlaced (removes id) q v = remove-IsPlaced id q v
  call-IsPlaced pauses q v = record { at = v.at }
  call-IsPlaced resumes q v = resume-IsPlaced q v

  -- The jobs stay in their places, whatever scripts run.
  pub calls-IsPlaced :
      (cs : List Call) (q : Queue R) → IsPlaced q → IsPlaced (calls lua is_number cs q)
  calls-IsPlaced [] q v = v
  calls-IsPlaced (c ∷ cs) q v = calls-IsPlaced cs (call lua is_number c q) (call-IsPlaced c q v)

  -- After any calls of the scripts, from a queue whose jobs are each in the set that their state
  -- names and in no other, with a token exactly when they are active, each stored job is in exactly
  -- one of the five sets, and no set holds an id whose job is not stored.
  pub calls-one_set :
      (cs : List Call) (q : Queue R) (id : String)
      → IsPlaced q
      → let r = calls lua is_number cs q in
        (is_there (r.jobs id) ≡ true → (k : Key) × ((l : Key) → in_set r l id ≡ same k l))
        × (is_there (r.jobs id) ≡ false → (l : Key) → in_set r l id ≡ false)
  calls-one_set cs q id v =
      one_set _ (λ l. in_set (calls lua is_number cs q) l id) ((calls-IsPlaced cs q v).at id)
