-- ===== src/Backup/Lock/Exclusive.antt =====
-- Two writers never both have the lease, while their clocks agree within one lease.
use nxgt_data.Prelude.{
  ℕ, ◌+◌, ◌≤◌, ◌<◌, ◌≡◌, ◌≢◌, refl, sym, ap, subst, inl, inr, true, false, Option, String, [],
  Bool-cases, ltb→lt,
}
use nxgt_data.Backup.Lock.{Renewal, held, holding, System, Reaches}
use nxgt_data.Backup.Lock.Alive.{deadline_of, todo, Inv, moved-Inv, waits-Inv, initial-Inv}
use nxgt_data.Backup.Lock.Moves.{Move-Change}

module _ (lease : ℕ) (skew : String → ℕ) (agree : (v w : String) → skew v ≤ skew w + lease) where
  Reaches-Inv : (s : System) → Reaches lease skew s → Inv lease skew s
  Reaches-Inv s (Reaches.begins time) = initial-Inv lease skew time
  Reaches-Inv s (Reaches.waits t later r le) = waits-Inv lease skew t later le (Reaches-Inv t r)
  Reaches-Inv s (Reaches.moves t own p e r m) =
      let i = Reaches-Inv t r in
      moved-Inv lease skew t own p e i
        (Move-Change lease skew agree t own i (t.writers own) p e refl m)

  -- Whatever the writers do, in any order: of two writers in the lease, while one may go on, the
  -- other one finds that its lease ran out.
  pub lease-exclusive :
      (s : System)
      → Reaches lease skew s
      → (w v : String) (d d' : ℕ) (r r' : Option Renewal) → w ≢ v
      → s.writers w ≡ holding d r
      → s.writers v ≡ holding d' r'
      → held s.time d ≡ true
      → held s.time d' ≡ false
  lease-exclusive s reached w v d d' r r' n at_w at_v goes_on = elim (Bool-cases (held s.time d')) [
    | inr over ↦ over
    | inl both ↦
        (let i = Reaches-Inv s reached in
          let lw = subst (λ p. s.time < deadline_of p) (sym at_w) (ltb→lt s.time d goes_on) in
          let lv = subst (λ p. s.time < deadline_of p) (sym at_v) (ltb→lt s.time d' both) in
          absurd (elim (i.pair w v [] [] n (ap todo at_w) (ap todo at_v) lw lv) [
            | inl j ↦ j
            | inr j ↦ j
          ]))
  ]
