-- ===== src/Redis/RateLimit/Waiting.antt =====
-- What the times of a reply promise: waiting `retry_after` is enough, and the key's expiry cannot
-- be observed.
use native.Mathlib.Nat.{le_trans, mul-le-mul_right}
use mathlib.Core.Bool.{false≢true}
use nxgt_data.Prelude.{
  ℕ, max, ◌+◌, ◌-◌, ◌*◌, ◌≤◌, ◌<◌, ◌≡◌, Bool, true, false, inl, inr, arith, ap, ◌∙◌, sym, leb,
  le→leb, Option, Option-cases, some, none, List,
}
use nxgt_data.Redis.RateLimit.Arithmetic.{Doubles, safe}
use nxgt_data.Redis.RateLimit.{
  Rate, Write, tolerance, unit, ceildiv, ms, state, drain, decide, gcra, stored_text,
}
use nxgt_data.Redis.RateLimit.Rounding.{IsSound, ms_bounds, ceildiv_bounds}
use nxgt_data.Redis.RateLimit.Stored.{IsTrusted, state_sound, state_later, state-stored_text}
use nxgt_data.Redis.RateLimit.Drain.{remains, drain_exact, IsDrained, drain-state-IsDrained}
use nxgt_data.Redis.RateLimit.Decision.{decide-allowed, decide-retry_after, decide-write}

-- Waiting `m` ms, and `lag` ms more while the base is ahead, drains `k` ticks if `m` ms do.
drains :
    (now later base ahead m lag l k : ℕ)
    → now + (m + lag) * 1000 ≤ later
    → base ≤ now + lag * 1000
    → k ≤ m * 1000 * l
    → ahead - (later - base) * l ≤ ahead - (now - base) * l - k
drains now later base ahead m lag l k h near enough =
    let passed : (now - base + m * 1000) * l ≤ (later - base) * l =
      mul-le-mul_right l (omega arith) in
    let split : (now - base + m * 1000) * l ≡ (now - base) * l + m * 1000 * l = grind arith in
    omega (arith, passed, split)

false≡true-elim : {A : Type 0} → false ≡ true → A
false≡true-elim e = absurd (false≢true e)

pair_eq : {a b c d : ℕ} → a ≡ b → c ≡ d → ◌≡◌ {A = ℕ × ℕ} (a, c) (b, d)
pair_eq p q = λ i. (p i, q i)

not_leb : (a b : ℕ) → leb a b ≡ false → b < a
not_leb a b h = ground arith

module _ (lua : Doubles) (r : Rate) where
  -- What an allowed, counted call writes: a text that is read back, whose `PX` outlives its drain.
  pub record IsWritten (now cost base d : ℕ) (w : Write) : Type 0 where
    pub text : w.text ≡ stored_text lua r base (d + cost * unit r)
    pub trusted : IsTrusted lua r now base (d + cost * unit r)
    pub reaches : base ≤ now + w.px * 1000
    pub drained : d + cost * unit r ≤ (now + w.px * 1000 - base) * r.limit

module _ (lua : Doubles) (r : Rate) (sound : IsSound r) where
  -- A lag is long enough for the clock to reach the base.
  lag_reaches : (now base : ℕ) → base ≤ safe → base ≤ now + ceildiv lua (base - now) 1000 * 1000
  lag_reaches now base h =
      omega (arith, ceildiv_bounds lua (base - now) 1000 (omega arith) (omega arith) (omega arith))

  retry_of_state :
      (now later cost : ℕ) (write : Bool) (b a : ℕ)
      → IsTrusted lua r now b a
      → cost ≤ r.burst
      → now ≤ safe
      → (decide lua r now cost write (drain lua r now (some (b, a)))).0.allowed ≡ false
      → now + (decide lua r now cost write (drain lua r now (some (b, a)))).0.retry_after * 1000
        ≤ later
      → (decide lua r later cost write (drain lua r later (some (b, a)))).0.allowed ≡ true
  retry_of_state now later cost write b a t within h denied waited =
      let need = cost * unit r in
      let d = remains r now b a in
      let small = le_trans t.ahead_fits sound.tolerance_safe in
      let denied' = rw (drain_exact lua r now b a small) at denied in
      let waited' = rw (drain_exact lua r now b a small) at waited in
      let times = decide-retry_after lua r now cost write (max now b) d denied' in
      let waited'' = rw times at waited' in
      let need_fits : need ≤ tolerance r = mul-le-mul_right (unit r) within in
      let over : tolerance r - d < need =
        not_leb _ _ (sym (decide-allowed lua r now cost write (max now b) d) ∙ denied') in
      let short = need - (tolerance r - d) in
      let drained =
        drains now later b a (ms lua r short) (ceildiv lua (max now b - now) 1000) r.limit short
          waited'' (omega (arith, lag_reaches now (max now b) (omega (arith, t.base_safe))))
          ((ms_bounds lua r sound short (omega (arith, sound.tolerance_safe))).0) in
      rw (drain_exact lua r later b a small, decide-allowed) (le→leb _ _ (omega (arith, drained)))

  fresh_allowed :
      (now cost : ℕ) (write : Bool)
      → cost ≤ r.burst
      → (decide lua r now cost write (drain lua r now none)).0.allowed ≡ true
  unfolding drain
  fresh_allowed now cost write within =
      let need_fits : cost * unit r ≤ tolerance r = mul-le-mul_right (unit r) within in
      rw decide-allowed (le→leb _ _ (omega (arith, need_fits)))

  -- A denied call whose cost is at most the burst is allowed once `retry_after` has passed on the
  -- server's clock, if nothing was written in between.
  pub retry_after_suffices :
      (stored : Option (List ℕ)) (now later cost : ℕ) (write : Bool)
      → now ≤ safe
      → cost ≤ r.burst
      → (gcra lua r stored now cost write).0.allowed ≡ false
      → now + (gcra lua r stored now cost write).0.retry_after * 1000 ≤ later
      → (gcra lua r stored later cost write).0.allowed ≡ true
  unfolding gcra
  retry_after_suffices stored now later cost write h within denied waited =
      elim (Option-cases (state lua r now stored)) [
        | inl empty ↦
            let denied' : (decide lua r now cost write (drain lua r now none)).0.allowed ≡ false =
              rw empty at denied in
            false≡true-elim (sym denied' ∙ fresh_allowed now cost write within)
        | inr ((b, a), e) ↦ rw (state_later lua r now later stored (omega arith) e) (
            retry_of_state now later cost write b a (state_sound lua r now stored e) within h
              (rw e at denied) (rw e at waited))
      ]

  decide-IsWritten :
      (now cost : ℕ) (write : Bool) (base d : ℕ) (w : Write)
      → now ≤ safe
      → IsDrained lua r now base d
      → (decide lua r now cost write (base, d)).1 ≡ some w
      → IsWritten lua r now cost base d w
  decide-IsWritten now cost write base d w h i e =
      let (room, _, _, text, px) = decide-write lua r now cost write base d e in
      let after = d + cost * unit r in
      let fits : after ≤ tolerance r = omega (arith, i.d_fits, room) in
      let enough = (ms_bounds lua r sound after (omega (arith, fits, sound.tolerance_safe))).0 in
      let lag = lag_reaches now base i.base_safe in
      let long : ms lua r after * 1000 ≤ now + w.px * 1000 - base =
        omega (arith, px, lag, i.base_late) in
      record {
        text = text;
        trusted = record { base_safe = i.base_safe; ahead_fits = fits; base_near = i.base_near };
        reaches = omega (arith, px, lag);
        drained = le_trans enough (mul-le-mul_right r.limit long);
      }

  pub gcra-IsWritten :
      (stored : Option (List ℕ)) (now cost : ℕ) (write : Bool) (w : Write)
      → now ≤ safe
      → (gcra lua r stored now cost write).1 ≡ some w
      → IsWritten lua r now cost
          (drain lua r now (state lua r now stored)).0
          (drain lua r now (state lua r now stored)).1
          w
  unfolding gcra
  gcra-IsWritten stored now cost write w h e =
      let (base, d) = drain lua r now (state lua r now stored) in
      decide-IsWritten now cost write base d w h (drain-state-IsDrained lua r now stored sound h) e

  -- A text that was written reads as an empty bucket from the moment that its `PX` has passed.
  pub drain_expired :
      (now cost base d : ℕ) (w : Write) (later : ℕ)
      → IsWritten lua r now cost base d w
      → now + w.px * 1000 ≤ later
      → drain lua r later (state lua r later (some w.text)) ≡ drain lua r later none
  unfolding drain
  drain_expired now cost base d w later i h =
      let after = d + cost * unit r in
      let t : IsTrusted lua r later base after = record {
        base_safe = i.trusted.base_safe;
        ahead_fits = i.trusted.ahead_fits;
        base_near = omega (arith, i.trusted.base_near);
      } in
      let read = state-stored_text lua r later base after t sound.tolerance_safe in
      let gone : after ≤ (later - base) * r.limit =
        le_trans i.drained (mul-le-mul_right r.limit (omega arith)) in
      let small = le_trans i.trusted.ahead_fits sound.tolerance_safe in
      rw (i.text, read)
        (drain_exact lua r later base after small
          ∙ pair_eq (omega (arith, i.reaches)) (omega (arith, gone)))

  -- Once the `PX` of the last write has passed, a call on the text and a call on the expired key
  -- reply and write the same, so it does not matter when the server drops the key.
  pub expiry_unobservable :
      (stored : Option (List ℕ)) (now cost : ℕ) (write : Bool) (w : Write) (later again : ℕ)
      (write_again : Bool)
      → now ≤ safe
      → (gcra lua r stored now cost write).1 ≡ some w
      → now + w.px * 1000 ≤ later
      → gcra lua r (some w.text) later again write_again ≡ gcra lua r none later again write_again
  unfolding gcra state
  expiry_unobservable stored now cost write w later again write_again h e expired =
      ap (decide lua r later again write_again)
        (drain_expired now cost _ _ w later (gcra-IsWritten stored now cost write w h e) expired)
