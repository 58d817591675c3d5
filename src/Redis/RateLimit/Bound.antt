-- ===== src/Redis/RateLimit/Bound.antt =====
-- The rate over a history of calls: the server replies with the last text written, or with nothing
-- once its `PX` has passed, and its clock does not go back.
use native.Mathlib.Nat.{le_trans, mul-le-mul_right}
use nxgt_data.Prelude.{
  ℕ, ◌+◌, ◌-◌, ◌*◌, ◌≤◌, ◌≡◌, refl, Bool, true, inl, inr, arith, ◌∙◌, sym, ltb, if◌then◌else◌,
  Option, Option-cases, some, none, List, ◌&&◌,
}
use nxgt_data.Redis.RateLimit.Arithmetic.{Doubles, safe}
use nxgt_data.Redis.RateLimit.{Rate, Reply, Write, tolerance, unit, state, drain, gcra}
use nxgt_data.Redis.RateLimit.Rounding.{IsSound}
use nxgt_data.Redis.RateLimit.Stored.{IsTrusted, state-stored_text}
use nxgt_data.Redis.RateLimit.Drain.{remains, drain_exact, drain-state-IsDrained}
use nxgt_data.Redis.RateLimit.Decision.{written}
use nxgt_data.Redis.RateLimit.Waiting.{IsWritten, gcra-IsWritten}

-- The last write, and the server's time at it.
pub record Held : Type 0 where
  pub write : Write
  pub at : ℕ

-- What `GET` may reply at `now`: nothing if nothing was written, the text that was written, or
-- nothing from the moment that the text's `PX` has passed.
pub data Replies (now : ℕ) : Option Held → Option (List ℕ) → Type 0 where
  absent : Replies now none none
  present : (h : Held) → Replies now (some h) (some h.write.text)
  expired : (h : Held) → h.at + h.write.px * 1000 ≤ now → Replies now (some h) none

abbrev pub keep : ℕ → Option Held → Option Write → Option Held
keep now held none = held
keep now held (some w) = some (record { write = w; at = now })

abbrev pub counted : Reply → ℕ → ℕ
counted reply cost = if reply.allowed then cost else 0

-- Calls from the time `from`, when the key holds `before`: the time and the key after them, and the
-- cost that was allowed in all.
pub data Calls (lua : Doubles) (r : Rate) (from : ℕ) (before : Option Held)
    : ℕ → Option Held → ℕ → Type 0 where
  done :
      {now : ℕ} {held : Option Held} {spent : ℕ}
      → now ≡ from
      → held ≡ before
      → spent ≡ 0
      → Calls lua r from before now held spent
  call :
      {t now : ℕ} {held after : Option Held} {spent total : ℕ} (reply : Option (List ℕ)) (cost : ℕ)
      → Calls lua r from before t held spent
      → t ≤ now
      → now ≤ safe
      → Replies now held reply
      → after ≡ keep now held (gcra lua r reply now cost true).1
      → total ≡ spent + counted (gcra lua r reply now cost true).0 cost
      → Calls lua r from before now after total

module _ (lua : Doubles) (r : Rate) where
  -- The ticks that the key still counts at `now`.
  data Level (now : ℕ) : Option Held → ℕ → Type 0 where
    empty : (l : ℕ) → l ≡ 0 → Level now none l
    counts :
        (h : Held) (cost base d l : ℕ)
        → IsWritten lua r h.at cost base d h.write
        → h.at ≤ now
        → l ≡ remains r now base (d + cost * unit r)
        → Level now (some h) l

-- The level falls by at most `limit` ticks a microsecond.
remains_later :
    (r : Rate) (t now base a : ℕ)
    → t ≤ now
    → remains r t base a ≤ remains r now base a + (now - t) * r.limit
remains_later r t now base a h =
    let passed : (now - base) * r.limit ≤ (t - base + (now - t)) * r.limit =
      mul-le-mul_right r.limit (omega arith) in
    let split : (t - base + (now - t)) * r.limit ≡ (t - base) * r.limit + (now - t) * r.limit =
      grind arith in
    omega (arith, passed, split)

remains_fresh : (r : Rate) (now base k : ℕ) → now ≤ base → k ≡ remains r now base k
remains_fresh r now base k h =
    let none_passed : (now - base) * r.limit ≤ 0 * r.limit =
      mul-le-mul_right r.limit (omega arith) in
    omega (arith, none_passed)

total_le :
    (start spent more u l k from t now limit : ℕ)
    → from ≤ t
    → t ≤ now
    → start + spent * u ≤ l + (t - from) * limit
    → l + more * u ≤ k + (now - t) * limit
    → start + (spent + more) * u ≤ k + (now - from) * limit
total_le start spent more u l k from t now limit h h' p q =
    let lengths : now - from ≡ t - from + (now - t) = omega arith in
    let split : (t - from + (now - t)) * limit ≡ (t - from) * limit + (now - t) * limit =
      grind arith in
    let sums : (spent + more) * u ≡ spent * u + more * u = grind arith in
    rw lengths (omega (arith, split, sums, p, q))

if_none :
    {A : Type 0} (allowed : Bool) (cost : ℕ) (w : A)
    → (if allowed && true && ltb 0 cost then some w else none) ≡ none
    → (if allowed then cost else 0) ≡ 0
if_none allowed cost w e = ground arith

if_some :
    {A : Type 0} (allowed : Bool) (cost : ℕ) (w : A) {v : A}
    → (if allowed && true && ltb 0 cost then some w else none) ≡ some v
    → (if allowed then cost else 0) ≡ cost
if_some allowed cost w e = ground arith

module _ (lua : Doubles) (r : Rate) (sound : IsSound r) where
  Level-later :
      (t now : ℕ) (held : Option Held) (l : ℕ)
      → t ≤ now
      → Level lua r t held l
      → (k : ℕ) × Level lua r now held k × (l ≤ k + (now - t) * r.limit)
  Level-later t now held l h (empty _ e) = (0, empty 0 refl, omega arith)
  Level-later t now held l h (counts x cost base d _ w at e) =
      let k = remains r now base (d + cost * unit r) in
      (
        k,
        counts x cost base d k w (le_trans at h) refl,
        rw e (remains_later r t now base (d + cost * unit r) h),
      )

  -- What a call at `now` finds drained is at least what the key counted at `t`, less the drain.
  drained-Level :
      (t now : ℕ) (held : Option Held) (l : ℕ) (reply : Option (List ℕ))
      → t ≤ now
      → Level lua r t held l
      → Replies now held reply
      → l ≤ (drain lua r now (state lua r now reply)).1 + (now - t) * r.limit
  drained-Level t now held l reply h (empty _ e) absent = omega arith
  drained-Level t now held l reply h (counts x cost base d _ w at e) (present _) =
      let after = d + cost * unit r in
      let now_late : x.at ≤ now = le_trans at h in
      let small = le_trans w.trusted.ahead_fits sound.tolerance_safe in
      let trusted : IsTrusted lua r now base after = record {
        base_safe = w.trusted.base_safe;
        ahead_fits = w.trusted.ahead_fits;
        base_near = omega (arith, w.trusted.base_near);
      } in
      rw
        (
          w.text,
          state-stored_text lua r now base after trusted sound.tolerance_safe,
          drain_exact lua r now base after small,
        )
        (rw e (remains_later r t now base after h))
  drained-Level t now held l reply h (counts x cost base d _ w at e) (expired _ gone) =
      let after = d + cost * unit r in
      let all : after ≤ (now - base) * r.limit =
        le_trans w.drained (mul-le-mul_right r.limit (omega arith)) in
      let later = remains_later r t now base after h in omega (arith, later, all, e)

  not_counted :
      (reply : Option (List ℕ)) (now cost : ℕ)
      → (gcra lua r reply now cost true).1 ≡ none
      → counted (gcra lua r reply now cost true).0 cost ≡ 0
  not_counted reply now cost e =
      if_none (gcra lua r reply now cost true).0.allowed cost _
        (sym (written lua r sound reply now cost true) ∙ e)

  is_counted :
      (reply : Option (List ℕ)) (now cost : ℕ) {w : Write}
      → (gcra lua r reply now cost true).1 ≡ some w
      → counted (gcra lua r reply now cost true).0 cost ≡ cost
  is_counted reply now cost e =
      if_some (gcra lua r reply now cost true).0.allowed cost _
        (sym (written lua r sound reply now cost true) ∙ e)

  -- One call: what it counts is in the key, less the drain since the last call.
  call-Level :
      (t now cost : ℕ) (held : Option Held) (l : ℕ) (reply : Option (List ℕ))
      → t ≤ now
      → now ≤ safe
      → Level lua r t held l
      → Replies now held reply
      → (k : ℕ) × Level lua r now (keep now held (gcra lua r reply now cost true).1) k
        × (l + counted (gcra lua r reply now cost true).0 cost * unit r ≤ k + (now - t) * r.limit)
  call-Level t now cost held l reply h small level replies =
      elim (Option-cases (gcra lua r reply now cost true).1) [
        | inl unwritten ↦
            let (k, later, le) = Level-later t now held l h level in
            rw (unwritten, not_counted reply now cost unwritten) (k, later, omega (arith, le))
        | inr (w, e) ↦
            let base = (drain lua r now (state lua r now reply)).0 in
            let d = (drain lua r now (state lua r now reply)).1 in
            let i = gcra-IsWritten lua r sound reply now cost true w small e in
            let late = (drain-state-IsDrained lua r now reply sound small).base_late in
            let k = d + cost * unit r in
            rw (e, is_counted reply now cost e)
              (
                k,
                counts (record { write = w; at = now }) cost base d k i (omega arith)
                    (remains_fresh r now base k late),
                omega (arith, drained-Level t now held l reply h level replies),
              )
      ]

  Level-bound :
      {from : ℕ} {before : Option Held} (start : ℕ)
      → Level lua r from before start
      → {now : ℕ} {after : Option Held} {spent : ℕ} → Calls lua r from before now after spent
      → (l : ℕ) × Level lua r now after l
        × (from ≤ now)
        × (start + spent * unit r ≤ l + (now - from) * r.limit)
  Level-bound {from} start level (done n h s) =
      rw (n, h, s) (start, level, omega arith, omega arith)
  Level-bound {from} start level
        (call {t} {now} {held} {spent} reply cost calls h small replies a e) =
      let (l, here, from_le, le) = Level-bound start level calls in
      let (k, next, step) = call-Level t now cost held l reply h small here replies in
      rw (a, e)
        (
          k,
          next,
          le_trans from_le h,
          total_le start spent (counted (gcra lua r reply now cost true).0 cost) (unit r) l k from t
              now r.limit from_le h le step,
        )

  Level-fits : {now l : ℕ} {held : Option Held} → Level lua r now held l → l ≤ tolerance r
  Level-fits (empty _ e) = omega (arith, e)
  Level-fits (counts _ _ _ _ _ w _ e) = omega (arith, e, w.trusted.ahead_fits)

  -- In every window of every history of calls, what is allowed is at most a full bucket and what
  -- the window's length refills: `spent` requests take `spent * unit` ticks, a full bucket is
  -- `burst * unit` ticks, and `limit` ticks drain each microsecond.
  pub rate_bound :
      {start from now : ℕ} {before after : Option Held} {earlier spent : ℕ}
      → Calls lua r start none from before earlier
      → Calls lua r from before now after spent
      → spent * unit r ≤ tolerance r + (now - from) * r.limit
  rate_bound history window =
      let (l, level, _, _) = Level-bound 0 (empty 0 refl) history in
      let (k, last, _, le) = Level-bound l level window in omega (arith, le, Level-fits last)
