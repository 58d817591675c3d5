-- ===== src/Redis/RateLimit.antt =====
-- `GCRA_FN` of packages/redis/src/rate-limit/gcra.ts.
-- The checks of a definition are in Definition.
pub mod Arithmetic
pub mod Rounding
pub mod Stored
pub mod Drain
pub mod Decision
pub mod Waiting
pub mod Bound
pub mod Definition
pub mod Exact
mod Examples
use nxgt_data.Prelude.{
  ℕ, zero, suc, ◌+◌, ◌-◌, ◌*◌, ◌≤◌, ◌<◌, ◌≡◌, Bool, true, false, ◌&&◌, ◌||◌, not, Option, none,
  some, List, [], ◌∷◌, ◌++◌, ltb, leb, ◌==◌, if◌then◌else◌, length,
}
use nxgt_data.Decimal.{is_digit, print, value}
use nxgt_data.Redis.RateLimit.Arithmetic.{Doubles, safe}

-- `Rate`: `limit` requests every `per` ms, at most `burst` at once.
pub record Rate : Type 0 where
  pub limit : ℕ
  pub per : ℕ
  pub burst : ℕ

-- `{allowed, remaining, resetAfter, retryAfter}`, the last two in ms.
pub record Reply : Type 0 where
  pub allowed : Bool
  pub remaining : ℕ
  pub reset_after : ℕ
  pub retry_after : ℕ

-- The one `SET` of the script: the text stored, and its `PX` in ms.
pub record Write : Type 0 where
  pub text : List ℕ
  pub px : ℕ

-- The run of digits that a text starts with, and what follows it.
unfoldable pub span_digits : List ℕ → List ℕ × List ℕ
span_digits [] = ([], [])
span_digits (c ∷ cs) =
    let (run, rest) = span_digits cs in if is_digit c then (c ∷ run, rest) else ([], c ∷ cs)

second_run : List ℕ → List ℕ × List ℕ → Option (List ℕ × List ℕ)
second_run b (a, []) = if length a == 0 then none else some (b, a)
second_run b (a, _ ∷ _) = none

-- What follows the first run must be one space and a second run, to the end.
after_run : List ℕ × List ℕ → Option (List ℕ × List ℕ)
after_run (b, []) = none
after_run (b, c ∷ cs) =
    if (c == b' ') && not (length b == 0) then second_run b (span_digits cs) else none

-- `string.match(stored, '^(%d+) (%d+)$')`
unfoldable pub match_pair : List ℕ → Option (List ℕ × List ℕ)
unfolding span_digits after_run second_run
match_pair cs = after_run (span_digits cs)

-- The ticks of one request, and of a full bucket.
abbrev pub unit : Rate → ℕ
unit r = r.per * 1000

abbrev pub tolerance : Rate → ℕ
tolerance r = r.burst * unit r

module _ (lua : Doubles) where
  -- `ceildiv(a, b)`: the estimate, corrected by one step each way.
  step_down : ℕ → ℕ → ℕ → ℕ
  step_down a b q = if ltb 0 q && leb a (lua.product (q - 1) b) then q - 1 else q

  step_up : ℕ → ℕ → ℕ → ℕ
  step_up a b q = if ltb (lua.product q b) a then q + 1 else q

  pub ceildiv : ℕ → ℕ → ℕ
  unfolding step_down step_up
  ceildiv a b = step_up a b (step_down a b (lua.ceil_quot a b))

  module _ (r : Rate) where
    -- Ticks to milliseconds, rounded up.
    pub ms : ℕ → ℕ
    ms ticks = ceildiv (ceildiv ticks r.limit) 1000

    fewer : ℕ → ℕ → ℕ
    fewer free n = if ltb 0 n && ltb free (n * unit r) then n - 1 else n

    more : ℕ → ℕ → ℕ
    more free n = if ltb n r.burst && leb ((n + 1) * unit r) free then n + 1 else n

    cap : ℕ → ℕ
    cap n = if ltb r.burst n then r.burst else n

    -- `left(free)`: the most requests of cost 1 that fit in `free` ticks. What is free is never
    -- below 0, since what is used is at most the tolerance.
    pub left : ℕ → ℕ
    unfolding fewer more cap
    left free = if free == 0 then 0 else more free (fewer free (cap (lua.floor_quot free (unit r))))

    trusted : ℕ → ℕ → ℕ → Option (ℕ × ℕ)
    trusted now b a =
        if ltb safe b || ltb (tolerance r) a
        then none
        else if ltb now b && ltb (ceildiv (tolerance r) r.limit) (b - now)
        then none
        else some (b, a)

    parsed : ℕ → Option (List ℕ × List ℕ) → Option (ℕ × ℕ)
    parsed now none = none
    parsed now (some (b, a)) =
        if ltb 16 (length b) || ltb 16 (length a) then none else trusted now (value b) (value a)

    -- `state(stored)`: a stored state, only if this script could have written it.
    pub state : ℕ → Option (List ℕ) → Option (ℕ × ℕ)
    unfolding parsed trusted
    state now none = none
    state now (some stored) = parsed now (match_pair stored)

    -- The locals `base` and `d` after the drain.
    pub drain : ℕ → Option (ℕ × ℕ) → ℕ × ℕ
    drain now none = (now, 0)
    drain now (some (seen, ahead)) =
        if ltb now seen
        then (seen, ahead)
        else (let drained = lua.product (now - seen) r.limit in
            (now, if ltb drained ahead then ahead - drained else 0))

    -- `string.format('%.0f %.0f', base, after)`
    abbrev pub stored_text : ℕ → ℕ → List ℕ
    stored_text base after = print base ++ b' ' ∷ print after

    -- The decision, from the drained state.
    pub decide : ℕ → ℕ → Bool → ℕ × ℕ → Reply × Option Write
    decide now cost write (base, d) =
        let lag = ceildiv (base - now) 1000 in
        let free = tolerance r - d in
        let need = cost * unit r in
        if ltb free need
        then (
          record {
            allowed = false;
            remaining = left free;
            reset_after = ms d + lag;
            retry_after = ms (need - free) + lag;
          },
          none,
        )
        else (
          record {
            allowed = true;
            remaining = left (free - need);
            reset_after = ms (d + need) + lag;
            retry_after = 0;
          },
          (if write && ltb 0 cost
              then some (record { text = stored_text base (d + need); px = ms (d + need) + lag })
              else none),
        )

    -- `gcra(key, now, per, limit, burst, cost, write)`, from what `GET` replied: the reply, and
    -- what is written.
    pub gcra : Option (List ℕ) → ℕ → ℕ → Bool → Reply × Option Write
    gcra stored now cost write = decide now cost write (drain now (state now stored))
