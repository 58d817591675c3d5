-- ===== src/Redis/RateLimit/Definition.antt =====
-- The checks of a definition (packages/redis/src/rate-limit/define-rate-limit.ts) and the calls of
-- a bound limit (bind-rate-limit.ts). A JavaScript number is a whole number from 0 up or another
-- one: negative, fractional, infinite or not a number, which every check refuses alike. The bound
-- on how long the caller waits for the server (`timeoutMs`) is left out.
use nxgt_data.Prelude.{
  ℕ, ◌+◌, ◌*◌, ◌/◌, ◌≤◌, ◌≡◌, refl, Bool, true, false, inl, inr, arith, sym, subst, ltb, leb,
  if◌then◌else◌, Bool-cases, Option, some, none, List, ◌&&◌,
}
use nxgt_data.Redis.RateLimit.Arithmetic.{Doubles, safe}
use nxgt_data.Redis.RateLimit.{Rate, Reply, Write, gcra}
use nxgt_data.Redis.RateLimit.Rounding.{IsSound}
use nxgt_data.Redis.RateLimit.Waiting.{retry_after_suffices}

pub data Number : Type 0 where
  whole : ℕ → Number
  other : Number

-- Each `TypeError` of `checkRateValues`, by what it is about.
pub data Refusal : Type 0 where
  bad_limit bad_per bad_burst too_large too_slow : Refusal

-- `MAX_BURST_PER` and `MAX_REFILL`
abbrev pub max_burst_per : ℕ
max_burst_per = safe / 1000

abbrev pub max_refill : ℕ
max_refill = 315360000000

pub is_count : Number → Bool
is_count (whole n) = leb n safe && leb 1 n
is_count other = false

is_count? : Option Number → Bool
is_count? none = true
is_count? (some n) = is_count n

abbrev pub value_of : Number → ℕ
value_of (whole n) = n
value_of other = 0

-- `burst ?? limit`
abbrev pub burst_or : Option Number → ℕ → ℕ
burst_or none limit = limit
burst_or (some n) limit = value_of n

abbrev pub rate_of : Number → Number → Option Number → Rate
rate_of limit per burst = record {
  limit = value_of limit;
  per = value_of per;
  burst = burst_or burst (value_of limit);
}

-- `a / b > c` on numbers that a double holds exactly is `c * b < a`.
pub check_rate_values : Number → Number → Option Number → Option Refusal
unfolding is_count is_count?
check_rate_values limit per burst =
    let r = rate_of limit per burst in
    if is_count limit
    then if is_count per
      then if is_count? burst
        then if ltb max_burst_per (r.burst * r.per)
          then some too_large
          else if ltb (max_refill * r.limit) (r.burst * r.per)
          then some too_slow
          else none
        else some bad_burst
      else some bad_per
    else some bad_limit

-- A `GuardError`, by its code.
pub data GuardError : Type 0 where
  cost : GuardError
  rate_limited : ℕ → GuardError

pub data Checked : Type 0 where
  returns : Reply → Checked
  throws : GuardError → Checked

-- `checkCost`: `true` where it returns.
pub check_cost : Number → ℕ → ℕ → Bool
check_cost (whole c) least burst = leb c safe && (leb least c && leb c burst)
check_cost other least burst = false

module _ (lua : Doubles) (r : Rate) (stored : Option (List ℕ)) (now : ℕ) where
  -- The inner `check`: nothing is sent for a cost that is refused.
  check : Number → Bool → Checked × Option Write
  check c write =
      if check_cost c (if write then 1 else 0) r.burst
      then (let (reply, written) = gcra lua r stored now (value_of c) write in
          (returns reply, written))
      else (throws cost, none)

  unfoldable pub consume : Number → Checked × Option Write
  unfolding check check_cost
  consume c = check c true

  unfoldable pub peek : Number → Checked × Option Write
  unfolding check check_cost
  peek c = check c false

  unless_refused : Checked × Option Write → Checked × Option Write
  unless_refused (throws e, written) = (throws e, written)
  unless_refused (returns reply, written) =
      (if reply.allowed then returns reply else throws (rate_limited reply.retry_after), written)

  unfoldable pub enforce : Number → Checked × Option Write
  unfolding check check_cost unless_refused
  enforce c = unless_refused (check c true)

-- The refill bound: a full bucket of `burst * per` ms-requests refills within ten years.
abbrev pub RefillsInTime : Rate → Type 0
RefillsInTime r = r.burst * r.per ≤ max_refill * r.limit

abbrev ladder : Bool → Bool → Bool → Bool → Bool → Option Refusal
ladder a b c d e =
    if a
    then if b
      then if c
        then if d then some too_large else if e then some too_slow else none
        else some bad_burst
      else some bad_per
    else some bad_limit

module _ (lua : Doubles) (r : Rate) (sound : IsSound r) (stored : Option (List ℕ)) (now later : ℕ)
    (small : now ≤ safe) where
  enforce_of_allowed :
      (at c : ℕ)
      → (gcra lua r stored at c true).0.allowed ≡ true
      → check_cost (whole c) 1 r.burst ≡ true
      → (enforce lua r stored at (whole c)).0 ≡ returns (gcra lua r stored at c true).0
  unfolding enforce
  enforce_of_allowed at c e checked = rw (checked, unless_refused, e)

  cost_le : (n : ℕ) → check_cost (whole n) 1 r.burst ≡ true → n ≤ r.burst
  unfolding check_cost
  cost_le n e = ground arith

  refused_reply :
      (reply : Reply) (w : Option Write) (t : ℕ)
      → (unless_refused lua r stored now (returns reply, w)).0 ≡ throws (rate_limited t)
      → (reply.allowed ≡ false) × (reply.retry_after ≡ t)
  unfolding unless_refused
  refused_reply reply w t e = (ground arith, ground arith)

  enforce_refused :
      (c : Number) (t : ℕ)
      → (enforce lua r stored now c).0 ≡ throws (rate_limited t)
      → (n : ℕ) × (c ≡ whole n)
        × (check_cost c 1 r.burst ≡ true)
        × (n ≤ r.burst)
        × ((gcra lua r stored now n true).0.allowed ≡ false)
        × ((gcra lua r stored now n true).0.retry_after ≡ t)
  unfolding enforce
  enforce_refused other t e = cc
  enforce_refused (whole n) t e = elim (Bool-cases (check_cost (whole n) 1 r.burst)) [
    | inl good ↦
        let call = gcra lua r stored now n true in
        let (denied, wait) = refused_reply call.0 call.1 t (rw good at e) in
        (n, refl, good, cost_le n good, denied, wait)
    | inr bad ↦ absurd (ground arith)
  ]

  -- Whoever waits as long as a refusal of `enforce` says is served, if nothing else was counted in
  -- between: the same call returns.
  pub enforce_again :
      (c : Number) (t : ℕ)
      → (enforce lua r stored now c).0 ≡ throws (rate_limited t)
      → now + t * 1000 ≤ later
      → (reply : Reply) × ((enforce lua r stored later c).0 ≡ returns reply)
  enforce_again c t refused waited =
      let (n, is_n, good, within, denied, wait) = enforce_refused c t refused in
      let again =
        retry_after_suffices lua r sound stored now later n true small within denied
          (rw wait waited) in
      (
        (gcra lua r stored later n true).0,
        subst (λ x. (enforce lua r stored later x).0 ≡ returns (gcra lua r stored later n true).0)
            (sym is_n) (enforce_of_allowed later n again (rw is_n at good)),
      )
