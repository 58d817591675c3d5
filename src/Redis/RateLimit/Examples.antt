-- ===== src/Redis/RateLimit/Examples.antt =====
-- Runs of the rate limit at concrete inputs, and the theorems at inputs that meet their
-- hypotheses: 5 requests a minute, with exact division for the estimates.
use nxgt_data.Prelude.{
  ◌+◌, ◌-◌, ◌*◌, ◌≤◌, ◌≡◌, refl, true, false, arith, leb, some, none, [], ◌∷◌, ◌++◌,
}
use nxgt_data.Decimal.{print, value}
use nxgt_data.Redis.RateLimit.Exact.{exact}
use nxgt_data.Redis.RateLimit.{
  Rate, Write, tolerance, unit, gcra, ceildiv, ms, left, state, drain, decide, stored_text,
  match_pair,
}
use nxgt_data.Redis.RateLimit.Stored.{state-stored_text}
use nxgt_data.Redis.RateLimit.Decision.{allowed-eq-le-remaining}
use nxgt_data.Redis.RateLimit.Waiting.{retry_after_suffices, expiry_unobservable}
use nxgt_data.Redis.RateLimit.Bound.{Held, Replies, Calls, rate_bound}
use nxgt_data.Redis.RateLimit.Rounding.{IsSound}

abbrev login : Rate
login = record { limit = 5; per = 60000; burst = 5 }

login-IsSound : IsSound login
login-IsSound = omega arith

-- Opens the whole script in a test.
script : Unit {0}
unfolding gcra decide drain state left ms ceildiv match_pair print value
script = tt

-- The sixth second: three requests were counted, then a call for three more is denied.
abbrev first_write : Write
first_write = record { text = print 1000000 ++ b' ' ∷ print 180000000; px = 36000 }

first_call : gcra exact login none 1000000 3 true ≡ (
  record { allowed = true; remaining = 2; reset_after = 36000; retry_after = 0 },
  some first_write,
)
unfolding script
first_call = refl

second_call :
    gcra exact login (some first_write.text) 7000000 3 true
    ≡ (record { allowed = false; remaining = 2; reset_after = 30000; retry_after = 6000 }, none)
unfolding script
second_call = refl

foreign_text : (gcra exact login (some (b'7' ∷ b' ' ∷ b'x' ∷ [])) 7000000 5 true).0.allowed ≡ true
unfolding script
foreign_text = refl

allowed-eq-le-remaining_example :
    (gcra exact login (some first_write.text) 7000000 3 true).0.allowed
    ≡ leb 3 (gcra exact login (some first_write.text) 7000000 0 false).0.remaining
allowed-eq-le-remaining_example =
    allowed-eq-le-remaining exact login login-IsSound (some first_write.text) 7000000 3 true

retry_after_suffices_example :
    (gcra exact login (some first_write.text) 13000000 3 true).0.allowed ≡ true
unfolding script
retry_after_suffices_example =
    retry_after_suffices exact login login-IsSound (some first_write.text) 7000000 13000000 3 true
      (omega arith) (omega arith) refl (omega arith)

expiry_unobservable_example :
    gcra exact login (some first_write.text) 37000000 5 true ≡ gcra exact login none 37000000 5 true
unfolding script
expiry_unobservable_example =
    expiry_unobservable exact login login-IsSound none 1000000 3 true first_write 37000000 5 true
      (omega arith) refl (omega arith)

state-stored_text_example :
    state exact login 7000000 (some (stored_text exact login 1000000 180000000))
    ≡ some (1000000, 180000000)
state-stored_text_example =
    state-stored_text exact login 7000000 1000000 180000000
      (record { base_safe = omega arith; ahead_fits = omega arith; base_near = omega arith })
      (omega arith)

abbrev held : Held
held = record { write = first_write; at = 1000000 }

-- Three requests at one second, and two more at seven: the window between them counts two.
abbrev second_write : Write
second_write = record { text = print 7000000 ++ b' ' ∷ print 270000000; px = 54000 }

history : Calls exact login 0 none 1000000 (some held) 3
unfolding script
history =
    Calls.call none 3 (Calls.done refl refl refl) (omega arith) (omega arith) Replies.absent refl
      refl

window :
    Calls exact login 1000000
      (some held)
      7000000
      (some (record { write = second_write; at = 7000000 }))
      2
unfolding script
window =
    Calls.call (some first_write.text) 2 (Calls.done refl refl refl) (omega arith) (omega arith)
      (Replies.present held) refl refl

rate_bound_example : 2 * unit login ≤ tolerance login + (7000000 - 1000000) * login.limit
rate_bound_example = rate_bound exact login login-IsSound history window
