-- ===== src/Redis/Queue/Edits.antt =====
-- What the scripts of packages/redis/src/queue/scripts write to the hash of a stored job.
use nxgt_data.Prelude.{ℕ, ◌+◌, ◌-◌, Bool, true, Option, none, some, String, [], if◌then◌else◌}
use nxgt_data.Decimal.{print}
use nxgt_data.Redis.Queue.{Job, is_there, number}

abbrev pub without_token : Job → Job
without_token j = record j { token = none }

abbrev pub as_waiting : Job → Job
as_waiting j = record j { state = some "waiting" }

abbrev pub as_failed : ℕ → String → Job → Job
as_failed now error j = record j {
  state = some "failed";
  error = some error;
  finished = some (print now);
}

-- A job that `refuse` moves to `failed`.
abbrev pub as_refused : ℕ → String → Job → Job
as_refused now error j = record j {
  state = some "failed";
  error = some error;
  finished = some (print now);
  token = none;
}

abbrev pub as_active : String → Job → Job
as_active token j = record j {
  state = some "active";
  token = some token;
  attempt = some (print (number j.attempt + 1));
}

abbrev pub as_completed : ℕ → Option String → Job → Job
as_completed now result j = record j {
  state = some "completed";
  finished = some (print now);
  result = if is_there result then result else j.result;
  token = none;
}

-- A job that `FAIL` retries at `at`.
abbrev pub as_delayed : ℕ → String → Job → Job
as_delayed at error j = record j {
  state = some "delayed";
  error = some error;
  run_at = some (print at);
}

-- A job that `RELEASE` gives back.
abbrev pub given_back : Job → Job
given_back j = record j {
  state = some "waiting";
  attempt = some (print (number j.attempt - 1));
  token = none;
}

-- A job that a debounce moves to `at`.
abbrev pub as_postponed : ℕ → String → Job → Job
as_postponed at json f = record f {
  data_json = some json;
  state = some "delayed";
  run_at = some (print at);
}

-- A job that `RETRY` puts back; a fresh retry forgets its steps.
abbrev pub as_retried : ℕ → Bool → Job → Job
as_retried now fresh j = record j {
  state = some "waiting";
  attempt = some (print 0);
  retried = true;
  run_at = some (print now);
  error = none;
  finished = none;
  token = none;
  steps = if fresh then [] else j.steps;
}
