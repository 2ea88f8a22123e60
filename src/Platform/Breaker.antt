-- ===== src/Platform/Breaker.antt =====
-- app/platform/circuit_breaker.py: one breaker, its guard, and the registry of named breakers.
-- `time.monotonic()` is a count of clock ticks, handed to each operation that reads it.
pub mod Trip
pub mod Schedule
mod Tests
use loupe_backend.Prelude.{
  ℕ, ◌+◌, ◌-◌, String, Bool, true, false, ◌&&◌, not, Option, none, some, List, ltb, leb, is_some,
  if◌then◌else◌, get, put, map,
}

pub record Breaker : Type 0 where
  pub name : String
  pub failure_threshold : ℕ
  pub cooldown : ℕ
  pub failures : ℕ
  pub opened_at : Option ℕ
  -- Whether `_probe_lock` is held.
  pub probe_locked : Bool

-- A breaker as its constructor makes it.
abbrev pub new_breaker : String → ℕ → ℕ → Breaker
new_breaker name threshold cooldown = record {
  name = name;
  failure_threshold = threshold;
  cooldown = cooldown;
  failures = 0;
  opened_at = none;
  probe_locked = false;
}

-- `now - opened_at < cooldown_s`, with no subtraction.
unfoldable pub is_open : Breaker → ℕ → Bool
is_open b now = elim b.opened_at [ none ↦ false | some t ↦ ltb now (t + b.cooldown) ]

-- `max(0, cooldown_s - (now - opened_at))`: subtraction stops at 0.
unfoldable pub retry_after : Breaker → ℕ → ℕ
retry_after b now = elim b.opened_at [ none ↦ 0 | some t ↦ t + b.cooldown - now ]

unfoldable pub record_success : Breaker → Breaker
record_success b = record b { failures = 0; opened_at = none }

unfoldable pub record_failure : Breaker → ℕ → Breaker
record_failure b now =
    let n = b.failures + 1 in
    if leb b.failure_threshold n && not (is_some b.opened_at)
    then record b { failures = n; opened_at = some now }
    else if is_some b.opened_at
    then record b { failures = n; opened_at = some now }
    else record b { failures = n }

-- What a caller of `guard` gets at the `async with`: CircuitOpenError with its `retry_after_s`, the
-- right to send the one probe, or the right to call.
pub data Admission : Type 0 where
  refused : ℕ → Admission
  probing : Admission
  calling : Admission

-- How the guarded block ends: by itself, by an `Exception`, or by a cancellation, which is no
-- `Exception` and is recorded by neither branch.
pub data Outcome : Type 0 where
  succeeded failed cancelled : Outcome

-- `guard` up to its `yield`.
unfoldable pub enter : Breaker → ℕ → Admission × Breaker
unfolding is_open retry_after
enter b now =
    if is_open b now
    then (refused (retry_after b now), b)
    else if is_some b.opened_at
    then (if b.probe_locked then (refused 0, b) else (probing, record b { probe_locked = true }))
    else (calling, b)

-- The `except` and `else` of `guard`.
unfoldable pub record_outcome : Breaker → Outcome → ℕ → Breaker
unfolding record_success record_failure
record_outcome b succeeded now = record_success b
record_outcome b failed now = record_failure b now
record_outcome b cancelled now = b

-- `guard` from its `yield` on; a probe lets go of the lock.
unfoldable pub leave : Breaker → Admission → Outcome → ℕ → Breaker
unfolding record_outcome
leave b (refused r) o now = b
leave b probing o now = record (record_outcome b o now) { probe_locked = false }
leave b calling o now = record_outcome b o now

abbrev pub Registry : Type 0
Registry = List (String × Breaker)

abbrev or_new : Option Breaker → Registry → Breaker → Breaker × Registry
or_new (some b) rs fresh = (b, rs)
or_new none rs fresh = (fresh, put fresh.name fresh rs)

-- The thresholds count only when the name is new.
unfoldable pub get_breaker : Registry → String → ℕ → ℕ → Breaker × Registry
get_breaker rs name threshold cooldown =
    or_new (get name rs) rs (new_breaker name threshold cooldown)

unfoldable pub reset_all_breakers : Registry → Registry
unfolding record_success
reset_all_breakers = map (λ e. (e.0, record_success e.1))
