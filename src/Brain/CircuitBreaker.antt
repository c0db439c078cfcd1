-- ===== src/Brain/CircuitBreaker.antt =====
-- packages/brain/src/core_client/circuit_breaker.ts: the class CircuitBreaker. `now` is the clock in
-- milliseconds.
use dina_mobile.Prelude.{ℕ, ◌+◌, Bool, true, false, Option, none, some, leb, if◌then◌else◌}

pub data CircuitState : Type 0 where
  closed opened half_open : CircuitState

pub record CircuitBreaker : Type 0 where
  pub state : CircuitState
  pub consecutive_failures : ℕ
  pub last_failure_at : Option ℕ
  pub last_success_at : Option ℕ
  pub total_failures : ℕ
  pub total_successes : ℕ
  pub probe_in_progress : Bool
  pub failure_threshold : ℕ
  pub cooldown_ms : ℕ

unfoldable pub new_breaker : ℕ → ℕ → CircuitBreaker
new_breaker failure_threshold cooldown_ms = record {
  state = closed;
  consecutive_failures = 0;
  last_failure_at = none;
  last_success_at = none;
  total_failures = 0;
  total_successes = 0;
  probe_in_progress = false;
  failure_threshold = failure_threshold;
  cooldown_ms = cooldown_ms;
}

-- `lastFailureAt !== null && now - lastFailureAt >= cooldownMs`
unfoldable pub has_cooled : ℕ → CircuitBreaker → Bool
has_cooled now b = elim b.last_failure_at [ none ↦ false | some at ↦ leb (at + b.cooldown_ms) now ]

unfoldable pub start_probe : CircuitBreaker → CircuitBreaker
start_probe b = record b { state = half_open; probe_in_progress = true }

unfoldable pub allow_request : ℕ → CircuitBreaker → Bool × CircuitBreaker
unfolding has_cooled start_probe
allow_request now b = elim b.state [
  | closed ↦ (true, b)
  | opened ↦
      if has_cooled now b
      then (if b.probe_in_progress then (false, b) else (true, start_probe b))
      else (false, b)
  | half_open ↦ if b.probe_in_progress then (false, b) else (true, b)
]

unfoldable pub after_success : CircuitState → CircuitBreaker → CircuitBreaker
after_success closed b = record b { consecutive_failures = 0 }
after_success opened b = b
after_success half_open b = record b { state = closed; consecutive_failures = 0 }

unfoldable pub record_success : ℕ → CircuitBreaker → CircuitBreaker
unfolding after_success
record_success now b = after_success b.state (record b {
  total_successes = b.total_successes + 1;
  last_success_at = some now;
  probe_in_progress = false;
})

unfoldable pub after_failure : CircuitState → CircuitBreaker → CircuitBreaker
after_failure closed b =
    if leb b.failure_threshold b.consecutive_failures then record b { state = opened } else b
after_failure opened b = b
after_failure half_open b = record b { state = opened }

unfoldable pub record_failure : ℕ → CircuitBreaker → CircuitBreaker
unfolding after_failure
record_failure now b = after_failure b.state (record b {
  total_failures = b.total_failures + 1;
  consecutive_failures = b.consecutive_failures + 1;
  last_failure_at = some now;
  probe_in_progress = false;
})

unfoldable pub reset : CircuitBreaker → CircuitBreaker
reset b = new_breaker b.failure_threshold b.cooldown_ms

-- What a call through the breaker comes to; `fn` is called only where the request is allowed.
pub data Executed {ℓ} (A : Type ℓ) : Type ℓ where
  breaker_open : Executed A
  returned : A → Executed A
  failed : Executed A

-- The call in one piece: `outcome` is what `fn` returns, or none where it throws, at the time `later`.
unfoldable pub execute {ℓ} :
    {A : Type ℓ} → ℕ → ℕ → Option A → CircuitBreaker → Executed A × CircuitBreaker
execute now later outcome b =
    let (allowed, b') = allow_request now b in
    if allowed
    then (elim outcome [
      | none ↦ (failed, record_failure later b')
      | some a ↦ (returned a, record_success later b')
    ])
    else (breaker_open, b')
