-- ===== src/Brain/Breaking.antt =====
-- packages/brain/src/core_client/circuit_breaker.ts: runs of the calls on the breaker, in any order:
-- the outcome of a request may be recorded long after it was let through.
use dina_mobile.Prelude.{
  ℕ, ◌<◌, Bool, true, false, ◌≡◌, ◌⊎◌, inl, inr, refl, sym, ap, subst, ◌∙◌, arith, leb, List, [],
  ◌∷◌, Bool-cases, is_some,
}
use dina_mobile.Brain.CircuitBreaker.{
  CircuitBreaker, CircuitState, closed, opened, half_open, new_breaker, has_cooled, start_probe,
  allow_request, after_success, record_success, after_failure, record_failure, reset,
}

pub data BreakerOp : Type 0 where
  op_allow op_success op_failure : ℕ → BreakerOp
  op_reset : BreakerOp

unfoldable pub breaker_step : BreakerOp → CircuitBreaker → CircuitBreaker
unfolding allow_request record_success record_failure reset
breaker_step (op_allow now) b = (allow_request now b).1
breaker_step (op_success now) b = record_success now b
breaker_step (op_failure now) b = record_failure now b
breaker_step op_reset b = reset b

unfoldable pub breaker_run : List BreakerOp → CircuitBreaker → CircuitBreaker
unfolding breaker_step
breaker_run [] b = b
breaker_run (op ∷ ops) b = breaker_run ops (breaker_step op b)

-- A probe runs exactly in the half-open state; a closed breaker has had fewer failures in a row than
-- the threshold, and an open one has a last failure to cool down from.
abbrev pub StateFits : CircuitState → CircuitBreaker → Type 0
StateFits closed b = (b.probe_in_progress ≡ false) × (b.consecutive_failures < b.failure_threshold)
StateFits opened b = (b.probe_in_progress ≡ false) × (is_some b.last_failure_at ≡ true)
StateFits half_open b = (b.probe_in_progress ≡ true) × (is_some b.last_failure_at ≡ true)

abbrev pub IsBreaker : CircuitBreaker → Type 0
IsBreaker b = StateFits b.state b

IsBreaker-failure :
    (st : CircuitState) (b : CircuitBreaker)
    → b.state ≡ st
    → b.probe_in_progress ≡ false
    → is_some b.last_failure_at ≡ true
    → StateFits (after_failure st b).state (after_failure st b)
unfolding after_failure
IsBreaker-failure closed b e p f =
    elim (Bool-cases (leb b.failure_threshold b.consecutive_failures)) [
      | inl t ↦ rw (t, after_failure) (p, f)
      | inr n ↦ rw (n, after_failure) (rw e (p, ground arith))
    ]
IsBreaker-failure opened b e p f = rw e (p, f)
IsBreaker-failure half_open b e p f = (p, f)

IsBreaker-success :
    (st : CircuitState) (b : CircuitBreaker)
    → 0 < b.failure_threshold
    → b.state ≡ st
    → b.probe_in_progress ≡ false
    → (st ≡ closed) ⊎ (is_some b.last_failure_at ≡ true)
    → StateFits (after_success st b).state (after_success st b)
unfolding after_success
IsBreaker-success closed b pos e p f = rw e (p, pos)
IsBreaker-success opened b pos e p (inl bad) = absurd cc
IsBreaker-success opened b pos e p (inr f) = rw e (p, f)
IsBreaker-success half_open b pos e p f = (p, pos)

allow_probe :
    (now : ℕ) (b : CircuitBreaker)
    → b.state ≡ opened
    → b.probe_in_progress ≡ false
    → has_cooled now b ≡ true
    → allow_request now b ≡ (true, start_probe b)
unfolding allow_request
allow_probe now b e p t = ground arith

-- Any other request leaves the breaker as it is.
allow_same :
    (now : ℕ) (st : CircuitState) (b : CircuitBreaker)
    → b.state ≡ st
    → StateFits st b
    → ((allow_request now b ≡ (true, start_probe b)) × (is_some b.last_failure_at ≡ true))
      ⊎ ((allow_request now b).1 ≡ b)
unfolding allow_request
allow_same now closed b e h = inr (ground arith)
allow_same now half_open b e h = inr (ground arith)
allow_same now opened b e h = elim (Bool-cases (has_cooled now b)) [
  | inl t ↦ inl (allow_probe now b e h.0 t, h.1)
  | inr f ↦ inr (ground arith)
]

-- A breaker that is not closed has a last failure.
last_failure :
    (st : CircuitState) (b : CircuitBreaker)
    → StateFits st b
    → (st ≡ closed) ⊎ (is_some b.last_failure_at ≡ true)
last_failure closed b h = inl refl
last_failure opened b h = inr h.1
last_failure half_open b h = inr h.1

start_probe-IsBreaker :
    (b : CircuitBreaker) → is_some b.last_failure_at ≡ true → IsBreaker (start_probe b)
unfolding start_probe
start_probe-IsBreaker b h = (refl, h)

allow_fits : (now : ℕ) (b : CircuitBreaker) → IsBreaker b → IsBreaker (allow_request now b).1
allow_fits now b h = elim (allow_same now b.state b refl h) [
  | inr same ↦ subst IsBreaker (sym same) h
  | inl (probe, last) ↦
      subst (λ (r : Bool × CircuitBreaker). IsBreaker r.1) (sym probe)
        (start_probe-IsBreaker b last)
]

success_fits :
    (now : ℕ) (b : CircuitBreaker)
    → 0 < b.failure_threshold
    → IsBreaker b
    → IsBreaker (record_success now b)
unfolding record_success
success_fits now b pos h = IsBreaker-success b.state _ pos refl refl (last_failure b.state b h)

threshold_kept :
    (op : BreakerOp) (b : CircuitBreaker)
    → (breaker_step op b).failure_threshold ≡ b.failure_threshold
unfolding breaker_step allow_request start_probe record_success after_success record_failure
    after_failure reset new_breaker
threshold_kept (op_allow now) b = ground arith
threshold_kept (op_success now) b = ground arith
threshold_kept (op_failure now) b = ground arith
threshold_kept op_reset b = refl

breaker_step-IsBreaker :
    (op : BreakerOp) (b : CircuitBreaker)
    → 0 < b.failure_threshold
    → IsBreaker b
    → IsBreaker (breaker_step op b)
unfolding breaker_step record_failure reset new_breaker
breaker_step-IsBreaker (op_allow now) b pos h = allow_fits now b h
breaker_step-IsBreaker (op_success now) b pos h = success_fits now b pos h
breaker_step-IsBreaker (op_failure now) b pos h = IsBreaker-failure b.state _ refl refl refl
breaker_step-IsBreaker op_reset b pos h = (refl, pos)

breaker_run-from :
    (ops : List BreakerOp) (b : CircuitBreaker)
    → 0 < b.failure_threshold
    → IsBreaker b
    → IsBreaker (breaker_run ops b)
unfolding breaker_run
breaker_run-from [] b pos h = h
breaker_run-from (op ∷ ops) b pos h =
    breaker_run-from ops (breaker_step op b) (omega (arith, threshold_kept op b))
      (breaker_step-IsBreaker op b pos h)

-- After any calls on a new breaker with a positive threshold, in any order and at any times: a probe
-- is running exactly when the breaker is half-open; a closed breaker has had fewer failures in a row
-- than the threshold; one that is not closed has a last failure.
pub breaker_run-IsBreaker :
    (ops : List BreakerOp) (failure_threshold cooldown_ms : ℕ)
    → 0 < failure_threshold
    → IsBreaker (breaker_run ops (new_breaker failure_threshold cooldown_ms))
unfolding new_breaker
breaker_run-IsBreaker ops failure_threshold cooldown_ms pos =
    breaker_run-from ops (new_breaker failure_threshold cooldown_ms) pos (refl, pos)

probe_blocks : (later : ℕ) (b : CircuitBreaker) → (allow_request later (start_probe b)).0 ≡ false
unfolding allow_request start_probe
probe_blocks later b = refl

-- After any calls on a new breaker with a positive threshold that left it open: once the cooldown has
-- passed a request is let through, and a request that follows it, with no outcome recorded in
-- between, is refused at any time.
pub allow_request-one_probe :
    (ops : List BreakerOp) (failure_threshold cooldown_ms now later : ℕ)
    → 0 < failure_threshold
    → let b = breaker_run ops (new_breaker failure_threshold cooldown_ms) in
      b.state ≡ opened
      → has_cooled now b ≡ true
      → ((allow_request now b).0 ≡ true) × ((allow_request later (allow_request now b).1).0 ≡ false)
allow_request-one_probe ops failure_threshold cooldown_ms now later pos down cooled =
    let b = breaker_run ops (new_breaker failure_threshold cooldown_ms) in
    let h =
      subst (λ st. StateFits st b) down
        (breaker_run-IsBreaker ops failure_threshold cooldown_ms pos) in
    let probe = allow_probe now b down h.0 cooled in
    (
      ap (λ (r : Bool × CircuitBreaker). r.0) probe,
      ap (λ (r : Bool × CircuitBreaker). (allow_request later r.1).0) probe ∙ probe_blocks later b,
    )
