-- ===== src/Resilience/Retry.antt =====
-- `RetryPolicy` and `call_with_retry` of backend/libs/resilience/policy.py. What one attempt meets
-- (the clock, the provider, the random source) is a record; a run is a function of those records.
pub mod Bounds
pub mod Outcomes
pub mod Circuit
use omnicare_genai_assessmen.Prelude.{
  ℕ, zero, suc, ◌+◌, ◌-◌, ◌*◌, ◌^◌, min, Bool, true, false, ◌||◌, Option, none, some, List, [], ◌∷◌,
  leb, ◌==◌, if◌then◌else◌,
}
use mathlib.Core.Option
use omnicare_genai_assessmen.Text.{codes}
use omnicare_genai_assessmen.Resilience.Breaker.{
  Failure, transient, permanent, circuit_open, other, CircuitBreaker, record_success,
  record_failure, raise_if_open,
}

pub record RetryPolicy : Type 0 where
  pub attempts : ℕ
  pub base_delay : ℕ
  pub max_delay : ℕ
  pub deadline : ℕ

pub data Outcome {ℓ} (A : Type ℓ) : Type ℓ where
  returns : A → Outcome A
  raises : Failure → Outcome A

-- `elapsed` is `time.monotonic() - started` after the call, `uniform c` is `random.uniform(0, c)`.
pub record Attempt {ℓ} (A : Type ℓ) : Type ℓ where
  pub gate_now : ℕ
  pub gate_later : ℕ
  pub outcome : Outcome A
  pub failed_at : ℕ
  pub elapsed : ℕ
  pub uniform : ℕ → ℕ

-- What a run did: its result, the breaker that it leaves, how often it called, how long it slept.
pub record Run {ℓ} (A : Type ℓ) : Type ℓ where
  pub result : Outcome A
  pub breaker : Option CircuitBreaker
  pub calls : ℕ
  pub sleeps : List ℕ

unfoldable pub backoff : RetryPolicy → (ℕ → ℕ) → ℕ → ℕ
backoff policy uniform attempt = uniform (min policy.max_delay (policy.base_delay * 2 ^ attempt))

unfoldable pub gate : Option CircuitBreaker → ℕ → ℕ → Option Failure × Option CircuitBreaker
gate none now later = (none, none)
gate (some b) now later = let (shut_out, b') = raise_if_open now later b in (shut_out, some b')

-- `raise last or TransientError("exhausted retries")`
unfoldable pub last_or : Option Failure → Failure
last_or none = transient (codes "exhausted retries") none
last_or (some e) = e

-- `exc.retry_after if exc.retry_after is not None else policy.backoff(attempt)`
unfoldable pub delay_after : RetryPolicy → (ℕ → ℕ) → ℕ → Failure → ℕ
unfolding backoff
delay_after policy uniform attempt (transient m (some retry_after)) = retry_after
delay_after policy uniform attempt _ = backoff policy uniform attempt

module _ {ℓ} {A : Type ℓ} (policy : RetryPolicy) (env : ℕ → Attempt A) where
  -- The end of the loop's body, after a failure that may be retried; `rest` is the next round.
  unfoldable pub again :
      (Option Failure → Option CircuitBreaker → Run A) → ℕ → Failure → Option CircuitBreaker → Run A
  again rest k e br =
      let br' = Option.map (record_failure (env k).failed_at) br in
      let delay = delay_after policy (env k).uniform k e in
      let next = rest (some e) br' in
      if (k == policy.attempts - 1) || leb policy.deadline ((env k).elapsed + delay)
      then record { result = raises e; breaker = br'; calls = 1; sleeps = [] }
      else record next { calls = suc next.calls; sleeps = delay ∷ next.sleeps }

  unfoldable pub after_call :
      (Option Failure → Option CircuitBreaker → Run A)
      → ℕ
      → Outcome A
      → Option CircuitBreaker
      → Run A
  after_call rest k (returns a) br = record {
    result = returns a;
    breaker = Option.map record_success br;
    calls = 1;
    sleeps = [];
  }
  after_call rest k (raises (permanent m)) br = record {
    result = raises (permanent m);
    breaker = Option.map record_success br;
    calls = 1;
    sleeps = [];
  }
  after_call rest k (raises e) br = again rest k e br

  unfoldable pub behind_gate :
      (Option Failure → Option CircuitBreaker → Run A)
      → ℕ
      → Option Failure
      → Option CircuitBreaker
      → Run A
  behind_gate rest k (some e) br = record {
    result = raises e;
    breaker = br;
    calls = 0;
    sleeps = [];
  }
  behind_gate rest k none br = after_call rest k (env k).outcome br

  -- `for attempt in range(policy.attempts)`, with the rounds left and the rounds done.
  unfoldable pub attempt_from : ℕ → ℕ → Option Failure → Option CircuitBreaker → Run A
  attempt_from zero k last br = record {
    result = raises (last_or last);
    breaker = br;
    calls = 0;
    sleeps = [];
  }
  attempt_from (suc left) k last br =
      let (shut_out, br') = gate br (env k).gate_now (env k).gate_later in
      behind_gate (attempt_from left (suc k)) k shut_out br'

  unfoldable pub call_with_retry : Option CircuitBreaker → Run A
  call_with_retry br = attempt_from policy.attempts 0 none br
