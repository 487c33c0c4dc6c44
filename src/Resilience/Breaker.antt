-- ===== src/Resilience/Breaker.antt =====
-- `CircuitBreaker` of backend/libs/resilience/policy.py.
pub mod Invariant
use omnicare_genai_assessmen.Prelude.{
  ℕ, ◌+◌, ◌-◌, String, Bool, true, false, Option, none, some, leb, if◌then◌else◌,
}
use omnicare_genai_assessmen.Text.{Text}
use omnicare_genai_assessmen.Prelude.Int.{ℤ, sub_ℕ}

-- The exceptions of the call path. `other` is any exception of another class.
pub data Failure : Type 0 where
  transient : Text → Option ℕ → Failure
  permanent : Text → Failure
  circuit_open : String → ℤ → Failure
  other : Text → Failure

pub record CircuitBreaker : Type 0 where
  pub name : String
  pub failure_threshold : ℕ
  pub reset_after : ℕ
  pub failures : ℕ
  pub opened_at : Option ℕ

unfoldable pub init : String → ℕ → ℕ → CircuitBreaker
init name threshold reset = record {
  name = name;
  failure_threshold = threshold;
  reset_after = reset;
  failures = 0;
  opened_at = none;
}

-- The body of `is_open` once `_opened_at` is a time. A threshold of 0 would store -1 failures in
-- the source and 0 here; the next failure opens the circuit either way.
open_since : ℕ → Option ℕ → CircuitBreaker → Bool × CircuitBreaker
open_since now none b = (false, b)
open_since now (some t) b =
    if leb (t + b.reset_after) now
    then (false, record b { opened_at = none; failures = b.failure_threshold - 1 })
    else (true, b)

unfoldable pub is_open : ℕ → CircuitBreaker → Bool × CircuitBreaker
unfolding open_since
is_open now b = open_since now b.opened_at b

unfoldable pub record_success : CircuitBreaker → CircuitBreaker
record_success b = record b { failures = 0; opened_at = none }

unfoldable pub record_failure : ℕ → CircuitBreaker → CircuitBreaker
record_failure now b =
    if leb b.failure_threshold (b.failures + 1)
    then record b { failures = b.failures + 1; opened_at = some now }
    else record b { failures = b.failures + 1 }

remaining : ℕ → Option ℕ → CircuitBreaker → ℤ
remaining now none b = sub_ℕ b.reset_after 0
remaining now (some t) b = sub_ℕ (b.reset_after + t) now

-- The clock is read twice: for the test, and for the time that the exception carries.
unfoldable pub raise_if_open : ℕ → ℕ → CircuitBreaker → Option Failure × CircuitBreaker
unfolding is_open remaining
raise_if_open now later b =
    let (shut_out, b') = is_open now b in
    (if shut_out then some (circuit_open b'.name (remaining later b'.opened_at b')) else none, b')
