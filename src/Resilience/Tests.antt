-- ===== src/Resilience/Tests.antt =====
-- Runs of the breaker, the retry loop, the fallback and the limiter, and the theorems at them.
use omnicare_genai_assessmen.Prelude.{
  ℕ, zero, suc, ◌+◌, ◌*◌, ◌≤◌, ◌<◌, ◌≡◌, refl, true, none, some, List, [], ◌∷◌, arith,
}
use omnicare_genai_assessmen.Text.{codes, contains, lower, to_lower}
use omnicare_genai_assessmen.Resilience.Breaker.{
  Failure, transient, permanent, CircuitBreaker, record_failure, record_success, raise_if_open,
}
use omnicare_genai_assessmen.Resilience.Breaker.Invariant.{
  IsValid, ask, fail, Call, replay, replay-IsValid,
}
use omnicare_genai_assessmen.Resilience.Retry.{
  RetryPolicy, Outcome, returns, raises, Attempt, call_with_retry, attempt_from, gate, behind_gate,
  after_call, again, delay_after, backoff,
}
use omnicare_genai_assessmen.Resilience.Retry.Bounds.{total, call_with_retry_bounds, IsHonest}
use omnicare_genai_assessmen.Resilience.Retry.Outcomes.{
  RetriesOnly, FromLast, call_with_retry_trace,
}
use omnicare_genai_assessmen.Resilience.Retry.Circuit.{
  Agreeing, Cleared, call_with_retry-IsSettled, call_with_retry-open, refused,
}
use omnicare_genai_assessmen.Resilience.Fallback.{
  ChatModel, ainvoke, classify, status_of, after_primary, fall_back, fall_back_if, after_fallback,
}
use omnicare_genai_assessmen.Resilience.Fallback.Routes.{Answered, ainvoke-Answered}
use omnicare_genai_assessmen.Resilience.Egress.{
  Limiter, Readings, acquire, hold, over_budget, pruned,
}
use omnicare_genai_assessmen.Resilience.Egress.Spacing.{
  acquire_over_budget, acquire_all, acquire_all_spacing,
}
use omnicare_genai_assessmen.Resilience.Egress

abbrev fresh : CircuitBreaker
fresh = record {
  name = "llm:groq";
  failure_threshold = 2;
  reset_after = 30;
  failures = 0;
  opened_at = none;
}

abbrev tripped : CircuitBreaker
tripped = record fresh { failures = 2; opened_at = some 100 }

abbrev history : List Call
history = fail 90 ∷ ask 95 ∷ fail 100 ∷ ask 110 ∷ ask 131 ∷ fail 132 ∷ ask 140 ∷ []

replay-IsValid_example : IsValid (replay fresh history)
replay-IsValid_example = replay-IsValid fresh history (omega arith)

abbrev policy : RetryPolicy
policy = record { attempts = 3; base_delay = 2; max_delay = 10; deadline = 50 }

abbrev busy : Failure
busy = transient (codes "busy") none

abbrev flaky : ℕ → Outcome ℕ
flaky zero = raises busy
flaky (suc n) = returns 7

-- Each attempt starts 20 ticks after the one before, and the random delay is the ceiling.
abbrev flaky_env : ℕ → Attempt ℕ
flaky_env k = record {
  gate_now = 20 * k;
  gate_later = 20 * k;
  outcome = flaky k;
  failed_at = 20 * k + 1;
  elapsed = 20 * k + 1;
  uniform = λ c. c;
}

flaky_run :
    call_with_retry policy flaky_env (some fresh)
    ≡ record { result = returns 7; breaker = some fresh; calls = 2; sleeps = 2 ∷ [] }
unfolding call_with_retry attempt_from gate behind_gate after_call again delay_after backoff
    raise_if_open record_failure record_success
flaky_run = refl

flaky-IsHonest : IsHonest policy flaky_env
unfolding delay_after backoff
flaky-IsHonest zero = omega arith
flaky-IsHonest (suc k) = omega arith

call_with_retry_bounds_example :
    ((call_with_retry policy flaky_env (some fresh)).calls ≤ 3)
    × (total (call_with_retry policy flaky_env (some fresh)).sleeps < 50)
call_with_retry_bounds_example =
    call_with_retry_bounds policy flaky_env flaky-IsHonest (omega arith) (some fresh)

call_with_retry_trace_example :
    let r = call_with_retry policy flaky_env (some fresh) in
    RetriesOnly flaky_env 0 r.calls
    × ((a : ℕ) → r.result ≡ returns a → FromLast flaky_env 0 r.calls a)
call_with_retry_trace_example = call_with_retry_trace policy flaky_env (some fresh)

call_with_retry-IsSettled_example :
    let r = call_with_retry policy flaky_env (some fresh) in
    Agreeing r.breaker × ((a : ℕ) → r.result ≡ returns a → Cleared r.breaker)
call_with_retry-IsSettled_example =
    call_with_retry-IsSettled policy flaky_env (some fresh) (omega arith)

abbrev barred : CircuitBreaker
barred = record fresh { failures = 2; opened_at = some 0 }

call_with_retry-open_example :
    call_with_retry policy flaky_env (some barred) ≡ refused policy flaky_env barred 0
call_with_retry-open_example =
    call_with_retry-open policy flaky_env barred 0 (omega arith) refl (omega arith)

abbrev model : ChatModel
model = record {
  primary_name = "groq";
  fallback_name = "ollama";
  has_fallback = true;
  policy = policy;
  breaker = barred;
  active = "groq";
}

-- The circuit of the primary is open, and the fallback answers on its second call.
model_run : (ainvoke flaky_env flaky_env model).0 ≡ returns 7
unfolding ainvoke after_primary fall_back fall_back_if after_fallback call_with_retry attempt_from
    gate behind_gate after_call again delay_after backoff raise_if_open record_failure
    record_success
model_run = refl

ainvoke-Answered_example :
    Answered flaky_env flaky_env model 7 (ainvoke flaky_env flaky_env model).1
ainvoke-Answered_example = ainvoke-Answered flaky_env flaky_env model 7 model_run

-- A provider whose key is refused.
abbrev denied_env : ℕ → Attempt ℕ
denied_env k = record {
  gate_now = 20 * k;
  gate_later = 20 * k;
  outcome = raises (permanent (codes "invalid_api_key"));
  failed_at = 20 * k + 1;
  elapsed = 20 * k + 1;
  uniform = λ c. c;
}

abbrev denied : ChatModel
denied = record model { breaker = fresh }

abbrev limiter : Limiter
limiter = record {
  min_interval = 10;
  tokens_per_minute = 8000;
  last = 90;
  ledger = (10, 2000) ∷ (80, 7000) ∷ [];
  estimate = 2000;
}

abbrev readings : Readings
readings = record { now = 100; after_wait = 251; stamp = 260 }

acquire_over_budget_example : 8000 < Egress.total (acquire 4 limiter readings).1.ledger
acquire_over_budget_example =
    acquire_over_budget 4 limiter readings 10 80 2000 7000 refl (omega arith) (omega arith)
      (omega arith) (omega arith) (omega arith) (omega arith)

acquire_all_spacing_example : 90 + 1 * 10 ≤ (acquire_all 4 limiter (readings ∷ [])).last
acquire_all_spacing_example =
    acquire_all_spacing 4 limiter (readings ∷ [])
      (unfold hold over_budget pruned acquire in omega arith)

daily_limit :
    classify (record {
      status_code = some 429;
      http_status = none;
      message = codes "Rate limit: tokens per day (TPD)";
      retry_after = some 3;
    })
    ≡ permanent (codes "Rate limit: tokens per day (TPD)")
unfolding classify status_of contains lower to_lower
daily_limit = refl
