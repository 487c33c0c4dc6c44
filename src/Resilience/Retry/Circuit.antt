-- ===== src/Resilience/Retry/Circuit.antt =====
-- What a run makes of the circuit breaker that guards it.
use omnicare_genai_assessmen.Prelude.{
  ℕ, zero, suc, ◌+◌, ◌-◌, ◌<◌, ◌≡◌, refl, Option, none, some, [], arith, inl, inr, leb, ◌==◌, ◌||◌,
  Bool-cases,
}
use omnicare_genai_assessmen.Prelude.Int.{sub_ℕ}
use mathlib.Core.Option
use omnicare_genai_assessmen.Resilience.Breaker.{
  Failure, permanent, circuit_open, CircuitBreaker, record_failure, record_success, raise_if_open,
}
use omnicare_genai_assessmen.Resilience.Breaker.Invariant.{
  IsValid, ask, succeed, fail, apply, apply-IsValid, raise_if_open-until_reset,
}
use omnicare_genai_assessmen.Resilience.Retry.{
  RetryPolicy, Outcome, returns, raises, Attempt, Run, gate, delay_after, again, after_call,
  behind_gate, attempt_from, call_with_retry,
}

-- The breaker, where there is one, agrees with its counter.
abbrev pub Agreeing : Option CircuitBreaker → Type 0
Agreeing none = Unit
Agreeing (some b) = IsValid b

-- The breaker, where there is one, is closed and has no failures.
abbrev pub Cleared : Option CircuitBreaker → Type 0
Cleared none = Unit
Cleared (some b) = (b.failures ≡ 0) × (b.opened_at ≡ none)

gate-Agreeing :
    (br : Option CircuitBreaker) (now later : ℕ) → Agreeing br → Agreeing (gate br now later).1
unfolding gate raise_if_open
gate-Agreeing none now later v = tt
gate-Agreeing (some b) now later v = unfold apply in apply-IsValid b (ask now) v

failed-Agreeing :
    (br : Option CircuitBreaker) (now : ℕ)
    → Agreeing br
    → Agreeing (Option.map (record_failure now) br)
failed-Agreeing none now v = tt
failed-Agreeing (some b) now v = unfold apply in apply-IsValid b (fail now) v

succeeded-Agreeing :
    (br : Option CircuitBreaker) → Agreeing br → Agreeing (Option.map record_success br)
succeeded-Agreeing none v = tt
succeeded-Agreeing (some b) v = unfold apply in apply-IsValid b succeed v

succeeded-Cleared : (br : Option CircuitBreaker) → Cleared (Option.map record_success br)
unfolding record_success
succeeded-Cleared none = tt
succeeded-Cleared (some b) = (refl, refl)

module _ {ℓ} {A : Type ℓ} (policy : RetryPolicy) (env : ℕ → Attempt A) where
  record IsSettled (r : Run A) : Type ℓ where
    agreeing : Agreeing r.breaker
    cleared : (a : A) → r.result ≡ returns a → Cleared r.breaker

  module _ (rest : Option Failure → Option CircuitBreaker → Run A)
      (settled : (l : Option Failure) (b : Option CircuitBreaker)
        → Agreeing b
        → IsSettled (rest l b)) where
    again-IsSettled :
        (k : ℕ) (e : Failure) (br : Option CircuitBreaker)
        → Agreeing br
        → IsSettled (again policy env rest k e br)
    unfolding again
    again-IsSettled k e br v =
        let br' = Option.map (record_failure (env k).failed_at) br in
        let v' : Agreeing br' = failed-Agreeing br (env k).failed_at v in
        let delay = delay_after policy (env k).uniform k e in
        elim (Bool-cases
          ((k == policy.attempts - 1) || leb policy.deadline ((env k).elapsed + delay))) [
            | inl t ↦ rw t (record { agreeing = v'; cleared = λ a h. cc })
            | inr f ↦ rw f (record {
              agreeing = (settled (some e) br' v').agreeing;
              cleared = (settled (some e) br' v').cleared;
            })
          ]

    after_call-IsSettled :
        (k : ℕ) (o : Outcome A) (br : Option CircuitBreaker)
        → Agreeing br
        → IsSettled (after_call policy env rest k o br)
    unfolding after_call
    after_call-IsSettled k (returns a) br v = record {
      agreeing = succeeded-Agreeing br v;
      cleared = λ b h. succeeded-Cleared br;
    }
    after_call-IsSettled k (raises (permanent m)) br v = record {
      agreeing = succeeded-Agreeing br v;
      cleared = λ b h. succeeded-Cleared br;
    }
    after_call-IsSettled k (raises e) br v = again-IsSettled k e br v

    behind_gate-IsSettled :
        (k : ℕ) (shut : Option Failure) (br : Option CircuitBreaker)
        → Agreeing br
        → IsSettled (behind_gate policy env rest k shut br)
    unfolding behind_gate
    behind_gate-IsSettled k (some e) br v = record { agreeing = v; cleared = λ a h. cc }
    behind_gate-IsSettled k none br v = after_call-IsSettled k (env k).outcome br v

  attempt_from-IsSettled :
      (left k : ℕ) (last : Option Failure) (br : Option CircuitBreaker)
      → Agreeing br
      → IsSettled (attempt_from policy env left k last br)
  unfolding attempt_from
  attempt_from-IsSettled zero k last br v = record { agreeing = v; cleared = λ a h. cc }
  attempt_from-IsSettled (suc left) k last br v =
      let (shut, br') = gate br (env k).gate_now (env k).gate_later in
      behind_gate-IsSettled (attempt_from policy env left (suc k))
        (λ l b. attempt_from-IsSettled left (suc k) l b) k shut br'
        (gate-Agreeing br (env k).gate_now (env k).gate_later v)

  -- A run keeps the breaker's state in agreement with its counter, and a run that returns a value
  -- leaves the circuit closed with no failures counted.
  pub call_with_retry-IsSettled :
      (br : Option CircuitBreaker)
      → Agreeing br
      → let r = call_with_retry policy env br in
        Agreeing r.breaker × ((a : A) → r.result ≡ returns a → Cleared r.breaker)
  unfolding call_with_retry
  call_with_retry-IsSettled br v =
      let s = attempt_from-IsSettled policy.attempts 0 none br v in (s.agreeing, s.cleared)

  abbrev pub refused : CircuitBreaker → ℕ → Run A
  refused b t = record {
    result = raises (circuit_open b.name (sub_ℕ (b.reset_after + t) (env 0).gate_later));
    breaker = some b;
    calls = 0;
    sleeps = [];
  }

  attempt_from-open :
      (left : ℕ) (b : CircuitBreaker) (t : ℕ)
      → 0 < left
      → b.opened_at ≡ some t
      → (env 0).gate_now < t + b.reset_after
      → attempt_from policy env left 0 none (some b) ≡ refused b t
  unfolding attempt_from gate behind_gate
  attempt_from-open zero b t h opened early = absurd (omega arith)
  attempt_from-open (suc left) b t h opened early =
      rw (raise_if_open-until_reset b t (env 0).gate_now (env 0).gate_later opened early)

  -- While the circuit is open the provider is not called and nothing is slept: the run raises
  -- `CircuitOpen` with the time left, and the breaker stays as it is.
  pub call_with_retry-open :
      (b : CircuitBreaker) (t : ℕ)
      → 0 < policy.attempts
      → b.opened_at ≡ some t
      → (env 0).gate_now < t + b.reset_after
      → call_with_retry policy env (some b) ≡ refused b t
  unfolding call_with_retry
  call_with_retry-open b t some_attempt opened early =
      attempt_from-open policy.attempts b t some_attempt opened early
