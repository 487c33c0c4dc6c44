-- ===== src/Resilience/Retry/Outcomes.antt =====
-- Which failures a run retries, and what it returns or raises.
use omnicare_genai_assessmen.Prelude.{
  ℕ, zero, suc, ◌+◌, ◌-◌, ◌<◌, ◌≡◌, ◌∙◌, refl, Option, none, some, arith, ap, inl, inr, leb, ◌==◌,
  ◌||◌, Bool-cases,
}
use mathlib.Core.Option
use mathlib.Core.Path.{subst}
use native.Mathlib.Nat.{add-zero}
use omnicare_genai_assessmen.Resilience.Breaker.{Failure, permanent, CircuitBreaker, record_failure}
use omnicare_genai_assessmen.Resilience.Retry.{
  RetryPolicy, Outcome, returns, raises, Attempt, Run, gate, delay_after, again, after_call,
  behind_gate, attempt_from, call_with_retry,
}

abbrev pub IsRetryable {ℓ} : {A : Type ℓ} → Outcome A → Type 0
IsRetryable (returns a) = ⊥
IsRetryable (raises (permanent m)) = ⊥
IsRetryable (raises e) = Unit

module _ {ℓ} {A : Type ℓ} (env : ℕ → Attempt A) where
  -- Among `n` calls from attempt `k` on, every one but the last met a failure worth retrying.
  abbrev pub RetriesOnly : ℕ → ℕ → Type 0
  RetriesOnly k n = (j : ℕ) → suc j < n → IsRetryable (env (k + j)).outcome

  -- The value is that of the last of `n` calls from attempt `k` on.
  abbrev pub FromLast : ℕ → ℕ → A → Type ℓ
  FromLast k n a = (j : ℕ) × (n ≡ suc j) × ((env (k + j)).outcome ≡ returns a)

  RetriesOnly-suc :
      (k n : ℕ) → IsRetryable (env k).outcome → RetriesOnly (suc k) n → RetriesOnly k (suc n)
  RetriesOnly-suc k n ok h zero lt = rw add-zero ok
  RetriesOnly-suc k n ok h (suc j) lt =
      let e : suc k + j ≡ k + suc j = omega arith in
      subst (λ (i : ℕ). IsRetryable (env i).outcome) e (h j (omega arith))

  FromLast-suc : (k n : ℕ) (a : A) → FromLast (suc k) n a → FromLast k (suc n) a
  FromLast-suc k n a (j, e, o) =
      let i : suc k + j ≡ k + suc j = omega arith in
      (suc j, ap suc e, subst (λ (m : ℕ). (env m).outcome ≡ returns a) i o)

  FromLast-one : (k : ℕ) (a : A) → (env k).outcome ≡ returns a → FromLast k 1 a
  FromLast-one k a o = (0, refl, rw add-zero o)

module _ {ℓ} {A : Type ℓ} (policy : RetryPolicy) (env : ℕ → Attempt A) where
  record Traced (k : ℕ) (r : Run A) : Type ℓ where
    only : RetriesOnly env k r.calls
    last : (a : A) → r.result ≡ returns a → FromLast env k r.calls a

  module _ (k : ℕ) (rest : Option Failure → Option CircuitBreaker → Run A)
      (traced : (l : Option Failure) (b : Option CircuitBreaker) → Traced (suc k) (rest l b)) where
    again-Traced :
        (e : Failure) (br : Option CircuitBreaker)
        → IsRetryable (env k).outcome
        → Traced k (again policy env rest k e br)
    unfolding again
    again-Traced e br ok =
        let br' = Option.map (record_failure (env k).failed_at) br in
        let delay = delay_after policy (env k).uniform k e in
        elim (Bool-cases
          ((k == policy.attempts - 1) || leb policy.deadline ((env k).elapsed + delay))) [
            | inl t ↦ rw t (record { only = λ j h. absurd (omega arith); last = λ a h. cc })
            | inr f ↦ rw f (record {
              only = RetriesOnly-suc env k _ ok (traced (some e) br').only;
              last = λ a h. FromLast-suc env k _ a ((traced (some e) br').last a h);
            })
          ]

    after_call-Traced :
        (o : Outcome A) (br : Option CircuitBreaker)
        → (env k).outcome ≡ o
        → Traced k (after_call policy env rest k o br)
    unfolding after_call
    after_call-Traced (returns a) br o = record {
      only = λ j h. absurd (omega arith);
      last = λ b h. FromLast-one env k b (o ∙ h);
    }
    after_call-Traced (raises (permanent m)) br o = record {
      only = λ j h. absurd (omega arith);
      last = λ a h. cc;
    }
    after_call-Traced (raises e) br o = again-Traced e br (rw o tt)

    behind_gate-Traced :
        (shut : Option Failure) (br : Option CircuitBreaker)
        → Traced k (behind_gate policy env rest k shut br)
    unfolding behind_gate
    behind_gate-Traced (some e) br = record { only = λ j h. absurd (omega arith); last = λ a h. cc }
    behind_gate-Traced none br = after_call-Traced (env k).outcome br refl

  attempt_from-Traced :
      (left k : ℕ) (last : Option Failure) (br : Option CircuitBreaker)
      → Traced k (attempt_from policy env left k last br)
  unfolding attempt_from
  attempt_from-Traced zero k last br = record {
    only = λ j h. absurd (omega arith);
    last = λ a h. cc;
  }
  attempt_from-Traced (suc left) k last br =
      let (shut, br') = gate br (env k).gate_now (env k).gate_later in
      behind_gate-Traced k (attempt_from policy env left (suc k))
        (λ l b. attempt_from-Traced left (suc k) l b) shut br'

  -- Only failures worth retrying are followed by another call, so no permanent error is retried;
  -- and a value that is returned is the one that the last call returned.
  pub call_with_retry_trace :
      (br : Option CircuitBreaker)
      → let r = call_with_retry policy env br in
        RetriesOnly env 0 r.calls × ((a : A) → r.result ≡ returns a → FromLast env 0 r.calls a)
  unfolding call_with_retry
  call_with_retry_trace br =
      let t = attempt_from-Traced policy.attempts 0 none br in (t.only, t.last)
