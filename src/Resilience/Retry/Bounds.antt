-- ===== src/Resilience/Retry/Bounds.antt =====
-- How often a run calls the provider, and how long it sleeps.
use omnicare_genai_assessmen.Prelude.{
  ℕ, zero, suc, ◌+◌, ◌≤◌, ◌<◌, ◌≡◌, ◌⊎◌, refl, Option, none, some, List, [], ◌∷◌, arith,
}
use mathlib.Core.Option
use omnicare_genai_assessmen.Resilience.Breaker.{Failure, permanent, CircuitBreaker, record_failure}
use omnicare_genai_assessmen.Resilience.Retry.{
  RetryPolicy, Outcome, returns, raises, Attempt, Run, gate, delay_after, again, after_call,
  behind_gate, attempt_from, call_with_retry,
}

abbrev pub total : List ℕ → ℕ
total [] = 0
total (d ∷ ds) = d + total ds

module _ {ℓ} {A : Type ℓ} (policy : RetryPolicy) (env : ℕ → Attempt A) where
  module _ (rest : Option Failure → Option CircuitBreaker → Run A) (n : ℕ)
      (bound : (l : Option Failure) (b : Option CircuitBreaker) → (rest l b).calls ≤ n) where
    again-calls :
        (k : ℕ) (e : Failure) (br : Option CircuitBreaker)
        → (again policy env rest k e br).calls ≤ suc n
    unfolding again
    again-calls k e br =
        ground (arith, bound (some e) (Option.map (record_failure (env k).failed_at) br))

    after_call-calls :
        (k : ℕ) (o : Outcome A) (br : Option CircuitBreaker)
        → (after_call policy env rest k o br).calls ≤ suc n
    unfolding after_call
    after_call-calls k (returns a) br = omega arith
    after_call-calls k (raises (permanent m)) br = omega arith
    after_call-calls k (raises e) br = again-calls k e br

    behind_gate-calls :
        (k : ℕ) (shut : Option Failure) (br : Option CircuitBreaker)
        → (behind_gate policy env rest k shut br).calls ≤ suc n
    unfolding behind_gate
    behind_gate-calls k (some e) br = omega arith
    behind_gate-calls k none br = after_call-calls k (env k).outcome br

  attempt_from-calls :
      (left k : ℕ) (last : Option Failure) (br : Option CircuitBreaker)
      → (attempt_from policy env left k last br).calls ≤ left
  unfolding attempt_from
  attempt_from-calls zero k last br = omega arith
  attempt_from-calls (suc left) k last br =
      let (shut, br') = gate br (env k).gate_now (env k).gate_later in
      behind_gate-calls (attempt_from policy env left (suc k)) left
        (λ l b. attempt_from-calls left (suc k) l b) k shut br'

  -- The delay that a failed attempt asks for.
  abbrev pub asked_delay : ℕ → Outcome A → ℕ
  asked_delay k (returns a) = 0
  asked_delay k (raises e) = delay_after policy (env k).uniform k e

  -- The clock runs at least as fast as the sleeps: none of them ends early.
  abbrev pub IsHonest : Type 0
  IsHonest = (k : ℕ) → (env k).elapsed + asked_delay k (env k).outcome ≤ (env (suc k)).elapsed

  abbrev Fits : ℕ → Run A → Type 0
  Fits start r = (total r.sleeps ≡ 0) ⊎ (start + total r.sleeps < policy.deadline)

  module _ (honest : IsHonest) (rest : Option Failure → Option CircuitBreaker → Run A) (k : ℕ)
      (fits : (l : Option Failure) (b : Option CircuitBreaker)
        → Fits (env (suc k)).elapsed (rest l b)) where
    again-Fits :
        (e : Failure) (br : Option CircuitBreaker)
        → (env k).outcome ≡ raises e
        → Fits (env k).elapsed (again policy env rest k e br)
    unfolding again
    again-Fits e br o =
        ground (arith, honest k, fits (some e) (Option.map (record_failure (env k).failed_at) br))

    after_call-Fits :
        (o : Outcome A) (br : Option CircuitBreaker)
        → (env k).outcome ≡ o
        → Fits (env k).elapsed (after_call policy env rest k o br)
    unfolding after_call
    after_call-Fits (returns a) br o = omega arith
    after_call-Fits (raises (permanent m)) br o = omega arith
    after_call-Fits (raises e) br o = again-Fits e br o

    behind_gate-Fits :
        (shut : Option Failure) (br : Option CircuitBreaker)
        → Fits (env k).elapsed (behind_gate policy env rest k shut br)
    unfolding behind_gate
    behind_gate-Fits (some e) br = omega arith
    behind_gate-Fits none br = after_call-Fits (env k).outcome br refl

  attempt_from-Fits :
      IsHonest
      → (left k : ℕ) (last : Option Failure) (br : Option CircuitBreaker)
      → Fits (env k).elapsed (attempt_from policy env left k last br)
  unfolding attempt_from
  attempt_from-Fits honest zero k last br = omega arith
  attempt_from-Fits honest (suc left) k last br =
      let (shut, br') = gate br (env k).gate_now (env k).gate_later in
      behind_gate-Fits honest (attempt_from policy env left (suc k)) k
        (λ l b. attempt_from-Fits honest left (suc k) l b) shut br'

  -- If no sleep ends early and the deadline is not 0, a run calls the provider at most `attempts`
  -- times, and its sleeps add up to less than the deadline.
  pub call_with_retry_bounds :
      IsHonest
      → 0 < policy.deadline
      → (br : Option CircuitBreaker)
      → ((call_with_retry policy env br).calls ≤ policy.attempts)
        × (total (call_with_retry policy env br).sleeps < policy.deadline)
  unfolding call_with_retry
  call_with_retry_bounds honest h br = omega (
    arith,
    attempt_from-calls policy.attempts 0 none br,
    attempt_from-Fits honest policy.attempts 0 none br,
  )
