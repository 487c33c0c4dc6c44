-- ===== src/Resilience/Fallback/Routes.antt =====
-- Which provider answers, and which errors come back.
use omnicare_genai_assessmen.Prelude.{
  ℕ, ◌+◌, ◌<◌, ◌≡◌, ◌⊎◌, inl, inr, refl, sym, Bool, true, false, none, some, ap, ◌∙◌,
}
use omnicare_genai_assessmen.Text.{Text}
use omnicare_genai_assessmen.Resilience.Breaker.{Failure, transient, permanent, circuit_open, other}
use omnicare_genai_assessmen.Resilience.Retry.{
  RetryPolicy, Outcome, returns, raises, Attempt, Run, call_with_retry,
}
use omnicare_genai_assessmen.Resilience.Retry.Circuit.{call_with_retry-open}
use omnicare_genai_assessmen.Resilience.Retry.Outcomes.{FromLast, call_with_retry_trace}
use omnicare_genai_assessmen.Resilience.Fallback.{
  ChatModel, after_primary, after_fallback, fall_back, fall_back_if, ainvoke,
}

module _ {ℓ} {A : Type ℓ} (primary fallback : ℕ → Attempt A) (m : ChatModel) where
  abbrev pub primary_run : Run A
  primary_run = call_with_retry m.policy primary (some m.breaker)

  abbrev pub fallback_run : Run A
  fallback_run = call_with_retry m.policy fallback none

  -- Errors for which another provider is tried.
  abbrev pub IsOutage : Outcome A → Type 0
  IsOutage (raises (circuit_open n t)) = Unit
  IsOutage (raises (transient t r)) = Unit
  IsOutage _ = ⊥

  abbrev pub Answered : A → ChatModel → Type ℓ
  Answered a m' =
      ((m'.active ≡ m.primary_name) × FromLast primary 0 primary_run.calls a)
      ⊎ ((m'.active ≡ m.fallback_name)
          × IsOutage primary_run.result
          × FromLast fallback 0 fallback_run.calls a)

  module _ (m' : ChatModel)
      (names : (m'.primary_name ≡ m.primary_name)
        × (m'.fallback_name ≡ m.fallback_name)
        × (m'.policy ≡ m.policy)) where
    after_fallback-Answered :
        (o : Outcome A) (a : A)
        → IsOutage primary_run.result
        → o ≡ fallback_run.result
        → (after_fallback primary fallback m' o).0 ≡ returns a
        → Answered a (after_fallback primary fallback m' o).1
    unfolding after_fallback
    after_fallback-Answered (returns b) a out e h =
        inr (names.1, out, (call_with_retry_trace m.policy fallback none).1 a (sym e ∙ h))
    after_fallback-Answered (raises x) a out e h = cc

    fall_back_if-Answered :
        (has : Bool) (x : Failure) (a : A)
        → IsOutage primary_run.result
        → (fall_back_if primary fallback has m' x).0 ≡ returns a
        → Answered a (fall_back_if primary fallback has m' x).1
    unfolding fall_back_if
    fall_back_if-Answered false x a out h = cc
    fall_back_if-Answered true x a out h =
        after_fallback-Answered (call_with_retry m'.policy fallback none).result a out
          (ap (λ (p : RetryPolicy). (call_with_retry p fallback none).result) names.2) h

    after_primary-Answered :
        (o : Outcome A) (a : A)
        → primary_run.result ≡ o
        → (after_primary primary fallback m' o).0 ≡ returns a
        → Answered a (after_primary primary fallback m' o).1
    unfolding after_primary fall_back
    after_primary-Answered (returns b) a e h =
        inl (names.0, (call_with_retry_trace m.policy primary (some m.breaker)).1 a (e ∙ h))
    after_primary-Answered (raises (circuit_open n t)) a e h =
        fall_back_if-Answered m'.has_fallback (circuit_open n t) a (rw e tt) h
    after_primary-Answered (raises (transient t r)) a e h =
        fall_back_if-Answered m'.has_fallback (transient t r) a (rw e tt) h
    after_primary-Answered (raises (permanent t)) a e h = cc
    after_primary-Answered (raises (other t)) a e h = cc

  -- A value that comes back was returned by the last call to the provider that is then named as
  -- active: by the primary, or by the fallback after the primary's run ended in an open circuit or
  -- in a transient failure.
  pub ainvoke-Answered :
      (a : A)
      → (ainvoke primary fallback m).0 ≡ returns a
      → Answered a (ainvoke primary fallback m).1
  unfolding ainvoke
  ainvoke-Answered a h = after_primary-Answered _ (refl, refl, refl) primary_run.result a refl h

  -- A failure that is not worth retrying comes back as it is, also where a fallback is configured.
  pub ainvoke-permanent :
      (t : Text)
      → primary_run.result ≡ raises (permanent t)
      → (ainvoke primary fallback m).0 ≡ raises (permanent t)
  unfolding ainvoke after_primary
  ainvoke-permanent t h = rw h

  result-after_fallback :
      (k : ChatModel) (o : Outcome A) → (after_fallback primary fallback k o).0 ≡ o
  unfolding after_fallback
  result-after_fallback k (returns a) = refl
  result-after_fallback k (raises x) = refl

  fall_back_if-has :
      (has : Bool) (k : ChatModel) (x : Failure)
      → has ≡ true
      → (fall_back_if primary fallback has k x).0 ≡ (call_with_retry k.policy fallback none).result
  unfolding fall_back_if
  fall_back_if-has true k x h = result-after_fallback k _
  fall_back_if-has false k x h = cc

  -- While the primary's circuit is open, what comes back is the fallback's result, and the primary
  -- is not called.
  ainvoke-open :
      (t : ℕ)
      → m.has_fallback ≡ true
      → 0 < m.policy.attempts
      → m.breaker.opened_at ≡ some t
      → (primary 0).gate_now < t + m.breaker.reset_after
      → ((ainvoke primary fallback m).0 ≡ fallback_run.result) × (primary_run.calls ≡ 0)
  unfolding ainvoke after_primary fall_back
  ainvoke-open t has some_attempt opened early =
      let e = call_with_retry-open m.policy primary m.breaker t some_attempt opened early in
      (rw e (fall_back_if-has m.has_fallback _ _ has), ap (λ (r : Run A). r.calls) e)
