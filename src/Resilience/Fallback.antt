-- ===== src/Resilience/Fallback.antt =====
-- `classify` and `ResilientChatModel.ainvoke` of backend/agent/app/providers/resilient.py.
pub mod Routes
use omnicare_genai_assessmen.Prelude.{
  ℕ, ◌<◌, String, Bool, true, false, ◌&&◌, ◌||◌, Option, none, some, List, [], ◌∷◌, any, leb, ltb,
  ◌==◌, if◌then◌else◌,
}
use omnicare_genai_assessmen.Text.{Text, codes, lower, contains}
use omnicare_genai_assessmen.Resilience.Breaker.{
  Failure, transient, permanent, circuit_open, other, CircuitBreaker,
}
use omnicare_genai_assessmen.Resilience.Retry.{
  RetryPolicy, Outcome, returns, raises, Attempt, Run, call_with_retry,
}
use mathlib.Core.Option

-- What `classify` reads of a provider's exception.
pub record ProviderError : Type 0 where
  pub status_code : Option ℕ
  pub http_status : Option ℕ
  pub message : Text
  pub retry_after : Option ℕ

-- `a or b`, which passes over `None` and 0.
abbrev or_status : Option ℕ → Option ℕ → Option ℕ
or_status none b = b
or_status (some n) b = if n == 0 then b else some n

unfoldable pub status_of : ProviderError → Option ℕ
status_of e = or_status e.status_code e.http_status

abbrev is_one_of : List ℕ → Option ℕ → Bool
is_one_of ns none = false
is_one_of ns (some s) = any (λ n. s == n) ns

abbrev is_server_error : Option ℕ → Bool
is_server_error none = false
is_server_error (some s) = leb 500 s && ltb s 600

abbrev mentions : List String → Text → Bool
mentions hints t = any (λ h. contains (codes h) t) hints

abbrev pub rejected_status : List ℕ
rejected_status = 400 ∷ 401 ∷ 403 ∷ 404 ∷ 422 ∷ []

-- `_PERMANENT_HINTS`
abbrev pub permanent_hints : List String
permanent_hints =
    "invalid_api_key" ∷ "authentication" ∷ "unauthorized" ∷ "forbidden" ∷ "model_not_found"
    ∷ "does not exist" ∷ "invalid_request_error" ∷ "context_length" ∷ "maximum context" ∷ []

-- The last two tests of the source return what the code below them returns.
unfoldable pub classify : ProviderError → Failure
unfolding status_of
classify e =
    let text = lower e.message in
    if is_one_of rejected_status (status_of e)
    then permanent e.message
    else if mentions permanent_hints text
    then permanent e.message
    else if is_one_of (429 ∷ []) (status_of e)
        || mentions ("rate limit" ∷ "too many requests" ∷ []) text
    then (if mentions ("per day" ∷ "tpd" ∷ "rpd" ∷ []) text
        then permanent e.message
        else transient e.message e.retry_after)
    else if is_server_error (status_of e)
    then transient e.message none
    else if mentions ("timeout" ∷ "timed out" ∷ "connection" ∷ "temporarily" ∷ []) text
    then transient e.message none
    else transient e.message none

pub record ChatModel : Type 0 where
  pub primary_name : String
  pub fallback_name : String
  pub has_fallback : Bool
  pub policy : RetryPolicy
  pub breaker : CircuitBreaker
  pub active : String

abbrev breaker_or : CircuitBreaker → Option CircuitBreaker → CircuitBreaker
breaker_or b none = b
breaker_or b (some b') = b'

module _ {ℓ} {A : Type ℓ} (primary fallback : ℕ → Attempt A) where
  unfoldable pub after_fallback : ChatModel → Outcome A → Outcome A × ChatModel
  after_fallback m (returns a) = (returns a, record m { active = m.fallback_name })
  after_fallback m (raises e) = (raises e, m)

  -- `if self.fallback is None: raise`
  unfoldable pub fall_back_if : Bool → ChatModel → Failure → Outcome A × ChatModel
  unfolding after_fallback
  fall_back_if false m e = (raises e, m)
  fall_back_if true m e = after_fallback m (call_with_retry m.policy fallback none).result

  unfoldable pub fall_back : ChatModel → Failure → Outcome A × ChatModel
  unfolding fall_back_if
  fall_back m e = fall_back_if m.has_fallback m e

  unfoldable pub after_primary : ChatModel → Outcome A → Outcome A × ChatModel
  unfolding fall_back
  after_primary m (returns a) = (returns a, record m { active = m.primary_name })
  after_primary m (raises (circuit_open n t)) = fall_back m (circuit_open n t)
  after_primary m (raises (transient t r)) = fall_back m (transient t r)
  after_primary m (raises e) = (raises e, m)

  -- The breaker is an object that the primary's run changes.
  unfoldable pub ainvoke : ChatModel → Outcome A × ChatModel
  unfolding after_primary
  ainvoke m =
      let run = call_with_retry m.policy primary (some m.breaker) in
      after_primary (record m { breaker = breaker_or m.breaker run.breaker }) run.result
