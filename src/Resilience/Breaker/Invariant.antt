-- ===== src/Resilience/Breaker/Invariant.antt =====
-- What holds of a breaker between any two calls, and when it lets a request through.
use omnicare_genai_assessmen.Prelude.{
  ℕ, ◌+◌, ◌≤◌, ◌<◌, ◌≡◌, true, false, Option, none, some, List, [], ◌∷◌, arith,
}
use omnicare_genai_assessmen.Prelude.Int.{sub_ℕ}
use omnicare_genai_assessmen.Resilience.Breaker.{
  CircuitBreaker, is_open, record_success, record_failure, raise_if_open, remaining, circuit_open,
}

abbrev pub Agrees : Option ℕ → ℕ → ℕ → Type 0
Agrees none failures threshold = failures < threshold
Agrees (some _) failures threshold = threshold ≤ failures

-- The circuit is open exactly while the failures have reached the threshold.
pub record IsValid (b : CircuitBreaker) : Type 0 where
  pub positive : 0 < b.failure_threshold
  pub agrees : Agrees b.opened_at b.failures b.failure_threshold

-- The calls that a client makes, each with the clock that it reads.
pub data Call : Type 0 where
  ask : ℕ → Call
  succeed : Call
  fail : ℕ → Call

unfoldable pub apply : CircuitBreaker → Call → CircuitBreaker
apply b (ask now) = (is_open now b).1
apply b succeed = record_success b
apply b (fail now) = record_failure now b

pub replay : CircuitBreaker → List Call → CircuitBreaker
unfolding apply
replay b [] = b
replay b (c ∷ cs) = replay (apply b c) cs

pub apply-IsValid : (b : CircuitBreaker) (c : Call) → IsValid b → IsValid (apply b c)
unfolding apply is_open record_success record_failure
apply-IsValid b (ask now) v = ground arith
apply-IsValid b succeed v = ground arith
apply-IsValid b (fail now) v = ground arith

-- From a breaker whose state agrees with its counter, any calls at any times leave such a breaker.
pub replay-IsValid : (b : CircuitBreaker) (cs : List Call) → IsValid b → IsValid (replay b cs)
unfolding replay
replay-IsValid b [] v = v
replay-IsValid b (c ∷ cs) v = replay-IsValid (apply b c) cs (apply-IsValid b c v)

pub init-IsValid :
    (b : CircuitBreaker) → 0 < b.failure_threshold → b.failures ≡ 0 → b.opened_at ≡ none → IsValid b
init-IsValid b p q r = ground arith

-- A circuit that opened at `t` answers "open" and keeps its state exactly until `reset_after`
-- later.
pub is_open-until_reset :
    (b : CircuitBreaker) (t now : ℕ)
    → b.opened_at ≡ some t
    → (now < t + b.reset_after → is_open now b ≡ (true, b))
      × (t + b.reset_after ≤ now
          → ((is_open now b).0 ≡ false) × ((is_open now b).1.opened_at ≡ none))
unfolding is_open
is_open-until_reset b t now h = ground arith

-- The request that the half-open circuit lets through decides: a failure opens it again at once, a
-- success clears the counter.
half_open-decides :
    (b : CircuitBreaker) (t now later : ℕ)
    → IsValid b
    → b.opened_at ≡ some t
    → t + b.reset_after ≤ now
    → let probe = (is_open now b).1 in
      ((record_failure later probe).opened_at ≡ some later)
      × ((record_success probe).failures ≡ 0)
      × ((record_success probe).opened_at ≡ none)
unfolding is_open record_success record_failure
half_open-decides b t now later v h e = ground arith

-- An open circuit refuses a request with the time that is left, and keeps its state.
pub raise_if_open-until_reset :
    (b : CircuitBreaker) (t now later : ℕ)
    → b.opened_at ≡ some t
    → now < t + b.reset_after
    → raise_if_open now later b ≡ (some (circuit_open b.name (sub_ℕ (b.reset_after + t) later)), b)
unfolding raise_if_open remaining
raise_if_open-until_reset b t now later h early =
    let e : is_open now b ≡ (true, b) = (is_open-until_reset b t now h).0 early in ground (arith, e)
