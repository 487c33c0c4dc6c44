-- ===== src/Resilience/Egress.antt =====
-- `EgressLimiter` of backend/agent/app/providers/resilient.py. Times are in ticks, of which a
-- second has four or a multiple of four; `0.25` is a quarter of a second. The smoothed estimate is
-- computed in floats and is a parameter of `record_usage`.
pub mod Spacing
use omnicare_genai_assessmen.Prelude.{
  ℕ, ◌+◌, ◌-◌, ◌*◌, ◌/◌, max, Bool, true, false, ◌&&◌, not, Option, none, some, List, [], ◌∷◌, ◌++◌,
  ltb, leb, ◌==◌, if◌then◌else◌, keep,
}

pub record Limiter : Type 0 where
  pub min_interval : ℕ
  pub tokens_per_minute : ℕ
  pub last : ℕ
  pub ledger : List (ℕ × ℕ)
  pub estimate : ℕ

-- `60.0 / max(requests_per_minute, 1)`, rounded down to a tick.
unfoldable pub init : ℕ → ℕ → ℕ → Limiter
init second requests_per_minute tokens_per_minute = record {
  min_interval = 60 * second / max requests_per_minute 1;
  tokens_per_minute = tokens_per_minute;
  last = 0;
  ledger = [];
  estimate = 2000;
}

abbrev pub total : List (ℕ × ℕ) → ℕ
total [] = 0
total ((t, n) ∷ rest) = n + total rest

-- The clock as `acquire` reads it: on entry, after the first wait, and when the call is stamped.
pub record Readings : Type 0 where
  pub now : ℕ
  pub after_wait : ℕ
  pub stamp : ℕ

abbrev first_time : List (ℕ × ℕ) → ℕ
first_time [] = 0
first_time ((t, n) ∷ rest) = t

abbrev is_empty : List (ℕ × ℕ) → Bool
is_empty [] = true
is_empty _ = false

module _ (second : ℕ) where
  abbrev pub minute : ℕ
  minute = 60 * second

  -- `_spent_last_minute`: the entries that are left, whose tokens `total` adds.
  unfoldable pub pruned : ℕ → List (ℕ × ℕ) → List (ℕ × ℕ)
  pruned now ledger = keep (λ (e : ℕ × ℕ). ltb now (e.0 + minute)) ledger

  -- `spent + self._estimate > self.tokens_per_minute and self._ledger`
  unfoldable pub over_budget : Limiter → List (ℕ × ℕ) → Bool
  over_budget l ledger =
      ltb l.tokens_per_minute (total ledger + l.estimate) && not (is_empty ledger)

  -- The first half of `acquire`: the time at which it goes on, its wait, and the ledger then.
  unfoldable pub hold : Limiter → Readings → ℕ × ℕ × List (ℕ × ℕ)
  unfolding pruned over_budget
  hold l r =
      if ltb 0 l.tokens_per_minute
      then (let ledger = pruned r.now l.ledger in
          if over_budget l ledger
          then (
            r.after_wait,
            (first_time ledger + minute - r.now) + second / 4,
            pruned r.after_wait ledger,
          )
          else (r.now, 0, ledger))
      else (r.now, 0, l.ledger)

  -- The waits that were asked for, and the new state.
  unfoldable pub acquire : Limiter → Readings → (ℕ × ℕ) × Limiter
  unfolding hold
  acquire l r =
      let (now, budget_wait, ledger) = hold l r in
      (
        (budget_wait, l.last + l.min_interval - now),
        record l { last = r.stamp; ledger = ledger ++ ((r.stamp, l.estimate) ∷ []) },
      )

abbrev replace_last : List (ℕ × ℕ) → ℕ → List (ℕ × ℕ)
replace_last [] n = []
replace_last ((t, m) ∷ []) n = (t, n) ∷ []
replace_last (a ∷ b ∷ rest) n = a ∷ replace_last (b ∷ rest) n

abbrev drop_last : List (ℕ × ℕ) → List (ℕ × ℕ)
drop_last [] = []
drop_last (a ∷ []) = []
drop_last (a ∷ b ∷ rest) = a ∷ drop_last (b ∷ rest)

-- `record`, with `smooth e n` for `int(0.7 * e + 0.3 * n)`.
unfoldable pub record_usage : (ℕ → ℕ → ℕ) → Limiter → ℕ → Limiter
record_usage smooth l tokens =
    if is_empty l.ledger
    then l
    else if tokens == 0
    then record l { ledger = drop_last l.ledger }
    else record l { ledger = replace_last l.ledger tokens; estimate = smooth l.estimate tokens }
