-- ===== src/Resilience/Egress/Spacing.antt =====
-- What the limiter holds back, and what it lets through.
use omnicare_genai_assessmen.Prelude.{
  ℕ, ◌+◌, ◌*◌, ◌≤◌, ◌<◌, ◌≡◌, refl, List, [], ◌∷◌, ◌++◌, arith, length,
}
use omnicare_genai_assessmen.Resilience.Egress.{
  Limiter, Readings, total, minute, pruned, hold, over_budget, acquire,
}

module _ (second : ℕ) where
  -- No wait of a call to `acquire` ends before the time that it asks for.
  abbrev pub IsHonest : Limiter → Readings → Type 0
  IsHonest l r = (hold second l r).0 + (acquire second l r).0.1 ≤ r.stamp

  unfoldable pub acquire_all : Limiter → List Readings → Limiter
  acquire_all l [] = l
  acquire_all l (r ∷ rs) = acquire_all (acquire second l r).1 rs

  abbrev pub AllHonest : Limiter → List Readings → Type 0
  AllHonest l [] = Unit
  AllHonest l (r ∷ rs) = IsHonest l r × AllHonest (acquire second l r).1 rs

  acquire_spacing :
      (l : Limiter) (r : Readings)
      → IsHonest l r
      → (l.last + l.min_interval ≤ (acquire second l r).1.last)
        × ((acquire second l r).1.min_interval ≡ l.min_interval)
  unfolding acquire
  acquire_spacing l r h = (omega arith, refl)

  -- However full the ledger is: if no wait ends early, any number of calls in a row are stamped at
  -- least that many intervals after the last call before them.
  pub acquire_all_spacing :
      (l : Limiter) (rs : List Readings)
      → AllHonest l rs
      → l.last + length rs * l.min_interval ≤ (acquire_all l rs).last
  unfolding acquire_all
  acquire_all_spacing l [] h = omega arith
  acquire_all_spacing l (r ∷ rs) h =
      let (spaced, same) = acquire_spacing l r h.0 in
      let later = acquire_all_spacing (acquire second l r).1 rs h.1 in
      omega (arith, rw same at later)

  total-append : (a b : List (ℕ × ℕ)) → total (a ++ b) ≡ total a + total b
  total-append [] b = omega arith
  total-append (e ∷ a) b = omega (arith, total-append a b)

  -- The token budget is not a ceiling: one wait lets only the oldest entries age out, so a call
  -- goes ahead although a younger entry and the new reservation together exceed the budget.
  pub acquire_over_budget :
      (l : Limiter) (r : Readings) (old young a b : ℕ)
      → l.ledger ≡ (old, a) ∷ (young, b) ∷ []
      → 0 < l.tokens_per_minute
      → r.now < old + minute second
      → old + minute second ≤ r.after_wait
      → r.after_wait < young + minute second
      → r.now < young + minute second
      → l.tokens_per_minute < b + l.estimate
      → l.tokens_per_minute < total (acquire second l r).1.ledger
  unfolding acquire hold pruned over_budget
  acquire_over_budget l r old young a b e on fresh aged later young_now over = ground arith
