-- ===== src/Graph/Confidence/Caps.antt =====
-- What the model's own number does to the confidence in an answer.
use omnicare_genai_assessmen.Prelude.{
  ℕ, ◌*◌, ◌≤◌, ◌<◌, ◌≡◌, ◌↔◌, refl, Bool, true, false, ◌||◌, Option, none, some, min, arith,
}
use omnicare_genai_assessmen.Graph.Confidence.{Reason, Evidence, weigh, confidence_for, grounded}

abbrev pub is_given : Option Reason → Bool
is_given none = false
is_given (some r) = true

-- The confidence with a number of the model, beside the one without.
pub record Lowered (u c : ℕ) (bare claimed : Option ℕ × Option Reason) : Type 0 where
  pub evidence : ℕ
  pub result : ℕ
  pub from_evidence : bare.0 ≡ some evidence
  pub with_claim : claimed.0 ≡ some result
  pub never_raised : (result ≤ evidence) × (result ≤ c) × (evidence ≤ grounded u)
  pub same_reason : claimed.1 ≡ bare.1
  pub reason_given : (is_given bare.1 ≡ true) ↔ (evidence < grounded u)

weigh-Lowered :
    (u c : ℕ) (unknown retrieved rewritten makes : Bool)
    → 0 < u
    → (unknown || makes) ≡ true
    → Lowered u c
        (weigh u none unknown retrieved rewritten makes)
        (weigh u (some c) unknown retrieved rewritten makes)
unfolding weigh
weigh-Lowered u c true retrieved rewritten makes h k = record {
  evidence = 0;
  result = 0;
  from_evidence = refl;
  with_claim = refl;
  never_raised = (omega arith, omega arith, omega arith);
  same_reason = refl;
  reason_given = (λ g. omega arith, λ l. refl);
}
weigh-Lowered u c false retrieved rewritten false h k = absurd (ground (arith, k))
weigh-Lowered u c false false rewritten true h k = record {
  evidence = 30 * u;
  result = min c (30 * u);
  from_evidence = refl;
  with_claim = refl;
  never_raised = (omega arith, omega arith, omega arith);
  same_reason = refl;
  reason_given = (λ g. omega arith, λ l. refl);
}
weigh-Lowered u c false true true true h k = record {
  evidence = 50 * u;
  result = min c (50 * u);
  from_evidence = refl;
  with_claim = refl;
  never_raised = (omega arith, omega arith, omega arith);
  same_reason = refl;
  reason_given = (λ g. omega arith, λ l. refl);
}
weigh-Lowered u c false true false true h k = record {
  evidence = 85 * u;
  result = min c (85 * u);
  from_evidence = refl;
  with_claim = refl;
  never_raised = (omega arith, omega arith, omega arith);
  same_reason = refl;
  reason_given = (λ g. cc, λ l. absurd (omega arith));
}

-- On an answer that makes a policy claim or says that the policy does not answer, there is a
-- confidence of at most 0.85 with or without a number of the model. That number can lower it and
-- never raises it, and never changes the reason; a reason is given exactly when the evidence alone
-- brings the confidence below 0.85.
pub confidence_for-Lowered :
    (u c : ℕ) (e : Evidence)
    → 0 < u
    → (e.unknown || e.makes_a_policy_claim) ≡ true
    → Lowered u c (confidence_for u none e) (confidence_for u (some c) e)
unfolding confidence_for
confidence_for-Lowered u c e h k =
    weigh-Lowered u c e.unknown e.retrieved e.rewritten e.makes_a_policy_claim h k
