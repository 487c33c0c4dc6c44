-- ===== src/Graph/Confidence.antt =====
-- `_confidence_for` of backend/agent/app/graph/nodes.py. A confidence is a number of units, of
-- which `u` make one hundredth.
pub mod Caps
use omnicare_genai_assessmen.Prelude.{ℕ, ◌*◌, Bool, true, false, Option, none, some, min}

-- Why a confidence is low.
pub data Reason : Type 0 where
  does_not_answer nothing_retrieved part_removed : Reason

abbrev pub ungrounded_cap : ℕ → ℕ
ungrounded_cap u = 30 * u

abbrev pub rewritten_cap : ℕ → ℕ
rewritten_cap u = 50 * u

abbrev pub grounded : ℕ → ℕ
grounded u = 85 * u

-- `min(claimed, cap) if claimed is not None else cap`
abbrev pub under : ℕ → Option ℕ → Option ℕ
under cap none = some cap
under cap (some c) = some (min c cap)

pub record Evidence : Type 0 where
  pub unknown : Bool
  pub retrieved : Bool
  pub rewritten : Bool
  pub makes_a_policy_claim : Bool

weigh : ℕ → Option ℕ → Bool → Bool → Bool → Bool → Option ℕ × Option Reason
weigh u claimed true retrieved rewritten makes = (some 0, some does_not_answer)
weigh u claimed false retrieved rewritten false = (claimed, none)
weigh u claimed false false rewritten true =
    (under (ungrounded_cap u) claimed, some nothing_retrieved)
weigh u claimed false true true true = (under (rewritten_cap u) claimed, some part_removed)
weigh u claimed false true false true = (under (grounded u) claimed, none)

unfoldable pub confidence_for : ℕ → Option ℕ → Evidence → Option ℕ × Option Reason
unfolding weigh
confidence_for u claimed e =
    weigh u claimed e.unknown e.retrieved e.rewritten e.makes_a_policy_claim
