-- ===== src/Graph/Guard.antt =====
-- The `guard` node of backend/agent/app/graph/nodes.py.
pub mod Turn
use omnicare_genai_assessmen.Prelude.{
  ℕ, zero, suc, Bool, true, false, ◌||◌, ◌&&◌, Option, none, some, List, [], ◌∷◌, ◌++◌,
  if◌then◌else◌, ltb,
}
use mathlib.Core.List.{reverse}
use omnicare_genai_assessmen.Text.{Text, codes}
use omnicare_genai_assessmen.Guardrails.Screen.{Rule, GuardVerdict, screen, forces_confirmation}
use omnicare_genai_assessmen.Guardrails.Normalize.{normalize_policy_number, normalize_claim_id}
use omnicare_genai_assessmen.Graph.State.{
  Message, human, system, ai, tool_result, Channel, text, voice, AgentState,
}

-- The last message of the policyholder, empty if there is none.
latest_human : Text → List Message → Text
latest_human found [] = found
latest_human found (human s ∷ ms) = latest_human s ms
latest_human found (_ ∷ ms) = latest_human found ms

unfoldable pub question : AgentState → Text
unfolding latest_human
question st = latest_human [] st.messages

abbrev pub refusal : Text
refusal =
    codes
      "I can't help with that request. I can answer questions about your OmniCare policy coverage, look up an existing claim, or help you file a new one."

abbrev first_of : List Text → Option Text
first_of [] = none
first_of (x ∷ xs) = some x

-- The outputs of the turn before are cleared.
pub cleared : AgentState → AgentState
cleared st = record st {
  tool_invocations = [];
  sources = [];
  retrieved = [];
  pending_write = none;
  stopped_reason = none;
  guard_rule = none;
}

pub block_turn : GuardVerdict → AgentState → AgentState
unfolding cleared
block_turn v st = record (cleared st) {
  guard_blocked = true;
  guard_rule = first_of v.matched;
  messages = st.messages ++ (ai refusal [] ∷ []);
  confirmation_tier = 0;
}

abbrev names_id : Option Text → Bool
names_id none = false
names_id (some id) = true

abbrev is_low : ℕ → Option ℕ → Bool
is_low low none = false
is_low low (some n) = ltb n low

-- The confirmation tier, with the speech confidence that counts as low.
pub tier_of : ℕ → Channel → Option ℕ → Text → ℕ
tier_of low text confidence message = 0
tier_of low voice confidence message =
    if is_low low confidence
    then 2
    else if names_id (normalize_claim_id message) || names_id (normalize_policy_number message)
    then 1
    else 0

pub pass_turn : ℕ → GuardVerdict → AgentState → AgentState
unfolding cleared tier_of question
pass_turn low v st = record (cleared st) {
  guard_blocked = false;
  guard_flagged = forces_confirmation v;
  confirmation_tier = tier_of low st.channel st.stt_confidence (question st);
  iterations = 0;
}

pub on_verdict : Bool → ℕ → GuardVerdict → AgentState → AgentState
unfolding block_turn pass_turn
on_verdict true low v st = pass_turn low v st
on_verdict false low v st = block_turn v st

unfoldable pub guard : List Rule → ℕ → AgentState → AgentState
unfolding on_verdict question
guard rules low st = let v = screen rules (question st) in on_verdict v.allowed low v st

pub data AfterGuard : Type 0 where
  blocked ok : AfterGuard

unfoldable pub route_after_guard : AgentState → AfterGuard
route_after_guard st = if st.guard_blocked then blocked else ok
