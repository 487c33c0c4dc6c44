-- ===== src/Graph/Guard/Turn.antt =====
-- With what a turn starts.
use omnicare_genai_assessmen.Prelude.{
  ℕ, ◌≡◌, ◌≤◌, refl, Bool, true, false, Option, none, List, [], ◌∷◌, ◌++◌, arith,
}
use omnicare_genai_assessmen.Text.{Text}
use omnicare_genai_assessmen.Guardrails.Screen.{Rule, GuardVerdict, screen, forces_confirmation}
use omnicare_genai_assessmen.Graph.State.{ai, Channel, text, voice, AgentState}
use omnicare_genai_assessmen.Graph.Guard.{
  question, refusal, cleared, block_turn, pass_turn, on_verdict, guard, blocked, ok,
  route_after_guard, tier_of,
}

-- Nothing that describes the turn before is left.
pub record IsFreshTurn (st : AgentState) : Type 0 where
  pub calls : st.tool_invocations ≡ []
  pub cited : st.sources ≡ []
  pub found : st.retrieved ≡ []
  pub write : st.pending_write ≡ none
  pub stopped : st.stopped_reason ≡ none

-- The turn is refused, and the refusal is its last message; or it goes to the model.
abbrev pub Starts : Bool → GuardVerdict → AgentState → AgentState → Type 0
Starts false v st st' =
    (route_after_guard st' ≡ blocked)
    × (st'.messages ≡ st.messages ++ (ai refusal [] ∷ []))
    × (st'.confirmation_tier ≡ 0)
Starts true v st st' =
    (route_after_guard st' ≡ ok)
    × (st'.messages ≡ st.messages)
    × (st'.guard_flagged ≡ forces_confirmation v)
    × (st'.iterations ≡ 0)
    × (st'.confirmation_tier ≤ 2)

tier-bound : (low : ℕ) (c : Channel) (o : Option ℕ) (message : Text) → tier_of low c o message ≤ 2
unfolding tier_of
tier-bound low text o message = omega arith
tier-bound low voice o message = ground arith

on_verdict-Starts :
    (b : Bool) (low : ℕ) (v : GuardVerdict) (st : AgentState)
    → IsFreshTurn (on_verdict b low v st) × Starts b v st (on_verdict b low v st)
unfolding on_verdict block_turn pass_turn cleared route_after_guard
on_verdict-Starts false low v st = (
  record { calls = refl; cited = refl; found = refl; write = refl; stopped = refl },
  (refl, refl, refl),
)
on_verdict-Starts true low v st = (
  record { calls = refl; cited = refl; found = refl; write = refl; stopped = refl },
  (refl, refl, refl, refl, tier-bound low st.channel st.stt_confidence (question st)),
)

-- A turn starts with no tool calls, citations, retrieved sections or pending write of the turn
-- before. It is refused, with the refusal as its last message, exactly when the screening of the
-- policyholder's last message does not allow it; otherwise it goes on with the messages as they
-- are, no iterations done, and a tier of at most 2.
pub guard-Starts :
    (rules : List Rule) (low : ℕ) (st : AgentState)
    → let v = screen rules (question st) in
      IsFreshTurn (guard rules low st) × Starts v.allowed v st (guard rules low st)
unfolding guard
guard-Starts rules low st =
    let v = screen rules (question st) in on_verdict-Starts v.allowed low v st
