-- ===== src/Graph/History.antt =====
-- `_without_stale_tool_output` of backend/agent/app/graph/nodes.py: the conversation as the model
-- is shown it.
pub mod Stale
use omnicare_genai_assessmen.Prelude.{
  ℕ, zero, suc, Bool, true, false, ◌&&◌, not, Option, none, some, List, [], ◌∷◌, if◌then◌else◌, ltb,
}
use omnicare_genai_assessmen.Text.{Text, codes, same}
use omnicare_genai_assessmen.Graph.State.{Message, human, system, ai, tool_result}

abbrev pub stale_tool_result : Text
stale_tool_result =
    codes
      "[The result of this call was from an earlier turn and is no longer shown. Call the tool again if you need it.]"

-- The index of the last message of the policyholder, with the best so far; `none` for -1.
pub last_human : ℕ → Option ℕ → List Message → Option ℕ
last_human i best [] = best
last_human i best (human s ∷ ms) = last_human (suc i) (some i) ms
last_human i best (_ ∷ ms) = last_human (suc i) best ms

pub is_before : ℕ → Option ℕ → Bool
is_before i none = false
is_before i (some n) = ltb i n

pub elided : Message → Message
elided (tool_result id content) =
    if not (same content stale_tool_result)
    then tool_result id stale_tool_result
    else tool_result id content
elided m = m

pub trimmed : ℕ → Option ℕ → List Message → List Message
unfolding is_before elided
trimmed i last [] = []
trimmed i last (m ∷ ms) = (if is_before i last then elided m else m) ∷ trimmed (suc i) last ms

unfoldable pub without_stale_tool_output : List Message → List Message
unfolding trimmed last_human
without_stale_tool_output ms = trimmed 0 (last_human 0 none ms) ms
