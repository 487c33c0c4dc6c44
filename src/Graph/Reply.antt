-- ===== src/Graph/Reply.antt =====
-- The nodes of backend/agent/app/graph/nodes.py that call the model and that unpack, complete and
-- lay out its reply: `agent`, `readback`, `parse` and `format`.
use omnicare_genai_assessmen.Prelude.{
  ℕ, suc, Bool, true, false, ◌&&◌, Option, none, some, List, [], ◌∷◌, ◌++◌, if◌then◌else◌, leb, any,
}
use mathlib.Core.Option
use omnicare_genai_assessmen.Text.{Text, codes, same, starts_with, contains}
use omnicare_genai_assessmen.Guardrails.Amounts.{phonetic_readback}
use omnicare_genai_assessmen.Guardrails.Normalize.{normalize_claim_id, normalize_policy_number}
use omnicare_genai_assessmen.Guardrails.Response.{Answer, parse_answer, normalize_response}
use omnicare_genai_assessmen.Graph.State.{
  ToolCall, Message, system, ai, Channel, text, voice, AgentState,
}
use omnicare_genai_assessmen.Graph.Answer.{final_answer, republish}
use omnicare_genai_assessmen.Graph.Guard.{question}
use omnicare_genai_assessmen.Graph.History.{without_stale_tool_output}
use omnicare_genai_assessmen.Graph.Prompt.{system_prompt, voice_addendum}

abbrev pub is_voice : Channel → Bool
is_voice text = false
is_voice voice = true

is_system : Message → Bool
is_system (system s) = true
is_system _ = false

prompt_for : Channel → Text
unfolding system_prompt voice_addendum
prompt_for text = system_prompt
prompt_for voice = system_prompt ++ voice_addendum

-- What the model is sent.
unfoldable pub model_input : AgentState → List Message
unfolding is_system prompt_for
model_input st = without_stale_tool_output (
    if any is_system st.messages then st.messages else system (prompt_for st.channel) ∷ st.messages)

unfoldable pub give_up : Text
give_up =
    codes
      "I wasn't able to complete that. Could you rephrase, or give me the policy or claim number?"

abbrev pub append : Message → AgentState → AgentState
append m st = record st { messages = st.messages ++ (m ∷ []) }

abbrev message_of : Text × List ToolCall → Message
message_of (t, calls) = ai t calls

unfoldable pub stopped : AgentState → AgentState
unfolding give_up
stopped st = record (append (ai give_up []) st) { stopped_reason = some (codes "max_iterations") }

unfoldable pub called : Text × List ToolCall → AgentState → AgentState
called r st = record (append (message_of r) st) { iterations = suc st.iterations }

unfoldable pub replied : Option (Text × List ToolCall) → AgentState → Option AgentState
unfolding called
replied none st = none
replied (some r) st = some (called r st)

-- `agent`, with the limit of its calls and what the model replies to its input: a text and calls,
-- or `none` where the call of the model raises, which the node lets through.
unfoldable pub agent :
    ℕ → (List Message → Option (Text × List ToolCall)) → AgentState → Option AgentState
unfolding model_input replied
agent max_iterations reply st =
    if leb max_iterations st.iterations
    then some (stopped st)
    else replied (reply (model_input st)) st

either_id : Option Text → Option Text → Option Text
either_id none o = o
either_id (some id) o = some id

noun_of : Text → Text
noun_of id = if starts_with (codes "CLM") id then codes "claim" else codes "policy"

-- The answer with the identifier read back.
unfoldable pub with_readback : Text → Text → Text
unfolding noun_of
with_readback id answer =
    codes "Looking up "
    ++ (noun_of id ++ (codes " " ++ (phonetic_readback id ++ (codes ". " ++ answer))))

read_back : Option Text → Option Text → AgentState → AgentState
unfolding with_readback
read_back none answer st = st
read_back (some id) none st = st
read_back (some id) (some answer) st =
    if contains (phonetic_readback id) answer
    then st
    else record st { messages = republish (with_readback id answer) st.messages }

is_tier_one : ℕ → Bool
is_tier_one n = leb n 1 && leb 1 n

-- What the policyholder's last message names: a claim before a policy.
unfoldable pub identifier : AgentState → Option Text
unfolding either_id question
identifier st = either_id (normalize_claim_id (question st)) (normalize_policy_number (question st))

unfoldable pub readback : AgentState → AgentState
unfolding read_back is_tier_one identifier final_answer
readback st =
    if is_voice st.channel && is_tier_one st.confirmation_tier
    then read_back (identifier st) (final_answer st.messages) st
    else st

unfoldable pub no_lookup : Text
no_lookup = codes "Sorry - I wasn't able to look that up. Could you ask me again?"

-- The text that the reader is shown of a parsed reply.
unfoldable pub text_of : Answer → Text
unfolding no_lookup
text_of a = if a.tool_call_as_text then no_lookup else a.text

abbrev replaced : Text → Text → List Message → List Message
replaced old new ms = if same new old then ms else republish new ms

unfoldable pub with_answer : Text → Answer → AgentState → AgentState
unfolding text_of
with_answer old a st = record st {
  model_confidence = a.confidence;
  answer_unknown = a.unknown;
  messages = replaced old (text_of a) st.messages;
}

unfoldable pub parse_final : ℕ → Option Text → AgentState → Option AgentState
unfolding with_answer
parse_final u none st = some st
parse_final u (some s) st = Option.map (λ (a : Answer). with_answer s a st) (parse_answer u s)

-- `parse`; `none` where the parsing of the reply raises.
unfoldable pub parse : ℕ → AgentState → Option AgentState
unfolding parse_final final_answer
parse u st = parse_final u (final_answer st.messages) st

unfoldable pub lay_out : Option Text → AgentState → AgentState
unfolding normalize_response
lay_out none st = st
lay_out (some s) st = record st {
  messages = replaced s (normalize_response (is_voice st.channel) s) st.messages;
}

unfoldable pub format : AgentState → AgentState
unfolding lay_out final_answer
format st = lay_out (final_answer st.messages) st
