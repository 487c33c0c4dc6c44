-- ===== src/Graph/Tools.antt =====
-- The `tools` node of backend/agent/app/graph/build.py. The tools are an argument: what one is
-- called with, the store that they share, and what it returns or raises.
use omnicare_genai_assessmen.Prelude.{
  ◌≡◌, refl, Bool, true, false, Option, none, some, List, [], ◌∷◌, ◌++◌, if◌then◌else◌,
}
use omnicare_genai_assessmen.Text.{Text, codes, same, join}
use omnicare_genai_assessmen.Guardrails.Markers.{as_data, policy_marker, tool_marker}
use omnicare_genai_assessmen.Graph.State.{
  WriteArgs, ToolCall, Message, tool_result, AgentState, Retrieved, Invocation, last_calls,
}

-- A chunk as the search returns it.
pub record FoundChunk : Type 0 where
  pub citation : Text
  pub text : Text
  pub source_file : Text
  pub section_title : Text

-- What the node reads of a dictionary that a tool returned; `printed` is what `str` makes of it and
-- `json` what `json.dumps` does.
pub record ToolDict : Type 0 where
  pub error : Option Text
  pub citation : Option Text
  pub policy_says : List Text
  pub section : Text
  pub chunks : List FoundChunk
  pub printed : Text
  pub json : Text

-- How a call ends: with a dictionary, with another value, or by an exception. For the last two the
-- texts are how the dictionary that is recorded prints, and the JSON that the model is sent.
pub data Returned : Type 0 where
  dict : ToolDict → Returned
  value : Text → Text → Returned
  raised : Text → Text → Returned

-- A tool, over the store that the tools share.
abbrev pub Tool {ℓ} : Type ℓ → Type ℓ
Tool S = WriteArgs → S → Returned × S

-- `format_citation`
unfoldable pub format_citation : Text → Text → Text
format_citation file title = file ++ ((32 ∷ 167 ∷ 32 ∷ []) ++ title)

-- The citation of a `Chunk`, filled in where it is empty.
fill_citation : FoundChunk → Text
unfolding format_citation
fill_citation c = elim c.citation [
  | [] ↦ format_citation c.source_file c.section_title
  | x ∷ s ↦ x ∷ s
]

found : List FoundChunk → List Retrieved
unfolding fill_citation
found [] = []
found (c ∷ cs) =
    record { citation = fill_citation c; section_title = c.section_title; content = c.text }
    ∷ found cs

split_section : Option Text → ToolDict → List Retrieved
unfolding join
split_section none d = []
split_section (some []) d = []
split_section (some (c ∷ s)) d =
    record {
      citation = c ∷ s;
      section_title = d.section;
      content = join (codes "\n") d.policy_says;
    }
    ∷ []

abbrev search_name : Text
search_name = codes "search_policy_documents"

-- The sections that a result adds to those of the turn.
unfoldable pub retrieved_by : Text → Returned → List Retrieved
unfolding found split_section same
retrieved_by name (dict d) =
    (if same name (codes "estimate_claim_payment") then split_section d.citation d else [])
    ++ (if same name search_name then found d.chunks else [])
retrieved_by name _ = []

has_error : Option Text → Bool
has_error none = false
has_error (some []) = false
has_error (some (c ∷ s)) = true

unfoldable pub failed : Returned → Bool
unfolding has_error
failed (dict d) = has_error d.error
failed (value s j) = false
failed (raised s j) = true

-- What is recorded, and what the model is sent.
recorded : Returned → Text
recorded (dict d) = d.printed
recorded (value s j) = s
recorded (raised s j) = s

sent : Returned → Text
sent (dict d) = d.json
sent (value s j) = j
sent (raised s j) = j

marker_for : Text → Text
unfolding same
marker_for name = if same name search_name then policy_marker else tool_marker

-- What the node gathers over the calls.
pub record Gathered : Type 0 where
  pub outputs : List Message
  pub invocations : List Invocation
  pub retrieved : List Retrieved

unknown_tool : ToolCall → Message
unknown_tool c = tool_result c.id (codes "Unknown tool " ++ c.name)

with_result : ToolCall → Returned → Gathered → Gathered
unfolding retrieved_by failed recorded sent marker_for as_data
with_result c r g = record {
  outputs = g.outputs ++ (tool_result c.id (as_data (sent r) (marker_for c.name)) ∷ []);
  invocations =
      g.invocations
      ++ (record { name = c.name; args = c.args; result = recorded r; is_error = failed r } ∷ []);
  retrieved = g.retrieved ++ retrieved_by c.name r;
}

module _ {ℓ} {S : Type ℓ} (by_name : Text → Option (Tool S)) where
  call_one : Option (Tool S) → ToolCall → Gathered × S → Gathered × S
  unfolding with_result unknown_tool
  call_one none c (g, s) = (record g { outputs = g.outputs ++ (unknown_tool c ∷ []) }, s)
  call_one (some tool) c (g, s) = let (r, s') = tool c.args s in (with_result c r g, s')

  -- The calls in their order.
  unfoldable pub call_all : List ToolCall → Gathered × S → Gathered × S
  unfolding call_one
  call_all [] gs = gs
  call_all (c ∷ cs) gs = call_all cs (call_one (by_name c.name) c gs)

  after_calls : AgentState → Gathered × S → AgentState × S
  after_calls st (g, s) = (
    record st {
      messages = st.messages ++ g.outputs;
      tool_invocations = g.invocations;
      retrieved = g.retrieved;
      pending_write = none;
    },
    s,
  )

  gathered : AgentState → S → Gathered × S
  unfolding call_all last_calls
  gathered st s =
      call_all (last_calls st)
        (record { outputs = []; invocations = st.tool_invocations; retrieved = st.retrieved }, s)

  unfoldable pub tools_node : AgentState → S → AgentState × S
  unfolding after_calls gathered
  tools_node st s = after_calls st (gathered st s)

  after_calls-iterations :
      (st : AgentState) (r : Gathered × S) → (after_calls st r).0.iterations ≡ st.iterations
  unfolding after_calls
  after_calls-iterations st (g, s) = refl

  pub tools_node-iterations :
      (st : AgentState) (s : S) → (tools_node st s).0.iterations ≡ st.iterations
  unfolding tools_node
  tools_node-iterations st s = after_calls-iterations st (gathered st s)
