-- ===== src/Graph/Run.antt =====
-- `build_graph` of backend/agent/app/graph/build.py: the nodes and the edges between them, and a
-- turn as a sequence of steps.
pub mod Ends
pub mod Raises
pub mod Refused
pub mod Gate
mod Tests
use omnicare_genai_assessmen.Prelude.{
  ℕ, zero, suc, ◌*◌, ◌+◌, ◌-◌, ◌≡◌, Bool, true, false, Option, none, some, List, [], ◌∷◌,
  if◌then◌else◌,
}
use mathlib.Core.Option
use omnicare_genai_assessmen.Text.{Text}
use omnicare_genai_assessmen.Policy.Settlement.{Settlement}
use omnicare_genai_assessmen.Guardrails.Screen.{Rule}
use omnicare_genai_assessmen.Graph.State.{
  WriteArgs, ToolCall, Message, AgentState, AfterAgent, route_after_agent, route_after_confirm,
  capture as capture_node,
}
use omnicare_genai_assessmen.Graph.State as State
use omnicare_genai_assessmen.Graph.Guard.{AfterGuard, blocked, ok, route_after_guard}
use omnicare_genai_assessmen.Graph.Guard as Guard
use omnicare_genai_assessmen.Graph.Confirm as Confirm
use omnicare_genai_assessmen.Graph.Ground as Ground
use omnicare_genai_assessmen.Graph.Reply as Reply
use omnicare_genai_assessmen.Graph.Tools.{Tool, tools_node}

pub data Node : Type 0 where
  guard agent capture tools confirm readback parse ground format finished : Node

-- The arguments of `build_graph` and of the constants of its nodes.
pub record Graph {ℓ} (S : Type ℓ) : Type ℓ where
  pub rules : List Rule
  pub low_confidence : ℕ
  pub units : ℕ
  pub max_iterations : ℕ
  pub require_confirmation : Bool
  pub settlement : Option (WriteArgs → Option Settlement)
  pub by_name : Text → Option (Tool S)

-- What comes from outside at a step: what the model replies, if its call does not raise, and what
-- the policyholder answers to the interrupt.
pub record Outside : Type 0 where
  pub reply : List Message → Option (Text × List ToolCall)
  pub answer : Text

-- The node that runs next, the state, the store of the tools, and the last answer to an interrupt.
pub record Config {ℓ} (S : Type ℓ) : Type ℓ where
  pub node : Node
  pub state : AgentState
  pub store : S
  pub answered : Option Text

unfoldable pub after_guard : AfterGuard → Node
after_guard blocked = parse
after_guard ok = agent

after_agent : AfterAgent → Node
after_agent State.tools = tools
after_agent State.confirm = capture
after_agent State.done = readback

module _ {ℓ} {S : Type ℓ} (g : Graph S) where
  unfoldable pub parsed : Config S → Option AgentState → Option (Config S)
  parsed c none = none
  parsed c (some st) = some (record c { node = ground; state = st })

  unfoldable pub acted : Config S → Option AgentState → Option (Config S)
  unfolding after_agent
  acted c none = none
  acted c (some st) = some (record c { node = after_agent (route_after_agent st); state = st })

  unfoldable pub confirmed : Config S → Text → Option AgentState → Option (Config S)
  confirmed c answer none = none
  confirmed c answer (some st) = some (record c {
    node = if route_after_confirm st.pending_write then tools else parse;
    state = st;
    answered = some answer;
  })

  ran_tools : Config S → AgentState × S → Config S
  ran_tools c (st, s) = record c { node = agent; state = st; store = s }

  unfoldable pub step_at : Node → Outside → Config S → Option (Config S)
  unfolding after_guard acted confirmed parsed ran_tools
  step_at guard o c =
      let st = Guard.guard g.rules g.low_confidence c.state in
      some (record c { node = after_guard (route_after_guard st); state = st })
  step_at agent o c = acted c (Reply.agent g.max_iterations o.reply c.state)
  step_at capture o c =
      some (record c { node = confirm; state = State.capture g.settlement c.state })
  step_at confirm o c =
      confirmed c o.answer (Confirm.confirm g.require_confirmation o.answer c.state)
  step_at tools o c = some (ran_tools c (tools_node g.by_name c.state c.store))
  step_at readback o c = some (record c { node = parse; state = Reply.readback c.state })
  step_at parse o c = parsed c (Reply.parse g.units c.state)
  step_at ground o c = some (record c { node = format; state = Ground.ground g.units c.state })
  step_at format o c = some (record c { node = finished; state = Reply.format c.state })
  step_at finished o c = some c

  -- One node; `none` where it raises.
  unfoldable pub step : Outside → Config S → Option (Config S)
  unfolding step_at
  step o c = step_at c.node o c

  -- So many nodes, with what comes from outside at each.
  unfoldable pub run : List Outside → Config S → Option (Config S)
  unfolding Option.bind
  run [] c = some c
  run (o ∷ os) c = Option.bind (step o c) (run os)

unfoldable pub turn {ℓ} : {S : Type ℓ} → AgentState → S → Config S
turn st s = record { node = guard; state = st; store = s; answered = none }

-- The configurations that the graph reaches from one.
pub data Reached {ℓ} {S : Type ℓ} (g : Graph S) (from : Config S) : Config S → Type ℓ where
  here : Reached g from from
  next : (o : Outside) (c d : Config S) → Reached g from c → step g o c ≡ some d → Reached g from d
