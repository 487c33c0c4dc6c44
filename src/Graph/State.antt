-- ===== src/Graph/State.antt =====
-- The messages and the state that the nodes read and write
-- (backend/agent/app/graph/state.py and the messages that it holds), and the routing of
-- backend/agent/app/graph/build.py.
pub mod Writes
use omnicare_genai_assessmen.Prelude.{
  ℕ, zero, suc, ◌<◌, Bool, true, false, ◌||◌, ◌&&◌, not, Option, none, some, List, [], ◌∷◌, ◌++◌,
  if◌then◌else◌, any,
}
use omnicare_genai_assessmen.Text.{Text, codes, same, join}
use omnicare_genai_assessmen.Graph.Confidence.{Reason}
use omnicare_genai_assessmen.Policy.Settlement.{Settlement, citation}

-- The arguments of a call that the model gave: the four of a write, of which a missing one is
-- `none`, and any others. A value is what `str` makes of it.
pub record WriteArgs : Type 0 where
  pub policy_number : Option Text
  pub claim_type : Option Text
  pub amount : Option Text
  pub description : Option Text
  pub others : List (Text × Text)

pub record ToolCall : Type 0 where
  pub name : Text
  pub args : WriteArgs
  pub id : Text

pub data Message : Type 0 where
  human system : Text → Message
  ai : Text → List ToolCall → Message
  tool_result : Text → Text → Message  -- the id of the call, the content

pub data Channel : Type 0 where
  text voice : Channel

-- What the nodes read of a retrieved chunk.
pub record Retrieved : Type 0 where
  pub citation : Text
  pub section_title : Text
  pub content : Text

-- A tool call of the turn; the result is what `str` makes of it.
pub record Invocation : Type 0 where
  pub name : Text
  pub args : WriteArgs
  pub result : Text
  pub is_error : Bool

pub record AgentState : Type 0 where
  pub messages : List Message
  pub channel : Channel
  pub stt_confidence : Option ℕ
  pub retrieved : List Retrieved
  pub sources : List Text
  pub answer_confidence : Option ℕ
  pub model_confidence : Option ℕ
  pub answer_unknown : Bool
  pub confidence_reason : Option Reason
  pub tool_invocations : List Invocation
  pub guard_blocked : Bool
  pub guard_rule : Option Text
  pub guard_flagged : Bool
  pub pending_write : Option WriteArgs
  pub pending_settlement : Option Settlement
  pub confirmation_tier : ℕ
  pub iterations : ℕ
  pub stopped_reason : Option Text

abbrev pub is_write : ToolCall → Bool
is_write c = same c.name (codes "submit_claim")

pub data AfterAgent : Type 0 where
  tools confirm done : AfterAgent

last_message : List Message → Option Message
last_message [] = none
last_message (m ∷ []) = some m
last_message (m ∷ n ∷ ms) = last_message (n ∷ ms)

calls_of : Option Message → List ToolCall
calls_of (some (ai s calls)) = calls
calls_of _ = []

unfoldable pub last_calls : AgentState → List ToolCall
unfolding last_message calls_of
last_calls st = calls_of (last_message st.messages)

route_calls : List ToolCall → AfterAgent
route_calls [] = done
route_calls (c ∷ cs) = if any is_write (c ∷ cs) then confirm else tools

unfoldable pub route_after_agent : AgentState → AfterAgent
unfolding last_calls route_calls
route_after_agent st = route_calls (last_calls st)

is_given : Option Text → Bool
is_given none = false
is_given (some t) = true

-- Whether a dictionary of arguments has an entry.
unfoldable pub has_args : WriteArgs → Bool
unfolding is_given
has_args a =
    (is_given a.policy_number || is_given a.claim_type)
    || (is_given a.amount || is_given a.description)
    || any (λ o. true) a.others

-- `route_after_confirm`: whether the tools run.
unfoldable pub route_after_confirm : Option WriteArgs → Bool
unfolding has_args
route_after_confirm none = false
route_after_confirm (some a) = has_args a

pub first_write : List ToolCall → Option WriteArgs
first_write [] = none
first_write (c ∷ cs) = let later = first_write cs in if is_write c then some c.args else later

pub settle_for : Option (WriteArgs → Option Settlement) → WriteArgs → Option Settlement
settle_for none a = none
settle_for (some f) a = f a

-- A chunk of the section that the figures of a split were read from, if the section is known.
cited : Text → Settlement → List Retrieved
unfolding join
cited [] s = []
cited (c ∷ t) s =
    record {
      citation = c ∷ t;
      section_title = s.section_title;
      content = join (10 ∷ []) s.policy_says;
    }
    ∷ []

abbrev sources_or : List Text → List Retrieved → List Text
sources_or old [] = old
sources_or old (c ∷ cs) = c.citation ∷ []

-- What the split adds to the state.
with_split : Option Settlement → AgentState → AgentState
unfolding cited
with_split none st = record st { pending_settlement = none }
with_split (some s) st = record st {
  pending_settlement = some s;
  retrieved = st.retrieved ++ cited (citation s) s;
  sources = sources_or st.sources (cited (citation s) s);
}

captured : Option (WriteArgs → Option Settlement) → Option WriteArgs → AgentState → AgentState
unfolding with_split settle_for
captured settlement none st = st
captured settlement (some a) st =
    with_split (settle_for settlement a) (record st { pending_write = some a })

-- `capture`, given the settlement provider if there is one; an exception of the provider is `none`.
unfoldable pub capture : Option (WriteArgs → Option Settlement) → AgentState → AgentState
unfolding captured first_write last_calls
capture settlement st = captured settlement (first_write (last_calls st)) st
