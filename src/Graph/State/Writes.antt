-- ===== src/Graph/State/Writes.antt =====
-- What `capture` lifts out of the model's message.
use omnicare_genai_assessmen.Prelude.{
  ◌≡◌, refl, ◌∙◌, true, Option, none, some, List, [], ◌∷◌, ◌++◌, arith, any, Bool-cases, inl, inr,
}
use omnicare_genai_assessmen.Text.{Text}
use omnicare_genai_assessmen.Policy.Settlement.{Settlement}
use omnicare_genai_assessmen.Graph.State.{
  Message, ai, done, last_message, calls_of, WriteArgs, ToolCall, AgentState, is_write, confirm,
  tools, last_calls, route_calls, route_after_agent, first_write, settle_for, with_split, captured,
  capture,
}

first_write-any :
    (cs : List ToolCall) → any is_write cs ≡ true → (a : WriteArgs) × (first_write cs ≡ some a)
unfolding first_write
first_write-any [] h = cc
first_write-any (c ∷ cs) h = elim (Bool-cases (is_write c)) [
  | inl y ↦ (c.args, rw y refl)
  | inr n ↦ rw n (first_write-any cs (rw n at h))
]

with_split-keeps :
    (o : Option Settlement) (st : AgentState)
    → ((with_split o st).pending_write ≡ st.pending_write)
      × ((with_split o st).messages ≡ st.messages)
unfolding with_split
with_split-keeps none st = (refl, refl)
with_split-keeps (some s) st = (refl, refl)

captured-keeps :
    (settlement : Option (WriteArgs → Option Settlement)) (o : Option WriteArgs) (st : AgentState)
    (a : WriteArgs)
    → o ≡ some a
    → ((captured settlement o st).pending_write ≡ some a)
      × ((captured settlement o st).messages ≡ st.messages)
unfolding captured
captured-keeps settlement none st a e = absurd (ground (arith, e))
captured-keeps settlement (some b) st a e =
    let (p, m) =
      with_split-keeps (settle_for settlement b) (record st { pending_write = some b }) in
    (p ∙ e, m)

no_route : {A : Type 0} → tools ≡ confirm → A
no_route h = cc

route_calls-first_write :
    (calls : List ToolCall)
    → route_calls calls ≡ confirm
    → (a : WriteArgs) × (first_write calls ≡ some a)
unfolding route_calls
route_calls-first_write [] h = cc
route_calls-first_write (c ∷ cs) h = elim (Bool-cases (any is_write (c ∷ cs))) [
  | inl y ↦ first_write-any (c ∷ cs) y
  | inr n ↦ no_route (rw n at h)
]

-- A message that is routed to the confirmation has a write, whose arguments become the pending
-- ones.
pub capture-first_write :
    (settlement : Option (WriteArgs → Option Settlement)) (st : AgentState)
    → route_after_agent st ≡ confirm
    → (a : WriteArgs) × (first_write (last_calls st) ≡ some a)
      × ((capture settlement st).pending_write ≡ some a)
      × ((capture settlement st).messages ≡ st.messages)
unfolding capture route_after_agent
capture-first_write settlement st route =
    let (a, first) = route_calls-first_write (last_calls st) route in
    let (p, m) = captured-keeps settlement (first_write (last_calls st)) st a first in
    (a, first, p, m)

last_message-append : (ms : List Message) (m : Message) → last_message (ms ++ (m ∷ [])) ≡ some m
unfolding last_message
last_message-append [] m = refl
last_message-append (n ∷ []) m = refl
last_message-append (n ∷ k ∷ ms) m = last_message-append (k ∷ ms) m

-- Behind a message without calls nothing is called.
pub route-prose :
    (st : AgentState) (ms : List Message) (t : Text)
    → st.messages ≡ ms ++ (ai t [] ∷ [])
    → route_after_agent st ≡ done
unfolding route_after_agent calls_of route_calls last_calls
route-prose st ms t h = rw h (rw (last_message-append ms (ai t [])) refl)

with_split-iterations :
    (o : Option Settlement) (st : AgentState) → (with_split o st).iterations ≡ st.iterations
unfolding with_split
with_split-iterations none st = refl
with_split-iterations (some s) st = refl

captured-iterations :
    (settlement : Option (WriteArgs → Option Settlement)) (o : Option WriteArgs) (st : AgentState)
    → (captured settlement o st).iterations ≡ st.iterations
unfolding captured
captured-iterations settlement none st = refl
captured-iterations settlement (some a) st = with_split-iterations (settle_for settlement a) _

pub capture-iterations :
    (settlement : Option (WriteArgs → Option Settlement)) (st : AgentState)
    → (capture settlement st).iterations ≡ st.iterations
unfolding capture
capture-iterations settlement st = captured-iterations settlement (first_write (last_calls st)) st
