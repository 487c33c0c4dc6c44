-- ===== src/Graph/Run/Gate.antt =====
-- Along every run of the graph, the tools run on a message that writes only behind the consent to
-- its first write.
use omnicare_genai_assessmen.Prelude.{
  ◌≡◌, ◌⊎◌, inl, inr, refl, sym, Bool, true, false, Option, none, some, IfOk, IfOk-some,
  if◌then◌else◌, clash,
}
use mathlib.Core.Path.{subst}
use omnicare_genai_assessmen.Text.{Text}
use omnicare_genai_assessmen.Graph.State.{
  Message, ai, AgentState, AfterAgent, WriteArgs, last_calls, first_write, route_after_agent,
  route_after_confirm,
}
use omnicare_genai_assessmen.Graph.State as State
use omnicare_genai_assessmen.Graph.State.Writes.{capture-first_write}
use omnicare_genai_assessmen.Graph.Guard.{AfterGuard, blocked, ok}
use omnicare_genai_assessmen.Graph.Confirm.{pending_or_empty}
use omnicare_genai_assessmen.Graph.Confirm as Confirm
use omnicare_genai_assessmen.Graph.Confirm.Consent.{Consented, Decides, Decided, confirm-Decided}
use omnicare_genai_assessmen.Graph.Run.{
  Node, guard, agent, capture, tools, confirm, readback, parse, format, finished, Graph, Outside,
  Config, step, step_at, turn, after_agent, after_guard, acted, confirmed, parsed, ran_tools,
  Reached, here, next,
}
use omnicare_genai_assessmen.Graph.Run as Run
use omnicare_genai_assessmen.Graph.Tools.{tools_node}

-- The first write of the last message has these arguments, and they are pending.
abbrev pub Pending : AgentState → WriteArgs → Type 0
Pending st a = (first_write (last_calls st) ≡ some a) × (st.pending_write ≡ some a)

-- The last message calls for no write; or the last answer agreed to its first write, whose values
-- the policyholder had given.
abbrev pub Allowed : Option Text → AgentState → Type 0
Allowed answered st =
    (route_after_agent st ≡ State.tools)
    ⊎ ((a : WriteArgs) × (t : Text) × (first_write (last_calls st) ≡ some a)
        × (answered ≡ some t)
        × Consented t st.messages a)

-- What holds of a state and the last answer before each node.
abbrev pub Before : Node → Option Text → AgentState → Type 0
Before capture answered st = route_after_agent st ≡ State.confirm
Before confirm answered st = (a : WriteArgs) × Pending st a
Before tools answered st = Allowed answered st
Before _ answered st = Unit

routed :
    (a : AfterAgent) (answered : Option Text) (st : AgentState)
    → route_after_agent st ≡ a
    → Before (after_agent a) answered st
unfolding after_agent
routed State.tools answered st h = inl h
routed State.confirm answered st h = h
routed State.done answered st h = tt

guarded :
    (a : AfterGuard) (answered : Option Text) (st : AgentState) → Before (after_guard a) answered st
unfolding after_guard
guarded blocked answered st = tt
guarded ok answered st = tt

none-route : {A : Type 0} (o : Option WriteArgs) → o ≡ none → route_after_confirm o ≡ true → A
unfolding route_after_confirm
none-route o e h = clash (sym (subst (λ (p : Option WriteArgs). route_after_confirm p ≡ true) e h))

kept-Allowed :
    (answer : Text) (a : WriteArgs) (st st' : AgentState)
    → first_write (last_calls st) ≡ some a
    → Decides answer a st st'
    → route_after_confirm st'.pending_write ≡ true
    → Allowed (some answer) st'
unfolding last_calls
kept-Allowed answer a st st' first (inl (c, e)) h =
    subst (λ (s : AgentState). Allowed (some answer) s) (sym e) (inr (a, answer, first, refl, c))
kept-Allowed answer a st st' first (inr (inl (_, (e, _, _)))) h = none-route st'.pending_write e h
kept-Allowed answer a st st' first (inr (inr (inl (_, _, (e, _, _))))) h =
    none-route st'.pending_write e h
kept-Allowed answer a st st' first (inr (inr (inr (_, _, _, (e, _, _))))) h =
    none-route st'.pending_write e h

decided :
    (b : Bool) (answer : Text) (st' : AgentState)
    → (b ≡ true → Allowed (some answer) st')
    → Before (if b then tools else parse) (some answer) st'
decided true answer st' h = h refl
decided false answer st' h = tt

pending-of :
    (st : AgentState) (a : WriteArgs)
    → st.pending_write ≡ some a
    → pending_or_empty st.pending_write ≡ a
pending-of st a h = rw h refl

module _ {ℓ} {S : Type ℓ} (g : Graph S) (required : g.require_confirmation ≡ true) where
  abbrev Kept : Option (Config S) → Type 0
  Kept r = IfOk (λ (d : Config S). Before d.node d.answered d.state) r

  acted-Kept : (c : Config S) (r : Option AgentState) → Kept (acted g c r)
  unfolding acted
  acted-Kept c none = tt
  acted-Kept c (some st) = routed _ c.answered st refl

  confirmed-Kept :
      (answer : Text) (a : WriteArgs) (c : Config S) (r : Option AgentState)
      → first_write (last_calls c.state) ≡ some a
      → Decided answer a c.state r
      → Kept (confirmed g c answer r)
  unfolding confirmed
  confirmed-Kept answer a c none first d = tt
  confirmed-Kept answer a c (some st) first d =
      decided _ answer st (kept-Allowed answer a c.state st first d)

  confirm-Kept :
      (o : Outside) (c : Config S)
      → Before confirm c.answered c.state
      → Kept (step_at g confirm o c)
  unfolding step_at
  confirm-Kept o c (a, (first, pending)) =
      let r = Confirm.confirm true o.answer c.state in
      rw required (
        confirmed-Kept o.answer a c r first (
          subst (λ (b : WriteArgs). Decided o.answer b c.state r) (pending-of c.state a pending)
            (confirm-Decided o.answer c.state)))

  capture-Kept :
      (o : Outside) (c : Config S)
      → Before capture c.answered c.state
      → Kept (step_at g capture o c)
  unfolding step_at last_calls
  capture-Kept o c route =
      let (a, first, pending, messages) = capture-first_write g.settlement c.state route in
      (a, (rw messages first, pending))

  parsed-Kept : (c : Config S) (r : Option AgentState) → Kept (parsed g c r)
  unfolding parsed
  parsed-Kept c none = tt
  parsed-Kept c (some st) = tt

  ran-Kept : (c : Config S) (r : AgentState × S) → Kept (some (ran_tools g c r))
  unfolding ran_tools
  ran-Kept c (st, s) = tt

  step_at-Kept :
      (n : Node) (o : Outside) (c : Config S)
      → n ≡ c.node
      → Before n c.answered c.state
      → Kept (step_at g n o c)
  unfolding step_at
  step_at-Kept guard o c e h = guarded _ c.answered _
  step_at-Kept agent o c e h = acted-Kept c _
  step_at-Kept capture o c e h = capture-Kept o c h
  step_at-Kept confirm o c e h = confirm-Kept o c h
  step_at-Kept tools o c e h = ran-Kept c (tools_node g.by_name c.state c.store)
  step_at-Kept readback o c e h = tt
  step_at-Kept parse o c e h = parsed-Kept c _
  step_at-Kept Run.ground o c e h = tt
  step_at-Kept format o c e h = tt
  step_at-Kept finished o c e h = subst (λ (n : Node). Before n c.answered c.state) e h

  Reached-Before :
      (from c : Config S)
      → Before from.node from.answered from.state
      → Reached g from c
      → Before c.node c.answered c.state
  unfolding step
  Reached-Before from _ h here = h
  Reached-Before from _ h (next o c d r e) =
      IfOk-some (λ (d : Config S). Before d.node d.answered d.state) e
        (step_at-Kept c.node o c refl (Reached-Before from c h r))

-- In every turn of a graph that requires confirmation, whenever the tools are about to run, the
-- last message of the model calls for no write, or the policyholder's last answer agreed to the
-- arguments of its first write, and gave the policy number and the amount of that write, where it
-- has them, in the conversation. Of further writes that the same message calls for nothing is said.
pub tools-Allowed {ℓ} :
    {S : Type ℓ} (g : Graph S) (st : AgentState) (s : S) (c : Config S)
    → g.require_confirmation ≡ true
    → Reached g (turn st s) c
    → c.node ≡ tools
    → Allowed c.answered c.state
unfolding turn
tools-Allowed g st s c required r at =
    subst (λ (n : Node). Before n c.answered c.state) at
      (Reached-Before g required (turn st s) c tt r)
