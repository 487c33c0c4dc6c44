-- ===== src/Graph/Run/Ends.antt =====
-- Every turn ends within a number of steps that the limit of the model's calls bounds.
use omnicare_genai_assessmen.Prelude.{
  ℕ, suc, ◌+◌, ◌-◌, ◌*◌, ◌≡◌, ◌≤◌, ◌<◌, ◌⊎◌, inl, inr, refl, sym, Bool, true, false, Option, none,
  some, List, [], ◌∷◌, arith, leb, length, if◌then◌else◌, gt_of, Bool-cases, IfOk, IfOk-map,
}
use mathlib.Core.Path.{subst}
use mathlib.Core.Option
use omnicare_genai_assessmen.Graph.State.{
  Message, ai, AgentState, AfterAgent, WriteArgs, route_after_agent, route_after_confirm,
}
use omnicare_genai_assessmen.Graph.State as State
use omnicare_genai_assessmen.Graph.State.Writes.{route-prose, capture-iterations}
use omnicare_genai_assessmen.Graph.Guard.{route_after_guard}
use omnicare_genai_assessmen.Graph.Guard.Turn.{Starts, guard-Starts}
use omnicare_genai_assessmen.Graph.Confirm.Consent.{confirm-iterations}
use omnicare_genai_assessmen.Guardrails.Screen.{GuardVerdict}
use omnicare_genai_assessmen.Text.{Text}
use omnicare_genai_assessmen.Graph.State.{ToolCall}
use omnicare_genai_assessmen.Graph.Confirm as Confirm
use omnicare_genai_assessmen.Graph.Reply as Reply
use omnicare_genai_assessmen.Graph.Tools.{tools_node, tools_node-iterations}
use omnicare_genai_assessmen.Graph.Run.{
  Node, guard, agent, capture, tools, confirm, readback, parse, ground, format, finished, Graph,
  Outside, Config, step, step_at, run, turn, after_agent, after_guard, acted, confirmed, parsed,
  ran_tools,
}

-- How many steps may follow, where the model may be called `k` more times of `m`.
abbrev pub steps_left : ℕ → ℕ → Node → ℕ
steps_left m k guard = 4 * m + 6
steps_left m k agent = 4 * k + 5
steps_left m k capture = 4 * k + 8
steps_left m k confirm = 4 * k + 7
steps_left m k tools = 4 * k + 6
steps_left m k readback = 4
steps_left m k parse = 3
steps_left m k ground = 2
steps_left m k format = 1
steps_left m k finished = 0

module _ {ℓ} {S : Type ℓ} (g : Graph S) where
  measure : Config S → ℕ
  measure c = steps_left g.max_iterations (g.max_iterations - c.state.iterations) c.node

  -- A step from a node leaves fewer.
  abbrev Fewer : Node → Outside → Config S → Type 0
  Fewer n o c =
      IfOk
        (λ (d : Config S).
          suc (measure d) ≤ steps_left g.max_iterations (g.max_iterations - c.state.iterations) n)
        (step_at g n o c)

  guarded :
      (b : Bool) (v : GuardVerdict) (st st' : AgentState) (m : ℕ)
      → Starts b v st st'
      → suc (steps_left m (m - st'.iterations) (after_guard (route_after_guard st'))) ≤ 4 * m + 6
  unfolding after_guard
  guarded false v st st' m (r, _, _) = rw r (omega arith)
  guarded true v st st' m (r, _, _, i, _) = rw r (rw i (omega arith))

  guard-Fewer : (o : Outside) (c : Config S) → Fewer guard o c
  unfolding step_at measure
  guard-Fewer o c =
      guarded _ _ c.state _ g.max_iterations (guard-Starts g.rules g.low_confidence c.state).1

  after_call :
      (a : AfterAgent) (m i : ℕ)
      → i < m
      → suc (steps_left m (m - suc i) (after_agent a)) ≤ 4 * (m - i) + 5
  unfolding after_agent
  after_call State.tools m i h = omega arith
  after_call State.confirm m i h = omega arith
  after_call State.done m i h = omega arith

  stopped-done : (st : AgentState) → route_after_agent (Reply.stopped st) ≡ State.done
  unfolding Reply.stopped
  stopped-done st = route-prose (Reply.stopped st) st.messages Reply.give_up refl

  replied-Fewer :
      (r : Option (Text × List ToolCall)) (c : Config S)
      → c.state.iterations < g.max_iterations
      → IfOk
          (λ (d : Config S). suc (measure d) ≤ 4 * (g.max_iterations - c.state.iterations) + 5)
          (acted g c (Reply.replied r c.state))
  unfolding measure Reply.replied Reply.called acted
  replied-Fewer none c l = tt
  replied-Fewer (some r) c l = after_call _ g.max_iterations c.state.iterations l

  agent-Fewer : (o : Outside) (c : Config S) → Fewer agent o c
  unfolding step_at measure Reply.agent acted after_agent
  agent-Fewer o c = elim (Bool-cases (leb g.max_iterations c.state.iterations)) [
    | inl y ↦ rw y (rw (stopped-done c.state) (omega arith))
    | inr f ↦ rw f (replied-Fewer _ c (gt_of _ _ f))
  ]

  after_answer :
      (b : Bool) (m k : ℕ) → suc (steps_left m k (if b then tools else parse)) ≤ 4 * k + 7
  after_answer true m k = omega arith
  after_answer false m k = omega arith

  confirmed-Fewer :
      (answer : Text) (c : Config S) (r : Option AgentState)
      → IfOk (λ (st : AgentState). st.iterations ≡ c.state.iterations) r
      → IfOk
          (λ (d : Config S). suc (measure d) ≤ 4 * (g.max_iterations - c.state.iterations) + 7)
          (confirmed g c answer r)
  unfolding measure confirmed
  confirmed-Fewer answer c none h = tt
  confirmed-Fewer answer c (some st) h =
      rw h (after_answer _ g.max_iterations (g.max_iterations - c.state.iterations))

  confirm-Fewer : (o : Outside) (c : Config S) → Fewer confirm o c
  unfolding step_at measure
  confirm-Fewer o c =
      confirmed-Fewer o.answer c (Confirm.confirm g.require_confirmation o.answer c.state)
        (confirm-iterations g.require_confirmation o.answer c.state)

  parsed-Fewer :
      (c : Config S) (r : Option AgentState)
      → IfOk (λ (d : Config S). suc (measure d) ≤ 3) (parsed g c r)
  unfolding parsed measure
  parsed-Fewer c none = tt
  parsed-Fewer c (some st) = omega arith

  ran-Fewer :
      (c : Config S) (r : AgentState × S)
      → r.0.iterations ≡ c.state.iterations
      → suc (measure (ran_tools g c r)) ≤ 4 * (g.max_iterations - c.state.iterations) + 6
  unfolding measure ran_tools
  ran-Fewer c (st, s) h = rw h (omega arith)

  tools-Fewer : (o : Outside) (c : Config S) → Fewer tools o c
  unfolding step_at measure
  tools-Fewer o c =
      ran-Fewer c (tools_node g.by_name c.state c.store)
        (tools_node-iterations g.by_name c.state c.store)

  -- Every node but the end leaves fewer steps than there were.
  step_at-Fewer : (n : Node) (o : Outside) (c : Config S) → (n ≡ finished) ⊎ Fewer n o c
  unfolding step_at measure ran_tools
  step_at-Fewer guard o c = inr (guard-Fewer o c)
  step_at-Fewer agent o c = inr (agent-Fewer o c)
  step_at-Fewer capture o c = inr (rw (capture-iterations g.settlement c.state) (omega arith))
  step_at-Fewer tools o c = inr (tools-Fewer o c)
  step_at-Fewer confirm o c = inr (confirm-Fewer o c)
  step_at-Fewer readback o c = inr (omega arith)
  step_at-Fewer parse o c = inr (parsed-Fewer c _)
  step_at-Fewer ground o c = inr (omega arith)
  step_at-Fewer format o c = inr (omega arith)
  step_at-Fewer finished o c = inl refl

  -- A turn that does not raise is at its end.
  abbrev pub IsOver : Option (Config S) → Type 0
  IsOver r = IfOk (λ (d : Config S). d.node ≡ finished) r

  step_at-stays : (n : Node) (o : Outside) (c : Config S) → n ≡ finished → step_at g n o c ≡ some c
  unfolding step_at
  step_at-stays n o c h = subst (λ (m : Node). step_at g m o c ≡ some c) (sym h) refl

  run-stays : (os : List Outside) (c : Config S) → c.node ≡ finished → IsOver (run g os c)
  unfolding run step Option.bind
  run-stays [] c h = h
  run-stays (o ∷ os) c h = rw (step_at-stays c.node o c h) (run-stays os c h)

  none-left : (n : Node) (m k : ℕ) → steps_left m k n ≤ 0 → n ≡ finished
  none-left guard m k h = absurd (omega arith)
  none-left agent m k h = absurd (omega arith)
  none-left capture m k h = absurd (omega arith)
  none-left tools m k h = absurd (omega arith)
  none-left confirm m k h = absurd (omega arith)
  none-left readback m k h = absurd (omega arith)
  none-left parse m k h = absurd (omega arith)
  none-left ground m k h = absurd (omega arith)
  none-left format m k h = absurd (omega arith)
  none-left finished m k h = refl

  bind-IsOver :
      (r : Option (Config S)) (f : Config S → Option (Config S))
      → IfOk (λ (d : Config S). IsOver (f d)) r
      → IsOver (Option.bind r f)
  unfolding Option.bind
  bind-IsOver none f h = tt
  bind-IsOver (some d) f h = h

  run_from-IsOver : (os : List Outside) (c : Config S) → measure c ≤ length os → IsOver (run g os c)
  unfolding run step measure
  run_from-IsOver [] c h =
      none-left c.node g.max_iterations (g.max_iterations - c.state.iterations) h
  run_from-IsOver (o ∷ os) c h = elim (step_at-Fewer c.node o c) [
    | inl e ↦ run-stays (o ∷ os) c e
    | inr fewer ↦ bind-IsOver (step_at g c.node o c) (run g os) (
        IfOk-map (λ (d : Config S). suc (measure d) ≤ measure c)
          (λ (d : Config S). IsOver (run g os d)) (step_at g c.node o c)
          (λ d l. run_from-IsOver os d (omega (arith, l, h))) fewer)
  ]

  -- A turn that does not raise is over after at most six steps more than four for each call that
  -- the model may be given, whatever the model replies, the tools return and the policyholder
  -- answers.
  pub run-IsOver :
      (os : List Outside) (st : AgentState) (s : S)
      → 4 * g.max_iterations + 6 ≤ length os
      → IsOver (run g os (turn st s))
  unfolding turn measure
  run-IsOver os st s h = run_from-IsOver os (turn st s) h
