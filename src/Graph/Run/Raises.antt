-- ===== src/Graph/Run/Raises.antt =====
-- Where a turn may raise.
use omnicare_genai_assessmen.Prelude.{
  ℕ, Bool, true, false, sym, ◌∙◌, leb, OneOf, Bool-cases, ◌≡◌, ◌⊎◌, inl, inr, refl, Option, none,
  some, List, [], ◌∷◌,
}
use mathlib.Core.Option
use mathlib.Core.Path.{subst}
use omnicare_genai_assessmen.Text.{Text}
use omnicare_genai_assessmen.Guardrails.Response.{parse_answer}
use omnicare_genai_assessmen.Guardrails.Response.Raises.{
  Counts, map-none, no_some, parse_answer-raises,
}
use omnicare_genai_assessmen.Graph.State.{AgentState, Message, ToolCall}
use omnicare_genai_assessmen.Graph.Confirm.{pending_or_empty, is_infinite}
use omnicare_genai_assessmen.Graph.Confirm as Confirm
use omnicare_genai_assessmen.Graph.Confirm.Consent.{Decided, confirm-Decided}
use omnicare_genai_assessmen.Graph.Answer.{final_answer}
use omnicare_genai_assessmen.Graph.Reply as Reply
use omnicare_genai_assessmen.Graph.Run.{
  Node, guard, agent, capture, tools, confirm, readback, parse, format, finished, Graph, Outside,
  Config, step, step_at, run, acted, confirmed, parsed, Reached, here, next,
}
use omnicare_genai_assessmen.Graph.Run as Run

-- The answer of the state is a reply on which the parsing raises.
abbrev pub BadReply : AgentState → Type 0
BadReply st = (s : Text) × (final_answer st.messages ≡ some s) × Counts s

parse_final-none :
    (u : ℕ) (o : Option Text) (st : AgentState)
    → Reply.parse_final u o st ≡ none
    → (s : Text) × (o ≡ some s) × Counts s
unfolding Reply.parse_final
parse_final-none u none st h = no_some _ h
parse_final-none u (some s) st h =
    (s, refl, (parse_answer-raises u s).0 (map-none _ (parse_answer u s) h))

parse-none : (u : ℕ) (st : AgentState) → Reply.parse u st ≡ none → BadReply st
unfolding Reply.parse
parse-none u st h = parse_final-none u (final_answer st.messages) st h

replied-none :
    (r : Option (Text × List ToolCall)) (st : AgentState) → Reply.replied r st ≡ none → r ≡ none
unfolding Reply.replied
replied-none none st h = refl
replied-none (some r) st h = no_some _ h

agent-none :
    (m : ℕ) (reply : List Message → Option (Text × List ToolCall)) (st : AgentState)
    → Reply.agent m reply st ≡ none
    → reply (Reply.model_input st) ≡ none
unfolding Reply.agent
agent-none m reply st h = elim (Bool-cases (leb m st.iterations)) [
  | inl y ↦ no_some _ (rw y at h)
  | inr n ↦ replied-none _ st (rw n at h)
]

confirm-none :
    (required : Bool) (answer : Text) (st : AgentState) (r : Option AgentState)
    → r ≡ Confirm.confirm required answer st
    → r ≡ none
    → (s : Text) × ((pending_or_empty st.pending_write).amount ≡ some s) × (is_infinite s ≡ true)
unfolding Confirm.confirm
confirm-none false answer st r e h = no_some _ (sym e ∙ h)
confirm-none true answer st r e h =
    (subst (λ (x : Option AgentState). Decided answer (pending_or_empty st.pending_write) st x)
      (sym e ∙ h) (confirm-Decided answer st)).1

module _ {ℓ} {S : Type ℓ} (g : Graph S) where
  parsed-none : (c : Config S) (r : Option AgentState) → parsed g c r ≡ none → r ≡ none
  unfolding parsed
  parsed-none c none h = refl
  parsed-none c (some st) h = no_config h
    where
      no_config : {d : Config S} → some d ≡ none → some st ≡ none
      no_config h = cc

  acted-none : (c : Config S) (r : Option AgentState) → acted g c r ≡ none → r ≡ none
  unfolding acted
  acted-none c none h = refl
  acted-none c (some st) h = no_some _ h

  confirmed-none :
      (c : Config S) (answer : Text) (r : Option AgentState)
      → confirmed g c answer r ≡ none
      → r ≡ none
  unfolding confirmed
  confirmed-none c answer none h = refl
  confirmed-none c answer (some st) h = no_some _ h

  -- What makes a node raise: the call of the model, an infinite amount, or the reply.
  abbrev pub Broken : Outside → Node → AgentState → Type 0
  Broken o n st =
      ((n ≡ agent) × (o.reply (Reply.model_input st) ≡ none))
      ⊎ ((n ≡ confirm)
          × ((s : Text) × ((pending_or_empty st.pending_write).amount ≡ some s)
              × (is_infinite s ≡ true)))
      ⊎ ((n ≡ parse) × BadReply st)

  step_at-none :
      (n : Node) (o : Outside) (c : Config S) → step_at g n o c ≡ none → Broken o n c.state
  unfolding step_at
  step_at-none guard o c h = cc
  step_at-none agent o c h =
      inl (refl, agent-none g.max_iterations o.reply c.state (acted-none c _ h))
  step_at-none capture o c h = cc
  step_at-none confirm o c h = inr (
      inl (
        refl,
        confirm-none g.require_confirmation o.answer c.state _ refl (confirmed-none c o.answer _ h),
      ))
  step_at-none tools o c h = cc
  step_at-none readback o c h = cc
  step_at-none parse o c h = inr (inr (refl, parse-none g.units c.state (parsed-none c _ h)))
  step_at-none Run.ground o c h = cc
  step_at-none format o c h = cc
  step_at-none finished o c h = cc

  Reached-first :
      (o : Outside) (c c1 d : Config S) → step g o c ≡ some c1 → Reached g c1 d → Reached g c d
  Reached-first o c c1 _ e here = next o c c1 here e
  Reached-first o c c1 _ e (next p x y r f) = next p x y (Reached-first o c c1 x e r) f

  bind-none :
      (r : Option (Config S)) (f : Config S → Option (Config S))
      → Option.bind r f ≡ none
      → (r ≡ none) ⊎ ((d : Config S) × (r ≡ some d) × (f d ≡ none))
  unfolding Option.bind
  bind-none none f h = inl refl
  bind-none (some d) f h = inr (d, refl, h)

  -- Apart from the limits on its steps, on the nesting of JSON and on the digits of an integer that
  -- a text is read as, a turn raises only where the call of the model raises, where a write with an
  -- infinite amount is to be confirmed, or where the reply is one on which its parsing raises: with
  -- citations that are a number or a truth value, or with a confidence that is too large an
  -- integer.
  pub run-raises :
      (os : List Outside) (c : Config S)
      → run g os c ≡ none
      → (d : Config S) × Reached g c d × ((o : Outside) × OneOf o os × Broken o d.node d.state)
  unfolding run step
  run-raises [] c h = cc
  run-raises (o ∷ os) c h = elim (bind-none (step g o c) (run g os) h) [
    | inl e ↦ (c, here, (o, inl refl, step_at-none c.node o c e))
    | inr (c1, e, later) ↦
        let (d, r, (p, among, bad)) = run-raises os c1 later in
        (d, Reached-first o c c1 d e r, (p, inr among, bad))
  ]
