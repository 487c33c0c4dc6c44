-- ===== src/Graph/Run/Refused.antt =====
-- A turn that is refused ends with the refusal, without a call of the model or of a tool.
use omnicare_genai_assessmen.Prelude.{
  ℕ, ◌≡◌, refl, ◌∙◌, Bool, true, false, none, some, List, [], ◌∷◌,
}
use mathlib.Core.Path.{subst}
use mathlib.Core.Option
use mathlib.Core.List.{flat_map}
use omnicare_genai_assessmen.Prelude.Sorting.{sorted}
use omnicare_genai_assessmen.Text.{
  Text, to_lower, same, strip, left_strip, right_strip, starts_with, without, decimal, lower,
}
use omnicare_genai_assessmen.Text.Regex.{
  find_all, search_text, match_at, begin, group_of, substitute,
}
use omnicare_genai_assessmen.Guardrails.Screen.{GuardVerdict, screen}
use omnicare_genai_assessmen.Guardrails.Response.{
  parse_answer, plain_answer, normalize_response, unfence, parsed_object, unwrap_json,
}
use omnicare_genai_assessmen.Guardrails.Markdown.{strip_markdown, as_sentence}
use omnicare_genai_assessmen.Graph.State.{AgentState, Retrieved}
use omnicare_genai_assessmen.Graph.Answer.{final_answer, final_answer-append}
use omnicare_genai_assessmen.Graph.Guard.{refusal, blocked, route_after_guard}
use omnicare_genai_assessmen.Graph.Guard as Guard
use omnicare_genai_assessmen.Graph.Guard.Turn.{IsFreshTurn, Starts, guard-Starts}
use omnicare_genai_assessmen.Graph.Run.{
  parse, finished, Graph, Outside, Config, step, step_at, run, turn, after_guard, parsed,
}
use omnicare_genai_assessmen.Graph.Confirm.{numbers_in}
use omnicare_genai_assessmen.Graph.Figures.{
  drop_false_comparisons, asserts_an_estimated_amount, sentences, contradicts_itself, money_spans,
  find_text, compared_amounts,
}
use omnicare_genai_assessmen.Graph.Citations.{
  citation_spans, cut, tidied, drop_orphaned_label, longest_first,
}
use omnicare_genai_assessmen.Graph.Attribution.{
  citations, distinct, sources_of, sections_by_figure, named_sections, credited,
}
use omnicare_genai_assessmen.Graph.Ground as Ground
use omnicare_genai_assessmen.Graph.Reply as Reply
use omnicare_genai_assessmen.Graph.Reply.{is_voice}
use omnicare_genai_assessmen.Graph.Ground.{
  Edit, edit_from, joined, valid_citations, edited, without_guesses, cited_text,
}

refusal-parsed : (u : ℕ) → parse_answer u refusal ≡ some (plain_answer refusal)
unfolding parse_answer parsed_object unfence strip left_strip right_strip starts_with match_at begin
    flat_map to_lower group_of lower
refusal-parsed u = refl

refusal-tidied : drop_orphaned_label (tidied refusal) ≡ refusal
unfolding drop_orphaned_label tidied substitute find_all flat_map to_lower strip left_strip
    right_strip
refusal-tidied = refl

refusal-kept : drop_false_comparisons refusal ≡ refusal
unfolding drop_false_comparisons sentences contradicts_itself money_spans find_text compared_amounts
    find_all flat_map to_lower lower starts_with strip left_strip right_strip without decimal
refusal-kept = refl

refusal-laid_out : (voice : Bool) → normalize_response voice refusal ≡ refusal
unfolding normalize_response unwrap_json unfence strip left_strip right_strip starts_with match_at
    begin flat_map to_lower group_of lower strip_markdown as_sentence substitute find_all same
    parsed_object
refusal-laid_out true = refl
refusal-laid_out false = refl

no-numbers : numbers_in refusal ≡ []
unfolding numbers_in find_all flat_map to_lower
no-numbers = refl

no-estimate : asserts_an_estimated_amount refusal ≡ false
unfolding asserts_an_estimated_amount search_text flat_map to_lower
no-estimate = refl

no-citations : citation_spans refusal [] ≡ []
unfolding citation_spans longest_first find_all flat_map to_lower sorted
no-citations = refl

refusal-unguessed :
    (known : List Text) → without_guesses known refusal ≡ record { text = refusal; changed = false }
unfolding without_guesses
refusal-unguessed known = rw no-numbers (rw no-estimate refl)

refusal-edit_from :
    (known : List Text) → edit_from known [] refusal ≡ record { text = refusal; changed = false }
unfolding edit_from joined cited_text cut same
refusal-edit_from known = rw refusal-tidied (rw refusal-kept (rw (refusal-unguessed known) refl))

refusal-edited :
    (known : List Text) → edited [] known refusal ≡ record { text = refusal; changed = false }
unfolding edited valid_citations citations distinct
refusal-edited known = rw no-citations (refusal-edit_from known)

-- The state answers with the refusal, and nothing was retrieved.
record Refuses (st : AgentState) : Type 0 where
  final : final_answer st.messages ≡ some refusal
  found : st.retrieved ≡ []

parse-Refuses :
    (u : ℕ) (st : AgentState)
    → Refuses st
    → (st' : AgentState) × (Reply.parse u st ≡ some st') × Refuses st'
unfolding Reply.parse Reply.parse_final Reply.with_answer Reply.text_of same
parse-Refuses u st r = (
  Reply.with_answer refusal (plain_answer refusal) st,
  rw r.final (rw (refusal-parsed u) refl),
  record { final = r.final; found = r.found },
)

edited-nothing :
    (known : List Text) (rs : List Retrieved)
    → rs ≡ []
    → edited rs known refusal ≡ record { text = refusal; changed = false }
edited-nothing known rs h = rw h (refusal-edited known)

sources-nothing : (rs : List Retrieved) → rs ≡ [] → sources_of refusal rs ≡ []
unfolding sources_of sections_by_figure named_sections credited citations distinct
sources-nothing rs h = rw h refl

with_edit-Refuses :
    (u : ℕ) (e : Edit) (st : AgentState)
    → e ≡ record { text = refusal; changed = false }
    → Refuses st
    → Refuses (Ground.with_edit u e st) × ((Ground.with_edit u e st).sources ≡ [])
unfolding Ground.with_edit Ground.shown
with_edit-Refuses u e st h r =
    rw h (record { final = r.final; found = r.found }, sources-nothing st.retrieved r.found)

ground-Refuses :
    (u : ℕ) (st : AgentState)
    → Refuses st
    → Refuses (Ground.ground u st) × ((Ground.ground u st).sources ≡ [])
unfolding Ground.ground Ground.ground_answer
ground-Refuses u st r =
    rw r.final
      (with_edit-Refuses u _ st (edited-nothing (Ground.known_numbers st) st.retrieved r.found) r)

format-Refuses :
    (st : AgentState)
    → Refuses st
    → Refuses (Reply.format st) × ((Reply.format st).sources ≡ st.sources)
unfolding Reply.format Reply.lay_out same
format-Refuses st r = rw r.final (
    rw (refusal-laid_out (is_voice st.channel)) (record { final = r.final; found = r.found }, refl))

-- The turn is over, the store is as it was, the answer is the refusal and it has no sources.
pub record IsRefused {ℓ} {S : Type ℓ} (s : S) (d : Config S) : Type ℓ where
  pub over : d.node ≡ finished
  pub untouched : d.store ≡ s
  pub answer : final_answer d.state.messages ≡ some refusal
  pub uncited : d.state.sources ≡ []

module _ {ℓ} {S : Type ℓ} (g : Graph S) where
  guard-Refuses :
      (v : GuardVerdict) (st st' : AgentState)
      → IsFreshTurn st'
      → Starts false v st st'
      → Refuses st' × (route_after_guard st' ≡ blocked)
  guard-Refuses v st st' f (route, messages, tier) = (
    record { final = rw messages (final_answer-append st.messages refusal); found = f.found },
    route,
  )

  tail-IsRefused :
      (a b c : Outside) (st : AgentState) (s : S)
      → Refuses st
      → (d : Config S) × (run g
            (a ∷ b ∷ c ∷ [])
            (record { node = parse; state = st; store = s; answered = none })
          ≡ some d)
        × IsRefused s d
  unfolding run step step_at parsed Option.bind
  tail-IsRefused a b c st s r =
      let (st1, e1, r1) = parse-Refuses g.units st r in
      let (r2, n2) = ground-Refuses g.units st1 r1 in
      let (r3, n3) = format-Refuses (Ground.ground g.units st1) r2 in
      (
        record {
          node = finished;
          state = Reply.format (Ground.ground g.units st1);
          store = s;
          answered = none;
        },
        rw e1 refl,
        record { over = refl; untouched = refl; answer = r3.final; uncited = n3 ∙ n2 },
      )

  guard-run :
      (o a b c : Outside) (st : AgentState) (s : S)
      → (screen g.rules (Guard.question st)).allowed ≡ false
      → (d : Config S) × (run g (o ∷ a ∷ b ∷ c ∷ []) (turn st s) ≡ some d) × IsRefused s d
  unfolding run step step_at turn after_guard Option.bind
  guard-run o a b c st s h =
      let v = screen g.rules (Guard.question st) in
      let st' = Guard.guard g.rules g.low_confidence st in
      let (fresh, starts) = guard-Starts g.rules g.low_confidence st in
      let (refuses, route) =
        guard-Refuses v st st' fresh
          (subst (λ (allowed : Bool). Starts allowed v st st') h starts) in
      rw route (tail-IsRefused a b c st' s refuses)

-- A message that the screening does not allow ends its turn after four steps, whatever comes from
-- outside: the store of the tools is untouched, the answer is the refusal, word for word on both
-- channels, and it has no sources.
pub run-IsRefused {ℓ} :
    {S : Type ℓ} (g : Graph S) (o a b c : Outside) (st : AgentState) (s : S)
    → (screen g.rules (Guard.question st)).allowed ≡ false
    → (d : Config S) × (run g (o ∷ a ∷ b ∷ c ∷ []) (turn st s) ≡ some d) × IsRefused s d
run-IsRefused g o a b c st s h = guard-run g o a b c st s h
