-- ===== src/Graph/Ground.antt =====
-- The `ground` node of backend/agent/app/graph/nodes.py: citations that retrieval did not return,
-- comparisons that the numbers disprove and values that nobody gave leave the answer, and the
-- sources and the confidence are set.
pub mod Safe
pub mod Sources
use omnicare_genai_assessmen.Prelude.{
  ℕ, Bool, true, false, ◌&&◌, ◌||◌, not, Option, none, some, List, [], ◌∷◌, ◌++◌, if◌then◌else◌,
  any, ◌==◌,
}
use omnicare_genai_assessmen.Text.{Text, codes, same, is_digit}
use omnicare_genai_assessmen.Text.Regex.{Regex, one, boundary, search_text}
use omnicare_genai_assessmen.Text.Regex.Syntax.{
  ◌∘◌, ◌∣◌, opt, plus, space, word_char, literal, literal_i, one_of_i,
}
use omnicare_genai_assessmen.Graph.State.{Message, AgentState, Retrieved}
use omnicare_genai_assessmen.Graph.Confirm.{
  numbers_in, policy_numbers_stated, policy_numbers_from_tools,
}
use omnicare_genai_assessmen.Graph.Confidence.{Reason, confidence_for}
use omnicare_genai_assessmen.Graph.Answer.{final_answer, republish}
use omnicare_genai_assessmen.Graph.Figures.{drop_false_comparisons, asserts_an_estimated_amount}
use omnicare_genai_assessmen.Graph.Citations.{
  CitationSpan, citation_spans, cut, tidied, drop_orphaned_label,
}
use omnicare_genai_assessmen.Graph.Attribution.{citations, distinct, sources_of}

figure : (ℕ → Bool) → Regex
figure p = literal "$" ∘ opt space ∘ plus (one p)

is_figure : ℕ → Bool
is_figure c = is_digit c || (c == b',')

-- `_POLICY_CLAIM_RE`
policy_claim_pattern : Regex
unfolding figure is_figure
policy_claim_pattern =
    (boundary
      ∘ one_of_i ("is" ∷ "are" ∷ "isn't" ∷ "aren't" ∷ "was" ∷ "were" ∷ [])
      ∘ plus space
      ∘ opt (literal_i "not" ∘ plus space)
      ∘ literal_i "covered"
      ∘ boundary)
    ∣ (boundary ∘ literal_i "not" ∘ plus space ∘ literal_i "covered" ∘ boundary)
    ∣ (boundary
        ∘ literal_i "does"
        ∘ plus space
        ∘ literal_i "not"
        ∘ plus space
        ∘ literal_i "cover"
        ∘ boundary)
    ∣ (boundary
        ∘ literal_i "doesn"
        ∘ opt (literal "'")
        ∘ literal_i "t"
        ∘ plus space
        ∘ literal_i "cover"
        ∘ boundary)
    ∣ (boundary
        ∘ literal_i "do"
        ∘ plus space
        ∘ literal_i "not"
        ∘ plus space
        ∘ literal_i "cover"
        ∘ boundary)
    ∣ (boundary
        ∘ ((literal_i "polic" ∘ plus word_char) ∣ one_of_i ("section" ∷ "it" ∷ "this" ∷ []))
        ∘ plus space
        ∘ literal_i "cover"
        ∘ opt (literal_i "s")
        ∘ boundary)
    ∣ (boundary
        ∘ one_of_i ("is" ∷ "are" ∷ [])
        ∘ plus space
        ∘ opt (literal_i "strictly" ∘ plus space)
        ∘ literal_i "excluded"
        ∘ boundary)
    ∣ (boundary ∘ literal_i "strictly" ∘ plus space ∘ literal_i "excluded" ∘ boundary)
    ∣ (boundary ∘ literal_i "up" ∘ plus space ∘ literal_i "to" ∘ plus space ∘ figure is_figure)
    ∣ (figure (λ c. is_figure c || (c == b'.')) ∘ plus space ∘ literal_i "deductible" ∘ boundary)
    ∣ (boundary
        ∘ literal_i "deductible"
        ∘ plus space
        ∘ one_of_i ("is" ∷ "of" ∷ [])
        ∘ plus space
        ∘ figure is_figure)
    ∣ (boundary
        ∘ literal_i "limit"
        ∘ plus space
        ∘ one_of_i ("is" ∷ "of" ∷ [])
        ∘ plus space
        ∘ figure is_figure)

unfoldable pub makes_a_policy_claim : Text → Bool
unfolding policy_claim_pattern
makes_a_policy_claim s = elim (search_text policy_claim_pattern s) [ none ↦ false | some m ↦ true ]

unfoldable pub ask_own_number : Text
ask_own_number =
    codes
      "Before I can file anything I need your policy number - the letters POL, a hyphen and four digits, from your policy documents. I don't have one from you yet, and I won't put a number I guessed in front of you as though it were yours."

unfoldable pub ask_own_amount : Text
ask_own_amount =
    codes
      "I can't put a figure on this myself - I won't estimate an amount for a claim. How much are you claiming? A total is enough, and it can be a repair quote."

-- The policy numbers that someone other than the model produced.
pub known_numbers : AgentState → List Text
known_numbers st =
    policy_numbers_stated st.messages ++ policy_numbers_from_tools st.tool_invocations

abbrev pub is_invented : List Text → Text → Bool
is_invented known n = not (any (same n) known)

-- The text that is shown in place of one, and whether it is another.
pub record Edit : Type 0 where
  pub text : Text
  pub changed : Bool

unfoldable pub without_guesses : List Text → Text → Edit
unfolding ask_own_number ask_own_amount
without_guesses known t =
    if any (is_invented known) (numbers_in t)
    then record { text = ask_own_number; changed = true }
    else if asserts_an_estimated_amount t
    then record { text = ask_own_amount; changed = true }
    else record { text = t; changed = false }

abbrev any_invented : List CitationSpan → Bool
any_invented spans = any (λ s. not s.is_real) spans

-- The answer without the citations that were not retrieved.
unfoldable pub cited_text : List CitationSpan → Text → Text
cited_text spans s = drop_orphaned_label (tidied (cut spans s))

unfoldable pub valid_citations : List Retrieved → List Text
valid_citations retrieved = distinct (citations retrieved)

unfoldable pub joined : Bool → Text → Text → Edit → Edit
joined invented cited corrected checked = record {
  text = checked.text;
  changed = invented || not (same corrected cited) || checked.changed;
}

unfoldable pub edit_from : List Text → List CitationSpan → Text → Edit
unfolding joined cited_text without_guesses
edit_from known spans s =
    let cited = cited_text spans s in
    let corrected = drop_false_comparisons cited in
    joined (any_invented spans) cited corrected (without_guesses known corrected)

-- All that `ground` makes of the answer.
unfoldable pub edited : List Retrieved → List Text → Text → Edit
unfolding edit_from
edited retrieved known s = edit_from known (citation_spans s (valid_citations retrieved)) s

abbrev pub has_any {ℓ} : {A : Type ℓ} → List A → Bool
has_any [] = false
has_any (x ∷ xs) = true

unfoldable pub shown : Edit → List Message → List Message
shown e ms = if e.changed then republish e.text ms else ms

confidence_of : ℕ → Edit → AgentState → Option ℕ × Option Reason
confidence_of u e st = confidence_for u st.model_confidence (record {
  unknown = st.answer_unknown;
  retrieved = has_any st.retrieved;
  rewritten = e.changed;
  makes_a_policy_claim = makes_a_policy_claim e.text;
})

unfoldable pub with_edit : ℕ → Edit → AgentState → AgentState
unfolding shown confidence_of
with_edit u e st = record st {
  messages = shown e st.messages;
  sources = sources_of e.text st.retrieved;
  answer_confidence = (confidence_of u e st).0;
  confidence_reason = (confidence_of u e st).1;
}

unfoldable pub ground_answer : ℕ → Option Text → AgentState → AgentState
unfolding with_edit edited known_numbers
ground_answer u none st = record st { sources = [] }
ground_answer u (some s) st = with_edit u (edited st.retrieved (known_numbers st) s) st

-- `ground`, with so many units of confidence to a hundredth
unfoldable pub ground : ℕ → AgentState → AgentState
unfolding ground_answer final_answer
ground u st = ground_answer u (final_answer st.messages) st
