-- ===== src/Graph/Tests.antt =====
-- Runs of the nodes, and the theorems at them.
use omnicare_genai_assessmen.Prelude.{
  ◌≡◌, refl, true, false, none, some, List, [], ◌∷◌, ◌++◌, map, arith,
}
use mathlib.Core.List.{flat_map}
use omnicare_genai_assessmen.Prelude.Sorting.{sorted}
use mathlib.Core.Option
use omnicare_genai_assessmen.Text.{
  Text, codes, same, lower, upper, starts_with, strip, left_strip, right_strip, without, join,
  decimal, to_lower, to_upper,
}
use omnicare_genai_assessmen.Text.Regex.{
  find_all, search_text, group_of, split_text, match_at, begin, substitute,
}
use omnicare_genai_assessmen.Text.Regex.Syntax.{literal_i}
use omnicare_genai_assessmen.Guardrails.Screen.{Rule, block, screen, hits}
use omnicare_genai_assessmen.Guardrails.Vocabulary.{entry}
use omnicare_genai_assessmen.Guardrails.Amounts.{spoken_amounts}
use omnicare_genai_assessmen.Guardrails.Normalize.{
  normalize_policy_number, words_to_digits, identifier_run, words,
}
use omnicare_genai_assessmen.Graph.State.{
  WriteArgs, Message, human, system, ai, tool_result, text, AgentState, Retrieved,
  confirm as confirm_route, route_after_agent, route_after_confirm, capture,
}
use omnicare_genai_assessmen.Graph.Guard.{question, guard, route_after_guard, blocked}
use omnicare_genai_assessmen.Graph.Guard.Turn.{IsFreshTurn, Starts, guard-Starts}
use omnicare_genai_assessmen.Graph.Confirm.{
  confirm, pending_or_empty, approved, policy_numbers_stated, amount_was_stated, whole_dollars,
  is_infinite, number_is_stated, amount_is_stated,
}
use omnicare_genai_assessmen.Graph.Confirm.Consent.{Decided, confirm-Decided}
use omnicare_genai_assessmen.Graph.Answer.{final_answer}
use omnicare_genai_assessmen.Graph.Figures.{
  drop_false_comparisons, sentences, contradicts_itself, money_spans, find_text, compared_amounts,
  relates,
}
use omnicare_genai_assessmen.Graph.Citations.{
  cut, citation_spans, longest_first, typographic, plain,
}
use omnicare_genai_assessmen.Graph.Ground.{ground as ground_node, known_numbers}
use omnicare_genai_assessmen.Graph.Ground.Safe.{IsSafe, Presents, ground-IsSafe}
use omnicare_genai_assessmen.Graph.Ground.Sources.{Attributed, ground-Attributed}
use omnicare_genai_assessmen.Graph.Confidence.{Evidence, confidence_for}
use omnicare_genai_assessmen.Graph.Confidence.Caps.{Lowered, confidence_for-Lowered}
use omnicare_genai_assessmen.Graph.History.{without_stale_tool_output}
use omnicare_genai_assessmen.Graph.History.Stale.{hidden, without_stale-hidden}

abbrev request : Text
request = codes "File a claim on POL-1092 for $1,200."

abbrev write : WriteArgs
write = record {
  policy_number = some (codes "POL-1092");
  claim_type = some (codes "Water Damage");
  amount = some (codes "1200.0");
  description = some (codes "A pipe burst.");
  others = [];
}

abbrev turn : List Message
turn =
    human request
    ∷ ai [] (record { name = codes "submit_claim"; args = write; id = codes "1" } ∷ [])
    ∷ []

abbrev asked : AgentState
asked = record {
  messages = turn;
  channel = text;
  stt_confidence = none;
  retrieved = [];
  sources = codes "policy.md" ∷ [];
  answer_confidence = none;
  model_confidence = none;
  answer_unknown = false;
  confidence_reason = none;
  tool_invocations = [];
  guard_blocked = false;
  guard_rule = none;
  guard_flagged = false;
  pending_write = none;
  pending_settlement = none;
  confirmation_tier = 0;
  iterations = 1;
  stopped_reason = none;
}

dollars : whole_dollars (codes "1.2e3") ≡ some 1200
unfolding whole_dollars match_at begin group_of without decimal strip flat_map to_lower
dollars = refl

routed : route_after_agent asked ≡ confirm_route
unfolding route_after_agent same
routed = refl

kept :
    Option.map
      (λ (st : AgentState). route_after_confirm st.pending_write)
      (confirm true (codes " Yes ") (capture none asked))
    ≡ some true
unfolding Option.map is_infinite route_after_confirm confirm capture approved policy_numbers_stated
    amount_was_stated whole_dollars number_is_stated amount_is_stated normalize_policy_number
    spoken_amounts words_to_digits identifier_run words entry find_all search_text match_at begin
    group_of split_text flat_map same lower upper starts_with strip left_strip right_strip without
    join decimal to_lower to_upper sorted
kept = refl

confirm-Decided_example :
    Decided
      (codes "no")
      (pending_or_empty (some write))
      (record asked { pending_write = some write })
      (confirm true (codes "no") (record asked { pending_write = some write }))
confirm-Decided_example = confirm-Decided (codes "no") (record asked { pending_write = some write })

abbrev override_rule : Rule
override_rule = record {
  id = codes "INJ-01";
  severity = block;
  description = codes "override";
  patterns = literal_i "file" ∷ [];
}

guard-Starts_example :
    let v = screen (override_rule ∷ []) (question asked) in
    IsFreshTurn (guard (override_rule ∷ []) 60 asked)
    × Starts v.allowed v asked (guard (override_rule ∷ []) 60 asked)
guard-Starts_example = guard-Starts (override_rule ∷ []) 60 asked

refused : route_after_guard (guard (override_rule ∷ []) 60 asked) ≡ blocked
unfolding route_after_guard guard screen hits search_text flat_map to_lower
refused = refl

abbrev covered_unread : Evidence
covered_unread = record {
  unknown = false;
  retrieved = false;
  rewritten = false;
  makes_a_policy_claim = true;
}

confidence_for-Lowered_example :
    Lowered 1 95 (confidence_for 1 none covered_unread) (confidence_for 1 (some 95) covered_unread)
confidence_for-Lowered_example = confidence_for-Lowered 1 95 covered_unread (omega arith) refl

abbrev before : List Message
before =
    system (codes "prompt")
    ∷ human (codes "hi")
    ∷ tool_result (codes "1") (codes "policy text")
    ∷ []

without_stale-hidden_example :
    without_stale_tool_output
      (before ++ (human request ∷ tool_result (codes "2") (codes "fresh") ∷ []))
    ≡ map hidden before ++ (human request ∷ tool_result (codes "2") (codes "fresh") ∷ [])
without_stale-hidden_example =
    without_stale-hidden before request (tool_result (codes "2") (codes "fresh") ∷ []) (tt, tt)

infinity :
    is_infinite (codes " -Infinity ")
      ∷ is_infinite (codes "inf")
      ∷ is_infinite (codes "1200.0")
      ∷ []
    ≡ true ∷ true ∷ false ∷ []
unfolding is_infinite match_at begin strip without left_strip right_strip flat_map to_lower
infinity = refl

wrong :
    Option.map
      (λ (st : AgentState). route_after_confirm st.pending_write)
      (confirm true (codes " no ") (capture none asked))
    ≡ some false
unfolding Option.map is_infinite route_after_confirm confirm capture approved policy_numbers_stated
    amount_was_stated whole_dollars number_is_stated amount_is_stated normalize_policy_number
    spoken_amounts words_to_digits identifier_run words entry find_all search_text match_at begin
    group_of split_text flat_map same lower upper starts_with strip left_strip right_strip without
    join decimal to_lower to_upper sorted
wrong = refl

abbrev water : Retrieved
water = record {
  citation = codes "policy.md S Section 1: Water";
  section_title = codes "Section 1: Water";
  content = codes "Covered up to $25,000 with a $500 deductible.";
}

abbrev guessed : Text
guessed = codes "Section 1 pays up to $25,000 on POL-7777."

abbrev answering : AgentState
answering = record asked {
  messages = human (codes "Am I covered?") ∷ ai guessed [] ∷ [];
  retrieved = water ∷ [];
}

answers : final_answer answering.messages ≡ some guessed
unfolding final_answer
answers = refl

ground-IsSafe_example :
    (t : Text) × IsSafe (known_numbers answering) t
    × Presents guessed t answering (ground_node 1 answering)
ground-IsSafe_example = ground-IsSafe 1 answering guessed answers

ground-Attributed_example : Attributed (water ∷ []) (ground_node 1 answering).sources
ground-Attributed_example = ground-Attributed 1 answering guessed answers

-- Two invented citations that touch are cut as if they did not.
abbrev doubled : Text
doubled = codes "See a.md § One B.md § Two, you are covered."

over_cut : cut (citation_spans doubled []) doubled ≡ codes "See covered."
unfolding cut citation_spans longest_first sorted typographic plain substitute find_all match_at
    begin flat_map same lower to_lower starts_with strip left_strip right_strip join
over_cut = refl

-- A comparison that its two amounts disprove.
contradicted :
    drop_false_comparisons (codes "Yes. Your $1,500 exceeds $2,500. Ask us.") ≡ codes "Yes. Ask us."
unfolding drop_false_comparisons sentences contradicts_itself money_spans find_text compared_amounts
    relates find_all flat_map to_lower lower starts_with strip left_strip right_strip without
    decimal
contradicted = refl
