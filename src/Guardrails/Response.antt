-- ===== src/Guardrails/Response.antt =====
-- backend/libs/guardrails/response.py: the reply of the model as an answer.
pub mod Raises
use omnicare_genai_assessmen.Prelude.{
  ℕ, zero, suc, ◌*◌, ◌/◌, Bool, true, false, ◌&&◌, ◌||◌, not, Option, none, some, List, [], ◌∷◌,
  ◌++◌, if◌then◌else◌, leb, ◌==◌, any, min, keep,
}
use mathlib.Core.Option
use mathlib.Core.List.{reverse}
use omnicare_genai_assessmen.Text.{
  Text, codes, same, strip, lower, starts_with, right_strip, is_space,
}
use omnicare_genai_assessmen.Text.Regex.{
  Regex, one, star, lazy_star, group, text_end, Match, match_at, begin, group_of,
}
use omnicare_genai_assessmen.Text.Regex.Syntax.{◌∘◌, opt, space, literal, in_set, member}
use omnicare_genai_assessmen.Guardrails.Json.{
  Float, finite, infinite, nan, too_large, Json, null, boolean, number, string, array, object,
  Items, nil, item, Members, end, member as field, loads, get, is_true, read_float,
}
use omnicare_genai_assessmen.Guardrails.Markdown.{language_name, newline, any_char, strip_markdown}

-- `_FENCE_RE`
abbrev fence : Regex
fence =
    star space
    ∘ literal "```"
    ∘ star (in_set " \t")
    ∘ group 1 language_name
    ∘ star (in_set " \t")
    ∘ newline
    ∘ group 2 (lazy_star any_char)
    ∘ opt (one (λ c. c == 13))
    ∘ opt (one (λ c. c == 10))
    ∘ star space
    ∘ literal "```"
    ∘ star space
    ∘ text_end

-- `_unfence`: the language and the body
unfoldable pub unfence : Text → Text × Text
unfolding match_at begin group_of lower
unfence text = elim (match_at fence (begin text)) [
  | none ↦ ([], text)
  | some m ↦ (lower (group_of 1 m.captured), group_of 2 m.captured)
]

abbrev is_object_text : Text → Bool
is_object_text s = starts_with (codes "{") s

-- The object that the body of a reply is, if it is one.
as_members : Option Json → Option Members
as_members (some (object ms)) = some ms
as_members _ = none

unfoldable pub parsed_object : Text → Option Members
unfolding as_members strip
parsed_object body = if is_object_text (strip body) then as_members (loads (strip body)) else none

-- A text that has more than blanks, without those around it.
prose : Option Json → Option Text
unfolding strip
prose (some (string s)) = elim (strip s) [ [] ↦ none | c ∷ t ↦ some (c ∷ t) ]
prose _ = none

first_prose : List Text → Members → Option Text
unfolding prose
first_prose [] ms = none
first_prose (k ∷ ks) ms =
    let rest = first_prose ks ms in elim (prose (get k ms)) [ none ↦ rest | some t ↦ some t ]

-- `_TEXT_KEYS`, `_ANSWER_KEYS`
abbrev pub text_keys : List Text
text_keys =
    codes "response"
    ∷ codes "answer"
    ∷ codes "text"
    ∷ codes "content"
    ∷ codes "message"
    ∷ codes "output"
    ∷ codes "result"
    ∷ []

abbrev pub answer_keys : List Text
answer_keys =
    codes "answer" ∷ codes "response" ∷ codes "text" ∷ codes "content" ∷ codes "message" ∷ []

abbrev prose_languages : List Text
prose_languages = [] ∷ codes "text" ∷ codes "markdown" ∷ codes "md" ∷ []

or_text : Text → Option Text → Text
or_text text none = text
or_text text (some t) = t

prose_in : Text → Option Members → Text
unfolding or_text first_prose
prose_in text none = text
prose_in text (some ms) = or_text text (first_prose text_keys ms)

unwrapped : Text → Text × Text → Text
unfolding prose_in strip same
unwrapped text (language, body) =
    if is_object_text (strip body)
    then prose_in text (parsed_object body)
    else if any (same language) prose_languages
    then strip body
    else text

unfoldable pub unwrap_json : Text → Text
unfolding unwrapped
unwrap_json text = unwrapped text (unfence text)

-- `normalize_response`, for voice or not
unfoldable pub normalize_response : Bool → Text → Text
unfolding strip unwrap_json strip_markdown
normalize_response voice [] = []
normalize_response voice (c ∷ s) =
    let normalized = unwrap_json (c ∷ s) in
    strip (if voice then strip_markdown normalized else normalized)

-- What is left of a percentage, and whether it is one.
percentage : Text → Bool × Text
unfolding strip right_strip
percentage s = elim (reverse (strip s)) [
  | [] ↦ (false, [])
  | c ∷ t ↦ (c == b'%', strip (right_strip (λ d. d == b'%') (strip s)))
]

-- A number in units of which `u` make a hundredth, between 0 and 1 and rounded down. A NaN is
-- greater than nothing, so `min` and `max` leave 1.
clamped : ℕ → Bool → Float → ℕ
clamped u percent (finite true n d) = 0
clamped u percent (finite false n zero) = 100 * u
clamped u percent (finite false n (suc d)) =
    if percent || leb (10 * suc d) n
    then min (100 * u) (n * u / suc d)
    else min (100 * u) (n * (100 * u) / suc d)
clamped u percent (infinite true) = 0
clamped u percent (infinite false) = 100 * u
clamped u percent nan = 100 * u
clamped u percent too_large = 100 * u

-- `_as_confidence`; `none` where `float` raises, on an integer that is too large.
unfoldable pub as_confidence : ℕ → Option Json → Option (Option ℕ)
unfolding percentage clamped
as_confidence u (some (string s)) =
    let (percent, rest) = percentage s in some (Option.map (clamped u percent) (read_float rest))
as_confidence u (some (number too_large)) = none
as_confidence u (some (number f)) = some (some (clamped u false f))
as_confidence u _ = some none

pub record Answer : Type 0 where
  pub text : Text
  pub confidence : Option ℕ
  pub citations : List Text
  pub unknown : Bool
  pub structured : Bool
  pub tool_call_as_text : Bool

abbrev pub plain_answer : Text → Answer
plain_answer s = record {
  text = s;
  confidence = none;
  citations = [];
  unknown = false;
  structured = false;
  tool_call_as_text = false;
}

abbrev pub tool_call_answer : Answer
tool_call_answer = record {
  text = [];
  confidence = some 0;
  citations = [];
  unknown = true;
  structured = true;
  tool_call_as_text = true;
}

pub has_key : Members → Text → Bool
has_key ms key = elim (get key ms) [ none ↦ false | some v ↦ true ]

unfoldable pub is_tool_call : Members → Bool
unfolding has_key
is_tool_call ms =
    has_key ms (codes "name")
    && has_key ms (codes "arguments")
    && not (any (has_key ms) answer_keys)

as_text : Option Json → Option Text
as_text (some (string s)) = some s
as_text _ = none

first_text : List Text → Members → Option Text
unfolding as_text
first_text [] ms = none
first_text (k ∷ ks) ms =
    let rest = first_text ks ms in elim (as_text (get k ms)) [ none ↦ rest | some t ↦ some t ]

unfoldable pub answer_in : Members → Option Text
unfolding first_text
answer_in ms = first_text answer_keys ms

-- `parsed.get("citations") or parsed.get("citation") or []`
or_true : Option Json → Option Json → Option Json
unfolding is_true
or_true none o = o
or_true (some v) o = if is_true v then some v else o

unfoldable pub raw_citations : Members → Option Json
unfolding or_true
raw_citations ms = or_true (get (codes "citations") ms) (or_true (get (codes "citation") ms) none)

pub citation_of : Text → List Text → List Text
unfolding strip
citation_of s rest = elim (strip s) [ [] ↦ rest | c ∷ t ↦ (c ∷ t) ∷ rest ]

in_items : Items → List Text
unfolding citation_of
in_items nil = []
in_items (item (string s) is) = citation_of s (in_items is)
in_items (item _ is) = in_items is

-- The names of an object, each once.
keys_of : Members → List Text
unfolding same
keys_of end = []
keys_of (field k v ms) = k ∷ keep (λ t. not (same k t)) (keys_of ms)

in_keys : List Text → List Text
unfolding citation_of
in_keys [] = []
in_keys (k ∷ ks) = citation_of k (in_keys ks)

-- The citations that are claimed; `none` where the loop over them raises a `TypeError`, as it does
-- over a number.
unfoldable pub claimed_citations : Option Json → Option (List Text)
unfolding in_items in_keys keys_of citation_of
claimed_citations none = some []
claimed_citations (some null) = some []
claimed_citations (some (string s)) = some (citation_of s [])
claimed_citations (some (array is)) = some (in_items is)
claimed_citations (some (object ms)) = some (in_keys (keys_of ms))
claimed_citations (some (boolean b)) = none
claimed_citations (some (number f)) = none

-- `bool(unknown) if unknown is not None else False`
says_unknown : Option Json → Bool
says_unknown none = false
says_unknown (some v) = is_true v

structured_answer : Option ℕ → Members → Text → Answer
unfolding strip says_unknown
structured_answer confidence ms t = record {
  text = strip t;
  confidence = confidence;
  citations = [];
  unknown = says_unknown (get (codes "unknown") ms);
  structured = true;
  tool_call_as_text = false;
}

abbrev with_citations : Answer → List Text → Answer
with_citations a cs = record a { citations = cs }

pub raw_confidence : Members → Option Json
unfolding get
raw_confidence ms = get (codes "confidence") ms

from_answer : ℕ → Text → Members → Option Text → Option Answer
unfolding strip structured_answer raw_confidence as_confidence Option.bind
from_answer u text ms none = some (plain_answer (strip text))
from_answer u text ms (some t) = Option.bind (claimed_citations (raw_citations ms)) (λ cs.
    Option.map (λ c. with_citations (structured_answer c ms t) cs)
      (as_confidence u (raw_confidence ms)))

from_object : ℕ → Text → Option Members → Option Answer
unfolding strip from_answer
from_object u text none = some (plain_answer (strip text))
from_object u text (some ms) =
    if is_tool_call ms then some tool_call_answer else from_answer u text ms (answer_in ms)

parse_stripped : ℕ → Text → Text → Option Answer
unfolding from_object
parse_stripped u text [] = some (plain_answer text)
parse_stripped u text (c ∷ s) = from_object u text (parsed_object (unfence text).1)

-- `parse_answer`; `none` where it raises.
unfoldable pub parse_answer : ℕ → Text → Option Answer
unfolding parse_stripped strip
parse_answer u text = parse_stripped u text (strip text)
