-- ===== src/Graph/Confirm.antt =====
-- The `confirm` node of backend/agent/app/graph/nodes.py: what is checked before a claim is filed.
pub mod Consent
use omnicare_genai_assessmen.Prelude.{
  ℕ, zero, suc, ◌+◌, ◌-◌, ◌*◌, ◌/◌, ◌^◌, Bool, true, false, ◌||◌, ◌&&◌, not, Option, none, some,
  List, [], ◌∷◌, ◌++◌, if◌then◌else◌, leb, ◌==◌, any, length, all,
}
use mathlib.Core.Option
use omnicare_genai_assessmen.Text.{
  Text, codes, same, strip, upper, lower, decimal, is_digit, is_space, join, without,
}
use omnicare_genai_assessmen.Text.Regex.{
  Regex, one, star, Match, find_all, match_at, begin, text_end, group, group_of,
}
use omnicare_genai_assessmen.Text.Regex.Syntax.{
  ◌∘◌, ◌∣◌, opt, plus, times, digit, space, literal, literal_i, in_set,
}
use omnicare_genai_assessmen.Guardrails.Amounts.{spoken_amounts}
use omnicare_genai_assessmen.Guardrails.Normalize.{normalize_policy_number}
use omnicare_genai_assessmen.Graph.State.{
  WriteArgs, Message, human, system, ai, tool_result, AgentState, Invocation,
}

abbrev pub is_blank : Text → Bool
is_blank [] = true
is_blank (c ∷ s) = false

-- `_POLICY_RE`
pub policy_pattern : Regex
policy_pattern = literal_i "pol" ∘ opt (one (λ c. (c == b'-') || is_space c)) ∘ times 4 digit

dashed : ℕ → ℕ
dashed c = if (c == b'-') || is_space c then b'-' else c

abbrev map_text : (ℕ → ℕ) → Text → Text
map_text f [] = []
map_text f (c ∷ s) = f c ∷ map_text f s

written_numbers : List Match → List Text
unfolding dashed upper
written_numbers [] = []
written_numbers (m ∷ ms) = upper (map_text dashed m.matched) ∷ written_numbers ms

abbrev list_of : Option Text → List Text
list_of none = []
list_of (some t) = upper (strip t) ∷ []

-- The policy numbers that a text writes, in the canonical form.
unfoldable pub numbers_in : Text → List Text
unfolding written_numbers policy_pattern
numbers_in s = written_numbers (find_all policy_pattern s)

pub stated_in : Text → List Text
unfolding numbers_in
stated_in s = list_of (normalize_policy_number s) ++ numbers_in s

unfoldable pub policy_numbers_stated : List Message → List Text
unfolding stated_in
policy_numbers_stated [] = []
policy_numbers_stated (human s ∷ ms) = stated_in s ++ policy_numbers_stated ms
policy_numbers_stated (_ ∷ ms) = policy_numbers_stated ms

unfoldable pub policy_numbers_from_tools : List Invocation → List Text
unfolding numbers_in
policy_numbers_from_tools [] = []
policy_numbers_from_tools (i ∷ is) = numbers_in i.result ++ policy_numbers_from_tools is

-- A number as `Decimal` reads it: groups for the digits, those behind the point, the sign and the
-- digits of the exponent.
number_pattern : Regex
number_pattern =
    opt (literal "+")
    ∘ (group 1 (plus digit) ∘ opt (literal "." ∘ group 2 (star digit))
        ∣ literal "." ∘ group 2 (plus digit))
    ∘ opt (literal_i "e" ∘ (group 3 (literal "-") ∣ opt (literal "+")) ∘ group 4 (plus digit))
    ∘ text_end

number_of : List (ℕ × Text) → ℕ
number_of groups =
    let fraction = group_of 2 groups in
    let digits = decimal 0 (group_of 1 groups ++ fraction) in
    let exponent = decimal 0 (group_of 4 groups) in
    if is_blank (group_of 3 groups)
    then digits * 10 ^ exponent / 10 ^ length fraction
    else digits / 10 ^ (length fraction + exponent)

-- The whole dollars of an amount, `int(Decimal(s))`; `none` if it is no number or has a minus sign,
-- as no amount that is said does.
unfoldable pub whole_dollars : Text → Option ℕ
unfolding number_pattern number_of
whole_dollars s =
    Option.map (λ (m : Match). number_of m.captured)
      (match_at number_pattern (begin (strip (without b'_' s))))

infinity_pattern : Regex
infinity_pattern = opt (in_set "+-") ∘ literal_i "inf" ∘ opt (literal_i "inity") ∘ text_end

-- Whether `Decimal` reads an infinity, of which `int` raises an OverflowError.
unfoldable pub is_infinite : Text → Bool
unfolding infinity_pattern
is_infinite s = elim (match_at infinity_pattern (begin (strip (without b'_' s)))) [
  | some m ↦ true
  | none ↦ false
]

pub says_amount : ℕ → List Message → Bool
says_amount n [] = false
says_amount n (human s ∷ ms) = any (λ k. n == k) (spoken_amounts s) || says_amount n ms
says_amount n (_ ∷ ms) = says_amount n ms

says_it : Option ℕ → List Message → Bool
unfolding says_amount
says_it none ms = false
says_it (some n) ms = says_amount n ms

-- `_amount_was_stated`, where it returns
unfoldable pub amount_was_stated : Text → List Message → Bool
unfolding says_it whole_dollars
amount_was_stated amount ms = says_it (whole_dollars amount) ms

abbrev pub text_or_empty : Option Text → Text
text_or_empty none = []
text_or_empty (some t) = t

-- The policy number of the write, as it is compared.
pub claimed : WriteArgs → Text
claimed a = upper (strip (text_or_empty a.policy_number))

unfoldable pub number_is_stated : WriteArgs → List Message → Bool
unfolding claimed
number_is_stated a ms = is_blank (claimed a) || any (same (claimed a)) (policy_numbers_stated ms)

amount_ok : Option Text → List Message → Bool
amount_ok none ms = true
amount_ok (some s) ms = amount_was_stated s ms

unfoldable pub amount_is_stated : WriteArgs → List Message → Bool
unfolding amount_ok
amount_is_stated a ms = amount_ok a.amount ms

amount_raises : Option Text → Bool
unfolding is_infinite
amount_raises none = false
amount_raises (some s) = is_infinite s

abbrev pub yes_words : List Text
yes_words =
    codes "yes"
    ∷ codes "y"
    ∷ codes "confirm"
    ∷ codes "confirmed"
    ∷ codes "go ahead"
    ∷ codes "ok"
    ∷ codes "okay"
    ∷ codes "yep"
    ∷ codes "sure"
    ∷ []

unfoldable pub approved : Text → Bool
unfolding strip lower same
approved answer = any (same (lower (strip answer))) yes_words

abbrev pub ask_number : Text
ask_number =
    codes
      "Before I can file this, I need your policy number - the letters POL, a hyphen and four digits, from your policy documents. I don't have one from you yet, and I won't file a claim against a number I guessed."

abbrev pub ask_amount : Text
ask_amount =
    codes
      "I can't file this yet: I don't have an amount from you, and I won't put an estimate on a claim. How much are you claiming? A total figure is enough."

abbrev pub declined : Text
declined =
    codes
      "No problem - I haven't filed anything. Let me know if you'd like to change any of the details."

-- The write is dropped with an answer.
abbrev pub dropped : Text → AgentState → AgentState
dropped answer st = record st {
  pending_write = none;
  pending_settlement = none;
  messages = st.messages ++ (ai answer [] ∷ []);
}

abbrev no_args : WriteArgs
no_args = record {
  policy_number = none;
  claim_type = none;
  amount = none;
  description = none;
  others = [];
}

abbrev pub pending_or_empty : Option WriteArgs → WriteArgs
pending_or_empty none = no_args
pending_or_empty (some a) = a

confirm_pending : Text → WriteArgs → AgentState → Option AgentState
unfolding number_is_stated amount_is_stated amount_raises approved
confirm_pending answer a st =
    if not (number_is_stated a st.messages)
    then some (dropped ask_number st)
    else if amount_raises a.amount
    then none
    else if not (amount_is_stated a st.messages)
    then some (dropped ask_amount st)
    else if approved answer
    then some (record st { pending_write = some a })
    else some (dropped declined st)

-- `confirm`, with the answer that the interrupt comes back with; `none` where it raises.
unfoldable pub confirm : Bool → Text → AgentState → Option AgentState
unfolding confirm_pending
confirm false answer st =
    some (record st { pending_write = some (pending_or_empty st.pending_write) })
confirm true answer st = confirm_pending answer (pending_or_empty st.pending_write) st
