-- ===== src/Policy/Governing.antt =====
-- Which section governs a claim type, and the settlement read out of it
-- (`_governing_section`, `coverage_limit_for`, `settlement_for` of backend/libs/policy/rules.py).
-- A result `none` stands for an exception, which only a figure with no digits raises.
pub mod Agreement
pub mod Preference
use omnicare_genai_assessmen.Prelude.{
  ℕ, ◌*◌, ◌+◌, Bool, true, false, ◌||◌, ◌&&◌, not, Option, none, some, List, [], ◌∷◌, ◌++◌,
  if◌then◌else◌, any, find,
}
use omnicare_genai_assessmen.Prelude.Int.{ℤ, pos, scale}
use omnicare_genai_assessmen.Text.{Text, codes, same, strip, lower, contains}
use omnicare_genai_assessmen.Text.Regex.{substitute, Match}
use omnicare_genai_assessmen.Text.Regex.Syntax.{plus, space}
use omnicare_genai_assessmen.Policy.Extract.{
  RuleKind, limit, deductible, same_kind, CoverageRule, extract_rules, exclusions_in,
}
use omnicare_genai_assessmen.Policy.Settlement.{Settlement, Wording, settle}
use mathlib.Core.Option

-- A section as `_unpack` returns it: a file that the caller did not name is empty.
pub record Section : Type 0 where
  pub title : Text
  pub text : Text
  pub source_file : Text

unfoldable pub normalised : Text → Text
normalised s = lower (strip (substitute (plus space) (λ m. codes " ") s))

unfoldable pub names : Text → Section → Bool
unfolding normalised
names wanted s = contains wanted (normalised s.title) || contains wanted (normalised s.text)

pub states : RuleKind → List CoverageRule → Bool
states k rules = any (λ r. same_kind r.kind k) rules

abbrev pub rules_of : Section → Option (List CoverageRule)
rules_of s = extract_rules s.text s.title

-- `if fallback is None: fallback = ...`
abbrev pub or_first : Option Section → Section → Section
or_first none s = s
or_first (some f) s = f

-- The loop over the sections, with the fallback so far.
unfoldable pub choose : Text → Option Section → List Section → Option (Option Section)
unfolding names states
choose wanted fallback [] = some fallback
choose wanted fallback (s ∷ rest) =
    let skip = choose wanted fallback rest in
    let go_on = choose wanted (some (or_first fallback s)) rest in
    if names wanted s
    then elim (rules_of s) [
      | none ↦ none
      | some rules ↦ if states limit rules then some (some s) else go_on
    ]
    else skip

abbrev pub is_blank : Text → Bool
is_blank [] = true
is_blank _ = false

unfoldable pub governing_section : Text → List Section → Option (Option Section)
unfolding choose
governing_section claim_type sections =
    let wanted = normalised claim_type in
    if is_blank wanted then some none else choose wanted none sections

-- `next((r for r in rules if r.kind is k), None)`
pub first_rule : RuleKind → List CoverageRule → Option CoverageRule
first_rule k rules = find (λ r. same_kind r.kind k) rules

-- `{r.kind: r for r in rules}.get(k)`
pub last_rule : RuleKind → List CoverageRule → Option CoverageRule
last_rule k [] = none
last_rule k (r ∷ rs) = elim (last_rule k rs) [
  | some later ↦ some later
  | none ↦ if same_kind r.kind k then some r else none
]

limit_in : Option Section → Option (Option CoverageRule)
unfolding first_rule
limit_in none = some none
limit_in (some s) = Option.map (first_rule limit) (rules_of s)

unfoldable pub coverage_limit_for : Text → List Section → Option (Option CoverageRule)
unfolding governing_section limit_in
coverage_limit_for claim_type sections =
    Option.bind (governing_section claim_type sections) limit_in

-- `dict.fromkeys` over the sentences of the two figures.
pub says : Option CoverageRule → Option CoverageRule → List Text
says none none = []
says (some l) none = l.source_text ∷ []
says none (some d) = d.source_text ∷ []
says (some l) (some d) =
    if same l.source_text d.source_text
    then l.source_text ∷ []
    else l.source_text ∷ d.source_text ∷ []

-- A figure of the policy, in units.
abbrev pub units : ℕ → Option CoverageRule → Option ℤ
units u rule = Option.map (λ (r : CoverageRule). scale (pos r.amount) u) rule

pub settlement_of : ℕ → ℤ → Section → Option CoverageRule → Option CoverageRule → Option Settlement
unfolding says
settlement_of u amount s none none = none
settlement_of u amount s l d = some (
    settle u amount (units u l) (units u d) (record {
      section_title = s.title;
      source_file = s.source_file;
      policy_says = says l d;
      exclusions = exclusions_in s.text;
    }))

settlement_in : ℕ → ℤ → Option Section → Option (Option Settlement)
unfolding settlement_of last_rule
settlement_in u amount none = some none
settlement_in u amount (some s) =
    Option.map
      (λ (rules : List CoverageRule).
        settlement_of u amount s (last_rule limit rules) (last_rule deductible rules))
      (rules_of s)

unfoldable pub settlement_for : ℕ → Text → ℤ → List Section → Option (Option Settlement)
unfolding governing_section settlement_in
settlement_for u claim_type amount sections =
    Option.bind (governing_section claim_type sections) (settlement_in u amount)
