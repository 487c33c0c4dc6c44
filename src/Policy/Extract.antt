-- ===== src/Policy/Extract.antt =====
-- The figures and exclusions read out of a section's prose (backend/libs/policy/rules.py).
pub mod Kinds
use omnicare_genai_assessmen.Prelude.{
  ℕ, ◌+◌, ◌*◌, Bool, true, false, ◌&&◌, ◌||◌, not, Option, none, some, List, [], ◌∷◌, ◌++◌, ◌==◌,
  if◌then◌else◌, any, keep, map,
}
use omnicare_genai_assessmen.Text.{Text, codes, same, strip, without, decimal, is_digit}
use omnicare_genai_assessmen.Text.Regex.{
  Regex, one, seq, alt, star, group, after, boundary, Match, find_all, search_text, group_of,
  split_text,
}
use omnicare_genai_assessmen.Text.Regex.Syntax.{
  ◌∘◌, ◌∣◌, opt, plus, times, digit, space, member, literal, literal_i, one_of_i,
}
use mathlib.Core.Option

pub data RuleKind : Type 0 where
  limit deductible per_item_threshold : RuleKind

unfoldable pub same_kind : RuleKind → RuleKind → Bool
same_kind limit limit = true
same_kind deductible deductible = true
same_kind per_item_threshold per_item_threshold = true
same_kind _ _ = false

-- `_AMOUNT`, with the figure as group 1.
amount : Regex
amount =
    literal "$"
    ∘ opt space
    ∘ group 1 (plus (one (λ c. is_digit c || (c == b','))) ∘ opt (literal "." ∘ times 2 digit))

abbrev gap : Regex
gap = plus space

-- `_PATTERNS`, in the order in which they are tried.
pub patterns : List (RuleKind × Regex)
unfolding amount
patterns =
    (deductible, amount ∘ gap ∘ literal_i "deductible")
    ∷ (deductible, literal_i "deductible" ∘ gap ∘ literal_i "of" ∘ gap ∘ amount)
    ∷ (
      per_item_threshold,
      opt (literal_i "single" ∘ gap)
          ∘ literal_i "item"
          ∘ opt (literal_i "s")
          ∘ gap
          ∘ one_of_i ("exceeding" ∷ "over" ∷ "above" ∷ [])
          ∘ gap
          ∘ amount,
    )
    ∷ (limit, literal_i "covered" ∘ gap ∘ literal_i "up" ∘ gap ∘ literal_i "to" ∘ gap ∘ amount)
    ∷ (limit, literal_i "up" ∘ gap ∘ literal_i "to" ∘ gap ∘ amount)
    ∷ (
      limit,
      one_of_i ("capped" ∷ "limited" ∷ []) ∘ gap ∘ one_of_i ("at" ∷ "to" ∷ []) ∘ gap ∘ amount,
    )
    ∷ (limit, literal_i "maximum" ∘ gap ∘ opt (literal_i "of" ∘ gap) ∘ amount)
    ∷ []

-- `amount` is in cents: the pattern admits no more than two decimals.
pub record CoverageRule : Type 0 where
  pub kind : RuleKind
  pub amount : ℕ
  pub source_text : Text
  pub section_title : Text

abbrev is_blank : Text → Bool
is_blank [] = true
is_blank _ = false

pub sentences : Text → List Text
sentences s =
    keep (λ t. not (is_blank t))
      (map strip (split_text (after (member (codes ".!?")) ∘ plus space) s))

-- The cents that stand for a figure with no thousands separators. `Decimal("")` raises: a figure of
-- separators alone is an error, `none`.
cents_of : Text → ℕ → Option ℕ
cents_of [] n = some (n * 100)
cents_of (c ∷ s) n =
    if c == b'.' then some (n * 100 + decimal 0 s) else cents_of s (n * 10 + (decimal 0 (c ∷ [])))

pub parse_amount : Text → Option ℕ
unfolding cents_of
parse_amount [] = none
parse_amount (c ∷ s) = cents_of (c ∷ s) 0

unfoldable pub known : RuleKind → List CoverageRule → Bool
known k found = any (λ r. same_kind r.kind k) found

-- The figures of a sentence that have been accounted for, and the rules found so far.
pub record Reading : Type 0 where
  pub claimed : List Text
  pub found : List CoverageRule

abbrev add_rule : Option ℕ → RuleKind → Text → Text → Text → Reading → Option Reading
add_rule none k raw sentence title st = none
add_rule (some n) k raw sentence title st = some (record {
  claimed = raw ∷ st.claimed;
  found =
      st.found
      ++ (record { kind = k; amount = n; source_text = sentence; section_title = title } ∷ []);
})

-- The body of the innermost loop.
pub read_match : RuleKind → Text → Text → Text → Reading → Option Reading
unfolding known parse_amount
read_match k sentence title raw st =
    if any (same raw) st.claimed
    then some st
    else if known k st.found
    then some (record st { claimed = raw ∷ st.claimed })
    else add_rule (parse_amount (without b',' raw)) k raw sentence title st

pub read_matches : RuleKind → Text → Text → List Match → Option Reading → Option Reading
unfolding read_match
read_matches k sentence title [] st = st
read_matches k sentence title (m ∷ ms) st =
    read_matches k sentence title ms
      (Option.bind st (read_match k sentence title (group_of 1 m.captured)))

pub read_patterns : List (RuleKind × Regex) → Text → Text → Option Reading → Option Reading
unfolding read_matches
read_patterns [] sentence title st = st
read_patterns ((k, p) ∷ ps) sentence title st =
    read_patterns ps sentence title (read_matches k sentence title (find_all p sentence) st)

pub read_sentences : List Text → Text → Option (List CoverageRule) → Option (List CoverageRule)
unfolding read_patterns patterns
read_sentences [] title found = found
read_sentences (s ∷ ss) title found = read_sentences ss title (
    Option.map (λ (st : Reading). st.found)
      (read_patterns patterns s title
        (Option.map (λ (f : List CoverageRule). record { claimed = []; found = f }) found)))

unfoldable pub extract_rules : Text → Text → Option (List CoverageRule)
unfolding read_sentences sentences
extract_rules text title = read_sentences (sentences text) title (some [])

-- `_EXCLUSION_RE`
exclusion : Regex
exclusion =
    boundary
    ∘ (literal_i "excluded"
        ∣ literal_i "not" ∘ gap ∘ literal_i "covered"
        ∣ literal_i "does" ∘ gap ∘ literal_i "not" ∘ gap ∘ literal_i "cover"
        ∣ literal_i "no" ∘ gap ∘ literal_i "coverage")
    ∘ boundary

abbrev is_some {ℓ} : {A : Type ℓ} → Option A → Bool
is_some none = false
is_some (some a) = true

unfoldable pub exclusions_in : Text → List Text
unfolding sentences exclusion
exclusions_in text = keep (λ s. is_some (search_text exclusion s)) (sentences text)
