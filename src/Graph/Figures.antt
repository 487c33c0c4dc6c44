-- ===== src/Graph/Figures.antt =====
-- The figures of an answer, and the comparisons that they disprove
-- (backend/agent/app/graph/nodes.py).
use omnicare_genai_assessmen.Prelude.{
  ℕ, suc, ◌+◌, Bool, true, false, ◌||◌, not, Option, none, some, List, [], ◌∷◌, ◌++◌, if◌then◌else◌,
  ltb, leb, ◌==◌, length, take, drop, any, keep,
}
use mathlib.Core.Option
use omnicare_genai_assessmen.Text.{
  Text, codes, lower, without, decimal, strip, starts_with, is_digit,
}
use omnicare_genai_assessmen.Text.Regex.{Regex, one, star, text_end, Match, find_all, search_text}
use omnicare_genai_assessmen.Text.Regex.Syntax.{
  ◌∘◌, ◌∣◌, opt, plus, digit, space, literal, literal_i, one_of_i, in_set, not_in_set,
}

-- `_NUMBER_RE`, `_MONEY_FLOOR`
abbrev number_pattern : Regex
number_pattern = digit ∘ star (one (λ c. is_digit c || (c == b',')))

abbrev pub money_floor : ℕ
money_floor = 100

pub record MoneySpan : Type 0 where
  pub start : ℕ
  pub stop : ℕ
  pub value : ℕ

spans_of : List Match → List MoneySpan
unfolding decimal without
spans_of [] = []
spans_of (m ∷ ms) =
    let rest = spans_of ms in
    let n = decimal 0 (without b',' m.matched) in
    if leb money_floor n then record { start = m.start; stop = m.stop; value = n } ∷ rest else rest

unfoldable pub money_spans : Text → List MoneySpan
unfolding spans_of
money_spans s = spans_of (find_all number_pattern s)

values : List MoneySpan → List ℕ
values [] = []
values (m ∷ ms) = m.value ∷ values ms

-- `_money_ordered`, and `_money` as a list
unfoldable pub money : Text → List ℕ
unfolding values money_spans
money s = values (money_spans s)

abbrev pub comparison_reach : ℕ
comparison_reach = 25

-- Whether the text between an amount and the comparison is too long or is broken.
abbrev too_far : Text → Bool
too_far gap =
    ltb comparison_reach (length gap) || (any (λ c. c == b',') gap || any (λ c. c == b';') gap)

last_span : List MoneySpan → Option MoneySpan
last_span [] = none
last_span (m ∷ []) = some m
last_span (m ∷ n ∷ ms) = last_span (n ∷ ms)

abbrev first_span : List MoneySpan → Option MoneySpan
first_span [] = none
first_span (m ∷ ms) = some m

pair_of : Text → Text → Option MoneySpan → Option MoneySpan → Option (ℕ × ℕ)
pair_of left right none o = none
pair_of left right (some a) none = none
pair_of left right (some a) (some b) =
    if too_far (drop a.stop left) || too_far (take b.start right)
    then none
    else some (a.value, b.value)

-- `_compared_amounts`, given the texts on both sides of the comparison
unfoldable pub compared_amounts : Text → Text → Option (ℕ × ℕ)
unfolding pair_of last_span money_spans
compared_amounts left right =
    pair_of left right (last_span (money_spans left)) (first_span (money_spans right))

-- `s.find(p)`; `none` for -1.
unfoldable pub find_text : Text → Text → Option ℕ
unfolding starts_with
find_text p [] = if starts_with p [] then some 0 else none
find_text p (c ∷ s) =
    let rest = Option.map suc (find_text p s) in if starts_with p (c ∷ s) then some 0 else rest

-- `_GREATER`, `_LESSER`
abbrev pub greater_terms : List Text
greater_terms =
    codes "exceeds"
    ∷ codes "exceed"
    ∷ codes "exceeding"
    ∷ codes "more than"
    ∷ codes "greater than"
    ∷ codes "higher than"
    ∷ []

abbrev pub lesser_terms : List Text
lesser_terms =
    codes "under"
    ∷ codes "below"
    ∷ codes "less than"
    ∷ codes "lower than"
    ∷ codes "cheaper than"
    ∷ []

-- What a term asserts: that the amount before it is the larger, or the smaller.
pub data Relation : Type 0 where
  greater lesser : Relation

unfoldable pub relates : Relation → ℕ × ℕ → Bool
relates greater (a, b) = ltb b a
relates lesser (a, b) = ltb a b

abbrev spaced : Text → Text
spaced term = 32 ∷ (term ++ (32 ∷ []))

pair_at : Text → Text → Option ℕ → Option (ℕ × ℕ)
unfolding compared_amounts
pair_at sentence term none = none
pair_at sentence term (some at) =
    compared_amounts (take (suc at) sentence) (drop (suc at + length term) sentence)

-- The amounts that the first occurrence of a term compares.
pub term_pair : Text → Text → Option (ℕ × ℕ)
unfolding pair_at find_text lower
term_pair sentence term = pair_at sentence term (find_text (spaced term) (lower sentence))

abbrev pub judged : Relation → Option (ℕ × ℕ) → Option Bool → Option Bool
judged r none later = later
judged r (some p) later = some (not (relates r p))

-- The verdict of the first term that compares two amounts.
pub by_terms : Relation → List Text → Text → Option Bool → Option Bool
unfolding term_pair
by_terms r [] sentence later = later
by_terms r (t ∷ ts) sentence later = judged r (term_pair sentence t) (by_terms r ts sentence later)

abbrev pub or_false : Option Bool → Bool
or_false none = false
or_false (some b) = b

unfoldable pub contradicts_itself : Text → Bool
unfolding by_terms
contradicts_itself sentence =
    or_false (by_terms greater greater_terms sentence (by_terms lesser lesser_terms sentence none))

-- `_SENTENCE_RE`
abbrev sentence_pattern : Regex
sentence_pattern =
    (star (not_in_set ".!?") ∘ plus (in_set ".!?") ∘ star space)
    ∣ (plus (not_in_set ".!?") ∘ text_end)

texts_of : List Match → List Text
texts_of [] = []
texts_of (m ∷ ms) = m.matched ∷ texts_of ms

unfoldable pub sentences : Text → List Text
unfolding texts_of
sentences s = texts_of (find_all sentence_pattern s)

pub all_of : List Text → Text
all_of [] = []
all_of (s ∷ ss) = s ++ all_of ss

unfoldable pub drop_false_comparisons : Text → Text
unfolding contradicts_itself all_of strip
drop_false_comparisons s =
    let parts = sentences s in
    let kept = keep (λ t. not (contradicts_itself t)) parts in
    if length kept == length parts then s else strip (all_of kept)

amount : Regex
amount = literal "$" ∘ opt space ∘ plus (one (λ c. is_digit c || (c == b',')))

-- `_ESTIMATED_AMOUNT_RE`
estimated_amount_pattern : Regex
unfolding amount
estimated_amount_pattern =
    (((literal_i "i" ∘ plus space ∘ literal_i "will")
        ∣ literal_i "i'll"
        ∣ (literal_i "let" ∘ opt (literal "'") ∘ literal_i "s")
        ∣ (literal_i "we" ∘ plus space ∘ literal_i "will")
        ∣ literal_i "we'll"
        ∣ (literal_i "going" ∘ plus space ∘ literal_i "to"))
      ∘ plus space
      ∘ literal_i "use"
      ∘ plus space
      ∘ amount)
    ∣ (amount
        ∘ star space
        ∘ literal "("
        ∘ star space
        ∘ opt (literal_i "an" ∘ plus space)
        ∘ literal_i "estimate"
        ∘ opt (one_of_i ("d" ∷ "s" ∷ []))
        ∘ star space
        ∘ literal ")")
    ∣ (one_of_i ("estimated" ∷ "approximate" ∷ [])
        ∘ plus space
        ∘ one_of_i ("amount" ∷ "total" ∷ "value" ∷ [])
        ∘ plus space
        ∘ literal_i "of"
        ∘ plus space
        ∘ amount)
    ∣ (amount
        ∘ plus space
        ∘ literal_i "as"
        ∘ plus space
        ∘ literal_i "a"
        ∘ opt (literal_i "n")
        ∘ plus space
        ∘ opt (one_of_i ("initial" ∷ "rough" ∷ "placeholder" ∷ []) ∘ plus space)
        ∘ literal_i "estimate")

unfoldable pub asserts_an_estimated_amount : Text → Bool
unfolding estimated_amount_pattern
asserts_an_estimated_amount s = elim (search_text estimated_amount_pattern s) [
  | none ↦ false
  | some m ↦ true
]
