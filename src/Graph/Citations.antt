-- ===== src/Graph/Citations.antt =====
-- The citations that an answer writes, and the removal of those that retrieval did not return
-- (backend/agent/app/graph/nodes.py).
use omnicare_genai_assessmen.Prelude.{
  ℕ, zero, suc, ◌+◌, ◌-◌, Bool, true, false, ◌||◌, not, Option, none, some, List, [], ◌∷◌, ◌++◌,
  if◌then◌else◌, leb, ◌==◌, length, take, drop, any, find, map,
}
use omnicare_genai_assessmen.Prelude.Sorting.{sorted}
use omnicare_genai_assessmen.Text.{
  Text, codes, same, lower, strip, left_strip, right_strip, starts_with, join, is_word, is_space,
  is_lower,
}
use omnicare_genai_assessmen.Text.Regex.{
  Regex, one, star, text_end, Match, find_all, match_at, begin, substitute,
}
use omnicare_genai_assessmen.Text.Regex.Syntax.{
  ◌∘◌, opt, plus, space, literal, literal_i, one_of_i, in_set, member,
}

-- `_TYPOGRAPHIC`: a blank, a dash or a quote that stands for one of ASCII.
unfoldable pub plain : ℕ → ℕ
plain c =
    if any (λ d. c == d) (160 ∷ 8239 ∷ 8201 ∷ 8199 ∷ [])
    then 32
    else if any (λ d. c == d) (8208 ∷ 8209 ∷ 8210 ∷ 8211 ∷ 8212 ∷ 8722 ∷ [])
    then b'-'
    else if any (λ d. c == d) (8216 ∷ 8217 ∷ [])
    then 39
    else if any (λ d. c == d) (8220 ∷ 8221 ∷ [])
    then 34
    else c

abbrev is_decoration : ℕ → Bool
is_decoration c = member (codes " *_`\"'.,;:") c

one_blank : Text → Text
one_blank s = substitute (plus space) (λ m. 32 ∷ []) s

-- `_typographic`
unfoldable pub typographic : Text → Text
unfolding plain one_blank strip lower left_strip right_strip
typographic s =
    lower (strip (one_blank (right_strip is_decoration (left_strip is_decoration (map plain s)))))

-- `_CITATION_HEAD`; the sign of a section is 167.
citation_head : Regex
citation_head =
    plus (one (λ c. is_word c || member (codes ".-") c))
    ∘ literal ".md"
    ∘ star space
    ∘ one (λ c. c == 167)
    ∘ star space

-- `_CITATION_TAIL`
title_run : ℕ → Text → Text
title_run zero s = []
title_run (suc n) [] = []
title_run (suc n) (c ∷ s) =
    let rest = title_run n s in if (c == 10) || member (codes ",;)") c then [] else c ∷ rest

-- `_TITLE_TOKEN`
abbrev title_token : Regex
title_token =
    one (λ c. not (is_space c || is_lower c)) ∘ star (one (λ c. not (is_space c))) ∘ text_end

is_title_token : Text → Bool
is_title_token s = elim (match_at title_token (begin s)) [ none ↦ false | some m ↦ true ]

-- `s.split(" ")`, with what is read of the piece so far
split_blank : Text → List Text
split_blank [] = [] ∷ []
split_blank (c ∷ s) = elim (split_blank s) [
  | [] ↦ (c ∷ []) ∷ []
  | piece ∷ pieces ↦ if c == 32 then [] ∷ piece ∷ pieces else (c ∷ piece) ∷ pieces
]

title_words : List Text → List Text
unfolding is_title_token
title_words [] = []
title_words (w ∷ ws) = let rest = title_words ws in if is_title_token w then w ∷ rest else []

-- The words up to the first that reads as prose; the first is kept as it is.
kept_words : List Text → List Text
unfolding title_words
kept_words [] = []
kept_words (w ∷ ws) = w ∷ title_words ws

pub record CitationSpan : Type 0 where
  pub start : ℕ
  pub stop : ℕ
  pub is_real : Bool

-- Whether a text begins with a citation, up to typography.
unfoldable pub begins_with : Text → Text → Bool
unfolding typographic same
begins_with tail c = same (typographic (take (length c) tail)) (typographic c)

-- How many citations begin with what was written, up to typography.
pub named_by : Text → List Text → ℕ
unfolding typographic starts_with
named_by claimed [] = 0
named_by claimed (c ∷ cs) =
    let rest = named_by claimed cs in if starts_with claimed (typographic c) then suc rest else rest

-- The span of what was written, when no citation begins there.
written_span : List Text → ℕ → Text → ℕ → CitationSpan
unfolding title_run split_blank kept_words join typographic named_by
written_span ordered start tail head_length =
    let title = title_run 90 (drop head_length tail) in
    let size = head_length + length (join (32 ∷ []) (kept_words (split_blank title))) in
    record {
      start = start;
      stop = start + size;
      is_real = named_by (typographic (take size tail)) ordered == 1;
    }

span_by : Option Text → List Text → ℕ → Text → ℕ → CitationSpan
unfolding written_span
span_by (some c) ordered start tail head_length = record {
  start = start;
  stop = start + length c;
  is_real = true;
}
span_by none ordered start tail head_length = written_span ordered start tail head_length

-- The longest first.
unfoldable pub longest_first : List Text → List Text
unfolding sorted
longest_first cs = sorted (λ (s t : Text). leb (length t) (length s)) cs

spans_at : List Text → Text → List Match → List CitationSpan
unfolding span_by begins_with
spans_at ordered text [] = []
spans_at ordered text (m ∷ ms) =
    let tail = drop m.start text in
    span_by (find (begins_with tail) ordered) ordered m.start tail (m.stop - m.start)
    ∷ spans_at ordered text ms

-- `_citation_spans`; the citations that are valid are a list without repetition.
unfoldable pub citation_spans : Text → List Text → List CitationSpan
unfolding spans_at longest_first citation_head
citation_spans text valid = spans_at (longest_first valid) text (find_all citation_head text)

-- The invented ones are cut out of the text, the last one first.
unfoldable pub cut : List CitationSpan → Text → Text
cut [] text = text
cut (s ∷ ss) text =
    let rest = cut ss text in if s.is_real then rest else take s.start rest ++ drop s.stop rest

-- `_ORPHANED_LABEL`
orphaned_label : Regex
orphaned_label =
    opt (one (λ c. c == 10))
    ∘ star space
    ∘ star (in_set "*_`")
    ∘ star space
    ∘ one_of_i ("citation" ∷ "source" ∷ "reference" ∷ [])
    ∘ opt (literal_i "s")
    ∘ star space
    ∘ opt (literal ":")
    ∘ star space
    ∘ star (in_set "*_`")
    ∘ star space
    ∘ text_end

unfoldable pub drop_orphaned_label : Text → Text
unfolding orphaned_label right_strip
drop_orphaned_label s = right_strip is_space (substitute orphaned_label (λ m. []) s)

-- What is left of the text without the invented citations.
unfoldable pub tidied : Text → Text
unfolding strip
tidied s =
    let no_round = substitute (literal "()") (λ m. []) s in
    let no_square = substitute (literal "[]") (λ m. []) no_round in
    strip (substitute (in_set " \t" ∘ plus (in_set " \t")) (λ m. 32 ∷ []) no_square)
