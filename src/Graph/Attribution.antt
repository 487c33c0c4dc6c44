-- ===== src/Graph/Attribution.antt =====
-- Which retrieved sections an answer is attributed to (backend/agent/app/graph/nodes.py).
use omnicare_genai_assessmen.Prelude.{
  ℕ, Bool, true, false, ◌&&◌, ◌||◌, not, none, some, List, [], ◌∷◌, ◌++◌, if◌then◌else◌, ◌==◌, any,
  keep,
}
use omnicare_genai_assessmen.Text.{Text, same, strip}
use omnicare_genai_assessmen.Text.Regex.{boundary, search_text}
use omnicare_genai_assessmen.Text.Regex.Syntax.{◌∘◌, literal_of}
use omnicare_genai_assessmen.Graph.State.{Retrieved}
use omnicare_genai_assessmen.Graph.Figures.{money}

abbrev pub is_given : Text → Bool
is_given [] = false
is_given (c ∷ s) = true

abbrev pub is_among : ℕ → List ℕ → Bool
is_among n ns = any (λ k. n == k) ns

-- Whether another citation's text has the figure.
pub is_shared : ℕ → Text → List Retrieved → Bool
unfolding money
is_shared n citation [] = false
is_shared n citation (c ∷ cs) =
    (not (same c.citation citation) && is_among n (money c.content)) || is_shared n citation cs

-- `(mine - shared) & answer`, as whether there is any
unfoldable pub has_own_figure : List ℕ → List Retrieved → Retrieved → Bool
unfolding is_shared money
has_own_figure answer all c =
    any (λ n. not (is_shared n c.citation all) && is_among n answer) (money c.content)

unfoldable pub credited : List ℕ → List Retrieved → List Retrieved → List Text
unfolding has_own_figure
credited answer all [] = []
credited answer all (c ∷ cs) =
    let rest = credited answer all cs in
    if is_given c.citation && has_own_figure answer all c then c.citation ∷ rest else rest

-- `_sections_by_figure`
unfoldable pub sections_by_figure : Text → List Retrieved → List Text
unfolding credited money
sections_by_figure text retrieved = credited (money text) retrieved retrieved

before_colon : Text → Text
before_colon [] = []
before_colon (c ∷ s) = let rest = before_colon s in if c == b':' then [] else c ∷ rest

behind_colon : Text → Text
behind_colon [] = []
behind_colon (c ∷ s) = let rest = behind_colon s in if c == b':' then s else rest

forms : Retrieved → List Text
unfolding strip before_colon behind_colon
forms c = keep is_given (
    c.citation
    ∷ c.section_title
    ∷ strip (before_colon c.section_title)
    ∷ strip (behind_colon c.section_title)
    ∷ [])

-- `re.search(rf"\b{re.escape(form)}\b", text)`
names : Text → Text → Bool
names text form = elim (search_text (boundary ∘ literal_of (λ c d. d == c) form ∘ boundary) text) [
  | none ↦ false
  | some m ↦ true
]

-- `_named_sections`
unfoldable pub named_sections : Text → List Retrieved → List Text
unfolding forms names
named_sections text [] = []
named_sections text (c ∷ cs) =
    let rest = named_sections text cs in
    if is_given c.citation && any (names text) (forms c) then c.citation ∷ rest else rest

-- `[c["citation"] for c in retrieved if c.get("citation")]`
unfoldable pub citations : List Retrieved → List Text
citations [] = []
citations (c ∷ cs) =
    let rest = citations cs in if is_given c.citation then c.citation ∷ rest else rest

abbrev pub or_all : List Text → List Text → List Text
or_all [] all = all
or_all (s ∷ ss) all = s ∷ ss

-- `list(dict.fromkeys(items))`
unfoldable pub distinct : List Text → List Text
unfolding same
distinct [] = []
distinct (s ∷ ss) = s ∷ keep (λ t. not (same s t)) (distinct ss)

-- The citations of the answer, as `ground` reports them.
unfoldable pub sources_of : Text → List Retrieved → List Text
unfolding distinct
sources_of text retrieved = distinct (
    or_all (named_sections text retrieved ++ sections_by_figure text retrieved)
      (citations retrieved))
