-- ===== src/Graph/Ground/Sources.antt =====
-- The sources of an answer are among the citations that retrieval returned.
use omnicare_genai_assessmen.Prelude.{
  ℕ, ◌≡◌, refl, Bool, true, false, ◌&&◌, not, some, List, [], ◌∷◌, ◌++◌, All, keep, OneOf,
  Bool-cases, inl, inr, if◌then◌else◌,
}
use omnicare_genai_assessmen.Text.{Text, same}
use omnicare_genai_assessmen.Graph.State.{AgentState, Retrieved}
use omnicare_genai_assessmen.Graph.Answer.{final_answer}
use omnicare_genai_assessmen.Graph.Attribution.{
  is_given, named_sections, sections_by_figure, credited, citations, distinct, or_all, sources_of,
}
use omnicare_genai_assessmen.Graph.Ground.{with_edit, ground_answer, ground, has_any}

abbrev pub Within : List Text → List Text → Type 0
Within ss all = All (λ (s : Text). OneOf s all) ss

abbrev pub IsDistinct : List Text → Type 0
IsDistinct [] = Unit
IsDistinct (s ∷ ss) = All (λ (t : Text). same s t ≡ false) ss × IsDistinct ss

-- What the sources of an answer are, beside the retrieved sections.
pub record Attributed (retrieved : List Retrieved) (sources : List Text) : Type 0 where
  pub within : Within sources (citations retrieved)
  pub distinct : IsDistinct sources
  pub given : has_any (citations retrieved) ≡ true → has_any sources ≡ true

Within-more : (s : Text) (ss all : List Text) → Within ss all → Within ss (s ∷ all)
Within-more s [] all h = tt
Within-more s (t ∷ ss) all h = (inr h.0, Within-more s ss all h.1)

Within-self : (ss : List Text) → Within ss ss
Within-self [] = tt
Within-self (s ∷ ss) = (inl refl, Within-more s ss ss (Within-self ss))

Within-append : (ss ts all : List Text) → Within ss all → Within ts all → Within (ss ++ ts) all
Within-append [] ts all h k = k
Within-append (s ∷ ss) ts all h k = (h.0, Within-append ss ts all h.1 k)

Within-keep : (p : Text → Bool) (ss all : List Text) → Within ss all → Within (keep p ss) all
Within-keep p [] all h = tt
Within-keep p (s ∷ ss) all h = elim (Bool-cases (p s)) [
  | inl y ↦ rw y (h.0, Within-keep p ss all h.1)
  | inr f ↦ rw f (Within-keep p ss all h.1)
]

Within-distinct : (ss all : List Text) → Within ss all → Within (distinct ss) all
unfolding distinct
Within-distinct [] all h = tt
Within-distinct (s ∷ ss) all h =
    (h.0, Within-keep (λ t. not (same s t)) (distinct ss) all (Within-distinct ss all h.1))

-- One section's citation, under a test, against the list of all.
Within-step :
    (b : Bool) (citation : Text) (ss all : List Text)
    → Within ss all
    → Within
        (if is_given citation && b then citation ∷ ss else ss)
        (if is_given citation then citation ∷ all else all)
Within-step b [] ss all h = h
Within-step false (c ∷ s) ss all h = Within-more (c ∷ s) ss all h
Within-step true (c ∷ s) ss all h = (inl refl, Within-more (c ∷ s) ss all h)

named_sections-Within :
    (text : Text) (cs : List Retrieved) → Within (named_sections text cs) (citations cs)
unfolding named_sections citations
named_sections-Within text [] = tt
named_sections-Within text (c ∷ cs) =
    Within-step _ c.citation (named_sections text cs) (citations cs) (named_sections-Within text cs)

credited-Within :
    (answer : List ℕ) (all cs : List Retrieved) → Within (credited answer all cs) (citations cs)
unfolding credited citations
credited-Within answer all [] = tt
credited-Within answer all (c ∷ cs) =
    Within-step _ c.citation (credited answer all cs) (citations cs) (credited-Within answer all cs)

or_all-Within : (ss all : List Text) → Within ss all → Within (or_all ss all) all
or_all-Within [] all h = Within-self all
or_all-Within (s ∷ ss) all h = h

or_all-given : (ss all : List Text) → has_any all ≡ true → has_any (or_all ss all) ≡ true
or_all-given [] all h = h
or_all-given (s ∷ ss) all h = refl

distinct-given : (ss : List Text) → has_any ss ≡ true → has_any (distinct ss) ≡ true
unfolding distinct
distinct-given [] h = h
distinct-given (s ∷ ss) h = refl

keep-differs :
    (p : Text → Bool) (s : Text) (ss : List Text)
    → All (λ (t : Text). same s t ≡ false) ss
    → All (λ (t : Text). same s t ≡ false) (keep p ss)
keep-differs p s [] h = tt
keep-differs p s (t ∷ ss) h = elim (Bool-cases (p t)) [
  | inl y ↦ rw y (h.0, keep-differs p s ss h.1)
  | inr f ↦ rw f (keep-differs p s ss h.1)
]

keep-IsDistinct : (p : Text → Bool) (ss : List Text) → IsDistinct ss → IsDistinct (keep p ss)
keep-IsDistinct p [] h = tt
keep-IsDistinct p (s ∷ ss) h = elim (Bool-cases (p s)) [
  | inl y ↦ rw y (keep-differs p s ss h.0, keep-IsDistinct p ss h.1)
  | inr f ↦ rw f (keep-IsDistinct p ss h.1)
]

kept-differ :
    (s : Text) (ss : List Text)
    → All (λ (t : Text). same s t ≡ false) (keep (λ t. not (same s t)) ss)
kept-differ s [] = tt
kept-differ s (t ∷ ss) = elim (Bool-cases (same s t)) [
  | inl y ↦ rw y (kept-differ s ss)
  | inr f ↦ rw f (f, kept-differ s ss)
]

distinct-IsDistinct : (ss : List Text) → IsDistinct (distinct ss)
unfolding distinct
distinct-IsDistinct [] = tt
distinct-IsDistinct (s ∷ ss) = (
  kept-differ s (distinct ss),
  keep-IsDistinct (λ t. not (same s t)) (distinct ss) (distinct-IsDistinct ss),
)

sources_of-Attributed :
    (text : Text) (retrieved : List Retrieved) → Attributed retrieved (sources_of text retrieved)
unfolding sources_of sections_by_figure
sources_of-Attributed text retrieved =
    let found =
      Within-append (named_sections text retrieved) (sections_by_figure text retrieved)
        (citations retrieved) (named_sections-Within text retrieved)
        (credited-Within _ retrieved retrieved) in
    record {
      within = Within-distinct _ _ (or_all-Within _ (citations retrieved) found);
      distinct = distinct-IsDistinct _;
      given = λ h. distinct-given _ (or_all-given _ (citations retrieved) h);
    }

-- The sources that `ground` reports for an answer are citations of sections that retrieval
-- returned, each once; and where retrieval returned any section with a citation, some source is
-- reported.
pub ground-Attributed :
    (u : ℕ) (st : AgentState) (s : Text)
    → final_answer st.messages ≡ some s
    → Attributed st.retrieved (ground u st).sources
unfolding ground ground_answer with_edit
ground-Attributed u st s h = rw h (sources_of-Attributed _ st.retrieved)
