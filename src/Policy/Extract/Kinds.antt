-- ===== src/Policy/Extract/Kinds.antt =====
-- What `extract_rules` finds: one rule of a kind, each quoting a sentence of the section.
use omnicare_genai_assessmen.Prelude.{IfOk, OneOf}
use omnicare_genai_assessmen.Prelude.{
  ℕ, ◌≡◌, refl, ◌∙◌, inl, inr, false, Option, none, some, List, [], ◌∷◌, ◌++◌, arith, Bool-cases,
  any, All,
}
use mathlib.Core.Option
use omnicare_genai_assessmen.Text.{Text, same, without}
use omnicare_genai_assessmen.Text.Regex.{Regex, Match, find_all, group_of}
use omnicare_genai_assessmen.Policy.Extract.{
  RuleKind, limit, deductible, per_item_threshold, same_kind, CoverageRule, Reading, known,
  parse_amount, add_rule, read_match, read_matches, read_patterns, read_sentences, patterns,
  sentences, extract_rules,
}

pub same_kind-sym : (a b : RuleKind) → same_kind a b ≡ same_kind b a
unfolding same_kind
same_kind-sym limit b = ground arith
same_kind-sym deductible b = ground arith
same_kind-sym per_item_threshold b = ground arith

-- No kind stands twice.
abbrev pub Distinct : List CoverageRule → Type 0
Distinct [] = Unit
Distinct (r ∷ rs) = (known r.kind rs ≡ false) × Distinct rs

known-append :
    (k : RuleKind) (f : List CoverageRule) (r : CoverageRule)
    → known k f ≡ false
    → same_kind r.kind k ≡ false
    → known k (f ++ (r ∷ [])) ≡ false
unfolding known
known-append k [] r h e = ground arith
known-append k (x ∷ f) r h e = ground (arith, known-append k f r (ground arith) e)

Distinct-append :
    (f : List CoverageRule) (r : CoverageRule)
    → Distinct f
    → known r.kind f ≡ false
    → Distinct (f ++ (r ∷ []))
Distinct-append [] r d h = unfold known in (refl, tt)
Distinct-append (x ∷ f) r d h = (
  known-append x.kind f r d.0 (same_kind-sym r.kind x.kind ∙ head_differs),
  Distinct-append f r d.1 tail_unknown,
)
  where
    head_differs : same_kind x.kind r.kind ≡ false
    head_differs = unfold known in ground arith

    tail_unknown : known r.kind f ≡ false
    tail_unknown = unfold known in ground arith

module _ (title : Text) (quotes : List Text) where
  abbrev FromText : CoverageRule → Type 0
  FromText r = (r.section_title ≡ title) × OneOf r.source_text quotes

  pub record IsSound (rules : List CoverageRule) : Type 0 where
    pub distinct : Distinct rules
    pub from_text : All FromText rules

  All-append :
      (f : List CoverageRule) (r : CoverageRule)
      → All FromText f
      → FromText r
      → All FromText (f ++ (r ∷ []))
  All-append [] r a h = (h, tt)
  All-append (x ∷ f) r a h = (a.0, All-append f r a.1 h)

  abbrev SoundSoFar : Reading → Type 0
  SoundSoFar st = IsSound st.found

  module _ (sentence : Text) (quoted : OneOf sentence quotes) where
    add_rule-IsSound :
        (k : RuleKind) (raw : Text) (n : Option ℕ) (st : Reading)
        → SoundSoFar st
        → known k st.found ≡ false
        → IfOk SoundSoFar (add_rule n k raw sentence title st)
    add_rule-IsSound k raw none st h missing = tt
    add_rule-IsSound k raw (some n) st h missing = record {
      distinct = Distinct-append st.found _ h.distinct missing;
      from_text = All-append st.found _ h.from_text (refl, quoted);
    }

    read_match-IsSound :
        (k : RuleKind) (raw : Text) (st : Reading)
        → SoundSoFar st
        → IfOk SoundSoFar (read_match k sentence title raw st)
    unfolding read_match
    read_match-IsSound k raw st h = elim (Bool-cases (any (same raw) st.claimed)) [
      | inl old ↦ rw old h
      | inr new ↦ rw new (elim (Bool-cases (known k st.found)) [
        | inl there ↦ rw there h
        | inr missing ↦
            rw missing (add_rule-IsSound k raw (parse_amount (without b',' raw)) st h missing)
      ])
    ]

    read_matches-IsSound :
        (k : RuleKind) (ms : List Match) (st : Option Reading)
        → IfOk SoundSoFar st
        → IfOk SoundSoFar (read_matches k sentence title ms st)
    unfolding read_matches Option.bind
    read_matches-IsSound k [] st h = h
    read_matches-IsSound k (m ∷ ms) none h = read_matches-IsSound k ms none tt
    read_matches-IsSound k (m ∷ ms) (some st) h =
        read_matches-IsSound k ms (read_match k sentence title (group_of 1 m.captured) st)
          (read_match-IsSound k (group_of 1 m.captured) st h)

    read_patterns-IsSound :
        (ps : List (RuleKind × Regex)) (st : Option Reading)
        → IfOk SoundSoFar st
        → IfOk SoundSoFar (read_patterns ps sentence title st)
    unfolding read_patterns
    read_patterns-IsSound [] st h = h
    read_patterns-IsSound ((k, p) ∷ ps) st h =
        read_patterns-IsSound ps _ (read_matches-IsSound k (find_all p sentence) st h)

  IfOk-found :
      (st : Option Reading)
      → IfOk SoundSoFar st
      → IfOk IsSound (Option.map (λ (s : Reading). s.found) st)
  IfOk-found none h = tt
  IfOk-found (some st) h = h

  read_sentences-IsSound :
      (ss : List Text) (found : Option (List CoverageRule))
      → All (λ s. OneOf s quotes) ss
      → IfOk IsSound found
      → IfOk IsSound (read_sentences ss title found)
  unfolding read_sentences
  read_sentences-IsSound [] found q h = h
  read_sentences-IsSound (s ∷ ss) none q h =
      read_sentences-IsSound ss _ q.1 (IfOk-found _ (read_patterns-IsSound s q.0 patterns none tt))
  read_sentences-IsSound (s ∷ ss) (some f) q h = read_sentences-IsSound ss _ q.1 (
      IfOk-found _
        (read_patterns-IsSound s q.0 patterns (some (record { claimed = []; found = f })) h))

All-weaken :
    (s : Text) (ss ts : List Text) → All (λ t. OneOf t ss) ts → All (λ t. OneOf t (s ∷ ss)) ts
All-weaken s ss [] h = tt
All-weaken s ss (t ∷ ts) h = (inr h.0, All-weaken s ss ts h.1)

All-self : (ss : List Text) → All (λ t. OneOf t ss) ss
All-self [] = tt
All-self (s ∷ ss) = (inl refl, All-weaken s ss ss (All-self ss))

-- Whatever the text: the rules found are of distinct kinds, carry the section's title, and each
-- quotes a sentence of the section as it stands.
pub extract_rules-IsSound :
    (text title : Text) → IfOk (IsSound title (sentences text)) (extract_rules text title)
unfolding extract_rules
extract_rules-IsSound text title =
    read_sentences-IsSound title (sentences text) (sentences text) (some [])
      (All-self (sentences text)) (record { distinct = tt; from_text = tt })
