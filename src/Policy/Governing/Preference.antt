-- ===== src/Policy/Governing/Preference.antt =====
-- Which section `_governing_section` picks among those that name the claim type.
use omnicare_genai_assessmen.Prelude.{
  ◌≡◌, refl, ◌⊎◌, inl, inr, true, false, Option, none, some, List, [], ◌∷◌, Bool-cases, All,
  if◌then◌else◌,
}
use mathlib.Core.Path.{subst}
use omnicare_genai_assessmen.Text.{Text}
use omnicare_genai_assessmen.Policy.Extract.{limit, CoverageRule}
use omnicare_genai_assessmen.Prelude.{IfOk}
use omnicare_genai_assessmen.Policy.Governing.{
  Section, names, states, rules_of, or_first, choose, is_blank, normalised, governing_section,
}

abbrev pub StatesLimit : Section → Type 0
StatesLimit s = (rs : List CoverageRule) × (rules_of s ≡ some rs) × (states limit rs ≡ true)

module _ (wanted : Text) where
  -- A section that does not name the claim type, or states no limit.
  abbrev pub IsPassedOver : Section → Type 0
  IsPassedOver t = names wanted t ≡ true → IfOk (λ rs. states limit rs ≡ false) (rules_of t)

  abbrev pub Names : Section → Type 0
  Names s = names wanted s ≡ true

  abbrev Preferred : Section → List Section → Type 0
  Preferred s sections = Names s × (StatesLimit s ⊎ All IsPassedOver sections)

  first-Names :
      (fallback : Option Section) (t : Section)
      → IfOk Names fallback
      → Names t
      → Names (or_first fallback t)
  first-Names none t f n = n
  first-Names (some x) t f n = f

  module _ (s : Section) where
    pass :
        (t : Section) (rest : List Section)
        → Preferred s rest
        → IsPassedOver t
        → Preferred s (t ∷ rest)
    pass t rest p over = (p.0, elim p.1 [ inl l ↦ inl l | inr a ↦ inr (over, a) ])

    tested :
        (t : Section) (rest : List Section) (skip go_on : Option (Option Section))
        (rules : Option (List CoverageRule))
        → Names t
        → rules_of t ≡ rules
        → (go_on ≡ some (some s) → Preferred s rest)
        → (elim rules [ none ↦ none | some rs ↦ if states limit rs then some (some t) else go_on ])
          ≡ some (some s)
        → Preferred s (t ∷ rest)
    tested t rest skip go_on none n e later h = cc
    tested t rest skip go_on (some rs) n e later h = elim (Bool-cases (states limit rs)) [
      | inl yes_it ↦
          subst (IfOk (IfOk (λ x. Preferred x (t ∷ rest)))) (rw yes_it at h)
            (n, inl (rs, e, yes_it))
      | inr not_it ↦ pass t rest (later (rw not_it at h)) (λ _. rw e not_it)
    ]

    choose-Preferred :
        (sections : List Section) (fallback : Option Section)
        → IfOk Names fallback
        → choose wanted fallback sections ≡ some (some s)
        → Preferred s sections
    unfolding choose
    choose-Preferred [] none f h = cc
    choose-Preferred [] (some t) f h = subst (IfOk (IfOk (λ x. Preferred x []))) h (f, inr tt)
    choose-Preferred (t ∷ rest) fallback f h = elim (Bool-cases (names wanted t)) [
      | inl n ↦
          tested t rest (choose wanted fallback rest)
            (choose wanted (some (or_first fallback t)) rest) (rules_of t) n refl
            (choose-Preferred rest (some (or_first fallback t)) (first-Names fallback t f n))
            (rw n at h)
      | inr m ↦ pass t rest (choose-Preferred rest fallback f (rw m at h)) (λ n. cc)
    ]

  chosen-Preferred :
      (sections : List Section) {s : Section}
      → choose wanted none sections ≡ some (some s)
      → Names s × (StatesLimit s ⊎ All IsPassedOver sections)
  chosen-Preferred sections {s} h = choose-Preferred s sections none tt h

impossible : (s : Section) → ◌≡◌ {A = Option (Option Section)} (some none) (some (some s)) → ⊥
impossible s e = cc

-- The section that governs a claim type names it; and unless it states a limit itself, no section
-- that names the claim type does.
pub governing_section-prefers_limit :
    (claim_type : Text) (sections : List Section) (s : Section)
    → governing_section claim_type sections ≡ some (some s)
    → Names (normalised claim_type) s
      × (StatesLimit s ⊎ All (IsPassedOver (normalised claim_type)) sections)
unfolding governing_section
governing_section-prefers_limit claim_type sections s h =
    elim (Bool-cases (is_blank (normalised claim_type))) [
      | inl b ↦ absurd (impossible s (rw b at h))
      | inr w ↦ chosen-Preferred (normalised claim_type) sections (rw w at h)
    ]
