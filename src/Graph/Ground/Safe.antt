-- ===== src/Graph/Ground/Safe.antt =====
-- What `ground` checks of an answer: its policy numbers, and that it announces no estimate.
use omnicare_genai_assessmen.Prelude.{
  ℕ, ◌≡◌, ◌⊎◌, inl, inr, refl, ap, ◌∙◌, Bool, true, false, some, List, [], ◌∷◌, any, All, OneOf,
  Bool-cases, clash,
}
use omnicare_genai_assessmen.Text.{Text, same, to_lower}
use omnicare_genai_assessmen.Text.Laws.{same-eq, any-OneOf}
use omnicare_genai_assessmen.Text.Regex.{find_all, search_text}
use mathlib.Core.List.{flat_map}
use omnicare_genai_assessmen.Graph.State.{AgentState, Retrieved}
use omnicare_genai_assessmen.Graph.Confirm.{numbers_in}
use omnicare_genai_assessmen.Graph.Answer.{final_answer, final_answer-republish}
use omnicare_genai_assessmen.Graph.Figures.{asserts_an_estimated_amount, drop_false_comparisons}
use omnicare_genai_assessmen.Graph.Citations.{CitationSpan, cut, tidied, drop_orphaned_label}
use omnicare_genai_assessmen.Graph.Ground.{
  any_invented, ask_own_number, ask_own_amount, is_invented, known_numbers, Edit, without_guesses,
  joined, edit_from, edited, cited_text, shown, with_edit, ground_answer, ground,
}

-- Each policy number of the text is known, and the text announces no estimate of its own.
pub record IsSafe (known : List Text) (t : Text) : Type 0 where
  pub numbers : All (λ (n : Text). OneOf n known) (numbers_in t)
  pub no_estimate : asserts_an_estimated_amount t ≡ false

number-free : numbers_in ask_own_number ≡ []
unfolding ask_own_number ask_own_amount numbers_in find_all flat_map to_lower
number-free = refl

estimate-free : asserts_an_estimated_amount ask_own_number ≡ false
unfolding ask_own_number ask_own_amount asserts_an_estimated_amount search_text flat_map to_lower
estimate-free = refl

number-free_amount : numbers_in ask_own_amount ≡ []
unfolding ask_own_number ask_own_amount numbers_in find_all flat_map to_lower
number-free_amount = refl

estimate-free_amount : asserts_an_estimated_amount ask_own_amount ≡ false
unfolding ask_own_number ask_own_amount asserts_an_estimated_amount search_text flat_map to_lower
estimate-free_amount = refl

numbers-known :
    (known ns : List Text)
    → any (is_invented known) ns ≡ false
    → All (λ (n : Text). OneOf n known) ns
numbers-known known [] h = tt
numbers-known known (n ∷ ns) h = elim (Bool-cases (any (same n) known)) [
  | inr f ↦ clash (rw f at h)
  | inl y ↦ (any-OneOf n known y, numbers-known known ns (rw y at h))
]

without_guesses-IsSafe :
    (known : List Text) (t : Text)
    → IsSafe known (without_guesses known t).text
      × ((without_guesses known t).changed ≡ false → (without_guesses known t).text ≡ t)
unfolding without_guesses
without_guesses-IsSafe known t = elim (Bool-cases (any (is_invented known) (numbers_in t))) [
  | inl y ↦ rw y (record { numbers = rw number-free tt; no_estimate = estimate-free }, λ h. cc)
  | inr f ↦ rw f (elim (Bool-cases (asserts_an_estimated_amount t)) [
    | inl y ↦
        rw y (
          record { numbers = rw number-free_amount tt; no_estimate = estimate-free_amount },
          λ h. cc,
        )
    | inr g ↦
        rw g (record { numbers = numbers-known known (numbers_in t) f; no_estimate = g }, λ h. refl)
  ])
]

cut-real : (spans : List CitationSpan) (s : Text) → any_invented spans ≡ false → cut spans s ≡ s
unfolding cut
cut-real [] s h = refl
cut-real (c ∷ cs) s h = elim (Bool-cases c.is_real) [
  | inr f ↦ clash (rw f at h)
  | inl y ↦ rw y (cut-real cs s (rw y at h))
]

joined-clean :
    (invented : Bool) (cited corrected : Text) (checked : Edit)
    → (joined invented cited corrected checked).changed ≡ false
    → (invented ≡ false) × (corrected ≡ cited) × (checked.changed ≡ false)
unfolding joined
joined-clean true cited corrected checked h = clash h
joined-clean false cited corrected checked h = elim (Bool-cases (same corrected cited)) [
  | inr f ↦ clash (rw f at h)
  | inl y ↦ (refl, same-eq corrected cited y, rw y at h)
]

edit_from-clean :
    (known : List Text) (spans : List CitationSpan) (s : Text)
    → (edit_from known spans s).changed ≡ false
    → (edit_from known spans s).text ≡ drop_orphaned_label (tidied s)
unfolding edit_from cited_text joined
edit_from-clean known spans s h =
    let cited = drop_orphaned_label (tidied (cut spans s)) in
    let (real, kept, unguessed) =
      joined-clean (any_invented spans) cited (drop_false_comparisons cited)
        (without_guesses known (drop_false_comparisons cited)) h in
    (without_guesses-IsSafe known (drop_false_comparisons cited)).1 unguessed
    ∙ kept
    ∙ ap (λ x. drop_orphaned_label (tidied x)) (cut-real spans s real)

edited-IsSafe :
    (retrieved : List Retrieved) (known : List Text) (s : Text)
    → IsSafe known (edited retrieved known s).text
unfolding edited edit_from joined
edited-IsSafe retrieved known s = (without_guesses-IsSafe known _).0

-- The answer of the state is the text, or it is as it was and the text is its tidied form.
abbrev pub Presents : Text → Text → AgentState → AgentState → Type 0
Presents s t st st' =
    (final_answer st'.messages ≡ some t)
    ⊎ ((st'.messages ≡ st.messages) × (t ≡ drop_orphaned_label (tidied s)))

with_edit-Presents :
    (u : ℕ) (e : Edit) (s : Text) (st : AgentState)
    → final_answer st.messages ≡ some s
    → (e.changed ≡ false → e.text ≡ drop_orphaned_label (tidied s))
    → Presents s e.text st (with_edit u e st)
unfolding with_edit shown
with_edit-Presents u e s st h k = elim (Bool-cases e.changed) [
  | inl y ↦ rw y (inl (final_answer-republish s e.text st.messages h))
  | inr f ↦ rw f (inr (refl, k f))
]

-- The text that `ground` checks has no policy number but those that the policyholder said or a tool
-- of the turn returned, and none of the phrases that announce an estimated amount. It is the answer
-- that is shown where `ground` changes anything; else the answer stays as it was, and the text is
-- what is left of that when brackets, blanks and a trailing label are tidied. Of other amounts and
-- of the ids of claims nothing is said.
pub ground-IsSafe :
    (u : ℕ) (st : AgentState) (s : Text)
    → final_answer st.messages ≡ some s
    → (t : Text) × IsSafe (known_numbers st) t × Presents s t st (ground u st)
unfolding ground ground_answer edited
ground-IsSafe u st s h =
    let e = edited st.retrieved (known_numbers st) s in
    rw h (
      e.text,
      edited-IsSafe st.retrieved (known_numbers st) s,
      with_edit-Presents u e s st h (edit_from-clean (known_numbers st) _ s),
    )
