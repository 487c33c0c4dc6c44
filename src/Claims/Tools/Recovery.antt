-- ===== src/Claims/Tools/Recovery.antt =====
-- What is offered when a claim id is not known.
use omnicare_genai_assessmen.Prelude.{
  ℕ, zero, suc, ◌≤◌, ◌≡◌, refl, sym, ap, Bool, true, false, List, [], ◌∷◌, ◌++◌, arith, All, length,
  take, drop, length-take,
}
use mathlib.Core.List.{Perm}
use mathlib.Core.Path.{subst}
use omnicare_genai_assessmen.Prelude.Sorting.{sorted, sorted-perm, IsSorted, sorted-IsSorted}
use omnicare_genai_assessmen.Text.{Text}
use omnicare_genai_assessmen.Claims.Tools.{last_part, text_le, closer, closest_ids}

text_le_total : (s t : Text) → text_le s t ≡ false → text_le t s ≡ true
unfolding text_le
text_le_total [] t h = cc
text_le_total (c ∷ s) [] h = refl
text_le_total (c ∷ s) (d ∷ t) h = ground (arith, text_le_total s t)

text_le_trans : (s t u : Text) → text_le s t ≡ true → text_le t u ≡ true → text_le s u ≡ true
unfolding text_le
text_le_trans [] t u p q = refl
text_le_trans (c ∷ s) [] u p q = cc
text_le_trans (c ∷ s) (d ∷ t) [] p q = cc
text_le_trans (c ∷ s) (d ∷ t) (e ∷ u) p q = ground (arith, text_le_trans s t u)

closer_total : (target s t : Text) → closer target s t ≡ false → closer target t s ≡ true
unfolding closer
closer_total target s t h = ground (arith, text_le_total s t)

closer_trans :
    (target s t u : Text)
    → closer target s t ≡ true
    → closer target t u ≡ true
    → closer target s u ≡ true
unfolding closer
closer_trans target s t u p q = ground (arith, text_le_trans s t u)

module _ {ℓ} {A : Type ℓ} (before : A → A → Bool) where
  All-drop : (n : ℕ) (P : A → Type 0) (xs : List A) → All P xs → All P (drop n xs)
  All-drop zero P xs h = h
  All-drop (suc n) P [] h = tt
  All-drop (suc n) P (x ∷ xs) h = All-drop n P xs h.1

  All-take : (n : ℕ) (P : A → Type 0) (xs : List A) → All P xs → All P (take n xs)
  All-take zero P xs h = tt
  All-take (suc n) P [] h = tt
  All-take (suc n) P (x ∷ xs) h = (h.0, All-take n P xs h.1)

  -- The elements at the front of a sorted list stand before the others.
  front :
      (n : ℕ) (xs : List A)
      → IsSorted before xs
      → All (λ x. All (λ y. before x y ≡ true) (drop n xs)) (take n xs)
  front zero xs h = tt
  front (suc n) [] h = tt
  front (suc n) (x ∷ xs) h = (All-drop n _ xs h.0, front n xs h.1)

  IsSorted-take : (n : ℕ) (xs : List A) → IsSorted before xs → IsSorted before (take n xs)
  IsSorted-take zero xs h = tt
  IsSorted-take (suc n) [] h = tt
  IsSorted-take (suc n) (x ∷ xs) h = (All-take n _ xs h.0, IsSorted-take n xs h.1)

  take-drop : (n : ℕ) (xs : List A) → take n xs ++ drop n xs ≡ xs
  take-drop zero xs = refl
  take-drop (suc n) [] = refl
  take-drop (suc n) (x ∷ xs) = ap (λ ys. x ∷ ys) (take-drop n xs)

-- The ids that are offered are at most `limit` of the known ones, the nearest first, and none that
-- is left out is nearer than one that is offered.
closest_ids-nearest :
    (wanted : Text) (known : List Text) (limit : ℕ)
    → (others : List Text) × let offered = closest_ids wanted known limit in
        let near = closer (last_part wanted) in
        Perm (offered ++ others) known
        × (length offered ≤ limit)
        × IsSorted near offered
        × All (λ id. All (λ other. near id other ≡ true) others) offered
unfolding closest_ids
closest_ids-nearest wanted known limit =
    let near = closer (last_part wanted) in
    let ordered = sorted near known in
    let is_sorted =
      sorted-IsSorted near (closer_total (last_part wanted)) (closer_trans (last_part wanted))
        known in
    (
      drop limit ordered,
      (
        subst (λ ids. Perm ids known) (sym (take-drop near limit ordered)) (sorted-perm near known),
        length-take limit ordered,
        IsSorted-take near limit ordered is_sorted,
        front near limit ordered is_sorted,
      ),
    )
