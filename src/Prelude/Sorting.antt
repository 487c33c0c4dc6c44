-- ===== src/Prelude/Sorting.antt =====
-- Python's `sorted`: a stable sort, by a test of whether one element may stand before another.
use mathlib.Core.Path.{◌≡◌, ◌∙◌, refl}
use mathlib.Core.Logic.{inl, inr}
use mathlib.Core.Bool.{Bool, true, false, ◌||◌}
use mathlib.Core.List.{List, [], ◌∷◌, Perm}
use mathlib.Core.List.Perm
use omnicare_genai_assessmen.Prelude.Booleans.{if◌then◌else◌, Bool-cases}
use omnicare_genai_assessmen.Prelude.Lists.{All, any}

module _ {ℓ} {A : Type ℓ} (before : A → A → Bool) where
  unfoldable pub insert_sorted : A → List A → List A
  insert_sorted x [] = x ∷ []
  insert_sorted x (y ∷ ys) =
      let rest = insert_sorted x ys in if before x y then x ∷ y ∷ ys else y ∷ rest

  unfoldable pub sorted : List A → List A
  unfolding insert_sorted
  sorted [] = []
  sorted (x ∷ xs) = insert_sorted x (sorted xs)

  insert_sorted-perm : (x : A) (ys : List A) → Perm (insert_sorted x ys) (x ∷ ys)
  unfolding insert_sorted
  insert_sorted-perm x [] = Perm.refl (x ∷ [])
  insert_sorted-perm x (y ∷ ys) = elim (Bool-cases (before x y)) [
    | inl t ↦ rw t (Perm.refl (x ∷ y ∷ ys))
    | inr f ↦ rw f (Perm.trans (Perm.cons y (insert_sorted-perm x ys)) (Perm.swap x y ys))
  ]

  pub sorted-perm : (xs : List A) → Perm (sorted xs) xs
  unfolding sorted
  sorted-perm [] = Perm.refl []
  sorted-perm (x ∷ xs) =
      Perm.trans (insert_sorted-perm x (sorted xs)) (Perm.cons x (sorted-perm xs))

  pub All-insert_sorted {κ} :
      (P : A → Type κ) (x : A) (ys : List A) → P x → All P ys → All P (insert_sorted x ys)
  unfolding insert_sorted
  All-insert_sorted P x [] p h = (p, tt)
  All-insert_sorted P x (y ∷ ys) p h = elim (Bool-cases (before x y)) [
    | inl t ↦ rw t (p, h)
    | inr f ↦ rw f (h.0, All-insert_sorted P x ys p h.1)
  ]

  pub All-sorted {κ} : (P : A → Type κ) (xs : List A) → All P xs → All P (sorted xs)
  unfolding sorted
  All-sorted P [] h = tt
  All-sorted P (x ∷ xs) h = All-insert_sorted P x (sorted xs) h.0 (All-sorted P xs h.1)

  -- Each element may stand before the next.
  abbrev pub IsChained : List A → Type 0
  IsChained [] = Unit
  IsChained (x ∷ []) = Unit
  IsChained (x ∷ y ∷ ys) = (before x y ≡ true) × IsChained (y ∷ ys)

  module _ (total : (x y : A) → before x y ≡ false → before y x ≡ true) where
    insert-IsChained : (x : A) (ys : List A) → IsChained ys → IsChained (insert_sorted x ys)
    unfolding insert_sorted
    insert-IsChained x [] h = tt
    insert-IsChained x (y ∷ []) h = elim (Bool-cases (before x y)) [
      | inl t ↦ rw t (t, tt)
      | inr f ↦ rw f (total x y f, tt)
    ]
    insert-IsChained x (y ∷ z ∷ zs) h = elim (Bool-cases (before x y)) [
      | inl t ↦ rw t (t, h)
      | inr f ↦ rw f (behind (total x y f) (insert-IsChained x (z ∷ zs) h.1))
    ]
      where
        behind :
            before y x ≡ true
            → IsChained (insert_sorted x (z ∷ zs))
            → IsChained (y ∷ insert_sorted x (z ∷ zs))
        behind b k = elim (Bool-cases (before x z)) [
          | inl t ↦ rw t (b, rw t at k)
          | inr f ↦ rw f (h.0, rw f at k)
        ]

    pub sorted-IsChained : (xs : List A) → IsChained (sorted xs)
    unfolding sorted
    sorted-IsChained [] = tt
    sorted-IsChained (x ∷ xs) = insert-IsChained x (sorted xs) (sorted-IsChained xs)

  any-insert : (p : A → Bool) (x : A) (ys : List A) → any p (insert_sorted x ys) ≡ any p (x ∷ ys)
  unfolding insert_sorted
  any-insert p x [] = refl
  any-insert p x (y ∷ ys) = elim (Bool-cases (before x y)) [
    | inl t ↦ rw t refl
    | inr f ↦ rw f (rw (any-insert p x ys) (swapped (p x) (p y) (any p ys)))
  ]
    where
      swapped : (a b c : Bool) → (b || (a || c)) ≡ (a || (b || c))
      swapped true true c = refl
      swapped true false c = refl
      swapped false b c = refl

  pub any-sorted : (p : A → Bool) (xs : List A) → any p (sorted xs) ≡ any p xs
  unfolding sorted
  any-sorted p [] = refl
  any-sorted p (x ∷ xs) = any-insert p x (sorted xs) ∙ rw (any-sorted p xs) refl

  -- Each element may stand before all that follow.
  abbrev pub IsSorted : List A → Type ℓ
  IsSorted [] = Unit
  IsSorted (x ∷ xs) = All (λ y. before x y ≡ true) xs × IsSorted xs

  module _ (total : (x y : A) → before x y ≡ false → before y x ≡ true)
      (trans : (x y z : A) → before x y ≡ true → before y z ≡ true → before x z ≡ true) where
    All-trans :
        (x y : A) (zs : List A)
        → before x y ≡ true
        → All (λ z. before y z ≡ true) zs
        → All (λ z. before x z ≡ true) zs
    All-trans x y [] p h = tt
    All-trans x y (z ∷ zs) p h = (trans x y z p h.0, All-trans x y zs p h.1)

    All-insert :
        (x y : A) (zs : List A)
        → before y x ≡ true
        → All (λ z. before y z ≡ true) zs
        → All (λ z. before y z ≡ true) (insert_sorted x zs)
    unfolding insert_sorted
    All-insert x y [] p h = (p, tt)
    All-insert x y (z ∷ zs) p h = elim (Bool-cases (before x z)) [
      | inl t ↦ rw t (p, h)
      | inr f ↦ rw f (h.0, All-insert x y zs p h.1)
    ]

    insert_sorted-IsSorted : (x : A) (ys : List A) → IsSorted ys → IsSorted (insert_sorted x ys)
    unfolding insert_sorted
    insert_sorted-IsSorted x [] h = (tt, tt)
    insert_sorted-IsSorted x (y ∷ ys) h = elim (Bool-cases (before x y)) [
      | inl t ↦ rw t ((t, All-trans x y ys t h.0), h)
      | inr f ↦ rw f (All-insert x y ys (total x y f) h.0, insert_sorted-IsSorted x ys h.1)
    ]

    pub sorted-IsSorted : (xs : List A) → IsSorted (sorted xs)
    unfolding sorted
    sorted-IsSorted [] = tt
    sorted-IsSorted (x ∷ xs) = insert_sorted-IsSorted x (sorted xs) (sorted-IsSorted xs)
