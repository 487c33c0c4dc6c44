-- ===== src/Text/Regex/Groups.antt =====
-- What the first group of a pattern holds, when it is a group of so many digits.
use omnicare_genai_assessmen.Prelude.{
  ℕ, zero, suc, ◌+◌, ◌-◌, ◌≡◌, ◌∙◌, refl, sym, ap, Bool, true, false, Option, none, some, List, [],
  ◌∷◌, ◌++◌, arith, Bool-cases, inl, inr, All, all, length, map, length-append,
}
use mathlib.Core.Option
use mathlib.Core.List.{flat_map, append_assoc}
use mathlib.Core.Path.{subst}
use omnicare_genai_assessmen.Text.{Text, is_digit}
use omnicare_genai_assessmen.Text.Regex.{
  Regex, seq, group, boundary, Cursor, Match, matches, step, consumed, capture, group_of, assert,
  match_at, search_from, search_text, upto, first,
}
use omnicare_genai_assessmen.Text.Regex.Syntax.{times, digit}

pub All-append :
    (P : Cursor → Type 0) (xs ys : List Cursor) → All P xs → All P ys → All P (xs ++ ys)
All-append P [] ys h k = k
All-append P (x ∷ xs) ys h k = (h.0, All-append P xs ys h.1 k)

pub All-flat_map :
    (P Q : Cursor → Type 0) (f : Cursor → List Cursor) (xs : List Cursor)
    → All P xs
    → ((c : Cursor) → P c → All Q (f c))
    → All Q (flat_map f xs)
unfolding flat_map
All-flat_map P Q f [] h k = tt
All-flat_map P Q f (x ∷ xs) h k =
    All-append Q (f x) (flat_map f xs) (k x h.0) (All-flat_map P Q f xs h.1 k)

All-any : (xs : List Cursor) → All {0, 0} (λ (c : Cursor). Unit) xs
All-any [] = tt
All-any (x ∷ xs) = (tt, All-any xs)

pub All-map :
    (P Q : Cursor → Type 0) (f : Cursor → Cursor) (xs : List Cursor)
    → All P xs
    → ((c : Cursor) → P c → Q (f c))
    → All Q (map f xs)
All-map P Q f [] h k = tt
All-map P Q f (x ∷ xs) h k = (k x h.0, All-map P Q f xs h.1 k)

-- From `c` to `d` the digits `w` are read.
record Reads (c d : Cursor) (w : Text) : Type 0 where
  rest : c.rest ≡ w ++ d.rest
  index : d.index ≡ c.index + length w
  digits : all is_digit w ≡ true

abbrev ReadsSome : Cursor → ℕ → Cursor → Type 0
ReadsSome c n d = (w : Text) × (length w ≡ n) × Reads c d w

all-append :
    (w : Text) (x : ℕ)
    → all is_digit w ≡ true
    → is_digit x ≡ true
    → all is_digit (w ++ (x ∷ [])) ≡ true
all-append [] x h k = ground (arith, h, k)
all-append (y ∷ w) x h k = ground (arith, all-append w x (ground (arith, h)) k)

step-Reads :
    (c d : Cursor) (n : ℕ) (s : Text)
    → d.rest ≡ s
    → ReadsSome c n d
    → All (ReadsSome c (suc n)) (step is_digit s d)
unfolding step
step-Reads c d n [] e h = tt
step-Reads c d n (x ∷ s) e (w, l, r) = elim (Bool-cases (is_digit x)) [
  | inr other ↦ rw other tt
  | inl good ↦ rw good (
    (
      w ++ (x ∷ []),
      omega (arith, length-append w (x ∷ []), l),
      record {
        rest = r.rest ∙ ap (λ t. w ++ t) e ∙ sym (append_assoc w (x ∷ []) s);
        index = omega (arith, length-append w (x ∷ []), r.index);
        digits = all-append w x r.digits good;
      },
    ),
    tt,
  )
]

plus_zero : (k : ℕ) → k ≡ k + 0
plus_zero k = omega arith

plus_suc : (k n : ℕ) → suc k + n ≡ k + suc n
plus_suc k n = omega arith

times-Reads :
    (c d : Cursor) (k n : ℕ)
    → ReadsSome c k d
    → All (ReadsSome c (k + n)) (matches (times n digit) d)
unfolding matches
times-Reads c d k zero h = (subst (λ m. ReadsSome c m d) (plus_zero k) h, tt)
times-Reads c d k (suc n) h =
    All-flat_map (ReadsSome c (suc k)) (ReadsSome c (k + suc n)) (matches (times n digit))
      (step is_digit d.rest d) (step-Reads c d k d.rest refl h)
      (λ x g.
        subst (λ m. All (ReadsSome c m) (matches (times n digit) x)) (plus_suc k n)
          (times-Reads c x (suc k) n g))

pub consumed-append : (w s : Text) → consumed (length w) (w ++ s) ≡ w
unfolding consumed
consumed-append [] s = refl
consumed-append (x ∷ w) s = ap (λ t. x ∷ t) (consumed-append w s)

-- A text of `n` digits.
pub record AreDigits (n : ℕ) (w : Text) : Type 0 where
  pub size : length w ≡ n
  pub digits : all is_digit w ≡ true

abbrev Has : ℕ → Cursor → Type 0
Has n c = AreDigits n (group_of 1 c.groups)

capture-Has : (n : ℕ) (c d : Cursor) → ReadsSome c n d → Has n (capture 1 c d)
unfolding capture group_of
capture-Has n c d (w, l, r) =
    let read : consumed (d.index - c.index) c.rest ≡ w =
      ap (λ k. consumed k c.rest) (omega (arith, r.index))
      ∙ ap (consumed (length w)) r.rest
      ∙ consumed-append w d.rest in
    subst (AreDigits n) (sym read) (record { size = l; digits = r.digits })

-- Every way to match leaves `n` digits in the first group.
abbrev pub Captures : ℕ → Regex → Type 0
Captures n r = (c : Cursor) → All (Has n) (matches r c)

zero_plus : (n : ℕ) → 0 + n ≡ n
zero_plus n = omega arith

pub assert-All : (P : Cursor → Type 0) (b : Bool) (d : Cursor) → P d → All P (assert b d)
assert-All P true d h = (h, tt)
assert-All P false d h = tt

pub group-Captures : (n : ℕ) → Captures n (group 1 (times n digit))
unfolding matches
group-Captures n c =
    All-map (ReadsSome c n) (Has n) (capture 1 c) (matches (times n digit) c)
      (subst (λ m. All (ReadsSome c m) (matches (times n digit) c)) (zero_plus n)
        (times-Reads c c 0 n
          ([], refl, record { rest = refl; index = omega arith; digits = refl })))
      (capture-Has n c)

pub seq-Captures : (n : ℕ) (r s : Regex) → Captures n s → Captures n (seq r s)
unfolding matches
seq-Captures n r s h c =
    All-flat_map (λ d. Unit) (Has n) (matches s) (matches r c) (All-any (matches r c)) (λ d u. h d)

pub boundary-Captures : (n : ℕ) (r : Regex) → Captures n r → Captures n (seq r boundary)
unfolding matches
boundary-Captures n r h c =
    All-flat_map (Has n) (Has n) (matches boundary) (matches r c) (h c)
      (λ d g. assert-All (Has n) _ d g)

abbrev pub Found : ℕ → Option Match → Type 0
Found n none = Unit
Found n (some m) = AreDigits n (group_of 1 m.captured)

first-Found :
    (n : ℕ) (c : Cursor) (ds : List Cursor)
    → All (Has n) ds
    → Found n (Option.map (upto c) (first ds))
unfolding upto
first-Found n c [] h = tt
first-Found n c (d ∷ ds) h = h.0

either-Found :
    (n : ℕ) (o rest : Option Match)
    → Found n o
    → Found n rest
    → Found n (elim o [ some m ↦ some m | none ↦ rest ])
either-Found n none rest h k = k
either-Found n (some m) rest h k = h

search_from-Found :
    (n : ℕ) (r : Regex) (before : Option ℕ) (i : ℕ) (s : Text)
    → Captures n r
    → Found n (search_from r before i s)
unfolding search_from match_at
search_from-Found n r before i [] h =
    let c : Cursor = record { before = before; index = i; rest = []; groups = [] } in
    first-Found n c (matches r c) (h c)
search_from-Found n r before i (x ∷ s) h =
    let c : Cursor = record { before = before; index = i; rest = x ∷ s; groups = [] } in
    either-Found n _ _ (first-Found n c (matches r c) (h c))
      (search_from-Found n r (some x) (suc i) s h)

pub search_text-Found : (n : ℕ) (r : Regex) (s : Text) → Captures n r → Found n (search_text r s)
unfolding search_text
search_text-Found n r s h = search_from-Found n r none 0 s h
