-- ===== src/Text/Regex/Placed.antt =====
-- Where the matches of a pattern lie in the text: in order, apart, and with nothing lost between
-- them.
use omnicare_genai_assessmen.Prelude.{
  ℕ, zero, suc, ◌+◌, ◌-◌, ◌≡◌, ◌∙◌, refl, sym, ap, Bool, Option, none, some, List, [], ◌∷◌, ◌++◌,
  arith, Bool-cases, inl, inr, All, keep, length, length-append, IfOk, ◌==◌,
}
use mathlib.Core.Option
use mathlib.Core.List.{flat_map, append_assoc}
use mathlib.Core.Path.{subst}
use omnicare_genai_assessmen.Text.{Text}
use omnicare_genai_assessmen.Text.Regex.{
  Regex, empty, one, seq, alt, star, lazy_star, group, boundary, after, not_after, not_before,
  line_start, line_end, text_end, Cursor, Match, matches, step, star_rounds, lazy_rounds, moved,
  consumed, capture, match_at, search_from, upto, first, find_from, find_all, resume_after,
  skip_one, begin,
}
use omnicare_genai_assessmen.Text.Regex.Groups.{
  All-append, All-flat_map, All-map, consumed-append, assert-All,
}

-- From `c` to `d` a text is passed.
pub record Passes (c d : Cursor) : Type 0 where
  pub passed : Text
  pub rest : c.rest ≡ passed ++ d.rest
  pub index : d.index ≡ c.index + length passed

Passes-self : (c : Cursor) → Passes c c
Passes-self c = record { passed = []; rest = refl; index = omega arith }

Passes-then : (c d e : Cursor) → Passes c d → Passes d e → Passes c e
Passes-then c d e p q = record {
  passed = p.passed ++ q.passed;
  rest = p.rest ∙ ap (λ t. p.passed ++ t) q.rest ∙ sym (append_assoc p.passed q.passed e.rest);
  index = omega (arith, length-append p.passed q.passed, p.index, q.index);
}

All-then : (c d : Cursor) → Passes c d → (xs : List Cursor) → All (Passes d) xs → All (Passes c) xs
All-then c d p [] g = tt
All-then c d p (x ∷ xs) g = (Passes-then c d x p g.0, All-then c d p xs g.1)

All-keep :
    (P : Cursor → Type 0) (p : Cursor → Bool) (xs : List Cursor) → All P xs → All P (keep p xs)
All-keep P p [] h = tt
All-keep P p (x ∷ xs) h = elim (Bool-cases (p x)) [
  | inl y ↦ rw y (h.0, All-keep P p xs h.1)
  | inr f ↦ rw f (All-keep P p xs h.1)
]

step-Passes : (p : ℕ → Bool) (s : Text) (c : Cursor) → c.rest ≡ s → All (Passes c) (step p s c)
unfolding step
step-Passes p [] c e = tt
step-Passes p (x ∷ s) c e = elim (Bool-cases (p x)) [
  | inr f ↦ rw f tt
  | inl y ↦ rw y (record { passed = x ∷ []; rest = e; index = omega arith }, tt)
]

-- Rounds of a repetition, from a cursor that was passed to.
module _ (r : Cursor → List Cursor) (h : (d : Cursor) → All (Passes d) (r d)) where
  rounds-Passes : (c d : Cursor) → Passes c d → All (Passes c) (keep (moved d) (r d))
  rounds-Passes c d p = All-keep (Passes c) (moved d) (r d) (All-then c d p (r d) (h d))

  star_rounds-Passes : (n : ℕ) (c d : Cursor) → Passes c d → All (Passes c) (star_rounds r n d)
  unfolding star_rounds
  star_rounds-Passes zero c d p = (p, tt)
  star_rounds-Passes (suc n) c d p =
      All-append (Passes c) (flat_map (star_rounds r n) (keep (moved d) (r d))) (d ∷ [])
        (All-flat_map (Passes c) (Passes c) (star_rounds r n) (keep (moved d) (r d))
          (rounds-Passes c d p) (λ e q. star_rounds-Passes n c e q))
        (p, tt)

  lazy_rounds-Passes : (n : ℕ) (c d : Cursor) → Passes c d → All (Passes c) (lazy_rounds r n d)
  unfolding lazy_rounds
  lazy_rounds-Passes zero c d p = (p, tt)
  lazy_rounds-Passes (suc n) c d p = (
    p,
    All-flat_map (Passes c) (Passes c) (lazy_rounds r n) (keep (moved d) (r d))
        (rounds-Passes c d p) (λ e q. lazy_rounds-Passes n c e q),
  )

capture-Passes : (n : ℕ) (c d : Cursor) → Passes c d → Passes c (capture n c d)
unfolding capture
capture-Passes n c d p = record { passed = p.passed; rest = p.rest; index = p.index }

-- Every way to match goes on in the text.
matches-Passes : (r : Regex) (c : Cursor) → All (Passes c) (matches r c)
unfolding matches
matches-Passes empty c = (Passes-self c, tt)
matches-Passes (one p) c = step-Passes p c.rest c refl
matches-Passes (seq r s) c =
    All-flat_map (Passes c) (Passes c) (matches s) (matches r c) (matches-Passes r c)
      (λ d p. All-then c d p (matches s d) (matches-Passes s d))
matches-Passes (alt r s) c =
    All-append (Passes c) (matches r c) (matches s c) (matches-Passes r c) (matches-Passes s c)
matches-Passes (star r) c =
    star_rounds-Passes (matches r) (matches-Passes r) (length c.rest) c c (Passes-self c)
matches-Passes (lazy_star r) c =
    lazy_rounds-Passes (matches r) (matches-Passes r) (length c.rest) c c (Passes-self c)
matches-Passes (group n r) c =
    All-map (Passes c) (Passes c) (capture n c) (matches r c) (matches-Passes r c)
      (capture-Passes n c)
matches-Passes boundary c = assert-All (Passes c) _ c (Passes-self c)
matches-Passes (after p) c = assert-All (Passes c) _ c (Passes-self c)
matches-Passes (not_after p) c = assert-All (Passes c) _ c (Passes-self c)
matches-Passes (not_before p) c = assert-All (Passes c) _ c (Passes-self c)
matches-Passes line_start c = assert-All (Passes c) _ c (Passes-self c)
matches-Passes line_end c = assert-All (Passes c) _ c (Passes-self c)
matches-Passes text_end c = assert-All (Passes c) _ c (Passes-self c)

-- A match in a text that begins at the index: behind a gap, where it says.
pub record Placed (i : ℕ) (s : Text) (m : Match) : Type 0 where
  pub gap : Text
  pub text : s ≡ gap ++ (m.matched ++ m.tail.rest)
  pub start : m.start ≡ i + length gap
  pub stop : m.stop ≡ m.start + length m.matched
  pub tail : m.tail.index ≡ m.stop

-- The matches, each behind the one before.
abbrev pub Spread : ℕ → Text → List Match → Type 0
Spread i s [] = Unit
Spread i s (m ∷ ms) = Placed i s m × Spread m.stop m.tail.rest ms

first-IfOk : (P : Cursor → Type 0) (ds : List Cursor) → All P ds → IfOk P (first ds)
first-IfOk P [] h = tt
first-IfOk P (d ∷ ds) h = h.0

upto-Placed : (c d : Cursor) → Passes c d → Placed c.index c.rest (upto c d)
unfolding upto
upto-Placed c d p =
    let read : consumed (d.index - c.index) c.rest ≡ p.passed =
      ap (λ k. consumed k c.rest) (omega (arith, p.index))
      ∙ ap (consumed (length p.passed)) p.rest
      ∙ consumed-append p.passed d.rest in
    record {
      gap = [];
      text = p.rest ∙ ap (λ w. w ++ d.rest) (sym read);
      start = omega arith;
      stop = p.index ∙ ap (λ w. c.index + length w) (sym read);
      tail = refl;
    }

map-upto :
    (c : Cursor) (o : Option Cursor)
    → IfOk (Passes c) o
    → IfOk (Placed c.index c.rest) (Option.map (upto c) o)
map-upto c none h = tt
map-upto c (some d) h = upto-Placed c d h

match_at-Placed : (r : Regex) (c : Cursor) → IfOk (Placed c.index c.rest) (match_at r c)
unfolding match_at
match_at-Placed r c =
    map-upto c (first (matches r c)) (first-IfOk (Passes c) (matches r c) (matches-Passes r c))

Placed-later : (i x : ℕ) (s : Text) (m : Match) → Placed (suc i) s m → Placed i (x ∷ s) m
Placed-later i x s m p = record {
  gap = x ∷ p.gap;
  text = ap (λ t. x ∷ t) p.text;
  start = omega (arith, p.start);
  stop = p.stop;
  tail = p.tail;
}

either-Placed :
    (i x : ℕ) (s : Text) (o rest : Option Match)
    → IfOk (Placed i (x ∷ s)) o
    → IfOk (Placed (suc i) s) rest
    → IfOk (Placed i (x ∷ s)) (elim o [ some m ↦ some m | none ↦ rest ])
either-Placed i x s (some m) rest h k = h
either-Placed i x s none none h k = tt
either-Placed i x s none (some m) h k = Placed-later i x s m k

search_from-Placed :
    (r : Regex) (before : Option ℕ) (i : ℕ) (s : Text)
    → IfOk (Placed i s) (search_from r before i s)
unfolding search_from
search_from-Placed r before i [] = match_at-Placed r _
search_from-Placed r before i (x ∷ s) =
    either-Placed i x s _ _ (match_at-Placed r _) (search_from-Placed r (some x) (suc i) s)

Spread-later : (i x : ℕ) (s : Text) (ms : List Match) → Spread (suc i) s ms → Spread i (x ∷ s) ms
Spread-later i x s [] h = tt
Spread-later i x s (m ∷ ms) h = (Placed-later i x s m h.0, h.1)

-- Where the search goes on, and what it finds there is spread behind the match.
abbrev FoundAt : Option Cursor → List Match → Type 0
FoundAt none ms = ms ≡ []
FoundAt (some c) ms = Spread c.index c.rest ms

skip-Spread :
    (c : Cursor) (s : Text) (ms : List Match) → FoundAt (skip_one c s) ms → Spread c.index s ms
skip-Spread c [] ms h = subst (λ (l : List Match). Spread c.index [] l) (sym h) tt
skip-Spread c (x ∷ s) ms h = Spread-later c.index x s ms h

resume-Spread :
    (m : Match) (ms : List Match)
    → m.tail.index ≡ m.stop
    → FoundAt (resume_after m) ms
    → Spread m.stop m.tail.rest ms
unfolding resume_after
resume-Spread m ms e h = elim (Bool-cases (m.start == m.stop)) [
  | inl y ↦ subst (λ k. Spread k m.tail.rest ms) e (skip-Spread m.tail m.tail.rest ms (rw y at h))
  | inr f ↦ subst (λ k. Spread k m.tail.rest ms) e (rw f at h)
]

found-next :
    (c : Cursor) (o : Option Match) (go_on : Match → List Match)
    → IfOk (Placed c.index c.rest) o
    → ((m : Match) → FoundAt (resume_after m) (go_on m))
    → Spread c.index c.rest (elim o [ none ↦ [] | some m ↦ m ∷ go_on m ])
found-next c none go_on h k = tt
found-next c (some m) go_on h k = (h, resume-Spread m (go_on m) h.tail (k m))

find_from-FoundAt : (r : Regex) (n : ℕ) (o : Option Cursor) → FoundAt o (find_from r n o)
unfolding find_from
find_from-FoundAt r zero none = refl
find_from-FoundAt r zero (some c) = tt
find_from-FoundAt r (suc n) none = refl
find_from-FoundAt r (suc n) (some c) =
    found-next c (search_from r c.before c.index c.rest) (λ m. find_from r n (resume_after m))
      (search_from-Placed r c.before c.index c.rest) (λ m. find_from-FoundAt r n (resume_after m))

-- The matches that `finditer` yields are spread over the text.
pub find_all-Spread : (r : Regex) (s : Text) → Spread 0 s (find_all r s)
unfolding find_all begin
find_all-Spread r s = find_from-FoundAt r (suc (length s)) (some (begin s))
