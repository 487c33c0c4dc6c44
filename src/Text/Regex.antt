-- ===== src/Text/Regex.antt =====
-- Python's `re` over lists of code points: a backtracking matcher that yields every way to match at
-- a place in the order in which the backtracking tries them, of which `re` takes the first.
pub mod Groups
pub mod Placed
pub mod Syntax
use omnicare_genai_assessmen.Prelude.{
  ℕ, zero, suc, ◌+◌, Bool, true, false, ◌&&◌, ◌||◌, not, Option, none, some, List, [], ◌∷◌, ◌++◌,
  ◌-◌, map, String, ltb, leb, ◌==◌, if◌then◌else◌, length, keep, any,
}
use mathlib.Core.List.{flat_map}
use mathlib.Core.Option
use omnicare_genai_assessmen.Text.{
  Text, codes, is_word, is_digit, is_space, is_upper, is_lower, to_lower,
}

pub data Regex : Type 0 where
  empty : Regex
  one : (ℕ → Bool) → Regex
  seq alt : Regex → Regex → Regex
  star lazy_star : Regex → Regex  -- `r*` and `r*?`
  group : ℕ → Regex → Regex
  boundary : Regex  -- `\b`
  after : (ℕ → Bool) → Regex  -- a lookbehind of one character
  not_after not_before : (ℕ → Bool) → Regex
  line_start line_end : Regex  -- `^` and `$` under `re.M`
  text_end : Regex  -- `$` without it

-- A place in the text: the character before it, its index, what is left, the groups so far.
pub record Cursor : Type 0 where
  pub before : Option ℕ
  pub index : ℕ
  pub rest : Text
  pub groups : List (ℕ × Text)

-- The text between a cursor and one further on.
unfoldable pub consumed : ℕ → Text → Text
consumed zero s = []
consumed (suc n) [] = []
consumed (suc n) (c ∷ s) = c ∷ consumed n s

abbrev pub holds : (ℕ → Bool) → Option ℕ → Bool
holds p none = false
holds p (some c) = p c

abbrev pub next : Text → Option ℕ
next [] = none
next (c ∷ s) = some c

-- Whether two sides of a place differ in being word characters.
abbrev at_boundary : Bool → Bool → Bool
at_boundary true true = false
at_boundary false false = false
at_boundary _ _ = true

abbrev at_line_start : Option ℕ → Bool
at_line_start none = true
at_line_start (some c) = c == 10

abbrev at_line_end : Text → Bool
at_line_end [] = true
at_line_end (c ∷ s) = c == 10

-- At the end, or before a line feed that ends the text.
abbrev at_text_end : Text → Bool
at_text_end [] = true
at_text_end (c ∷ []) = c == 10
at_text_end (c ∷ d ∷ s) = false

abbrev pub assert : Bool → Cursor → List Cursor
assert b c = if b then c ∷ [] else []

step : (ℕ → Bool) → Text → Cursor → List Cursor
step p [] c = []
step p (x ∷ s) c =
    if p x then record c { before = some x; index = suc c.index; rest = s } ∷ [] else []

-- A round of a repetition that consumes nothing ends it.
moved : Cursor → Cursor → Bool
moved c d = ltb c.index d.index

star_rounds : (Cursor → List Cursor) → ℕ → Cursor → List Cursor
unfolding moved flat_map
star_rounds r zero c = c ∷ []
star_rounds r (suc n) c = flat_map (star_rounds r n) (keep (moved c) (r c)) ++ (c ∷ [])

lazy_rounds : (Cursor → List Cursor) → ℕ → Cursor → List Cursor
unfolding moved flat_map
lazy_rounds r zero c = c ∷ []
lazy_rounds r (suc n) c = c ∷ flat_map (lazy_rounds r n) (keep (moved c) (r c))

capture : ℕ → Cursor → Cursor → Cursor
capture n c d = record d { groups = (n, consumed (d.index - c.index) c.rest) ∷ d.groups }

-- Every way to match at a cursor, the one that `re` prefers first.
unfoldable pub matches : Regex → Cursor → List Cursor
unfolding step moved star_rounds lazy_rounds capture consumed flat_map
matches empty c = c ∷ []
matches (one p) c = step p c.rest c
matches (seq r s) c = flat_map (matches s) (matches r c)
matches (alt r s) c = matches r c ++ matches s c
matches (star r) c = star_rounds (matches r) (length c.rest) c
matches (lazy_star r) c = lazy_rounds (matches r) (length c.rest) c
matches (group n r) c = map (capture n c) (matches r c)
matches boundary c = assert (at_boundary (holds is_word c.before) (holds is_word (next c.rest))) c
matches (after p) c = assert (holds p c.before) c
matches (not_after p) c = assert (not (holds p c.before)) c
matches (not_before p) c = assert (not (holds p (next c.rest))) c
matches line_start c = assert (at_line_start c.before) c
matches line_end c = assert (at_line_end c.rest) c
matches text_end c = assert (at_text_end c.rest) c

-- A match object.
pub record Match : Type 0 where
  pub start : ℕ
  pub stop : ℕ
  pub matched : Text
  pub captured : List (ℕ × Text)
  pub tail : Cursor

abbrev first {ℓ} : {A : Type ℓ} → List A → Option A
first [] = none
first (x ∷ xs) = some x

unfoldable pub begin : Text → Cursor
begin s = record { before = none; index = 0; rest = s; groups = [] }

-- The match of `c` up to `d`.
upto : Cursor → Cursor → Match
upto c d = record {
  start = c.index;
  stop = d.index;
  matched = consumed (d.index - c.index) c.rest;
  captured = d.groups;
  tail = record d { groups = [] };
}

-- `re.match` at a cursor.
unfoldable pub match_at : Regex → Cursor → Option Match
unfolding matches upto
match_at r c = Option.map (upto c) (first (matches r c))

-- The first match at or after a cursor.
unfoldable pub search_from : Regex → Option ℕ → ℕ → Text → Option Match
unfolding match_at
search_from r before i [] =
    match_at r (record { before = before; index = i; rest = []; groups = [] })
search_from r before i (x ∷ s) =
    let rest = search_from r (some x) (suc i) s in
    elim (match_at r (record { before = before; index = i; rest = x ∷ s; groups = [] })) [
      | some m ↦ some m
      | none ↦ rest
    ]

-- `re.search`
unfoldable pub search_text : Regex → Text → Option Match
unfolding search_from
search_text r s = search_from r none 0 s

abbrev skip_one : Cursor → Text → Option Cursor
skip_one c [] = none
skip_one c (x ∷ s) = some (record c { before = some x; index = suc c.index; rest = s })

-- Where `finditer` goes on: behind the match, a character further if it was empty.
resume_after : Match → Option Cursor
resume_after m = if m.start == m.stop then skip_one m.tail m.tail.rest else some m.tail

-- `re.finditer`, on fuel: each round consumes a character or is the last.
unfoldable pub find_from : Regex → ℕ → Option Cursor → List Match
unfolding search_from resume_after
find_from r zero c = []
find_from r (suc n) none = []
find_from r (suc n) (some c) = elim (search_from r c.before c.index c.rest) [
  | none ↦ []
  | some m ↦ m ∷ find_from r n (resume_after m)
]

unfoldable pub find_all : Regex → Text → List Match
unfolding find_from begin
find_all r s = find_from r (suc (length s)) (some (begin s))

-- `m.group(n)`; a group that did not take part is empty.
unfoldable pub group_of : ℕ → List (ℕ × Text) → Text
group_of n [] = []
group_of n ((k, s) ∷ rest) = if k == n then s else group_of n rest

-- What lies between the matches: `re.split` of a pattern with no groups.
unfoldable pub pieces : ℕ → Text → List Match → List Text
unfolding consumed
pieces i s [] = s ∷ []
pieces i s (m ∷ ms) = consumed (m.start - i) s ∷ pieces m.stop m.tail.rest ms

unfoldable pub split_text : Regex → Text → List Text
unfolding pieces find_all
split_text r s = pieces 0 s (find_all r s)

-- `re.sub` with a function of the match.
unfoldable pub replaced : (Match → Text) → ℕ → Text → List Match → Text
unfolding consumed
replaced f i s [] = s
replaced f i s (m ∷ ms) = consumed (m.start - i) s ++ (f m ++ replaced f m.stop m.tail.rest ms)

unfoldable pub substitute : Regex → (Match → Text) → Text → Text
unfolding replaced find_all
substitute r f s = replaced f 0 s (find_all r s)
