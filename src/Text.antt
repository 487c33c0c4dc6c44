-- ===== src/Text.antt =====
-- Python's `str` as a list of code points, with the methods that the program uses. Case, spaces and
-- digits are those of ASCII; the methods leave any other character alone.
pub mod Regex
pub mod Laws
use Prim.Native.Char.{code}
use omnicare_genai_assessmen.Prelude.{
  ℕ, zero, suc, ◌+◌, ◌-◌, ◌*◌, String, Bool, true, false, ◌&&◌, ◌||◌, not, List, [], ◌∷◌, ◌++◌, map,
  leb, ◌==◌, if◌then◌else◌, any, keep,
}
use mathlib.Core.List.{reverse}

abbrev pub Text : Type 0
Text = List ℕ

-- A literal of the source.
abbrev pub codes : String → Text
codes String.[] = []
codes (String.◌∷◌ c s) = code c ∷ codes s

abbrev pub between : ℕ → ℕ → ℕ → Bool
between lo hi c = leb lo c && leb c hi

abbrev pub is_upper : ℕ → Bool
is_upper c = between b'A' b'Z' c

abbrev pub is_lower : ℕ → Bool
is_lower c = between b'a' b'z' c

abbrev pub is_digit : ℕ → Bool
is_digit c = between b'0' b'9' c

-- `\s`: the blank, tab to carriage return, and the four separators 28 to 31.
abbrev pub is_space : ℕ → Bool
is_space c = (c == 32) || between 9 13 c || between 28 31 c

-- `\w`
abbrev pub is_word : ℕ → Bool
is_word c = is_lower c || is_upper c || is_digit c || (c == b'_')

unfoldable pub to_lower : ℕ → ℕ
to_lower c = if is_upper c then c + 32 else c

unfoldable pub to_upper : ℕ → ℕ
to_upper c = if is_lower c then c - 32 else c

-- `s.lower()`, `s.upper()`
unfoldable pub lower : Text → Text
unfolding to_lower
lower s = map to_lower s

unfoldable pub upper : Text → Text
unfolding to_upper
upper s = map to_upper s

-- `s == t`
unfoldable pub same : Text → Text → Bool
same [] [] = true
same [] (d ∷ t) = false
same (c ∷ s) [] = false
same (c ∷ s) (d ∷ t) = (c == d) && same s t

-- `s.startswith(p)`
unfoldable pub starts_with : Text → Text → Bool
starts_with [] s = true
starts_with (c ∷ p) [] = false
starts_with (c ∷ p) (d ∷ s) = (c == d) && starts_with p s

-- `p in s`
unfoldable pub contains : Text → Text → Bool
unfolding starts_with
contains p [] = starts_with p []
contains p (c ∷ s) = starts_with p (c ∷ s) || contains p s

-- `s.lstrip()`, over the characters that a test accepts
unfoldable pub left_strip : (ℕ → Bool) → Text → Text
left_strip drop [] = []
left_strip drop (c ∷ s) = let rest = left_strip drop s in if drop c then rest else c ∷ s

-- `s.rstrip()`
unfoldable pub right_strip : (ℕ → Bool) → Text → Text
unfolding left_strip
right_strip drop s = reverse (left_strip drop (reverse s))

-- `s.strip()`
unfoldable pub strip : Text → Text
unfolding right_strip
strip s = right_strip is_space (left_strip is_space s)

-- `s.replace(c, "")` at a single character
unfoldable pub without : ℕ → Text → Text
without c s = keep (λ d. not (d == c)) s

-- `sep.join(parts)`
unfoldable pub join : Text → List Text → Text
join sep [] = []
join sep (s ∷ []) = s
join sep (s ∷ t ∷ ts) = s ++ (sep ++ join sep (t ∷ ts))

-- The number that a run of decimal digits stands for, as `int` and `Decimal` read it.
unfoldable pub decimal : ℕ → Text → ℕ
decimal n [] = n
decimal n (c ∷ s) = decimal (n * 10 + (c - b'0')) s
