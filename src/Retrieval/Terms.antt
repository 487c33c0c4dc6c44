-- ===== src/Retrieval/Terms.antt =====
-- How the words of a text are read for the lexical ranking (backend/retrieval/app/hybrid.py).
use omnicare_genai_assessmen.Prelude.{
  ℕ, ◌-◌, Bool, false, ◌&&◌, ◌||◌, not, List, [], ◌∷◌, ◌++◌, if◌then◌else◌, ltb, leb, ◌==◌, length,
  take, any, all, keep, map,
}
use mathlib.Core.List.{reverse}
use omnicare_genai_assessmen.Text.{
  Text, codes, same, lower, starts_with, is_lower, is_upper, is_digit,
}
use omnicare_genai_assessmen.Text.Regex.{Regex, one, star, Match, find_all, split_text}
use omnicare_genai_assessmen.Text.Regex.Syntax.{◌∘◌, ◌∣◌, opt, plus, digit, space, literal}

-- `_TOKEN_RE`
token_pattern : Regex
token_pattern =
    let letter = one is_lower in
    let alphanumeric = one (λ c. is_lower c || is_digit c) in
    (opt (literal "$")
      ∘ digit
      ∘ star (one (λ c. is_digit c || (c == b',')))
      ∘ opt (literal "." ∘ plus digit))
    ∣ (letter ∘ star alphanumeric ∘ star (literal "-" ∘ plus alphanumeric))

matched_texts : List Match → List Text
matched_texts [] = []
matched_texts (m ∷ ms) = m.matched ∷ matched_texts ms

unfoldable pub tokenize : Text → List Text
unfolding token_pattern matched_texts lower
tokenize text = matched_texts (find_all token_pattern (lower text))

-- `STOPWORDS`, by the lines of the source
unfoldable pub stopwords : List Text
stopwords =
    split_text space (codes "a an the and or but if then than that this these those there here")
    ++ split_text space (codes "i me my we our you your he she it its they them their")
    ++ split_text space
        (codes "is am are was were be been being do does did doing done have has had having")
    ++ split_text space (codes "can could will would shall should may might must")
    ++ split_text space
        (codes "of in on at to for from by with about into over under up down out off")
    ++ split_text space (codes "as no not so such only own same too very just")
    ++ split_text space (codes "what which who whom when where why how")
    ++ split_text space (codes "me my mine i'd i'm need want like get got tell show me please")

-- `s.endswith(p)`
unfoldable pub ends_with : Text → Text → Bool
unfolding starts_with
ends_with p s = starts_with (reverse p) (reverse s)

-- `s[:-n]`
abbrev pub without_last : ℕ → Text → Text
without_last n s = take (length s - n) s

singular : Text → Text
unfolding ends_with
singular t =
    if ends_with (codes "ies") t && ltb 4 (length t)
    then without_last 3 t ++ codes "y"
    else if ends_with (codes "sses") t
    then without_last 2 t
    else if ends_with (codes "s") t && not (ends_with (codes "ss") t || ends_with (codes "us") t)
    then without_last 1 t
    else t

without_ending : Text → Text
unfolding ends_with
without_ending t =
    if ends_with (codes "ing") t && ltb 5 (length t)
    then without_last 3 t
    else if ends_with (codes "ed") t && not (ends_with (codes "eed") t) && ltb 4 (length t)
    then without_last 2 t
    else t

without_e : Text → Text
unfolding ends_with
without_e t = if ends_with (codes "e") t && ltb 3 (length t) then without_last 1 t else t

is_alpha : Text → Bool
is_alpha [] = false
is_alpha (c ∷ s) = all (λ d. is_lower d || is_upper d) (c ∷ s)

-- `_stem`
unfoldable pub stem : Text → Text
unfolding singular without_ending without_e is_alpha
stem t = if not (is_alpha t) || leb (length t) 3 then t else without_e (without_ending (singular t))

or_tokens : List Text → List Text → List Text
or_tokens [] tokens = tokens
or_tokens (t ∷ ts) tokens = t ∷ ts

analyze_tokens : List Text → List Text
unfolding or_tokens stem stopwords
analyze_tokens tokens =
    map stem (or_tokens (keep (λ t. not (any (same t) stopwords)) tokens) tokens)

unfoldable pub analyze : Text → List Text
unfolding analyze_tokens
analyze text = analyze_tokens (tokenize text)
