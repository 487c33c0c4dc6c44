-- ===== src/Text/Regex/Syntax.antt =====
-- The forms of a pattern that the program writes, over the constructors of `Regex`.
use omnicare_genai_assessmen.Prelude.{ℕ, zero, suc, Bool, not, List, [], ◌∷◌, String, ◌==◌, any}
use omnicare_genai_assessmen.Text.{Text, codes, is_word, is_digit, is_space, to_lower}
use omnicare_genai_assessmen.Text.Regex.{Regex, empty, one, seq, alt, star}

infixr 60 ◌∘◌
infixr 55 ◌∣◌
-- `rs`, `r|s`
abbrev pub ◌∘◌ : Regex → Regex → Regex
r ∘ s = seq r s

abbrev pub ◌∣◌ : Regex → Regex → Regex
r ∣ s = alt r s

-- `r?`, `r+`, `r{n}`
abbrev pub opt : Regex → Regex
opt r = alt r empty

abbrev pub plus : Regex → Regex
plus r = seq r (star r)

abbrev pub times : ℕ → Regex → Regex
times zero r = empty
times (suc n) r = seq r (times n r)

-- `r{0,n}`
abbrev pub at_most : ℕ → Regex → Regex
at_most zero r = empty
at_most (suc n) r = alt (seq r (at_most n r)) empty

-- `[...]` and `[^...]`
abbrev pub member : Text → ℕ → Bool
member s c = any (λ d. c == d) s

abbrev pub in_set : String → Regex
in_set s = one (member (codes s))

abbrev pub not_in_set : String → Regex
not_in_set s = one (λ c. not (member (codes s) c))

abbrev pub digit : Regex
digit = one is_digit

abbrev pub space : Regex
space = one is_space

abbrev pub word_char : Regex
word_char = one is_word

-- A literal, as it stands and under `re.I`.
abbrev pub literal_of : (ℕ → ℕ → Bool) → Text → Regex
literal_of eq [] = empty
literal_of eq (c ∷ []) = one (eq c)
literal_of eq (c ∷ d ∷ s) = seq (one (eq c)) (literal_of eq (d ∷ s))

abbrev pub literal : String → Regex
literal s = literal_of (λ c d. d == c) (codes s)

abbrev pub literal_i : String → Regex
literal_i s = literal_of (λ c d. to_lower d == to_lower c) (codes s)

-- `(?:a|b|...)` of words under `re.I`
abbrev pub one_of_i : List String → Regex
one_of_i [] = empty
one_of_i (s ∷ []) = literal_i s
one_of_i (s ∷ t ∷ ts) = alt (literal_i s) (one_of_i (t ∷ ts))
