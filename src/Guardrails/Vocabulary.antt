-- ===== src/Guardrails/Vocabulary.antt =====
-- The tables of backend/libs/guardrails/normalize.py: the words that stand for numbers and letters.
use omnicare_genai_assessmen.Prelude.{ℕ, Option, none, some, List, [], ◌∷◌, if◌then◌else◌}
use omnicare_genai_assessmen.Text.{Text, codes, same}

unfoldable pub units : List (Text × ℕ)
units =
    (codes "zero", 0)
    ∷ (codes "oh", 0)
    ∷ (codes "o", 0)
    ∷ (codes "one", 1)
    ∷ (codes "two", 2)
    ∷ (codes "three", 3)
    ∷ (codes "four", 4)
    ∷ (codes "five", 5)
    ∷ (codes "six", 6)
    ∷ (codes "seven", 7)
    ∷ (codes "eight", 8)
    ∷ (codes "nine", 9)
    ∷ (codes "ten", 10)
    ∷ (codes "eleven", 11)
    ∷ (codes "twelve", 12)
    ∷ (codes "thirteen", 13)
    ∷ (codes "fourteen", 14)
    ∷ (codes "fifteen", 15)
    ∷ (codes "sixteen", 16)
    ∷ (codes "seventeen", 17)
    ∷ (codes "eighteen", 18)
    ∷ (codes "nineteen", 19)
    ∷ []

unfoldable pub tens : List (Text × ℕ)
tens =
    (codes "twenty", 20)
    ∷ (codes "thirty", 30)
    ∷ (codes "forty", 40)
    ∷ (codes "fourty", 40)
    ∷ (codes "fifty", 50)
    ∷ (codes "sixty", 60)
    ∷ (codes "seventy", 70)
    ∷ (codes "eighty", 80)
    ∷ (codes "ninety", 90)
    ∷ []

unfoldable pub scales : List (Text × ℕ)
scales = (codes "hundred", 100) ∷ (codes "thousand", 1000) ∷ (codes "million", 1000000) ∷ []

unfoldable pub letters : List (Text × Text)
letters =
    (codes "pee", codes "P")
    ∷ (codes "oh", codes "O")
    ∷ (codes "el", codes "L")
    ∷ (codes "ell", codes "L")
    ∷ (codes "see", codes "C")
    ∷ (codes "sea", codes "C")
    ∷ (codes "em", codes "M")
    ∷ (codes "cee", codes "C")
    ∷ []

abbrev pub filler : List Text
filler =
    codes "is"
    ∷ codes "number"
    ∷ codes "no"
    ∷ codes "the"
    ∷ codes "my"
    ∷ codes "it"
    ∷ codes "was"
    ∷ codes "of"
    ∷ codes "for"
    ∷ codes "hash"
    ∷ []

unfoldable pub digit_words : List (Text × Text)
digit_words =
    (codes "0", codes "zero")
    ∷ (codes "1", codes "one")
    ∷ (codes "2", codes "two")
    ∷ (codes "3", codes "three")
    ∷ (codes "4", codes "four")
    ∷ (codes "5", codes "five")
    ∷ (codes "6", codes "six")
    ∷ (codes "7", codes "seven")
    ∷ (codes "8", codes "eight")
    ∷ (codes "9", codes "nine")
    ∷ []

unfoldable pub entry {ℓ} : {A : Type ℓ} → List (Text × A) → Text → Option A
entry [] w = none
entry ((v, a) ∷ rest) w = let later = entry rest w in if same v w then some a else later
