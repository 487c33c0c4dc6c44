-- ===== src/Guardrails/Amounts.antt =====
-- Spoken amounts and the read-back of identifiers (backend/libs/guardrails/normalize.py).
use omnicare_genai_assessmen.Guardrails.Vocabulary.{units, tens, scales, digit_words, entry}
use omnicare_genai_assessmen.Prelude.{
  ℕ, ◌+◌, ◌*◌, Bool, true, false, ◌&&◌, ◌||◌, not, none, some, List, [], ◌∷◌, ◌++◌, leb, ◌==◌,
  if◌then◌else◌, map,
}
use omnicare_genai_assessmen.Text.{
  Text, codes, same, lower, upper, without, join, decimal, is_digit, is_lower,
}
use omnicare_genai_assessmen.Text.Regex.{one, star, Match, find_all, split_text}
use omnicare_genai_assessmen.Text.Regex.Syntax.{◌∘◌, plus, digit}

-- The figures that are written, in whole dollars.
written : List Match → List ℕ
unfolding without decimal
written [] = []
written (m ∷ ms) =
    let rest = written ms in
    let n = decimal 0 (without b',' m.matched) in if leb 1 n then n ∷ rest else rest

-- The quantity that is being spoken.
pub record Spoken : Type 0 where
  pub total : ℕ
  pub current : ℕ
  pub seen : Bool
  pub found : List ℕ

abbrev or_one : ℕ → ℕ
or_one n = if n == 0 then 1 else n

-- `found.add`, at or above the floor.
flushed : Spoken → List ℕ
flushed st =
    if st.seen && leb 100 (st.total + st.current)
    then (st.total + st.current) ∷ st.found
    else st.found

scaled : ℕ → Spoken → Spoken
scaled n st =
    if n == 100
    then record st { current = or_one st.current * 100; seen = true }
    else record st { total = st.total + or_one st.current * n; current = 0; seen = true }

hear : Spoken → Text → Spoken
unfolding units tens scales entry flushed scaled same
hear st raw = elim (entry units raw) [
  | some n ↦ record st { current = st.current + n; seen = true }
  | none ↦ elim (entry tens raw) [
    | some n ↦ record st { current = st.current + n; seen = true }
    | none ↦ elim (entry scales raw) [
      | some n ↦ scaled n st
      | none ↦
          if same raw (codes "and") && st.seen
          then st
          else record { total = 0; current = 0; seen = false; found = flushed st }
    ]
  ]
]

hear_all : Spoken → List Text → Spoken
unfolding hear
hear_all st [] = st
hear_all st (w ∷ ws) = hear_all (hear st w) ws

-- `spoken_amounts`: the set as a list.
unfoldable pub spoken_amounts : Text → List ℕ
unfolding written hear_all flushed
spoken_amounts text = flushed (
    hear_all
      (record {
        total = 0;
        current = 0;
        seen = false;
        found = written (find_all (digit ∘ star (one (λ c. is_digit c || (c == b',')))) text);
      })
      (split_text (plus (one (λ c. not (is_lower c)))) (lower text)))

digit_word : ℕ → Text
unfolding digit_words entry
digit_word d = elim (entry digit_words (d ∷ [])) [ some w ↦ w | none ↦ d ∷ [] ]

-- What stands before the first hyphen, and behind it.
before_dash : Text → Text
before_dash [] = []
before_dash (c ∷ s) = let rest = before_dash s in if c == b'-' then [] else c ∷ rest

behind_dash : Text → Text
behind_dash [] = []
behind_dash (c ∷ s) = let rest = behind_dash s in if c == b'-' then s else rest

unfoldable pub phonetic_readback : Text → Text
unfolding digit_word before_dash behind_dash join upper
phonetic_readback identifier =
    let spelled_out = join (codes "-") (map (λ c. c ∷ []) (upper (before_dash identifier))) in
    let spoken = join (codes " ") (map digit_word (behind_dash identifier)) in
    spelled_out ++ (codes ", " ++ spoken)
