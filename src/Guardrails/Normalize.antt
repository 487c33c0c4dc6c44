-- ===== src/Guardrails/Normalize.antt =====
-- backend/libs/guardrails/normalize.py: identifiers and amounts as they are spoken.
pub mod Canonical
use omnicare_genai_assessmen.Guardrails.Vocabulary.{
  units, tens, scales, letters, filler, digit_words, entry,
}
use omnicare_genai_assessmen.Prelude.{
  ℕ, ◌+◌, ◌*◌, ◌/◌, ◌%◌, String, Bool, true, false, ◌&&◌, ◌||◌, not, Option, none, some, List, [],
  ◌∷◌, ◌++◌, leb, ltb, ◌==◌, if◌then◌else◌, length, drop, any, all, map, keep,
}
use omnicare_genai_assessmen.Prelude.Sorting.{sorted}
use omnicare_genai_assessmen.Text.{
  Text, codes, same, lower, upper, starts_with, left_strip, right_strip, without, join, decimal,
  is_digit, is_space, is_lower,
}
use omnicare_genai_assessmen.Text.Regex.{
  Regex, one, star, group, boundary, Match, find_all, search_text, group_of, split_text,
}
use omnicare_genai_assessmen.Text.Regex.Syntax.{
  ◌∘◌, opt, plus, times, digit, space, member, literal, literal_i,
}

abbrev is_nonempty {ℓ} : {A : Type ℓ} → List A → Bool
is_nonempty [] = false
is_nonempty (x ∷ xs) = true

abbrev is_some {ℓ} : {A : Type ℓ} → Option A → Bool
is_some none = false
is_some (some a) = true

-- `t.isdigit()`
abbrev pub all_digits : Text → Bool
all_digits t = is_nonempty t && all is_digit t

-- `str(value)` of a value below 100
pub printed : ℕ → Text
printed n = if ltb n 10 then (48 + n) ∷ [] else (48 + n / 10) ∷ (48 + n % 10) ∷ []

-- A unit that may follow a ten.
digit_value : Option ℕ → Option ℕ
digit_value none = none
digit_value (some n) = if leb 1 n && leb n 9 then some n else none

-- The text that a ten gives, with the word behind it, and whether that word is used up.
ten_with : ℕ → Option ℕ → Text
unfolding printed
ten_with value none = printed value
ten_with value (some n) = printed (value + n)

-- What a word that starts no ten gives.
single : Text → Option ℕ → Text
unfolding printed
single t none = if all_digits t then t else []
single t (some n) = if all_digits t then t else printed n

-- `_words_to_digits`
unfoldable pub words_to_digits : List Text → Text
unfolding units tens entry lower digit_value ten_with single
words_to_digits [] = []
words_to_digits (t ∷ []) =
    let w = lower t in
    elim (if all_digits w then none else entry tens w) [
      | some value ↦ printed value
      | none ↦ single w (entry units w)
    ]
words_to_digits (t ∷ u ∷ ts) =
    let w = lower t in
    let from_next = words_to_digits (u ∷ ts) in
    let behind_next = words_to_digits ts in
    let unit = digit_value (entry units (lower u)) in
    elim (if all_digits w then none else entry tens w) [
      | some value ↦ ten_with value unit ++ (if is_some unit then behind_next else from_next)
      | none ↦ single w (entry units w) ++ from_next
    ]

abbrev bare : Text → Text
bare token = right_strip (member (codes ",.;:")) (left_strip (member (codes ",.;:")) (lower token))

pub is_number_word : Text → Bool
unfolding units tens entry
is_number_word w = all_digits w || (is_some (entry units w) || is_some (entry tens w))

-- The loop of `_identifier_run`, with the run so far.
run_from : List Text → List Text → List Text
unfolding is_number_word same
run_from run [] = run
run_from run (token ∷ ts) =
    let longer = run_from (run ++ (bare token ∷ [])) ts in
    let skip = run_from run ts in
    if is_number_word (bare token)
    then longer
    else if is_nonempty run || not (any (same (bare token)) filler)
    then run
    else skip

unfoldable pub identifier_run : List Text → List Text
unfolding run_from
identifier_run tokens = run_from [] tokens

-- `s.split()`
unfoldable pub words : Text → List Text
words s = keep is_nonempty (split_text (plus space) s)

-- What follows the first place where `p` stands in `s`, if it does.
pub behind : Text → Text → Option Text
unfolding starts_with
behind p [] = if is_nonempty p then none else some []
behind p (c ∷ s) =
    let later = behind p s in
    if starts_with p (c ∷ s) then some (drop (length p) (c ∷ s)) else later

first_behind : List Text → Text → Option Text
unfolding behind
first_behind [] s = none
first_behind (cue ∷ cues) s =
    let later = first_behind cues s in elim (behind cue s) [ some t ↦ some t | none ↦ later ]

letter_of : Text → Text
unfolding letters entry
letter_of t = elim (entry letters t) [ some l ↦ l | none ↦ t ]

-- `rf"\b{prefix}\s*[-\s]?\s*(\d{4})\b"`
pub direct : String → Regex
direct prefix =
    boundary
    ∘ literal prefix
    ∘ star space
    ∘ opt (one (λ c. (c == b'-') || is_space c))
    ∘ star space
    ∘ group 1 (times 4 digit)
    ∘ boundary

-- `rf"\b{' '.join(prefix)}\b(.*)"`; what is searched has no line feed.
spelled : String → Regex
spelled letters =
    boundary ∘ literal_i letters ∘ boundary ∘ group 1 (star (one (λ c. not (c == 10))))

pub with_prefix : String → Text → Text
unfolding upper
with_prefix prefix digits = upper (codes prefix) ++ (codes "-" ++ digits)

-- The digits that the words behind the cue give, if they are four.
of_tail : String → Option Text → Option Text
unfolding with_prefix words_to_digits identifier_run words
of_tail prefix none = none
of_tail prefix (some tail) =
    let digits = words_to_digits (identifier_run (words tail)) in
    if length digits == 4 then some (with_prefix prefix digits) else none

pub canonicalize : Text → String → String → List Text → Option Text
unfolding direct spelled with_prefix of_tail words first_behind letter_of
canonicalize text prefix letterwise cues =
    let lowered = lower text in
    let spaced = map (λ c. if (c == b'.') || (c == b'-') then 32 else c) lowered in
    let joined = join (codes " ") (map letter_of (words spaced)) in
    elim (search_text (direct prefix) lowered) [
      | some m ↦ some (with_prefix prefix (group_of 1 m.captured))
      | none ↦ elim (search_text (spelled letterwise) joined) [
        | some m ↦ of_tail prefix (some (group_of 1 m.captured))
        | none ↦
            of_tail prefix (first_behind (sorted (λ a b. leb (length b) (length a)) cues) joined)
      ]
    ]

unfoldable pub normalize_policy_number : Text → Option Text
unfolding canonicalize
normalize_policy_number text =
    canonicalize text "pol" "P O L"
      (codes "pol" ∷ codes "policy" ∷ codes "policy number" ∷ codes "p o l" ∷ [])

unfoldable pub normalize_claim_id : Text → Option Text
unfolding canonicalize
normalize_claim_id text =
    canonicalize text "clm" "C L M"
      (codes "clm" ∷ codes "claim" ∷ codes "claim number" ∷ codes "c l m" ∷ [])
