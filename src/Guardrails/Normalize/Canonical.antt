-- ===== src/Guardrails/Normalize/Canonical.antt =====
-- An identifier that is found is one that the claims contracts accept.
use omnicare_genai_assessmen.Prelude.{
  ℕ, ◌+◌, ◌≤◌, ◌<◌, ◌≡◌, refl, sym, Bool, true, false, ◌&&◌, Option, none, some, List, [], ◌∷◌,
  ◌++◌, All, arith, if◌then◌else◌, Bool-cases, inl, inr, all, length, String, leb, ◌==◌, ==_iff,
}
use mathlib.Core.Path.{subst}
use omnicare_genai_assessmen.Text.{Text, is_digit, upper, to_upper, same, starts_with, lower}
use omnicare_genai_assessmen.Text.Regex.{Match, group_of}
use omnicare_genai_assessmen.Text.Regex.Groups.{
  AreDigits, Captures, Found, group-Captures, seq-Captures, boundary-Captures, search_text-Found,
}
use omnicare_genai_assessmen.Prelude.{IfOk}
use omnicare_genai_assessmen.Claims.Contracts.{is_policy_number, is_claim_id}
use omnicare_genai_assessmen.Guardrails.Vocabulary.{units, tens, entry}
use omnicare_genai_assessmen.Guardrails.Normalize.{
  printed, digit_value, ten_with, single, words_to_digits, identifier_run, words, all_digits,
  direct, with_prefix, of_tail, canonicalize, normalize_policy_number, normalize_claim_id,
}

all-append :
    (v w : Text) → all is_digit v ≡ true → all is_digit w ≡ true → all is_digit (v ++ w) ≡ true
all-append [] w h k = k
all-append (x ∷ v) w h k = ground (arith, all-append v w (ground (arith, h)) k)

-- The values of a table of number words are small.
entry-bound :
    (n : ℕ) (table : List (Text × ℕ)) (w : Text)
    → all (λ (e : Text × ℕ). leb e.1 n) table ≡ true
    → IfOk (λ v. v ≤ n) (entry table w)
unfolding entry
entry-bound n [] w h = tt
entry-bound n ((v, a) ∷ rest) w h = elim (Bool-cases (same v w)) [
  | inl here ↦ rw here (ground (arith, h))
  | inr there ↦ rw there (entry-bound n rest w (ground (arith, h)))
]

tens-bound : (w : Text) → IfOk (λ v. v ≤ 90) (entry tens w)
unfolding tens
tens-bound w = entry-bound 90 tens w refl

units-bound : (w : Text) → IfOk (λ v. v ≤ 19) (entry units w)
unfolding units
units-bound w = entry-bound 19 units w refl

printed-digits : (n : ℕ) → n < 100 → all is_digit (printed n) ≡ true
unfolding printed
printed-digits n h = ground arith

digit_value-bound : (o : Option ℕ) → IfOk (λ v. v ≤ 9) (digit_value o)
unfolding digit_value
digit_value-bound none = tt
digit_value-bound (some n) = elim (Bool-cases (leb 1 n && leb n 9)) [
  | inl small ↦ rw small (ground (arith, small))
  | inr other ↦ rw other tt
]

ten_with-digits :
    (value : ℕ) (o : Option ℕ)
    → value ≤ 90
    → IfOk (λ v. v ≤ 9) o
    → all is_digit (ten_with value o) ≡ true
unfolding ten_with
ten_with-digits value none h k = printed-digits value (omega arith)
ten_with-digits value (some n) h k = printed-digits (value + n) (omega arith)

single-digits : (w : Text) (o : Option ℕ) → IfOk (λ v. v ≤ 19) o → all is_digit (single w o) ≡ true
unfolding single
single-digits w none k = elim (Bool-cases (all_digits w)) [
  | inl own ↦ rw own (ground (arith, own))
  | inr other ↦ rw other refl
]
single-digits w (some n) k = elim (Bool-cases (all_digits w)) [
  | inl own ↦ rw own (ground (arith, own))
  | inr other ↦ rw other (printed-digits n (omega arith))
]

abbrev is_given : Option ℕ → Bool
is_given none = false
is_given (some n) = true

abbrev no_digits : Text → Option ℕ
no_digits w = if all_digits w then none else entry tens w

no_digits-bound : (w : Text) → IfOk (λ v. v ≤ 90) (no_digits w)
no_digits-bound w = elim (Bool-cases (all_digits w)) [
  | inl own ↦ rw own tt
  | inr other ↦ rw other (tens-bound w)
]

last-digits :
    (o : Option ℕ) (rest : Text)
    → IfOk (λ v. v ≤ 90) o
    → all is_digit rest ≡ true
    → all is_digit (elim o [ some value ↦ printed value | none ↦ rest ]) ≡ true
last-digits none rest h k = k
last-digits (some value) rest h k = printed-digits value (omega arith)

either-digits :
    (b : Bool) (x y : Text)
    → all is_digit x ≡ true
    → all is_digit y ≡ true
    → all is_digit (if b then x else y) ≡ true
either-digits true x y h k = h
either-digits false x y h k = k

next-digits :
    (o unit : Option ℕ) (b : Bool) (word behind next : Text)
    → IfOk (λ v. v ≤ 90) o
    → IfOk (λ v. v ≤ 9) unit
    → all is_digit word ≡ true
    → all is_digit behind ≡ true
    → all is_digit next ≡ true
    → all is_digit (elim o [
      | some value ↦ ten_with value unit ++ (if b then behind else next)
      | none ↦ word ++ next
    ])
      ≡ true
next-digits none unit b word behind next h u w k n = all-append word next w n
next-digits (some value) unit b word behind next h u w k n =
    all-append (ten_with value unit) (if b then behind else next) (ten_with-digits value unit h u)
      (either-digits b behind next k n)

words_to_digits-digits : (ts : List Text) → all is_digit (words_to_digits ts) ≡ true
unfolding words_to_digits
words_to_digits-digits [] = refl
words_to_digits-digits (t ∷ []) =
    last-digits (no_digits (lower t)) (single (lower t) (entry units (lower t)))
      (no_digits-bound (lower t)) (single-digits (lower t) _ (units-bound (lower t)))
words_to_digits-digits (t ∷ u ∷ ts) =
    let unit = digit_value (entry units (lower u)) in
    next-digits (no_digits (lower t)) unit (is_given unit)
      (single (lower t) (entry units (lower t))) (words_to_digits ts) (words_to_digits (u ∷ ts))
      (no_digits-bound (lower t)) (digit_value-bound (entry units (lower u)))
      (single-digits (lower t) _ (units-bound (lower t))) (words_to_digits-digits ts)
      (words_to_digits-digits (u ∷ ts))

-- The prefix in capitals, a hyphen and four digits.
abbrev pub IsCanonical : String → Text → Type 0
IsCanonical prefix id = (w : Text) × AreDigits 4 w × (id ≡ with_prefix prefix w)

counted :
    (prefix : String) (w : Text)
    → all is_digit w ≡ true
    → IfOk (IsCanonical prefix) (if length w == 4 then some (with_prefix prefix w) else none)
counted prefix w h = elim (Bool-cases (length w == 4)) [
  | inl four ↦ rw four (w, record { size = (==_iff (length w) 4).0 four; digits = h }, refl)
  | inr other ↦ rw other tt
]

of_tail-Canonical :
    (prefix : String) (o : Option Text) → IfOk (IsCanonical prefix) (of_tail prefix o)
unfolding of_tail
of_tail-Canonical prefix none = tt
of_tail-Canonical prefix (some tail) =
    counted prefix _ (words_to_digits-digits (identifier_run (words tail)))

direct-Captures : (prefix : String) → Captures 4 (direct prefix)
unfolding direct
direct-Captures prefix = seq-Captures 4 _ _ (
    seq-Captures 4 _ _ (
      seq-Captures 4 _ _
        (seq-Captures 4 _ _ (seq-Captures 4 _ _ (boundary-Captures 4 _ (group-Captures 4))))))

chosen-Canonical :
    (prefix : String) (first second : Option Match) (behind : Option Text)
    → Found 4 first
    → IfOk (IsCanonical prefix) (elim first [
      | some m ↦ some (with_prefix prefix (group_of 1 m.captured))
      | none ↦ elim second [
        | some m ↦ of_tail prefix (some (group_of 1 m.captured))
        | none ↦ of_tail prefix behind
      ]
    ])
chosen-Canonical prefix (some m) second behind h = (group_of 1 m.captured, h, refl)
chosen-Canonical prefix none (some m) behind h =
    of_tail-Canonical prefix (some (group_of 1 m.captured))
chosen-Canonical prefix none none behind h = of_tail-Canonical prefix behind

canonicalize-Canonical :
    (text : Text) (prefix letterwise : String) (cues : List Text)
    → IfOk (IsCanonical prefix) (canonicalize text prefix letterwise cues)
unfolding canonicalize
canonicalize-Canonical text prefix letterwise cues =
    chosen-Canonical prefix _ _ _
      (search_text-Found 4 (direct prefix) (lower text) (direct-Captures prefix))

last_true :
    (a b c d : Bool) → (a && (b && (c && (d && true)))) ≡ true → (a && (b && (c && d))) ≡ true
last_true a b c true h = h
last_true a b c false h = h

policy-form : (w : Text) → AreDigits 4 w → is_policy_number (with_prefix "pol" w) ≡ true
unfolding is_policy_number with_prefix upper to_upper starts_with
policy-form (a ∷ b ∷ c ∷ d ∷ []) h =
    last_true (is_digit a) (is_digit b) (is_digit c) (is_digit d) h.digits
policy-form [] h = absurd (omega (arith, h.size))
policy-form (a ∷ []) h = absurd (omega (arith, h.size))
policy-form (a ∷ b ∷ []) h = absurd (omega (arith, h.size))
policy-form (a ∷ b ∷ c ∷ []) h = absurd (omega (arith, h.size))
policy-form (a ∷ b ∷ c ∷ d ∷ e ∷ w) h = absurd (omega (arith, h.size))

claim-form : (w : Text) → AreDigits 4 w → is_claim_id (with_prefix "clm" w) ≡ true
unfolding is_claim_id with_prefix upper to_upper starts_with
claim-form (a ∷ b ∷ c ∷ d ∷ []) h =
    last_true (is_digit a) (is_digit b) (is_digit c) (is_digit d) h.digits
claim-form [] h = absurd (omega (arith, h.size))
claim-form (a ∷ []) h = absurd (omega (arith, h.size))
claim-form (a ∷ b ∷ []) h = absurd (omega (arith, h.size))
claim-form (a ∷ b ∷ c ∷ []) h = absurd (omega (arith, h.size))
claim-form (a ∷ b ∷ c ∷ d ∷ e ∷ w) h = absurd (omega (arith, h.size))

accepted :
    (prefix : String) (test : Text → Bool) (o : Option Text)
    → ((w : Text) → AreDigits 4 w → test (with_prefix prefix w) ≡ true)
    → IfOk (IsCanonical prefix) o
    → IfOk (λ id. test id ≡ true) o
accepted prefix test none form h = tt
accepted prefix test (some id) form (w, d, e) = subst (λ t. test t ≡ true) (sym e) (form w d)

-- In a text of ASCII characters, a policy number that is found has the form that the arguments of a
-- claim require, and a claim id that is found has the form of the ids of claims: the digits are
-- four, whether they were written or spoken.
pub normalize-accepted :
    (text : Text)
    → All (λ (c : ℕ). c < 128) text
    → IfOk (λ id. is_policy_number id ≡ true) (normalize_policy_number text)
      × IfOk (λ id. is_claim_id id ≡ true) (normalize_claim_id text)
unfolding normalize_policy_number normalize_claim_id
normalize-accepted text ascii = (
  accepted "pol" is_policy_number _ policy-form (canonicalize-Canonical text "pol" "P O L" _),
  accepted "clm" is_claim_id _ claim-form (canonicalize-Canonical text "clm" "C L M" _),
)
