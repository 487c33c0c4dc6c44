-- ===== src/Claims/Repository/Numbers.antt =====
-- The id that the store gives next, as a text and as a number.
use omnicare_genai_assessmen.Prelude.{
  ℕ, zero, suc, ◌+◌, ◌/◌, ◌%◌, ◌≤◌, ◌<◌, ◌≡◌, refl, true, false, List, [], ◌∷◌, ◌++◌, max, arith,
  ltb, length, lt→ltb, All, ◌-◌,
}
use mathlib.Core.Path.{subst}
use omnicare_genai_assessmen.Text.{Text, codes, decimal}
use omnicare_genai_assessmen.Claims.Contracts.{Claim, is_claim_id, four_digits?}
use omnicare_genai_assessmen.Claims.Repository.{
  until_dash, after_dash, number_of, highest, highest_from, four_digits, digits_onto, padded,
  next_id,
}

-- Four digits are read back as the number that they were printed for.
number-four_digits : (n : ℕ) → n < 10000 → number_of (codes "CLM-" ++ four_digits n) ≡ n
unfolding number_of until_dash after_dash four_digits decimal
number-four_digits n h = ground arith

is_claim_id-four_digits : (n : ℕ) → n < 10000 → is_claim_id (codes "CLM-" ++ four_digits n) ≡ true
unfolding is_claim_id four_digits
is_claim_id-four_digits n h = ground arith

digits-grow : (fuel n : ℕ) (acc : Text) → length acc ≤ length (digits_onto fuel n acc)
unfolding digits_onto
digits-grow zero n acc = omega arith
digits-grow (suc fuel) n acc = ground (arith, digits-grow fuel (n / 10) ((48 + n % 10) ∷ acc))

digits-step :
    (fuel n : ℕ) (acc : Text)
    → 0 < n
    → digits_onto (suc fuel) n acc ≡ digits_onto fuel (n / 10) ((48 + n % 10) ∷ acc)
unfolding digits_onto
digits-step fuel n acc h = ground arith

-- Five rounds of a number that has five digits.
digits-five :
    (fuel n : ℕ) → 10000 ≤ n → 5 ≤ length (digits_onto (suc (suc (suc (suc (suc fuel))))) n [])
digits-five fuel n h =
    rw
      (
        digits-step _ n _ (omega arith),
        digits-step _ (n / 10) _ (omega arith),
        digits-step _ (n / 10 / 10) _ (omega arith),
        digits-step _ (n / 10 / 10 / 10) _ (omega arith),
        digits-step _ (n / 10 / 10 / 10 / 10) _ (omega arith),
      )
      (digits-grow fuel (n / 10 / 10 / 10 / 10 / 10) _)

digits_wide : (n : ℕ) → 10000 ≤ n → 5 ≤ length (digits_onto n n [])
digits_wide n h =
    let e : suc (suc (suc (suc (suc (n - 5))))) ≡ n = omega arith in
    subst (λ (fuel : ℕ). 5 ≤ length (digits_onto fuel n [])) e (digits-five (n - 5) n h)

four_digits?-wide : (t : Text) → 5 ≤ length t → four_digits? t ≡ false
unfolding four_digits?
four_digits?-wide [] h = refl
four_digits?-wide (a ∷ []) h = refl
four_digits?-wide (a ∷ b ∷ []) h = refl
four_digits?-wide (a ∷ b ∷ c ∷ []) h = refl
four_digits?-wide (a ∷ b ∷ c ∷ d ∷ []) h = absurd (omega arith)
four_digits?-wide (a ∷ b ∷ c ∷ d ∷ e ∷ t) h = refl

is_claim_id-wide : (t : Text) → 5 ≤ length t → is_claim_id (codes "CLM-" ++ t) ≡ false
unfolding is_claim_id
is_claim_id-wide t h = four_digits?-wide t h

-- The next id is well formed exactly while the highest number is below 9999, and then stands for
-- the number after the highest.
pub next_id-padded :
    (claims : List Claim)
    → highest claims < 9999
    → (is_claim_id (next_id claims) ≡ true) × (number_of (next_id claims) ≡ highest claims + 1)
unfolding next_id padded
next_id-padded claims h =
    let n = highest claims + 1 in
    let small : ltb n 10000 ≡ true = lt→ltb _ _ (omega arith) in
    rw small (is_claim_id-four_digits n (omega arith), number-four_digits n (omega arith))

pub next_id-overflow :
    (claims : List Claim) → 9999 ≤ highest claims → is_claim_id (next_id claims) ≡ false
unfolding next_id padded
next_id-overflow claims h =
    let n = highest claims + 1 in
    let wide : ltb n 10000 ≡ false = ground arith in
    rw wide (is_claim_id-wide _ (digits_wide n (omega arith)))

-- Every stored number is at most the highest.
abbrev pub AtMost : ℕ → List Claim → Type 0
AtMost n claims = All (λ c. number_of c.claim_id ≤ n) claims

highest_from-bounds :
    (n : ℕ) (cs : List Claim) → (n ≤ highest_from n cs) × AtMost (highest_from n cs) cs
unfolding highest_from
highest_from-bounds n [] = (omega arith, tt)
highest_from-bounds n (c ∷ cs) =
    let (low, all_of) = highest_from-bounds (max n (number_of c.claim_id)) cs in
    (omega arith, (omega arith, all_of))

pub highest-AtMost : (claims : List Claim) → AtMost (highest claims) claims
unfolding highest
highest-AtMost [] = tt
highest-AtMost (c ∷ cs) = highest_from-bounds (number_of c.claim_id) cs
