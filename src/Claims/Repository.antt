-- ===== src/Claims/Repository.antt =====
-- `InMemoryClaimsRepo` and `JsonFileClaimsRepo` (backend/libs/adapters). Writers are serialised by
-- the locks, so an operation is a function of the claims that are stored.
pub mod Numbers
pub mod Appending
use omnicare_genai_assessmen.Prelude.{
  ℕ, zero, suc, ◌+◌, ◌-◌, ◌*◌, ◌/◌, ◌%◌, max, Bool, true, false, Option, none, some, List, [], ◌∷◌,
  ◌++◌, ltb, ◌==◌, if◌then◌else◌, map,
}
use mathlib.Core.Option
use omnicare_genai_assessmen.Text.{Text, codes, same, decimal}
use omnicare_genai_assessmen.Claims.Contracts.{SubmitClaimArgs, Claim, claim_of}

pub until_dash : Text → Text
until_dash [] = []
until_dash (c ∷ s) = let rest = until_dash s in if c == b'-' then [] else c ∷ rest

pub after_dash : Text → Text
after_dash [] = []
after_dash (c ∷ s) = let rest = after_dash s in if c == b'-' then s else rest

-- `int(claim_id.split("-")[1])`
unfoldable pub number_of : Text → ℕ
unfolding until_dash after_dash
number_of id = decimal 0 (until_dash (after_dash id))

highest_from : ℕ → List Claim → ℕ
highest_from n [] = n
highest_from n (c ∷ cs) = highest_from (max n (number_of c.claim_id)) cs

-- `max(..., default=8820)`
unfoldable pub highest : List Claim → ℕ
unfolding highest_from
highest [] = 8820
highest (c ∷ cs) = highest_from (number_of c.claim_id) cs

pub four_digits : ℕ → Text
four_digits n = (48 + n / 1000) ∷ (48 + n / 100 % 10) ∷ (48 + n / 10 % 10) ∷ (48 + n % 10) ∷ []

-- The digits of a number, on fuel that the number itself bounds.
digits_onto : ℕ → ℕ → Text → Text
digits_onto zero n acc = acc
digits_onto (suc fuel) n acc =
    let more = digits_onto fuel (n / 10) ((48 + n % 10) ∷ acc) in if n == 0 then acc else more

-- `f"{n:04d}"`
pub padded : ℕ → Text
unfolding four_digits digits_onto
padded n = if ltb n 10000 then four_digits n else digits_onto n n []

unfoldable pub next_id : List Claim → Text
unfolding highest padded
next_id claims = codes "CLM-" ++ padded (highest claims + 1)

pub data RepoError : Type 0 where
  claim_not_found : Text → List Text → RepoError
  invalid_claim : RepoError

pub data Result {ℓ} (A : Type ℓ) : Type ℓ where
  ok : A → Result A
  err : RepoError → Result A

unfoldable pub list_ids : List Claim → List Text
list_ids claims = map (λ (c : Claim). c.claim_id) claims

unfoldable pub lookup : Text → List Claim → Option Claim
lookup id [] = none
lookup id (c ∷ cs) = if same c.claim_id id then some c else lookup id cs

found_or : Text → List Claim → Option Claim → Result Claim
found_or id claims none = err (claim_not_found id (list_ids claims))
found_or id claims (some c) = ok c

unfoldable pub get : Text → List Claim → Result Claim
unfolding found_or
get id claims = found_or id claims (lookup id claims)

appended : List Claim → Option Claim → Result Claim × List Claim
appended claims none = (err invalid_claim, claims)
appended claims (some c) = (ok c, claims ++ (c ∷ []))

unfoldable pub append : SubmitClaimArgs → List Claim → Result Claim × List Claim
unfolding appended
append args claims = appended claims (claim_of (next_id claims) args)
