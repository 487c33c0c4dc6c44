-- ===== src/Claims/Contracts.antt =====
-- backend/libs/contracts/claims.py. An amount is in cents: pydantic refuses one with more than two
-- decimals, so no such amount is represented.
use omnicare_genai_assessmen.Prelude.{
  ℕ, String, Bool, false, ◌&&◌, Option, none, some, [], ◌∷◌, leb, ltb, if◌then◌else◌, length, drop,
}
use omnicare_genai_assessmen.Prelude.Int.{ℤ, pos, negsuc}
use omnicare_genai_assessmen.Text.{Text, codes, same, starts_with, strip, is_digit}

pub data ClaimType : Type 0 where
  water_damage personal_property : ClaimType

pub data ClaimStatus : Type 0 where
  submitted under_review approved denied : ClaimStatus

-- `SubmitClaimArgs`, validated.
pub record SubmitClaimArgs : Type 0 where
  pub policy_number : Text
  pub claim_type : ClaimType
  pub amount : ℕ
  pub description : Text

pub record Claim : Type 0 where
  pub claim_id : Text
  pub policy_number : Text
  pub claim_type : ClaimType
  pub status : ClaimStatus
  pub amount : ℕ
  pub description : Text

-- `^PREFIX-\d{4}$` of a prefix of three letters
unfoldable pub four_digits? : Text → Bool
four_digits? (a ∷ b ∷ c ∷ d ∷ []) = is_digit a && (is_digit b && (is_digit c && is_digit d))
four_digits? _ = false

unfoldable pub has_form : String → Text → Bool
unfolding starts_with four_digits?
has_form prefix t = starts_with (codes prefix) t && four_digits? (drop (length (codes prefix)) t)

unfoldable pub is_claim_id : Text → Bool
unfolding has_form
is_claim_id t = has_form "CLM-" t

unfoldable pub is_policy_number : Text → Bool
unfolding has_form
is_policy_number t = has_form "POL-" t

-- The arguments as the model wrote them.
pub record RawArgs : Type 0 where
  pub policy_number : Text
  pub claim_type : Text
  pub amount : ℤ
  pub description : Text

pub claim_type_of : Text → Option ClaimType
claim_type_of t =
    if same t (codes "Water Damage")
    then some water_damage
    else if same t (codes "Personal Property")
    then some personal_property
    else none

-- gt 0, le 1000000, in cents; twelve digits hold every such amount.
pub amount_of : ℤ → Option ℕ
amount_of (negsuc n) = none
amount_of (pos n) = if ltb 0 n && leb n 100000000 then some n else none

checked : RawArgs → Text → Text → Option ClaimType → Option ℕ → Option SubmitClaimArgs
checked r policy description none amount = none
checked r policy description (some t) none = none
checked r policy description (some t) (some a) =
    if is_policy_number policy && (leb 10 (length description) && leb (length description) 1000)
    then some
        (record { policy_number = policy; claim_type = t; amount = a; description = description })
    else none

-- `SubmitClaimArgs(...)`; `none` is a ValidationError. White space is stripped from the number and
-- the description first, not from the literal.
unfoldable pub validate : RawArgs → Option SubmitClaimArgs
unfolding checked claim_type_of amount_of
validate r =
    checked r (strip r.policy_number) (strip r.description) (claim_type_of r.claim_type)
      (amount_of r.amount)

-- The fields of `Claim` that the arguments do not already guarantee: its id.
unfoldable pub claim_of : Text → SubmitClaimArgs → Option Claim
unfolding is_claim_id
claim_of id a =
    if is_claim_id id
    then some (record {
      claim_id = id;
      policy_number = a.policy_number;
      claim_type = a.claim_type;
      status = submitted;
      amount = a.amount;
      description = a.description;
    })
    else none
