-- ===== src/Claims/Tests.antt =====
-- Runs of the claims store and the tools, and the theorems at them.
use omnicare_genai_assessmen.Prelude.{
  ℕ, ◌+◌, ◌≤◌, ◌<◌, ◌≡◌, ◌≢◌, refl, true, Option, none, some, List, [], ◌∷◌, ◌++◌, arith,
}
use omnicare_genai_assessmen.Prelude.Int.{pos}
use omnicare_genai_assessmen.Text.{Text, codes, same, strip, starts_with, decimal}
use omnicare_genai_assessmen.Policy.Settlement.{Settlement}
use omnicare_genai_assessmen.Claims.Contracts.{
  ClaimType, water_damage, personal_property, submitted, approved, SubmitClaimArgs, Claim, RawArgs,
  is_claim_id, is_policy_number, validate, claim_of,
}
use omnicare_genai_assessmen.Claims.Repository.{
  number_of, highest, next_id, ok, err, invalid_claim, list_ids, lookup, get, append,
}
use omnicare_genai_assessmen.Claims.Repository.Appending.{
  filed, IsFresh, IsValid, append_all, append_cases, get-append, append_all-IsValid,
}
use omnicare_genai_assessmen.Claims.Tools.{
  Payload, Stored, found, filed_claim, replayed, key_lookup, submit_claim, get_claim_status,
}
use omnicare_genai_assessmen.Claims.Tools.Idempotency.{Effect, submit_claim-Effect}
use omnicare_genai_assessmen.Claims.Tools.Replay.{submit_all, submit_claim-replay}

abbrev leak : SubmitClaimArgs
leak = record {
  policy_number = codes "POL-1092";
  claim_type = water_damage;
  amount = 120000;
  description = codes "A pipe burst in the kitchen.";
}

abbrev old_claim : Claim
old_claim = record {
  claim_id = codes "CLM-8820";
  policy_number = codes "POL-1092";
  claim_type = personal_property;
  status = approved;
  amount = 5000;
  description = codes "A watch was stolen.";
}

abbrev book : List Claim
book = old_claim ∷ []

highest-book : highest book < 9999
unfolding highest number_of decimal
highest-book = omega arith

append_cases_example :
    (highest book < 9999
      → (append leak book ≡ (ok (filed leak book), book ++ (filed leak book ∷ [])))
        × IsFresh (next_id book) book
        × (is_claim_id (next_id book) ≡ true)
        × (number_of (next_id book) ≡ highest book + 1))
    × (9999 ≤ highest book → append leak book ≡ (err invalid_claim, book))
append_cases_example = append_cases leak book

get-append_example :
    let after = (append leak book).1 in
    (get (next_id book) after ≡ ok (filed leak book))
    × (next_id book ≢ codes "CLM-8820"
        → lookup (codes "CLM-8820") after ≡ lookup (codes "CLM-8820") book)
    × (list_ids after ≡ list_ids book ++ (next_id book ∷ []))
get-append_example = get-append leak book (codes "CLM-8820") highest-book

book-IsValid : IsValid book
unfolding is_claim_id starts_with
book-IsValid = record { unique = (tt, tt); formed = (refl, tt) }

append_all-IsValid_example : IsValid (append_all (leak ∷ leak ∷ []) book)
append_all-IsValid_example = append_all-IsValid (leak ∷ leak ∷ []) book book-IsValid

abbrev typed : RawArgs
typed = record {
  policy_number = codes " POL-1092 ";
  claim_type = codes "Water Damage";
  amount = pos 120000;
  description = codes "A pipe burst in the kitchen.";
}

abbrev shelf : Stored
shelf = record { claims = book; keys = [] }

-- A digest that forgets all but the description, and a policy that states nothing.
digest : Payload → Text
digest p = p.args.description

silent : ClaimType → ℕ → Option (Option Settlement)
silent t n = some none

submit_claim-Effect_example :
    Effect typed silent book (submit_claim digest silent (codes "anonymous") 0 true typed shelf)
submit_claim-Effect_example =
    submit_claim-Effect digest silent (codes "anonymous") 0 true typed shelf

abbrev new_claim : Claim
new_claim = record {
  claim_id = codes "CLM-8821";
  policy_number = codes "POL-1092";
  claim_type = water_damage;
  status = submitted;
  amount = 120000;
  description = codes "A pipe burst in the kitchen.";
}

first_call :
    (submit_claim digest silent (codes "anonymous") 0 true typed shelf).0
    ≡ filed_claim new_claim none
unfolding submit_claim validate strip same silent key_lookup append claim_of next_id number_of
    decimal is_claim_id starts_with is_policy_number
first_call = refl

submit_claim-replay_example :
    let after =
      submit_all digest silent
        (codes "anonymous")
        0
        (typed ∷ [])
        (submit_claim digest silent (codes "anonymous") 0 true typed shelf).1 in
    submit_claim digest silent (codes "anonymous") 0 true typed after ≡ (replayed new_claim, after)
submit_claim-replay_example =
    submit_claim-replay digest silent (codes "anonymous") 0 typed new_claim none (typed ∷ []) shelf
      first_call

status_run : get_claim_status (codes "CLM-8820") book ≡ found old_claim
unfolding get_claim_status get lookup same strip is_claim_id starts_with
status_run = refl
