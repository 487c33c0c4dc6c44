-- ===== src/Claims/Tools.antt =====
-- The claims tools (backend/agent/app/tools/claims.py). A tool that raises returns one of the first
-- three results. What the answer repeats of a claim or a split is the claim or the split.
pub mod Idempotency
pub mod Replay
pub mod Recovery
use omnicare_genai_assessmen.Prelude.{
  ℕ, zero, suc, ◌+◌, Bool, true, false, ◌&&◌, ◌||◌, Option, none, some, List, [], ◌∷◌, ◌++◌, ltb,
  ◌==◌, if◌then◌else◌, take,
}
use omnicare_genai_assessmen.Prelude.Int.{ℤ, pos, scale}
use omnicare_genai_assessmen.Prelude.Sorting.{sorted}
use omnicare_genai_assessmen.Text.{Text, codes, same, strip}
use omnicare_genai_assessmen.Policy.Settlement.{Settlement}
use omnicare_genai_assessmen.Policy.Governing.{Section, settlement_for}
use omnicare_genai_assessmen.Claims.Contracts.{
  ClaimType, water_damage, personal_property, SubmitClaimArgs, Claim, RawArgs, validate,
  is_claim_id, claim_type_of, amount_of,
}
use omnicare_genai_assessmen.Claims.Repository.{
  RepoError, claim_not_found, invalid_claim, Result, ok, err, get, append,
}

abbrev pub type_name : ClaimType → Text
type_name water_damage = codes "Water Damage"
type_name personal_property = codes "Personal Property"

-- `build_settlement_provider`, over the sections that the retrieval service returns; `none` is an
-- exception.
unfoldable pub settlement_provider :
    ℕ → Option (List Section) → ClaimType → ℕ → Option (Option Settlement)
settlement_provider u none t amount = some none
settlement_provider u (some sections) t amount =
    settlement_for u (type_name t) (scale (pos amount) u) sections

-- What `idempotency_key` digests.
pub record Payload : Type 0 where
  pub user_id : Text
  pub tool : Text
  pub args : SubmitClaimArgs
  pub turn : ℕ

-- The claims, and the keys of the idempotency store while they have not expired.
pub record Stored : Type 0 where
  pub claims : List Claim
  pub keys : List (Text × Text)

pub data ToolResult : Type 0 where
  invalid_arguments : ToolResult
  policy_unreadable : ToolResult
  repo_failed : RepoError → ToolResult
  filed_claim : Claim → Option Settlement → ToolResult
  replayed : Claim → ToolResult

unfoldable pub key_lookup : Text → List (Text × Text) → Option Text
key_lookup k [] = none
key_lookup k ((j, v) ∷ rest) = if same j k then some v else key_lookup k rest

-- `digest` is the hash of the payload, `provider` the settlement of validated arguments.
module _ (digest : Payload → Text) (provider : ClaimType → ℕ → Option (Option Settlement))
    (user : Text) (turn : ℕ) where
  pub key_of : SubmitClaimArgs → Text
  key_of a = digest (record { user_id = user; tool = codes "submit_claim"; args = a; turn = turn })

  abbrev remember : Bool → Text → Claim → Stored → List (Text × Text)
  remember false k c st = st.keys
  remember true k c st = (k, c.claim_id) ∷ st.keys

  after_append :
      Bool
      → SubmitClaimArgs
      → Option Settlement
      → Stored
      → Result Claim × List Claim
      → ToolResult × Stored
  after_append keyed a split st (ok c, claims) =
      (filed_claim c split, record { claims = claims; keys = remember keyed (key_of a) c st })
  after_append keyed a split st (err e, claims) = (repo_failed e, record st { claims = claims })

  pub file_claim : Bool → SubmitClaimArgs → Option Settlement → Stored → ToolResult × Stored
  unfolding after_append
  file_claim keyed a split st = after_append keyed a split st (append a st.claims)

  replay_of : Result Claim → ToolResult
  replay_of (ok c) = replayed c
  replay_of (err e) = repo_failed e

  if_unseen : Option Text → SubmitClaimArgs → Option Settlement → Stored → ToolResult × Stored
  unfolding file_claim replay_of
  if_unseen none a split st = file_claim true a split st
  if_unseen (some id) a split st = (replay_of (get id st.claims), st)

  with_split : Bool → SubmitClaimArgs → Option (Option Settlement) → Stored → ToolResult × Stored
  unfolding if_unseen file_claim
  with_split keyed a none st = (policy_unreadable, st)
  with_split false a (some split) st = file_claim false a split st
  with_split true a (some split) st = if_unseen (key_lookup (key_of a) st.keys) a split st

  with_args : Bool → Option SubmitClaimArgs → Stored → ToolResult × Stored
  unfolding with_split
  with_args keyed none st = (invalid_arguments, st)
  with_args keyed (some a) st = with_split keyed a (provider a.claim_type a.amount) st

  -- `submit_claim`; the Boolean says whether an idempotency store is configured.
  unfoldable pub submit_claim : Bool → RawArgs → Stored → ToolResult × Stored
  unfolding with_args
  submit_claim keyed raw st = with_args keyed (validate raw) st

-- `s.split("-")[-1]`
last_part_from : Text → Text → Text
last_part_from current [] = current
last_part_from current (c ∷ s) = last_part_from (if c == b'-' then [] else current ++ (c ∷ [])) s

pub last_part : Text → Text
unfolding last_part_from
last_part s = last_part_from [] s

unfoldable pub overlap : Text → Text → ℕ
overlap [] t = 0
overlap (c ∷ s) [] = 0
overlap (c ∷ s) (d ∷ t) = (if c == d then 1 else 0) + overlap s t

-- `s <= t` on strings
unfoldable pub text_le : Text → Text → Bool
text_le [] t = true
text_le (c ∷ s) [] = false
text_le (c ∷ s) (d ∷ t) = ltb c d || ((c == d) && text_le s t)

-- The order of the keys `(-overlap(c), c)`.
unfoldable pub closer : Text → Text → Text → Bool
unfolding last_part
closer target s t =
    let a = overlap target (last_part s) in
    let b = overlap target (last_part t) in ltb b a || ((a == b) && text_le s t)

unfoldable pub closest_ids : Text → List Text → ℕ → List Text
closest_ids wanted known limit = take limit (sorted (closer (last_part wanted)) known)

pub data StatusResult : Type 0 where
  invalid_id : StatusResult
  not_found : Text → List Text → StatusResult
  found : Claim → StatusResult

status_of : Text → Result Claim → StatusResult
unfolding closest_ids
status_of id (ok c) = found c
status_of id (err (claim_not_found wanted known)) = not_found id (closest_ids id known 3)
status_of id (err invalid_claim) = invalid_id

-- `get_claim_status`, with the check of its argument by `GetClaimStatusArgs`.
unfoldable pub get_claim_status : Text → List Claim → StatusResult
unfolding status_of
get_claim_status raw claims =
    let id = strip raw in if is_claim_id id then status_of id (get id claims) else invalid_id

pub data EstimateResult : Type 0 where
  bad_estimate : EstimateResult
  unreadable : EstimateResult
  no_policy_terms : ClaimType → EstimateResult
  estimated : Settlement → EstimateResult

pub estimate_of : ClaimType → Option (Option Settlement) → EstimateResult
estimate_of t none = unreadable
estimate_of t (some none) = no_policy_terms t
estimate_of t (some (some s)) = estimated s

estimate_with :
    (ClaimType → ℕ → Option (Option Settlement)) → Option ClaimType → Option ℕ → EstimateResult
unfolding estimate_of
estimate_with provider none amount = bad_estimate
estimate_with provider (some t) none = bad_estimate
estimate_with provider (some t) (some a) = estimate_of t (provider t a)

-- `estimate_claim_payment`, with the check of its arguments by `EstimateClaimPaymentArgs`.
unfoldable pub estimate_claim_payment :
    (ClaimType → ℕ → Option (Option Settlement)) → Text → ℤ → EstimateResult
unfolding estimate_with
estimate_claim_payment provider claim_type amount =
    estimate_with provider (claim_type_of (strip claim_type)) (amount_of amount)
