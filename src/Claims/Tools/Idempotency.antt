-- ===== src/Claims/Tools/Idempotency.antt =====
-- What `submit_claim` changes, and that a repeated call replays the first one.
use omnicare_genai_assessmen.Prelude.{
  ℕ, ◌<◌, ◌≡◌, inl, inr, refl, Bool, true, false, Option, none, some, List, [], ◌∷◌, ◌++◌, arith,
  Bool-cases, ltb, ltb→lt,
}
use omnicare_genai_assessmen.Text.{Text}
use omnicare_genai_assessmen.Policy.Settlement.{Settlement}
use omnicare_genai_assessmen.Claims.Contracts.{ClaimType, SubmitClaimArgs, Claim, RawArgs, validate}
use omnicare_genai_assessmen.Claims.Repository.{highest, next_id, Result, ok, err, get, append}
use omnicare_genai_assessmen.Claims.Repository.Appending.{filed, IsFresh, append_cases}
use omnicare_genai_assessmen.Claims.Tools.{
  Payload, Stored, ToolResult, invalid_arguments, policy_unreadable, repo_failed, filed_claim,
  replayed, after_append, file_claim, replay_of, if_unseen, with_split, with_args, submit_claim,
}

-- Either the store had room and took the claim, or it refused it and changed nothing.
abbrev pub Taken : SubmitClaimArgs → List Claim → Result Claim × List Claim → Type 0
Taken a claims (ok c, after) =
    (c ≡ filed a claims)
    × (after ≡ claims ++ (filed a claims ∷ []))
    × (highest claims < 9999)
    × IsFresh (next_id claims) claims
Taken a claims (err e, after) = after ≡ claims

pub append-Taken : (a : SubmitClaimArgs) (claims : List Claim) → Taken a claims (append a claims)
append-Taken a claims = elim (Bool-cases (ltb (highest claims) 9999)) [
  | inl room ↦
      let (done, fresh, form, number) = (append_cases a claims).0 (ltb→lt _ _ room) in
      rw done (refl, refl, ltb→lt _ _ room, fresh)
  | inr full ↦ rw ((append_cases a claims).1 (ground arith)) refl
]

-- What a call leaves in the store, by its result.
abbrev pub Effect :
    RawArgs
    → (ClaimType → ℕ → Option (Option Settlement))
    → List Claim
    → ToolResult × Stored
    → Type 0
Effect raw provider claims (filed_claim c split, after) =
    (a : SubmitClaimArgs) × (validate raw ≡ some a)
    × (provider a.claim_type a.amount ≡ some split)
    × (c ≡ filed a claims)
    × (after.claims ≡ claims ++ (filed a claims ∷ []))
    × IsFresh (next_id claims) claims
Effect raw provider claims (invalid_arguments, after) =
    (validate raw ≡ none) × (after.claims ≡ claims)
Effect raw provider claims (policy_unreadable, after) = after.claims ≡ claims
Effect raw provider claims (repo_failed e, after) = after.claims ≡ claims
Effect raw provider claims (replayed c, after) = after.claims ≡ claims

module _ (digest : Payload → Text) (provider : ClaimType → ℕ → Option (Option Settlement))
    (user : Text) (turn : ℕ) where
  after_append-Effect :
      (keyed : Bool) (raw : RawArgs) (a : SubmitClaimArgs) (split : Option Settlement) (st : Stored)
      (r : Result Claim × List Claim)
      → validate raw ≡ some a
      → provider a.claim_type a.amount ≡ some split
      → Taken a st.claims r
      → Effect raw provider st.claims (after_append digest provider user turn keyed a split st r)
  unfolding after_append
  after_append-Effect keyed raw a split st (ok c, after) v p t = (a, v, p, t.0, t.1, t.3)
  after_append-Effect keyed raw a split st (err e, after) v p t = t

  file_claim-Effect :
      (keyed : Bool) (raw : RawArgs) (a : SubmitClaimArgs) (split : Option Settlement) (st : Stored)
      → validate raw ≡ some a
      → provider a.claim_type a.amount ≡ some split
      → Effect raw provider st.claims (file_claim digest provider user turn keyed a split st)
  unfolding file_claim
  file_claim-Effect keyed raw a split st v p =
      after_append-Effect keyed raw a split st (append a st.claims) v p (append-Taken a st.claims)

  replay-Effect :
      (raw : RawArgs) (st : Stored) (r : Result Claim)
      → Effect raw provider st.claims (replay_of digest provider user turn r, st)
  unfolding replay_of
  replay-Effect raw st (ok c) = refl
  replay-Effect raw st (err e) = refl

  if_unseen-Effect :
      (raw : RawArgs) (a : SubmitClaimArgs) (split : Option Settlement) (st : Stored)
      (seen : Option Text)
      → validate raw ≡ some a
      → provider a.claim_type a.amount ≡ some split
      → Effect raw provider st.claims (if_unseen digest provider user turn seen a split st)
  unfolding if_unseen
  if_unseen-Effect raw a split st none v p = file_claim-Effect true raw a split st v p
  if_unseen-Effect raw a split st (some id) v p = replay-Effect raw st (get id st.claims)

  with_split-Effect :
      (keyed : Bool) (raw : RawArgs) (a : SubmitClaimArgs) (o : Option (Option Settlement))
      (st : Stored)
      → validate raw ≡ some a
      → provider a.claim_type a.amount ≡ o
      → Effect raw provider st.claims (with_split digest provider user turn keyed a o st)
  unfolding with_split
  with_split-Effect keyed raw a none st v p = refl
  with_split-Effect false raw a (some split) st v p = file_claim-Effect false raw a split st v p
  with_split-Effect true raw a (some split) st v p = if_unseen-Effect raw a split st _ v p

  with_args-Effect :
      (keyed : Bool) (raw : RawArgs) (o : Option SubmitClaimArgs) (st : Stored)
      → validate raw ≡ o
      → Effect raw provider st.claims (with_args digest provider user turn keyed o st)
  unfolding with_args
  with_args-Effect keyed raw none st v = (v, refl)
  with_args-Effect keyed raw (some a) st v = with_split-Effect keyed raw a _ st v refl

  -- A call of `submit_claim` changes the stored claims when it answers with a filed claim and in no
  -- other case. The arguments were then valid, the split is that of the policy, and the claim
  -- stands at the end under an id that no claim had. It answers that the arguments are invalid only
  -- when they are.
  pub submit_claim-Effect :
      (keyed : Bool) (raw : RawArgs) (st : Stored)
      → Effect raw provider st.claims (submit_claim digest provider user turn keyed raw st)
  unfolding submit_claim
  submit_claim-Effect keyed raw st = with_args-Effect keyed raw (validate raw) st refl
