-- ===== src/Claims/Tools/Replay.antt =====
-- A call that is repeated while its key is kept answers with the claim of the first one.
use omnicare_genai_assessmen.Prelude.{
  ℕ, ◌≡◌, inl, inr, refl, sym, true, Option, none, some, List, [], ◌∷◌, arith, Bool-cases,
}
use mathlib.Core.Path.{subst}
use omnicare_genai_assessmen.Text.{Text, same}
use omnicare_genai_assessmen.Text.Laws.{same_refl, same-eq}
use omnicare_genai_assessmen.Policy.Settlement.{Settlement}
use omnicare_genai_assessmen.Claims.Contracts.{ClaimType, SubmitClaimArgs, Claim, RawArgs, validate}
use omnicare_genai_assessmen.Claims.Repository.{next_id, Result, ok, err, lookup, get, append}
use omnicare_genai_assessmen.Claims.Repository.Appending.{
  filed, get-lookup, lookup-append_keeps, lookup-filed,
}
use omnicare_genai_assessmen.Claims.Tools.{
  Payload, Stored, ToolResult, filed_claim, replayed, key_lookup, key_of, after_append, file_claim,
  replay_of, if_unseen, with_split, with_args, submit_claim,
}
use omnicare_genai_assessmen.Claims.Tools.Idempotency.{Taken, append-Taken}

-- The key answers with the id of the claim, and the claim stands under its id.
pub record IsRemembered (k : Text) (c : Claim) (st : Stored) : Type 0 where
  pub key : key_lookup k st.keys ≡ some c.claim_id
  pub claim : lookup c.claim_id st.claims ≡ some c

-- A key that is new leaves the answers of the others.
key_lookup-push :
    (k j id other : Text) (keys : List (Text × Text))
    → key_lookup j keys ≡ none
    → key_lookup k keys ≡ some id
    → key_lookup k ((j, other) ∷ keys) ≡ some id
unfolding key_lookup
key_lookup-push k j id other keys new h = elim (Bool-cases (same j k)) [
  | inl t ↦
      let gone = subst (λ i. key_lookup i keys ≡ none) (same-eq _ _ t) new in
      absurd (ground (arith, gone, h))
  | inr ne ↦ ground (arith, h)
]

key_lookup-top : (k id : Text) (keys : List (Text × Text)) → key_lookup k ((k, id) ∷ keys) ≡ some id
unfolding key_lookup
key_lookup-top k id keys = rw (same_refl k) refl

module _ (digest : Payload → Text) (provider : ClaimType → ℕ → Option (Option Settlement))
    (user : Text) (turn : ℕ) where
  unfoldable pub submit_all : List RawArgs → Stored → Stored
  submit_all [] st = st
  submit_all (raw ∷ more) st =
      submit_all more (submit_claim digest provider user turn true raw st).1

  module _ (k : Text) (c : Claim) where
    after_append-keeps :
        (a : SubmitClaimArgs) (split : Option Settlement) (st : Stored)
        (r : Result Claim × List Claim)
        → Taken a st.claims r
        → key_lookup (key_of digest provider user turn a) st.keys ≡ none
        → IsRemembered k c st
        → IsRemembered k c (after_append digest provider user turn true a split st r).1
    unfolding after_append
    after_append-keeps a split st (ok d, after) t new m = record {
      key = key_lookup-push k _ c.claim_id d.claim_id st.keys new m.key;
      claim =
          subst (λ cs. lookup c.claim_id cs ≡ some c) (sym t.1)
            (lookup-append_keeps a st.claims c.claim_id c t.3 m.claim);
    }
    after_append-keeps a split st (err e, after) t new m = record {
      key = m.key;
      claim = subst (λ cs. lookup c.claim_id cs ≡ some c) (sym t) m.claim;
    }

    if_unseen-keeps :
        (a : SubmitClaimArgs) (split : Option Settlement) (st : Stored) (seen : Option Text)
        → key_lookup (key_of digest provider user turn a) st.keys ≡ seen
        → IsRemembered k c st
        → IsRemembered k c (if_unseen digest provider user turn seen a split st).1
    unfolding if_unseen file_claim
    if_unseen-keeps a split st none new m =
        after_append-keeps a split st (append a st.claims) (append-Taken a st.claims) new m
    if_unseen-keeps a split st (some id) new m = m

    with_split-keeps :
        (a : SubmitClaimArgs) (o : Option (Option Settlement)) (st : Stored)
        → IsRemembered k c st
        → IsRemembered k c (with_split digest provider user turn true a o st).1
    unfolding with_split
    with_split-keeps a none st m = m
    with_split-keeps a (some split) st m = if_unseen-keeps a split st _ refl m

    with_args-keeps :
        (o : Option SubmitClaimArgs) (st : Stored)
        → IsRemembered k c st
        → IsRemembered k c (with_args digest provider user turn true o st).1
    unfolding with_args
    with_args-keeps none st m = m
    with_args-keeps (some a) st m = with_split-keeps a _ st m

    submit_all-keeps :
        (more : List RawArgs) (st : Stored)
        → IsRemembered k c st
        → IsRemembered k c (submit_all more st)
    unfolding submit_all submit_claim
    submit_all-keeps [] st m = m
    submit_all-keeps (raw ∷ more) st m =
        submit_all-keeps more _ (with_args-keeps (validate raw) st m)

  -- What a call that filed a claim has recorded of its arguments.
  abbrev Recorded : SubmitClaimArgs → ToolResult × Stored → Type 0
  Recorded a (filed_claim c split, after) =
      (provider a.claim_type a.amount ≡ some split)
      × IsRemembered (key_of digest provider user turn a) c after
  Recorded a (_, after) = Unit

  after_append-Recorded :
      (a : SubmitClaimArgs) (split : Option Settlement) (st : Stored)
      (r : Result Claim × List Claim)
      → Taken a st.claims r
      → provider a.claim_type a.amount ≡ some split
      → Recorded a (after_append digest provider user turn true a split st r)
  unfolding after_append
  after_append-Recorded a split st (ok d, after) t p = (
    p,
    record {
      key = key_lookup-top _ d.claim_id st.keys;
      claim =
          subst (λ (x : Claim). lookup x.claim_id after ≡ some x) (sym t.0)
            (subst (λ cs. lookup (next_id st.claims) cs ≡ some (filed a st.claims)) (sym t.1)
              (lookup-filed a st.claims t.3));
    },
  )
  after_append-Recorded a split st (err x, after) t p = tt

  replay-Recorded :
      (a : SubmitClaimArgs) (st : Stored) (r : Result Claim)
      → Recorded a (replay_of digest provider user turn r, st)
  unfolding replay_of
  replay-Recorded a st (ok c) = tt
  replay-Recorded a st (err e) = tt

  if_unseen-Recorded :
      (a : SubmitClaimArgs) (split : Option Settlement) (st : Stored) (seen : Option Text)
      → provider a.claim_type a.amount ≡ some split
      → Recorded a (if_unseen digest provider user turn seen a split st)
  unfolding if_unseen file_claim
  if_unseen-Recorded a split st none p =
      after_append-Recorded a split st (append a st.claims) (append-Taken a st.claims) p
  if_unseen-Recorded a split st (some id) p = replay-Recorded a st (get id st.claims)

  with_split-Recorded :
      (a : SubmitClaimArgs) (o : Option (Option Settlement)) (st : Stored)
      → provider a.claim_type a.amount ≡ o
      → Recorded a (with_split digest provider user turn true a o st)
  unfolding with_split
  with_split-Recorded a none st p = tt
  with_split-Recorded a (some split) st p = if_unseen-Recorded a split st _ p

  -- A remembered key is answered with its claim, whatever else the store holds.
  remembered-replay :
      (a : SubmitClaimArgs) (c : Claim) (split : Option Settlement) (st : Stored)
      → provider a.claim_type a.amount ≡ some split
      → IsRemembered (key_of digest provider user turn a) c st
      → with_args digest provider user turn true (some a) st ≡ (replayed c, st)
  unfolding with_args with_split if_unseen replay_of
  remembered-replay a c split st p m =
      rw p (rw m.key (rw (get-lookup c.claim_id st.claims c m.claim) refl))

  -- The result of a call, when it is a filed claim.
  replay_after :
      (o : Option SubmitClaimArgs) (c : Claim) (split : Option Settlement) (later : List RawArgs)
      (st : Stored)
      → (with_args digest provider user turn true o st).0 ≡ filed_claim c split
      → let after = submit_all later (with_args digest provider user turn true o st).1 in
        with_args digest provider user turn true o after ≡ (replayed c, after)
  unfolding with_args
  replay_after none c split later st h = cc
  replay_after (some a) c split later st h =
      let r =
        subst (λ x. Recorded a (x, (with_args digest provider user turn true (some a) st).1)) h
          (with_split-Recorded a _ st refl) in
      remembered-replay a c split _ r.0
        (submit_all-keeps (key_of digest provider user turn a) c later _ r.1)

  -- A call that filed a claim, repeated in the same turn after any other calls of that turn while
  -- the key is kept, files nothing: it answers with the claim of the first call and leaves the
  -- store as it is.
  pub submit_claim-replay :
      (raw : RawArgs) (c : Claim) (split : Option Settlement) (later : List RawArgs) (st : Stored)
      → (submit_claim digest provider user turn true raw st).0 ≡ filed_claim c split
      → let after = submit_all later (submit_claim digest provider user turn true raw st).1 in
        submit_claim digest provider user turn true raw after ≡ (replayed c, after)
  unfolding submit_claim
  submit_claim-replay raw c split later st h = replay_after (validate raw) c split later st h
