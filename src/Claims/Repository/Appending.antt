-- ===== src/Claims/Repository/Appending.antt =====
-- What filing a claim does to the store.
use omnicare_genai_assessmen.Prelude.{
  ℕ, ◌+◌, ◌≤◌, ◌<◌, ◌≡◌, ◌≢◌, inl, inr, ◌∙◌, refl, sym, ap, true, none, some, List, [], ◌∷◌, ◌++◌,
  arith, if◌then◌else◌, Bool-cases, All, ltb, ltb→lt,
}
use mathlib.Core.List.{map-append}
use mathlib.Core.Path.{subst}
use omnicare_genai_assessmen.Text.{Text, same}
use omnicare_genai_assessmen.Text.Laws.{same_iff, same_refl, same-eq}
use omnicare_genai_assessmen.Claims.Contracts.{
  SubmitClaimArgs, Claim, claim_of, is_claim_id, submitted,
}
use omnicare_genai_assessmen.Claims.Repository.{
  number_of, highest, next_id, ok, err, invalid_claim, list_ids, lookup, get, append,
}
use omnicare_genai_assessmen.Claims.Repository.Numbers.{
  next_id-padded, next_id-overflow, AtMost, highest-AtMost,
}

-- The record that `append` builds.
abbrev pub filed : SubmitClaimArgs → List Claim → Claim
filed a claims = record {
  claim_id = next_id claims;
  policy_number = a.policy_number;
  claim_type = a.claim_type;
  status = submitted;
  amount = a.amount;
  description = a.description;
}

-- No stored claim has this id.
abbrev pub IsFresh : Text → List Claim → Type 0
IsFresh id claims = All (λ c. c.claim_id ≢ id) claims

larger-IsFresh :
    (id : Text) (n : ℕ) (claims : List Claim)
    → AtMost n claims
    → n < number_of id
    → IsFresh id claims
larger-IsFresh id n [] h lt = tt
larger-IsFresh id n (c ∷ cs) h lt =
    ((λ e. absurd (omega (arith, ap number_of e))), larger-IsFresh id n cs h.1 lt)

-- While the highest number in use is below 9999, filing succeeds: the claim is added at the end
-- under an id that no stored claim has, whose number is one more than the highest. From then on
-- filing fails, and changes nothing.
pub append_cases :
    (a : SubmitClaimArgs) (claims : List Claim)
    → (highest claims < 9999
        → (append a claims ≡ (ok (filed a claims), claims ++ (filed a claims ∷ [])))
          × IsFresh (next_id claims) claims
          × (is_claim_id (next_id claims) ≡ true)
          × (number_of (next_id claims) ≡ highest claims + 1))
      × (9999 ≤ highest claims → append a claims ≡ (err invalid_claim, claims))
unfolding append claim_of
append_cases a claims = (
  (λ h.
      let (form, number) = next_id-padded claims h in
      (
        rw form,
        larger-IsFresh (next_id claims) (highest claims) claims (highest-AtMost claims)
            (omega arith),
        form,
        number,
      )),
  λ h. rw (next_id-overflow claims h),
)

lookup-append :
    (id : Text) (claims : List Claim) (c : Claim)
    → IsFresh c.claim_id claims
    → lookup id (claims ++ (c ∷ [])) ≡ (if same c.claim_id id then some c else lookup id claims)
unfolding lookup
lookup-append id [] c f = refl
lookup-append id (d ∷ ds) c f =
    ground (arith, lookup-append id ds c f.1, same_iff d.claim_id id, same_iff c.claim_id id, f.0)

-- A claim that was filed is found under its id, and the answer for every other id is what it was,
-- but that an error then also names the new id.
pub get-append :
    (a : SubmitClaimArgs) (claims : List Claim) (id : Text)
    → highest claims < 9999
    → let after = (append a claims).1 in
      (get (next_id claims) after ≡ ok (filed a claims))
      × (next_id claims ≢ id → lookup id after ≡ lookup id claims)
      × (list_ids after ≡ list_ids claims ++ (next_id claims ∷ []))
unfolding get
get-append a claims id h =
    let (done, fresh, form, number) = (append_cases a claims).0 h in
    rw done (
      rw (lookup-append (next_id claims) claims (filed a claims) fresh, same_refl (next_id claims)),
      (λ ne.
          lookup-append id claims (filed a claims) fresh
          ∙ ground (arith, same_iff (next_id claims) id)),
      unfold list_ids in map-append _ claims (filed a claims ∷ []),
    )

-- An id stands once.
abbrev pub Unique : List Claim → Type 0
Unique [] = Unit
Unique (c ∷ cs) = IsFresh c.claim_id cs × Unique cs

IsFresh-append :
    (id : Text) (claims : List Claim) (c : Claim)
    → IsFresh id claims
    → c.claim_id ≢ id
    → IsFresh id (claims ++ (c ∷ []))
IsFresh-append id [] c f ne = (ne, tt)
IsFresh-append id (d ∷ ds) c f ne = (f.0, IsFresh-append id ds c f.1 ne)

Unique-append :
    (claims : List Claim) (c : Claim)
    → Unique claims
    → IsFresh c.claim_id claims
    → Unique (claims ++ (c ∷ []))
Unique-append [] c u f = (tt, tt)
Unique-append (d ∷ ds) c u f =
    (IsFresh-append d.claim_id ds c u.0 (λ e. f.0 (sym e)), Unique-append ds c u.1 f.1)

-- A store whose ids are well formed and stand once.
pub record IsValid (claims : List Claim) : Type 0 where
  pub unique : Unique claims
  pub formed : All (λ c. is_claim_id c.claim_id ≡ true) claims

formed-append :
    (claims : List Claim) (c : Claim)
    → All (λ d. is_claim_id d.claim_id ≡ true) claims
    → is_claim_id c.claim_id ≡ true
    → All (λ d. is_claim_id d.claim_id ≡ true) (claims ++ (c ∷ []))
formed-append [] c h f = (f, tt)
formed-append (d ∷ ds) c h f = (h.0, formed-append ds c h.1 f)

unfoldable pub append_all : List SubmitClaimArgs → List Claim → List Claim
append_all [] claims = claims
append_all (a ∷ more) claims = append_all more (append a claims).1

append-IsValid :
    (a : SubmitClaimArgs) (claims : List Claim) → IsValid claims → IsValid (append a claims).1
append-IsValid a claims v = elim (Bool-cases (ltb (highest claims) 9999)) [
  | inl room ↦
      let (done, fresh, form, number) = (append_cases a claims).0 (ltb→lt _ _ room) in
      rw done (record {
        unique = Unique-append claims _ v.unique fresh;
        formed = formed-append claims _ v.formed form;
      })
  | inr full ↦ rw ((append_cases a claims).1 (ground arith)) v
]

-- Any submissions to a store whose ids are well formed and distinct leave such a store.
pub append_all-IsValid :
    (more : List SubmitClaimArgs) (claims : List Claim)
    → IsValid claims
    → IsValid (append_all more claims)
unfolding append_all
append_all-IsValid [] claims v = v
append_all-IsValid (a ∷ more) claims v =
    append_all-IsValid more (append a claims).1 (append-IsValid a claims v)

pub get-lookup :
    (id : Text) (claims : List Claim) (c : Claim) → lookup id claims ≡ some c → get id claims ≡ ok c
unfolding get
get-lookup id claims c h = rw h refl

lookup-IsFresh : (id : Text) (claims : List Claim) → IsFresh id claims → lookup id claims ≡ none
unfolding lookup
lookup-IsFresh id [] f = refl
lookup-IsFresh id (c ∷ cs) f = ground (arith, same_iff c.claim_id id, f.0, lookup-IsFresh id cs f.1)

-- What was found under an id is found there after a filing.
pub lookup-append_keeps :
    (a : SubmitClaimArgs) (claims : List Claim) (id : Text) (c : Claim)
    → IsFresh (next_id claims) claims
    → lookup id claims ≡ some c
    → lookup id (claims ++ (filed a claims ∷ [])) ≡ some c
lookup-append_keeps a claims id c f h = elim (Bool-cases (same (next_id claims) id)) [
  | inl t ↦
      let gone =
        subst (λ i. lookup i claims ≡ none) (same-eq _ _ t)
          (lookup-IsFresh (next_id claims) claims f) in
      absurd (ground (arith, gone, h))
  | inr ne ↦ lookup-append id claims (filed a claims) f ∙ ground (arith)
]

-- The claim that was filed is found under its id.
pub lookup-filed :
    (a : SubmitClaimArgs) (claims : List Claim)
    → IsFresh (next_id claims) claims
    → lookup (next_id claims) (claims ++ (filed a claims ∷ [])) ≡ some (filed a claims)
lookup-filed a claims f =
    rw (lookup-append (next_id claims) claims (filed a claims) f, same_refl (next_id claims)) refl
