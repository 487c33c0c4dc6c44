-- ===== src/Graph/Confirm/Consent.antt =====
-- A claim is filed only with the consent of the policyholder, to values that they gave.
use omnicare_genai_assessmen.Prelude.{
  ℕ, ◌∙◌, sym, clash, IfOk, ◌≡◌, ◌++◌, ◌⊎◌, inl, inr, refl, Bool, true, false, ◌||◌, Option, none,
  some, List, [], ◌∷◌, any, Bool-cases,
}
use omnicare_genai_assessmen.Text.{Text, same}
use omnicare_genai_assessmen.Text.Laws.{any-OneOf, OneOf-any}
use omnicare_genai_assessmen.Prelude.{OneOf}
use omnicare_genai_assessmen.Graph.State.{WriteArgs, Message, ai, AgentState}
use omnicare_genai_assessmen.Graph.Confirm.{
  claimed, policy_numbers_stated, number_is_stated, amount_was_stated, amount_is_stated, amount_ok,
  amount_raises, is_infinite, approved, confirm, confirm_pending, pending_or_empty, ask_number,
  ask_amount, declined, is_blank,
}

-- The policy number, where the write has one, is among those that the policyholder said.
abbrev pub Numbered : WriteArgs → List Message → Type 0
Numbered a messages = (claimed a ≡ []) ⊎ OneOf (claimed a) (policy_numbers_stated messages)

-- The amount, where the write has one, is among those that they said.
abbrev pub Priced : WriteArgs → List Message → Type 0
Priced a messages = (s : Text) → a.amount ≡ some s → amount_was_stated s messages ≡ true

-- The policyholder agreed, and gave both.
pub record Consented (answer : Text) (messages : List Message) (a : WriteArgs) : Type 0 where
  pub agreed : approved answer ≡ true
  pub number : Numbered a messages
  pub amount : Priced a messages

number-stated :
    (s : Text) (ts : List Text) → (is_blank s || any (same s) ts) ≡ true → (s ≡ []) ⊎ OneOf s ts
number-stated [] ts h = inl refl
number-stated (c ∷ s) ts h = inr (any-OneOf (c ∷ s) ts h)

number-unstated :
    (s : Text) (ts : List Text)
    → (is_blank s || any (same s) ts) ≡ false
    → ((s ≡ []) ⊎ OneOf s ts)
    → ⊥
number-unstated [] ts h n = clash h
number-unstated (c ∷ s) ts h (inl e) = no_cons c s e
  where
    no_cons : (c : ℕ) (s : Text) → ((c ∷ s) ≡ []) → ⊥
    no_cons c s e = cc
number-unstated (c ∷ s) ts h (inr o) = clash (sym (OneOf-any (c ∷ s) ts o) ∙ h)

amount-stated :
    (o : Option Text) (ms : List Message) (s : Text)
    → amount_ok o ms ≡ true
    → o ≡ some s
    → amount_was_stated s ms ≡ true
unfolding amount_ok
amount-stated none ms s h e = cc
amount-stated (some t) ms s h e = cc

amount-unstated :
    (o : Option Text) (ms : List Message)
    → amount_ok o ms ≡ false
    → ((s : Text) → o ≡ some s → amount_was_stated s ms ≡ true)
    → ⊥
unfolding amount_ok
amount-unstated none ms h p = clash h
amount-unstated (some t) ms h p = clash (sym (p t refl) ∙ h)

amount-infinite :
    (o : Option Text) → amount_raises o ≡ true → (s : Text) × (o ≡ some s) × (is_infinite s ≡ true)
unfolding amount_raises
amount-infinite none h = clash (sym h)
amount-infinite (some s) h = (s, refl, h)

-- The write and its split are dropped, with an answer.
abbrev pub Drops : Text → AgentState → AgentState → Type 0
Drops r st st' =
    (st'.pending_write ≡ none)
    × (st'.pending_settlement ≡ none)
    × (st'.messages ≡ st.messages ++ (ai r [] ∷ []))

-- What `confirm` makes of a pending write, by what the policyholder said.
abbrev pub Decides : Text → WriteArgs → AgentState → AgentState → Type 0
Decides answer a st st' =
    (Consented answer st.messages a × (st' ≡ record st { pending_write = some a }))
    ⊎ ((Numbered a st.messages → ⊥) × Drops ask_number st st')
    ⊎ (Numbered a st.messages × (Priced a st.messages → ⊥) × Drops ask_amount st st')
    ⊎ (Numbered a st.messages
        × Priced a st.messages
        × (approved answer ≡ false)
        × Drops declined st st')

-- It raises only on an infinite amount.
abbrev pub Decided : Text → WriteArgs → AgentState → Option AgentState → Type 0
Decided answer a st none =
    Numbered a st.messages × ((s : Text) × (a.amount ≡ some s) × (is_infinite s ≡ true))
Decided answer a st (some st') = Decides answer a st st'

confirm_pending-Decided :
    (answer : Text) (a : WriteArgs) (st : AgentState)
    → Decided answer a st (confirm_pending answer a st)
unfolding confirm_pending number_is_stated amount_is_stated
confirm_pending-Decided answer a st = elim (Bool-cases (number_is_stated a st.messages)) [
  | inr no_number ↦
      rw no_number (inr (inl (number-unstated (claimed a) _ no_number, (refl, refl, refl))))
  | inl number ↦
      let numbered = number-stated (claimed a) (policy_numbers_stated st.messages) number in
      rw number (elim (Bool-cases (amount_raises a.amount)) [
        | inl infinite ↦ rw infinite (numbered, amount-infinite a.amount infinite)
        | inr finite ↦ rw finite (elim (Bool-cases (amount_is_stated a st.messages)) [
          | inr no_amount ↦ rw no_amount (
              inr (
                inr (
                  inl (
                    numbered,
                    amount-unstated a.amount st.messages no_amount,
                    (refl, refl, refl),
                  ))))
          | inl amount ↦
              let priced : Priced a st.messages =
                λ s e. amount-stated a.amount st.messages s amount e in
              rw amount (elim (Bool-cases (approved answer)) [
                | inr refused ↦
                    rw refused (inr (inr (inr (numbered, priced, refused, (refl, refl, refl)))))
                | inl agreed ↦
                    rw agreed
                      (inl (record { agreed = agreed; number = numbered; amount = priced }, refl))
              ])
        ])
      ])
]

-- With confirmation required, the node keeps the pending write as it is when the policyholder gave
-- its policy number and its amount, where it has them, and agreed to it. Otherwise it drops the
-- write and the split, and asks for the number when it was not given, else for the amount when that
-- was not given, and else says that nothing was filed. It raises only where the number was given
-- and the amount is infinite.
pub confirm-Decided :
    (answer : Text) (st : AgentState)
    → Decided answer (pending_or_empty st.pending_write) st (confirm true answer st)
unfolding confirm
confirm-Decided answer st = confirm_pending-Decided answer (pending_or_empty st.pending_write) st

confirm_pending-iterations :
    (answer : Text) (a : WriteArgs) (st : AgentState)
    → IfOk (λ (st' : AgentState). st'.iterations ≡ st.iterations) (confirm_pending answer a st)
unfolding confirm_pending
confirm_pending-iterations answer a st = elim (Bool-cases (number_is_stated a st.messages)) [
  | inr n ↦ rw n refl
  | inl y ↦ rw y (elim (Bool-cases (amount_raises a.amount)) [
    | inl i ↦ rw i tt
    | inr f ↦ rw f (elim (Bool-cases (amount_is_stated a st.messages)) [
      | inr n ↦ rw n refl
      | inl p ↦ rw p (elim (Bool-cases (approved answer)) [ inr n ↦ rw n refl | inl q ↦ rw q refl ])
    ])
  ])
]

pub confirm-iterations :
    (required : Bool) (answer : Text) (st : AgentState)
    → IfOk (λ (st' : AgentState). st'.iterations ≡ st.iterations) (confirm required answer st)
unfolding confirm
confirm-iterations false answer st = refl
confirm-iterations true answer st =
    confirm_pending-iterations answer (pending_or_empty st.pending_write) st
