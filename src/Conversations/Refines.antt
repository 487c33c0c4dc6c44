-- ===== src/Conversations/Refines.antt =====
-- The store as what it stands for: an owner and a list of messages for each id.
use omnicare_genai_assessmen.Prelude.{
  ℕ, ◌≡◌, refl, sym, Option, none, some, List, [], ◌∷◌, ◌++◌, if◌then◌else◌, Bool-cases, inl, inr,
}
use mathlib.Core.Path.{subst}
use omnicare_genai_assessmen.Text.{Text, same}
use omnicare_genai_assessmen.Text.Laws.{same_other, same-eq}
use omnicare_genai_assessmen.Conversations.{
  Row, Entry, Store, row_of, log_of, put_row, put_log, append_log, touch, add_message,
}

-- What a store stands for.
pub record View : Type 0 where
  pub owner : Text → Option Text
  pub log : Text → List Entry

abbrev pub user_of : Option Row → Option Text
user_of none = none
user_of (some r) = some r.user_id

abbrev pub view : Store → View
view st = record {
  owner = λ id. user_of (row_of id st.conversations);
  log = λ id. log_of id st.messages;
}

-- The views are the same at every id.
pub record Agrees (v w : View) : Type 0 where
  pub owners : (id : Text) → v.owner id ≡ w.owner id
  pub logs : (id : Text) → v.log id ≡ w.log id

-- The two operations on views: an owner with no messages for an id, and a message behind the
-- others.
abbrev pub open_view : Text → Text → View → View
open_view id user v = record {
  owner = λ d. if same id d then some user else v.owner d;
  log = λ d. if same id d then [] else v.log d;
}

abbrev pub say_view : Text → Entry → View → View
say_view id e v = record {
  owner = v.owner;
  log = λ d. if same id d then v.log d ++ (e ∷ []) else v.log d;
}

pub log_of-put :
    (id d : Text) (es : List Entry) (ls : List (Text × List Entry))
    → log_of d (put_log id es ls) ≡ (if same id d then es else log_of d ls)
unfolding log_of put_log
log_of-put id d es [] = refl
log_of-put id d es ((f, fs) ∷ rest) = elim (Bool-cases (same f id)) [
  | inl y ↦ rw y (
      subst
        (λ (x : Text).
          (if same x d then es else log_of d rest)
          ≡ (if same id d then es else if same x d then fs else log_of d rest))
        (sym (same-eq f id y))
        (elim (Bool-cases (same id d)) [ inl m ↦ rw m refl | inr o ↦ rw o refl ]))
  | inr n ↦ rw n (elim (Bool-cases (same f d)) [
    | inl m ↦ rw m (rw (same_other f id d m n) refl)
    | inr o ↦ rw o (log_of-put id d es rest)
  ])
]

log_of-append :
    (id d : Text) (e : Entry) (ls : List (Text × List Entry))
    → log_of d (append_log id e ls) ≡ (if same id d then log_of d ls ++ (e ∷ []) else log_of d ls)
unfolding log_of append_log
log_of-append id d e [] = refl
log_of-append id d e ((f, fs) ∷ rest) = elim (Bool-cases (same f id)) [
  | inl y ↦ rw y (
      subst
        (λ (x : Text). (if same x d then fs ++ (e ∷ []) else log_of d rest) ≡ (
          if same id d
          then (if same x d then fs else log_of d rest) ++ (e ∷ [])
          else if same x d
          then fs
          else log_of d rest))
        (sym (same-eq f id y))
        (elim (Bool-cases (same id d)) [ inl m ↦ rw m refl | inr o ↦ rw o refl ]))
  | inr n ↦ rw n (elim (Bool-cases (same f d)) [
    | inl m ↦ rw m (rw (same_other f id d m n) refl)
    | inr o ↦ rw o (log_of-append id d e rest)
  ])
]

pub row_of-put :
    (r : Row) (d : Text) (qs : List Row)
    → row_of d (put_row r qs) ≡ (if same r.id d then some r else row_of d qs)
unfolding row_of put_row
row_of-put r d [] = refl
row_of-put r d (q ∷ qs) = elim (Bool-cases (same q.id r.id)) [
  | inl y ↦ rw y (
      subst
        (λ (x : Text).
          (if same r.id d then some r else row_of d qs)
          ≡ (if same r.id d then some r else if same x d then some q else row_of d qs))
        (sym (same-eq q.id r.id y))
        (elim (Bool-cases (same r.id d)) [ inl m ↦ rw m refl | inr o ↦ rw o refl ]))
  | inr n ↦ rw n (elim (Bool-cases (same q.id d)) [
    | inl m ↦ rw m (rw (same_other q.id r.id d m n) refl)
    | inr o ↦ rw o (row_of-put r d qs)
  ])
]

user_of-touch :
    (id d : Text) (now : ℕ) (rs : List Row)
    → user_of (row_of d (touch id now rs)) ≡ user_of (row_of d rs)
unfolding row_of touch
user_of-touch id d now [] = refl
user_of-touch id d now (r ∷ rs) = elim (Bool-cases (same r.id id)) [
  | inl y ↦ rw y (elim (Bool-cases (same r.id d)) [ inl m ↦ rw m refl | inr o ↦ rw o refl ])
  | inr n ↦ rw n (elim (Bool-cases (same r.id d)) [
    | inl m ↦ rw m refl
    | inr o ↦ rw o (user_of-touch id d now rs)
  ])
]

-- Adding a message to the store is adding it to what the store stands for: it comes behind the
-- others of its conversation, and no owner and no other conversation changes.
pub add_message-refines :
    (id : Text) (e : Entry) (st : Store)
    → Agrees (view (add_message id e st)) (say_view id e (view st))
unfolding add_message
add_message-refines id e st = record {
  owners = λ d. user_of-touch id d e.created_at st.conversations;
  logs = λ d. log_of-append id d e st.messages;
}
