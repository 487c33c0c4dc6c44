-- ===== src/Conversations/Ensuring.antt =====
-- `ensure` as an operation on what the store stands for
-- (backend/libs/adapters/conversations_memory.py).
use omnicare_genai_assessmen.Prelude.{
  ◌∙◌, true, sym, clash, ℕ, ◌≡◌, refl, ap, false, Option, none, some, List, [], ◌∷◌, All, ◌⊎◌,
  if◌then◌else◌, Bool-cases, Option-cases, inl, inr,
}
use mathlib.Core.Path.{subst}
use omnicare_genai_assessmen.Text.{Text, same}
use omnicare_genai_assessmen.Text.Laws.{same-eq, same_refl}
use omnicare_genai_assessmen.Conversations.{
  Row, Store, row_of, rolling, put_row, new_row, opened, or_opened, ensure,
}
use omnicare_genai_assessmen.Conversations.Refines.{
  user_of, view, Agrees, open_view, log_of-put, row_of-put,
}

the_same : (q r : Row) → some q ≡ some r → q ≡ r
the_same q r h = cc

-- Each id has one row.
abbrev pub IsUnique : List Row → Type 0
IsUnique [] = Unit
IsUnique (r ∷ rs) = All (λ (q : Row). same r.id q.id ≡ false) rs × IsUnique rs

-- The row that is found has what all rows have.
rolling-All :
    (P : Row → Type 0) (who : Text) (rs : List Row) (r : Row)
    → All P rs
    → rolling who rs ≡ some r
    → P r
unfolding rolling
rolling-All P who [] r h e = cc
rolling-All P who (q ∷ qs) r h e = elim (Bool-cases (same q.user_id who)) [
  | inl y ↦ subst P (the_same q r (rw y at e)) h.0
  | inr n ↦ rolling-All P who qs r h.1 (rw n at e)
]

rolling-found :
    (who : Text) (rs : List Row) (r : Row)
    → IsUnique rs
    → rolling who rs ≡ some r
    → user_of (row_of r.id rs) ≡ some who
unfolding rolling row_of
rolling-found who [] r u e = cc
rolling-found who (q ∷ qs) r u e = elim (Bool-cases (same q.user_id who)) [
  | inl y ↦
      subst (λ (x : Row). user_of (row_of x.id (q ∷ qs)) ≡ some who) (the_same q r (rw y at e))
        (rw (same_refl q.id) (ap some (same-eq q.user_id who y)))
  | inr n ↦
      let e' : rolling who qs ≡ some r = rw n at e in
      rw (rolling-All (λ (x : Row). same q.id x.id ≡ false) who qs r u.0 e')
        (rolling-found who qs r u.1 e')
]

opened-refines :
    (id who : Text) (now : ℕ) (st : Store)
    → Agrees (view (opened id who now st).1) (open_view id who (view st))
unfolding opened new_row
opened-refines id who now st = record {
  owners = λ d. owner_of (new_row id who now) d;
  logs = λ d. log_of-put id d [] st.messages;
}
  where
    owner_of :
        (r : Row) (d : Text)
        → user_of (row_of d (put_row r st.conversations))
          ≡ (if same r.id d then some r.user_id else user_of (row_of d st.conversations))
    owner_of r d = elim (Bool-cases (same r.id d)) [
      | inl m ↦ rw (row_of-put r d st.conversations) (rw m refl)
      | inr o ↦ rw (row_of-put r d st.conversations) (rw o refl)
    ]

-- Where the user has no row, no id that is found is theirs.
rolling-none :
    (who d : Text) (rs : List Row) → rolling who rs ≡ none → user_of (row_of d rs) ≡ some who → ⊥
unfolding rolling row_of
rolling-none who d [] e o = cc
rolling-none who d (q ∷ qs) e o = elim (Bool-cases (same q.user_id who)) [
  | inl y ↦ no_row q (rw y at e)
  | inr n ↦ elim (Bool-cases (same q.id d)) [
    | inl m ↦
        let mine : q.user_id ≡ who = the_same_text q.user_id who (rw m at o) in
        clash (sym (subst (λ (x : Text). same x who ≡ true) (sym mine) (same_refl who)) ∙ n)
    | inr m ↦ rolling-none who d qs (rw n at e) (rw m at o)
  ]
]
  where
    no_row : (q : Row) → some q ≡ none → ⊥
    no_row q h = cc

    the_same_text : (s t : Text) → some s ≡ some t → s ≡ t
    the_same_text s t h = cc

-- An id is opened for the user: in the view it has them for its owner and no messages, and the rest
-- is as it was.
abbrev pub Opens : Text → Text → Store → Store → Type 0
Opens id who st st' = Agrees (view st') (open_view id who (view st))

-- What `ensure` gives back for what was asked. Without an id: a conversation of the user and the
-- store as it was, or, where they have none, the new id, opened for them. With the empty id: the
-- new id, opened. With any other: that id, with the store as it was if it has an owner, and opened
-- if not.
abbrev pub Ensures : Text → Option Text → Text → Store → Text → Store → Type 0
Ensures who none fresh st id st' =
    (((view st).owner id ≡ some who) × (st' ≡ st))
    ⊎ (((d : Text) → (view st).owner d ≡ some who → ⊥) × (id ≡ fresh) × Opens id who st st')
Ensures who (some []) fresh st id st' = (id ≡ fresh) × Opens id who st st'
Ensures who (some (c ∷ s)) fresh st id st' =
    (id ≡ c ∷ s)
    × ((((u : Text) × ((view st).owner id ≡ some u)) × (st' ≡ st))
        ⊎ (((view st).owner id ≡ none) × Opens id who st st'))

opened-Opens :
    (id who : Text) (now : ℕ) (st : Store)
    → ((opened id who now st).0 ≡ id)
      × Opens (opened id who now st).0 who st (opened id who now st).1
unfolding opened
opened-Opens id who now st = (refl, unfold opened in opened-refines id who now st)

found-id : (id : Text) (rs : List Row) (r : Row) → row_of id rs ≡ some r → r.id ≡ id
unfolding row_of
found-id id [] r e = cc
found-id id (q ∷ qs) r e = elim (Bool-cases (same q.id id)) [
  | inl y ↦ subst (λ (x : Row). x.id ≡ id) (the_same q r (rw y at e)) (same-eq q.id id y)
  | inr n ↦ found-id id qs r (rw n at e)
]

-- Where each id has one row: asked for no conversation, the store gives one of the user's and stays
-- as it was, or, where they have none, opens one under the id that was made for it; asked for one
-- by its id, it gives that id, and stays as it was where the id has an owner, who need not be the
-- user, and else opens it for the user. Opening gives the id its owner and no messages and changes
-- nothing else.
pub ensure-refines :
    (who : Text) (asked : Option Text) (fresh : Text) (now : ℕ) (st : Store)
    → IsUnique st.conversations
    → Ensures who asked fresh st (ensure who asked fresh now st).0 (ensure who asked fresh now st).1
unfolding ensure or_opened
ensure-refines who none fresh now st u = elim (Option-cases (rolling who st.conversations)) [
  | inl n ↦
      let (i, o) = opened-Opens fresh who now st in
      rw n (inr (λ d h. rolling-none who d st.conversations n h, i, o))
  | inr (r, e) ↦ rw e (inl (rolling-found who st.conversations r u e, refl))
]
ensure-refines who (some []) fresh now st u = opened-Opens fresh who now st
ensure-refines who (some (c ∷ s)) fresh now st u =
    elim (Option-cases (row_of (c ∷ s) st.conversations)) [
      | inl n ↦ let (i, o) = opened-Opens (c ∷ s) who now st in rw n (i, inr (rw i (rw n refl), o))
      | inr (r, e) ↦
          let i = found-id (c ∷ s) st.conversations r e in
          rw e (i, inl ((r.user_id, rw i (rw e refl)), refl))
    ]
