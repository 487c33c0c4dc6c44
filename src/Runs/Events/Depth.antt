-- ===== src/Runs/Events/Depth.antt =====
-- What a subscriber sees of the events of a run, and what they do to the depth of the queue.
use omnicare_genai_assessmen.Prelude.{
  ℕ, suc, ◌-◌, ◌≡◌, ◌∙◌, refl, sym, ap, true, false, List, [], ◌∷◌, ◌++◌, Bool-cases, inl, inr,
}
use mathlib.Core.Path.{subst}
use mathlib.Core.List.{append_assoc, append-nil}
use omnicare_genai_assessmen.Text.{Text, same}
use omnicare_genai_assessmen.Text.Laws.{same_refl}
use omnicare_genai_assessmen.Runs.Events.{
  RunEvent, is_terminal, Queue, stream, append_event, opened, publish, delivered,
}

-- The last event is terminal, and none before it is.
abbrev pub EndsOnce : List RunEvent → Type 0
EndsOnce [] = ⊥
EndsOnce (e ∷ []) = is_terminal e ≡ true
EndsOnce (e ∷ f ∷ es) = (is_terminal e ≡ false) × EndsOnce (f ∷ es)

-- The events have the id of the run and the numbers from `n` on.
abbrev pub Numbered : Text → ℕ → List RunEvent → Type 0
Numbered run n [] = Unit
Numbered run n (e ∷ es) = (e.run_id ≡ run) × (e.seq ≡ n) × Numbered run (suc n) es

pub EndsOnce-cons :
    (e : RunEvent) (es : List RunEvent) → is_terminal e ≡ false → EndsOnce es → EndsOnce (e ∷ es)
EndsOnce-cons e [] h o = absurd o
EndsOnce-cons e (f ∷ es) h o = (h, o)

unfoldable pub publish_all : List RunEvent → Queue → Queue
publish_all [] q = q
publish_all (e ∷ es) q = publish_all es (publish e q)

pub delivered-EndsOnce : (es : List RunEvent) → EndsOnce es → delivered es ≡ es
unfolding delivered
delivered-EndsOnce [] o = absurd o
delivered-EndsOnce (e ∷ []) o = rw o refl
delivered-EndsOnce (e ∷ f ∷ es) o = rw o.0 (ap (λ rest. e ∷ rest) (delivered-EndsOnce (f ∷ es) o.1))

pub pending-publish_all :
    (es : List RunEvent) (q : Queue) → EndsOnce es → (publish_all es q).pending ≡ q.pending - 1
unfolding publish_all publish
pending-publish_all [] q o = absurd o
pending-publish_all (e ∷ []) q o = rw o refl
pending-publish_all (e ∷ f ∷ es) q o = pending-publish_all (f ∷ es) (publish e q) o.1 ∙ rw o.0 refl

stream-append :
    (run : Text) (e : RunEvent) (ss : List (Text × List RunEvent))
    → e.run_id ≡ run
    → stream run (append_event e ss) ≡ stream run ss ++ (e ∷ [])
unfolding stream append_event
stream-append run e [] h =
    let own : same e.run_id run ≡ true = subst (λ r. same r run ≡ true) (sym h) (same_refl run) in
    rw own refl
stream-append run e ((r, es) ∷ rest) h = elim (Bool-cases (same r run)) [
  | inl here ↦
      let own : same r e.run_id ≡ true = subst (λ x. same r x ≡ true) (sym h) here in
      rw own (rw here refl)
  | inr there ↦
      let other : same r e.run_id ≡ false = subst (λ x. same r x ≡ false) (sym h) there in
      rw other (rw there (stream-append run e rest h))
]

pub stream-publish_all :
    (run : Text) (n : ℕ) (es : List RunEvent) (q : Queue)
    → Numbered run n es
    → stream run (publish_all es q).streams ≡ stream run q.streams ++ es
unfolding publish_all publish
stream-publish_all run n [] q h = sym (append-nil (stream run q.streams))
stream-publish_all run n (e ∷ es) q h =
    stream-publish_all run (suc n) es (publish e q) h.2
    ∙ ap (λ s. s ++ es) (stream-append run e q.streams h.0)
    ∙ append_assoc (stream run q.streams) (e ∷ []) es

pub stream-opened :
    (run : Text) (ss : List (Text × List RunEvent)) → stream run (opened run ss) ≡ stream run ss
unfolding stream opened
stream-opened run [] = rw (same_refl run) refl
stream-opened run ((r, es) ∷ rest) = elim (Bool-cases (same r run)) [
  | inl here ↦ rw here (rw here refl)
  | inr there ↦ rw there (rw there (stream-opened run rest))
]
