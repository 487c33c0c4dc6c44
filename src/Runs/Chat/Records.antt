-- ===== src/Runs/Chat/Records.antt =====
-- What a call of `chat` answers, and what it leaves in the conversation.
use omnicare_genai_assessmen.Prelude.{
  ℕ, ◌≡◌, ◌∙◌, ◌⊎◌, inl, inr, refl, ap, true, false, Option, none, some, List, [], ◌∷◌, ◌++◌,
  if◌then◌else◌, ltb, Bool-cases,
}
use mathlib.Core.List.{append_assoc}
use omnicare_genai_assessmen.Text.{Text, same}
use omnicare_genai_assessmen.Conversations.{Entry, Store, ensure, add_message}
use omnicare_genai_assessmen.Conversations.Refines.{view, add_message-refines}
use omnicare_genai_assessmen.Runs.Events.{Queue, stream, enqueue, delivered}
use omnicare_genai_assessmen.Runs.Events.Depth.{delivered-EndsOnce}
use omnicare_genai_assessmen.Runs.Worker.{Outcome, handle, is_expired}
use omnicare_genai_assessmen.Runs.Worker.Sequence.{handle-IsRun}
use omnicare_genai_assessmen.Runs.Gateway.{Response, ok, bad_gateway, gateway_timeout, collect}
use omnicare_genai_assessmen.Runs.Gateway.Answer.{reported, collect-handle}
use omnicare_genai_assessmen.Runs.Chat.{
  ChatRequest, Fresh, Result, answered, raised, Deps, too_many, busy, no_answer, unavailable,
  question_of, answer_of, response_of, answer_turn, ask, chat,
}

-- What the caller is told, and what the conversation is given, of what was collected.
abbrev pub told : Text → Response → Result
told id (ok c) = answered (response_of id c)
told id (bad_gateway m) = raised (unavailable m)
told id gateway_timeout = raised no_answer

abbrev pub said : ChatRequest → Fresh → Response → List Entry
said r f (ok c) = question_of r f ∷ answer_of r f c ∷ []
said r f (bad_gateway m) = question_of r f ∷ []
said r f gateway_timeout = question_of r f ∷ []

-- The messages come behind those of the conversation, and nothing else changes.
abbrev pub log_with : Text → List Entry → Store → Text → List Entry
log_with id es st d = let old = (view st).log d in if same id d then old ++ es else old

pub record Says (id : Text) (es : List Entry) (st st' : Store) : Type 0 where
  pub owners : (d : Text) → (view st').owner d ≡ (view st).owner d
  pub logs : (d : Text) → (view st').log d ≡ log_with id es st d

Says-one : (id : Text) (e : Entry) (st : Store) → Says id (e ∷ []) st (add_message id e st)
Says-one id e st =
    let h = add_message-refines id e st in record { owners = h.owners; logs = h.logs }

Says-both :
    (id : Text) (e f : Entry) (st : Store)
    → Says id (e ∷ f ∷ []) st (add_message id f (add_message id e st))
Says-both id e f st =
    let h = Says-one id e st in
    let g = Says-one id f (add_message id e st) in
    record { owners = λ d. g.owners d ∙ h.owners d; logs = λ d. both d (h.logs d) (g.logs d) }
  where
    both :
        (d : Text)
        → (view (add_message id e st)).log d ≡ log_with id (e ∷ []) st d
        → (view (add_message id f (add_message id e st))).log d
          ≡ log_with id (f ∷ []) (add_message id e st) d
        → (view (add_message id f (add_message id e st))).log d ≡ log_with id (e ∷ f ∷ []) st d
    both d p q = elim (Bool-cases (same id d)) [
      | inl y ↦ rw y (
          (rw y at q)
          ∙ ap (λ es. es ++ (f ∷ [])) (rw y at p)
          ∙ append_assoc ((view st).log d) (e ∷ []) (f ∷ []))
      | inr n ↦ rw n ((rw n at q) ∙ (rw n at p))
    ]

-- A refused call leaves the state; any other is answered with what its run produced.
abbrev pub Settled : Option ℕ → ℕ → ChatRequest → Fresh → Response → Deps → Result → Deps → Type 0
Settled (some n) max r f x st result st' = (result ≡ raised (too_many n)) × (st' ≡ st)
Settled none max r f x st result st' =
    let opened = ensure r.user_id r.conversation_id f.conversation f.asked_at st.conversations in
    ((ltb max st.queue.pending ≡ true) × (result ≡ raised busy) × (st' ≡ st))
    ⊎ ((ltb max st.queue.pending ≡ false)
        × (result ≡ told opened.0 x)
        × Says opened.0 (said r f x) opened.1 st'.conversations)

answer_turn-Says :
    (x : Response) (r : ChatRequest) (f : Fresh) (id : Text) (st : Store) (q : Queue)
    → let after =
        answer_turn x r f id
          (record { conversations = add_message id (question_of r f) st; queue = q }) in
      (after.0 ≡ told id x) × Says id (said r f x) st after.1.conversations
unfolding answer_turn
answer_turn-Says (ok c) r f id st q = (refl, Says-both id (question_of r f) (answer_of r f c) st)
answer_turn-Says (bad_gateway m) r f id st q = (refl, Says-one id (question_of r f) st)
answer_turn-Says gateway_timeout r f id st q = (refl, Says-one id (question_of r f) st)

-- Whatever else happens in the queue, when the worker handles the run and its events are the stream
-- of the run: a call over the rate limit, or with more runs pending than allowed, is refused with
-- 429 and changes nothing. Any other call is told what the run produced, an answer or an error; its
-- conversation has the question behind the older messages, and then the answer if there is one; no
-- other conversation and no owner changes but for the conversation that it opens.
pub chat-Settled :
    (limited : Option ℕ) (max : ℕ) (others : Queue → Queue) (r : ChatRequest) (f : Fresh)
    (st : Deps) (deadline_at : Option ℕ) (now : ℕ) (o : Outcome)
    → stream f.run (others (enqueue f.run st.queue)).streams ≡ (handle f.run deadline_at now o).0
    → Settled limited max r f
        (reported (is_expired deadline_at now) o)
        st
        (chat limited max others r f st).0
        (chat limited max others r f st).1
unfolding chat ask
chat-Settled (some n) max others r f st deadline_at now o h = (refl, refl)
chat-Settled none max others r f st deadline_at now o h =
    let opened = ensure r.user_id r.conversation_id f.conversation f.asked_at st.conversations in
    let q = others (enqueue f.run st.queue) in
    let events = (handle f.run deadline_at now o).0 in
    let x : collect (delivered (stream f.run q.streams)) ≡ reported (is_expired deadline_at now) o =
      ap (λ es. collect (delivered es)) h
      ∙ ap collect (delivered-EndsOnce events (handle-IsRun f.run deadline_at now o).ends_once)
      ∙ collect-handle f.run deadline_at now o in
    elim (Bool-cases (ltb max st.queue.pending)) [
      | inl y ↦ rw y (inl (refl, refl, refl))
      | inr n ↦
          let (t, u) =
            answer_turn-Says (reported (is_expired deadline_at now) o) r f opened.0 opened.1 q in
          rw n (rw x (inr (refl, t, u)))
    ]
