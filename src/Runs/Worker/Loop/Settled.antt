-- ===== src/Runs/Worker/Loop/Settled.antt =====
-- What a round of the worker makes of its jobs.
use omnicare_genai_assessmen.Prelude.{
  clash, none, some, ◌||◌, All, IfOk, ℕ, suc, ◌+◌, Bool-cases, inl, inr, ◌≡◌, ◌∙◌, refl, ap, Bool,
  true, false, not, Option, List, [], ◌∷◌, ◌++◌, if◌then◌else◌, arith, length, keep, sym,
}
use mathlib.Core.Option
use mathlib.Core.List.{append-nil}
use mathlib.Core.Path.{subst}
use omnicare_genai_assessmen.Text.{Text, same}
use omnicare_genai_assessmen.Runs.Events.{RunEvent, is_terminal}
use omnicare_genai_assessmen.Runs.Events.Depth.{EndsOnce}
use omnicare_genai_assessmen.Runs.Worker.{
  Outcome, completed, timed_out, failed, Exit, returned, raised, handle, run_graph, begun,
  is_expired,
}
use omnicare_genai_assessmen.Runs.Worker.Sequence.{handle-IsRun}
use omnicare_genai_assessmen.Runs.Worker.Loop.{
  Job, Jobs, ack, emitted, dead_letter, after_job, handle_job, handle_jobs,
}

-- Whether the handler of a job raises: a call of the queue does, or the job was begun in time and
-- its graph timed out or failed.
abbrev pub dies : Option (List RunEvent) → Bool → Outcome → Bool
dies (some es) expired o = true
dies none expired (completed r) = false
dies none expired timed_out = not expired
dies none expired failed = not expired

abbrev pub letter : Job → List Text
letter j =
    if dies j.broken (is_expired j.deadline_at j.now) j.outcome || j.ack_raises
    then j.entry_id ∷ []
    else []

abbrev pub letters : List Job → List Text
letters [] = []
letters (j ∷ js) = letter j ++ letters js

-- The dead letters after those are sent.
abbrev pub sent_to : (List Text → List Text) → List Text → List Text → List Text
sent_to trim ds [] = ds
sent_to trim ds (l ∷ ls) = sent_to trim (trim (ds ++ (l ∷ []))) ls

-- The entries that are none of the jobs'.
abbrev pub others : List Job → List Text → List Text
others [] es = es
others (j ∷ js) es = others js (keep (λ e. not (same e j.entry_id)) es)

-- How many runs have ended.
abbrev pub terminals : List RunEvent → ℕ
terminals [] = 0
terminals (e ∷ es) = let rest = terminals es in if is_terminal e then suc rest else rest

terminals-EndsOnce : (es : List RunEvent) → EndsOnce es → terminals es ≡ 1
terminals-EndsOnce [] o = absurd o
terminals-EndsOnce (e ∷ []) o = rw o refl
terminals-EndsOnce (e ∷ f ∷ es) o = rw o.0 (terminals-EndsOnce (f ∷ es) o.1)

terminals-add : (es fs : List RunEvent) → EndsOnce fs → terminals (es ++ fs) ≡ terminals es + 1
terminals-add [] fs o = omega (arith, terminals-EndsOnce fs o)
terminals-add (e ∷ es) fs o =
    let rest = terminals-add es fs o in
    elim (Bool-cases (is_terminal e)) [ inl y ↦ rw y (omega (arith, rest)) | inr n ↦ rw n rest ]

-- A handler's end.
abbrev exit_of : Bool → Exit
exit_of died = if died then raised else returned

exit-dies :
    (run : Text) (expired : Bool) (o : Outcome) (es : List RunEvent)
    → (if expired then (es, returned) else begun run (run_graph run o)).1
      ≡ exit_of (dies none expired o)
unfolding begun run_graph
exit-dies run true (completed r) es = refl
exit-dies run true timed_out es = refl
exit-dies run true failed es = refl
exit-dies run false (completed r) es = refl
exit-dies run false timed_out es = refl
exit-dies run false failed es = refl

exit-handle :
    (j : Job)
    → (handle j.run_id j.deadline_at j.now j.outcome).1
      ≡ exit_of (dies none (is_expired j.deadline_at j.now) j.outcome)
unfolding handle
exit-handle j = exit-dies j.run_id (is_expired j.deadline_at j.now) j.outcome _

exit-emitted :
    (o : Option (List RunEvent)) (p : List RunEvent × Exit) (expired : Bool) (out : Outcome)
    → p.1 ≡ exit_of (dies none expired out)
    → (emitted o p).1 ≡ exit_of (dies o expired out)
unfolding emitted
exit-emitted none p expired out h = h
exit-emitted (some es) p expired out h = refl

events-emitted :
    (o : Option (List RunEvent)) (p : List RunEvent × Exit)
    → o ≡ none
    → EndsOnce p.0
    → EndsOnce (emitted o p).0
unfolding emitted
events-emitted none p e h = h
events-emitted (some es) p e h = cc

-- No call of the queue raises in the handlers.
abbrev pub AllPublish : List Job → Type 0
AllPublish js = All (λ (j : Job). j.broken ≡ none) js

-- What a round makes of the state.
pub record IsHandled (trim : List Text → List Text) (s t : Jobs) (js : List Job) : Type 0 where
  pub ended : AllPublish js → terminals t.published ≡ terminals s.published + length js
  pub acknowledged : t.unacknowledged ≡ others js s.unacknowledged
  pub dead : t.dead ≡ sent_to trim s.dead (letters js)

module _ (trim : List Text → List Text) where
  abbrev Handled : Jobs → List Job → Option Jobs → Type 0
  Handled s js r = IfOk (λ (t : Jobs). IsHandled trim s t js) r

  lettered :
      (j : Job) (es : List RunEvent) (s : Jobs)
      → (j.broken ≡ none → EndsOnce es)
      → (dies j.broken (is_expired j.deadline_at j.now) j.outcome || j.ack_raises) ≡ true
      → Handled s (j ∷ []) (dead_letter trim j (record s { published = s.published ++ es }))
  unfolding dead_letter ack
  lettered j es s o h = elim (Bool-cases j.letter_raises) [
    | inl y ↦ rw y tt
    | inr n ↦ rw n (record {
      ended = λ p. terminals-add s.published es (o p.0);
      acknowledged = refl;
      dead = rw h refl;
    })
  ]

  or_true : (b : Bool) → (b || true) ≡ true
  or_true true = refl
  or_true false = refl

  no_letter : (d b : Bool) → false ≡ d → b ≡ false → (d || b) ≡ false
  no_letter true b h e = clash (sym h)
  no_letter false b h e = e

  acked-Handled :
      (j : Job) (b : Bool) (es : List RunEvent) (s : Jobs)
      → (j.broken ≡ none → EndsOnce es)
      → false ≡ dies j.broken (is_expired j.deadline_at j.now) j.outcome
      → j.ack_raises ≡ b
      → let t : Jobs = record s { published = s.published ++ es } in
        Handled s (j ∷ []) (if b then dead_letter trim j t else some (ack j.entry_id t))
  unfolding ack
  acked-Handled j true es s o h e = lettered j es s o (rw e (or_true _))
  acked-Handled j false es s o h e = record {
    ended = λ p. terminals-add s.published es (o p.0);
    acknowledged = refl;
    dead = rw (no_letter _ j.ack_raises h e) refl;
  }

  job-Handled :
      (j : Job) (es : List RunEvent) (died : Bool) (s : Jobs)
      → (j.broken ≡ none → EndsOnce es)
      → died ≡ dies j.broken (is_expired j.deadline_at j.now) j.outcome
      → Handled s (j ∷ []) (after_job trim j (es, exit_of died) s)
  unfolding after_job
  job-Handled j es true s o h = lettered j es s o (rw (sym h) refl)
  job-Handled j es false s o h = acked-Handled j j.ack_raises es s o h refl

  handle_job-Handled : (j : Job) (s : Jobs) → Handled s (j ∷ []) (handle_job trim j s)
  unfolding handle_job
  handle_job-Handled j s =
      let p = handle j.run_id j.deadline_at j.now j.outcome in
      let q = emitted j.broken p in
      let expired = is_expired j.deadline_at j.now in
      subst (λ (x : Exit). Handled s (j ∷ []) (after_job trim j (q.0, x) s))
        (sym (exit-emitted j.broken p expired j.outcome (exit-handle j)))
        (job-Handled j q.0 (dies j.broken expired j.outcome) s
          (λ n.
            events-emitted j.broken p n
              (handle-IsRun j.run_id j.deadline_at j.now j.outcome).ends_once)
          refl)

  sent_to-append :
      (ds ls ms : List Text) → sent_to trim (sent_to trim ds ls) ms ≡ sent_to trim ds (ls ++ ms)
  sent_to-append ds [] ms = refl
  sent_to-append ds (l ∷ ls) ms = sent_to-append (trim (ds ++ (l ∷ []))) ls ms

  IsHandled-cons :
      (j : Job) (js : List Job) (s t u : Jobs)
      → IsHandled trim s t (j ∷ [])
      → IsHandled trim t u js
      → IsHandled trim s u (j ∷ js)
  IsHandled-cons j js s t u one more = record {
    ended = λ p. omega (arith, one.ended (p.0, tt), more.ended p.1);
    acknowledged = more.acknowledged ∙ ap (others js) one.acknowledged;
    dead =
        more.dead
        ∙ ap (λ ds. sent_to trim ds (letters js))
            (one.dead ∙ ap (sent_to trim s.dead) (append-nil (letter j)))
        ∙ sent_to-append s.dead (letter j) (letters js);
  }

  bind-Handled :
      (j : Job) (js : List Job) (s : Jobs) (r : Option Jobs)
      → Handled s (j ∷ []) r
      → ((t : Jobs) → Handled t js (handle_jobs trim js t))
      → Handled s (j ∷ js) (Option.bind r (handle_jobs trim js))
  unfolding Option.bind
  bind-Handled j js s none h k = tt
  bind-Handled j js s (some t) h k = go (handle_jobs trim js t) (k t)
    where
      go : (r : Option Jobs) → Handled t js r → Handled s (j ∷ js) r
      go none m = tt
      go (some u) m = IsHandled-cons j js s t u h m

-- A round of the worker that does not end its loop settles each of its jobs: none of their entries
-- is left unacknowledged and no other entry is acknowledged; the dead letters that are sent are, in
-- order, the jobs whose handler raised, since the graph timed out or failed in time or a call of
-- the queue raised, or whose acknowledgement raised; and where no call of the queue raises in the
-- handlers, one terminal event more is published for each job.
pub handle_jobs-IsHandled :
    (trim : List Text → List Text) (js : List Job) (s : Jobs)
    → IfOk (λ (t : Jobs). IsHandled trim s t js) (handle_jobs trim js s)
unfolding handle_jobs
handle_jobs-IsHandled trim [] s = record {
  ended = λ p. omega arith;
  acknowledged = refl;
  dead = refl;
}
handle_jobs-IsHandled trim (j ∷ js) s =
    bind-Handled trim j js s (handle_job trim j s) (handle_job-Handled trim j s)
      (λ t. handle_jobs-IsHandled trim js t)
