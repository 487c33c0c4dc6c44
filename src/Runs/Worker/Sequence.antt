-- ===== src/Runs/Worker/Sequence.antt =====
-- The events that the worker publishes for a job.
use omnicare_genai_assessmen.Prelude.{
  ℕ, suc, ◌≡◌, ◌∙◌, refl, ap, Bool, true, false, Option, none, some, List, [], ◌∷◌, ◌++◌,
  if◌then◌else◌,
}
use omnicare_genai_assessmen.Text.{Text}
use omnicare_genai_assessmen.Runs.Events.{
  ToolReport, Verdict, Kind, RunEvent, ends, is_terminal, Queue, stream, enqueue,
}
use omnicare_genai_assessmen.Runs.Events.Depth.{
  EndsOnce, Numbered, EndsOnce-cons, publish_all, stream-publish_all, stream-opened,
}
use omnicare_genai_assessmen.Runs.Worker.{
  GraphResult, Outcome, completed, timed_out, failed, Exit, event, after_calls, finish, say,
  conclude, run_graph, is_expired, begun, handle,
}

-- Numbered from `n` on, with one terminal event, at the end.
pub record IsRun (run : Text) (n : ℕ) (es : List RunEvent) : Type 0 where
  pub numbered : Numbered run n es
  pub ends_once : EndsOnce es

cons-IsRun :
    (run : Text) (n : ℕ) (k : Kind) (es : List RunEvent)
    → ends k ≡ false
    → IsRun run (suc n) es
    → IsRun run n (event run n k ∷ es)
unfolding event is_terminal
cons-IsRun run n k es h r = record {
  numbered = (refl, refl, r.numbered);
  ends_once = EndsOnce-cons (event run n k) es h r.ends_once;
}

last-IsRun : (run : Text) (n : ℕ) (k : Kind) → ends k ≡ true → IsRun run n (event run n k ∷ [])
unfolding event is_terminal
last-IsRun run n k h = record { numbered = (refl, refl, tt); ends_once = h }

after_calls-IsRun :
    (run : Text) (n : ℕ) (cs : List ToolReport) (rest : ℕ → List RunEvent)
    → ((m : ℕ) → IsRun run m (rest m))
    → IsRun run n (after_calls run n cs rest)
unfolding after_calls ends
after_calls-IsRun run n [] rest h = h n
after_calls-IsRun run n (c ∷ cs) rest h =
    cons-IsRun run n _ _ refl (after_calls-IsRun run (suc n) cs rest h)

finish-IsRun :
    (run : Text) (t : Option Text) (v : Verdict) (ss : List Text) (n : ℕ)
    → IsRun run n (finish run t v ss n)
unfolding finish ends
finish-IsRun run t v ss n = cons-IsRun run n _ _ refl (last-IsRun run (suc n) _ refl)

say-IsRun :
    (run s : Text) (n : ℕ) (rest : ℕ → List RunEvent)
    → ((m : ℕ) → IsRun run m (rest m))
    → IsRun run n (say run s n rest)
unfolding say ends
say-IsRun run [] n rest h = h n
say-IsRun run (c ∷ s) n rest h = cons-IsRun run n _ _ refl (h (suc n))

conclude-IsRun :
    (run : Text) (i : Option (Text × Text)) (r : GraphResult) (n : ℕ)
    → IsRun run n (conclude run i r n)
unfolding conclude ends
conclude-IsRun run (some (args, readback)) r n =
    cons-IsRun run n _ _ refl (finish-IsRun run _ _ _ (suc n))
conclude-IsRun run none r n = say-IsRun run r.answer n _ (finish-IsRun run _ _ _)

run_graph-IsRun : (run : Text) (o : Outcome) → IsRun run 1 (run_graph run o).0
unfolding run_graph ends
run_graph-IsRun run (completed r) =
    after_calls-IsRun run 1 r.tool_invocations _ (conclude-IsRun run r.interrupt r)
run_graph-IsRun run timed_out = last-IsRun run 1 _ refl
run_graph-IsRun run failed = last-IsRun run 1 _ refl

handled-IsRun :
    (run : Text) (expired : Bool) (o : Outcome) (m : Kind)
    → ends m ≡ true
    → IsRun run 0
        (if expired then (event run 0 m ∷ [], Exit.returned) else begun run (run_graph run o)).0
unfolding begun ends
handled-IsRun run true o m h = last-IsRun run 0 m h
handled-IsRun run false o m h = cons-IsRun run 0 _ _ refl (run_graph-IsRun run o)

-- However a job ends, its events have the id of the run and the numbers 0, 1, 2 and so on, and the
-- last of them, and no other, is terminal.
pub handle-IsRun :
    (run : Text) (deadline_at : Option ℕ) (now : ℕ) (o : Outcome)
    → IsRun run 0 (handle run deadline_at now o).0
unfolding handle ends
handle-IsRun run deadline_at now o = handled-IsRun run (is_expired deadline_at now) o _ refl

-- The stream of a run that is enqueued under a new id and handled is what its handler published.
pub stream-handle :
    (run : Text) (deadline_at : Option ℕ) (now : ℕ) (o : Outcome) (q : Queue)
    → stream run q.streams ≡ []
    → let events = (handle run deadline_at now o).0 in
      stream run (publish_all events (enqueue run q)).streams ≡ events
unfolding enqueue
stream-handle run deadline_at now o q new =
    let events = (handle run deadline_at now o).0 in
    stream-publish_all run 0 events (enqueue run q) (handle-IsRun run deadline_at now o).numbered
    ∙ ap (λ s. s ++ events) (stream-opened run q.streams ∙ new)
