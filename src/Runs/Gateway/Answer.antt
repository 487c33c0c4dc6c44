-- ===== src/Runs/Gateway/Answer.antt =====
-- What the gateway makes of the events of the worker.
use omnicare_genai_assessmen.Prelude.{
  ℕ, suc, ◌≡◌, ◌∙◌, refl, sym, ap, Bool, true, false, Option, none, some, List, [], ◌∷◌, ◌++◌,
  if◌then◌else◌,
}
use mathlib.Core.List.{append_assoc, append-nil}
use omnicare_genai_assessmen.Text.{Text, codes, strip}
use omnicare_genai_assessmen.Runs.Events.{ToolReport, Verdict, RunEvent}
use omnicare_genai_assessmen.Runs.Worker.{
  GraphResult, Outcome, completed, timed_out, failed, returned, event, no_verdict, after_calls,
  finish, say, conclude, run_graph, is_expired, begun, handle,
}
use omnicare_genai_assessmen.Runs.Gateway.{
  Collected, Response, ok, bad_gateway, awaiting, respond, text_or, nothing_yet, collect_from,
  collect,
}

-- The response to a run of the graph that completed: the answer, or the question for confirmation.
abbrev pub answered : Option (Text × Text) → GraphResult → Collected
answered none r = record {
  answer = strip r.answer;
  cited = r.cited;
  tool_calls = r.tool_invocations;
  trace_id = r.trace_id;
  verdict = some r.verdict;
}
answered (some (args, readback)) r = record {
  answer = strip readback;
  cited = r.cited;
  tool_calls = r.tool_invocations ++ (awaiting args ∷ []);
  trace_id = r.trace_id;
  verdict = some no_verdict;
}

-- The response that a job should get.
abbrev pub reported : Bool → Outcome → Response
reported true o = bad_gateway (codes "Request expired in queue.")
reported false (completed r) = ok (answered r.interrupt r)
reported false timed_out = bad_gateway (codes "The assistant timed out.")
reported false failed = bad_gateway (codes "The assistant is temporarily unavailable.")

abbrev with_calls : List ToolReport → Collected
with_calls cs = record { answer = []; cited = []; tool_calls = cs; trace_id = none; verdict = none }

collect-after_calls :
    (run : Text) (n : ℕ) (cs done : List ToolReport) (rest : ℕ → List RunEvent) (x : Response)
    → ((m : ℕ) → collect_from (with_calls (done ++ cs)) (rest m) ≡ x)
    → collect_from (with_calls done) (after_calls run n cs rest) ≡ x
unfolding collect_from after_calls event
collect-after_calls run n [] done rest x h =
    ap (λ ds. collect_from (with_calls ds) (rest n)) (sym (append-nil done)) ∙ h n
collect-after_calls run n (c ∷ cs) done rest x h =
    collect-after_calls run (suc n) cs (done ++ (c ∷ [])) rest x
      (λ m. ap (λ ds. collect_from (with_calls ds) (rest m)) (append_assoc done (c ∷ []) cs) ∙ h m)

collect-finish :
    (run : Text) (t : Option Text) (v : Verdict) (ss : List Text) (n : ℕ) (answer : Text)
    (cs : List ToolReport)
    → collect_from (record (with_calls cs) { answer = answer }) (finish run t v ss n)
      ≡ ok (record {
        answer = strip answer;
        cited = ss;
        tool_calls = cs;
        trace_id = t;
        verdict = some v;
      })
unfolding collect_from finish event text_or respond
collect-finish run t v ss n answer cs = refl

collect-say :
    (run s : Text) (n : ℕ) (t : Option Text) (v : Verdict) (ss : List Text) (cs : List ToolReport)
    → collect_from (with_calls cs) (say run s n (finish run t v ss))
      ≡ ok
          (record { answer = strip s; cited = ss; tool_calls = cs; trace_id = t; verdict = some v })
unfolding collect_from say event
collect-say run [] n t v ss cs = collect-finish run t v ss n [] cs
collect-say run (c ∷ s) n t v ss cs = collect-finish run t v ss (suc n) (c ∷ s) cs

collect-conclude :
    (run : Text) (i : Option (Text × Text)) (r : GraphResult) (n : ℕ)
    → collect_from (with_calls r.tool_invocations) (conclude run i r n) ≡ ok (answered i r)
unfolding collect_from conclude event
collect-conclude run none r n =
    collect-say run r.answer n r.trace_id r.verdict r.cited r.tool_invocations
collect-conclude run (some (args, readback)) r n =
    collect-finish run r.trace_id no_verdict r.cited (suc n) readback
      (r.tool_invocations ++ (awaiting args ∷ []))

collect-graph :
    (run : Text) (o : Outcome) → collect_from nothing_yet (run_graph run o).0 ≡ reported false o
unfolding collect_from run_graph event nothing_yet
collect-graph run (completed r) =
    collect-after_calls run 1 r.tool_invocations [] _ _ (λ m. collect-conclude run r.interrupt r m)
collect-graph run timed_out = refl
collect-graph run failed = refl

collect-handled :
    (run : Text) (expired : Bool) (o : Outcome) (es : List RunEvent)
    → collect_from nothing_yet es ≡ reported true o
    → collect_from nothing_yet (if expired then (es, returned) else begun run (run_graph run o)).0
      ≡ reported expired o
unfolding collect_from begun event
collect-handled run true o es h = h
collect-handled run false o es h = collect-graph run o

-- From the events of the worker the gateway collects what the run produced: its text, or the
-- read-back when a write waits for confirmation, the sources, and all tool calls in order, with the
-- verdict of the graph unless a write waits; and when the job expired, timed out or failed, the
-- error. It never takes such a run for one that has not ended.
pub collect-handle :
    (run : Text) (deadline_at : Option ℕ) (now : ℕ) (o : Outcome)
    → collect (handle run deadline_at now o).0 ≡ reported (is_expired deadline_at now) o
unfolding collect handle event collect_from
collect-handle run deadline_at now o = collect-handled run (is_expired deadline_at now) o _ refl
