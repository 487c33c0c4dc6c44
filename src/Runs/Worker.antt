-- ===== src/Runs/Worker.antt =====
-- `AgentWorker.handle` of backend/agent/app/worker.py. What the graph does with the job is an
-- argument.
pub mod Sequence
pub mod Loop
use omnicare_genai_assessmen.Prelude.{
  ℕ, zero, suc, ◌+◌, Bool, true, false, Option, none, some, List, [], ◌∷◌, ◌++◌, if◌then◌else◌, ltb,
}
use omnicare_genai_assessmen.Text.{Text, codes}
use omnicare_genai_assessmen.Runs.Events.{
  ToolReport, Verdict, Kind, started, tool_end, token, sources, confirm, done, error, RunEvent,
}

-- The state in which the graph ends.
pub record GraphResult : Type 0 where
  pub tool_invocations : List ToolReport
  pub interrupt : Option (Text × Text)
  pub answer : Text
  pub cited : List Text
  pub trace_id : Option Text
  pub verdict : Verdict

pub data Outcome : Type 0 where
  completed : GraphResult → Outcome
  timed_out failed : Outcome

pub data Exit : Type 0 where
  returned raised : Exit

unfoldable pub event : Text → ℕ → Kind → RunEvent
event run seq k = record { run_id = run; kind = k; seq = seq }

-- `_emit_tool_calls`, with what follows at the next number.
unfoldable pub after_calls : Text → ℕ → List ToolReport → (ℕ → List RunEvent) → List RunEvent
unfolding event
after_calls run seq [] rest = rest seq
after_calls run seq (c ∷ cs) rest = event run seq (tool_end c) ∷ after_calls run (suc seq) cs rest

unfoldable pub no_verdict : Verdict
no_verdict = record {
  confidence = none;
  model_confidence = none;
  confidence_reason = none;
  unknown = false;
}

unfoldable pub finish : Text → Option Text → Verdict → List Text → ℕ → List RunEvent
unfolding event
finish run trace v cited seq =
    event run seq (sources cited) ∷ event run (suc seq) (done none trace v) ∷ []

-- A text event, unless there is no text.
unfoldable pub say : Text → Text → ℕ → (ℕ → List RunEvent) → List RunEvent
unfolding event
say run [] seq rest = rest seq
say run (c ∷ s) seq rest = event run seq (token (c ∷ s)) ∷ rest (suc seq)

unfoldable pub conclude : Text → Option (Text × Text) → GraphResult → ℕ → List RunEvent
unfolding event no_verdict finish say
conclude run (some (args, readback)) r seq =
    event run seq (confirm args readback) ∷ finish run r.trace_id no_verdict r.cited (suc seq)
conclude run none r seq = say run r.answer seq (finish run r.trace_id r.verdict r.cited)

unfoldable pub run_graph : Text → Outcome → List RunEvent × Exit
unfolding event after_calls conclude
run_graph run (completed r) =
    (after_calls run 1 r.tool_invocations (conclude run r.interrupt r), returned)
run_graph run timed_out = (event run 1 (error (codes "The assistant timed out.")) ∷ [], raised)
run_graph run failed =
    (event run 1 (error (codes "The assistant is temporarily unavailable.")) ∷ [], raised)

unfoldable pub is_expired : Option ℕ → ℕ → Bool
is_expired none now = false
is_expired (some deadline) now = ltb deadline now

unfoldable pub begun : Text → List RunEvent × Exit → List RunEvent × Exit
unfolding event
begun run (es, x) = (event run 0 started ∷ es, x)

-- The events that are published, and how the handler ends.
unfoldable pub handle : Text → Option ℕ → ℕ → Outcome → List RunEvent × Exit
unfolding event run_graph is_expired begun
handle run deadline_at now outcome =
    if is_expired deadline_at now
    then (event run 0 (error (codes "Request expired in queue.")) ∷ [], returned)
    else begun run (run_graph run outcome)
