-- ===== src/Runs/Events.antt =====
-- The events of a run (backend/libs/contracts/events.py), and the queue in memory that carries them
-- (backend/libs/adapters/queue_memory.py).
pub mod Depth
use omnicare_genai_assessmen.Prelude.{
  ℕ, zero, suc, ◌+◌, ◌-◌, Bool, true, false, Option, none, some, List, [], ◌∷◌, ◌++◌, if◌then◌else◌,
}
use omnicare_genai_assessmen.Text.{Text, same}

pub data Status : Type 0 where
  succeeded errored awaiting_confirmation denied : Status

-- A tool call as it is reported; arguments and result are what they print as.
pub record ToolReport : Type 0 where
  pub name : Text
  pub arguments : Text
  pub result : Option Text
  pub status : Status

-- What the system says of an answer.
pub record Verdict : Type 0 where
  pub confidence : Option ℕ
  pub model_confidence : Option ℕ
  pub confidence_reason : Option Text
  pub unknown : Bool

-- The type of an event with its payload.
pub data Kind : Type 0 where
  queued started tool_start : Kind
  tool_end : ToolReport → Kind
  token : Text → Kind
  sources : List Text → Kind
  confirm : Text → Text → Kind  -- the arguments, the read-back
  done : Option Text → Option Text → Verdict → Kind  -- a text, the id of the trace
  error : Text → Kind

pub record RunEvent : Type 0 where
  pub run_id : Text
  pub kind : Kind
  pub seq : ℕ

unfoldable pub ends : Kind → Bool
ends (done text trace v) = true
ends (error m) = true
ends _ = false

unfoldable pub is_terminal : RunEvent → Bool
unfolding ends
is_terminal e = ends e.kind

-- The jobs that wait, the streams by run, and how many runs are pending.
pub record Queue : Type 0 where
  pub jobs : List Text
  pub streams : List (Text × List RunEvent)
  pub pending : ℕ

unfoldable pub stream : Text → List (Text × List RunEvent) → List RunEvent
stream run [] = []
stream run ((r, es) ∷ rest) = let later = stream run rest in if same r run then es else later

-- `setdefault(run_id, []).append(event)`
pub append_event : RunEvent → List (Text × List RunEvent) → List (Text × List RunEvent)
append_event e [] = (e.run_id, e ∷ []) ∷ []
append_event e ((r, es) ∷ rest) =
    let later = append_event e rest in
    if same r e.run_id then (r, es ++ (e ∷ [])) ∷ rest else (r, es) ∷ later

pub opened : Text → List (Text × List RunEvent) → List (Text × List RunEvent)
opened run [] = (run, []) ∷ []
opened run ((r, es) ∷ rest) =
    let later = opened run rest in if same r run then (r, es) ∷ rest else (r, es) ∷ later

unfoldable pub enqueue : Text → Queue → Queue
unfolding opened
enqueue run q = record {
  jobs = q.jobs ++ (run ∷ []);
  streams = opened run q.streams;
  pending = q.pending + 1;
}

unfoldable pub publish : RunEvent → Queue → Queue
unfolding append_event
publish e q = record q {
  streams = append_event e q.streams;
  pending = if is_terminal e then q.pending - 1 else q.pending;
}

-- What `subscribe` yields of a stream that is complete: all up to the first terminal event.
unfoldable pub delivered : List RunEvent → List RunEvent
delivered [] = []
delivered (e ∷ es) = let rest = delivered es in if is_terminal e then e ∷ [] else e ∷ rest
