-- ===== src/Runs/Tests.antt =====
-- A run from the queue to the response, and the theorems at it.
use omnicare_genai_assessmen.Prelude.{IfOk, List, ◌≡◌, refl, false, none, some, [], ◌∷◌}
use omnicare_genai_assessmen.Text.{Text, codes}
use omnicare_genai_assessmen.Runs.Events.{ToolReport, Verdict, succeeded, Queue, stream}
use omnicare_genai_assessmen.Runs.Events.Depth.{publish_all}
use omnicare_genai_assessmen.Runs.Worker.{Outcome, completed, failed, handle, is_expired}
use omnicare_genai_assessmen.Runs.Worker.Sequence.{stream-handle}
use omnicare_genai_assessmen.Runs.Worker.Loop.{Job, Jobs, handle_jobs}
use omnicare_genai_assessmen.Runs.Worker.Loop.Settled.{IsHandled, handle_jobs-IsHandled}
use omnicare_genai_assessmen.Runs.Chat.{Deps, Fresh, ChatRequest, chat}
use omnicare_genai_assessmen.Runs.Chat.Records.{Settled, chat-Settled}
use omnicare_genai_assessmen.Runs.Gateway.Answer.{reported}

abbrev search : ToolReport
search = record {
  name = codes "search_policy_documents";
  arguments = codes "{}";
  result = some (codes "{}");
  status = succeeded;
}

abbrev sure : Verdict
sure = record {
  confidence = some 85;
  model_confidence = none;
  confidence_reason = none;
  unknown = false;
}

abbrev covered : Outcome
covered = completed (record {
  tool_invocations = search ∷ [];
  interrupt = none;
  answer = codes "You are covered.";
  cited = codes "policy.md" ∷ [];
  trace_id = none;
  verdict = sure;
})

abbrev idle : Queue
idle = record { jobs = []; streams = []; pending = 3 }

no_stream : stream (codes "r1") [] ≡ []
unfolding stream
no_stream = refl

abbrev empty : Deps
empty = record { conversations = record { conversations = []; messages = [] }; queue = idle }

abbrev fresh : Fresh
fresh = record {
  conversation = codes "cnv_1";
  run = codes "r1";
  question = codes "msg_1";
  answer = codes "msg_2";
  asked_at = 1;
  answered_at = 4;
  latency_ms = 3;
}

abbrev request : ChatRequest
request = record {
  user_id = codes "usr_123";
  message = codes "Am I covered?";
  conversation_id = none;
  channel = codes "text";
}

-- The worker handles the run while the gateway waits.
abbrev worked : Queue → Queue
worked q = publish_all (handle (codes "r1") none 2 covered).0 q

chat-Settled_example :
    Settled none 50 request fresh
      (reported (is_expired none 2) covered)
      empty
      (chat none 50 worked request fresh empty).0
      (chat none 50 worked request fresh empty).1
chat-Settled_example =
    chat-Settled none 50 worked request fresh empty none 2 covered
      (stream-handle (codes "r1") none 2 covered idle no_stream)

-- A round of two jobs, of which the second fails.
abbrev job : Text → Outcome → Job
job id o = record {
  entry_id = id;
  run_id = codes "r1";
  deadline_at = some 10;
  now = 5;
  outcome = o;
  broken = none;
  ack_raises = false;
  letter_raises = false;
}

abbrev round : List Job
round = job (codes "1-0") covered ∷ job (codes "2-0") failed ∷ []

abbrev waiting : Jobs
waiting = record {
  published = [];
  unacknowledged = codes "0-0" ∷ codes "1-0" ∷ codes "2-0" ∷ [];
  dead = [];
}

abbrev all_kept : List Text → List Text
all_kept ds = ds

handle_jobs-IsHandled_example :
    IfOk (λ (t : Jobs). IsHandled all_kept waiting t round) (handle_jobs all_kept round waiting)
handle_jobs-IsHandled_example = handle_jobs-IsHandled all_kept round waiting
