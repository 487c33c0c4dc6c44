-- ===== src/Runs/Chat.antt =====
-- `chat` of backend/gateway/app/main.py: one turn, from the request to the response. What the rate
-- limiter says is an argument, and so is what the other tasks do to the queue while the gateway
-- waits.
pub mod Records
use omnicare_genai_assessmen.Prelude.{
  ℕ, Bool, true, false, Option, none, some, List, [], ◌∷◌, if◌then◌else◌, ltb,
}
use omnicare_genai_assessmen.Text.{Text, codes}
use omnicare_genai_assessmen.Conversations.{
  Role, user, assistant, Entry, Store, ensure, add_message,
}
use omnicare_genai_assessmen.Runs.Events.{ToolReport, Verdict, Queue, stream, enqueue, delivered}
use omnicare_genai_assessmen.Runs.Gateway.{
  Collected, Response, ok, bad_gateway, gateway_timeout, collect,
}

pub record ChatRequest : Type 0 where
  pub user_id : Text
  pub message : Text
  pub conversation_id : Option Text
  pub channel : Text

-- The ids that are made and the times that are read in one call.
pub record Fresh : Type 0 where
  pub conversation : Text
  pub run : Text
  pub question : Text
  pub answer : Text
  pub asked_at : ℕ
  pub answered_at : ℕ
  pub latency_ms : ℕ

pub record ChatResponse : Type 0 where
  pub response : Text
  pub sources : List Text
  pub tool_calls : List ToolReport
  pub conversation_id : Text
  pub trace_id : Option Text
  pub verdict : Option Verdict

pub record HttpError : Type 0 where
  pub status_code : ℕ
  pub detail : Text
  pub retry_after : Option ℕ

pub data Result : Type 0 where
  answered : ChatResponse → Result
  raised : HttpError → Result

-- The state that the handler keeps: the conversations and the queue.
pub record Deps : Type 0 where
  pub conversations : Store
  pub queue : Queue

abbrev pub too_many : ℕ → HttpError
too_many n = record { status_code = 429; detail = codes "Too many requests."; retry_after = some n }

abbrev pub busy : HttpError
busy = record {
  status_code = 429;
  detail = codes "The assistant is busy. Please try again shortly.";
  retry_after = some 5;
}

abbrev pub no_answer : HttpError
no_answer = record {
  status_code = 504;
  detail = codes "The assistant did not respond in time. Please try again.";
  retry_after = none;
}

abbrev pub unavailable : Text → HttpError
unavailable m = record { status_code = 502; detail = m; retry_after = none }

-- The two messages of a turn.
abbrev pub question_of : ChatRequest → Fresh → Entry
question_of r f = record {
  id = f.question;
  role = user;
  content = r.message;
  sources = [];
  tool_calls = [];
  channel = r.channel;
  provider = none;
  model = none;
  latency_ms = none;
  trace_id = none;
  created_at = f.asked_at;
}

abbrev pub answer_of : ChatRequest → Fresh → Collected → Entry
answer_of r f c = record {
  id = f.answer;
  role = assistant;
  content = c.answer;
  sources = c.cited;
  tool_calls = c.tool_calls;
  channel = r.channel;
  provider = none;
  model = none;
  latency_ms = some f.latency_ms;
  trace_id = c.trace_id;
  created_at = f.answered_at;
}

abbrev pub response_of : Text → Collected → ChatResponse
response_of id c = record {
  response = c.answer;
  sources = c.cited;
  tool_calls = c.tool_calls;
  conversation_id = id;
  trace_id = c.trace_id;
  verdict = c.verdict;
}

unfoldable pub answer_turn : Response → ChatRequest → Fresh → Text → Deps → Result × Deps
unfolding add_message
answer_turn (ok c) r f id st = (
  answered (response_of id c),
  record st { conversations = add_message id (answer_of r f c) st.conversations },
)
answer_turn (bad_gateway m) r f id st = (raised (unavailable m), st)
answer_turn gateway_timeout r f id st = (raised no_answer, st)

unfoldable pub ask : (Queue → Queue) → ChatRequest → Fresh → Deps → Result × Deps
unfolding ensure add_message enqueue stream delivered collect answer_turn
ask others r f st =
    let opened = ensure r.user_id r.conversation_id f.conversation f.asked_at st.conversations in
    let queue = others (enqueue f.run st.queue) in
    answer_turn (collect (delivered (stream f.run queue.streams))) r f opened.0
      (record { conversations = add_message opened.0 (question_of r f) opened.1; queue = queue })

unfoldable pub chat : Option ℕ → ℕ → (Queue → Queue) → ChatRequest → Fresh → Deps → Result × Deps
unfolding ask
chat (some retry_after) max_queue_depth others r f st = (raised (too_many retry_after), st)
chat none max_queue_depth others r f st =
    if ltb max_queue_depth st.queue.pending then (raised busy, st) else ask others r f st
