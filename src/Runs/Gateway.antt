-- ===== src/Runs/Gateway.antt =====
-- `_collect` of backend/gateway/app/main.py: the events of a run as one response.
pub mod Answer
use omnicare_genai_assessmen.Prelude.{
  ℕ, Bool, true, false, Option, none, some, List, [], ◌∷◌, ◌++◌, if◌then◌else◌,
}
use omnicare_genai_assessmen.Text.{Text, codes, strip}
use omnicare_genai_assessmen.Runs.Events.{
  Status, awaiting_confirmation, ToolReport, Verdict, Kind, queued, started, tool_start, tool_end,
  token, sources, confirm, done, error, RunEvent,
}

-- What has been collected so far.
pub record Collected : Type 0 where
  pub answer : Text
  pub cited : List Text
  pub tool_calls : List ToolReport
  pub trace_id : Option Text
  pub verdict : Option Verdict

pub data Response : Type 0 where
  ok : Collected → Response
  bad_gateway : Text → Response
  gateway_timeout : Response

pub awaiting : Text → ToolReport
awaiting args = record {
  name = codes "submit_claim";
  arguments = args;
  result = none;
  status = awaiting_confirmation;
}

-- After the last event: a run with no terminal event is an error.
respond : Option Verdict → Collected → Response
unfolding strip
respond none c = gateway_timeout
respond (some v) c = ok (record c { answer = strip c.answer })

-- The text of the terminal event, where it has one.
pub text_or : Option Text → Text → Text
text_or (some (c ∷ s)) answer = c ∷ s
text_or _ answer = answer

pub collect_from : Collected → List RunEvent → Response
unfolding respond awaiting text_or
collect_from c [] = respond c.verdict c
collect_from c (e ∷ es) = elim e.kind [
  | queued ↦ collect_from c es
  | started ↦ collect_from c es
  | tool_start ↦ collect_from c es
  | tool_end t ↦ collect_from (record c { tool_calls = c.tool_calls ++ (t ∷ []) }) es
  | token s ↦ collect_from (record c { answer = c.answer ++ s }) es
  | sources ss ↦ collect_from (record c { cited = ss }) es
  | confirm args readback ↦
      collect_from
        (record c {
          answer = c.answer ++ readback;
          tool_calls = c.tool_calls ++ (awaiting args ∷ []);
        })
        es
  | done text trace v ↦
      collect_from (record c { answer = text_or text c.answer; trace_id = trace; verdict = some v })
        es
  | error m ↦ bad_gateway m
]

pub nothing_yet : Collected
nothing_yet = record { answer = []; cited = []; tool_calls = []; trace_id = none; verdict = none }

unfoldable pub collect : List RunEvent → Response
unfolding collect_from nothing_yet
collect es = collect_from nothing_yet es
